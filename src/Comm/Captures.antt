-- ===== src/Comm/Captures.antt =====
-- What the receiver of the link does to the shared frame and the semaphore.
use arm_ucos_proxy.Base.{
  ℕ, ◌+◌, ◌≤◌, ◌≡◌, Bool, ◌&&◌, List, [], ◌∷◌, length, take, ◌==◌, if◌then◌else◌, Bool-cases, inl,
  inr, arith,
}
use arm_ucos_proxy.Base.Bytes.{overwrite}
use arm_ucos_proxy.Base.Outcome.{done}
use arm_ucos_proxy.Comm.State.{web_seq_field, web_threadid_field, WebDybFrame, WebCtrlComm}
use arm_ucos_proxy.Comm.Require.{ctrl_dyb_frame_capture, capture_all}

-- The test of the receiver.
abbrev pub is_reply : WebDybFrame → Bool
is_reply f = web_seq_field == f.hdr.server_seq && web_threadid_field == f.hdr.thread_netid

-- A frame that the receiver can copy.
abbrev pub Fits : WebDybFrame → Type 0
Fits f = (f.hdr.cmd_len ≤ 256) × (f.hdr.cmd_len ≤ length f.body)

abbrev pub AllFit : List WebDybFrame → Type 0
AllFit [] = Unit
AllFit (f ∷ fs) = Fits f × AllFit fs

-- The shared frame, and how often the semaphore is posted, after some frames.
abbrev pub copied : WebDybFrame → WebDybFrame → WebDybFrame
copied f old = record { hdr = f.hdr; body = overwrite (take f.hdr.cmd_len f.body) old.body }

unfoldable pub last_frame : List WebDybFrame → WebDybFrame → WebDybFrame
last_frame [] old = old
last_frame (f ∷ fs) old = last_frame fs (if is_reply f then copied f old else old)

unfoldable pub replies : List WebDybFrame → ℕ
replies [] = 0
replies (f ∷ fs) = (if is_reply f then 1 else 0) + replies fs

-- Frames that fit are captured with no fault.
pub capture_all_lem :
    (fs : List WebDybFrame) (s : WebCtrlComm)
    → AllFit fs
    → capture_all fs s
      ≡ done (tt, record s { frame = last_frame fs s.frame; wait_sem = s.wait_sem + replies fs })
unfolding capture_all ctrl_dyb_frame_capture last_frame replies
capture_all_lem [] s h = ground arith
capture_all_lem (f ∷ fs) s h = elim (Bool-cases (is_reply f)) [
  | inl e ↦ ground (
    arith,
    capture_all_lem fs (record s { frame = copied f s.frame; wait_sem = s.wait_sem + 1 }) h.1,
  )
  | inr e ↦ ground (arith, capture_all_lem fs s h.1)
]
