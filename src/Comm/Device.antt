-- ===== src/Comm/Device.antt =====
-- A device on the link that answers some requests and not others, and what a page's request does.
use arm_ucos_proxy.Base.{
  ℕ, ◌+◌, ◌-◌, ◌≡◌, ◌≢◌, ◌∙◌, ap, List, Option, none, some, length, take, arith,
}
use arm_ucos_proxy.Base.Outcome.{done, Status, ok, err}
use arm_ucos_proxy.Comm.State.{WebDybArg, WebDybFrame, WebCtrlComm, Exchange}
use arm_ucos_proxy.Comm.Require.{ctrl_require}
use arm_ucos_proxy.Comm.Captures.{last_frame, replies}
use arm_ucos_proxy.Comm.Answers.{
  IsSafe, heard, waited, released, unanswered, ctrl_require-silent, ctrl_require-answered,
}

-- The link delivers no reply, or replies the last of which leaves these bytes in the shared frame.
-- Other frames, and replies before the request, may come at any time.
abbrev pub Delivers : Exchange → Option (List ℕ) → Type 0
Delivers ex none = IsSafe ex × (replies ex.reply ≡ 0)
Delivers ex (some bytes) =
    IsSafe ex
    × (replies ex.reply ≢ 0)
    × ((old : WebDybFrame) → take (length bytes) (last_frame ex.reply old).body ≡ bytes)

-- What a request leaves alone, whatever comes of it: the tables, and the free mutex.
pub record IsSame (s s' : WebCtrlComm) : Type 0 where
  pub mtx : s'.ll_access_mtx ≡ s.ll_access_mtx
  pub dev_id : s'.dev_id ≡ s.dev_id
  pub boards_exist : s'.boards_exist ≡ s.boards_exist
  pub bulb_ver : s'.bulb_ver ≡ s.bulb_ver
  pub opt : s'.opt ≡ s.opt
  pub eth : s'.eth ≡ s.eth
  pub e1 : s'.e1 ≡ s.e1
  pub cr_remote_chosen : s'.cr_remote_chosen ≡ s.cr_remote_chosen

-- The tables alone.
pub record HasSameTables (s s' : WebCtrlComm) : Type 0 where
  pub bulb_ver : s'.bulb_ver ≡ s.bulb_ver
  pub opt : s'.opt ≡ s.opt
  pub eth : s'.eth ≡ s.eth
  pub e1 : s'.e1 ≡ s.e1

-- The result of a request by its reply.
abbrev pub reply_status : Option (List ℕ) → Status
reply_status none = err
reply_status (some bytes) = ok

abbrev pub reply_store :
    Option (List ℕ) → (List ℕ → WebCtrlComm → WebCtrlComm) → WebCtrlComm → WebCtrlComm
reply_store none store s = s
reply_store (some bytes) store s = store bytes s

abbrev pub HasSize : ℕ → Option (List ℕ) → Type 0
HasSize n none = Unit
HasSize n (some bytes) = length bytes ≡ n

-- A store that does not touch the mutex.
abbrev pub Commutes : (List ℕ → WebCtrlComm → WebCtrlComm) → Type 0
Commutes store = (b : List ℕ) (s : WebCtrlComm) → released (store b s) ≡ store b (released s)

module _ (link : List WebDybFrame → Exchange) (arg : WebDybArg) (size : ℕ)
    (store : List ℕ → WebCtrlComm → WebCtrlComm) (commutes : Commutes store) where
  -- With a free mutex a request for so many bytes returns, with success exactly when a reply of
  -- this size came; then its bytes are stored, and nothing else changes but the shared frame, the
  -- semaphore of the wait and the log. (The store does not touch the mutex.)
  pub ctrl_require_lem :
      (reply : Option (List ℕ)) (s : WebCtrlComm)
      → Delivers (heard link arg s) reply
      → HasSize size reply
      → s.ll_access_mtx ≡ 1
      → (t : WebCtrlComm) × IsSame s t
        × (ctrl_require link arg (some (size, store)) s
            ≡ done (reply_status reply, reply_store reply store t))
  ctrl_require_lem none s d h one = (
    unanswered arg (heard link arg s) s,
    ground arith,
    ctrl_require-silent link arg (some (size, store)) s d.0 (omega arith) d.1,
  )
  ctrl_require_lem (some bytes) s d h one =
      let ex = heard link arg s in
      let sem = 0 + replies ex.reply - 1 in
      let w = waited arg ex sem s in
      (
        released w,
        ground arith,
        ctrl_require-answered link arg (some (size, store)) s d.0 (omega arith) d.1
            ∙ ap (λ x. done (ok, x))
                (commutes _ w ∙ ap (λ b. store b (released w)) (rw (← h) (d.2 _))),
      )
