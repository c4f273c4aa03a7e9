-- ===== src/Comm/Require.antt =====
-- One exchange with the device: ctrl_send_dyb_frame, ctrl_wait_dyb_reply, ctrl_require and
-- ctrl_dyb_frame_capture of webserver_control_comm.c.
use Prim.Native.Nat.{bit_or}
use arm_ucos_proxy.Base.{
  ℕ, ◌+◌, ◌-◌, ◌*◌, ◌/◌, ◌%◌, Bool, true, false, ◌&&◌, List, [], ◌∷◌, Option, none, some, length,
  take, leb, ◌==◌, if◌then◌else◌,
}
use arm_ucos_proxy.Base.Bytes.{overwrite}
use arm_ucos_proxy.Base.Outcome.{
  done, fault, blocked, Status, ok, err, Action, pure, modify, ◌>>=◌, ◌>>◌,
}
use arm_ucos_proxy.Comm.State.{
  web_seq_field, web_threadid_field, WebDybArg, WebDybFrame, WebCtrlComm, Exchange,
}

-- The head of a request; the link layer gets it with the bytes that follow.
unfoldable pub request_frame : WebDybArg → WebDybFrame
request_frame arg = record {
  hdr = record {
    dst_deviceid = arg.dev_id;
    src_deviceid = 0;
    protocol_ver = 1;
    thread_netid = web_threadid_field;
    board_index = arg.board;
    interface_index = arg.intf;
    server_seq = web_seq_field;
    cmd_ext = arg.cmd_ext % 256;
    cmd_id = bit_or (arg.cmd_id * 16) (arg.cmd_ext % 4096 / 256);
    cmd_status = 0;
    cmd_len = arg.len;
  };
  body = elim arg.buf [ none ↦ [] | some b ↦ take arg.len b ];
}

unfoldable pub ctrl_send_dyb_frame : WebDybArg → Action WebCtrlComm (Unit {0})
ctrl_send_dyb_frame arg = modify λ s. record s { sent = request_frame arg ∷ s.sent }

-- Called by the receiver of the link. The frame is copied with no test against the 256 bytes of
-- `body`; a longer one faults, and so does a head that claims more bytes than the frame has.
unfoldable pub ctrl_dyb_frame_capture : WebDybFrame → Action WebCtrlComm Bool
ctrl_dyb_frame_capture f s =
    let n = f.hdr.cmd_len in
    let copied = record (s.frame) { hdr = f.hdr; body = overwrite (take n f.body) s.frame.body } in
    if web_seq_field == f.hdr.server_seq && web_threadid_field == f.hdr.thread_netid
    then (if leb n 256 && leb n (length f.body)
        then done (true, record s { frame = copied; wait_sem = s.wait_sem + 1 })
        else fault)
    else done (false, s)

unfoldable pub capture_all : List WebDybFrame → Action WebCtrlComm (Unit {0})
capture_all [] = pure tt
capture_all (f ∷ fs) = ctrl_dyb_frame_capture f >> capture_all fs

-- OSSemPend on ll_access_mtx waits for ever, and OSSemPost gives it back.
unfoldable pub pend_ll_access : Action WebCtrlComm (Unit {0})
pend_ll_access s =
    if s.ll_access_mtx == 0
    then blocked
    else done (tt, record s { ll_access_mtx = s.ll_access_mtx - 1 })

unfoldable pub post_ll_access : Action WebCtrlComm (Unit {0})
post_ll_access = modify λ s. record s { ll_access_mtx = s.ll_access_mtx + 1 }

-- OSSemPend on wait_sem, at the end of its second.
unfoldable pub pend_wait_sem : Action WebCtrlComm Status
pend_wait_sem s =
    if s.wait_sem == 0 then done (err, s) else done (ok, record s { wait_sem = s.wait_sem - 1 })

-- OSSemSet, the frames that come within the second, and OSSemPend.
unfoldable pub ctrl_wait_dyb_reply : List WebDybFrame → Action WebCtrlComm Status
ctrl_wait_dyb_reply reply = do
  modify (λ s. record s { wait_sem = 0 })
  capture_all reply
  pend_wait_sem

-- Where a reply goes: the size of the destination, and the store of its bytes.
abbrev pub Destination : Type 0
Destination = Option (ℕ × (List ℕ → WebCtrlComm → WebCtrlComm))

unfoldable pub copy_reply : Status → Destination → Action WebCtrlComm (Unit {0})
copy_reply ok (some (cp_size, cp_dst)) = modify λ s. cp_dst (take cp_size s.frame.body) s
copy_reply _ _ = pure tt

abbrev pub ask_link : (List WebDybFrame → Exchange) → Action WebCtrlComm Exchange
ask_link link s = done (link s.sent, s)

module _ (link : List WebDybFrame → Exchange) where
  -- The answer of the link may depend on every frame sent so far.
  unfoldable pub ctrl_require : WebDybArg → Destination → Action WebCtrlComm Status
  ctrl_require arg dst = do
    pend_ll_access
    ctrl_send_dyb_frame arg
    ex ← ask_link link
    capture_all ex.early
    ret ← ctrl_wait_dyb_reply ex.reply
    copy_reply ret dst
    post_ll_access
    pure ret
