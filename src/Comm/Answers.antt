-- ===== src/Comm/Answers.antt =====
-- What one request does, by what the link delivers around it.
use arm_ucos_proxy.Base.{
  ℕ, ◌+◌, ◌-◌, ◌≡◌, ◌≢◌, refl, false, List, ◌∷◌, none, some, take, ◌==◌, ==_ne, arith,
}
use arm_ucos_proxy.Base.Outcome.{done, ok, err, ◌>>=◌}
use arm_ucos_proxy.Comm.State.{WebDybArg, WebDybFrame, WebCtrlComm, Exchange}
use arm_ucos_proxy.Comm.Require.{
  request_frame, ctrl_send_dyb_frame, pend_ll_access, post_ll_access, pend_wait_sem,
  ctrl_wait_dyb_reply, copy_reply, Destination, ctrl_require,
}
use arm_ucos_proxy.Comm.Captures.{AllFit, last_frame, replies, capture_all_lem}

-- Every frame around the request can be copied.
pub record IsSafe (ex : Exchange) : Type 0 where
  pub early : AllFit ex.early
  pub reply : AllFit ex.reply

-- The state while the mutex is held, at the end of the wait.
abbrev pub waited : WebDybArg → Exchange → ℕ → WebCtrlComm → WebCtrlComm
waited arg ex sem s = record s {
  ll_access_mtx = s.ll_access_mtx - 1;
  frame = last_frame ex.reply (last_frame ex.early s.frame);
  wait_sem = sem;
  sent = request_frame arg ∷ s.sent;
}

abbrev pub released : WebCtrlComm → WebCtrlComm
released s = record s { ll_access_mtx = s.ll_access_mtx + 1 }

-- The end of a request with no reply, and of one with some.
abbrev pub unanswered : WebDybArg → Exchange → WebCtrlComm → WebCtrlComm
unanswered arg ex s = released (waited arg ex 0 s)

abbrev pub stored : Destination → WebCtrlComm → WebCtrlComm
stored none s = s
stored (some (cp_size, cp_dst)) s = cp_dst (take cp_size s.frame.body) s

abbrev pub answered : WebDybArg → Exchange → Destination → WebCtrlComm → WebCtrlComm
answered arg ex dst s = released (stored dst (waited arg ex (0 + replies ex.reply - 1) s))

pend-free :
    (s : WebCtrlComm)
    → s.ll_access_mtx ≢ 0
    → pend_ll_access s ≡ done (tt, record s { ll_access_mtx = s.ll_access_mtx - 1 })
unfolding pend_ll_access
pend-free s h = rw (==_ne s.ll_access_mtx 0 h)

send_lem :
    (arg : WebDybArg) (s : WebCtrlComm)
    → ctrl_send_dyb_frame arg s ≡ done (tt, record s { sent = request_frame arg ∷ s.sent })
unfolding ctrl_send_dyb_frame
send_lem arg s = refl

post_lem : (s : WebCtrlComm) → post_ll_access s ≡ done (tt, released s)
unfolding post_ll_access
post_lem s = refl

copy_err : (dst : Destination) (s : WebCtrlComm) → copy_reply err dst s ≡ done (tt, s)
unfolding copy_reply
copy_err dst s = refl

copy_ok : (dst : Destination) (s : WebCtrlComm) → copy_reply ok dst s ≡ done (tt, stored dst s)
unfolding copy_reply
copy_ok none s = refl
copy_ok (some (n, store)) s = refl

-- The wait ends in a timeout exactly when no reply came.
wait-silent :
    (reply : List WebDybFrame) (s : WebCtrlComm)
    → AllFit reply
    → replies reply ≡ 0
    → ctrl_wait_dyb_reply reply s
      ≡ done (err, record s { frame = last_frame reply s.frame; wait_sem = 0 })
unfolding ctrl_wait_dyb_reply pend_wait_sem
wait-silent reply s h e =
    rw (capture_all_lem reply (record s { wait_sem = 0 }) h, ◌>>=◌) (rw e refl)

wait-answered :
    (reply : List WebDybFrame) (s : WebCtrlComm)
    → AllFit reply
    → replies reply ≢ 0
    → ctrl_wait_dyb_reply reply s
      ≡ done (ok, record s { frame = last_frame reply s.frame; wait_sem = 0 + replies reply - 1 })
unfolding ctrl_wait_dyb_reply pend_wait_sem
wait-answered reply s h e =
    let test : (0 + replies reply == 0) ≡ false = ground arith in
    rw (capture_all_lem reply (record s { wait_sem = 0 }) h, ◌>>=◌) (rw test refl)

-- What the link delivers around a request.
abbrev pub heard : (List WebDybFrame → Exchange) → WebDybArg → WebCtrlComm → Exchange
heard link arg s = link (request_frame arg ∷ s.sent)

module _ (link : List WebDybFrame → Exchange) (arg : WebDybArg) (dst : Destination)
    (s : WebCtrlComm) (safe : IsSafe (heard link arg s)) (free : s.ll_access_mtx ≢ 0) where
  -- With no reply in time a request fails, releases the mutex and stores nothing.
  pub ctrl_require-silent :
      replies (heard link arg s).reply ≡ 0
      → ctrl_require link arg dst s ≡ done (err, unanswered arg (heard link arg s) s)
  unfolding ctrl_require
  ctrl_require-silent none_came =
      rw (pend-free s free, ◌>>=◌)
        (rw (send_lem, ◌>>=◌)
          (rw (capture_all_lem (heard link arg s).early _ safe.early, ◌>>=◌)
            (rw (wait-silent (heard link arg s).reply _ safe.reply none_came, ◌>>=◌)
              (rw (copy_err, ◌>>=◌) (rw (post_lem, ◌>>=◌) refl)))))

  -- With a reply in time a request succeeds, releases the mutex and stores the start of the body
  -- of the last frame that came.
  pub ctrl_require-answered :
      replies (heard link arg s).reply ≢ 0
      → ctrl_require link arg dst s ≡ done (ok, answered arg (heard link arg s) dst s)
  unfolding ctrl_require
  ctrl_require-answered some_came =
      rw (pend-free s free, ◌>>=◌)
        (rw (send_lem, ◌>>=◌)
          (rw (capture_all_lem (heard link arg s).early _ safe.early, ◌>>=◌)
            (rw (wait-answered (heard link arg s).reply _ safe.reply some_came, ◌>>=◌)
              (rw (copy_ok, ◌>>=◌) (rw (post_lem, ◌>>=◌) refl)))))
