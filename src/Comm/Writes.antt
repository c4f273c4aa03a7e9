-- ===== src/Comm/Writes.antt =====
-- What a page's request to configure a board sends, and its result.
use arm_ucos_proxy.Base.{
  ℕ, ◌≡◌, ◌≢◌, refl, Bool, true, false, List, ◌∷◌, none, if◌then◌else◌, ◌==◌, ==_iff, arith,
}
use arm_ucos_proxy.Base.Outcome.{done, Status, ok, err, Action, ◌>>=◌}
use arm_ucos_proxy.Comm.State.{WebDybArg, WebDybFrame, WebCtrlComm, Codes, Exchange}
use arm_ucos_proxy.Comm.Require.{request_frame, ctrl_require}
use arm_ucos_proxy.Comm.Captures.{last_frame, replies}
use arm_ucos_proxy.Comm.Answers.{
  IsSafe, heard, unanswered, answered, ctrl_require-silent, ctrl_require-answered,
}
use arm_ucos_proxy.Comm.Device.{IsSame}
use arm_ucos_proxy.Comm.Write.{
  check_status, set_request, store16s, web_write_opt, web_write_eth, web_write_e1,
}

-- The result by what comes in time, with the shared frame before it.
abbrev pub write_result : Exchange → WebDybFrame → Status
write_result ex old =
    if replies ex.reply == 0
    then err
    else if (last_frame ex.reply (last_frame ex.early old)).hdr.cmd_status == 0
    then ok
    else err

module _ (link : List WebDybFrame → Exchange) where
  abbrev pub Writes : WebDybArg → Action WebCtrlComm Status → WebCtrlComm → Type 0
  Writes arg act s =
      (s' : WebCtrlComm) × (act s ≡ done (write_result (heard link arg s) s.frame, s'))
      × (s'.sent ≡ request_frame arg ∷ s.sent)
      × IsSame s s'

  write-Writes :
      (arg : WebDybArg) (s : WebCtrlComm) (silent : Bool)
      → (replies (heard link arg s).reply == 0) ≡ silent
      → IsSafe (heard link arg s)
      → s.ll_access_mtx ≡ 1
      → Writes arg (ctrl_require link arg none >>= check_status) s
  unfolding check_status
  write-Writes arg s true q safe one =
      let nothing = (==_iff (replies (heard link arg s).reply) 0).0 q in
      (
        unanswered arg (heard link arg s) s,
        rw (ctrl_require-silent link arg none s safe (omega arith) nothing, ◌>>=◌, q) refl,
        refl,
        ground arith,
      )
  write-Writes arg s false q safe one =
      let some_came : replies (heard link arg s).reply ≢ 0 = ground arith in
      (
        answered arg (heard link arg s) none s,
        rw (ctrl_require-answered link arg none s safe (omega arith) some_came, ◌>>=◌, q) refl,
        refl,
        ground arith,
      )

  module _ (codes : Codes) where
    open codes use {setconfig, opt_config, eth_ge_config, eth_fe_config, e1_config_state}

    -- With a free mutex a board's optical ports are configured by one frame to the board. The
    -- request succeeds exactly when a reply comes in time and the last frame that came has status
    -- 0; it gives the mutex back and leaves the tables alone.
    pub web_write_opt_lem :
        (board : ℕ) (buf : List ℕ) (s : WebCtrlComm)
        → let arg = set_request s.dev_id board setconfig opt_config buf 8 in
          IsSafe (heard link arg s)
          → s.ll_access_mtx ≡ 1
          → Writes arg (web_write_opt codes link board buf) s
    unfolding web_write_opt
    web_write_opt_lem board buf s safe one =
        write-Writes (set_request s.dev_id board setconfig opt_config buf 8) s _ refl safe one

    pub web_write_e1_lem :
        (board : ℕ) (buf : List ℕ) (s : WebCtrlComm)
        → let arg = set_request s.dev_id board setconfig e1_config_state buf 32 in
          IsSafe (heard link arg s)
          → s.ll_access_mtx ≡ 1
          → Writes arg (web_write_e1 codes link board buf) s
    unfolding web_write_e1
    web_write_e1_lem board buf s safe one =
        write-Writes (set_request s.dev_id board setconfig e1_config_state buf 32) s _ refl safe one

    -- The frame for one of the two kinds of ethernet ports.
    abbrev pub eth_request : Bool → ℕ → List ℕ → WebCtrlComm → WebDybArg
    eth_request ge board buf s =
        set_request s.dev_id board setconfig (if ge then eth_ge_config else eth_fe_config)
          (store16s buf) (if ge then 8 else 32)

    pub web_write_eth_lem :
        (ge : Bool) (board : ℕ) (buf : List ℕ) (s : WebCtrlComm)
        → IsSafe (heard link (eth_request ge board buf s) s)
        → s.ll_access_mtx ≡ 1
        → Writes (eth_request ge board buf s) (web_write_eth codes link ge board buf) s
    unfolding web_write_eth
    web_write_eth_lem ge board buf s safe one =
        write-Writes (eth_request ge board buf s) s _ refl safe one
