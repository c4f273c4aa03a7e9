-- ===== src/Ports/Submit.antt =====
-- What a submitted form of the optical page does.
use arm_ucos_proxy.Base.{
  ℕ, ◌≤◌, ◌<◌, ◌≡◌, refl, false, List, ◌∷◌, ◌++◌, some, length, get_or, take, replicate, ltb,
  lt→ltb, length-append, arith,
}
use arm_ucos_proxy.Base.Outcome.{done, Action, ◌>>=◌}
use arm_ucos_proxy.Comm.State.{WebDybFrame, Codes, Exchange, zero_opt}
use arm_ucos_proxy.Comm.Require.{request_frame}
use arm_ucos_proxy.Comm.Answers.{IsSafe, heard}
use arm_ucos_proxy.Comm.Device.{IsSame}
use arm_ucos_proxy.Comm.Write.{set_request}
use arm_ucos_proxy.Comm.Writes.{write_result, web_write_opt_lem}
use arm_ucos_proxy.Ports.Text.{Text, find_cgi_parameter, atoi, board_param, portno_param}
use arm_ucos_proxy.Ports.State.{PortPages, AjaxPage, opt_write, on_control}
use arm_ucos_proxy.Ports.Opt.{configure_opt, opt_cgi_interface}
use arm_ucos_proxy.Ports.Settings.{Changes}
use arm_ucos_proxy.Ports.Forms.{OptSet, opt_frames-Sets}

module _ (codes : Codes) (link : List WebDybFrame → Exchange) where
  open codes use {setconfig, opt_config}

  -- One frame with these bytes goes to the board, and its result is kept for the page.
  abbrev pub Configures : ℕ → List ℕ → Action PortPages AjaxPage → PortPages → Type 0
  Configures board buf act s =
      let arg = set_request s.web_control.dev_id board setconfig opt_config buf 8 in
      (s' : PortPages) × (act s ≡ done (opt_write, s'))
      × (s'.web_control.sent ≡ request_frame arg ∷ s.web_control.sent)
      × (s'.opt_config_state ≡ write_result (heard link arg s.web_control) s.web_control.frame)
      × IsSame s.web_control s'.web_control

  configure-Configures :
      (board : ℕ) (buf : List ℕ) (s : PortPages)
      → ((sent : List WebDybFrame) → IsSafe (link sent))
      → s.web_control.ll_access_mtx ≡ 1
      → Configures board buf (configure_opt codes link board buf) s
  unfolding configure_opt
  configure-Configures board buf s safe one =
      let (c, e, sent, same) = web_write_opt_lem link codes board buf s.web_control (safe _) one in
      (
        record s {
          web_control = c;
          opt_config_state =
              write_result
                (heard link (set_request s.web_control.dev_id board setconfig opt_config buf 8)
                  s.web_control)
                s.web_control.frame;
        },
        rw (◌>>=◌, on_control, e) refl,
        sent,
        refl,
        same,
      )

  -- A form with a board of the table and a port of the board's configuration is answered by the page of a
  -- configuration, on a link whose frames all fit and with a free mutex: one frame goes to that
  -- board, with the board's configuration in which each setting of that port is the one that the
  -- text of the form stands for, or as it was if the form has none, and all else is as it was; and
  -- the page's state is the frame's result.
  pub opt_cgi_interface-Configures :
      (params : List (Text × Text)) (s : PortPages) (b n : Text)
      → 2 ≤ length params
      → find_cgi_parameter board_param params ≡ some b
      → find_cgi_parameter portno_param params ≡ some n
      → atoi b < length s.web_control.opt
      → let config = (get_or s.web_control.opt (atoi b) zero_opt).config in
        atoi n < length (take 8 config)
        → ((sent : List WebDybFrame) → IsSafe (link sent))
        → s.web_control.ll_access_mtx ≡ 1
        → (buf : List ℕ) × Changes (OptSet params) (atoi n) (take 8 config ++ replicate 8 0) buf
          × Configures (atoi b) buf (opt_cgi_interface codes link params) s
  unfolding opt_cgi_interface
  opt_cgi_interface-Configures params s b n two hb hn board port safe one =
      let config = (get_or s.web_control.opt (atoi b) zero_opt).config in
      let old = take 8 config ++ replicate 8 0 in
      let (r, buf, e, keeps) =
        opt_frames-Sets (atoi n) params old
          (omega (arith, length-append (take 8 config) (replicate 8 0))) in
      let (s', run, sent, state, same) = configure-Configures (atoi b) buf s safe one in
      let many : ltb (length params) 2 ≡ false = ground arith in
      (
        buf,
        keeps,
        (s', rw (opt_cgi_interface, many, hb, hn, lt→ltb _ _ board, e) run, sent, state, same),
      )
