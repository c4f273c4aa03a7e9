-- ===== src/Ports/E1Submit.antt =====
-- What a submitted form of the E1 page does.
use arm_ucos_proxy.Base.{
  ℕ, ◌≤◌, ◌<◌, ◌≡◌, refl, false, List, ◌∷◌, ◌++◌, some, length, get_or, replicate, ltb, lt→ltb,
  arith,
}
use arm_ucos_proxy.Base.Outcome.{done, Action, ◌>>=◌}
use arm_ucos_proxy.Comm.State.{WebDybFrame, Codes, Exchange, zero_e1}
use arm_ucos_proxy.Comm.Require.{request_frame}
use arm_ucos_proxy.Comm.Answers.{IsSafe, heard}
use arm_ucos_proxy.Comm.Device.{IsSame}
use arm_ucos_proxy.Comm.Write.{set_request}
use arm_ucos_proxy.Comm.Writes.{write_result, web_write_e1_lem}
use arm_ucos_proxy.Ports.Text.{Text, find_cgi_parameter, atoi, board_param, portno_param}
use arm_ucos_proxy.Ports.State.{PortPages, AjaxPage, e1_write, on_control}
use arm_ucos_proxy.Ports.E1.{configure_e1, e1_cgi_interface}
use arm_ucos_proxy.Ports.Settings.{Changes}
use arm_ucos_proxy.Ports.E1Forms.{E1Set, e1_frames-Sets}

module _ (codes : Codes) (link : List WebDybFrame → Exchange) where
  open codes use {setconfig, e1_config_state}

  -- One frame with these bytes goes to the board, and its result is kept for the page.
  abbrev pub ConfiguresE1 : ℕ → List ℕ → Action PortPages AjaxPage → PortPages → Type 0
  ConfiguresE1 board buf act s =
      let arg =
        set_request s.web_control.dev_id board setconfig e1_config_state (buf ++ replicate 24 0)
          32 in
      (s' : PortPages) × (act s ≡ done (e1_write, s'))
      × (s'.web_control.sent ≡ request_frame arg ∷ s.web_control.sent)
      × (s'.e1_config_state ≡ write_result (heard link arg s.web_control) s.web_control.frame)
      × IsSame s.web_control s'.web_control

  configure_e1-ConfiguresE1 :
      (board : ℕ) (buf : List ℕ) (s : PortPages)
      → ((sent : List WebDybFrame) → IsSafe (link sent))
      → s.web_control.ll_access_mtx ≡ 1
      → ConfiguresE1 board buf (configure_e1 codes link board buf) s
  unfolding configure_e1
  configure_e1-ConfiguresE1 board buf s safe one =
      let whole = buf ++ replicate 24 0 in
      let arg = set_request s.web_control.dev_id board setconfig e1_config_state whole 32 in
      let (c, e, sent, same) = web_write_e1_lem link codes board whole s.web_control (safe _) one in
      (
        record s {
          web_control = c;
          e1_config_state = write_result (heard link arg s.web_control) s.web_control.frame;
        },
        rw (◌>>=◌, on_control, e) refl,
        sent,
        refl,
        same,
      )

  -- A form with a board of the table and a port of the board's configuration is answered by the
  -- page of a configuration, on a link whose frames all fit and with a free mutex: one frame goes
  -- to that board, with the board's configuration in which each setting of that port is the one
  -- that the text of the form stands for, or as it was if the form has none, and all else is as it
  -- was; and the page's state is the frame's result.
  pub e1_cgi_interface-ConfiguresE1 :
      (params : List (Text × Text)) (s : PortPages) (b n : Text)
      → 2 ≤ length params
      → find_cgi_parameter board_param params ≡ some b
      → find_cgi_parameter portno_param params ≡ some n
      → atoi b < length s.web_control.e1
      → let config = (get_or s.web_control.e1 (atoi b) zero_e1).config in
        atoi n < length config
        → ((sent : List WebDybFrame) → IsSafe (link sent))
        → s.web_control.ll_access_mtx ≡ 1
        → (buf : List ℕ) × Changes (E1Set params) (atoi n) config buf
          × ConfiguresE1 (atoi b) buf (e1_cgi_interface codes link params) s
  unfolding e1_cgi_interface
  e1_cgi_interface-ConfiguresE1 params s b n two hb hn board port safe one =
      let config = (get_or s.web_control.e1 (atoi b) zero_e1).config in
      let (r, buf, e, keeps) = e1_frames-Sets (atoi n) params config port in
      let (s', run, sent, state, same) = configure_e1-ConfiguresE1 (atoi b) buf s safe one in
      let many : ltb (length params) 2 ≡ false = ground arith in
      (
        buf,
        keeps,
        (s', rw (e1_cgi_interface, many, hb, hn, lt→ltb _ _ board, e) run, sent, state, same),
      )
