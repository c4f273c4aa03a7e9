-- ===== src/Ports/EthSubmit.antt =====
-- What a submitted form of the ethernet page does.
use arm_ucos_proxy.Base.{
  ℕ, ◌≤◌, ◌<◌, ◌≡◌, refl, Bool, false, List, ◌∷◌, ◌++◌, some, length, get_or, replicate, ltb,
  lt→ltb, arith, ◌==◌, if◌then◌else◌,
}
use arm_ucos_proxy.Base.Outcome.{done, Action, ◌>>=◌}
use arm_ucos_proxy.Comm.State.{WebDybFrame, WebEth, Codes, Exchange, zero_eth}
use arm_ucos_proxy.Comm.Require.{request_frame}
use arm_ucos_proxy.Comm.Answers.{IsSafe, heard}
use arm_ucos_proxy.Comm.Device.{IsSame}
use arm_ucos_proxy.Comm.Writes.{write_result, eth_request, web_write_eth_lem}
use arm_ucos_proxy.Ports.Text.{Text, find_cgi_parameter, atoi, ge_param, board_param, portno_param}
use arm_ucos_proxy.Ports.State.{PortPages, AjaxPage, eth_write, on_control}
use arm_ucos_proxy.Ports.Eth.{configure_eth, eth_cgi_interface}
use arm_ucos_proxy.Ports.Settings.{Changes}
use arm_ucos_proxy.Ports.EthForms.{EthSet, eth_frames-Sets}

-- The words of a kind of ports, as the handler copies them.
abbrev pub words_of : Bool → WebEth → List ℕ
words_of ge row = if ge then row.ge ++ replicate 12 0 else row.fe

module _ (codes : Codes) (link : List WebDybFrame → Exchange) where
  -- One frame with these words goes to the board, and its result is kept for the page.
  abbrev pub ConfiguresEth : Bool → ℕ → List ℕ → Action PortPages AjaxPage → PortPages → Type 0
  ConfiguresEth ge board buf act s =
      let arg = eth_request link codes ge board buf s.web_control in
      (s' : PortPages) × (act s ≡ done (eth_write, s'))
      × (s'.web_control.sent ≡ request_frame arg ∷ s.web_control.sent)
      × (s'.eth_config_state ≡ write_result (heard link arg s.web_control) s.web_control.frame)
      × IsSame s.web_control s'.web_control

  configure_eth-ConfiguresEth :
      (ge : Bool) (board : ℕ) (buf : List ℕ) (s : PortPages)
      → ((sent : List WebDybFrame) → IsSafe (link sent))
      → s.web_control.ll_access_mtx ≡ 1
      → ConfiguresEth ge board buf (configure_eth codes link ge board buf) s
  unfolding configure_eth
  configure_eth-ConfiguresEth ge board buf s safe one =
      let arg = eth_request link codes ge board buf s.web_control in
      let (c, e, sent, same) =
        web_write_eth_lem link codes ge board buf s.web_control (safe _) one in
      (
        record s {
          web_control = c;
          eth_config_state = write_result (heard link arg s.web_control) s.web_control.frame;
        },
        rw (◌>>=◌, on_control, e) refl,
        sent,
        refl,
        same,
      )

  -- A form with a kind of ports, a board of the table and a port among the board's words of that
  -- kind is answered by the page of a configuration, on a link whose frames all fit and with a
  -- free mutex: one frame goes to that board, with the words of that kind in which each setting of
  -- that port is the one that the text of the form stands for, or as it was if the form has none,
  -- and all else is as it was; and the page's state is the frame's result.
  pub eth_cgi_interface-ConfiguresEth :
      (params : List (Text × Text)) (s : PortPages) (g b n : Text)
      → 2 ≤ length params
      → find_cgi_parameter ge_param params ≡ some g
      → find_cgi_parameter board_param params ≡ some b
      → find_cgi_parameter portno_param params ≡ some n
      → atoi b < length s.web_control.eth
      → let ge = get_or g 0 0 == 71 in
        let words = words_of ge (get_or s.web_control.eth (atoi b) zero_eth) in
        atoi n < length words
        → ((sent : List WebDybFrame) → IsSafe (link sent))
        → s.web_control.ll_access_mtx ≡ 1
        → (buf : List ℕ) × Changes (EthSet params) (atoi n) words buf
          × ConfiguresEth ge (atoi b) buf (eth_cgi_interface codes link params) s
  unfolding eth_cgi_interface
  eth_cgi_interface-ConfiguresEth params s g b n two hg hb hn board port safe one =
      let ge = get_or g 0 0 == 71 in
      let words = words_of ge (get_or s.web_control.eth (atoi b) zero_eth) in
      let (r, buf, e, keeps) = eth_frames-Sets (atoi n) params words port in
      let (s', run, sent, state, same) = configure_eth-ConfiguresEth ge (atoi b) buf s safe one in
      let many : ltb (length params) 2 ≡ false = ground arith in
      (
        buf,
        keeps,
        (s', rw (eth_cgi_interface, many, hg, hb, hn, lt→ltb _ _ board, e) run, sent, state, same),
      )
