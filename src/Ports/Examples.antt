-- ===== src/Ports/Examples.antt =====
-- The theorems about the port pages at inputs that meet their hypotheses.
use arm_ucos_proxy.Base.Outcome.{ok}
use arm_ucos_proxy.Base.{refl, ℕ, ◌+◌, ◌≡◌, List, [], ◌∷◌, some, map, take, replicate, arith}
use arm_ucos_proxy.Comm.State.{WebOpt, WebCtrlComm, WebDybFrame, Exchange, zero_opt}
use arm_ucos_proxy.Ports.Text.{
  Text, text_equal, find_cgi_parameter, digits_value, skip_space, atoi, board_param, portno_param,
  cgistr_enable, cgistr_loop_device,
}
use arm_ucos_proxy.Ports.Opt.{
  opt_switch_param, opt_loop_param, opt_get_msg_according_to_lineno, opt_cgi_interface,
}
use arm_ucos_proxy.Ports.Lines.{total, opt_get_msg_according_to_lineno-hit}
use arm_ucos_proxy.Ports.Forms.{OptSet}
use arm_ucos_proxy.Ports.Settings.{Changes}
use arm_ucos_proxy.Ports.State.{PortPages}
use arm_ucos_proxy.Ports.E1.{e1_loop_param, e1_switch_param}
use arm_ucos_proxy.Ports.Eth.{eth_bandwidth_param, eth_switch_param, bandwidth_100m}
use arm_ucos_proxy.Ports.E1Forms.{E1Set}
use arm_ucos_proxy.Ports.EthForms.{EthSet}
use arm_ucos_proxy.Ports.Text.{ge_param}
use arm_ucos_proxy.Base.{true}
use arm_ucos_proxy.Ports.E1.{e1_cgi_interface}
use arm_ucos_proxy.Ports.Eth.{eth_cgi_interface}
use arm_ucos_proxy.Ports.E1Submit.{ConfiguresE1, e1_cgi_interface-ConfiguresE1}
use arm_ucos_proxy.Ports.EthSubmit.{ConfiguresEth, eth_cgi_interface-ConfiguresEth}
use arm_ucos_proxy.Base.{get_or-replicate, ap, length}
use arm_ucos_proxy.Base.Outcome.{done}
use arm_ucos_proxy.Ports.Opt.{opt_text}
use arm_ucos_proxy.Ports.PageText.{read_page, all_ports, board_ports, AreRows, opt_text-read_page}
use arm_ucos_proxy.Ports.Submit.{Configures, opt_cgi_interface-Configures}
use arm_ucos_proxy.Comm.Sample.{
  some_codes, example_link, example_device, find_answer, board_answer-bytes, start,
}
use arm_ucos_proxy.Comm.Read.{board_contains, ctrl_check_contain_iftype}
use arm_ucos_proxy.Comm.Responds.{present}
use arm_ucos_proxy.Ports.Opt.{opt_read_data_ssi_handler}
use arm_ucos_proxy.Ports.E1.{e1_read_data_ssi_handler}
use arm_ucos_proxy.Ports.Eth.{eth_read_data_ssi_handler}
use arm_ucos_proxy.Ports.EthRows.{device_eth_ports, reply_words}
use arm_ucos_proxy.Ports.EthReads.{EthPageShows, eth_read_data_ssi_handler-PageShows}
use arm_ucos_proxy.Ports.E1Reads.{
  E1PageShows, device_e1_ports, reply_ports, e1_read_data_ssi_handler-PageShows,
}
use arm_ucos_proxy.Ports.PageReads.{PageShows, device_ports, opt_read_data_ssi_handler-PageShows}

-- Two boards with two ports each, behind one with none.
abbrev three_boards : WebCtrlComm
three_boards = record start {
  opt = zero_opt ∷ record zero_opt { amount = 2 } ∷ record zero_opt { amount = 2 } ∷ [];
}

opt_get_msg_according_to_lineno-hit_example :
    opt_get_msg_according_to_lineno
      (total (take 2 (map (λ (r : WebOpt). r.amount) three_boards.opt)) + 1 + 1)
      three_boards
    ≡ some (2, 1)
opt_get_msg_according_to_lineno-hit_example =
    opt_get_msg_according_to_lineno-hit three_boards 2 1 (omega arith) (omega arith)

abbrev form : List (Text × Text)
form = (opt_loop_param, cgistr_loop_device) ∷ (opt_switch_param, cgistr_enable) ∷ []

abbrev e1_form : List (Text × Text)
e1_form = (e1_loop_param, cgistr_loop_device) ∷ (e1_switch_param, cgistr_enable) ∷ []

abbrev eth_form : List (Text × Text)
eth_form = (eth_bandwidth_param, bandwidth_100m) ∷ (eth_switch_param, cgistr_enable) ∷ []

-- A whole form for the second port of the board 1, on a silent link.
abbrev whole_form : List (Text × Text)
whole_form = (board_param, 32 ∷ 49 ∷ []) ∷ (portno_param, 49 ∷ []) ∷ form

abbrev silent : List WebDybFrame → Exchange
silent sent = record { early = []; reply = [] }

abbrev pages : PortPages
pages = record {
  web_control = start;
  opt_config_state = ok;
  e1_config_state = ok;
  eth_config_state = ok;
}

opt_cgi_interface-Configures_example :
    (buf : List ℕ) × Changes (OptSet whole_form) 1 (replicate 16 0) buf
    × Configures some_codes silent 1 buf (opt_cgi_interface some_codes silent whole_form) pages
unfolding find_cgi_parameter text_equal digits_value skip_space atoi
opt_cgi_interface-Configures_example =
    opt_cgi_interface-Configures some_codes silent whole_form pages (32 ∷ 49 ∷ []) (49 ∷ [])
      (omega arith) refl refl (omega arith) (omega arith)
      (λ sent. record { early = tt; reply = tt }) refl

abbrev whole_e1_form : List (Text × Text)
whole_e1_form = (board_param, 50 ∷ []) ∷ (portno_param, 55 ∷ []) ∷ e1_form

e1_cgi_interface-ConfiguresE1_example :
    (buf : List ℕ) × Changes (E1Set whole_e1_form) 7 (replicate 8 0) buf
    × ConfiguresE1 some_codes silent 2 buf (e1_cgi_interface some_codes silent whole_e1_form) pages
unfolding find_cgi_parameter text_equal digits_value skip_space atoi
e1_cgi_interface-ConfiguresE1_example =
    e1_cgi_interface-ConfiguresE1 some_codes silent whole_e1_form pages (50 ∷ []) (55 ∷ [])
      (omega arith) refl refl (omega arith) (omega arith)
      (λ sent. record { early = tt; reply = tt }) refl

-- The gigabit port 1 of the board 0.
abbrev whole_eth_form : List (Text × Text)
whole_eth_form = (ge_param, 71 ∷ []) ∷ (board_param, 48 ∷ []) ∷ (portno_param, 49 ∷ []) ∷ eth_form

eth_cgi_interface-ConfiguresEth_example :
    (buf : List ℕ) × Changes (EthSet whole_eth_form) 1 (replicate 16 0) buf
    × ConfiguresEth some_codes silent true 0 buf
        (eth_cgi_interface some_codes silent whole_eth_form)
        pages
unfolding find_cgi_parameter text_equal digits_value skip_space atoi
eth_cgi_interface-ConfiguresEth_example =
    eth_cgi_interface-ConfiguresEth some_codes silent whole_eth_form pages (71 ∷ []) (48 ∷ [])
      (49 ∷ []) (omega arith) refl refl refl (omega arith) (omega arith)
      (λ sent. record { early = tt; reply = tt }) refl

-- Two boards, of which the second has two ports.
opt_text-read_page_example :
    (text : Text) × (opt_text [] (zero_opt ∷ record zero_opt { amount = 2 } ∷ []) ≡ done text)
    × (read_page text ≡ (1 ∷ 0 ∷ 0 ∷ 0 ∷ []) ∷ (1 ∷ 1 ∷ 0 ∷ 0 ∷ []) ∷ [])
unfolding all_ports board_ports AreRows
opt_text-read_page_example =
    opt_text-read_page [] (zero_opt ∷ record zero_opt { amount = 2 } ∷ []) (omega arith)
      (
        record {
          in_config = omega arith;
          in_state = omega arith;
          few = omega arith;
          config_bytes = λ i h. omega (arith, get_or-replicate {A = ℕ} 8 i 0);
          state_bytes = λ i h. omega (arith, get_or-replicate {A = ℕ} 8 i 0);
        },
        (
          record {
            in_config = omega arith;
            in_state = omega arith;
            few = omega arith;
            config_bytes = λ i h. omega (arith, get_or-replicate {A = ℕ} 8 i 0);
            state_bytes = λ i h. omega (arith, get_or-replicate {A = ℕ} 8 i 0);
          },
          tt,
        ),
      )
      (λ e. omega (arith, ap length e))

-- What the page shows of the device: the two ports of the board 0.
device_ports_test :
    device_ports some_codes example_link example_device
      (record { exist = 3; type = 0x80060132 ∷ 0x80020008 ∷ replicate 7 0 })
      0
      9
    ≡ (0 ∷ 0 ∷ 0x80 ∷ 0x0f ∷ []) ∷ (0 ∷ 1 ∷ 0x80 ∷ 0x0f ∷ []) ∷ []
unfolding device_ports example_device board_contains ctrl_check_contain_iftype find_answer
device_ports_test = refl

opt_read_data_ssi_handler-PageShows_example :
    (text : Text) × (s : PortPages) × (opt_read_data_ssi_handler some_codes example_link [] pages
      ≡ done (text, s))
    × PageShows some_codes example_link example_device []
        (present some_codes example_link example_device 0)
        text
unfolding example_device
opt_read_data_ssi_handler-PageShows_example =
    opt_read_data_ssi_handler-PageShows some_codes example_link example_device [] pages
      board_answer-bytes refl refl

-- What the E1 page shows of the device: the eight ports of the board 1.
device_e1_ports_test :
    device_e1_ports some_codes example_link example_device
      (record { exist = 3; type = 0x80060132 ∷ 0x80020008 ∷ replicate 7 0 })
      0
      9
    ≡ map (λ k. 1 ∷ k ∷ 0x83 ∷ 0x83 ∷ []) (0 ∷ 1 ∷ 2 ∷ 3 ∷ 4 ∷ 5 ∷ 6 ∷ 7 ∷ [])
unfolding device_e1_ports reply_ports example_device board_contains ctrl_check_contain_iftype
    find_answer
device_e1_ports_test = refl

e1_read_data_ssi_handler-PageShows_example :
    (text : Text) × (s : PortPages) × (e1_read_data_ssi_handler some_codes example_link [] pages
      ≡ done (text, s))
    × E1PageShows some_codes example_link example_device []
        (present some_codes example_link example_device 0)
        text
unfolding example_device
e1_read_data_ssi_handler-PageShows_example =
    e1_read_data_ssi_handler-PageShows some_codes example_link example_device [] pages
      board_answer-bytes refl refl

-- What the ethernet page shows of the device: the two gigabit ports of the board 0.
device_eth_ports_test :
    device_eth_ports some_codes example_link example_device true
      (record { exist = 3; type = 0x80060132 ∷ 0x80020008 ∷ replicate 7 0 })
      0
      9
    ≡ (0 ∷ 0 ∷ 0x8181 ∷ []) ∷ (0 ∷ 1 ∷ 0x8181 ∷ []) ∷ []
unfolding device_eth_ports reply_words example_device board_contains ctrl_check_contain_iftype
    find_answer
device_eth_ports_test = refl

eth_read_data_ssi_handler-PageShows_example :
    (text : Text) × (s : PortPages) × (eth_read_data_ssi_handler some_codes example_link pages
      ≡ done (text, s))
    × EthPageShows some_codes example_link example_device
        (present some_codes example_link example_device 0)
        text
unfolding example_device
eth_read_data_ssi_handler-PageShows_example =
    eth_read_data_ssi_handler-PageShows some_codes example_link example_device pages
      board_answer-bytes refl refl
