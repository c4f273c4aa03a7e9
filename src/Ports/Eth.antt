-- ===== src/Ports/Eth.antt =====
-- The ethernet ports' page (USER/module_webserver/webserver_eth.c).
use arm_ucos_proxy.Base.{
  ℕ, zero, suc, ◌+◌, Bool, true, false, List, [], ◌∷◌, ◌++◌, map, Option, none, some, length,
  get_or, replicate, ltb, leb, ◌==◌, if◌then◌else◌,
}
use arm_ucos_proxy.Base.Outcome.{
  Outcome, done, fault, blocked, Status, ok, err, Action, pure, modify, ◌>>=◌, ◌>>◌,
}
use arm_ucos_proxy.Comm.State.{WebDybFrame, WebEth, WebCtrlComm, Codes, Exchange, zero_eth}
use arm_ucos_proxy.Comm.Tables.{web_read_eth}
use arm_ucos_proxy.Comm.Write.{web_write_eth}
use arm_ucos_proxy.Ports.Text.{
  Text, cgistr_enable, cgistr_disable, cgistr_trap_mask, cgistr_trap_nomask, cgistr_open,
  cgistr_close, cgistr_force, cgistr_auto_nego, cgistr_duplex_half, cgistr_duplex_full, fe_mark,
  ge_param, fail_str, success_str, board_param, portno_param, find_cgi_parameter, atoi, ntoalpha,
  hex4, set_field, first_match,
}
use arm_ucos_proxy.Ports.State.{PortPages, AjaxPage, eth_read, eth_write, on_control, find_line}

-- "10M"
abbrev pub bandwidth_10m : Text
bandwidth_10m = 49 ∷ 48 ∷ 77 ∷ []

-- "100M"
abbrev pub bandwidth_100m : Text
bandwidth_100m = 49 ∷ 48 ∷ 48 ∷ 77 ∷ []

-- "1000M"
abbrev pub bandwidth_1000m : Text
bandwidth_1000m = 49 ∷ 48 ∷ 48 ∷ 48 ∷ 77 ∷ []

-- "eth_switch"
abbrev pub eth_switch_param : Text
eth_switch_param = 101 ∷ 116 ∷ 104 ∷ 95 ∷ 115 ∷ 119 ∷ 105 ∷ 116 ∷ 99 ∷ 104 ∷ []

-- "eth_auto_nego"
abbrev pub eth_auto_nego_param : Text
eth_auto_nego_param = 101 ∷ 116 ∷ 104 ∷ 95 ∷ 97 ∷ 117 ∷ 116 ∷ 111 ∷ 95 ∷ 110 ∷ 101 ∷ 103 ∷ 111 ∷ []

-- "eth_bandwidth"
abbrev pub eth_bandwidth_param : Text
eth_bandwidth_param = 101 ∷ 116 ∷ 104 ∷ 95 ∷ 98 ∷ 97 ∷ 110 ∷ 100 ∷ 119 ∷ 105 ∷ 100 ∷ 116 ∷ 104 ∷ []

-- "eth_duplex"
abbrev pub eth_duplex_param : Text
eth_duplex_param = 101 ∷ 116 ∷ 104 ∷ 95 ∷ 100 ∷ 117 ∷ 112 ∷ 108 ∷ 101 ∷ 120 ∷ []

-- "eth_flow_ctrl"
abbrev pub eth_flow_ctrl_param : Text
eth_flow_ctrl_param = 101 ∷ 116 ∷ 104 ∷ 95 ∷ 102 ∷ 108 ∷ 111 ∷ 119 ∷ 95 ∷ 99 ∷ 116 ∷ 114 ∷ 108 ∷ []

-- "eth_trap_mask"
abbrev pub eth_trap_mask_param : Text
eth_trap_mask_param = 101 ∷ 116 ∷ 104 ∷ 95 ∷ 116 ∷ 114 ∷ 97 ∷ 112 ∷ 95 ∷ 109 ∷ 97 ∷ 115 ∷ 107 ∷ []

unfoldable pub eth_get_msg_according_to_lineno : Bool → ℕ → WebCtrlComm → Option (ℕ × ℕ)
eth_get_msg_according_to_lineno ge lineno s =
    find_line (map (λ (r : WebEth). if ge then r.ge_amount else r.fe_amount) s.eth) 0 0 lineno

-- A form's value for one setting; a setting that the form does not have, or a value that is none
-- of the texts, changes nothing.
unfoldable pub eth_write_frame :
    Text → List (Text × Text) → ℕ → (ℕ → Text → Action (List ℕ) Status) → Action (List ℕ) Status
eth_write_frame cginame params portno pfunc buf = elim (find_cgi_parameter cginame params) [
  | none ↦ done (err, buf)
  | some value ↦ pfunc portno value buf
]

unfoldable pub eth_write_frame_switch : ℕ → Text → Action (List ℕ) Status
eth_write_frame_switch portno value =
    first_match
      ((cgistr_enable, λ x. set_field 15 1 1 x) ∷ (cgistr_disable, λ x. set_field 15 1 0 x) ∷ [])
      portno value

unfoldable pub eth_write_frame_auto_nego : ℕ → Text → Action (List ℕ) Status
eth_write_frame_auto_nego portno value =
    first_match
      ((cgistr_auto_nego, λ x. set_field 3 1 1 x) ∷ (cgistr_force, λ x. set_field 3 1 0 x) ∷ [])
      portno value

unfoldable pub eth_write_frame_bandwidth : ℕ → Text → Action (List ℕ) Status
eth_write_frame_bandwidth portno value =
    first_match
      ((bandwidth_10m, λ x. set_field 5 2 0 x)
        ∷ (bandwidth_100m, λ x. set_field 5 2 1 x)
        ∷ (bandwidth_1000m, λ x. set_field 5 2 2 x)
        ∷ [])
      portno value

unfoldable pub eth_write_frame_duplex : ℕ → Text → Action (List ℕ) Status
eth_write_frame_duplex portno value =
    first_match
      ((cgistr_duplex_half, λ x. set_field 4 1 0 x)
        ∷ (cgistr_duplex_full, λ x. set_field 4 1 1 x)
        ∷ [])
      portno value

unfoldable pub eth_write_frame_flow_ctrl : ℕ → Text → Action (List ℕ) Status
eth_write_frame_flow_ctrl portno value =
    first_match
      ((cgistr_open, λ x. set_field 14 1 1 x) ∷ (cgistr_close, λ x. set_field 14 1 0 x) ∷ []) portno
      value

unfoldable pub eth_write_frame_trap_mask : ℕ → Text → Action (List ℕ) Status
eth_write_frame_trap_mask portno value =
    first_match
      ((cgistr_trap_mask, λ x. set_field 13 1 1 x)
        ∷ (cgistr_trap_nomask, λ x. set_field 13 1 0 x)
        ∷ [])
      portno value

-- The settings of a form, one after the other.
unfoldable pub eth_frames : List (Text × Text) → ℕ → Action (List ℕ) Status
eth_frames params portno = do
  eth_write_frame eth_switch_param params portno eth_write_frame_switch
  eth_write_frame eth_auto_nego_param params portno eth_write_frame_auto_nego
  eth_write_frame eth_bandwidth_param params portno eth_write_frame_bandwidth
  eth_write_frame eth_duplex_param params portno eth_write_frame_duplex
  eth_write_frame eth_flow_ctrl_param params portno eth_write_frame_flow_ctrl
  eth_write_frame eth_trap_mask_param params portno eth_write_frame_trap_mask

unfoldable pub eth_make_data : ℕ → ℕ → ℕ → Text
eth_make_data board portno word = ntoalpha board ∷ ntoalpha portno ∷ hex4 word

-- The ports from `portno` on.
unfoldable pub eth_board_data : ℕ → ℕ → ℕ → List ℕ → Text
eth_board_data zero portno board words = []
eth_board_data (suc n) portno board words =
    eth_make_data board portno (get_or words portno 0) ++ eth_board_data n (portno + 1) board words

unfoldable pub eth_all_data : Bool → ℕ → List WebEth → Outcome Text
eth_all_data ge board [] = done []
eth_all_data ge board (row ∷ rows) =
    let amount = if ge then row.ge_amount else row.fe_amount in
    let words = if ge then row.ge else row.fe in
    let rest = eth_all_data ge (board + 1) rows in
    if leb amount (length words)
    then elim rest [
      | done text ↦ done (eth_board_data amount 0 board words ++ text)
      | fault ↦ fault
      | blocked ↦ blocked
    ]
    else fault

-- The text for a page: the gigabit ports, a mark, and the fast ones.
unfoldable pub eth_text : List WebEth → Outcome Text
eth_text rows = elim (eth_all_data true 0 rows) [
  | done ge ↦ elim (eth_all_data false 0 rows) [
    | done fe ↦ done (ge ++ fe_mark ++ fe)
    | fault ↦ fault
    | blocked ↦ blocked
  ]
  | fault ↦ fault
  | blocked ↦ blocked
]

unfoldable pub eth_config_status_ssi_handler : PortPages → Text
eth_config_status_ssi_handler s = elim s.eth_config_state [ err ↦ fail_str | ok ↦ success_str ]

module _ (codes : Codes) (link : List WebDybFrame → Exchange) where
  unfoldable pub eth_read_data_ssi_handler : Action PortPages Text
  eth_read_data_ssi_handler = do
    r ← on_control (web_read_eth codes link)
    elim r [
      | err ↦ pure fail_str
      | ok ↦ λ s. elim (eth_text s.web_control.eth) [
        | done text ↦ done (text, s)
        | fault ↦ fault
        | blocked ↦ blocked
      ]
    ]

  unfoldable pub configure_eth : Bool → ℕ → List ℕ → Action PortPages AjaxPage
  configure_eth ge board buf = do
    r ← on_control (web_write_eth codes link ge board buf)
    modify (λ s. record s { eth_config_state = r })
    pure eth_write

  -- The kind, the board and the port come from the form with no test: a missing one faults, and so does a
  -- board behind the table.
  unfoldable pub eth_cgi_interface : List (Text × Text) → Action PortPages AjaxPage
  eth_cgi_interface params s =
      if ltb (length params) 2
      then done (eth_read, s)
      else elim (find_cgi_parameter ge_param params) [
        | none ↦ fault
        | some g ↦ elim (find_cgi_parameter board_param params) [
          | none ↦ fault
          | some b ↦ elim (find_cgi_parameter portno_param params) [
            | none ↦ fault
            | some n ↦
                let ge = get_or g 0 0 == 71 in
                let board = atoi b in
                let row = get_or s.web_control.eth board zero_eth in
                if ltb board (length s.web_control.eth)
                then (elim (eth_frames params (atoi n)
                    (if ge then row.ge ++ replicate 12 0 else row.fe)) [
                      | done (r, buf) ↦ configure_eth ge board buf s
                      | fault ↦ fault
                      | blocked ↦ blocked
                    ])
                else fault
          ]
        ]
      ]
