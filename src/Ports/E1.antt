-- ===== src/Ports/E1.antt =====
-- The E1 ports' page (USER/module_webserver/webserver_e1.c).
use arm_ucos_proxy.Base.{
  ℕ, zero, suc, ◌+◌, ◌&&◌, List, [], ◌∷◌, ◌++◌, map, Option, none, some, length, get_or, replicate,
  ltb, leb, if◌then◌else◌,
}
use arm_ucos_proxy.Base.Outcome.{
  Outcome, done, fault, blocked, Status, ok, err, Action, pure, modify, ◌>>=◌, ◌>>◌,
}
use arm_ucos_proxy.Comm.State.{WebDybFrame, WebE1, WebCtrlComm, Codes, Exchange, zero_e1}
use arm_ucos_proxy.Comm.Tables.{web_read_e1}
use arm_ucos_proxy.Comm.Write.{web_write_e1}
use arm_ucos_proxy.Ports.Text.{
  Text, cgistr_enable, cgistr_disable, cgistr_trap_mask, cgistr_trap_nomask, cgistr_loop_normal,
  cgistr_loop_circuit, cgistr_loop_device, fail_str, success_str, board_param, portno_param,
  find_cgi_parameter, atoi, ntoalpha, hex2, set_field, first_match,
}
use arm_ucos_proxy.Ports.State.{PortPages, AjaxPage, e1_read, e1_write, on_control, find_line}

-- "e1_switch"
abbrev pub e1_switch_param : Text
e1_switch_param = 101 ∷ 49 ∷ 95 ∷ 115 ∷ 119 ∷ 105 ∷ 116 ∷ 99 ∷ 104 ∷ []

-- "e1_trap_mask"
abbrev pub e1_trap_mask_param : Text
e1_trap_mask_param = 101 ∷ 49 ∷ 95 ∷ 116 ∷ 114 ∷ 97 ∷ 112 ∷ 95 ∷ 109 ∷ 97 ∷ 115 ∷ 107 ∷ []

-- "e1_loop"
abbrev pub e1_loop_param : Text
e1_loop_param = 101 ∷ 49 ∷ 95 ∷ 108 ∷ 111 ∷ 111 ∷ 112 ∷ []

unfoldable pub e1_get_msg_according_to_lineno : ℕ → WebCtrlComm → Option (ℕ × ℕ)
e1_get_msg_according_to_lineno lineno s = find_line (map (λ (r : WebE1). r.amount) s.e1) 0 0 lineno

-- A form's value for one setting; a setting that the form does not have, or a value that is none
-- of the texts, changes nothing.
unfoldable pub e1_write_frame :
    Text → List (Text × Text) → ℕ → (ℕ → Text → Action (List ℕ) Status) → Action (List ℕ) Status
e1_write_frame cginame params portno pfunc buf = elim (find_cgi_parameter cginame params) [
  | none ↦ done (err, buf)
  | some value ↦ pfunc portno value buf
]

unfoldable pub e1_write_frame_switch : ℕ → Text → Action (List ℕ) Status
e1_write_frame_switch portno value =
    first_match
      ((cgistr_enable, λ x. set_field 7 1 1 x) ∷ (cgistr_disable, λ x. set_field 7 1 0 x) ∷ [])
      portno value

unfoldable pub e1_write_frame_trap_mask : ℕ → Text → Action (List ℕ) Status
e1_write_frame_trap_mask portno value =
    first_match
      ((cgistr_trap_mask, λ x. set_field 0 1 1 x)
        ∷ (cgistr_trap_nomask, λ x. set_field 0 1 0 x)
        ∷ [])
      portno value

unfoldable pub e1_write_frame_loop : ℕ → Text → Action (List ℕ) Status
e1_write_frame_loop portno value =
    first_match
      ((cgistr_loop_normal, λ x. set_field 2 1 0 (set_field 1 1 0 x))
        ∷ (cgistr_loop_circuit, λ x. set_field 2 1 0 (set_field 1 1 1 x))
        ∷ (cgistr_loop_device, λ x. set_field 2 1 1 (set_field 1 1 0 x))
        ∷ [])
      portno value

-- The settings of a form, one after the other.
unfoldable pub e1_frames : List (Text × Text) → ℕ → Action (List ℕ) Status
e1_frames params portno = do
  e1_write_frame e1_switch_param params portno e1_write_frame_switch
  e1_write_frame e1_trap_mask_param params portno e1_write_frame_trap_mask
  e1_write_frame e1_loop_param params portno e1_write_frame_loop

unfoldable pub e1_make_data : ℕ → ℕ → ℕ → ℕ → Text
e1_make_data board portno cfg state = ntoalpha board ∷ ntoalpha portno ∷ (hex2 cfg ++ hex2 state)

-- The ports from `portno` on.
unfoldable pub e1_board_data : ℕ → ℕ → ℕ → WebE1 → Text
e1_board_data zero portno board row = []
e1_board_data (suc n) portno board row =
    e1_make_data board portno (get_or row.config portno 0) (get_or row.state portno 0)
    ++ e1_board_data n (portno + 1) board row

unfoldable pub e1_all_data : ℕ → List WebE1 → Outcome Text
e1_all_data board [] = done []
e1_all_data board (row ∷ rows) =
    let rest = e1_all_data (board + 1) rows in
    if leb row.amount (length row.config) && leb row.amount (length row.state)
    then elim rest [
      | done text ↦ done (e1_board_data row.amount 0 board row ++ text)
      | fault ↦ fault
      | blocked ↦ blocked
    ]
    else fault

-- The text for a page. With no port at all the buffer is left as it was.
unfoldable pub e1_text : Text → List WebE1 → Outcome Text
e1_text old rows = elim (e1_all_data 0 rows) [
  | done [] ↦ done old
  | done (c ∷ text) ↦ done (c ∷ text)
  | fault ↦ fault
  | blocked ↦ blocked
]

unfoldable pub e1_config_status_ssi_handler : PortPages → Text
e1_config_status_ssi_handler s = elim s.e1_config_state [ err ↦ fail_str | ok ↦ success_str ]

module _ (codes : Codes) (link : List WebDybFrame → Exchange) where
  unfoldable pub e1_read_data_ssi_handler : Text → Action PortPages Text
  e1_read_data_ssi_handler old = do
    r ← on_control (web_read_e1 codes link)
    elim r [
      | err ↦ pure fail_str
      | ok ↦ λ s. elim (e1_text old s.web_control.e1) [
        | done text ↦ done (text, s)
        | fault ↦ fault
        | blocked ↦ blocked
      ]
    ]

  unfoldable pub configure_e1 : ℕ → List ℕ → Action PortPages AjaxPage
  configure_e1 board buf = do
    r ← on_control (web_write_e1 codes link board (buf ++ replicate 24 0))
    modify (λ s. record s { e1_config_state = r })
    pure e1_write

  -- The board and the port come from the form with no test: a missing one faults, and so does a
  -- board behind the table.
  unfoldable pub e1_cgi_interface : List (Text × Text) → Action PortPages AjaxPage
  e1_cgi_interface params s =
      if ltb (length params) 2
      then done (e1_read, s)
      else elim (find_cgi_parameter board_param params) [
        | none ↦ fault
        | some b ↦ elim (find_cgi_parameter portno_param params) [
          | none ↦ fault
          | some n ↦
              let board = atoi b in
              if ltb board (length s.web_control.e1)
              then (elim (e1_frames params (atoi n)
                  ((get_or s.web_control.e1 board zero_e1).config)) [
                    | done (r, buf) ↦ configure_e1 board buf s
                    | fault ↦ fault
                    | blocked ↦ blocked
                  ])
              else fault
        ]
      ]
