-- ===== src/Ports/Opt.antt =====
-- The optical ports' page (USER/module_webserver/webserver_opt.c).
use arm_ucos_proxy.Base.{
  ℕ, zero, suc, ◌+◌, ◌&&◌, List, [], ◌∷◌, ◌++◌, map, Option, none, some, length, get_or, take,
  replicate, ltb, leb, if◌then◌else◌,
}
use arm_ucos_proxy.Base.Outcome.{
  Outcome, done, fault, blocked, Status, ok, err, Action, pure, modify, ◌>>=◌, ◌>>◌,
}
use arm_ucos_proxy.Comm.State.{WebDybFrame, WebOpt, WebCtrlComm, Codes, Exchange, zero_opt}
use arm_ucos_proxy.Comm.Tables.{web_read_opt}
use arm_ucos_proxy.Comm.Write.{web_write_opt}
use arm_ucos_proxy.Ports.Text.{
  Text, cgistr_enable, cgistr_disable, cgistr_trap_mask, cgistr_trap_nomask, cgistr_loop_normal,
  cgistr_loop_circuit, cgistr_loop_device, cgistr_loop_double, fail_str, success_str, board_param,
  portno_param, find_cgi_parameter, atoi, ntoalpha, hex2, set_field, first_match,
}
use arm_ucos_proxy.Ports.State.{PortPages, AjaxPage, opt_read, opt_write, on_control, find_line}

-- "opt_switch"
abbrev pub opt_switch_param : Text
opt_switch_param = 111 ∷ 112 ∷ 116 ∷ 95 ∷ 115 ∷ 119 ∷ 105 ∷ 116 ∷ 99 ∷ 104 ∷ []

-- "opt_trap_mask"
abbrev pub opt_trap_mask_param : Text
opt_trap_mask_param = 111 ∷ 112 ∷ 116 ∷ 95 ∷ 116 ∷ 114 ∷ 97 ∷ 112 ∷ 95 ∷ 109 ∷ 97 ∷ 115 ∷ 107 ∷ []

-- "opt_loop"
abbrev pub opt_loop_param : Text
opt_loop_param = 111 ∷ 112 ∷ 116 ∷ 95 ∷ 108 ∷ 111 ∷ 111 ∷ 112 ∷ []

unfoldable pub opt_get_msg_according_to_lineno : ℕ → WebCtrlComm → Option (ℕ × ℕ)
opt_get_msg_according_to_lineno lineno s =
    find_line (map (λ (r : WebOpt). r.amount) s.opt) 0 0 lineno

-- A form's value for one setting; a setting that the form does not have, or a value that is none
-- of the texts, changes nothing.
unfoldable pub opt_write_frame :
    Text → List (Text × Text) → ℕ → (ℕ → Text → Action (List ℕ) Status) → Action (List ℕ) Status
opt_write_frame cginame params portno pfunc buf = elim (find_cgi_parameter cginame params) [
  | none ↦ done (err, buf)
  | some value ↦ pfunc portno value buf
]

unfoldable pub opt_write_frame_switch : ℕ → Text → Action (List ℕ) Status
opt_write_frame_switch portno value =
    first_match
      ((cgistr_enable, λ x. set_field 7 1 1 x) ∷ (cgistr_disable, λ x. set_field 7 1 0 x) ∷ [])
      portno value

unfoldable pub opt_write_frame_trap_mask : ℕ → Text → Action (List ℕ) Status
opt_write_frame_trap_mask portno value =
    first_match
      ((cgistr_trap_mask, λ x. set_field 0 1 1 x)
        ∷ (cgistr_trap_nomask, λ x. set_field 0 1 0 x)
        ∷ [])
      portno value

unfoldable pub opt_write_frame_loop : ℕ → Text → Action (List ℕ) Status
opt_write_frame_loop portno value =
    first_match
      ((cgistr_loop_normal, λ x. set_field 2 1 0 (set_field 1 1 0 x))
        ∷ (cgistr_loop_circuit, λ x. set_field 2 1 0 (set_field 1 1 1 x))
        ∷ (cgistr_loop_device, λ x. set_field 2 1 1 (set_field 1 1 0 x))
        ∷ (cgistr_loop_double, λ x. set_field 2 1 1 (set_field 1 1 1 x))
        ∷ [])
      portno value

-- The settings of a form, one after the other.
unfoldable pub opt_frames : List (Text × Text) → ℕ → Action (List ℕ) Status
opt_frames params portno = do
  opt_write_frame opt_switch_param params portno opt_write_frame_switch
  opt_write_frame opt_trap_mask_param params portno opt_write_frame_trap_mask
  opt_write_frame opt_loop_param params portno opt_write_frame_loop

unfoldable pub opt_make_data : ℕ → ℕ → ℕ → ℕ → Text
opt_make_data board portno cfg state = ntoalpha board ∷ ntoalpha portno ∷ (hex2 cfg ++ hex2 state)

-- The ports from `portno` on.
unfoldable pub opt_board_data : ℕ → ℕ → ℕ → WebOpt → Text
opt_board_data zero portno board row = []
opt_board_data (suc n) portno board row =
    opt_make_data board portno (get_or row.config portno 0) (get_or row.state portno 0)
    ++ opt_board_data n (portno + 1) board row

unfoldable pub opt_all_data : ℕ → List WebOpt → Outcome Text
opt_all_data board [] = done []
opt_all_data board (row ∷ rows) =
    let rest = opt_all_data (board + 1) rows in
    if leb row.amount (length row.config) && leb row.amount (length row.state)
    then elim rest [
      | done text ↦ done (opt_board_data row.amount 0 board row ++ text)
      | fault ↦ fault
      | blocked ↦ blocked
    ]
    else fault

-- The text for a page. With no port at all the buffer is left as it was.
unfoldable pub opt_text : Text → List WebOpt → Outcome Text
opt_text old rows = elim (opt_all_data 0 rows) [
  | done [] ↦ done old
  | done (c ∷ text) ↦ done (c ∷ text)
  | fault ↦ fault
  | blocked ↦ blocked
]

unfoldable pub opt_config_status_ssi_handler : PortPages → Text
opt_config_status_ssi_handler s = elim s.opt_config_state [ err ↦ fail_str | ok ↦ success_str ]

module _ (codes : Codes) (link : List WebDybFrame → Exchange) where
  unfoldable pub opt_read_data_ssi_handler : Text → Action PortPages Text
  opt_read_data_ssi_handler old = do
    r ← on_control (web_read_opt codes link)
    elim r [
      | err ↦ pure fail_str
      | ok ↦ λ s. elim (opt_text old s.web_control.opt) [
        | done text ↦ done (text, s)
        | fault ↦ fault
        | blocked ↦ blocked
      ]
    ]

  unfoldable pub configure_opt : ℕ → List ℕ → Action PortPages AjaxPage
  configure_opt board buf = do
    r ← on_control (web_write_opt codes link board buf)
    modify (λ s. record s { opt_config_state = r })
    pure opt_write

  -- The board and the port come from the form with no test: a missing one faults, and so does a
  -- board behind the table.
  unfoldable pub opt_cgi_interface : List (Text × Text) → Action PortPages AjaxPage
  opt_cgi_interface params s =
      if ltb (length params) 2
      then done (opt_read, s)
      else elim (find_cgi_parameter board_param params) [
        | none ↦ fault
        | some b ↦ elim (find_cgi_parameter portno_param params) [
          | none ↦ fault
          | some n ↦
              let board = atoi b in
              if ltb board (length s.web_control.opt)
              then (elim (opt_frames params (atoi n)
                  (take 8 (get_or s.web_control.opt board zero_opt).config ++ replicate 8 0)) [
                    | done (r, buf) ↦ configure_opt board buf s
                    | fault ↦ fault
                    | blocked ↦ blocked
                  ])
              else fault
        ]
      ]
