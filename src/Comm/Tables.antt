-- ===== src/Comm/Tables.antt =====
-- The requests for whole tables: web_read_panel, web_read_boards_version, web_read_opt,
-- web_read_eth and web_read_e1 of webserver_control_comm.c.
use arm_ucos_proxy.Base.{ℕ, List, replicate, if◌then◌else◌}
use arm_ucos_proxy.Base.Outcome.{Status, ok, err, Action, pure, modify, ◌>>=◌, ◌>>◌}
use arm_ucos_proxy.Comm.State.{
  max_board_no, boards_contain_boards_mng, boards_contain_opt, boards_contain_eth_ge,
  boards_contain_eth_fe, boards_contain_e1, max_opt_port_amount, max_eth_ge_port_amount,
  max_eth_fe_port_amount, max_e1_port_amount, WebDybFrame, WebCtrlComm, zero_bulb_ver, zero_opt,
  zero_eth, zero_e1, Codes, Exchange,
}
use arm_ucos_proxy.Comm.Read.{
  board_contains, for_boards, after_both, set_bulb_ver, set_opt_amount, set_ge_amount,
  set_fe_amount, set_e1_amount, web_read_device_id, web_read_board_exist,
  web_read_bulb_ver_one_board, web_read_opt_config_one_board, web_read_opt_state_one_board,
  web_read_eth_ge_one_board, web_read_eth_fe_one_board, web_read_e1_one_board,
}

-- The memsets of the tables.
abbrev pub clear_bulb_ver : WebCtrlComm → WebCtrlComm
clear_bulb_ver s = record s { bulb_ver = replicate 9 zero_bulb_ver }

abbrev pub clear_opt : WebCtrlComm → WebCtrlComm
clear_opt s = record s { opt = replicate 9 zero_opt }

abbrev pub clear_eth : WebCtrlComm → WebCtrlComm
clear_eth s = record s { eth = replicate 9 zero_eth }

abbrev pub clear_e1 : WebCtrlComm → WebCtrlComm
clear_e1 s = record s { e1 = replicate 9 zero_e1 }

-- The bodies of the loops: a board with the interface is read, and the others are marked as empty.
abbrev pub if_board :
    List ℕ
    → ℕ
    → Action WebCtrlComm (Unit {0})
    → (WebCtrlComm → WebCtrlComm)
    → Action WebCtrlComm (Unit {0})
if_board tab i read skip s = if board_contains tab i s.boards_exist then read s else modify skip s

-- One read, and the mark that its result calls for.
abbrev pub mark :
    Action WebCtrlComm Status
    → (WebCtrlComm → WebCtrlComm)
    → (WebCtrlComm → WebCtrlComm)
    → Action WebCtrlComm (Unit {0})
mark read good bad = do r ← read; elim r [ ok ↦ modify good | err ↦ modify bad ]

module _ (codes : Codes) (link : List WebDybFrame → Exchange) where
  unfoldable pub web_read_panel : Action WebCtrlComm Status
  web_read_panel =
      after_both (web_read_device_id codes link) (web_read_bulb_ver_one_board codes link 0)
        clear_bulb_ver (pure tt)

  unfoldable pub read_version_of_board : ℕ → Action WebCtrlComm (Unit {0})
  read_version_of_board i =
      if_board boards_contain_boards_mng i
        (mark (web_read_bulb_ver_one_board codes link i) (set_bulb_ver i 1) (set_bulb_ver i 0))
        (set_bulb_ver i 0)

  unfoldable pub web_read_boards_version : Action WebCtrlComm Status
  web_read_boards_version =
      after_both (web_read_device_id codes link) (web_read_board_exist codes link) clear_bulb_ver
        (for_boards max_board_no 0 read_version_of_board)

  unfoldable pub read_opt_ports : ℕ → Action WebCtrlComm (Unit {0})
  read_opt_ports i = do
    r ← web_read_opt_config_one_board codes link i
    elim r [
      | err ↦ modify (set_opt_amount i 0)
      | ok ↦
          mark (web_read_opt_state_one_board codes link i) (set_opt_amount i max_opt_port_amount)
            (set_opt_amount i 0)
    ]

  unfoldable pub read_opt_of_board : ℕ → Action WebCtrlComm (Unit {0})
  read_opt_of_board i = if_board boards_contain_opt i (read_opt_ports i) (set_opt_amount i 0)

  unfoldable pub web_read_opt : Action WebCtrlComm Status
  web_read_opt =
      after_both (web_read_device_id codes link) (web_read_board_exist codes link) clear_opt
        (for_boards max_board_no 0 read_opt_of_board)

  unfoldable pub read_ge_of_board : ℕ → Action WebCtrlComm (Unit {0})
  read_ge_of_board i =
      if_board boards_contain_eth_ge i
        (mark (web_read_eth_ge_one_board codes link i) (set_ge_amount i max_eth_ge_port_amount)
          (set_ge_amount i 0))
        (set_ge_amount i 0)

  unfoldable pub read_fe_of_board : ℕ → Action WebCtrlComm (Unit {0})
  read_fe_of_board i =
      if_board boards_contain_eth_fe i
        (mark (web_read_eth_fe_one_board codes link i) (set_fe_amount i max_eth_fe_port_amount)
          (set_fe_amount i 0))
        (set_fe_amount i 0)

  unfoldable pub web_read_eth : Action WebCtrlComm Status
  web_read_eth =
      after_both (web_read_device_id codes link) (web_read_board_exist codes link) clear_eth
        (for_boards max_board_no 0 read_ge_of_board >> for_boards max_board_no 0 read_fe_of_board)

  unfoldable pub read_e1_of_board : ℕ → Action WebCtrlComm (Unit {0})
  read_e1_of_board i =
      if_board boards_contain_e1 i
        (mark (web_read_e1_one_board codes link i) (set_e1_amount i max_e1_port_amount)
          (set_e1_amount i 0))
        (set_e1_amount i 0)

  unfoldable pub web_read_e1 : Action WebCtrlComm Status
  web_read_e1 =
      after_both (web_read_device_id codes link) (web_read_board_exist codes link) clear_e1
        (for_boards max_board_no 0 read_e1_of_board)
