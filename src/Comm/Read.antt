-- ===== src/Comm/Read.antt =====
-- The pages' requests for data: the web_read_ functions of webserver_control_comm.c.
use arm_ucos_proxy.Base.{
  ℕ, zero, suc, ◌+◌, Bool, true, false, ◌&&◌, List, [], ◌∷◌, none, some, get_or, set, take, drop,
  ◌==◌, if◌then◌else◌,
}
use arm_ucos_proxy.Base.Bytes.{load16, load16s, load32s, test_bit}
use arm_ucos_proxy.Base.Outcome.{Status, ok, err, Action, pure, modify, ◌>>=◌, ◌>>◌}
use arm_ucos_proxy.Comm.State.{
  max_board_no, WebDybArg, WebDybFrame, WebBulbVerFrm, WebCtrlComm, zero_bulb_ver, zero_opt,
  zero_eth, zero_e1, Codes, Exchange, WebBoardsExist,
}
use arm_ucos_proxy.Comm.Require.{ctrl_require}

unfoldable pub ctrl_check_contain_iftype : ℕ → List ℕ → Bool
ctrl_check_contain_iftype type [] = false
ctrl_check_contain_iftype type (t ∷ tab) =
    if t == 0 then false else if type == t then true else ctrl_check_contain_iftype type tab

-- The test at the head of every loop over the boards.
unfoldable pub board_contains : List ℕ → ℕ → WebBoardsExist → Bool
board_contains tab i b = test_bit b.exist i && ctrl_check_contain_iftype (get_or b.type i 0) tab

-- `for(i=0; i<MAX_BOARD_NO; ++i)`, with the number of rounds left.
unfoldable pub for_boards :
    ℕ → ℕ → (ℕ → Action WebCtrlComm (Unit {0})) → Action WebCtrlComm (Unit {0})
for_boards zero i body = pure tt
for_boards (suc n) i body = body i >> for_boards n (i + 1) body

-- Stores of a reply's bytes.
abbrev pub store_dev_id : List ℕ → WebCtrlComm → WebCtrlComm
store_dev_id b s = record s { dev_id = load16 b 0 }

abbrev pub decode_boards_exist : List ℕ → WebBoardsExist
decode_boards_exist b = record { exist = load16 b 0; type = load32s b 2 max_board_no }

abbrev pub store_boards_exist : List ℕ → WebCtrlComm → WebCtrlComm
store_boards_exist b s = record s { boards_exist = decode_boards_exist b }

abbrev pub decode_bulb_ver : List ℕ → WebBulbVerFrm
decode_bulb_ver b = record {
  bulb = load16 b 0;
  boot_ver = get_or b 6 0;
  cpu_app_ver = get_or b 7 0;
  fpga_ver = load16 b 8;
  pcb_ver = get_or b 10 0;
}

abbrev pub store_bulb_ver : ℕ → List ℕ → WebCtrlComm → WebCtrlComm
store_bulb_ver i b s = record s {
  bulb_ver =
      set s.bulb_ver i (record (get_or s.bulb_ver i zero_bulb_ver) { frame = decode_bulb_ver b });
}

abbrev pub store_opt_config : ℕ → List ℕ → WebCtrlComm → WebCtrlComm
store_opt_config i b s = record s {
  opt = set s.opt i (record (get_or s.opt i zero_opt) { config = b });
}

abbrev pub store_opt_state : ℕ → List ℕ → WebCtrlComm → WebCtrlComm
store_opt_state i b s = record s {
  opt = set s.opt i (record (get_or s.opt i zero_opt) { state = b });
}

abbrev pub store_eth_ge : ℕ → List ℕ → WebCtrlComm → WebCtrlComm
store_eth_ge i b s = record s {
  eth = set s.eth i (record (get_or s.eth i zero_eth) { ge = load16s b 0 4 });
}

abbrev pub store_eth_fe : ℕ → List ℕ → WebCtrlComm → WebCtrlComm
store_eth_fe i b s = record s {
  eth = set s.eth i (record (get_or s.eth i zero_eth) { fe = load16s b 0 16 });
}

abbrev pub store_e1 : ℕ → List ℕ → WebCtrlComm → WebCtrlComm
store_e1 i b s = record s {
  e1 = set s.e1 i (record (get_or s.e1 i zero_e1) {
    config = take 8 b;
    state = take 8 (drop 8 b);
    rsv = take 16 (drop 16 b);
  });
}

-- `.amount = n` and the like.
abbrev pub set_bulb_ver : ℕ → ℕ → WebCtrlComm → WebCtrlComm
set_bulb_ver i n s = record s {
  bulb_ver = set s.bulb_ver i (record (get_or s.bulb_ver i zero_bulb_ver) { is_set = n });
}

abbrev pub set_opt_amount : ℕ → ℕ → WebCtrlComm → WebCtrlComm
set_opt_amount i n s = record s {
  opt = set s.opt i (record (get_or s.opt i zero_opt) { amount = n });
}

abbrev pub set_ge_amount : ℕ → ℕ → WebCtrlComm → WebCtrlComm
set_ge_amount i n s = record s {
  eth = set s.eth i (record (get_or s.eth i zero_eth) { ge_amount = n });
}

abbrev pub set_fe_amount : ℕ → ℕ → WebCtrlComm → WebCtrlComm
set_fe_amount i n s = record s {
  eth = set s.eth i (record (get_or s.eth i zero_eth) { fe_amount = n });
}

abbrev pub set_e1_amount : ℕ → ℕ → WebCtrlComm → WebCtrlComm
set_e1_amount i n s = record s { e1 = set s.e1 i (record (get_or s.e1 i zero_e1) { amount = n }) }

-- The requests that carry no bytes.
abbrev pub get_request : ℕ → ℕ → ℕ → ℕ → WebDybArg
get_request dev_id board cmd_id cmd_ext = record {
  dev_id = dev_id;
  board = board;
  intf = 0xff;
  cmd_id = cmd_id;
  cmd_ext = cmd_ext;
  buf = none;
  len = 0;
}

-- The request to every device for its number.
abbrev pub device_id_request : ℕ → ℕ → WebDybArg
device_id_request cmd_id cmd_ext = record {
  dev_id = 0xffff;
  board = 0;
  intf = 0xff;
  cmd_id = cmd_id;
  cmd_ext = cmd_ext;
  buf = some (0 ∷ 1 ∷ 2 ∷ 3 ∷ 0 ∷ 0 ∷ 0 ∷ 0 ∷ []);
  len = 8;
}

-- Two requests before each loop; if one fails the page's table is cleared.
unfoldable pub after_both :
    Action WebCtrlComm Status
    → Action WebCtrlComm Status
    → (WebCtrlComm → WebCtrlComm)
    → Action WebCtrlComm (Unit {0})
    → Action WebCtrlComm Status
after_both first second clear rest = do
  r ← first
  elim r [
    | err ↦ modify clear >> pure err
    | ok ↦ do r' ← second; elim r' [ err ↦ modify clear >> pure err | ok ↦ rest >> pure ok ]
  ]

module _ (codes : Codes) (link : List WebDybFrame → Exchange) where
  open codes use {
    getconfigparam, setconfig, alterid, remote_alterid, board_exist, bulb_ver, opt_config,
    opt_state, eth_ge_config, eth_fe_config, e1_config_state,
  }

  -- A request for the parameter `cmd_ext` of a board, by the device's number.
  unfoldable pub request :
      ℕ → ℕ → ℕ → (List ℕ → WebCtrlComm → WebCtrlComm) → Action WebCtrlComm Status
  request board cmd_ext cp_size cp_dst s =
      ctrl_require link (get_request s.dev_id board getconfigparam cmd_ext) (some (cp_size, cp_dst))
        s

  unfoldable pub web_read_device_id : Action WebCtrlComm Status
  web_read_device_id s =
      let cmd_ext = if s.cr_remote_chosen == 0 then alterid else remote_alterid in
      ctrl_require link (device_id_request setconfig cmd_ext) (some (2, store_dev_id)) s

  unfoldable pub web_read_board_exist : Action WebCtrlComm Status
  web_read_board_exist = request 0xff board_exist 40 store_boards_exist

  unfoldable pub web_read_bulb_ver_one_board : ℕ → Action WebCtrlComm Status
  web_read_bulb_ver_one_board i = request i bulb_ver 16 (store_bulb_ver i)

  unfoldable pub web_read_opt_config_one_board : ℕ → Action WebCtrlComm Status
  web_read_opt_config_one_board i = request i opt_config 8 (store_opt_config i)

  unfoldable pub web_read_opt_state_one_board : ℕ → Action WebCtrlComm Status
  web_read_opt_state_one_board i = request i opt_state 8 (store_opt_state i)

  unfoldable pub web_read_eth_ge_one_board : ℕ → Action WebCtrlComm Status
  web_read_eth_ge_one_board i = request i eth_ge_config 8 (store_eth_ge i)

  unfoldable pub web_read_eth_fe_one_board : ℕ → Action WebCtrlComm Status
  web_read_eth_fe_one_board i = request i eth_fe_config 32 (store_eth_fe i)

  unfoldable pub web_read_e1_one_board : ℕ → Action WebCtrlComm Status
  web_read_e1_one_board i = request i e1_config_state 32 (store_e1 i)
