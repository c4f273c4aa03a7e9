-- ===== src/Comm/OneBoard.antt =====
-- The requests about one board never wait for ever, and leave the state tidy.
use arm_ucos_proxy.Base.{ℕ, ◌∙◌, List, some, drop, length-take, length-drop, length-set, arith}
use arm_ucos_proxy.Base.Bytes.{length-load16s}
use arm_ucos_proxy.Comm.State.{
  WebDybFrame, WebCtrlComm, Codes, Exchange, zero_opt, zero_eth, zero_e1,
}
use arm_ucos_proxy.Comm.Read.{
  request, store_bulb_ver, store_opt_config, store_opt_state, store_eth_ge, store_eth_fe, store_e1,
  store_dev_id, store_boards_exist, web_read_device_id, web_read_board_exist,
  web_read_bulb_ver_one_board, web_read_opt_config_one_board, web_read_opt_state_one_board,
  web_read_eth_ge_one_board, web_read_eth_fe_one_board, web_read_e1_one_board,
}
use arm_ucos_proxy.Comm.Tidy.{
  IsOptRow, IsEthRow, IsE1Row, set-IsTable, bulb_ver-IsTidy, opt-IsTidy, eth-IsTidy, e1-IsTidy,
}
use arm_ucos_proxy.Comm.Keeps.{Supplies, Keeps, StoresTidily, ctrl_require-Keeps}

module _ (may_fault : Type 0) (codes : Codes) (link : List WebDybFrame → Exchange)
    (delivers : Supplies may_fault link) where
  open codes use {
    getconfigparam, board_exist, bulb_ver, opt_config, opt_state, eth_ge_config, eth_fe_config,
    e1_config_state,
  }

  pub request-Keeps :
      (board cmd_ext size : ℕ) (store : List ℕ → WebCtrlComm → WebCtrlComm)
      → StoresTidily may_fault (some (size, store))
      → Keeps may_fault 1 1 (request codes link board cmd_ext size store)
  unfolding request
  request-Keeps board cmd_ext size store stores s tidy =
      ctrl_require-Keeps may_fault link delivers _ (some (size, store)) stores s tidy

  pub device_id-Keeps : Keeps may_fault 1 1 (web_read_device_id codes link)
  unfolding web_read_device_id
  device_id-Keeps s tidy =
      ctrl_require-Keeps may_fault link delivers _ (some (2, store_dev_id))
        (omega arith, λ k b s size tidy. ground arith) s tidy

  pub board_exist-Keeps : Keeps may_fault 1 1 (web_read_board_exist codes link)
  unfolding web_read_board_exist
  board_exist-Keeps =
      request-Keeps 0xff board_exist 40 store_boards_exist
        (omega arith, λ k b s size tidy. ground arith)

  pub bulb_ver-Keeps : (i : ℕ) → Keeps may_fault 1 1 (web_read_bulb_ver_one_board codes link i)
  unfolding web_read_bulb_ver_one_board
  bulb_ver-Keeps i = request-Keeps i bulb_ver 16 (store_bulb_ver i) (
    omega arith,
    λ k b s size tidy. bulb_ver-IsTidy tidy _ (length-set s.bulb_ver i _ ∙ tidy.bulb_ver),
  )

  pub opt_config-Keeps : (i : ℕ) → Keeps may_fault 1 1 (web_read_opt_config_one_board codes link i)
  unfolding web_read_opt_config_one_board
  opt_config-Keeps i = request-Keeps i opt_config 8 (store_opt_config i) (
    omega arith,
    λ k b s size tidy.
        let row = tidy.opt.row i in
        opt-IsTidy tidy _ (
          set-IsTable IsOptRow zero_opt s.opt i _ tidy.opt
            (record { config = size; state = row.state; amount = row.amount })),
  )

  pub opt_state-Keeps : (i : ℕ) → Keeps may_fault 1 1 (web_read_opt_state_one_board codes link i)
  unfolding web_read_opt_state_one_board
  opt_state-Keeps i = request-Keeps i opt_state 8 (store_opt_state i) (
    omega arith,
    λ k b s size tidy.
        let row = tidy.opt.row i in
        opt-IsTidy tidy _ (
          set-IsTable IsOptRow zero_opt s.opt i _ tidy.opt
            (record { config = row.config; state = size; amount = row.amount })),
  )

  pub ge-Keeps : (i : ℕ) → Keeps may_fault 1 1 (web_read_eth_ge_one_board codes link i)
  unfolding web_read_eth_ge_one_board
  ge-Keeps i = request-Keeps i eth_ge_config 8 (store_eth_ge i) (
    omega arith,
    λ k b s size tidy.
        let row = tidy.eth.row i in
        eth-IsTidy tidy _ (
          set-IsTable IsEthRow zero_eth s.eth i _ tidy.eth (record {
            ge = length-load16s b 0 4;
            fe = row.fe;
            ge_amount = row.ge_amount;
            fe_amount = row.fe_amount;
          })),
  )

  pub fe-Keeps : (i : ℕ) → Keeps may_fault 1 1 (web_read_eth_fe_one_board codes link i)
  unfolding web_read_eth_fe_one_board
  fe-Keeps i = request-Keeps i eth_fe_config 32 (store_eth_fe i) (
    omega arith,
    λ k b s size tidy.
        let row = tidy.eth.row i in
        eth-IsTidy tidy _ (
          set-IsTable IsEthRow zero_eth s.eth i _ tidy.eth (record {
            ge = row.ge;
            fe = length-load16s b 0 16;
            ge_amount = row.ge_amount;
            fe_amount = row.fe_amount;
          })),
  )

  pub e1-Keeps : (i : ℕ) → Keeps may_fault 1 1 (web_read_e1_one_board codes link i)
  unfolding web_read_e1_one_board
  e1-Keeps i = request-Keeps i e1_config_state 32 (store_e1 i) (
    omega arith,
    λ k b s size tidy.
        let row = tidy.e1.row i in
        e1-IsTidy tidy _ (
          set-IsTable IsE1Row zero_e1 s.e1 i _ tidy.e1 (record {
            config = omega (arith, length-take 8 b);
            state = omega (arith, length-take 8 (drop 8 b), length-drop 8 b);
            amount = row.amount;
          })),
  )
