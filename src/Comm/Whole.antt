-- ===== src/Comm/Whole.antt =====
-- The requests for whole tables never wait for ever, and leave the state tidy.
use arm_ucos_proxy.Base.{ℕ, refl, Bool, List, none, arith}
use arm_ucos_proxy.Base.Outcome.{Status, ok, err, pure, modify, ◌>>=◌}
use arm_ucos_proxy.Comm.State.{WebDybArg, WebDybFrame, Codes, Exchange, zero_opt, zero_eth, zero_e1}
use arm_ucos_proxy.Comm.Require.{ctrl_require}
use arm_ucos_proxy.Comm.Read.{for_boards, set_opt_amount, web_read_opt_state_one_board}
use arm_ucos_proxy.Comm.Tables.{
  clear_bulb_ver, clear_opt, clear_eth, clear_e1, mark, web_read_panel, web_read_boards_version,
  read_version_of_board, web_read_opt, read_opt_ports, read_opt_of_board, web_read_eth,
  read_ge_of_board, read_fe_of_board, web_read_e1, read_e1_of_board,
}
use arm_ucos_proxy.Comm.Write.{check_status, web_write_opt, web_write_eth, web_write_e1}
use arm_ucos_proxy.Comm.Tidy.{
  IsOptRow, IsEthRow, IsE1Row, replicate-IsTable, zero_opt-IsOptRow, zero_eth-IsEthRow,
  zero_e1-IsE1Row, bulb_ver-IsTidy, opt-IsTidy, eth-IsTidy, e1-IsTidy,
}
use arm_ucos_proxy.Comm.Keeps.{Supplies, Keeps, bind-Keeps, ctrl_require-Keeps}
use arm_ucos_proxy.Comm.Changes.{
  set_bulb_ver-KeepsTidy, set_opt_amount-KeepsTidy, set_ge_amount-KeepsTidy,
  set_fe_amount-KeepsTidy, set_e1_amount-KeepsTidy,
}
use arm_ucos_proxy.Comm.Loops.{for_boards-Keeps, after_both-Keeps, if_board-Keeps, mark-Keeps}
use arm_ucos_proxy.Comm.OneBoard.{
  device_id-Keeps, board_exist-Keeps, bulb_ver-Keeps, opt_config-Keeps, opt_state-Keeps, ge-Keeps,
  fe-Keeps, e1-Keeps,
}

module _ (may_fault : Type 0) (codes : Codes) (link : List WebDybFrame → Exchange)
    (delivers : Supplies may_fault link) where
  pub web_read_panel-Keeps : Keeps may_fault 1 1 (web_read_panel codes link)
  unfolding web_read_panel
  web_read_panel-Keeps =
      after_both-Keeps may_fault _ _ clear_bulb_ver (pure tt)
        (device_id-Keeps may_fault codes link delivers)
        (bulb_ver-Keeps may_fault codes link delivers 0) (λ k s tidy. bulb_ver-IsTidy tidy _ refl)
        (λ s tidy. tidy)

  pub web_read_boards_version-Keeps : Keeps may_fault 1 1 (web_read_boards_version codes link)
  unfolding web_read_boards_version read_version_of_board
  web_read_boards_version-Keeps =
      after_both-Keeps may_fault _ _ clear_bulb_ver _
        (device_id-Keeps may_fault codes link delivers)
        (board_exist-Keeps may_fault codes link delivers) (λ k s tidy. bulb_ver-IsTidy tidy _ refl)
        (for_boards-Keeps may_fault 9 0 (read_version_of_board codes link) λ i.
          if_board-Keeps may_fault _ i _ _
            (mark-Keeps may_fault _ _ _ (bulb_ver-Keeps may_fault codes link delivers i)
              (set_bulb_ver-KeepsTidy i 1) (set_bulb_ver-KeepsTidy i 0))
            (set_bulb_ver-KeepsTidy i 0))

  pub web_read_opt-Keeps : Keeps may_fault 1 1 (web_read_opt codes link)
  unfolding web_read_opt read_opt_of_board read_opt_ports
  web_read_opt-Keeps =
      after_both-Keeps may_fault _ _ clear_opt _ (device_id-Keeps may_fault codes link delivers)
        (board_exist-Keeps may_fault codes link delivers)
        (λ k s tidy. opt-IsTidy tidy _ (replicate-IsTable IsOptRow zero_opt zero_opt-IsOptRow))
        (for_boards-Keeps may_fault 9 0 (read_opt_of_board codes link) λ i.
          if_board-Keeps may_fault _ i _ _
            (bind-Keeps may_fault 1 1 1 _ _ (opt_config-Keeps may_fault codes link delivers i)
              (after_config i))
            (set_opt_amount-KeepsTidy i 0 (omega arith)))
    where
      after_config :
          (i : ℕ) (r : Status)
          → Keeps may_fault 1 1 (elim r [
            | err ↦ modify (set_opt_amount i 0)
            | ok ↦
                mark
                  (web_read_opt_state_one_board codes link i)
                  (set_opt_amount i 2)
                  (set_opt_amount i 0)
          ])
      after_config i err s tidy = set_opt_amount-KeepsTidy i 0 (omega arith) 1 s tidy
      after_config i ok s tidy =
          mark-Keeps may_fault _ _ _ (opt_state-Keeps may_fault codes link delivers i)
            (set_opt_amount-KeepsTidy i 2 (omega arith))
            (set_opt_amount-KeepsTidy i 0 (omega arith)) s tidy

  pub web_read_eth-Keeps : Keeps may_fault 1 1 (web_read_eth codes link)
  unfolding web_read_eth read_ge_of_board read_fe_of_board
  web_read_eth-Keeps =
      after_both-Keeps may_fault _ _ clear_eth _ (device_id-Keeps may_fault codes link delivers)
        (board_exist-Keeps may_fault codes link delivers)
        (λ k s tidy. eth-IsTidy tidy _ (replicate-IsTable IsEthRow zero_eth zero_eth-IsEthRow))
        (bind-Keeps may_fault 1 1 1 (for_boards 9 0 (read_ge_of_board codes link)) _
          (for_boards-Keeps may_fault 9 0 (read_ge_of_board codes link) λ i.
            if_board-Keeps may_fault _ i _ _
              (mark-Keeps may_fault _ _ _ (ge-Keeps may_fault codes link delivers i)
                (set_ge_amount-KeepsTidy i 2 (omega arith))
                (set_ge_amount-KeepsTidy i 0 (omega arith)))
              (set_ge_amount-KeepsTidy i 0 (omega arith)))
          λ a. for_boards-Keeps may_fault 9 0 (read_fe_of_board codes link) λ i.
            if_board-Keeps may_fault _ i _ _
              (mark-Keeps may_fault _ _ _ (fe-Keeps may_fault codes link delivers i)
                (set_fe_amount-KeepsTidy i 6 (omega arith))
                (set_fe_amount-KeepsTidy i 0 (omega arith)))
              (set_fe_amount-KeepsTidy i 0 (omega arith)))

  pub web_read_e1-Keeps : Keeps may_fault 1 1 (web_read_e1 codes link)
  unfolding web_read_e1 read_e1_of_board
  web_read_e1-Keeps =
      after_both-Keeps may_fault _ _ clear_e1 _ (device_id-Keeps may_fault codes link delivers)
        (board_exist-Keeps may_fault codes link delivers)
        (λ k s tidy. e1-IsTidy tidy _ (replicate-IsTable IsE1Row zero_e1 zero_e1-IsE1Row))
        (for_boards-Keeps may_fault 9 0 (read_e1_of_board codes link) λ i.
          if_board-Keeps may_fault _ i _ _
            (mark-Keeps may_fault _ _ _ (e1-Keeps may_fault codes link delivers i)
              (set_e1_amount-KeepsTidy i 8 (omega arith))
              (set_e1_amount-KeepsTidy i 0 (omega arith)))
            (set_e1_amount-KeepsTidy i 0 (omega arith)))

  check_status-Keeps : (r : Status) → Keeps may_fault 1 1 (check_status r)
  unfolding check_status
  check_status-Keeps err s tidy = tidy
  check_status-Keeps ok s tidy = tidy

  write-Keeps :
      (arg : WebDybArg) → Keeps may_fault 1 1 (ctrl_require link arg none >>= check_status)
  write-Keeps arg =
      bind-Keeps may_fault 1 1 1 (ctrl_require link arg none) check_status
        (ctrl_require-Keeps may_fault link delivers arg none tt) check_status-Keeps

  pub web_write_opt-Keeps :
      (board : ℕ) (buf : List ℕ) → Keeps may_fault 1 1 (web_write_opt codes link board buf)
  unfolding web_write_opt
  web_write_opt-Keeps board buf s tidy = write-Keeps _ s tidy

  pub web_write_eth-Keeps :
      (ge : Bool) (board : ℕ) (buf : List ℕ)
      → Keeps may_fault 1 1 (web_write_eth codes link ge board buf)
  unfolding web_write_eth
  web_write_eth-Keeps ge board buf s tidy = write-Keeps _ s tidy

  pub web_write_e1-Keeps :
      (board : ℕ) (buf : List ℕ) → Keeps may_fault 1 1 (web_write_e1 codes link board buf)
  unfolding web_write_e1
  web_write_e1-Keeps board buf s tidy = write-Keeps _ s tidy
