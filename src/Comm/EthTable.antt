-- ===== src/Comm/EthTable.antt =====
-- What web_read_eth makes of a device's answers.
use arm_ucos_proxy.Base.{
  ℕ, ◌≡◌, ◌<◌, refl, ◌∙◌, ap, List, Option, none, some, length, get_or, if◌then◌else◌, arith,
}
use arm_ucos_proxy.Base.Bytes.{load16s}
use arm_ucos_proxy.Base.Outcome.{done, ◌>>◌, >>=-eq-done}
use arm_ucos_proxy.Comm.State.{
  WebDybFrame, WebBoardsExist, WebEth, WebCtrlComm, Codes, Exchange, zero_eth,
  max_eth_ge_port_amount, max_eth_fe_port_amount, boards_contain_eth_ge, boards_contain_eth_fe,
}
use arm_ucos_proxy.Comm.Read.{
  board_contains, for_boards, set_ge_amount, set_fe_amount, web_read_eth_ge_one_board,
  web_read_eth_fe_one_board,
}
use arm_ucos_proxy.Comm.Tables.{mark, read_ge_of_board, read_fe_of_board, web_read_eth}
use arm_ucos_proxy.Comm.Reads.{IsTable, Kept, mark-Updates, if_board-Updates}
use arm_ucos_proxy.Comm.Rows.{Round, for_boards-rows}
use arm_ucos_proxy.Comm.Responds.{Device, present}
use arm_ucos_proxy.Comm.Page.{Refreshes, page_status, page-Answers}

module _ (codes : Codes) (link : List WebDybFrame → Exchange) (d : Device codes link) where
  open codes use {eth_ge_config, eth_fe_config}

  abbrev put_ge : List ℕ → WebEth → WebEth
  put_ge b old = record old { ge = load16s b 0 4 }

  abbrev pub ge_entry : Option (List ℕ) → WebEth → WebEth
  ge_entry reply old = elim reply [
    | none ↦ record old { ge_amount = 0 }
    | some b ↦ record (put_ge b old) { ge_amount = max_eth_ge_port_amount }
  ]

  abbrev pub ge_row : WebBoardsExist → ℕ → WebEth → WebEth
  ge_row be j old =
      if board_contains boards_contain_eth_ge j be
      then ge_entry (d.answer j eth_ge_config) old
      else record old { ge_amount = 0 }

  abbrev put_fe : List ℕ → WebEth → WebEth
  put_fe b old = record old { fe = load16s b 0 16 }

  abbrev pub fe_entry : Option (List ℕ) → WebEth → WebEth
  fe_entry reply old = elim reply [
    | none ↦ record old { fe_amount = 0 }
    | some b ↦ record (put_fe b old) { fe_amount = max_eth_fe_port_amount }
  ]

  abbrev pub fe_row : WebBoardsExist → ℕ → WebEth → WebEth
  fe_row be j old =
      if board_contains boards_contain_eth_fe j be
      then fe_entry (d.answer j eth_fe_config) old
      else record old { fe_amount = 0 }

  -- A board's row: the gigabit ports and then the fast ones.
  abbrev pub eth_row : WebBoardsExist → ℕ → WebEth → WebEth
  eth_row be j old = fe_row be j (ge_row be j old)

  -- The other pages' tables.
  pub record HasOthers (s₀ s : WebCtrlComm) : Type 0 where
    pub bulb_ver : s.bulb_ver ≡ s₀.bulb_ver
    pub opt : s.opt ≡ s₀.opt
    pub e1 : s.e1 ≡ s₀.e1

  abbrev with_rows : WebCtrlComm → List WebEth → WebCtrlComm
  with_rows s l = record s { eth = l }

  eth-IsTable :
      (be : WebBoardsExist) (s₀ : WebCtrlComm)
      → IsTable codes link d be (λ s. s.eth) with_rows zero_eth (HasOthers s₀)
  eth-IsTable be s₀ = record {
    rows_with = λ s l. refl;
    with_with = λ s l m. refl;
    released_with = λ s l. refl;
    rows_released = λ s. refl;
    ready_with = λ s l r. ground arith;
    others_with = λ s l o. ground arith;
    rows_same = λ s t same. same.eth;
    others_same = λ s t same o. ground arith;
  }

  ge_row-Round :
      (be : WebBoardsExist) (s₀ : WebCtrlComm)
      → Round
          (λ s. s.eth)
          zero_eth
          (ge_row be)
          (Kept codes link d be (λ s. s.eth) with_rows zero_eth (HasOthers s₀))
          (read_ge_of_board codes link)
  unfolding read_ge_of_board web_read_eth_ge_one_board
  ge_row-Round be s₀ i s h k size =
      let good : WebEth → WebEth = λ r. record r { ge_amount = max_eth_ge_port_amount } in
      let bad : WebEth → WebEth = λ r. record r { ge_amount = 0 } in
      let t = eth-IsTable be s₀ in
      if_board-Updates codes link d be (λ s. s.eth) with_rows zero_eth (HasOthers s₀) t
        boards_contain_eth_ge i
        (mark (web_read_eth_ge_one_board codes link i) (set_ge_amount i max_eth_ge_port_amount)
          (set_ge_amount i 0))
        (ge_entry (d.answer i eth_ge_config)) bad s (board_contains boards_contain_eth_ge i be) k
        refl
        (mark-Updates codes link d be (λ s. s.eth) with_rows zero_eth (HasOthers s₀) t i
          eth_ge_config 8 put_ge good bad s (d.answer i eth_ge_config) (omega (arith, size))
          (d.ge_size i) k refl)

  fe_row-Round :
      (be : WebBoardsExist) (s₀ : WebCtrlComm)
      → Round
          (λ s. s.eth)
          zero_eth
          (fe_row be)
          (Kept codes link d be (λ s. s.eth) with_rows zero_eth (HasOthers s₀))
          (read_fe_of_board codes link)
  unfolding read_fe_of_board web_read_eth_fe_one_board
  fe_row-Round be s₀ i s h k size =
      let good : WebEth → WebEth = λ r. record r { fe_amount = max_eth_fe_port_amount } in
      let bad : WebEth → WebEth = λ r. record r { fe_amount = 0 } in
      let t = eth-IsTable be s₀ in
      if_board-Updates codes link d be (λ s. s.eth) with_rows zero_eth (HasOthers s₀) t
        boards_contain_eth_fe i
        (mark (web_read_eth_fe_one_board codes link i) (set_fe_amount i max_eth_fe_port_amount)
          (set_fe_amount i 0))
        (fe_entry (d.answer i eth_fe_config)) bad s (board_contains boards_contain_eth_fe i be) k
        refl
        (mark-Updates codes link d be (λ s. s.eth) with_rows zero_eth (HasOthers s₀) t i
          eth_fe_config 32 put_fe good bad s (d.answer i eth_fe_config) (omega (arith, size))
          (d.fe_size i) k refl)

  both_loops :
      (be : WebBoardsExist) (s₀ t : WebCtrlComm)
      → Kept codes link d be (λ s. s.eth) with_rows zero_eth (HasOthers s₀) t
      → length t.eth ≡ 9
      → Refreshes codes link d
          (λ s. s.eth)
          with_rows
          zero_eth
          HasOthers
          eth_row
          be
          s₀
          (for_boards 9 0 (read_ge_of_board codes link)
            >> for_boards 9 0 (read_fe_of_board codes link))
          t
  both_loops be s₀ t k size =
      let K = Kept codes link d be (λ s. s.eth) with_rows zero_eth (HasOthers s₀) in
      let (s, run, k', size', up) =
        for_boards-rows (λ s. s.eth) zero_eth (ge_row be) K (read_ge_of_board codes link)
          (ge_row-Round be s₀) t k size in
      let (s', run', k'', size'', up') =
        for_boards-rows (λ s. s.eth) zero_eth (fe_row be) K (read_fe_of_board codes link)
          (fe_row-Round be s₀) s k' size' in
      (
        s',
        >>=-eq-done (for_boards 9 0 (read_ge_of_board codes link))
              (λ x. for_boards 9 0 (read_fe_of_board codes link)) t run
            ∙ run',
        k'',
        size'',
        λ j h. up' j h ∙ ap (fe_row be j) (up j h),
      )

  -- With a free mutex and a table of nine rows the request returns, with success exactly when
  -- the device answers for its number and its boards. Then a board with gigabit (fast) ports that answers for them has their bytes and number in
  -- its row, and in any other row they lose their number and keep their bytes; else the table is cleared. The mutex is
  -- given back, and the other pages' tables are left alone.
  pub web_read_eth_lem :
      (s : WebCtrlComm)
      → s.ll_access_mtx ≡ 1
      → length s.eth ≡ 9
      → let found = present codes link d s.cr_remote_chosen in
        (s' : WebCtrlComm) × (web_read_eth codes link s ≡ done (page_status found, s'))
        × (s'.ll_access_mtx ≡ 1)
        × (length s'.eth ≡ 9)
        × ((j : ℕ)
            → j < 9
            → get_or s'.eth j zero_eth
              ≡ (elim found [ none ↦ zero_eth | some be ↦ eth_row be j (get_or s.eth j zero_eth) ]))
        × HasOthers s s'
  unfolding web_read_eth
  web_read_eth_lem s one size =
      let (s', (e, one', size', up, o)) =
        page-Answers codes link d (λ s. s.eth) with_rows zero_eth HasOthers eth-IsTable
          (λ s t same. ground arith) (λ s t same. same.eth) (λ s l h. h) eth_row
          (for_boards 9 0 (read_ge_of_board codes link)
            >> for_boards 9 0 (read_fe_of_board codes link))
          both_loops s one size in
      (s', e, one', size', up, o)
