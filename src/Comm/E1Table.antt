-- ===== src/Comm/E1Table.antt =====
-- What web_read_e1 makes of a device's answers.
use arm_ucos_proxy.Base.{
  ℕ, ◌≡◌, ◌<◌, refl, List, Option, none, some, length, get_or, take, drop, if◌then◌else◌, arith,
}
use arm_ucos_proxy.Base.Outcome.{done}
use arm_ucos_proxy.Comm.State.{
  WebDybFrame, WebBoardsExist, WebE1, WebCtrlComm, Codes, Exchange, zero_e1, max_e1_port_amount,
  boards_contain_e1,
}
use arm_ucos_proxy.Comm.Read.{board_contains, for_boards, set_e1_amount, web_read_e1_one_board}
use arm_ucos_proxy.Comm.Tables.{mark, read_e1_of_board, web_read_e1}
use arm_ucos_proxy.Comm.Reads.{IsTable, Kept, mark-Updates, if_board-Updates}
use arm_ucos_proxy.Comm.Rows.{Round, for_boards-rows}
use arm_ucos_proxy.Comm.Responds.{Device, present}
use arm_ucos_proxy.Comm.Page.{page_status, page-Answers}

module _ (codes : Codes) (link : List WebDybFrame → Exchange) (d : Device codes link) where
  open codes use {e1_config_state}

  abbrev put_e1 : List ℕ → WebE1 → WebE1
  put_e1 b old = record old {
    config = take 8 b;
    state = take 8 (drop 8 b);
    rsv = take 16 (drop 16 b);
  }

  -- A board's row by what the board answers, and by the boards that the device has.
  abbrev pub e1_entry : Option (List ℕ) → WebE1 → WebE1
  e1_entry reply old = elim reply [
    | none ↦ record old { amount = 0 }
    | some b ↦ record (put_e1 b old) { amount = max_e1_port_amount }
  ]

  abbrev pub e1_row : WebBoardsExist → ℕ → WebE1 → WebE1
  e1_row be j old =
      if board_contains boards_contain_e1 j be
      then e1_entry (d.answer j e1_config_state) old
      else record old { amount = 0 }

  -- The other pages' tables.
  pub record HasOthers (s₀ s : WebCtrlComm) : Type 0 where
    pub bulb_ver : s.bulb_ver ≡ s₀.bulb_ver
    pub opt : s.opt ≡ s₀.opt
    pub eth : s.eth ≡ s₀.eth

  abbrev with_rows : WebCtrlComm → List WebE1 → WebCtrlComm
  with_rows s l = record s { e1 = l }

  e1-IsTable :
      (be : WebBoardsExist) (s₀ : WebCtrlComm)
      → IsTable codes link d be (λ s. s.e1) with_rows zero_e1 (HasOthers s₀)
  e1-IsTable be s₀ = record {
    rows_with = λ s l. refl;
    with_with = λ s l m. refl;
    released_with = λ s l. refl;
    rows_released = λ s. refl;
    ready_with = λ s l r. ground arith;
    others_with = λ s l o. ground arith;
    rows_same = λ s t same. same.e1;
    others_same = λ s t same o. ground arith;
  }

  e1_row-Round :
      (be : WebBoardsExist) (s₀ : WebCtrlComm)
      → Round
          (λ s. s.e1)
          zero_e1
          (e1_row be)
          (Kept codes link d be (λ s. s.e1) with_rows zero_e1 (HasOthers s₀))
          (read_e1_of_board codes link)
  unfolding read_e1_of_board web_read_e1_one_board
  e1_row-Round be s₀ i s h k size =
      let good : WebE1 → WebE1 = λ r. record r { amount = max_e1_port_amount } in
      let bad : WebE1 → WebE1 = λ r. record r { amount = 0 } in
      let t = e1-IsTable be s₀ in
      if_board-Updates codes link d be (λ s. s.e1) with_rows zero_e1 (HasOthers s₀) t
        boards_contain_e1 i
        (mark (web_read_e1_one_board codes link i) (set_e1_amount i max_e1_port_amount)
          (set_e1_amount i 0))
        (e1_entry (d.answer i e1_config_state)) bad s (board_contains boards_contain_e1 i be) k refl
        (mark-Updates codes link d be (λ s. s.e1) with_rows zero_e1 (HasOthers s₀) t i
          e1_config_state 32 put_e1 good bad s (d.answer i e1_config_state) (omega (arith, size))
          (d.e1_size i) k refl)

  -- With a free mutex and a table of nine rows the request returns, with success exactly when
  -- the device answers for its number and its boards. Then a board with the interface that answers has its bytes and ports in its row, and
  -- any other row loses its ports and keeps its bytes; else the table is cleared. The mutex is
  -- given back, and the other pages' tables are left alone.
  pub web_read_e1_lem :
      (s : WebCtrlComm)
      → s.ll_access_mtx ≡ 1
      → length s.e1 ≡ 9
      → let found = present codes link d s.cr_remote_chosen in
        (s' : WebCtrlComm) × (web_read_e1 codes link s ≡ done (page_status found, s'))
        × (s'.ll_access_mtx ≡ 1)
        × (length s'.e1 ≡ 9)
        × ((j : ℕ)
            → j < 9
            → get_or s'.e1 j zero_e1
              ≡ (elim found [ none ↦ zero_e1 | some be ↦ e1_row be j (get_or s.e1 j zero_e1) ]))
        × HasOthers s s'
  unfolding web_read_e1
  web_read_e1_lem s one size =
      let (s', (e, one', size', up, o)) =
        page-Answers codes link d (λ s. s.e1) with_rows zero_e1 HasOthers e1-IsTable
          (λ s t same. ground arith) (λ s t same. same.e1) (λ s l h. h) e1_row
          (for_boards 9 0 (read_e1_of_board codes link))
          (λ be s₀ t k size.
            for_boards-rows (λ s. s.e1) zero_e1 (e1_row be)
              (Kept codes link d be (λ s. s.e1) with_rows zero_e1 (HasOthers s₀))
              (read_e1_of_board codes link) (e1_row-Round be s₀) t k size)
          s one size in
      (s', e, one', size', up, o)
