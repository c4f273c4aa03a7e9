-- ===== src/Comm/OptTable.antt =====
-- What web_read_opt makes of a device's answers.
use arm_ucos_proxy.Base.{
  ℕ, ◌≡◌, ◌<◌, refl, ◌∙◌, ap, List, Option, none, some, length, get_or, set, if◌then◌else◌,
  length-set, set-set_update, arith,
}
use arm_ucos_proxy.Base.Outcome.{done, ◌>>=◌}
use arm_ucos_proxy.Comm.State.{
  WebDybFrame, WebBoardsExist, WebOpt, WebCtrlComm, Codes, Exchange, zero_opt, max_opt_port_amount,
  boards_contain_opt,
}
use arm_ucos_proxy.Comm.Read.{
  board_contains, for_boards, store_opt_config, web_read_opt_config_one_board,
  web_read_opt_state_one_board,
}
use arm_ucos_proxy.Comm.Tables.{read_opt_ports, read_opt_of_board, web_read_opt}
use arm_ucos_proxy.Comm.Reads.{
  IsTable, Kept, Updates, skip-Updates, request-Updates, mark-Updates, if_board-Updates,
}
use arm_ucos_proxy.Comm.Rows.{Round, for_boards-rows}
use arm_ucos_proxy.Comm.Responds.{Device, present}
use arm_ucos_proxy.Comm.Page.{page_status, page-Answers}

module _ (codes : Codes) (link : List WebDybFrame → Exchange) (d : Device codes link) where
  open codes use {opt_config, opt_state}

  -- A board's row by its two answers, and by the boards that the device has.
  abbrev pub state_entry : Option (List ℕ) → WebOpt → WebOpt
  state_entry reply old = elim reply [
    | none ↦ record old { amount = 0 }
    | some b ↦ record old { state = b; amount = max_opt_port_amount }
  ]

  abbrev pub opt_entry : Option (List ℕ) → Option (List ℕ) → WebOpt → WebOpt
  opt_entry config state old = elim config [
    | none ↦ record old { amount = 0 }
    | some b ↦ state_entry state (record old { config = b })
  ]

  abbrev pub opt_row : WebBoardsExist → ℕ → WebOpt → WebOpt
  opt_row be j old =
      if board_contains boards_contain_opt j be
      then opt_entry (d.answer j opt_config) (d.answer j opt_state) old
      else record old { amount = 0 }

  -- The other pages' tables.
  pub record HasOthers (s₀ s : WebCtrlComm) : Type 0 where
    pub bulb_ver : s.bulb_ver ≡ s₀.bulb_ver
    pub eth : s.eth ≡ s₀.eth
    pub e1 : s.e1 ≡ s₀.e1

  abbrev with_rows : WebCtrlComm → List WebOpt → WebCtrlComm
  with_rows s l = record s { opt = l }

  opt-IsTable :
      (be : WebBoardsExist) (s₀ : WebCtrlComm)
      → IsTable codes link d be (λ s. s.opt) with_rows zero_opt (HasOthers s₀)
  opt-IsTable be s₀ = record {
    rows_with = λ s l. refl;
    with_with = λ s l m. refl;
    released_with = λ s l. refl;
    rows_released = λ s. refl;
    ready_with = λ s l r. ground arith;
    others_with = λ s l o. ground arith;
    rows_same = λ s t same. same.opt;
    others_same = λ s t same o. ground arith;
  }

  ports :
      (be : WebBoardsExist) (s₀ : WebCtrlComm) (i : ℕ) (s : WebCtrlComm) (config : Option (List ℕ))
      → i < length s.opt
      → Kept codes link d be (λ s. s.opt) with_rows zero_opt (HasOthers s₀) s
      → d.answer i opt_config ≡ config
      → Updates codes link d be
          (λ s. s.opt)
          with_rows
          zero_opt
          (HasOthers s₀)
          (read_opt_ports codes link i)
          i
          (opt_entry config (d.answer i opt_state))
          s
  unfolding read_opt_ports web_read_opt_config_one_board web_read_opt_state_one_board
  ports be s₀ i s none l k a =
      let is = opt-IsTable be s₀ in
      let (t, q, k', e) =
        request-Updates codes link d be (λ s. s.opt) with_rows zero_opt (HasOthers s₀) is i
          opt_config 8 (λ b r. record r { config = b }) s none (d.opt_config_size i) k a in
      let bad : WebOpt → WebOpt = λ r. record r { amount = 0 } in
      let (s', e', k'', r) =
        skip-Updates codes link d be (λ s. s.opt) with_rows zero_opt (HasOthers s₀) is i bad t k' in
      (s', rw (q, ◌>>=◌) e', k'', r ∙ ap (λ l. set l i (bad (get_or l i zero_opt))) e)
  ports be s₀ i s (some b) l k a =
      let is = opt-IsTable be s₀ in
      let (t, q, k', e) =
        request-Updates codes link d be (λ s. s.opt) with_rows zero_opt (HasOthers s₀) is i
          opt_config 8 (λ b r. record r { config = b }) s (some b) (d.opt_config_size i) k a in
      let bad : WebOpt → WebOpt = λ r. record r { amount = 0 } in
      let good : WebOpt → WebOpt = λ r. record r { amount = max_opt_port_amount } in
      let put : List ℕ → WebOpt → WebOpt = λ b r. record r { state = b } in
      let stored = store_opt_config i b t in
      let (s', e', k'', r) =
        mark-Updates codes link d be (λ s. s.opt) with_rows zero_opt (HasOthers s₀) is i opt_state 8
          put good bad stored (d.answer i opt_state) (rw (length-set t.opt i _, e) l)
          (d.opt_state_size i) (ground arith) refl in
      (
        s',
        rw (q, ◌>>=◌) e',
        k'',
        r
            ∙ set-set_update (state_entry (d.answer i opt_state)) t.opt i _ zero_opt (rw e l)
            ∙ ap
                (λ o. set o i (
                  state_entry (d.answer i opt_state) (record (get_or o i zero_opt) { config = b })))
                e,
      )

  opt_row-Round :
      (be : WebBoardsExist) (s₀ : WebCtrlComm)
      → Round
          (λ s. s.opt)
          zero_opt
          (opt_row be)
          (Kept codes link d be (λ s. s.opt) with_rows zero_opt (HasOthers s₀))
          (read_opt_of_board codes link)
  unfolding read_opt_of_board
  opt_row-Round be s₀ i s h k size =
      if_board-Updates codes link d be (λ s. s.opt) with_rows zero_opt (HasOthers s₀)
        (opt-IsTable be s₀) boards_contain_opt i (read_opt_ports codes link i)
        (opt_entry (d.answer i opt_config) (d.answer i opt_state)) (λ r. record r { amount = 0 }) s
        (board_contains boards_contain_opt i be) k refl
        (ports be s₀ i s (d.answer i opt_config) (omega (arith, size)) k refl)

  -- With a free mutex and a table of nine rows the request returns, with success exactly when
  -- the device answers for its number and its boards. Then a board with the interface that answers both requests has its bytes and ports in its row, and
  -- any other row loses its ports (a first answer alone is kept); else the table is cleared. The mutex is
  -- given back, and the other pages' tables are left alone.
  pub web_read_opt_lem :
      (s : WebCtrlComm)
      → s.ll_access_mtx ≡ 1
      → length s.opt ≡ 9
      → let found = present codes link d s.cr_remote_chosen in
        (s' : WebCtrlComm) × (web_read_opt codes link s ≡ done (page_status found, s'))
        × (s'.ll_access_mtx ≡ 1)
        × (length s'.opt ≡ 9)
        × ((j : ℕ)
            → j < 9
            → get_or s'.opt j zero_opt
              ≡ (elim found [ none ↦ zero_opt | some be ↦ opt_row be j (get_or s.opt j zero_opt) ]))
        × HasOthers s s'
  unfolding web_read_opt
  web_read_opt_lem s one size =
      let (s', (e, one', size', up, o)) =
        page-Answers codes link d (λ s. s.opt) with_rows zero_opt HasOthers opt-IsTable
          (λ s t same. ground arith) (λ s t same. same.opt) (λ s l h. h) opt_row
          (for_boards 9 0 (read_opt_of_board codes link))
          (λ be s₀ t k size.
            for_boards-rows (λ s. s.opt) zero_opt (opt_row be)
              (Kept codes link d be (λ s. s.opt) with_rows zero_opt (HasOthers s₀))
              (read_opt_of_board codes link) (opt_row-Round be s₀) t k size)
          s one size in
      (s', e, one', size', up, o)
