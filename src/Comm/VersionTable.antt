-- ===== src/Comm/VersionTable.antt =====
-- What web_read_boards_version makes of a device's answers.
use arm_ucos_proxy.Base.{
  ℕ, ◌≡◌, ◌<◌, refl, List, Option, none, some, length, get_or, if◌then◌else◌, arith,
}
use arm_ucos_proxy.Base.Outcome.{done}
use arm_ucos_proxy.Comm.State.{
  WebDybFrame, WebBoardsExist, WebBulbVer, WebCtrlComm, Codes, Exchange, zero_bulb_ver,
  boards_contain_boards_mng,
}
use arm_ucos_proxy.Comm.Read.{
  board_contains, for_boards, decode_bulb_ver, set_bulb_ver, web_read_bulb_ver_one_board,
}
use arm_ucos_proxy.Comm.Tables.{mark, read_version_of_board, web_read_boards_version}
use arm_ucos_proxy.Comm.Reads.{IsTable, Kept, mark-Updates, if_board-Updates}
use arm_ucos_proxy.Comm.Rows.{Round, for_boards-rows}
use arm_ucos_proxy.Comm.Responds.{Device, present}
use arm_ucos_proxy.Comm.Page.{page_status, page-Answers}

module _ (codes : Codes) (link : List WebDybFrame → Exchange) (d : Device codes link) where
  open codes use {bulb_ver}

  abbrev put_version : List ℕ → WebBulbVer → WebBulbVer
  put_version b old = record old { frame = decode_bulb_ver b }

  -- A board's row by what the board answers, and by the boards that the device has.
  abbrev pub version_entry : Option (List ℕ) → WebBulbVer → WebBulbVer
  version_entry reply old = elim reply [
    | none ↦ record old { is_set = 0 }
    | some b ↦ record (put_version b old) { is_set = 1 }
  ]

  abbrev pub version_row : WebBoardsExist → ℕ → WebBulbVer → WebBulbVer
  version_row be j old =
      if board_contains boards_contain_boards_mng j be
      then version_entry (d.answer j bulb_ver) old
      else record old { is_set = 0 }

  -- The other pages' tables.
  pub record HasOthers (s₀ s : WebCtrlComm) : Type 0 where
    pub opt : s.opt ≡ s₀.opt
    pub eth : s.eth ≡ s₀.eth
    pub e1 : s.e1 ≡ s₀.e1

  abbrev with_rows : WebCtrlComm → List WebBulbVer → WebCtrlComm
  with_rows s l = record s { bulb_ver = l }

  bulb_ver-IsTable :
      (be : WebBoardsExist) (s₀ : WebCtrlComm)
      → IsTable codes link d be (λ s. s.bulb_ver) with_rows zero_bulb_ver (HasOthers s₀)
  bulb_ver-IsTable be s₀ = record {
    rows_with = λ s l. refl;
    with_with = λ s l m. refl;
    released_with = λ s l. refl;
    rows_released = λ s. refl;
    ready_with = λ s l r. ground arith;
    others_with = λ s l o. ground arith;
    rows_same = λ s t same. same.bulb_ver;
    others_same = λ s t same o. ground arith;
  }

  version_row-Round :
      (be : WebBoardsExist) (s₀ : WebCtrlComm)
      → Round
          (λ s. s.bulb_ver)
          zero_bulb_ver
          (version_row be)
          (Kept codes link d be (λ s. s.bulb_ver) with_rows zero_bulb_ver (HasOthers s₀))
          (read_version_of_board codes link)
  unfolding read_version_of_board web_read_bulb_ver_one_board
  version_row-Round be s₀ i s h k size =
      let good : WebBulbVer → WebBulbVer = λ r. record r { is_set = 1 } in
      let bad : WebBulbVer → WebBulbVer = λ r. record r { is_set = 0 } in
      let t = bulb_ver-IsTable be s₀ in
      if_board-Updates codes link d be (λ s. s.bulb_ver) with_rows zero_bulb_ver (HasOthers s₀) t
        boards_contain_boards_mng i
        (mark (web_read_bulb_ver_one_board codes link i) (set_bulb_ver i 1) (set_bulb_ver i 0))
        (version_entry (d.answer i bulb_ver)) bad s (board_contains boards_contain_boards_mng i be)
        k refl
        (mark-Updates codes link d be (λ s. s.bulb_ver) with_rows zero_bulb_ver (HasOthers s₀) t i
          bulb_ver 16 put_version good bad s (d.answer i bulb_ver) (omega (arith, size))
          (d.bulb_ver_size i) k refl)

  -- With a free mutex and a table of nine rows the request returns, with success exactly when
  -- the device answers for its number and its boards. Then a board with the interface that answers has its version in its row, marked as set, and
  -- any other row is marked as not set; else the table is cleared. The mutex is
  -- given back, and the other pages' tables are left alone.
  pub web_read_boards_version_lem :
      (s : WebCtrlComm)
      → s.ll_access_mtx ≡ 1
      → length s.bulb_ver ≡ 9
      → let found = present codes link d s.cr_remote_chosen in
        (s' : WebCtrlComm) × (web_read_boards_version codes link s ≡ done (page_status found, s'))
        × (s'.ll_access_mtx ≡ 1)
        × (length s'.bulb_ver ≡ 9)
        × ((j : ℕ)
            → j < 9
            → get_or s'.bulb_ver j zero_bulb_ver ≡ (elim found [
              | none ↦ zero_bulb_ver
              | some be ↦ version_row be j (get_or s.bulb_ver j zero_bulb_ver)
            ]))
        × HasOthers s s'
  unfolding web_read_boards_version
  web_read_boards_version_lem s one size =
      let (s', (e, one', size', up, o)) =
        page-Answers codes link d (λ s. s.bulb_ver) with_rows zero_bulb_ver HasOthers
          bulb_ver-IsTable (λ s t same. ground arith) (λ s t same. same.bulb_ver) (λ s l h. h)
          version_row (for_boards 9 0 (read_version_of_board codes link))
          (λ be s₀ t k size.
            for_boards-rows (λ s. s.bulb_ver) zero_bulb_ver (version_row be)
              (Kept codes link d be (λ s. s.bulb_ver) with_rows zero_bulb_ver (HasOthers s₀))
              (read_version_of_board codes link) (version_row-Round be s₀) t k size)
          s one size in
      (s', e, one', size', up, o)
