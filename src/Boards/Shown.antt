-- ===== src/Boards/Shown.antt =====
-- The boards' page against a device on the link: its lines are the boards that answer.
use arm_ucos_proxy.Base.{
  ℕ, zero, suc, ◌+◌, ◌≤◌, ◌<◌, ◌≡◌, refl, sym, subst, ap, ◌∙◌, inl, inr, Bool-cases, List, [], ◌∷◌,
  Option, none, some, length, get_elem?, get_or, ◌==◌, if◌then◌else◌, arith,
}
use arm_ucos_proxy.Base.Outcome.{done}
use arm_ucos_proxy.Tftp.Packet.{codes}
use arm_ucos_proxy.Comm.State.{
  WebDybFrame, WebBoardsExist, WebBulbVer, WebCtrlComm, Codes, Exchange, zero_bulb_ver,
  boards_contain_boards_mng,
}
use arm_ucos_proxy.Comm.Read.{board_contains, decode_bulb_ver}
use arm_ucos_proxy.Comm.Responds.{Device, present}
use arm_ucos_proxy.Comm.VersionTable.{version_entry, version_row, web_read_boards_version_lem}
use arm_ucos_proxy.Ports.Text.{Text}
use arm_ucos_proxy.Boards.Table.{fill_row, board_line_ssi_handler, board_line1_ssi_handler}
use arm_ucos_proxy.Boards.Lines.{set_boards, board_texts, board_common_line_ssi_handler_lem}

module _ (cmds : Codes) (link : List WebDybFrame → Exchange) (d : Device cmds link) where
  open cmds use {bulb_ver}

  -- What a board with the interface answers for its version.
  abbrev pub version_answer : WebBoardsExist → ℕ → Option (List ℕ)
  version_answer be j =
      if board_contains boards_contain_boards_mng j be then d.answer j bulb_ver else none

  -- The boards that answer, from the j-th on.
  unfoldable pub answering : WebBoardsExist → ℕ → ℕ → List ℕ
  answering be j zero = []
  answering be j (suc n) =
      let rest = answering be (j + 1) n in
      elim (version_answer be j) [ none ↦ rest | some b ↦ j ∷ rest ]

  -- The boards of the page, by what the device says it has.
  abbrev pub page_boards : Option WebBoardsExist → List ℕ
  page_boards none = []
  page_boards (some be) = answering be 0 9

  version_row-entry :
      (be : WebBoardsExist) (j : ℕ) (old : WebBulbVer)
      → version_row cmds link d be j old ≡ version_entry cmds link d (version_answer be j) old
  version_row-entry be j old = elim (Bool-cases (board_contains boards_contain_boards_mng j be)) [
    | inl e ↦ rw e refl
    | inr e ↦ rw e refl
  ]

  entry-answering :
      (answer : Option (List ℕ)) (j : ℕ) (old : WebBulbVer) (rest : List ℕ)
      → (if (version_entry cmds link d answer old).is_set == 0 then rest else j ∷ rest)
        ≡ elim answer [ none ↦ rest | some b ↦ j ∷ rest ]
  entry-answering none j old rest = refl
  entry-answering (some b) j old rest = refl

  set_boards-answering :
      (be : WebBoardsExist) (rows : List WebBulbVer) (old : ℕ → WebBulbVer) (i : ℕ)
      → ((k : ℕ)
          → k < length rows
          → get_or rows k zero_bulb_ver ≡ version_row cmds link d be (i + k) (old k))
      → set_boards i rows ≡ answering be i (length rows)
  unfolding set_boards answering
  set_boards-answering be [] old i h = refl
  set_boards-answering be (row ∷ rows) old i h =
      let e : i + 0 ≡ i = omega arith in
      let first : row ≡ version_entry cmds link d (version_answer be i) (old 0) =
        h 0 (omega arith)
        ∙ ap (λ j. version_row cmds link d be j (old 0)) e
        ∙ version_row-entry be i (old 0) in
      let rest : set_boards (i + 1) rows ≡ answering be (i + 1) (length rows) =
        set_boards-answering be rows (λ k. old (suc k)) (i + 1)
          λ k m.
            let e' : i + suc k ≡ i + 1 + k = omega arith in
            h (suc k) (omega arith) ∙ ap (λ j. version_row cmds link d be j (old (suc k))) e' in
      ap (λ r. if r.is_set == 0 then set_boards (i + 1) rows else i ∷ set_boards (i + 1) rows) first
      ∙ entry-answering (version_answer be i) i (old 0) (set_boards (i + 1) rows)
      ∙ ap (λ l. elim (version_answer be i) [ none ↦ l | some b ↦ i ∷ l ]) rest

  set_boards-clear :
      (rows : List WebBulbVer) (i : ℕ)
      → ((k : ℕ) → k < length rows → get_or rows k zero_bulb_ver ≡ zero_bulb_ver)
      → set_boards i rows ≡ []
  unfolding set_boards
  set_boards-clear [] i h = refl
  set_boards-clear (row ∷ rows) i h =
      let first : row ≡ zero_bulb_ver = h 0 (omega arith) in
      let rest = set_boards-clear rows (i + 1) (λ k m. h (suc k) (omega arith)) in
      rw (first, rest) refl

  rows-page_boards :
      (found : Option WebBoardsExist) (rows : List WebBulbVer) (old : ℕ → WebBulbVer)
      → length rows ≡ 9
      → ((j : ℕ)
          → j < 9
          → get_or rows j zero_bulb_ver ≡ (elim found [
            | none ↦ zero_bulb_ver
            | some be ↦ version_row cmds link d be j (old j)
          ]))
      → set_boards 0 rows ≡ page_boards found
  rows-page_boards none rows old size h = set_boards-clear rows 0 (λ k m. h k (omega (arith, size)))
  rows-page_boards (some be) rows old size h =
      set_boards-answering be rows old 0 (λ k m.
        let e : k ≡ 0 + k = omega arith in
        h k (omega (arith, size)) ∙ ap (λ j. version_row cmds link d be j (old k)) e)
      ∙ ap (answering be 0) size

  -- A board that answered has the version that it answered in its row.
  abbrev HasVersion : Option (List ℕ) → WebBulbVer → Type 0
  HasVersion none row = Unit
  HasVersion (some b) row = row.frame ≡ decode_bulb_ver b

  abbrev pub HasVersions : Option WebBoardsExist → List WebBulbVer → Type 0
  HasVersions none rows = Unit
  HasVersions (some be) rows =
      (j : ℕ) → j < 9 → HasVersion (version_answer be j) (get_or rows j zero_bulb_ver)

  entry-HasVersion :
      (answer : Option (List ℕ)) (old : WebBulbVer)
      → HasVersion answer (version_entry cmds link d answer old)
  entry-HasVersion none old = tt
  entry-HasVersion (some b) old = refl

  rows-HasVersions :
      (found : Option WebBoardsExist) (rows : List WebBulbVer) (old : ℕ → WebBulbVer)
      → ((j : ℕ)
          → j < 9
          → get_or rows j zero_bulb_ver ≡ (elim found [
            | none ↦ zero_bulb_ver
            | some be ↦ version_row cmds link d be j (old j)
          ]))
      → HasVersions found rows
  rows-HasVersions none rows old h = tt
  rows-HasVersions (some be) rows old h = λ j m.
      subst (HasVersion (version_answer be j)) (sym (h j m ∙ version_row-entry be j (old j)))
        (entry-HasVersion (version_answer be j) (old j))

  module _ (version_ntoa : ℕ → Text) where
    -- The text of line k + 1 by the boards of the page.
    abbrev pub line_of : List ℕ → ℕ → WebCtrlComm → Text
    line_of boards k s = elim (get_elem? boards k) [
      | none ↦ codes " "
      | some board ↦ fill_row (board_texts version_ntoa board s)
    ]

    -- Showing the first line returns against any device on the link, with a free mutex and nine
    -- rows, if version_ntoa keeps within its eight characters. From then on line k + 1 shows the
    -- k-th of the boards with the interface that answered for their version, counted from 0, and a
    -- space behind the last; if the device did not answer for its number and its boards there is
    -- none. Each board that answered has the version that it answered in its row.
    pub board_lines-Shown :
        (s : WebCtrlComm)
        → ((ver : ℕ) → length (version_ntoa ver) ≤ 7)
        → s.ll_access_mtx ≡ 1
        → length s.bulb_ver ≡ 9
        → let found = present cmds link d s.cr_remote_chosen in
          (t : WebCtrlComm) × (board_line1_ssi_handler version_ntoa cmds link s
            ≡ done (line_of (page_boards found) 0 t, t))
          × ((k : ℕ)
              → board_line_ssi_handler version_ntoa (suc k) t
                ≡ done (line_of (page_boards found) k t, t))
          × HasVersions found t.bulb_ver
    unfolding board_line1_ssi_handler board_line_ssi_handler
    board_lines-Shown s short one size =
        let found = present cmds link d s.cr_remote_chosen in
        let (t, e, one', size', rows, others) =
          web_read_boards_version_lem cmds link d s one size in
        let old : ℕ → WebBulbVer = λ j. get_or s.bulb_ver j zero_bulb_ver in
        let boards : set_boards 0 t.bulb_ver ≡ page_boards found =
          rows-page_boards found t.bulb_ver old size' rows in
        let line : (k : ℕ)
            → board_line_ssi_handler version_ntoa (suc k) t
              ≡ done (line_of (page_boards found) k t, t) =
          λ k. rw (board_common_line_ssi_handler_lem version_ntoa k t short, boards) refl in
        (t, rw e (line 0), line, rows-HasVersions found t.bulb_ver old rows)
