-- ===== src/Boards/Lines.antt =====
-- What a line of the boards' page shows: the boards that are marked as set, one after the other.
use arm_ucos_proxy.Base.{
  ℕ, zero, suc, ◌+◌, ◌-◌, ◌*◌, ◌/◌, ◌%◌, ◌≤◌, ◌≡◌, refl, ap, ◌∙◌, inl, inr, Bool, true, false,
  Bool-cases, Option-cases, List, [], ◌∷◌, ◌++◌, none, some, length, length-append, get_elem?,
  get_or, ltb, ◌==◌, if◌then◌else◌, arith,
}
use arm_ucos_proxy.Base.Outcome.{done}
use arm_ucos_proxy.Tftp.Packet.{codes}
use arm_ucos_proxy.Comm.State.{WebBulbVer, WebCtrlComm}
use arm_ucos_proxy.Ports.Text.{Text}
use arm_ucos_proxy.Ports.Decimal.{decimal, decimal-short}
use arm_ucos_proxy.Boards.Table.{
  form_empty, board_get_type_name, nth_board, board_get_boardno_according_to_lineno, frame_of,
  fpga_text, version_text, Column, of_board, fill_columns, fill_row, board_column_table,
  board_column1_slot, board_column2_type, board_column3_business_type, board_column4_pcb_version,
  board_column5_sw_version, board_column6_fpga_version, board_column7_boot_version,
  board_column8_state, board_common_line_ssi_handler,
}

-- The numbers of the boards that are set, from the i-th row on.
unfoldable pub set_boards : ℕ → List WebBulbVer → List ℕ
set_boards i [] = []
set_boards i (row ∷ rows) =
    let rest = set_boards (i + 1) rows in if row.is_set == 0 then rest else i ∷ rest

counted_board :
    (rows : List WebBulbVer) (i sum k : ℕ)
    → ((k' : ℕ)
        → nth_board rows (i + 1) (sum + 1) (sum + 1 + suc k')
          ≡ get_elem? (set_boards (i + 1) rows) k')
    → (if sum + 1 == sum + suc k then some i else nth_board rows (i + 1) (sum + 1) (sum + suc k))
      ≡ get_elem? (i ∷ set_boards (i + 1) rows) k
counted_board rows i sum zero later =
    let e : (sum + 1 == sum + suc zero) ≡ true = ground arith in rw e refl
counted_board rows i sum (suc k) later =
    let e : (sum + 1 == sum + suc (suc k)) ≡ false = ground arith in
    let e' : sum + suc (suc k) ≡ sum + 1 + suc k = omega arith in
    rw e (ap (nth_board rows (i + 1) (sum + 1)) e' ∙ later k)

nth_board-set_boards :
    (rows : List WebBulbVer) (i sum k : ℕ)
    → nth_board rows i sum (sum + suc k) ≡ get_elem? (set_boards i rows) k
unfolding nth_board set_boards
nth_board-set_boards [] i sum k = refl
nth_board-set_boards (row ∷ rows) i sum k = elim (Bool-cases (row.is_set == 0)) [
  | inl e ↦ rw e (nth_board-set_boards rows (i + 1) sum k)
  | inr e ↦ rw e (counted_board rows i sum k (λ k'. nth_board-set_boards rows (i + 1) (sum + 1) k'))
]

-- A line's number is a place among the boards that are set.
pub board_get_boardno-get_elem? :
    (k : ℕ) (s : WebCtrlComm)
    → board_get_boardno_according_to_lineno (suc k) s ≡ get_elem? (set_boards 0 s.bulb_ver) k
unfolding board_get_boardno_according_to_lineno
board_get_boardno-get_elem? k s =
    ap (nth_board s.bulb_ver 0 0) (let e : suc k ≡ 0 + suc k = omega arith in e)
    ∙ nth_board-set_boards s.bulb_ver 0 0 k

type_name-short : (type : ℕ) (longname : Bool) → length (board_get_type_name type longname) ≤ 40
unfolding board_get_type_name
type_name-short type true = ground arith
type_name-short type false = ground arith

fpga_text-short : (ver : ℕ) → length (fpga_text ver) ≤ 40
unfolding fpga_text
fpga_text-short ver =
    let (a, b, c, d) : Text × Text × Text × Text = (
      decimal 2 (ver / 16 % 16),
      decimal 2 (ver % 16),
      decimal 2 (ver / 4096 % 16),
      decimal 2 (ver / 256 % 16),
    ) in
    let whole : length (86 ∷ a ++ 46 ∷ b ++ c ++ d) ≤ 40 = omega (
      arith,
      length-append (86 ∷ a ++ 46 ∷ b ++ c) d,
      length-append (86 ∷ a ++ 46 ∷ b) c,
      length-append (86 ∷ a) (46 ∷ b),
      decimal-short 2 (ver / 16 % 16),
      decimal-short 2 (ver % 16),
      decimal-short 2 (ver / 4096 % 16),
      decimal-short 2 (ver / 256 % 16),
    ) in
    elim (Bool-cases (ver == 0)) [ inl e ↦ rw e (omega arith) | inr e ↦ rw e whole ]

-- Columns that give texts of at most 40 characters.
unfoldable pub Give : List Column → List Text → ℕ → WebCtrlComm → Type 0
Give [] [] lineno s = Unit
Give (column ∷ columns) (text ∷ texts) lineno s =
    (column lineno s ≡ done text) × (length text ≤ 40) × Give columns texts lineno s
Give _ _ lineno s = ⊥

fill_columns-done :
    (columns : List Column) (texts : List Text) (room lineno : ℕ) (s : WebCtrlComm)
    → Give columns texts lineno s
    → 41 * length texts ≤ room
    → fill_columns room columns lineno s ≡ done texts
unfolding fill_columns Give
fill_columns-done [] [] room lineno s gives fits = refl
fill_columns-done [] (text ∷ texts) room lineno s gives fits = absurd gives
fill_columns-done (column ∷ columns) [] room lineno s gives fits = absurd gives
fill_columns-done (column ∷ columns) (text ∷ texts) room lineno s (e, short, gives) fits =
    let e' : ltb (length text) room ≡ true = ground arith in
    let rest =
      fill_columns-done columns texts (room - (length text + 1)) lineno s gives (omega arith) in
    rw (e, e', rest) refl

module _ (version_ntoa : ℕ → Text) where
  -- The text of a version.
  abbrev pub version_or_empty : ℕ → Text
  version_or_empty ver = if ver == 0 then form_empty else 86 ∷ version_ntoa ver

  -- The eight texts of a board.
  abbrev pub board_texts : ℕ → WebCtrlComm → List Text
  board_texts board s =
      let type = get_or s.boards_exist.type board 0 in
      decimal 2 (board + 1)
      ∷ board_get_type_name type false
      ∷ board_get_type_name type true
      ∷ version_or_empty (frame_of board s).pcb_ver
      ∷ version_or_empty (frame_of board s).cpu_app_ver
      ∷ fpga_text (frame_of board s).fpga_ver
      ∷ version_or_empty (frame_of board s).boot_ver
      ∷ codes "&#27491;&#24120;"
      ∷ []

  version_text-done :
      (ver : ℕ)
      → length (version_ntoa ver) ≤ 7
      → (version_text version_ntoa ver ≡ done (version_or_empty ver))
        × (length (version_or_empty ver) ≤ 40)
  unfolding version_text
  version_text-done ver short =
      let e' : ltb (length (version_ntoa ver)) 8 ≡ true = ground arith in
      elim (Bool-cases (ver == 0)) [
        | inl e ↦ rw e (refl, omega arith)
        | inr e ↦ rw (e, e') (refl, omega arith)
      ]

  pub board_column_table-Give :
      (lineno board : ℕ) (s : WebCtrlComm)
      → ((ver : ℕ) → length (version_ntoa ver) ≤ 7)
      → board_get_boardno_according_to_lineno lineno s ≡ some board
      → Give (board_column_table version_ntoa) (board_texts board s) lineno s
  unfolding board_column_table board_column1_slot board_column2_type board_column3_business_type
      board_column4_pcb_version board_column5_sw_version board_column6_fpga_version
      board_column7_boot_version board_column8_state Give
  board_column_table-Give lineno board s short found =
      let type = get_or s.boards_exist.type board 0 in
      let f = frame_of board s in
      let slot = decimal-short 2 (board + 1) in
      let (e₄, n₄) = version_text-done f.pcb_ver (short f.pcb_ver) in
      let (e₅, n₅) = version_text-done f.cpu_app_ver (short f.cpu_app_ver) in
      let (e₇, n₇) = version_text-done f.boot_ver (short f.boot_ver) in
      (
        rw (board_column1_slot, of_board, found) refl,
        omega arith,
        (
          rw (board_column2_type, of_board, found) refl,
          type_name-short type false,
          (
            rw (board_column3_business_type, of_board, found) refl,
            type_name-short type true,
            (
              rw (board_column4_pcb_version, of_board, found) e₄,
              n₄,
              (
                rw (board_column5_sw_version, of_board, found) e₅,
                n₅,
                (
                  rw (board_column6_fpga_version, of_board, found) refl,
                  fpga_text-short f.fpga_ver,
                  (
                    rw (board_column7_boot_version, of_board, found) e₇,
                    n₇,
                    (refl, omega arith, tt),
                  ),
                ),
              ),
            ),
          ),
        ),
      )

  -- Line k + 1 shows the k-th of the boards that are set, counted from 0, with its texts in a row,
  -- and a line behind the last of them shows one space. No text overruns the buffer of 512
  -- characters, if version_ntoa keeps within its eight.
  pub board_common_line_ssi_handler_lem :
      (k : ℕ) (s : WebCtrlComm)
      → ((ver : ℕ) → length (version_ntoa ver) ≤ 7)
      → board_common_line_ssi_handler version_ntoa (suc k) s
        ≡ done (elim (get_elem? (set_boards 0 s.bulb_ver) k) [
          | none ↦ codes " "
          | some board ↦ fill_row (board_texts board s)
        ])
  unfolding board_common_line_ssi_handler
  board_common_line_ssi_handler_lem k s short =
      let place = board_get_boardno-get_elem? k s in
      elim (Option-cases (get_elem? (set_boards 0 s.bulb_ver) k)) [
        | inl e ↦ rw (board_common_line_ssi_handler, place, e) refl
        | inr (board, e) ↦
            rw
              (
                board_common_line_ssi_handler,
                place,
                e,
                fill_columns-done (board_column_table version_ntoa) (board_texts board s) 512
                    (suc k) s (board_column_table-Give (suc k) board s short (place ∙ e))
                    (omega arith),
              )
              refl
      ]

  -- The text of a line in a state.
  abbrev pub line_text : ℕ → WebCtrlComm → Text
  line_text k s = elim (get_elem? (set_boards 0 s.bulb_ver) k) [
    | none ↦ codes " "
    | some board ↦ fill_row (board_texts board s)
  ]
