-- ===== src/Boards/Fits.antt =====
-- The rows of the boards' page fit the buffer for a tag.
use arm_ucos_proxy.Base.{
  ℕ, suc, ◌*◌, ◌≤◌, List, [], ◌∷◌, ◌++◌, length, length-append, Option-cases, inl, inr, get_elem?,
  ◌∙◌, arith,
}
use arm_ucos_proxy.Tftp.Packet.{codes}
use arm_ucos_proxy.Comm.State.{WebCtrlComm}
use arm_ucos_proxy.Ports.Text.{Text, FitsTag}
use arm_ucos_proxy.Boards.Table.{Column, fill_unit, fill_units, fill_row}
use arm_ucos_proxy.Boards.Lines.{
  Give, set_boards, board_get_boardno-get_elem?, board_texts, board_column_table-Give, line_text,
}

fill_units-length :
    (columns : List Column) (texts : List Text) (lineno : ℕ) (s : WebCtrlComm)
    → Give columns texts lineno s
    → length (fill_units texts) ≤ 49 * length texts
unfolding Give fill_units fill_unit
fill_units-length [] [] lineno s gives = omega arith
fill_units-length [] (text ∷ texts) lineno s gives = absurd gives
fill_units-length (column ∷ columns) [] lineno s gives = omega arith
fill_units-length (column ∷ columns) (text ∷ texts) lineno s (e, short, gives) = omega (
  arith,
  fill_units-length columns texts lineno s gives,
  length-append (codes "<td>" ++ text ++ codes "</td>") (fill_units texts),
  length-append (codes "<td>" ++ text) (codes "</td>"),
  length-append (codes "<td>") text,
)

pub line_text-FitsTag :
    (version_ntoa : ℕ → Text) (k : ℕ) (s : WebCtrlComm)
    → ((ver : ℕ) → length (version_ntoa ver) ≤ 7)
    → FitsTag (line_text version_ntoa k s)
unfolding fill_row
line_text-FitsTag version_ntoa k s short =
    elim (Option-cases (get_elem? (set_boards 0 s.bulb_ver) k)) [
      | inl e ↦ rw (line_text, e) (omega arith)
      | inr (board, e) ↦
          let texts = board_texts version_ntoa board s in
          rw (line_text, e)
            (omega (
              arith,
              fill_units-length _ texts (suc k) s (
                  board_column_table-Give version_ntoa (suc k) board s short
                    (board_get_boardno-get_elem? k s ∙ e)),
              length-append (codes "<tr>" ++ fill_units texts) (codes "</tr>"),
              length-append (codes "<tr>") (fill_units texts),
            ))
    ]
