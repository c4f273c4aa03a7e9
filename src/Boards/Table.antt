-- ===== src/Boards/Table.antt =====
-- The columns and lines of the boards' page.
use arm_ucos_proxy.Base.{
  ℕ, ◌+◌, ◌-◌, ◌/◌, ◌%◌, Bool, true, false, List, [], ◌∷◌, ◌++◌, Option, none, some, length, get_or,
  ltb, ◌==◌, if◌then◌else◌,
}
use arm_ucos_proxy.Base.Outcome.{Outcome, done, fault, and_then, Action}
use arm_ucos_proxy.Tftp.Packet.{codes}
use arm_ucos_proxy.Comm.State.{
  WebDybFrame, WebBulbVer, WebBulbVerFrm, WebCtrlComm, Codes, Exchange, zero_bulb_ver,
  gan111_main_ctrl, gan111_8e1,
}
use arm_ucos_proxy.Comm.Tables.{web_read_boards_version}
use arm_ucos_proxy.Ports.Text.{Text}
use arm_ucos_proxy.Ports.Decimal.{decimal}

-- "&nbsp;"
abbrev pub form_empty : Text
form_empty = codes "&nbsp;"

unfoldable pub fill_unit : Text → Text
fill_unit text = codes "<td>" ++ text ++ codes "</td>"

-- The texts up to the null pointer that ends the array.
unfoldable pub fill_units : List Text → Text
fill_units [] = []
fill_units (text ∷ texts) = fill_unit text ++ fill_units texts

unfoldable pub fill_row : List Text → Text
fill_row texts = codes "<tr>" ++ fill_units texts ++ codes "</tr>"

unfoldable pub board_get_type_name : ℕ → Bool → Text
board_get_type_name type true =
    if type == gan111_main_ctrl
    then codes "GAN111&#20027;&#25511;&#26495;"
    else if type == gan111_8e1
    then codes "8E1&#25509;&#21475;&#30424;"
    else form_empty
board_get_type_name type false =
    if type == gan111_main_ctrl
    then codes "GAN111"
    else if type == gan111_8e1
    then codes "8E1"
    else form_empty

-- The loop over the boards from `i` on, with `sum` of them set before.
unfoldable pub nth_board : List WebBulbVer → ℕ → ℕ → ℕ → Option ℕ
nth_board [] i sum lineno = none
nth_board (row ∷ rows) i sum lineno =
    let skipped = nth_board rows (i + 1) sum lineno in
    let counted = nth_board rows (i + 1) (sum + 1) lineno in
    if row.is_set == 0 then skipped else if sum + 1 == lineno then some i else counted

unfoldable pub board_get_boardno_according_to_lineno : ℕ → WebCtrlComm → Option ℕ
board_get_boardno_according_to_lineno lineno s = nth_board s.bulb_ver 0 0 lineno

-- A column of a line: `board` is not set if there is no board for the line.
abbrev pub Column : Type 0
Column = ℕ → WebCtrlComm → Outcome Text

abbrev pub of_board : (ℕ → WebCtrlComm → Outcome Text) → Column
of_board column lineno s = elim (board_get_boardno_according_to_lineno lineno s) [
  | none ↦ fault
  | some board ↦ column board s
]

abbrev pub frame_of : ℕ → WebCtrlComm → WebBulbVerFrm
frame_of board s = (get_or s.bulb_ver board zero_bulb_ver).frame

unfoldable pub board_column1_slot : Column
board_column1_slot = of_board λ board s. done (decimal 2 (board + 1))

unfoldable pub board_column2_type : Column
board_column2_type =
    of_board λ board s. done (board_get_type_name (get_or s.boards_exist.type board 0) false)

unfoldable pub board_column3_business_type : Column
board_column3_business_type =
    of_board λ board s. done (board_get_type_name (get_or s.boards_exist.type board 0) true)

-- The four hexadecimal digits of the version, the low byte first, each in decimal.
unfoldable pub fpga_text : ℕ → Text
fpga_text ver =
    if ver == 0
    then form_empty
    else 86 ∷ decimal 2 (ver / 16 % 16)
      ++ 46 ∷ decimal 2 (ver % 16)
      ++ decimal 2 (ver / 4096 % 16)
      ++ decimal 2 (ver / 256 % 16)

unfoldable pub board_column6_fpga_version : Column
board_column6_fpga_version = of_board λ board s. done (fpga_text (frame_of board s).fpga_ver)

unfoldable pub board_column8_state : Column
board_column8_state lineno s = done (codes "&#27491;&#24120;")

-- The columns one behind the other into what is left of `buf`, each with its zero.
unfoldable pub fill_columns : ℕ → List Column → ℕ → WebCtrlComm → Outcome (List Text)
fill_columns room [] lineno s = done []
fill_columns room (column ∷ columns) lineno s = and_then (column lineno s) λ text.
    if ltb (length text) room
    then and_then (fill_columns (room - (length text + 1)) columns lineno s)
        (λ texts. done (text ∷ texts))
    else fault

-- version_ntoa is not in this repository; it writes to eight bytes.
module _ (version_ntoa : ℕ → Text) where
  unfoldable pub version_text : ℕ → Outcome Text
  version_text ver =
      if ver == 0
      then done form_empty
      else if ltb (length (version_ntoa ver)) 8
      then done (86 ∷ version_ntoa ver)
      else fault

  unfoldable pub board_column4_pcb_version : Column
  board_column4_pcb_version = of_board λ board s. version_text (frame_of board s).pcb_ver

  unfoldable pub board_column5_sw_version : Column
  board_column5_sw_version = of_board λ board s. version_text (frame_of board s).cpu_app_ver

  unfoldable pub board_column7_boot_version : Column
  board_column7_boot_version = of_board λ board s. version_text (frame_of board s).boot_ver

  unfoldable pub board_column_table : List Column
  board_column_table =
      board_column1_slot ∷ board_column2_type ∷ board_column3_business_type
      ∷ board_column4_pcb_version ∷ board_column5_sw_version ∷ board_column6_fpga_version
      ∷ board_column7_boot_version ∷ board_column8_state ∷ []

  unfoldable pub board_common_line_ssi_handler : ℕ → WebCtrlComm → Outcome Text
  board_common_line_ssi_handler lineno s = elim (board_get_boardno_according_to_lineno lineno s) [
    | none ↦ done (codes " ")
    | some board ↦
        and_then (fill_columns 512 board_column_table lineno s) λ texts. done (fill_row texts)
  ]

  -- The lines 2 to 10.
  unfoldable pub board_line_ssi_handler : ℕ → Action WebCtrlComm Text
  board_line_ssi_handler lineno s =
      and_then (board_common_line_ssi_handler lineno s) λ text. done (text, s)

  -- The first line reads the versions for all; whether that succeeded is not looked at.
  unfoldable pub board_line1_ssi_handler :
      Codes → (List WebDybFrame → Exchange) → Action WebCtrlComm Text
  board_line1_ssi_handler codes link s =
      and_then (web_read_boards_version codes link s) λ r. board_line_ssi_handler 1 r.1
