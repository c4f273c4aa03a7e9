-- ===== src/Ports/PageText.antt =====
-- The text of the optical page: what the script of the page can read from it.
use arm_ucos_proxy.Base.{
  ℕ, zero, suc, ◌+◌, ◌≤◌, ◌<◌, ◌≡◌, ◌≢◌, refl, sym, ap, ◌∙◌, true, ◌&&◌, List, [], ◌∷◌, ◌++◌,
  length, get_or, leb, append_assoc, arith,
}
use arm_ucos_proxy.Base.Outcome.{done}
use arm_ucos_proxy.Comm.State.{WebOpt}
use arm_ucos_proxy.Ports.Text.{Text}
use arm_ucos_proxy.Ports.Opt.{opt_make_data, opt_board_data, opt_all_data, opt_text}
use arm_ucos_proxy.Ports.Digits.{read_port, opt_make_data-read_port}

-- Six characters for each port.
unfoldable pub read_page : Text → List (List ℕ)
read_page (b ∷ p ∷ c ∷ c' ∷ s ∷ s' ∷ rest) =
    read_port (b ∷ p ∷ c ∷ c' ∷ s ∷ s' ∷ []) ∷ read_page rest
read_page _ = []

-- The ports of a board from `portno` on: the board, the port, and its two bytes.
unfoldable pub board_ports : ℕ → ℕ → ℕ → WebOpt → List (List ℕ)
board_ports zero portno board row = []
board_ports (suc n) portno board row =
    (board ∷ portno ∷ get_or row.config portno 0 ∷ get_or row.state portno 0 ∷ [])
    ∷ board_ports n (portno + 1) board row

-- The ports of all boards from `board` on.
unfoldable pub all_ports : ℕ → List WebOpt → List (List ℕ)
all_ports board [] = []
all_ports board (row ∷ rows) = board_ports row.amount 0 board row ++ all_ports (board + 1) rows

-- Rows that have their ports, of bytes.
pub record IsRow (row : WebOpt) : Type 0 where
  pub in_config : row.amount ≤ length row.config
  pub in_state : row.amount ≤ length row.state
  pub few : row.amount ≤ 62
  pub config_bytes : (i : ℕ) → i < row.amount → get_or row.config i 0 < 256
  pub state_bytes : (i : ℕ) → i < row.amount → get_or row.state i 0 < 256

unfoldable pub AreRows : List WebOpt → Type 0
AreRows [] = Unit
AreRows (row ∷ rows) = IsRow row × AreRows rows

read_page-make_data :
    (board portno cfg state : ℕ) (text : Text)
    → read_page (opt_make_data board portno cfg state ++ text)
      ≡ read_port (opt_make_data board portno cfg state) ∷ read_page text
unfolding opt_make_data read_page
read_page-make_data board portno cfg state text = refl

read_page-board_data :
    (n portno board : ℕ) (row : WebOpt) (text : Text)
    → board < 62
    → portno + n ≤ row.amount
    → IsRow row
    → read_page (opt_board_data n portno board row ++ text)
      ≡ board_ports n portno board row ++ read_page text
unfolding opt_board_data board_ports
read_page-board_data zero portno board row text h h' ok_row = refl
read_page-board_data (suc n) portno board row text h h' ok_row =
    let cfg = get_or row.config portno 0 in
    let state = get_or row.state portno 0 in
    let port = opt_make_data board portno cfg state in
    let rest = opt_board_data n (portno + 1) board row in
    let read =
      opt_make_data-read_port board portno cfg state h (omega (arith, ok_row.few))
        (ok_row.config_bytes portno (omega arith)) (ok_row.state_bytes portno (omega arith)) in
    let later = read_page-board_data n (portno + 1) board row text h (omega arith) ok_row in
    ap read_page (append_assoc port rest text)
    ∙ read_page-make_data board portno cfg state (rest ++ text)
    ∙ rw (read, later) refl

pub all_data-read_page :
    (board : ℕ) (rows : List WebOpt)
    → board + length rows ≤ 62
    → AreRows rows
    → (text : Text) × (opt_all_data board rows ≡ done text)
      × (read_page text ≡ all_ports board rows)
unfolding opt_all_data all_ports AreRows read_page
all_data-read_page board [] h ok_rows = ([], refl, refl)
all_data-read_page board (row ∷ rows) h (ok_row, ok_rows) =
    let (text, e, read) = all_data-read_page (board + 1) rows (omega arith) ok_rows in
    let fits : (leb row.amount (length row.config) && leb row.amount (length row.state)) ≡ true =
      ground (arith, ok_row.in_config, ok_row.in_state) in
    (
      opt_board_data row.amount 0 board row ++ text,
      rw (opt_all_data, fits, e) refl,
      read_page-board_data row.amount 0 board row text (omega arith) (omega (arith, ok_row.few))
            ok_row
          ∙ ap (λ r. board_ports row.amount 0 board row ++ r) read,
    )

pub some_text :
    (text old : Text) (rows : List WebOpt)
    → opt_all_data 0 rows ≡ done text
    → read_page text ≢ []
    → opt_text old rows ≡ done text
unfolding opt_text read_page
some_text [] old rows e h = absurd (h refl)
some_text (c ∷ text) old rows e h = rw (opt_text, e) refl

-- With at least one port, at most 62 boards with at most 62 ports each, and rows of bytes, the
-- text of the page determines every port's board, number, configuration and state, in order.
pub opt_text-read_page :
    (old : Text) (rows : List WebOpt)
    → length rows ≤ 62
    → AreRows rows
    → all_ports 0 rows ≢ []
    → (text : Text) × (opt_text old rows ≡ done text) × (read_page text ≡ all_ports 0 rows)
opt_text-read_page old rows h ok_rows some_port =
    let (text, e, read) = all_data-read_page 0 rows (omega arith) ok_rows in
    (text, some_text text old rows e (λ q. some_port (sym read ∙ q)), read)
