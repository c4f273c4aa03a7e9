-- ===== src/Ports/EthText.antt =====
-- The text of the ethernet page: what the script of the page can read from it.
use arm_ucos_proxy.Base.{
  ℕ, zero, suc, ◌+◌, ◌*◌, ◌/◌, ◌%◌, ◌≤◌, ◌<◌, ◌≡◌, ◌≢◌, ==_ne, refl, ap, ◌∙◌, Bool, true, false,
  List, [], ◌∷◌, ◌++◌, length, get_or, drop, leb, ◌==◌, if◌then◌else◌, append_assoc, arith,
}
use arm_ucos_proxy.Base.Outcome.{done}
use arm_ucos_proxy.Comm.State.{WebEth}
use arm_ucos_proxy.Ports.Text.{Text, fe_mark, ntoalpha, hex_digit}
use arm_ucos_proxy.Ports.Digits.{alpha_value, hex_value, alpha_value-ntoalpha, hex_value-hex2}
use arm_ucos_proxy.Ports.Eth.{eth_make_data, eth_board_data, eth_all_data, eth_text}

-- Six characters for each port: its board, its number and its word.
unfoldable pub read_words : Text → List (List ℕ)
read_words (b ∷ p ∷ h ∷ h' ∷ l ∷ l' ∷ rest) =
    (alpha_value b ∷ alpha_value p ∷ (256 * hex_value h h' + hex_value l l') ∷ []) ∷ read_words rest
read_words _ = []

-- The gigabit ports stand before the first underscore, the fast ones behind the mark.
unfoldable pub before_mark : Text → Text
before_mark [] = []
before_mark (c ∷ s) = let rest = before_mark s in if c == 95 then [] else c ∷ rest

unfoldable pub behind_mark : Text → Text
behind_mark [] = []
behind_mark (c ∷ s) = let rest = behind_mark s in if c == 95 then drop 3 s else rest

-- The ports of a board from `portno` on: the board, the port, and its word.
unfoldable pub board_words : ℕ → ℕ → ℕ → List ℕ → List (List ℕ)
board_words zero portno board words = []
board_words (suc n) portno board words =
    (board ∷ portno ∷ get_or words portno 0 ∷ []) ∷ board_words n (portno + 1) board words

abbrev pub amount_of : Bool → WebEth → ℕ
amount_of true row = row.ge_amount
amount_of false row = row.fe_amount

abbrev pub words_of : Bool → WebEth → List ℕ
words_of true row = row.ge
words_of false row = row.fe

-- The ports of a kind of all boards from `board` on.
unfoldable pub all_words : Bool → ℕ → List WebEth → List (List ℕ)
all_words ge board [] = []
all_words ge board (row ∷ rows) =
    board_words (amount_of ge row) 0 board (words_of ge row) ++ all_words ge (board + 1) rows

-- A row that has its ports of the kind, of half words.
pub record IsWordRow (ge : Bool) (row : WebEth) : Type 0 where
  pub within : amount_of ge row ≤ length (words_of ge row)
  pub few : amount_of ge row ≤ 62
  pub half_words : (i : ℕ) → i < amount_of ge row → get_or (words_of ge row) i 0 < 65536

unfoldable pub AreWordRows : Bool → List WebEth → Type 0
AreWordRows ge [] = Unit
AreWordRows ge (row ∷ rows) = IsWordRow ge row × AreWordRows ge rows

HasNoMark : Text → Type 0
HasNoMark [] = Unit
HasNoMark (c ∷ s) = (c ≢ 95) × HasNoMark s

append-HasNoMark : (s t : Text) → HasNoMark s → HasNoMark t → HasNoMark (s ++ t)
unfolding HasNoMark
append-HasNoMark [] t h h' = h'
append-HasNoMark (c ∷ s) t (ne, h) h' = (ne, append-HasNoMark s t h h')

before_mark-append : (s t : Text) → HasNoMark s → before_mark (s ++ 95 ∷ t) ≡ s
unfolding before_mark HasNoMark
before_mark-append [] t h = refl
before_mark-append (c ∷ s) t (ne, h) =
    rw (before_mark, ==_ne c 95 ne, before_mark-append s t h) refl

behind_mark-append : (s t : Text) → HasNoMark s → behind_mark (s ++ 95 ∷ t) ≡ drop 3 t
unfolding behind_mark HasNoMark
behind_mark-append [] t h = refl
behind_mark-append (c ∷ s) t (ne, h) =
    rw (behind_mark, ==_ne c 95 ne, behind_mark-append s t h) refl

ntoalpha-ne-mark : (n : ℕ) → ntoalpha n ≢ 95
unfolding ntoalpha
ntoalpha-ne-mark n h = ground arith

hex_digit-ne-mark : (n : ℕ) → n < 16 → hex_digit n ≢ 95
unfolding hex_digit
hex_digit-ne-mark n k h = ground arith

make_data-HasNoMark : (board portno word : ℕ) → HasNoMark (eth_make_data board portno word)
unfolding HasNoMark eth_make_data
make_data-HasNoMark board portno word = (
  ntoalpha-ne-mark board,
  (
    ntoalpha-ne-mark portno,
    (
      hex_digit-ne-mark _ (omega arith),
      (
        hex_digit-ne-mark _ (omega arith),
        (hex_digit-ne-mark _ (omega arith), (hex_digit-ne-mark _ (omega arith), tt)),
      ),
    ),
  ),
)

board_data-HasNoMark :
    (n portno board : ℕ) (words : List ℕ) → HasNoMark (eth_board_data n portno board words)
unfolding HasNoMark eth_board_data
board_data-HasNoMark zero portno board words = tt
board_data-HasNoMark (suc n) portno board words =
    append-HasNoMark (eth_make_data board portno (get_or words portno 0)) _
      (make_data-HasNoMark board portno (get_or words portno 0))
      (board_data-HasNoMark n (portno + 1) board words)

read_words-make_data :
    (board portno word : ℕ) (text : Text)
    → board < 62
    → portno < 62
    → word < 65536
    → read_words (eth_make_data board portno word ++ text)
      ≡ (board ∷ portno ∷ word ∷ []) ∷ read_words text
unfolding eth_make_data read_words
read_words-make_data board portno word text hb hp hw =
    let high = hex_value-hex2 (word / 256) (omega arith) in
    let low = hex_value-hex2 (word % 256) (omega arith) in
    let whole : 256 * (word / 256) + word % 256 ≡ word = omega arith in
    rw (alpha_value-ntoalpha board hb, alpha_value-ntoalpha portno hp, high, low, whole) refl

read_words-board_data :
    (n portno board : ℕ) (words : List ℕ) (text : Text)
    → board < 62
    → portno + n ≤ 62
    → ((i : ℕ) → i < portno + n → get_or words i 0 < 65536)
    → read_words (eth_board_data n portno board words ++ text)
      ≡ board_words n portno board words ++ read_words text
unfolding eth_board_data board_words
read_words-board_data zero portno board words text hb hp hw = refl
read_words-board_data (suc n) portno board words text hb hp hw =
    let word = get_or words portno 0 in
    let rest = eth_board_data n (portno + 1) board words in
    ap read_words (append_assoc (eth_make_data board portno word) rest text)
    ∙ read_words-make_data board portno word (rest ++ text) hb (omega arith)
        (hw portno (omega arith))
    ∙ ap (λ r. (board ∷ portno ∷ word ∷ []) ∷ r)
        (read_words-board_data n (portno + 1) board words text hb (omega arith)
          (λ i k. hw i (omega arith)))

Tells : Bool → ℕ → List WebEth → Text → Type 0
Tells ge board rows text =
    (eth_all_data ge board rows ≡ done text)
    × HasNoMark text
    × (read_words text ≡ all_words ge board rows)

more-Tells :
    (ge : Bool) (board : ℕ) (row : WebEth) (rows : List WebEth) (text : Text)
    → board < 62
    → IsWordRow ge row
    → Tells ge (board + 1) rows text
    → Tells ge board
        (row ∷ rows)
        (eth_board_data (amount_of ge row) 0 board (words_of ge row) ++ text)
unfolding Tells all_words eth_all_data eth_board_data
more-Tells ge board row rows text h ok_row (e, clear, read) = (
  made ge ok_row.within e,
  append-HasNoMark _ text (board_data-HasNoMark (amount_of ge row) 0 board (words_of ge row)) clear,
  read_words-board_data (amount_of ge row) 0 board (words_of ge row) text h
        (omega (arith, ok_row.few)) (λ i k. ok_row.half_words i (omega arith))
      ∙ ap (λ r. board_words (amount_of ge row) 0 board (words_of ge row) ++ r) read,
)
  where
    made :
        (ge : Bool)
        → amount_of ge row ≤ length (words_of ge row)
        → eth_all_data ge (board + 1) rows ≡ done text
        → eth_all_data ge board (row ∷ rows)
          ≡ done (eth_board_data (amount_of ge row) 0 board (words_of ge row) ++ text)
    made true within e =
        let fits : leb row.ge_amount (length row.ge) ≡ true = ground (arith, within) in
        rw (eth_all_data, fits, e) refl
    made false within e =
        let fits : leb row.fe_amount (length row.fe) ≡ true = ground (arith, within) in
        rw (eth_all_data, fits, e) refl

all_data-Tells :
    (ge : Bool) (board : ℕ) (rows : List WebEth)
    → board + length rows ≤ 62
    → AreWordRows ge rows
    → (text : Text) × Tells ge board rows text
unfolding AreWordRows Tells HasNoMark eth_all_data all_words read_words
all_data-Tells ge board [] h ok_rows = ([], (refl, tt, refl))
all_data-Tells ge board (row ∷ rows) h (ok_row, ok_rows) =
    let (text, made) = all_data-Tells ge (board + 1) rows (omega arith) ok_rows in
    (
      eth_board_data (amount_of ge row) 0 board (words_of ge row) ++ text,
      more-Tells ge board row rows text (omega arith) ok_row made,
    )

-- With at most 62 boards with at most 62 ports of each kind, and rows of half words, the text of
-- the page determines the board, the number and the word of every port, the gigabit ports before
-- the first underscore and the fast ones behind the mark.
pub eth_text-read_words :
    (rows : List WebEth)
    → length rows ≤ 62
    → AreWordRows true rows
    → AreWordRows false rows
    → (text : Text) × (eth_text rows ≡ done text)
      × (read_words (before_mark text) ≡ all_words true 0 rows)
      × (read_words (behind_mark text) ≡ all_words false 0 rows)
unfolding eth_text Tells
eth_text-read_words rows h ok_ge ok_fe =
    let (ge, (made, clear, read)) = all_data-Tells true 0 rows (omega arith) ok_ge in
    let (fe, (made', clear', read')) = all_data-Tells false 0 rows (omega arith) ok_fe in
    (
      ge ++ fe_mark ++ fe,
      rw (eth_text, made, made') refl,
      ap (λ t. read_words (before_mark t)) (append_assoc ge fe_mark fe)
          ∙ ap read_words (before_mark-append ge (70 ∷ 69 ∷ 95 ∷ fe) clear)
          ∙ read,
      ap (λ t. read_words (behind_mark t)) (append_assoc ge fe_mark fe)
          ∙ ap read_words (behind_mark-append ge (70 ∷ 69 ∷ 95 ∷ fe) clear)
          ∙ read',
    )
