-- ===== src/Ports/Shown.antt =====
-- The texts of the port pages for tables whose ports lie in their arrays.
use arm_ucos_proxy.Base.{
  ℕ, zero, suc, ◌+◌, ◌*◌, ◌≤◌, ◌≡◌, length-append, refl, Bool, true, false, ◌&&◌, List, [], ◌∷◌,
  ◌++◌, length, get_or, leb, arith,
}
use arm_ucos_proxy.Base.Outcome.{done}
use arm_ucos_proxy.Comm.State.{WebOpt, WebEth, WebE1, zero_opt, zero_eth, zero_e1}
use arm_ucos_proxy.Comm.Tidy.{IsOptRow, IsEthRow, IsE1Row, IsTable}
use arm_ucos_proxy.Ports.Text.{Text, fe_mark, max_tag_insert_len}
use arm_ucos_proxy.Ports.Opt.{opt_make_data, opt_all_data, opt_board_data, opt_text}
use arm_ucos_proxy.Ports.E1.{e1_make_data, e1_all_data, e1_board_data, e1_text}
use arm_ucos_proxy.Ports.Eth.{eth_make_data, eth_all_data, eth_board_data, eth_text}

opt_board_data-length :
    (n portno board : ℕ) (row : WebOpt) → length (opt_board_data n portno board row) ≡ 6 * n
unfolding opt_board_data opt_make_data
opt_board_data-length zero portno board row = omega arith
opt_board_data-length (suc n) portno board row =
    let port =
      opt_make_data board portno (get_or row.config portno 0) (get_or row.state portno 0) in
    omega (
      arith,
      length-append port (opt_board_data n (portno + 1) board row),
      opt_board_data-length n (portno + 1) board row,
    )

e1_board_data-length :
    (n portno board : ℕ) (row : WebE1) → length (e1_board_data n portno board row) ≡ 6 * n
unfolding e1_board_data e1_make_data
e1_board_data-length zero portno board row = omega arith
e1_board_data-length (suc n) portno board row =
    let port = e1_make_data board portno (get_or row.config portno 0) (get_or row.state portno 0) in
    omega (
      arith,
      length-append port (e1_board_data n (portno + 1) board row),
      e1_board_data-length n (portno + 1) board row,
    )

eth_board_data-length :
    (n portno board : ℕ) (words : List ℕ) → length (eth_board_data n portno board words) ≡ 6 * n
unfolding eth_board_data eth_make_data
eth_board_data-length zero portno board words = omega arith
eth_board_data-length (suc n) portno board words = omega (
  arith,
  length-append (eth_make_data board portno (get_or words portno 0))
      (eth_board_data n (portno + 1) board words),
  eth_board_data-length n (portno + 1) board words,
)

opt_all_data-done :
    (board : ℕ) (rows : List WebOpt)
    → ((j : ℕ) → IsOptRow (get_or rows j zero_opt))
    → (text : Text) × (opt_all_data board rows ≡ done text) × (length text ≤ 12 * length rows)
unfolding opt_all_data
opt_all_data-done board [] good = ([], refl, omega arith)
opt_all_data-done board (row ∷ rows) good =
    let (text, e, short) = opt_all_data-done (board + 1) rows (λ j. good (suc j)) in
    let fits : (leb row.amount (length row.config) && leb row.amount (length row.state)) ≡ true =
      ground (arith, (good 0).config, (good 0).state, (good 0).amount) in
    (
      opt_board_data row.amount 0 board row ++ text,
      rw (opt_all_data, fits, e) refl,
      omega (
        arith,
        short,
        (good 0).amount,
        length-append (opt_board_data row.amount 0 board row) text,
        opt_board_data-length row.amount 0 board row,
      ),
    )

e1_all_data-done :
    (board : ℕ) (rows : List WebE1)
    → ((j : ℕ) → IsE1Row (get_or rows j zero_e1))
    → (text : Text) × (e1_all_data board rows ≡ done text) × (length text ≤ 48 * length rows)
unfolding e1_all_data
e1_all_data-done board [] good = ([], refl, omega arith)
e1_all_data-done board (row ∷ rows) good =
    let (text, e, short) = e1_all_data-done (board + 1) rows (λ j. good (suc j)) in
    let fits : (leb row.amount (length row.config) && leb row.amount (length row.state)) ≡ true =
      ground (arith, (good 0).config, (good 0).state, (good 0).amount) in
    (
      e1_board_data row.amount 0 board row ++ text,
      rw (e1_all_data, fits, e) refl,
      omega (
        arith,
        short,
        (good 0).amount,
        length-append (e1_board_data row.amount 0 board row) text,
        e1_board_data-length row.amount 0 board row,
      ),
    )

-- The characters of a board's ports.
abbrev most : Bool → ℕ
most true = 12
most false = 36

eth_all_data-done :
    (ge : Bool) (board : ℕ) (rows : List WebEth)
    → ((j : ℕ) → IsEthRow (get_or rows j zero_eth))
    → (text : Text) × (eth_all_data ge board rows ≡ done text)
      × (length text ≤ most ge * length rows)
unfolding eth_all_data
eth_all_data-done ge board [] good = ([], refl, omega arith)
eth_all_data-done true board (row ∷ rows) good =
    let (text, e, short) = eth_all_data-done true (board + 1) rows (λ j. good (suc j)) in
    let fits : leb row.ge_amount (length row.ge) ≡ true =
      ground (arith, (good 0).ge, (good 0).ge_amount) in
    (
      eth_board_data row.ge_amount 0 board row.ge ++ text,
      rw (eth_all_data, fits, e) refl,
      omega (
        arith,
        short,
        (good 0).ge_amount,
        length-append (eth_board_data row.ge_amount 0 board row.ge) text,
        eth_board_data-length row.ge_amount 0 board row.ge,
      ),
    )
eth_all_data-done false board (row ∷ rows) good =
    let (text, e, short) = eth_all_data-done false (board + 1) rows (λ j. good (suc j)) in
    let fits : leb row.fe_amount (length row.fe) ≡ true =
      ground (arith, (good 0).fe, (good 0).fe_amount) in
    (
      eth_board_data row.fe_amount 0 board row.fe ++ text,
      rw (eth_all_data, fits, e) refl,
      omega (
        arith,
        short,
        (good 0).fe_amount,
        length-append (eth_board_data row.fe_amount 0 board row.fe) text,
        eth_board_data-length row.fe_amount 0 board row.fe,
      ),
    )

pub opt_text-done :
    (old : Text) (rows : List WebOpt)
    → IsTable IsOptRow zero_opt rows
    → length old ≤ max_tag_insert_len
    → (text : Text) × (opt_text old rows ≡ done text) × (length text ≤ max_tag_insert_len)
unfolding opt_text
opt_text-done old rows t room = shown (opt_all_data-done 0 rows t.row)
  where
    shown :
        (text : Text) × (opt_all_data 0 rows ≡ done text) × (length text ≤ 12 * length rows)
        → (text : Text) × (opt_text old rows ≡ done text) × (length text ≤ max_tag_insert_len)
    shown ([], e, short) = (old, rw (opt_text, e) refl, room)
    shown (c ∷ text, e, short) = (c ∷ text, rw (opt_text, e) refl, omega (arith, short, t.size))

pub e1_text-done :
    (old : Text) (rows : List WebE1)
    → IsTable IsE1Row zero_e1 rows
    → length old ≤ max_tag_insert_len
    → (text : Text) × (e1_text old rows ≡ done text) × (length text ≤ max_tag_insert_len)
unfolding e1_text
e1_text-done old rows t room = shown (e1_all_data-done 0 rows t.row)
  where
    shown :
        (text : Text) × (e1_all_data 0 rows ≡ done text) × (length text ≤ 48 * length rows)
        → (text : Text) × (e1_text old rows ≡ done text) × (length text ≤ max_tag_insert_len)
    shown ([], e, short) = (old, rw (e1_text, e) refl, room)
    shown (c ∷ text, e, short) = (c ∷ text, rw (e1_text, e) refl, omega (arith, short, t.size))

pub eth_text-done :
    (rows : List WebEth)
    → IsTable IsEthRow zero_eth rows
    → (text : Text) × (eth_text rows ≡ done text) × (length text ≤ max_tag_insert_len)
unfolding eth_text
eth_text-done rows t =
    let (ge, e, short) = eth_all_data-done true 0 rows t.row in
    let (fe, e', short') = eth_all_data-done false 0 rows t.row in
    (
      ge ++ fe_mark ++ fe,
      rw (eth_text, e, e') refl,
      omega (
        arith,
        short,
        short',
        t.size,
        length-append (ge ++ fe_mark) fe,
        length-append ge fe_mark,
      ),
    )
