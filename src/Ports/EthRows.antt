-- ===== src/Ports/EthRows.antt =====
-- The rows of the ethernet table show what the boards answer.
use arm_ucos_proxy.Base.{
  ℕ, zero, suc, ◌+◌, ◌*◌, ◌<◌, ◌≤◌, ◌≡◌, refl, sym, ap, ◌∙◌, subst, Bool, true, false, Bool-cases,
  List, [], ◌∷◌, ◌++◌, inl, inr, Option, none, some, length, get_or, if◌then◌else◌, arith,
}
use arm_ucos_proxy.Base.Bytes.{load16, load16s, length-load16s, get_or-load16s}
use arm_ucos_proxy.Comm.State.{
  WebDybFrame, WebBoardsExist, WebEth, Codes, Exchange, zero_eth, boards_contain_eth_ge,
  boards_contain_eth_fe,
}
use arm_ucos_proxy.Comm.Read.{board_contains}
use arm_ucos_proxy.Comm.Responds.{Device}
use arm_ucos_proxy.Comm.EthTable.{ge_row, ge_entry, fe_row, fe_entry, eth_row}
use arm_ucos_proxy.Ports.EthText.{
  board_words, all_words, amount_of, words_of, IsWordRow, AreWordRows,
}
use arm_ucos_proxy.Ports.PageReads.{AnswersBytes, AreBytes, answer-AreBytes}

-- The ports from `portno` on that the bytes of a reply hold: little-endian half words.
unfoldable pub reply_words : ℕ → ℕ → ℕ → List ℕ → List (List ℕ)
reply_words zero portno board b = []
reply_words (suc n) portno board b =
    (board ∷ portno ∷ load16 b (2 * portno) ∷ []) ∷ reply_words n (portno + 1) board b

-- A row that shows these ports of the kind.
WordsShow : Bool → List (List ℕ) → ℕ → WebEth → Type 0
WordsShow ge ports j row =
    IsWordRow ge row × (board_words (amount_of ge row) 0 j (words_of ge row) ≡ ports)

board_words-reply_words :
    (n portno board size : ℕ) (b : List ℕ)
    → portno + n ≤ size
    → board_words n portno board (load16s b 0 size) ≡ reply_words n portno board b
unfolding board_words reply_words
board_words-reply_words zero portno board size b h = refl
board_words-reply_words (suc n) portno board size b h =
    let place : 0 + 2 * portno ≡ 2 * portno = omega arith in
    rw
      (
        get_or-load16s b 0 size portno (omega arith),
        place,
        board_words-reply_words n (portno + 1) board size b (omega arith),
      )
      refl

load16s-bytes :
    (b : List ℕ) (size i : ℕ)
    → ((k : ℕ) → get_or b k 0 < 256)
    → i < size
    → get_or (load16s b 0 size) i 0 < 65536
load16s-bytes b size i bytes h =
    omega (arith, get_or-load16s b 0 size i h, bytes (0 + 2 * i), bytes (0 + 2 * i + 1))

module _ (codes : Codes) (link : List WebDybFrame → Exchange) (d : Device codes link) where
  open codes use {eth_ge_config, eth_fe_config}

  abbrev iftypes : Bool → List ℕ
  iftypes true = boards_contain_eth_ge
  iftypes false = boards_contain_eth_fe

  -- A board's answer for the kind of ports.
  abbrev answer_of : Bool → ℕ → Option (List ℕ)
  answer_of true j = d.answer j eth_ge_config
  answer_of false j = d.answer j eth_fe_config

  -- The two gigabit or the six fast ports of a board by its answer.
  abbrev eth_ports_of : Bool → ℕ → Option (List ℕ) → List (List ℕ)
  eth_ports_of ge j none = []
  eth_ports_of true j (some b) = reply_words 2 0 j b
  eth_ports_of false j (some b) = reply_words 6 0 j b

  abbrev pub eth_board_shown : Bool → WebBoardsExist → ℕ → List (List ℕ)
  eth_board_shown ge be j =
      if board_contains (iftypes ge) j be then eth_ports_of ge j (answer_of ge j) else []

  -- The ports of the kind of the device's boards from the j-th on.
  unfoldable pub device_eth_ports : Bool → WebBoardsExist → ℕ → ℕ → List (List ℕ)
  device_eth_ports ge be j zero = []
  device_eth_ports ge be j (suc n) = eth_board_shown ge be j ++ device_eth_ports ge be (j + 1) n

  ge_entry-WordsShow :
      (j : ℕ) (old : WebEth) (r : Option (List ℕ))
      → AreBytes r
      → WordsShow true (eth_ports_of true j r) j (ge_entry codes link d r old)
  unfolding WordsShow board_words
  ge_entry-WordsShow j old none h = (
    record { within = omega arith; few = omega arith; half_words = λ i k. absurd (omega arith) },
    refl,
  )
  ge_entry-WordsShow j old (some b) h = (
    record {
      within = omega (arith, length-load16s b 0 4);
      few = omega arith;
      half_words = λ i k. load16s-bytes b 4 i h (omega arith);
    },
    board_words-reply_words 2 0 j 4 b (omega arith),
  )

  fe_entry-WordsShow :
      (j : ℕ) (old : WebEth) (r : Option (List ℕ))
      → AreBytes r
      → WordsShow false (eth_ports_of false j r) j (fe_entry codes link d r old)
  unfolding WordsShow board_words
  fe_entry-WordsShow j old none h = (
    record { within = omega arith; few = omega arith; half_words = λ i k. absurd (omega arith) },
    refl,
  )
  fe_entry-WordsShow j old (some b) h = (
    record {
      within = omega (arith, length-load16s b 0 16);
      few = omega arith;
      half_words = λ i k. load16s-bytes b 16 i h (omega arith);
    },
    board_words-reply_words 6 0 j 16 b (omega arith),
  )

  -- The fast ports' reading leaves the gigabit ports alone.
  fe_entry-keeps :
      (j : ℕ) (ports : List (List ℕ)) (old : WebEth) (r : Option (List ℕ))
      → WordsShow true ports j old
      → WordsShow true ports j (fe_entry codes link d r old)
  unfolding WordsShow
  fe_entry-keeps j ports old none (ok_row, shown) =
      (record { within = ok_row.within; few = ok_row.few; half_words = ok_row.half_words }, shown)
  fe_entry-keeps j ports old (some b) (ok_row, shown) =
      (record { within = ok_row.within; few = ok_row.few; half_words = ok_row.half_words }, shown)

  ge_row-WordsShow :
      (be : WebBoardsExist) (j : ℕ) (old : WebEth)
      → AnswersBytes codes link d
      → WordsShow true (eth_board_shown true be j) j (ge_row codes link d be j old)
  ge_row-WordsShow be j old bytes = elim (Bool-cases (board_contains boards_contain_eth_ge j be)) [
    | inl e ↦ rw e (
        ge_entry-WordsShow j old (d.answer j eth_ge_config)
          (answer-AreBytes codes link d j eth_ge_config _ refl bytes))
    | inr e ↦ rw e (ge_entry-WordsShow j old none tt)
  ]

  fe_row-WordsShow :
      (be : WebBoardsExist) (j : ℕ) (old : WebEth)
      → AnswersBytes codes link d
      → WordsShow false (eth_board_shown false be j) j (fe_row codes link d be j old)
  fe_row-WordsShow be j old bytes = elim (Bool-cases (board_contains boards_contain_eth_fe j be)) [
    | inl e ↦ rw e (
        fe_entry-WordsShow j old (d.answer j eth_fe_config)
          (answer-AreBytes codes link d j eth_fe_config _ refl bytes))
    | inr e ↦ rw e (fe_entry-WordsShow j old none tt)
  ]

  fe_row-keeps :
      (be : WebBoardsExist) (j : ℕ) (ports : List (List ℕ)) (old : WebEth)
      → WordsShow true ports j old
      → WordsShow true ports j (fe_row codes link d be j old)
  fe_row-keeps be j ports old h = elim (Bool-cases (board_contains boards_contain_eth_fe j be)) [
    | inl e ↦ rw e (fe_entry-keeps j ports old (d.answer j eth_fe_config) h)
    | inr e ↦ rw e (fe_entry-keeps j ports old none h)
  ]

  eth_row-WordsShow :
      (ge : Bool) (be : WebBoardsExist) (j : ℕ) (old : WebEth)
      → AnswersBytes codes link d
      → WordsShow ge (eth_board_shown ge be j) j (eth_row codes link d be j old)
  eth_row-WordsShow true be j old bytes =
      fe_row-keeps be j (eth_board_shown true be j) (ge_row codes link d be j old)
        (ge_row-WordsShow be j old bytes)
  eth_row-WordsShow false be j old bytes =
      fe_row-WordsShow be j (ge_row codes link d be j old) bytes

  pub rows-device_eth_ports :
      (ge : Bool) (be : WebBoardsExist) (rows : List WebEth) (old : ℕ → WebEth) (i : ℕ)
      → AnswersBytes codes link d
      → ((k : ℕ)
          → k < length rows
          → get_or rows k zero_eth ≡ eth_row codes link d be (i + k) (old k))
      → AreWordRows ge rows × (all_words ge i rows ≡ device_eth_ports ge be i (length rows))
  unfolding AreWordRows all_words device_eth_ports WordsShow
  rows-device_eth_ports ge be [] old i bytes h = (tt, refl)
  rows-device_eth_ports ge be (row ∷ rows) old i bytes h =
      let first : row ≡ eth_row codes link d be i (old 0) =
        h 0 (omega arith) ∙ ap (λ j. eth_row codes link d be j (old 0)) (omega arith) in
      let (ok_row, shown) : WordsShow ge (eth_board_shown ge be i) i row =
        subst (WordsShow ge (eth_board_shown ge be i) i) (sym first)
          (eth_row-WordsShow ge be i (old 0) bytes) in
      let (ok_rows, rest) =
        rows-device_eth_ports ge be rows (λ k. old (suc k)) (i + 1) bytes
          (λ k m.
            h (suc k) (omega arith)
            ∙ ap (λ j. eth_row codes link d be j (old (suc k))) (omega arith)) in
      (
        (ok_row, ok_rows),
        ap (λ p. p ++ all_words ge (i + 1) rows) shown
            ∙ ap (λ p. eth_board_shown ge be i ++ p) rest,
      )
