-- ===== src/Ports/E1Reads.antt =====
-- The E1 page against a device on the link: it shows what the boards answer. Its text is made as
-- the optical page's.
use arm_ucos_proxy.Base.{
  ℕ, zero, suc, ◌+◌, ◌<◌, ◌≤◌, ◌≡◌, ◌⊎◌, inl, inr, refl, sym, ap, ◌∙◌, subst, Bool-cases, List, [],
  ◌∷◌, ◌++◌, Option, none, some, length, get_or, take, drop, get_or-take, get_or-drop, length-take,
  length-drop, map, ◌&&◌, leb, if◌then◌else◌, arith,
}
use arm_ucos_proxy.Base.Outcome.{Outcome, done, fault, blocked, ◌>>=◌}
use arm_ucos_proxy.Comm.State.{
  WebDybFrame, WebBoardsExist, WebOpt, WebE1, WebCtrlComm, Codes, Exchange, zero_e1,
  boards_contain_e1,
}
use arm_ucos_proxy.Comm.Read.{board_contains}
use arm_ucos_proxy.Comm.Device.{HasSize}
use arm_ucos_proxy.Comm.Page.{page_status}
use arm_ucos_proxy.Comm.Tables.{web_read_e1}
use arm_ucos_proxy.Comm.Responds.{Device, present}
use arm_ucos_proxy.Comm.E1Table.{e1_row, e1_entry, web_read_e1_lem}
use arm_ucos_proxy.Ports.Text.{Text, fail_str}
use arm_ucos_proxy.Ports.State.{PortPages, on_control}
use arm_ucos_proxy.Ports.Opt.{opt_make_data, opt_board_data, opt_all_data, opt_text}
use arm_ucos_proxy.Ports.E1.{
  e1_make_data, e1_board_data, e1_all_data, e1_text, e1_read_data_ssi_handler,
}
use arm_ucos_proxy.Ports.PageText.{
  read_page, board_ports, all_ports, IsRow, AreRows, all_data-read_page,
}
use arm_ucos_proxy.Ports.PageReads.{
  opt_text-read, AnswersBytes, AreBytes, answer-AreBytes, RowShows, no_ports-RowShows,
}

-- What the page's text takes from a row.
abbrev as_opt : WebE1 → WebOpt
as_opt row = record { config = row.config; state = row.state; amount = row.amount }

e1_board_data-eq :
    (n portno board : ℕ) (row : WebE1)
    → e1_board_data n portno board row ≡ opt_board_data n portno board (as_opt row)
unfolding e1_board_data opt_board_data e1_make_data opt_make_data
e1_board_data-eq zero portno board row = refl
e1_board_data-eq (suc n) portno board row =
    ap
      (λ rest.
        e1_make_data board portno (get_or row.config portno 0) (get_or row.state portno 0) ++ rest)
      (e1_board_data-eq n (portno + 1) board row)

e1_all_data-eq :
    (board : ℕ) (rows : List WebE1) → e1_all_data board rows ≡ opt_all_data board (map as_opt rows)
unfolding e1_all_data opt_all_data
e1_all_data-eq board [] = refl
e1_all_data-eq board (row ∷ rows) =
    let step : Text → Outcome Text → Outcome Text = λ first rest.
      if leb row.amount (length row.config) && leb row.amount (length row.state)
      then elim rest [ done text ↦ done (first ++ text) | fault ↦ fault | blocked ↦ blocked ]
      else fault in
    ap (λ first. step first (e1_all_data (board + 1) rows))
      (e1_board_data-eq row.amount 0 board row)
    ∙ ap (λ rest. step (opt_board_data row.amount 0 board (as_opt row)) rest)
        (e1_all_data-eq (board + 1) rows)

e1_text-eq : (old : Text) (rows : List WebE1) → e1_text old rows ≡ opt_text old (map as_opt rows)
unfolding e1_text opt_text
e1_text-eq old rows = rw (e1_text, e1_all_data-eq 0 rows) refl

-- The ports from `portno` on that the bytes of a reply hold: the configurations stand before the
-- states.
unfoldable pub reply_ports : ℕ → ℕ → ℕ → List ℕ → List (List ℕ)
reply_ports zero portno board b = []
reply_ports (suc n) portno board b =
    (board ∷ portno ∷ get_or b portno 0 ∷ get_or b (8 + portno) 0 ∷ [])
    ∷ reply_ports n (portno + 1) board b

row_of : List ℕ → WebOpt
row_of b = record { config = take 8 b; state = take 8 (drop 8 b); amount = 8 }

row_of-IsRow : (b : List ℕ) → length b ≡ 32 → ((k : ℕ) → get_or b k 0 < 256) → IsRow (row_of b)
unfolding row_of
row_of-IsRow b size h = record {
  in_config = omega (arith, length-take 8 b);
  in_state = omega (arith, length-take 8 (drop 8 b), length-drop 8 b);
  few = omega arith;
  config_bytes = λ i k. omega (arith, get_or-take 8 i b 0 k, h i);
  state_bytes =
      λ i k. omega (arith, get_or-take 8 i (drop 8 b) 0 k, get_or-drop 8 i b 0, h (8 + i));
}

board_ports-reply_ports :
    (n portno board : ℕ) (b : List ℕ)
    → portno + n ≤ 8
    → board_ports n portno board (row_of b) ≡ reply_ports n portno board b
unfolding row_of board_ports reply_ports
board_ports-reply_ports zero portno board b h = refl
board_ports-reply_ports (suc n) portno board b h =
    rw
      (
        get_or-take 8 portno b 0 (omega arith),
        get_or-take 8 portno (drop 8 b) 0 (omega arith),
        get_or-drop 8 portno b 0,
        board_ports-reply_ports n (portno + 1) board b (omega arith),
      )
      refl

module _ (codes : Codes) (link : List WebDybFrame → Exchange) (d : Device codes link) where
  open codes use {e1_config_state}

  -- The eight ports of a board by its answer.
  abbrev e1_ports_of : ℕ → Option (List ℕ) → List (List ℕ)
  e1_ports_of j none = []
  e1_ports_of j (some b) = reply_ports 8 0 j b

  abbrev pub e1_board_shown : WebBoardsExist → ℕ → List (List ℕ)
  e1_board_shown be j =
      if board_contains boards_contain_e1 j be
      then e1_ports_of j (d.answer j e1_config_state)
      else []

  -- The E1 ports of the device's boards from the j-th on.
  unfoldable pub device_e1_ports : WebBoardsExist → ℕ → ℕ → List (List ℕ)
  device_e1_ports be j zero = []
  device_e1_ports be j (suc n) = e1_board_shown be j ++ device_e1_ports be (j + 1) n

  e1_entry-RowShows :
      (j : ℕ) (old : WebE1) (r : Option (List ℕ))
      → HasSize 32 r
      → AreBytes r
      → RowShows (e1_ports_of j r) j (as_opt (e1_entry codes link d r old))
  unfolding RowShows row_of
  e1_entry-RowShows j old none n h = no_ports-RowShows j (as_opt old)
  e1_entry-RowShows j old (some b) n h =
      (row_of-IsRow b n h, board_ports-reply_ports 8 0 j b (omega arith))

  e1_row-RowShows :
      (be : WebBoardsExist) (j : ℕ) (old : WebE1)
      → AnswersBytes codes link d
      → RowShows (e1_board_shown be j) j (as_opt (e1_row codes link d be j old))
  e1_row-RowShows be j old bytes = elim (Bool-cases (board_contains boards_contain_e1 j be)) [
    | inl e ↦ rw e (
        e1_entry-RowShows j old (d.answer j e1_config_state) (d.e1_size j)
          (answer-AreBytes codes link d j e1_config_state _ refl bytes))
    | inr e ↦ rw e (no_ports-RowShows j (as_opt old))
  ]

  rows-device_e1_ports :
      (be : WebBoardsExist) (rows : List WebE1) (old : ℕ → WebE1) (i : ℕ)
      → AnswersBytes codes link d
      → ((k : ℕ) → k < length rows → get_or rows k zero_e1 ≡ e1_row codes link d be (i + k) (old k))
      → AreRows (map as_opt rows)
        × (all_ports i (map as_opt rows) ≡ device_e1_ports be i (length rows))
        × (length (map as_opt rows) ≡ length rows)
  unfolding AreRows all_ports device_e1_ports RowShows
  rows-device_e1_ports be [] old i bytes h = (tt, refl, refl)
  rows-device_e1_ports be (row ∷ rows) old i bytes h =
      let first : row ≡ e1_row codes link d be i (old 0) =
        h 0 (omega arith) ∙ ap (λ j. e1_row codes link d be j (old 0)) (omega arith) in
      let (ok_row, shown) : RowShows (e1_board_shown be i) i (as_opt row) =
        subst (λ r. RowShows (e1_board_shown be i) i (as_opt r)) (sym first)
          (e1_row-RowShows be i (old 0) bytes) in
      let (ok_rows, rest, size) =
        rows-device_e1_ports be rows (λ k. old (suc k)) (i + 1) bytes
          (λ k m.
            h (suc k) (omega arith)
            ∙ ap (λ j. e1_row codes link d be j (old (suc k))) (omega arith)) in
      (
        (ok_row, ok_rows),
        ap (λ p. p ++ all_ports (i + 1) (map as_opt rows)) shown
            ∙ ap (λ p. e1_board_shown be i ++ p) rest,
        ap suc size,
      )

  -- What the page shows: that the device does not answer, or each port of its boards, or what the
  -- buffer held before if there is no port.
  abbrev pub E1PageShows : Text → Option WebBoardsExist → Text → Type 0
  E1PageShows old none text = text ≡ fail_str
  E1PageShows old (some be) text =
      (read_page text ≡ device_e1_ports be 0 9) ⊎ ((device_e1_ports be 0 9 ≡ []) × (text ≡ old))

  -- The page of the E1 ports returns against any device on the link that answers bytes, with a
  -- free mutex and nine rows. Its text says that the request failed if the device does not answer
  -- for its number and its boards; else it determines, board by board, the eight ports of each
  -- board with E1 ports that answers, with the bytes of its answer, and no other port. Where there
  -- is no such port the text is left as it was.
  pub e1_read_data_ssi_handler-PageShows :
      (old : Text) (s : PortPages)
      → AnswersBytes codes link d
      → s.web_control.ll_access_mtx ≡ 1
      → length s.web_control.e1 ≡ 9
      → (text : Text) × (s' : PortPages) × (e1_read_data_ssi_handler codes link old s
          ≡ done (text, s'))
        × E1PageShows old (present codes link d s.web_control.cr_remote_chosen) text
  unfolding e1_read_data_ssi_handler
  e1_read_data_ssi_handler-PageShows old s bytes one size =
      let (c, e, one', size', rows, others) = web_read_e1_lem codes link d s.web_control one size in
      shows (present codes link d s.web_control.cr_remote_chosen) c e size' rows
    where
      shows :
          (found : Option WebBoardsExist) (c : WebCtrlComm)
          → web_read_e1 codes link s.web_control ≡ done (page_status found, c)
          → length c.e1 ≡ 9
          → ((j : ℕ)
              → j < 9
              → get_or c.e1 j zero_e1 ≡ (elim found [
                | none ↦ zero_e1
                | some be ↦ e1_row codes link d be j (get_or s.web_control.e1 j zero_e1)
              ]))
          → (text : Text) × (s' : PortPages) × (e1_read_data_ssi_handler codes link old s
              ≡ done (text, s'))
            × E1PageShows old found text
      shows none c e size' rows = (
        fail_str,
        record s { web_control = c },
        rw (e1_read_data_ssi_handler, ◌>>=◌, on_control, e) refl,
        refl,
      )
      shows (some be) c e size' rows =
          let (ok_rows, ports, size'') =
            rows-device_e1_ports be c.e1 (λ k. get_or s.web_control.e1 k zero_e1) 0 bytes
              (λ k m.
                rows k (omega (arith, size'))
                ∙ ap (λ j. e1_row codes link d be j (get_or s.web_control.e1 k zero_e1))
                    (omega arith)) in
          let (all, made, read) =
            all_data-read_page 0 (map as_opt c.e1) (omega (arith, size', size'')) ok_rows in
          let (text, e', shown) =
            opt_text-read old all (map as_opt c.e1) (device_e1_ports be 0 9) made
              (read ∙ ports ∙ ap (λ n. device_e1_ports be 0 n) size') in
          let e'' = e1_text-eq old c.e1 ∙ e' in
          (
            text,
            record s { web_control = c },
            rw (e1_read_data_ssi_handler, ◌>>=◌, on_control, e, e'') refl,
            shown,
          )
