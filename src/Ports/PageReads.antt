-- ===== src/Ports/PageReads.antt =====
-- The optical page against a device on the link: it shows what the boards answer.
use arm_ucos_proxy.Base.{
  ℕ, zero, suc, ◌+◌, ◌<◌, ◌≡◌, ◌⊎◌, inl, inr, refl, sym, ap, ◌∙◌, subst, Bool-cases, List, [], ◌∷◌,
  ◌++◌, Option, none, some, length, get_or, if◌then◌else◌, arith,
}
use arm_ucos_proxy.Base.Outcome.{done, ◌>>=◌}
use arm_ucos_proxy.Comm.State.{
  WebDybFrame, WebBoardsExist, WebOpt, WebCtrlComm, Codes, Exchange, zero_opt, boards_contain_opt,
}
use arm_ucos_proxy.Comm.Read.{board_contains}
use arm_ucos_proxy.Comm.Device.{HasSize}
use arm_ucos_proxy.Comm.Page.{page_status}
use arm_ucos_proxy.Comm.Tables.{web_read_opt}
use arm_ucos_proxy.Comm.Responds.{Device, present}
use arm_ucos_proxy.Comm.OptTable.{opt_row, opt_entry, web_read_opt_lem}
use arm_ucos_proxy.Ports.Text.{Text, fail_str}
use arm_ucos_proxy.Ports.State.{PortPages, on_control}
use arm_ucos_proxy.Ports.Opt.{opt_all_data, opt_text, opt_read_data_ssi_handler}
use arm_ucos_proxy.Ports.PageText.{
  read_page, board_ports, all_ports, IsRow, AreRows, all_data-read_page,
}

pub opt_text-read :
    (old text : Text) (rows : List WebOpt) (ports : List (List ℕ))
    → opt_all_data 0 rows ≡ done text
    → read_page text ≡ ports
    → (shown : Text) × (opt_text old rows ≡ done shown)
      × ((read_page shown ≡ ports) ⊎ ((ports ≡ []) × (shown ≡ old)))
unfolding opt_text read_page
opt_text-read old [] rows ports e read = (old, rw (opt_text, e) refl, inr (sym read, refl))
opt_text-read old (c ∷ text) rows ports e read = (c ∷ text, rw (opt_text, e) refl, inl read)

-- A row that shows these ports.
unfoldable pub RowShows : List (List ℕ) → ℕ → WebOpt → Type 0
RowShows ports j row = IsRow row × (board_ports row.amount 0 j row ≡ ports)

pub no_ports-RowShows : (j : ℕ) (old : WebOpt) → RowShows [] j (record old { amount = 0 })
unfolding RowShows board_ports
no_ports-RowShows j old = (
  record {
    in_config = omega arith;
    in_state = omega arith;
    few = omega arith;
    config_bytes = λ i h. absurd (omega arith);
    state_bytes = λ i h. absurd (omega arith);
  },
  refl,
)

abbrev pub AreBytes : Option (List ℕ) → Type 0
AreBytes none = Unit
AreBytes (some b) = (k : ℕ) → get_or b k 0 < 256

module _ (codes : Codes) (link : List WebDybFrame → Exchange) (d : Device codes link) where
  open codes use {opt_config, opt_state}

  -- What the device answers are bytes.
  abbrev pub AnswersBytes : Type 0
  AnswersBytes = (board ext k : ℕ) (b : List ℕ) → d.answer board ext ≡ some b → get_or b k 0 < 256

  -- The two ports of a board by its two answers; none if one is missing.
  abbrev pub ports_of : ℕ → Option (List ℕ) → Option (List ℕ) → List (List ℕ)
  ports_of j none state = []
  ports_of j (some c) none = []
  ports_of j (some c) (some t) =
      (j ∷ 0 ∷ get_or c 0 0 ∷ get_or t 0 0 ∷ []) ∷ (j ∷ 1 ∷ get_or c 1 0 ∷ get_or t 1 0 ∷ []) ∷ []

  abbrev pub board_shown : WebBoardsExist → ℕ → List (List ℕ)
  board_shown be j =
      if board_contains boards_contain_opt j be
      then ports_of j (d.answer j opt_config) (d.answer j opt_state)
      else []

  -- The ports of the device's boards from the j-th on.
  unfoldable pub device_ports : WebBoardsExist → ℕ → ℕ → List (List ℕ)
  device_ports be j zero = []
  device_ports be j (suc n) = board_shown be j ++ device_ports be (j + 1) n

  opt_entry-RowShows :
      (j : ℕ) (old : WebOpt) (c t : Option (List ℕ))
      → HasSize 8 c
      → HasSize 8 t
      → AreBytes c
      → AreBytes t
      → RowShows (ports_of j c t) j (opt_entry codes link d c t old)
  unfolding RowShows board_ports
  opt_entry-RowShows j old none t n n' h h' = no_ports-RowShows j old
  opt_entry-RowShows j old (some c) none n n' h h' = no_ports-RowShows j (record old { config = c })
  opt_entry-RowShows j old (some c) (some t) n n' h h' = (
    record {
      in_config = omega arith;
      in_state = omega arith;
      few = omega arith;
      config_bytes = λ i k. h i;
      state_bytes = λ i k. h' i;
    },
    refl,
  )

  pub answer-AreBytes :
      (board ext : ℕ) (r : Option (List ℕ)) → d.answer board ext ≡ r → AnswersBytes → AreBytes r
  answer-AreBytes board ext none e bytes = tt
  answer-AreBytes board ext (some b) e bytes = λ k. bytes board ext k b e

  opt_row-RowShows :
      (be : WebBoardsExist) (j : ℕ) (old : WebOpt)
      → AnswersBytes
      → RowShows (board_shown be j) j (opt_row codes link d be j old)
  opt_row-RowShows be j old bytes = elim (Bool-cases (board_contains boards_contain_opt j be)) [
    | inl e ↦ rw e (
        opt_entry-RowShows j old (d.answer j opt_config) (d.answer j opt_state)
          (d.opt_config_size j) (d.opt_state_size j) (answer-AreBytes j opt_config _ refl bytes)
          (answer-AreBytes j opt_state _ refl bytes))
    | inr e ↦ rw e (no_ports-RowShows j old)
  ]

  rows-device_ports :
      (be : WebBoardsExist) (rows : List WebOpt) (old : ℕ → WebOpt) (i : ℕ)
      → AnswersBytes
      → ((k : ℕ)
          → k < length rows
          → get_or rows k zero_opt ≡ opt_row codes link d be (i + k) (old k))
      → AreRows rows × (all_ports i rows ≡ device_ports be i (length rows))
  unfolding AreRows all_ports device_ports RowShows
  rows-device_ports be [] old i bytes h = (tt, refl)
  rows-device_ports be (row ∷ rows) old i bytes h =
      let first : row ≡ opt_row codes link d be i (old 0) =
        h 0 (omega arith) ∙ ap (λ j. opt_row codes link d be j (old 0)) (omega arith) in
      let (ok_row, shown) : RowShows (board_shown be i) i row =
        subst (RowShows (board_shown be i) i) (sym first) (opt_row-RowShows be i (old 0) bytes) in
      let (ok_rows, rest) =
        rows-device_ports be rows (λ k. old (suc k)) (i + 1) bytes
          (λ k m.
            h (suc k) (omega arith)
            ∙ ap (λ j. opt_row codes link d be j (old (suc k))) (omega arith)) in
      (
        (ok_row, ok_rows),
        ap (λ p. p ++ all_ports (i + 1) rows) shown ∙ ap (λ p. board_shown be i ++ p) rest,
      )

  -- What the page shows: that the device does not answer, or each port of its boards, or what the
  -- buffer held before if there is no port.
  abbrev pub PageShows : Text → Option WebBoardsExist → Text → Type 0
  PageShows old none text = text ≡ fail_str
  PageShows old (some be) text =
      (read_page text ≡ device_ports be 0 9) ⊎ ((device_ports be 0 9 ≡ []) × (text ≡ old))

  -- The page of the optical ports returns against any device on the link that answers bytes, with
  -- a free mutex and nine rows. Its text says that the request failed if the device does not
  -- answer for its number and its boards; else it determines, board by board, the two ports of
  -- each board with optical ports that answers for its configuration and its state, with the bytes
  -- that it answered, and no other port. Where there is no such port the text is left as it was.
  pub opt_read_data_ssi_handler-PageShows :
      (old : Text) (s : PortPages)
      → AnswersBytes
      → s.web_control.ll_access_mtx ≡ 1
      → length s.web_control.opt ≡ 9
      → (text : Text) × (s' : PortPages) × (opt_read_data_ssi_handler codes link old s
          ≡ done (text, s'))
        × PageShows old (present codes link d s.web_control.cr_remote_chosen) text
  unfolding opt_read_data_ssi_handler
  opt_read_data_ssi_handler-PageShows old s bytes one size =
      let (c, e, one', size', rows, others) =
        web_read_opt_lem codes link d s.web_control one size in
      shows (present codes link d s.web_control.cr_remote_chosen) c e size' rows
    where
      shows :
          (found : Option WebBoardsExist) (c : WebCtrlComm)
          → web_read_opt codes link s.web_control ≡ done (page_status found, c)
          → length c.opt ≡ 9
          → ((j : ℕ)
              → j < 9
              → get_or c.opt j zero_opt ≡ (elim found [
                | none ↦ zero_opt
                | some be ↦ opt_row codes link d be j (get_or s.web_control.opt j zero_opt)
              ]))
          → (text : Text) × (s' : PortPages) × (opt_read_data_ssi_handler codes link old s
              ≡ done (text, s'))
            × PageShows old found text
      shows none c e size' rows = (
        fail_str,
        record s { web_control = c },
        rw (opt_read_data_ssi_handler, ◌>>=◌, on_control, e) refl,
        refl,
      )
      shows (some be) c e size' rows =
          let (ok_rows, ports) =
            rows-device_ports be c.opt (λ k. get_or s.web_control.opt k zero_opt) 0 bytes
              (λ k m.
                rows k (omega (arith, size'))
                ∙ ap (λ j. opt_row codes link d be j (get_or s.web_control.opt k zero_opt))
                    (omega arith)) in
          let (all, made, read) = all_data-read_page 0 c.opt (omega (arith, size')) ok_rows in
          let (text, e', shown) =
            opt_text-read old all c.opt (device_ports be 0 9) made
              (read ∙ ports ∙ ap (λ n. device_ports be 0 n) size') in
          (
            text,
            record s { web_control = c },
            rw (opt_read_data_ssi_handler, ◌>>=◌, on_control, e, e') refl,
            shown,
          )
