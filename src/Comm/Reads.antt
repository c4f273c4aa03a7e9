-- ===== src/Comm/Reads.antt =====
-- A round of a loop for any table of the pages: its rows, and what a round does to one.
use arm_ucos_proxy.Base.{
  ℕ, ◌≡◌, ◌<◌, refl, ◌∙◌, sym, ap, Bool, true, false, List, Option, none, some, length, get_or, set,
  if◌then◌else◌, set-set_update, arith,
}
use arm_ucos_proxy.Base.Outcome.{done, Action, modify}
use arm_ucos_proxy.Comm.State.{WebDybFrame, WebBoardsExist, WebCtrlComm, Codes, Exchange}
use arm_ucos_proxy.Comm.Read.{board_contains, request}
use arm_ucos_proxy.Comm.Tables.{if_board, mark}
use arm_ucos_proxy.Comm.Answers.{released}
use arm_ucos_proxy.Comm.Device.{IsSame, HasSize, reply_status, reply_store}
use arm_ucos_proxy.Comm.Rounds.{if_board-out, if_board-in, mark-ok, mark-err}
use arm_ucos_proxy.Comm.Responds.{Device, IsReady, request_lem}

module _ (codes : Codes) (link : List WebDybFrame → Exchange) (d : Device codes link)
    (be : WebBoardsExist) {A : Type 0} (rows : WebCtrlComm → List A)
    (with_rows : WebCtrlComm → List A → WebCtrlComm) (blank : A)
    (Others : WebCtrlComm → Type 0) where
  -- The rows are apart from the rest of the state.
  pub record IsTable : Type 0 where
    pub rows_with : (s : WebCtrlComm) (l : List A) → rows (with_rows s l) ≡ l
    pub with_with : (s : WebCtrlComm) (l m : List A) → with_rows (with_rows s l) m ≡ with_rows s m
    pub released_with :
        (s : WebCtrlComm) (l : List A) → released (with_rows s l) ≡ with_rows (released s) l
    pub rows_released : (s : WebCtrlComm) → rows (released s) ≡ rows s
    pub ready_with :
        (s : WebCtrlComm) (l : List A)
        → IsReady codes link d be s
        → IsReady codes link d be (with_rows s l)
    pub others_with : (s : WebCtrlComm) (l : List A) → Others s → Others (with_rows s l)
    pub rows_same : (s t : WebCtrlComm) → IsSame s t → rows t ≡ rows s
    pub others_same : (s t : WebCtrlComm) → IsSame s t → Others s → Others t

  -- The update of one row.
  abbrev pub update : ℕ → (A → A) → WebCtrlComm → WebCtrlComm
  update i f s = with_rows s (set (rows s) i (f (get_or (rows s) i blank)))

  abbrev pub Kept : WebCtrlComm → Type 0
  Kept s = IsReady codes link d be s × Others s

  -- An action that updates a row and keeps the rest of what the loop stands on.
  abbrev pub Updates : Action WebCtrlComm (Unit {0}) → ℕ → (A → A) → WebCtrlComm → Type 0
  Updates act i f s =
      (s' : WebCtrlComm) × (act s ≡ done (tt, s'))
      × Kept s'
      × (rows s' ≡ set (rows s) i (f (get_or (rows s) i blank)))

  module _ (t : IsTable) where
    IsReady-same :
        (s s' : WebCtrlComm) → IsSame s s' → IsReady codes link d be s → IsReady codes link d be s'
    IsReady-same s s' same r = ground arith

    update-released :
        (i : ℕ) (f : A → A) (s : WebCtrlComm) → released (update i f s) ≡ update i f (released s)
    update-released i f s =
        t.released_with s _
        ∙ ap (λ l. with_rows (released s) (set l i (f (get_or l i blank))))
            (sym (t.rows_released s))

    -- A round with no read.
    pub skip-Updates :
        (i : ℕ) (f : A → A) (s : WebCtrlComm) → Kept s → Updates (modify (update i f)) i f s
    skip-Updates i f s k =
        (update i f s, refl, (t.ready_with s _ k.0, t.others_with s _ k.1), t.rows_with s _)

    -- A request whose reply goes to a row.
    pub request-Updates :
        (i ext size : ℕ) (put : List ℕ → A → A) (s : WebCtrlComm) (reply : Option (List ℕ))
        → HasSize size (d.answer i ext)
        → Kept s
        → d.answer i ext ≡ reply
        → (s' : WebCtrlComm) × (request codes link i ext size (λ b. update i (put b)) s
            ≡ done (reply_status reply, reply_store reply (λ b. update i (put b)) s'))
          × Kept s'
          × (rows s' ≡ rows s)
    request-Updates i ext size put s reply h k a =
        let (s', same, q) =
          request_lem codes link d i ext size (λ b. update i (put b)) s
            (λ b u. update-released i (put b) u) h k.0.mtx k.0.dev_id reply a in
        (s', q, (IsReady-same s s' same k.0, t.others_same s s' same k.1), t.rows_same s s' same)

    -- A request and the mark that its result calls for.
    pub mark-Updates :
        (i ext size : ℕ) (put : List ℕ → A → A) (good bad : A → A) (s : WebCtrlComm)
        (reply : Option (List ℕ))
        → i < length (rows s)
        → HasSize size (d.answer i ext)
        → Kept s
        → d.answer i ext ≡ reply
        → Updates
            (mark
              (request codes link i ext size (λ b. update i (put b)))
              (update i good)
              (update i bad))
            i
            (λ old. elim reply [ none ↦ bad old | some b ↦ good (put b old) ])
            s
    mark-Updates i ext size put good bad s none l h k a =
        let (s', q, k', e) = request-Updates i ext size put s none h k a in
        (
          update i bad s',
          mark-err (request codes link i ext size (λ b. update i (put b))) (update i good)
              (update i bad) q,
          (t.ready_with s' _ k'.0, t.others_with s' _ k'.1),
          t.rows_with s' _ ∙ ap (λ l. set l i (bad (get_or l i blank))) e,
        )
    mark-Updates i ext size put good bad s (some b) l h k a =
        let (s', q, k', e) = request-Updates i ext size put s (some b) h k a in
        let stored = update i (put b) s' in
        (
          update i good stored,
          mark-ok (request codes link i ext size (λ b. update i (put b))) (update i good)
              (update i bad) q,
          (
            t.ready_with stored _ (t.ready_with s' _ k'.0),
            t.others_with stored _ (t.others_with s' _ k'.1),
          ),
          t.rows_with stored _
              ∙ ap (λ l. set l i (good (get_or l i blank))) (t.rows_with s' _)
              ∙ set-set_update good (rows s') i _ blank (rw e l)
              ∙ ap (λ l. set l i (good (put b (get_or l i blank)))) e,
        )

    -- A round, by whether the device has the interface on the board.
    pub if_board-Updates :
        (tab : List ℕ) (i : ℕ) (act : Action WebCtrlComm (Unit {0})) (f skip : A → A)
        (s : WebCtrlComm) (c : Bool)
        → Kept s
        → board_contains tab i be ≡ c
        → Updates act i f s
        → Updates (if_board tab i act (update i skip)) i (λ old. if c then f old else skip old) s
    if_board-Updates tab i act f skip s true k q (s', e, k', r) =
        (s', if_board-in tab i act (update i skip) s (rw k.0.boards_exist q) ∙ e, k', r)
    if_board-Updates tab i act f skip s false k q u =
        let (s', e, k', r) = skip-Updates i skip s k in
        (s', if_board-out tab i act (update i skip) s (rw k.0.boards_exist q) ∙ e, k', r)
