-- ===== src/Comm/Page.antt =====
-- What a page's request for a whole table does, for any table: the two requests before the loops,
-- and then the loops or the clearing of the table.
use arm_ucos_proxy.Base.{
  ℕ, ◌≡◌, ◌<◌, ◌∙◌, ap, List, Option, none, some, length, get_or, replicate, length-replicate,
  get_or-replicate,
}
use arm_ucos_proxy.Base.Outcome.{done, Status, ok, err, Action, pure, >>=-eq-done}
use arm_ucos_proxy.Comm.State.{WebDybFrame, WebBoardsExist, WebCtrlComm, Codes, Exchange}
use arm_ucos_proxy.Comm.Read.{after_both, web_read_device_id, web_read_board_exist}
use arm_ucos_proxy.Comm.Device.{HasSameTables}
use arm_ucos_proxy.Comm.Responds.{Device, present, Opened, after_both_lem}
use arm_ucos_proxy.Comm.Reads.{IsTable, Kept}

-- The result of a page's request by the boards that the device has.
abbrev pub page_status : Option WebBoardsExist → Status
page_status none = err
page_status (some be) = ok

abbrev pub page_row :
    {A : Type 0} → A → (WebBoardsExist → ℕ → A → A) → Option WebBoardsExist → ℕ → A → A
page_row blank row found j old = elim found [ none ↦ blank | some be ↦ row be j old ]

module _ (codes : Codes) (link : List WebDybFrame → Exchange) (d : Device codes link) {A : Type 0}
    (rows : WebCtrlComm → List A) (with_rows : WebCtrlComm → List A → WebCtrlComm) (blank : A)
    (Others : WebCtrlComm → WebCtrlComm → Type 0) (row : WebBoardsExist → ℕ → A → A) where
  -- All rows are brought up to date.
  abbrev pub Refreshes :
      WebBoardsExist → WebCtrlComm → Action WebCtrlComm (Unit {0}) → WebCtrlComm → Type 0
  Refreshes be s₀ rest t =
      (s' : WebCtrlComm) × (rest t ≡ done (tt, s'))
      × Kept codes link d be rows with_rows blank (Others s₀) s'
      × (length (rows s') ≡ 9)
      × ((j : ℕ) → j < 9 → get_or (rows s') j blank ≡ row be j (get_or (rows t) j blank))

module _ (codes : Codes) (link : List WebDybFrame → Exchange) (d : Device codes link) {A : Type 0}
    (rows : WebCtrlComm → List A) (with_rows : WebCtrlComm → List A → WebCtrlComm) (blank : A)
    (Others : WebCtrlComm → WebCtrlComm → Type 0)
    (is_table : (be : WebBoardsExist) (s₀ : WebCtrlComm)
      → IsTable codes link d be rows with_rows blank (Others s₀))
    (others : (s t : WebCtrlComm) → HasSameTables s t → Others s t)
    (rows_same : (s t : WebCtrlComm) → HasSameTables s t → rows t ≡ rows s)
    (mtx_with : (s : WebCtrlComm) (l : List A)
      → s.ll_access_mtx ≡ 1
      → (with_rows s l).ll_access_mtx ≡ 1)
    (row : WebBoardsExist → ℕ → A → A) where
  -- The request returns; the table is then of length 9 and its rows are up to date or clear.
  abbrev pub Answers :
      Option WebBoardsExist → Action WebCtrlComm Status → WebCtrlComm → WebCtrlComm → Type 0
  Answers found action s s' =
      (action s ≡ done (page_status found, s'))
      × (s'.ll_access_mtx ≡ 1)
      × (length (rows s') ≡ 9)
      × ((j : ℕ)
          → j < 9
          → get_or (rows s') j blank ≡ page_row blank row found j (get_or (rows s) j blank))
      × Others s s'

  module _ (rest : Action WebCtrlComm (Unit {0}))
      (refreshes : (be : WebBoardsExist) (s₀ t : WebCtrlComm)
        → Kept codes link d be rows with_rows blank (Others s₀) t
        → length (rows t) ≡ 9
        → Refreshes codes link d rows with_rows blank Others row be s₀ rest t) where
    abbrev clear : WebCtrlComm → WebCtrlComm
    clear s = with_rows s (replicate 9 blank)

    abbrev page : Action WebCtrlComm Status
    page = after_both (web_read_device_id codes link) (web_read_board_exist codes link) clear rest

    Opened-Answers :
        (found : Option WebBoardsExist) (s t : WebCtrlComm)
        → length (rows s) ≡ 9
        → HasSameTables s t
        → Opened codes link d found clear rest s t
        → (s' : WebCtrlComm) × Answers found page s s'
    Opened-Answers none s t size same (one, e) =
        let is = is_table s.boards_exist s in
        let cleared : rows (clear t) ≡ replicate 9 blank = is.rows_with t _ in
        (
          clear t,
          (
            e,
            mtx_with t _ one,
            rw cleared (length-replicate 9 blank),
            (λ j h. rw cleared (get_or-replicate 9 j blank)),
            is.others_with t _ (others s t same),
          ),
        )
    Opened-Answers (some be) s t size same (ready, e) =
        let (s', run, kept, size', up) =
          refreshes be s t (ready, others s t same) (rw (rows_same s t same) size) in
        (
          s',
          (
            e ∙ >>=-eq-done rest (λ x. pure ok) t run,
            kept.0.mtx,
            size',
            (λ j h. up j h ∙ ap (λ l. row be j (get_or l j blank)) (rows_same s t same)),
            kept.1,
          ),
        )

    pub page-Answers :
        (s : WebCtrlComm)
        → s.ll_access_mtx ≡ 1
        → length (rows s) ≡ 9
        → (s' : WebCtrlComm) × Answers (present codes link d s.cr_remote_chosen) page s s'
    page-Answers s one size =
        let (t, same, opened) = after_both_lem codes link d clear rest s one in
        Opened-Answers (present codes link d s.cr_remote_chosen) s t size same opened
