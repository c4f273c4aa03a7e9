-- ===== src/Comm/Responds.antt =====
-- A device by what it answers, and the two requests before each loop.
use arm_ucos_proxy.Base.{
  ℕ, ◌≡◌, refl, sym, subst, List, ◌∷◌, Option, none, some, ◌==◌, if◌then◌else◌, arith,
}
use arm_ucos_proxy.Base.Bytes.{load16}
use arm_ucos_proxy.Base.Outcome.{done, Status, ok, err, Action, ◌>>=◌, ◌>>◌, pure}
use arm_ucos_proxy.Comm.State.{WebDybFrame, WebBoardsExist, WebCtrlComm, Codes, Exchange}
use arm_ucos_proxy.Comm.Require.{request_frame}
use arm_ucos_proxy.Comm.Read.{
  device_id_request, get_request, request, store_dev_id, store_boards_exist, decode_boards_exist,
  web_read_device_id, web_read_board_exist, after_both,
}
use arm_ucos_proxy.Comm.Device.{
  Delivers, HasSameTables, IsSame, HasSize, Commutes, reply_status, reply_store, ctrl_require_lem,
}

pub after_both-err :
    (first second : Action WebCtrlComm Status) (clear : WebCtrlComm → WebCtrlComm)
    (rest : Action WebCtrlComm (Unit {0})) {s t : WebCtrlComm}
    → first s ≡ done (err, t)
    → after_both first second clear rest s ≡ done (err, clear t)
unfolding after_both
after_both-err first second clear rest h = rw (h, ◌>>=◌)

pub after_both-ok :
    (first second : Action WebCtrlComm Status) (clear : WebCtrlComm → WebCtrlComm)
    (rest : Action WebCtrlComm (Unit {0})) {s t t' : WebCtrlComm} (r : Status)
    → first s ≡ done (ok, t)
    → second t ≡ done (r, t')
    → after_both first second clear rest s
      ≡ elim r [ err ↦ done (err, clear t') | ok ↦ (rest >> pure ok) t' ]
unfolding after_both
after_both-ok first second clear rest err h h' = rw (h, ◌>>=◌, h', ◌>>=◌)
after_both-ok first second clear rest ok h h' = rw (h, ◌>>=◌, h', ◌>>=◌)

module _ (codes : Codes) (link : List WebDybFrame → Exchange) where
  open codes use {
    setconfig, getconfigparam, alterid, remote_alterid, board_exist, bulb_ver, opt_config,
    opt_state, eth_ge_config, eth_fe_config, e1_config_state,
  }

  -- The device's number, its answers to the number's request and to a board's parameters, which are
  -- the same whatever was sent before. Where
  -- there is an answer it has the size that the pages read.
  pub record Device : Type 0 where
    pub id : ℕ
    pub number : ℕ → Option (List ℕ)
    pub answer : ℕ → ℕ → Option (List ℕ)
    pub numbered :
        (ext : ℕ) (sent : List WebDybFrame)
        → Delivers (link (request_frame (device_id_request setconfig ext) ∷ sent)) (number ext)
    pub answered :
        (board ext : ℕ) (sent : List WebDybFrame)
        → Delivers
            (link (request_frame (get_request id board getconfigparam ext) ∷ sent))
            (answer board ext)
    pub number_size : (ext : ℕ) → HasSize 2 (number ext)
    pub number_id : (ext : ℕ) (b : List ℕ) → number ext ≡ some b → load16 b 0 ≡ id
    pub exist_size : HasSize 40 (answer 0xff board_exist)
    pub bulb_ver_size : (i : ℕ) → HasSize 16 (answer i bulb_ver)
    pub opt_config_size : (i : ℕ) → HasSize 8 (answer i opt_config)
    pub opt_state_size : (i : ℕ) → HasSize 8 (answer i opt_state)
    pub ge_size : (i : ℕ) → HasSize 8 (answer i eth_ge_config)
    pub fe_size : (i : ℕ) → HasSize 32 (answer i eth_fe_config)
    pub e1_size : (i : ℕ) → HasSize 32 (answer i e1_config_state)

  module _ (d : Device) where
    -- A request for a parameter of a board.
    pub request_lem :
        (board ext size : ℕ) (store : List ℕ → WebCtrlComm → WebCtrlComm) (s : WebCtrlComm)
        → Commutes store
        → HasSize size (d.answer board ext)
        → s.ll_access_mtx ≡ 1
        → s.dev_id ≡ d.id
        → (reply : Option (List ℕ)) → d.answer board ext ≡ reply
        → (t : WebCtrlComm) × IsSame s t
          × (request codes link board ext size store s
              ≡ done (reply_status reply, reply_store reply store t))
    unfolding request
    request_lem board ext size store s c h one e reply q =
        let heard : Delivers
            (link (request_frame (get_request s.dev_id board getconfigparam ext) ∷ s.sent))
            (d.answer board ext) =
          subst
            (λ (n : ℕ).
              Delivers (link (request_frame (get_request n board getconfigparam ext) ∷ s.sent))
                (d.answer board ext))
            (sym e) (d.answered board ext s.sent) in
        subst
          (λ (r : Option (List ℕ)).
            (t : WebCtrlComm) × IsSame s t
            × (request codes link board ext size store s
                ≡ done (reply_status r, reply_store r store t)))
          q
          (ctrl_require_lem link (get_request s.dev_id board getconfigparam ext) size store c
            (d.answer board ext) s heard h one)

    pub web_read_device_id_lem :
        (s : WebCtrlComm) (reply : Option (List ℕ))
        → s.ll_access_mtx ≡ 1
        → d.number (if s.cr_remote_chosen == 0 then alterid else remote_alterid) ≡ reply
        → (t : WebCtrlComm) × IsSame s t
          × (web_read_device_id codes link s
              ≡ done (reply_status reply, reply_store reply store_dev_id t))
    unfolding web_read_device_id
    web_read_device_id_lem s reply one q =
        let ext = if s.cr_remote_chosen == 0 then alterid else remote_alterid in
        subst
          (λ (r : Option (List ℕ)).
            (t : WebCtrlComm) × IsSame s t
            × (web_read_device_id codes link s
                ≡ done (reply_status r, reply_store r store_dev_id t)))
          q
          (ctrl_require_lem link (device_id_request setconfig ext) 2 store_dev_id (λ b t. refl)
            (d.number ext) s (d.numbered ext s.sent) (d.number_size ext) one)

    -- The boards that the device says it has, if it answers both of the first two requests.
    abbrev pub present : ℕ → Option WebBoardsExist
    present remote = elim (d.number (if remote == 0 then alterid else remote_alterid)) [
      | none ↦ none
      | some b ↦ elim (d.answer 0xff board_exist) [
        | none ↦ none
        | some b' ↦ some (decode_boards_exist b')
      ]
    ]

    -- Where the loop over the boards starts.
    pub record IsReady (be : WebBoardsExist) (s : WebCtrlComm) : Type 0 where
      pub mtx : s.ll_access_mtx ≡ 1
      pub dev_id : s.dev_id ≡ d.id
      pub boards_exist : s.boards_exist ≡ be

    abbrev pub Opened :
        Option WebBoardsExist
        → (WebCtrlComm → WebCtrlComm)
        → Action WebCtrlComm (Unit {0})
        → WebCtrlComm
        → WebCtrlComm
        → Type 0
    Opened none clear rest s t =
        (t.ll_access_mtx ≡ 1)
        × (after_both (web_read_device_id codes link) (web_read_board_exist codes link) clear rest s
            ≡ done (err, clear t))
    Opened (some be) clear rest s t =
        IsReady be t
        × (after_both (web_read_device_id codes link) (web_read_board_exist codes link) clear rest s
            ≡ (rest >> pure ok) t)

    after_device_id :
        (clear : WebCtrlComm → WebCtrlComm) (rest : Action WebCtrlComm (Unit {0}))
        (s t : WebCtrlComm) (reply : Option (List ℕ))
        → d.answer 0xff board_exist ≡ reply
        → web_read_device_id codes link s ≡ done (ok, t)
        → t.ll_access_mtx ≡ 1
        → t.dev_id ≡ d.id
        → HasSameTables s t
        → (t' : WebCtrlComm) × HasSameTables s t'
          × Opened
              (elim reply [ none ↦ none | some b' ↦ some (decode_boards_exist b') ])
              clear
              rest
              s
              t'
    unfolding web_read_board_exist
    after_device_id clear rest s t none e first one i k =
        let (t', same, second) =
          request_lem 0xff board_exist 40 store_boards_exist t (λ b t. refl) d.exist_size one i none
            e in
        (t', ground arith, (omega (arith, same.mtx), after_both-ok _ _ clear rest err first second))
    after_device_id clear rest s t (some b') e first one i k =
        let (t', same, second) =
          request_lem 0xff board_exist 40 store_boards_exist t (λ b t. refl) d.exist_size one i
            (some b') e in
        (
          store_boards_exist b' t',
          ground arith,
          (ground arith, after_both-ok _ _ clear rest ok first second),
        )

    opened :
        (clear : WebCtrlComm → WebCtrlComm) (rest : Action WebCtrlComm (Unit {0})) (s : WebCtrlComm)
        (number : Option (List ℕ))
        → d.number (if s.cr_remote_chosen == 0 then alterid else remote_alterid) ≡ number
        → s.ll_access_mtx ≡ 1
        → (t : WebCtrlComm) × HasSameTables s t
          × Opened
              (elim number [
                | none ↦ none
                | some b ↦ elim (d.answer 0xff board_exist) [
                  | none ↦ none
                  | some b' ↦ some (decode_boards_exist b')
                ]
              ])
              clear
              rest
              s
              t
    opened clear rest s none e one =
        let (t, same, first) = web_read_device_id_lem s none one e in
        (t, ground arith, (omega (arith, same.mtx), after_both-err _ _ clear rest first))
    opened clear rest s (some b) e one =
        let (t, same, first) = web_read_device_id_lem s (some b) one e in
        let ext = if s.cr_remote_chosen == 0 then alterid else remote_alterid in
        after_device_id clear rest s (store_dev_id b t) (d.answer 0xff board_exist) refl first
          (omega (arith, same.mtx)) (d.number_id ext b e) (ground arith)

    -- The two requests before a loop: the loop is entered exactly when both are answered, with the
    -- device's number and boards, and else the table is cleared.
    pub after_both_lem :
        (clear : WebCtrlComm → WebCtrlComm) (rest : Action WebCtrlComm (Unit {0})) (s : WebCtrlComm)
        → s.ll_access_mtx ≡ 1
        → (t : WebCtrlComm) × HasSameTables s t × Opened (present s.cr_remote_chosen) clear rest s t
    after_both_lem clear rest s one = opened clear rest s _ refl one
