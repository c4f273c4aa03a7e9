-- ===== src/Comm/Keeps.antt =====
-- The pages' requests never wait for ever, and leave the state tidy.
use arm_ucos_proxy.Base.{
  ℕ, suc, ◌≤◌, ◌≡◌, ◌⊎◌, inl, inr, ◌∙◌, ◌&&◌, Bool-cases, List, [], ◌∷◌, none, some, length, take,
  drop, length-append, length-take, length-drop, leb, arith,
}
use arm_ucos_proxy.Base.Bytes.{overwrite}
use arm_ucos_proxy.Base.Outcome.{
  Status, ok, err, Action, pure, modify, ◌>>=◌, ◌>>◌, Returns, Returns-bind,
}
use arm_ucos_proxy.Comm.State.{WebDybArg, WebDybFrame, WebCtrlComm, Exchange}
use arm_ucos_proxy.Comm.Captures.{Fits, AllFit, is_reply}
use arm_ucos_proxy.Comm.Answers.{IsSafe}
use arm_ucos_proxy.Comm.Require.{
  ctrl_send_dyb_frame, ctrl_dyb_frame_capture, capture_all, pend_ll_access, post_ll_access,
  pend_wait_sem, ctrl_wait_dyb_reply, Destination, copy_reply, ctrl_require,
}
use arm_ucos_proxy.Comm.Tidy.{IsTidy}

-- A frame that the receiver can copy, where no fault may be.
abbrev FitsOr : Type 0 → WebDybFrame → Type 0
FitsOr may_fault f = Fits f ⊎ may_fault

abbrev AllFitOr : Type 0 → List WebDybFrame → Type 0
AllFitOr may_fault [] = Unit
AllFitOr may_fault (f ∷ fs) = FitsOr may_fault f × AllFitOr may_fault fs

-- The link delivers such frames, whatever was sent.
pub record Supplies (may_fault : Type 0) (link : List WebDybFrame → Exchange) : Type 0 where
  pub early : (sent : List WebDybFrame) → AllFitOr may_fault (link sent).early
  pub reply : (sent : List WebDybFrame) → AllFitOr may_fault (link sent).reply

module _ (may_fault : Type 0) where
  abbrev pub Keeps : {A : Type 0} → ℕ → ℕ → Action WebCtrlComm A → Type 0
  Keeps before after act =
      (s : WebCtrlComm) → IsTidy before s → Returns may_fault (λ r. IsTidy after r.1) (act s)

  pub bind-Keeps :
      {A B : Type 0} (j k l : ℕ) (act : Action WebCtrlComm A) (f : A → Action WebCtrlComm B)
      → Keeps j k act
      → ((a : A) → Keeps k l (f a))
      → Keeps j l (act >>= f)
  bind-Keeps j k l act f first rest s tidy =
      Returns-bind may_fault (λ r. IsTidy k r.1) (λ r. IsTidy l r.1) (act s) f (first s tidy)
        (λ a t tidy'. rest a t tidy')

  overwrite-length :
      (src buf : List ℕ) → length src ≤ length buf → length (overwrite src buf) ≡ length buf
  overwrite-length src buf h =
      omega (arith, length-append src (drop (length src) buf), length-drop (length src) buf)

  capture-Keeps :
      (k : ℕ) (f : WebDybFrame) → FitsOr may_fault f → Keeps k k (ctrl_dyb_frame_capture f)
  unfolding ctrl_dyb_frame_capture
  capture-Keeps k f fits s tidy = elim (Bool-cases (is_reply f)) [
    | inr e ↦ rw e tidy
    | inl e ↦
        let m = f.hdr.cmd_len in
        elim (Bool-cases (leb m 256 && leb m (length f.body))) [
          | inl e' ↦
              rw (e, e')
                (record {
                  mutex = tidy.mutex;
                  body =
                      overwrite-length (take m f.body) s.frame.body
                        (ground (arith, length-take m f.body, tidy.body))
                      ∙ tidy.body;
                  bulb_ver = tidy.bulb_ver;
                  opt = tidy.opt;
                  eth = tidy.eth;
                  e1 = tidy.e1;
                })
          | inr e' ↦
              rw (e, e') (elim fits [ inl h ↦ absurd (ground (arith, h.0, h.1)) | inr may ↦ may ])
        ]
  ]

  capture_all-Keeps :
      (k : ℕ) (fs : List WebDybFrame) → AllFitOr may_fault fs → Keeps k k (capture_all fs)
  unfolding capture_all
  capture_all-Keeps k [] fits s tidy = tidy
  capture_all-Keeps k (f ∷ fs) (fit, fits) s tidy =
      bind-Keeps k k k (ctrl_dyb_frame_capture f) _ (capture-Keeps k f fit)
        (λ a. capture_all-Keeps k fs fits) s tidy

  send-Keeps : (k : ℕ) (arg : WebDybArg) → Keeps k k (ctrl_send_dyb_frame arg)
  unfolding ctrl_send_dyb_frame
  send-Keeps k arg s tidy = ground arith

  pend-Keeps : (k : ℕ) → Keeps (suc k) k pend_ll_access
  unfolding pend_ll_access
  pend-Keeps k s tidy = ground arith

  post-Keeps : (k : ℕ) → Keeps k (suc k) post_ll_access
  unfolding post_ll_access
  post-Keeps k s tidy = ground arith

  pend_wait_sem-Keeps : (k : ℕ) → Keeps k k pend_wait_sem
  unfolding pend_wait_sem
  pend_wait_sem-Keeps k s tidy = ground arith

  wait-Keeps :
      (k : ℕ) (reply : List WebDybFrame)
      → AllFitOr may_fault reply
      → Keeps k k (ctrl_wait_dyb_reply reply)
  unfolding ctrl_wait_dyb_reply
  wait-Keeps k reply fits =
      bind-Keeps k k k (modify (λ s. record s { wait_sem = 0 })) _ (λ s tidy. ground arith)
        (λ a.
          bind-Keeps k k k (capture_all reply) _ (capture_all-Keeps k reply fits)
            (λ b. pend_wait_sem-Keeps k))

  -- A store of so many bytes.
  abbrev pub StoresTidily : Destination → Type 0
  StoresTidily none = Unit
  StoresTidily (some (size, store)) =
      (size ≤ 256)
      × ((k : ℕ) (b : List ℕ) (s : WebCtrlComm)
          → length b ≡ size
          → IsTidy k s
          → IsTidy k (store b s))

  copy_reply-Keeps :
      (k : ℕ) (ret : Status) (dst : Destination) → StoresTidily dst → Keeps k k (copy_reply ret dst)
  unfolding copy_reply
  copy_reply-Keeps k ok (some (size, store)) (fits, keeps) s tidy =
      keeps k (take size s.frame.body) s (omega (arith, length-take size s.frame.body, tidy.body))
        tidy
  copy_reply-Keeps k err (some p) h s tidy = tidy
  copy_reply-Keeps k ok none h s tidy = tidy
  copy_reply-Keeps k err none h s tidy = tidy

  module _ (link : List WebDybFrame → Exchange) (delivers : Supplies may_fault link) where
    pub ctrl_require-Keeps :
        (arg : WebDybArg) (dst : Destination)
        → StoresTidily dst
        → Keeps 1 1 (ctrl_require link arg dst)
    unfolding ctrl_require
    ctrl_require-Keeps arg dst stores = bind-Keeps 1 0 1 pend_ll_access _ (pend-Keeps 0) λ a.
        bind-Keeps 0 0 1 (ctrl_send_dyb_frame arg) _ (send-Keeps 0 arg) λ b.
          λ s tidy. exchange (link s.sent) (delivers.early s.sent) (delivers.reply s.sent) s tidy
      where
        exchange :
            (ex : Exchange)
            → AllFitOr may_fault ex.early
            → AllFitOr may_fault ex.reply
            → Keeps 0 1 (do
              capture_all ex.early
              ret ← ctrl_wait_dyb_reply ex.reply
              copy_reply ret dst
              post_ll_access
              pure ret)
        exchange ex early reply =
            bind-Keeps 0 0 1 (capture_all ex.early) _ (capture_all-Keeps 0 ex.early early) λ a.
              bind-Keeps 0 0 1 (ctrl_wait_dyb_reply ex.reply) _ (wait-Keeps 0 ex.reply reply) λ ret.
                bind-Keeps 0 0 1 (copy_reply ret dst) _ (copy_reply-Keeps 0 ret dst stores)
                  λ c. bind-Keeps 0 1 1 post_ll_access _ (post-Keeps 0) λ d. λ s tidy. tidy

any-AllFitOr : (fs : List WebDybFrame) → AllFitOr (Unit {0}) fs
any-AllFitOr [] = tt
any-AllFitOr (f ∷ fs) = (inr tt, any-AllFitOr fs)

-- Where a fault may be, any link will do.
pub any-Supplies : (link : List WebDybFrame → Exchange) → Supplies (Unit {0}) link
any-Supplies link = record {
  early = λ sent. any-AllFitOr (link sent).early;
  reply = λ sent. any-AllFitOr (link sent).reply;
}

fitting-AllFitOr : (may_fault : Type 0) (fs : List WebDybFrame) → AllFit fs → AllFitOr may_fault fs
fitting-AllFitOr may_fault [] h = tt
fitting-AllFitOr may_fault (f ∷ fs) (h, hs) = (inl h, fitting-AllFitOr may_fault fs hs)

-- Frames that fit may be delivered where no fault may be.
pub fitting-Supplies :
    (link : List WebDybFrame → Exchange)
    → ((sent : List WebDybFrame) → IsSafe (link sent))
    → Supplies ⊥ link
fitting-Supplies link h = record {
  early = λ sent. fitting-AllFitOr ⊥ (link sent).early (h sent).early;
  reply = λ sent. fitting-AllFitOr ⊥ (link sent).reply (h sent).reply;
}
