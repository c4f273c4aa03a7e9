-- ===== src/Pages/Panel.antt =====
-- The panel against a device on the link: it shows the lamps of the first board.
use arm_ucos_proxy.Base.{
  ℕ, zero, suc, ◌+◌, ◌/◌, ◌%◌, ◌^◌, ◌<◌, ◌≡◌, refl, ap, ◌∙◌, List, Option, none, some, length,
  get_or, get_or-set_self, ◌==◌, if◌then◌else◌, arith,
}
use arm_ucos_proxy.Base.Bytes.{load16, test_bit}
use arm_ucos_proxy.Base.Outcome.{done, err, ok, ◌>>=◌}
use arm_ucos_proxy.Comm.State.{WebDybFrame, WebCtrlComm, Codes, Exchange, zero_bulb_ver}
use arm_ucos_proxy.Comm.Read.{
  store_dev_id, store_bulb_ver, web_read_device_id, web_read_bulb_ver_one_board,
}
use arm_ucos_proxy.Comm.Device.{reply_status}
use arm_ucos_proxy.Comm.Responds.{
  Device, after_both-err, after_both-ok, request_lem, web_read_device_id_lem,
}
use arm_ucos_proxy.Comm.Tables.{clear_bulb_ver, web_read_panel}
use arm_ucos_proxy.Ports.Text.{Text, fail_str}
use arm_ucos_proxy.Pages.Remote.{lamps, panel_ssi_handler}

test_bit-digit : (x i : ℕ) → (if test_bit x i then 49 else 48) ≡ 48 + x / 2 ^ i % 2
test_bit-digit x i = ground arith

lamps-length : (n i bulb : ℕ) → length (lamps n i bulb) ≡ n
unfolding lamps
lamps-length zero i bulb = refl
lamps-length (suc n) i bulb = ap suc (lamps-length n (i + 1) bulb)

lamps-get_or : (n i bulb k : ℕ) → k < n → get_or (lamps n i bulb) k 0 ≡ 48 + bulb / 2 ^ (i + k) % 2
unfolding lamps
lamps-get_or zero i bulb k h = absurd (omega arith)
lamps-get_or (suc n) i bulb zero h =
    let e : i ≡ i + 0 = omega arith in test_bit-digit bulb i ∙ ap (λ j. 48 + bulb / 2 ^ j % 2) e
lamps-get_or (suc n) i bulb (suc k) h =
    let e : i + 1 + k ≡ i + suc k = omega arith in
    lamps-get_or n (i + 1) bulb k (omega arith) ∙ ap (λ j. 48 + bulb / 2 ^ j % 2) e

-- What the panel shows: that the device does not answer, or sixteen digits, the k-th of which is
-- the k-th bit of the first word of the answer.
abbrev pub PanelShows : Option (List ℕ) → Text → Type 0
PanelShows none text = text ≡ fail_str
PanelShows (some b) text =
    (length text ≡ 16) × ((k : ℕ) → k < 16 → get_or text k 0 ≡ 48 + load16 b 0 / 2 ^ k % 2)

module _ (codes : Codes) (link : List WebDybFrame → Exchange) (d : Device codes link) where
  open codes use {alterid, remote_alterid, bulb_ver}

  -- What the first board answers, if the device answers for its number.
  abbrev pub lamps_answer : ℕ → Option (List ℕ)
  lamps_answer remote = elim (d.number (if remote == 0 then alterid else remote_alterid)) [
    | none ↦ none
    | some b ↦ d.answer 0 bulb_ver
  ]

  -- What the request for the panel leaves: the answer in the first row.
  abbrev HasLamps : Option (List ℕ) → WebCtrlComm → Type 0
  HasLamps none s = Unit
  HasLamps (some b) s = (get_or s.bulb_ver 0 zero_bulb_ver).frame.bulb ≡ load16 b 0

  abbrev Shows : Option (List ℕ) → WebCtrlComm → Type 0
  Shows answer s =
      (t : WebCtrlComm) × (web_read_panel codes link s ≡ done (reply_status answer, t))
      × (t.ll_access_mtx ≡ 1)
      × HasLamps answer t

  numbered :
      (s t : WebCtrlComm) (reply : Option (List ℕ))
      → d.answer 0 bulb_ver ≡ reply
      → web_read_device_id codes link s ≡ done (ok, t)
      → t.ll_access_mtx ≡ 1
      → t.dev_id ≡ d.id
      → length t.bulb_ver ≡ 9
      → Shows reply s
  unfolding web_read_panel web_read_bulb_ver_one_board
  numbered s t none e first one i size =
      let (t', same, second) =
        request_lem codes link d 0 bulb_ver 16 (store_bulb_ver 0) t (λ b t. refl)
          (d.bulb_ver_size 0) one i none e in
      (clear_bulb_ver t', after_both-ok _ _ _ _ err first second, omega (arith, same.mtx), tt)
  numbered s t (some b) e first one i size =
      let (t', same, second) =
        request_lem codes link d 0 bulb_ver 16 (store_bulb_ver 0) t (λ b t. refl)
          (d.bulb_ver_size 0) one i (some b) e in
      (
        store_bulb_ver 0 b t',
        after_both-ok _ _ _ _ ok first second,
        omega (arith, same.mtx),
        ap (λ r. r.frame.bulb)
            (get_or-set_self t'.bulb_ver 0 _ zero_bulb_ver
              (omega (arith, size, ap length same.bulb_ver))),
      )

  web_read_panel_lem :
      (s : WebCtrlComm) (number : Option (List ℕ))
      → d.number (if s.cr_remote_chosen == 0 then alterid else remote_alterid) ≡ number
      → s.ll_access_mtx ≡ 1
      → length s.bulb_ver ≡ 9
      → Shows (elim number [ none ↦ none | some b ↦ d.answer 0 bulb_ver ]) s
  unfolding web_read_panel
  web_read_panel_lem s none e one size =
      let (t, same, first) = web_read_device_id_lem codes link d s none one e in
      (clear_bulb_ver t, after_both-err _ _ _ _ first, omega (arith, same.mtx), tt)
  web_read_panel_lem s (some b) e one size =
      let (t, same, first) = web_read_device_id_lem codes link d s (some b) one e in
      let ext = if s.cr_remote_chosen == 0 then alterid else remote_alterid in
      numbered s (store_dev_id b t) (d.answer 0 bulb_ver) refl first (omega (arith, same.mtx))
        (d.number_id ext b e) (omega (arith, size, ap length same.bulb_ver))

  -- The panel returns against any device on the link, with a free mutex and nine rows, and gives
  -- the mutex back. Its text says that the request failed if the device does not answer for its
  -- number or its first board for its lamps; else it has sixteen digits, and the k-th is the k-th
  -- bit of the first word that the board answered.
  pub panel_ssi_handler-PanelShows :
      (s : WebCtrlComm)
      → s.ll_access_mtx ≡ 1
      → length s.bulb_ver ≡ 9
      → (text : Text) × (t : WebCtrlComm) × (panel_ssi_handler codes link s ≡ done (text, t))
        × (t.ll_access_mtx ≡ 1)
        × PanelShows (lamps_answer s.cr_remote_chosen) text
  unfolding panel_ssi_handler
  panel_ssi_handler-PanelShows s one size =
      shows (lamps_answer s.cr_remote_chosen) (web_read_panel_lem s _ refl one size)
    where
      shows :
          (answer : Option (List ℕ))
          → Shows answer s
          → (text : Text) × (t : WebCtrlComm) × (panel_ssi_handler codes link s ≡ done (text, t))
            × (t.ll_access_mtx ≡ 1)
            × PanelShows answer text
      shows none (t, e, one', has) = (fail_str, t, rw (◌>>=◌, e) refl, one', refl)
      shows (some b) (t, e, one', has) =
          let bulb = (get_or t.bulb_ver 0 zero_bulb_ver).frame.bulb in
          (
            lamps 16 0 bulb,
            t,
            rw (◌>>=◌, e) refl,
            one',
            (
              lamps-length 16 0 _,
              λ k h.
                  let e : 0 + k ≡ k = omega arith in
                  lamps-get_or 16 0 bulb k h
                  ∙ ap (λ j. 48 + bulb / 2 ^ j % 2) e
                  ∙ ap (λ x. 48 + x / 2 ^ k % 2) has,
            ),
          )
