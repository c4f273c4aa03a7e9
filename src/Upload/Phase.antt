-- ===== src/Upload/Phase.antt =====
-- The phases of the upload: what the static variables can be between two packets.
use arm_ucos_proxy.Base.{
  ℕ, ◌+◌, ◌-◌, ◌<◌, ◌≡◌, refl, ap, subst, ◌⊎◌, inl, inr, true, false, Bool-cases, Option-cases,
  ◌&&◌, ◌||◌, List, [], ◌∷◌, length, drop, ltb, leb, ◌==◌, if◌then◌else◌, arith,
}
use arm_ucos_proxy.Base.Outcome.{Outcome, done, and_then, Ends, Ends-and_then}
use arm_ucos_proxy.Ports.Text.{mystrncmp}
use arm_ucos_proxy.Upload.State.{
  post_upload, filename_mark, Pbuf, Upload, Tcp, Err, err_ok, clear_transmission,
}
use arm_ucos_proxy.Upload.Parse.{find_text, find_boundary, parse_content_length, copy_filename}
use arm_ucos_proxy.Upload.Recv.{
  octet_offset, pbuf_free, send_page, reload_page, take_data, take_filename, post_packet,
  second_packet, later_packet, webserver_iap_http_recv,
}

-- Behind the POST request that held no data.
pub record IsWaiting (s : Upload) : Type 0 where
  pub flag_known : s.data_flag ≡ 1
  pub browser_known : s.browser_flag ≡ 1
  pub none_received : s.total_received ≡ 0

-- In the data: it began in the POST request or in the packet behind it.
pub record IsTaking (s : Upload) : Type 0 where
  pub begun : (s.data_flag ≡ 1 × s.browser_flag ≡ 0) ⊎ (s.data_flag ≡ 2 × s.browser_flag ≡ 1)
  pub not_all : s.total_received < s.size

-- Between two uploads all is cleared.
pub data IsPhase (s : Upload) : Type 0 where
  idle : clear_transmission s ≡ s → IsPhase s
  waiting : IsWaiting s → IsPhase s
  taking : IsTaking s → IsPhase s

-- A packet that is taken, or handed back, ends in a state of the predicate.
abbrev EndsIn : (Upload → Type 0) → Outcome (Err × Upload) → Type 0
EndsIn is_good = Ends λ r. is_good r.1

EndsIn-elim :
    (is_good : Upload → Type 0) (name : List ℕ) (o o' : Outcome (Err × Upload))
    → EndsIn is_good o
    → EndsIn is_good o'
    → EndsIn is_good (elim name as (λ _. Outcome (Err × Upload)) [ [] ↦ o | c ∷ cs ↦ o' ])
EndsIn-elim is_good [] o o' h h' = h
EndsIn-elim is_good (c ∷ cs) o o' h h' = h'

module _ (files : List (List ℕ × List ℕ)) (tcp : Tcp) where
  send_page-IsPhase :
      (name : List ℕ) (s : Upload)
      → EndsIn IsPhase
          (and_then (send_page files tcp name (clear_transmission s)) λ s'. done (err_ok, s'))
  unfolding send_page clear_transmission
  send_page-IsPhase name s = elim (Option-cases s.hs) [
    | inl e ↦ rw e tt
    | inr (hs, e) ↦ rw e (idle refl)
  ]

  reload_page-IsPhase : (s : Upload) → EndsIn IsPhase (reload_page files tcp s)
  unfolding reload_page send_page clear_transmission pbuf_free
  reload_page-IsPhase s = elim (Option-cases s.hs) [
    | inl e ↦ rw e tt
    | inr (hs, e) ↦ rw e (idle refl)
  ]

  take_data-IsPhase :
      (offset : ℕ) (p : Pbuf) (s : Upload)
      → (s.data_flag ≡ 1 × s.browser_flag ≡ 0) ⊎ (s.data_flag ≡ 2 × s.browser_flag ≡ 1)
      → EndsIn IsPhase (take_data files tcp offset p s)
  unfolding take_data pbuf_free
  take_data-IsPhase offset p s begun =
      let found = find_boundary (p.tot_len - 3) 4 p.tot_len p.payload in
      elim (Bool-cases (leb s.size s.total_received)) [
        | inr e ↦ rw (take_data, e) (taking record { begun = begun; not_all = ground arith })
        | inl e ↦ elim (Option-cases found) [
          | inl e' ↦ rw (take_data, e, e') (reload_page-IsPhase _)
          | inr (i, e') ↦ rw (take_data, e, e') (send_page-IsPhase _ _)
        ]
      ]

  take_filename-IsPhase :
      (offset : ℕ) (p : Pbuf) (s : Upload)
      → (s.data_flag ≡ 1 × s.browser_flag ≡ 0) ⊎ (s.data_flag ≡ 2 × s.browser_flag ≡ 1)
      → EndsIn IsPhase (take_filename files tcp offset p s)
  unfolding take_filename
  take_filename-IsPhase offset p s begun =
      elim (Option-cases (find_text filename_mark p.tot_len p.payload)) [
        | inl e ↦ rw (take_filename, e) (reload_page-IsPhase s)
        | inr (i, e) ↦
            rw (take_filename, e)
              (Ends-and_then (λ r. IsPhase r.1) (copy_filename 63 (drop (i + 10) p.payload)) _
                λ name.
                  EndsIn-elim IsPhase name _ _ (reload_page-IsPhase s)
                    (take_data-IsPhase offset p (record s { total_data = 0 }) begun))
      ]

  post_packet-IsPhase : (p : Pbuf) (s : Upload) → EndsIn IsPhase (post_packet files tcp p s)
  unfolding post_packet clear_transmission pbuf_free
  post_packet-IsPhase p s =
      Ends-and_then (λ r. IsPhase r.1) (parse_content_length p.payload p.tot_len) _
        λ parsed. elim (Bool-cases (octet_offset p == 0)) [
          | inl e ↦
              rw e
                (waiting record { flag_known = refl; browser_known = refl; none_received = refl })
          | inr e ↦ rw e (take_filename-IsPhase (octet_offset p) p _ (inl (refl, refl)))
        ]

  taken-IsPhase :
      (p : Pbuf) (s : Upload)
      → IsPhase s
      → EndsIn IsPhase (
          if s.data_flag == 0
          then post_packet files tcp p s
          else if s.data_flag == 1 && s.browser_flag == 1
          then second_packet files tcp p s
          else later_packet files tcp p s)
  unfolding clear_transmission second_packet later_packet
  taken-IsPhase p s (idle h) =
      let e : (s.data_flag == 0) ≡ true = ground (arith, ap (λ t. t.data_flag) h) in
      rw e (post_packet-IsPhase p s)
  taken-IsPhase p s (waiting w) =
      let e : (s.data_flag == 0) ≡ false = ground (arith, w.flag_known) in
      let e' : (s.data_flag == 1 && s.browser_flag == 1) ≡ true =
        ground (arith, w.flag_known, w.browser_known) in
      rw (e, e') (take_filename-IsPhase (octet_offset p) p _ (inr (refl, w.browser_known)))
  taken-IsPhase p s (taking t) =
      let e : (s.data_flag == 0) ≡ false = ground (arith, t.begun) in
      let e' : (s.data_flag == 1 && s.browser_flag == 1) ≡ false = ground (arith, t.begun) in
      rw (e, e') (take_data-IsPhase 0 p _ t.begun)

  -- After any packet that is taken or handed back, in any phase, the variables are in a phase.
  webserver_iap_http_recv-EndsIn :
      (p : Pbuf) (s : Upload) → IsPhase s → EndsIn IsPhase (webserver_iap_http_recv files tcp p s)
  unfolding webserver_iap_http_recv clear_transmission
  webserver_iap_http_recv-EndsIn p s phase = elim (Bool-cases (ltb (length p.payload) p.tot_len)) [
    | inl e₁ ↦ rw (webserver_iap_http_recv, e₁) tt
    | inr e₁ ↦ elim (Bool-cases (ltb 65520 p.tot_len)) [
      | inl e₂ ↦ rw (webserver_iap_http_recv, e₁, e₂) tt
      | inr e₂ ↦ elim (Bool-cases (mystrncmp p.payload post_upload || leb 1 s.data_flag)) [
        | inl e₃ ↦ rw (webserver_iap_http_recv, e₁, e₂, e₃) (taken-IsPhase p s phase)
        | inr e₃ ↦ rw (webserver_iap_http_recv, e₁, e₂, e₃) (idle refl)
      ]
    ]
  ]

-- Packets that were taken or handed back, one after the other, from one state to another.
pub data Received (files : List (List ℕ × List ℕ)) (tcp : Tcp) (s : Upload) : Upload → Type 0 where
  none_yet : Received files tcp s s
  one_more :
      (s' : Upload) {s'' : Upload} (p : Pbuf) (e : Err)
      → Received files tcp s s'
      → webserver_iap_http_recv files tcp p s' ≡ done (e, s'')
      → Received files tcp s s''

-- From a cleared state on, whatever packets came, complete or not, of an upload or not: the
-- variables are cleared, or no byte is counted behind a POST request without data, or data came of
-- fewer bytes than Content-Length says.
pub received-IsPhase :
    (files : List (List ℕ × List ℕ)) (tcp : Tcp) (s s' : Upload)
    → clear_transmission s ≡ s
    → Received files tcp s s'
    → IsPhase s'
received-IsPhase files tcp s s' h none_yet = idle h
received-IsPhase files tcp s s' h (one_more t p e r handled) =
    subst (EndsIn IsPhase) handled
      (webserver_iap_http_recv-EndsIn files tcp p t (received-IsPhase files tcp s t h r))
