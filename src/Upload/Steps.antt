-- ===== src/Upload/Steps.antt =====
-- Single packets of an upload: which part handles them and what it does.
use arm_ucos_proxy.Base.{
  ℕ, ◌+◌, ◌-◌, ◌*◌, ◌%◌, ◌≤◌, ◌<◌, ◌≡◌, refl, ap, ◌∙◌, true, false, List, ◌++◌, Option, some,
  length, take, drop, leb, take_all, length-append, take-append, drop-append, append_assoc, arith,
}
use arm_ucos_proxy.Base.Outcome.{done}
use arm_ucos_proxy.Upload.State.{
  u16_mod, u32_mod, http_crnl_2, Pbuf, HttpState, Upload, Tcp, err_ok, clear_transmission,
}
use arm_ucos_proxy.Upload.Reply.{iap_fs_open, send_data}
use arm_ucos_proxy.Tftp.Packet.{codes}
use arm_ucos_proxy.Upload.Search.{holds, find_boundary-some}
use arm_ucos_proxy.Upload.Recv.{
  send_page, pbuf_free, hand_on, take_data, later_packet, webserver_iap_http_recv,
}

-- A packet that lies in memory in one piece.
abbrev pub pbuf_of : List ℕ → Pbuf
pbuf_of bytes = record { payload = bytes; tot_len = length bytes }

-- What is left of a page after its first bytes went out.
abbrev pub page_sent : List (List ℕ × List ℕ) → Tcp → List ℕ → HttpState → HttpState
page_sent files tcp name hs =
    let bytes = iap_fs_open files name in
    let sent = send_data tcp (record hs { file = bytes; left = length bytes }) in
    record sent { sent_callback = true }

take-drop_middle :
    (front bytes rest : List ℕ)
    → take (length bytes) (drop (length front) (front ++ bytes ++ rest)) ≡ bytes
take-drop_middle front bytes rest =
    rw (append_assoc front bytes rest, drop-append front (bytes ++ rest)) (take-append bytes rest)

module _ (files : List (List ℕ × List ℕ)) (tcp : Tcp) where
  -- Behind the second packet of an upload of `size` bytes: how many came, and which of the file.
  pub record IsReceiving (size total : ℕ) (got : List ℕ) (freed : ℕ) (hs : Option HttpState)
      (s : Upload) : Type 0 where
    pub flag_known : s.data_flag ≡ 2
    pub size_known : s.size ≡ size
    pub total_known : s.total_received ≡ total
    pub handled_known : s.handled ≡ got
    pub freed_known : s.freed ≡ freed
    pub hs_known : s.hs ≡ hs

  pub recv-later :
      (p : List ℕ) (s : Upload)
      → length p ≤ 65520
      → s.data_flag ≡ 2
      → webserver_iap_http_recv files tcp (pbuf_of p) s ≡ later_packet files tcp (pbuf_of p) s
  unfolding webserver_iap_http_recv
  recv-later p s h e = ground arith

  pub take_data-last :
      (front bytes tail : List ℕ) (hs : HttpState) (s : Upload)
      → length (front ++ bytes ++ (http_crnl_2 ++ tail)) ≤ 65520
      → s.size ≤ s.total_received
      → s.hs ≡ some hs
      → holds http_crnl_2 tail ≡ false
      → take_data files tcp (length front) (pbuf_of (front ++ bytes ++ (http_crnl_2 ++ tail))) s
        ≡ done (
          err_ok,
          record (clear_transmission s) {
            handled = s.handled ++ bytes;
            hs = some (page_sent files tcp (codes "/uploaddone.html") hs);
          },
        )
  unfolding take_data send_page clear_transmission
  take_data-last front bytes tail hs s h over e free =
      let whole : length (front ++ bytes ++ (http_crnl_2 ++ tail))
          ≡ length front + length bytes + (4 + length tail) =
        omega (
          arith,
          length-append (front ++ bytes) (http_crnl_2 ++ tail),
          length-append front bytes,
        ) in
      let found =
        find_boundary-some (front ++ bytes) tail (length tail)
          (length (front ++ bytes ++ (http_crnl_2 ++ tail)) - 3) 4 free (omega arith) (omega arith)
          (omega (arith, whole)) in
      let none_less : leb s.size s.total_received ≡ true = ground arith in
      let n : ℕ =
        ((length (front ++ bytes ++ (http_crnl_2 ++ tail)) + 2 * u16_mod - length front) % u16_mod
          + u16_mod
          - (4 + length tail))
        % u16_mod in
      let n_is : n ≡ length bytes = omega (arith, whole) in
      let rest : take n (drop (length front) (front ++ bytes ++ (http_crnl_2 ++ tail))) ≡ bytes =
        ap (λ k. take k (drop (length front) (front ++ bytes ++ (http_crnl_2 ++ tail)))) n_is
        ∙ take-drop_middle front bytes (http_crnl_2 ++ tail) in
      rw (none_less, found, e, rest) refl

  pub take_data-more :
      (offset : ℕ) (p : List ℕ) (s : Upload)
      → offset ≤ length p
      → length p ≤ 65520
      → s.total_received < s.size
      → take_data files tcp offset (pbuf_of p) s
        ≡ done (
          err_ok,
          pbuf_free (
              hand_on offset
                (length p - offset)
                (pbuf_of p)
                (record s { total_data = (s.total_data + (length p - offset)) % u32_mod })),
        )
  unfolding take_data
  take_data-more offset p s h h' more = ground arith

  pub later_packet-IsReceiving :
      (size total freed : ℕ) (got p : List ℕ) (hs : Option HttpState) (s : Upload)
      → IsReceiving size total got freed hs s
      → length p ≤ 65520
      → total + length p < size
      → size < u32_mod
      → (s' : Upload) × (webserver_iap_http_recv files tcp (pbuf_of p) s ≡ done (err_ok, s'))
        × IsReceiving size (total + length p) (got ++ p) (freed + 1) hs s'
  unfolding later_packet pbuf_free
  later_packet-IsReceiving size total freed got p hs s r h more small =
      let t = record s {
        total_received = (s.total_received + length p) % u32_mod;
        recv_cnt = s.recv_cnt + 1;
      } in
      let all : take (length p - 0) p ≡ p = take_all (length p - 0) p (omega arith) in
      (
        pbuf_free (
            hand_on 0 (length p - 0) (pbuf_of p)
              (record t { total_data = (t.total_data + (length p - 0)) % u32_mod })),
        recv-later p s h r.flag_known
            ∙ take_data-more 0 p t (omega arith) h (omega (arith, r.total_known, r.size_known)),
        record {
          flag_known = r.flag_known;
          size_known = r.size_known;
          total_known = omega (arith, r.total_known);
          handled_known = rw all (ap (λ b. b ++ p) r.handled_known);
          freed_known = ap (λ n. n + 1) r.freed_known;
          hs_known = r.hs_known;
        },
      )
