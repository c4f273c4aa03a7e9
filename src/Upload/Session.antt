-- ===== src/Upload/Session.antt =====
-- A whole upload: the POST request, the packet with the head of the part, and its data.
use arm_ucos_proxy.Base.{
  ℕ, ◌+◌, ◌-◌, ◌%◌, ◌≤◌, ◌<◌, ◌≡◌, refl, sym, ap, ◌∙◌, take, drop, drop-append, take_all, List, [],
  ◌∷◌, ◌++◌, none, some, Option, leb, true, Option-cases, inl, inr, length, false, append-nil,
  append_assoc, length-append, arith,
}
use arm_ucos_proxy.Base.Outcome.{done, fault}
use arm_ucos_proxy.Tftp.Packet.{codes}
use arm_ucos_proxy.Ports.Text.{digits_value}
use arm_ucos_proxy.Upload.State.{
  u32_mod, http_crnl_2, HttpState, Upload, Tcp, err_ok, clear_transmission,
}
use arm_ucos_proxy.Upload.Parse.{find_boundary}
use arm_ucos_proxy.Upload.Recv.{
  take_data, later_packet, reload_page, send_page, webserver_iap_http_recv, pbuf_free,
}
use arm_ucos_proxy.Upload.Search.{holds}
use arm_ucos_proxy.Upload.Length.{digits_value-lt}
use arm_ucos_proxy.Upload.Steps.{
  pbuf_of, page_sent, IsReceiving, take_data-last, take_data-more, later_packet-IsReceiving,
  recv-later,
}
use arm_ucos_proxy.Upload.Request.{
  PostRequest, posted, post_bytes, IsPost, PartHead, part_head, IsPart, recv-post, recv-part_head,
}

-- One packet after the other is handled, and each is taken.
pub data Handles (files : List (List ℕ × List ℕ)) (tcp : Tcp)
    : List (List ℕ) → Upload → Upload → Type 0 where
  no_packet : (s : Upload) → Handles files tcp [] s s
  packet :
      {p : List ℕ} {ps : List (List ℕ)} {s s' s'' : Upload}
      → webserver_iap_http_recv files tcp (pbuf_of p) s ≡ done (err_ok, s')
      → Handles files tcp ps s' s''
      → Handles files tcp (p ∷ ps) s s''

-- The bytes of all packets.
unfoldable pub joined : List (List ℕ) → List ℕ
joined [] = []
joined (p ∷ ps) = p ++ joined ps

-- Every packet is short enough for the counter of 16 bits.
unfoldable pub AreShort : List (List ℕ) → Type 0
AreShort [] = Unit
AreShort (p ∷ ps) = (length p ≤ 65520) × AreShort ps

module _ (files : List (List ℕ × List ℕ)) (tcp : Tcp) where
  -- Behind the last packet.
  pub record IsUploaded (got : List ℕ) (freed : ℕ) (hs : HttpState) (s : Upload) : Type 0 where
    pub cleared : clear_transmission s ≡ s
    pub handled_known : s.handled ≡ got
    pub freed_known : s.freed ≡ freed
    pub page : s.hs ≡ some (page_sent files tcp (codes "/uploaddone.html") hs)

  IsUploaded-same :
      {got got' : List ℕ} {freed freed' : ℕ} {hs : HttpState} {s : Upload}
      → got ≡ got'
      → freed ≡ freed'
      → IsUploaded got freed hs s
      → IsUploaded got' freed' hs s
  IsUploaded-same e e' up = record {
    cleared = up.cleared;
    handled_known = up.handled_known ∙ e;
    freed_known = up.freed_known ∙ e';
    page = up.page;
  }

  last_packet-IsUploaded :
      (size total freed : ℕ) (got bytes tail : List ℕ) (hs : HttpState) (s : Upload)
      → IsReceiving files tcp size total got freed (some hs) s
      → length (bytes ++ (http_crnl_2 ++ tail)) ≤ 65520
      → size ≡ total + length (bytes ++ (http_crnl_2 ++ tail))
      → size < u32_mod
      → holds http_crnl_2 tail ≡ false
      → (s' : Upload) × (webserver_iap_http_recv files tcp
            (pbuf_of (bytes ++ (http_crnl_2 ++ tail)))
            s
          ≡ done (err_ok, s'))
        × IsUploaded (got ++ bytes) freed hs s'
  unfolding later_packet clear_transmission
  last_packet-IsUploaded size total freed got bytes tail hs s r short all small free =
      let n = length (bytes ++ (http_crnl_2 ++ tail)) in
      let t = record s {
        total_received = (s.total_received + n) % u32_mod;
        recv_cnt = s.recv_cnt + 1;
      } in
      (
        _,
        recv-later files tcp (bytes ++ (http_crnl_2 ++ tail)) s short r.flag_known
            ∙ take_data-last files tcp [] bytes tail hs t short
                (omega (arith, r.total_known, r.size_known)) r.hs_known free,
        record {
          cleared = refl;
          handled_known = ap (λ b. b ++ bytes) r.handled_known;
          freed_known = r.freed_known;
          page = refl;
        },
      )

  IsReceiving-same :
      {size total total' freed freed' : ℕ} {got got' : List ℕ} {o : Option HttpState} {s : Upload}
      → total ≡ total'
      → got ≡ got'
      → freed ≡ freed'
      → IsReceiving files tcp size total got freed o s
      → IsReceiving files tcp size total' got' freed' o s
  IsReceiving-same e e' e'' r = record {
    flag_known = r.flag_known;
    size_known = r.size_known;
    total_known = r.total_known ∙ e;
    handled_known = r.handled_known ∙ e';
    freed_known = r.freed_known ∙ e'';
    hs_known = r.hs_known;
  }

  blocks-IsReceiving :
      (blocks : List (List ℕ)) (size total freed : ℕ) (got : List ℕ) (o : Option HttpState)
      (s : Upload)
      → IsReceiving files tcp size total got freed o s
      → AreShort blocks
      → total + length (joined blocks) < size
      → size < u32_mod
      → (s' : Upload) × Handles files tcp blocks s s'
        × IsReceiving files tcp size
            (total + length (joined blocks))
            (got ++ joined blocks)
            (freed + length blocks)
            o
            s'
  unfolding joined AreShort
  blocks-IsReceiving [] size total freed got o s r shorts more small =
      (s, no_packet s, IsReceiving-same (omega arith) (sym (append-nil got)) (omega arith) r)
  blocks-IsReceiving (b ∷ blocks) size total freed got o s r (b_short, shorts) more small =
      let whole = length-append b (joined blocks) in
      let (s', e, r') =
        later_packet-IsReceiving files tcp size total freed got b o s r b_short
          (omega (arith, more, whole)) small in
      let (s'', es, r'') =
        blocks-IsReceiving blocks size (total + length b) (freed + 1) (got ++ b) o s' r' shorts
          (omega (arith, more, whole)) small in
      (
        s'',
        packet e es,
        IsReceiving-same (omega (arith, whole)) (append_assoc got b (joined blocks)) (omega arith)
            r'',
      )

  part-IsReceiving :
      (h : PartHead) (first : List ℕ) (s : Upload)
      → IsPart h
      → length (part_head h ++ first) ≤ 65520
      → s.data_flag ≡ 1
      → s.browser_flag ≡ 1
      → s.total_received ≡ 0
      → length (part_head h ++ first) < s.size
      → (s' : Upload) × (webserver_iap_http_recv files tcp (pbuf_of (part_head h ++ first)) s
          ≡ done (err_ok, s'))
        × IsReceiving files tcp s.size
            (length (part_head h ++ first))
            (s.handled ++ first)
            (s.freed + 1)
            s.hs
            s'
  unfolding pbuf_free
  part-IsReceiving h first s ok_part short flag browser none_yet more =
      let n = length (part_head h ++ first) in
      let split = length-append (part_head h) first in
      let begun : Upload = record s {
        data_flag = 2;
        total_received = (s.total_received + n) % u32_mod;
        recv_cnt = s.recv_cnt + 1;
        total_data = 0;
      } in
      let rest : take (n - length (part_head h))
            (drop (length (part_head h)) (part_head h ++ first))
          ≡ first =
        ap (take (n - length (part_head h))) (drop-append (part_head h) first)
        ∙ take_all (n - length (part_head h)) first (omega (arith, split)) in
      (
        _,
        recv-part_head files tcp h first s ok_part short flag browser
            ∙ take_data-more files tcp (length (part_head h)) (part_head h ++ first) begun
                (omega (arith, split)) short (omega arith),
        record {
          flag_known = refl;
          size_known = refl;
          total_known = omega arith;
          handled_known = ap (λ b. s.handled ++ b) rest;
          freed_known = refl;
          hs_known = refl;
        },
      )

  -- Where no pointer to a connection's state is set, as no code sets it, a packet of at most 65520
  -- bytes that completes the data of an upload, whatever its bytes are, ends in an access through
  -- the pointer.
  pub last_packet-faults :
      (size total freed : ℕ) (got p : List ℕ) (s : Upload)
      → IsReceiving files tcp size total got freed none s
      → length p ≤ 65520
      → size ≤ total + length p
      → total + length p < u32_mod
      → webserver_iap_http_recv files tcp (pbuf_of p) s ≡ fault
  unfolding later_packet take_data reload_page send_page clear_transmission pbuf_free
  last_packet-faults size total freed got p s r short all small =
      let n = length p in
      let over : leb s.size ((s.total_received + n) % u32_mod) ≡ true =
        ground (arith, r.total_known, r.size_known) in
      let found = find_boundary (n - 3) 4 n p in
      recv-later files tcp p s short r.flag_known ∙ elim (Option-cases found) [
        | inl e ↦ rw (later_packet, take_data, over, e, r.hs_known) refl
        | inr (i, e) ↦ rw (later_packet, take_data, over, e, r.hs_known) refl
      ]

  -- The packet that completes an upload: without a pointer to the connection's state it ends in an
  -- access through it, and else the upload is complete behind it.
  abbrev pub Completes : List ℕ → ℕ → List ℕ → Option HttpState → Upload → Type 0
  Completes got freed p none s = webserver_iap_http_recv files tcp (pbuf_of p) s ≡ fault
  Completes got freed p (some hs) s =
      (s' : Upload) × (webserver_iap_http_recv files tcp (pbuf_of p) s ≡ done (err_ok, s'))
      × IsUploaded got freed hs s'

  last_packet-Completes :
      (size total freed : ℕ) (got bytes tail : List ℕ) (o : Option HttpState) (s : Upload)
      → IsReceiving files tcp size total got freed o s
      → length (bytes ++ (http_crnl_2 ++ tail)) ≤ 65520
      → size ≡ total + length (bytes ++ (http_crnl_2 ++ tail))
      → size < u32_mod
      → holds http_crnl_2 tail ≡ false
      → Completes (got ++ bytes) freed (bytes ++ (http_crnl_2 ++ tail)) o s
  last_packet-Completes size total freed got bytes tail none s r short all small free =
      last_packet-faults size total freed got (bytes ++ (http_crnl_2 ++ tail)) s r short
        (omega arith) (omega arith)
  last_packet-Completes size total freed got bytes tail (some hs) s r short all small free =
      last_packet-IsUploaded size total freed got bytes tail hs s r short all small free

  -- An upload between two others comes as a POST request without the part, whose first
  -- Content-Length has at most six digits; the head of the part, with a name of 1 to 63 characters
  -- and no earlier mark, and the first bytes of the file; whole packets of it; and its last bytes
  -- with the boundary, behind which no other mark stands. The packets have at most 65520 bytes each,
  -- and those behind the request as many together as Content-Length says. Then all packets but the
  -- last are taken and freed, and exactly their bytes of the file are handed on. The last packet
  -- ends in an access through the pointer to the connection's state where none is set, as none is
  -- in the code; with a pointer it is taken, the bytes handed on are those of the file, the state is
  -- cleared and the page uploaddone.html is under way.
  pub upload-IsUploaded :
      (q : PostRequest) (h : PartHead) (first : List ℕ) (blocks : List (List ℕ))
      (last tail : List ℕ) (s : Upload)
      → IsPost q
      → IsPart h
      → length (part_head h ++ first) ≤ 65520
      → AreShort blocks
      → length (last ++ (http_crnl_2 ++ tail)) ≤ 65520
      → digits_value 0 q.digits
        ≡ length (part_head h ++ first)
          + length (joined blocks)
          + length (last ++ (http_crnl_2 ++ tail))
      → holds http_crnl_2 tail ≡ false
      → s.data_flag ≡ 0
      → (s' : Upload) × Handles files tcp (post_bytes q ∷ (part_head h ++ first) ∷ blocks) s s'
        × (s'.handled ≡ s.handled ++ first ++ joined blocks)
        × (s'.freed ≡ s.freed + 2 + length blocks)
        × Completes
            (s.handled ++ first ++ joined blocks ++ last)
            (s.freed + 2 + length blocks)
            (last ++ (http_crnl_2 ++ tail))
            s.hs
            s'
  unfolding clear_transmission pbuf_free
  upload-IsUploaded q h first blocks last tail s ok_post ok_part part_short shorts short sums free
        idle =
      let asked = recv-post files tcp q s ok_post idle in
      let more : 4 ≤ length (last ++ (http_crnl_2 ++ tail)) =
        omega (arith, length-append last (http_crnl_2 ++ tail)) in
      let (s₂, taken, r) =
        part-IsReceiving h first (posted q s) ok_part part_short refl refl refl
          (omega (arith, more)) in
      let small = digits_value-lt q.digits ok_post.short_number ok_post.is_number in
      let (s₃, rest, r₃) =
        blocks-IsReceiving blocks (digits_value 0 q.digits) (length (part_head h ++ first))
          (s.freed + 1 + 1) (s.handled ++ first) s.hs s₂ r shorts (omega (arith, more)) small in
      let r₄ = IsReceiving-same refl refl (omega arith) r₃ in
      (
        s₃,
        packet asked (packet taken rest),
        r₄.handled_known,
        r₄.freed_known,
        last_packet-Completes (digits_value 0 q.digits) _ (s.freed + 2 + length blocks) _ last tail
            s.hs s₃ r₄ short sums small free,
      )
