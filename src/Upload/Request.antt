-- ===== src/Upload/Request.antt =====
-- The POST request of an upload, and the head of the part with the file.
use arm_ucos_proxy.Base.{
  ℕ, ◌+◌, ◌%◌, ◌≤◌, ◌<◌, ◌≡◌, refl, ap, ◌∙◌, true, false, List, [], ◌∷◌, ◌++◌, inl, inr, Bool-cases,
  some, length, drop, ltb, ◌==◌, append_assoc, length-append, arith,
}
use arm_ucos_proxy.Base.Outcome.{done}
use arm_ucos_proxy.Ports.Text.{mystrncmp, digits_value}
use arm_ucos_proxy.Upload.State.{
  u32_mod, octet_stream, content_length, post_upload, filename_mark, Upload, Tcp, err_ok,
  clear_transmission,
}
use arm_ucos_proxy.Upload.Parse.{find_text}
use arm_ucos_proxy.Upload.Recv.{
  octet_offset, take_data, take_filename, post_packet, second_packet, webserver_iap_http_recv,
  pbuf_free,
}
use arm_ucos_proxy.Upload.Search.{
  absent, holds, find_text-some, find_text-none, drop-front, copy_filename-name,
}
use arm_ucos_proxy.Upload.Length.{all_digits, parse_content_length-digits}
use arm_ucos_proxy.Upload.Steps.{pbuf_of}

-- The POST request up to the part of the file, which it does not hold.
pub record PostRequest : Type 0 where
  pub fields : List ℕ
  pub digits : List ℕ
  pub behind : List ℕ

abbrev pub up_to_length : PostRequest → List ℕ
up_to_length q = post_upload ++ q.fields

abbrev pub post_bytes : PostRequest → List ℕ
post_bytes q = up_to_length q ++ content_length ++ (q.digits ++ 13 ∷ q.behind)

pub record IsPost (q : PostRequest) : Type 0 where
  pub first_length : absent content_length (up_to_length q) ≡ true
  pub is_number : all_digits q.digits ≡ true
  pub short_number : length q.digits ≤ 6
  pub no_part : holds octet_stream (post_bytes q) ≡ false
  pub fits : length (post_bytes q) ≤ 65520

-- The head of the part of the file.
pub record PartHead : Type 0 where
  pub before : List ℕ
  pub name : List ℕ
  pub between : List ℕ

abbrev pub up_to_octet : PartHead → List ℕ
up_to_octet h = h.before ++ filename_mark ++ (34 ∷ h.name ++ (34 ∷ h.between))

abbrev pub part_head : PartHead → List ℕ
part_head h = up_to_octet h ++ octet_stream ++ (10 ∷ 13 ∷ 10 ∷ [])

pub record IsPart (h : PartHead) : Type 0 where
  pub first_name : absent filename_mark h.before ≡ true
  pub some_name : 0 < length h.name
  pub short_name : length h.name ≤ 63
  pub unquoted : absent (34 ∷ []) h.name ≡ true
  pub first_octet : absent octet_stream (up_to_octet h) ≡ true

pub octet_offset-part_head :
    (h : PartHead) (rest : List ℕ)
    → IsPart h
    → octet_offset (pbuf_of (part_head h ++ rest)) ≡ length (part_head h)
unfolding octet_offset
octet_offset-part_head h rest ok_head =
    let tail : List ℕ = 10 ∷ 13 ∷ 10 ∷ [] in
    let total = length-append (part_head h) rest in
    let inner = length-append (up_to_octet h ++ octet_stream) tail in
    let inner' = length-append (up_to_octet h) octet_stream in
    let n = length (part_head h ++ rest) in
    let found : find_text octet_stream n (part_head h ++ rest) ≡ some (length (up_to_octet h)) =
      ap (λ b. find_text octet_stream n b) (append_assoc (up_to_octet h ++ octet_stream) tail rest)
      ∙ find_text-some octet_stream (up_to_octet h) (tail ++ rest) n (omega arith)
          (omega (arith, total, inner, inner')) ok_head.first_octet in
    rw (octet_offset, found) (omega (arith, inner, inner'))

filename-place :
    (h : PartHead) (rest : List ℕ)
    → part_head h ++ rest
      ≡ h.before
        ++ filename_mark
        ++ (34 ∷ (h.name ++ 34 ∷ (h.between ++ (octet_stream ++ (10 ∷ 13 ∷ 10 ∷ []) ++ rest))))
filename-place h rest = simp append_assoc refl

nonempty-elim {ℓ} :
    {A : Type ℓ} (xs : List ℕ) (x y : A)
    → 0 < length xs
    → elim xs as (λ _. A) [ [] ↦ x | c ∷ cs ↦ y ] ≡ y
nonempty-elim [] x y h = absurd (omega arith)
nonempty-elim (c ∷ cs) x y h = refl

pub take_filename-part_head :
    (files : List (List ℕ × List ℕ)) (tcp : Tcp) (h : PartHead) (rest : List ℕ) (offset : ℕ)
    (s : Upload)
    → IsPart h
    → take_filename files tcp offset (pbuf_of (part_head h ++ rest)) s
      ≡ take_data files tcp offset (pbuf_of (part_head h ++ rest)) (record s { total_data = 0 })
unfolding take_filename
take_filename-part_head files tcp h rest offset s ok_head =
    let behind : List ℕ = h.between ++ (octet_stream ++ (10 ∷ 13 ∷ 10 ∷ []) ++ rest) in
    let whole = filename-place h rest in
    let n = length (part_head h ++ rest) in
    let named : List ℕ = 34 ∷ (h.name ++ 34 ∷ behind) in
    let total' = length-append (h.before ++ filename_mark) named in
    let inner = length-append h.before filename_mark in
    let found : find_text filename_mark n (part_head h ++ rest) ≡ some (length h.before) =
      ap (λ b. find_text filename_mark n b) whole
      ∙ find_text-some filename_mark h.before named n (omega arith)
          (omega (arith, ap length whole, total', inner)) ok_head.first_name in
    let from : drop (length h.before + 10) (part_head h ++ rest) ≡ h.name ++ 34 ∷ behind =
      ap (drop (length h.before + 10)) whole
      ∙ drop-front (h.before ++ filename_mark) named 1 (length h.before + 10)
          (omega (arith, inner)) in
    let copied = copy_filename-name h.name behind 63 ok_head.short_name ok_head.unquoted in
    rw (take_filename, found, from, copied) (nonempty-elim h.name _ _ ok_head.some_name)

-- Behind the POST request.
abbrev pub posted : PostRequest → Upload → Upload
posted q s = pbuf_free (record (clear_transmission s) {
  size = digits_value 0 q.digits;
  content_length_offset = length (up_to_length q) + 16 + length q.digits;
  data_flag = 1;
  browser_flag = 1;
})

post_packet-post_bytes :
    (files : List (List ℕ × List ℕ)) (tcp : Tcp) (q : PostRequest) (s : Upload)
    → IsPost q
    → post_packet files tcp (pbuf_of (post_bytes q)) s ≡ done (err_ok, posted q s)
unfolding post_packet octet_offset
post_packet-post_bytes files tcp q s ok_post =
    let n = length (post_bytes q) in
    let enough : length (up_to_length q) < n = omega (
      arith,
      length-append (up_to_length q ++ content_length) (q.digits ++ 13 ∷ q.behind),
      length-append (up_to_length q) content_length,
    ) in
    let parsed =
      parse_content_length-digits (up_to_length q) q.digits q.behind n enough ok_post.first_length
        ok_post.short_number ok_post.is_number in
    let no_octet = find_text-none octet_stream (post_bytes q) n ok_post.no_part in
    rw (parsed, octet_offset, no_octet) refl

-- The POST request without the part is answered by nothing, and its length is kept.
pub recv-post :
    (files : List (List ℕ × List ℕ)) (tcp : Tcp) (q : PostRequest) (s : Upload)
    → IsPost q
    → s.data_flag ≡ 0
    → webserver_iap_http_recv files tcp (pbuf_of (post_bytes q)) s ≡ done (err_ok, posted q s)
unfolding webserver_iap_http_recv mystrncmp
recv-post files tcp q s ok_post idle =
    let n = length (post_bytes q) in
    let e₁ : ltb n n ≡ false = ground arith in
    let e₂ : ltb 65520 n ≡ false = ground (arith, ok_post.fits) in
    let e₃ : (s.data_flag == 0) ≡ true = ground arith in
    rw (webserver_iap_http_recv, e₁, e₂, e₃) (post_packet-post_bytes files tcp q s ok_post)

-- The packet behind it is taken from the end of the head of the part on.
pub recv-part_head :
    (files : List (List ℕ × List ℕ)) (tcp : Tcp) (h : PartHead) (rest : List ℕ) (s : Upload)
    → IsPart h
    → length (part_head h ++ rest) ≤ 65520
    → s.data_flag ≡ 1
    → s.browser_flag ≡ 1
    → webserver_iap_http_recv files tcp (pbuf_of (part_head h ++ rest)) s
      ≡ take_data files tcp (length (part_head h)) (pbuf_of (part_head h ++ rest)) (record s {
        data_flag = 2;
        total_received = (s.total_received + length (part_head h ++ rest)) % u32_mod;
        recv_cnt = s.recv_cnt + 1;
        total_data = 0;
      })
unfolding webserver_iap_http_recv second_packet
recv-part_head files tcp h rest s ok_head fits flag browser =
    let n = length (part_head h ++ rest) in
    let e₁ : ltb n n ≡ false = ground arith in
    let e₂ : ltb 65520 n ≡ false = ground arith in
    let place = octet_offset-part_head h rest ok_head in
    let post = mystrncmp (part_head h ++ rest) post_upload in
    elim (Bool-cases post) [
      | inl e ↦
          rw (webserver_iap_http_recv, e₁, e₂, flag, browser, e, second_packet, place)
            (take_filename-part_head files tcp h rest (length (part_head h)) _ ok_head)
      | inr e ↦
          rw (webserver_iap_http_recv, e₁, e₂, flag, browser, e, second_packet, place)
            (take_filename-part_head files tcp h rest (length (part_head h)) _ ok_head)
    ]
