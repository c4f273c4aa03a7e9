-- ===== src/Upload/Sent.antt =====
-- The way of a page to the browser: http_sent after each acknowledgement, until it is closed.
use arm_ucos_proxy.Base.{
  ℕ, zero, suc, ◌+◌, ◌%◌, ◌≤◌, ◌<◌, ◌≡◌, refl, sym, ap, ◌∙◌, Bool, true, false, ◌&&◌, inl, inr,
  Bool-cases, List, [], ◌∷◌, ◌++◌, length, take, drop, length-drop, append_assoc, append-nil, ltb,
  leb, if◌then◌else◌, arith,
}
use arm_ucos_proxy.Upload.State.{u16_mod, HttpState, Tcp}
use arm_ucos_proxy.Upload.Reply.{send_data, close_conn, http_sent}

-- The calls of http_sent for the acknowledgements that come, until the connection is closed.
unfoldable pub sends : List Tcp → ℕ → HttpState → HttpState
sends [] resetpage hs = hs
sends (tcp ∷ tcps) resetpage hs =
    let later = sends tcps resetpage (http_sent tcp resetpage hs) in if hs.closed then hs else later

-- tcp_write takes the bytes, and there is room.
unfoldable pub takes_bytes : Tcp → Bool
takes_bytes tcp = tcp.write_ok && leb 1 tcp.sndbuf

unfoldable pub good_calls : List Tcp → ℕ
good_calls [] = 0
good_calls (tcp ∷ tcps) = if takes_bytes tcp then 1 + good_calls tcps else good_calls tcps

-- tcp_sndbuf has 16 bits.
unfoldable pub HaveU16 : List Tcp → Type 0
HaveU16 [] = Unit
HaveU16 (tcp ∷ tcps) = (tcp.sndbuf < u16_mod) × HaveU16 tcps

take-drop : (n : ℕ) (xs : List ℕ) → take n xs ++ drop n xs ≡ xs
take-drop zero xs = refl
take-drop (suc n) [] = refl
take-drop (suc n) (x ∷ xs) = ap (λ r. x ∷ r) (take-drop n xs)

-- What is between two calls: `whole` is what went out and what is left.
pub record IsSending (whole : List ℕ) (hs : HttpState) : Type 0 where
  pub rest : hs.output ++ hs.file ≡ whole
  pub left_known : hs.left ≡ length hs.file
  pub not_closed : hs.closed ≡ false

send_data-IsSending :
    (whole : List ℕ) (tcp : Tcp) (hs : HttpState)
    → IsSending whole hs
    → tcp.sndbuf < u16_mod
    → IsSending whole (send_data tcp hs)
unfolding send_data
send_data-IsSending whole tcp hs r small =
    let len = (if ltb tcp.sndbuf hs.left then tcp.sndbuf else hs.left) % u16_mod in
    elim (Bool-cases tcp.write_ok) [
      | inr e ↦ rw e r
      | inl e ↦ rw e record {
        rest =
            append_assoc hs.output (take len hs.file) (drop len hs.file)
            ∙ ap (λ b. hs.output ++ b) (take-drop len hs.file)
            ∙ r.rest;
        left_known = omega (arith, length-drop len hs.file, r.left_known);
        not_closed = r.not_closed;
      }
    ]

send_data-left :
    (tcp : Tcp) (hs : HttpState)
    → takes_bytes tcp ≡ true
    → tcp.sndbuf < u16_mod
    → 0 < hs.left
    → (send_data tcp hs).left < hs.left
unfolding send_data takes_bytes
send_data-left tcp hs good small more = ground arith

send_data-left_le : (tcp : Tcp) (hs : HttpState) → (send_data tcp hs).left ≤ hs.left
unfolding send_data
send_data-left_le tcp hs = ground arith

no_bytes : (xs : List ℕ) → length xs ≡ 0 → xs ≡ []
no_bytes [] h = refl
no_bytes (x ∷ xs) h = absurd (omega arith)

closed-sends :
    (tcps : List Tcp) (resetpage : ℕ) (hs : HttpState)
    → hs.closed ≡ true
    → sends tcps resetpage hs ≡ hs
unfolding sends
closed-sends [] resetpage hs h = refl
closed-sends (tcp ∷ tcps) resetpage hs h = rw h refl

last_call :
    (whole : List ℕ) (tcp : Tcp) (hs : HttpState)
    → IsSending whole hs
    → hs.left ≡ 0
    → (http_sent tcp 0 hs ≡ close_conn hs) × (hs.output ≡ whole)
unfolding http_sent
last_call whole tcp hs r none_left =
    let e : ltb 0 hs.left ≡ false = ground arith in
    (
      rw (http_sent, e) refl,
      sym (append-nil hs.output)
          ∙ ap (λ b. hs.output ++ b) (sym (no_bytes hs.file (omega (arith, r.left_known))))
          ∙ r.rest,
    )

sends-open :
    (tcp : Tcp) (tcps : List Tcp) (hs : HttpState)
    → hs.closed ≡ false
    → sends (tcp ∷ tcps) 0 hs ≡ sends tcps 0 (http_sent tcp 0 hs)
unfolding sends
sends-open tcp tcps hs h = rw h refl

http_sent-send_data :
    (tcp : Tcp) (hs : HttpState) → ltb 0 hs.left ≡ true → http_sent tcp 0 hs ≡ send_data tcp hs
unfolding http_sent
http_sent-send_data tcp hs e = rw (http_sent, e) refl

enough_after :
    (tcp : Tcp) (tcps : List Tcp) (hs : HttpState)
    → tcp.sndbuf < u16_mod
    → 0 < hs.left
    → hs.left < good_calls (tcp ∷ tcps)
    → (send_data tcp hs).left < good_calls tcps
unfolding good_calls
enough_after tcp tcps hs small more enough =
    let le = send_data-left_le tcp hs in
    elim (Bool-cases (takes_bytes tcp)) [
      | inl e ↦ let less = send_data-left tcp hs e small more in omega (arith, rw e at enough)
      | inr e ↦ omega (arith, rw e at enough)
    ]

-- A page goes out whole and the connection is closed then, however small the room in the send
-- buffer is, which has 16 bits, and whichever calls of tcp_write fail, if one more call than the
-- page has bytes finds room and a tcp_write that takes its bytes.
pub sends-delivers :
    (tcps : List Tcp) (whole : List ℕ) (hs : HttpState)
    → IsSending whole hs
    → HaveU16 tcps
    → hs.left < good_calls tcps
    → ((sends tcps 0 hs).output ≡ whole) × ((sends tcps 0 hs).closed ≡ true)
unfolding good_calls HaveU16 close_conn
sends-delivers [] whole hs r small enough = absurd (omega arith)
sends-delivers (tcp ∷ tcps) whole hs r (tcp_small, small) enough =
    let sent = send_data-IsSending whole tcp hs r tcp_small in
    elim (Bool-cases (ltb 0 hs.left)) [
      | inr e ↦
          let (ended, out) = last_call whole tcp hs r (ground arith) in
          let e' =
            sends-open tcp tcps hs r.not_closed
            ∙ ap (sends tcps 0) ended
            ∙ closed-sends tcps 0 (close_conn hs) refl in
          (ap (λ t. t.output) e' ∙ out, ap (λ t. t.closed) e')
      | inl e ↦
          let e' =
            sends-open tcp tcps hs r.not_closed
            ∙ ap (sends tcps 0) (http_sent-send_data tcp hs e) in
          let (out, closed) =
            sends-delivers tcps whole (send_data tcp hs) sent small
              (enough_after tcp tcps hs tcp_small (ground arith) enough) in
          (ap (λ t. t.output) e' ∙ out, ap (λ t. t.closed) e' ∙ closed)
    ]
