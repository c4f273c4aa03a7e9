-- ===== src/Tftp/Buffer.antt =====
-- Copies into the frame buffer of the TFTP client: what they leave of its end, and the read request.
use arm_ucos_proxy.Base.{
  ℕ, zero, suc, ◌+◌, ◌-◌, ◌/◌, ◌%◌, ◌≤◌, ◌<◌, ◌≡◌, refl, sym, ap, ◌∙◌, true, List, [], ◌∷◌, ◌++◌,
  length, length-append, length-take, take, drop, set, length-set, take-append, arith,
}
use arm_ucos_proxy.Base.Bytes.{overwrite}
use arm_ucos_proxy.Tftp.State.{Datagram, Client, Firmware}
use arm_ucos_proxy.Tftp.Packet.{
  codes, write_at, set_frame, tftp_set_opcode, tftp_set_block, tftp_sendto, tftp_send_ack_packet,
  read_request,
}
use arm_ucos_proxy.Tftp.Update.{has_zero}
use arm_ucos_proxy.Tftp.Sends.{length-write_at}

module _ {A : Type 0} where
  drop_nil : (k : ℕ) → drop {A = A} k [] ≡ []
  drop_nil zero = refl
  drop_nil (suc k) = refl

  pub drop-drop : (m n : ℕ) (xs : List A) → drop m (drop n xs) ≡ drop (n + m) xs
  drop-drop m zero xs = let e : m ≡ 0 + m = omega arith in ap (λ k. drop k xs) e
  drop-drop m (suc n) [] = drop_nil m ∙ sym (drop_nil (suc n + m))
  drop-drop m (suc n) (x ∷ xs) =
      let e : suc (n + m) ≡ suc n + m = omega arith in
      drop-drop m n xs ∙ ap (λ k. drop k (x ∷ xs)) e

  drop-append_ge :
      (n : ℕ) (xs ys : List A) → length xs ≤ n → drop n (xs ++ ys) ≡ drop (n - length xs) ys
  drop-append_ge n [] ys h = let e : n ≡ n - 0 = omega arith in ap (λ k. drop k ys) e
  drop-append_ge zero (x ∷ xs) ys h = absurd (omega arith)
  drop-append_ge (suc n) (x ∷ xs) ys h =
      let e : n - length xs ≡ suc n - suc (length xs) = omega arith in
      drop-append_ge n xs ys (omega arith) ∙ ap (λ k. drop k ys) e

  pub drop-set_lt : (n i : ℕ) (xs : List A) (v : A) → i < n → drop n (set xs i v) ≡ drop n xs
  drop-set_lt n i [] v h = refl
  drop-set_lt zero i (x ∷ xs) v h = absurd (omega arith)
  drop-set_lt (suc n) zero (x ∷ xs) v h = refl
  drop-set_lt (suc n) (suc i) (x ∷ xs) v h = drop-set_lt n i xs v (omega arith)

  take-past :
      (o k : ℕ) (xs ys : List A)
      → o ≤ length xs
      → take (o + k) (take o xs ++ ys) ≡ take o xs ++ take k ys
  take-past zero k xs ys h = let e : 0 + k ≡ k = omega arith in ap (λ j. take j ys) e
  take-past (suc o) k [] ys h = absurd (omega arith)
  take-past (suc o) k (x ∷ xs) ys h =
      let e : suc o + k ≡ suc (o + k) = omega arith in
      ap (λ j. take j (x ∷ (take o xs ++ ys))) e
      ∙ ap (λ l. x ∷ l) (take-past o k xs ys (omega arith))

-- A copy in front of a place keeps what is behind the place.
pub drop-write_at :
    (n o : ℕ) (buf src : List ℕ)
    → o ≤ length buf
    → o + length src ≤ n
    → drop n (write_at buf o src) ≡ drop n buf
drop-write_at n o buf src h fits =
    let front : length (take o buf) ≡ o = omega (arith, length-take o buf) in
    let e : o + length src + (n - o - length src) ≡ n = omega arith in
    drop-append_ge n (take o buf) (src ++ drop (o + length src) buf) (omega (arith, front))
    ∙ ap (λ k. drop (n - k) (src ++ drop (o + length src) buf)) front
    ∙ drop-append_ge (n - o) src (drop (o + length src) buf) (omega arith)
    ∙ drop-drop (n - o - length src) (o + length src) buf
    ∙ ap (λ k. drop k buf) e

pub drop-overwrite :
    (n : ℕ) (buf src : List ℕ) → length src ≤ n → drop n (overwrite src buf) ≡ drop n buf
drop-overwrite n buf src fits =
    let e : length src + (n - length src) ≡ n = omega arith in
    drop-append_ge n src (drop (length src) buf) fits
    ∙ drop-drop (n - length src) (length src) buf
    ∙ ap (λ k. drop k buf) e

pub has_zero-drop : (k : ℕ) (xs : List ℕ) → drop k xs ≡ 0 ∷ [] → has_zero xs ≡ true
unfolding has_zero
has_zero-drop zero xs e = rw e refl
has_zero-drop (suc k) [] e =
    let size : 0 ≡ 1 = ap (λ (l : List ℕ). length l) e in absurd (omega (arith, size))
has_zero-drop (suc k) (x ∷ xs) e = let rest = has_zero-drop k xs e in ground arith

-- The last byte of the buffer, which every text in it ends at if it is 0.
abbrev pub last_byte : Client → List ℕ
last_byte s = drop 511 s.manager.frame_buffer

abbrev pub datagram : ℕ → List ℕ → Datagram
datagram port bytes = record { port = port; payload = bytes }

module _ (fw : Firmware) where
  tftp_sendto-manager :
      (buf : List ℕ) (port : ℕ) (s : Client) → (tftp_sendto fw buf port s).1.manager ≡ s.manager
  unfolding tftp_sendto
  tftp_sendto-manager buf port s = ground arith

  tftp_sendto-sent :
      (buf : List ℕ) (port : ℕ) (s : Client)
      → fw.pbuf_alloc s.sent (length buf) ≡ true
      → (tftp_sendto fw buf port s).1.sent ≡ datagram port buf ∷ s.sent
  unfolding tftp_sendto
  tftp_sendto-sent buf port s room = rw room refl

  pub tftp_send_ack_packet-last_byte :
      (block : ℕ) (s : Client) → last_byte (tftp_send_ack_packet fw block s).1 ≡ last_byte s
  unfolding tftp_send_ack_packet tftp_set_block tftp_set_opcode
  tftp_send_ack_packet-last_byte block s =
      let n = block % 65536 in
      let op = set (set s.manager.frame_buffer 0 0) 1 4 in
      let buf = set (set op 2 (n / 256 % 256)) 3 (n % 256) in
      ap (λ m. drop 511 m.frame_buffer) (tftp_sendto-manager _ _ (set_frame buf s))
      ∙ drop-set_lt 511 3 (set op 2 (n / 256 % 256)) (n % 256) (omega arith)
      ∙ drop-set_lt 511 2 op (n / 256 % 256) (omega arith)
      ∙ drop-set_lt 511 1 (set s.manager.frame_buffer 0 0) 4 (omega arith)
      ∙ drop-set_lt 511 0 s.manager.frame_buffer 0 (omega arith)

-- A read request for a name that fits keeps the buffer's last byte.
pub read_request-last_byte :
    (fw : Firmware) (name : List ℕ) (s : Client)
    → length name ≤ 480
    → length s.manager.frame_buffer ≡ 512
    → last_byte (read_request fw name s).1 ≡ last_byte s
unfolding read_request tftp_set_opcode
read_request-last_byte fw name s hn hb =
    let op = set (set s.manager.frame_buffer 0 0) 1 1 in
    let op_size : length op ≡ 512 = simp length-set hb in
    let text = name ++ 0 ∷ [] in
    let text_size : length text ≡ length name + 1 = length-append name (0 ∷ []) in
    let mode = codes "octet" ++ 0 ∷ [] in
    let option = codes "blksize" ++ 0 ∷ (codes "256" ++ 0 ∷ 0 ∷ []) in
    let named = write_at op 2 text in
    let named_size = length-write_at op 2 text (omega arith) in
    let at_mode = 2 + (length name + 1) in
    let moded = write_at named at_mode mode in
    let moded_size = length-write_at named at_mode mode (omega arith) in
    let buf = write_at moded (at_mode + 6) option in
    let kept : drop 511 buf ≡ drop 511 s.manager.frame_buffer =
      drop-write_at 511 (at_mode + 6) moded option (omega arith) (omega arith)
      ∙ drop-write_at 511 at_mode named mode (omega arith) (omega arith)
      ∙ drop-write_at 511 2 op text (omega arith) (omega arith)
      ∙ drop-set_lt 511 1 (set s.manager.frame_buffer 0 0) 1 (omega arith)
      ∙ drop-set_lt 511 0 s.manager.frame_buffer 0 (omega arith) in
    ap (λ m. drop 511 m.frame_buffer) (tftp_sendto-manager fw _ _ (set_frame buf s)) ∙ kept

-- The bytes of a read request, as RFC 1350 and RFC 2348 lay them out: the name, the mode and the
-- option, each ended by a zero.
abbrev pub request_bytes : List ℕ → List ℕ
request_bytes name =
    0 ∷ 1 ∷ (name ++ 0 ∷ [])
    ++ (codes "octet" ++ 0 ∷ [])
    ++ (codes "blksize" ++ 0 ∷ (codes "256" ++ 0 ∷ []))

opcode_bytes : (buf : List ℕ) → 2 ≤ length buf → take 2 (set (set buf 0 0) 1 1) ≡ 0 ∷ 1 ∷ []
opcode_bytes [] h = absurd (omega arith)
opcode_bytes (a ∷ []) h = absurd (omega arith)
opcode_bytes (a ∷ b ∷ buf) h = refl

-- A read request for a name that fits sends its bytes to the server's port, or nothing.
pub read_request_sends :
    (fw : Firmware) (name : List ℕ) (s : Client)
    → length name ≤ 480
    → length s.manager.frame_buffer ≡ 512
    → let bytes = request_bytes name in
      fw.pbuf_alloc s.sent (length bytes) ≡ true
      → (read_request fw name s).1.sent ≡ datagram s.manager.server_port bytes ∷ s.sent
unfolding read_request tftp_set_opcode
read_request_sends fw name s hn hb room =
    let op = set (set s.manager.frame_buffer 0 0) 1 1 in
    let op_size : length op ≡ 512 = simp length-set hb in
    let text = name ++ 0 ∷ [] in
    let text_size : length text ≡ length name + 1 = length-append name (0 ∷ []) in
    let mode = codes "octet" ++ 0 ∷ [] in
    let option = codes "blksize" ++ 0 ∷ (codes "256" ++ 0 ∷ 0 ∷ []) in
    let named = write_at op 2 text in
    let named_size = length-write_at op 2 text (omega arith) in
    let at_mode = 2 + (length name + 1) in
    let moded = write_at named at_mode mode in
    let moded_size = length-write_at named at_mode mode (omega arith) in
    let first : take at_mode named ≡ 0 ∷ 1 ∷ text =
      take-past 2 (length name + 1) op (text ++ drop (2 + length text) op) (omega arith)
      ∙ ap (λ k. take 2 op ++ take k (text ++ drop (2 + length text) op)) (sym text_size)
      ∙ ap (λ t. take 2 op ++ t) (take-append text (drop (2 + length text) op))
      ∙ ap (λ t. t ++ text) (opcode_bytes s.manager.frame_buffer (omega arith)) in
    let second : take (at_mode + 6) moded ≡ 0 ∷ 1 ∷ (text ++ mode) =
      take-past at_mode 6 named (mode ++ drop (at_mode + 6) named) (omega arith)
      ∙ ap (λ t. t ++ mode) first in
    let whole : take (at_mode + 6 + 12) (write_at moded (at_mode + 6) option) ≡ request_bytes name =
      take-past (at_mode + 6) 12 moded (option ++ drop (at_mode + 6 + 13) moded) (omega arith)
      ∙ ap (λ t. t ++ (codes "blksize" ++ 0 ∷ (codes "256" ++ 0 ∷ []))) second in
    let buf = write_at moded (at_mode + 6) option in
    tftp_sendto-sent fw (take (at_mode + 6 + 12) buf) s.manager.server_port (set_frame buf s)
      (ap (λ b. fw.pbuf_alloc s.sent (length b)) whole ∙ room)
    ∙ ap (λ b. datagram s.manager.server_port b ∷ s.sent) whole
