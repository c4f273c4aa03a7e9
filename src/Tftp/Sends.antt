-- ===== src/Tftp/Sends.antt =====
-- What sending a packet leaves alone, and the bytes that are sent.
use arm_ucos_proxy.Base.{
  ℕ, ◌+◌, ◌/◌, ◌%◌, ◌≤◌, ◌≡◌, refl, List, [], ◌∷◌, ◌++◌, length, length-append, length-take,
  length-drop, length-set, set, take, drop, arith,
}
use arm_ucos_proxy.Tftp.State.{ack, Client, Firmware}
use arm_ucos_proxy.Tftp.Packet.{
  codes, write_at, tftp_set_opcode, tftp_set_block, tftp_sendto, tftp_send_ack_packet,
  tftp_send_error_packet, read_request,
}

-- Only the frame buffer and the log of sent datagrams differ.
pub record IsSent (s s' : Client) : Type 0 where
  pub server_port : s'.manager.server_port ≡ s.manager.server_port
  pub prev_block : s'.manager.prev_block ≡ s.manager.prev_block
  pub cur_block : s'.manager.cur_block ≡ s.manager.cur_block
  pub flash_addr : s'.manager.flash_addr ≡ s.manager.flash_addr
  pub check_sum : s'.manager.check_sum ≡ s.manager.check_sum
  pub file_len : s'.manager.file_len ≡ s.manager.file_len
  pub update_filehead : s'.manager.update_filehead ≡ s.manager.update_filehead
  pub flash : s'.flash ≡ s.flash
  pub saved_cfg : s'.saved_cfg ≡ s.saved_cfg
  pub resets : s'.resets ≡ s.resets
  pub status : s'.update_ssi_status ≡ s.update_ssi_status

module _ (fw : Firmware) where
  pub tftp_send_ack_packet-IsSent :
      (block : ℕ) (s : Client) → IsSent s (tftp_send_ack_packet fw block s).1
  unfolding tftp_send_ack_packet tftp_sendto
  tftp_send_ack_packet-IsSent block s = ground arith

  pub tftp_send_error_packet-IsSent :
      (code : ℕ) (text : List ℕ) (s : Client) → IsSent s (tftp_send_error_packet fw code text s).1
  unfolding tftp_send_error_packet tftp_sendto
  tftp_send_error_packet-IsSent code text s = ground arith

  pub read_request-IsSent : (name : List ℕ) (s : Client) → IsSent s (read_request fw name s).1
  unfolding read_request tftp_sendto
  read_request-IsSent name s = ground arith

-- The four bytes of an acknowledgement, over any frame buffer that holds them.
pub ack_bytes :
    (buf : List ℕ) (block : ℕ)
    → 4 ≤ length buf
    → take 4 (tftp_set_block (tftp_set_opcode buf ack) block)
      ≡ 0 ∷ 4 ∷ block / 256 % 256 ∷ block % 256 ∷ []
unfolding tftp_set_block tftp_set_opcode
ack_bytes [] block h = absurd (omega arith)
ack_bytes (a ∷ []) block h = absurd (omega arith)
ack_bytes (a ∷ b ∷ []) block h = absurd (omega arith)
ack_bytes (a ∷ b ∷ c ∷ []) block h = absurd (omega arith)
ack_bytes (a ∷ b ∷ c ∷ d ∷ buf) block h = refl

module _ (fw : Firmware) where
  -- An acknowledgement keeps the size of the frame buffer.
  pub tftp_send_ack_packet-buffer :
      (block : ℕ) (s : Client)
      → length (tftp_send_ack_packet fw block s).1.manager.frame_buffer
        ≡ length s.manager.frame_buffer
  unfolding tftp_send_ack_packet tftp_sendto tftp_set_block tftp_set_opcode
  tftp_send_ack_packet-buffer block s = ground (arith, sizes s.manager.frame_buffer (block % 65536))
    where
      sizes :
          (buf : List ℕ) (n : ℕ)
          → length (set (set (set (set buf 0 0) 1 4) 2 (n / 256 % 256)) 3 (n % 256)) ≡ length buf
      sizes buf n = simp length-set

-- A copy that fits keeps the size of the buffer.
pub length-write_at :
    (buf : List ℕ) (o : ℕ) (src : List ℕ)
    → o + length src ≤ length buf
    → length (write_at buf o src) ≡ length buf
length-write_at buf o src h = omega (
  arith,
  length-append (take o buf) (src ++ drop (o + length src) buf),
  length-append src (drop (o + length src) buf),
  length-take o buf,
  length-drop (o + length src) buf,
)

-- A read request for a file name of at most 480 bytes keeps the size of the frame buffer.
pub read_request-buffer :
    (fw : Firmware) (name : List ℕ) (s : Client)
    → length name ≤ 480
    → length s.manager.frame_buffer ≡ 512
    → length (read_request fw name s).1.manager.frame_buffer ≡ 512
unfolding read_request tftp_sendto tftp_set_opcode
read_request-buffer fw name s hn hb =
    let op = set (set s.manager.frame_buffer 0 0) 1 1 in
    let op_size : length op ≡ 512 = simp length-set hb in
    let text = name ++ 0 ∷ [] in
    let text_size : length text ≡ length name + 1 = length-append name (0 ∷ []) in
    let named = write_at op 2 text in
    let named_size = length-write_at op 2 text (omega arith) in
    let moded = write_at named (2 + (length name + 1)) (codes "octet" ++ 0 ∷ []) in
    let moded_size =
      length-write_at named (2 + (length name + 1)) (codes "octet" ++ 0 ∷ []) (omega arith) in
    let option = codes "blksize" ++ 0 ∷ (codes "256" ++ 0 ∷ 0 ∷ []) in
    let all_size = length-write_at moded (2 + (length name + 1) + 6) option (omega arith) in
    ground arith
