-- ===== src/Tftp/Packet.antt =====
-- The packets that the client sends: tftp_sendto, tftp_set_opcode, tftp_set_block,
-- tftp_send_ack_packet, tftp_send_error_packet and tftp_send_readfile_request of tftp_client.c.
use Prim.Native.String.{String}
use Prim.Native.Char.{code}
use arm_ucos_proxy.Base.{
  ℕ, ◌+◌, ◌/◌, ◌%◌, List, [], ◌∷◌, ◌++◌, length, set, take, drop, if◌then◌else◌, leb,
}
use arm_ucos_proxy.Base.Outcome.{Outcome, done, fault}
use arm_ucos_proxy.Tftp.State.{
  Opcode, rrq, ack, tftp_error, opcode_value, Datagram, ErrT, err_mem, Client, Firmware,
}

-- The bytes of a C string literal, without its terminating zero.
abbrev pub codes : String → List ℕ
codes String.[] = []
codes (String.◌∷◌ c s) = code c ∷ codes s

-- A copy of bytes to an offset of a buffer that has room for them.
abbrev pub write_at : List ℕ → ℕ → List ℕ → List ℕ
write_at buf o src = take o buf ++ (src ++ drop (o + length src) buf)

-- htons and a store, on a little-endian target: the high byte comes first.
unfoldable pub tftp_set_opcode : List ℕ → Opcode → List ℕ
tftp_set_opcode buf op = set (set buf 0 (opcode_value op / 256 % 256)) 1 (opcode_value op % 256)

unfoldable pub tftp_set_block : List ℕ → ℕ → List ℕ
tftp_set_block buf block = set (set buf 2 (block / 256 % 256)) 3 (block % 256)

abbrev pub set_frame : List ℕ → Client → Client
set_frame buf s = record s { manager = record (s.manager) { frame_buffer = buf } }

module _ (fw : Firmware) where
  open fw use {pbuf_alloc, udp_sendto}

  -- tftp_sendto for the client's own socket and server: without a pbuf nothing is sent.
  unfoldable pub tftp_sendto : List ℕ → ℕ → Client → ErrT × Client
  tftp_sendto buf port s =
      let d : Datagram = record { port = port; payload = buf } in
      if pbuf_alloc s.sent (length buf)
      then (udp_sendto s.sent d, record s { sent = d ∷ s.sent })
      else (err_mem, s)

  unfoldable pub tftp_send_ack_packet : ℕ → Client → ErrT × Client
  tftp_send_ack_packet block s =
      let buf = tftp_set_block (tftp_set_opcode s.manager.frame_buffer ack) (block % 65536) in
      tftp_sendto (take 4 buf) s.manager.server_port (set_frame buf s)

  unfoldable pub tftp_send_error_packet : ℕ → List ℕ → Client → ErrT × Client
  tftp_send_error_packet err_code err_str s =
      let op = tftp_set_opcode s.manager.frame_buffer tftp_error in
      let buf = write_at (set (set op 2 0) 3 (err_code % 256)) 4 (err_str ++ 0 ∷ []) in
      tftp_sendto (take (length err_str + 5) buf) s.manager.server_port (set_frame buf s)

  -- The file name, the mode and the option `blksize`, each ended by a zero; sprintf returns 12
  -- and writes one zero more. The buffer has room for it all.
  unfoldable pub read_request : List ℕ → Client → ErrT × Client
  read_request name s =
      let op = tftp_set_opcode s.manager.frame_buffer rrq in
      let named = write_at op 2 (name ++ 0 ∷ []) in
      let at_mode = 2 + (length name + 1) in
      let moded = write_at named at_mode (codes "octet" ++ 0 ∷ []) in
      let at_option = at_mode + 6 in
      let buf = write_at moded at_option (codes "blksize" ++ 0 ∷ (codes "256" ++ 0 ∷ 0 ∷ [])) in
      tftp_sendto (take (at_option + 12) buf) s.manager.server_port (set_frame buf s)

  -- The copies are made without a test of the length: a name that does not fit overruns the buffer.
  unfoldable pub tftp_send_readfile_request : List ℕ → Client → Outcome (ErrT × Client)
  tftp_send_readfile_request name s =
      if leb (length name + 22) (length s.manager.frame_buffer)
      then done (read_request name s)
      else fault
