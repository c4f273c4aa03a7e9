-- ===== src/Tftp/Update.antt =====
-- The download: tftp_recv_callback, tftp_firmware_update_init, tftp_firmware_download_finish and
-- tftp_firmware_update of tftp_client.c.
use arm_ucos_proxy.Base.{
  ℕ, ◌+◌, ◌-◌, ◌*◌, ◌/◌, ◌%◌, Bool, true, false, not, ◌&&◌, ◌||◌, List, [], ◌∷◌, length, drop,
  get_or, ltb, leb, ◌==◌, if◌then◌else◌,
}
use arm_ucos_proxy.Base.Outcome.{Outcome, done, fault, and_then, Status, ok, err}
use arm_ucos_proxy.Base.Bytes.{overwrite}
use arm_ucos_proxy.Tftp.State.{
  tftp_data, tftp_error, oack, opcode_value, err_illegalop, err_uknown_transfer_id, wellknown_port,
  block_size, module_board_type, update_succeed, update_failed, u32_mod, Datagram, TftpControl,
  Client, UpdateConfig, Firmware,
}
use arm_ucos_proxy.Tftp.Packet.{
  codes, tftp_send_ack_packet, tftp_send_error_packet, tftp_send_readfile_request,
}
use arm_ucos_proxy.Tftp.Image.{tftp_handle_data}

-- The bytes that mymalloc gives the frame buffer.
abbrev pub frame_buffer_size : ℕ
frame_buffer_size = block_size * 2

-- The datagram is copied into the frame buffer without a test of its length.
unfoldable pub tftp_recv_callback : Datagram → Client → Outcome Client
tftp_recv_callback d s =
    let m = record (s.manager) {
      frame_buffer = overwrite d.payload s.manager.frame_buffer;
      recv_len = length d.payload;
      recv_port = d.port;
    } in
    if leb (length d.payload) frame_buffer_size then done (record s { manager = m }) else fault

-- A wait for recv_sem: what arrives before OSSemSet clears it, and what arrives until the task
-- runs again. With no reply OSSemPend times out after five seconds.
pub record Wait : Type 0 where
  pub early : List Datagram
  pub reply : List Datagram

unfoldable pub receive_all : List Datagram → Client → Outcome Client
receive_all [] s = done s
receive_all (d ∷ ds) s = and_then (tftp_recv_callback d s) λ s'. receive_all ds s'

-- One turn of the loop ends in another turn, in a return, or in a read behind the frame buffer.
pub data Verdict : Type 0 where
  continue : Verdict
  overrun : Verdict
  return : Status → Verdict

-- A u16 of the frame in network order.
abbrev pub frame_word : ℕ → TftpControl → ℕ
frame_word o m = get_or m.frame_buffer o 0 * 256 + get_or m.frame_buffer (o + 1) 0

-- What the loop does with the verdict.
abbrev pub next_turn :
    (Bool → Client → Outcome (Status × Client))
    → Verdict × Bool × Client
    → Outcome (Status × Client)
next_turn k (continue, c, s) = k c s
next_turn k (overrun, c, s) = fault
next_turn k (return st, c, s) = done (st, s)

-- Whether a text in a buffer ends there.
unfoldable pub has_zero : List ℕ → Bool
has_zero [] = false
has_zero (b ∷ bs) = b == 0 || has_zero bs

module _ (fw : Firmware) where
  open fw use {board_type, checksum, program_type, user_code_addr}

  unfoldable pub tftp_firmware_update_init : Client → Client
  tftp_firmware_update_init s = record s {
    manager = record (s.manager) {
      server_port = wellknown_port;
      prev_block = 0;
      cur_block = 0;
      flash_addr = user_code_addr;
      check_sum = 0;
      file_len = 0;
    };
    erases = s.erases + 1;
  }

  unfoldable pub tftp_firmware_download_finish : Client → Status × Client
  tftp_firmware_download_finish s =
      let m = s.manager in
      let cfg : UpdateConfig = record {
        update_spiflash_checksum = m.check_sum;
        update_start_address = user_code_addr;
        update_size = m.file_len;
        need_update_flag = 1;
        boot_just_update_flag = 0;
      } in
      if not (board_type m.update_filehead == module_board_type)
      then (err, s)
      else if not (checksum m.update_filehead == m.check_sum)
      then (err, s)
      else if not (program_type m.update_filehead == 1)
      then (err, s)
      else (
        ok,
        record s {
          update_cfg = cfg;
          saved_cfg = cfg ∷ s.saved_cfg;
          update_ssi_status = update_succeed;
          resets = s.resets + 1;
        },
      )

  -- The end of the DATA case, once the block is stored: acknowledge it, and finish after a block
  -- that is not full.
  unfoldable pub acknowledge_block : ℕ → Client → Verdict × Client
  acknowledge_block len s =
      let acked = (tftp_send_ack_packet fw s.manager.cur_block s).1 in
      let (st, finished) = tftp_firmware_download_finish acked in
      if ltb len block_size then (return st, finished) else (continue, acked)

  -- `case TFTP_DATA`, with the length behind the operation code.
  unfoldable pub data_packet : ℕ → Client → Verdict × Client
  data_packet rest s =
      let len = rest - 2 in
      let cur = frame_word 2 s.manager in
      let prev = s.manager.prev_block in
      let seen = record s { manager = record (s.manager) { cur_block = cur } } in
      let next = record s { manager = record (s.manager) { cur_block = cur; prev_block = cur } } in
      let (st, stored) = tftp_handle_data fw (drop 4 s.manager.frame_buffer) len next in
      if ltb rest 2
      then (return err, s)
      else if cur == 0 || ltb (prev + 1) cur
      then (return err, seen)
      else if leb cur prev
      then (continue, (tftp_send_ack_packet fw cur seen).1)
      else if ltb 0 len && leb len block_size
      then elim st [ ok ↦ acknowledge_block len stored | err ↦ (return err, stored) ]
      else (return err, next)

  -- The `switch` on the operation code. The text of an error is printed up to its zero.
  unfoldable pub dispatch : Client → Verdict × Client
  dispatch s =
      let proto = frame_word 0 s.manager in
      let len = s.manager.recv_len in
      if ltb len 2
      then (return err, s)
      else if proto == opcode_value tftp_data
      then data_packet (len - 2) s
      else if proto == opcode_value tftp_error
      then (if has_zero (drop 4 s.manager.frame_buffer) then (return err, s) else (overrun, s))
      else if proto == opcode_value oack
      then (continue, (tftp_send_ack_packet fw 0 s).1)
      else (return err, (tftp_send_error_packet fw err_illegalop (codes "Illegal operation") s).1)

  -- A turn of the loop from the received frame on. The first strange port is the server's own
  -- transfer port; later ones are refused.
  unfoldable pub handle_frame : Bool → Client → Verdict × Bool × Client
  handle_frame change_flag s =
      let strange = not (s.manager.recv_port == s.manager.server_port) in
      let moved = record s { manager = record (s.manager) { server_port = s.manager.recv_port } } in
      let refused = (tftp_send_error_packet fw err_uknown_transfer_id (codes "Unknown TID") s).1 in
      if not change_flag && strange
      then (let (v, s') = dispatch moved in (v, true, s'))
      else if change_flag && strange
      then (return err, change_flag, refused)
      else (let (v, s') = dispatch s in (v, change_flag, s'))

  -- The loop. After the waits that are listed the server is silent.
  unfoldable pub update_loop : List Wait → Bool → Client → Outcome (Status × Client)
  update_loop [] change_flag s = done (err, s)
  update_loop (w ∷ ws) change_flag s = and_then (receive_all w.early s) λ s₁.
      and_then (receive_all w.reply s₁) λ s₂.
        if leb (length w.reply) 0
        then done (err, s₂)
        else next_turn (λ c s'. update_loop ws c s') (handle_frame change_flag s₂)

  unfoldable pub tftp_firmware_update : List Wait → Client → Outcome (Status × Client)
  tftp_firmware_update ws s =
      let ready = tftp_firmware_update_init s in
      and_then (tftp_send_readfile_request fw ready.update_filename ready)
        λ r. update_loop ws false r.1

  -- A turn of user_tftp_client_thread, once start_sem is posted.
  unfoldable pub client_thread_turn : List Wait → Client → Outcome Client
  client_thread_turn ws s = and_then (tftp_firmware_update ws s) λ r. elim r.0 [
    | err ↦ done (record (r.1) { update_filename = []; update_ssi_status = update_failed })
    | ok ↦ done r.1
  ]

-- The progress in percent; the division by a total of 0 faults.
unfoldable pub tftp_get_progress_percent : TftpControl → Outcome ℕ
tftp_get_progress_percent m =
    if m.total_file_len == 0 then fault else done (m.file_len * 100 % u32_mod / m.total_file_len)
