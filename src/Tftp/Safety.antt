-- ===== src/Tftp/Safety.antt =====
-- Only an image whose head matches is installed.
use arm_ucos_proxy.Base.{
  ℕ, ◌+◌, ◌-◌, drop, length, leb, ◌≤◌, ◌≡◌, refl, ◌∙◌, Bool, true, false, if◌then◌else◌, List, [],
  ◌∷◌, arith,
}
use arm_ucos_proxy.Base.Bytes.{overwrite}
use arm_ucos_proxy.Base.Outcome.{Outcome, done, and_then, Status, ok, err}
use arm_ucos_proxy.Tftp.State.{
  err_illegalop, err_uknown_transfer_id, module_board_type, Datagram, Client, Firmware,
}
use arm_ucos_proxy.Tftp.Image.{sum_block, tftp_handle_data}
use arm_ucos_proxy.Tftp.Packet.{codes, read_request, tftp_send_readfile_request}
use arm_ucos_proxy.Tftp.Buffer.{
  last_byte, drop-drop, drop-overwrite, has_zero-drop, tftp_send_ack_packet-last_byte,
  read_request-last_byte,
}
use arm_ucos_proxy.Tftp.Update.{
  frame_word, frame_buffer_size, next_turn, tftp_firmware_update_init, Verdict, continue, overrun,
  return, has_zero, Wait, tftp_recv_callback, receive_all, tftp_firmware_download_finish,
  acknowledge_block, data_packet, dispatch, handle_frame, update_loop, tftp_firmware_update,
}
use arm_ucos_proxy.Tftp.Sends.{
  tftp_send_ack_packet-IsSent, tftp_send_error_packet-IsSent, read_request-IsSent,
}

-- The frame buffer ends with a zero.
unfoldable pub IsTerminated : Client → Type 0
IsTerminated s = last_byte s ≡ 0 ∷ []

IsTerminated-after : (s t : Client) → last_byte t ≡ last_byte s → IsTerminated s → IsTerminated t
unfolding IsTerminated
IsTerminated-after s t kept z = kept ∙ z

IsTerminated-has_zero :
    (s : Client) → IsTerminated s → has_zero (drop 4 s.manager.frame_buffer) ≡ true
unfolding IsTerminated
IsTerminated-has_zero s z =
    has_zero-drop 507 (drop 4 s.manager.frame_buffer) (drop-drop 507 4 s.manager.frame_buffer ∙ z)

name_fits : (n m : ℕ) → n ≤ 480 → m ≡ 512 → leb (n + 22) m ≡ true
name_fits n m h e = ground arith

-- Neither a configuration was saved nor the board reset.
pub record IsIdle (s s' : Client) : Type 0 where
  pub saved_cfg : s'.saved_cfg ≡ s.saved_cfg
  pub resets : s'.resets ≡ s.resets

module _ (fw : Firmware) where
  open fw use {board_type, checksum, program_type, flash_limit, user_code_addr}

  -- The image was verified, its size is within the limit, and it was handed to the boot loader.
  pub record IsInstalled (s s' : Client) : Type 0 where
    pub board : board_type s'.manager.update_filehead ≡ module_board_type
    pub sums : checksum s'.manager.update_filehead ≡ s'.manager.check_sum
    pub program : program_type s'.manager.update_filehead ≡ 1
    pub within : s'.manager.file_len ≤ flash_limit
    pub size : s'.update_cfg.update_size ≡ s'.manager.file_len
    pub start : s'.update_cfg.update_start_address ≡ user_code_addr
    pub sum : s'.update_cfg.update_spiflash_checksum ≡ s'.manager.check_sum
    pub flag : s'.update_cfg.need_update_flag ≡ 1
    pub saved : s'.saved_cfg ≡ s'.update_cfg ∷ s.saved_cfg
    pub reset : s'.resets ≡ s.resets + 1

  abbrev pub StatusEnds : Client → Status → Client → Type 0
  StatusEnds s ok s' = IsInstalled s s'
  StatusEnds s err s' = IsIdle s s'

  -- No turn reads behind the frame buffer, and one that another follows keeps the buffer's end.
  abbrev pub Ends : Client → Verdict → Client → Type 0
  Ends s continue s' = IsIdle s s' × (last_byte s' ≡ last_byte s)
  Ends s overrun s' = ⊥
  Ends s (return st) s' = StatusEnds s st s'

  tftp_handle_data-IsIdle :
      (p : List ℕ) (len : ℕ) (s : Client)
      → IsIdle s (tftp_handle_data fw p len s).1
        × (last_byte (tftp_handle_data fw p len s).1 ≡ last_byte s)
  unfolding tftp_handle_data sum_block
  tftp_handle_data-IsIdle p len s = ground arith

  tftp_handle_data-within :
      (p : List ℕ) (len : ℕ) (s : Client)
      → (tftp_handle_data fw p len s).0 ≡ ok
      → (tftp_handle_data fw p len s).1.manager.file_len ≤ flash_limit
  unfolding tftp_handle_data sum_block
  tftp_handle_data-within p len s h = ground arith

  finish-Ends :
      (s : Client)
      → s.manager.file_len ≤ flash_limit
      → StatusEnds s (tftp_firmware_download_finish fw s).0 (tftp_firmware_download_finish fw s).1
  unfolding tftp_firmware_download_finish
  finish-Ends s h = ground arith

  acknowledge_block-Ends :
      (len : ℕ) (s : Client)
      → s.manager.file_len ≤ flash_limit
      → Ends s (acknowledge_block fw len s).0 (acknowledge_block fw len s).1
  unfolding acknowledge_block tftp_firmware_download_finish
  acknowledge_block-Ends len s h = ground (
    arith,
    tftp_send_ack_packet-IsSent fw s.manager.cur_block s,
    tftp_send_ack_packet-last_byte fw s.manager.cur_block s,
  )

  data_packet-Ends :
      (rest : ℕ) (s : Client) → Ends s (data_packet fw rest s).0 (data_packet fw rest s).1
  unfolding data_packet
  data_packet-Ends rest s =
      let m = s.manager in
      let cur = frame_word 2 m in
      let next : Client = record s { manager = record m { cur_block = cur; prev_block = cur } } in
      let stored = tftp_handle_data fw (drop 4 m.frame_buffer) (rest - 2) next in
      ground (
        arith,
        acknowledge_block-Ends (rest - 2) stored.1,
        tftp_handle_data-IsIdle (drop 4 m.frame_buffer) (rest - 2) next,
        tftp_handle_data-within (drop 4 m.frame_buffer) (rest - 2) next,
        tftp_send_ack_packet-IsSent fw cur (record s { manager = record m { cur_block = cur } }),
        tftp_send_ack_packet-last_byte fw cur (record s { manager = record m { cur_block = cur } }),
      )

  dispatch-Ends : (s : Client) → IsTerminated s → Ends s (dispatch fw s).0 (dispatch fw s).1
  unfolding dispatch
  dispatch-Ends s z = rw (IsTerminated-has_zero s z) (
      ground (
        arith,
        data_packet-Ends (s.manager.recv_len - 2) s,
        tftp_send_ack_packet-IsSent fw 0 s,
        tftp_send_ack_packet-last_byte fw 0 s,
        tftp_send_error_packet-IsSent fw err_illegalop (codes "Illegal operation") s,
      ))

  handle_frame-Ends :
      (c : Bool) (s : Client)
      → IsTerminated s
      → Ends s (handle_frame fw c s).0 (handle_frame fw c s).2
  unfolding handle_frame
  handle_frame-Ends c s z =
      let moved : Client = record s {
        manager = record (s.manager) { server_port = s.manager.recv_port };
      } in
      ground (
        arith,
        dispatch-Ends s z,
        dispatch-Ends moved (IsTerminated-after s moved refl z),
        tftp_send_error_packet-IsSent fw err_uknown_transfer_id (codes "Unknown TID") s,
      )

-- Every datagram leaves the last byte of the frame buffer alone.
abbrev pub AllFit : List Datagram → Type 0
AllFit [] = Unit
AllFit (d ∷ ds) = (length d.payload ≤ 511) × AllFit ds

abbrev pub WaitsFit : List Wait → Type 0
WaitsFit [] = Unit
WaitsFit (w ∷ ws) = AllFit w.early × AllFit w.reply × WaitsFit ws

receive_all-IsIdle :
    (ds : List Datagram) (s : Client)
    → AllFit ds
    → (s' : Client) × (receive_all ds s ≡ done s') × IsIdle s s' × (last_byte s' ≡ last_byte s)
unfolding receive_all tftp_recv_callback
receive_all-IsIdle [] s h = (s, refl, ground arith, refl)
receive_all-IsIdle (d ∷ ds) s h =
    let m = record (s.manager) {
      frame_buffer = overwrite d.payload s.manager.frame_buffer;
      recv_len = length d.payload;
      recv_port = d.port;
    } in
    let (s', e, i, kept) = receive_all-IsIdle ds (record s { manager = m }) h.1 in
    let fits : leb (length d.payload) frame_buffer_size ≡ true = ground arith in
    (
      s',
      rw (receive_all, tftp_recv_callback, fits) e,
      record { saved_cfg = i.saved_cfg; resets = i.resets },
      kept ∙ drop-overwrite 511 s.manager.frame_buffer d.payload h.0,
    )

module _ (fw : Firmware) where
  abbrev Settles : Client → Outcome (Status × Client) → Type 0
  Settles s r = (st : Status) × (s' : Client) × (r ≡ done (st, s')) × StatusEnds fw s st s'

  StatusEnds-after :
      (s t : Client) (st : Status) (s' : Client)
      → IsIdle s t
      → StatusEnds fw t st s'
      → StatusEnds fw s st s'
  StatusEnds-after s t ok s' h k = ground arith
  StatusEnds-after s t err s' h k = ground arith

  next_turn-Settles :
      (k : Bool → Client → Outcome (Status × Client)) (s : Client) (v : Verdict) (c : Bool)
      (t : Client)
      → Ends fw s v t
      → IsTerminated s
      → ((c' : Bool) (u : Client) → IsTerminated u → Settles u (k c' u))
      → Settles s (next_turn k (v, c, t))
  next_turn-Settles k s continue c t (h, kept) z ks =
      let (st, s', e, q) = ks c t (IsTerminated-after s t kept z) in
      (st, s', e, StatusEnds-after s t st s' h q)
  next_turn-Settles k s overrun c t h z ks = absurd h
  next_turn-Settles k s (return st) c t h z ks = (st, t, refl, h)

  Settles-after :
      (s t : Client) (r : Outcome (Status × Client)) → IsIdle s t → Settles t r → Settles s r
  Settles-after s t r h (st, s', e, q) = (st, s', e, StatusEnds-after s t st s' h q)

  turn :
      (reply : List Datagram) (k : Bool → Client → Outcome (Status × Client)) (c : Bool)
      (s : Client)
      → IsTerminated s
      → ((c' : Bool) (u : Client) → IsTerminated u → Settles u (k c' u))
      → Settles s
          (if leb (length reply) 0 then done (err, s) else next_turn k (handle_frame fw c s))
  turn [] k c s z ks = (err, s, refl, record { saved_cfg = refl; resets = refl })
  turn (d ∷ ds) k c s z ks =
      let test : leb (length (d ∷ ds)) 0 ≡ false = ground arith in
      rw test (next_turn-Settles k s _ _ _ (handle_frame-Ends fw c s z) z ks)

  update_loop-Settles :
      (ws : List Wait) (c : Bool) (s : Client)
      → WaitsFit ws
      → IsTerminated s
      → Settles s (update_loop fw ws c s)
  unfolding update_loop
  update_loop-Settles [] c s h z = (err, s, refl, record { saved_cfg = refl; resets = refl })
  update_loop-Settles (w ∷ ws) c s h z =
      let (s₁, e₁, i₁, k₁) = receive_all-IsIdle w.early s h.0 in
      let (s₂, e₂, i₂, k₂) = receive_all-IsIdle w.reply s₁ h.1 in
      let after : IsIdle s s₂ = record {
        saved_cfg = i₂.saved_cfg ∙ i₁.saved_cfg;
        resets = i₂.resets ∙ i₁.resets;
      } in
      rw (e₁, and_then)
        (rw (e₂, and_then)
          (Settles-after s s₂ _ after (
            turn w.reply _ c s₂ (IsTerminated-after s s₂ (k₂ ∙ k₁) z)
              (λ c' u. update_loop-Settles ws c' u h.2))))

  -- Whatever the server sends in datagrams of at most 511 bytes, a download returns, without a fault,
  -- if the frame buffer of 512 bytes ends with a zero before and the file's name has at most 480
  -- bytes. If it succeeds, the board type, the checksum and the program type of the image's head
  -- match, the received length is within the flash limit, and exactly one configuration, with that
  -- length and checksum, is saved before one reset. If it fails, none is saved and there is no reset.
  pub tftp_firmware_update_installs_verified :
      (ws : List Wait) (s : Client)
      → WaitsFit ws
      → length s.manager.frame_buffer ≡ 512
      → IsTerminated s
      → length s.update_filename ≤ 480
      → (st : Status) × (s' : Client) × (tftp_firmware_update fw ws s ≡ done (st, s'))
        × StatusEnds fw s st s'
  unfolding tftp_firmware_update tftp_firmware_update_init tftp_send_readfile_request
  tftp_firmware_update_installs_verified ws s h size z short =
      let ready = tftp_firmware_update_init fw s in
      let asked = (read_request fw ready.update_filename ready).1 in
      let q = read_request-IsSent fw ready.update_filename ready in
      let fits : leb (length s.update_filename + 22) (length s.manager.frame_buffer) ≡ true =
        name_fits _ _ short size in
      rw fits (
        Settles-after s asked _ (record { saved_cfg = q.saved_cfg; resets = q.resets })
          (update_loop-Settles ws false asked h (
            IsTerminated-after s asked
              (read_request-last_byte fw ready.update_filename ready short size) z)))
