-- ===== src/Tftp/Transfer.antt =====
-- A whole transfer from a server that sends each block once, in order.
use arm_ucos_proxy.Base.{
  ℕ, ◌+◌, ◌*◌, ◌%◌, ◌≤◌, ◌<◌, ◌≡◌, ◌≢◌, inl, refl, sym, ap, ◌∙◌, ◌==◌, Bool, true, false, List, [],
  ◌∷◌, ◌++◌, length, drop, take, length-append, append_assoc, drop_all, leb, arith,
}
use arm_ucos_proxy.Base.Outcome.{done, and_then, ok}
use arm_ucos_proxy.Tftp.State.{
  u32_mod, wellknown_port, module_board_type, PageWrite, Client, Firmware,
}
use arm_ucos_proxy.Tftp.Packet.{read_request, tftp_send_readfile_request}
use arm_ucos_proxy.Tftp.Update.{
  Wait, receive_all, tftp_firmware_update_init, tftp_firmware_download_finish, handle_frame,
  next_turn, update_loop, tftp_firmware_update,
}
use arm_ucos_proxy.Tftp.Sends.{read_request-IsSent, read_request-buffer}
use arm_ucos_proxy.Tftp.Buffer.{request_bytes, datagram, read_request_sends}
use arm_ucos_proxy.Tftp.Checksum.{sum_bytes}
use arm_ucos_proxy.Tftp.Block.{IsReceived, IsReady}
use arm_ucos_proxy.Tftp.Download.{
  data_datagram, arrived, HasPort, receive-data, IsRoom, full_turn, last_turn,
}

-- A file as its full blocks and the last one, which is not full.
abbrev pub flatten : List (List ℕ) → List ℕ → List ℕ
flatten [] last = last
flatten (b ∷ bs) last = b ++ flatten bs last

-- The server's answers: one DATA packet a turn, numbered from n on.
abbrev pub serve : ℕ → ℕ → List (List ℕ) → List ℕ → List Wait
serve port n [] last = record { early = []; reply = data_datagram port n last ∷ [] } ∷ []
serve port n (b ∷ bs) last =
    record { early = []; reply = data_datagram port n b ∷ [] } ∷ serve port (n + 1) bs last

-- Each block but the last has 256 bytes.
abbrev pub AllFull : List (List ℕ) → Type 0
AllFull [] = Unit
AllFull (b ∷ bs) = (length b ≡ 256) × AllFull bs

module _ (fw : Firmware) where
  open fw use {
    head_size, flash_limit, user_code_addr, write_page, board_type, checksum, program_type,
  }

  -- After no full block is the checksum of the bytes so far 0.
  abbrev pub SumsNonzero : List ℕ → List (List ℕ) → Type 0
  SumsNonzero got [] = Unit
  SumsNonzero got (b ∷ bs) =
      (sum_bytes (drop head_size (got ++ b)) % u32_mod ≢ 0) × SumsNonzero (got ++ b) bs

  -- What a transfer of a file needs of the firmware and the file's size.
  pub record IsServable (bs : List (List ℕ)) (last : List ℕ) : Type 0 where
    pub writes : (w : PageWrite) → write_page w ≡ 256
    pub head_fits : head_size ≤ 256
    pub head_whole : head_size ≤ length (flatten bs last)
    pub full : AllFull bs
    pub some_bytes : 1 ≤ length last
    pub short : length last < 256
    pub limit : length (flatten bs last) ≤ flash_limit
    pub small : flash_limit < u32_mod
    pub count : length bs < 65535
    pub room : user_code_addr + 256 * (length bs + 1) < u32_mod
    pub sums : SumsNonzero [] bs

  receive-nothing : (s : Client) → receive_all [] s ≡ done s
  unfolding receive_all
  receive-nothing s = refl

  pub one_wait :
      (port n : ℕ) (b : List ℕ) (ws : List Wait) (c : Bool) (s : Client)
      → length b ≤ 256
      → update_loop fw (record { early = []; reply = data_datagram port n b ∷ [] } ∷ ws) c s
        ≡ next_turn (λ c' s'. update_loop fw ws c' s') (handle_frame fw c (arrived port n b s))
  unfolding update_loop
  one_wait port n b ws c s h =
      rw (receive-nothing s, and_then) (rw (receive-data fw port n b s h, and_then) refl)

  -- From between two blocks on, the rest of the file arrives and the client finishes.
  update_loop-serve :
      (bs : List (List ℕ)) (last got : List ℕ) (port n : ℕ) (c : Bool) (s : Client)
      → IsReady fw got n s
      → HasPort port c s
      → ((w : PageWrite) → write_page w ≡ 256)
      → head_size ≤ 256
      → head_size ≤ length (got ++ flatten bs last)
      → AllFull bs
      → (1 ≤ length last) × (length last < 256)
      → length (got ++ flatten bs last) ≤ flash_limit
      → flash_limit < u32_mod
      → n + length bs < 65535
      → user_code_addr + 256 * (n + length bs + 1) < u32_mod
      → SumsNonzero got bs
      → (s' : Client) × (update_loop fw (serve port (n + 1) bs last) c s
          ≡ done (tftp_firmware_download_finish fw s'))
        × IsReceived fw (got ++ flatten bs last) s'
  update_loop-serve [] last got port n c s r p writes hf hw full size limit small count room sums =
      let fit : IsRoom fw got last n = record {
        some_bytes = size.0;
        at_most = omega arith;
        head = hw;
        limit = limit;
        small = small;
        count = omega arith;
      } in
      let (s', e, received) = last_turn fw port n got last s r fit c p size.1 in
      (s', one_wait port (n + 1) last [] c s (omega arith) ∙ rw e, received)
  update_loop-serve (b ∷ bs) last got port n c s r p writes hf hw full size limit small count room
        sums =
      let fit : IsRoom fw got b n = record {
        some_bytes = omega arith;
        at_most = omega arith;
        head = omega (arith, length-append got b);
        limit = omega (
          arith,
          length-append got b,
          length-append got (b ++ flatten bs last),
          length-append b (flatten bs last),
        );
        small = small;
        count = omega arith;
      } in
      let (t, e, r', p') =
        full_turn fw port n got b s r fit c p full.0 writes (omega arith) sums.0 in
      let (s', e', received) =
        update_loop-serve bs last (got ++ b) port (n + 1) true t r' p' writes hf
          (rw append_assoc hw) full.1 size (rw append_assoc limit) small (omega arith) (omega arith)
          sums.1 in
      (
        s',
        one_wait port (n + 1) b (serve port (n + 1 + 1) bs last) c s (omega arith) ∙ rw e e',
        rw append_assoc at received,
      )

  -- After the read request the client is ready for block 1.
  pub asked-IsReady :
      (s : Client)
      → s.flash ≡ []
      → length s.manager.frame_buffer ≡ 512
      → length s.update_filename ≤ 480
      → let ready = tftp_firmware_update_init fw s in
        let asked = (read_request fw ready.update_filename ready).1 in
        IsReady fw [] 0 asked × (asked.manager.server_port ≡ wellknown_port)
  unfolding tftp_firmware_update_init
  asked-IsReady s hf hb hn =
      let ready = tftp_firmware_update_init fw s in
      let q = read_request-IsSent fw ready.update_filename ready in
      let clean = q.flash ∙ hf in
      (
        record {
          received = record {
            file_len = q.file_len;
            check_sum = q.check_sum ∙ rw (drop_all {A = ℕ} head_size [] (omega arith)) refl;
            head = inl refl;
            on_flash = refl;
            in_order = rw clean tt;
          };
          buffer = read_request-buffer fw ready.update_filename ready hn hb;
          prev = q.prev_block;
          addr = rw (q.flash_addr) (omega arith);
          whole = rw clean refl;
          size = refl;
          telling = inl refl;
        },
        q.server_port,
      )

  -- A download of a name that fits starts the loop behind the read request.
  pub update-asked :
      (ws : List Wait) (s : Client)
      → length s.manager.frame_buffer ≡ 512
      → length s.update_filename ≤ 480
      → let ready = tftp_firmware_update_init fw s in
        tftp_firmware_update fw ws s
        ≡ update_loop fw ws false (read_request fw ready.update_filename ready).1
  unfolding tftp_firmware_update tftp_send_readfile_request tftp_firmware_update_init
  update-asked ws s hb hn =
      let fits : leb (length s.update_filename + 22) (length s.manager.frame_buffer) ≡ true =
        ground arith in
      rw fits refl

  -- The read request for the name is what the loop starts behind.
  pub update-request :
      (ws : List Wait) (s : Client)
      → length s.manager.frame_buffer ≡ 512
      → length s.update_filename ≤ 480
      → let bytes = request_bytes s.update_filename in
        fw.pbuf_alloc s.sent (length bytes) ≡ true
        → (asked : Client) × (asked.sent ≡ datagram wellknown_port bytes ∷ s.sent)
          × (tftp_firmware_update fw ws s ≡ update_loop fw ws false asked)
  unfolding tftp_firmware_update_init
  update-request ws s hb hn room =
      let ready = tftp_firmware_update_init fw s in
      (
        (read_request fw ready.update_filename ready).1,
        read_request_sends fw ready.update_filename ready hn hb room,
        update-asked ws s hb hn,
      )

  -- With a matching head the client installs what it has received.
  finish-IsReceived :
      (file : List ℕ) (s : Client)
      → IsReceived fw file s
      → 1 ≤ length file
      → board_type (take head_size file) ≡ module_board_type
      → checksum (take head_size file) ≡ sum_bytes (drop head_size file) % u32_mod
      → program_type (take head_size file) ≡ 1
      → (s' : Client) × (tftp_firmware_download_finish fw s ≡ (ok, s'))
        × IsReceived fw file s'
        × (s'.update_cfg.update_size ≡ length file)
        × (s'.update_cfg.update_spiflash_checksum ≡ sum_bytes (drop head_size file) % u32_mod)
  unfolding tftp_firmware_download_finish
  finish-IsReceived [] s r some_bytes board sums program = absurd (omega arith)
  finish-IsReceived (x ∷ file) s r some_bytes board sums program =
      let head : s.manager.update_filehead ≡ take head_size (x ∷ file) = ground arith in
      let e₁ : (board_type s.manager.update_filehead == module_board_type) ≡ true = ground arith in
      let e₂ : (checksum s.manager.update_filehead == s.manager.check_sum) ≡ true =
        ground (arith, r.check_sum) in
      let e₃ : (program_type s.manager.update_filehead == 1) ≡ true = ground arith in
      (
        (tftp_firmware_download_finish fw s).1,
        rw (e₁, e₂, e₃),
        rw (e₁, e₂, e₃)
            (record {
              file_len = r.file_len;
              check_sum = r.check_sum;
              head = r.head;
              on_flash = r.on_flash;
              in_order = r.in_order;
            }),
        rw (e₁, e₂, e₃) (r.file_len),
        rw (e₁, e₂, e₃) (r.check_sum),
      )

  -- A server on another port than 69 that sends every block of a file once, in order, installs it:
  -- the download returns success, the file's bytes are on consecutive flash pages from the user
  -- code's address on, and the length, the checksum and the head that the client has kept are the
  -- file's. Conditions: the last block is not full and not empty, no checksum at the end of a full
  -- block is 0, the file fits the flash limit, and the file's head matches.
  pub tftp_firmware_update_downloads :
      (bs : List (List ℕ)) (last : List ℕ) (port : ℕ) (s : Client)
      → IsServable bs last
      → port ≢ wellknown_port
      → s.flash ≡ []
      → length s.manager.frame_buffer ≡ 512
      → length s.update_filename ≤ 480
      → let file = flatten bs last in
        board_type (take head_size file) ≡ module_board_type
        → checksum (take head_size file) ≡ sum_bytes (drop head_size file) % u32_mod
        → program_type (take head_size file) ≡ 1
        → (s' : Client) × (tftp_firmware_update fw (serve port 1 bs last) s ≡ done (ok, s'))
          × IsReceived fw file s'
          × (s'.update_cfg.update_size ≡ length file)
          × (s'.update_cfg.update_spiflash_checksum ≡ sum_bytes (drop head_size file) % u32_mod)
  tftp_firmware_update_downloads bs last port s ok_file other hf hb hn board sums program =
      let (ready, first) = asked-IsReady s hf hb hn in
      let (s', e, received) =
        update_loop-serve bs last [] port 0 false _ ready (inl (refl, λ p. other (sym p ∙ first)))
          ok_file.writes ok_file.head_fits ok_file.head_whole ok_file.full
          (ok_file.some_bytes, ok_file.short) ok_file.limit ok_file.small (omega arith)
          (omega arith) ok_file.sums in
      let (f, done_ok, rest, size, sum) =
        finish-IsReceived (flatten bs last) s' received (flatten-some bs) board sums program in
      (f, update-asked _ s hb hn ∙ e ∙ ap done done_ok, rest, size, sum)
    where
      flatten-some : (bs : List (List ℕ)) → 1 ≤ length (flatten bs last)
      flatten-some [] = ok_file.some_bytes
      flatten-some (b ∷ bs) = omega (arith, flatten-some bs, length-append b (flatten bs last))
