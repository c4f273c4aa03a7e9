-- ===== src/Tftp/Download.antt =====
-- A whole download from a server that sends each block once, in order.
use arm_ucos_proxy.Base.{
  ℕ, ◌+◌, ◌*◌, ◌%◌, ◌≤◌, ◌<◌, ◌≡◌, ◌≢◌, ◌⊎◌, inr, refl, ap, ◌∙◌, Bool, true, false, List, [], ◌∷◌,
  ◌++◌, length, drop, length-append, length-drop, leb, arith,
}
use arm_ucos_proxy.Base.Bytes.{overwrite}
use arm_ucos_proxy.Base.Outcome.{done}
use arm_ucos_proxy.Tftp.State.{u32_mod, PageWrite, Client, Firmware, Datagram}
use arm_ucos_proxy.Tftp.Packet.{tftp_send_ack_packet}
use arm_ucos_proxy.Tftp.Image.{tftp_handle_data}
use arm_ucos_proxy.Tftp.Update.{
  Verdict, continue, return, frame_buffer_size, tftp_recv_callback, receive_all,
  tftp_firmware_download_finish, acknowledge_block, dispatch, handle_frame,
}
use arm_ucos_proxy.Tftp.Sends.{IsSent, tftp_send_ack_packet-IsSent, tftp_send_ack_packet-buffer}
use arm_ucos_proxy.Tftp.Checksum.{sum_bytes}
use arm_ucos_proxy.Tftp.Block.{data_payload, next_block, IsReceived, IsReady, dispatch-data}
use arm_ucos_proxy.Tftp.Stored.{handle_fields, handle-IsReceived, handle-IsReady}

-- The datagram of block n from the server's port, and the client that has received it.
abbrev pub data_datagram : ℕ → ℕ → List ℕ → Datagram
data_datagram port n block = record { port = port; payload = data_payload n block }

abbrev pub arrived : ℕ → ℕ → List ℕ → Client → Client
arrived port n block s = record s {
  manager = record (s.manager) {
    frame_buffer = overwrite (data_payload n block) s.manager.frame_buffer;
    recv_len = length (data_payload n block);
    recv_port = port;
  };
}

abbrev pub at_port : ℕ → Client → Client
at_port port s = record s { manager = record (s.manager) { server_port = port } }

-- The server's port is not known yet, or it is this one.
abbrev pub HasPort : ℕ → Bool → Client → Type 0
HasPort port c s =
    ((c ≡ false) × (s.manager.server_port ≢ port)) ⊎ ((c ≡ true) × (s.manager.server_port ≡ port))

module _ (fw : Firmware) where
  open fw use {head_size, flash_limit, user_code_addr, write_page}

  pub receive-data :
      (port n : ℕ) (block : List ℕ) (s : Client)
      → length block ≤ 256
      → receive_all (data_datagram port n block ∷ []) s ≡ done (arrived port n block s)
  unfolding receive_all tftp_recv_callback
  receive-data port n block s h =
      let fits : leb (length (data_payload n block)) frame_buffer_size ≡ true = ground arith in
      rw fits

  pub handle_frame-port :
      (port : ℕ) (c : Bool) (s : Client)
      → s.manager.recv_port ≡ port
      → HasPort port c s
      → handle_frame fw c s ≡ (let (v, s') = dispatch fw (at_port port s) in (v, true, s'))
  unfolding handle_frame
  handle_frame-port port c s e h = ground arith

  pub IsSent-IsReceived :
      (got : List ℕ) (s s' : Client) → IsSent s s' → IsReceived fw got s → IsReceived fw got s'
  IsSent-IsReceived got s s' q r = record {
    file_len = ground arith;
    check_sum = ground arith;
    head = ground arith;
    on_flash = rw (q.flash) (r.on_flash);
    in_order = rw (q.flash) (r.in_order);
  }

  -- Receiving a DATA packet leaves the client ready for its block.
  arrived-IsReady :
      (port n : ℕ) (block got : List ℕ) (s : Client)
      → length block ≤ 256
      → IsReady fw got n s
      → IsReady fw got n (at_port port (arrived port (n + 1) block s))
  arrived-IsReady port n block got s h r = record {
    received = record {
      file_len = r.received.file_len;
      check_sum = r.received.check_sum;
      head = r.received.head;
      on_flash = r.received.on_flash;
      in_order = r.received.in_order;
    };
    buffer = omega (
      arith,
      r.buffer,
      length-append block (drop (length (data_payload (n + 1) block)) s.manager.frame_buffer),
      length-drop (length (data_payload (n + 1) block)) s.manager.frame_buffer,
    );
    prev = r.prev;
    addr = r.addr;
    whole = r.whole;
    size = r.size;
    telling = r.telling;
  }

  acked-IsReady :
      (got : List ℕ) (n b : ℕ) (s : Client)
      → IsReady fw got n s
      → IsReady fw got n (tftp_send_ack_packet fw b s).1
  acked-IsReady got n b s r =
      let q = tftp_send_ack_packet-IsSent fw b s in
      record {
        received = IsSent-IsReceived got s _ q r.received;
        buffer = tftp_send_ack_packet-buffer fw b s ∙ r.buffer;
        prev = q.prev_block ∙ r.prev;
        addr = q.flash_addr ∙ r.addr;
        whole = rw (q.flash) (r.whole);
        size = r.size;
        telling = rw (q.check_sum) (r.telling);
      }

  -- What the parameters of a transfer have to satisfy for a further block.
  pub record IsRoom (got block : List ℕ) (n : ℕ) : Type 0 where
    pub some_bytes : 1 ≤ length block
    pub at_most : length block ≤ 256
    pub head : head_size ≤ length (got ++ block)
    pub limit : length (got ++ block) ≤ flash_limit
    pub small : flash_limit < u32_mod
    pub count : n < 65535

  module _ (port n : ℕ) (got block : List ℕ) (s : Client) (r : IsReady fw got n s)
      (room : IsRoom got block n) where
    stored : Client
    stored =
        (tftp_handle_data fw
          (block ++ drop (length (data_payload (n + 1) block)) s.manager.frame_buffer)
          (length block) (next_block (n + 1) (at_port port (arrived port (n + 1) block s)))).1

    stored-IsReceived : IsReceived fw (got ++ block) stored
    unfolding stored
    stored-IsReceived =
        (handle-IsReceived fw got block _ n _ (arrived-IsReady port n block got s room.at_most r)
          room.at_most room.head room.limit room.small).1

    stored-port : stored.manager.server_port ≡ port
    unfolding stored
    stored-port =
        (handle_fields fw got block _
          (next_block (n + 1) (at_port port (arrived port (n + 1) block s)))
          (omega (arith, r.received.file_len, length-append got block, room.limit, room.small))).3

    handle_frame-stored :
        (c : Bool)
        → HasPort port c s
        → handle_frame fw c (arrived port (n + 1) block s)
          ≡ (let (v, s') = acknowledge_block fw (length block) stored in (v, true, s'))
    unfolding stored
    handle_frame-stored c p =
        handle_frame-port port c (arrived port (n + 1) block s) refl p
        ∙ ap
            (λ (x : Verdict × Client).
              let (v, s') = x in let y : Verdict × Bool × Client = (v, true, s') in y)
            (dispatch-data fw n block _ (at_port port (arrived port (n + 1) block s)) refl
              (omega arith) r.prev room.count room.some_bytes room.at_most
              (handle-IsReceived fw got block _ n _
                (arrived-IsReady port n block got s room.at_most r) room.at_most room.head
                room.limit room.small).0)

    -- A full block: the client acknowledges it and waits for the next.
    pub full_turn :
        (c : Bool)
        → HasPort port c s
        → length block ≡ 256
        → ((w : PageWrite) → write_page w ≡ 256)
        → user_code_addr + 256 * (n + 1) < u32_mod
        → sum_bytes (drop head_size (got ++ block)) % u32_mod ≢ 0
        → (s' : Client) × (handle_frame fw c (arrived port (n + 1) block s) ≡ (continue, true, s'))
          × IsReady fw (got ++ block) (n + 1) s'
          × HasPort port true s'
    full_turn c p full writes fits other =
        let acked = tftp_send_ack_packet fw stored.manager.cur_block stored in
        let q = tftp_send_ack_packet-IsSent fw stored.manager.cur_block stored in
        (
          acked.1,
          handle_frame-stored c p ∙ unfold acknowledge_block in ground arith,
          acked-IsReady (got ++ block) (n + 1) stored.manager.cur_block stored (
              unfold stored in
              handle-IsReady fw got block _ n _ (arrived-IsReady port n block got s room.at_most r)
                full room.head room.limit room.small writes fits other),
          inr (refl, q.server_port ∙ stored-port),
        )

    -- A block that is not full: the client acknowledges it and finishes.
    pub last_turn :
        (c : Bool)
        → HasPort port c s
        → length block < 256
        → (s' : Client) × (handle_frame fw c (arrived port (n + 1) block s)
            ≡ (let (st, f) = tftp_firmware_download_finish fw s' in (return st, true, f)))
          × IsReceived fw (got ++ block) s'
    last_turn c p short =
        let acked = tftp_send_ack_packet fw stored.manager.cur_block stored in
        (
          acked.1,
          handle_frame-stored c p ∙ unfold acknowledge_block in ground arith,
          IsSent-IsReceived (got ++ block) stored acked.1
              (tftp_send_ack_packet-IsSent fw stored.manager.cur_block stored) stored-IsReceived,
        )
