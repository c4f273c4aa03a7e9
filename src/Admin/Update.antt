-- ===== src/Admin/Update.antt =====
-- The start of a firmware update from the page, and its status
-- (USER/module_webserver/webserver_update.c).
use arm_ucos_proxy.Base.{
  ℕ, ◌+◌, ◌≤◌, ◌<◌, ◌≡◌, ◌≢◌, refl, true, false, List, [], ◌∷◌, ◌++◌, none, some, length, take,
  drop, ltb, ◌==◌, if◌then◌else◌, ◌%◌, arith,
}
use arm_ucos_proxy.Base.Outcome.{Outcome, done, fault, blocked, and_then}
use arm_ucos_proxy.Tftp.State.{
  update_doing, update_succeed, update_failed, wellknown_port, module_board_type, u32_mod, Client,
  Firmware,
}
use arm_ucos_proxy.Tftp.Packet.{codes}
use arm_ucos_proxy.Tftp.Update.{
  Wait, client_thread_turn, tftp_firmware_update, update_loop, tftp_get_progress_percent,
}
use arm_ucos_proxy.Tftp.Buffer.{request_bytes, datagram}
use arm_ucos_proxy.Tftp.Checksum.{sum_bytes}
use arm_ucos_proxy.Tftp.Block.{IsReceived}
use arm_ucos_proxy.Tftp.Transfer.{
  serve, flatten, IsServable, update-request, tftp_firmware_update_downloads,
}
use arm_ucos_proxy.Ports.Text.{Text, find_cgi_parameter, atoi, fail_str, success_str}
use arm_ucos_proxy.Pages.Filename.{update_filename_crop}
use arm_ucos_proxy.Ports.Decimal.{decimal}

-- The client's state, which the page shares with the client's task, and the count of start_sem.
pub record UpdatePage : Type 0 where
  pub client : Client
  pub start_sem : ℕ

unfoldable pub update_go : UpdatePage → UpdatePage
update_go s = record {
  client = record (s.client) { update_ssi_status = update_doing };
  start_sem = s.start_sem + 1;
}

-- strcpy to the array update_filename of 64 characters.
abbrev pub copy_name : Text → Outcome Text
copy_name name = if ltb (length name) 64 then done name else fault

-- The copy of the value has 128 characters. The length for the progress is read from the value too.
unfoldable pub update_cgi_interface : List (Text × Text) → UpdatePage → Outcome UpdatePage
update_cgi_interface params s =
    if ltb (length params) 2 then done s else elim (find_cgi_parameter (codes "filename") params) [
      | none ↦ fault
      | some value ↦
          let m = record (s.client.manager) { total_file_len = atoi value; file_len = 0 } in
          and_then (update_filename_crop value) λ cropped. and_then (copy_name cropped) λ name.
            done (
              update_go
                (record s { client = record (s.client) { manager = m; update_filename = name } }))
    ]

-- The text for the page; it is empty before the first update.
unfoldable pub update_status_ssi_handler : Client → Outcome Text
update_status_ssi_handler c = elim c.update_ssi_status [
  | update_doing ↦
      and_then (tftp_get_progress_percent c.manager)
        λ percent. done (codes "proc=" ++ decimal 10 percent ++ 59 ∷ 10 ∷ [])
  | update_succeed ↦ done success_str
  | update_failed ↦ done fail_str
  | _ ↦ done []
]

module _ (fw : Firmware) where
  open fw use {head_size, board_type, checksum, program_type}

  -- A turn of the client's task: it waits for start_sem, and clears it before the next wait.
  unfoldable pub update_turn : List Wait → UpdatePage → Outcome UpdatePage
  update_turn ws s =
      if s.start_sem == 0
      then blocked
      else and_then (client_thread_turn fw ws s.client)
          λ c. done record { client = c; start_sem = 0 }

-- The state in which the form for the file starts the client's task.
abbrev pub started : Text → Text → UpdatePage → UpdatePage
started value name s = record {
  client = record (s.client) {
    manager = record (s.client.manager) { total_file_len = atoi value; file_len = 0 };
    update_filename = name;
    update_ssi_status = update_doing;
  };
  start_sem = s.start_sem + 1;
}

update_cgi_interface-started :
    (params : List (Text × Text)) (value name : Text) (s : UpdatePage)
    → 2 ≤ length params
    → find_cgi_parameter (codes "filename") params ≡ some value
    → update_filename_crop value ≡ done name
    → length name < 64
    → update_cgi_interface params s ≡ done (started value name s)
unfolding update_cgi_interface update_go
update_cgi_interface-started params value name s many found cropped short =
    let e : ltb (length params) 2 ≡ false = ground arith in
    let e' : ltb (length name) 64 ≡ true = ground arith in
    rw (update_cgi_interface, e, found, cropped, copy_name, e') refl

module _ (fw : Firmware) where
  open fw use {head_size, board_type, checksum, program_type}

  -- A form with the size and the name of a file, and then a turn of the client's task against a
  -- server that sends every block of a file once, in order: the form keeps the cropped name, the
  -- turn's download is the loop from a client that has just sent the read request for this name to
  -- port 69, and the turn returns with the file on the flash and its length and checksum kept for
  -- the boot loader. Conditions: the form has at least two parameters, its value can be cropped to
  -- less than 64 characters, there is room for the request's datagram, nothing is written to the
  -- flash yet, no full block ends with a checksum of 0, the last block is neither full nor empty,
  -- and the file fits the flash and has a good head.
  pub update_turn_installs :
      (params : List (Text × Text)) (value name : Text) (bs : List (List ℕ)) (last : List ℕ)
      (port : ℕ) (s : UpdatePage)
      → 2 ≤ length params
      → find_cgi_parameter (codes "filename") params ≡ some value
      → update_filename_crop value ≡ done name
      → length name < 64
      → IsServable fw bs last
      → port ≢ wellknown_port
      → s.client.flash ≡ []
      → length s.client.manager.frame_buffer ≡ 512
      → fw.pbuf_alloc s.client.sent (length (request_bytes name)) ≡ true
      → let file = flatten bs last in
        board_type (take head_size file) ≡ module_board_type
        → checksum (take head_size file) ≡ sum_bytes (drop head_size file) % u32_mod
        → program_type (take head_size file) ≡ 1
        → (s' s'' : UpdatePage) × (update_cgi_interface params s ≡ done s')
          × (s'.client.update_filename ≡ name)
          × ((asked : Client) × (asked.sent
                ≡ datagram wellknown_port (request_bytes name) ∷ s.client.sent)
              × (tftp_firmware_update fw (serve port 1 bs last) s'.client
                  ≡ update_loop fw (serve port 1 bs last) false asked))
          × (update_turn fw (serve port 1 bs last) s' ≡ done s'')
          × IsReceived fw file s''.client
          × (s''.client.update_cfg.update_size ≡ length file)
          × (s''.client.update_cfg.update_spiflash_checksum
              ≡ sum_bytes (drop head_size file) % u32_mod)
  unfolding update_turn client_thread_turn
  update_turn_installs params value name bs last port s many found cropped short ok_file other clean
        buffer room board sums program =
      let page = started value name s in
      let (c, e, received, size, sum) =
        tftp_firmware_update_downloads fw bs last port page.client ok_file other clean buffer
          (omega arith) board sums program in
      let go : (page.start_sem == 0) ≡ false = ground arith in
      (
        page,
        record { client = c; start_sem = 0 },
        update_cgi_interface-started params value name s many found cropped short,
        refl,
        update-request fw (serve port 1 bs last) page.client buffer (omega arith) room,
        rw (update_turn, go, client_thread_turn, e) refl,
        received,
        size,
        sum,
      )
