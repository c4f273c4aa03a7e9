-- ===== src/Upload/Recv.antt =====
-- webserver_iap_http_recv in its parts.
use arm_ucos_proxy.Base.{
  ℕ, ◌+◌, ◌-◌, ◌*◌, ◌%◌, true, ◌&&◌, ◌||◌, List, [], ◌∷◌, ◌++◌, none, some, length, take, drop, ltb,
  leb, ◌==◌, if◌then◌else◌,
}
use arm_ucos_proxy.Base.Outcome.{Outcome, done, fault, blocked, and_then}
use arm_ucos_proxy.Ports.Text.{mystrncmp}
use arm_ucos_proxy.Tftp.Packet.{codes}
use arm_ucos_proxy.Upload.State.{
  u16_mod, u32_mod, octet_stream, post_upload, filename_mark, Pbuf, Upload, Tcp, Err, err_ok,
  err_donothing, clear_transmission,
}
use arm_ucos_proxy.Upload.Parse.{find_text, parse_content_length, find_boundary, copy_filename}
use arm_ucos_proxy.Upload.Reply.{iap_fs_open, send_data}

-- The place behind "octet-stream\r\n\r\n", or 0.
unfoldable pub octet_offset : Pbuf → ℕ
octet_offset p = elim (find_text octet_stream p.tot_len p.payload) [ none ↦ 0 | some i ↦ i + 16 ]

unfoldable pub pbuf_free : Upload → Upload
pbuf_free s = record s { freed = s.freed + 1 }

-- Bytes of the file, by webserver_iap_debug in place of IAP_HTTP_writedata.
abbrev pub hand_on : ℕ → ℕ → Pbuf → Upload → Upload
hand_on offset len p s = record s { handled = s.handled ++ take len (drop offset p.payload) }

module _ (files : List (List ℕ × List ℕ)) (tcp : Tcp) where
  -- The answer with a page, through the pointer `hs`, which nothing has set.
  unfoldable pub send_page : List ℕ → Upload → Outcome Upload
  send_page name s = elim s.hs [
    | none ↦ fault
    | some hs ↦
        let bytes = iap_fs_open files name in
        let sent = send_data tcp (record hs { file = bytes; left = length bytes }) in
        done (record s { hs = some (record sent { sent_callback = true }) })
  ]

  -- The return with the upload page.
  unfoldable pub reload_page : Upload → Outcome (Err × Upload)
  reload_page s =
      and_then (send_page (codes "/upload.html") (pbuf_free s))
        λ s'. done (err_ok, clear_transmission s')

  -- From `ptr = data + DataOffset` on. `len` has 16 bits.
  unfoldable pub take_data : ℕ → Pbuf → Upload → Outcome (Err × Upload)
  take_data offset p s =
      let len = (p.tot_len + 2 * u16_mod - offset) % u16_mod in
      let counted = record s { total_data = (s.total_data + len) % u32_mod } in
      if leb s.size s.total_received
      then elim (find_boundary (p.tot_len - 3) 4 p.tot_len p.payload) [
        | none ↦ reload_page counted
        | some i ↦
            let rest = (len + u16_mod - i) % u16_mod in
            and_then
              (send_page (codes "/uploaddone.html")
                (clear_transmission (hand_on offset rest p counted)))
              λ s'. done (err_ok, s')
      ]
      else done (err_ok, pbuf_free (hand_on offset len p counted))

  -- The name of the file, without which the upload starts again.
  unfoldable pub take_filename : ℕ → Pbuf → Upload → Outcome (Err × Upload)
  take_filename offset p s =
      let start = record s { total_data = 0 } in
      elim (find_text filename_mark p.tot_len p.payload) [
        | none ↦ reload_page s
        | some i ↦
            and_then (copy_filename 63 (drop (i + 10) p.payload))
              λ name. elim name [ [] ↦ reload_page s | c ∷ cs ↦ take_data offset p start ]
      ]

  -- The packet with the POST request.
  unfoldable pub post_packet : Pbuf → Upload → Outcome (Err × Upload)
  post_packet p s =
      let fresh = clear_transmission s in
      let offset = octet_offset p in
      and_then (parse_content_length p.payload p.tot_len) λ parsed.
        let (size, behind) = parsed in
        let sized = record fresh { size = size; content_length_offset = behind } in
        if offset == 0
        then done (err_ok, pbuf_free (record sized { data_flag = 1; browser_flag = 1 }))
        else take_filename offset p (record sized {
          data_flag = 1;
          total_received = (p.tot_len + u32_mod - (behind + 4)) % u32_mod;
        })

  -- The packet behind a POST request that held no data.
  unfoldable pub second_packet : Pbuf → Upload → Outcome (Err × Upload)
  second_packet p s = take_filename (octet_offset p) p (record s {
    data_flag = 2;
    total_received = (s.total_received + p.tot_len) % u32_mod;
    recv_cnt = s.recv_cnt + 1;
  })

  unfoldable pub later_packet : Pbuf → Upload → Outcome (Err × Upload)
  later_packet p s = take_data 0 p (record s {
    total_received = (s.total_received + p.tot_len) % u32_mod;
    recv_cnt = s.recv_cnt + 1;
  })

  -- The dump of the packet reads all its bytes, and its counter of 16 bits never reaches a length
  -- of more than 65520.
  unfoldable pub webserver_iap_http_recv : Pbuf → Upload → Outcome (Err × Upload)
  webserver_iap_http_recv p s =
      if ltb (length p.payload) p.tot_len
      then fault
      else if ltb 65520 p.tot_len
      then blocked
      else if mystrncmp p.payload post_upload || leb 1 s.data_flag
      then (if s.data_flag == 0
          then post_packet p s
          else if s.data_flag == 1 && s.browser_flag == 1
          then second_packet p s
          else later_packet p s)
      else done (err_donothing, clear_transmission s)
