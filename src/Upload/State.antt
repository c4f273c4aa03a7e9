-- ===== src/Upload/State.antt =====
-- The static variables of webserver_iap.c, its packets and its connection.
use arm_ucos_proxy.Base.{ℕ, ◌^◌, Bool, List, [], ◌∷◌, ◌++◌, Option}
use arm_ucos_proxy.Tftp.Packet.{codes}

abbrev pub u16_mod : ℕ
u16_mod = 2 ^ 16

abbrev pub u32_mod : ℕ
u32_mod = 2 ^ 32

abbrev pub http_crnl_2 : List ℕ
http_crnl_2 = 13 ∷ 10 ∷ 45 ∷ 45 ∷ []

-- The first 13 bytes, which are compared.
abbrev pub octet_stream : List ℕ
octet_stream = codes "octet-stream" ++ 13 ∷ []

abbrev pub content_length : List ℕ
content_length = codes "Content-Length: "

abbrev pub post_upload : List ℕ
post_upload = codes "POST /upload.cgi"

abbrev pub filename_mark : List ℕ
filename_mark = codes "filename="

-- A received packet: the bytes of memory from p->payload on that can be read, and p->tot_len.
pub record Pbuf : Type 0 where
  pub payload : List ℕ
  pub tot_len : ℕ

-- struct http_state as this file sees it, with the bytes behind `file`, and what it does to its
-- connection: the bytes that tcp_write took, the callback http_sent, the end, and resets.
pub record HttpState : Type 0 where
  pub file : List ℕ
  pub left : ℕ
  pub output : List ℕ
  pub sent_callback : Bool
  pub closed : Bool
  pub resets : ℕ

-- The static variables (LeftBytesTab and FlashWriteAddress, which no call that is made reads, are
-- left out), what the uninitialised pointer `hs` of webserver_iap_http_recv points to, if to
-- anything, the number of packets given to pbuf_free, and the bytes of the file that were handed
-- on, to webserver_iap_debug in place of the flash.
pub record Upload : Type 0 where
  pub data_flag : ℕ
  pub size : ℕ
  pub total_received : ℕ
  pub left_bytes : ℕ
  pub resetpage : ℕ
  pub content_length_offset : ℕ
  pub browser_flag : ℕ
  pub total_data : ℕ
  pub recv_cnt : ℕ
  pub hs : Option HttpState
  pub freed : ℕ
  pub handled : List ℕ

-- What lwIP does at a call: the room in the send buffer, and whether tcp_write takes the bytes.
pub record Tcp : Type 0 where
  pub sndbuf : ℕ
  pub write_ok : Bool

-- err_t, and the file's own ERR_DONOTHING
pub data Err : Type 0 where
  err_ok : Err
  err_donothing : Err

unfoldable pub clear_transmission : Upload → Upload
clear_transmission s = record s {
  data_flag = 0;
  size = 0;
  total_received = 0;
  left_bytes = 0;
  resetpage = 0;
  content_length_offset = 0;
  browser_flag = 0;
  total_data = 0;
  recv_cnt = 0;
}
