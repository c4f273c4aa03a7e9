-- ===== src/Upload/Reply.antt =====
-- Sending a page: iap_fs_open, send_data, close_conn and http_sent.
use arm_ucos_proxy.Base.{
  ℕ, ◌+◌, ◌-◌, ◌%◌, true, false, List, [], ◌∷◌, ◌++◌, take, drop, ltb, ◌==◌, if◌then◌else◌,
}
use arm_ucos_proxy.Ports.Text.{text_equal}
use arm_ucos_proxy.Upload.State.{u16_mod, HttpState, Tcp}

-- The files in the order of FS_ROOT, by name; `file` stays cleared if there is none.
unfoldable pub iap_fs_open : List (List ℕ × List ℕ) → List ℕ → List ℕ
iap_fs_open [] name = []
iap_fs_open ((file_name, bytes) ∷ files) name =
    if text_equal name file_name then bytes else iap_fs_open files name

unfoldable pub send_data : Tcp → HttpState → HttpState
send_data tcp hs =
    let len = (if ltb tcp.sndbuf hs.left then tcp.sndbuf else hs.left) % u16_mod in
    if tcp.write_ok
    then record hs {
      file = drop len hs.file;
      left = hs.left - len;
      output = hs.output ++ take len hs.file;
    }
    else hs

unfoldable pub close_conn : HttpState → HttpState
close_conn hs = record hs { closed = true; sent_callback = false }

-- `resetpage` is only ever cleared.
unfoldable pub http_sent : Tcp → ℕ → HttpState → HttpState
http_sent tcp resetpage hs =
    let ended = close_conn hs in
    if ltb 0 hs.left
    then send_data tcp hs
    else if resetpage == 1
    then record ended { resets = hs.resets + 1 }
    else ended
