-- ===== src/Upload/Examples.antt =====
-- The theorems of the upload on a small file that comes in two packets behind its request.
use arm_ucos_proxy.Base.{ℕ, ◌≡◌, refl, List, [], ◌∷◌, ◌++◌, none, some, true, false, arith}
use arm_ucos_proxy.Base.Outcome.{done, fault}
use arm_ucos_proxy.Tftp.Packet.{codes}
use arm_ucos_proxy.Ports.Text.{mystrncmp, digits_value}
use arm_ucos_proxy.Upload.State.{
  content_length, http_crnl_2, HttpState, Upload, Tcp, clear_transmission, err_ok,
}
use arm_ucos_proxy.Upload.Parse.{parse_content_length}
use arm_ucos_proxy.Upload.Recv.{webserver_iap_http_recv}
use arm_ucos_proxy.Upload.Search.{absent, holds}
use arm_ucos_proxy.Upload.Length.{all_digits, parse_content_length-digits}
use arm_ucos_proxy.Upload.Steps.{pbuf_of}
use arm_ucos_proxy.Upload.Request.{
  PostRequest, IsPost, post_bytes, posted, recv-post, PartHead, IsPart, part_head,
}
use arm_ucos_proxy.Upload.Session.{
  Handles, Completes, AreShort, joined, upload-IsUploaded, last_packet-faults,
}
use arm_ucos_proxy.Upload.Phase.{IsPhase, none_yet, one_more, received-IsPhase}
use arm_ucos_proxy.Upload.Sent.{sends, good_calls, takes_bytes, HaveU16, sends-delivers}

abbrev ready_tcp : Tcp
ready_tcp = record { sndbuf = 3; write_ok = true }

abbrev busy_tcp : Tcp
busy_tcp = record { sndbuf = 3; write_ok = false }

abbrev page_files : List (List ℕ × List ℕ)
page_files = (codes "/uploaddone.html", codes "done") ∷ []

abbrev browser : HttpState
browser = record {
  file = [];
  left = 0;
  output = [];
  sent_callback = false;
  closed = false;
  resets = 0;
}

abbrev at_rest : Upload
at_rest = record {
  data_flag = 0;
  size = 0;
  total_received = 0;
  left_bytes = 0;
  resetpage = 0;
  content_length_offset = 0;
  browser_flag = 0;
  total_data = 0;
  recv_cnt = 0;
  hs = some browser;
  freed = 0;
  handled = [];
}

parse_content_length-digits_example :
    parse_content_length (codes "POST " ++ content_length ++ (codes "120" ++ 13 ∷ 10 ∷ [])) 40
    ≡ done (120, 24)
unfolding absent all_digits digits_value mystrncmp
parse_content_length-digits_example =
    parse_content_length-digits (codes "POST ") (codes "120") (10 ∷ []) 40 (omega arith) refl
      (omega arith) refl

abbrev small_post : PostRequest
small_post = record { fields = []; digits = codes "42"; behind = 10 ∷ 13 ∷ 10 ∷ [] }

small_post-IsPost : IsPost small_post
unfolding absent all_digits holds mystrncmp
small_post-IsPost = record {
  first_length = refl;
  is_number = refl;
  short_number = omega arith;
  no_part = refl;
  fits = omega arith;
}

abbrev small_head : PartHead
small_head = record { before = codes "--"; name = codes "a"; between = [] }

small_head-IsPart : IsPart small_head
unfolding absent mystrncmp
small_head-IsPart = record {
  first_name = refl;
  some_name = omega arith;
  short_name = omega arith;
  unquoted = refl;
  first_octet = refl;
}

-- The head of 30 bytes, six bytes of the file, and the boundary of six bytes.
upload-IsUploaded_example :
    (s' : Upload) × Handles page_files ready_tcp
      (post_bytes small_post ∷ (part_head small_head ++ (1 ∷ 2 ∷ [])) ∷ (3 ∷ []) ∷ [])
      (record at_rest { hs = none })
      s'
    × (s'.handled ≡ 1 ∷ 2 ∷ 3 ∷ [])
    × (s'.freed ≡ 3)
    × Completes page_files ready_tcp
        (1 ∷ 2 ∷ 3 ∷ 4 ∷ 5 ∷ 6 ∷ [])
        3
        (4 ∷ 5 ∷ 6 ∷ [] ++ (http_crnl_2 ++ codes "--"))
        none
        s'
unfolding joined AreShort holds mystrncmp digits_value
upload-IsUploaded_example =
    upload-IsUploaded page_files ready_tcp small_post small_head (1 ∷ 2 ∷ []) ((3 ∷ []) ∷ [])
      (4 ∷ 5 ∷ 6 ∷ []) (codes "--") (record at_rest { hs = none }) small_post-IsPost
      small_head-IsPart (omega arith) (omega arith, tt) (omega arith) refl refl refl

abbrev one_to_go : Upload
one_to_go = record at_rest {
  data_flag = 2;
  size = 10;
  total_received = 9;
  browser_flag = 1;
  hs = none;
}

last_packet-faults_example :
    webserver_iap_http_recv page_files ready_tcp (pbuf_of (7 ∷ [])) one_to_go ≡ fault
last_packet-faults_example =
    last_packet-faults page_files ready_tcp 10 9 0 [] (7 ∷ []) one_to_go
      record {
        flag_known = refl;
        size_known = refl;
        total_known = refl;
        handled_known = refl;
        freed_known = refl;
        hs_known = refl;
      }
      (omega arith) (omega arith) (omega arith)

received-IsPhase_example : IsPhase (posted small_post at_rest)
unfolding clear_transmission
received-IsPhase_example =
    received-IsPhase page_files ready_tcp at_rest (posted small_post at_rest) refl (
      one_more at_rest (pbuf_of (post_bytes small_post)) err_ok none_yet
        (recv-post page_files ready_tcp small_post at_rest small_post-IsPost refl))

sends-delivers_example :
    ((sends
        (ready_tcp ∷ busy_tcp ∷ ready_tcp ∷ ready_tcp ∷ ready_tcp ∷ ready_tcp ∷ [])
        0
        (record browser { file = codes "done"; left = 4 })).output
      ≡ codes "done")
    × ((sends
          (ready_tcp ∷ busy_tcp ∷ ready_tcp ∷ ready_tcp ∷ ready_tcp ∷ ready_tcp ∷ [])
          0
          (record browser { file = codes "done"; left = 4 })).closed
        ≡ true)
unfolding good_calls takes_bytes HaveU16
sends-delivers_example =
    sends-delivers (ready_tcp ∷ busy_tcp ∷ ready_tcp ∷ ready_tcp ∷ ready_tcp ∷ ready_tcp ∷ [])
      (codes "done") (record browser { file = codes "done"; left = 4 })
      record { rest = refl; left_known = refl; not_closed = refl }
      (omega arith, (omega arith, (omega arith, (omega arith, (omega arith, (omega arith, tt))))))
      (omega arith)
