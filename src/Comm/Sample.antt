-- ===== src/Comm/Sample.antt =====
-- A device with two boards, which the examples use.
use arm_ucos_proxy.Base.{
  ℕ, zero, suc, ◌%◌, ◌≤◌, ◌<◌, ◌≡◌, ◌&&◌, ltb, get_or, subst, Bool, true, false, refl, sym, ap,
  List, [], ◌∷◌, Option, none, some, length, replicate, ◌==◌, if◌then◌else◌, take-append, take_all,
  Bool-cases, inl, inr, arith,
}
use arm_ucos_proxy.Comm.State.{
  web_seq_field, web_threadid_field, zero_head, zero_opt, zero_eth, zero_e1, zero_bulb_ver,
  FrameHead, WebDybFrame, WebCtrlComm, Codes, Exchange,
}
use arm_ucos_proxy.Comm.Require.{request_frame}
use arm_ucos_proxy.Comm.Captures.{last_frame, replies}
use arm_ucos_proxy.Comm.Answers.{IsSafe}
use arm_ucos_proxy.Comm.Device.{Delivers}
use arm_ucos_proxy.Comm.Responds.{Device}
use arm_ucos_proxy.Base.Bytes.{load16}

abbrev pub some_codes : Codes
some_codes = record {
  setconfig = 1;
  getconfigparam = 2;
  alterid = 1;
  remote_alterid = 2;
  board_exist = 3;
  bulb_ver = 4;
  opt_config = 5;
  opt_state = 6;
  eth_ge_config = 7;
  eth_fe_config = 8;
  e1_config_state = 9;
}

-- The link's answers to a parameter: the boards 0 (with the ports) and 1 (with E1).
abbrev pub answers : List (ℕ × List ℕ)
answers =
    (3, 3 ∷ 0 ∷ 0x32 ∷ 1 ∷ 6 ∷ 0x80 ∷ 8 ∷ 0 ∷ 2 ∷ 0x80 ∷ replicate 30 0)
    ∷ (4, replicate 16 0x12)
    ∷ (5, replicate 8 0x80)
    ∷ (6, replicate 8 0x0f)
    ∷ (7, replicate 8 0x81)
    ∷ (8, replicate 32 0x82)
    ∷ (9, replicate 32 0x83)
    ∷ []

unfoldable pub find_answer : ℕ → List (ℕ × List ℕ) → Option (List ℕ)
find_answer ext [] = none
find_answer ext ((n, bytes) ∷ rest) = if ext == n then some bytes else find_answer ext rest

abbrev pub reply_frame : List ℕ → WebDybFrame
reply_frame bytes = record {
  hdr = record zero_head {
    server_seq = web_seq_field;
    thread_netid = web_threadid_field;
    cmd_len = length bytes;
  };
  body = bytes;
}

abbrev pub exchange_of : Option (List ℕ) → Exchange
exchange_of none = record { early = []; reply = [] }
exchange_of (some bytes) = record { early = []; reply = reply_frame bytes ∷ [] }

abbrev pub example_answer : FrameHead → Option (List ℕ)
example_answer head =
    if head.dst_deviceid == 0xffff then some (5 ∷ 1 ∷ []) else find_answer head.cmd_ext answers

abbrev pub example_link : List WebDybFrame → Exchange
example_link [] = exchange_of none
example_link (f ∷ fs) = exchange_of (example_answer f.hdr)

abbrev pub AtMost256 : Option (List ℕ) → Type 0
AtMost256 none = Unit
AtMost256 (some bytes) = length bytes ≤ 256

pub exchange_of-Delivers : (o : Option (List ℕ)) → AtMost256 o → Delivers (exchange_of o) o
unfolding last_frame replies
exchange_of-Delivers none h = (record { early = tt; reply = tt }, refl)
exchange_of-Delivers (some bytes) h = (
  record { early = tt; reply = ((h, (omega arith)), tt) },
  (omega arith),
  λ old. rw (take_all (length bytes) bytes (omega arith)) (take-append bytes _),
)

abbrev pub AllAtMost256 : List (ℕ × List ℕ) → Type 0
AllAtMost256 [] = Unit
AllAtMost256 ((n, bytes) ∷ rest) = (length bytes ≤ 256) × AllAtMost256 rest

pub find_answer-AtMost256 :
    (ext : ℕ) (t : List (ℕ × List ℕ)) → AllAtMost256 t → AtMost256 (find_answer ext t)
unfolding find_answer
find_answer-AtMost256 ext [] h = tt
find_answer-AtMost256 ext ((n, bytes) ∷ rest) h = elim (Bool-cases (ext == n)) [
  | inl q ↦ rw (find_answer, q) (h.0)
  | inr q ↦ rw (find_answer, q) (find_answer-AtMost256 ext rest h.1)
]

pub answers-AtMost256 : AllAtMost256 answers
answers-AtMost256 = (
  (omega arith),
  (
    (omega arith),
    ((omega arith), ((omega arith), ((omega arith), ((omega arith), ((omega arith), tt))))),
  ),
)

unfoldable are_bytes : List ℕ → Bool
are_bytes [] = true
are_bytes (x ∷ xs) = ltb x 256 && are_bytes xs

are_bytes-get_or : (xs : List ℕ) (k : ℕ) → are_bytes xs ≡ true → get_or xs k 0 < 256
unfolding are_bytes
are_bytes-get_or [] k h = omega arith
are_bytes-get_or (x ∷ xs) zero h = ground arith
are_bytes-get_or (x ∷ xs) (suc k) h = are_bytes-get_or xs k (ground arith)

unfoldable all_bytes : List (ℕ × List ℕ) → Bool
all_bytes [] = true
all_bytes ((n, bytes) ∷ rest) = are_bytes bytes && all_bytes rest

abbrev OfBytes : Option (List ℕ) → Type 0
OfBytes none = Unit
OfBytes (some bytes) = are_bytes bytes ≡ true

find_answer-OfBytes :
    (ext : ℕ) (t : List (ℕ × List ℕ)) → all_bytes t ≡ true → OfBytes (find_answer ext t)
unfolding find_answer all_bytes
find_answer-OfBytes ext [] h = tt
find_answer-OfBytes ext ((n, bytes) ∷ rest) h = elim (Bool-cases (ext == n)) [
  | inl q ↦ rw (find_answer, q) (ground arith)
  | inr q ↦ rw (find_answer, q) (find_answer-OfBytes ext rest (ground arith))
]

abbrev pub board_answer : ℕ → ℕ → Option (List ℕ)
board_answer board ext = find_answer (ext % 256) answers

pub board_answer-bytes :
    (board ext k : ℕ) (b : List ℕ) → board_answer board ext ≡ some b → get_or b k 0 < 256
unfolding all_bytes are_bytes
board_answer-bytes board ext k b e =
    are_bytes-get_or b k (subst OfBytes e (find_answer-OfBytes (ext % 256) answers refl))

exchange_of-IsSafe : (o : Option (List ℕ)) → AtMost256 o → IsSafe (exchange_of o)
exchange_of-IsSafe none h = (exchange_of-Delivers none h).0
exchange_of-IsSafe (some bytes) h = (exchange_of-Delivers (some bytes) h).0

pub example_link-IsSafe : (sent : List WebDybFrame) → IsSafe (example_link sent)
example_link-IsSafe [] = exchange_of-IsSafe none tt
example_link-IsSafe (f ∷ fs) =
    exchange_of-IsSafe (example_answer f.hdr) (short (f.hdr.dst_deviceid == 0xffff))
  where
    short :
        (everyone : Bool)
        → AtMost256 (if everyone then some (5 ∷ 1 ∷ []) else find_answer f.hdr.cmd_ext answers)
    short true = omega arith
    short false = find_answer-AtMost256 f.hdr.cmd_ext answers answers-AtMost256

abbrev pub number_of : Option (List ℕ) → ℕ
number_of none = 0
number_of (some b) = load16 b 0

unfoldable pub example_device : Device some_codes example_link
unfolding request_frame find_answer
example_device = record {
  id = 261;
  number = λ ext. some (5 ∷ 1 ∷ []);
  answer = board_answer;
  numbered = λ ext sent. exchange_of-Delivers (some (5 ∷ 1 ∷ [])) (omega arith);
  answered = λ board ext sent.
      exchange_of-Delivers (board_answer board ext)
        (find_answer-AtMost256 (ext % 256) answers answers-AtMost256);
  number_size = λ ext. refl;
  number_id = λ ext b h. sym (ap number_of h);
  exist_size = refl;
  bulb_ver_size = λ i. refl;
  opt_config_size = λ i. refl;
  opt_state_size = λ i. refl;
  ge_size = λ i. refl;
  fe_size = λ i. refl;
  e1_size = λ i. refl;
}

-- The pages' state after start up.
abbrev pub start : WebCtrlComm
start = record {
  wait_sem = 0;
  ll_access_mtx = 1;
  frame = record { hdr = zero_head; body = replicate 256 0 };
  dev_id = 0;
  boards_exist = record { exist = 0; type = replicate 9 0 };
  bulb_ver = replicate 9 zero_bulb_ver;
  opt = replicate 9 zero_opt;
  eth = replicate 9 zero_eth;
  e1 = replicate 9 zero_e1;
  cr_remote_chosen = 0;
  sent = [];
}
