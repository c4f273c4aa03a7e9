-- ===== src/Ports/Text.antt =====
-- The texts of the forms (USER/module_webserver/webserver_form_string.h), the parameters of a
-- request, and the digits that the pages write.
use arm_ucos_proxy.Base.{
  ℕ, ◌+◌, ◌-◌, ◌*◌, ◌/◌, ◌%◌, ◌^◌, ◌≡◌, ◌≤◌, refl, arith, ◌||◌, Bool, true, false, ◌&&◌, List, [],
  ◌∷◌, ◌++◌, Option, none, some, length, get_or, set, ltb, leb, ◌==◌, if◌then◌else◌,
}
use arm_ucos_proxy.Base.Outcome.{done, fault, Status, ok, err, Action}

-- A string is its bytes, without the zero at its end.
abbrev pub Text : Type 0
Text = List ℕ

-- LWIP_HTTPD_MAX_TAG_INSERT_LEN: the characters that a tag's text may have, without the zero.
abbrev pub max_tag_insert_len : ℕ
max_tag_insert_len = 511

-- A text that the buffer for a tag holds.
abbrev pub FitsTag : Text → Type 0
FitsTag text = length text ≤ max_tag_insert_len

-- "%E5%90%AF"
abbrev pub cgistr_enable : Text
cgistr_enable = 37 ∷ 69 ∷ 53 ∷ 37 ∷ 57 ∷ 48 ∷ 37 ∷ 65 ∷ 70 ∷ []

-- "%E5%85%B3"
abbrev pub cgistr_disable : Text
cgistr_disable = 37 ∷ 69 ∷ 53 ∷ 37 ∷ 56 ∷ 53 ∷ 37 ∷ 66 ∷ 51 ∷ []

-- "%E5%BC%80"
abbrev pub cgistr_open : Text
cgistr_open = 37 ∷ 69 ∷ 53 ∷ 37 ∷ 66 ∷ 67 ∷ 37 ∷ 56 ∷ 48 ∷ []

-- "%E5%85%B3"
abbrev pub cgistr_close : Text
cgistr_close = 37 ∷ 69 ∷ 53 ∷ 37 ∷ 56 ∷ 53 ∷ 37 ∷ 66 ∷ 51 ∷ []

-- "%E6%8A%91"
abbrev pub cgistr_trap_mask : Text
cgistr_trap_mask = 37 ∷ 69 ∷ 54 ∷ 37 ∷ 56 ∷ 65 ∷ 37 ∷ 57 ∷ 49 ∷ []

-- "%E5%85%81"
abbrev pub cgistr_trap_nomask : Text
cgistr_trap_nomask = 37 ∷ 69 ∷ 53 ∷ 37 ∷ 56 ∷ 53 ∷ 37 ∷ 56 ∷ 49 ∷ []

-- "%E6%AD%A3"
abbrev pub cgistr_loop_normal : Text
cgistr_loop_normal = 37 ∷ 69 ∷ 54 ∷ 37 ∷ 65 ∷ 68 ∷ 37 ∷ 65 ∷ 51 ∷ []

-- "%E7%BA%BF"
abbrev pub cgistr_loop_circuit : Text
cgistr_loop_circuit = 37 ∷ 69 ∷ 55 ∷ 37 ∷ 66 ∷ 65 ∷ 37 ∷ 66 ∷ 70 ∷ []

-- "%E8%AE%BE"
abbrev pub cgistr_loop_device : Text
cgistr_loop_device = 37 ∷ 69 ∷ 56 ∷ 37 ∷ 65 ∷ 69 ∷ 37 ∷ 66 ∷ 69 ∷ []

-- "%E5%8F%8C"
abbrev pub cgistr_loop_double : Text
cgistr_loop_double = 37 ∷ 69 ∷ 53 ∷ 37 ∷ 56 ∷ 70 ∷ 37 ∷ 56 ∷ 67 ∷ []

-- "%E5%BC%BA"
abbrev pub cgistr_force : Text
cgistr_force = 37 ∷ 69 ∷ 53 ∷ 37 ∷ 66 ∷ 67 ∷ 37 ∷ 66 ∷ 65 ∷ []

-- "%E8%87%AA"
abbrev pub cgistr_auto_nego : Text
cgistr_auto_nego = 37 ∷ 69 ∷ 56 ∷ 37 ∷ 56 ∷ 55 ∷ 37 ∷ 65 ∷ 65 ∷ []

-- "%E5%8D%8A"
abbrev pub cgistr_duplex_half : Text
cgistr_duplex_half = 37 ∷ 69 ∷ 53 ∷ 37 ∷ 56 ∷ 68 ∷ 37 ∷ 56 ∷ 65 ∷ []

-- "%E5%85%A8"
abbrev pub cgistr_duplex_full : Text
cgistr_duplex_full = 37 ∷ 69 ∷ 53 ∷ 37 ∷ 56 ∷ 53 ∷ 37 ∷ 65 ∷ 56 ∷ []

-- "success"
abbrev pub success_str : Text
success_str = 115 ∷ 117 ∷ 99 ∷ 99 ∷ 101 ∷ 115 ∷ 115 ∷ []

-- "fail"
abbrev pub fail_str : Text
fail_str = 102 ∷ 97 ∷ 105 ∷ 108 ∷ []

-- "_FE_"
abbrev pub fe_mark : Text
fe_mark = 95 ∷ 70 ∷ 69 ∷ 95 ∷ []

-- "board"
abbrev pub board_param : Text
board_param = 98 ∷ 111 ∷ 97 ∷ 114 ∷ 100 ∷ []

-- "portno"
abbrev pub portno_param : Text
portno_param = 112 ∷ 111 ∷ 114 ∷ 116 ∷ 110 ∷ 111 ∷ []

-- "ge"
abbrev pub ge_param : Text
ge_param = 103 ∷ 101 ∷ []

unfoldable pub text_equal : Text → Text → Bool
text_equal [] [] = true
text_equal (c ∷ s) (c' ∷ s') = (c == c') && text_equal s s'
text_equal _ _ = false

pub text_equal-eq : (s s' : Text) → text_equal s s' ≡ true → s ≡ s'
unfolding text_equal
text_equal-eq [] [] h = refl
text_equal-eq [] (c' ∷ s') h = absurd (cc)
text_equal-eq (c ∷ s) [] h = absurd (cc)
text_equal-eq (c ∷ s) (c' ∷ s') h = ground (arith, text_equal-eq s s')

-- mystrncmp(s, fix_str) is 0 exactly when `s` starts with `fix_str`.
unfoldable pub mystrncmp : Text → Text → Bool
mystrncmp s [] = true
mystrncmp [] (c' ∷ s') = false
mystrncmp (c ∷ s) (c' ∷ s') = (c == c') && mystrncmp s s'

-- The value of the first parameter of the name; the code indexes the values by -1 if there is none.
unfoldable pub find_cgi_parameter : Text → List (Text × Text) → Option Text
find_cgi_parameter name [] = none
find_cgi_parameter name ((param, value) ∷ rest) =
    if text_equal name param then some value else find_cgi_parameter name rest

-- The digits at the start of a text.
unfoldable pub digits_value : ℕ → Text → ℕ
digits_value n [] = n
digits_value n (c ∷ s) =
    let rest = digits_value (10 * n + (c - 48)) s in if leb 48 c && leb c 57 then rest else n

-- The characters that isspace accepts.
unfoldable pub skip_space : Text → Text
skip_space [] = []
skip_space (c ∷ s) =
    let rest = skip_space s in if c == 32 || (leb 9 c && leb c 13) then rest else c ∷ s

-- atoi, as an unsigned number of 32 bits: a negative number is one behind every array.
unfoldable pub atoi : Text → ℕ
atoi text = elim (skip_space text) [
  | [] ↦ 0
  | c ∷ s ↦
      if c == 45
      then (if digits_value 0 s == 0 then 0 else 2 ^ 32 - digits_value 0 s)
      else if c == 43
      then digits_value 0 s
      else digits_value 0 (c ∷ s)
]

unfoldable pub ntoalpha : ℕ → ℕ
ntoalpha n =
    if ltb n 10
    then 48 + n
    else if ltb n 36
    then 97 + n - 10
    else if ltb n 62
    then 65 + n - 36
    else 48

-- A digit of %x, and the texts of %02x and %04x.
unfoldable pub hex_digit : ℕ → ℕ
hex_digit n = if ltb n 10 then 48 + n else 87 + n

abbrev pub hex2 : ℕ → Text
hex2 x = hex_digit (x / 16 % 16) ∷ hex_digit (x % 16) ∷ []

abbrev pub hex4 : ℕ → Text
hex4 x = hex2 (x / 256) ++ hex2 (x % 256)

-- A field of `width` bits from bit `at`.
unfoldable pub set_field : ℕ → ℕ → ℕ → ℕ → ℕ
set_field at width v x = x % 2 ^ at + v * 2 ^ at + x / 2 ^ (at + width) * 2 ^ (at + width)

-- Changes the port's element of the buffer by the first text that the value starts with. An index
-- behind the buffer faults.
unfoldable pub first_match : List (Text × (ℕ → ℕ)) → ℕ → Text → Action (List ℕ) Status
first_match [] portno value buf = done (err, buf)
first_match ((text, change) ∷ rest) portno value buf =
    let later = first_match rest portno value buf in
    if mystrncmp value text
    then (if ltb portno (length buf)
        then done (ok, set buf portno (change (get_or buf portno 0)))
        else fault)
    else later
