-- ===== src/Upload/Parse.antt =====
-- The searches in a packet and Parse_Content_Length.
use arm_ucos_proxy.Base.{
  ℕ, zero, suc, ◌+◌, ◌-◌, ◌*◌, ◌%◌, List, [], ◌∷◌, Option, none, some, length, drop, ◌==◌,
  if◌then◌else◌,
}
use arm_ucos_proxy.Base.Outcome.{Outcome, done, fault, and_then}
use arm_ucos_proxy.Ports.Text.{mystrncmp}
use arm_ucos_proxy.Upload.State.{u32_mod, content_length, http_crnl_2}

-- `for (i=0;i<len;i++) if (strncmp(data+i, text, n)==0)`, with the number of rounds left: the
-- place of the first match.
unfoldable pub find_text : List ℕ → ℕ → List ℕ → Option ℕ
find_text text zero memory = none
find_text text (suc n) [] = none
find_text text (suc n) (c ∷ memory) =
    let later = find_text text n memory in
    if mystrncmp (c ∷ memory) text
    then some 0
    else elim later [ none ↦ none | some i ↦ some (suc i) ]

-- `while(*(ptr+i)!=0x0d)`, with the room that is left in sizestring. A seventh character is
-- written behind it.
unfoldable pub until_return : ℕ → List ℕ → Outcome (List ℕ)
until_return room [] = fault
until_return room (c ∷ memory) = if c == 13 then done [] else elim room [
  | zero ↦ fault
  | suc room' ↦ and_then (until_return room' memory) λ rest. done (c ∷ rest)
]

-- The loop over the digits from the last one on, modulo 2 ^ 32; plain char is unsigned here.
unfoldable pub digits_size : List ℕ → ℕ × ℕ
digits_size [] = (0, 1)
digits_size (c ∷ digits) =
    let (size, s) = digits_size digits in
    ((size + (c + u32_mod - 48) * s) % u32_mod, s * 10 % u32_mod)

-- The size, and ContentLengthOffset, the place behind the digits.
unfoldable pub parse_content_length : List ℕ → ℕ → Outcome (ℕ × ℕ)
parse_content_length memory len = elim (find_text content_length len memory) [
  | none ↦ done (0, 0)
  | some i ↦
      and_then (until_return 6 (drop (i + 16) memory))
        λ digits. done ((digits_size digits).0, i + 16 + length digits)
]

-- `for( i=4 ; i <= p->tot_len ; ++i)` with the number of rounds left: how far from the end the
-- boundary starts.
unfoldable pub find_boundary : ℕ → ℕ → ℕ → List ℕ → Option ℕ
find_boundary zero i tot_len memory = none
find_boundary (suc n) i tot_len memory =
    let later = find_boundary n (i + 1) tot_len memory in
    if mystrncmp (drop (tot_len - i) memory) http_crnl_2 then some i else later

-- The copy into filename, with the room that is left before its last byte, which the zero at the
-- end takes; a name that fills it has its zero written behind it.
unfoldable pub copy_filename : ℕ → List ℕ → Outcome (List ℕ)
copy_filename room [] = fault
copy_filename room (c ∷ memory) = if c == 34 then done [] else elim room [
  | zero ↦ fault
  | suc room' ↦ and_then (copy_filename room' memory) λ rest. done (c ∷ rest)
]
