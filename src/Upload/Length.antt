-- ===== src/Upload/Length.antt =====
-- Parse_Content_Length on a request: the number behind "Content-Length: ".
use arm_ucos_proxy.Base.{
  ℕ, zero, suc, ◌+◌, ◌-◌, ◌*◌, ◌%◌, ◌^◌, ◌≤◌, ◌<◌, ◌≡◌, refl, sym, ap, ◌∙◌, Bool, true, false, ◌&&◌,
  List, [], ◌∷◌, ◌++◌, length, drop, leb, drop-append, length-append, ◌==◌, arith,
}
use native.Mathlib.Numerals.{unary_clauses}
use arm_ucos_proxy.Base.Outcome.{done}
use arm_ucos_proxy.Ports.Text.{digits_value}
use arm_ucos_proxy.Upload.State.{u32_mod, content_length}
use arm_ucos_proxy.Upload.Parse.{until_return, digits_size, parse_content_length}
use arm_ucos_proxy.Upload.Search.{absent, find_text-some}

-- All characters are decimal digits.
unfoldable pub all_digits : List ℕ → Bool
all_digits [] = true
all_digits (c ∷ digits) = leb 48 c && leb c 57 && all_digits digits

until_return-digits :
    (digits rest : List ℕ) (room : ℕ)
    → length digits ≤ room
    → all_digits digits ≡ true
    → until_return room (digits ++ 13 ∷ rest) ≡ done digits
unfolding until_return all_digits
until_return-digits [] rest room h ds = refl
until_return-digits (c ∷ digits) rest zero h ds = absurd (omega arith)
until_return-digits (c ∷ digits) rest (suc room) h ds =
    let ds' : all_digits digits ≡ true = ground arith in
    let other : (c == 13) ≡ false = ground arith in
    rw (until_return-digits digits rest room (omega arith) ds', other) refl

pow_le : (k : ℕ) → k ≤ 5 → 10 ^ k ≤ 100000
pow_le zero h = omega arith
pow_le (suc zero) h = omega arith
pow_le (suc (suc zero)) h = omega arith
pow_le (suc (suc (suc zero))) h = omega arith
pow_le (suc (suc (suc (suc zero)))) h = omega arith
pow_le (suc (suc (suc (suc (suc zero))))) h = omega arith
pow_le (suc (suc (suc (suc (suc (suc k)))))) h = absurd (omega arith)

digit-bound : (d p : ℕ) → d ≤ 9 → d * p ≤ 9 * p
digit-bound d p h = grind arith

combine : (n d p v : ℕ) → (10 * n + d) * p + v ≡ n * (p * 10) + (v + d * p)
combine n d p v = grind arith

-- The difference of a character and '0' counts below 2 ^ 32.
size-step : (v p d : ℕ) → d ≤ 9 → v < p → p ≤ 100000 → (v + (d + u32_mod) * p) % u32_mod ≡ v + d * p
size-step v p d h h' h'' = let b = digit-bound d p h in omega arith

-- Read from the front, as atoi does, a number in front adds its value times a power of ten.
digits_value-size :
    (digits : List ℕ) (n : ℕ)
    → length digits ≤ 6
    → all_digits digits ≡ true
    → digits_value n digits ≡ n * (digits_size digits).1 + (digits_size digits).0
      × ((digits_size digits).1 ≡ 10 ^ length digits)
      × ((digits_size digits).0 < 10 ^ length digits)
unfolding digits_value all_digits digits_size
digits_value-size [] n h ds = (omega arith, refl, omega arith)
digits_value-size (c ∷ digits) n h ds =
    let (value, power, bound) =
      digits_value-size digits (10 * n + (c - 48)) (omega arith) (ground arith) in
    let b₁ : 48 ≤ c = ground arith in
    let b₂ : c ≤ 57 = ground arith in
    let small = pow_le (length digits) (omega arith) in
    let (v, p) = digits_size digits in
    let step = size-step v p (c - 48) (omega arith) (omega arith) (omega arith) in
    let e : c + u32_mod - 48 ≡ c - 48 + u32_mod = omega arith in
    let d_le = digit-bound (c - 48) p (omega arith) in
    let ten : 10 ^ suc (length digits) ≡ 10 * 10 ^ length digits =
      simp unary_clauses (omega arith) in
    let both : (leb 48 c && leb c 57) ≡ true = ground arith in
    let whole : p * 10 % u32_mod ≡ p * 10 = omega arith in
    rw (both, e, step)
      (
        value ∙ rw whole (combine n (c - 48) p v),
        omega (arith, power, ten),
        omega (arith, power, ten),
      )

digits_size-lt : (digits : List ℕ) → (digits_size digits).0 < u32_mod
unfolding digits_size
digits_size-lt [] = omega arith
digits_size-lt (c ∷ digits) = omega arith

pub digits_value-lt :
    (digits : List ℕ)
    → length digits ≤ 6
    → all_digits digits ≡ true
    → digits_value 0 digits < u32_mod
digits_value-lt digits short ds =
    omega (arith, digits_size-lt digits, (digits_value-size digits 0 short ds).0)

-- The length behind the first "Content-Length: " in the packet, in at most six decimal digits up
-- to a carriage return, is the number that the digits say, and the place behind the digits is
-- kept.
pub parse_content_length-digits :
    (front digits rest : List ℕ) (n : ℕ)
    → length front < n
    → absent content_length front ≡ true
    → length digits ≤ 6
    → all_digits digits ≡ true
    → parse_content_length (front ++ content_length ++ (digits ++ 13 ∷ rest)) n
      ≡ done (digits_value 0 digits, length front + 16 + length digits)
unfolding parse_content_length
parse_content_length-digits front digits rest n h free short ds =
    let found = find_text-some content_length front (digits ++ 13 ∷ rest) n (omega arith) h free in
    let behind : drop (length front + 16) (front ++ content_length ++ (digits ++ 13 ∷ rest))
        ≡ digits ++ 13 ∷ rest =
      ap (λ k. drop k (front ++ content_length ++ (digits ++ 13 ∷ rest)))
        (sym (length-append front content_length))
      ∙ drop-append (front ++ content_length) (digits ++ 13 ∷ rest) in
    let copied = until_return-digits digits rest 6 short ds in
    let value : digits_value 0 digits ≡ (digits_size digits).0 =
      omega (arith, (digits_value-size digits 0 short ds).0) in
    rw (parse_content_length, found, behind, copied, value) refl
