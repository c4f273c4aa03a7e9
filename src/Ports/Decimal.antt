-- ===== src/Ports/Decimal.antt =====
-- The digits that sprintf writes for %d, and what atoi reads of them.
use arm_ucos_proxy.Base.{
  length, length-append, ltb→lt, append_assoc, ℕ, zero, suc, ◌+◌, ◌-◌, ◌*◌, ◌/◌, ◌%◌, ◌^◌, ◌≤◌, ◌<◌,
  ◌≡◌, refl, ap, ◌∙◌, true, Bool-cases, inl, inr, ◌&&◌, [], ◌∷◌, ◌++◌, ltb, leb, if◌then◌else◌,
  arith,
}
use native.Mathlib.Numerals.{unary_clauses}
use arm_ucos_proxy.Ports.Text.{Text, digits_value}

-- %d of a number of at most so many digits.
unfoldable pub decimal : ℕ → ℕ → Text
decimal zero n = []
decimal (suc digits) n =
    let front = decimal digits (n / 10) in
    if ltb n 10 then (48 + n) ∷ [] else front ++ (48 + n % 10) ∷ []

pub decimal-short : (digits n : ℕ) → length (decimal digits n) ≤ digits
unfolding decimal
decimal-short zero n = omega arith
decimal-short (suc digits) n =
    let front = decimal-short digits (n / 10) in
    elim (Bool-cases (ltb n 10)) [
      | inl e ↦ rw e (omega arith)
      | inr e ↦ rw e (omega (arith, length-append (decimal digits (n / 10)) ((48 + n % 10) ∷ [])))
    ]

digits_value-digit :
    (c v : ℕ) (text : Text)
    → 48 ≤ c
    → c ≤ 57
    → digits_value v (c ∷ text) ≡ digits_value (10 * v + (c - 48)) text
unfolding digits_value
digits_value-digit c v text h h' = let e : (leb 48 c && leb c 57) ≡ true = ground arith in rw e refl

one-digit :
    (digits n : ℕ) (rest : Text)
    → n < 10
    → digits_value 0 (decimal (suc digits) n ++ rest) ≡ digits_value n rest
unfolding decimal
one-digit digits n rest h =
    let e : ltb n 10 ≡ true = ground arith in
    let v : 10 * 0 + (48 + n - 48) ≡ n = omega arith in
    rw e (
      digits_value-digit (48 + n) 0 rest (omega arith) (omega arith)
      ∙ ap (λ k. digits_value k rest) v)

-- The value of digits in front of a text goes on with the text.
pub digits_value-decimal_rest :
    (digits n : ℕ) (rest : Text)
    → n < 10 ^ suc digits
    → digits_value 0 (decimal (suc digits) n ++ rest) ≡ digits_value n rest
unfolding decimal
digits_value-decimal_rest zero n rest h = one-digit zero n rest h
digits_value-decimal_rest (suc digits) n rest h =
    let c = 48 + n % 10 in
    elim (Bool-cases (ltb n 10)) [
      | inl e ↦ one-digit (suc digits) n rest (ltb→lt n 10 e)
      | inr e ↦
          let power : 10 ^ suc (suc digits) ≡ 10 * 10 ^ suc digits =
            simp unary_clauses (omega arith) in
          let v : 10 * (n / 10) + (c - 48) ≡ n = omega arith in
          rw e (
            ap (digits_value 0) (append_assoc (decimal (suc digits) (n / 10)) (c ∷ []) rest)
            ∙ digits_value-decimal_rest digits (n / 10) (c ∷ rest) (omega (arith, power))
            ∙ digits_value-digit c (n / 10) rest (omega arith) (omega arith)
            ∙ ap (λ k. digits_value k rest) v)
    ]
