-- ===== src/Tftp/Checksum.antt =====
-- The checksum loop of tftp_handle_data adds up the bytes, modulo 2 ^ 32.
use arm_ucos_proxy.Base.{
  ℕ, zero, suc, ◌+◌, ◌%◌, ◌<◌, ◌≡◌, refl, List, [], ◌∷◌, ◌++◌, take, drop, get_or, arith,
}
use native.Mathlib.Numerals.{add-one}
use arm_ucos_proxy.Tftp.State.{u32_mod}
use arm_ucos_proxy.Tftp.Image.{add_bytes}

abbrev pub sum_bytes : List ℕ → ℕ
sum_bytes [] = 0
sum_bytes (b ∷ bs) = b + sum_bytes bs

pub sum_bytes-append : (bs cs : List ℕ) → sum_bytes (bs ++ cs) ≡ sum_bytes bs + sum_bytes cs
sum_bytes-append [] cs = omega arith
sum_bytes-append (b ∷ bs) cs = omega (arith, sum_bytes-append bs cs)

sum_bytes-step :
    (p : List ℕ) (i n : ℕ)
    → sum_bytes (take (suc n) (drop i p)) ≡ get_or p i 0 + sum_bytes (take n (drop (suc i) p))
sum_bytes-step [] zero zero = omega arith
sum_bytes-step [] zero (suc n) = omega arith
sum_bytes-step [] (suc i) zero = omega arith
sum_bytes-step [] (suc i) (suc n) = omega arith
sum_bytes-step (b ∷ p) zero n = refl
sum_bytes-step (b ∷ p) (suc i) n = sum_bytes-step p i n

-- From a checksum below 2 ^ 32 the loop over n bytes from i on adds their sum, modulo 2 ^ 32.
pub add_bytes-eq-sum :
    (p : List ℕ) (i n acc : ℕ)
    → acc < u32_mod
    → add_bytes p i n acc ≡ (acc + sum_bytes (take n (drop i p))) % u32_mod
unfolding add_bytes
add_bytes-eq-sum p i zero acc h = omega arith
add_bytes-eq-sum p i (suc n) acc h = rw sum_bytes-step (
    rw (add_bytes-eq-sum p (i + 1) n ((acc + get_or p i 0) % u32_mod) (omega arith))
      (rw add-one (omega arith)))
