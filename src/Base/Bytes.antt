-- ===== src/Base/Bytes.antt =====
-- Bytes of memory: little-endian words, copies and single bits.
use Prim.Native.Nat.{ℕ, zero, suc, ◌+◌, ◌*◌, ◌/◌, ◌%◌, ◌^◌, ◌<◌}
use mathlib.Core.Path.{◌≡◌, refl, ap, ◌∙◌}
use mathlib.Core.Bool.{Bool}
use mathlib.Core.List.{List, [], ◌∷◌, ◌++◌}
use native.Mathlib.Omega.{arith}
use arm_ucos_proxy.Base.Tests.{◌==◌}
use arm_ucos_proxy.Base.Lists.{length, get_or, drop}

-- Loads of a u16 and a u32 at an offset. The target is little-endian.
abbrev pub load16 : List ℕ → ℕ → ℕ
load16 m o = get_or m o 0 + 256 * get_or m (o + 1) 0

abbrev pub load32 : List ℕ → ℕ → ℕ
load32 m o = load16 m o + 65536 * load16 m (o + 2)

-- `n` words of two or four bytes from an offset on.
pub load16s : List ℕ → ℕ → ℕ → List ℕ
load16s m o zero = []
load16s m o (suc n) = load16 m o ∷ load16s m (o + 2) n

pub length-load16s : (m : List ℕ) (o n : ℕ) → length (load16s m o n) ≡ n
unfolding load16s
length-load16s m o zero = refl
length-load16s m o (suc n) = ap suc (length-load16s m (o + 2) n)

pub get_or-load16s :
    (m : List ℕ) (o n i : ℕ) → i < n → get_or (load16s m o n) i 0 ≡ load16 m (o + 2 * i)
unfolding load16s
get_or-load16s m o zero i h = absurd (omega arith)
get_or-load16s m o (suc n) zero h = let e : o ≡ o + 2 * 0 = omega arith in ap (load16 m) e
get_or-load16s m o (suc n) (suc i) h =
    let e : o + 2 + 2 * i ≡ o + 2 * suc i = omega arith in
    get_or-load16s m (o + 2) n i (omega arith) ∙ ap (load16 m) e

pub load32s : List ℕ → ℕ → ℕ → List ℕ
load32s m o zero = []
load32s m o (suc n) = load32 m o ∷ load32s m (o + 4) n

-- memcpy of a whole source to the start of a buffer that holds it.
abbrev pub overwrite : List ℕ → List ℕ → List ℕ
overwrite src buf = src ++ drop (length src) buf

-- `x & (1 << i)`
abbrev pub test_bit : ℕ → ℕ → Bool
test_bit x i = x / 2 ^ i % 2 == 1
