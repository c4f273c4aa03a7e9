-- ===== src/Upload/Search.antt =====
-- Marks in a packet: where the searches of Upload/Parse.antt find them.
use arm_ucos_proxy.Base.{
  ℕ, zero, suc, ◌+◌, ◌-◌, ◌≤◌, ◌<◌, ◌≡◌, refl, ap, ◌∙◌, Bool, true, false, ◌&&◌, ◌||◌, not, List,
  [], ◌∷◌, ◌++◌, none, some, length, drop, length-append, ◌==◌, arith,
}
use arm_ucos_proxy.Base.Outcome.{done}
use arm_ucos_proxy.Ports.Text.{mystrncmp}
use arm_ucos_proxy.Upload.State.{http_crnl_2}
use arm_ucos_proxy.Upload.Parse.{find_text, find_boundary, copy_filename}

-- The text starts at no place of `bytes` when it stands right behind them.
unfoldable pub absent : List ℕ → List ℕ → Bool
absent text [] = true
absent text (c ∷ bytes) = not (mystrncmp (c ∷ bytes ++ text) text) && absent text bytes

-- The text starts at some place of the bytes.
unfoldable pub holds : List ℕ → List ℕ → Bool
holds text [] = mystrncmp [] text
holds text (c ∷ bytes) = mystrncmp (c ∷ bytes) text || holds text bytes

pub mystrncmp_self : (text rest : List ℕ) → mystrncmp (text ++ rest) text ≡ true
unfolding mystrncmp
mystrncmp_self [] rest = refl
mystrncmp_self (c ∷ text) rest = let ih = mystrncmp_self text rest in ground arith

pub mystrncmp-append :
    (text bytes rest : List ℕ)
    → length text ≤ length bytes
    → mystrncmp (bytes ++ rest) text ≡ mystrncmp bytes text
unfolding mystrncmp
mystrncmp-append [] bytes rest h = refl
mystrncmp-append (c ∷ text) [] rest h = absurd (omega arith)
mystrncmp-append (c ∷ text) (c' ∷ bytes) rest h =
    rw (mystrncmp-append text bytes rest (omega arith)) refl

pub find_text-some :
    (text bytes rest : List ℕ) (n : ℕ)
    → 0 < length text
    → length bytes < n
    → absent text bytes ≡ true
    → find_text text n (bytes ++ text ++ rest) ≡ some (length bytes)
unfolding find_text absent
find_text-some text bytes rest zero some_text h free = absurd (omega arith)
find_text-some [] [] rest (suc n) some_text h free = absurd (omega arith)
find_text-some (c ∷ text) [] rest (suc n) some_text h free =
    rw (mystrncmp_self (c ∷ text) rest) refl
find_text-some text (c ∷ bytes) rest (suc n) some_text h free =
    let free' : absent text bytes ≡ true = ground arith in
    let other : mystrncmp (c ∷ bytes ++ text) text ≡ false = ground arith in
    let same : mystrncmp (c ∷ bytes ++ text ++ rest) text ≡ mystrncmp (c ∷ bytes ++ text) text =
      mystrncmp-append text (c ∷ bytes ++ text) rest (omega (arith, length-append bytes text)) in
    rw (find_text-some text bytes rest n some_text (omega arith) free') (rw (same ∙ other) refl)

pub find_text-none :
    (text bytes : List ℕ) (n : ℕ) → holds text bytes ≡ false → find_text text n bytes ≡ none
unfolding find_text holds
find_text-none text bytes zero free = refl
find_text-none text [] (suc n) free = refl
find_text-none text (c ∷ bytes) (suc n) free =
    let free' : holds text bytes ≡ false = ground arith in
    let other : mystrncmp (c ∷ bytes) text ≡ false = ground arith in
    rw (find_text-none text bytes n free', other) refl

holds-drop :
    (text bytes : List ℕ) (k : ℕ) → holds text bytes ≡ false → mystrncmp (drop k bytes) text ≡ false
unfolding holds
holds-drop text [] zero free = free
holds-drop text [] (suc k) free = free
holds-drop text (c ∷ bytes) zero free = ground arith
holds-drop text (c ∷ bytes) (suc k) free = holds-drop text bytes k (ground arith)

boundary-later :
    (tail : List ℕ) (k : ℕ)
    → holds http_crnl_2 tail ≡ false
    → mystrncmp (drop (suc k) (http_crnl_2 ++ tail)) http_crnl_2 ≡ false
unfolding mystrncmp
boundary-later tail zero free = refl
boundary-later tail (suc zero) free = refl
boundary-later tail (suc (suc zero)) free = refl
boundary-later tail (suc (suc (suc k))) free = holds-drop http_crnl_2 tail k free

pub drop-front :
    (front bytes : List ℕ) (k n : ℕ) → n ≡ length front + k → drop n (front ++ bytes) ≡ drop k bytes
drop-front [] bytes k n h = let e : n ≡ k = omega arith in rw e
drop-front (c ∷ front) bytes k zero h = absurd (omega arith)
drop-front (c ∷ front) bytes k (suc n) h = drop-front front bytes k n (omega arith)

-- The search from the end on passes over `j` places to the mark.
pub find_boundary-some :
    (front tail : List ℕ) (j n i : ℕ)
    → holds http_crnl_2 tail ≡ false
    → i + j ≡ 4 + length tail
    → 4 ≤ i
    → j < n
    → find_boundary n i (length (front ++ (http_crnl_2 ++ tail))) (front ++ (http_crnl_2 ++ tail))
      ≡ some (4 + length tail)
unfolding find_boundary
find_boundary-some front tail zero zero i free e h h' = absurd (omega arith)
find_boundary-some front tail zero (suc n) i free e h h' =
    let whole = length-append front (http_crnl_2 ++ tail) in
    let total = length (front ++ (http_crnl_2 ++ tail)) in
    let here = drop-front front (http_crnl_2 ++ tail) 0 (total - i) (omega (arith, whole)) in
    rw (here, mystrncmp_self http_crnl_2 tail) (ap some (omega arith))
find_boundary-some front tail (suc j) zero i free e h h' = absurd (omega arith)
find_boundary-some front tail (suc j) (suc n) i free e h h' =
    let whole = length-append front (http_crnl_2 ++ tail) in
    let total = length (front ++ (http_crnl_2 ++ tail)) in
    let here = drop-front front (http_crnl_2 ++ tail) (suc j) (total - i) (omega (arith, whole)) in
    rw (here, boundary-later tail j free)
      (find_boundary-some front tail j n (i + 1) free (omega arith) (omega arith) (omega arith))

-- The name up to the quote is copied if it and its zero fit.
pub copy_filename-name :
    (name rest : List ℕ) (room : ℕ)
    → length name ≤ room
    → absent (34 ∷ []) name ≡ true
    → copy_filename room (name ++ 34 ∷ rest) ≡ done name
unfolding copy_filename absent mystrncmp
copy_filename-name [] rest room h free = refl
copy_filename-name (c ∷ name) rest zero h free = absurd (omega arith)
copy_filename-name (c ∷ name) rest (suc room) h free =
    let free' : absent (34 ∷ []) name ≡ true = ground arith in
    let other : (c == 34) ≡ false = ground arith in
    rw (copy_filename-name name rest room (omega arith) free', other) refl
