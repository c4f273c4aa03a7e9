-- ===== src/Pages/Filename.antt =====
-- update_filename_crop of USER/module_webserver/webserver_update.c: the name behind the last
-- backslash of the path that a browser sends.
use arm_ucos_proxy.Base.{
  ◌+◌, ◌<◌, ◌≡◌, ◌≢◌, ==_ne, refl, true, [], ◌∷◌, ◌++◌, Option, none, some, length, drop, ltb,
  if◌then◌else◌, length-append, arith,
}
use arm_ucos_proxy.Base.Outcome.{Outcome, done, fault}
use arm_ucos_proxy.Ports.Text.{Text, mystrncmp}

-- "%5C"
abbrev pub backslash : Text
backslash = 37 ∷ 53 ∷ 67 ∷ []

-- The loop from the end of the text to its start, which stops at the first place with the mark.
unfoldable pub behind_last : Text → Option Text
behind_last [] = none
behind_last (c ∷ s) =
    let later = behind_last s in
    elim later [
      | some t ↦ some t
      | none ↦ if mystrncmp (c ∷ s) backslash then some (drop 3 (c ∷ s)) else none
    ]

-- The copy of the text has 128 bytes, and no test guards it.
unfoldable pub update_filename_crop : Text → Outcome Text
update_filename_crop raw =
    if ltb (length raw) 128
    then done (elim (behind_last raw) [ some t ↦ t | none ↦ raw ])
    else fault

-- A name without encoded characters.
abbrev pub HasNoPercent : Text → Type 0
HasNoPercent [] = Unit
HasNoPercent (c ∷ s) = (c ≢ 37) × HasNoPercent s

behind_last-none : (name : Text) → HasNoPercent name → behind_last name ≡ none
unfolding behind_last mystrncmp
behind_last-none [] h = refl
behind_last-none (c ∷ s) h = rw (behind_last, behind_last-none s h.1, ==_ne c 37 h.0) refl

behind_last-append :
    (dir name : Text)
    → behind_last name ≡ none
    → behind_last (dir ++ 37 ∷ 53 ∷ 67 ∷ name) ≡ some name
unfolding behind_last mystrncmp
behind_last-append [] name h = rw (behind_last, h) refl
behind_last-append (d ∷ dir) name h = rw (behind_last, behind_last-append dir name h) refl

-- The crop of a path of less than 128 bytes is the name behind its last mark, if the name has no
-- encoded characters; the directories before it may have any, other marks among them.
pub update_filename_crop-append :
    (dir name : Text)
    → HasNoPercent name
    → length dir + 3 + length name < 128
    → update_filename_crop (dir ++ 37 ∷ 53 ∷ 67 ∷ name) ≡ done name
unfolding update_filename_crop
update_filename_crop-append dir name h short =
    let size : length (dir ++ 37 ∷ 53 ∷ 67 ∷ name) < 128 =
      omega (arith, length-append dir (37 ∷ 53 ∷ 67 ∷ name)) in
    let fits : ltb (length (dir ++ 37 ∷ 53 ∷ 67 ∷ name)) 128 ≡ true = ground arith in
    rw (update_filename_crop, fits, behind_last-append dir name (behind_last-none name h)) refl
