-- ===== src/Ports/Settings.antt =====
-- What a form makes of the settings of a port: each is set by the text of its value, and nothing
-- else changes.
use arm_ucos_proxy.Base.{
  ℕ, ◌<◌, ◌≡◌, ◌≢◌, refl, sym, ◌∙◌, List, [], ◌∷◌, Option, none, some, length, get_or, set,
  length-set, get_or-set_self, get_or-set_ne, lt→ltb, Bool-cases, inl, inr, if◌then◌else◌,
}
use arm_ucos_proxy.Base.Outcome.{done, Status, ok, err, Action, ◌>>◌, >>=-eq-done}
use arm_ucos_proxy.Ports.Text.{Text, mystrncmp, first_match}

-- The number of the first text that a value starts with.
unfoldable pub pick_code : List (Text × ℕ) → Text → Option ℕ
pick_code [] value = none
pick_code ((text, code) ∷ rest) value =
    let later = pick_code rest value in if mystrncmp value text then some code else later

-- What a form says of a setting: nothing, if it does not have the setting or no text fits.
unfoldable pub setting : List (Text × ℕ) → Option Text → Option ℕ
setting codes none = none
setting codes (some value) = pick_code codes value

-- The setting behind the form.
abbrev pub becomes : Option ℕ → ℕ → ℕ
becomes none old = old
becomes (some code) old = code

-- What a form does to a buffer: the number of ports and the other ports are kept, and the port's
-- own value changes as the relation says.
pub record Changes (own : ℕ → ℕ → Type 0) (portno : ℕ) (buf buf' : List ℕ) : Type 0 where
  pub size : length buf' ≡ length buf
  pub others : (j : ℕ) → j ≢ portno → get_or buf' j 0 ≡ get_or buf j 0
  pub changed : own (get_or buf portno 0) (get_or buf' portno 0)

-- An action that returns and changes the port so.
abbrev pub Sets : (ℕ → ℕ → Type 0) → ℕ → Action (List ℕ) Status → List ℕ → Type 0
Sets own portno act buf =
    (r : Status) × (buf' : List ℕ) × (act buf ≡ done (r, buf')) × Changes own portno buf buf'

module _ (portno : ℕ) where
  unchanged :
      (own : ℕ → ℕ → Type 0) (buf : List ℕ) → ((x : ℕ) → own x x) → Changes own portno buf buf
  unchanged own buf same = record { size = refl; others = λ j h. refl; changed = same _ }

  -- The changes of a table set the numbers of another one, text by text.
  abbrev pub AllSet : (Option ℕ → ℕ → ℕ → Type 0) → List (Text × (ℕ → ℕ)) → List (Text × ℕ) → Type 0
  AllSet own [] [] = Unit {0}
  AllSet own ((text, change) ∷ cases) ((text', code) ∷ codes) =
      (text ≡ text') × ((x : ℕ) → own (some code) x (change x)) × AllSet own cases codes
  AllSet own [] (code ∷ codes) = ⊥
  AllSet own (c ∷ cases) [] = ⊥

  pub first_match-Sets :
      (own : Option ℕ → ℕ → ℕ → Type 0) (cases : List (Text × (ℕ → ℕ))) (codes : List (Text × ℕ))
      (value : Text) (buf : List ℕ)
      → ((x : ℕ) → own none x x)
      → AllSet own cases codes
      → portno < length buf
      → Sets (own (pick_code codes value)) portno (first_match cases portno value) buf
  unfolding first_match pick_code
  first_match-Sets own [] [] value buf same k h = (err, buf, refl, unchanged (own none) buf same)
  first_match-Sets own [] (code ∷ codes) value buf same k h = absurd k
  first_match-Sets own (c ∷ cases) [] value buf same k h = absurd k
  first_match-Sets own ((text, change) ∷ cases) ((text', code) ∷ codes) value buf same (e, sets, k)
        h =
      rw (← e) (elim (Bool-cases (mystrncmp value text)) [
        | inl q ↦ rw q (
          ok,
          set buf portno (change (get_or buf portno 0)),
          rw (lt→ltb portno (length buf) h) refl,
          record {
            size = length-set buf portno _;
            others = λ j n. get_or-set_ne buf portno j _ 0 (λ e. n (sym e));
            changed = rw (get_or-set_self buf portno (change (get_or buf portno 0)) 0 h) (sets _);
          },
        )
        | inr q ↦ rw q (first_match-Sets own cases codes value buf same k h)
      ])

  pub Sets->> :
      (own own' both : ℕ → ℕ → Type 0) (m n : Action (List ℕ) Status) (buf : List ℕ)
      → ((x y z : ℕ) → own x y → own' y z → both x z)
      → Sets own portno m buf
      → ((b : List ℕ) → length b ≡ length buf → Sets own' portno n b)
      → Sets both portno (m >> n) buf
  Sets->> own own' both m n buf join (r, b, e, k) next =
      let (r', b', e', k') = next b k.size in
      (
        r',
        b',
        >>=-eq-done m (λ x. n) buf e ∙ e',
        record {
          size = k'.size ∙ k.size;
          others = λ j h. k'.others j h ∙ k.others j h;
          changed = join _ _ _ k.changed k'.changed;
        },
      )
