-- ===== src/Comm/Rows.antt =====
-- The loops over the boards update one row of a table a round.
use arm_ucos_proxy.Base.{
  ℕ, zero, suc, ◌+◌, ◌≤◌, ◌<◌, ◌≡◌, ◌≢◌, refl, ◌∙◌, List, length, get_or, set, length-set,
  get_or-set_self, get_or-set_ne, arith,
}
use native.Mathlib.Decide.{ℕ_discrete}
use arm_ucos_proxy.Base.Outcome.{done, Action, ◌>>=◌}
use arm_ucos_proxy.Comm.State.{WebCtrlComm}
use arm_ucos_proxy.Comm.Read.{for_boards}

module _ {A : Type 0} (rows : WebCtrlComm → List A) (blank : A) (next : ℕ → A → A)
    (K : WebCtrlComm → Type 0) (body : ℕ → Action WebCtrlComm (Unit {0})) where
  -- A round keeps the context and brings its board's row up to date.
  abbrev pub Round : Type 0
  Round =
      (i : ℕ) (s : WebCtrlComm)
      → i < 9
      → K s
      → length (rows s) ≡ 9
      → (s' : WebCtrlComm) × (body i s ≡ done (tt, s'))
        × K s'
        × (rows s' ≡ set (rows s) i (next i (get_or (rows s) i blank)))

  -- The rows before the i-th are up to date and the others are as they were.
  record IsUpTo (s₀ : WebCtrlComm) (i : ℕ) (s : WebCtrlComm) : Type 0 where
    context : K s
    size : length (rows s) ≡ 9
    before : (j : ℕ) → j < i → get_or (rows s) j blank ≡ next j (get_or (rows s₀) j blank)
    behind : (j : ℕ) → i ≤ j → get_or (rows s) j blank ≡ get_or (rows s₀) j blank

  round-IsUpTo :
      (s₀ : WebCtrlComm) (i : ℕ) (s s' : WebCtrlComm)
      → i < 9
      → IsUpTo s₀ i s
      → K s'
      → rows s' ≡ set (rows s) i (next i (get_or (rows s) i blank))
      → IsUpTo s₀ (i + 1) s'
  round-IsUpTo s₀ i s s' h u k e = record {
    context = k;
    size = rw e (length-set (rows s) i _ ∙ u.size);
    before = λ j hj. before j hj (ℕ_discrete i j);
    behind = λ j hj.
        rw e (
          get_or-set_ne (rows s) i j _ blank (λ q. absurd (omega arith))
          ∙ u.behind j (omega arith));
  }
    where
      before :
          (j : ℕ)
          → j < i + 1
          → Dec (i ≡ j)
          → get_or (rows s') j blank ≡ next j (get_or (rows s₀) j blank)
      before j hj (yes q) =
          rw (e, ← q)
            (get_or-set_self (rows s) i _ blank (omega (arith, u.size))
              ∙ rw (u.behind i (omega arith)))
      before j hj (no q) =
          let other : j ≢ i = λ p. q (omega arith) in
          rw e (get_or-set_ne (rows s) i j _ blank q ∙ u.before j (omega arith))

  loop-IsUpTo :
      (round : Round) (s₀ : WebCtrlComm) (n i : ℕ) (s : WebCtrlComm)
      → i + n ≡ 9
      → IsUpTo s₀ i s
      → (s' : WebCtrlComm) × (for_boards n i body s ≡ done (tt, s')) × IsUpTo s₀ 9 s'
  unfolding for_boards
  loop-IsUpTo round s₀ zero i s e u = let nine : i ≡ 9 = omega arith in (s, refl, rw (← nine) u)
  loop-IsUpTo round s₀ (suc n) i s e u =
      let (t, one, k, row) = round i s (omega arith) u.context u.size in
      let (s', rest, u') =
        loop-IsUpTo round s₀ n (i + 1) t (omega arith)
          (round-IsUpTo s₀ i s t (omega arith) u k row) in
      (s', rw (one, ◌>>=◌) rest, u')

  -- After the loop every row is up to date.
  pub for_boards-rows :
      Round
      → (s : WebCtrlComm) → K s
      → length (rows s) ≡ 9
      → (s' : WebCtrlComm) × (for_boards 9 0 body s ≡ done (tt, s'))
        × K s'
        × (length (rows s') ≡ 9)
        × ((j : ℕ) → j < 9 → get_or (rows s') j blank ≡ next j (get_or (rows s) j blank))
  for_boards-rows round s k size =
      let start : IsUpTo s 0 s = record {
        context = k;
        size = size;
        before = λ j h. absurd (omega arith);
        behind = λ j h. refl;
      } in
      let (s', e, u) = loop-IsUpTo round s 9 0 s refl start in (s', e, u.context, u.size, u.before)
