-- ===== src/Base/Table/Single.antt =====
-- Tables in which at most one row of a kind may stand.
use Prim.Native.Nat.{ℕ, ◌+◌, ◌≤◌}
use mathlib.Core.Path.{◌≡◌, refl, subst}
use mathlib.Core.Logic.{inl, inr}
use mathlib.Core.Bool.{Bool, true, false, not, ◌&&◌}
use mathlib.Core.Option.{none}
use mathlib.Core.List.{List, [], ◌∷◌}
use native.Mathlib.Omega.{arith}
use sdano.Base.Tests.{◌==◌, All, Bool-cases}
use sdano.Base.Table.{select_one, update, insert, matching}
use sdano.Base.Table.Laws.{All-insert}
use sdano.Base.Table.Keys.{Unique}

module _ {ℓ} {R : Type ℓ} (key : R → ℕ) where
  pub none_other :
      (q : R → Bool) (k : ℕ) (t : List R)
      → select_one (λ r. key r == k) t ≡ none
      → select_one (λ r. not (key r == k) && q r) t ≡ none
      → select_one q t ≡ none
  unfolding select_one
  none_other q k [] h n = refl
  none_other q k (r ∷ t) h n = ground (arith, none_other q k t)

  matching_absent :
      (p q : R → Bool) (f : R → R) (k : ℕ) (t : List R)
      → ((r : R) → p r ≡ true → (key r == k) ≡ true)
      → All (λ s. (key s == k) ≡ false) t
      → matching q (update p f t) ≡ matching (λ r. not (key r == k) && q r) t
  unfolding matching update
  matching_absent p q f k [] h a = refl
  matching_absent p q f k (r ∷ t) h a = ground (arith, h r, a.0, matching_absent p q f k t h a.1)

  -- An update of the row of one key adds at most one to those that fit among the others.
  pub matching-update_one :
      (p q : R → Bool) (f : R → R) (k : ℕ) (t : List R)
      → ((r : R) → p r ≡ true → (key r == k) ≡ true)
      → Unique key t
      → matching q (update p f t) ≤ matching (λ r. not (key r == k) && q r) t + 1
  unfolding matching update
  matching-update_one p q f k [] h u = omega arith
  matching-update_one p q f k (r ∷ t) h u = elim (Bool-cases (key r == k)) [
    | inl e ↦
        let e' : key r ≡ k = ground arith in
        let rest =
          matching_absent p q f k t h (subst (λ j. All (λ s. (key s == j) ≡ false) t) e' u.0) in
        ground (arith, rest)
    | inr e ↦ ground (arith, h r, matching-update_one p q f k t h u.1)
  ]

  pub matching-update_less :
      (p q : R → Bool) (f : R → R) (t : List R)
      → ((r : R) → q (f r) ≡ false)
      → matching q (update p f t) ≤ matching q t
  unfolding matching update
  matching-update_less p q f [] h = omega arith
  matching-update_less p q f (r ∷ t) h = ground (arith, h r, matching-update_less p q f t h)

  pub insert-Unique :
      (r : R) (t : List R)
      → select_one (λ s. key s == key r) t ≡ none
      → Unique key t
      → Unique key (insert r t)
  unfolding select_one
  insert-Unique r [] h u = (tt, tt)
  insert-Unique r (s ∷ t) h u = elim (Bool-cases (key s == key r)) [
    | inl e ↦ absurd (cc (rw e at h))
    | inr e ↦ (
      All-insert (λ x. (key x == key s) ≡ false) r t u.0 (ground arith),
      insert-Unique r t (rw e at h) u.1,
    )
  ]
