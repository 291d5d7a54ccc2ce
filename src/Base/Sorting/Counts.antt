-- ===== src/Base/Sorting/Counts.antt =====
-- How many rows sorting and joining leave.
use Prim.Native.Nat.{◌+◌}
use mathlib.Core.Path.{◌≡◌, refl, ap, ◌∙◌}
use mathlib.Core.Logic.{inl, inr}
use mathlib.Core.Bool.{Bool, true, false, ◌&&◌}
use mathlib.Core.Option.{Option, none, some}
use mathlib.Core.List.{List, [], ◌∷◌}
use native.Mathlib.Omega.{arith}
use sdano.Base.Tests.{if◌then◌else◌, length, Option-cases, Bool-cases}
use sdano.Base.Table.{select, matching}
use sdano.Base.Sorting.{insert_sorted, sort_by, collect}

module _ {ℓ} {R : Type ℓ} (precedes : R → R → Bool) (q : R → Bool) where
  matching-insert_sorted :
      (r : R) (t : List R)
      → matching q (insert_sorted precedes r t) ≡ (if q r then 1 else 0) + matching q t
  unfolding insert_sorted matching
  matching-insert_sorted r [] = refl
  matching-insert_sorted r (s ∷ t) = ground (arith, matching-insert_sorted r t)

  pub matching-sort_by : (t : List R) → matching q (sort_by precedes t) ≡ matching q t
  unfolding sort_by matching
  matching-sort_by [] = refl
  matching-sort_by (r ∷ t) =
      matching-insert_sorted r (sort_by precedes t)
      ∙ ap (λ n. (if q r then 1 else 0) + n) (matching-sort_by t)

pub length-matching {ℓ} : {R : Type ℓ} (t : List R) → length t ≡ matching (λ r. true) t
unfolding matching
length-matching [] = refl
length-matching (r ∷ t) = omega (arith, length-matching t)

pub matching-cong {ℓ} :
    {R : Type ℓ} (p q : R → Bool) (t : List R) → ((r : R) → p r ≡ q r) → matching p t ≡ matching q t
unfolding matching
matching-cong p q [] h = refl
matching-cong p q (r ∷ t) h = ground (arith, h r, matching-cong p q t h)

-- Does the joined row fit?
abbrev pub fits_joined {ℓ} : {B : Type ℓ} → (B → Bool) → Option B → Bool
fits_joined q none = false
fits_joined q (some b) = q b

module _ {ℓ κ} {A : Type ℓ} {B : Type κ} (f : A → Option B) (q : B → Bool) (p : A → Bool) where
  pub matching-collect :
      (t : List A)
      → matching q (collect f (select p t)) ≡ matching (λ a. p a && fits_joined q (f a)) t
  unfolding matching collect select
  matching-collect [] = refl
  matching-collect (a ∷ t) =
      let rest = matching-collect t in
      elim (Bool-cases (p a)) [
        | inr e ↦ rw e (omega arith)
        | inl e ↦ elim (Option-cases (f a)) [
          | inl n ↦ rw (e, n) (omega arith)
          | inr (b, n) ↦ rw (e, n) (ap (λ k. (if q b then 1 else 0) + k) rest)
        ]
      ]
