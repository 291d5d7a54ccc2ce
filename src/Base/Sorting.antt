-- ===== src/Base/Sorting.antt =====
-- `ORDER BY` a comparison, `LIMIT`, and inner joins along keys.
pub mod Laws
pub mod Counts
use Prim.Native.Nat.{ℕ, zero, suc}
use mathlib.Core.Bool.{Bool}
use mathlib.Core.Option.{Option, none, some}
use mathlib.Core.List.{List, [], ◌∷◌}
use sdano.Base.Tests.{if◌then◌else◌}

module _ {ℓ} {R : Type ℓ} where
  unfoldable pub insert_sorted : (R → R → Bool) → R → List R → List R
  insert_sorted precedes r [] = r ∷ []
  insert_sorted precedes r (s ∷ t) =
      let rest = insert_sorted precedes r t in if precedes r s then r ∷ (s ∷ t) else s ∷ rest

  -- `ORDER BY`; rows that the comparison does not order keep theirs.
  unfoldable pub sort_by : (R → R → Bool) → List R → List R
  unfolding insert_sorted
  sort_by precedes [] = []
  sort_by precedes (r ∷ t) = insert_sorted precedes r (sort_by precedes t)

  -- `LIMIT n`.
  unfoldable pub take : ℕ → List R → List R
  take zero t = []
  take (suc n) [] = []
  take (suc n) (r ∷ t) = r ∷ take n t

  -- `xs[len(xs)-1]`; `none` where the list is empty.
  unfoldable pub last_row : List R → Option R
  last_row [] = none
  last_row (r ∷ t) = elim (last_row t) [ none ↦ some r | some s ↦ some s ]

abbrev pub put_first {ℓ} : {B : Type ℓ} → Option B → List B → List B
put_first none t = t
put_first (some b) t = b ∷ t

module _ {ℓ κ} {A : Type ℓ} {B : Type κ} where
  -- The rows that an inner join makes of those of a table.
  unfoldable pub collect : (A → Option B) → List A → List B
  collect f [] = []
  collect f (a ∷ t) = put_first (f a) (collect f t)
