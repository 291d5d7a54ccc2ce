-- ===== src/Base/Table/Counts.antt =====
-- How many rows a statement leaves.
use Prim.Native.Nat.{suc, ◌+◌, ◌≤◌}
use mathlib.Core.Path.{◌≡◌, refl, ap}
use mathlib.Core.Bool.{Bool, true}
use mathlib.Core.Option.{none, some}
use mathlib.Core.List.{List, [], ◌∷◌}
use native.Mathlib.Omega.{arith}
use sdano.Base.Tests.{if◌then◌else◌, length}
use sdano.Base.Table.{select_one, update, delete, insert, matching}

-- How many rows there are.
module _ {ℓ} {R : Type ℓ} where
  pub length-delete-le : (p : R → Bool) (t : List R) → length (delete p t) ≤ length t
  unfolding delete
  length-delete-le p [] = omega arith
  length-delete-le p (r ∷ t) = ground (arith, length-delete-le p t)

  pub length-update : (p : R → Bool) (f : R → R) (t : List R) → length (update p f t) ≡ length t
  unfolding update
  length-update p f [] = refl
  length-update p f (r ∷ t) = ap suc (length-update p f t)

  pub matching-delete-le : (q p : R → Bool) (t : List R) → matching q (delete p t) ≤ matching q t
  unfolding delete matching
  matching-delete-le q p [] = omega arith
  matching-delete-le q p (r ∷ t) = ground (arith, matching-delete-le q p t)

  pub matching-update :
      (q p : R → Bool) (f : R → R) (t : List R)
      → ((r : R) → q (f r) ≡ q r)
      → matching q (update p f t) ≡ matching q t
  unfolding update matching
  matching-update q p f [] h = refl
  matching-update q p f (r ∷ t) h = ground (arith, h r, matching-update q p f t h)

  pub matching-insert :
      (q : R → Bool) (s : R) (t : List R)
      → matching q (insert s t) ≡ matching q t + (if q s then 1 else 0)
  unfolding matching
  matching-insert q s [] = ground arith
  matching-insert q s (r ∷ t) = ground (arith, matching-insert q s t)

  pub matching-none : (q : R → Bool) (t : List R) → select_one q t ≡ none → matching q t ≡ 0
  unfolding matching select_one
  matching-none q [] h = refl
  matching-none q (r ∷ t) h = ground (arith, matching-none q t)

  pub none_of_matching : (q : R → Bool) (t : List R) → matching q t ≡ 0 → select_one q t ≡ none
  unfolding matching select_one
  none_of_matching q [] h = refl
  none_of_matching q (r ∷ t) h = ground (arith, none_of_matching q t)

  -- The only row that fits is deleted.
  pub only_row-delete :
      (q p : R → Bool) (t : List R) (r : R)
      → select_one q t ≡ some r
      → matching q t ≤ 1
      → p r ≡ true
      → select_one q (delete p t) ≡ none
  unfolding select_one delete matching
  only_row-delete q p [] r h m e = refl
  only_row-delete q p (s ∷ t) r h m e =
      ground
        (arith, only_row-delete q p t r, none_of_matching q (delete p t), matching-delete-le q p t)
