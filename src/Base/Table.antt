-- ===== src/Base/Table.antt =====
-- Database tables as lists of rows, with the statements that the queries are made of.
pub mod Counts
pub mod Laws
pub mod Keys
pub mod Single
use Prim.Native.Nat.{ℕ, ◌+◌}
use mathlib.Core.Bool.{Bool}
use mathlib.Core.Option.{Option, none, some}
use mathlib.Core.List.{List, [], ◌∷◌, ◌++◌}
use sdano.Base.Tests.{if◌then◌else◌, leb}

module _ {ℓ} {R : Type ℓ} where
  -- `SELECT … WHERE p` as a `:one` query: the first row that fits.
  unfoldable pub select_one : (R → Bool) → List R → Option R
  select_one p [] = none
  select_one p (r ∷ t) = if p r then some r else select_one p t

  -- `SELECT … WHERE p` as a `:many` query.
  unfoldable pub select : (R → Bool) → List R → List R
  select p [] = []
  select p (r ∷ t) = let rest = select p t in if p r then r ∷ rest else rest

  -- `UPDATE … SET f WHERE p`.
  unfoldable pub update : (R → Bool) → (R → R) → List R → List R
  update p f [] = []
  update p f (r ∷ t) = (if p r then f r else r) ∷ update p f t

  -- `DELETE … WHERE p`.
  unfoldable pub delete : (R → Bool) → List R → List R
  delete p [] = []
  delete p (r ∷ t) = let rest = delete p t in if p r then rest else r ∷ rest

  -- `INSERT`.
  abbrev pub insert : R → List R → List R
  insert r t = t ++ r ∷ []

  -- The number of rows that fit.
  unfoldable pub matching : (R → Bool) → List R → ℕ
  matching p [] = 0
  matching p (r ∷ t) = (if p r then 1 else 0) + matching p t

  -- `ORDER BY key`.
  unfoldable pub order_by : (R → ℕ) → List R → List R
  order_by key [] = []
  order_by key (r ∷ t) = place (order_by key t)
    where
      place : List R → List R
      place [] = r ∷ []
      place (s ∷ u) = let rest = place u in if leb (key r) (key s) then r ∷ (s ∷ u) else s ∷ rest
