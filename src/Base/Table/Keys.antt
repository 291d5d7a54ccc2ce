-- ===== src/Base/Table/Keys.antt =====
-- Tables with a primary key.
use Prim.Native.Nat.{ℕ}
use mathlib.Core.Path.{◌≡◌, refl, subst}
use mathlib.Core.Logic.{◌⊎◌, inl, inr}
use mathlib.Core.Bool.{Bool, false, ◌&&◌}
use mathlib.Core.Option.{none, some}
use mathlib.Core.List.{List, [], ◌∷◌}
use native.Mathlib.Omega.{arith}
use sdano.Base.Tests.{if◌then◌else◌, ◌==◌, Bool-cases, All}
use sdano.Base.Table.{select_one, update}
use sdano.Base.Table.Laws.{All-update}

module _ {ℓ} {R : Type ℓ} (key : R → ℕ) where
  abbrev pub Unique : List R → Type ℓ
  Unique [] = Unit
  Unique (r ∷ t) = All (λ s. (key s == key r) ≡ false) t × Unique t

  pub select_one_absent :
      (q : R → Bool) (k : ℕ) (t : List R)
      → All (λ s. (key s == k) ≡ false) t
      → select_one (λ s. key s == k && q s) t ≡ none
  unfolding select_one
  select_one_absent q k [] h = refl
  select_one_absent q k (r ∷ t) h = ground (arith, select_one_absent q k t h.1)

  -- A further condition keeps the row of the key, or finds none.
  pub select_one-Unique :
      (q : R → Bool) (k : ℕ) (t : List R) (r : R)
      → Unique t
      → select_one (λ s. key s == k) t ≡ some r
      → select_one (λ s. key s == k && q s) t ≡ (if q r then some r else none)
  unfolding select_one
  select_one-Unique q k [] r u h = cc
  select_one-Unique q k (s ∷ t) r u h = elim (Bool-cases (key s == k)) [
    | inl e ↦
        let e' : key s ≡ k = ground arith in
        let rest =
          select_one_absent q k t (subst (λ j. All (λ x. (key x == j) ≡ false) t) e' u.0) in
        ground (arith, rest)
    | inr e ↦ ground (arith, select_one-Unique q k t r u.1)
  ]

  -- A missing key is missing under every further condition.
  pub select_one_missing :
      (q : R → Bool) (k : ℕ) (t : List R)
      → select_one (λ s. key s == k) t ≡ none
      → select_one (λ s. key s == k && q s) t ≡ none
  unfolding select_one
  select_one_missing q k [] h = refl
  select_one_missing q k (s ∷ t) h = ground (arith, select_one_missing q k t)

  pub update-All_keys :
      (p : R → Bool) (f : R → R) (k : ℕ) (t : List R)
      → ((r : R) → key (f r) ≡ key r)
      → All (λ s. (key s == k) ≡ false) t
      → All (λ s. (key s == k) ≡ false) (update p f t)
  update-All_keys p f k t h a = All-update (λ s. (key s == k) ≡ false) p f t (λ r b _. rw (h r) b) a

  pub update-Unique :
      (p : R → Bool) (f : R → R) (t : List R)
      → ((r : R) → key (f r) ≡ key r)
      → Unique t
      → Unique (update p f t)
  unfolding update
  update-Unique p f [] h u = tt
  update-Unique p f (r ∷ t) h u = (
    elim (Bool-cases (p r)) [
      | inl e ↦ rw (e, h r) (update-All_keys p f (key r) t h u.0)
      | inr e ↦ rw e (update-All_keys p f (key r) t h u.0)
    ],
    update-Unique p f t h u.1,
  )

  absent-others :
      (k : ℕ) (t : List R) (r : R)
      → All (λ s. (key s == k) ≡ false) t
      → All (λ s. ((key s == k) ≡ false) ⊎ (s ≡ r)) t
  absent-others k [] r a = tt
  absent-others k (s ∷ t) r a = (inl a.0, absent-others k t r a.1)

  -- The row of a key is the only one with it.
  pub only_row :
      (k : ℕ) (t : List R) (r : R)
      → Unique t
      → select_one (λ s. key s == k) t ≡ some r
      → All (λ s. ((key s == k) ≡ false) ⊎ (s ≡ r)) t
  unfolding select_one
  only_row k [] r u h = tt
  only_row k (s ∷ t) r u h = elim (Bool-cases (key s == k)) [
    | inl e ↦
        let e' : key s ≡ k = ground arith in
        (
          inr (ground arith),
          absent-others k t r (subst (λ j. All (λ x. (key x == j) ≡ false) t) e' u.0),
        )
    | inr e ↦ (inl e, only_row k t r u.1 (rw e at h))
  ]
