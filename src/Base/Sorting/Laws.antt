-- ===== src/Base/Sorting/Laws.antt =====
-- What sorting, limiting and selecting do to one another.
use Prim.Native.Nat.{ℕ, zero, suc}
use mathlib.Core.Path.{◌≡◌, refl, ap, ◌∙◌, sym}
use mathlib.Core.Logic.{◌⊎◌, inl, inr}
use mathlib.Core.Bool.{Bool, true, false}
use mathlib.Core.Option.{Option, some}
use mathlib.Core.List.{List, [], ◌∷◌, ◌++◌}
use native.Mathlib.Omega.{arith}
use sdano.Base.Tests.{if◌then◌else◌, ◌==◌, All, All-mono, length, Bool-cases, Option-cases}
use sdano.Base.Table.{select}
use sdano.Base.Table.Laws.{All-select}
use sdano.Base.Sorting.{insert_sorted, sort_by, take, last_row, collect}

All-middle {ℓ κ} :
    {R : Type ℓ} (P : R → Type κ) (xs : List R) (r : R) (ys : List R) → All P (xs ++ r ∷ ys) → P r
All-middle P [] r ys a = a.0
All-middle P (x ∷ xs) r ys a = All-middle P xs r ys a.1

pub select_every {ℓ} :
    {R : Type ℓ} (q : R → Bool) (t : List R) → All (λ s. q s ≡ true) t → select q t ≡ t
unfolding select
select_every q [] a = refl
select_every q (s ∷ t) a = ground (arith, select_every q t a.1)

-- A strict order.
pub record IsStrict {ℓ} {R : Type ℓ} (precedes : R → R → Bool) : Type ℓ where
  pub trans : (a b c : R) → precedes a b ≡ true → precedes b c ≡ true → precedes a c ≡ true
  pub asym : (a b : R) → precedes a b ≡ true → precedes b a ≡ false
  pub irrefl : (a : R) → precedes a a ≡ false

module _ {ℓ} {R : Type ℓ} (precedes : R → R → Bool) where
  abbrev pub Ordered : R → R → Type 0
  Ordered a b = (precedes a b ≡ true) ⊎ (precedes b a ≡ true)

  -- Any two rows are ordered.
  abbrev pub IsApart : List R → Type 0
  IsApart [] = Unit
  IsApart (r ∷ t) = All (Ordered r) t × IsApart t

  abbrev pub IsSorted : List R → Type 0
  IsSorted [] = Unit
  IsSorted (r ∷ t) = All (λ s. precedes r s ≡ true) t × IsSorted t

  pub insert_sorted-All {κ} :
      (P : R → Type κ) (r : R) (t : List R) → P r → All P t → All P (insert_sorted precedes r t)
  unfolding insert_sorted
  insert_sorted-All P r [] h a = (h, tt)
  insert_sorted-All P r (s ∷ t) h a = elim (Bool-cases (precedes r s)) [
    | inl e ↦ rw e (h, a)
    | inr e ↦ rw e (a.0, insert_sorted-All P r t h a.1)
  ]

  pub sort_by-All {κ} : (P : R → Type κ) (t : List R) → All P t → All P (sort_by precedes t)
  unfolding sort_by
  sort_by-All P [] a = tt
  sort_by-All P (r ∷ t) a = insert_sorted-All P r (sort_by precedes t) a.0 (sort_by-All P t a.1)

  pub length-insert_sorted :
      (r : R) (t : List R) → length (insert_sorted precedes r t) ≡ suc (length t)
  unfolding insert_sorted
  length-insert_sorted r [] = refl
  length-insert_sorted r (s ∷ t) = ground (arith, length-insert_sorted r t)

  pub length-sort_by : (t : List R) → length (sort_by precedes t) ≡ length t
  unfolding sort_by
  length-sort_by [] = refl
  length-sort_by (r ∷ t) = length-insert_sorted r (sort_by precedes t) ∙ ap suc (length-sort_by t)

  insert_sorted-first :
      (r : R) (t : List R) → All (λ s. precedes r s ≡ true) t → insert_sorted precedes r t ≡ r ∷ t
  unfolding insert_sorted
  insert_sorted-first r [] a = refl
  insert_sorted-first r (s ∷ t) a = rw a.0 refl

  module _ (strict : IsStrict precedes) where
    after_all :
        (r s : R) (t : List R)
        → precedes r s ≡ true
        → All (λ x. precedes s x ≡ true) t
        → All (λ x. precedes r x ≡ true) t
    after_all r s t h = All-mono _ _ t (λ x. strict.trans r s x h)

    insert_sorted-IsSorted :
        (r : R) (t : List R)
        → All (Ordered r) t
        → IsSorted t
        → IsSorted (insert_sorted precedes r t)
    unfolding insert_sorted
    insert_sorted-IsSorted r [] o h = (tt, tt)
    insert_sorted-IsSorted r (s ∷ t) o h = elim (Bool-cases (precedes r s)) [
      | inl e ↦ rw e ((e, after_all r s t e h.0), h)
      | inr e ↦
          let back : precedes s r ≡ true = elim o.0 [ inl f ↦ absurd (cc) | inr f ↦ f ] in
          rw e (insert_sorted-All _ r t back h.0, insert_sorted-IsSorted r t o.1 h.1)
    ]

    pub sort_by-IsSorted : (t : List R) → IsApart t → IsSorted (sort_by precedes t)
    unfolding sort_by
    sort_by-IsSorted [] a = tt
    sort_by-IsSorted (r ∷ t) a =
        insert_sorted-IsSorted r (sort_by precedes t) (sort_by-All (Ordered r) t a.0)
          (sort_by-IsSorted t a.1)

    select-insert_sorted :
        (q : R → Bool) (r : R) (t : List R)
        → IsSorted t
        → select q (insert_sorted precedes r t)
          ≡ (if q r then insert_sorted precedes r (select q t) else select q t)
    unfolding insert_sorted select
    select-insert_sorted q r [] h = refl
    select-insert_sorted q r (s ∷ t) h = elim (Bool-cases (precedes r s)) [
      | inl e ↦
          let later : All (λ x. precedes r x ≡ true) (s ∷ t) = (e, after_all r s t e h.0) in
          let kept = All-select _ (λ x. precedes r x ≡ true) q (s ∷ t) (λ x p _. p) later in
          rw e (ap (λ u. if q r then u else select q (s ∷ t)) (sym (insert_sorted-first r _ kept)))
      | inr e ↦ ground (arith, select-insert_sorted q r t h.1)
    ]

    -- Filtering before sorting, or after.
    pub select-sort_by :
        (q : R → Bool) (t : List R)
        → IsApart t
        → sort_by precedes (select q t) ≡ select q (sort_by precedes t)
    unfolding sort_by select
    select-sort_by q [] a = refl
    select-sort_by q (r ∷ t) a =
        let rest = select-sort_by q t a.1 in
        let step = select-insert_sorted q r (sort_by precedes t) (sort_by-IsSorted t a.1) in
        ground (arith, rest, step)

    -- What comes after a row of a sorted list is what follows it there.
    pub select_rest :
        (xs : List R) (r : R) (ys : List R)
        → IsSorted (xs ++ r ∷ ys)
        → select (precedes r) (xs ++ r ∷ ys) ≡ ys
    unfolding select
    select_rest [] r ys h = rw (strict.irrefl r) (select_every (precedes r) ys h.0)
    select_rest (x ∷ xs) r ys h =
        let back = strict.asym x r (All-middle _ xs r ys h.0) in rw back (select_rest xs r ys h.1)

module _ {ℓ} {R : Type ℓ} where
  pub last_row-append : (xs : List R) (r : R) → last_row (xs ++ r ∷ []) ≡ some r
  unfolding last_row
  last_row-append [] r = refl
  last_row-append (x ∷ xs) r = rw (last_row-append xs r) refl

  -- A full page is the front of the list, up to the page's last row.
  pub data IsPage (n : ℕ) (t : List R) : Type ℓ where
    full :
        (front : List R) (r : R) (rest : List R)
        → t ≡ front ++ r ∷ rest
        → take n t ≡ front ++ r ∷ []
        → length (take n t) ≡ n
        → IsPage n t
    short : take n t ≡ t → (length t == n) ≡ false → IsPage n t

  IsPage-suc : (n : ℕ) (x : R) (t : List R) → IsPage n t → IsPage (suc n) (x ∷ t)
  unfolding take
  IsPage-suc n x t (full front r rest e page count) =
      full (x ∷ front) r rest (ap (λ u. x ∷ u) e) (ap (λ u. x ∷ u) page) (ap suc count)
  IsPage-suc n x t (short page less) = short (ap (λ u. x ∷ u) page) (ground arith)

  pub IsPage-cases : (n : ℕ) (t : List R) → IsPage (suc n) t
  unfolding take
  IsPage-cases n [] = short refl (ground arith)
  IsPage-cases zero (r ∷ t) = full [] r t refl refl refl
  IsPage-cases (suc n) (r ∷ t) = IsPage-suc (suc n) r t (IsPage-cases n t)

module _ {ℓ κ ℓ' κ'} {A : Type ℓ} {B : Type κ} (P : A → Type ℓ') (Q : B → Type κ')
    (f : A → Option B) where
  -- What holds of the rows that are joined holds of the rows that the join makes.
  pub All-collect :
      (t : List A) → ((a : A) (b : B) → f a ≡ some b → P a → Q b) → All P t → All Q (collect f t)
  unfolding collect
  All-collect [] h a = tt
  All-collect (x ∷ t) h a = elim (Option-cases (f x)) [
    | inl e ↦ rw e (All-collect t h a.1)
    | inr (b, e) ↦ rw e (h x b e a.0, All-collect t h a.1)
  ]
