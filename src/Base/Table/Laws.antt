-- ===== src/Base/Table/Laws.antt =====
-- How the statements on tables interact.
use mathlib.Core.Path.{◌≡◌, refl, subst}
use mathlib.Core.Logic.{inl, inr}
use mathlib.Core.Bool.{Bool, true, false, ◌||◌}
use mathlib.Core.Option.{Option, none, some}
use mathlib.Core.Option
use mathlib.Core.List.{List, [], ◌∷◌, ◌++◌}
use native.Mathlib.Omega.{arith}
use sdano.Base.Tests.{if◌then◌else◌, ◌==◌, Bool-cases, All, All-append, coalesce, is_some}
use sdano.Base.Table.{select_one, select, update, delete, insert, matching}

module _ {ℓ} {R : Type ℓ} where
  pub select_one-append :
      (p : R → Bool) (t u : List R)
      → select_one p (t ++ u) ≡ coalesce (select_one p t) (select_one p u)
  unfolding select_one
  select_one-append p [] u = refl
  select_one-append p (r ∷ t) u = ground (arith, select_one-append p t u)

  pub select_one-insert_other :
      (q : R → Bool) (s : R) (t : List R) → q s ≡ false → select_one q (insert s t) ≡ select_one q t
  unfolding select_one
  select_one-insert_other q s [] h = ground arith
  select_one-insert_other q s (r ∷ t) h = ground (arith, select_one-insert_other q s t h)

  -- A row that is found fits.
  pub select_one_fits : (p : R → Bool) (t : List R) {r : R} → select_one p t ≡ some r → p r ≡ true
  unfolding select_one
  select_one_fits p [] h = cc
  select_one_fits p (x ∷ t) {r} h = ground (arith, select_one_fits p t {r = r})

  -- Where the condition does not read what the update writes, the row found is the updated one.
  pub select_one-update :
      (q p : R → Bool) (f : R → R) (t : List R)
      → ((r : R) → q (f r) ≡ q r)
      → select_one q (update p f t) ≡ Option.map (λ r. if p r then f r else r) (select_one q t)
  unfolding select_one update
  select_one-update q p f [] h = refl
  select_one-update q p f (r ∷ t) h = ground (arith, h r, select_one-update q p f t h)

  -- An update that spares the rows that are asked for.
  pub select_one-update_other :
      (q p : R → Bool) (f : R → R) (t : List R)
      → ((r : R) → q (f r) ≡ q r)
      → ((r : R) → q r ≡ true → p r ≡ false)
      → select_one q (update p f t) ≡ select_one q t
  unfolding select_one update
  select_one-update_other q p f [] h d = refl
  select_one-update_other q p f (r ∷ t) h d =
      ground (arith, h r, d r, select_one-update_other q p f t h d)

  -- A deletion that spares the rows that are asked for.
  pub select_one-delete :
      (q p : R → Bool) (t : List R)
      → ((r : R) → q r ≡ true → p r ≡ false)
      → select_one q (delete p t) ≡ select_one q t
  unfolding select_one delete
  select_one-delete q p [] h = refl
  select_one-delete q p (r ∷ t) h = ground (arith, h r, select_one-delete q p t h)

  pub select_one-delete-none :
      (q p : R → Bool) (t : List R)
      → ((r : R) → q r ≡ true → p r ≡ true)
      → select_one q (delete p t) ≡ none
  unfolding select_one delete
  select_one-delete-none q p [] h = refl
  select_one-delete-none q p (r ∷ t) h = ground (arith, h r, select_one-delete-none q p t h)

  -- An update that changes none of the rows that it fits.
  pub update_id :
      (p : R → Bool) (f : R → R) (t : List R) → All (λ r. p r ≡ true → f r ≡ r) t → update p f t ≡ t
  unfolding update
  update_id p f [] h = refl
  update_id p f (r ∷ t) h = ground (arith, h.0, update_id p f t h.1)

  pub delete_id : (p : R → Bool) (t : List R) → All (λ r. p r ≡ false) t → delete p t ≡ t
  unfolding delete
  delete_id p [] h = refl
  delete_id p (r ∷ t) h = ground (arith, h.0, delete_id p t h.1)

  module _ {κ} (P : R → Type κ) where
    pub All-select_one :
        (p : R → Bool) (t : List R) {r : R} → All P t → select_one p t ≡ some r → P r
    unfolding select_one
    All-select_one p [] a h = absurd (cc)
    All-select_one p (x ∷ t) {r} a h = elim (Bool-cases (p x)) [
      | inl e ↦ subst P (ground arith) a.0
      | inr e ↦ All-select_one p t a.1 (rw e at h)
    ]

    pub All-update :
        (p : R → Bool) (f : R → R) (t : List R)
        → ((r : R) → P r → p r ≡ true → P (f r))
        → All P t
        → All P (update p f t)
    unfolding update
    All-update p f [] h a = tt
    All-update p f (r ∷ t) h a = elim (Bool-cases (p r)) [
      | inl e ↦ rw e (h r a.0 e, All-update p f t h a.1)
      | inr e ↦ rw e (a.0, All-update p f t h a.1)
    ]

    pub All-delete : (p : R → Bool) (t : List R) → All P t → All P (delete p t)
    unfolding delete
    All-delete p [] a = tt
    All-delete p (r ∷ t) a = elim (Bool-cases (p r)) [
      | inl e ↦ rw e (All-delete p t a.1)
      | inr e ↦ rw e (a.0, All-delete p t a.1)
    ]

    pub All-insert : (r : R) (t : List R) → All P t → P r → All P (insert r t)
    All-insert r t a h = All-append P t (r ∷ []) a (h, tt)

  pub All-delete_sound : (p : R → Bool) (t : List R) → All (λ r. p r ≡ false) (delete p t)
  unfolding delete
  All-delete_sound p [] = tt
  All-delete_sound p (r ∷ t) = ground (arith, All-delete_sound p t)

-- Whether there is a row that fits.
module _ {ℓ} {R : Type ℓ} where
  pub matching-some :
      (p : R → Bool) (t : List R) → (matching p t == 0) ≡ false → is_some (select_one p t) ≡ true
  unfolding select_one matching
  matching-some p [] h = ground arith
  matching-some p (r ∷ t) h = ground (arith, matching-some p t)

  pub matching-pos :
      (p : R → Bool) (t : List R) → is_some (select_one p t) ≡ true → (matching p t == 0) ≡ false
  unfolding select_one matching
  matching-pos p [] h = cc
  matching-pos p (r ∷ t) h = ground (arith, matching-pos p t)

  pub some-update :
      (q p : R → Bool) (f : R → R) (t : List R)
      → ((r : R) → q (f r) ≡ q r)
      → is_some (select_one q (update p f t)) ≡ is_some (select_one q t)
  unfolding select_one update
  some-update q p f [] h = refl
  some-update q p f (r ∷ t) h = ground (arith, h r, some-update q p f t h)

  pub some-insert :
      (q : R → Bool) (r : R) (t : List R)
      → is_some (select_one q (insert r t)) ≡ is_some (select_one q t) || q r
  unfolding select_one
  some-insert q r [] = ground arith
  some-insert q r (s ∷ t) = ground (arith, some-insert q r t)

  -- A condition that asks more finds no more.
  pub some-weaken :
      (p q : R → Bool) (t : List R)
      → ((r : R) → p r ≡ true → q r ≡ true)
      → is_some (select_one p t) ≡ true
      → is_some (select_one q t) ≡ true
  unfolding select_one
  some-weaken p q [] h s = cc
  some-weaken p q (r ∷ t) h s = ground (arith, h r, some-weaken p q t h)

  -- A row that is found by one condition and fits another is found by that, or one before it is.
  pub some_of_fits :
      (p q : R → Bool) (t : List R) (r : R)
      → select_one p t ≡ some r
      → q r ≡ true
      → is_some (select_one q t) ≡ true
  unfolding select_one
  some_of_fits p q [] r h f = cc
  some_of_fits p q (s ∷ t) r h f = ground (arith, some_of_fits p q t r)

-- One row, among others that are written or deleted.
module _ {ℓ} {R : Type ℓ} where
  pub row-delete :
      (q p : R → Bool) (t : List R) (r : R)
      → select_one q t ≡ some r
      → p r ≡ false
      → select_one q (delete p t) ≡ some r
  unfolding select_one delete
  row-delete q p [] r h f = cc
  row-delete q p (s ∷ t) r h f = ground (arith, row-delete q p t r)

  pub row-update :
      (q p : R → Bool) (f : R → R) (t : List R) (r : R)
      → ((s : R) → q (f s) ≡ q s)
      → select_one q t ≡ some r
      → p r ≡ false
      → select_one q (update p f t) ≡ some r
  row-update q p f t r k h n = ground (arith, select_one-update q p f t k)

  pub row-insert :
      (q : R → Bool) (s : R) (t : List R) (r : R)
      → select_one q t ≡ some r
      → select_one q (insert s t) ≡ some r
  row-insert q s t r h = ground (arith, select_one-append q t (s ∷ []))

module _ {ℓ κ κ'} {R : Type ℓ} where
  -- What holds of the rows that fit holds of the selection.
  pub All-select :
      (P : R → Type κ) (Q : R → Type κ') (p : R → Bool) (t : List R)
      → ((r : R) → P r → p r ≡ true → Q r)
      → All P t
      → All Q (select p t)
  unfolding select
  All-select P Q p [] h a = tt
  All-select P Q p (r ∷ t) h a = elim (Bool-cases (p r)) [
    | inl e ↦ rw e (h r a.0 e, All-select P Q p t h a.1)
    | inr e ↦ rw e (All-select P Q p t h a.1)
  ]
