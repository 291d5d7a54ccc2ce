-- ===== src/Queries/References.antt =====
-- What the counts of references say (db/staff.sql.go, `Count…InTenant`): each id of a set is that
-- of a row if as many rows are counted as the set has ids.
use sdano.Base.{
  ℕ, ◌+◌, ◌≤◌, ◌≡◌, refl, subst, Bool, true, false, ◌&&◌, List, [], ◌∷◌, ◌==◌, is_some, length, All,
  Bool-cases, inl, inr, arith,
}
use sdano.Base.Table.{select_one, matching}
use sdano.Base.Table.Keys.{Unique}
use sdano.Queries.Worker.{contains}

module _ {ℓ} {R : Type ℓ} (key : R → ℕ) (p : R → Bool) where
  abbrev pub in_set : List ℕ → R → Bool
  in_set ids r = p r && contains ids (key r)

  abbrev pub has_key : ℕ → R → Bool
  has_key k r = key r == k && p r

  matching-empty : (t : List R) → matching (in_set []) t ≡ 0
  unfolding matching contains
  matching-empty [] = refl
  matching-empty (r ∷ t) = ground (arith, matching-empty t)

  matching-more :
      (k : ℕ) (ids : List ℕ) (t : List R)
      → matching (in_set (k ∷ ids)) t ≤ matching (has_key k) t + matching (in_set ids) t
  unfolding matching contains
  matching-more k ids [] = omega arith
  matching-more k ids (r ∷ t) = ground (arith, matching-more k ids t)

  matching-absent :
      (k : ℕ) (t : List R) → All (λ s. (key s == k) ≡ false) t → matching (has_key k) t ≡ 0
  unfolding matching
  matching-absent k [] a = refl
  matching-absent k (r ∷ t) a = ground (arith, a.0, matching-absent k t a.1)

  matching-one : (k : ℕ) (t : List R) → Unique key t → matching (has_key k) t ≤ 1
  unfolding matching
  matching-one k [] u = omega arith
  matching-one k (r ∷ t) u = elim (Bool-cases (key r == k)) [
    | inl e ↦
        let e' : key r ≡ k = ground arith in
        let rest = matching-absent k t (subst (λ j. All (λ s. (key s == j) ≡ false) t) e' u.0) in
        ground (arith, rest)
    | inr e ↦ ground (arith, matching-one k t u.1)
  ]

  matching-le-length :
      (ids : List ℕ) (t : List R) → Unique key t → matching (in_set ids) t ≤ length ids
  matching-le-length [] t u = omega (arith, matching-empty t)
  matching-le-length (k ∷ ids) t u =
      omega (arith, matching-more k ids t, matching-one k t u, matching-le-length ids t u)

  abbrev pub IsReferred : List R → ℕ → Type 0
  IsReferred t k = is_some (select_one (has_key k) t) ≡ true

  some_of_one : (k : ℕ) (t : List R) → matching (has_key k) t ≡ 1 → IsReferred t k
  unfolding matching select_one
  some_of_one k [] h = absurd (omega arith)
  some_of_one k (r ∷ t) h = ground (arith, some_of_one k t)

  pub all_counted :
      (ids : List ℕ) (t : List R)
      → Unique key t
      → matching (in_set ids) t ≡ length ids
      → All (IsReferred t) ids
  all_counted [] t u h = tt
  all_counted (k ∷ ids) t u h =
      let more = matching-more k ids t in
      let one = matching-one k t u in
      let rest = matching-le-length ids t u in
      (some_of_one k t (omega arith), all_counted ids t u (omega arith))
