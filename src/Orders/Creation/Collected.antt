-- ===== src/Orders/Creation/Collected.antt =====
-- The sets that a batch of orders is checked by (workorder/http.go, `parseOrderBatch`).
use sdano.Base.{
  ℕ, ◌+◌, suc, ◌≡◌, sym, ap, ◌∙◌, subst, true, Option, none, some, List, [], ◌∷◌, ◌++◌, length,
  length-append, All, All-append, All-mono, ok, Bool-cases, Result-cases, inl, inr, arith,
}
use sdano.Queries.Worker.{contains}
use sdano.Orders.{World}
use sdano.Orders.Creation.{
  OrderCreateBody, ParsedOrder, Batch, add_id, add_ids, add_order, parse_order, parse_order_batch,
}

contains-append :
    (ids rest : List ℕ) (x : ℕ) → contains ids x ≡ true → contains (ids ++ rest) x ≡ true
unfolding contains
contains-append [] rest x h = cc
contains-append (y ∷ ids) rest x h = ground (arith, contains-append ids rest x)

contains-last : (ids : List ℕ) (x : ℕ) → contains (ids ++ x ∷ []) x ≡ true
unfolding contains
contains-last [] x = ground arith
contains-last (y ∷ ids) x = ground (arith, contains-last ids x)

contains-add_id_self : (x : ℕ) (ids : List ℕ) → contains (add_id x ids) x ≡ true
contains-add_id_self x ids = elim (Bool-cases (contains ids x)) [
  | inl e ↦ rw e e
  | inr e ↦ rw e (contains-last ids x)
]

contains-add_id :
    (x y : ℕ) (ids : List ℕ) → contains ids y ≡ true → contains (add_id x ids) y ≡ true
contains-add_id x y ids h = elim (Bool-cases (contains ids x)) [
  | inl e ↦ rw e h
  | inr e ↦ rw e (contains-append ids (x ∷ []) y h)
]

contains-add_ids :
    (x : Option ℕ) (y : ℕ) (ids : List ℕ)
    → contains ids y ≡ true
    → contains (add_ids x ids) y ≡ true
contains-add_ids none y ids h = h
contains-add_ids (some x) y ids h = contains-add_id x y ids h

abbrev pub Holds : List ℕ → Option ℕ → Type 0
Holds ids none = Unit
Holds ids (some x) = contains ids x ≡ true

Holds-add_ids_self : (x : Option ℕ) (ids : List ℕ) → Holds (add_ids x ids) x
Holds-add_ids_self none ids = tt
Holds-add_ids_self (some x) ids = contains-add_id_self x ids

Holds-add_ids : (x y : Option ℕ) (ids : List ℕ) → Holds ids y → Holds (add_ids x ids) y
Holds-add_ids x none ids h = tt
Holds-add_ids x (some y) ids h = contains-add_ids x y ids h

-- The sets of a batch hold what its orders refer to.
abbrev pub IsCollected : Batch → ParsedOrder → Type 0
IsCollected b o =
    (contains b.object_ids o.object_id ≡ true)
    × ((contains b.version_ids o.version_id ≡ true) × Holds b.assignee_ids o.assignee_id)

add_order-IsCollected :
    (o : ParsedOrder) (b : Batch)
    → All (IsCollected b) b.parsed
    → All (IsCollected (add_order o b)) (add_order o b).parsed
add_order-IsCollected o b h =
    All-append (IsCollected (add_order o b)) b.parsed (o ∷ [])
      (All-mono (IsCollected b) (IsCollected (add_order o b)) b.parsed
        (λ x c. (
          contains-add_id o.object_id x.object_id b.object_ids c.0,
          (
            contains-add_id o.version_id x.version_id b.version_ids c.1.0,
            Holds-add_ids o.assignee_id x.assignee_id b.assignee_ids c.1.1,
          ),
        ))
        h)
      (
        (
          contains-add_id_self o.object_id b.object_ids,
          (
            contains-add_id_self o.version_id b.version_ids,
            Holds-add_ids_self o.assignee_id b.assignee_ids,
          ),
        ),
        tt,
      )

pub batch-IsCollected :
    (w : World) (k : ℕ) (items : List OrderCreateBody) (b b' : Batch)
    → parse_order_batch w k items b ≡ ok b'
    → All (IsCollected b) b.parsed
    → All (IsCollected b') b'.parsed × (length b'.parsed ≡ length b.parsed + length items)
unfolding parse_order_batch
batch-IsCollected w k [] b b' h c =
    let same : b ≡ b' = cc in
    (
      subst (λ x. All (IsCollected x) x.parsed) same c,
      ap (λ x. length x.parsed) (sym same) ∙ omega arith,
    )
batch-IsCollected w k (item ∷ items) b b' h c = elim (Result-cases (parse_order w k item)) [
  | inr (e, f) ↦ absurd (cc (rw f at h))
  | inl (o, f) ↦
      let rest =
        batch-IsCollected w (suc k) items (add_order o b) b' (rw f at h)
          (add_order-IsCollected o b c) in
      let more = length-append b.parsed (o ∷ []) in (rest.0, (omega (arith, rest.1, more)))
]
