-- ===== src/Orders/Creation/Requested.antt =====
-- What a batch of orders is made of (workorder/http.go, `parseOrderBatch`): one order for each item
-- of the body, in order, as the item asks for it.
use mathlib.Core.List.{append_assoc, append-nil}
use sdano.Base.{
  ℕ, suc, ◌≡◌, sym, ap, ◌∙◌, subst, Option, none, some, String, List, [], ◌∷◌, ◌++◌, map, ok,
  Option-cases, Result-cases, inl, inr,
}
use sdano.Store.{WorkOrder}
use sdano.Orders.{World, OrderError, parse_optional}
use sdano.Orders.Creation.{
  OrderCreateBody, ParsedOrder, Batch, add_order, parse_order, parse_order_batch, new_order,
}

-- The worker that the item names, or none.
abbrev pub Assigns : World → Option String → Option ℕ → Type 0
Assigns w none none = Unit
Assigns w none (some a) = ⊥
Assigns w (some s) none = ⊥
Assigns w (some s) (some a) = w.parse_uuid s ≡ some a

pub record IsRequested (w : World) (item : OrderCreateBody) (r : WorkOrder) : Type 0 where
  pub object : w.parse_uuid item.object_id ≡ some r.object_id
  pub version : w.parse_uuid item.version_id ≡ some r.version_id
  pub assignee : Assigns w item.assignee_id r.assignee_id
  pub due : w.parse_date item.due_date ≡ some r.due_date

-- One for one and in order.
abbrev pub AreRequested : World → List OrderCreateBody → List WorkOrder → Type 0
AreRequested w [] [] = Unit
AreRequested w [] (r ∷ rows) = ⊥
AreRequested w (item ∷ items) [] = ⊥
AreRequested w (item ∷ items) (r ∷ rows) = IsRequested w item r × AreRequested w items rows

parse_optional-Assigns :
    (w : World) (e : OrderError) (s : Option String) (a : Option ℕ)
    → parse_optional w.parse_uuid e s ≡ ok a
    → Assigns w s a
unfolding parse_optional
parse_optional-Assigns w e none none h = tt
parse_optional-Assigns w e none (some a) h = absurd (cc)
parse_optional-Assigns w e (some s) a h = elim (Option-cases (w.parse_uuid s)) [
  | inl n ↦ absurd (cc (rw n at h))
  | inr (x, n) ↦ let same : some x ≡ a = cc (rw n at h) in subst (Assigns w (some s)) same n
]

parse_order-IsRequested :
    (w : World) (tenant_id k : ℕ) (item : OrderCreateBody) (o : ParsedOrder)
    → parse_order w k item ≡ ok o
    → IsRequested w item (new_order w tenant_id o)
unfolding parse_order
parse_order-IsRequested w tenant_id k item o h = elim (Option-cases (w.parse_uuid item.object_id)) [
  | inl n ↦ absurd (cc (rw n at h))
  | inr (x, i) ↦ elim (Option-cases (w.parse_uuid item.version_id)) [
    | inl n ↦ absurd (cc (rw (i, n) at h))
    | inr (v, j) ↦
        elim (Result-cases (parse_optional w.parse_uuid OrderError.invalid_uuid item.assignee_id)) [
          | inr (e, f) ↦ absurd (cc (rw (i, j, f) at h))
          | inl (a, f) ↦ elim (Option-cases (w.parse_date item.due_date)) [
            | inl n ↦ absurd (cc (rw (i, j, f, n) at h))
            | inr (d, g) ↦
                let same : parsed k x v a d ≡ o = cc (rw (i, j, f, g) at h) in
                subst (λ y. IsRequested w item (new_order w tenant_id y)) same
                  (record {
                    object = i;
                    version = j;
                    assignee = parse_optional-Assigns w _ item.assignee_id a f;
                    due = g;
                  })
          ]
        ]
  ]
]
  where
    parsed : ℕ → ℕ → ℕ → Option ℕ → ℕ → ParsedOrder
    parsed k x v a d = record {
      id = w.new_id k;
      object_id = x;
      version_id = v;
      assignee_id = a;
      due_date = d;
    }

-- The orders that the items of a body add to a batch.
pub batch-AreRequested :
    (w : World) (tenant_id k : ℕ) (items : List OrderCreateBody) (b b' : Batch)
    → parse_order_batch w k items b ≡ ok b'
    → (new : List ParsedOrder) × ((b'.parsed ≡ b.parsed ++ new)
        × AreRequested w items (map (new_order w tenant_id) new))
unfolding parse_order_batch
batch-AreRequested w tenant_id k [] b b' h =
    let same : b ≡ b' = cc in ([], (ap (λ x. x.parsed) (sym same) ∙ sym (append-nil b.parsed), tt))
batch-AreRequested w tenant_id k (item ∷ items) b b' h =
    elim (Result-cases (parse_order w k item)) [
      | inr (e, f) ↦ absurd (cc (rw f at h))
      | inl (o, f) ↦
          let (new, (all, rest)) =
            batch-AreRequested w tenant_id (suc k) items (add_order o b) b' (rw f at h) in
          (
            o ∷ new,
            (
              all ∙ append_assoc b.parsed (o ∷ []) new,
              (parse_order-IsRequested w tenant_id k item o f, rest),
            ),
          )
    ]
