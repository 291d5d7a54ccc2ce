-- ===== src/Orders/Today/Seen.antt =====
-- The loop that lists each object once (workorder/http.go, `registerToday`).
use mathlib.Core.List.{append_assoc, append-nil}
use sdano.Base.{
  ℕ, ◌≡◌, refl, sym, ap, ◌∙◌, Bool, true, false, ◌||◌, Option, none, some, List, [], ◌∷◌, ◌++◌,
  ◌==◌, ==_refl, is_some, map, All, All-append, All-mono, Bool-cases, inl, inr, arith,
}
use sdano.Base.Table.{select_one, insert}
use sdano.Base.Table.Laws.{some-insert}
use sdano.Base.Table.Keys.{Unique}
use sdano.Base.Table.Single.{insert-Unique}
use sdano.Queries.Worker.{contains}
use sdano.Queries.Day.{ListWorkerTodayOrdersRow}
use sdano.Orders.Today.{
  TodayObject, TodayOrder, TodayOutput, ItemsByVersion, today_object, today_order, add_seen,
  add_object, add_orders,
}

abbrev pub Row : Type 0
Row = ListWorkerTodayOrdersRow

contains-insert : (ids : List ℕ) (y x : ℕ) → contains (ids ++ y ∷ []) x ≡ contains ids x || y == x
unfolding contains
contains-insert [] y x = ground arith
contains-insert (z ∷ ids) y x = ground (arith, contains-insert ids y x)

abbrev pub IsListed : List TodayObject → TodayOrder → Type 0
IsListed objects o = is_some (select_one (λ (x : TodayObject). x.id == o.object_id) objects) ≡ true

-- `seen` holds the ids of the objects, each of them once, and the objects of the orders are there.
pub record IsSeen (seen : List ℕ) (objects : List TodayObject) (orders : List TodayOrder)
    : Type 0 where
  pub same :
      (x : ℕ) → contains seen x ≡ is_some (select_one (λ (o : TodayObject). o.id == x) objects)
  pub unique : Unique (λ (o : TodayObject). o.id) objects
  pub listed : All (IsListed objects) orders

none_of : (o : Option TodayObject) → is_some o ≡ false → o ≡ none
none_of none h = refl
none_of (some x) h = absurd (cc)

step-IsSeen :
    (items : ItemsByVersion) (o : Row) (seen : List ℕ) (objects : List TodayObject)
    (orders : List TodayOrder)
    → IsSeen seen objects orders
    → IsSeen (add_seen o seen) (add_object o seen objects) (orders ++ today_order items o ∷ [])
step-IsSeen items o seen objects orders s = elim (Bool-cases (contains seen o.object_id)) [
  | inl e ↦ rw e (record {
    same = s.same;
    unique = s.unique;
    listed =
        All-append (IsListed objects) orders (today_order items o ∷ []) s.listed
          (sym (s.same o.object_id) ∙ e, tt);
  })
  | inr e ↦
      let more = insert (today_object o) objects in
      let grows =
        λ (x : ℕ). some-insert (λ (y : TodayObject). y.id == x) (today_object o) objects in
      rw e (record {
        same = λ x.
            contains-insert seen o.object_id x
            ∙ ap (λ b. b || o.object_id == x) (s.same x)
            ∙ sym (grows x);
        unique =
            insert-Unique (λ (y : TodayObject). y.id) (today_object o) objects
              (none_of _ (sym (s.same o.object_id) ∙ e)) s.unique;
        listed =
            All-append (IsListed more) orders (today_order items o ∷ [])
              (All-mono (IsListed objects) (IsListed more) orders
                (λ x h. grows x.object_id ∙ ap (λ b. b || o.object_id == x.object_id) h) s.listed)
              (grows o.object_id ∙ or_true _ _ (==_refl o.object_id), tt);
      })
]
  where
    or_true : (a b : Bool) → b ≡ true → (a || b) ≡ true
    or_true true b h = refl
    or_true false b h = h

pub orders-IsSeen :
    (items : ItemsByVersion) (rows : List Row) (seen : List ℕ) (out : TodayOutput)
    → IsSeen seen out.objects out.work_orders
    → let out' = add_orders items rows seen out in
      Unique (λ (o : TodayObject). o.id) out'.objects
      × (All (IsListed out'.objects) out'.work_orders
          × (out'.work_orders ≡ out.work_orders ++ map (today_order items) rows))
unfolding add_orders
orders-IsSeen items [] seen out s = (s.unique, (s.listed, sym (append-nil out.work_orders)))
orders-IsSeen items (o ∷ rows) seen out s =
    let rest =
      orders-IsSeen items rows (add_seen o seen)
        (record out {
          objects = add_object o seen out.objects;
          work_orders = out.work_orders ++ today_order items o ∷ [];
        })
        (step-IsSeen items o seen out.objects out.work_orders s) in
    (rest.0, (rest.1.0, rest.1.1 ∙ append_assoc out.work_orders (today_order items o ∷ []) _))
