-- ===== src/Objects/History/Pages.antt =====
-- What a client that follows the cursors of the execution history sees (object/http.go).
use mathlib.Core.List.{append_assoc}
use sdano.Base.{
  ℕ, ◌≤◌, ◌<◌, zero, suc, ◌≡◌, refl, sym, ap, ◌∙◌, subst, true, false, some, List, [], ◌∷◌, ◌++◌,
  ltb, map, length, All, All-mono, ok, Bool-cases, inl, inr, arith,
}
use sdano.Base.Bytes.{Bytes}
use sdano.Base.Int.{ℤ, pos, negsuc}
use sdano.Base.Table.{select}
use sdano.Base.Table.Keys.{Unique}
use sdano.Base.Sorting.{sort_by, take}
use sdano.Base.Sorting.Laws.{
  IsSorted, sort_by-IsSorted, sort_by-All, select-sort_by, select_rest, select_every, full, short,
  IsPage-cases, length-sort_by,
}
use sdano.Store.{Store, Object}
use sdano.Queries.Objects.{is_newer, is_older, object_rows, get_object, list_object_executions}
use sdano.Session.{Principal}
use sdano.Objects.{World, load_object, list_executions}
use sdano.Objects.History.{
  to_execution_view, load_staff_object, page_limit, page_start, next_cursor, encode_cursor,
  list_staff_object_executions, first_page_cursor,
}
use sdano.Objects.History.Walk.{
  Call, walk, walk-last, walk-next, next-full, next-short, split_view, length_rest,
}
use sdano.Objects.History.Cursor.{IsCodec, cursor_roundtrip, encoded-not_empty}
use sdano.Objects.History.Rows.{Row, is_newer-IsStrict, joined-IsApart, joined_id, collected}

-- The calls for one object and one page size.
abbrev pub calls : World → Principal → Bytes → ℤ → Store → Call
calls w p id limit db cursor =
    list_staff_object_executions w p (record { id = id; cursor = cursor; limit = limit }) db

-- The object is of the caller's tenant, and its reads do not fail.
pub record IsReadable (w : World) (p : Principal) (text : Bytes) (id : ℕ) (db : Store)
    : Type 0 where
  pub parsed : w.parse_uuid text ≡ some id
  pub object : Object
  pub found : get_object id p.tenant_id db.objects ≡ some object
  pub loads : w.fault load_object ≡ false
  pub lists : w.fault list_executions ≡ false

abbrev pub whole_history : ℕ → ℕ → Store → List Row
whole_history tenant_id id db = sort_by is_newer (object_rows tenant_id id db)

page_limit-pos : (limit : ℤ) → (m : ℕ) × (page_limit limit ≡ suc m)
unfolding page_limit
page_limit-pos (negsuc n) = (19, refl)
page_limit-pos (pos zero) = (19, refl)
page_limit-pos (pos (suc n)) = elim (Bool-cases (ltb 100 (suc n))) [
  | inl e ↦ (99, rw e refl)
  | inr e ↦ (n, rw e refl)
]

module _ (w : World) (codec : IsCodec w) (p : Principal) (text : Bytes) (id : ℕ) (limit : ℤ)
    (db : Store) (readable : IsReadable w p text id db)
    (unique : Unique (λ e. e.id) db.executions) where
  listed :
      (after : ℕ × ℕ) (n : ℕ)
      → list_object_executions p.tenant_id id after n db
        ≡ take n (select (is_older after) (whole_history p.tenant_id id db))
  unfolding list_object_executions object_rows
  listed after n = ap (take n) (
      select-sort_by is_newer is_newer-IsStrict (is_older after) _
        (joined-IsApart p.tenant_id id db db.executions unique))

  called :
      (cursor : Bytes) (after : ℕ × ℕ)
      → page_start w cursor ≡ ok after
      → calls w p text limit db cursor
        ≡ ok (
          map to_execution_view (list_object_executions p.tenant_id id after (page_limit limit) db),
          next_cursor w
              (page_limit limit)
              (list_object_executions p.tenant_id id after (page_limit limit) db),
        )
  unfolding list_staff_object_executions load_staff_object
  called cursor after h =
      rw (readable.parsed, readable.loads, readable.found, h, readable.lists) refl

  step :
      (cursor : Bytes) (after : ℕ × ℕ) (ys : List Row)
      → page_start w cursor ≡ ok after
      → select (is_older after) (whole_history p.tenant_id id db) ≡ ys
      → calls w p text limit db cursor
        ≡ ok (
          map to_execution_view (take (page_limit limit) ys),
          next_cursor w (page_limit limit) (take (page_limit limit) ys),
        )
  step cursor after ys h e =
      called cursor after h
      ∙ ap (λ rows. ok (map to_execution_view rows, next_cursor w (page_limit limit) rows))
          (listed after (page_limit limit) ∙ ap (take (page_limit limit)) e)

  sorted : IsSorted is_newer (whole_history p.tenant_id id db)
  unfolding object_rows
  sorted =
      sort_by-IsSorted is_newer is_newer-IsStrict _
        (joined-IsApart p.tenant_id id db db.executions unique)

  -- What follows a row is what the cursor of the row selects.
  after_row :
      (xs : List Row) (r : Row) (rest : List Row)
      → whole_history p.tenant_id id db ≡ xs ++ r ∷ rest
      → select (is_older (r.created_at, r.id)) (whole_history p.tenant_id id db) ≡ rest
  after_row xs r rest e =
      ap (select (is_newer r)) e
      ∙ select_rest is_newer is_newer-IsStrict xs r rest (subst (IsSorted is_newer) e sorted)

  walk_from :
      (m fuel : ℕ) (xs ys : List Row) (cursor : Bytes) (after : ℕ × ℕ)
      → page_limit limit ≡ suc m
      → whole_history p.tenant_id id db ≡ xs ++ ys
      → page_start w cursor ≡ ok after
      → select (is_older after) (whole_history p.tenant_id id db) ≡ ys
      → length ys < fuel
      → walk (calls w p text limit db) fuel cursor ≡ some (map to_execution_view ys)
  walk_from m zero xs ys cursor after l e h sel lt = absurd (omega arith)
  walk_from m (suc fuel) xs ys cursor after l e h sel lt =
      let page =
        subst
          (λ n.
            calls w p text limit db cursor
            ≡ ok (map to_execution_view (take n ys), next_cursor w n (take n ys)))
          l (step cursor after ys h sel) in
      elim (IsPage-cases m ys) [
        | full front r rest whole page' count ↦
            let placed = e ∙ ap (λ u. xs ++ u) whole ∙ sym (append_assoc xs front (r ∷ rest)) in
            let next = next-full w (suc m) _ front r page' count in
            let some_text = encoded-not_empty w codec r.created_at r.id in
            let rest_views =
              walk_from m fuel ((xs ++ front) ++ r ∷ []) rest (encode_cursor w r.created_at r.id)
                (r.created_at, r.id) l (placed ∙ sym (append_assoc (xs ++ front) (r ∷ []) rest))
                (cursor_roundtrip w codec r.created_at r.id) (after_row (xs ++ front) r rest placed)
                (length_rest front r rest fuel (subst (λ u. length u < suc fuel) whole lt)) in
            walk-next (calls w p text limit db) fuel cursor _ _ _ some_text.0 some_text.1
              (page ∙ (λ i. ok (map to_execution_view (page' i), next i))) some_text.2 rest_views
            ∙ ap some (split_view front r rest ∙ ap (map to_execution_view) (sym whole))
        | short page' less ↦
            walk-last (calls w p text limit db) fuel cursor _ _
              (page ∙ (λ i. ok (map to_execution_view (page' i), next_cursor w (suc m) (page' i))))
              (next-short w (suc m) ys less)
      ]

  older_than_start :
      All (λ e. e.created_at ≤ w.now) db.executions
      → All (λ r. is_older (first_page_cursor w) r ≡ true) (whole_history p.tenant_id id db)
  unfolding object_rows
  older_than_start past = sort_by-All is_newer _ _ (
      collected p.tenant_id id db _ db.executions (
        All-mono _ _ db.executions
          (λ e h r found. is_past e.created_at r (joined_id p.tenant_id id db e r found).1 h) past))
    where
      is_past :
          (t : ℕ) (r : Row) → r.created_at ≡ t → t ≤ w.now → is_older (first_page_cursor w) r ≡ true
      is_past t r same h = ground arith

  -- Where the object is of the caller's tenant and its reads do not fail, where ids are unique and
  -- no execution lies in the future, a client that follows the cursors, with any page size, is done
  -- within one page more than there are rows, and has then read the whole history of the object:
  -- each execution once, newest first.
  pub pages_complete :
      All (λ e. e.created_at ≤ w.now) db.executions
      → walk (calls w p text limit db) (suc (length (object_rows p.tenant_id id db))) []
        ≡ some (map to_execution_view (whole_history p.tenant_id id db))
  pages_complete past =
      let size = page_limit-pos limit in
      let same = length-sort_by is_newer (object_rows p.tenant_id id db) in
      walk_from size.0 (suc (length (object_rows p.tenant_id id db))) []
        (whole_history p.tenant_id id db) [] (first_page_cursor w) size.1 refl refl
        (select_every _ _ (older_than_start past)) (omega arith)
