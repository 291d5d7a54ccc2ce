-- ===== src/Objects/History/Rows.antt =====
-- The rows of an object's execution history (db/staff.sql.go, `ListObjectExecutions`).
use sdano.Base.{
  ℕ, ◌≡◌, true, false, some, List, [], ◌∷◌, ◌==◌, All, All-mono, Bool-cases, Option-cases, inl, inr,
  arith,
}
use sdano.Base.Table.Keys.{Unique}
use sdano.Base.Sorting.{collect}
use sdano.Base.Sorting.Laws.{IsStrict, IsApart, Ordered, All-collect}
use sdano.Store.{Store, WorkExecution}
use sdano.Queries.Objects.{ListObjectExecutionsRow, is_newer, join_execution}

abbrev pub Row : Type 0
Row = ListObjectExecutionsRow

pub is_newer-IsStrict : IsStrict is_newer
is_newer-IsStrict = record {
  trans = λ a b c h k. newer_trans a b c h k;
  asym = λ a b h. newer_asym a b h;
  irrefl = λ a. newer_irrefl a;
}
  where
    newer_trans : (a b c : Row) → is_newer a b ≡ true → is_newer b c ≡ true → is_newer a c ≡ true
    newer_trans a b c h k = ground arith

    newer_asym : (a b : Row) → is_newer a b ≡ true → is_newer b a ≡ false
    newer_asym a b h = ground arith

    newer_irrefl : (a : Row) → is_newer a a ≡ false
    newer_irrefl a = ground arith

newer_total : (a b : Row) → (b.id == a.id) ≡ false → Ordered is_newer a b
newer_total a b h = elim (Bool-cases (is_newer a b)) [ inl e ↦ inl e | inr e ↦ inr (ground arith) ]

-- The row of an execution has its id and its time.
pub joined_id :
    (tenant_id object_id : ℕ) (db : Store) (e : WorkExecution) (r : Row)
    → join_execution tenant_id object_id db e ≡ some r
    → (r.id ≡ e.id) × (r.created_at ≡ e.created_at)
unfolding join_execution
joined_id tenant_id object_id db e r h = ground arith

pub collected :
    (tenant_id object_id : ℕ) (db : Store) (Q : Row → Type 0) (t : List WorkExecution)
    → All (λ e. (r : Row) → join_execution tenant_id object_id db e ≡ some r → Q r) t
    → All Q (collect (join_execution tenant_id object_id db) t)
collected tenant_id object_id db Q t a =
    All-collect _ Q (join_execution tenant_id object_id db) t (λ e r h k. k r h) a

other_id : (s x r e : ℕ) → s ≡ x → r ≡ e → (x == e) ≡ false → (s == r) ≡ false
other_id s x r e h k n = ground arith

pub joined-IsApart :
    (tenant_id object_id : ℕ) (db : Store) (t : List WorkExecution)
    → Unique (λ e. e.id) t
    → IsApart is_newer (collect (join_execution tenant_id object_id db) t)
unfolding collect
joined-IsApart tenant_id object_id db [] u = tt
joined-IsApart tenant_id object_id db (e ∷ t) u =
    elim (Option-cases (join_execution tenant_id object_id db e)) [
      | inl h ↦ rw h (joined-IsApart tenant_id object_id db t u.1)
      | inr (r, h) ↦
          let key = joined_id tenant_id object_id db e r h in
          let others =
            All-mono (λ x. (x.id == e.id) ≡ false)
              (λ x.
                (s : Row) → join_execution tenant_id object_id db x ≡ some s → Ordered is_newer r s)
              t
              (λ x n s hs.
                newer_total r s (
                  other_id s.id x.id r.id e.id (joined_id tenant_id object_id db x s hs).0 key.0 n))
              u.0 in
          let apart = collected tenant_id object_id db (Ordered is_newer r) t others in
          rw h (apart, joined-IsApart tenant_id object_id db t u.1)
    ]
