-- ===== src/Objects/History/Walk.antt =====
-- A client that follows the cursors of the execution history (object/http.go).
use mathlib.Core.List.{append_assoc, map-append}
use sdano.Base.{
  ℕ, ◌<◌, zero, suc, ◌≡◌, refl, sym, ap, ◌∙◌, subst, true, false, Option, none, some, List, [], ◌∷◌,
  ◌++◌, ◌==◌, map, length, length-append, Result, ok, err, arith,
}
use sdano.Base.Bytes.{Bytes}
use sdano.Base.Sorting.Laws.{last_row-append}
use sdano.Objects.{World, ObjectError}
use sdano.Objects.History.{ObjectExecutionView, to_execution_view, next_cursor, encode_cursor}
use sdano.Objects.History.Rows.{Row}

abbrev pub Call : Type 0
Call = Bytes → Result ObjectError (List ObjectExecutionView × Bytes)

abbrev pub with_views :
    List ObjectExecutionView → Option (List ObjectExecutionView) → Option (List ObjectExecutionView)
with_views views none = none
with_views views (some rest) = some (views ++ rest)

abbrev pub follow :
    (Bytes → Option (List ObjectExecutionView))
    → Result ObjectError (List ObjectExecutionView × Bytes)
    → Option (List ObjectExecutionView)
follow next (err e) = none
follow next (ok (views, [])) = some views
follow next (ok (views, c ∷ s)) = with_views views (next (c ∷ s))

-- A client that asks for pages until no cursor comes with one; `none` is an error, or more pages
-- than `fuel`.
unfoldable pub walk : Call → ℕ → Bytes → Option (List ObjectExecutionView)
walk call zero cursor = none
walk call (suc fuel) cursor = follow (walk call fuel) (call cursor)

pub walk-last :
    (call : Call) (fuel : ℕ) (cursor : Bytes) (views : List ObjectExecutionView) (s : Bytes)
    → call cursor ≡ ok (views, s)
    → s ≡ []
    → walk call (suc fuel) cursor ≡ some views
unfolding walk
walk-last call fuel cursor views s h e = rw (h, e) refl

pub walk-next :
    (call : Call) (fuel : ℕ) (cursor : Bytes) (views rest : List ObjectExecutionView) (s : Bytes)
    (c : ℕ) (t : Bytes)
    → call cursor ≡ ok (views, s)
    → s ≡ c ∷ t
    → walk call fuel s ≡ some rest
    → walk call (suc fuel) cursor ≡ some (views ++ rest)
unfolding walk
walk-next call fuel cursor views rest s c t h e next =
    let next' : walk call fuel (c ∷ t) ≡ some rest =
      subst (λ u. walk call fuel u ≡ some rest) e next in
    rw (h, e, next') refl

pub next-full :
    (w : World) (n : ℕ) (rows front : List Row) (r : Row)
    → rows ≡ front ++ r ∷ []
    → length rows ≡ n
    → next_cursor w n rows ≡ encode_cursor w r.created_at r.id
next-full w n rows front r page count =
    let test : (length rows == n) ≡ true = ground arith in
    rw (test, page, last_row-append front r) refl

pub next-short :
    (w : World) (n : ℕ) (rows : List Row) → (length rows == n) ≡ false → next_cursor w n rows ≡ []
next-short w n rows h = rw h refl

pub split_view :
    (front : List Row) (r : Row) (rest : List Row)
    → map to_execution_view (front ++ r ∷ []) ++ map to_execution_view rest
      ≡ map to_execution_view (front ++ r ∷ rest)
split_view front r rest =
    sym (map-append to_execution_view (front ++ r ∷ []) rest)
    ∙ ap (map to_execution_view) (append_assoc front (r ∷ []) rest)

pub length_rest :
    (front : List Row) (r : Row) (rest : List Row) (fuel : ℕ)
    → length (front ++ r ∷ rest) < suc fuel
    → length rest < fuel
length_rest front r rest fuel h = omega (arith, length-append front (r ∷ rest))
