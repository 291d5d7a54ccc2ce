-- ===== src/Session/Spent.antt =====
-- Spent refresh tokens stay spent (auth/service.go with the statements of auth.sql.go).
use sdano.Base.{
  ℕ, Bool, true, false, ◌≡◌, refl, ◌∙◌, subst, none, some, List, [], ◌∷◌, String, ◌==◌, is_some,
  All, Bool-cases, inl, inr, arith,
}
use sdano.Base.Table.{select_one, update, insert}
use sdano.Base.Table.Laws.{All-update, All-insert, some-update, some-insert, some-weaken}
use sdano.Store.{RefreshToken}
use sdano.Queries.Auth.{
  is_markable, insert_refresh_token, mark_refresh_token_used, revoke_refresh_token,
  revoke_user_refresh_tokens,
}

-- The token is stored, and is used or revoked.
pub record IsSpent (id : ℕ) (t : List RefreshToken) : Type 0 where
  pub present : is_some (select_one (λ (r : RefreshToken). r.id == id) t) ≡ true
  pub spent : All (λ r. is_markable id r ≡ false) t

-- An update that sets a time of use or of revocation.
spend-IsSpent :
    (id : ℕ) (p : RefreshToken → Bool) (f : RefreshToken → RefreshToken) (t : List RefreshToken)
    → ((r : RefreshToken) → (f r).id ≡ r.id)
    → ((r : RefreshToken) → is_markable id r ≡ false → is_markable id (f r) ≡ false)
    → IsSpent id t
    → IsSpent id (update p f t)
spend-IsSpent id p f t same keep h = record {
  present = some-update (λ r. r.id == id) p f t (λ r. ground (arith, same r)) ∙ h.present;
  spent = All-update (λ r. is_markable id r ≡ false) p f t (λ r k _. keep r k) h.spent;
}

pub revoke_user-IsSpent :
    (id now user : ℕ) (t : List RefreshToken)
    → IsSpent id t
    → IsSpent id (revoke_user_refresh_tokens now user t)
unfolding revoke_user_refresh_tokens
revoke_user-IsSpent id now user t h = spend-IsSpent id _ _ t (λ r. refl) (λ r k. ground arith) h

pub revoke-IsSpent :
    (id now : ℕ) (hash : String) (t : List RefreshToken)
    → IsSpent id t
    → IsSpent id (revoke_refresh_token now hash t)
unfolding revoke_refresh_token
revoke-IsSpent id now hash t h = spend-IsSpent id _ _ t (λ r. refl) (λ r k. ground arith) h

pub mark-IsSpent :
    (id now other : ℕ) (t t' : List RefreshToken)
    → mark_refresh_token_used now other t ≡ some t'
    → IsSpent id t
    → IsSpent id t'
unfolding mark_refresh_token_used
mark-IsSpent id now other t t' m h =
    let e : update (is_markable other) (λ r. record r { used_at = some now }) t ≡ t' =
      ground arith in
    subst (IsSpent id) e (
      spend-IsSpent id (is_markable other) (λ r. record r { used_at = some now }) t (λ r. refl)
        (λ r k. ground arith) h)

-- An inserted row has a new id.
inserted_new :
    (id : ℕ) (row : RefreshToken) (t t' : List RefreshToken)
    → insert_refresh_token row t ≡ some t'
    → is_some (select_one (λ (r : RefreshToken). r.id == id) t) ≡ true
    → (row.id == id) ≡ false
unfolding insert_refresh_token
inserted_new id row t t' m there = elim (Bool-cases (row.id == id)) [
  | inr n ↦ n
  | inl y ↦
      let same : id ≡ row.id = ground arith in
      let known =
        subst (λ j. is_some (select_one (λ (r : RefreshToken). r.id == j) t) ≡ true) same there in
      absurd (ground (arith, known))
]

pub insert-IsSpent :
    (id : ℕ) (row : RefreshToken) (t t' : List RefreshToken)
    → insert_refresh_token row t ≡ some t'
    → IsSpent id t
    → IsSpent id t'
unfolding insert_refresh_token
insert-IsSpent id row t t' m h =
    let e : insert row t ≡ t' = ground arith in
    let fresh : (row.id == id) ≡ false = inserted_new id row t t' m h.present in
    subst (IsSpent id) e (record {
      present = rw (some-insert (λ (r : RefreshToken). r.id == id) row t, h.present) refl;
      spent = All-insert (λ r. is_markable id r ≡ false) row t h.spent (ground arith);
    })

-- Marking spends the token.
marked :
    (id now : ℕ) (t : List RefreshToken)
    → All
        (λ r. is_markable id r ≡ false)
        (update (is_markable id) (λ r. record r { used_at = some now }) t)
unfolding update
marked id now [] = tt
marked id now (r ∷ t) = (ground arith, marked id now t)

pub mark_spends :
    (id now : ℕ) (t t' : List RefreshToken)
    → mark_refresh_token_used now id t ≡ some t'
    → IsSpent id t'
unfolding mark_refresh_token_used
mark_spends id now t t' m =
    let e : update (is_markable id) (λ r. record r { used_at = some now }) t ≡ t' = ground arith in
    let found : is_some (select_one (is_markable id) t) ≡ true = ground arith in
    subst (IsSpent id) e (record {
      present =
          some-update (λ r. r.id == id) (is_markable id) (λ r. record r { used_at = some now }) t
            (λ r. refl)
          ∙ some-weaken (is_markable id) (λ r. r.id == id) t (λ r p. ground arith) found;
      spent = marked id now t;
    })

none_markable :
    (id : ℕ) (t : List RefreshToken)
    → All (λ r. is_markable id r ≡ false) t
    → select_one (is_markable id) t ≡ none
unfolding select_one
none_markable id [] h = refl
none_markable id (r ∷ t) h = ground (arith, none_markable id t h.1)

-- A spent token is marked by no statement.
pub IsSpent-mark :
    (id now : ℕ) (t : List RefreshToken) → IsSpent id t → mark_refresh_token_used now id t ≡ none
unfolding mark_refresh_token_used
IsSpent-mark id now t h = ground (arith, none_markable id t h.spent)
