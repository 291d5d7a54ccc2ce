-- ===== src/Session/Device.antt =====
-- A claimed invite opens a device session (`ClaimWorker` of auth/service.go and
-- `GetDeviceSession` of db/auth.sql.go).
use sdano.Base.{
  Bool, ◌&&◌, ◌≡◌, refl, none, some, List, [], ◌∷◌, String, str_eq, is_none, ok, Result-cases,
  Option-cases, inl, inr, arith,
}
use sdano.Base.Table.{select_one, insert}
use sdano.Base.Table.Laws.{select_one-append}
use sdano.Base.Texts.{str_eq_refl}
use sdano.Store.{Store, DeviceToken, AppUser}
use sdano.Queries.Auth.{GetActiveInviteRow, get_device_session, insert_device_token, is_active_user}
use sdano.Session.{Context, ClaimResult, commit}
use sdano.Session.Invites.{claim_tx, claim, new_device_row}

abbrev has_hash : String → DeviceToken → Bool
has_hash hash t = str_eq t.token_hash hash

abbrev is_open : String → DeviceToken → Bool
is_open hash t = has_hash hash t && is_none t.revoked_at

no_hash :
    (hash : String) (t : List DeviceToken)
    → select_one (has_hash hash) t ≡ none
    → select_one (is_open hash) t ≡ none
unfolding select_one
no_hash hash [] h = refl
no_hash hash (r ∷ t) h = ground (arith, no_hash hash t)

inserted-select :
    (d : DeviceToken) (t t' : List DeviceToken)
    → insert_device_token d t ≡ some t'
    → d.revoked_at ≡ none
    → select_one (is_open d.token_hash) t' ≡ some d
unfolding insert_device_token select_one
inserted-select d t t' h fresh = elim (Option-cases (select_one (has_hash d.token_hash) t)) [
  | inr (r, f) ↦ absurd (ground arith)
  | inl f ↦
      let written : t' ≡ insert d t = ground arith in
      rw
        (
          written,
          select_one-append (is_open d.token_hash) t (d ∷ []),
          no_hash d.token_hash t f,
          str_eq_refl d.token_hash,
          fresh,
        )
        refl
]

claim_tx-devices :
    (x : Context) (inv : GetActiveInviteRow) (db db' : Store) (res : ClaimResult)
    → claim_tx x inv db ≡ ok (db', res)
    → (insert_device_token (new_device_row x inv res.device_token) db.device_tokens
        ≡ some db'.device_tokens)
      × (db'.users ≡ db.users)
unfolding claim_tx
claim_tx-devices x inv db db' res h = (ground arith, ground arith)

session_found :
    (db : Store) (d : DeviceToken) (u : AppUser)
    → select_one (is_open d.token_hash) db.device_tokens ≡ some d
    → select_one (is_active_user d.user_id) db.users ≡ some u
    → get_device_session d.token_hash db
      ≡ some (record { user_id = u.id; tenant_id = u.tenant_id; role = u.role })
unfolding get_device_session
session_found db d u h able = rw (h, get_device_session) (rw able refl)

-- The device token that a claim hands out opens a session of the invite's user at once, with the
-- user's tenant and role, where the user is active.
pub claim_opens_session :
    (x : Context) (inv : GetActiveInviteRow) (db : Store) (res : ClaimResult) (u : AppUser)
    → (claim x inv db).1 ≡ ok res
    → select_one (is_active_user inv.user_id) db.users ≡ some u
    → get_device_session (x.crypto.hash_opaque_token res.device_token) (claim x inv db).0
      ≡ some (record { user_id = u.id; tenant_id = u.tenant_id; role = u.role })
unfolding claim
claim_opens_session x inv db res u h able = elim (Result-cases (claim_tx x inv db)) [
  | inr (e, f) ↦ absurd (ground arith)
  | inl ((db', res'), f) ↦
      let same : res' ≡ res = ground arith in
      let (written, kept) = claim_tx-devices x inv db db' res (rw same at f) in
      rw (f, claim, commit)
        (session_found db' (new_device_row x inv res.device_token) u
          (inserted-select (new_device_row x inv res.device_token) db.device_tokens
            db'.device_tokens written refl)
          (rw kept able))
]
