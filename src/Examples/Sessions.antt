-- ===== src/Examples/Sessions.antt =====
-- A worker who claims an invite and a manager who logs in and rotates (auth/service.go).
use sdano.Base.{ℕ, true, false, ◌≡◌, refl, none, some, String, List, [], ◌∷◌, str_eq, ok, err}
use sdano.Base.Table.{select_one}
use sdano.Store.{TenantStatus, manager, worker, AppUser}
use sdano.Examples.Roster.{world as roster}
use sdano.Examples.Office.{cleaner, office}
use sdano.Queries.Auth.{
  get_user_by_email, get_tenant_status, insert_refresh_token, mark_refresh_token_used, claim_invite,
  insert_device_token, is_active_user, get_device_session, GetRefreshTokenRow, GetActiveInviteRow,
}
use sdano.Session.{
  Crypto, Context, AuthError, invalid_refresh, invalid_invite, LoginResult, TokenPair, ClaimResult,
  is_archived, assert_tenant_not_archived, issue_refresh, login_as, login_body, login,
}
use sdano.Session.Rotation.{issue_pair_tx, rotate_tx, rotate}
use sdano.Session.Invites.{claim_tx, claim}
use sdano.Session.Login.{Eligible, login_sound}
use sdano.Session.Reuse.{Operation, logs_in, history, NoneLive, rotation_once, reuse_revokes_chain}
use sdano.Roster.Claimed.{Call, auth, reinvites, adds_worker, run_calls, claim_once}
use sdano.Session.Device.{claim_opens_session}

-- A hash that keeps its text, and a password that is its own hash.
abbrev crypto : Crypto
crypto = record {
  hash_opaque_token = λ s. s;
  verify_password = λ password hash. some (str_eq password hash);
  issue_access_token = λ p now ttl. some "signed";
  dummy_password_hash = "$argon2id$dummy";
  same_email = str_eq;
}

abbrev at : ℕ → String → ℕ → Context
at now plain id = record {
  crypto = crypto;
  fault = λ s. false;
  now = now;
  plaintext = some plain;
  new_id = id;
}

abbrev first_token : GetRefreshTokenRow
first_token = record {
  id = 50;
  tenant_id = 1;
  user_id = 6;
  expires_at = 1_000;
  used_at = none;
  revoked_at = none;
  role = manager;
  is_active = true;
}

abbrev invite : GetActiveInviteRow
invite = record { id = 40; tenant_id = 1; user_id = 7; display_name = "Cleaner" }

abbrev second_pair : TokenPair
second_pair = record { access_token = "signed"; refresh_token = "second" }

abbrev handed_out : ClaimResult
handed_out = record { device_token = "device"; worker_id = 7; worker_name = "Cleaner" }

abbrev welcome : LoginResult
welcome = record {
  access_token = "signed";
  refresh_token = "third";
  user = record {
    id = 6;
    tenant_id = 1;
    display_name = "Boss";
    email = some "boss@example.org";
    role = manager;
  };
}

logged_in : (login (at 20 "third" 52) "boss@example.org" "secret" office).1 ≡ ok welcome
unfolding login login_body login_as get_user_by_email assert_tenant_not_archived get_tenant_status
    issue_refresh insert_refresh_token
logged_in = refl

login_sound_example :
    (u : AppUser) × Eligible (at 20 "third" 52) "boss@example.org" "secret" office u
    × (s : TenantStatus) × (get_tenant_status u.tenant_id office.tenants ≡ some s)
    × (is_archived s ≡ false)
    × (6 ≡ u.id)
    × (1 ≡ u.tenant_id)
    × (manager ≡ u.role)
login_sound_example =
    login_sound (at 20 "third" 52) "boss@example.org" "secret" office welcome logged_in

rotated : (rotate (at 20 "second" 51) first_token office).1 ≡ ok second_pair
unfolding rotate rotate_tx mark_refresh_token_used issue_pair_tx issue_refresh insert_refresh_token
rotated = refl

abbrev login_between : List Operation
login_between = logs_in (at 25 "third" 52) "boss@example.org" "secret" ∷ []

rotation_once_example :
    (e : AuthError) × ((rotate
        (at 30 "again" 53)
        first_token
        (history login_between (rotate (at 20 "second" 51) first_token office).0)).1
      ≡ err e)
rotation_once_example =
    rotation_once (at 20 "second" 51) (at 30 "again" 53) first_token first_token office second_pair
      login_between rotated refl

reuse_revokes_chain_example :
    ((rotate
        (at 30 "again" 53)
        first_token
        (history login_between (rotate (at 20 "second" 51) first_token office).0)).1
      ≡ err invalid_refresh)
    × NoneLive 6
        (rotate (at 30 "again" 53) first_token (
          history login_between (rotate (at 20 "second" 51) first_token office).0)).0.refresh_tokens
reuse_revokes_chain_example =
    reuse_revokes_chain (at 20 "second" 51) (at 30 "again" 53) first_token first_token office
      second_pair login_between rotated refl (λ s. refl)

claimed : (claim (at 20 "device" 60) invite office).1 ≡ ok handed_out
unfolding claim claim_tx claim_invite insert_device_token
claimed = refl

-- A login, a fresh code for the same worker, and a new worker.
abbrev calls_between : List Call
calls_between =
    auth (logs_in (at 25 "third" 52) "boss@example.org" "secret")
    ∷ reinvites roster 1 "cleaner" true
    ∷ adds_worker roster 1 "Second"
    ∷ []

claim_once_example :
    claim
      (at 30 "other" 61)
      invite
      (run_calls calls_between (claim (at 20 "device" 60) invite office).0)
    ≡ (run_calls calls_between (claim (at 20 "device" 60) invite office).0, err invalid_invite)
claim_once_example =
    claim_once (at 20 "device" 60) (at 30 "other" 61) invite invite office handed_out calls_between
      claimed refl

cleaner_found : select_one (is_active_user 7) office.users ≡ some cleaner
unfolding select_one
cleaner_found = refl

claim_opens_session_example :
    get_device_session "device" (claim (at 20 "device" 60) invite office).0
    ≡ some (record { user_id = 7; tenant_id = 1; role = worker })
claim_opens_session_example =
    claim_opens_session (at 20 "device" 60) invite office handed_out cleaner claimed cleaner_found
