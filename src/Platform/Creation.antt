-- ===== src/Platform/Creation.antt =====
-- apps/api/internal/platform/ops.go: a new tenant with its first admin, and the list of tenants.
pub mod Admin
use Prim.Native.Char.{Char, code}
use Prim.Native.String.{char_at, ◌++◌}
use sdano.Base.{
  ℕ, zero, suc, ◌+◌, ◌-◌, ◌*◌, ◌%◌, ◌^◌, Bool, true, false, ◌&&◌, ◌||◌, Option, none, some, String,
  List, [], ◌∷◌, ◌==◌, ltb, leb, str_eq, if◌then◌else◌, Result, ok, err, ◌>>=◌, ◌>>◌, reject_if,
  or_err,
}
use sdano.Base.Int.{ℤ, pos, negsuc}
use sdano.Store.{Store, Tenant, trial, AppUser, admin, OpsAudit}
use sdano.Queries.Tenants.{
  ops_create_tenant, ops_insert_admin_user, OpsListTenantsRow, ops_list_tenants, insert_ops_audit,
}
use sdano.Session.{hour}

pub data CreateStatement : Type 0 where
  begin_tx insert_tenant insert_admin insert_audit commit_tx list_rows : CreateStatement

pub data CreateError : Type 0 where
  empty_name negative_days random_failed hash_failed email_in_use : CreateError
  failed_statement : CreateStatement → CreateError

-- What a call meets: `draw i` is the random number of the character at `i` (`none` where the
-- generator fails), `hash_password` is argon2id, `uuid_string` is `UUID.String`, and `same_email`
-- compares as `citext` does.
pub record World : Type 0 where
  pub fault : CreateStatement → Bool
  pub now : ℕ
  pub draw : ℕ → Option ℕ
  pub hash_password : String → Option String
  pub new_tenant_id : ℕ
  pub new_user_id : ℕ
  pub uuid_string : ℕ → String
  pub same_email : String → String → Bool
  pub collate : String → String → Bool

abbrev pub run_statement : World → CreateStatement → Result CreateError (Unit {0})
run_statement w s = reject_if (w.fault s) (failed_statement s)

-- === texts ===

-- `unicode.IsSpace`.
abbrev pub is_space : ℕ → Bool
is_space c =
    (leb 9 c && leb c 13)
    || (c == 32
        || (c == 133
            || (c == 160
                || (c == 5760
                    || ((leb 8192 c && leb c 8202)
                        || (c == 8232
                            || (c == 8233 || (c == 8239 || (c == 8287 || c == 12288)))))))))

unfoldable pub trim_left : String → String
trim_left String.[] = String.[]
trim_left (String.◌∷◌ c s) =
    let rest = trim_left s in if is_space (code c) then rest else String.◌∷◌ c s

abbrev pub unless_empty : Char → String → String
unless_empty c String.[] = if is_space (code c) then String.[] else String.◌∷◌ c String.[]
unless_empty c (String.◌∷◌ d s) = String.◌∷◌ c (String.◌∷◌ d s)

unfoldable pub trim_right : String → String
trim_right String.[] = String.[]
trim_right (String.◌∷◌ c s) = unless_empty c (trim_right s)

-- `strings.TrimSpace`.
abbrev pub trim_space : String → String
trim_space s = trim_right (trim_left s)

-- What lowering a rune and dropping what is not of `[a-z0-9]` leaves of it: beside the ASCII
-- letters, only the capital I with a dot and the Kelvin sign are lowered to such a letter.
abbrev pub slug_rune : Char → Option Char
slug_rune c =
    let n = code c in
    if (leb 97 n && leb n 122) || (leb 48 n && leb n 57)
    then some c
    else if leb 65 n && leb n 90
    then some (char_at "abcdefghijklmnopqrstuvwxyz" (n - 65))
    else if n == 304
    then some (char_at "i" 0)
    else if n == 8490
    then some (char_at "k" 0)
    else none

abbrev pub put_rune : Option Char → String → String
put_rune none s = s
put_rune (some c) s = String.◌∷◌ c s

unfoldable pub slug_runes : String → String
slug_runes String.[] = String.[]
slug_runes (String.◌∷◌ c s) = put_rune (slug_rune c) (slug_runes s)

-- `strings.ReplaceAll(s, "-", "")`.
unfoldable pub without_dashes : String → String
without_dashes String.[] = String.[]
without_dashes (String.◌∷◌ c s) =
    let rest = without_dashes s in if code c == 45 then rest else String.◌∷◌ c rest

-- `s[:n]` of an ASCII text.
abbrev pub first_runes : ℕ → String → String
first_runes zero s = String.[]
first_runes (suc n) String.[] = String.[]
first_runes (suc n) (String.◌∷◌ c s) = String.◌∷◌ c (first_runes n s)

unfoldable pub slugify : World → String → ℕ → String
unfolding slug_runes without_dashes
slugify w name tenant_id =
    let s = slug_runes name in
    if str_eq s "" then first_runes 8 (without_dashes (w.uuid_string tenant_id)) else s

abbrev pub admin_email : World → String → String
admin_email w name = "admin@" ++ (slugify w name w.new_tenant_id ++ ".sdano.local")

-- === the password ===

abbrev pub default_password_len : ℕ
default_password_len = 24

abbrev pub password_alphabet : String
password_alphabet = "ABCDEFGHIJKLMNOPQRSTUVWXYZabcdefghijklmnopqrstuvwxyz0123456789"

-- The characters from `i` on, of which `left` are missing.
unfoldable pub password_from : (ℕ → Option ℕ) → ℕ → ℕ → Option String
password_from draw i zero = some String.[]
password_from draw i (suc left) =
    let rest = password_from draw (suc i) left in
    elim (draw i) [
      | none ↦ none
      | some n ↦ elim rest [
        | none ↦ none
        | some s ↦ some (String.◌∷◌ (char_at password_alphabet n) s)
      ]
    ]

abbrev pub generate_password : World → Option String
generate_password w = password_from w.draw 0 default_password_len

-- === the call ===

pub record CreateTenantResult : Type 0 where
  pub tenant_id : ℕ
  pub admin_email : String
  pub admin_password : String

-- `time.Duration(trialDays) * 24 * time.Hour` wraps around at 64 bits, signed.
abbrev pub trial_end : ℕ → ℕ → ℕ
trial_end now days =
    let d = (days * (24 * hour)) % 2 ^ 64 in if ltb d (2 ^ 63) then now + d else now - (2 ^ 64 - d)

abbrev pub new_tenant : World → String → ℕ → Tenant
new_tenant w name days = record {
  id = w.new_tenant_id;
  name = name;
  status = trial;
  trial_ends_at = some (trial_end w.now days);
  plan_note = none;
  billed_until = none;
  timezone = "UTC";
  suspended_at = none;
}

abbrev pub new_admin : World → String → String → AppUser
new_admin w email hash = record {
  id = w.new_user_id;
  tenant_id = w.new_tenant_id;
  role = admin;
  display_name = "Admin";
  email = some email;
  password_hash = some hash;
  is_active = true;
  created_at = w.now;
}

abbrev pub trial_days : ℤ → Result CreateError ℕ
trial_days (pos n) = ok n
trial_days (negsuc n) = err negative_days

abbrev pub creation_audit : World → String → OpsAudit
creation_audit w name = record {
  action = "tenant.create";
  tenant_id = some w.new_tenant_id;
  detail = ("name", name) ∷ ("admin_email", admin_email w name) ∷ [];
}

unfoldable pub create_tenant_tx :
    World → String → ℕ → String → Store → Result CreateError (Store × CreateTenantResult)
create_tenant_tx w name days password db = do
  hash ← or_err (w.hash_password password) hash_failed
  run_statement w begin_tx
  run_statement w insert_tenant
  tenants ←
      or_err (ops_create_tenant (new_tenant w name days) db.tenants)
        (failed_statement insert_tenant)
  run_statement w insert_admin
  users ←
      or_err (ops_insert_admin_user w.same_email (new_admin w (admin_email w name) hash) db.users)
        email_in_use
  run_statement w insert_audit
  run_statement w commit_tx
  ok (
    record db {
      tenants = tenants;
      users = users;
      audits = insert_ops_audit (creation_audit w name) db.audits;
    },
    record {
      tenant_id = w.new_tenant_id;
      admin_email = admin_email w name;
      admin_password = password;
    },
  )

unfoldable pub create_tenant_call :
    World → String → ℤ → Store → Result CreateError (Store × CreateTenantResult)
unfolding trim_left trim_right password_from
create_tenant_call w name days db = do
  let name = trim_space name
  reject_if (str_eq name "") empty_name
  days ← trial_days days
  password ← or_err (generate_password w) random_failed
  create_tenant_tx w name days password db

-- The transaction's database where it commits, and the one before it where it fails.
abbrev pub committed :
    Store
    → Result CreateError (Store × CreateTenantResult)
    → Store × Result CreateError CreateTenantResult
committed db (err e) = (db, err e)
committed db (ok (db', r)) = (db', ok r)

unfoldable pub ops_create_tenant_call :
    World → String → ℤ → Store → Store × Result CreateError CreateTenantResult
ops_create_tenant_call w name days db = committed db (create_tenant_call w name days db)

unfoldable pub ops_list_tenants_call : World → Store → Result CreateError (List OpsListTenantsRow)
unfolding ops_list_tenants
ops_list_tenants_call w db = do run_statement w list_rows; ok (ops_list_tenants w.collate db)
