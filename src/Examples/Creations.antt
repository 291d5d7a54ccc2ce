-- ===== src/Examples/Creations.antt =====
-- A new tenant, whose admin logs in.
use sdano.Base.{◌≡◌, refl, subst, true, false, none, some, String, [], ◌∷◌, str_eq, ok, err}
use sdano.Base.Int.{pos, negsuc}
use sdano.Base.Table.{select_one}
use sdano.Base.Texts.{str_eq_refl}
use sdano.Store.{Store, Tenant, trial, AppUser, admin}
use sdano.Queries.Auth.{get_tenant, get_tenant_status}
use sdano.Queries.Tenants.{ops_create_tenant, ops_insert_admin_user, insert_ops_audit}
use sdano.Session.{Context, login_body, login_as}
use sdano.Platform.Creation.{
  World, CreateTenantResult, negative_days, trim_left, trim_right, slug_runes, without_dashes,
  slugify, password_from, trial_end, create_tenant_tx, create_tenant_call, ops_create_tenant_call,
}
use sdano.Platform.Creation.Admin.{created_admin_logs_in}
use sdano.Examples.Office.{office, boss, cleaner, agency}

abbrev pub world : World
world = record {
  fault = λ s. false;
  now = 20;
  draw = some;
  hash_password = some;
  new_tenant_id = 2;
  new_user_id = 9;
  uuid_string = λ id. "0a1b2c3d-4e5f-6071-8293-a4b5c6d7e8f9";
  same_email = str_eq;
  collate = λ a b. false;
}

abbrev context : Context
context = record {
  crypto = record {
    hash_opaque_token = λ s. s;
    verify_password = λ password hash. some (str_eq password hash);
    issue_access_token = λ p now ttl. some "signed";
    dummy_password_hash = "dummy";
    same_email = str_eq;
  };
  fault = λ s. false;
  now = 30;
  plaintext = some "plain";
  new_id = 60;
}

abbrev email : String
email = "admin@acme2.sdano.local"

abbrev password : String
password = "ABCDEFGHIJKLMNOPQRSTUVWX"

abbrev acme : Tenant
acme = record {
  id = 2;
  name = "Acme 2";
  status = trial;
  trial_ends_at = some (trial_end 20 14);
  plan_note = none;
  billed_until = none;
  timezone = "UTC";
  suspended_at = none;
}

abbrev acme_admin : AppUser
acme_admin = record {
  id = 9;
  tenant_id = 2;
  role = admin;
  display_name = "Admin";
  email = some email;
  password_hash = some password;
  is_active = true;
  created_at = 20;
}

abbrev two_tenants : Store
two_tenants = record office {
  tenants = agency ∷ acme ∷ [];
  users = boss ∷ cleaner ∷ acme_admin ∷ [];
  audits =
      record {
        action = "tenant.create";
        tenant_id = some 2;
        detail = ("name", "Acme 2") ∷ ("admin_email", email) ∷ [];
      }
      ∷ [];
}

abbrev credentials : CreateTenantResult
credentials = record { tenant_id = 2; admin_email = email; admin_password = password }

creates : ops_create_tenant_call world "  Acme 2 " (pos 14) office ≡ (two_tenants, ok credentials)
unfolding ops_create_tenant_call create_tenant_call create_tenant_tx trim_left trim_right slugify
    slug_runes without_dashes password_from ops_create_tenant ops_insert_admin_user insert_ops_audit
    get_tenant select_one
creates = refl

verifies : (p h : String) → some p ≡ some h → some (str_eq p h) ≡ some true
verifies p h e =
    let same : p ≡ h = cc in
    subst (λ x. some (str_eq p x) ≡ some true) same (rw (str_eq_refl p) refl)

created_admin_logs_in_example :
    (u : AppUser) × ((login_body context email password two_tenants
        ≡ login_as context u two_tenants)
      × ((u.role ≡ admin)
          × ((u.tenant_id ≡ 2) × (get_tenant_status 2 two_tenants.tenants ≡ some trial))))
created_admin_logs_in_example =
    created_admin_logs_in world context "  Acme 2 " (pos 14) office two_tenants credentials refl
      str_eq_refl verifies refl creates

-- A name without Latin letters and digits falls back to the id.
slug_test : slugify world "Чисто" 2 ≡ "0a1b2c3d"
unfolding slugify slug_runes without_dashes
slug_test = refl

negative_test : ops_create_tenant_call world "Acme" (negsuc 0) office ≡ (office, err negative_days)
unfolding ops_create_tenant_call create_tenant_call trim_left trim_right
negative_test = refl
