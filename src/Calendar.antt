-- ===== src/Calendar.antt =====
-- `TenantToday` of apps/api/internal/workorder/http.go: the date on the calendar of a tenant.
use sdano.Base.{ℕ, Option, none, some, String}
use sdano.Store.{Store}
use sdano.Queries.Tenants.{get_tenant_timezone}

-- The date in a zone of the time-zone database, which may not know the zone, and in UTC.
pub record Clock : Type 0 where
  pub zone_today : String → Option ℕ
  pub utc_today : ℕ

abbrev pub today_in : Clock → String → ℕ
today_in c timezone = elim (c.zone_today timezone) [ none ↦ c.utc_today | some today ↦ today ]

-- `none` is `pgx.ErrNoRows`.
unfoldable pub tenant_today : Clock → ℕ → Store → Option ℕ
unfolding get_tenant_timezone
tenant_today c tenant_id db = elim (get_tenant_timezone tenant_id db.tenants) [
  | none ↦ none
  | some timezone ↦ some (today_in c timezone)
]
