-- ===== src/Examples/Objects.antt =====
-- A bus stop with two executions, its history, its QR token and a change of it.
use sdano.Base.{
  ℕ, zero, suc, ◌≡◌, ◌≤◌, refl, Bool, true, false, Option, none, some, String, List, [], ◌∷◌, map,
  length, str_eq, ok, ap, arith,
}
use sdano.Base.Int.{pos}
use sdano.Base.Bytes.{Bytes, count}
use sdano.Base.Table.{select_one, matching, insert}
use sdano.Base.Sorting.{sort_by, collect}
use sdano.Store.{Store, Object, worker, manager, WorkExecution}
use sdano.Queries.Tenants.{get_tenant_timezone}
use sdano.Queries.Objects.{
  get_object, insert_object, get_worker_order_for_object, object_rows, join_execution,
  count_uploaded,
}
use sdano.Calendar.{tenant_today}
use sdano.Session.{Principal}
use sdano.Objects.{
  World, ObjectBody, ObjectPatchBody, new_object, insert_call, create_object, validate_contract_ref,
}
use sdano.Objects.Qr.{QrUnique}
use sdano.Objects.Changes.{ObjectCall, create, patch, run_object_calls, qr_stays_unique}
use sdano.Objects.Scan.{qr_object, qr_order, worker_object_by_qr}
use sdano.Objects.Scan.Resolved.{created_object_resolves}
use sdano.Objects.History.{to_execution_view}
use sdano.Objects.History.Cursor.{IsCodec}
use sdano.Objects.History.Walk.{walk}
use sdano.Objects.History.Pages.{calls, IsReadable, whole_history, pages_complete}
use sdano.Examples.Office.{office, bus_stop}

-- A number as a text of that many letters.
unfoldable unary : ℕ → Bytes
unary zero = []
unary (suc n) = b'a' ∷ unary n

unfoldable first_zone : String → Option ℕ
first_zone s = some 20

abbrev healthy_world : World
healthy_world = record {
  fault = λ s. false;
  now = 30;
  clock = record { zone_today = first_zone; utc_today = 19 };
  new_id = 3;
  collate = λ a b. false;
  parse_uuid = λ s. some (length s);
  format_uuid = unary;
  encode_base64 = λ s. s;
  decode_base64 = some;
  format_time = unary;
  parse_time = λ s. some (length s);
}

length-unary : (n : ℕ) → length (unary n) ≡ n
unfolding unary
length-unary zero = refl
length-unary (suc n) = omega (arith, length-unary n)

unary-no_bar : (n : ℕ) → count b'|' (unary n) ≡ 0
unfolding unary count
unary-no_bar zero = refl
unary-no_bar (suc n) = omega (arith, unary-no_bar n)

codec : IsCodec healthy_world
codec = record {
  base64 = λ s. refl;
  empty = refl;
  time = λ t. ap some (length-unary t);
  no_bar = unary-no_bar;
  uuid = λ id. ap some (length-unary id);
}

abbrev boss : Principal
boss = record { user_id = 6; tenant_id = 1; role = manager }

abbrev cleaner : Principal
cleaner = record { user_id = 7; tenant_id = 1; role = worker }

abbrev second_execution : WorkExecution
second_execution = record {
  id = 101;
  tenant_id = 1;
  work_order_id = 1;
  worker_id = 7;
  started_at = some 12;
  finished_at = none;
  device_finished_at = none;
  note = none;
  created_at = 12;
}

abbrev street : Store
street = record office {
  objects = bus_stop ∷ [];
  executions = insert second_execution office.executions;
}

readable : IsReadable healthy_world boss (b'x' ∷ []) 1 street
unfolding get_object select_one
readable = record { parsed = refl; object = bus_stop; found = refl; loads = refl; lists = refl }

pages_complete_example :
    walk
      (calls healthy_world boss (b'x' ∷ []) (pos 1) street)
      (suc (length (object_rows 1 1 street)))
      []
    ≡ some (map to_execution_view (whole_history 1 1 street))
pages_complete_example =
    pages_complete healthy_world codec boss (b'x' ∷ []) 1 (pos 1) street readable
      ((refl, tt), (tt, tt)) (omega arith, (omega arith, tt))

-- The history has both executions, the later one first.
whole_history_test : map (λ r. r.id) (whole_history 1 1 street) ≡ 101 ∷ 100 ∷ []
unfolding object_rows collect join_execution select_one sort_by count_uploaded matching
whole_history_test = refl

one_object : QrUnique (bus_stop ∷ [])
unfolding matching
one_object = record { ids = (tt, tt); tokens = λ token. few token (str_eq "qr1" token) }
  where
    few : (token : String) (b : Bool) → matching (λ (x : Bool). x) (b ∷ []) ≤ 1
    few token true = omega arith
    few token false = omega arith

abbrev body : ObjectBody
body = record {
  name = "Second stop";
  address = none;
  lat = none;
  lon = none;
  kind = none;
  qr_token = some "qr2";
  contract_id = none;
}

abbrev same_token : ObjectPatchBody
same_token = record {
  name = none;
  address = none;
  lat = none;
  lon = none;
  kind = none;
  qr_token = some "qr1";
  contract_id = none;
  is_active = none;
}

-- An object is created, and is then asked to take the token of the other.
abbrev two_calls : List ObjectCall
two_calls =
    create healthy_world boss body
    ∷ patch healthy_world boss (b'x' ∷ b'x' ∷ b'x' ∷ []) (some same_token)
    ∷ []

qr_stays_unique_example : QrUnique (run_object_calls two_calls street).objects
qr_stays_unique_example = qr_stays_unique two_calls street one_object

abbrev second_stop : Object
second_stop = new_object healthy_world 1 body

abbrev grown : Store
grown = record street { objects = insert second_stop street.objects }

second_made : create_object healthy_world boss body street ≡ (grown, ok second_stop)
unfolding create_object insert_call validate_contract_ref insert_object select_one
second_made = refl

street_today : tenant_today healthy_world.clock 1 grown ≡ some 20
unfolding tenant_today get_tenant_timezone first_zone select_one
street_today = refl

created_object_resolves_example :
    worker_object_by_qr healthy_world cleaner "qr2" grown
    ≡ ok (qr_object second_stop, qr_order (get_worker_order_for_object 1 7 3 20 grown.work_orders))
created_object_resolves_example =
    created_object_resolves healthy_world healthy_world boss cleaner body street grown second_stop
      "qr2" 20 second_made refl refl (λ s. refl) street_today
