-- ===== src/Tests/Outage.antt =====
-- Calls of the core service that fail first, and that never succeed.
use food_delivery_analytics.Prelude.{
  ℕ, zero, suc, ◌+◌, ◌≤◌, String, ◌≡◌, refl, inr, true, none, some, [],
}
use food_delivery_analytics.Effect.{Result, ok, err, other_fault}
use food_delivery_analytics.Mongo.Document.{Time}
use food_delivery_analytics.HttpClient.{Client, ClientRequest, Reply, Transport, ApiResponse, get}
use food_delivery_analytics.HttpClient.Attempts.{Ends, StaysDown, prepared, get-Ends}
use food_delivery_analytics.HttpClient.Effort.{Meters, get_effort}
use food_delivery_analytics.CoreClient.{PermResponse, new_client, get_role_permissions}
use food_delivery_analytics.Rbac.Cache.{PermissionCache, new_permission_cache, get_permissions}
use food_delivery_analytics.Rbac.Require.{require}
use food_delivery_analytics.Rbac.Outage.{DecidedByCache, Keeps, require_during_outage}
use food_delivery_analytics.Tests.Permissions.{analyst}

-- How many calls still fail, how many were sent, and how long was slept.
abbrev World : Type 0
World = ℕ × ℕ × ℕ

abbrev send_one : ClientRequest → World → Result Reply × World
send_one req (zero, n, ms) = (ok (record { status_code = 200; body = "" }), (zero, n + 1, ms))
send_one req (suc k, n, ms) = (ok (record { status_code = 503; body = "" }), (k, n + 1, ms))

abbrev transport : Transport World
transport = record {
  new_request = λ url. ok (record { url = url; headers = [] });
  send = send_one;
  sleep = λ ms w. (w.0, w.1, w.2 + ms);
  itoa = λ n. "503";
}

abbrev nobody : String → Result (ApiResponse PermResponse)
nobody body = ok (record { success = true; content = record { permissions = [] } })

abbrev core : Client
core = new_client "http://core" "key"

abbrev asked : ClientRequest
asked = record { url = "http://core/p"; headers = [] }

get-Ends_example :
    Ends transport nobody
      (prepared core [] asked)
      3
      0
      (1, 0, 0)
      (get transport nobody core "/p" [] (1, 0, 0))
get-Ends_example = get-Ends transport nobody core "/p" [] asked (1, 0, 0) refl

sent_send_one : (req : ClientRequest) (w : World) → (send_one req w).1.1 ≡ w.1 + 1
sent_send_one req (zero, n, ms) = refl
sent_send_one req (suc k, n, ms) = refl

slept_send_one : (req : ClientRequest) (w : World) → (send_one req w).1.2 ≡ w.2
slept_send_one req (zero, n, ms) = refl
slept_send_one req (suc k, n, ms) = refl

abbrev meters : Meters transport
meters = record {
  sent = λ w. w.1;
  slept = λ w. w.2;
  sent-send = sent_send_one;
  slept-send = slept_send_one;
  sent-sleep = λ n w. refl;
  slept-sleep = λ n w. refl;
}

abbrev ended : World
ended = (get transport nobody core "/p" [] (1, 0, 0)).1

get_effort_example : (1 ≤ ended.1) × (ended.1 ≤ 3) × (ended.2 ≤ 300)
get_effort_example = get_effort transport nobody meters core "/p" [] asked (1, 0, 0) refl

-- A core service that never comes back, and the clock of a world.
abbrev dead : Transport ℕ
dead = record {
  new_request = λ url. ok (record { url = url; headers = [] });
  send = λ req w. (err (other_fault "connection refused"), w);
  sleep = λ ms w. w + ms;
  itoa = λ n. "";
}

abbrev Down : ℕ → Type 0
Down w = Unit {0}

dead_stays : StaysDown dead nobody Down
dead_stays = record {
  send_down = λ req w h. ((other_fault "connection refused", refl), tt);
  sleep_down = λ n w h. tt;
}

abbrev tick : ℕ → Time × ℕ
tick n = (n, n + 1)

abbrev cold : PermissionCache ℕ
cold = new_permission_cache 5

require_during_outage_example :
    DecidedByCache "analytics:read" 60 5 none
      (require
        (get_permissions tick (get_role_permissions dead (λ s. s) nobody core) 60)
        "analytics:read"
        (some analyst)
        cold).0
    × Keeps dead
        (λ s. s)
        nobody
        core
        tick
        60
        Down
        dead_stays
        (λ w h. tt)
        cold
        (require
          (get_permissions tick (get_role_permissions dead (λ s. s) nobody core) 60)
          "analytics:read"
          (some analyst)
          cold).1
require_during_outage_example =
    require_during_outage dead (λ s. s) nobody core tick 60 Down dead_stays (λ w h. tt)
      "analytics:read" "analyst" analyst cold refl (inr (refl, refl)) tt
