-- ===== src/Proxy/Traffic.antt =====
-- `_ProxyTrafficActivity` and `_publish_traffic_activity` of aws_light/proxy/proxy_server.py. Each
-- method holds the lock, so it is one step.
pub mod Conservation
use aws_light.Prelude.{
  ℕ, ◌+◌, String, Bool, true, false, Option, none, some, List, [], ◌∷◌, ◌==◌, leb, str_eq,
  if◌then◌else◌,
}

abbrev pub Counter : Type 0 → Type 0
Counter K = List (K × ℕ)

-- counter[key] += 1
unfoldable pub increment : {K : Type 0} → (K → K → Bool) → Counter K → K → Counter K
increment eq [] key = (key, 1) ∷ []
increment eq ((other, count) ∷ counter) key =
    let rest = increment eq counter key in
    if eq other key then (other, count + 1) ∷ counter else (other, count) ∷ rest

abbrev same_status : ℕ → ℕ → Bool
same_status a b = a == b

pub record Traffic : Type 0 where
  pub total : ℕ
  pub by_service : Counter String
  pub by_status : Counter ℕ
  pub failures : Counter String

abbrev pub no_traffic : Traffic
no_traffic = record { total = 0; by_service = []; by_status = []; failures = [] }

-- `service_name or "__unknown__"`
unfoldable pub service_label : Option String → String
service_label none = "__unknown__"
service_label (some name) = if str_eq name "" then "__unknown__" else name

-- `if failure_reason`
unfoldable pub count_failure : Counter String → Option String → Counter String
count_failure failures none = failures
count_failure failures (some reason) =
    if str_eq reason "" then failures else increment (λ a b. str_eq a b) failures reason

unfoldable pub record_traffic : Traffic → Option String → ℕ → Option String → Traffic
unfolding increment service_label count_failure
record_traffic t service_name status_code failure_reason = record {
  total = t.total + 1;
  by_service = increment (λ a b. str_eq a b) t.by_service (service_label service_name);
  by_status = increment same_status t.by_status status_code;
  failures = count_failure t.failures failure_reason;
}

-- `snapshot`: what it returns, beside the state it leaves
unfoldable pub snapshot : Traffic → Traffic × Traffic
snapshot t = (t, no_traffic)

-- the sum of `_publish_traffic_activity`
unfoldable pub error_count : Counter ℕ → ℕ
error_count [] = 0
error_count ((status, count) ∷ counter) =
    let rest = error_count counter in if leb 500 status then count + rest else rest
