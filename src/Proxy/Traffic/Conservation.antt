-- ===== src/Proxy/Traffic/Conservation.antt =====
-- aws_light/proxy/proxy_server.py: no request that is recorded is lost or counted twice.
use aws_light.Prelude.{
  ℕ, suc, ◌+◌, ◌≤◌, ◌≡◌, refl, String, Bool, Option, none, some, List, [], ◌∷◌, str_eq, arith,
}
use aws_light.Proxy.Traffic.{
  Counter, increment, Traffic, no_traffic, service_label, count_failure, record_traffic, snapshot,
  same_status,
}

abbrev pub sum : {K : Type 0} → Counter K → ℕ
sum [] = 0
sum ((_, count) ∷ counter) = count + sum counter

-- The counts by service and by status add up to the total; failures and errors are some of them.
pub record IsBalanced (t : Traffic) : Type 0 where
  pub services : sum t.by_service ≡ t.total
  pub statuses : sum t.by_status ≡ t.total
  pub failed : sum t.failures ≤ t.total

sum-increment :
    {K : Type 0} (eq : K → K → Bool) (counter : Counter K) (key : K)
    → sum (increment eq counter key) ≡ sum counter + 1
unfolding increment
sum-increment eq [] key = refl
sum-increment eq ((other, count) ∷ counter) key = ground (arith, sum-increment eq counter key)

sum-count_failure :
    (failures : Counter String) (reason : Option String)
    → sum (count_failure failures reason) ≤ sum failures + 1
unfolding count_failure
sum-count_failure failures none = omega arith
sum-count_failure failures (some reason) =
    ground (arith, sum-increment (λ a b. str_eq a b) failures reason)

record_traffic-IsBalanced :
    (t : Traffic) (service_name : Option String) (status_code : ℕ) (reason : Option String)
    → IsBalanced t
    → IsBalanced (record_traffic t service_name status_code reason)
unfolding record_traffic
record_traffic-IsBalanced t service_name status_code reason h =
    let services = h.services in
    let statuses = h.statuses in
    let failed = h.failed in
    let more_failed = sum-count_failure t.failures reason in
    record {
      services = ground (
        arith,
        services,
        sum-increment (λ a b. str_eq a b) t.by_service (service_label service_name),
      );
      statuses = ground (arith, statuses, sum-increment same_status t.by_status status_code);
      failed = omega arith;
    }

-- What the proxy does with its counts: a request, with its service, status and reason of failure, or
-- the turn of the loop that takes a snapshot.
pub data Event : Type 0 where
  request : Option String → ℕ → Option String → Event
  turn : Event

-- the counts after some events, and the snapshots taken
abbrev pub observe : Traffic → List Event → Traffic × List Traffic
observe t [] = (t, [])
observe t (request service_name status_code reason ∷ events) =
    observe (record_traffic t service_name status_code reason) events
observe t (turn ∷ events) =
    let rest = observe ((snapshot t).1) events in (rest.0, (snapshot t).0 ∷ rest.1)

abbrev pub requests : List Event → ℕ
requests [] = 0
requests (request _ _ _ ∷ events) = suc (requests events)
requests (turn ∷ events) = requests events

abbrev pub totals : List Traffic → ℕ
totals [] = 0
totals (t ∷ ts) = t.total + totals ts

-- Over any run of requests and snapshots the totals of the snapshots and of the counts not yet
-- taken add up to the requests and what was there at first.
pub observe-Conserves :
    (t : Traffic) (events : List Event)
    → totals ((observe t events).1) + (observe t events).0.total ≡ t.total + requests events
unfolding record_traffic snapshot
observe-Conserves t [] = omega arith
observe-Conserves t (request service_name status_code reason ∷ events) =
    let later = observe-Conserves (record_traffic t service_name status_code reason) events in
    omega arith
observe-Conserves t (turn ∷ events) = let later = observe-Conserves no_traffic events in omega arith
