-- ===== src/Proxy/HealthChecker/Run.antt =====
-- aws_light/proxy/health_checker.py: runs of checks of one replica.
use mathlib.Core.Option
use mathlib.Core.Path.{ap₂}
use aws_light.Prelude.{
  ℕ, zero, suc, ◌+◌, ◌≤◌, String, ◌≡◌, ◌≢◌, ◌∙◌, ap, refl, true, false, List, [], ◌∷◌, arith, leb,
  str_eq, eq_iff, if◌then◌else◌, ◌==◌, Bool-cases, inl, inr,
}
use aws_light.Config.{Settings}
use aws_light.Dict
use aws_light.Dict.{get-put, get-pop}
use aws_light.Proxy.RoutingTable.{Table, set_healthy}
use aws_light.Proxy.HealthChecker.{
  Probe, response, is_success, HealthChecker, on_success, on_failure, check_replica,
}

-- the counters of a replica; one that is not there counts 0
abbrev pub failures : HealthChecker → String → ℕ
failures h r = Option.get_or (Dict.get h.consecutive_failures r) 0

abbrev pub successes : HealthChecker → String → ℕ
successes h r = Option.get_or (Dict.get h.consecutive_successes r) 0

module _ (settings : Settings) (r service_name url : String) where
  abbrev fail_at : ℕ
  fail_at = settings.health_check_failure_threshold

  abbrev ready_at : ℕ
  ready_at = settings.health_check_success_threshold

  -- What a failed probe does to the counters and the table.
  record Failed (h h' : HealthChecker) : Type 0 where
    failed : failures h' r ≡ failures h r + 1
    succeeded : successes h' r ≡ 0
    table : h'.routing_table ≡ (
        if failures h r + 1 == fail_at
        then set_healthy h.routing_table r false
        else h.routing_table)

  on_failure-Failed : (h : HealthChecker) → Failed h (on_failure settings r service_name url h)
  unfolding on_failure
  on_failure-Failed h = record {
    failed = ground (arith, get-put h.consecutive_failures r r (failures h r + 1), eq_iff r r);
    succeeded = ground (arith, get-pop h.consecutive_successes r r, eq_iff r r);
    table = ground arith;
  }

  -- What a successful probe does.
  record Succeeded (h h' : HealthChecker) : Type 0 where
    failed : failures h' r ≡ (if leb ready_at (successes h r + 1) then 0 else failures h r)
    succeeded : successes h' r ≡ (if leb ready_at (successes h r + 1) then 0 else successes h r + 1)
    table : h'.routing_table ≡ (
        if leb ready_at (successes h r + 1)
        then set_healthy h.routing_table r true
        else h.routing_table)

  on_success-Succeeded :
      (h : HealthChecker) → Succeeded h (on_success settings r service_name url h)
  unfolding on_success
  on_success-Succeeded h = record {
    failed = ground (arith, get-pop h.consecutive_failures r r, eq_iff r r);
    succeeded = ground (
      arith,
      get-pop (Dict.put h.consecutive_successes r (successes h r + 1)) r r,
      get-put h.consecutive_successes r r (successes h r + 1),
      eq_iff r r,
    );
    table = ground arith;
  }

  -- A check of a replica with an address takes one of the two branches.
  record Checked (probe : Probe) (h h' : HealthChecker) : Type 0 where
    good : is_success probe ≡ true → Succeeded h h'
    bad : is_success probe ≡ false → Failed h h'

  check_replica-Checked :
      (h : HealthChecker) (ip : String) (probe : Probe)
      → ip ≢ ""
      → Checked probe h (check_replica settings r service_name url h ip probe)
  unfolding check_replica
  check_replica-Checked h ip probe addressed =
      let e : str_eq ip "" ≡ false = ground (arith, eq_iff ip "") in
      rw (e, check_replica)
        (record {
          good = λ p. rw (p, check_replica) (on_success-Succeeded h);
          bad = λ p. rw (p, check_replica) (on_failure-Failed h);
        })

  -- a sequence of checks of the replica, with the answers to its probes
  unfoldable pub run : HealthChecker → String → List Probe → HealthChecker
  run h container_ip [] = h
  run h container_ip (probe ∷ probes) =
      run (check_replica settings r service_name url h container_ip probe) container_ip probes

  -- The table that the rule "unhealthy at the `fail_at`-th failure in a row, healthy at every success"
  -- gives, from a number of failures in a row so far.
  unfoldable pub consecutive : ℕ → Table → List Probe → Table
  consecutive f table [] = table
  consecutive f table (probe ∷ probes) =
      if is_success probe
      then consecutive 0 (set_healthy table r true) probes
      else consecutive (f + 1) (if f + 1 == fail_at then set_healthy table r false else table)
          probes

  -- With the default success threshold of 1, any sequence of checks of a replica with an address
  -- leaves the routing table that the rule of consecutive failures gives.
  pub run-consecutive :
      (probes : List Probe) (h : HealthChecker) (ip : String)
      → ready_at ≡ 1
      → ip ≢ ""
      → (run h ip probes).routing_table ≡ consecutive (failures h r) h.routing_table probes
  unfolding run consecutive
  run-consecutive [] h ip one addressed = refl
  run-consecutive (probe ∷ probes) h ip one addressed =
      let h' = check_replica settings r service_name url h ip probe in
      let ih = run-consecutive probes h' ip one addressed in
      let step = check_replica-Checked h ip probe addressed in
      elim (Bool-cases (is_success probe)) [
        | inl good ↦
            let s : Succeeded h h' = step.good good in
            let ready : leb ready_at (successes h r + 1) ≡ true = rw one (ground arith) in
            let f : failures h' r ≡ 0 = ground (arith, s.failed) in
            let t : h'.routing_table ≡ set_healthy h.routing_table r true =
              ground (arith, s.table) in
            rw good (ih ∙ ap₂ (λ f t. consecutive f t probes) f t)
        | inr bad ↦
            let s : Failed h h' = step.bad bad in
            rw bad (ih ∙ ap₂ (λ f t. consecutive f t probes) s.failed s.table)
      ]

  -- single failures, with one success between any two of them
  abbrev pub flaps : ℕ → List Probe
  flaps zero = response 500 ∷ []
  flaps (suc n) = response 500 ∷ response 200 ∷ flaps n

  -- With a success threshold of 2 or more, failures that are each followed by a success add up: as
  -- many as the failure threshold make the replica unhealthy.
  pub run-flaps :
      (n : ℕ) (h : HealthChecker) (ip : String)
      → ip ≢ ""
      → 2 ≤ ready_at
      → failures h r + n + 1 ≡ fail_at
      → (run h ip (flaps n)).routing_table ≡ set_healthy h.routing_table r false
  unfolding run
  run-flaps zero h ip addressed slow count =
      let h' = check_replica settings r service_name url h ip (response 500) in
      let s : Failed h h' =
        (check_replica-Checked h ip (response 500) addressed).bad (unfold is_success in refl) in
      ground (arith, s.table)
  run-flaps (suc n) h ip addressed slow count =
      let h1 = check_replica settings r service_name url h ip (response 500) in
      let h2 = check_replica settings r service_name url h1 ip (response 200) in
      let s : Failed h h1 =
        (check_replica-Checked h ip (response 500) addressed).bad (unfold is_success in refl) in
      let t : Succeeded h1 h2 =
        (check_replica-Checked h1 ip (response 200) addressed).good (unfold is_success in refl) in
      let waits : leb ready_at (successes h1 r + 1) ≡ false = ground (arith, s.succeeded) in
      let f : failures h2 r ≡ failures h r + 1 = ground (arith, s.failed, t.failed) in
      let same : h2.routing_table ≡ h.routing_table = ground (arith, s.table, t.table) in
      run-flaps n h2 ip addressed slow (omega arith) ∙ ap (λ t. set_healthy t r false) same

-- A check of one replica leaves the counters of every other replica as they are.
pub check_replica-others :
    (settings : Settings) (r service_name url : String) (h : HealthChecker) (ip : String)
    (probe : Probe) (other : String)
    → other ≢ r
    → (failures (check_replica settings r service_name url h ip probe) other ≡ failures h other)
      × (successes (check_replica settings r service_name url h ip probe) other ≡ successes h other)
unfolding check_replica
check_replica-others settings r service_name url h ip probe other ne = (
  ground (
    arith,
    eq_iff r other,
    get-put h.consecutive_failures r other (failures h r + 1),
    get-pop h.consecutive_failures r other,
  ),
  ground (
    arith,
    eq_iff r other,
    get-put h.consecutive_successes r other (successes h r + 1),
    get-pop h.consecutive_successes r other,
    get-pop (Dict.put h.consecutive_successes r (successes h r + 1)) r other,
  ),
)
