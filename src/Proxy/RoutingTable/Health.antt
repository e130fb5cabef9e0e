-- ===== src/Proxy/RoutingTable/Health.antt =====
-- aws_light/proxy/routing_table.py: the health of replicas, through `update_service` and `set_healthy`.
use mathlib.Core.Option
use native.Mathlib.Decide.{dec_lt}
use aws_light.Prelude.{
  ap, ◌+◌, ◌≤◌, ℕ, String, ◌≡◌, refl, Bool, true, false, Option, none, some, List, [], ◌∷◌, map,
  arith, str_eq, eq_iff, if◌then◌else◌, Bool-cases, inl, inr,
}
use aws_light.Dict
use aws_light.Dict.{Dict, get-put, get-pop}
use aws_light.Proxy.RoutingTable.{
  ReplicaEndpoint, Table, get_endpoints, add_health, existing_health, carry_health, update_service,
  set_first, set_healthy,
}

-- does a list of endpoints name the replica?
unfoldable pub routes_to : String → List ReplicaEndpoint → Bool
routes_to replica_id [] = false
routes_to replica_id (e ∷ endpoints) =
    if str_eq e.replica_id replica_id then true else routes_to replica_id endpoints

-- the health of a replica among endpoints: that of the first which names it
unfoldable pub health_of : String → List ReplicaEndpoint → Option Bool
health_of replica_id [] = none
health_of replica_id (e ∷ endpoints) =
    if str_eq e.replica_id replica_id then some e.healthy else health_of replica_id endpoints

abbrev pub Distinct : List ReplicaEndpoint → Type 0
Distinct [] = Unit
Distinct (e ∷ endpoints) = (routes_to e.replica_id endpoints ≡ false) × Distinct endpoints

health_of-none :
    (r : String) (l : List ReplicaEndpoint) → routes_to r l ≡ false → health_of r l ≡ none
unfolding routes_to health_of
health_of-none r [] h = refl
health_of-none r (e ∷ l) h = ground (arith, health_of-none r l)

get-add_health :
    (known : Dict Bool) (r : String) (l : List ReplicaEndpoint)
    → Distinct l
    → Dict.get (add_health known l) r ≡ (if routes_to r l then health_of r l else Dict.get known r)
unfolding add_health routes_to health_of
get-add_health known r [] d = refl
get-add_health known r (e ∷ l) d = ground (
  arith,
  get-add_health (Dict.put known e.replica_id e.healthy) r l d.1,
  get-put known e.replica_id r e.healthy,
  eq_iff e.replica_id r,
)

health_of-carry :
    (known : Dict Bool) (r : String) (l : List ReplicaEndpoint)
    → health_of r (map (carry_health known) l)
      ≡ Option.map (λ h. Option.get_or (Dict.get known r) h) (health_of r l)
unfolding health_of carry_health
health_of-carry known r [] = refl
health_of-carry known r (e ∷ l) = ground (arith, health_of-carry known r l, eq_iff e.replica_id r)

known_health :
    (r : String) (l : List ReplicaEndpoint)
    → Distinct l
    → Dict.get (existing_health l) r ≡ health_of r l
unfolding existing_health Dict.get
known_health r l d = ground (arith, get-add_health [] r l d, health_of-none r l)

health_after :
    (table : Table) (s j r : String) (l : List ReplicaEndpoint)
    → Distinct (get_endpoints table s)
    → health_of r (get_endpoints (update_service table s l) j) ≡ (
        if str_eq s j
        then Option.map (λ h. Option.get_or (health_of r (get_endpoints table s)) h) (health_of r l)
        else health_of r (get_endpoints table j))
unfolding update_service get_endpoints
health_after table s j r l d = ground (
  arith,
  get-put table s j (map (carry_health (existing_health (Option.get_or (Dict.get table s) []))) l),
  health_of-carry (existing_health (Option.get_or (Dict.get table s) [])) r l,
  known_health r (Option.get_or (Dict.get table s) []) d,
)

-- After an update of a service whose endpoints in the table are distinct, a replica that the
-- update lists has the health that the table had for it there, or that of the list where the table
-- had none; the endpoints of each other service are unchanged.
pub health-update_service :
    (table : Table) (s j r : String) (l : List ReplicaEndpoint)
    → Distinct (get_endpoints table s)
    → (health_of r (get_endpoints (update_service table s l) j) ≡ (
        if str_eq s j
        then Option.map (λ h. Option.get_or (health_of r (get_endpoints table s)) h) (health_of r l)
        else health_of r (get_endpoints table j)))
      × (get_endpoints (update_service table s l) j ≡ (
          if str_eq s j then get_endpoints (update_service table s l) s else get_endpoints table j))
unfolding update_service get_endpoints
health-update_service table s j r l d = (
  health_after table s j r l d,
  ground (
    arith,
    eq_iff s j,
    get-put table s j
        (map (carry_health (existing_health (Option.get_or (Dict.get table s) []))) l),
  ),
)

-- how often a replica stands among endpoints, and in the table
unfoldable pub occurrences : String → List ReplicaEndpoint → ℕ
occurrences r [] = 0
occurrences r (e ∷ l) = (if str_eq e.replica_id r then 1 else 0) + occurrences r l

unfoldable pub table_occurrences : String → Table → ℕ
table_occurrences r [] = 0
table_occurrences r ((s, l) ∷ table) = occurrences r l + table_occurrences r table

-- the health of every endpoint of a replica, written over
unfoldable pub mark : String → Bool → ReplicaEndpoint → ReplicaEndpoint
mark r healthy e = if str_eq e.replica_id r then record e { healthy = healthy } else e

mark_absent :
    (r : String) (b : Bool) (l : List ReplicaEndpoint)
    → occurrences r l ≡ 0
    → (map (mark r b) l ≡ l) × (set_first r b l ≡ none)
unfolding occurrences mark set_first
mark_absent r b [] h = (refl, refl)
mark_absent r b (e ∷ l) h = elim (Bool-cases (str_eq e.replica_id r)) [
  | inl same ↦ absurd (ground arith)
  | inr other ↦ let (ih, ih') = mark_absent r b l (ground arith) in rw other (ap (◌∷◌ e) ih, rw ih')
]

set_first-eq :
    (r : String) (b : Bool) (l : List ReplicaEndpoint)
    → occurrences r l ≡ 1
    → set_first r b l ≡ some (map (mark r b) l)
unfolding occurrences mark set_first
set_first-eq r b [] h = absurd (omega arith)
set_first-eq r b (e ∷ l) h = elim (Bool-cases (str_eq e.replica_id r)) [
  | inl same ↦ rw same (rw ((mark_absent r b l (ground arith)).0))
  | inr other ↦ rw other (rw (set_first-eq r b l (ground arith)))
]

unfoldable pub mark_table : String → Bool → Table → Table
mark_table r b [] = []
mark_table r b ((s, l) ∷ table) = (s, map (mark r b) l) ∷ mark_table r b table

mark_table_absent :
    (r : String) (b : Bool) (table : Table)
    → table_occurrences r table ≡ 0
    → mark_table r b table ≡ table
unfolding table_occurrences mark_table
mark_table_absent r b [] h = refl
mark_table_absent r b ((s, l) ∷ table) h =
    ground (arith, mark_absent r b l, mark_table_absent r b table)

-- Where a replica stands in the table once at most, `set_healthy`, which stops at the first
-- endpoint that it finds, sets the health of that replica everywhere and changes nothing else.
pub set_healthy-eq :
    (table : Table) (r : String) (b : Bool)
    → table_occurrences r table ≤ 1
    → set_healthy table r b ≡ mark_table r b table
unfolding set_healthy mark_table table_occurrences
set_healthy-eq [] r b h = refl
set_healthy-eq ((s, l) ∷ table) r b h = elim (dec_lt 0 (occurrences r l)) [
  | yes p ↦
      let once : occurrences r l ≡ 1 = omega arith in
      let none_else : table_occurrences r table ≡ 0 = omega arith in
      rw (set_first-eq r b l once, set_healthy) (rw (mark_table_absent r b table none_else))
  | no p ↦
      let (same, absent) = mark_absent r b l (omega arith) in
      rw (absent, set_healthy) (rw (same, set_healthy-eq table r b (omega arith)))
]

get-mark_table :
    (t : Table) (r : String) (b : Bool) (s : String)
    → get_endpoints (mark_table r b t) s ≡ map (mark r b) (get_endpoints t s)
unfolding get_endpoints mark_table Dict.get
get-mark_table [] r b s = refl
get-mark_table ((j, l) ∷ t) r b s = ground (arith, get-mark_table t r b s)

-- After set_healthy every service has its endpoints as before, with the new health at the replica,
-- if the table names the replica at most once.
pub get_endpoints-set_healthy :
    (table : Table) (r : String) (b : Bool) (s : String)
    → table_occurrences r table ≤ 1
    → get_endpoints (set_healthy table r b) s ≡ map (mark r b) (get_endpoints table s)
get_endpoints-set_healthy table r b s h =
    rw (set_healthy-eq table r b h) (get-mark_table table r b s)
