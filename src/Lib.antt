-- ===== src/Lib.antt =====
-- AWS-Light: a small cloud on one machine, written in Python (the package aws_light).
--
-- The control plane keeps services, databases, secrets and buckets in stores (aws_light/store,
-- aws_light/secrets, aws_light/storage). The applier (aws_light/iac) writes what manifests ask for
-- into them, the autoscaler (aws_light/autoscaler) changes the desired replicas of a service, and
-- the orchestrator (aws_light/compute) starts replicas on nodes, which the scheduler chooses and the
-- node manager accounts for. The data plane (aws_light/proxy) routes requests: the health checker
-- marks endpoints in the routing table, the balancer rotates the healthy ones, and the proxy server
-- admits and forwards requests. Components publish events on a bus (aws_light/dashboard).
--
-- What stands where:
--   Prelude, Dict, Json, Text       numbers, lists, dictionaries, JSON values and text of Python
--   Models, Config                  aws_light/models, aws_light/config.py
--   Events, Events/Bus              aws_light/models/events.py, aws_light/dashboard/event_bus.py
--   Store, Store/JsonStore          aws_light/store/base.py, aws_light/store/json_store.py
--   Store/Cache                     aws_light/store/cached_store.py
--   Secrets, Storage                aws_light/secrets/secrets_manager.py,
--                                   aws_light/storage/storage_service.py
--   Iac/Manifest, Iac/Results, Iac/Applier
--                                   aws_light/models/manifest.py, aws_light/iac/applier.py
--   Api/Storage, Api/Services       aws_light/api/storage.py, aws_light/api/services.py
--   Iam                             aws_light/models/iam.py, aws_light/iam
--   Compute/Scheduler, Compute/NodeManager
--                                   aws_light/compute/scheduler.py, aws_light/compute/node_manager.py
--   Compute/Orchestrator            aws_light/compute/orchestrator.py, in the children World (its
--                                   state and what it calls), Names, Environment, Replicas,
--                                   Placement, Observe, Reconcile, Teardown, Databases, Pass and
--                                   Rollout; the other children are proofs
--   Autoscaler                      aws_light/autoscaler/autoscaler.py
--   Proxy/RoutingTable, Proxy/RedisTable, Proxy/LoadBalancer, Proxy/HealthChecker
--                                   the files of these names in aws_light/proxy
--   Proxy/Bytes, Proxy/Http, Proxy/Head, Proxy/Ingress, Proxy/Gateway, Proxy/Traffic
--                                   aws_light/proxy/proxy_server.py
--   Tests                           the theorems at concrete inputs
-- A file of definitions has its theorems in the files below it. Functions and fields have the names of
-- the source, without a leading underscore; a method takes the state of its object and returns the
-- state after it beside its answer. An exception is `none` or `raised`, as the file says.
--
-- How the model stands to the code:
--   - a method that holds a lock, and the code between two awaits, is one step;
--   - a float is a whole number of a small fixed unit, added and subtracted without rounding;
--   - readings of the clock, answers of probes and metrics are arguments; time stamps that nothing
--     decides by are left out;
--   - `lower` and `upper` act on ASCII letters; log messages are left out;
--   - pydantic, Fernet, PyJWT, bcrypt and JSON are parameters, with their documented laws as
--     hypotheses, and so is the store under a component;
--   - a method of the orchestrator is a coroutine (Prelude/Action): it moves the state of the world and
--     returns or raises, and what it wrote before it raises stays. Docker, the random sources and
--     what other coroutines do in a sleep of a rollout are parameters; a store gives out its own
--     copy of a state; the routes are those of the table in memory; between its awaits, other than
--     those sleeps, no other coroutine runs;
--   - a name of a bucket and the key of an object are plain paths (Storage/Keys): the storage service
--     accepts others, with dots or slashes that lead to another file, and these are not modelled;
--   - which calls of the stores and of the bus raise under `apply` is a parameter;
--   - every loop is recursion over a list or a number that the loop consumes; fuel is there only in
--     `decimal`, which has the number itself plus one, and a number has no more digits than that,
--     and in the loop over the batches of a rollout, which has one turn for each old replica, and
--     each batch takes at least one.
--
-- Not modelled: the Docker client, whose methods call the Docker SDK; the statistics loop of the
-- orchestrator, which divides floats; the rest of the HTTP API, the command line, the pages of the
-- dashboard, the example services, the Postgres store and the Redis event bus; of the proxy server the
-- sockets, the reading of bodies, and the metrics that go to Redis.
pub mod Prelude
pub mod Dict
pub mod Json
pub mod Text
pub mod Config
pub mod Models
pub mod Events
pub mod Store
pub mod Secrets
pub mod Storage
pub mod Iac
pub mod Iam
pub mod Compute
pub mod Autoscaler
pub mod Proxy
pub mod Api
pub mod Tests
