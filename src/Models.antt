-- ===== src/Models.antt =====
-- The data that the components share: aws_light/models/common.py, service.py, node.py, database.py and
-- deployment.py. A float is a whole number of a small fixed unit (`Amount`). Time stamps, which no
-- decision of the program reads, are left out, and so are fields that nothing reads.
pub mod Status
use aws_light.Prelude.{ℕ, String, Bool, false, List, []}
use aws_light.Prelude.Int.{ℤ, pos, ◌-ℤ◌}
use aws_light.Dict.{Dict}
use Status.{ResourceStatus}

abbrev pub Amount : Type 0
Amount = ℤ

pub data BucketAccess : Type 0 where
  read write : BucketAccess

pub data DatabaseAccess : Type 0 where
  connect : DatabaseAccess

pub record BucketBinding : Type 0 where
  pub name : String
  pub access : List BucketAccess

pub record DatabaseBinding : Type 0 where
  pub name : String
  pub access : List DatabaseAccess

pub record ServiceResourceBindings : Type 0 where
  pub buckets : List BucketBinding
  pub databases : List DatabaseBinding

pub record InternalIngressPolicy : Type 0 where
  pub enabled : Bool
  pub allow_from : List String

pub record ServiceIngressSpec : Type 0 where
  pub external : Bool
  pub internal : InternalIngressPolicy

pub record ReplicaState : Type 0 where
  pub replica_id : String
  pub container_id : String
  pub node_id : String
  pub status : ResourceStatus
  pub container_ip : String
  pub image : String

pub record ServiceSpec : Type 0 where
  pub name : String
  pub image : String
  pub replicas : ℤ
  pub min_replicas : ℤ
  pub max_replicas : ℤ
  pub cpu_request : Amount
  pub memory_request_mb : Amount
  pub port : ℕ
  pub health_check_path : String
  pub env : Dict String
  pub secret_refs : List String
  pub labels : Dict String
  pub resources : ServiceResourceBindings
  pub ingress : ServiceIngressSpec

pub record ServiceState : Type 0 where
  pub spec : ServiceSpec
  pub status : ResourceStatus
  pub replicas : List ReplicaState

pub record DatabaseSpec : Type 0 where
  pub name : String
  pub engine : String
  pub version : String
  pub storage_mb : ℕ

pub record DatabaseState : Type 0 where
  pub spec : DatabaseSpec
  pub status : ResourceStatus
  pub container_id : String
  pub container_name : String
  pub container_ip : String

pub record ResourceUsage : Type 0 where
  pub cpu_used : Amount
  pub memory_used_mb : Amount

pub record NodeSpec : Type 0 where
  pub node_id : String
  pub cpu_capacity : Amount
  pub memory_capacity_mb : Amount

pub record NodeState : Type 0 where
  pub spec : NodeSpec
  pub usage : ResourceUsage
  pub actual_usage : ResourceUsage
  pub status : ResourceStatus
  pub replica_ids : List String

-- the two properties of `NodeState`
unfoldable pub available_cpu : NodeState → Amount
available_cpu node = node.spec.cpu_capacity -ℤ node.usage.cpu_used

unfoldable pub available_memory_mb : NodeState → Amount
available_memory_mb node = node.spec.memory_capacity_mb -ℤ node.usage.memory_used_mb

-- the default values of the fields
abbrev pub no_bindings : ServiceResourceBindings
no_bindings = record { buckets = []; databases = [] }

abbrev pub no_ingress : ServiceIngressSpec
no_ingress = record { external = false; internal = record { enabled = false; allow_from = [] } }

abbrev pub no_usage : ResourceUsage
no_usage = record { cpu_used = pos 0; memory_used_mb = pos 0 }
