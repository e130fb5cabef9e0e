-- ===== src/Tests/Samples.antt =====
-- The data that the examples share.
use aws_light.Prelude.{String, refl, [], ◌+◌, ℕ}
use aws_light.Prelude.Int.{pos}
use aws_light.Prelude.Outcome.{returned}
use aws_light.Models.{ServiceSpec, ServiceState, DatabaseState, no_bindings, no_ingress}
use aws_light.Models.Status.{ResourceStatus}
use aws_light.Store.{AnyStore, IsStore}
use aws_light.Dict
use aws_light.Secrets.{SecretSpec, Fernet, IsFernet}

abbrev pub spec_of : String → ServiceSpec
spec_of name = record {
  name = name;
  image = "app:1";
  replicas = pos 2;
  min_replicas = pos 1;
  max_replicas = pos 4;
  cpu_request = pos 25;
  memory_request_mb = pos 128;
  port = 8080;
  health_check_path = "/health";
  env = [];
  secret_refs = [];
  labels = [];
  resources = no_bindings;
  ingress = no_ingress;
}

abbrev pub state_of : String → ServiceState
state_of name = record { spec = spec_of name; status = ResourceStatus.running; replicas = [] }

-- A store in memory.
abbrev pub memory : (T : Type 0) → AnyStore T
memory T = record {
  State = Dict.Dict T;
  get = Dict.get;
  put = Dict.put;
  list = Dict.values;
  delete = Dict.pop;
  exists = Dict.contains;
}

pub memory-IsStore : (T : Type 0) → IsStore (memory T)
unfolding Dict.contains
memory-IsStore T = record {
  get-put = λ s k j v. Dict.get-put s k j v;
  get-delete = λ s k j. Dict.get-pop s k j;
  exists-get = λ s k. refl;
}

abbrev pub services : AnyStore ServiceState
services = memory ServiceState

abbrev pub databases : AnyStore DatabaseState
databases = memory DatabaseState

abbrev pub secrets : AnyStore SecretSpec
secrets = memory SecretSpec

-- A cipher that hides nothing.
abbrev pub fernet : Fernet
fernet = record {
  Random = ℕ;
  encrypt = λ r value. (r + 1, value);
  decrypt = λ token. returned token;
}

pub fernet-IsFernet : IsFernet fernet
fernet-IsFernet = record { decrypt-encrypt = λ r value. refl }
