-- ===== src/Json.antt =====
-- Values of Python that go into JSON: manifests as dictionaries, and the payloads of events.
use aws_light.Prelude.{String, Bool}
use aws_light.Prelude.Int.{ℤ}

mutual
  pub data Json : Type 0 where
    null : Json
    flag : Bool → Json
    number : ℤ → Json
    text : String → Json
    array : Items → Json
    object : Fields → Json

  pub data Items : Type 0 where
    nil : Items
    cons : Json → Items → Items

  pub data Fields : Type 0 where
    end : Fields
    field : String → Json → Fields → Fields
