-- ===== src/Store/JsonStore.antt =====
-- aws_light/store/json_store.py: a store in one JSON file, which is read and written whole.
-- The file is absent or holds an object. pydantic's `model_validate` and `model_dump_json` are
-- parameters; the store relies on their round trip.
use mathlib.Core.Option
use aws_light.Prelude.{String, ◌≡◌, Bool, Option, none, some, List, [], map, arith}
use aws_light.Dict
use aws_light.Dict.{Dict, get-put, get-pop}
use aws_light.Store.{AnyStore, IsStore}

module _ {T Raw : Type 0} (model_validate : Raw → T) (model_dump : T → Raw) where
  abbrev pub File : Type 0
  File = Option (Dict Raw)

  read_raw : File → Dict Raw
  read_raw none = []
  read_raw (some d) = d

  write_raw : Dict Raw → File
  write_raw d = some d

  unfoldable pub get : File → String → Option T
  unfolding read_raw
  get file identifier = Option.map model_validate (Dict.get (read_raw file) identifier)

  unfoldable pub list : File → List T
  unfolding read_raw
  list file = map model_validate (Dict.values (read_raw file))

  unfoldable pub put : File → String → T → File
  unfolding read_raw write_raw
  put file identifier item = write_raw (Dict.put (read_raw file) identifier (model_dump item))

  unfoldable pub delete : File → String → File
  unfolding read_raw write_raw
  delete file identifier = write_raw (Dict.pop (read_raw file) identifier)

  unfoldable pub exists : File → String → Bool
  unfolding read_raw Dict.contains
  exists file identifier = Dict.contains (read_raw file) identifier

  unfoldable pub json_store : AnyStore T
  json_store = record {
    State = File;
    get = get;
    put = put;
    list = list;
    delete = delete;
    exists = exists;
  }

module _ {T Raw : Type 0} (model_validate : Raw → T) (model_dump : T → Raw)
    (validate-dump : (item : T) → model_validate (model_dump item) ≡ item) where
  abbrev store : AnyStore T
  unfolding json_store
  store = json_store model_validate model_dump

  -- The file store is a map from names to items, if an item is read back as it was dumped.
  pub json_store-IsStore : IsStore (json_store model_validate model_dump)
  unfolding json_store get put delete exists Dict.contains
  json_store-IsStore = record {
    get-put = λ s k j v.
        ground (
          arith,
          validate-dump v,
          get-put (read_raw model_validate model_dump s) k j (model_dump v),
        );
    get-delete = λ s k j. ground (arith, get-pop (read_raw model_validate model_dump s) k j);
    exists-get = λ s k. ground arith;
  }
