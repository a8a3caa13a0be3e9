-- ===== src/Tests/Placer.antt =====
-- The operations of the placer at concrete inputs.
use lambda_objectstore.Base.{◌≡◌, refl, true, false, some}
use lambda_objectstore.HashMap.{store, load}
use lambda_objectstore.HashMap.Interface.{key_eq}
use lambda_objectstore.HashMap.Assoc.{assoc_backend}
use lambda_objectstore.Metastore.Meta.{validate}
use lambda_objectstore.Metastore.Store.{get_loop, examine}
use lambda_objectstore.Metastore.Placer.{
  PlacerState, got_meta, touch_confirmed, check_found, placer_get,
}
use lambda_objectstore.Metastore.Placer.Read.{IsReadable, placer_get-IsReadable}
use lambda_objectstore.Tests.Store.{backend, no_entries, key_a}
use lambda_objectstore.Tests.Lru.{member, clock_with}
use lambda_objectstore.Tests.Instances.{instance_of}

-- The object "a" was created, and its chunk is confirmed.
abbrev one_object : PlacerState backend
one_object = record {
  store = record {
    heap = λ p. record (member 1 false 7) { flags = 3 };
    meta_map = store backend no_entries key_a (some 1);
  };
  placer = (clock_with true).placer;
  instances = λ id. instance_of 100 95;
  slice_base = 0;
  cap = 4;
}

one_object_got : (placer_get backend 1 20 key_a 0 one_object).1 ≡ got_meta 1
unfolding placer_get check_found touch_confirmed get_loop examine validate load store assoc_backend
    key_eq
one_object_got = refl

placer_get-IsReadable_example :
    IsReadable 0 (placer_get backend 1 20 key_a 0 one_object).0.store.heap 1
placer_get-IsReadable_example =
    placer_get-IsReadable backend 1 20 key_a 0 1 one_object one_object_got
