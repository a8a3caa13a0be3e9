-- ===== src/Tests/Store.antt =====
-- The store of object versions and what it stands on, at concrete inputs.
use lambda_objectstore.Base.{ℕ, ◌≡◌, refl, List, [], ◌∷◌, true, false, none, some, arith}
use lambda_objectstore.Base.Int.{pos}
use lambda_objectstore.WaitGroup.{
  new_wait_group, run_calls, run_calls-IsInStep, IsInStep, add_one, done_one, reset_all,
}
use lambda_objectstore.Keys.{sanitize_key, meta_key_by_version, chunk_key}
use lambda_objectstore.Keys.Laws.{IsSanitized, chunk_key-injective}
use lambda_objectstore.Decimal.{decimal}
use lambda_objectstore.HashMap.{HashMap, load, store, load_or_store, compare_and_swap}
use lambda_objectstore.HashMap.Interface.{Backend, Value, key_eq}
use lambda_objectstore.HashMap.Assoc.{assoc_backend}
use lambda_objectstore.HashMap.Count.{
  IsCounted, here, next, stores, swaps, deletes, Reach-IsCounted, load-store,
}
use lambda_objectstore.Metastore.Meta.{
  Meta, new_meta, delete, confirm_created, is_created, is_valid, wait_returns, validate, invalidate,
  versioning_key, revise_by, has_history, key_by_version,
}
use lambda_objectstore.Metastore.Flags.{
  run_lives, run_life, IsSettledOnce, run_lives-IsSettledOnce, life_of, life_of-run_life, created,
  delete_while_creating, validates, confirms, deletes, closes, new_meta-IsSettledOnce,
}
use lambda_objectstore.Metastore.Store.{
  MetaStore, update, try_insert, resolve, close_extra, examine, get_or_insert, get_loop, inserted,
  found,
}
use lambda_objectstore.Metastore.Store.Invariant.{
  IsVersioned, confirm_created-SameIdentity, reheap-IsVersioned, update-SameIdentity,
}
use lambda_objectstore.Metastore.Store.Insert.{IsNew}
use lambda_objectstore.Metastore.Store.Outcome.{
  Outcome, get_or_insert-Outcome, get_or_insert-IsVersioned,
}
use lambda_objectstore.Metastore.Store.Get.{GetsFrom, get_newest}

abbrev pub blank : Meta
blank = record {
  key = [];
  size = 0;
  d_chunks = 0;
  p_chunks = 0;
  placement = [];
  chunk_size = 0;
  version = 0;
  version_ts = 0;
  last_version = 0;
  initiator = 0;
  flags = 0;
  slice = none;
  deadline = 0;
  placer_meta = none;
  last_chunk = 0;
  confirmed = new_wait_group;
}

-- The object "a", brought by the request of this number at time 5, with two chunks.
abbrev brought : ℕ → Meta
brought req = new_meta blank 5 req (97 ∷ []) 20 1 1 10

abbrev pub key_a : List ℕ
key_a = 97 ∷ []

run_calls-IsInStep_example :
    IsInStep (run_calls (add_one ∷ done_one ∷ done_one ∷ reset_all ∷ add_one ∷ []) new_wait_group)
run_calls-IsInStep_example = run_calls-IsInStep _ new_wait_group (omega arith) refl

key_a-IsSanitized : IsSanitized key_a
key_a-IsSanitized = omega arith

key_b-IsSanitized : IsSanitized (98 ∷ [])
key_b-IsSanitized = omega arith

chunk_key-injective_example : ◌≡◌ {A = ℕ} 2 2 × (sanitize_key key_a ≡ key_a) × ◌≡◌ {A = ℕ} 1 1
unfolding sanitize_key chunk_key
chunk_key-injective_example =
    chunk_key-injective 2 2 (sanitize_key key_a) key_a 1 1 key_a-IsSanitized key_a-IsSanitized refl

brought-IsSettledOnce : (req : ℕ) → IsSettledOnce (brought req)
brought-IsSettledOnce req = new_meta-IsSettledOnce blank 5 req (97 ∷ []) 20 1 1 10 refl

run_lives-IsSettledOnce_example :
    IsSettledOnce (run_lives (validates 3 ∷ confirms ∷ deletes ∷ closes ∷ []) (brought 1))
run_lives-IsSettledOnce_example = run_lives-IsSettledOnce _ (brought 1) (brought-IsSettledOnce 1)

life_of-run_life_example :
    (life_of (run_life confirms (brought 1)) ≡ record { fate = created; deleted = false })
    × ((run_life confirms (brought 1)).deadline ≡ 0)
unfolding new_meta
life_of-run_life_example = life_of-run_life confirms (brought 1) (brought-IsSettledOnce 1)

abbrev confirmed_one : Meta
confirmed_one = confirm_created (brought 1)

confirmed_one-IsSettledOnce : IsSettledOnce confirmed_one
unfolding run_life run_lives
confirmed_one-IsSettledOnce =
    run_lives-IsSettledOnce (confirms ∷ []) (brought 1) (brought-IsSettledOnce 1)

delete_while_creating_example :
    let m' = run_lives (confirms ∷ validates 100 ∷ closes ∷ []) (delete (brought 1)) in
    (wait_returns m' ≡ false) × (is_created m' ≡ false) × (is_valid m' ≡ true)
unfolding new_meta
delete_while_creating_example =
    delete_while_creating (confirms ∷ validates 100 ∷ closes ∷ []) (brought 1)
      (brought-IsSettledOnce 1) refl

abbrev pub backend : Backend
backend = assoc_backend

abbrev pub no_entries : HashMap backend
no_entries = record { state = backend.empty; size = pos 0 }

no_entries-IsCounted : IsCounted backend no_entries
unfolding assoc_backend
no_entries-IsCounted = refl

Reach-IsCounted_example :
    IsCounted backend
      (compare_and_swap backend (store backend no_entries key_a (some 4)) key_a (some 4) (some 5)).0
unfolding key_eq
Reach-IsCounted_example =
    Reach-IsCounted backend no_entries-IsCounted
      (next (next here (stores key_a (some 4))) (swaps key_a (some 4) (some 5) (some 4) present))
  where
    present : load backend (store backend no_entries key_a (some 4)) key_a ≡ some (some 4)
    present = load-store backend no_entries key_a key_a (some 4)

-- Nothing is stored; the meta at each pointer was brought by the request of that number.
abbrev start : MetaStore backend
start = record { heap = brought; meta_map = no_entries }

start_empty : (j : List ℕ) → load backend start.meta_map j ≡ none
unfolding load
start_empty j = backend.get-empty j

start-IsVersioned : IsVersioned backend start
start-IsVersioned = record {
  latest = λ key v c e. absurd (nothing key v e);
  versions = λ key ver v c e. absurd (nothing (meta_key_by_version key ver) v e);
}
  where
    nothing : (j : List ℕ) (v : Value) → load backend start.meta_map j ≡ some v → ⊥
    nothing j v e = cc (start_empty j)

start-IsNew : (req : ℕ) → IsNew backend 10 start key_a req
unfolding new_meta
start-IsNew req = record {
  key_eq = refl;
  version_eq = refl;
  last_version_eq = refl;
  valid = refl;
  absent = λ j e. cc (start_empty j);
}

get_or_insert-Outcome_example :
    Outcome backend 10 start key_a 1 (get_or_insert backend 10 start key_a 1)
get_or_insert-Outcome_example =
    get_or_insert-Outcome backend 10 start key_a 1 key_a-IsSanitized start-IsVersioned
      (start-IsNew 1)

get_or_insert-IsVersioned_example : IsVersioned backend (get_or_insert backend 10 start key_a 1).0
get_or_insert-IsVersioned_example =
    get_or_insert-IsVersioned backend 10 start key_a 1 key_a-IsSanitized start-IsVersioned
      (start-IsNew 1)

-- The request 1 stored "a", and its creation was confirmed.
abbrev stored_one : MetaStore backend
stored_one = (get_or_insert backend 10 start key_a 1).0

abbrev made_one : MetaStore backend
made_one = record stored_one {
  heap = update stored_one.heap 1 (confirm_created (stored_one.heap 1));
}

made_one-IsVersioned : IsVersioned backend made_one
made_one-IsVersioned =
    reheap-IsVersioned backend stored_one made_one.heap
      (λ q.
        update-SameIdentity stored_one.heap 1 q _
          (confirm_created-SameIdentity (stored_one.heap 1)))
      (get_or_insert-IsVersioned backend 10 start key_a 1 key_a-IsSanitized start-IsVersioned
        (start-IsNew 1))

test_versions :
    let s2 = (get_or_insert backend 20 made_one key_a 2).0 in
    let s3 = get_or_insert backend 20 s2 key_a 3 in
    ((get_or_insert backend 20 made_one key_a 2).1 ≡ inserted 2)
    × ((s2.heap 2).version ≡ 2)
    × ((s2.heap 2).last_version ≡ 1)
    × ((get_loop backend 3 20 s2 key_a).1 ≡ found 1)
    × (s3.1 ≡ inserted 3)
unfolding get_or_insert try_insert load_or_store store compare_and_swap resolve close_extra
    versioning_key validate invalidate revise_by new_meta confirm_created assoc_backend key_eq
    decimal get_loop examine has_history key_by_version load
test_versions = (refl, refl, refl, refl, refl)

get_newest_example :
    GetsFrom backend 20 key_a key_a-IsSanitized made_one
      (made_one.heap 1).version
      (get_loop backend 3 20 made_one key_a)
unfolding get_or_insert try_insert load_or_store store versioning_key new_meta confirm_created
    assoc_backend key_eq decimal load
get_newest_example =
    get_newest backend 20 key_a key_a-IsSanitized made_one 1 2 made_one-IsVersioned refl
      (omega arith)
