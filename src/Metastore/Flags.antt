-- ===== src/Metastore/Flags.antt =====
-- The life of an object's metadata by its flags, proxy/server/metastore/meta.go: what the calls of
-- requests that create, time out, wait for and evict an object make of it, in any order.
use lambda_objectstore.Base.{
  ℕ, ◌%◌, ◌<◌, ◌≡◌, refl, sym, ◌∙◌, ◌≢◌, List, [], ◌∷◌, Bool, true, false, arith, ◌==◌, ltb,
  if◌then◌else◌,
}
use lambda_objectstore.Base.Int.{pos}
use lambda_objectstore.WaitGroup.{new_wait_group}
use lambda_objectstore.Metastore.Meta.{
  Meta, flag_valid, is_created, is_valid, is_deleted, invalidate, validate, confirm_created, delete,
  close, new_meta, wait_returns,
}

-- The calls on a meta that requests share; `validates` reads the clock.
pub data LifeCall : Type 0 where
  validates : ℕ → LifeCall
  invalidates confirms deletes closes : LifeCall

unfoldable pub run_life : LifeCall → Meta → Meta
unfolding validate invalidate confirm_created delete close
run_life (validates now) m = (validate now m).0
run_life invalidates m = invalidate m
run_life confirms m = confirm_created m
run_life deletes m = delete m
run_life closes m = close m

unfoldable pub run_lives : List LifeCall → Meta → Meta
unfolding run_life
run_lives [] m = m
run_lives (c ∷ cs) m = run_lives cs (run_life c m)

-- The flags of a meta say whether somebody may still wait: 1 (creating) and 5 (deleted meanwhile).
pub record IsSettledOnce (m : Meta) : Type 0 where
  pub flags_lt : m.flags < 8
  pub flags_ne : m.flags % 4 ≢ 2
  pub waiting_eq : m.confirmed.waiting ≡ pos (if m.flags % 4 == 1 then 1 else 0)
  pub counter_eq : m.confirmed.counter ≡ pos (if m.flags % 4 == 1 then 1 else 0)

run_life-IsSettledOnce : (c : LifeCall) (m : Meta) → IsSettledOnce m → IsSettledOnce (run_life c m)
unfolding run_life
run_life-IsSettledOnce (validates now) m h = ground arith
run_life-IsSettledOnce invalidates m h = ground arith
run_life-IsSettledOnce confirms m h = ground arith
run_life-IsSettledOnce deletes m h = ground arith
run_life-IsSettledOnce closes m h = ground arith

-- A new meta has the flag "valid" alone and one waiter's count, where the wait group of the
-- recycled object was at rest.
pub new_meta-IsSettledOnce :
    (m : Meta) (now req_id : ℕ) (key : List ℕ) (size d p chunk_size : ℕ)
    → m.confirmed ≡ new_wait_group
    → IsSettledOnce (new_meta m now req_id key size d p chunk_size)
unfolding new_meta
new_meta-IsSettledOnce m now req_id key size d p chunk_size e = ground arith

-- Whoever waits for the outcome of an object's creation is released exactly when it is decided:
-- after any calls on a new meta the flags are 0, 1, 3, 4, 5 or 7, and the count waited for is one
-- while they are 1 or 5 and zero otherwise, so it is taken down once and never below zero.
pub run_lives-IsSettledOnce :
    (cs : List LifeCall) (m : Meta) → IsSettledOnce m → IsSettledOnce (run_lives cs m)
unfolding run_lives
run_lives-IsSettledOnce [] m h = h
run_lives-IsSettledOnce (c ∷ cs) m h =
    run_lives-IsSettledOnce cs (run_life c m) (run_life-IsSettledOnce c m h)

-- What the flags stand for: how far the creation is, and whether the object was deleted.
pub data Fate : Type 0 where
  creating failed created : Fate

pub record Life : Type 0 where
  pub fate : Fate
  pub deleted : Bool

abbrev pub life_of : Meta → Life
life_of m = record {
  fate = if is_created m then created else if is_valid m then creating else failed;
  deleted = is_deleted m;
}

-- Only a creation that goes on, of an object that is not deleted, is decided.
abbrev pub decide_life : Fate → Fate → Bool → Life
decide_life outcome creating false = record { fate = outcome; deleted = false }
decide_life outcome fate deleted = record { fate = fate; deleted = deleted }

-- The calls on lives; `expired` tells whether the deadline of the creation has passed.
abbrev pub next_life : Bool → LifeCall → Life → Life
next_life expired (validates now) l =
    decide_life (if expired then failed else creating) l.fate l.deleted
next_life expired invalidates l = decide_life failed l.fate l.deleted
next_life expired confirms l = decide_life created l.fate l.deleted
next_life expired deletes l = record l { deleted = true }
next_life expired closes l = decide_life failed l.fate l.deleted

abbrev pub expired_at : LifeCall → Meta → Bool
expired_at (validates now) m = ltb m.deadline now
expired_at c m = false

-- Each call on a meta whose flags are in order does to its life what the specification says: a
-- creation is decided once, by a confirmation, or by an invalidation or a validation after the
-- deadline; a deletion marks the object in any state; nothing else changes, nor does the deadline.
pub life_of-run_life :
    (c : LifeCall) (m : Meta)
    → IsSettledOnce m
    → (life_of (run_life c m) ≡ next_life (expired_at c m) c (life_of m))
      × ((run_life c m).deadline ≡ m.deadline)
unfolding run_life
life_of-run_life (validates now) m h = ground arith
life_of-run_life invalidates m h = ground arith
life_of-run_life confirms m h = ground arith
life_of-run_life deletes m h = ground arith
life_of-run_life closes m h = ground arith

-- Once created an object stays created, and one that failed stays failed.
run_life-keeps :
    (c : LifeCall) (m : Meta)
    → IsSettledOnce m
    → (life_of m).fate ≢ creating
    → (life_of (run_life c m)).fate ≡ (life_of m).fate
run_life-keeps (validates now) m h e = ground (arith, life_of-run_life (validates now) m h)
run_life-keeps invalidates m h e = ground (arith, life_of-run_life invalidates m h)
run_life-keeps confirms m h e = ground (arith, life_of-run_life confirms m h)
run_life-keeps deletes m h e = ground (arith, life_of-run_life deletes m h)
run_life-keeps closes m h e = ground (arith, life_of-run_life closes m h)

-- The outcome of a creation is final: when it is decided, no later calls in any order change it.
run_lives-keeps :
    (cs : List LifeCall) (m : Meta)
    → IsSettledOnce m
    → (life_of m).fate ≢ creating
    → (life_of (run_lives cs m)).fate ≡ (life_of m).fate
unfolding run_lives
run_lives-keeps [] m h e = refl
run_lives-keeps (c ∷ cs) m h e =
    let kept = run_life-keeps c m h e in
    run_lives-keeps cs (run_life c m) (run_life-IsSettledOnce c m h) (λ d. e (sym kept ∙ d)) ∙ kept

run_life_stuck : (c : LifeCall) (m : Meta) → m.flags ≡ 5 → (run_life c m).flags ≡ 5
unfolding run_life
run_life_stuck (validates now) m h = ground arith
run_life_stuck invalidates m h = ground arith
run_life_stuck confirms m h = ground arith
run_life_stuck deletes m h = ground arith
run_life_stuck closes m h = ground arith

run_lives_stuck : (cs : List LifeCall) (m : Meta) → m.flags ≡ 5 → (run_lives cs m).flags ≡ 5
unfolding run_lives
run_lives_stuck [] m h = h
run_lives_stuck (c ∷ cs) m h = run_lives_stuck cs (run_life c m) (run_life_stuck c m h)

-- An object that is deleted while it is being created is never confirmed nor invalidated, and
-- whoever waits for its outcome waits for ever, whatever calls follow.
pub delete_while_creating :
    (cs : List LifeCall) (m : Meta)
    → IsSettledOnce m
    → m.flags ≡ flag_valid
    → let m' = run_lives cs (delete m) in
      (wait_returns m' ≡ false) × (is_created m' ≡ false) × (is_valid m' ≡ true)
unfolding delete run_life
delete_while_creating cs m h e =
    let stuck = run_lives_stuck cs (delete m) (delete_valid m e) in
    let settled = run_lives-IsSettledOnce cs (delete m) (run_life-IsSettledOnce deletes m h) in
    ground (arith, stuck, settled.counter_eq)
  where
    delete_valid : (m : Meta) → m.flags ≡ flag_valid → (delete m).flags ≡ 5
    delete_valid m e = ground arith
