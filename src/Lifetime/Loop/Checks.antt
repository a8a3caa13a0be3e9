-- ===== src/Lifetime/Loop/Checks.antt =====
-- The checks that come before a timeout is triggered, lambda/lifetime/timeout.go.
use lambda_objectstore.Base.{ℕ, ◌≡◌, refl, sym, ◌∙◌, subst, Bool, true, false, none, if_cases}
use lambda_objectstore.Base.Int.{pos, leb_ℤ}
use lambda_objectstore.Lifetime.Ticks.{Ticks}
use lambda_objectstore.Lifetime.Timer.{Timeout, since}
use lambda_objectstore.Lifetime.Loop.{
  Check, flags, busyness, due_time, next_place, passes, try_timeout, Place, selecting, ended,
  trying, Machine, at_place, Step, called, expired, ended_by_session, took_reset, took_reset_first,
  took_tick, checked, got_answer, triggered, Steps, no_step, then_step, call,
}
use lambda_objectstore.Lifetime.Loop.Once.{trigger-IsTriggered}

abbrev place_of : Machine → Place
place_of m = m.place

-- The last time that the run from `m` to `n` passed a check: from then on the loop waits where the
-- check has led it.
pub record Passed (ticks : Ticks) (has_confirm : Bool) (check : Check) (m n : Machine)
    : Type 0 where
  pub now : ℕ
  pub timeout : Timeout
  pub before : Steps ticks has_confirm m (at_place (trying true check) timeout)
  pub passed : passes check now timeout ≡ true
  pub later : Steps ticks has_confirm (at_place (next_place true check) timeout) n

-- A place behind a check is behind no other.
next_place-injective :
    (confirmed : Bool) (made check : Check)
    → next_place confirmed made ≡ next_place true check
    → (confirmed ≡ true) × (made ≡ check)
next_place-injective true flags flags h = (refl, refl)
next_place-injective true flags busyness h = absurd cc
next_place-injective true flags due_time h = absurd cc
next_place-injective true busyness flags h = absurd cc
next_place-injective true busyness busyness h = (refl, refl)
next_place-injective true busyness due_time h = absurd cc
next_place-injective true due_time flags h = absurd cc
next_place-injective true due_time busyness h = absurd cc
next_place-injective true due_time due_time h = (refl, refl)
next_place-injective false flags flags h = absurd cc
next_place-injective false flags busyness h = absurd cc
next_place-injective false flags due_time h = absurd cc
next_place-injective false busyness flags h = absurd cc
next_place-injective false busyness busyness h = absurd cc
next_place-injective false busyness due_time h = absurd cc
next_place-injective false due_time flags h = absurd cc
next_place-injective false due_time busyness h = absurd cc
next_place-injective false due_time due_time h = absurd cc

module _ (ticks : Ticks) (has_confirm : Bool) (check : Check) (m : Machine) where
  -- A check either goes on, to the place of its own, or ends in the select.
  checked-Passed :
      (confirmed : Bool) (made : Check) (now : ℕ) (t : Timeout)
      → Steps ticks has_confirm m (at_place (trying confirmed made) t)
      → (try_timeout confirmed made now t).place ≡ next_place true check
      → Passed ticks has_confirm check m (try_timeout confirmed made now t)
  unfolding try_timeout
  checked-Passed confirmed made now t steps =
      if_cases
        (λ (n : Machine). n.place ≡ next_place true check → Passed ticks has_confirm check m n)
        (passes made now t)
        (λ e there.
          let (sure, same) = next_place-injective confirmed made check there in
          passed_here sure same steps e)
        (λ e there. absurd (selecting_ne check there))
    where
      selecting_ne : (check : Check) → ¬ (selecting ≡ next_place true check)
      selecting_ne flags h = cc
      selecting_ne busyness h = cc
      selecting_ne due_time h = cc

      passed_here :
          confirmed ≡ true
          → made ≡ check
          → Steps ticks has_confirm m (at_place (trying confirmed made) t)
          → passes made now t ≡ true
          → Passed ticks has_confirm check m (at_place (next_place confirmed made) t)
      passed_here sure same steps e = record {
        now = now;
        timeout = t;
        before =
            subst (λ k. Steps ticks has_confirm m (at_place (trying true k) t)) same
              (subst (λ c. Steps ticks has_confirm m (at_place (trying c made) t)) sure steps);
        passed = subst (λ k. passes k now t ≡ true) same e;
        later =
            subst
              (λ c.
                Steps ticks has_confirm (at_place (next_place true check) t)
                  (at_place (next_place c made) t))
              (sym sure)
              (subst
                (λ k.
                  Steps ticks has_confirm (at_place (next_place true check) t)
                    (at_place (next_place true k) t))
                (sym same) (no_step _));
      }

  -- A step that stays where a check has led.
  stayed :
      (p : Place) (t t' : Timeout)
      → Step ticks has_confirm (at_place p t) (at_place p t')
      → Passed ticks has_confirm check m (at_place p t)
      → Passed ticks has_confirm check m (at_place p t')
  stayed p t t' step h = record {
    now = h.now;
    timeout = h.timeout;
    before = h.before;
    passed = h.passed;
    later = then_step _ _ _ h.later step;
  }

  next_ne :
      (check : Check)
      → (¬ (selecting ≡ next_place true check))
        × (¬ (ended ≡ next_place true check))
        × ((confirmed : Bool) → ¬ (trying confirmed flags ≡ next_place true check))
  next_ne flags = ((λ h. cc), (λ h. cc), λ c h. cc)
  next_ne busyness = ((λ h. cc), (λ h. cc), λ c h. cc)
  next_ne due_time = ((λ h. cc), (λ h. cc), λ c h. cc)

  -- Where the loop waits behind a check, its last check was that one, and it has waited since.
  pub waits-Passed :
      {n : Machine}
      → Steps ticks has_confirm m n
      → m.place ≡ selecting
      → n.place ≡ next_place true check
      → Passed ticks has_confirm check m n
  waits-Passed (no_step k) start there = absurd ((next_ne check).0 (sym start ∙ there))
  waits-Passed (then_step k n o steps step) start there =
      from step steps there (λ at. waits-Passed steps start at)
    where
      from :
          {n o : Machine}
          → Step ticks has_confirm n o
          → Steps ticks has_confirm m n
          → o.place ≡ next_place true check
          → (n.place ≡ next_place true check → Passed ticks has_confirm check m n)
          → Passed ticks has_confirm check m o
      from (called by p t h) steps at rest = stayed p t (call by t) (called by p t h) (rest at)
      from (expired now p t t' h) steps at rest = stayed p t t' (expired now p t t' h) (rest at)
      from (ended_by_session t h) steps at rest = absurd ((next_ne check).1 at)
      from (took_reset now t t' h) steps at rest = absurd ((next_ne check).0 at)
      from (took_reset_first now t t' _ _ h) steps at rest = absurd ((next_ne check).0 at)
      from (took_tick t t' h) steps at rest = absurd ((next_ne check).2 _ at)
      from (checked confirmed made now t h) steps at rest =
          checked-Passed confirmed made now t steps at
      from (got_answer true t) steps at rest = absurd ((next_ne check).2 _ at)
      from (got_answer false t) steps at rest = absurd ((next_ne check).0 at)
      from (triggered now t o h) steps at rest =
          absurd ((next_ne check).0 (sym (trigger-IsTriggered now t o h).2 ∙ at))

-- All checks of the second try were passed in their order, each where the one before had led.
pub record AllPassed (ticks : Ticks) (has_confirm : Bool) (m n : Machine) : Type 0 where
  pub at_due : Passed ticks has_confirm due_time m n
  pub at_busy : Passed ticks has_confirm busyness m (at_place (trying true due_time) at_due.timeout)
  pub at_flags : Passed ticks has_confirm flags m (at_place (trying true busyness) at_busy.timeout)
  pub no_reset : at_flags.timeout.reset_slot ≡ none
  pub enabled : at_flags.timeout.disabled ≡ false
  pub idle : leb_ℤ at_busy.timeout.active (pos 0) ≡ true
  pub over : leb_ℤ at_due.timeout.due (since at_due.now at_due.timeout) ≡ true
