-- ===== src/Metastore/Lru/Compact.antt =====
-- NextAvailableObject of proxy/server/metastore/lru_placer.go over a whole iteration without a
-- victim: the online compaction.
use lambda_objectstore.Base.{
  ℕ, ◌+◌, ◌-◌, ◌≤◌, ◌<◌, ◌≡◌, refl, sym, ap, ap₂, subst, ◌∙◌, ◌≢◌, List, [], ◌∷◌, ◌++◌, Bool, true,
  false, Option, none, some, arith, length, get_elem?, drop, take-append-drop, drop-drop,
  length-take, length-drop, get_elem?-drop, get_elem?_bounds, ◌⊎◌, inl, inr, ◌==◌, if◌then◌else◌,
}
use mathlib.Core.List.{append_assoc}
use lambda_objectstore.Metastore.Lru.{
  Clock, objects, set_objects, scan, start_scan, switch_arrays, finish_scan, under_cursor,
  next_available_object,
}
use lambda_objectstore.Metastore.Lru.Positions.{
  IsPlaced, objects-set_objects, objects-set_objects_ne,
}
use lambda_objectstore.Metastore.Lru.Copy.{compact, Copying, Copied}
use lambda_objectstore.Metastore.Lru.Scan.{scan-CopiesAll, keep_new-Copied}

-- An iteration is under way: the objects before the cursor were copied, and the cursor and its
-- bound lie within the primary array.
pub record UnderWay (c : Clock) : Type 0 where
  pub within : c.placer.cursor ≤ c.placer.cursor_bound
  pub bounded : c.placer.cursor_bound ≤ length (objects c.placer.primary c.placer)
  pub copying : Copying c.placer.cursor c (drop c.placer.cursor (objects c.placer.primary c.placer))

-- After an iteration the arrays have changed places, and the new primary array holds the objects
-- of `xs`, in order.
pub record Switched (c : Clock) (xs : List (Option ℕ)) (c' : Clock) : Type 0 where
  pub primary_eq : c'.placer.primary ≡ c.placer.secondary
  pub secondary_eq : c'.placer.secondary ≡ c.placer.primary
  pub cursor_eq : c'.placer.cursor ≡ 0
  pub objects_eq : objects c'.placer.primary c'.placer ≡ xs
  pub placed : IsPlaced c'.placer.primary c'.heap (objects c'.placer.primary c'.placer)

compact-append : (xs ys : List (Option ℕ)) → compact (xs ++ ys) ≡ compact xs ++ compact ys
compact-append [] ys = refl
compact-append (none ∷ xs) ys = compact-append xs ys
compact-append (some m ∷ xs) ys = ap (◌∷◌ (some m)) (compact-append xs ys)

module _ (meta : ℕ) (candidate : Option ℕ) (c : Clock) (u : UnderWay c) where
  abbrev array : List (Option ℕ)
  array = objects c.placer.primary c.placer

  abbrev steps : ℕ
  steps = c.placer.cursor_bound - c.placer.cursor

  -- The objects behind the bound.
  abbrev late : List (Option ℕ)
  late = drop steps (drop c.placer.cursor array)

  under_cursor-late : under_cursor c.placer ++ late ≡ drop c.placer.cursor array
  under_cursor-late = take-append-drop steps (drop c.placer.cursor array)

  length-under_cursor : c.placer.cursor + length (under_cursor c.placer) ≡ c.placer.cursor_bound
  length-under_cursor = omega (
    arith,
    u.within,
    u.bounded,
    length-take steps (drop c.placer.cursor array) (
        omega (
          arith,
          u.within,
          u.bounded,
          length-drop c.placer.cursor array (omega (arith, u.within, u.bounded)),
        )),
  )

  late-drop : late ≡ drop c.placer.cursor_bound array
  late-drop =
      drop-drop steps c.placer.cursor array ∙ ap (λ n. drop n array) (omega (arith, u.within))

  switch-Switched :
      (c' : Clock)
      → Copied c (under_cursor c.placer) c'
      → Copying (c.placer.cursor + length (under_cursor c.placer)) c' late
      → c'.placer.cursor ≡ c.placer.cursor + length (under_cursor c.placer)
      → Switched c
          (objects c.placer.secondary c.placer ++ compact (drop c.placer.cursor array))
          (switch_arrays c')
  unfolding switch_arrays
  switch-Switched c' copied copying at =
      let rest : drop c'.placer.cursor (objects c'.placer.primary c'.placer) ≡ late =
        ap (λ ys. drop c'.placer.cursor ys) copied.kept
        ∙ ap (λ n. drop n array) (at ∙ length-under_cursor)
        ∙ sym late-drop in
      let (done, ready) = keep_new-Copied _ _ c' (subst (Copying _ c') (sym rest) copying) in
      record {
        primary_eq = done.secondary_eq ∙ copied.secondary_eq;
        secondary_eq = done.primary_eq ∙ copied.primary_eq;
        cursor_eq = refl;
        objects_eq =
            done.copied
            ∙ ap (λ ys. ys ++ compact (drop c'.placer.cursor (objects c'.placer.primary c'.placer)))
                copied.copied
            ∙ append_assoc (objects c.placer.secondary c.placer) (compact (under_cursor c.placer)) _
            ∙ ap
                (λ ys.
                  objects c.placer.secondary c.placer
                  ++ (compact (under_cursor c.placer) ++ compact ys))
                rest
            ∙ ap (◌++◌ (objects c.placer.secondary c.placer))
                (sym (compact-append (under_cursor c.placer) late) ∙ ap compact under_cursor-late);
        placed = ready.placed;
      }

  -- The scan from the cursor on, and what follows it.
  abbrev pub pass : Clock × Option ℕ × Bool
  pass = finish_scan (scan meta (under_cursor c.placer) c candidate)

  pub pass-Switched :
      pass.2 ≡ false
      → Switched c
          (objects c.placer.secondary c.placer ++ compact (drop c.placer.cursor array))
          pass.0
  pass-Switched none_found =
      let r = scan meta (under_cursor c.placer) c candidate in
      let quiet = finish_found r none_found in
      let (copied, copying, at, bound) =
        scan-CopiesAll meta c.placer.cursor (under_cursor c.placer) late c candidate
          (subst (Copying c.placer.cursor c) (sym under_cursor-late) u.copying) quiet in
      subst (Switched c _) (sym (finish_switch r quiet)) (switch-Switched r.0 copied copying at)
    where
      finish_found : (r : Clock × Option ℕ × Bool) → (finish_scan r).2 ≡ false → r.2 ≡ false
      finish_found (c', candidate', true) e = unfold finish_scan in e
      finish_found (c', candidate', false) e = refl

      finish_switch :
          (r : Clock × Option ℕ × Bool) → r.2 ≡ false → (finish_scan r).0 ≡ switch_arrays r.0
      finish_switch (c', candidate', true) e = cc
      finish_switch (c', candidate', false) e = unfold finish_scan in refl

-- Between two calls: no iteration is under way and the objects know their positions, or one is.
pub record InOrder (c : Clock) : Type 0 where
  pub apart : c.placer.secondary ≢ c.placer.primary
  pub placed : IsPlaced c.placer.primary c.heap (objects c.placer.primary c.placer)
  pub reserved : 0 < length (objects c.placer.primary c.placer)
  pub idle : c.placer.cursor ≡ 0

-- The clock with an iteration started.
abbrev pub started : Clock → Clock
started c = record c {
  placer = record (set_objects c.placer.secondary (none ∷ []) c.placer) {
    cursor = 1;
    cursor_bound = length (objects c.placer.primary c.placer);
  };
}

pub start_scan-started : (c : Clock) → c.placer.cursor ≡ 0 → start_scan c ≡ started c
unfolding start_scan
start_scan-started c e = rw e

pub objects-started :
    (c : Clock)
    → c.placer.secondary ≢ c.placer.primary
    → objects c.placer.primary (started c).placer ≡ objects c.placer.primary c.placer
objects-started c d =
    objects-set_objects_ne c.placer.secondary c.placer.primary (none ∷ []) c.placer d

started-UnderWay : (c : Clock) → InOrder c → UnderWay (started c)
started-UnderWay c h =
    let kept = objects-started c h.apart in
    let fresh = objects-set_objects c.placer.secondary (none ∷ []) c.placer in
    record {
      within = h.reserved;
      bounded = rw (ap length kept) (omega arith);
      copying = record {
        apart = h.apart;
        ahead = λ j m at. h.placed (1 + j) m (omega arith) (
            sym (get_elem?-drop 1 j (objects c.placer.primary c.placer))
            ∙ sym (ap (λ ys. get_elem? (drop 1 ys) j) kept)
            ∙ at);
        placed = λ i m low at.
            absurd (reserved_only i m low (sym (ap (λ ys. get_elem? ys i) fresh) ∙ at));
        behind = λ i m low at.
            absurd (reserved_only i m low (sym (ap (λ ys. get_elem? ys i) fresh) ∙ at));
      };
    }
  where
    reserved_only : (i m : ℕ) → 0 < i → get_elem? (none ∷ []) i ≡ some (some m) → ⊥
    reserved_only i m low at = absurd (omega (arith, low, get_elem?_bounds (none ∷ []) i at))

started-Switched :
    (c c' : Clock)
    → c.placer.secondary ≢ c.placer.primary
    → Switched
        (started c)
        (objects c.placer.secondary (started c).placer
          ++ compact (drop 1 (objects c.placer.primary (started c).placer)))
        c'
    → Switched c (none ∷ compact (drop 1 (objects c.placer.primary c.placer))) c'
started-Switched c c' d s = record {
  primary_eq = s.primary_eq;
  secondary_eq = s.secondary_eq;
  cursor_eq = s.cursor_eq;
  objects_eq =
      s.objects_eq
      ∙ ap₂ (λ xs ys. xs ++ compact (drop 1 ys))
          (objects-set_objects c.placer.secondary (none ∷ []) c.placer) (objects-started c d);
  placed = s.placed;
}

-- From the start, an iteration without a victim leaves the reserved slot and the objects.
pub next_available_object-Switched :
    (meta : ℕ) (candidate : Option ℕ) (c : Clock)
    → InOrder c
    → (next_available_object meta candidate c).2 ≡ false
    → Switched c
        (none ∷ compact (drop 1 (objects c.placer.primary c.placer)))
        (next_available_object meta candidate c).0
unfolding next_available_object
next_available_object-Switched meta candidate c h none_found =
    let start = start_scan-started c h.idle in
    let u = started-UnderWay c h in
    let s = pass-Switched meta candidate (started c) u (rw start at none_found) in
    rw start (started-Switched c _ h.apart s)

-- Between two iterations, or within one, where objects may stand behind the bound of the cursor.
abbrev pub IsReady : Clock → Type 0
IsReady c = InOrder c ⊎ ((0 < c.placer.cursor) × UnderWay c)

-- What an iteration leaves: what it has copied, and the objects from the cursor on.
abbrev pub left_objects : Clock → List (Option ℕ)
left_objects c =
    if c.placer.cursor == 0
    then none ∷ compact (drop 1 (objects c.placer.primary c.placer))
    else objects c.placer.secondary c.placer
      ++ compact (drop c.placer.cursor (objects c.placer.primary c.placer))

-- An iteration that finds no victim compacts the array, whether it starts or is under way, when
-- objects may have been added behind the bound of the cursor. The new primary array is what was
-- copied before, or the reserved slot, and all the objects from the cursor on in their order,
-- without the empty slots, those added included, no object lost or doubled; each object knows its
-- new position, and the arrays have changed places.
pub next_available_object-Compacts :
    (meta : ℕ) (candidate : Option ℕ) (c : Clock)
    → IsReady c
    → (next_available_object meta candidate c).2 ≡ false
    → Switched c (left_objects c) (next_available_object meta candidate c).0
unfolding next_available_object start_scan
next_available_object-Compacts meta candidate c (inl h) none_found =
    let at_start : (c.placer.cursor == 0) ≡ true = ground (arith, h.idle) in
    subst (λ xs. Switched c xs (next_available_object meta candidate c).0)
      (sym (
        ap
          (λ b.
            if b
            then none ∷ compact (drop 1 (objects c.placer.primary c.placer))
            else objects c.placer.secondary c.placer
              ++ compact (drop c.placer.cursor (objects c.placer.primary c.placer)))
          at_start))
      (next_available_object-Switched meta candidate c h none_found)
next_available_object-Compacts meta candidate c (inr (moved, u)) none_found =
    let later : (c.placer.cursor == 0) ≡ false = ground arith in
    rw later (pass-Switched meta candidate c u (rw later at none_found))
