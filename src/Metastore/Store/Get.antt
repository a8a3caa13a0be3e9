-- ===== src/Metastore/Store/Get.antt =====
-- Get of proxy/server/metastore/metastore.go: it returns the newest version that was created.
use lambda_objectstore.Base.{
  ℕ, zero, suc, ◌+◌, ◌≤◌, ◌<◌, ◌≡◌, refl, sym, ap, ◌∙◌, subst, ◌≢◌, inl, inr, List, true, false,
  none, some, arith, ◌&&◌, ◌==◌, ltb, Bool-cases,
}
use lambda_objectstore.HashMap.Interface.{Backend}
use lambda_objectstore.HashMap.{load}
use lambda_objectstore.Keys.{meta_key_by_version}
use lambda_objectstore.Keys.Laws.{IsSanitized, meta_key_by_version-ne_sanitized}
use lambda_objectstore.Metastore.Meta.{Meta, is_created, validate, has_history, key_by_version}
use lambda_objectstore.Metastore.Store.{
  Heap, update, MetaStore, Found, found, missing, get_loop, examine,
}
use lambda_objectstore.Metastore.Store.Invariant.{
  validate-SameIdentity, update-SameIdentity, at_version, IsEntry, IsVersioned, reheap-IsVersioned,
}

validate-is_created : (now : ℕ) (m : Meta) → is_created (validate now m).0 ≡ is_created m
unfolding validate
validate-is_created now m = ground arith

validate_answer :
    (now : ℕ) (m : Meta) → ((validate now m).1 && is_created (validate now m).0) ≡ is_created m
unfolding validate
validate_answer now m = ground arith

update-is_created :
    (now p q : ℕ) (heap : Heap)
    → is_created (update heap p (validate now (heap p)).0 q) ≡ is_created (heap q)
update-is_created now p q heap = elim (Bool-cases (p == q)) [
  | inl e ↦
      let same : p ≡ q = ground arith in
      rw e (validate-is_created now (heap p) ∙ ap (λ r. is_created (heap r)) same)
  | inr e ↦ rw e
]

module _ (backend : Backend) (now : ℕ) (key : List ℕ) (c : IsSanitized key) where
  -- No version of the key above `low` and up to `high` was created.
  abbrev pub NoneCreated : MetaStore backend → ℕ → ℕ → Type 0
  NoneCreated s low high =
      (u q : ℕ)
      → low < u
      → u ≤ high
      → at_version backend s key u ≡ some (some q)
      → is_created (s.heap q) ≡ false

  -- What Get may answer when it starts at version `ver`. The map stays as it is.
  pub data GetsFrom (s : MetaStore backend) (ver : ℕ) : MetaStore backend × Found → Type 0 where
    newest :
        (s' : MetaStore backend) (w p : ℕ)
        → w ≤ ver
        → at_version backend s key w ≡ some (some p)
        → is_created (s.heap p) ≡ true
        → NoneCreated s w ver
        → s'.meta_map ≡ s.meta_map
        → GetsFrom s ver (s', found p)
    no_version :
        (s' : MetaStore backend)
        → NoneCreated s 0 ver
        → s'.meta_map ≡ s.meta_map
        → GetsFrom s ver (s', missing)

  -- The heap when the meta at `p` was validated.
  abbrev validated : MetaStore backend → ℕ → MetaStore backend
  validated s p = record s { heap = update s.heap p (validate now (s.heap p)).0 }

  extend_NoneCreated :
      (s : MetaStore backend) (p low w : ℕ)
      → at_version backend s key (w + 1) ≡ some (some p)
      → is_created (s.heap p) ≡ false
      → NoneCreated (validated s p) low w
      → NoneCreated s low (w + 1)
  extend_NoneCreated s p low w at no_p none_made u q above high here =
      elim (Bool-cases (u == (w + 1))) [
        | inl e ↦ let top : u ≡ w + 1 = ground arith in let is : q ≡ p = cc in rw is no_p
        | inr e ↦ sym (update-is_created now p q s.heap) ∙ none_made u q above (ground arith) here
      ]

  -- From the version before, over a version that was not created.
  extend_GetsFrom :
      (s : MetaStore backend) (p w : ℕ) {r : MetaStore backend × Found}
      → at_version backend s key (w + 1) ≡ some (some p)
      → is_created (s.heap p) ≡ false
      → GetsFrom (validated s p) w r
      → GetsFrom s (w + 1) r
  extend_GetsFrom s p w at no_p (newest s' x q le entry made none_made same) =
      newest s' x q (omega arith) entry (sym (update-is_created now p q s.heap) ∙ made)
        (extend_NoneCreated s p x w at no_p none_made) same
  extend_GetsFrom s p w at no_p (no_version s' none_made same) =
      no_version s' (extend_NoneCreated s p 0 w at no_p none_made) same

  -- The loop on the entry of a version.
  abbrev next_get : ℕ → MetaStore backend → Heap → List ℕ → MetaStore backend × Found
  next_get fuel s heap previous = get_loop backend fuel now (record s { heap = heap }) previous

  examine_created :
      (fuel : ℕ) (s : MetaStore backend) (p : ℕ)
      → is_created (s.heap p) ≡ true
      → examine backend (next_get fuel s) now s (some (some p)) ≡ (validated s p, found p)
  unfolding examine
  examine_created fuel s p e = rw (validate_answer now (s.heap p), e)

  examine_first :
      (fuel : ℕ) (s : MetaStore backend) (p : ℕ)
      → is_created (s.heap p) ≡ false
      → (s.heap p).last_version ≡ 0
      → examine backend (next_get fuel s) now s (some (some p)) ≡ (validated s p, missing)
  unfolding examine has_history
  examine_first fuel s p e z =
      rw (
        validate_answer now (s.heap p),
        e,
        (validate-SameIdentity now (s.heap p)).last_version_eq,
        z,
      )

  examine_next :
      (fuel : ℕ) (s : MetaStore backend) (p w : ℕ)
      → is_created (s.heap p) ≡ false
      → (s.heap p).key ≡ key
      → (s.heap p).last_version ≡ suc w
      → examine backend (next_get fuel s) now s (some (some p))
        ≡ get_loop backend fuel now (validated s p) (meta_key_by_version key (suc w))
  unfolding examine has_history key_by_version
  examine_next fuel s p w e k z =
      let same = validate-SameIdentity now (s.heap p) in
      let later : ltb 0 (suc w) ≡ true = ground arith in
      rw (validate_answer now (s.heap p), e, same.last_version_eq ∙ z, same.key_eq ∙ k, later)

  abbrev EntryGets : ℕ → Type 0
  EntryGets fuel =
      (ver : ℕ) (s : MetaStore backend) (p : ℕ)
      → ver < fuel
      → IsVersioned backend s
      → at_version backend s key ver ≡ some (some p)
      → GetsFrom s ver (examine backend (next_get fuel s) now s (some (some p)))

  validated-IsVersioned :
      (s : MetaStore backend) (p : ℕ) → IsVersioned backend s → IsVersioned backend (validated s p)
  validated-IsVersioned s p =
      reheap-IsVersioned backend s (validated s p).heap
        (λ q. update-SameIdentity s.heap p q _ (validate-SameIdentity now (s.heap p)))

  none_above :
      (s : MetaStore backend) (p low : ℕ)
      → at_version backend s key (low + 1) ≡ some (some p)
      → is_created (s.heap p) ≡ false
      → NoneCreated s low (low + 1)
  none_above s p low at no_p u q above high here =
      let top : u ≡ low + 1 = omega arith in let is : q ≡ p = cc in rw is no_p

  -- A version that was not created hands over to the one before.
  previous_gets :
      (fuel : ℕ) (s : MetaStore backend) (p w ver : ℕ)
      → EntryGets fuel
      → ver < suc fuel
      → IsVersioned backend s
      → at_version backend s key ver ≡ some (some p)
      → IsEntry backend s key ver p
      → is_created (s.heap p) ≡ false
      → (s.heap p).last_version ≡ w
      → GetsFrom s ver (examine backend (next_get (suc fuel) s) now s (some (some p)))
  previous_gets fuel s p zero ver ih f v at entry no_p e =
      let first : ver ≡ 0 + 1 = omega (arith, entry.previous) in
      rw (examine_first (suc fuel) s p no_p e, first)
        (no_version (validated s p) (none_above s p 0 (rw (← first) at) no_p) refl)
  previous_gets fuel s p (suc w) ver ih f v at entry no_p e =
      let before : ver ≡ suc w + 1 = omega (arith, entry.previous) in
      let (q, there) = recorded in
      rw (examine_next (suc fuel) s p w no_p entry.key_eq e, before)
        (extend_GetsFrom s p (suc w) (rw (← before) at) no_p (
          unfold get_loop in
          rw there
            (ih (suc w) (validated s p) q (omega arith) (validated-IsVersioned s p v) there)))
    where
      recorded : (q : ℕ) × (at_version backend s key (suc w) ≡ some (some q))
      recorded = elim entry.recorded [
        | inl none_before ↦ absurd (omega arith)
        | inr (q, h) ↦ (q, rw e at h)
      ]

  -- Get from the entry of version `ver`: it is over within a round for each version.
  get_loop-GetsFrom : (fuel : ℕ) → EntryGets fuel
  get_loop-GetsFrom zero ver s p f v at = absurd (omega arith)
  get_loop-GetsFrom (suc fuel) ver s p f v at =
      let (r, is, entry) = v.versions key ver (some p) c at in
      let same : r ≡ p = cc in
      elim (Bool-cases (is_created (s.heap p))) [
        | inl made ↦ rw (examine_created (suc fuel) s p made) (
            newest (validated s p) ver p (omega arith) at made
              (λ u q above high _. absurd (omega arith)) refl)
        | inr no_p ↦
            previous_gets fuel s p (s.heap p).last_version ver (get_loop-GetsFrom fuel) f v at
              (subst (IsEntry backend s key ver) same entry) no_p refl
      ]

  -- Get on a store in order, for a key without "@": with a round for each version and one more, it
  -- is over, and returns the newest version that was created, over later ones that failed or are
  -- being created; it finds nothing only if no version was created; it never dereferences nil, and
  -- it changes nothing in the map.
  pub get_newest :
      (s : MetaStore backend) (p fuel : ℕ)
      → IsVersioned backend s
      → load backend s.meta_map key ≡ some (some p)
      → (s.heap p).version < fuel
      → GetsFrom s (s.heap p).version (get_loop backend (suc fuel) now s key)
  unfolding get_loop
  get_newest s p fuel v present f =
      let (r, is, entry) = v.latest key (some p) c present in
      let same : r ≡ p = cc in
      rw present (
        get_loop-GetsFrom fuel (s.heap p).version s p f v
          (subst (λ q. at_version backend s key (s.heap q).version ≡ some (some q)) same entry))

  -- Get finds nothing under a key that was never inserted.
  pub get_loop-missing :
      (s : MetaStore backend) (fuel : ℕ)
      → load backend s.meta_map key ≡ none
      → get_loop backend (suc fuel) now s key ≡ (s, missing)
  unfolding get_loop examine
  get_loop-missing s fuel absent = rw absent

  -- A request for a key that is spelled like the key of a created version is given the meta of
  -- that version, although its object has another key.
  get_version_key_collides :
      (s : MetaStore backend) (ver p fuel : ℕ)
      → IsVersioned backend s
      → at_version backend s key ver ≡ some (some p)
      → is_created (s.heap p) ≡ true
      → ((get_loop backend (suc fuel) now s (meta_key_by_version key ver)).1 ≡ found p)
        × ((s.heap p).key ≢ meta_key_by_version key ver)
  unfolding get_loop
  get_version_key_collides s ver p fuel v at made =
      let (r, is, entry) = v.versions key ver (some p) c at in
      let same : r ≡ p = cc in
      let named = (subst (IsEntry backend s key ver) same entry).key_eq in
      (
        rw at (ap (λ (x : MetaStore backend × Found). x.1) (examine_created fuel s p made)),
        λ e. meta_key_by_version-ne_sanitized key key ver c (sym e ∙ named),
      )
