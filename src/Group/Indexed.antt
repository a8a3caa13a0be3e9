-- ===== src/Group/Indexed.antt =====
-- That an instance stands at its own index of a group, proxy/server/cluster/group.go.
use lambda_objectstore.Base.{
  ℕ, ◌-◌, ◌<◌, ◌≤◌, ◌≡◌, ◌≢◌, ◌⊎◌, inl, inr, refl, sym, ◌∙◌, ap, Bool, true, false, ◌||◌, Option,
  none, some, get_elem?, set, ◌==◌, if◌then◌else◌, if_cases, Bool-cases, arith, length-set,
  get_elem?-set,
}
use mathlib.Core.Option.{some-injective, none-ne-some}
use lambda_objectstore.Group.{
  Group, is_out, element, start_index, end_index, put_entry, set_instance, exchange_idx, swap,
  expiring, Arranging, setting, swapping, leaving, arrange,
}
use lambda_objectstore.Group.Resize.{IsGroup, resize_group-Keeps}

-- Each instance of the group stands at its own index.
abbrev pub IsIndexed : Group → Type 0
IsIndexed g = IsGroup g × ((i ins : ℕ) → element i g ≡ some (some ins) → g.idx ins ≡ i)

pub element_range :
    (i : ℕ) (g : Group) {x : Option ℕ}
    → element i g ≡ some x
    → (start_index g ≤ i) × (i < end_index g)
unfolding element
element_range i g {x} there = elim (Bool-cases (is_out i g)) [
  | inl e ↦ absurd (
      none-ne-some x
        (sym (ap (λ t. if t then none else get_elem? g.all.items (i - g.idx_base)) e) ∙ there))
  | inr e ↦ (ground arith, ground arith)
]

-- Where an entry is assigned, it is read there, and the others are as before.
element-put_entry :
    (i k ins : ℕ) (g : Group)
    → IsGroup g
    → is_out k g ≡ false
    → is_out i g ≡ false
    → element i (put_entry k ins g) ≡ (if k == i then some (some ins) else element i g)
unfolding element
element-put_entry i k ins g (fits, _, _, _) inside there =
    let same : (k - g.idx_base == i - g.idx_base) ≡ (k == i) = ground arith in
    ap
      (λ t.
        if t
        then none
        else get_elem? (set g.all.items (k - g.idx_base) (some ins)) (i - g.idx_base))
      there
    ∙ get_elem?-set g.all.items (k - g.idx_base) (i - g.idx_base) (some ins) (ground arith)
    ∙ ap (λ t. if t then some (some ins) else get_elem? g.all.items (i - g.idx_base)) same
    ∙ ap (λ x. if k == i then some (some ins) else x)
        (sym (ap (λ t. if t then none else get_elem? g.all.items (i - g.idx_base)) there))

put_entry-IsGroup : (k ins : ℕ) (g : Group) → IsGroup g → IsGroup (put_entry k ins g)
put_entry-IsGroup k ins g (fits, positive, held, spare) =
    let same = length-set g.all.items (k - g.idx_base) (some ins) in
    (omega arith, omega arith, held, spare)

-- The step reads or writes an entry that the group does not have.
abbrev pub panics : Arranging → Group → Bool
panics (setting ins) g = is_out (g.idx ins) g
panics (swapping a b) g = is_out (g.idx a) g || is_out (g.idx b) g
panics (leaving n) g = false

-- Where the instances of the step are afterwards.
abbrev pub Places : Arranging → Group → Group → Type 0
Places (setting ins) g g' = (element (g.idx ins) g' ≡ some (some ins)) × (g'.idx ins ≡ g.idx ins)
Places (swapping a b) g g' =
    (element (g.idx b) g' ≡ some (some a))
    × (g.idx a ≢ g.idx b → element (g.idx a) g' ≡ some (some b))
    × (g'.idx a ≡ g.idx b)
    × (g'.idx b ≡ g.idx a)
Places (leaving n) g g' = (end_index g' ≡ end_index g) × (start_index g ≤ start_index g')

-- An entry after an assignment is what was assigned, or another one that is as before.
assigned :
    (i k ins : ℕ) (x : Option ℕ) (g : Group)
    → IsGroup g
    → is_out k g ≡ false
    → element i (put_entry k ins g) ≡ some x
    → ((k ≡ i) × (some ins ≡ x)) ⊎ ((k ≢ i) × (element i g ≡ some x))
assigned i k ins x g group inside there =
    let (after, before) = element_range i (put_entry k ins g) there in
    let read = sym (element-put_entry i k ins g group inside (ground arith)) ∙ there in
    elim (Bool-cases (k == i)) [
      | inl e ↦ inl (
        ground arith,
        some-injective _ _ (sym (ap (λ t. if t then some (some ins) else element i g) e) ∙ read),
      )
      | inr e ↦
          inr (ground arith, sym (ap (λ t. if t then some (some ins) else element i g) e) ∙ read)
    ]

assign_there :
    (k ins : ℕ) (g : Group)
    → IsGroup g
    → is_out k g ≡ false
    → element k (put_entry k ins g) ≡ some (some ins)
assign_there k ins g group inside =
    let same : (k == k) ≡ true = ground arith in
    element-put_entry k k ins g group inside inside
    ∙ ap (λ t. if t then some (some ins) else element k g) same

set-IsIndexed :
    (ins : ℕ) (g : Group)
    → IsIndexed g
    → is_out (g.idx ins) g ≡ false
    → IsIndexed (put_entry (g.idx ins) ins g) × Places (setting ins) g (put_entry (g.idx ins) ins g)
set-IsIndexed ins g (group, indexed) inside = (
  (put_entry-IsGroup (g.idx ins) ins g group, λ i other there. own i other there),
  (assign_there (g.idx ins) ins g group inside, refl),
)
  where
    own :
        (i other : ℕ)
        → element i (put_entry (g.idx ins) ins g) ≡ some (some other)
        → g.idx other ≡ i
    own i other there = elim (assigned i (g.idx ins) ins (some other) g group inside there) [
      | inl (at, is) ↦ ap g.idx (sym (some-injective _ _ is)) ∙ at
      | inr (_, before) ↦ indexed i other before
    ]

abbrev swapped : ℕ → ℕ → Group → Group
swapped a b g = record (put_entry (g.idx b) a (put_entry (g.idx a) b g)) {
  idx = exchange_idx a b g.idx;
}

exchanged :
    (a b : ℕ) (idx : ℕ → ℕ) → (exchange_idx a b idx a ≡ idx b) × (exchange_idx a b idx b ≡ idx a)
exchanged a b idx = (
  if_cases (λ (n : ℕ). n ≡ idx b) (a == b) (λ e. ap idx (ground arith))
      (λ _. if_cases (λ (n : ℕ). n ≡ idx b) (a == a) (λ _. refl) (λ e. absurd (ground arith))),
  if_cases (λ (n : ℕ). n ≡ idx a) (b == b) (λ _. refl) (λ e. absurd (ground arith)),
)

exchange_other :
    (a b c : ℕ) (idx : ℕ → ℕ) → idx c ≢ idx a → idx c ≢ idx b → exchange_idx a b idx c ≡ idx c
exchange_other a b c idx not_a not_b =
    if_cases (λ (n : ℕ). n ≡ idx c) (c == b) (λ e. absurd (not_b (ap idx (ground arith))))
      (λ _.
        if_cases (λ (n : ℕ). n ≡ idx c) (c == a) (λ e. absurd (not_a (ap idx (ground arith))))
          (λ _. refl))

swap-IsIndexed :
    (a b : ℕ) (g : Group)
    → IsIndexed g
    → is_out (g.idx a) g ≡ false
    → is_out (g.idx b) g ≡ false
    → IsIndexed (swapped a b g) × Places (swapping a b) g (swapped a b g)
unfolding element
swap-IsIndexed a b g (group, indexed) in_a in_b =
    let group' = put_entry-IsGroup (g.idx a) b g group in
    (
      (
        put_entry-IsGroup (g.idx b) a (put_entry (g.idx a) b g) group',
        λ i other there. own i other there,
      ),
      (
        assign_there (g.idx b) a (put_entry (g.idx a) b g) group' in_b,
        λ apart.
            let other : (g.idx b == g.idx a) ≡ false = ground arith in
            element-put_entry (g.idx a) (g.idx b) a (put_entry (g.idx a) b g) group' in_b in_a
            ∙ ap (λ t. if t then some (some a) else element (g.idx a) (put_entry (g.idx a) b g))
                other
            ∙ assign_there (g.idx a) b g group in_a,
        (exchanged a b g.idx).0,
        (exchanged a b g.idx).1,
      ),
    )
  where
    own :
        (i other : ℕ)
        → element i (put_entry (g.idx b) a (put_entry (g.idx a) b g)) ≡ some (some other)
        → exchange_idx a b g.idx other ≡ i
    own i other there =
        elim (assigned i (g.idx b) a (some other) (put_entry (g.idx a) b g)
          (put_entry-IsGroup (g.idx a) b g group) in_b there) [
            | inl (at, is) ↦
                ap (exchange_idx a b g.idx) (sym (some-injective _ _ is))
                ∙ (exchanged a b g.idx).0
                ∙ at
            | inr (not_b, before) ↦ elim (assigned i (g.idx a) b (some other) g group in_a before) [
              | inl (at, is) ↦
                  ap (exchange_idx a b g.idx) (sym (some-injective _ _ is))
                  ∙ (exchanged a b g.idx).1
                  ∙ at
              | inr (not_a, still) ↦
                  let own_index = indexed i other still in
                  exchange_other a b other g.idx (λ e. not_a (sym e ∙ own_index))
                    (λ e. not_b (sym e ∙ own_index))
                  ∙ own_index
            ]
          ]

-- The step panics, or what it leaves is indexed, with the instances of the step in their places.
abbrev pub Arranged : Arranging → Group → Type 0
Arranged op g =
    ((panics op g ≡ true) × (arrange op g ≡ none))
    ⊎ ((panics op g ≡ false)
        × ((g' : Group) × (arrange op g ≡ some g') × IsIndexed g' × Places op g g'))

-- Instances are at their own indexes, and setting, swapping and expiring keep that. A step panics
-- exactly where it is for an instance whose index the group does not have, and never when it
-- expires. An instance that is set stands at its index; two that are swapped have each other's
-- index and stand there.
pub arrange-IsIndexed : (op : Arranging) (g : Group) → IsIndexed g → Arranged op g
unfolding arrange set_instance swap
arrange-IsIndexed (setting ins) g indexed = elim (Bool-cases (is_out (g.idx ins) g)) [
  | inl e ↦ inl (e, ap (λ t. if t then none else some (put_entry (g.idx ins) ins g)) e)
  | inr e ↦
      let (kept, placed) = set-IsIndexed ins g indexed e in
      inr (
        e,
        (
          put_entry (g.idx ins) ins g,
          ap (λ t. if t then none else some (put_entry (g.idx ins) ins g)) e,
          kept,
          placed,
        ),
      )
]
arrange-IsIndexed (swapping a b) g indexed =
    elim (Bool-cases (is_out (g.idx a) g || is_out (g.idx b) g)) [
      | inl e ↦ inl (e, ap (λ t. if t then none else some (swapped a b g)) e)
      | inr e ↦
          let (kept, placed) = swap-IsIndexed a b g indexed (or_left _ _ e) (or_right _ _ e) in
          inr
            (e, (swapped a b g, ap (λ t. if t then none else some (swapped a b g)) e, kept, placed))
    ]
  where
    or_left : (p q : Bool) → (p || q) ≡ false → p ≡ false
    or_left false q e = refl
    or_left true q e = e

    or_right : (p q : Bool) → (p || q) ≡ false → q ≡ false
    or_right false q e = e
    or_right true q e = absurd (ground arith)
arrange-IsIndexed (leaving n) g (group, indexed) =
    let (g', made, group', starts, ends, kept, same) = resize_group-Keeps (expiring n) g group in
    inr (
      refl,
      (
        g',
        made,
        (
          group',
          λ i ins there.
              let (after, before) = element_range i g' there in
              ap (λ f. f ins) same ∙ indexed i ins (sym (kept i after (omega arith)) ∙ there),
        ),
        (omega arith, omega arith),
      ),
    )
