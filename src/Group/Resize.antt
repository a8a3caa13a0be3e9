-- ===== src/Group/Resize.antt =====
-- What expanding and expiring leave of a group, proxy/server/cluster/group.go.
use lambda_objectstore.Base.{
  ℕ, ◌+◌, ◌-◌, ◌<◌, ◌≤◌, ◌≡◌, refl, sym, ◌∙◌, ap, true, false, none, some, ◌++◌, get_elem?, take,
  drop, ltb, if◌then◌else◌, Bool-cases, inl, inr, arith, length-append, length-take, length-drop,
  get_elem?-append_left, get_elem?-drop,
}
use lambda_objectstore.Group.{
  Buffer, cap, Group, check_capacity, with_all, resliced, expand, pack, expire, expired_with,
  is_out, element, start_index, end_index, Resizing, expanding, expiring, left_by, resize_group,
}
use lambda_objectstore.Group.Capacity.{check_capacity-Grown, get_elem?-take_less}

-- Both slices fit in their arrays, and the arrays hold something.
abbrev pub IsGroup : Group → Type 0
IsGroup g = (g.all.len ≤ cap g.all) × (0 < cap g.all) × (g.buff.len ≤ cap g.buff) × (0 < cap g.buff)

pub element_in :
    (i : ℕ) (g : Group)
    → start_index g ≤ i
    → i < end_index g
    → element i g ≡ get_elem? g.all.items (i - g.idx_base)
unfolding element
element_in i g after before =
    let inside : is_out i g ≡ false = ground arith in
    ap (λ t. if t then none else get_elem? g.all.items (i - g.idx_base)) inside

-- The instances that are left, packed into another array.
packed-Keeps :
    (n : ℕ) (g : Group)
    → IsGroup g
    → n ≤ g.all.len
    → (g' : Group) × (pack n g
          (resliced (g.all.len - n) (check_capacity g.buff (g.all.len - n) false))
        ≡ some g')
      × IsGroup g'
      × (start_index g' ≡ start_index g + n)
      × (end_index g' ≡ end_index g + 0)
      × ((i : ℕ) → start_index g' ≤ i → i < end_index g → element i g' ≡ element i g)
      × (g'.idx ≡ g.idx)
packed-Keeps n g (fits, positive, held, spare) enough =
    let (b, grown, len, room, some_room, _) =
      check_capacity-Grown g.buff (g.all.len - n) false held spare in
    let g' = with_packed b in
    let listed = length-take g.all.len g.all.items fits in
    let dropped = length-drop n (take g.all.len g.all.items) (omega arith) in
    let rest = length-drop b.len b.items (omega arith) in
    let whole = length-append (drop n (take g.all.len g.all.items)) (drop b.len b.items) in
    (
      g',
      ap (pack n g) grown,
      (omega arith, omega arith, fits, positive),
      refl,
      omega arith,
      λ i after before.
          element_in i g' after (omega arith)
          ∙ get_elem?-append_left (drop n (take g.all.len g.all.items)) (drop b.len b.items)
              (i - (g.idx_base + n)) (omega arith)
          ∙ get_elem?-drop n (i - (g.idx_base + n)) (take g.all.len g.all.items)
          ∙ ap (get_elem? (take g.all.len g.all.items)) (same i after)
          ∙ get_elem?-take_less g.all.len (i - g.idx_base) g.all.items (omega arith) fits
          ∙ sym (element_in i g (omega arith) before),
      refl,
    )
  where
    with_packed : Buffer → Group
    with_packed b = record g {
      all = record {
        items = drop n (take g.all.len g.all.items) ++ drop b.len b.items;
        len = b.len;
      };
      buff = g.all;
      idx_base = g.idx_base + n;
    }

    same : (i : ℕ) → g.idx_base + n ≤ i → n + (i - (g.idx_base + n)) ≡ i - g.idx_base
    same i after = omega arith

-- How many instances expire, and how many are new.
abbrev pub expires : Resizing → Group → ℕ
expires (expanding n) g = 0
expires (expiring n) g = if ltb g.all.len n then 0 else n

abbrev pub expands : Resizing → ℕ
expands (expanding n) = n
expands (expiring n) = 0

abbrev pub Keeps : Resizing → Group → Type 0
Keeps r g =
    (g' : Group) × (resize_group r g ≡ some g')
    × IsGroup g'
    × (start_index g' ≡ start_index g + expires r g)
    × (end_index g' ≡ end_index g + expands r)
    × ((i : ℕ) → start_index g' ≤ i → i < end_index g → element i g' ≡ element i g)
    × (g'.idx ≡ g.idx)

-- Expanding and expiring never panic. Expiring more instances than there are changes no index;
-- otherwise the indexes start as much later as instances expire, and they end as much later as
-- there are new ones. An instance that was there before and did not expire is found under its
-- index as before, and no instance changes its own index.
pub resize_group-Keeps : (r : Resizing) (g : Group) → IsGroup g → Keeps r g
unfolding resize_group expand expire
resize_group-Keeps (expanding n) g (fits, positive, held, spare) =
    let (b, grown, len, room, some_room, kept) =
      check_capacity-Grown g.all (g.all.len + n) true fits positive in
    let g' : Group = record g { all = b } in
    (
      g',
      ap (with_all g) grown,
      (omega arith, some_room, held, spare),
      omega arith,
      omega arith,
      λ i after before.
          element_in i g' after (omega arith)
          ∙ kept refl (i - g.idx_base) (omega arith)
          ∙ sym (element_in i g after before),
      refl,
    )
resize_group-Keeps (expiring n) g (fits, positive, held, spare) =
    elim (Bool-cases (ltb g.all.len n)) [
      | inl e ↦
          let none_lost : (if ltb g.all.len n then 0 else n) ≡ 0 = ap (λ t. if t then 0 else n) e in
          (
            g,
            ap
                (λ t. left_by (
                  if t
                  then some (false, g)
                  else expired_with (pack n g (resliced left (check_capacity g.buff left false)))))
                e,
            (fits, positive, held, spare),
            omega arith,
            omega arith,
            λ i after before. refl,
            refl,
          )
      | inr e ↦
          let all_lost : (if ltb g.all.len n then 0 else n) ≡ n = ap (λ t. if t then 0 else n) e in
          let (g', made, group, starts, ends, kept, same) =
            packed-Keeps n g (fits, positive, held, spare) (ground arith) in
          (
            g',
            ap
                  (λ t. left_by (
                    if t
                    then some (false, g)
                    else expired_with
                        (pack n g (resliced left (check_capacity g.buff left false)))))
                  e
                ∙ ap (λ r. left_by (expired_with r)) made,
            group,
            omega arith,
            ends,
            kept,
            same,
          )
    ]
  where
    left : ℕ
    left = g.all.len - n
