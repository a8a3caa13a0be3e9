-- ===== src/Group.antt =====
-- Group of proxy/server/cluster/group.go: the instances of a cluster, under indexes that go on when
-- instances expire. An instance is its identity, a nil entry is `none`, and a step that panics
-- answers `none`. The counts that callers give are not negative.
use lambda_objectstore.Base.{
  ℕ, ◌+◌, ◌-◌, ◌*◌, ◌/◌, Bool, true, false, ◌||◌, Option, none, some, List, ◌++◌, length, get_elem?,
  set, take, drop, replicate, ltb, leb, ◌==◌, if◌then◌else◌,
}
mod Capacity
pub mod Resize
pub mod Indexed

-- A slice that starts where its array does: the array, and its length.
pub record Buffer : Type 0 where
  pub items : List (Option ℕ)
  pub len : ℕ

abbrev pub cap : Buffer → ℕ
cap b = length b.items

pub record Group : Type 0 where
  pub all : Buffer
  pub buff : Buffer
  pub idx_base : ℕ
  -- GroupInstance.idx, of each instance
  pub idx : ℕ → ℕ

-- NewGroup, with config.LambdaMaxDeployments
unfoldable pub new_group : ℕ → ℕ → (ℕ → ℕ) → Option Group
new_group num max idx =
    if ltb max num
    then none
    else some (record {
      all = record { items = replicate max none; len = num };
      buff = record { items = replicate max none; len = 0 };
      idx_base = 0;
      idx = idx;
    })

abbrev pub start_index : Group → ℕ
start_index g = g.idx_base

abbrev pub end_index : Group → ℕ
end_index g = g.idx_base + g.all.len

abbrev pub larger_cap : ℕ → ℕ → ℕ
larger_cap num c = ((num - 1) / c + 1) * c

abbrev pub enlarge : Buffer → ℕ → Bool → Buffer
enlarge b c preserve =
    if preserve
    then record { items = take b.len b.items ++ replicate (c - b.len) none; len = b.len }
    else record { items = replicate c none; len = 0 }

unfoldable pub check_capacity : Buffer → ℕ → Bool → Option Buffer
check_capacity b num preserve =
    if ltb (cap b) num
    then (if cap b == 0 then none else some (enlarge b (larger_cap num (cap b)) preserve))
    else some b

-- buff[:n], up to the capacity
abbrev pub reslice : ℕ → Buffer → Option Buffer
reslice n b = if leb n (cap b) then some (record b { len = n }) else none

abbrev pub with_all : Group → Option Buffer → Option Group
with_all g none = none
with_all g (some all) = some (record g { all = all })

abbrev pub resliced : ℕ → Option Buffer → Option Buffer
resliced n none = none
resliced n (some b) = reslice n b

-- The index that Expand returns is `end_index` of the group it leaves.
unfoldable pub expand : ℕ → Group → Option Group
expand n g = let num = g.all.len + n in with_all g (resliced num (check_capacity g.all num true))

-- Copies what is left to the buffer, which becomes the instances.
abbrev pub pack : ℕ → Group → Option Buffer → Option Group
pack n g none = none
pack n g (some buff) = some (record g {
  all = record {
    items = drop n (take g.all.len g.all.items) ++ drop buff.len buff.items;
    len = buff.len;
  };
  buff = g.all;
  idx_base = g.idx_base + n;
})

abbrev pub expired_with : Option Group → Option (Bool × Group)
expired_with none = none
expired_with (some g) = some (true, g)

-- With whether there were enough instances.
unfoldable pub expire : ℕ → Group → Option (Bool × Group)
expire n g =
    if ltb g.all.len n
    then some (false, g)
    else (let left = g.all.len - n in
        expired_with (pack n g (resliced left (check_capacity g.buff left false))))

-- All
abbrev pub all_instances : Group → List (Option ℕ)
all_instances g = take g.all.len g.all.items

-- A slice of the instances reaches up to the capacity, not only to the length.
unfoldable pub sub_group : ℕ → ℕ → Group → Option (List (Option ℕ))
sub_group start end g =
    if ltb end start || ltb start g.idx_base || ltb (cap g.all) (end - g.idx_base)
    then none
    else some (take (end - start) (drop (start - g.idx_base) g.all.items))

abbrev pub is_out : ℕ → Group → Bool
is_out i g = ltb i g.idx_base || leb (g.idx_base + g.all.len) i

-- g.all[idx.Idx()-g.idxBase]
unfoldable pub element : ℕ → Group → Option (Option ℕ)
element i g = if is_out i g then none else get_elem? g.all.items (i - g.idx_base)

abbrev pub deref : Option (Option ℕ) → Option ℕ
deref none = none
deref (some entry) = entry

-- Instance, which dereferences the entry
abbrev pub instance_at : ℕ → Group → Option ℕ
instance_at i g = deref (element i g)

abbrev pub put_entry : ℕ → ℕ → Group → Group
put_entry i ins g = record g {
  all = record g.all { items = set g.all.items (i - g.idx_base) (some ins) };
}

-- Set
unfoldable pub set_instance : ℕ → Group → Option Group
set_instance ins g = if is_out (g.idx ins) g then none else some (put_entry (g.idx ins) ins g)

abbrev pub exchange_idx : ℕ → ℕ → (ℕ → ℕ) → ℕ → ℕ
exchange_idx a b idx ins = if ins == b then idx a else (if ins == a then idx b else idx ins)

unfoldable pub swap : ℕ → ℕ → Group → Option Group
swap a b g =
    if is_out (g.idx a) g || is_out (g.idx b) g
    then none
    else some
        (record (put_entry (g.idx b) a (put_entry (g.idx a) b g)) { idx = exchange_idx a b g.idx })

pub data Resizing : Type 0 where
  expanding expiring : ℕ → Resizing

abbrev pub left_by : Option (Bool × Group) → Option Group
left_by none = none
left_by (some (_, g)) = some g

unfoldable pub resize_group : Resizing → Group → Option Group
resize_group (expanding n) g = expand n g
resize_group (expiring n) g = left_by (expire n g)

-- What moves instances but adds no entry.
pub data Arranging : Type 0 where
  setting : ℕ → Arranging
  swapping : ℕ → ℕ → Arranging
  leaving : ℕ → Arranging

unfoldable pub arrange : Arranging → Group → Option Group
arrange (setting ins) g = set_instance ins g
arrange (swapping a b) g = swap a b g
arrange (leaving n) g = resize_group (expiring n) g
