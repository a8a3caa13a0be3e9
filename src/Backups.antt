-- ===== src/Backups.antt =====
-- The backups of an instance, proxy/lambdastore/backups.go, with the locator of
-- common/types/backup_locator.go. An instance is a number; the instances' state and their answers to
-- a reservation are a parameter. There is no adapter: an instance is its own backer.
-- `slots` is the whole array behind the backups, of which the first `len` are in use.
pub mod Reserve
pub mod Serve
pub mod Iterate
use lambda_objectstore.Base.{
  ℕ, ◌+◌, ◌-◌, ◌%◌, List, [], ◌∷◌, ◌++◌, Bool, true, false, Option, none, some, ◌||◌, ◌==◌, ltb,
  leb, if◌then◌else◌, length, get_elem?, set, take, replicate,
}

-- BackupLocator
pub record Locator : Type 0 where
  pub enable : Bool
  pub backups : ℕ

unfoldable pub reset_locator : ℕ → Locator → Locator
reset_locator num b =
    if num == 0 then record b { enable = false } else record { enable = true; backups = num }

-- LocateByHash: the place and the number of backups.
unfoldable pub locate_by_hash : ℕ → Locator → Option (ℕ × ℕ)
locate_by_hash hash b = if b.enable then some (hash % b.backups, b.backups) else none

pub record Backups : Type 0 where
  pub slots : List (Option ℕ)
  pub len : ℕ
  pub candidates : List (Option ℕ)
  pub required : ℕ
  pub availables : ℕ
  pub locator : Locator

unfoldable pub reset_candidates : ℕ → List (Option ℕ) → Backups → Backups
reset_candidates required candidates b =
    if ltb (length b.slots) required
    then record b {
      slots = take b.len b.slots ++ replicate (required - b.len) none;
      len = required;
      required = required;
      candidates = candidates;
    }
    else record b { required = required; candidates = candidates }

unfoldable pub invalidate_backups : Backups → Backups
invalidate_backups b = record b { availables = 0; len = 0 }

-- What an instance answers to ReserveBacking: nil, ErrInstanceClosed, or another error.
pub data Answer : Type 0 where
  ok closed refused : Answer

-- An entry of a list, nil out of range.
abbrev pub entry : List (Option ℕ) → ℕ → Option ℕ
entry xs i = elim (get_elem? xs i) [ some o ↦ o | none ↦ none ]

abbrev pub same_instance : Option ℕ → Option ℕ → Bool
same_instance none none = true
same_instance (some a) (some b) = a == b
same_instance none (some b) = false
same_instance (some a) none = false

abbrev pub is_some : Option ℕ → Bool
is_some none = false
is_some (some a) = true

-- addToBackups: the backups, and whether this is a change.
unfoldable pub add_to_backups : ℕ → Option ℕ → Backups → Backups × ℕ
add_to_backups dest ins b = (
  record b {
    slots = set b.slots dest ins;
    availables = if is_some ins then b.availables + 1 else b.availables;
  },
  (if same_instance (entry b.slots dest) ins then 0 else 1),
)

abbrev pub exchange : ℕ → ℕ → List (Option ℕ) → List (Option ℕ)
exchange i j xs = set (set xs i (entry xs j)) j (entry xs i)

-- promoteCandidate
unfoldable pub promote_candidate : ℕ → ℕ → Backups → Backups × ℕ
unfolding add_to_backups
promote_candidate dest src b =
    let (b', change) = add_to_backups dest (entry b.candidates src) b in
    if dest == src
    then (b', change)
    else (record b' { candidates = exchange dest src b'.candidates }, change)

-- GetByLocation: the source panics where the location is the number of required backups and a
-- backup is there, since it cuts the array before it.
pub data Located : Type 0 where
  located : ℕ → Located
  nowhere out_of_range : Located

unfoldable pub get_by_location : ℕ → ℕ → Backups → Located
get_by_location loc required b =
    if leb b.len loc || ltb required loc
    then nowhere
    else if ltb (length b.slots) required || leb required loc
    then out_of_range
    else elim (entry b.slots loc) [ some ins ↦ located ins | none ↦ nowhere ]

unfoldable pub get_by_hash : ℕ → Backups → Located
unfolding locate_by_hash get_by_location
get_by_hash hash b = elim (locate_by_hash hash b.locator) [
  | none ↦ nowhere
  | some (loc, required) ↦ get_by_location loc required b
]

-- Start: the backups that are told to back the target, with their places and the number required.
abbrev pub told : ℕ → ℕ → List (Option ℕ) → List (ℕ × ℕ × ℕ)
told required i [] = []
told required i (none ∷ xs) = told required (i + 1) xs
told required i (some ins ∷ xs) = (ins, i, required) ∷ told required (i + 1) xs

unfoldable pub start : Backups → List (ℕ × ℕ × ℕ) × ℕ
start b = if b.len == 0 then ([], 0) else (told b.required 0 (take b.len b.slots), b.availables)

-- Stop: the backups that are told to stop, and the backups after it.
unfoldable pub stop : Backups → List (ℕ × ℕ × ℕ) × Backups
unfolding invalidate_backups
stop b = (told b.required 0 (take b.len b.slots), invalidate_backups b)
