-- ===== src/Links/Manager.antt =====
-- The links of an instance, LinkManager of proxy/lambdastore/link_manager.go. Connections are
-- numbers; `worker_id` reads the field workerId. What the manager does to connections, which close
-- and disconnect in their own goroutines, is listed in `effects`, in order.
use lambda_objectstore.Base.{
  ℕ, ◌+◌, ◌%◌, ◌^◌, Bool, true, false, not, Option, none, some, List, [], ◌∷◌, ◌++◌, ◌==◌,
  if◌then◌else◌,
}
use lambda_objectstore.Base.Int.{ℤ}
use lambda_objectstore.Links.{set_limit}
use lambda_objectstore.Links.Workers.{Pool, get_request_pipe, reset_pool, add_to_pool}
pub mod Control
pub mod Dropped

-- BindInstance, Close and ClearResponses of a connection, and Close of the network's connection
pub data Effect : Type 0 where
  bound closed cleared disconnected : ℕ → Effect

-- `ids` reads the field Id of the connections.
pub record LinkManager : Type 0 where
  pub seq : ℕ
  pub ctrl_link : Option ℕ
  pub last_valid_ctrl : Option ℕ
  pub pool : Pool
  pub data_links : List (ℕ × ℕ)
  pub pendings : List ℕ
  pub ids : ℕ → ℕ
  pub effects : List Effect

-- The map dataLinks
abbrev pub delete_link : ℕ → List (ℕ × ℕ) → List (ℕ × ℕ)
delete_link id [] = []
delete_link id ((k, link) ∷ xs) =
    let rest = delete_link id xs in if k == id then rest else (k, link) ∷ rest

abbrev pub store_link : ℕ → ℕ → List (ℕ × ℕ) → List (ℕ × ℕ)
store_link id link xs = (id, link) ∷ delete_link id xs

abbrev pub with_effect : Effect → LinkManager → LinkManager
with_effect e m = record m { effects = m.effects ++ (e ∷ []) }

abbrev pub set_id : (ℕ → ℕ) → ℕ → ℕ → ℕ → ℕ
set_id ids link id other = if other == link then id else ids other

unfoldable pub invalidate_control : ℕ → LinkManager → LinkManager
invalidate_control link m = from m.ctrl_link
  where
    from : Option ℕ → LinkManager
    from none = m
    from (some ctrl) = if link == ctrl then record m { ctrl_link = none } else m

unfoldable pub set_max_active_data_links : ℤ → LinkManager → LinkManager
unfolding set_limit
set_max_active_data_links num m =
    let p = m.pool in record m { pool = record p { links = (set_limit num p.links).1 } }

unfoldable pub remove_data_link : ℕ → LinkManager → LinkManager
remove_data_link link m = record m { data_links = delete_link (m.ids link) m.data_links }

unfoldable pub get_available_for_request : LinkManager → LinkManager
unfolding get_request_pipe
get_available_for_request m = record m { pool = get_request_pipe m.pool }

unfoldable pub flag_available_for_request : ℕ → LinkManager → Bool × LinkManager
flag_available_for_request link m =
    let r = add_to_pool false link m.pool in
    (
      r.0,
      if r.0
          then record m { pool = r.1 }
          else with_effect (disconnected link) (record m { pool = r.1 }),
    )

abbrev pub closed_old : Option ℕ → LinkManager → LinkManager
closed_old none m = m
closed_old (some old) m = with_effect (closed old) m

abbrev cleared_ctrl : Option ℕ → LinkManager → LinkManager
cleared_ctrl none m = m
cleared_ctrl (some ctrl) m = with_effect (cleared ctrl) m

abbrev closed_ctrl : Option ℕ → LinkManager → LinkManager
closed_ctrl none m = m
closed_ctrl (some ctrl) m = record (with_effect (closed ctrl) m) { ctrl_link = none }

module _ (worker_id : ℕ → ℕ) where
  abbrev pub is_worker : Option ℕ → ℕ → Bool
  is_worker none link = false
  is_worker (some ctrl) link = worker_id ctrl == worker_id link

  -- addDataLinkLocked(link, cache)
  unfoldable pub add_data_link_locked : Bool → ℕ → LinkManager → Bool × LinkManager
  add_data_link_locked cache link m =
      if not (is_worker m.ctrl_link link)
      then (false, if cache then record m { pendings = m.pendings ++ (link ∷ []) } else m)
      else let id = (m.seq + 1) % 2 ^ 32 in
        let m' = with_effect (bound link) (record m { seq = id; ids = set_id m.ids link id }) in
        (
          true,
          record m' {
            data_links = store_link id link m'.data_links;
            pool = (add_to_pool true link m'.pool).1;
          },
        )

  unfoldable pub add_data_link : ℕ → LinkManager → Bool × LinkManager
  unfolding add_data_link_locked
  add_data_link link m = add_data_link_locked true link m

  -- The Range of resetLocked, over the entries of the map
  unfoldable pub close_links : ℕ → List (ℕ × ℕ) → LinkManager → LinkManager
  close_links legacy [] m = m
  close_links legacy ((id, link) ∷ xs) m = close_links legacy xs (
      if worker_id link == worker_id legacy
      then record (with_effect (closed link) m) { data_links = delete_link id m.data_links }
      else m)

  unfoldable pub reset_locked : Option ℕ → LinkManager → LinkManager
  unfolding close_links
  reset_locked none m = m
  reset_locked (some legacy) m =
      close_links legacy m.data_links (record m { pool = reset_pool m.pool })

  -- The clean-up of SetControl where the worker changed
  abbrev pub clean_up : ℕ → Option ℕ → LinkManager → LinkManager
  clean_up link none m = m
  clean_up link (some legacy) m =
      if worker_id link == worker_id legacy then m else reset_locked (some legacy) m

  abbrev pub or_closed : ℕ → Bool × LinkManager → LinkManager
  or_closed link r = if r.0 then r.1 else with_effect (closed link) r.1

  -- The loop of SetControl over the pending links
  unfoldable pub add_pendings : List ℕ → LinkManager → LinkManager
  add_pendings [] m = record m { pendings = [] }
  add_pendings (link ∷ links) m =
      add_pendings links
        (or_closed link (add_data_link_locked false link (record m { pendings = links })))

  -- SetControl up to its loop
  unfoldable pub take_control : ℕ → LinkManager → LinkManager
  unfolding reset_locked
  take_control link m =
      let m' = with_effect (bound link) m in
      let cleaned = clean_up link m'.last_valid_ctrl (record m' { ctrl_link = some link }) in
      record (closed_old m.ctrl_link cleaned) { last_valid_ctrl = some link }

  unfoldable pub set_control : ℕ → LinkManager → LinkManager
  unfolding take_control add_pendings
  set_control link m = let m' = take_control link m in add_pendings m'.pendings m'

  unfoldable pub reset : LinkManager → LinkManager
  unfolding reset_locked
  reset m = reset_locked m.last_valid_ctrl (cleared_ctrl m.ctrl_link m)

  unfoldable pub close : LinkManager → LinkManager
  unfolding reset_locked
  close m = record (reset_locked m.last_valid_ctrl (closed_ctrl m.ctrl_link m)) {
    last_valid_ctrl = none;
  }
