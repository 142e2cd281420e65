-- ===== src/Controller.antt =====
-- src/log/controller.h and src/log/controller.cpp: the controller, which creates the views. What it
-- publishes at ZooKeeper is a list of requests that wait for their answer. Commands and messages
-- come parsed. The shuffles, the hash seed and the number of tokens are arguments. A failed request
-- ends the process.
pub mod Seal
pub mod Invariant
pub mod Steps
pub mod Reach
pub mod Counting
pub mod Tail
pub mod Quorum
pub mod Majority
mod Tests
use boki.Base.{
  ℕ, zero, suc, ◌+◌, ◌*◌, ◌%◌, List, [], ◌∷◌, ◌++◌, map, Option, none, some, Bool, true, false,
  ◌||◌, ltb, ◌==◌, if◌then◌else◌, length, get_elem?, last?, Map, insert, erase, Result, ok, panic,
  ◌>>=◌, expect,
}
use boki.Bits.{u16, u32}
use boki.Proto.{ViewProto, FrozenSequencerProto, FinalizedViewProto}
use boki.View.{View, view_of_proto}
use Seal.{OngoingSeal, new_seal, add_response, check_all_sealed}

-- `Controller::State`
pub data State : Type 0 where
  created normal reconfiguring frozen : State

pub record Configuration : Type 0 where
  pub log_space_hash_seed : ℕ
  pub log_space_hash_tokens : List ℕ
  pub num_phylogs : ℕ
  pub sequencer_nodes : List ℕ
  pub engine_nodes : List ℕ
  pub storage_nodes : List ℕ

-- The nodes `view/new`, `view/freeze` and `view/finalize` that are to be created.
pub data Request : Type 0 where
  new : ViewProto → Request
  freeze : ℕ → Request
  finalize : FinalizedViewProto → Request

pub record Controller : Type 0 where
  pub metalog_replicas : ℕ
  pub userlog_replicas : ℕ
  pub index_replicas : ℕ
  pub num_phylogs : ℕ
  pub state : State
  pub log_space_hash_seed : ℕ
  pub log_space_hash_tokens : List ℕ
  pub sequencer_nodes : Map (Unit {0})
  pub engine_nodes : Map (Unit {0})
  pub storage_nodes : Map (Unit {0})
  pub views : List View
  pub pending_reconfig : Option Configuration
  pub ongoing_seal : Option OngoingSeal
  pub requests : List Request

-- The constructor and the setters, which the program calls before it starts the controller.
abbrev pub controller : ℕ → ℕ → ℕ → ℕ → Controller
controller metalog_replicas userlog_replicas index_replicas num_phylogs = record {
  metalog_replicas = metalog_replicas;
  userlog_replicas = userlog_replicas;
  index_replicas = index_replicas;
  num_phylogs = num_phylogs;
  state = created;
  log_space_hash_seed = 0;
  log_space_hash_tokens = [];
  sequencer_nodes = [];
  engine_nodes = [];
  storage_nodes = [];
  views = [];
  pending_reconfig = none;
  ongoing_seal = none;
  requests = [];
}

abbrev pub next_view_id : Controller → ℕ
next_view_id c = u16 (length c.views)

-- `InstallNewView`
unfoldable pub install_new_view : ViewProto → Controller → Result Controller
install_new_view p c = do
  view ← view_of_proto p
  ok (record c {
    views = c.views ++ view ∷ [];
    requests = c.requests ++ new p ∷ [];
    state = normal;
  })

-- `nodes.at(i % k)` for the `n` values of `i` from `i` on.
unfoldable pub plan_from : List ℕ → ℕ → ℕ → ℕ → Result (List ℕ)
plan_from nodes k i zero = ok []
plan_from nodes k i (suc n) = do
  node ← if k == 0 then panic else expect (get_elem? nodes (i % k))
  rest ← plan_from nodes k (i + 1) n
  ok (node ∷ rest)

-- `FreezeView`
unfoldable pub freeze_view : View → Controller → Controller
freeze_view view c = record c {
  ongoing_seal = some (new_seal view);
  requests = c.requests ++ freeze view.id ∷ [];
  state = reconfiguring;
}

-- The last part of `ReconfigView`: a new view with its plans.
unfoldable pub create_view : Configuration → Controller → Result Controller
create_view g c = do
  storage_plan ←
      plan_from g.storage_nodes (length g.storage_nodes) 0
        (length g.engine_nodes * c.userlog_replicas)
  index_plan ←
      plan_from g.engine_nodes (length g.engine_nodes) 0
        (length g.sequencer_nodes * c.index_replicas)
  install_new_view
      (record {
        view_id = next_view_id c;
        metalog_replicas = u32 c.metalog_replicas;
        userlog_replicas = u32 c.userlog_replicas;
        index_replicas = u32 c.index_replicas;
        num_phylogs = u32 g.num_phylogs;
        sequencer_nodes = g.sequencer_nodes;
        log_space_hash_seed = g.log_space_hash_seed;
        log_space_hash_tokens = g.log_space_hash_tokens;
        engine_nodes = g.engine_nodes;
        index_plan = index_plan;
        storage_nodes = g.storage_nodes;
        storage_plan = storage_plan;
      })
      c

-- Are there nodes enough?
unfoldable pub has_nodes : Controller → Configuration → Bool
has_nodes c g =
    if ltb (length g.sequencer_nodes) c.metalog_replicas
    then false
    else if ltb (length g.sequencer_nodes) c.num_phylogs
    then false
    else if ltb (length g.engine_nodes) c.index_replicas
    then false
    else if ltb (length g.storage_nodes) c.userlog_replicas
    then false
    else true

reconfig_in : State → Configuration → Controller → Result Controller
reconfig_in normal g c = do
  view ← expect (last? c.views)
  ok (freeze_view view (record c { pending_reconfig = some g }))
reconfig_in reconfiguring g c = ok c
reconfig_in created g c = create_view g c
reconfig_in frozen g c = create_view g c

-- `ReconfigView`
unfoldable pub reconfig_view : Configuration → Controller → Result Controller
unfolding reconfig_in
reconfig_view g c = if has_nodes c g then reconfig_in c.state g c else ok c

-- `server::NodeWatcher::NodeType`
pub data NodeType : Type 0 where
  sequencer_node engine_node storage_node : NodeType

-- `OnNodeOnline`
unfoldable pub on_node_online : NodeType → ℕ → Controller → Controller
on_node_online sequencer_node id c = record c { sequencer_nodes = insert id tt c.sequencer_nodes }
on_node_online engine_node id c = record c { engine_nodes = insert id tt c.engine_nodes }
on_node_online storage_node id c = record c { storage_nodes = insert id tt c.storage_nodes }

-- `OnNodeOffline`
unfoldable pub on_node_offline : NodeType → ℕ → Controller → Controller
on_node_offline sequencer_node id c = record c { sequencer_nodes = erase id c.sequencer_nodes }
on_node_offline engine_node id c = record c { engine_nodes = erase id c.engine_nodes }
on_node_offline storage_node id c = record c { storage_nodes = erase id c.storage_nodes }

unfoldable pub ids_of : Map (Unit {0}) → List ℕ
ids_of [] = []
ids_of ((id, u) ∷ ids) = id ∷ ids_of ids

is_zero : ℕ → Bool
is_zero n = n == 0

-- The body of `StartCommandHandler` past its first test; the seed comes from the random generator.
unfoldable pub start_created : ℕ → ℕ → (List ℕ → List ℕ) → Controller → Result Controller
unfolding is_zero
start_created seed num_tokens shuffle c =
    if is_zero c.metalog_replicas
      || (is_zero c.num_phylogs || (is_zero c.index_replicas || is_zero c.userlog_replicas))
    then panic
    else (do
      tokens ← plan_from (ids_of c.sequencer_nodes) c.num_phylogs 0 num_tokens
      reconfig_view
          (record {
            log_space_hash_seed = seed;
            log_space_hash_tokens = shuffle tokens;
            num_phylogs = c.num_phylogs;
            sequencer_nodes = ids_of c.sequencer_nodes;
            engine_nodes = ids_of c.engine_nodes;
            storage_nodes = ids_of c.storage_nodes;
          })
          (record c { log_space_hash_seed = seed; log_space_hash_tokens = shuffle tokens }))

started : State → ℕ → ℕ → (List ℕ → List ℕ) → Controller → Result Controller
started created seed num_tokens shuffle c = start_created seed num_tokens shuffle c
started normal seed num_tokens shuffle c = ok c
started reconfiguring seed num_tokens shuffle c = ok c
started frozen seed num_tokens shuffle c = ok c

-- `StartCommandHandler`
unfoldable pub start_command_handler : ℕ → ℕ → (List ℕ → List ℕ) → Controller → Result Controller
unfolding started
start_command_handler seed num_tokens shuffle c = started c.state seed num_tokens shuffle c

-- The four shuffles of `ReconfigCommandHandler`.
pub record Shuffles : Type 0 where
  pub sequencers : List ℕ → List ℕ
  pub engines : List ℕ → List ℕ
  pub storages : List ℕ → List ℕ
  pub tokens : List ℕ → List ℕ

-- The sequencers that the command gives, if it gives any; a wrong number of them ends the process.
unfoldable pub chosen_sequencers : Option (List ℕ) → List ℕ → Result (List ℕ)
chosen_sequencers none shuffled = ok shuffled
chosen_sequencers (some ids) shuffled =
    if length ids == length shuffled then ok (map u16 ids) else panic

unfoldable pub reconfig_normal : Shuffles → Option (List ℕ) → Controller → Result Controller
reconfig_normal s given c = do
  view ← expect (last? c.views)
  sequencers ← chosen_sequencers given (s.sequencers view.sequencer_node_ids)
  tokens ← plan_from sequencers view.num_phylogs 0 (length view.log_space_hash_tokens)
  reconfig_view
      (record {
        log_space_hash_seed = view.log_space_hash_seed;
        log_space_hash_tokens = s.tokens tokens;
        num_phylogs = view.num_phylogs;
        sequencer_nodes = sequencers;
        engine_nodes = s.engines view.engine_node_ids;
        storage_nodes = s.storages view.storage_node_ids;
      })
      c

reconfig_command : State → Shuffles → Option (List ℕ) → Controller → Result Controller
reconfig_command normal s given c = reconfig_normal s given c
reconfig_command created s given c = ok c
reconfig_command reconfiguring s given c = ok c
reconfig_command frozen s given c = ok c

-- `ReconfigCommandHandler`
unfoldable pub reconfig_command_handler :
    Shuffles → Option (List ℕ) → Controller → Result Controller
unfolding reconfig_command
reconfig_command_handler s given c = reconfig_command c.state s given c

-- The rest of `OnFreezeZNodeCreated` for a response of the view that is sealed.
unfoldable pub take_response : OngoingSeal → FrozenSequencerProto → Controller → Controller
take_response seal p c =
    let seal' = record seal {
      tail_metalogs = add_response p.sequencer_id p.tail_metalogs seal.tail_metalogs;
    } in
    elim (check_all_sealed seal') [
      | none ↦ record c { ongoing_seal = some seal' }
      | some f ↦ record c { ongoing_seal = none; requests = c.requests ++ finalize f ∷ [] }
    ]

-- `OnFreezeZNodeCreated`
unfoldable pub on_freeze_znode_created : FrozenSequencerProto → Controller → Controller
on_freeze_znode_created p c = elim c.ongoing_seal [
  | none ↦ c
  | some seal ↦ if p.view_id == seal.view.id then take_response seal p c else c
]

-- The callback of the `view/finalize` request.
unfoldable pub on_finalize_published : Controller → Result Controller
on_finalize_published c = do
  configuration ← expect c.pending_reconfig
  reconfig_view configuration (record c { state = frozen; pending_reconfig = none })

-- ZooKeeper answers the oldest request.
unfoldable pub answer : List Request → Controller → Result Controller
answer [] c = ok c
answer (new p ∷ rest) c = ok (record c { requests = rest })
answer (freeze view_id ∷ rest) c = ok (record c { requests = rest })
answer (finalize f ∷ rest) c = on_finalize_published (record c { requests = rest })
