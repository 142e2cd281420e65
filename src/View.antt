-- ===== src/View.antt =====
-- src/log/view.h and src/log/view.cpp: a view, which says for its lifetime which nodes take part and
-- which node stores, indexes and replicates what. The pointers between a view and its nodes are the
-- nodes' values, and the back pointer to the view is left out. `DCHECK`s are off, as in a release
-- build; what they ask for is a hypothesis of the theorems that need it.
pub mod Plan
pub mod Plans
pub mod Converse
pub mod Tests
use boki.Base.{
  ℕ, zero, suc, ◌+◌, ◌-◌, ◌*◌, ◌%◌, List, [], ◌∷◌, ◌++◌, map, Option, none, some, Bool, true, false,
  length, get_elem?, elem, ltb, if◌then◌else◌, Map, lookup, contains, insert, Result, ok, panic,
  ◌>>=◌, expect,
}
use boki.Bits.{u16, u64, join_two16}
use boki.Proto.{ViewProto}
use Plan.{Links, no_links, links_of, read_plan}

-- `View::Engine`
pub record Engine : Type 0 where
  pub node_id : ℕ
  pub storage_nodes : List ℕ
  pub indexed_sequencer_node_set : List ℕ
  pub next_storage_node : ℕ

-- `View::Sequencer`
pub record Sequencer : Type 0 where
  pub node_id : ℕ
  pub replica_sequencer_nodes : List ℕ
  pub index_engine_nodes : List ℕ
  pub next_index_engine_node : ℕ

-- `View::Storage`
pub record Storage : Type 0 where
  pub node_id : ℕ
  pub source_engine_nodes : List ℕ

pub record View : Type 0 where
  pub id : ℕ
  pub metalog_replicas : ℕ
  pub userlog_replicas : ℕ
  pub index_replicas : ℕ
  pub num_phylogs : ℕ
  pub engine_node_ids : List ℕ
  pub sequencer_node_ids : List ℕ
  pub storage_node_ids : List ℕ
  pub active_phylogs : List ℕ
  pub engine_nodes : Map Engine
  pub sequencer_nodes : Map Sequencer
  pub storage_nodes : Map Storage
  pub log_space_hash_seed : ℕ
  pub log_space_hash_tokens : List ℕ

-- The first `n` of the sequencers run an active physical log.
active_of : ℕ → List ℕ → List ℕ
active_of zero ids = []
active_of (suc n) [] = []
active_of (suc n) (id ∷ ids) = id ∷ active_of n ids

engine_of : Links → Links → ℕ → Engine
engine_of storage index node_id = record {
  node_id = node_id;
  storage_nodes = links_of node_id storage.forward;
  indexed_sequencer_node_set = links_of node_id index.backward;
  next_storage_node = 0;
}

-- `sequencer_node_ids_[(i + j) % num_sequencer_nodes]` for the `n` values of `j` from `j` on.
replicas_of : List ℕ → ℕ → ℕ → ℕ → Result (List ℕ)
replicas_of ids i j zero = ok []
replicas_of ids i j (suc n) = do
  id ← expect (get_elem? ids ((i + j) % length ids))
  rest ← replicas_of ids i (j + 1) n
  ok (id ∷ rest)

-- Where an id stands twice, the later node is the one that the map keeps.
sequencers_of : List ℕ → ℕ → Links → ℕ → List ℕ → Result (Map Sequencer)
sequencers_of all metalog_replicas index i [] = ok []
sequencers_of all metalog_replicas index i (node_id ∷ ids) = do
  replicas ← replicas_of all i 1 (metalog_replicas - 1)
  rest ← sequencers_of all metalog_replicas index (i + 1) ids
  let node : Sequencer = record {
    node_id = node_id;
    replica_sequencer_nodes = replicas;
    index_engine_nodes = links_of node_id index.forward;
    next_index_engine_node = 0;
  }
  ok (if contains node_id rest then rest else insert node_id node rest)

engine_map : Links → Links → List ℕ → Map Engine
engine_map storage index [] = []
engine_map storage index (id ∷ ids) =
    insert id (engine_of storage index id) (engine_map storage index ids)

storage_map : Links → List ℕ → Map Storage
storage_map storage [] = []
storage_map storage (id ∷ ids) =
    insert id (record { node_id = id; source_engine_nodes = links_of id storage.backward })
      (storage_map storage ids)

abbrev assemble : ViewProto → Links → Links → Map Sequencer → View
assemble p index storage sequencers = record {
  id = u16 p.view_id;
  metalog_replicas = p.metalog_replicas;
  userlog_replicas = p.userlog_replicas;
  index_replicas = p.index_replicas;
  num_phylogs = p.num_phylogs;
  engine_node_ids = map u16 p.engine_nodes;
  sequencer_node_ids = map u16 p.sequencer_nodes;
  storage_node_ids = map u16 p.storage_nodes;
  active_phylogs = active_of p.num_phylogs (map u16 p.sequencer_nodes);
  engine_nodes = engine_map storage index (map u16 p.engine_nodes);
  sequencer_nodes = sequencers;
  storage_nodes = storage_map storage (map u16 p.storage_nodes);
  log_space_hash_seed = p.log_space_hash_seed;
  log_space_hash_tokens = map u16 p.log_space_hash_tokens;
}

-- The constructor. A plan that is too short is read out of bounds.
unfoldable pub view_of_proto : ViewProto → Result View
unfolding active_of engine_of replicas_of sequencers_of engine_map storage_map
view_of_proto p = do
  let sequencer_ids = map u16 p.sequencer_nodes
  index ← read_plan p.index_plan p.index_replicas 0 sequencer_ids no_links
  storage ← read_plan p.storage_plan p.userlog_replicas 0 (map u16 p.engine_nodes) no_links
  sequencers ← sequencers_of sequencer_ids p.metalog_replicas index 0 sequencer_ids
  ok (assemble p index storage sequencers)

-- `LogSpaceIdentifier`, with `hash::xxHash64` of a value and a seed as a parameter.
unfoldable pub log_space_identifier : (ℕ → ℕ → ℕ) → View → ℕ → Result ℕ
log_space_identifier hash v user_logspace = do
  node_id ← expect (
      get_elem? v.log_space_hash_tokens
        (hash user_logspace v.log_space_hash_seed % length v.log_space_hash_tokens))
  ok (join_two16 v.id node_id)

-- Round robin over the storage nodes; a `%` by zero panics as the read out of bounds does here.
unfoldable pub pick_storage_node : Engine → Result (ℕ × Engine)
pick_storage_node e = do
  node ← expect (get_elem? e.storage_nodes (e.next_storage_node % length e.storage_nodes))
  ok (node, record e { next_storage_node = u64 (e.next_storage_node + 1) })

unfoldable pub pick_index_engine_node : Sequencer → Result (ℕ × Sequencer)
pick_index_engine_node s = do
  node ←
      expect
        (get_elem? s.index_engine_nodes (s.next_index_engine_node % length s.index_engine_nodes))
  ok (node, record s { next_index_engine_node = u64 (s.next_index_engine_node + 1) })

unfoldable pub is_active_phylog : View → ℕ → Bool
is_active_phylog v sequencer_node_id = elem sequencer_node_id v.active_phylogs

unfoldable pub has_index_for : Engine → ℕ → Bool
has_index_for e sequencer_node_id = elem sequencer_node_id e.indexed_sequencer_node_set

unfoldable pub is_replica_sequencer_node : Sequencer → ℕ → Bool
is_replica_sequencer_node s node_id = elem node_id s.replica_sequencer_nodes

unfoldable pub is_source_engine_node : Storage → ℕ → Bool
is_source_engine_node s node_id = elem node_id s.source_engine_nodes
