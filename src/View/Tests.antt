-- ===== src/View/Tests.antt =====
-- A view of two sequencers, two engines and three storage nodes, and what its theorems say of it.
use boki.Base.{ℕ, ◌+◌, List, [], ◌∷◌, some, true, ◌≡◌, refl, Result, ok, lookup}
use boki.Proto.{ViewProto}
use boki.View.Plan.{links_of, link, read_row, read_plan}
use boki.View.{
  View, Engine, Sequencer, Storage, view_of_proto, log_space_identifier, is_source_engine_node,
  has_index_for,
}
use boki.View.Converse.{storage_agrees, index_agrees}

abbrev small_view : ViewProto
small_view = record {
  view_id = 1;
  metalog_replicas = 2;
  userlog_replicas = 2;
  index_replicas = 1;
  num_phylogs = 1;
  sequencer_nodes = 1 ∷ 2 ∷ [];
  log_space_hash_seed = 7;
  log_space_hash_tokens = 1 ∷ 1 ∷ [];
  engine_nodes = 3 ∷ 4 ∷ [];
  index_plan = 4 ∷ 3 ∷ [];
  storage_nodes = 5 ∷ 6 ∷ 7 ∷ [];
  storage_plan = 5 ∷ 6 ∷ 6 ∷ 7 ∷ [];
}

abbrev engine_four : Engine
engine_four = record {
  node_id = 4;
  storage_nodes = 6 ∷ 7 ∷ [];
  indexed_sequencer_node_set = 1 ∷ [];
  next_storage_node = 0;
}

abbrev storage_six : Storage
storage_six = record { node_id = 6; source_engine_nodes = 3 ∷ 4 ∷ [] }

abbrev sequencer_one : Sequencer
sequencer_one = record {
  node_id = 1;
  replica_sequencer_nodes = 2 ∷ [];
  index_engine_nodes = 4 ∷ [];
  next_index_engine_node = 0;
}

abbrev pub made : View
made = record {
  id = 1;
  metalog_replicas = 2;
  userlog_replicas = 2;
  index_replicas = 1;
  num_phylogs = 1;
  engine_node_ids = 3 ∷ 4 ∷ [];
  sequencer_node_ids = 1 ∷ 2 ∷ [];
  storage_node_ids = 5 ∷ 6 ∷ 7 ∷ [];
  active_phylogs = 1 ∷ [];
  engine_nodes =
      (
        3,
        record engine_four {
          node_id = 3;
          storage_nodes = 5 ∷ 6 ∷ [];
          indexed_sequencer_node_set = 2 ∷ [];
        },
      )
      ∷ (4, engine_four)
      ∷ [];
  sequencer_nodes =
      (1, sequencer_one)
      ∷ (
        2,
        record sequencer_one {
          node_id = 2;
          replica_sequencer_nodes = 1 ∷ [];
          index_engine_nodes = 3 ∷ [];
        },
      )
      ∷ [];
  storage_nodes =
      (5, record { node_id = 5; source_engine_nodes = 3 ∷ [] })
      ∷ (6, storage_six)
      ∷ (7, record { node_id = 7; source_engine_nodes = 4 ∷ [] })
      ∷ [];
  log_space_hash_seed = 7;
  log_space_hash_tokens = 1 ∷ 1 ∷ [];
}

made_lem : view_of_proto small_view ≡ ok made
unfolding view_of_proto read_plan read_row link links_of lookup boki.Base.insert boki.Base.contains
made_lem = refl

storage_agrees_example : is_source_engine_node storage_six 4 ≡ true
unfolding lookup
storage_agrees_example =
    storage_agrees small_view made_lem 4 6 {engine = engine_four} {storage = storage_six} refl refl

index_agrees_example : has_index_for engine_four 1 ≡ true
unfolding lookup
index_agrees_example =
    index_agrees small_view made_lem 4 1 {engine = engine_four} {sequencer = sequencer_one} refl
      refl

-- Any hash maps a user log space to the one active sequencer.
maps_to_active : log_space_identifier (λ x seed. x + seed) made 9 ≡ ok 0x10001
unfolding log_space_identifier boki.Bits.join_two16
maps_to_active = refl
