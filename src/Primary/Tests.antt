-- ===== src/Primary/Tests.antt =====
-- A primary of two engines with one storage node and one backup.
use boki.Base.{
  ℕ, ◌*◌, ◌≤◌, ◌<◌, [], ◌∷◌, Option, none, some, ◌≡◌, refl, ok, lookup, insert, arith, contains,
  elem,
}
use boki.Bits.{join_two16, join_two32, low_half64}
use boki.Proto.{MetaLogProto, new_logs, no_trim}
use boki.View.{View, Sequencer, Engine, is_replica_sequencer_node}
use boki.LogSpace.{
  LogSpaceBase, full_mode, normal, log_space_base, provide_meta_log, advance, can_apply,
  apply_meta_log, apply_shards, record_applied,
}
use boki.Primary.{
  MetaLogPrimary, update, meta_log_primary, update_storage_progress, update_shards, update_shard,
  shard_replicated_position, min_progress, next_position, cut_shards, mark_next_cut,
  update_replica_progress, update_replicated_position, sort,
}
use boki.Primary.Quorum.{HasQuorum, count_ge, replica_report}
use boki.Primary.Majority.{replicated_by_majority}
use boki.Primary.Cut.{cut_continues, Continued}
use boki.Primary.Reach.{Reach, here, next, stores, replicates, cuts, ordered_is_stored}

abbrev leader : Sequencer
leader = record {
  node_id = 1;
  replica_sequencer_nodes = 2 ∷ [];
  index_engine_nodes = 3 ∷ [];
  next_index_engine_node = 0;
}

abbrev engine_three : Engine
engine_three = record {
  node_id = 3;
  storage_nodes = 5 ∷ [];
  indexed_sequencer_node_set = 1 ∷ [];
  next_storage_node = 0;
}

abbrev view : View
view = record {
  id = 1;
  metalog_replicas = 2;
  userlog_replicas = 1;
  index_replicas = 1;
  num_phylogs = 1;
  engine_node_ids = 3 ∷ 4 ∷ [];
  sequencer_node_ids = 1 ∷ 2 ∷ [];
  storage_node_ids = 5 ∷ [];
  active_phylogs = 1 ∷ [];
  engine_nodes = (3, engine_three) ∷ (4, record engine_three { node_id = 4 }) ∷ [];
  sequencer_nodes = (1, leader) ∷ [];
  storage_nodes = (5, record { node_id = 5; source_engine_nodes = 3 ∷ 4 ∷ [] }) ∷ [];
  log_space_hash_seed = 0;
  log_space_hash_tokens = 1 ∷ [];
}

abbrev new_base : LogSpaceBase
new_base = record {
  mode = full_mode;
  state = normal;
  view = view;
  sequencer_node = leader;
  metalog_position = 0;
  interested_shards = [];
  shard_progresses = 0 ∷ 0 ∷ [];
  seqnum_position = 0;
  applied_metalogs = [];
  pending_metalogs = [];
}

abbrev no_progress : ℕ → ℕ → Option ℕ
no_progress _ _ = none

abbrev new_primary : MetaLogPrimary
new_primary = record {
  base = new_base;
  dirty_shards = [];
  last_cut = (3, 0) ∷ (4, 0) ∷ [];
  storage_progresses = update 4 5 0 (update 3 5 0 no_progress);
  metalog_progresses = (2, 0) ∷ [];
  replicated_metalog_position = 0;
}

new_primary_lem : meta_log_primary view 1 ≡ ok new_primary
unfolding meta_log_primary log_space_base lookup insert
new_primary_lem = refl

-- The storage node has two entries of engine 3 and none of engine 4.
abbrev stored : MetaLogPrimary
stored = record new_primary {
  dirty_shards = 3 ∷ [];
  storage_progresses = update 4 5 0 (update 3 5 2 new_primary.storage_progresses);
}

stored_lem : update_storage_progress 5 (2 ∷ 0 ∷ []) new_primary ≡ ok stored
unfolding update_storage_progress update_shards update_shard shard_replicated_position min_progress
    lookup
stored_lem = refl

abbrev first_cut : MetaLogProto
first_cut = record {
  logspace_id = 0x10001;
  metalog_seqnum = 0;
  type = new_logs;
  new_logs_proto = record {
    start_seqnum = 0;
    shard_starts = 0 ∷ 0 ∷ [];
    shard_deltas = 2 ∷ 0 ∷ [];
  };
  trim_proto = no_trim;
}

abbrev cut_once : MetaLogPrimary
cut_once = record stored {
  base = record new_base {
    metalog_position = 1;
    shard_progresses = 2 ∷ 0 ∷ [];
    seqnum_position = 2;
    applied_metalogs = first_cut ∷ [];
  };
  dirty_shards = [];
  last_cut = (3, 2) ∷ (4, 0) ∷ [];
}

cut_once_lem : mark_next_cut stored ≡ ok (some first_cut, cut_once)
unfolding mark_next_cut cut_shards next_position shard_replicated_position min_progress lookup
    insert provide_meta_log advance can_apply apply_meta_log apply_shards record_applied join_two16
    join_two32 low_half64
cut_once_lem = refl

cut_continues_example : Continued stored first_cut cut_once
unfolding lookup
cut_continues_example =
    cut_continues stored (refl, (refl, tt)) (omega arith, (omega arith, tt)) refl refl (omega arith)
      (omega arith) cut_once_lem

-- The backup has the metalog of the cut.
abbrev acknowledged : MetaLogPrimary
acknowledged = record cut_once { metalog_progresses = (2, 1) ∷ []; replicated_metalog_position = 1 }

calls : Reach new_primary cut_once
calls = next (next here (stores 5 (2 ∷ 0 ∷ []) stored_lem)) (cuts (some first_cut) cut_once_lem)

ordered_is_stored_example : (q : ℕ) × (cut_once.storage_progresses 3 5 ≡ some q) × (2 ≤ q)
unfolding lookup
ordered_is_stored_example =
    ordered_is_stored view 1 {p = new_primary} {q = cut_once} 3 5 2 engine_three new_primary_lem
      calls refl refl refl

cut_once-HasQuorum : HasQuorum cut_once
unfolding contains
cut_once-HasQuorum = record {
  known = λ id m. ground arith;
  sorted = omega arith;
  bounded = omega arith;
  reached = omega arith;
  below = omega arith;
}

replica_report_example :
    (p' : MetaLogPrimary) × (update_replica_progress 2 1 cut_once ≡ ok p')
    × HasQuorum p'
    × (0 ≤ p'.replicated_metalog_position)
unfolding is_replica_sequencer_node
replica_report_example = replica_report 2 1 cut_once cut_once-HasQuorum refl (omega arith)

one_more : update_replica_progress 2 1 cut_once ≡ ok acknowledged
unfolding update_replica_progress is_replica_sequencer_node update_replicated_position sort lookup
    insert
one_more = refl

replicated_by_majority_example :
    ((r : ℕ) → contains r acknowledged.metalog_progresses ≡ elem r (2 ∷ []))
    × (2 < 2 * count_ge 1 (1 ∷ 1 ∷ []))
replicated_by_majority_example =
    replicated_by_majority view 1 {p = new_primary} {q = acknowledged} new_primary_lem
      (next calls (replicates 2 1 one_more))
