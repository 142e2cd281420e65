-- ===== src/LogSpace/Tests.antt =====
-- Deliveries out of order and twice to a copy of a two-engine log space, and what the theorems say.
use boki.Base.{
  ℕ, ◌+◌, ◌≤◌, ◌<◌, All, elem, List, [], ◌∷◌, true, false, some, ◌≡◌, ◌⊎◌, refl, ok, arith, map,
  lookup, insert,
}
use boki.Proto.{MetaLogProto, new_logs, no_trim}
use boki.View.{View, Sequencer}
use boki.LogSpace.{
  LogSpaceBase, full_mode, created, no_hooks, log_space_base, provide_all, provide_meta_log,
  advance, can_apply, apply_meta_log, apply_shards, record_applied, get_meta_log, finalize,
  is_finalized,
}
use boki.LogSpace.Agreement.{Issued, IsEntry, copy_is_prefix}
use boki.LogSpace.CatchUp.{IsWellFormed, catches_up}
use boki.LogSpace.Finalized.{finalize_reports, finalize_leaves_state}

abbrev pub one_sequencer : Sequencer
one_sequencer = record {
  node_id = 1;
  replica_sequencer_nodes = 2 ∷ [];
  index_engine_nodes = 3 ∷ [];
  next_index_engine_node = 0;
}

abbrev pub two_engines : View
two_engines = record {
  id = 1;
  metalog_replicas = 2;
  userlog_replicas = 1;
  index_replicas = 1;
  num_phylogs = 1;
  engine_node_ids = 3 ∷ 4 ∷ [];
  sequencer_node_ids = 1 ∷ 2 ∷ [];
  storage_node_ids = 5 ∷ [];
  active_phylogs = 1 ∷ [];
  engine_nodes = [];
  sequencer_nodes = (1, one_sequencer) ∷ [];
  storage_nodes = [];
  log_space_hash_seed = 0;
  log_space_hash_tokens = 1 ∷ [];
}

-- Cut number `i`: each engine has one more entry.
abbrev pub cut : ℕ → MetaLogProto
cut i = record {
  logspace_id = 0x10001;
  metalog_seqnum = i;
  type = new_logs;
  new_logs_proto = record {
    start_seqnum = i + i;
    shard_starts = i ∷ i ∷ [];
    shard_deltas = 1 ∷ 1 ∷ [];
  };
  trim_proto = no_trim;
}

abbrev pub cuts : Issued
cuts = record { at = cut; numbered = λ i. refl }

abbrev pub new_copy : LogSpaceBase
new_copy = record {
  mode = full_mode;
  state = created;
  view = two_engines;
  sequencer_node = one_sequencer;
  metalog_position = 0;
  interested_shards = [];
  shard_progresses = 0 ∷ 0 ∷ [];
  seqnum_position = 0;
  applied_metalogs = [];
  pending_metalogs = [];
}

new_copy_lem : log_space_base full_mode two_engines 1 ≡ ok new_copy
unfolding log_space_base lookup
new_copy_lem = refl

-- Number 1 waits for number 0, and the second delivery of it is late.
abbrev pub shuffled : List MetaLogProto
shuffled = cut 1 ∷ cut 0 ∷ cut 1 ∷ []

abbrev pub after_shuffled : LogSpaceBase
after_shuffled = record new_copy {
  metalog_position = 2;
  shard_progresses = 2 ∷ 2 ∷ [];
  seqnum_position = 4;
  applied_metalogs = cut 0 ∷ cut 1 ∷ [];
}

run_shuffled : provide_all no_hooks shuffled new_copy tt ≡ ok (after_shuffled, tt)
unfolding provide_all provide_meta_log advance can_apply apply_meta_log apply_shards record_applied
    insert
run_shuffled = refl

shuffled_issued : All (λ m. IsEntry cuts m.metalog_seqnum m) shuffled
shuffled_issued = ((refl, omega arith), ((refl, omega arith), ((refl, omega arith), tt)))

copy_is_prefix_example : get_meta_log after_shuffled 1 ≡ ok (some (cut 1))
copy_is_prefix_example =
    copy_is_prefix cuts no_hooks two_engines 1 new_copy shuffled tt new_copy_lem shuffled_issued
      run_shuffled 1

cut-IsWellFormed : (i : ℕ) → IsWellFormed 2 (cut i)
cut-IsWellFormed i = record { known = λ e. cc; starts = omega arith; deltas = omega arith }

shuffled_below_two :
    (i : ℕ) → i < 2 → elem i (map (λ (m : MetaLogProto). m.metalog_seqnum) shuffled) ≡ true
shuffled_below_two i lt = ground arith

catches_up_example :
    (r : LogSpaceBase × Unit {0}) × (provide_all no_hooks shuffled new_copy tt ≡ ok r)
    × (2 ≤ r.0.metalog_position)
catches_up_example =
    catches_up cuts 2 cut-IsWellFormed two_engines 1 2 new_copy shuffled new_copy_lem refl
      shuffled_issued shuffled_below_two

finalized_at_two : finalize no_hooks 2 shuffled new_copy tt ≡ ok (true, after_shuffled, tt)
unfolding finalize provide_all provide_meta_log advance can_apply apply_meta_log apply_shards
    record_applied insert
finalized_at_two = refl

finalize_reports_example :
    ((0 ≤ 2) × (true ≡ true) × (after_shuffled.metalog_position ≡ 2))
    ⊎ ((0 ≤ 2) × (true ≡ false) × (after_shuffled.metalog_position < 2))
    ⊎ ((new_copy.metalog_position ≡ 3) × (true ≡ true) × (after_shuffled ≡ new_copy))
finalize_reports_example =
    finalize_reports no_hooks 2 shuffled new_copy tt (omega arith) finalized_at_two

finalize_leaves_state_example : is_finalized after_shuffled ≡ is_finalized new_copy
finalize_leaves_state_example =
    finalize_leaves_state no_hooks 2 shuffled new_copy tt finalized_at_two
