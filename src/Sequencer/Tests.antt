-- ===== src/Sequencer/Tests.antt =====
-- Sequencer 2, a backup of sequencer 1: it gets two metalogs, is frozen, and stands still.
use boki.Base.{
  ℕ, zero, suc, ◌-◌, ◌<◌, List, [], ◌∷◌, Option, none, some, ◌≡◌, refl, ok, lookup, insert, min,
  arith,
}
use boki.Proto.{MetaLogsProto}
use boki.View.{View, Engine, is_active_phylog, is_replica_sequencer_node}
use boki.LogSpace.{
  LogSpaceBase, normal, frozen, freeze, identifier, log_space_base, no_hooks, provide_all,
  provide_meta_log, advance, can_apply, apply_meta_log, apply_shards, record_applied, get_meta_log,
  is_frozen,
}
use boki.LogSpace.Tests.{one_sequencer, two_engines, cut, cuts, new_copy, shuffled, after_shuffled}
use boki.Primary.{meta_log_backup}
use boki.Controller.Majority.{ReachesBack}
use boki.Collection.{
  get_log_space_checked, active_log_spaces_of, of_view, log_spaces_at, install_log_space,
}
use boki.FutureRequests.{on_new_view}
use boki.Message.{new_meta_logs_message, new_meta_log_progress_message, get_op_type}
use boki.Sequencer.{
  SharedLogRequest, send, publish, sequencer_to_sequencer, Sequencer, sequencer, tail_of,
  read_meta_logs, is_future, is_past, is_inactive, check_meta_logs,
}
use boki.Sequencer.Views.{on_view_created, contains_myself, on_view_frozen, freeze_backups}
use boki.Sequencer.Handlers.{message_handler, on_recv_new_meta_logs, mark_next_cut_if_doable}
use boki.Sequencer.Propagation.{IsReached, new_entries_reach}
use boki.Sequencer.Handlers.{targets, insert_all}
use boki.Sequencer.Tail.{issued_from, frozen_tail_is_last}
use boki.Sequencer.Safely.{KeepsInactive}
use boki.Sequencer.Frozen.{message, timer, occur, occur_all, frozen_stands_still}

abbrev two_sequencers : View
two_sequencers = record two_engines {
  sequencer_nodes =
      (1, one_sequencer)
      ∷ (2, record one_sequencer { node_id = 2; replica_sequencer_nodes = 1 ∷ [] })
      ∷ [];
}

abbrev backup : LogSpaceBase
backup = record new_copy { state = normal; view = two_sequencers }

abbrev filled : LogSpaceBase
filled = record after_shuffled { state = normal; view = two_sequencers }

makes_backup : meta_log_backup two_sequencers 1 ≡ ok backup
unfolding meta_log_backup log_space_base lookup
makes_backup = refl

fills : provide_all no_hooks shuffled backup tt ≡ ok (filled, tt)
unfolding provide_all provide_meta_log advance can_apply apply_meta_log apply_shards record_applied
    insert
fills = refl

frozen_tail_is_last_example :
    (t : MetaLogsProto) × (tail_of 8 (freeze filled) ≡ ok t)
    × (t.logspace_id ≡ identifier filled)
    × (t.metalogs ≡ issued_from cuts (2 - min 8 2) (min 8 2))
    × (0 < 8 → 0 < 2 → ReachesBack 2 t)
frozen_tail_is_last_example =
    frozen_tail_is_last cuts 8 two_sequencers 1 shuffled makes_backup
      ((refl, omega arith), ((refl, omega arith), ((refl, omega arith), tt))) fills

abbrev started : Sequencer
started = record sequencer {
  current_view = some two_sequencers;
  backup_collection = record {
    active_log_spaces = (0x1_0001, tt) ∷ [];
    finalized_log_spaces = [];
    log_spaces = (0x1_0001, backup) ∷ [];
  };
  future_requests = record { next_view_id = 2; onhold_requests = [] };
}

-- Any payload is the one message of metalogs.
abbrev parse : List ℕ → Option MetaLogsProto
parse bytes = some (record { logspace_id = 0x1_0001; metalogs = shuffled })

abbrev serialize : MetaLogsProto → List ℕ
serialize p = []

abbrev new_metalogs : SharedLogRequest
new_metalogs = record { message = new_meta_logs_message 0x1_0001; payload = [] }

-- The view is created when view 1 is the next one.
creates :
    on_view_created 2 two_sequencers
      (record sequencer { future_requests = record { next_view_id = 1; onhold_requests = [] } })
    ≡ ok (started, [])
unfolding on_view_created contains_myself boki.Base.contains is_active_phylog lookup
    is_replica_sequencer_node meta_log_backup log_space_base on_new_view install_log_space insert
    boki.Bits.join_two16
creates = refl

abbrev informed : Sequencer
informed = record started {
  backup_collection = record started.backup_collection { log_spaces = (0x1_0001, filled) ∷ [] };
}

answers :
    message_handler 2 parse serialize new_metalogs started
    ≡ ok (
      informed,
      send sequencer_to_sequencer 1 (record {
        message = record (new_meta_log_progress_message 0x1_0001 2) { origin_node_id = 2 };
        payload = [];
      })
          ∷ [],
    )
unfolding message_handler get_op_type lookup on_recv_new_meta_logs check_meta_logs is_future
    boki.Bits.high_half32 is_past get_log_space_checked is_inactive is_frozen
    boki.LogSpace.is_finalized provide_all provide_meta_log advance insert can_apply apply_meta_log
    apply_shards record_applied boki.Bits.low_half32
answers = refl

abbrev stopped : Sequencer
stopped = record started {
  backup_collection = record started.backup_collection {
    log_spaces = (0x1_0001, record filled { state = frozen }) ∷ [];
  };
}

freezes :
    on_view_frozen 2 1 two_sequencers informed
    ≡ ok (
      stopped,
      publish (record {
        view_id = 1;
        sequencer_id = 2;
        tail_metalogs = (record { logspace_id = 0x1_0001; metalogs = cut 1 ∷ [] }) ∷ [];
      })
          ∷ [],
    )
unfolding on_view_frozen active_log_spaces_of log_spaces_at of_view boki.Bits.join_two16
    boki.Bits.high_half32 lookup freeze_backups tail_of read_meta_logs freeze get_meta_log insert
freezes = refl

occurs : occur_all 2 parse serialize (message new_metalogs ∷ timer ∷ []) stopped ≡ ok (stopped, [])
unfolding occur_all occur message_handler get_op_type lookup on_recv_new_meta_logs check_meta_logs
    is_future boki.Bits.high_half32 is_past get_log_space_checked is_inactive is_frozen
    mark_next_cut_if_doable
occurs = refl

frozen_stands_still_example : KeepsInactive stopped stopped
frozen_stands_still_example =
    frozen_stands_still 2 parse serialize (message new_metalogs ∷ timer ∷ []) stopped stopped []
      occurs

abbrev engine_with : ℕ → ℕ → Engine
engine_with id storage = record {
  node_id = id;
  storage_nodes = storage ∷ [];
  indexed_sequencer_node_set = [];
  next_storage_node = 0;
}

abbrev with_engines : View
with_engines = record two_sequencers {
  engine_nodes = (3, engine_with 3 5) ∷ (4, engine_with 4 6) ∷ [];
}

new_entries_reach_example :
    IsReached 1 with_engines (cut 0) 4 ((3, tt) ∷ (4, tt) ∷ [], (5, tt) ∷ (6, tt) ∷ [])
unfolding targets lookup insert insert_all
new_entries_reach_example =
    new_entries_reach 1 with_engines (cut 0) 0 (3 ∷ 4 ∷ []) [] []
      {r = ((3, tt) ∷ (4, tt) ∷ [], (5, tt) ∷ (6, tt) ∷ [])} 1 4 1 refl refl refl (omega arith)
