-- ===== src/Sequencer.antt =====
-- src/log/sequencer.cpp, with the sending of src/log/sequencer_base.cpp: a sequencer node, which
-- holds the primary copy of its own metalog and backups of others. A lock makes each call one step.
-- The pointer `current_primary_` is the identifier of a log space in the collection; what a call sends
-- or schedules is a list of outputs. Whether a message can be sent is left out; `DCHECK`s are off.
-- A parse failure, a fatal log line, `NOT_IMPLEMENTED` and `UNREACHABLE` panic.
pub mod Words
pub mod Views
pub mod Handlers
pub mod Propagation
pub mod Tail
pub mod Safely
pub mod Frozen
mod Tests
use boki.Base.{
  ℕ, zero, suc, ◌+◌, ◌-◌, ◌*◌, List, [], ◌∷◌, ◌++◌, Option, none, some, Bool, true, false, ◌||◌,
  not, min, length, get_elem?, elem, ltb, ◌==◌, if◌then◌else◌, Map, lookup, contains, insert, map,
  Result, ok, panic, ◌>>=◌, expect,
}
use boki.Bits.{u32, join_two16}
use boki.Proto.{
  MetaLogProto, MetaLogType, invalid, new_logs, trim, MetaLogsProto, FrozenSequencerProto,
}
use boki.View.{View, is_active_phylog, is_replica_sequencer_node, has_index_for}
use boki.LogSpace.{
  LogSpaceBase, identifier, get_meta_log, provide_all, no_hooks, freeze, finalize, is_finalized,
  is_frozen,
}
use boki.Primary.{
  MetaLogPrimary, meta_log_primary, meta_log_backup, update_replica_progress,
  update_storage_progress, all_metalog_replicated, mark_next_cut,
}
use boki.Collection.{
  LogSpaceCollection, empty_collection, get_log_space, get_log_space_checked, install_log_space,
  active_log_spaces_of,
}
use boki.FutureRequests.{FutureRequests, on_new_view, on_hold_request}
use boki.Watcher.{FinalizedView, final_metalog_position, tail_metalogs}
use boki.Message.{
  SharedLogMessage, SharedLogOpType, invalid_op, append, read_next, read_prev, trim_op, set_auxdata,
  read_next_b, read_at, replicate, index_data, shard_prog, metalogs, meta_prog, response,
  get_op_type, message_view_id, message_sequencer_id, new_meta_logs_message,
  new_meta_log_progress_message,
}
use Words.{words_of_bytes}

-- A message with its payload, `SharedLogRequest`.
pub record SharedLogRequest : Type 0 where
  pub message : SharedLogMessage
  pub payload : List ℕ

pub data ConnType : Type 0 where
  sequencer_to_sequencer sequencer_to_engine sequencer_to_storage : ConnType

pub data Output : Type 0 where
  send : ConnType → ℕ → SharedLogRequest → Output
  publish : FrozenSequencerProto → Output
  schedule : List SharedLogRequest → Output

pub record Sequencer : Type 0 where
  pub current_view : Option View
  pub current_primary : Option ℕ
  pub primary_collection : LogSpaceCollection MetaLogPrimary
  pub backup_collection : LogSpaceCollection LogSpaceBase
  pub future_requests : FutureRequests SharedLogRequest

abbrev pub sequencer : Sequencer
sequencer = record {
  current_view = none;
  current_primary = none;
  primary_collection = empty_collection;
  backup_collection = empty_collection;
  future_requests = record { next_view_id = 0; onhold_requests = [] };
}

-- A log space is changed in place.
abbrev pub put : {T : Type 0} → ℕ → T → LogSpaceCollection T → LogSpaceCollection T
put id log_space c = record c { log_spaces = insert id log_space c.log_spaces }

-- Is there no view yet, or a view before that of the message?
unfoldable pub is_future : Option View → ℕ → Bool
is_future none view_id = true
is_future (some view) view_id = ltb view.id view_id

unfoldable pub is_past : Option View → ℕ → Bool
is_past none view_id = false
is_past (some view) view_id = ltb view_id view.id

-- The test of `RETURN_IF_LOGSPACE_INACTIVE`.
unfoldable pub is_inactive : LogSpaceBase → Bool
is_inactive b = is_frozen b || is_finalized b

-- The `n` metalogs from `pos` on, all of which must be there.
unfoldable pub read_meta_logs : LogSpaceBase → ℕ → ℕ → Result (List MetaLogProto)
read_meta_logs b pos zero = ok []
read_meta_logs b pos (suc n) = do
  found ← get_meta_log b pos
  m ← expect found
  ms ← read_meta_logs b (pos + 1) n
  ok (m ∷ ms)

-- `FreezeLogSpace` past the freezing, with the value of `FLAGS_slog_num_tail_metalog_entries`.
unfoldable pub tail_of : ℕ → LogSpaceBase → Result MetaLogsProto
tail_of num_entries b = do
  let start_pos = b.metalog_position - min num_entries b.metalog_position
  ms ← read_meta_logs b start_pos (b.metalog_position - start_pos)
  ok (record { logspace_id = identifier b; metalogs = ms })

all_from : ℕ → List MetaLogProto → Bool
all_from logspace_id [] = true
all_from logspace_id (m ∷ ms) =
    let rest = all_from logspace_id ms in if m.logspace_id == logspace_id then rest else false

-- The checks of `log_utils::MetaLogsFromPayload`.
unfoldable pub check_meta_logs : Option MetaLogsProto → Result MetaLogsProto
unfolding all_from
check_meta_logs none = panic
check_meta_logs (some p) =
    if length p.metalogs == 0
    then panic
    else if all_from p.logspace_id p.metalogs
    then ok p
    else panic
