-- ===== src/Sequencer/Handlers.antt =====
-- src/log/sequencer.cpp and src/log/sequencer_base.cpp: the handlers of messages, and the timer's
-- `MarkNextCutIfDoable`. The parser and the printer of the protobuf message are parameters. A set of
-- node ids is gone through in the order of the ids, where the source has none.
use boki.Base.{
  ℕ, ◌+◌, ◌-◌, List, [], ◌∷◌, ◌++◌, Option, none, some, true, false, length, get_elem?, ltb,
  if◌then◌else◌, Map, lookup, insert, map, Result, ok, panic, ◌>>=◌, expect,
}
use boki.Proto.{MetaLogProto, MetaLogType, invalid, new_logs, trim, MetaLogsProto}
use boki.View.{View, has_index_for}
use boki.LogSpace.{provide_all, no_hooks}
use boki.Primary.{
  MetaLogPrimary, update_replica_progress, update_storage_progress, all_metalog_replicated,
  mark_next_cut,
}
use boki.Collection.{get_log_space_checked}
use boki.FutureRequests.{on_hold_request}
use boki.Message.{
  SharedLogMessage, SharedLogOpType, invalid_op, append, read_next, read_prev, trim_op, set_auxdata,
  read_next_b, read_at, replicate, index_data, shard_prog, metalogs, meta_prog, response,
  get_op_type, message_view_id, message_sequencer_id, new_meta_logs_message,
  new_meta_log_progress_message,
}
use boki.Sequencer.{
  SharedLogRequest, ConnType, sequencer_to_sequencer, sequencer_to_engine, sequencer_to_storage,
  Output, send, Sequencer, put, is_future, is_past, is_inactive, read_meta_logs, check_meta_logs,
}
use boki.Sequencer.Words.{words_of_bytes}

unfoldable pub insert_all : List ℕ → Map (Unit {0}) → Map (Unit {0})
insert_all [] ids = ids
insert_all (id ∷ more) ids = insert_all more (insert id tt ids)

unfoldable pub ids_in : Map (Unit {0}) → List ℕ
ids_in [] = []
ids_in ((id, u) ∷ ids) = id ∷ ids_in ids

module _ (my_node_id : ℕ) where
  -- The loop of `PropagateMetaLog` over the engines from number `i` on: who gets the metalog.
  unfoldable pub targets :
      View
      → MetaLogProto
      → ℕ
      → List ℕ
      → Map (Unit {0})
      → Map (Unit {0})
      → Result (Map (Unit {0}) × Map (Unit {0}))
  targets view m i [] engines storages = ok (engines, storages)
  targets view m i (id ∷ ids) engines storages = do
    node ← expect (lookup id view.engine_nodes)
    delta ← expect (get_elem? m.new_logs_proto.shard_deltas i)
    elim (ltb 0 delta) [
      | true ↦
          targets view m (i + 1) ids (insert id tt engines) (insert_all node.storage_nodes storages)
      | false ↦
          targets view m (i + 1) ids
            (if has_index_for node my_node_id then insert id tt engines else engines) storages
    ]

  targets_of : MetaLogType → View → MetaLogProto → Result (Map (Unit {0}) × Map (Unit {0}))
  targets_of new_logs view m = targets view m 0 view.engine_node_ids [] []
  targets_of trim view m = panic
  targets_of invalid view m = panic

  send_to : ConnType → SharedLogRequest → ℕ → Output
  send_to t r id = send t id r

  module _ (parse : List ℕ → Option MetaLogsProto) (serialize : MetaLogsProto → List ℕ) where
    -- The message that carries one metalog.
    unfoldable pub meta_log_request : MetaLogProto → SharedLogRequest
    meta_log_request m =
        let bytes = serialize (record { logspace_id = m.logspace_id; metalogs = m ∷ [] }) in
        record {
          message = record (new_meta_logs_message m.logspace_id) {
            origin_node_id = my_node_id;
            payload_size = length bytes;
          };
          payload = bytes;
        }

    -- `ReplicateMetaLog`
    unfoldable pub replicate_meta_log : View → MetaLogProto → Result (List Output)
    unfolding send_to
    replicate_meta_log view m = do
      node ← expect (lookup my_node_id view.sequencer_nodes)
      ok (map (send_to sequencer_to_sequencer (meta_log_request m)) node.replica_sequencer_nodes)

    -- `PropagateMetaLog`
    unfoldable pub propagate_meta_log : View → MetaLogProto → Result (List Output)
    unfolding targets_of send_to
    propagate_meta_log view m = do
      (engines, storages) ← targets_of m.type view m
      ok (
          map (send_to sequencer_to_engine (meta_log_request m)) (ids_in engines)
          ++ map (send_to sequencer_to_storage (meta_log_request m)) (ids_in storages))

    unfoldable pub propagate_all : View → List MetaLogProto → Result (List Output)
    propagate_all view [] = ok []
    propagate_all view (m ∷ ms) = do
      now ← propagate_meta_log view m
      later ← propagate_all view ms
      ok (now ++ later)

    -- `OnRecvMetaLogProgress`
    unfoldable pub on_recv_meta_log_progress :
        SharedLogMessage → Sequencer → Result (Sequencer × List Output)
    on_recv_meta_log_progress m s =
        if is_future s.current_view (message_view_id m)
        then panic
        else if is_past s.current_view (message_view_id m)
        then ok (s, [])
        else (do
          view ← expect s.current_view
          p ← get_log_space_checked m.logspace_id s.primary_collection
          if is_inactive p.base then ok (s, []) else (do
            q ← update_replica_progress m.origin_node_id m.metalog_position p
            ms ←
                read_meta_logs q.base p.replicated_metalog_position
                  (q.replicated_metalog_position - p.replicated_metalog_position)
            outputs ← propagate_all view ms
            ok (
              record s { primary_collection = put m.logspace_id q s.primary_collection },
              outputs,
            )))

    -- `ONHOLD_IF_FROM_FUTURE_VIEW`
    unfoldable pub hold : SharedLogRequest → Sequencer → Result (Sequencer × List Output)
    hold r s = do
      requests ← on_hold_request (message_view_id r.message) r s.future_requests
      ok (record s { future_requests = requests }, [])

    -- `OnRecvShardProgress`
    unfoldable pub on_recv_shard_progress :
        SharedLogRequest → Sequencer → Result (Sequencer × List Output)
    unfolding hold
    on_recv_shard_progress r s =
        if is_future s.current_view (message_view_id r.message)
        then hold r s
        else if is_past s.current_view (message_view_id r.message)
        then ok (s, [])
        else (do
          p ← get_log_space_checked r.message.logspace_id s.primary_collection
          if is_inactive p.base then ok (s, []) else (do
            progress ← words_of_bytes r.payload
            q ← update_storage_progress r.message.origin_node_id progress p
            ok (
              record s { primary_collection = put r.message.logspace_id q s.primary_collection },
              [],
            )))

    -- The answer to new metalogs, if there were any.
    progressed : ℕ → ℕ → SharedLogMessage → List Output
    progressed old new m =
        if ltb old new
        then send sequencer_to_sequencer (message_sequencer_id m) (record {
          message = record (new_meta_log_progress_message m.logspace_id new) {
            origin_node_id = my_node_id;
          };
          payload = [];
        })
          ∷ []
        else []

    -- `OnRecvNewMetaLogs`
    unfoldable pub on_recv_new_meta_logs :
        SharedLogRequest → Sequencer → Result (Sequencer × List Output)
    unfolding hold progressed
    on_recv_new_meta_logs r s = do
      p ← check_meta_logs (parse r.payload)
      if is_future s.current_view (message_view_id r.message)
          then hold r s
          else if is_past s.current_view (message_view_id r.message)
          then ok (s, [])
          else (do
            b ← get_log_space_checked r.message.logspace_id s.backup_collection
            if is_inactive b then ok (s, []) else (do
              (b', _) ← provide_all no_hooks p.metalogs b tt
              ok (
                record s { backup_collection = put r.message.logspace_id b' s.backup_collection },
                progressed b.metalog_position b'.metalog_position r.message,
              )))

    unfoldable pub handle :
        SharedLogOpType → SharedLogRequest → Sequencer → Result (Sequencer × List Output)
    handle meta_prog r s = on_recv_meta_log_progress r.message s
    handle shard_prog r s = on_recv_shard_progress r s
    handle metalogs r s = on_recv_new_meta_logs r s
    handle trim_op r s = panic
    handle invalid_op r s = panic
    handle append r s = panic
    handle read_next r s = panic
    handle read_prev r s = panic
    handle set_auxdata r s = panic
    handle read_next_b r s = panic
    handle read_at r s = panic
    handle replicate r s = panic
    handle index_data r s = panic
    handle response r s = panic

    -- `MessageHandler`; `HandleTrimRequest` is not implemented.
    unfoldable pub message_handler : SharedLogRequest → Sequencer → Result (Sequencer × List Output)
    unfolding handle
    message_handler r s = do t ← expect (get_op_type r.message); handle t r s

    -- `ProcessRequests`
    unfoldable pub process_requests :
        List SharedLogRequest → Sequencer → Result (Sequencer × List Output)
    process_requests [] s = ok (s, [])
    process_requests (r ∷ rs) s = do
      (s', now) ← message_handler r s
      (s'', later) ← process_requests rs s'
      ok (s'', now ++ later)

    unfoldable pub replicate_cut : View → Option MetaLogProto → Result (List Output)
    replicate_cut view none = ok []
    replicate_cut view (some m) = replicate_meta_log view m

    unfoldable pub mark_cut :
        View → ℕ → MetaLogPrimary → Sequencer → Result (Sequencer × List Output)
    unfolding replicate_cut
    mark_cut view id p s =
        if is_inactive p.base
        then ok (s, [])
        else if all_metalog_replicated p
        then (do
          (m, q) ← mark_next_cut p
          outputs ← replicate_cut view m
          ok (record s { primary_collection = put id q s.primary_collection }, outputs))
        else ok (s, [])

    unfoldable pub mark_in : Option ℕ → Option View → Sequencer → Result (Sequencer × List Output)
    unfolding mark_cut
    mark_in none v s = ok (s, [])
    mark_in (some id) none s = ok (s, [])
    mark_in (some id) (some view) s = do
      p ← get_log_space_checked id s.primary_collection
      mark_cut view id p s

    -- `MarkNextCutIfDoable`
    unfoldable pub mark_next_cut_if_doable : Sequencer → Result (Sequencer × List Output)
    unfolding mark_in
    mark_next_cut_if_doable s = mark_in s.current_primary s.current_view s
