-- ===== src/Sequencer/Frozen.antt =====
-- A frozen log space stands still: no message and no timer changes it, so its position is the one that
-- the controller has been told.
use boki.Base.{
  ℕ, ◌-◌, List, [], ◌∷◌, ◌++◌, Option, none, some, ◌≡◌, ap, subst, Result, ok, ◌>>=◌, expect,
  >>=-eq-ok, ok-injective,
}
use boki.Proto.{MetaLogsProto}
use boki.View.{View}
use boki.LogSpace.{no_hooks, provide_all}
use boki.Primary.{
  update_replica_progress, update_storage_progress, mark_next_cut, all_metalog_replicated,
}
use boki.Collection.{get_log_space_checked}
use boki.FutureRequests.{on_hold_request}
use boki.Message.{
  SharedLogMessage, SharedLogOpType, invalid_op, append, read_next, read_prev, trim_op, set_auxdata,
  read_next_b, read_at, replicate, index_data, shard_prog, metalogs, meta_prog, response,
  message_view_id, get_op_type,
}
use boki.Sequencer.{
  SharedLogRequest, Output, Sequencer, is_future, is_past, is_inactive, check_meta_logs,
  read_meta_logs,
}
use boki.Sequencer.Words.{words_of_bytes}
use boki.Sequencer.Handlers.{
  on_recv_meta_log_progress, on_recv_shard_progress, on_recv_new_meta_logs, message_handler, hold,
  handle, mark_next_cut_if_doable, mark_cut, mark_in, propagate_all, replicate_cut,
}
use boki.Sequencer.Safely.{
  KeepsInactive, Safely, KeepsInactive-trans, returns-Safely, if-Safely, bind-Safely, panic-Safely,
  primary-Safely, backup-Safely,
}

module _ (my_node_id : ℕ) (parse : List ℕ → Option MetaLogsProto)
    (serialize : MetaLogsProto → List ℕ) where
  hold-Safely :
      (r : SharedLogRequest) (s : Sequencer) → Safely s (hold my_node_id parse serialize r s)
  unfolding hold
  hold-Safely r s =
      bind-Safely s (on_hold_request (message_view_id r.message) r s.future_requests) _
        λ requests _ s' out e.
          subst (KeepsInactive s) (ap (λ (x : Sequencer × List Output). x.0) (ok-injective e))
            ((λ i x at h. at), λ i x at h. at)

  on_recv_meta_log_progress-Safely :
      (m : SharedLogMessage) (s : Sequencer)
      → Safely s (on_recv_meta_log_progress my_node_id parse serialize m s)
  unfolding on_recv_meta_log_progress
  on_recv_meta_log_progress-Safely m s =
      if-Safely s (is_future s.current_view (message_view_id m)) _ _ (λ _. panic-Safely s)
        λ _.
          if-Safely s (is_past s.current_view (message_view_id m)) _ _ (λ _. returns-Safely s [])
            λ _. bind-Safely s (expect s.current_view) _ λ view _.
              bind-Safely s (get_log_space_checked m.logspace_id s.primary_collection) _ λ p found.
                if-Safely s (is_inactive p.base) _ _ (λ _. returns-Safely s [])
                  λ active.
                    bind-Safely s (update_replica_progress m.origin_node_id m.metalog_position p) _
                      λ q _.
                        bind-Safely s
                          (read_meta_logs q.base p.replicated_metalog_position
                            (q.replicated_metalog_position - p.replicated_metalog_position))
                          _
                          λ ms _.
                            bind-Safely s (propagate_all my_node_id parse serialize view ms) _
                              λ outputs _. primary-Safely s m.logspace_id p q outputs found active

  on_recv_shard_progress-Safely :
      (r : SharedLogRequest) (s : Sequencer)
      → Safely s (on_recv_shard_progress my_node_id parse serialize r s)
  unfolding on_recv_shard_progress
  on_recv_shard_progress-Safely r s =
      if-Safely s (is_future s.current_view (message_view_id r.message)) _ _ (λ _. hold-Safely r s)
        λ _.
          if-Safely s (is_past s.current_view (message_view_id r.message)) _ _
            (λ _. returns-Safely s [])
            λ _.
              bind-Safely s (get_log_space_checked r.message.logspace_id s.primary_collection) _
                λ p found.
                  if-Safely s (is_inactive p.base) _ _ (λ _. returns-Safely s [])
                    λ active. bind-Safely s (words_of_bytes r.payload) _ λ progress _.
                      bind-Safely s (update_storage_progress r.message.origin_node_id progress p) _
                        λ q _. primary-Safely s r.message.logspace_id p q [] found active

  on_recv_new_meta_logs-Safely :
      (r : SharedLogRequest) (s : Sequencer)
      → Safely s (on_recv_new_meta_logs my_node_id parse serialize r s)
  unfolding on_recv_new_meta_logs
  on_recv_new_meta_logs-Safely r s = bind-Safely s (check_meta_logs (parse r.payload)) _ λ p _.
      if-Safely s (is_future s.current_view (message_view_id r.message)) _ _ (λ _. hold-Safely r s)
        λ _.
          if-Safely s (is_past s.current_view (message_view_id r.message)) _ _
            (λ _. returns-Safely s [])
            λ _.
              bind-Safely s (get_log_space_checked r.message.logspace_id s.backup_collection) _
                λ b found.
                  if-Safely s (is_inactive b) _ _ (λ _. returns-Safely s [])
                    λ active.
                      bind-Safely s (provide_all no_hooks p.metalogs b tt) _
                        λ b' _. backup-Safely s r.message.logspace_id b b'.0 _ found active

  handle-Safely :
      (t : SharedLogOpType) (r : SharedLogRequest) (s : Sequencer)
      → Safely s (handle my_node_id parse serialize t r s)
  unfolding handle
  handle-Safely meta_prog r s = on_recv_meta_log_progress-Safely r.message s
  handle-Safely shard_prog r s = on_recv_shard_progress-Safely r s
  handle-Safely metalogs r s = on_recv_new_meta_logs-Safely r s
  handle-Safely trim_op r s = panic-Safely s
  handle-Safely invalid_op r s = panic-Safely s
  handle-Safely append r s = panic-Safely s
  handle-Safely read_next r s = panic-Safely s
  handle-Safely read_prev r s = panic-Safely s
  handle-Safely set_auxdata r s = panic-Safely s
  handle-Safely read_next_b r s = panic-Safely s
  handle-Safely read_at r s = panic-Safely s
  handle-Safely replicate r s = panic-Safely s
  handle-Safely index_data r s = panic-Safely s
  handle-Safely response r s = panic-Safely s

  mark_in-Safely :
      (primary : Option ℕ) (view : Option View) (s : Sequencer)
      → Safely s (mark_in my_node_id parse serialize primary view s)
  unfolding mark_in mark_cut
  mark_in-Safely none view s = returns-Safely s []
  mark_in-Safely (some id) none s = returns-Safely s []
  mark_in-Safely (some id) (some view) s =
      bind-Safely s (get_log_space_checked id s.primary_collection) _ λ p found.
        if-Safely s (is_inactive p.base) _ _ (λ _. returns-Safely s [])
          λ active.
            if-Safely s (all_metalog_replicated p) _ _
              (λ _. bind-Safely s (mark_next_cut p) _ λ q _.
                bind-Safely s (replicate_cut my_node_id parse serialize view q.0) _
                  λ outputs _. primary-Safely s id p q.1 outputs found active)
              λ _. returns-Safely s []

  -- What comes to a sequencer between two changes of its views.
  pub data Event : Type 0 where
    message : SharedLogRequest → Event
    timer : Event

  unfoldable pub occur : Event → Sequencer → Result (Sequencer × List Output)
  occur (message r) s = message_handler my_node_id parse serialize r s
  occur timer s = mark_next_cut_if_doable my_node_id parse serialize s

  unfoldable pub occur_all : List Event → Sequencer → Result (Sequencer × List Output)
  occur_all [] s = ok (s, [])
  occur_all (e ∷ es) s = do
    (s', now) ← occur e s
    (s'', later) ← occur_all es s'
    ok (s'', now ++ later)

  occur-Safely : (e : Event) (s : Sequencer) → Safely s (occur e s)
  unfolding occur message_handler mark_next_cut_if_doable
  occur-Safely (message r) s =
      bind-Safely s (expect (get_op_type r.message)) _ λ t _. handle-Safely t r s
  occur-Safely timer s = mark_in-Safely s.current_primary s.current_view s

  -- Between two changes of the views, whatever messages and timers a sequencer handles, each of its log
  -- spaces, primary or backup, that is frozen or finalized stays as it is.
  pub frozen_stands_still :
      (es : List Event) (s s' : Sequencer) (out : List Output)
      → occur_all es s ≡ ok (s', out)
      → KeepsInactive s s'
  unfolding occur_all
  frozen_stands_still [] s s' out h = returns-Safely s [] s' out h
  frozen_stands_still (e ∷ es) s s' out h =
      let ((t, now), h₁, h₂) = >>=-eq-ok (occur e s) _ h in
      let ((u, later), h₃, h₄) = >>=-eq-ok (occur_all es t) _ h₂ in
      subst (KeepsInactive s) (ap (λ (x : Sequencer × List Output). x.0) (ok-injective h₄)) (
        KeepsInactive-trans s t u (occur-Safely e s t now h₁) (frozen_stands_still es t u later h₃))
