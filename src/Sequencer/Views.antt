-- ===== src/Sequencer/Views.antt =====
-- src/log/sequencer.cpp: what a sequencer does when a view is created, frozen and finalized.
use boki.Base.{
  ℕ, List, [], ◌∷◌, ◌++◌, Option, none, some, Bool, not, if◌then◌else◌, lookup, contains, Result,
  ok, panic, ◌>>=◌, expect,
}
use boki.Bits.{join_two16}
use boki.Proto.{MetaLogsProto}
use boki.View.{View, is_active_phylog, is_replica_sequencer_node}
use boki.LogSpace.{LogSpaceBase, identifier, no_hooks, freeze, finalize}
use boki.Primary.{MetaLogPrimary, meta_log_primary, meta_log_backup}
use boki.Collection.{
  LogSpaceCollection, get_log_space_checked, install_log_space, active_log_spaces_of,
}
use boki.FutureRequests.{on_new_view}
use boki.Watcher.{FinalizedView, final_metalog_position, tail_metalogs}
use boki.Sequencer.{SharedLogRequest, Output, schedule, publish, Sequencer, put, tail_of}

module _ (my_node_id : ℕ) where
  install_primary :
      View → LogSpaceCollection MetaLogPrimary → Result (LogSpaceCollection MetaLogPrimary)
  install_primary view c =
      if is_active_phylog view my_node_id
      then (do p ← meta_log_primary view my_node_id; ok (install_log_space (identifier p.base) p c))
      else ok c

  -- The round of the loop over the sequencers for one of them.
  install_backup :
      View → ℕ → LogSpaceCollection LogSpaceBase → Result (LogSpaceCollection LogSpaceBase)
  install_backup view id c = if not (is_active_phylog view id) then ok c else (do
    node ← expect (lookup id view.sequencer_nodes)
    if is_replica_sequencer_node node my_node_id
        then (do b ← meta_log_backup view id; ok (install_log_space (identifier b) b c))
        else ok c)

  install_backups :
      View → List ℕ → LogSpaceCollection LogSpaceBase → Result (LogSpaceCollection LogSpaceBase)
  unfolding install_backup
  install_backups view [] c = ok c
  install_backups view (id ∷ ids) c = do c' ← install_backup view id c; install_backups view ids c'

  -- The log spaces of a view that has the sequencer.
  install_log_spaces : View → Sequencer → Result Sequencer
  unfolding install_primary install_backups
  install_log_spaces view s = do
    primaries ← install_primary view s.primary_collection
    backups ← install_backups view view.sequencer_node_ids s.backup_collection
    ok (record s { primary_collection = primaries; backup_collection = backups })

  unfoldable pub contains_myself : View → Bool
  contains_myself view = contains my_node_id view.sequencer_nodes

  -- The pointer that `GetLogSpace` gives.
  pointer : {T : Type 0} → ℕ → LogSpaceCollection T → Option ℕ
  pointer id c = if contains id c.log_spaces then some id else none

  scheduled : List SharedLogRequest → List Output
  scheduled [] = []
  scheduled (r ∷ rs) = schedule (r ∷ rs) ∷ []

  -- `OnViewCreated`
  unfoldable pub on_view_created : View → Sequencer → Result (Sequencer × List Output)
  unfolding install_log_spaces pointer scheduled
  on_view_created view s = do
    s₁ ← if contains_myself view then install_log_spaces view s else ok s
    (ready, requests) ← on_new_view view.id (contains_myself view) s₁.future_requests
    ok (
      record s₁ {
        current_view = some view;
        current_primary = pointer (join_two16 view.id my_node_id) s₁.primary_collection;
        future_requests = requests;
      },
      scheduled ready,
    )

  module _ (num_entries : ℕ) where
    -- The primary is frozen, and its tail taken, if there is one.
    freeze_primary : Option ℕ → Sequencer → Result (List MetaLogsProto × Sequencer)
    freeze_primary none s = ok ([], s)
    freeze_primary (some id) s = do
      p ← get_log_space_checked id s.primary_collection
      tail ← tail_of num_entries (freeze p.base)
      ok (
        tail ∷ [],
        record s {
          primary_collection = put id (record p { base = freeze p.base }) s.primary_collection;
        },
      )

    unfoldable pub freeze_backups :
        List (ℕ × LogSpaceBase)
        → LogSpaceCollection LogSpaceBase
        → Result (List MetaLogsProto × LogSpaceCollection LogSpaceBase)
    freeze_backups [] c = ok ([], c)
    freeze_backups ((id, b) ∷ bs) c = do
      tail ← tail_of num_entries (freeze b)
      (tails, c') ← freeze_backups bs (put id (freeze b) c)
      ok (tail ∷ tails, c')

    published : View → List MetaLogsProto → List Output
    published view [] = []
    published view (t ∷ ts) =
        publish (record { view_id = view.id; sequencer_id = my_node_id; tail_metalogs = t ∷ ts })
        ∷ []

    -- `OnViewFrozen`
    unfoldable pub on_view_frozen : View → Sequencer → Result (Sequencer × List Output)
    unfolding freeze_primary published
    on_view_frozen view s = do
      (tails, s₁) ← freeze_primary s.current_primary s
      backups ← active_log_spaces_of view.id s₁.backup_collection
      (more, c) ← freeze_backups backups s₁.backup_collection
      ok (record s₁ { backup_collection = c }, published view (tails ++ more))

-- `log_utils::FinalizedLogSpace` on the part that both kinds of log space share.
unfoldable pub finalized_log_space : FinalizedView → LogSpaceBase → Result LogSpaceBase
finalized_log_space v b = do
  position ← final_metalog_position (identifier b) v
  tail ← tail_metalogs (identifier b) v
  (success, b', _) ← finalize no_hooks position tail b tt
  if success then ok b' else panic

finalize_primary : FinalizedView → Option ℕ → Sequencer → Result Sequencer
finalize_primary v none s = ok s
finalize_primary v (some id) s = do
  p ← get_log_space_checked id s.primary_collection
  b ← finalized_log_space v p.base
  ok (record s { primary_collection = put id (record p { base = b }) s.primary_collection })

unfoldable pub finalize_backups :
    FinalizedView
    → List (ℕ × LogSpaceBase)
    → LogSpaceCollection LogSpaceBase
    → Result (LogSpaceCollection LogSpaceBase)
finalize_backups v [] c = ok c
finalize_backups v ((id, b) ∷ bs) c = do
  b' ← finalized_log_space v b
  finalize_backups v bs (put id b' c)

-- `OnViewFinalized`
unfoldable pub on_view_finalized : FinalizedView → Sequencer → Result Sequencer
unfolding finalize_primary
on_view_finalized v s = do
  s₁ ← finalize_primary v s.current_primary s
  backups ← active_log_spaces_of v.view.id s₁.backup_collection
  c ← finalize_backups v backups s₁.backup_collection
  ok (record s₁ { backup_collection = c })
