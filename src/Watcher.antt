-- ===== src/Watcher.antt =====
-- src/log/view_watcher.h and src/log/view_watcher.cpp: how a node follows the views. The contents of
-- a node of ZooKeeper come parsed, as the controller's request that created it; a callback is the
-- value that it is called with. An index past the end of a repeated field panics.
pub mod Agreement
mod Tests
use boki.Base.{
  ℕ, zero, suc, ◌+◌, List, [], ◌∷◌, ◌++◌, Option, none, some, Bool, true, false, ◌==◌,
  if◌then◌else◌, length, get_elem?, last?, Map, insert, lookup, Result, ok, panic, ◌>>=◌, expect,
}
use boki.Bits.{u16, join_two16}
use boki.Proto.{MetaLogProto, FinalizedViewProto, ViewProto}
use boki.View.{View, view_of_proto, is_active_phylog}
use boki.Controller.{Request, new, freeze, finalize}

pub record FinalizedView : Type 0 where
  pub view : View
  pub final_metalog_positions : Map ℕ
  pub all_tail_metalogs : Map (List MetaLogProto)

-- The loop of the constructor, from the sequencers that are left and the next index.
unfoldable pub fill_view : FinalizedViewProto → ℕ → List ℕ → FinalizedView → Result FinalizedView
fill_view p idx [] v = ok v
fill_view p idx (id ∷ ids) v = elim (is_active_phylog v.view id) [
  | false ↦ fill_view p idx ids v
  | true ↦ do
    position ← expect (get_elem? p.metalog_positions idx)
    tail ← expect (get_elem? p.tail_metalogs idx)
    fill_view p (idx + 1) ids (record v {
      final_metalog_positions = insert (join_two16 v.view.id id) position v.final_metalog_positions;
      all_tail_metalogs = insert (join_two16 v.view.id id) tail.metalogs v.all_tail_metalogs;
    })
]

-- The constructor.
unfoldable pub finalized_view : View → FinalizedViewProto → Result FinalizedView
finalized_view view p =
    fill_view p 0 view.sequencer_node_ids
      (record { view = view; final_metalog_positions = []; all_tail_metalogs = [] })

unfoldable pub final_metalog_position : ℕ → FinalizedView → Result ℕ
final_metalog_position logspace_id v = expect (lookup logspace_id v.final_metalog_positions)

unfoldable pub tail_metalogs : ℕ → FinalizedView → Result (List MetaLogProto)
tail_metalogs logspace_id v = expect (lookup logspace_id v.all_tail_metalogs)

pub record ViewWatcher : Type 0 where
  pub views : List View
  pub finalized_views : List FinalizedView

-- What the callbacks get.
pub data Event : Type 0 where
  view_created view_frozen : View → Event
  view_finalized : FinalizedView → Event

-- `InstallNextView`
unfoldable pub install_next_view : ViewProto → ViewWatcher → Result (Event × ViewWatcher)
install_next_view p w =
    if p.view_id == u16 (length w.views)
    then (do
      view ← view_of_proto p
      ok (view_created view, record w { views = w.views ++ view ∷ [] }))
    else panic

-- `FinalizeCurrentView`
unfoldable pub finalize_current_view :
    FinalizedViewProto → ViewWatcher → Result (Event × ViewWatcher)
finalize_current_view p w = do
  view ← expect (last? w.views)
  if p.view_id == view.id
      then (do
        v ← finalized_view view p
        ok (view_finalized v, record w { finalized_views = w.finalized_views ++ v ∷ [] }))
      else panic

-- `OnZNodeCreated`
unfoldable pub on_znode_created : Request → ViewWatcher → Result (Event × ViewWatcher)
on_znode_created (new p) w = install_next_view p w
on_znode_created (freeze parsed) w = do
  view ← expect (get_elem? w.views (u16 parsed))
  ok (view_frozen view, w)
on_znode_created (finalize p) w = finalize_current_view p w
