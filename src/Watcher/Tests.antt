-- ===== src/Watcher/Tests.antt =====
-- A watcher that follows a view of two sequencers until it is final.
use boki.Base.{ℕ, [], ◌∷◌, true, ◌≡◌, refl, elem, ok, arith, insert}
use boki.Bits.{join_two16, high_half32}
use boki.Proto.{new_logs, MetaLogProto, FinalizedViewProto}
use boki.View.{is_active_phylog}
use boki.View.Tests.{made}
use boki.Controller.{freeze, finalize}
use boki.Controller.Seal.{
  OngoingSeal, check_all_sealed, seal_phylogs, build_final_tail_metalog, collected, add_tails,
  add_entries, position_after, metalogs_of, active_ids,
}
use boki.Watcher.{
  FinalizedView, finalized_view, fill_view, final_metalog_position, tail_metalogs, ViewWatcher,
  view_frozen, view_finalized, on_znode_created, finalize_current_view,
}
use boki.Watcher.Agreement.{sealed_is_finalized}

abbrev entry : MetaLogProto
entry = record {
  logspace_id = 0x1_0001;
  metalog_seqnum = 0;
  type = new_logs;
  new_logs_proto = record { start_seqnum = 0; shard_starts = []; shard_deltas = [] };
  trim_proto = record { user_logspace = 0; user_tag = 0; trim_seqnum = 0 };
}

abbrev seal : OngoingSeal
seal = record {
  view = made;
  phylogs = 1 ∷ [];
  tail_metalogs = (0x1_0002, record { logspace_id = 0x1_0001; metalogs = entry ∷ [] }) ∷ [];
}

abbrev message : FinalizedViewProto
message = record {
  view_id = 1;
  metalog_positions = 1 ∷ [];
  tail_metalogs = (record { logspace_id = 0x1_0001; metalogs = entry ∷ [] }) ∷ [];
}

sealed_is_finalized_example :
    (v : FinalizedView) × (finalized_view seal.view message ≡ ok v)
    × ((id : ℕ)
        → elem id (1 ∷ []) ≡ true
        → (final_metalog_position (join_two16 seal.view.id id) v
            ≡ ok (build_final_tail_metalog (collected id seal.tail_metalogs)).0)
          × (tail_metalogs (join_two16 seal.view.id id) v
              ≡ ok (build_final_tail_metalog (collected id seal.tail_metalogs)).1))
unfolding check_all_sealed seal_phylogs build_final_tail_metalog collected add_tails add_entries
    position_after metalogs_of active_ids is_active_phylog insert join_two16 high_half32
sealed_is_finalized_example =
    sealed_is_finalized seal {f = message} refl refl (omega arith, (omega arith, tt))

abbrev known : FinalizedView
known = record {
  view = made;
  final_metalog_positions = (0x1_0001, 1) ∷ [];
  all_tail_metalogs = (0x1_0001, entry ∷ []) ∷ [];
}

abbrev watcher : ViewWatcher
watcher = record { views = (record made { id = 0 }) ∷ made ∷ []; finalized_views = [] }

freezes : on_znode_created (freeze 1) watcher ≡ ok (view_frozen made, watcher)
unfolding on_znode_created
freezes = refl

finalizes :
    on_znode_created (finalize message) watcher
    ≡ ok (view_finalized known, record watcher { finalized_views = known ∷ [] })
unfolding on_znode_created finalize_current_view finalized_view fill_view is_active_phylog insert
    join_two16
finalizes = refl
