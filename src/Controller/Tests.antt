-- ===== src/Controller/Tests.antt =====
-- A controller of two sequencers that starts, reconfigures once and opens a second view, and a view of
-- three sequencers that is sealed with the tails of two.
use boki.Base.{
  ℕ, ◌+◌, ◌*◌, ◌%◌, List, [], ◌∷◌, Option, none, some, ◌≡◌, length, get_elem?, Map, Result, ok,
  panic, ◌<◌, ◌≤◌, lookup, arith, zero, suc, refl, sym, ap, some-injective,
}
use boki.Bits.{join_two16, high_half32}
use boki.Proto.{new_logs, MetaLogProto, MetaLogsProto, FrozenSequencerProto, FinalizedViewProto}
use boki.View.{View, view_of_proto}
use boki.Controller.{
  Controller, controller, State, normal, frozen, Configuration, Request, finalize, freeze, NodeType,
  sequencer_node, engine_node, storage_node, Shuffles, on_node_online, start_command_handler,
  reconfig_command_handler, on_freeze_znode_created, answer,
}
use boki.Controller.Invariant.{IsNumbered, Phase}
use boki.Controller.Reach.{
  online, start, reconfig, respond, answered, Reach, here, next, Created, reached_is_sound,
  finalization_opens_view,
}
use boki.Controller.Seal.{OngoingSeal, check_all_sealed}
use boki.Controller.Majority.{ReachesBack, sealed_covers_replicated}

abbrev value : Controller → Result Controller → Controller
value c (ok c') = c'
value c panic = c

abbrev initial : Controller
initial = controller 2 2 1 1

abbrev ready : Controller
ready = on_node_online storage_node 6 (
    on_node_online storage_node 5 (
      on_node_online engine_node 3
        (on_node_online sequencer_node 2 (on_node_online sequencer_node 1 initial))))

abbrev unshuffled : Shuffles
unshuffled = record {
  sequencers = λ ids. ids;
  engines = λ ids. ids;
  storages = λ ids. ids;
  tokens = λ ids. ids;
}

abbrev entry : ℕ → MetaLogProto
entry n = record {
  logspace_id = 1;
  metalog_seqnum = n;
  type = new_logs;
  new_logs_proto = record { start_seqnum = 0; shard_starts = []; shard_deltas = [] };
  trim_proto = record { user_logspace = 0; user_tag = 0; trim_seqnum = 0 };
}

abbrev response : FrozenSequencerProto
response = record {
  view_id = 0;
  sequencer_id = 1;
  tail_metalogs = (record { logspace_id = 1; metalogs = entry 0 ∷ entry 1 ∷ [] }) ∷ [];
}

abbrev running : Controller
running = value ready (start_command_handler 7 1 (λ ids. ids) ready)

abbrev confirmed : Controller
confirmed = value running (answer running.requests running)

abbrev sealing : Controller
sealing = value confirmed (reconfig_command_handler unshuffled none confirmed)

abbrev announced : Controller
announced = value sealing (answer sealing.requests sealing)

abbrev sealed : Controller
sealed = on_freeze_znode_created response announced

abbrev reopened : Controller
reopened = value sealed (answer sealed.requests sealed)

run : Reach initial sealed
unfolding answer start_command_handler on_node_online boki.Controller.start_created
    boki.Controller.plan_from boki.Controller.ids_of boki.Base.insert boki.Controller.reconfig_view
    boki.Controller.has_nodes boki.Controller.create_view boki.Controller.install_new_view
    view_of_proto boki.View.Plan.read_plan boki.View.Plan.read_row reconfig_command_handler
    on_freeze_znode_created boki.Controller.reconfig_normal boki.Controller.chosen_sequencers
    boki.Controller.freeze_view boki.Controller.Seal.new_seal boki.Controller.take_response
    check_all_sealed boki.Controller.Seal.seal_phylogs boki.View.is_active_phylog
    boki.Controller.Seal.collected boki.Controller.Seal.add_response high_half32 join_two16
    boki.Controller.Seal.build_final_tail_metalog boki.Controller.Seal.position_after
    boki.Controller.Seal.metalogs_of boki.Controller.Seal.add_tails boki.Controller.Seal.add_entries
    boki.Controller.on_finalize_published boki.Controller.Seal.active_ids
run =
    next
      (next
        (next
          (next
            (next
              (next
                (next
                  (next (next (next here (online sequencer_node 1)) (online sequencer_node 2))
                    (online engine_node 3))
                  (online storage_node 5))
                (online storage_node 6))
              (start 7 1 (λ ids. ids) refl))
            (answered refl))
          (reconfig unshuffled none refl))
        (answered refl))
      (respond response)

reached_is_sound_example : IsNumbered sealed.views × Phase sealed.state sealed
reached_is_sound_example = reached_is_sound 2 2 1 1 run

abbrev finalized : FinalizedViewProto
finalized = record {
  view_id = 0;
  metalog_positions = 2 ∷ [];
  tail_metalogs = (record { logspace_id = 1; metalogs = entry 0 ∷ entry 1 ∷ [] }) ∷ [];
}

finalization_opens_view_example :
    (g : Configuration) × (sealed.pending_reconfig ≡ some g) × Created g sealed reopened
unfolding answer start_command_handler on_node_online boki.Controller.start_created
    boki.Controller.plan_from boki.Controller.ids_of boki.Base.insert boki.Controller.reconfig_view
    boki.Controller.has_nodes boki.Controller.create_view boki.Controller.install_new_view
    view_of_proto boki.View.Plan.read_plan boki.View.Plan.read_row reconfig_command_handler
    on_freeze_znode_created boki.Controller.reconfig_normal boki.Controller.chosen_sequencers
    boki.Controller.freeze_view boki.Controller.Seal.new_seal boki.Controller.take_response
    check_all_sealed boki.Controller.Seal.seal_phylogs boki.View.is_active_phylog
    boki.Controller.Seal.collected boki.Controller.Seal.add_response high_half32 join_two16
    boki.Controller.Seal.build_final_tail_metalog boki.Controller.Seal.position_after
    boki.Controller.Seal.metalogs_of boki.Controller.Seal.add_tails boki.Controller.Seal.add_entries
    boki.Controller.on_finalize_published boki.Controller.Seal.active_ids
finalization_opens_view_example = finalization_opens_view 2 2 1 1 finalized [] run refl refl

abbrev three : View
three = record {
  id = 0;
  metalog_replicas = 3;
  userlog_replicas = 1;
  index_replicas = 1;
  num_phylogs = 1;
  engine_node_ids = [];
  sequencer_node_ids = 1 ∷ 2 ∷ 3 ∷ [];
  storage_node_ids = [];
  active_phylogs = 1 ∷ [];
  engine_nodes = [];
  sequencer_nodes = [];
  storage_nodes = [];
  log_space_hash_seed = 0;
  log_space_hash_tokens = 1 ∷ [];
}

abbrev two_tails : OngoingSeal
two_tails = record {
  view = three;
  phylogs = 1 ∷ [];
  tail_metalogs =
      (0x1_0001, record { logspace_id = 1; metalogs = entry 0 ∷ entry 1 ∷ [] })
      ∷ (0x1_0003, record { logspace_id = 1; metalogs = entry 0 ∷ [] })
      ∷ [];
}

-- The second sequencer, which did not answer, has both entries, and the third the first.
abbrev position_of : ℕ → ℕ
position_of zero = 0
position_of (suc zero) = 2
position_of (suc (suc zero)) = 2
position_of (suc (suc (suc zero))) = 1
position_of (suc (suc (suc (suc n)))) = 0

back_to :
    (s : ℕ) (t : MetaLogsProto)
    → lookup (join_two16 1 s) two_tails.tail_metalogs ≡ some t
    → 0 < position_of s
    → ReachesBack (position_of s) t
unfolding lookup join_two16
back_to zero t h past = absurd (omega arith)
back_to (suc zero) t h past =
    (1, entry 1, ap (λ (x : MetaLogsProto). get_elem? x.metalogs 1) (sym (some-injective h)), refl)
back_to (suc (suc zero)) t h past = cc
back_to (suc (suc (suc zero))) t h past =
    (0, entry 0, ap (λ (x : MetaLogsProto). get_elem? x.metalogs 0) (sym (some-injective h)), refl)
back_to (suc (suc (suc (suc n)))) t h past = absurd (omega arith)

sealed_covers_replicated_example : (final : ℕ) × (get_elem? (2 ∷ []) 0 ≡ some final) × (2 ≤ final)
unfolding check_all_sealed boki.Controller.Seal.seal_phylogs
    boki.Controller.Seal.build_final_tail_metalog boki.Controller.Seal.collected
    boki.Controller.Seal.add_tails boki.Controller.Seal.add_entries
    boki.Controller.Seal.position_after boki.Controller.Seal.metalogs_of boki.Base.insert
    high_half32 join_two16
sealed_covers_replicated_example =
    sealed_covers_replicated two_tails (1 ∷ 2 ∷ 3 ∷ []) 1 position_of 2 {f = finalized} 0 refl refl
      (omega arith) (omega arith, (omega arith, (omega arith, tt))) refl
      (omega arith, (omega arith, tt)) ((λ e. (1, refl, refl)), ((λ e. (3, refl, refl)), tt))
      ((omega arith, (omega arith, tt)), ((omega arith, tt), tt)) back_to (omega arith)
