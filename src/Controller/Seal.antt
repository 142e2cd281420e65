-- ===== src/Controller/Seal.antt =====
-- src/log/controller.cpp: how the controller seals a view, from the tails of the metalog that the
-- frozen sequencers send. The map by a pair of 16-bit ids has the two joined for its key; of a log
-- space's identifier the conversion to 16 bits keeps the sequencer.
use boki.Base.{
  ℕ, ◌+◌, ◌/◌, List, [], ◌∷◌, Option, none, some, ltb, ◌==◌, if◌then◌else◌, length, Map, insert,
}
use boki.Bits.{u16, u32, join_two16, high_half32}
use boki.Proto.{MetaLogProto, MetaLogsProto, FinalizedViewProto}
use boki.View.{View, is_active_phylog}

-- `Controller::OngoingSeal`
pub record OngoingSeal : Type 0 where
  pub view : View
  pub phylogs : List ℕ
  pub tail_metalogs : Map MetaLogsProto

unfoldable pub add_entries : List MetaLogProto → Map MetaLogProto → Map MetaLogProto
add_entries [] entries = entries
add_entries (m ∷ ms) entries = add_entries ms (insert m.metalog_seqnum m entries)

unfoldable pub add_tails : List MetaLogsProto → Map MetaLogProto → Map MetaLogProto
add_tails [] entries = entries
add_tails (t ∷ ts) entries = add_tails ts (add_entries t.metalogs entries)

-- One past the last entry; `position` when there is none.
unfoldable pub position_after : ℕ → Map MetaLogProto → ℕ
position_after position [] = position
position_after position ((seqnum, m) ∷ entries) = position_after (u32 (seqnum + 1)) entries

unfoldable pub metalogs_of : Map MetaLogProto → List MetaLogProto
metalogs_of [] = []
metalogs_of ((seqnum, m) ∷ entries) = m ∷ metalogs_of entries

-- `BuildFinalTailMetalog`: the final position and the entries.
unfoldable pub build_final_tail_metalog : List MetaLogsProto → ℕ × List MetaLogProto
build_final_tail_metalog tails =
    let entries = add_tails tails [] in (position_after 0 entries, metalogs_of entries)

-- The tails for a sequencer's log space.
unfoldable pub collected : ℕ → Map MetaLogsProto → List MetaLogsProto
collected sequencer_id [] = []
collected sequencer_id ((key, tail) ∷ tails) =
    let rest = collected sequencer_id tails in
    if high_half32 key == sequencer_id then tail ∷ rest else rest

-- The loop of `CheckAllSealed` on the physical logs.
unfoldable pub seal_phylogs :
    View → Map MetaLogsProto → List ℕ → Option (List ℕ × List MetaLogsProto)
seal_phylogs view tails [] = some ([], [])
seal_phylogs view tails (id ∷ ids) =
    let rest = seal_phylogs view tails ids in
    let (position, metalogs) = build_final_tail_metalog (collected id tails) in
    if ltb (length (collected id tails)) ((view.metalog_replicas + 1) / 2)
    then none
    else (elim rest [
      | none ↦ none
      | some (positions, finals) ↦ some (
        position ∷ positions,
        (record { logspace_id = join_two16 view.id id; metalogs = metalogs }) ∷ finals,
      )
    ])

-- `CheckAllSealed`
unfoldable pub check_all_sealed : OngoingSeal → Option FinalizedViewProto
check_all_sealed seal = elim (seal_phylogs seal.view seal.tail_metalogs seal.phylogs) [
  | none ↦ none
  | some (positions, finals) ↦
      some
        (record { view_id = seal.view.id; metalog_positions = positions; tail_metalogs = finals })
]

-- The response of a sequencer: its tails by log space and sequencer.
unfoldable pub add_response : ℕ → List MetaLogsProto → Map MetaLogsProto → Map MetaLogsProto
add_response sequencer_id [] tails = tails
add_response sequencer_id (t ∷ ts) tails =
    add_response sequencer_id ts
      (insert (join_two16 (u16 t.logspace_id) (u16 sequencer_id)) t tails)

unfoldable pub active_ids : View → List ℕ → List ℕ
active_ids view [] = []
active_ids view (id ∷ ids) =
    let rest = active_ids view ids in if is_active_phylog view id then id ∷ rest else rest

-- The seal that `FreezeView` starts.
unfoldable pub new_seal : View → OngoingSeal
new_seal view = record {
  view = view;
  phylogs = active_ids view view.sequencer_node_ids;
  tail_metalogs = [];
}
