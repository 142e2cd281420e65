-- ===== src/Primary.antt =====
-- src/log/log_space.h and src/log/log_space.cpp, classes `MetaLogPrimary` and `MetaLogBackup`: the
-- sequencer's copies of a metalog. The primary learns how far the storage nodes have got with each
-- engine's entries, cuts the log where all of them have, and counts how far the backups follow.
pub mod Quorum
pub mod Safety
pub mod Cut
pub mod Reach
pub mod Replicas
pub mod Majority
mod Tests
use boki.Base.{
  ℕ, zero, suc, ◌+◌, ◌-◌, ◌/◌, ◌^◌, min, List, [], ◌∷◌, ◌++◌, map, Option, none, some, Bool, true,
  false, not, ◌&&◌, length, get_elem?, elem, ltb, leb, ◌==◌, if◌then◌else◌, Map, lookup, insert,
  Result, ok, panic, ◌>>=◌, expect,
}
use boki.Bits.{u32, low_half64}
use boki.Proto.{MetaLogProto, new_logs, no_trim}
use boki.View.{View, Engine, is_replica_sequencer_node}
use boki.LogSpace.{
  LogSpaceBase, full_mode, normal, no_hooks, log_space_base, identifier, full_seqnum_position,
  provide_meta_log,
}

pub record MetaLogPrimary : Type 0 where
  pub base : LogSpaceBase
  pub dirty_shards : List ℕ
  pub last_cut : Map ℕ
  -- of an engine and a storage node
  pub storage_progresses : ℕ → ℕ → Option ℕ
  pub metalog_progresses : Map ℕ
  pub replicated_metalog_position : ℕ

-- `m[{e, s}] = v`
abbrev pub update : ℕ → ℕ → ℕ → (ℕ → ℕ → Option ℕ) → ℕ → ℕ → Option ℕ
update e s v f e' s' = if (e == e') && (s == s') then some v else f e' s'

-- `m[k]` of a map to numbers, which reads zero where there is none.
abbrev pub or_zero : Option ℕ → ℕ
or_zero none = 0
or_zero (some v) = v

init_storages : ℕ → List ℕ → (ℕ → ℕ → Option ℕ) → ℕ → ℕ → Option ℕ
init_storages e [] f = f
init_storages e (s ∷ ss) f = init_storages e ss (update e s 0 f)

init_engines : View → List ℕ → MetaLogPrimary → Result MetaLogPrimary
unfolding init_storages
init_engines v [] p = ok p
init_engines v (e ∷ es) p = do
  node ← expect (lookup e v.engine_nodes)
  let progresses = init_storages e node.storage_nodes p.storage_progresses
  init_engines v es (record p { storage_progresses = progresses; last_cut = insert e 0 p.last_cut })

init_replicas : List ℕ → Map ℕ → Map ℕ
init_replicas [] m = m
init_replicas (id ∷ ids) m = init_replicas ids (insert id 0 m)

-- The constructor.
unfoldable pub meta_log_primary : View → ℕ → Result MetaLogPrimary
unfolding init_engines init_replicas
meta_log_primary view sequencer_id = do
  b ← log_space_base full_mode view sequencer_id
  p ← init_engines view view.engine_node_ids (record {
    base = b;
    dirty_shards = [];
    last_cut = [];
    storage_progresses = λ _ _. none;
    metalog_progresses = [];
    replicated_metalog_position = 0;
  })
  ok (record p {
    base = record b { state = normal };
    metalog_progresses = init_replicas b.sequencer_node.replica_sequencer_nodes [];
  })

-- `MetaLogBackup` adds nothing to the base class.
unfoldable pub meta_log_backup : View → ℕ → Result LogSpaceBase
meta_log_backup view sequencer_id = do
  b ← log_space_base full_mode view sequencer_id
  ok (record b { state = normal })

abbrev pub all_metalog_replicated : MetaLogPrimary → Bool
all_metalog_replicated p = p.replicated_metalog_position == p.base.metalog_position

-- The smallest of `acc` and the progress of the storage nodes.
unfoldable pub min_progress : (ℕ → ℕ → Option ℕ) → ℕ → List ℕ → ℕ → Result ℕ
min_progress f e [] acc = ok acc
min_progress f e (s ∷ ss) acc = do v ← expect (f e s); min_progress f e ss (min acc v)

-- `GetShardReplicatedPosition`
unfoldable pub shard_replicated_position : MetaLogPrimary → ℕ → Result ℕ
shard_replicated_position p e = do
  node ← expect (lookup e p.base.view.engine_nodes)
  min_progress p.storage_progresses e node.storage_nodes (2 ^ 32 - 1)

-- `dirty_shards_.insert(e)` where the replicated position has passed the last cut.
mark_dirty : ℕ → ℕ → ℕ → MetaLogPrimary → MetaLogPrimary
mark_dirty e cut current p =
    if ltb cut current && not (elem e p.dirty_shards)
    then record p { dirty_shards = e ∷ p.dirty_shards }
    else p

-- A round of the loop of `UpdateStorageProgress`.
unfoldable pub update_shard : ℕ → ℕ → ℕ → MetaLogPrimary → Result MetaLogPrimary
unfolding mark_dirty
update_shard storage_id e progress p =
    let old = or_zero (p.storage_progresses e storage_id) in
    if ltb old progress
    then (do
      let q = record p { storage_progresses = update e storage_id progress p.storage_progresses }
      current ← shard_replicated_position q e
      cut ← expect (lookup e p.last_cut)
      ok (mark_dirty e cut current q))
    else ok (record p { storage_progresses = update e storage_id old p.storage_progresses })

unfoldable pub update_shards : ℕ → List ℕ → List ℕ → MetaLogPrimary → Result MetaLogPrimary
update_shards storage_id [] [] p = ok p
update_shards storage_id (e ∷ es) (progress ∷ ps) p = do
  q ← update_shard storage_id e progress p
  update_shards storage_id es ps q
update_shards storage_id [] (progress ∷ ps) p = panic
update_shards storage_id (e ∷ es) [] p = panic

-- `UpdateStorageProgress`. Lists of different lengths panic at the start there and at the end of the
-- shorter list here; a process that panics keeps no state.
unfoldable pub update_storage_progress : ℕ → List ℕ → MetaLogPrimary → Result MetaLogPrimary
update_storage_progress storage_id progress p = do
  node ← expect (lookup storage_id p.base.view.storage_nodes)
  update_shards storage_id node.source_engine_nodes progress p

-- `absl::c_sort`
insert_sorted : ℕ → List ℕ → List ℕ
insert_sorted x [] = x ∷ []
insert_sorted x (y ∷ ys) = if leb x y then x ∷ y ∷ ys else y ∷ insert_sorted x ys

unfoldable pub sort : List ℕ → List ℕ
unfolding insert_sorted
sort [] = []
sort (x ∷ xs) = insert_sorted x (sort xs)

abbrev pub progresses : MetaLogPrimary → List ℕ
progresses p = map (λ (kv : ℕ × ℕ). kv.1) p.metalog_progresses

-- The middle of the sorted progress, if there is any.
recompute : Map ℕ → MetaLogPrimary → Result MetaLogPrimary
unfolding sort
recompute [] p = ok p
recompute (_ ∷ _) p = do
  progress ← expect (get_elem? (sort (progresses p)) (length (progresses p) / 2))
  ok (record p { replicated_metalog_position = progress })

-- `UpdateMetaLogReplicatedPosition`
unfoldable pub update_replicated_position : MetaLogPrimary → Result MetaLogPrimary
unfolding recompute
update_replicated_position p =
    if p.replicated_metalog_position == p.base.metalog_position
    then ok p
    else recompute p.metalog_progresses p

-- `UpdateReplicaProgress`
unfoldable pub update_replica_progress : ℕ → ℕ → MetaLogPrimary → Result MetaLogPrimary
update_replica_progress sequencer_id metalog_position p =
    if not (is_replica_sequencer_node p.base.sequencer_node sequencer_id)
    then panic
    else if ltb p.base.metalog_position metalog_position
    then panic
    else (let old = or_zero (lookup sequencer_id p.metalog_progresses) in
        if ltb old metalog_position
        then update_replicated_position (record p {
          metalog_progresses = insert sequencer_id metalog_position p.metalog_progresses;
        })
        else ok (record p { metalog_progresses = insert sequencer_id old p.metalog_progresses }))

-- The parts of a cut, and the cuts that it leaves behind.
pub record CutParts : Type 0 where
  pub starts : List ℕ
  pub deltas : List ℕ
  pub total_delta : ℕ
  pub cuts : Map ℕ

-- Where an engine's shard is cut next: at its last cut unless it is dirty.
unfoldable pub next_position : MetaLogPrimary → ℕ → ℕ → Result ℕ
next_position p e cut = if elem e p.dirty_shards then shard_replicated_position p e else ok cut

-- The loop over the engines; what it pushes back comes in the order of the engines.
unfoldable pub cut_shards : MetaLogPrimary → List ℕ → Map ℕ → Result CutParts
cut_shards p [] cuts = ok (record { starts = []; deltas = []; total_delta = 0; cuts = cuts })
cut_shards p (e ∷ es) cuts = do
  cut ← expect (lookup e cuts)
  current ← next_position p e cut
  let delta = u32 (current + 2 ^ 32 - cut)
  rest ← cut_shards p es (insert e current cuts)
  ok (record {
    starts = cut ∷ rest.starts;
    deltas = delta ∷ rest.deltas;
    total_delta = u32 (delta + rest.total_delta);
    cuts = rest.cuts;
  })

abbrev pub cut_metalog : MetaLogPrimary → CutParts → MetaLogProto
cut_metalog p c = record {
  logspace_id = identifier p.base;
  metalog_seqnum = p.base.metalog_position;
  type = new_logs;
  new_logs_proto = record {
    start_seqnum = low_half64 (full_seqnum_position p.base);
    shard_starts = c.starts;
    shard_deltas = c.deltas;
  };
  trim_proto = no_trim;
}

unfoldable pub make_cut : MetaLogPrimary → Result (Option MetaLogProto × MetaLogPrimary)
make_cut p = do
  c ← cut_shards p p.base.view.engine_node_ids p.last_cut
  (moved, b, _) ← provide_meta_log no_hooks (cut_metalog p c) p.base tt
  if moved
      then ok (some (cut_metalog p c), record p { base = b; dirty_shards = []; last_cut = c.cuts })
      else panic

-- `MarkNextCut`
unfoldable pub mark_next_cut : MetaLogPrimary → Result (Option MetaLogProto × MetaLogPrimary)
unfolding make_cut
mark_next_cut p = elim p.dirty_shards [ [] ↦ ok (none, p) | _ ∷ _ ↦ make_cut p ]
