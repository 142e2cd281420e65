-- ===== src/LogSpace.antt =====
-- src/log/log_space_base.h and src/log/log_space_base.cpp, class `LogSpaceBase`: one log space's
-- copy of the metalog, applied in order. The virtual methods of the subclasses are a record of
-- functions over the subclass's own state `S`. Message pools and log lines are left out. `DCHECK`s
-- are off, as in a release build; a read out of bounds panics.
pub mod Frame
pub mod Agreement
pub mod CatchUp
pub mod Finalized
pub mod Tests
use boki.Base.{
  ℕ, zero, suc, ◌+◌, List, [], ◌∷◌, ◌++◌, Option, none, some, Bool, true, false, not, ◌||◌, ◌&&◌,
  length, get_elem?, set, elem, ltb, ◌==◌, if◌then◌else◌, Map, lookup, insert, map, Result, ok,
  panic, ◌>>=◌, expect,
}
use boki.Bits.{u32, join_two32, join_two16}
use boki.Proto.{MetaLogProto, MetaLogType, invalid, new_logs, trim, MetaLogsProto, NewLogsProto}
use boki.View.{View, Sequencer}

pub data Mode : Type 0 where
  lite_mode full_mode : Mode

pub data State : Type 0 where
  created normal frozen finalized : State

pub record LogSpaceBase : Type 0 where
  pub mode : Mode
  pub state : State
  pub view : View
  pub sequencer_node : Sequencer
  pub metalog_position : ℕ
  pub interested_shards : List ℕ
  pub shard_progresses : List ℕ
  pub seqnum_position : ℕ
  pub applied_metalogs : List MetaLogProto
  pub pending_metalogs : Map MetaLogProto

-- The virtual methods. They read the base and change the subclass's state.
pub record Hooks (S : Type 0) : Type 0 where
  pub on_new_logs : LogSpaceBase → ℕ → ℕ → ℕ → ℕ → S → Result S
  pub on_trim : LogSpaceBase → ℕ → ℕ → ℕ → ℕ → S → Result S
  pub on_meta_log_applied : LogSpaceBase → MetaLogProto → S → Result S
  pub on_finalized : LogSpaceBase → ℕ → S → Result S

-- The methods of the base class, which do nothing.
abbrev pub no_hooks : {S : Type 0} → Hooks S
no_hooks = record {
  on_new_logs = λ b m s l d x. ok x;
  on_trim = λ b m u t s x. ok x;
  on_meta_log_applied = λ b m x. ok x;
  on_finalized = λ b p x. ok x;
}

abbrev pub identifier : LogSpaceBase → ℕ
identifier b = join_two16 b.view.id b.sequencer_node.node_id

-- The public accessor; the field of the same name is its low half.
abbrev pub full_seqnum_position : LogSpaceBase → ℕ
full_seqnum_position b = join_two32 (identifier b) b.seqnum_position

abbrev zeros : List ℕ → List ℕ
zeros = map (λ _. 0)

-- The constructor. A view that lacks the sequencer has no node to give.
unfoldable pub log_space_base : Mode → View → ℕ → Result LogSpaceBase
log_space_base mode view sequencer_id = do
  node ← expect (lookup sequencer_id view.sequencer_nodes)
  ok (record {
    mode = mode;
    state = created;
    view = view;
    sequencer_node = node;
    metalog_position = 0;
    interested_shards = [];
    shard_progresses = zeros view.engine_node_ids;
    seqnum_position = 0;
    applied_metalogs = [];
    pending_metalogs = [];
  })

-- `absl::c_find(…) - begin()`: the length where there is no such node.
unfoldable pub index_of : ℕ → List ℕ → ℕ
index_of x [] = 0
index_of x (y ∷ ys) = if y == x then 0 else suc (index_of x ys)

unfoldable pub add_interested_shard : ℕ → LogSpaceBase → LogSpaceBase
unfolding index_of
add_interested_shard engine_id b =
    let idx = index_of engine_id b.view.engine_node_ids in
    if elem idx b.interested_shards
    then b
    else record b { interested_shards = b.interested_shards ++ idx ∷ [] }

unfoldable pub get_meta_log : LogSpaceBase → ℕ → Result (Option MetaLogProto)
get_meta_log b pos =
    if ltb pos b.metalog_position
    then (do m ← expect (get_elem? b.applied_metalogs pos); ok (some m))
    else ok none

-- Lite mode waits until each interested shard has come as far as the cut starts.
unfoldable pub shards_ready : LogSpaceBase → List ℕ → List ℕ → Result Bool
shards_ready b starts [] = ok true
shards_ready b starts (i ∷ is) = do
  shard_start ← expect (get_elem? starts i)
  progress ← expect (get_elem? b.shard_progresses i)
  let rest = shards_ready b starts is
  if ltb progress shard_start then ok false else rest

can_apply_lite : LogSpaceBase → NewLogsProto → MetaLogType → Result Bool
can_apply_lite b n new_logs = shards_ready b n.shard_starts b.interested_shards
can_apply_lite b n invalid = panic
can_apply_lite b n trim = panic

can_apply_in : Mode → LogSpaceBase → MetaLogProto → Result Bool
unfolding can_apply_lite
can_apply_in lite_mode b m = can_apply_lite b m.new_logs_proto m.type
can_apply_in full_mode b m = ok (m.metalog_seqnum == b.metalog_position)

-- `CanApplyMetaLog`
unfoldable pub can_apply : LogSpaceBase → MetaLogProto → Result Bool
unfolding can_apply_in
can_apply b m = can_apply_in b.mode b m

unfoldable pub is_full : Mode → Bool
is_full full_mode = true
is_full lite_mode = false

unfoldable pub is_trim : MetaLogType → Bool
is_trim trim = true
is_trim new_logs = false
is_trim invalid = false

-- What follows on `ApplyMetaLog` in a round of the loop.
unfoldable pub record_applied : MetaLogProto → LogSpaceBase → LogSpaceBase
unfolding is_full
record_applied m b = record b {
  applied_metalogs = if is_full b.mode then b.applied_metalogs ++ m ∷ [] else b.applied_metalogs;
  metalog_position = u32 (m.metalog_seqnum + 1);
}

module _ {S : Type 0} (h : Hooks S) where
  -- The cut over the engines from number `i` on; it gives the sequence number that comes next.
  unfoldable pub apply_shards :
      MetaLogProto → ℕ → List ℕ → ℕ → LogSpaceBase → S → Result (ℕ × LogSpaceBase × S)
  unfolding is_full
  apply_shards m i [] start_seqnum b s = ok (start_seqnum, b, s)
  apply_shards m i (engine_id ∷ ids) start_seqnum b s = do
    shard_start ← expect (get_elem? m.new_logs_proto.shard_starts i)
    delta ← expect (get_elem? m.new_logs_proto.shard_deltas i)
    s' ←
        (if is_full b.mode || elem i b.interested_shards
          then h.on_new_logs b m.metalog_seqnum (join_two32 (identifier b) start_seqnum)
              (join_two32 engine_id shard_start) delta s
          else ok s)
    let progresses = set b.shard_progresses i (u32 (shard_start + delta))
    apply_shards m (i + 1) ids (u32 (start_seqnum + delta))
        (record b { shard_progresses = progresses }) s'

  unfoldable pub apply_typed :
      MetaLogType → MetaLogProto → LogSpaceBase → S → Result (LogSpaceBase × S)
  apply_typed new_logs m b s = do
    (next, b', s') ← apply_shards m 0 b.view.engine_node_ids m.new_logs_proto.start_seqnum b s
    ok (record b' { seqnum_position = next }, s')
  apply_typed trim m b s = do
    let t = m.trim_proto
    s' ← h.on_trim b m.metalog_seqnum t.user_logspace t.user_tag t.trim_seqnum s
    ok (b, s')
  apply_typed invalid m b s = panic

  -- `ApplyMetaLog`
  unfoldable pub apply_meta_log : MetaLogProto → LogSpaceBase → S → Result (LogSpaceBase × S)
  unfolding apply_typed
  apply_meta_log m b s = apply_typed m.type m b s

  -- `AdvanceMetaLogProgress`, the loop over the pending metalogs in the order of their numbers.
  unfoldable pub advance : Map MetaLogProto → LogSpaceBase → S → Result (LogSpaceBase × S)
  advance [] b s = ok (b, s)
  advance ((k, m) ∷ rest) b s = elim (ltb k b.metalog_position) [
    | true ↦ advance rest (record b { pending_metalogs = rest }) s
    | false ↦ can_apply b m >>= λ can. elim can [
      | false ↦ ok (b, s)
      | true ↦ do
        (b₁, s₁) ← apply_meta_log m b s
        let b₂ = record_applied m b₁
        s₂ ← h.on_meta_log_applied b₂ m s₁
        advance rest (record b₂ { pending_metalogs = rest }) s₂
    ]
  ]

  -- `ProvideMetaLog`; the flag says whether the position moved.
  unfoldable pub provide_meta_log :
      MetaLogProto → LogSpaceBase → S → Result (Bool × LogSpaceBase × S)
  unfolding is_full is_trim
  provide_meta_log m b s =
      if is_trim m.type && not (is_full b.mode)
      then ok (false, b, s)
      else if ltb m.metalog_seqnum b.metalog_position
      then ok (false, b, s)
      else (do
        let pending = insert m.metalog_seqnum m b.pending_metalogs
        (b', s') ← advance pending (record b { pending_metalogs = pending }) s
        ok (ltb b.metalog_position b'.metalog_position, b', s'))

  -- A run of calls, as `Finalize` and the sequencer's handler make them.
  unfoldable pub provide_all : List MetaLogProto → LogSpaceBase → S → Result (LogSpaceBase × S)
  provide_all [] b s = ok (b, s)
  provide_all (m ∷ ms) b s = do (_, b', s') ← provide_meta_log m b s; provide_all ms b' s'

  finish : LogSpaceBase → S → Result (Bool × LogSpaceBase × S)
  finish b s = do s' ← h.on_finalized b b.metalog_position s; ok (true, b, s')

  -- `Finalize`; the flag says whether the final position was reached.
  unfoldable pub finalize :
      ℕ → List MetaLogProto → LogSpaceBase → S → Result (Bool × LogSpaceBase × S)
  unfolding finish
  finalize final_position tail b s =
      if b.metalog_position == final_position
      then finish b s
      else if ltb final_position b.metalog_position
      then (if ltb (u32 (final_position + 1)) b.metalog_position then panic else finish b s)
      else (do
        (b', s') ← provide_all tail b s
        if ltb b'.metalog_position final_position
            then ok (false, b', s')
            else if ltb final_position b'.metalog_position
            then panic
            else finish b' s')

unfoldable pub freeze : LogSpaceBase → LogSpaceBase
freeze b = record b { state = frozen }

is_finalized_state : State → Bool
is_finalized_state finalized = true
is_finalized_state created = false
is_finalized_state normal = false
is_finalized_state frozen = false

-- The accessor `finalized()`.
unfoldable pub is_finalized : LogSpaceBase → Bool
unfolding is_finalized_state
is_finalized b = is_finalized_state b.state

is_frozen_state : State → Bool
is_frozen_state frozen = true
is_frozen_state created = false
is_frozen_state normal = false
is_frozen_state finalized = false

-- The accessor `frozen()`.
unfoldable pub is_frozen : LogSpaceBase → Bool
unfolding is_frozen_state
is_frozen b = is_frozen_state b.state

-- `SerializeToProto`
unfoldable pub serialize_to_proto : LogSpaceBase → MetaLogsProto
serialize_to_proto b = record { logspace_id = identifier b; metalogs = b.applied_metalogs }
