-- ===== src/Storage.antt =====
-- src/log/log_space.h and src/log/log_space.cpp, class `LogStorage`: what a storage node keeps of
-- one log space, with `LogMetaData` and `LogEntry` of src/log/common.h. The flag
-- `slog_storage_max_live_entries` is the argument `max_live`. A read request is the part of
-- `SharedLogMessage` that the class reads and the bytes of the rest.
pub mod Shards
pub mod Live
mod Tests
use boki.Base.{
  ℕ, zero, suc, ◌+◌, List, [], ◌∷◌, ◌++◌, Option, none, some, Bool, true, false, ◌&&◌, not, ltb,
  leb, ◌==◌, if◌then◌else◌, length, last?, Map, lookup, contains, insert, insert_multi, erase,
  Result, ok, panic, ◌>>=◌, expect,
}
use boki.Bits.{u16, u32, u64, join_two32, low_half64, high_half64}
use boki.Proto.{IndexDataProto, no_index_data}
use boki.View.{View, is_source_engine_node}
use boki.LogSpace.{
  LogSpaceBase, Hooks, lite_mode, normal, log_space_base, add_interested_shard, identifier,
  full_seqnum_position,
}

pub record LogMetaData : Type 0 where
  pub user_logspace : ℕ
  pub seqnum : ℕ
  pub localid : ℕ
  pub num_tags : ℕ
  pub data_size : ℕ

pub record LogEntry : Type 0 where
  pub metadata : LogMetaData
  pub user_tags : List ℕ
  pub bytes : List ℕ

pub record ReadRequest : Type 0 where
  pub logspace_id : ℕ
  pub seqnum_lowhalf : ℕ
  pub rest : List ℕ

-- `ReadResult`, a constructor for each status.
pub data ReadResult : Type 0 where
  found : LogEntry → ReadRequest → ReadResult
  lookup_db failed : ReadRequest → ReadResult

pub record LogStorage : Type 0 where
  pub storage_node : boki.View.Storage
  pub shard_progress_dirty : Bool
  pub shard_progresses : Map ℕ
  pub persisted_seqnum_position : ℕ
  pub live_seqnums : List ℕ
  pub live_log_entries : Map LogEntry
  pub pending_log_entries : Map LogEntry
  pub pending_read_requests : Map ReadRequest
  pub pending_read_results : List ReadResult
  pub index_data : IndexDataProto

-- `shard_progrsses_[engine_id]`, which reads zero where there is none.
abbrev pub progress_of : ℕ → Map ℕ → ℕ
progress_of engine_id m = elim (lookup engine_id m) [ none ↦ 0 | some v ↦ v ]

unfoldable pub add_shards : List ℕ → LogSpaceBase → LogSpaceBase
add_shards [] b = b
add_shards (e ∷ es) b = add_shards es (add_interested_shard e b)

unfoldable pub zero_progresses : List ℕ → Map ℕ → Map ℕ
zero_progresses [] m = m
zero_progresses (e ∷ es) m = zero_progresses es (insert e 0 m)

-- The constructor.
unfoldable pub log_storage : ℕ → View → ℕ → Result (LogSpaceBase × LogStorage)
log_storage storage_id view sequencer_id = do
  b ← log_space_base lite_mode view sequencer_id
  node ← expect (lookup storage_id view.storage_nodes)
  let b' = add_shards node.source_engine_nodes b
  ok (
    record b' { state = normal },
    record {
      storage_node = node;
      shard_progress_dirty = false;
      shard_progresses = zero_progresses node.source_engine_nodes [];
      persisted_seqnum_position = 0;
      live_seqnums = [];
      live_log_entries = [];
      pending_log_entries = [];
      pending_read_requests = [];
      pending_read_results = [];
      index_data = record no_index_data { logspace_id = identifier b };
    },
  )

-- The loop of `AdvanceShardProgress`: the first position from `current` on that is not pending. One
-- round of fuel for each pending entry is enough, as each round meets another entry.
unfoldable pub first_gap : ℕ → ℕ → Map LogEntry → ℕ → ℕ
first_gap zero engine_id m current = current
first_gap (suc fuel) engine_id m current =
    let rest = first_gap fuel engine_id m (u32 (current + 1)) in
    if contains (join_two32 engine_id current) m then rest else current

unfoldable pub advance_shard_progress : ℕ → LogStorage → LogStorage
advance_shard_progress engine_id s =
    let old = progress_of engine_id s.shard_progresses in
    let current = first_gap (length s.pending_log_entries) engine_id s.pending_log_entries old in
    if ltb old current
    then record s {
      shard_progress_dirty = true;
      shard_progresses = insert engine_id current s.shard_progresses;
    }
    else s

-- `Store`
unfoldable pub store : LogMetaData → List ℕ → List ℕ → LogStorage → Bool × LogStorage
store metadata user_tags bytes s =
    let engine_id = u16 (high_half64 metadata.localid) in
    if not (is_source_engine_node s.storage_node engine_id) then (false, s) else (
      true,
      advance_shard_progress engine_id (record s {
        pending_log_entries =
            insert metadata.localid
              (record { metadata = metadata; user_tags = user_tags; bytes = bytes })
              s.pending_log_entries;
      }),
    )

-- `ReadAt`
unfoldable pub read_at : LogSpaceBase → ReadRequest → LogStorage → LogStorage
read_at b request s =
    let seqnum = join_two32 request.logspace_id request.seqnum_lowhalf in
    if leb (full_seqnum_position b) seqnum
    then record s { pending_read_requests = insert_multi seqnum request s.pending_read_requests }
    else record s {
      pending_read_results =
          s.pending_read_results
          ++ (elim (lookup seqnum s.live_log_entries) [
            | some entry ↦ found entry request
            | none ↦
                if ltb seqnum s.persisted_seqnum_position then lookup_db request else failed request
          ])
            ∷ [];
    }

-- The live entries with the sequence numbers of the list.
unfoldable pub entries_at : Map LogEntry → List ℕ → Result (List LogEntry)
entries_at m [] = ok []
entries_at m (k ∷ ks) = do entry ← expect (lookup k m); rest ← entries_at m ks; ok (entry ∷ rest)

-- `absl::c_lower_bound` on the live sequence numbers, which grow: what lies from `position` on.
unfoldable pub from_position : ℕ → List ℕ → List ℕ
from_position position [] = []
from_position position (k ∷ ks) = if ltb k position then from_position position ks else k ∷ ks

-- `GrabLogEntriesForPersistence`, with the entries and the new position when it returns true.
unfoldable pub grab_log_entries_for_persistence : LogStorage → Result (Option (List LogEntry × ℕ))
grab_log_entries_for_persistence s = elim (last? s.live_seqnums) [
  | none ↦ ok none
  | some back ↦ if ltb back s.persisted_seqnum_position then ok none else (do
    entries ←
        entries_at s.live_log_entries (from_position s.persisted_seqnum_position s.live_seqnums)
    ok (some (entries, u64 (back + 1))))
]

-- The loop of `ShrinkLiveEntriesIfNeeded`.
unfoldable pub shrink : ℕ → ℕ → List ℕ → Map LogEntry → List ℕ × Map LogEntry
shrink max_live persisted [] m = ([], m)
shrink max_live persisted (k ∷ ks) m =
    let rest = shrink max_live persisted ks (erase k m) in
    if ltb max_live (length (k ∷ ks)) && ltb k persisted then rest else (k ∷ ks, m)

unfoldable pub shrink_live_entries_if_needed : ℕ → LogStorage → LogStorage
shrink_live_entries_if_needed max_live s =
    let (ks, m) = shrink max_live s.persisted_seqnum_position s.live_seqnums s.live_log_entries in
    record s { live_seqnums = ks; live_log_entries = m }

-- `LogEntriesPersisted`
unfoldable pub log_entries_persisted : ℕ → ℕ → LogStorage → LogStorage
log_entries_persisted max_live new_position s =
    shrink_live_entries_if_needed max_live (record s { persisted_seqnum_position = new_position })

-- `PollReadResults`
unfoldable pub poll_read_results : LogStorage → List ReadResult × LogStorage
poll_read_results s = (s.pending_read_results, record s { pending_read_results = [] })

-- `PollIndexData`
unfoldable pub poll_index_data : LogSpaceBase → LogStorage → Option IndexDataProto × LogStorage
poll_index_data b s = if length s.index_data.seqnum_halves == 0 then (none, s) else (
  some s.index_data,
  record s { index_data = record no_index_data { logspace_id = identifier b } },
)

unfoldable pub progresses_of : Map ℕ → List ℕ → List ℕ
progresses_of m [] = []
progresses_of m (e ∷ es) = progress_of e m ∷ progresses_of m es

-- `GrabShardProgressForSending`
unfoldable pub grab_shard_progress_for_sending : LogStorage → Option (List ℕ) × LogStorage
grab_shard_progress_for_sending s = if not s.shard_progress_dirty then (none, s) else (
  some (progresses_of s.shard_progresses s.storage_node.source_engine_nodes),
  record s { shard_progress_dirty = false },
)

-- The reads of entries before `start_seqnum`, which fail, and the reads that are left.
unfoldable pub fail_past : ℕ → Map ReadRequest → List ReadResult × Map ReadRequest
fail_past start_seqnum [] = ([], [])
fail_past start_seqnum ((k, request) ∷ m) =
    let (rs, rest) = fail_past start_seqnum m in
    if ltb k start_seqnum then (failed request ∷ rs, rest) else ([], (k, request) ∷ m)

-- The reads of `seqnum` in front, which get the entry, and the reads that are left.
unfoldable pub answer_reads : ℕ → LogEntry → Map ReadRequest → List ReadResult × Map ReadRequest
answer_reads seqnum entry [] = ([], [])
answer_reads seqnum entry ((k, request) ∷ m) =
    let (rs, rest) = answer_reads seqnum entry m in
    if k == seqnum then (found entry request ∷ rs, rest) else ([], (k, request) ∷ m)

-- The new rows of the index data.
unfoldable pub index_row : ℕ → ℕ → LogEntry → IndexDataProto → IndexDataProto
index_row seqnum localid entry d = record d {
  seqnum_halves = d.seqnum_halves ++ low_half64 seqnum ∷ [];
  engine_ids = d.engine_ids ++ high_half64 localid ∷ [];
  user_logspaces = d.user_logspaces ++ entry.metadata.user_logspace ∷ [];
  user_tag_sizes = d.user_tag_sizes ++ u32 (length entry.user_tags) ∷ [];
  user_tags = d.user_tags ++ entry.user_tags;
}

-- One round of the loop of `OnNewLogs`. The reads stay in the state between the rounds.
unfoldable pub new_log : ℕ → ℕ → ℕ → LogStorage → Result LogStorage
new_log max_live seqnum localid s = do
  pending ← expect (lookup localid s.pending_log_entries)
  let entry : LogEntry = record pending { metadata = record pending.metadata { seqnum = seqnum } }
  let shrunk = shrink_live_entries_if_needed max_live (record s {
    pending_log_entries = erase localid s.pending_log_entries;
    index_data = index_row seqnum localid entry s.index_data;
    live_seqnums = s.live_seqnums ++ seqnum ∷ [];
    live_log_entries = insert seqnum entry s.live_log_entries;
  })
  let (rs, left) = answer_reads seqnum entry s.pending_read_requests
  ok (record shrunk {
    pending_read_results = s.pending_read_results ++ rs;
    pending_read_requests = left;
  })

unfoldable pub new_logs_from : ℕ → ℕ → ℕ → ℕ → ℕ → LogStorage → Result LogStorage
new_logs_from max_live start_seqnum start_localid i zero s = ok s
new_logs_from max_live start_seqnum start_localid i (suc n) s = do
  s' ← new_log max_live (u64 (start_seqnum + i)) (u64 (start_localid + i)) s
  new_logs_from max_live start_seqnum start_localid (i + 1) n s'

unfoldable pub on_new_logs : ℕ → LogSpaceBase → ℕ → ℕ → ℕ → ℕ → LogStorage → Result LogStorage
on_new_logs max_live b metalog_seqnum start_seqnum start_localid delta s =
    let (rs, left) = fail_past start_seqnum s.pending_read_requests in
    new_logs_from max_live start_seqnum start_localid 0 delta (record s {
      pending_read_results = s.pending_read_results ++ rs;
      pending_read_requests = left;
    })

unfoldable pub on_finalized : LogSpaceBase → ℕ → LogStorage → Result LogStorage
on_finalized b metalog_position s = elim s.pending_read_requests [
  | [] ↦ ok (record s { pending_log_entries = [] })
  | request ∷ requests ↦ panic
]

-- The virtual methods of the class.
abbrev pub storage_hooks : ℕ → Hooks LogStorage
storage_hooks max_live = record {
  on_new_logs = on_new_logs max_live;
  on_trim = λ b m u t s x. ok x;
  on_meta_log_applied = λ b m x. ok x;
  on_finalized = on_finalized;
}
