-- ===== src/Storage/Tests.antt =====
-- A storage node of engines 3 and 4 that holds an entry of engine 3 and live entries 0 to 2.
use boki.Base.{
  ℕ, ◌+◌, ◌<◌, ◌^◌, [], ◌∷◌, some, true, false, ◌≡◌, refl, ◌==◌, lookup, insert, contains, length,
  arith,
}
use boki.Bits.{u16, high_half64, join_two32}
use boki.Proto.{no_index_data}
use boki.View.{is_source_engine_node}
use boki.Storage.{
  LogMetaData, LogEntry, LogStorage, progress_of, store, log_entries_persisted, first_gap,
  advance_shard_progress,
}
use boki.Storage.Shards.{IsGap, store_advances}
use boki.Storage.Live.{Shrinks, persisted_are_dropped}

abbrev metadata : LogMetaData
metadata = record {
  user_logspace = 1;
  seqnum = 0;
  localid = 0x300000000;
  num_tags = 0;
  data_size = 1;
}

abbrev entry : LogEntry
entry = record { metadata = metadata; user_tags = []; bytes = 7 ∷ [] }

abbrev node : LogStorage
node = record {
  storage_node = record { node_id = 5; source_engine_nodes = 3 ∷ 4 ∷ [] };
  shard_progress_dirty = false;
  shard_progresses = (3, 0) ∷ (4, 0) ∷ [];
  persisted_seqnum_position = 0;
  live_seqnums = 0 ∷ 1 ∷ 2 ∷ [];
  live_log_entries = (0, entry) ∷ (1, entry) ∷ (2, entry) ∷ [];
  pending_log_entries = (0x300000001, entry) ∷ [];
  pending_read_requests = [];
  pending_read_results = [];
  index_data = no_index_data;
}

from_three : u16 (high_half64 0x300000000) ≡ 3
unfolding high_half64
from_three = refl

is_source : is_source_engine_node node.storage_node 3 ≡ true
unfolding is_source_engine_node
is_source = refl

has_room : progress_of 3 node.shard_progresses + length node.pending_log_entries + 1 < 2 ^ 32
unfolding lookup
has_room = omega arith

store_advances_example :
    (s' : LogStorage) × (store metadata [] (7 ∷ []) node ≡ (true, s'))
    × (lookup 0x300000000 s'.pending_log_entries ≡ some entry)
    × IsGap 3 s'.pending_log_entries
        (progress_of 3 node.shard_progresses)
        (progress_of 3 s'.shard_progresses)
    × ((e : ℕ)
        → (3 == e) ≡ false
        → progress_of e s'.shard_progresses ≡ progress_of e node.shard_progresses)
store_advances_example = store_advances metadata [] (7 ∷ []) node 3 from_three is_source has_room

-- The entry fills the gap before the one that waits.
two_ahead : progress_of 3 (store metadata [] (7 ∷ []) node).1.shard_progresses ≡ 2
unfolding store advance_shard_progress first_gap high_half64 is_source_engine_node lookup insert
    contains join_two32
two_ahead = refl

persisted_are_dropped_example :
    ((log_entries_persisted 1 2 node).persisted_seqnum_position ≡ 2)
    × Shrinks 1 2 node.live_seqnums node.live_log_entries
        (log_entries_persisted 1 2 node).live_seqnums
        (log_entries_persisted 1 2 node).live_log_entries
persisted_are_dropped_example = persisted_are_dropped 1 2 node
