-- ===== src/Producer.antt =====
-- src/log/log_space.h and src/log/log_space.cpp, class `LogProducer`: an engine's own appends, from
-- the local id that it gives out to the sequence number that the metalog gives. Callers' data are
-- opaque pointers, here numbers. The base class calls the two virtual methods.
pub mod Batch
pub mod Append
pub mod Tests
use boki.Base.{
  ℕ, zero, suc, ◌+◌, ◌-◌, ◌^◌, List, [], ◌∷◌, ◌++◌, Option, none, some, Bool, true, false, Map,
  lookup, insert, erase, Result, ok, panic, ◌>>=◌, expect, map,
}
use boki.Bits.{u32, u64, join_two32}
use boki.View.{View}
use boki.LogSpace.{
  LogSpaceBase, Hooks, lite_mode, normal, log_space_base, add_interested_shard, identifier,
}

-- `protocol::kInvalidLogSeqNum`
abbrev pub invalid_log_seqnum : ℕ
invalid_log_seqnum = 2 ^ 64 - 1

pub record AppendResult : Type 0 where
  pub seqnum : ℕ
  pub localid : ℕ
  pub metalog_progress : ℕ
  pub caller_data : ℕ

pub record LogProducer : Type 0 where
  pub next_localid : ℕ
  pub pending_appends : Map ℕ
  pub pending_append_results : List AppendResult

-- The constructor.
unfoldable pub log_producer : ℕ → View → ℕ → Result (LogSpaceBase × LogProducer)
log_producer engine_id view sequencer_id = do
  b ← log_space_base lite_mode view sequencer_id
  ok (
    record (add_interested_shard engine_id b) { state = normal },
    record {
      next_localid = join_two32 engine_id 0;
      pending_appends = [];
      pending_append_results = [];
    },
  )

-- `LocalAppend`, with the local id that it gives out.
unfoldable pub local_append : ℕ → LogProducer → ℕ × LogProducer
local_append caller_data p = (
  p.next_localid,
  record p {
    pending_appends = insert p.next_localid caller_data p.pending_appends;
    next_localid = u64 (p.next_localid + 1);
  },
)

-- `PollAppendResults`
unfoldable pub poll_append_results : LogProducer → List AppendResult × LogProducer
poll_append_results p = (p.pending_append_results, record p { pending_append_results = [] })

-- The loop of `OnNewLogs`, from round `i` on with `n` rounds left.
unfoldable pub new_logs_from : ℕ → ℕ → ℕ → ℕ → ℕ → LogProducer → Result LogProducer
new_logs_from progress start_seqnum start_localid i zero p = ok p
new_logs_from progress start_seqnum start_localid i (suc n) p = do
  let localid = u64 (start_localid + i)
  caller_data ← expect (lookup localid p.pending_appends)
  let result : AppendResult = record {
    seqnum = u64 (start_seqnum + i);
    localid = localid;
    metalog_progress = progress;
    caller_data = caller_data;
  }
  new_logs_from progress start_seqnum start_localid (i + 1) n (record p {
    pending_append_results = p.pending_append_results ++ result ∷ [];
    pending_appends = erase localid p.pending_appends;
  })

unfoldable pub on_new_logs : LogSpaceBase → ℕ → ℕ → ℕ → ℕ → LogProducer → Result LogProducer
on_new_logs b metalog_seqnum start_seqnum start_localid delta p =
    new_logs_from (join_two32 (identifier b) (u32 (metalog_seqnum + 1))) start_seqnum start_localid
      0 delta p

unfoldable pub discarded : Map ℕ → List AppendResult
discarded = map λ (kv : ℕ × ℕ). record {
  seqnum = invalid_log_seqnum;
  localid = kv.0;
  metalog_progress = 0;
  caller_data = kv.1;
}

unfoldable pub on_finalized : LogSpaceBase → ℕ → LogProducer → Result LogProducer
on_finalized b metalog_position p = ok (record p {
  pending_append_results = p.pending_append_results ++ discarded p.pending_appends;
  pending_appends = [];
})

-- The virtual methods of the class.
abbrev pub producer_hooks : Hooks LogProducer
producer_hooks = record {
  on_new_logs = on_new_logs;
  on_trim = λ b m u t s x. ok x;
  on_meta_log_applied = λ b m x. ok x;
  on_finalized = on_finalized;
}
