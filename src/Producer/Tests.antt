-- ===== src/Producer/Tests.antt =====
-- A producer of engine 3 with two appends, of callers 70 and 71.
use boki.Base.{
  ℕ, ◌+◌, ◌≤◌, ◌<◌, List, [], ◌∷◌, ◌++◌, none, some, true, ◌≡◌, refl, ◌==◌, if◌then◌else◌, lookup,
  insert, erase, contains, length, get_elem?, ok, arith,
}
use boki.Bits.{join_two32}
use boki.LogSpace.{LogSpaceBase, lite_mode, normal, log_space_base, add_interested_shard, index_of}
use boki.LogSpace.Tests.{two_engines, one_sequencer}
use boki.Producer.{
  LogProducer, AppendResult, log_producer, local_append, on_new_logs, on_finalized, discarded,
}
use boki.Producer.Batch.{Acknowledged, appends_answered}
use boki.Producer.Append.{start, append, append_is_fresh, finalized_answers, discarded_append}

abbrev first_localid : ℕ
first_localid = 0x300000000

abbrev pub base : LogSpaceBase
base = record {
  mode = lite_mode;
  state = normal;
  view = two_engines;
  sequencer_node = one_sequencer;
  metalog_position = 0;
  interested_shards = 0 ∷ [];
  shard_progresses = 0 ∷ 0 ∷ [];
  seqnum_position = 0;
  applied_metalogs = [];
  pending_metalogs = [];
}

abbrev idle : LogProducer
idle = record { next_localid = first_localid; pending_appends = []; pending_append_results = [] }

abbrev one_append : LogProducer
one_append = (local_append 70 idle).1

abbrev two_appends : LogProducer
two_appends = (local_append 71 one_append).1

started : log_producer 3 two_engines 1 ≡ ok (base, idle)
unfolding log_producer log_space_base add_interested_shard index_of lookup insert join_two32
started = refl

both_pending :
    (k : ℕ)
    → first_localid ≤ k
    → k < first_localid + 2
    → contains k two_appends.pending_appends ≡ true
unfolding local_append contains insert
both_pending k le lt = ground arith

appends_answered_example :
    (p' : LogProducer) × (on_new_logs base 0 7 first_localid 2 two_appends ≡ ok p')
    × Acknowledged 7 first_localid 2 two_appends p'
appends_answered_example =
    appends_answered base 0 7 first_localid 2 two_appends (omega arith) (omega arith) both_pending

append_is_fresh_example :
    (lookup (local_append 71 one_append).0 one_append.pending_appends ≡ none)
    × ((k : ℕ)
        → lookup k two_appends.pending_appends ≡ (
            if (local_append 71 one_append).0 == k
            then some 71
            else lookup k one_append.pending_appends))
append_is_fresh_example =
    append_is_fresh one_append 71
      (append 70 idle (omega arith) (start 3 1 two_engines base idle started))

finalized_answers_example :
    (p' : LogProducer) × (on_finalized base 4 two_appends ≡ ok p')
    × (p'.pending_appends ≡ [])
    × (rs : List AppendResult) × (p'.pending_append_results
        ≡ two_appends.pending_append_results ++ rs)
    × (length rs ≡ length two_appends.pending_appends)
    × ((k v : ℕ)
        → lookup k two_appends.pending_appends ≡ some v
        → (i : ℕ) × (get_elem? rs i ≡ some (discarded_append k v)))
finalized_answers_example = finalized_answers base 4 two_appends

-- What the producer answers to a cut of both.
answers :
    (on_new_logs base 0 7 first_localid 2 two_appends)
    ≡ ok (record {
      next_localid = first_localid + 2;
      pending_appends = [];
      pending_append_results =
          (record {
            seqnum = 7;
            localid = first_localid;
            metalog_progress = 0x1000100000001;
            caller_data = 70;
          })
          ∷ (record {
            seqnum = 8;
            localid = first_localid + 1;
            metalog_progress = 0x1000100000001;
            caller_data = 71;
          })
          ∷ [];
    })
unfolding on_new_logs boki.Producer.new_logs_from local_append lookup insert erase join_two32
    boki.Bits.join_two16
answers = refl
