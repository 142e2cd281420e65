-- ===== src/Producer/Append.antt =====
-- The local ids of `LogProducer`: the debug check of `LocalAppend`, that its local id is not pending
-- already, holds in every state that the class reaches.
use boki.Base.{
  ℕ, zero, suc, ◌+◌, ◌≤◌, ◌<◌, ◌^◌, List, [], none, some, ◌≡◌, refl, ap, subst, ◌∙◌, ◌==◌,
  if◌then◌else◌, Map, lookup, lookup-insert, lookup-erase, ok, expect, >>=-eq-ok, ok-injective,
  arith, Bool, true, false, ◌↔◌, ==_iff, length, get_elem?, ◌∷◌, ◌++◌, some-injective,
}
use boki.Bits.{u64}
use boki.View.{View}
use boki.LogSpace.{LogSpaceBase, lite_mode, log_space_base}
use boki.Producer.{
  LogProducer, log_producer, local_append, poll_append_results, new_logs_from, on_new_logs,
  on_finalized, AppendResult, discarded, invalid_log_seqnum,
}

-- The states of a producer: from its constructor by calls of its methods in any order, as long as
-- the counter of local ids does not wrap around.
pub data IsReached : LogProducer → Type 0 where
  start :
      (engine_id sequencer_id : ℕ) (view : View) (b : LogSpaceBase) (p : LogProducer)
      → log_producer engine_id view sequencer_id ≡ ok (b, p)
      → IsReached p
  append :
      (caller_data : ℕ) (p : LogProducer)
      → p.next_localid + 1 < 2 ^ 64
      → IsReached p
      → IsReached (local_append caller_data p).1
  poll : (p : LogProducer) → IsReached p → IsReached (poll_append_results p).1
  cut :
      (b : LogSpaceBase) (metalog_seqnum start_seqnum start_localid delta : ℕ) (p p' : LogProducer)
      → on_new_logs b metalog_seqnum start_seqnum start_localid delta p ≡ ok p'
      → IsReached p
      → IsReached p'
  finalize :
      (b : LogSpaceBase) (metalog_position : ℕ) (p p' : LogProducer)
      → on_finalized b metalog_position p ≡ ok p'
      → IsReached p
      → IsReached p'

-- No local id from the counter on is pending.
abbrev IsBelow : LogProducer → Type 0
IsBelow p = (k : ℕ) → p.next_localid ≤ k → lookup k p.pending_appends ≡ none

new_logs_from-IsBelow :
    (progress start_seqnum start_localid i n : ℕ) (p : LogProducer) {p' : LogProducer}
    → new_logs_from progress start_seqnum start_localid i n p ≡ ok p'
    → IsBelow p
    → IsBelow p'
unfolding new_logs_from
new_logs_from-IsBelow progress start_seqnum start_localid i zero p h below =
    subst IsBelow (ok-injective h) below
new_logs_from-IsBelow progress start_seqnum start_localid i (suc n) p h below =
    let localid = u64 (start_localid + i) in
    let (caller_data, got, h₁) = >>=-eq-ok (expect (lookup localid p.pending_appends)) _ h in
    new_logs_from-IsBelow progress start_seqnum start_localid (i + 1) n _ h₁
      (λ k le. lookup-erase localid k p.pending_appends ∙ ground (arith, below k le))

IsReached-IsBelow : (p : LogProducer) → IsReached p → IsBelow p
unfolding log_producer local_append poll_append_results on_new_logs on_finalized lookup
IsReached-IsBelow _ (start engine_id sequencer_id view b p h) =
    let (b₀, got, h₁) = >>=-eq-ok (log_space_base lite_mode view sequencer_id) _ h in
    subst IsBelow (ap (λ x. x.1) (ok-injective h₁)) (λ k le. refl)
IsReached-IsBelow _ (append caller_data p room r) = λ k le.
    let below = IsReached-IsBelow p r in
    lookup-insert p.next_localid k caller_data p.pending_appends ∙ ground (arith, below k)
IsReached-IsBelow _ (poll p r) = IsReached-IsBelow p r
IsReached-IsBelow _ (cut b metalog_seqnum start_seqnum start_localid delta p p' h r) =
    new_logs_from-IsBelow _ start_seqnum start_localid 0 delta p h (IsReached-IsBelow p r)
IsReached-IsBelow _ (finalize b metalog_position p p' h r) =
    subst IsBelow (ok-injective h) (λ k le. refl)

-- In every reached state, the local id that `local_append` gives out is not pending; after the call
-- it is pending with the caller's data, and all other pending appends are as before.
pub append_is_fresh :
    (p : LogProducer) (caller_data : ℕ)
    → IsReached p
    → (lookup (local_append caller_data p).0 p.pending_appends ≡ none)
      × ((k : ℕ)
          → lookup k (local_append caller_data p).1.pending_appends ≡ (
              if (local_append caller_data p).0 == k
              then some caller_data
              else lookup k p.pending_appends))
unfolding local_append
append_is_fresh p caller_data r = (
  IsReached-IsBelow p r p.next_localid (omega arith),
  λ k. lookup-insert p.next_localid k caller_data p.pending_appends,
)

-- The answer to an append that the finalized metalog does not order.
abbrev pub discarded_append : ℕ → ℕ → AppendResult
discarded_append k v = record {
  seqnum = invalid_log_seqnum;
  localid = k;
  metalog_progress = 0;
  caller_data = v;
}

discarded_lem :
    (m : Map ℕ) (k : ℕ) {v : ℕ}
    → lookup k m ≡ some v
    → (i : ℕ) × (get_elem? (discarded m) i ≡ some (discarded_append k v))
unfolding discarded lookup
discarded_lem [] k h = cc
discarded_lem ((j, w) ∷ m) k {v} h = go (j == k) (==_iff j k) (discarded_lem m k) h
  where
    go :
        (t : Bool)
        → (t ≡ true ↔ j ≡ k)
        → (lookup k m ≡ some v
            → (i : ℕ) × (get_elem? (discarded m) i ≡ some (discarded_append k v)))
        → (if t then some w else lookup k m) ≡ some v
        → (i : ℕ) × (get_elem? (discarded_append j w ∷ discarded m) i ≡ some (discarded_append k v))
    go true e rest g = (
      0,
      ap some
          (ap (λ l. discarded_append l w) (e.0 refl) ∙ ap (discarded_append k) (some-injective g)),
    )
    go false e rest g = let (i, at) = rest g in (suc i, at)

length-discarded : (m : Map ℕ) → length (discarded m) ≡ length m
unfolding discarded
length-discarded [] = refl
length-discarded ((j, w) ∷ m) = ap suc (length-discarded m)

-- Finalization never fails; it keeps the results that wait, adds one with the invalid sequence
-- number for every pending append and no other, and leaves no append pending.
pub finalized_answers :
    (b : LogSpaceBase) (metalog_position : ℕ) (p : LogProducer)
    → (p' : LogProducer) × (on_finalized b metalog_position p ≡ ok p')
      × (p'.pending_appends ≡ [])
      × (rs : List AppendResult) × (p'.pending_append_results ≡ p.pending_append_results ++ rs)
      × (length rs ≡ length p.pending_appends)
      × ((k v : ℕ)
          → lookup k p.pending_appends ≡ some v
          → (i : ℕ) × (get_elem? rs i ≡ some (discarded_append k v)))
unfolding on_finalized
finalized_answers b metalog_position p = (
  record p {
    pending_append_results = p.pending_append_results ++ discarded p.pending_appends;
    pending_appends = [];
  },
  refl,
  refl,
  discarded p.pending_appends,
  refl,
  length-discarded p.pending_appends,
  λ k v h. discarded_lem p.pending_appends k h,
)
