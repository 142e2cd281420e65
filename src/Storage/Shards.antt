-- ===== src/Storage/Shards.antt =====
-- The progress that `LogStorage` reports for a shard: how far its entries are stored without a gap.
use boki.Base.{
  ℕ, zero, suc, ◌+◌, ◌-◌, ◌^◌, ltb→lt, ltb→le, ◌≤◌, ◌<◌, List, [], ◌∷◌, Option, Bool, true, false,
  Bool-cases, ◌≡◌, inl, inr, refl, sym, subst, ap, ltb, length, Map, contains, lookup, insert,
  lookup-insert, erase, contains-erase, arith, ◌∙◌, some, none, if◌then◌else◌, ◌==◌, ==_iff,
  ==_refl, ◌↔◌,
}
use boki.Bits.{u16, u32, join_two32, high_half64}
use boki.View.{is_source_engine_node}
use boki.Storage.{
  LogEntry, LogMetaData, LogStorage, progress_of, first_gap, advance_shard_progress, store,
}

-- The entries from `lo` on and below `hi` are there, and entry `hi` is not.
pub record IsGap (engine_id : ℕ) (m : Map LogEntry) (lo hi : ℕ) : Type 0 where
  pub low : lo ≤ hi
  pub missing : contains (join_two32 engine_id hi) m ≡ false
  pub there : (k : ℕ) → lo ≤ k → k < hi → contains (join_two32 engine_id k) m ≡ true

length-erase_le : (k : ℕ) (m : Map LogEntry) → length (erase k m) ≤ length m
unfolding erase
length-erase_le k [] = omega arith
length-erase_le k ((j, w) ∷ m) = ground (arith, length-erase_le k m)

length-insert_le :
    (k : ℕ) (v : LogEntry) (m : Map LogEntry) → length (insert k v m) ≤ suc (length m)
unfolding insert
length-insert_le k v [] = omega arith
length-insert_le k v ((j, w) ∷ m) = ground (arith, length-insert_le k v m)

length-erase : (k : ℕ) (m : Map LogEntry) → contains k m ≡ true → length (erase k m) < length m
unfolding erase contains
length-erase k [] h = cc
length-erase k ((j, w) ∷ m) h = ground (arith, length-erase_le k m, length-erase k m)

join_two32-distinct :
    (engine_id a b : ℕ)
    → engine_id < 2 ^ 32
    → a < b
    → b < 2 ^ 32
    → (join_two32 engine_id a == join_two32 engine_id b) ≡ false
unfolding join_two32
join_two32-distinct engine_id a b he h hb = ground arith

-- A map that holds `n` consecutive entries of a shard has room for them.
room :
    (engine_id lo n : ℕ) (m : Map LogEntry)
    → engine_id < 2 ^ 32
    → lo + n ≤ 2 ^ 32
    → ((k : ℕ) → lo ≤ k → k < lo + n → contains (join_two32 engine_id k) m ≡ true)
    → n ≤ length m
room engine_id lo zero m he hn h = omega arith
room engine_id lo (suc n) m he hn h =
    let key = join_two32 engine_id lo in
    let rest = room engine_id (suc lo) n (erase key m) he (omega arith) (λ k le lt.
      contains-erase key (join_two32 engine_id k) m
      ∙ ap (λ t. if t then false else contains (join_two32 engine_id k) m)
          (join_two32-distinct engine_id lo k he (omega arith) (omega arith))
      ∙ h k (omega arith) (omega arith)) in
    omega (arith, rest, length-erase key m (h lo (omega arith) (omega arith)))

-- One more entry of the shard.
extend :
    (engine_id lo current : ℕ) (m : Map LogEntry)
    → contains (join_two32 engine_id current) m ≡ true
    → ((k : ℕ) → lo ≤ k → k < current → contains (join_two32 engine_id k) m ≡ true)
    → (k : ℕ) → lo ≤ k
    → k < suc current
    → contains (join_two32 engine_id k) m ≡ true
extend engine_id lo current m here h k le lt = elim (Bool-cases (ltb k current)) [
  | inl e ↦ h k le (ltb→lt k current e)
  | inr e ↦
      subst (λ j. contains (join_two32 engine_id j) m ≡ true) (omega (arith, ltb→le k current e))
        here
]

-- With fuel for the entries that the map has beyond those from `lo` to `current`.
first_gap_lem :
    (fuel engine_id lo current : ℕ) (m : Map LogEntry)
    → engine_id < 2 ^ 32
    → current + fuel < 2 ^ 32
    → lo ≤ current
    → length m + lo ≤ current + fuel
    → ((k : ℕ) → lo ≤ k → k < current → contains (join_two32 engine_id k) m ≡ true)
    → IsGap engine_id m lo (first_gap fuel engine_id m current)
unfolding first_gap
first_gap_lem zero engine_id lo current m he hc hlo hm h =
    elim (Bool-cases (contains (join_two32 engine_id current) m)) [
      | inl e ↦ absurd (
          omega (
            arith,
            room engine_id lo (suc current - lo) m he (omega arith)
                (λ k le lt. extend engine_id lo current m e h k le (omega arith)),
          ))
      | inr e ↦ record { low = hlo; missing = e; there = h }
    ]
first_gap_lem (suc fuel) engine_id lo current m he hc hlo hm h =
    elim (Bool-cases (contains (join_two32 engine_id current) m)) [
      | inl e ↦
          let next : u32 (current + 1) ≡ suc current = omega arith in
          subst
            (λ b.
              IsGap engine_id m lo
                (if b then first_gap fuel engine_id m (u32 (current + 1)) else current))
            (sym e)
            (subst (λ c. IsGap engine_id m lo (first_gap fuel engine_id m c)) (sym next)
              (first_gap_lem fuel engine_id lo (suc current) m he (omega arith) (omega arith)
                (omega arith) (extend engine_id lo current m e h)))
      | inr e ↦
          subst
            (λ b.
              IsGap engine_id m lo
                (if b then first_gap fuel engine_id m (u32 (current + 1)) else current))
            (sym e) (record { low = hlo; missing = e; there = h })
    ]

abbrev or_zero : Option ℕ → ℕ
or_zero o = elim o [ none ↦ 0 | some v ↦ v ]

-- What a raised counter leaves in the map.
progress_of-raise :
    (engine_id e new : ℕ) (s : LogStorage)
    → progress_of engine_id s.shard_progresses ≤ new
    → progress_of e
        (if ltb (progress_of engine_id s.shard_progresses) new
          then record s {
            shard_progress_dirty = true;
            shard_progresses = insert engine_id new s.shard_progresses;
          }
          else s).shard_progresses
      ≡ (if engine_id == e then new else progress_of e s.shard_progresses)
progress_of-raise engine_id e new s le =
    go (ltb (progress_of engine_id s.shard_progresses) new) refl (engine_id == e)
      (==_iff engine_id e) (lookup-insert engine_id e new s.shard_progresses)
  where
    go :
        (b : Bool)
        → ltb (progress_of engine_id s.shard_progresses) new ≡ b
        → (t : Bool) → (t ≡ true ↔ engine_id ≡ e)
        → lookup e (insert engine_id new s.shard_progresses)
          ≡ (if t then some new else lookup e s.shard_progresses)
        → progress_of e
            (if b
              then record s {
                shard_progress_dirty = true;
                shard_progresses = insert engine_id new s.shard_progresses;
              }
              else s).shard_progresses
          ≡ (if t then new else progress_of e s.shard_progresses)
    go true h true same l = ap or_zero l
    go true h false same l = ap or_zero l
    go false h true same l =
        let high = ltb→le (progress_of engine_id s.shard_progresses) new h in
        ap (λ i. progress_of i s.shard_progresses) (sym (same.0 refl)) ∙ omega (arith, le, high)
    go false h false same l = refl

advance-kept :
    (engine_id : ℕ) (s : LogStorage)
    → (advance_shard_progress engine_id s).pending_log_entries ≡ s.pending_log_entries
unfolding advance_shard_progress
advance-kept engine_id s = ground arith

advance_lem :
    (engine_id : ℕ) (s : LogStorage)
    → engine_id < 2 ^ 32
    → progress_of engine_id s.shard_progresses + length s.pending_log_entries < 2 ^ 32
    → IsGap engine_id s.pending_log_entries
        (progress_of engine_id s.shard_progresses)
        (progress_of engine_id (advance_shard_progress engine_id s).shard_progresses)
      × ((e : ℕ)
          → (engine_id == e) ≡ false
          → progress_of e (advance_shard_progress engine_id s).shard_progresses
            ≡ progress_of e s.shard_progresses)
unfolding advance_shard_progress
advance_lem engine_id s he hr =
    let old = progress_of engine_id s.shard_progresses in
    let new = first_gap (length s.pending_log_entries) engine_id s.pending_log_entries old in
    let gap =
      first_gap_lem (length s.pending_log_entries) engine_id old old s.pending_log_entries he hr
        (omega arith) (omega arith) (λ k le lt. absurd (omega arith)) in
    let raised = λ (e : ℕ). progress_of-raise engine_id e new s gap.low in
    (
      subst (IsGap engine_id s.pending_log_entries old)
          (sym (raised engine_id ∙ ap (λ b. if b then new else old) (==_refl engine_id))) gap,
      λ e ne. raised e ∙ ap (λ b. if b then new else progress_of e s.shard_progresses) ne,
    )

-- When a storage node stores an entry of one of its engines, and the counter of that shard does not
-- wrap around, the shard's progress moves up to the first position that is not stored: all entries
-- between the old and the new progress are there and the next is missing. The entry is kept, and
-- the progress of every other shard stays.
pub store_advances :
    (metadata : LogMetaData) (user_tags bytes : List ℕ) (s : LogStorage) (engine_id : ℕ)
    → u16 (high_half64 metadata.localid) ≡ engine_id
    → is_source_engine_node s.storage_node engine_id ≡ true
    → progress_of engine_id s.shard_progresses + length s.pending_log_entries + 1 < 2 ^ 32
    → (s' : LogStorage) × (store metadata user_tags bytes s ≡ (true, s'))
      × (lookup metadata.localid s'.pending_log_entries
          ≡ some (record { metadata = metadata; user_tags = user_tags; bytes = bytes }))
      × IsGap engine_id s'.pending_log_entries
          (progress_of engine_id s.shard_progresses)
          (progress_of engine_id s'.shard_progresses)
      × ((e : ℕ)
          → (engine_id == e) ≡ false
          → progress_of e s'.shard_progresses ≡ progress_of e s.shard_progresses)
unfolding store
store_advances metadata user_tags bytes s engine_id he src hr =
    let entry : LogEntry = record { metadata = metadata; user_tags = user_tags; bytes = bytes } in
    let st : LogStorage = record s {
      pending_log_entries = insert metadata.localid entry s.pending_log_entries;
    } in
    let small : engine_id < 2 ^ 32 = omega (arith, he) in
    let a =
      advance_lem engine_id st small
        (omega (arith, length-insert_le metadata.localid entry s.pending_log_entries)) in
    (
      advance_shard_progress engine_id st,
      rw he (rw src refl),
      ap (lookup metadata.localid) (advance-kept engine_id st)
          ∙ lookup-insert metadata.localid metadata.localid entry s.pending_log_entries
          ∙ ap (λ b. if b then some entry else lookup metadata.localid s.pending_log_entries)
              (==_refl metadata.localid),
      subst
          (λ m.
            IsGap engine_id m (progress_of engine_id s.shard_progresses)
              (progress_of engine_id (advance_shard_progress engine_id st).shard_progresses))
          (sym (advance-kept engine_id st)) a.0,
      a.1,
    )
