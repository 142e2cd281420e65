-- ===== src/Storage/Live.antt =====
-- The live entries of `LogStorage`: what `ShrinkLiveEntriesIfNeeded` drops.
use boki.Base.{
  ℕ, ◌≤◌, ◌<◌, List, [], ◌∷◌, ◌++◌, Option, none, Bool, true, false, ◌&&◌, ◌==◌, ◌≡◌, ◌⊎◌, inl, inr,
  refl, ap, ◌∙◌, ltb, ltb→lt, ltb→le, if◌then◌else◌, length, All, Map, lookup, erase, lookup-erase,
  arith,
}
use boki.Storage.{
  LogEntry, LogStorage, shrink, log_entries_persisted, shrink_live_entries_if_needed,
}

-- Few enough are left, or the first is not persisted.
abbrev pub IsShrunk : ℕ → ℕ → List ℕ → Type 0
IsShrunk max_live persisted [] = Unit
IsShrunk max_live persisted (k ∷ ks) = (length (k ∷ ks) ≤ max_live) ⊎ (persisted ≤ k)

-- What is left of a map without the keys of a list.
unfoldable pub lookup_without : List ℕ → ℕ → Map LogEntry → Option LogEntry
lookup_without [] k m = lookup k m
lookup_without (j ∷ js) k m = if j == k then none else lookup_without js k m

-- The first of the live sequence numbers are gone, with their entries and no others. Each was
-- persisted, and each was dropped while more than `max_live` were there.
pub record Shrinks (max_live persisted : ℕ) (ks : List ℕ) (m : Map LogEntry) (ks' : List ℕ)
    (m' : Map LogEntry) : Type 0 where
  pub dropped : List ℕ
  pub split : ks ≡ dropped ++ ks'
  pub persisted_before : All (λ k. k < persisted) dropped
  pub not_too_many : (dropped ≡ []) ⊎ (max_live ≤ length ks')
  pub enough : IsShrunk max_live persisted ks'
  pub entries : (k : ℕ) → lookup k m' ≡ lookup_without dropped k m

lookup_without-erase :
    (js : List ℕ) (j k : ℕ) (m : Map LogEntry)
    → lookup_without js k (erase j m) ≡ lookup_without (j ∷ js) k m
unfolding lookup_without
lookup_without-erase [] j k m = lookup-erase j k m
lookup_without-erase (i ∷ js) j k m = ground (arith, lookup_without-erase js j k m)

shrink-Shrinks :
    (max_live persisted : ℕ) (ks : List ℕ) (m : Map LogEntry)
    → Shrinks max_live persisted ks m
        (shrink max_live persisted ks m).0
        (shrink max_live persisted ks m).1
unfolding shrink lookup_without
shrink-Shrinks max_live persisted [] m = record {
  dropped = [];
  split = refl;
  persisted_before = tt;
  not_too_many = inl refl;
  enough = tt;
  entries = λ k. refl;
}
shrink-Shrinks max_live persisted (j ∷ ks) m =
    go (shrink-Shrinks max_live persisted ks (erase j m)) (ltb max_live (length (j ∷ ks))) refl
      (ltb j persisted) refl
  where
    rest : List ℕ × Map LogEntry
    rest = shrink max_live persisted ks (erase j m)

    drops :
        max_live < length (j ∷ ks)
        → j < persisted
        → Shrinks max_live persisted ks (erase j m) rest.0 rest.1
        → Shrinks max_live persisted (j ∷ ks) m rest.0 rest.1
    drops many old r = record {
      dropped = j ∷ r.dropped;
      split = ap (λ l. j ∷ l) r.split;
      persisted_before = (old, r.persisted_before);
      not_too_many = inr (elim r.not_too_many [
        | inl none_yet ↦ omega (arith, ap length (r.split ∙ ap (λ l. l ++ rest.0) none_yet), many)
        | inr le ↦ le
      ]);
      enough = r.enough;
      entries = λ k. r.entries k ∙ lookup_without-erase r.dropped j k m;
    }

    stops :
        (length (j ∷ ks) ≤ max_live) ⊎ (persisted ≤ j)
        → Shrinks max_live persisted (j ∷ ks) m (j ∷ ks) m
    stops why = record {
      dropped = [];
      split = refl;
      persisted_before = tt;
      not_too_many = inl refl;
      enough = why;
      entries = λ k. refl;
    }

    go :
        Shrinks max_live persisted ks (erase j m) rest.0 rest.1
        → (a : Bool) → ltb max_live (length (j ∷ ks)) ≡ a
        → (b : Bool) → ltb j persisted ≡ b
        → Shrinks max_live persisted
            (j ∷ ks)
            m
            (if a && b then rest else (j ∷ ks, m)).0
            (if a && b then rest else (j ∷ ks, m)).1
    go later true many true old = drops (ltb→lt _ _ many) (ltb→lt _ _ old) later
    go later true many false new = stops (inr (ltb→le _ _ new))
    go later false few b e = stops (inl (ltb→le _ _ few))

-- When a prefix of the log is persisted, the storage remembers the new position and drops the oldest
-- live sequence numbers, with their entries and no other entry: only ones before the new position, and
-- only as long as more than `max_live` are there. It stops when at most `max_live` are left or the
-- oldest one left is not before the new position.
pub persisted_are_dropped :
    (max_live new_position : ℕ) (s : LogStorage)
    → ((log_entries_persisted max_live new_position s).persisted_seqnum_position ≡ new_position)
      × Shrinks max_live new_position s.live_seqnums s.live_log_entries
          (log_entries_persisted max_live new_position s).live_seqnums
          (log_entries_persisted max_live new_position s).live_log_entries
unfolding log_entries_persisted shrink_live_entries_if_needed
persisted_are_dropped max_live new_position s =
    (refl, shrink-Shrinks max_live new_position s.live_seqnums s.live_log_entries)
