-- ===== src/LogSpace/CatchUp.antt =====
-- A backup or a primary (a full copy whose virtual methods do nothing) that has been given every
-- metalog below a number gets to that number, and never panics on well-formed metalogs.
use boki.Base.{
  ℕ, suc, map, ◌+◌, ◌≤◌, ◌<◌, List, [], ◌∷◌, Bool, true, false, ◌&&◌, not, ◌≡◌, ◌≢◌, refl, sym,
  subst, ap, ◌∙◌, ◌⊎◌, inl, inr, length, get_elem?_below, set, All, Map, insert, contains,
  contains-insert, AllKeys, AllKeys-mono, IsSorted, IsSorted-mono, contains-IsSorted, ok, >>=-eq-ok,
  ok-injective, arith, ltb, Bool-cases, ltb→lt, ltb→le, ==_iff, ◌==◌, elem,
}
use boki.Bits.{u32}
use boki.Proto.{MetaLogProto, MetaLogType, invalid, new_logs, trim}
use boki.View.{View}
use boki.LogSpace.{
  LogSpaceBase, Hooks, no_hooks, full_mode, is_full, is_trim, can_apply, can_apply_in,
  record_applied, apply_shards, apply_typed, apply_meta_log, advance, provide_meta_log, provide_all,
  log_space_base,
}
use boki.LogSpace.Frame.{
  apply_meta_log-Same, skip, stop, apply, advance-Round, ignored, outdated, taken,
  provide_meta_log-Delivery,
}
use boki.LogSpace.Agreement.{
  Issued, IsEntry, Agrees, with_pending, delivered-Agrees, can_apply_next, applied-Agrees,
  fresh-Agrees, provide_meta_log-Agrees, provide_all-Agrees,
}

-- The metalog of the number is applied or pending.
abbrev pub IsCovered : ℕ → LogSpaceBase → Type 0
IsCovered k b = (k < b.metalog_position) ⊎ (contains k b.pending_metalogs ≡ true)

module _ (issued : Issued) {S : Type 0} (h : Hooks S) where
  -- Nothing that was delivered is lost in the loop.
  advance-IsCovered :
      (j : ℕ) (pending : Map MetaLogProto) (b : LogSpaceBase) (s : S) {r : LogSpaceBase × S}
      → b.pending_metalogs ≡ pending
      → Agrees issued 0 b
      → advance h pending b s ≡ ok r
      → IsCovered j b
      → IsCovered j r.0
  unfolding advance contains
  advance-IsCovered j [] b s {r} p a e c = subst (λ x. IsCovered j x.0) (ok-injective e) c
  advance-IsCovered j ((k, m) ∷ rest) b s {r} p a e c = elim (advance-Round h k m rest b s e) [
    | skip old e₁ ↦
        advance-IsCovered j rest (record b { pending_metalogs = rest }) s refl
          (with_pending issued 0 rest b a keys.1
            (IsSorted-mono 0 (suc k) rest (omega arith) sorted.1))
          e₁ (dropped old covered)
    | stop new _ e₁ ↦ subst (λ x. IsCovered j x.0) (sym e₁) c
    | apply new test b₁ s₁ s₂ done hook e₁ ↦
        let here = next test in
        let (a₁, moved) =
          applied-Agrees issued m rest b b₁ a (apply_meta_log-Same h m b s done)
            (subst (λ i. IsEntry issued i m) here keys.0) keys.1
            (subst (λ i. IsSorted (suc i) rest) here sorted.1) in
        advance-IsCovered j rest (record (record_applied m b₁) { pending_metalogs = rest }) s₂ refl
          a₁ e₁ (used here moved covered)
  ]
    where
      keys : AllKeys (IsEntry issued) ((k, m) ∷ rest)
      keys = subst (AllKeys (IsEntry issued)) p a.pending

      sorted : IsSorted 0 ((k, m) ∷ rest)
      sorted = subst (IsSorted 0) p a.sorted

      covered : (j < b.metalog_position) ⊎ (contains j ((k, m) ∷ rest) ≡ true)
      covered = subst (λ q. (j < b.metalog_position) ⊎ (contains j q ≡ true)) p c

      next : can_apply b m ≡ ok true → k ≡ b.metalog_position
      next t = ground (arith, can_apply_next issued k m b true a.full keys.0.0 t)

      dropped :
          k < b.metalog_position
          → (j < b.metalog_position) ⊎ (contains j ((k, m) ∷ rest) ≡ true)
          → (j < b.metalog_position) ⊎ (contains j rest ≡ true)
      dropped old q = ground arith

      used :
          {position : ℕ}
          → k ≡ b.metalog_position
          → position ≡ suc b.metalog_position
          → (j < b.metalog_position) ⊎ (contains j ((k, m) ∷ rest) ≡ true)
          → (j < position) ⊎ (contains j rest ≡ true)
      used here moved q = ground arith

  provide_meta_log-IsCovered :
      (j : ℕ) (m : MetaLogProto) (b : LogSpaceBase) (s : S) {r : Bool × LogSpaceBase × S}
      → Agrees issued (suc b.metalog_position) b
      → IsEntry issued m.metalog_seqnum m
      → provide_meta_log h m b s ≡ ok r
      → IsCovered j b ⊎ (j ≡ m.metalog_seqnum)
      → IsCovered j r.1
  unfolding is_full
  provide_meta_log-IsCovered j m b s {r} a entry e c = elim (provide_meta_log-Delivery h m b s e) [
    | ignored lite _ ↦ absurd (not_lite lite)
    | outdated old e₁ ↦ subst (λ x. IsCovered j x.1) (sym e₁) (late old c)
    | taken new b₁ s₁ e₁ e₂ ↦
        subst (λ x. IsCovered j x.1) (sym e₂)
          (advance-IsCovered j (insert m.metalog_seqnum m b.pending_metalogs)
            (record b { pending_metalogs = insert m.metalog_seqnum m b.pending_metalogs }) s refl
            (delivered-Agrees issued m b a entry) e₁ (inserted c))
  ]
    where
      not_lite : (is_trim m.type && not (is_full b.mode)) ≡ true → ⊥
      not_lite q = ground (arith, a.full)

      late :
          m.metalog_seqnum < b.metalog_position
          → IsCovered j b ⊎ (j ≡ m.metalog_seqnum)
          → IsCovered j b
      late old q = ground arith

      inserted :
          IsCovered j b ⊎ (j ≡ m.metalog_seqnum)
          → (j < b.metalog_position)
            ⊎ (contains j (insert m.metalog_seqnum m b.pending_metalogs) ≡ true)
      inserted q = ground (arith, contains-insert m.metalog_seqnum j m b.pending_metalogs)

  -- Every metalog that was delivered ends up applied or pending.
  pub provide_all-IsCovered :
      (j : ℕ) (ms : List MetaLogProto) (b : LogSpaceBase) (s : S) {r : LogSpaceBase × S}
      → Agrees issued (suc b.metalog_position) b
      → All (λ m. IsEntry issued m.metalog_seqnum m) ms
      → provide_all h ms b s ≡ ok r
      → IsCovered j b ⊎ (elem j (map (λ m. m.metalog_seqnum) ms) ≡ true)
      → IsCovered j r.0
  unfolding provide_all
  provide_all-IsCovered j [] b s a entries e c =
      subst (λ x. IsCovered j x.0) (ok-injective e) (ground arith)
  provide_all-IsCovered j (m ∷ ms) b s a entries e c =
      let ((moved, b₁, s₁), e₁, e₂) = >>=-eq-ok (provide_meta_log h m b s) _ e in
      provide_all-IsCovered j ms b₁ s₁ (provide_meta_log-Agrees issued h m b s a entries.0 e₁)
        entries.1 e₂ (later b₁ (provide_meta_log-IsCovered j m b s a entries.0 e₁))
    where
      later :
          (q : LogSpaceBase)
          → (IsCovered j b ⊎ (j ≡ m.metalog_seqnum) → IsCovered j q)
          → IsCovered j q ⊎ (elem j (map (λ m. m.metalog_seqnum) ms) ≡ true)
      later q f = elim c [
        | inl before ↦ inl (f (inl before))
        | inr listed ↦ elim (Bool-cases (m.metalog_seqnum == j)) [
          | inl hit ↦ inl (f (inr (sym ((==_iff _ _).0 hit))))
          | inr miss ↦ inr (rw miss at listed)
        ]
      ]

-- For a cut over `n` shards: of a known kind, with a start and a length for each shard.
pub record IsWellFormed (n : ℕ) (m : MetaLogProto) : Type 0 where
  pub known : m.type ≢ invalid
  pub starts : n ≤ length m.new_logs_proto.shard_starts
  pub deltas : n ≤ length m.new_logs_proto.shard_deltas

apply_shards_total :
    (m : MetaLogProto) (i : ℕ) (ids : List ℕ) (start : ℕ) (b : LogSpaceBase)
    → i + length ids ≤ length m.new_logs_proto.shard_starts
    → i + length ids ≤ length m.new_logs_proto.shard_deltas
    → (r : ℕ × LogSpaceBase × Unit {0}) × (apply_shards no_hooks m i ids start b tt ≡ ok r)
unfolding apply_shards
apply_shards_total m i [] start b h g = ((start, b, tt), refl)
apply_shards_total m i (id ∷ ids) start b h g =
    let (x, p) = get_elem?_below m.new_logs_proto.shard_starts i (omega arith) in
    let (d, q) = get_elem?_below m.new_logs_proto.shard_deltas i (omega arith) in
    let (r, e) =
      apply_shards_total m (i + 1) ids (u32 (start + d))
        (record b { shard_progresses = set b.shard_progresses i (u32 (x + d)) }) (omega arith)
        (omega arith) in
    (r, ground (arith, e))

apply_typed_total :
    (t : MetaLogType) (m : MetaLogProto) (b : LogSpaceBase)
    → t ≢ invalid
    → IsWellFormed (length b.view.engine_node_ids) m
    → (r : LogSpaceBase × Unit {0}) × (apply_typed no_hooks t m b tt ≡ ok r)
unfolding apply_typed
apply_typed_total new_logs m b known w =
    let ((next, b₁, s₁), e) =
      apply_shards_total m 0 b.view.engine_node_ids m.new_logs_proto.start_seqnum b
        (omega (arith, w.starts)) (omega (arith, w.deltas)) in
    ((record b₁ { seqnum_position = next }, s₁), rw e)
apply_typed_total trim m b known w = ((b, tt), refl)
apply_typed_total invalid m b known w = absurd (known refl)

apply_meta_log_total :
    (m : MetaLogProto) (b : LogSpaceBase)
    → IsWellFormed (length b.view.engine_node_ids) m
    → (r : LogSpaceBase × Unit {0}) × (apply_meta_log no_hooks m b tt ≡ ok r)
unfolding apply_meta_log
apply_meta_log_total m b w = apply_typed_total m.type m b w.known w

can_apply_full :
    (m : MetaLogProto) (b : LogSpaceBase)
    → b.mode ≡ full_mode
    → can_apply b m ≡ ok (m.metalog_seqnum == b.metalog_position)
unfolding can_apply
can_apply_full m b full = ap (λ x. can_apply_in x b m) full

advance_total :
    (pending : Map MetaLogProto) (b : LogSpaceBase)
    → b.mode ≡ full_mode
    → AllKeys (λ k m. IsWellFormed (length b.view.engine_node_ids) m) pending
    → (r : LogSpaceBase × Unit {0}) × (advance no_hooks pending b tt ≡ ok r) × (r.0.view ≡ b.view)
unfolding advance record_applied
advance_total [] b full w = ((b, tt), refl, refl)
advance_total ((k, m) ∷ rest) b full w = elim (Bool-cases (ltb k b.metalog_position)) [
  | inl old ↦
      let (r, e, v) = advance_total rest (record b { pending_metalogs = rest }) full w.1 in
      (r, rw (old, advance) e, v)
  | inr new ↦ elim (Bool-cases (m.metalog_seqnum == b.metalog_position)) [
    | inl here ↦
        let ((b₁, s₁), e₁) = apply_meta_log_total m b w.0 in
        let same = apply_meta_log-Same no_hooks m b tt e₁ in
        let (r, e, v) =
          advance_total rest (record (record_applied m b₁) { pending_metalogs = rest })
            (same.mode ∙ full) (rw same.view w.1) in
        (r, rw (new, advance) (rw (can_apply_full m b full) (rw here (rw e₁ e))), v ∙ same.view)
    | inr later ↦ ((b, tt), rw (new, advance) (rw (can_apply_full m b full) (rw later refl)), refl)
  ]
]

-- A settled copy waits for the metalog at its position.
uncovered :
    (issued : Issued) (b : LogSpaceBase)
    → Agrees issued (suc b.metalog_position) b
    → IsCovered b.metalog_position b
    → ⊥
uncovered issued b a c = ground (
  arith,
  contains-IsSorted (suc b.metalog_position) b.metalog_position b.pending_metalogs (omega arith)
      a.sorted,
)

module _ (issued : Issued) (shards : ℕ) (formed : (i : ℕ) → IsWellFormed shards (issued.at i)) where
  provide_meta_log_total :
      (m : MetaLogProto) (b : LogSpaceBase)
      → Agrees issued (suc b.metalog_position) b
      → IsEntry issued m.metalog_seqnum m
      → length b.view.engine_node_ids ≡ shards
      → (r : Bool × LogSpaceBase × Unit {0}) × (provide_meta_log no_hooks m b tt ≡ ok r)
        × (r.1.view ≡ b.view)
  unfolding provide_meta_log is_full
  provide_meta_log_total m b a entry n =
      elim (Bool-cases (ltb m.metalog_seqnum b.metalog_position)) [
        | inl old ↦ ((false, b, tt), rw (full, old) refl, refl)
        | inr new ↦
            let d = delivered-Agrees issued m b a entry in
            let ((b₁, s₁), e, v) =
              advance_total (insert m.metalog_seqnum m b.pending_metalogs)
                (record b { pending_metalogs = insert m.metalog_seqnum m b.pending_metalogs })
                a.full
                (AllKeys-mono (IsEntry issued) _ _ (λ k x q. rw (n, q.0) (formed k)) d.pending) in
            ((ltb b.metalog_position b₁.metalog_position, b₁, s₁), rw (full, new) (rw e), v)
      ]
    where
      full : (is_trim m.type && not (is_full b.mode)) ≡ false
      full = ground (arith, a.full)

  provide_all_total :
      (ms : List MetaLogProto) (b : LogSpaceBase)
      → Agrees issued (suc b.metalog_position) b
      → All (λ m. IsEntry issued m.metalog_seqnum m) ms
      → length b.view.engine_node_ids ≡ shards
      → (r : LogSpaceBase × Unit {0}) × (provide_all no_hooks ms b tt ≡ ok r)
  unfolding provide_all
  provide_all_total [] b a entries n = ((b, tt), refl)
  provide_all_total (m ∷ ms) b a entries n =
      let ((moved, b₁, s₁), e, v) = provide_meta_log_total m b a entries.0 n in
      let (r, e₁) =
        provide_all_total ms b₁ (provide_meta_log-Agrees issued no_hooks m b tt a entries.0 e)
          entries.1 (ap (λ (w : View). length w.engine_node_ids) v ∙ n) in
      (r, rw e e₁)

  -- A new full copy without virtual methods, given issued metalogs in any order and any number of
  -- times, never panics; if all numbers below `n` are among them, it ends at position `n` or later.
  pub catches_up :
      (view : View) (sequencer_id n : ℕ) (b : LogSpaceBase) (ms : List MetaLogProto)
      → log_space_base full_mode view sequencer_id ≡ ok b
      → length b.view.engine_node_ids ≡ shards
      → All (λ m. IsEntry issued m.metalog_seqnum m) ms
      → ((i : ℕ) → i < n → elem i (map (λ (m : MetaLogProto). m.metalog_seqnum) ms) ≡ true)
      → (r : LogSpaceBase × Unit {0}) × (provide_all no_hooks ms b tt ≡ ok r)
        × (n ≤ r.0.metalog_position)
  catches_up view sequencer_id n b ms new len entries all =
      let a = fresh-Agrees issued view sequencer_id new in
      let (r, e) = provide_all_total ms b a entries len in
      (
        r,
        e,
        elim (Bool-cases (ltb r.0.metalog_position n)) [
          | inl short ↦ absurd (
              uncovered issued r.0 (provide_all-Agrees issued no_hooks ms b tt a entries e) (
                provide_all-IsCovered issued no_hooks r.0.metalog_position ms b tt a entries e
                  (inr (all _ (ltb→lt _ _ short)))))
          | inr enough ↦ ltb→le _ _ enough
        ],
      )
