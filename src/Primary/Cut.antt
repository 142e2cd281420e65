-- ===== src/Primary/Cut.antt =====
-- The cut that the primary makes: each shard goes on where its last cut ended, and the log space's
-- sequence numbers go on by as many as the shards have new entries.
use boki.Base.{
  ℕ, suc, ◌+◌, ◌-◌, ◌^◌, ◌<◌, List, [], ◌∷◌, ◌++◌, Option, some, Bool, true, false, ◌≡◌, refl, sym,
  subst, ap, ◌∙◌, inl, inr, elem, ◌==◌, if◌then◌else◌, ==_iff, Map, lookup, insert, lookup-insert,
  get_elem?, get_elem?-append_at, length, length-append, ◌||◌, ok, expect, >>=-eq-ok, expect-eq-ok,
  ok-injective, some-injective, Bool-cases, arith, AllKeys, AllKeys-insert,
}
use mathlib.Core.List.{append_assoc}
use boki.Bits.{u32, join_two32, low_half64}
use boki.Proto.{MetaLogProto, new_logs}
use boki.LogSpace.{
  LogSpaceBase, no_hooks, full_mode, is_full, apply_shards, apply_meta_log, apply_typed,
  provide_meta_log, advance, record_applied,
}
use boki.LogSpace.Frame.{
  ignored, outdated, taken, provide_meta_log-Delivery, skip, stop, apply, advance-Round,
  apply_meta_log-Same,
}
use boki.Primary.{
  MetaLogPrimary, shard_replicated_position, next_position, cut_shards, cut_metalog, CutParts,
  mark_next_cut,
}
use boki.Primary.Safety.{clean, marked, mark_next_cut-Cut, min_progress-le}

abbrev pub IsDistinct : List ℕ → Type 0
IsDistinct [] = Unit
IsDistinct (x ∷ xs) = (elem x xs ≡ false) × IsDistinct xs

-- The starts are the old cuts, and the starts with the lengths are the new cuts.
abbrev pub Continues : List ℕ → Map ℕ → Map ℕ → List ℕ → List ℕ → Type 0
Continues [] old new [] [] = Unit
Continues (e ∷ es) old new (s ∷ ss) (d ∷ ds) =
    (lookup e old ≡ some s) × (lookup e new ≡ some (u32 (s + d))) × Continues es old new ss ds
Continues [] old new (s ∷ ss) ds = ⊥
Continues [] old new [] (d ∷ ds) = ⊥
Continues (e ∷ es) old new [] ds = ⊥
Continues (e ∷ es) old new (s ∷ ss) [] = ⊥

abbrev IsWord : ℕ → ℕ → Type 0
IsWord _ v = v < 2 ^ 32

lookup-AllKeys : (k : ℕ) (m : Map ℕ) {v : ℕ} → AllKeys IsWord m → lookup k m ≡ some v → v < 2 ^ 32
unfolding lookup
lookup-AllKeys k [] a h = cc
lookup-AllKeys k ((j, w) ∷ m) {v} a h = ground (arith, lookup-AllKeys k m {v = v} a.1)

next_position-lt :
    (p : MetaLogPrimary) (e cut : ℕ) {current : ℕ}
    → cut < 2 ^ 32
    → next_position p e cut ≡ ok current
    → current < 2 ^ 32
unfolding next_position shard_replicated_position
next_position-lt p e cut {current} h got = elim (Bool-cases (elem e p.dirty_shards)) [
  | inl dirty ↦
      let (engine, _, rest) =
        >>=-eq-ok (expect (lookup e p.base.view.engine_nodes)) _
          (rw (dirty, next_position) at got) in
      omega
        (arith, (min_progress-le p.storage_progresses e engine.storage_nodes (2 ^ 32 - 1) rest).0)
  | inr kept ↦ subst (λ x. x < 2 ^ 32) (ok-injective (rw (kept, next_position) at got)) h
]

cut_shards-keeps :
    (p : MetaLogPrimary) (k : ℕ) (es : List ℕ) (cuts : Map ℕ) {c : CutParts}
    → elem k es ≡ false
    → cut_shards p es cuts ≡ ok c
    → lookup k c.cuts ≡ lookup k cuts
unfolding cut_shards
cut_shards-keeps p k [] cuts absent h =
    ap (λ (x : CutParts). lookup k x.cuts) (sym (ok-injective h))
cut_shards-keeps p k (e ∷ es) cuts absent h =
    let (cut, last, h₁) = >>=-eq-ok (expect (lookup e cuts)) _ h in
    let (current, next, h₂) = >>=-eq-ok (next_position p e cut) _ h₁ in
    let (rest, more, h₃) = >>=-eq-ok (cut_shards p es (insert e current cuts)) _ h₂ in
    ap (λ (x : CutParts). lookup k x.cuts) (sym (ok-injective h₃))
    ∙ cut_shards-keeps p k es (insert e current cuts) (tail absent) more
    ∙ other current absent
  where
    tail : elem k (e ∷ es) ≡ false → elem k es ≡ false
    tail a = ground arith

    other : (v : ℕ) → elem k (e ∷ es) ≡ false → lookup k (insert e v cuts) ≡ lookup k cuts
    other v a = ground (arith, lookup-insert e k v cuts)

Continues-old :
    (es : List ℕ) (old old' new : Map ℕ) (ss ds : List ℕ)
    → ((k : ℕ) → elem k es ≡ true → lookup k old ≡ lookup k old')
    → Continues es old new ss ds
    → Continues es old' new ss ds
Continues-old [] old old' new [] [] same c = tt
Continues-old [] old old' new (s ∷ ss) ds same c = absurd c
Continues-old [] old old' new [] (d ∷ ds) same c = absurd c
Continues-old (e ∷ es) old old' new [] ds same c = absurd c
Continues-old (e ∷ es) old old' new (s ∷ ss) [] same c = absurd c
Continues-old (e ∷ es) old old' new (s ∷ ss) (d ∷ ds) same c = (
  sym (same e (ground arith)) ∙ c.0,
  c.1,
  Continues-old es old old' new ss ds (λ k m. same k (ground (arith, m))) c.2,
)

cut_shards-Continues :
    (p : MetaLogPrimary) (es : List ℕ) (cuts : Map ℕ) {c : CutParts}
    → IsDistinct es
    → AllKeys IsWord cuts
    → cut_shards p es cuts ≡ ok c
    → Continues es cuts c.cuts c.starts c.deltas
unfolding cut_shards
cut_shards-Continues p [] cuts distinct words h =
    subst (λ x. Continues [] cuts x.cuts x.starts x.deltas) (ok-injective h) tt
cut_shards-Continues p (e ∷ es) cuts {c} distinct words h =
    let (cut, last, h₁) = >>=-eq-ok (expect (lookup e cuts)) _ h in
    let (current, next, h₂) = >>=-eq-ok (next_position p e cut) _ h₁ in
    let (rest, more, h₃) = >>=-eq-ok (cut_shards p es (insert e current cuts)) _ h₂ in
    let cut_word = lookup-AllKeys e cuts words (expect-eq-ok _ last) in
    let word = next_position-lt p e cut cut_word next in
    subst (λ x. Continues (e ∷ es) cuts x.cuts x.starts x.deltas) (ok-injective h₃)
      (
        expect-eq-ok _ last,
        cut_shards-keeps p e es (insert e current cuts) distinct.0 more
            ∙ moved current cut cut_word word,
        Continues-old es (insert e current cuts) cuts rest.cuts rest.starts rest.deltas
            (λ k m. others k current m distinct.0)
            (cut_shards-Continues p es (insert e current cuts) distinct.1
              (AllKeys-insert IsWord e current cuts word words) more),
      )
  where
    moved :
        (current cut : ℕ)
        → cut < 2 ^ 32
        → current < 2 ^ 32
        → lookup e (insert e current cuts) ≡ some (u32 (cut + u32 (current + 2 ^ 32 - cut)))
    moved current cut w v = lookup-insert e e current cuts ∙ ground arith

    clash : (k : ℕ) → elem k es ≡ false → elem k es ≡ true → ⊥
    clash k a m = cc

    others :
        (k current : ℕ)
        → elem k es ≡ true
        → elem e es ≡ false
        → lookup k (insert e current cuts) ≡ lookup k cuts
    others k current m a = elim (Bool-cases (e == k)) [
      | inl same ↦ absurd (clash k (subst (λ x. elem x es ≡ false) ((==_iff e k).0 same) a) m)
      | inr differs ↦ lookup-insert e k current cuts ∙ rw differs
    ]

abbrev pub sum : List ℕ → ℕ
sum [] = 0
sum (x ∷ xs) = x + sum xs

apply_shards-next :
    (m : MetaLogProto) (before deltas ids : List ℕ) (i start : ℕ) (b : LogSpaceBase) {next : ℕ}
    {b' : LogSpaceBase} {s : Unit {0}}
    → m.new_logs_proto.shard_deltas ≡ before ++ deltas
    → length before ≡ i
    → length deltas ≡ length ids
    → start < 2 ^ 32
    → apply_shards no_hooks m i ids start b tt ≡ ok (next, b', s)
    → next ≡ u32 (start + sum deltas)
unfolding apply_shards
apply_shards-next m before [] [] i start b split here len word h = ground arith
apply_shards-next m before (d ∷ ds) [] i start b split here len word h = absurd (omega (arith, len))
apply_shards-next m before [] (id ∷ ids) i start b split here len word h =
    absurd (omega (arith, len))
apply_shards-next m before (d ∷ ds) (id ∷ ids) i start b {next} split here len word h =
    let (shard_start, _, h₁) = >>=-eq-ok (expect (get_elem? m.new_logs_proto.shard_starts i)) _ h in
    let (delta, got, h₂) = >>=-eq-ok (expect (get_elem? m.new_logs_proto.shard_deltas i)) _ h₁ in
    let (_, _, h₃) =
      >>=-eq-ok (if is_full b.mode || elem i b.interested_shards then ok tt else ok tt) _ h₂ in
    let same : delta ≡ d = some-injective (
      sym (expect-eq-ok _ got)
      ∙ ap (λ xs. get_elem? xs i) split
      ∙ get_elem?-append_at before d ds i here) in
    let rest =
      apply_shards-next m (before ++ d ∷ []) ds ids (i + 1) (u32 (start + delta)) _
        (split ∙ sym (append_assoc before (d ∷ []) ds))
        (omega (arith, length-append {0} before (d ∷ []), here)) (omega (arith, len)) (omega arith)
        h₃ in
    omega (arith, rest, same)

cut_shards-length :
    (p : MetaLogPrimary) (es : List ℕ) (cuts : Map ℕ) {c : CutParts}
    → cut_shards p es cuts ≡ ok c
    → length c.deltas ≡ length es
unfolding cut_shards
cut_shards-length p [] cuts h = ap (λ (x : CutParts). length x.deltas) (sym (ok-injective h))
cut_shards-length p (e ∷ es) cuts h =
    let (cut, _, h₁) = >>=-eq-ok (expect (lookup e cuts)) _ h in
    let (current, _, h₂) = >>=-eq-ok (next_position p e cut) _ h₁ in
    let (rest, more, h₃) = >>=-eq-ok (cut_shards p es (insert e current cuts)) _ h₂ in
    ap (λ (x : CutParts). length x.deltas) (sym (ok-injective h₃))
    ∙ ap suc (cut_shards-length p es (insert e current cuts) more)

-- How applying a cut moves the base.
record Moves (m : MetaLogProto) (b b' : LogSpaceBase) : Type 0 where
  applied : b'.applied_metalogs ≡ b.applied_metalogs ++ m ∷ []
  position : b'.metalog_position ≡ u32 (m.metalog_seqnum + 1)
  seqnum :
      b'.seqnum_position ≡ u32 (m.new_logs_proto.start_seqnum + sum m.new_logs_proto.shard_deltas)

apply-Moves :
    (m : MetaLogProto) (b b₁ : LogSpaceBase) {s : Unit {0}}
    → m.type ≡ new_logs
    → b.mode ≡ full_mode
    → m.new_logs_proto.start_seqnum < 2 ^ 32
    → length m.new_logs_proto.shard_deltas ≡ length b.view.engine_node_ids
    → apply_meta_log no_hooks m b tt ≡ ok (b₁, s)
    → Moves m b (record (record_applied m b₁) { pending_metalogs = [] })
unfolding apply_meta_log record_applied
apply-Moves m b b₁ {s} kind full word len h =
    let n = m.new_logs_proto in
    let ((next, b₂, _), run, h₁) =
      >>=-eq-ok (apply_shards no_hooks m 0 b.view.engine_node_ids n.start_seqnum b tt) _
        (subst (λ t. apply_typed no_hooks t m b tt ≡ ok (b₁, s)) kind h) in
    let same = apply_meta_log-Same no_hooks m b tt h in
    record {
      applied = rw (same.mode, full, same.applied_metalogs);
      position = refl;
      seqnum =
          ap (λ (x : LogSpaceBase × Unit {0}). x.0.seqnum_position) (sym (ok-injective h₁))
          ∙ apply_shards-next m [] n.shard_deltas b.view.engine_node_ids 0 n.start_seqnum b refl
              refl len word run;
    }

-- A log space with nothing pending that takes the metalog at its position.
provide-Moves :
    (m : MetaLogProto) (b : LogSpaceBase) {b' : LogSpaceBase} {s : Unit {0}}
    → m.type ≡ new_logs
    → b.mode ≡ full_mode
    → b.pending_metalogs ≡ []
    → m.metalog_seqnum ≡ b.metalog_position
    → m.new_logs_proto.start_seqnum < 2 ^ 32
    → length m.new_logs_proto.shard_deltas ≡ length b.view.engine_node_ids
    → provide_meta_log no_hooks m b tt ≡ ok (true, b', s)
    → Moves m b b'
unfolding advance insert
provide-Moves m b {b'} kind full idle here word len h =
    elim (provide_meta_log-Delivery no_hooks m b tt h) [
      | ignored _ e ↦ cc
      | outdated old _ ↦ absurd (omega (arith, old, here))
      | taken _ b₁ s₁ run e ↦
          let run' = rw idle at run in
          elim (advance-Round no_hooks m.metalog_seqnum m [] waiting tt run') [
            | skip old _ ↦ absurd (omega (arith, old, here))
            | stop _ _ e₁ ↦ absurd (ground (arith, e, e₁))
            | apply _ _ b₂ s₂ s₃ done _ e₁ ↦
                let v = apply-Moves m waiting b₂ kind full word len done in
                subst (Moves m b)
                  (ap (λ (x : LogSpaceBase × Unit {0}). x.0) (ok-injective e₁)
                    ∙ ap (λ (x : Bool × LogSpaceBase × Unit {0}). x.1) (sym e))
                  (record { applied = v.applied; position = v.position; seqnum = v.seqnum })
          ]
    ]
  where
    waiting : LogSpaceBase
    waiting = record b { pending_metalogs = (m.metalog_seqnum, m) ∷ [] }

abbrev pub Continued : MetaLogPrimary → MetaLogProto → MetaLogPrimary → Type 0
Continued p m p' =
    Continues p.base.view.engine_node_ids p.last_cut p'.last_cut m.new_logs_proto.shard_starts
      m.new_logs_proto.shard_deltas
    × (m.new_logs_proto.start_seqnum ≡ p.base.seqnum_position)
    × (p'.base.seqnum_position
        ≡ u32 (m.new_logs_proto.start_seqnum + sum m.new_logs_proto.shard_deltas))
    × (m.metalog_seqnum ≡ p.base.metalog_position)
    × (p'.base.metalog_position ≡ suc p.base.metalog_position)
    × (p'.base.applied_metalogs ≡ p.base.applied_metalogs ++ m ∷ [])

-- A cut that is made: for distinct engines, cuts below 2 ^ 32 and a full log space with nothing
-- pending, it starts each shard at its last cut and ends it at its new one, starts at the log
-- space's sequence number and moves that on by the sum of the shards' lengths, takes the next
-- metalog number, and is put behind the applied metalogs.
pub cut_continues :
    (p : MetaLogPrimary) {m : MetaLogProto} {p' : MetaLogPrimary}
    → IsDistinct p.base.view.engine_node_ids
    → AllKeys IsWord p.last_cut
    → p.base.mode ≡ full_mode
    → p.base.pending_metalogs ≡ []
    → p.base.seqnum_position < 2 ^ 32
    → suc p.base.metalog_position < 2 ^ 32
    → mark_next_cut p ≡ ok (some m, p')
    → Continued p m p'
unfolding low_half64 join_two32
cut_continues p {m} {p'} distinct words full idle word room h = elim (mark_next_cut-Cut p h) [
  | clean _ e ↦ cc
  | marked c b parts given e ↦
      let moves =
        provide-Moves (cut_metalog p c) p.base refl full idle refl (omega arith)
          (cut_shards-length p p.base.view.engine_node_ids p.last_cut parts) given in
      subst (λ x. Continued p x p')
        (some-injective (ap (λ (x : Option MetaLogProto × MetaLogPrimary). x.0) (sym e)))
        (subst (Continued p (cut_metalog p c))
          (ap (λ (x : Option MetaLogProto × MetaLogPrimary). x.1) (sym e))
          (
            cut_shards-Continues p p.base.view.engine_node_ids p.last_cut distinct words parts,
            omega arith,
            moves.seqnum,
            refl,
            omega (arith, moves.position),
            moves.applied,
          ))
]
