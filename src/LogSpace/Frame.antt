-- ===== src/LogSpace/Frame.antt =====
-- What a round of the loop over the pending metalogs does, and what applying a metalog leaves alone.
use boki.Base.{
  ℕ, ◌+◌, ◌≤◌, ◌<◌, List, [], ◌∷◌, Bool, true, false, ◌||◌, ◌≡◌, sym, inl, inr, get_elem?, set,
  elem, insert, not, ◌&&◌, ltb, ltb→lt, ltb→le, if◌then◌else◌, Map, Bool-cases, Result, ok, ◌>>=◌,
  expect, >>=-eq-ok, ok-injective, ap, ◌∙◌, subst, arith,
}
use boki.Bits.{u32}
use boki.Proto.{MetaLogProto, MetaLogType, invalid, new_logs, trim}
use boki.LogSpace.{
  LogSpaceBase, Hooks, is_full, can_apply, apply_shards, apply_typed, apply_meta_log,
  record_applied, advance, is_trim, provide_meta_log, provide_all,
}

-- All but the shards' progress and the sequence number.
pub record Same (b b' : LogSpaceBase) : Type 0 where
  pub mode : b'.mode ≡ b.mode
  pub state : b'.state ≡ b.state
  pub view : b'.view ≡ b.view
  pub node : b'.sequencer_node ≡ b.sequencer_node
  pub position : b'.metalog_position ≡ b.metalog_position
  pub interested : b'.interested_shards ≡ b.interested_shards
  pub applied_metalogs : b'.applied_metalogs ≡ b.applied_metalogs
  pub pending : b'.pending_metalogs ≡ b.pending_metalogs

Same-refl : {b b' : LogSpaceBase} → b' ≡ b → Same b b'
Same-refl e = ground arith

module _ {S : Type 0} (h : Hooks S) where
  pub apply_shards-Same :
      (m : MetaLogProto) (i : ℕ) (ids : List ℕ) (start : ℕ) (b : LogSpaceBase) (s : S) {next : ℕ}
      {b' : LogSpaceBase} {s' : S}
      → apply_shards h m i ids start b s ≡ ok (next, b', s')
      → Same b b'
  unfolding apply_shards
  apply_shards-Same m i [] start b s e = ground arith
  apply_shards-Same m i (id ∷ ids) start b s e =
      let (shard_start, _, e₁) =
        >>=-eq-ok (expect (get_elem? m.new_logs_proto.shard_starts i)) _ e in
      let (delta, _, e₂) = >>=-eq-ok (expect (get_elem? m.new_logs_proto.shard_deltas i)) _ e₁ in
      let (s₁, _, e₃) =
        >>=-eq-ok (if is_full b.mode || elem i b.interested_shards then _ else ok s) _ e₂ in
      let p = set b.shard_progresses i (u32 (shard_start + delta)) in
      let rest =
        apply_shards-Same m (i + 1) ids (u32 (start + delta)) (record b { shard_progresses = p }) s₁
          e₃ in
      ground (arith, rest)

  apply_typed-Same :
      (t : MetaLogType) (m : MetaLogProto) (b : LogSpaceBase) (s : S) {b' : LogSpaceBase} {s' : S}
      → apply_typed h t m b s ≡ ok (b', s')
      → Same b b'
  unfolding apply_typed
  apply_typed-Same new_logs m b s e =
      let ((next, b₁, s₁), shards, done) =
        >>=-eq-ok (apply_shards h m 0 b.view.engine_node_ids m.new_logs_proto.start_seqnum b s) _
          e in
      ground (
        arith,
        apply_shards-Same m 0 b.view.engine_node_ids m.new_logs_proto.start_seqnum b s shards,
      )
  apply_typed-Same trim m b s e = ground arith
  apply_typed-Same invalid m b s e = cc

  pub apply_meta_log-Same :
      (m : MetaLogProto) (b : LogSpaceBase) (s : S) {b' : LogSpaceBase} {s' : S}
      → apply_meta_log h m b s ≡ ok (b', s')
      → Same b b'
  unfolding apply_meta_log
  apply_meta_log-Same m b s e = apply_typed-Same m.type m b s e

  -- A round that succeeds: it drops an old metalog, stops, or applies one.
  pub data Round (k : ℕ) (m : MetaLogProto) (rest : Map MetaLogProto) (b : LogSpaceBase) (s : S)
      (r : LogSpaceBase × S) : Type 0 where
    skip :
        k < b.metalog_position
        → advance h rest (record b { pending_metalogs = rest }) s ≡ ok r
        → Round k m rest b s r
    stop : b.metalog_position ≤ k → can_apply b m ≡ ok false → r ≡ (b, s) → Round k m rest b s r
    apply :
        b.metalog_position ≤ k
        → can_apply b m ≡ ok true
        → (b₁ : LogSpaceBase) (s₁ s₂ : S) → apply_meta_log h m b s ≡ ok (b₁, s₁)
        → h.on_meta_log_applied (record_applied m b₁) m s₁ ≡ ok s₂
        → advance h rest (record (record_applied m b₁) { pending_metalogs = rest }) s₂ ≡ ok r
        → Round k m rest b s r

  -- After the test whether the metalog can be applied.
  after_test : MetaLogProto → Map MetaLogProto → LogSpaceBase → S → Bool → Result (LogSpaceBase × S)
  after_test m rest b s can = elim can [
    | false ↦ ok (b, s)
    | true ↦ do
      (b₁, s₁) ← apply_meta_log h m b s
      s₂ ← h.on_meta_log_applied (record_applied m b₁) m s₁
      advance h rest (record (record_applied m b₁) { pending_metalogs = rest }) s₂
  ]

  after_test-Round :
      (k : ℕ) (m : MetaLogProto) (rest : Map MetaLogProto) (b : LogSpaceBase) (s : S) (can : Bool)
      {r : LogSpaceBase × S}
      → b.metalog_position ≤ k
      → can_apply b m ≡ ok can
      → after_test m rest b s can ≡ ok r
      → Round k m rest b s r
  unfolding after_test
  after_test-Round k m rest b s false le c e = stop le c (sym (ok-injective e))
  after_test-Round k m rest b s true le c e =
      let ((b₁, s₁), done, e₁) = >>=-eq-ok (apply_meta_log h m b s) _ e in
      let (s₂, hook, e₂) = >>=-eq-ok (h.on_meta_log_applied (record_applied m b₁) m s₁) _ e₁ in
      apply le c b₁ s₁ s₂ done hook e₂

  pub advance-Round :
      (k : ℕ) (m : MetaLogProto) (rest : Map MetaLogProto) (b : LogSpaceBase) (s : S)
      {r : LogSpaceBase × S}
      → advance h ((k, m) ∷ rest) b s ≡ ok r
      → Round k m rest b s r
  unfolding advance after_test
  advance-Round k m rest b s e = elim (Bool-cases (ltb k b.metalog_position)) [
    | inl old ↦ skip (ltb→lt _ _ old) (rw (old, advance) at e)
    | inr new ↦
        let e' = rw (new, advance) at e in
        let (can, c, e₁) = >>=-eq-ok (can_apply b m) _ e' in
        after_test-Round k m rest b s can (ltb→le _ _ new) c e₁
  ]

  -- A delivery that succeeds: it is ignored in lite mode, it is late, or the loop runs with it.
  pub data Delivery (m : MetaLogProto) (b : LogSpaceBase) (s : S) (r : Bool × LogSpaceBase × S)
      : Type 0 where
    ignored : (is_trim m.type && not (is_full b.mode)) ≡ true → r ≡ (false, b, s) → Delivery m b s r
    outdated : m.metalog_seqnum < b.metalog_position → r ≡ (false, b, s) → Delivery m b s r
    taken :
        b.metalog_position ≤ m.metalog_seqnum
        → (b₁ : LogSpaceBase) (s₁ : S)
        → advance h
            (insert m.metalog_seqnum m b.pending_metalogs)
            (record b { pending_metalogs = insert m.metalog_seqnum m b.pending_metalogs })
            s
          ≡ ok (b₁, s₁)
        → r ≡ (ltb b.metalog_position b₁.metalog_position, b₁, s₁)
        → Delivery m b s r

  pub provide_meta_log-Delivery :
      (m : MetaLogProto) (b : LogSpaceBase) (s : S) {r : Bool × LogSpaceBase × S}
      → provide_meta_log h m b s ≡ ok r
      → Delivery m b s r
  unfolding provide_meta_log
  provide_meta_log-Delivery m b s e = elim (Bool-cases (is_trim m.type && not (is_full b.mode))) [
    | inl lite ↦ ignored lite (sym (ok-injective (rw lite at e)))
    | inr full ↦ elim (Bool-cases (ltb m.metalog_seqnum b.metalog_position)) [
      | inl old ↦ outdated (ltb→lt _ _ old) (sym (ok-injective (rw (full, old) at e)))
      | inr new ↦
          let ((b₁, s₁), e₁, e₂) = >>=-eq-ok (advance h _ _ s) _ (rw (full, new) at e) in
          taken (ltb→le _ _ new) b₁ s₁ e₁ (sym (ok-injective e₂))
    ]
  ]

-- What no call but `Freeze` changes once a log space is made.
pub record IsStatic (b b' : LogSpaceBase) : Type 0 where
  pub mode : b'.mode ≡ b.mode
  pub state : b'.state ≡ b.state
  pub view : b'.view ≡ b.view
  pub node : b'.sequencer_node ≡ b.sequencer_node
  pub interested : b'.interested_shards ≡ b.interested_shards

IsStatic-refl : {b b' : LogSpaceBase} → b' ≡ b → IsStatic b b'
IsStatic-refl e = ground arith

IsStatic-trans : {a b c : LogSpaceBase} → IsStatic a b → IsStatic b c → IsStatic a c
IsStatic-trans p q = record {
  mode = q.mode ∙ p.mode;
  state = q.state ∙ p.state;
  view = q.view ∙ p.view;
  node = q.node ∙ p.node;
  interested = q.interested ∙ p.interested;
}

module _ {S : Type 0} (h : Hooks S) where
  pub advance-IsStatic :
      (pending : Map MetaLogProto) (b : LogSpaceBase) (s : S) {r : LogSpaceBase × S}
      → advance h pending b s ≡ ok r
      → IsStatic b r.0
  unfolding advance record_applied
  advance-IsStatic [] b s {r} e = IsStatic-refl (ap (λ x. x.0) (sym (ok-injective e)))
  advance-IsStatic ((k, m) ∷ rest) b s {r} e = elim (advance-Round h k m rest b s e) [
    | skip old e₁ ↦
        let q = advance-IsStatic rest (record b { pending_metalogs = rest }) s e₁ in
        record {
          mode = q.mode;
          state = q.state;
          view = q.view;
          node = q.node;
          interested = q.interested;
        }
    | stop new c e₁ ↦ IsStatic-refl (ap (λ x. x.0) e₁)
    | apply new c b₁ s₁ s₂ done hook e₁ ↦
        let p = apply_meta_log-Same h m b s done in
        let q =
          advance-IsStatic rest (record (record_applied m b₁) { pending_metalogs = rest }) s₂ e₁ in
        record {
          mode = q.mode ∙ p.mode;
          state = q.state ∙ p.state;
          view = q.view ∙ p.view;
          node = q.node ∙ p.node;
          interested = q.interested ∙ p.interested;
        }
  ]

  pub provide_meta_log-IsStatic :
      (m : MetaLogProto) (b : LogSpaceBase) (s : S) {r : Bool × LogSpaceBase × S}
      → provide_meta_log h m b s ≡ ok r
      → IsStatic b r.1
  provide_meta_log-IsStatic m b s {r} e = elim (provide_meta_log-Delivery h m b s e) [
    | ignored _ e₁ ↦ IsStatic-refl (ap (λ x. x.1) e₁)
    | outdated _ e₁ ↦ IsStatic-refl (ap (λ x. x.1) e₁)
    | taken _ b₁ s₁ e₁ e₂ ↦
        let q =
          advance-IsStatic (insert m.metalog_seqnum m b.pending_metalogs)
            (record b { pending_metalogs = insert m.metalog_seqnum m b.pending_metalogs }) s e₁ in
        subst (λ x. IsStatic b x.1) (sym e₂)
          (record {
            mode = q.mode;
            state = q.state;
            view = q.view;
            node = q.node;
            interested = q.interested;
          })
  ]

  pub provide_all-IsStatic :
      (ms : List MetaLogProto) (b : LogSpaceBase) (s : S) {r : LogSpaceBase × S}
      → provide_all h ms b s ≡ ok r
      → IsStatic b r.0
  unfolding provide_all
  provide_all-IsStatic [] b s e = IsStatic-refl (ap (λ x. x.0) (sym (ok-injective e)))
  provide_all-IsStatic (m ∷ ms) b s e =
      let ((moved, b₁, s₁), e₁, e₂) = >>=-eq-ok (provide_meta_log h m b s) _ e in
      IsStatic-trans (provide_meta_log-IsStatic m b s e₁) (provide_all-IsStatic ms b₁ s₁ e₂)
