-- ===== src/LogSpace/Agreement.antt =====
-- In full mode (the primary, the backups and the index) every copy of a metalog is a prefix of the
-- one that its sequencer issued, whatever the order and the number of the deliveries.
use boki.Base.{
  ℕ, suc, ◌+◌, ◌^◌, ◌≤◌, ◌<◌, List, [], ◌∷◌, ◌++◌, none, some, Bool, true, false, ◌≡◌, refl, sym,
  subst, ap, inl, inr, ◌∙◌, ltb→lt, ltb→le, IsSorted-mono, length, length-append, get_elem?,
  get_elem?-append_left, get_elem?-append_last, All, Map, insert, lookup, AllKeys, AllKeys-insert,
  IsSorted, insert-IsSorted, Bool-cases, ok, >>=-eq-ok, ok-injective, arith, ltb, expect, ◌==◌,
  if◌then◌else◌,
}
use boki.Bits.{u32}
use boki.View.{View}
use boki.Proto.{MetaLogProto}
use boki.LogSpace.{
  LogSpaceBase, Hooks, full_mode, log_space_base, record_applied, can_apply, advance,
  provide_meta_log, provide_all, get_meta_log, is_full, can_apply_in,
}
use boki.LogSpace.Frame.{
  Same, apply_meta_log-Same, skip, stop, apply, advance-Round, ignored, outdated, taken,
  provide_meta_log-Delivery,
}

-- The metalogs that a sequencer issues, by their numbers.
pub record Issued : Type 0 where
  pub at : ℕ → MetaLogProto
  pub numbered : (i : ℕ) → (at i).metalog_seqnum ≡ i

-- A metalog with its number, below the largest 32-bit one.
abbrev pub IsEntry : Issued → ℕ → MetaLogProto → Type 0
IsEntry issued k m = (m ≡ issued.at k) × (suc k < 2 ^ 32)

-- The copy holds the issued metalogs up to its position; what is pending is issued too and is not
-- below `lo`.
pub record Agrees (issued : Issued) (lo : ℕ) (b : LogSpaceBase) : Type 0 where
  pub full : b.mode ≡ full_mode
  pub counted : length b.applied_metalogs ≡ b.metalog_position
  pub held : (i : ℕ) → i < b.metalog_position → get_elem? b.applied_metalogs i ≡ some (issued.at i)
  pub pending : AllKeys (IsEntry issued) b.pending_metalogs
  pub sorted : IsSorted lo b.pending_metalogs

module _ (issued : Issued) where
  get_elem?-snoc :
      (xs : List MetaLogProto) (m : MetaLogProto) (p i : ℕ)
      → length xs ≡ p
      → ((i : ℕ) → i < p → get_elem? xs i ≡ some (issued.at i))
      → m ≡ issued.at p
      → i < suc p
      → get_elem? (xs ++ m ∷ []) i ≡ some (issued.at i)
  get_elem?-snoc xs m p i len held e lt = elim (Bool-cases (ltb i p)) [
    | inl old ↦
        get_elem?-append_left xs (m ∷ []) i (omega (arith, ltb→lt i p old))
        ∙ held i (ltb→lt i p old)
    | inr new ↦
        rw (sym (last_index new))
          (get_elem?-append_last xs m ∙ ap some (e ∙ ap issued.at (sym len)))
  ]
    where
      last_index : ltb i p ≡ false → length xs ≡ i
      last_index new = omega (arith, ltb→le i p new)

  pub fresh-Agrees :
      (view : View) (sequencer_id : ℕ) {b : LogSpaceBase}
      → log_space_base full_mode view sequencer_id ≡ ok b
      → Agrees issued (suc b.metalog_position) b
  unfolding log_space_base
  fresh-Agrees view sequencer_id e =
      let (node, _, e₁) = >>=-eq-ok (expect (lookup sequencer_id view.sequencer_nodes)) _ e in
      subst (λ x. Agrees issued (suc x.metalog_position) x) (ok-injective e₁)
        (record {
          full = refl;
          counted = refl;
          held = λ i lt. absurd (omega arith);
          pending = tt;
          sorted = tt;
        })

  -- Applying the next issued metalog.
  pub applied-Agrees :
      (m : MetaLogProto) (rest : Map MetaLogProto) (b b₁ : LogSpaceBase)
      → Agrees issued 0 b
      → Same b b₁
      → IsEntry issued b.metalog_position m
      → AllKeys (IsEntry issued) rest
      → IsSorted (suc b.metalog_position) rest
      → Agrees issued 0 (record (record_applied m b₁) { pending_metalogs = rest })
        × ((record_applied m b₁).metalog_position ≡ suc b.metalog_position)
  unfolding record_applied
  applied-Agrees m rest b b₁ a same entry keys sorted = (
    record {
      full = same.mode ∙ a.full;
      counted =
          rw (extended, length-append {0} b.applied_metalogs (m ∷ []), moved)
            (omega (arith, a.counted));
      held = λ i lt. rw extended (
          get_elem?-snoc b.applied_metalogs m b.metalog_position i a.counted a.held entry.0
            (subst (λ p. i < p) moved lt));
      pending = keys;
      sorted = IsSorted-mono 0 (suc b.metalog_position) rest (omega arith) sorted;
    },
    moved,
  )
    where
      extended :
          (if is_full b₁.mode then b₁.applied_metalogs ++ m ∷ [] else b₁.applied_metalogs)
          ≡ b.applied_metalogs ++ m ∷ []
      extended = rw (same.mode, a.full, same.applied_metalogs)

      moved : u32 (m.metalog_seqnum + 1) ≡ suc b.metalog_position
      moved = omega (
        arith,
        ap (λ (x : MetaLogProto). x.metalog_seqnum) entry.0,
        issued.numbered b.metalog_position,
      )

  pub can_apply_next :
      (k : ℕ) (m : MetaLogProto) (b : LogSpaceBase) (can : Bool)
      → b.mode ≡ full_mode
      → m ≡ issued.at k
      → can_apply b m ≡ ok can
      → (k == b.metalog_position) ≡ can
  unfolding can_apply
  can_apply_next k m b can full e c =
      subst (λ n. (n == b.metalog_position) ≡ can)
        (ap (λ (x : MetaLogProto). x.metalog_seqnum) e ∙ issued.numbered k)
        (ok-injective (subst (λ x. can_apply_in x b m ≡ ok can) full c))

  -- The same copy with other metalogs pending.
  pub with_pending :
      (lo : ℕ) (rest : Map MetaLogProto) (b : LogSpaceBase) {old : ℕ}
      → Agrees issued old b
      → AllKeys (IsEntry issued) rest
      → IsSorted lo rest
      → Agrees issued lo (record b { pending_metalogs = rest })
  with_pending lo rest b a keys sorted = record {
    full = a.full;
    counted = a.counted;
    held = a.held;
    pending = keys;
    sorted = sorted;
  }

  pub delivered-Agrees :
      (m : MetaLogProto) (b : LogSpaceBase)
      → Agrees issued (suc b.metalog_position) b
      → IsEntry issued m.metalog_seqnum m
      → Agrees issued 0
          (record b { pending_metalogs = insert m.metalog_seqnum m b.pending_metalogs })
  delivered-Agrees m b a entry =
      with_pending 0 (insert m.metalog_seqnum m b.pending_metalogs) b a
        (AllKeys-insert (IsEntry issued) m.metalog_seqnum m b.pending_metalogs entry a.pending)
        (insert-IsSorted 0 m.metalog_seqnum m b.pending_metalogs (omega arith)
          (IsSorted-mono 0 (suc b.metalog_position) b.pending_metalogs (omega arith) a.sorted))

  module _ {S : Type 0} (h : Hooks S) where
    -- The loop over the pending metalogs leaves only those that wait for one in between.
    pub advance-Agrees :
        (pending : Map MetaLogProto) (b : LogSpaceBase) (s : S) {r : LogSpaceBase × S}
        → b.pending_metalogs ≡ pending
        → Agrees issued 0 b
        → advance h pending b s ≡ ok r
        → Agrees issued (suc r.0.metalog_position) r.0
    unfolding advance
    advance-Agrees [] b s {r} p a e =
        subst (λ x. Agrees issued (suc x.0.metalog_position) x.0) (ok-injective e)
          (subst (Agrees issued (suc b.metalog_position))
            (ap (λ q. record b { pending_metalogs = q }) (sym p))
            (with_pending (suc b.metalog_position) [] b a tt tt))
    advance-Agrees ((k, m) ∷ rest) b s {r} p a e = elim (advance-Round h k m rest b s e) [
      | skip old e₁ ↦
          advance-Agrees rest (record b { pending_metalogs = rest }) s refl
            (with_pending 0 rest b a keys.1 (IsSorted-mono 0 (suc k) rest (omega arith) sorted.1))
            e₁
      | stop new c e₁ ↦
          subst (λ x. Agrees issued (suc x.0.metalog_position) x.0) (sym e₁)
            (subst (Agrees issued (suc b.metalog_position))
              (ap (λ q. record b { pending_metalogs = q }) (sym p))
              (with_pending (suc b.metalog_position) ((k, m) ∷ rest) b a keys
                (waits new c, sorted.1)))
      | apply new c b₁ s₁ s₂ done hook e₁ ↦
          let here = is_next c in
          let (a₁, _) =
            applied-Agrees m rest b b₁ a (apply_meta_log-Same h m b s done)
              (subst (λ i. IsEntry issued i m) here keys.0) keys.1
              (subst (λ i. IsSorted (suc i) rest) here sorted.1) in
          advance-Agrees rest (record (record_applied m b₁) { pending_metalogs = rest }) s₂ refl a₁
            e₁
    ]
      where
        keys : AllKeys (IsEntry issued) ((k, m) ∷ rest)
        keys = subst (AllKeys (IsEntry issued)) p a.pending

        sorted : IsSorted 0 ((k, m) ∷ rest)
        sorted = subst (IsSorted 0) p a.sorted

        waits : b.metalog_position ≤ k → can_apply b m ≡ ok false → suc b.metalog_position ≤ k
        waits new c = ground (arith, can_apply_next k m b false a.full keys.0.0 c)

        is_next : can_apply b m ≡ ok true → k ≡ b.metalog_position
        is_next c = ground (arith, can_apply_next k m b true a.full keys.0.0 c)

    -- A delivery of an issued metalog, the first or a later one.
    pub provide_meta_log-Agrees :
        (m : MetaLogProto) (b : LogSpaceBase) (s : S) {r : Bool × LogSpaceBase × S}
        → Agrees issued (suc b.metalog_position) b
        → IsEntry issued m.metalog_seqnum m
        → provide_meta_log h m b s ≡ ok r
        → Agrees issued (suc r.1.metalog_position) r.1
    provide_meta_log-Agrees m b s {r} a entry e = elim (provide_meta_log-Delivery h m b s e) [
      | ignored _ e₁ ↦ subst (λ x. Agrees issued (suc x.1.metalog_position) x.1) (sym e₁) a
      | outdated old e₁ ↦ subst (λ x. Agrees issued (suc x.1.metalog_position) x.1) (sym e₁) a
      | taken new b₁ s₁ e₁ e₂ ↦
          subst (λ x. Agrees issued (suc x.1.metalog_position) x.1) (sym e₂)
            (advance-Agrees (insert m.metalog_seqnum m b.pending_metalogs)
              (record b { pending_metalogs = insert m.metalog_seqnum m b.pending_metalogs }) s refl
              (delivered-Agrees m b a entry) e₁)
    ]

    pub provide_all-Agrees :
        (ms : List MetaLogProto) (b : LogSpaceBase) (s : S) {r : LogSpaceBase × S}
        → Agrees issued (suc b.metalog_position) b
        → All (λ m. IsEntry issued m.metalog_seqnum m) ms
        → provide_all h ms b s ≡ ok r
        → Agrees issued (suc r.0.metalog_position) r.0
    unfolding provide_all
    provide_all-Agrees [] b s a entries e =
        subst (λ x. Agrees issued (suc x.0.metalog_position) x.0) (ok-injective e) a
    provide_all-Agrees (m ∷ ms) b s a entries e =
        let ((moved, b₁, s₁), e₁, e₂) = >>=-eq-ok (provide_meta_log h m b s) _ e in
        provide_all-Agrees ms b₁ s₁ (provide_meta_log-Agrees m b s a entries.0 e₁) entries.1 e₂

    -- A new copy in full mode, after any deliveries of issued metalogs in any order, answers each
    -- query below its position with the issued metalog of that number, and no other query.
    pub copy_is_prefix :
        (view : View) (sequencer_id : ℕ) (b : LogSpaceBase) (ms : List MetaLogProto) (s : S)
        {r : LogSpaceBase × S}
        → log_space_base full_mode view sequencer_id ≡ ok b
        → All (λ m. IsEntry issued m.metalog_seqnum m) ms
        → provide_all h ms b s ≡ ok r
        → (pos : ℕ)
        → get_meta_log r.0 pos
          ≡ (if ltb pos r.0.metalog_position then ok (some (issued.at pos)) else ok none)
    unfolding get_meta_log
    copy_is_prefix view sequencer_id b ms s {r} new entries e pos =
        let a = provide_all-Agrees ms b s (fresh-Agrees view sequencer_id new) entries e in
        ground (arith, a.held pos)
