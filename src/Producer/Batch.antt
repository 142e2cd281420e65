-- ===== src/Producer/Batch.antt =====
-- `OnNewLogs` of the producer: a cut of the engine's shard answers the appends that it orders, each
-- once, and no other.
use boki.Base.{
  ℕ, zero, suc, ◌+◌, ◌^◌, ◌≤◌, ◌<◌, List, [], ◌∷◌, ◌++◌, Option, none, some, true, false, ◌&&◌, ◌≡◌,
  refl, sym, subst, ap, ◌∙◌, ltb, leb, if◌then◌else◌, Map, lookup, contains, contains-lookup, erase,
  lookup-erase, contains-erase, ok, expect, >>=-eq-ok, >>=-of-ok, expect-eq-ok, ok-injective, arith,
}
use boki.Bits.{u64}
use boki.LogSpace.{LogSpaceBase}
use boki.Producer.{LogProducer, AppendResult, new_logs_from, on_new_logs}
use mathlib.Core.List.{append-nil, append_assoc}

-- The results of `n` appends from `seqnum` and `localid` on, whose callers the map gives.
abbrev pub IsBatch : Map ℕ → ℕ → ℕ → ℕ → List AppendResult → Type 0
IsBatch m seqnum localid zero [] = Unit
IsBatch m seqnum localid zero (r ∷ rs) = ⊥
IsBatch m seqnum localid (suc n) [] = ⊥
IsBatch m seqnum localid (suc n) (r ∷ rs) =
    (r.seqnum ≡ seqnum)
    × (r.localid ≡ localid)
    × (lookup localid m ≡ some r.caller_data)
    × IsBatch m (suc seqnum) (suc localid) n rs

IsBatch-map :
    (m m' : Map ℕ) (seqnum localid n : ℕ) (rs : List AppendResult)
    → ((k : ℕ) → localid ≤ k → lookup k m ≡ lookup k m')
    → IsBatch m seqnum localid n rs
    → IsBatch m' seqnum localid n rs
IsBatch-map m m' seqnum localid zero [] same b = tt
IsBatch-map m m' seqnum localid zero (r ∷ rs) same b = absurd b
IsBatch-map m m' seqnum localid (suc n) [] same b = absurd b
IsBatch-map m m' seqnum localid (suc n) (r ∷ rs) same b = (
  b.0,
  b.1,
  sym (same localid (omega arith)) ∙ b.2,
  IsBatch-map m m' (suc seqnum) (suc localid) n rs (λ k le. same k (omega arith)) b.3,
)

-- What a run of `n` rounds from round `i` on does.
pub record Acknowledged (seqnum localid n : ℕ) (p p' : LogProducer) : Type 0 where
  pub batch : List AppendResult
  pub added : p'.pending_append_results ≡ p.pending_append_results ++ batch
  pub answers : IsBatch p.pending_appends seqnum localid n batch
  pub left :
      (k : ℕ)
      → lookup k p'.pending_appends
        ≡ (if leb localid k && ltb k (localid + n) then none else lookup k p.pending_appends)
  pub next : p'.next_localid ≡ p.next_localid

new_logs_from-Acknowledged :
    (progress start_seqnum start_localid i n seqnum localid : ℕ) (p : LogProducer)
    {p' : LogProducer}
    → start_seqnum + i ≡ seqnum
    → start_localid + i ≡ localid
    → seqnum + n < 2 ^ 64
    → localid + n < 2 ^ 64
    → new_logs_from progress start_seqnum start_localid i n p ≡ ok p'
    → Acknowledged seqnum localid n p p'
unfolding new_logs_from
new_logs_from-Acknowledged progress start_seqnum start_localid i zero seqnum localid p es el hs hl
      h =
    subst (Acknowledged seqnum localid 0 p) (ok-injective h) (record {
      batch = [];
      added = sym (append-nil p.pending_append_results);
      answers = tt;
      left = λ k. ground arith;
      next = refl;
    })
new_logs_from-Acknowledged progress start_seqnum start_localid i (suc n) seqnum localid p {p'} es el
      hs hl h =
    let to_seqnum : u64 (start_seqnum + i) ≡ seqnum = ground arith in
    let to_localid : u64 (start_localid + i) ≡ localid = ground arith in
    let (caller_data, got, h₁) =
      >>=-eq-ok (expect (lookup (u64 (start_localid + i)) p.pending_appends)) _ h in
    let a =
      new_logs_from-Acknowledged progress start_seqnum start_localid (i + 1) n (suc seqnum)
        (suc localid) _ (omega arith) (omega arith) (omega arith) (omega arith) h₁ in
    record {
      batch = _ ∷ a.batch;
      added = a.added ∙ append_assoc p.pending_append_results _ a.batch;
      answers = (
        to_seqnum,
        to_localid,
        subst (λ l. lookup l p.pending_appends ≡ some caller_data) to_localid (expect-eq-ok _ got),
        IsBatch-map _ p.pending_appends (suc seqnum) (suc localid) n a.batch
            (λ k le. lookup-erase _ k p.pending_appends ∙ ground (arith, to_localid)) a.answers,
      );
      left = λ k.
          a.left k
          ∙ ap (λ o. if leb (suc localid) k && ltb k (suc localid + n) then none else o)
              (lookup-erase _ k p.pending_appends)
          ∙ ground (arith, to_localid);
      next = a.next;
    }

-- A key that the map contains is found in it.
found : {V : Type 0} (k : ℕ) (m : Map V) → contains k m ≡ true → (v : V) × (lookup k m ≡ some v)
found k m h = go (lookup k m) (sym (contains-lookup k m) ∙ h)
  where
    go :
        {V : Type 0} (o : Option V)
        → (elim o [ none ↦ false | some _ ↦ true ]) ≡ true
        → (v : V) × (o ≡ some v)
    go none e = cc
    go (some v) e = (v, refl)

-- Enough pending appends let the loop reach its end.
new_logs_from-total :
    (progress start_seqnum start_localid i n localid : ℕ) (p : LogProducer)
    → start_localid + i ≡ localid
    → localid + n < 2 ^ 64
    → ((k : ℕ) → localid ≤ k → k < localid + n → contains k p.pending_appends ≡ true)
    → (p' : LogProducer) × (new_logs_from progress start_seqnum start_localid i n p ≡ ok p')
unfolding new_logs_from
new_logs_from-total progress start_seqnum start_localid i zero localid p el hl held = (p, refl)
new_logs_from-total progress start_seqnum start_localid i (suc n) localid p el hl held =
    let to_localid : u64 (start_localid + i) ≡ localid = ground arith in
    let (v, got) = found localid p.pending_appends (held localid (omega arith) (omega arith)) in
    let got' = subst (λ l. lookup l p.pending_appends ≡ some v) (sym to_localid) got in
    let (p', h) =
      new_logs_from-total progress start_seqnum start_localid (i + 1) n (suc localid)
        (record p {
          pending_append_results =
              p.pending_append_results
              ++ (record {
                seqnum = u64 (start_seqnum + i);
                localid = u64 (start_localid + i);
                metalog_progress = progress;
                caller_data = v;
              })
                ∷ [];
          pending_appends = erase (u64 (start_localid + i)) p.pending_appends;
        })
        (omega arith) (omega arith)
        (λ k le lt.
          contains-erase (u64 (start_localid + i)) k p.pending_appends
          ∙ ground (arith, to_localid, held k)) in
    (
      p',
      >>=-of-ok (expect (lookup (u64 (start_localid + i)) p.pending_appends)) _ (ap expect got') h,
    )

-- When the appends of a cut are pending and its numbers do not wrap around, `on_new_logs` answers
-- them, each once and in order, with the sequence numbers of the cut and the data of its caller;
-- it leaves the appends outside the cut pending and gives out no local id.
pub appends_answered :
    (b : LogSpaceBase) (metalog_seqnum start_seqnum start_localid delta : ℕ) (p : LogProducer)
    → start_seqnum + delta < 2 ^ 64
    → start_localid + delta < 2 ^ 64
    → ((k : ℕ)
        → start_localid ≤ k
        → k < start_localid + delta
        → contains k p.pending_appends ≡ true)
    → (p' : LogProducer) × (on_new_logs b metalog_seqnum start_seqnum start_localid delta p ≡ ok p')
      × Acknowledged start_seqnum start_localid delta p p'
unfolding on_new_logs
appends_answered b metalog_seqnum start_seqnum start_localid delta p hs hl held =
    let (p', h) =
      new_logs_from-total _ start_seqnum start_localid 0 delta start_localid p (omega arith) hl
        held in
    (
      p',
      h,
      new_logs_from-Acknowledged _ start_seqnum start_localid 0 delta start_seqnum start_localid p
          (omega arith) (omega arith) hs hl h,
    )
