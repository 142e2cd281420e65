-- ===== src/Primary/Safety.antt =====
-- Nothing is ordered before it is replicated: the last cut of an engine's shard is never above the
-- progress of any of the engine's storage nodes.
use boki.Base.{
  ℕ, ◌^◌, ◌-◌, ◌≤◌, min, List, [], ◌∷◌, Option, none, some, Bool, true, false, not, ◌&&◌, ◌≡◌, refl,
  sym, subst, ap, ◌∙◌, inl, inr, elem, ltb, ltb→lt, ◌==◌, if◌then◌else◌, Map, lookup, insert,
  lookup-insert, ok, panic, ◌⊎◌, expect, >>=-eq-ok, expect-eq-ok, ok-injective, some-injective,
  ==_iff, Bool-cases, arith,
}
use boki.View.{Engine, View}
use boki.LogSpace.{LogSpaceBase, no_hooks, provide_meta_log}
use boki.LogSpace.Frame.{provide_meta_log-IsStatic}
use boki.Proto.{MetaLogProto}
use boki.Primary.{
  MetaLogPrimary, update, or_zero, mark_dirty, min_progress, shard_replicated_position,
  update_shard, update_shards, update_storage_progress, next_position, cut_shards, cut_metalog,
  CutParts, make_cut, mark_next_cut,
}

-- The storage nodes of each engine have got at least as far as the cuts.
abbrev pub IsStored : View → (ℕ → ℕ → Option ℕ) → Map ℕ → Type 0
IsStored view progress cuts =
    (e s c : ℕ) (engine : Engine)
    → lookup e cuts ≡ some c
    → lookup e view.engine_nodes ≡ some engine
    → elem s engine.storage_nodes ≡ true
    → (q : ℕ) × (progress e s ≡ some q) × (c ≤ q)

abbrev pub IsSafe : MetaLogPrimary → Type 0
IsSafe p = IsStored p.base.view p.storage_progresses p.last_cut

pub min_progress-le :
    (f : ℕ → ℕ → Option ℕ) (e : ℕ) (ss : List ℕ) (acc : ℕ) {r : ℕ}
    → min_progress f e ss acc ≡ ok r
    → (r ≤ acc) × ((s : ℕ) → elem s ss ≡ true → (q : ℕ) × (f e s ≡ some q) × (r ≤ q))
unfolding min_progress
min_progress-le f e [] acc h = (ground arith, λ s m. cc)
min_progress-le f e (s ∷ ss) acc {r} h =
    let (v, got, rest) = >>=-eq-ok (expect (f e s)) _ h in
    let (le, each) = min_progress-le f e ss (min acc v) rest in
    (omega arith, λ t m. member t v (expect-eq-ok _ got) (omega arith) m each)
  where
    member :
        (t v : ℕ)
        → f e s ≡ some v
        → r ≤ v
        → elem t (s ∷ ss) ≡ true
        → ((t : ℕ) → elem t ss ≡ true → (q : ℕ) × (f e t ≡ some q) × (r ≤ q))
        → (q : ℕ) × (f e t ≡ some q) × (r ≤ q)
    member t v got le m each = elim (Bool-cases (s == t)) [
      | inl here ↦ (v, ground arith, le)
      | inr there ↦ each t (rw there at m)
    ]

-- What a storage node's report about one engine changes: its progress, which does not fall, and the
-- dirty shards.
record Reported (storage_id e : ℕ) (p p' : MetaLogPrimary) : Type 0 where
  value : ℕ
  grows : or_zero (p.storage_progresses e storage_id) ≤ value
  progress : p'.storage_progresses ≡ update e storage_id value p.storage_progresses
  cuts : p'.last_cut ≡ p.last_cut
  base : p'.base ≡ p.base

mark_dirty-Reported :
    (storage_id e value cut current : ℕ) (p q : MetaLogPrimary)
    → or_zero (p.storage_progresses e storage_id) ≤ value
    → q ≡ record p { storage_progresses = update e storage_id value p.storage_progresses }
    → Reported storage_id e p (mark_dirty e cut current q)
unfolding mark_dirty
mark_dirty-Reported storage_id e value cut current p q up made =
    elim (Bool-cases (ltb cut current && not (elem e q.dirty_shards))) [
      | inl dirty ↦
          rw (dirty, mark_dirty)
            (same (record q { dirty_shards = e ∷ q.dirty_shards }) refl refl refl)
      | inr clean ↦ rw (clean, mark_dirty) (same q refl refl refl)
    ]
  where
    same :
        (r : MetaLogPrimary)
        → r.storage_progresses ≡ q.storage_progresses
        → r.last_cut ≡ q.last_cut
        → r.base ≡ q.base
        → Reported storage_id e p r
    same r a b c = record {
      value = value;
      grows = up;
      progress = a ∙ ap (λ (x : MetaLogPrimary). x.storage_progresses) made;
      cuts = b ∙ ap (λ (x : MetaLogPrimary). x.last_cut) made;
      base = c ∙ ap (λ (x : MetaLogPrimary). x.base) made;
    }

update_shard-Reported :
    (storage_id e progress : ℕ) (p : MetaLogPrimary) {p' : MetaLogPrimary}
    → update_shard storage_id e progress p ≡ ok p'
    → Reported storage_id e p p'
unfolding update_shard
update_shard-Reported storage_id e progress p {p'} h =
    elim (Bool-cases (ltb (or_zero (p.storage_progresses e storage_id)) progress)) [
      | inl up ↦
          let q = record p {
            storage_progresses = update e storage_id progress p.storage_progresses;
          } in
          let (current, _, h₁) =
            >>=-eq-ok (shard_replicated_position q e) _ (rw (up, update_shard) at h) in
          let (cut, _, h₂) = >>=-eq-ok (expect (lookup e p.last_cut)) _ h₁ in
          subst (Reported storage_id e p) (ok-injective h₂) (
            mark_dirty-Reported storage_id e progress cut current p q (omega (arith, ltb→lt _ _ up))
              refl)
      | inr down ↦
          subst (Reported storage_id e p) (ok-injective (rw (down, update_shard) at h))
            (record { value = _; grows = omega arith; progress = refl; cuts = refl; base = refl })
    ]

-- A report leaves the cuts stored.
update-IsStored :
    (view : View) (f : ℕ → ℕ → Option ℕ) (cuts : Map ℕ) (storage_id e v : ℕ)
    → or_zero (f e storage_id) ≤ v
    → IsStored view f cuts
    → IsStored view (update e storage_id v f) cuts
update-IsStored view f cuts storage_id e v up stored a s c engine cut node member =
    let (q, got, le) = stored a s c engine cut node member in
    elim (Bool-cases ((e == a) && (storage_id == s))) [
      | inl here ↦ (v, ground (arith, here), ground (arith, here, got, le, up))
      | inr there ↦ (q, ground (arith, there, got), le)
    ]

update_shards-IsSafe :
    (storage_id : ℕ) (es progress : List ℕ) (p : MetaLogPrimary) {p' : MetaLogPrimary}
    → IsSafe p
    → update_shards storage_id es progress p ≡ ok p'
    → IsSafe p' × (p'.base ≡ p.base)
unfolding update_shards
update_shards-IsSafe storage_id [] [] p safe h =
    subst (λ x. IsSafe x × (x.base ≡ p.base)) (ok-injective h) (safe, refl)
update_shards-IsSafe storage_id (e ∷ es) (v ∷ vs) p safe h =
    let (q, one, rest) = >>=-eq-ok (update_shard storage_id e v p) _ h in
    let r = update_shard-Reported storage_id e v p one in
    let stored =
      update-IsStored p.base.view p.storage_progresses p.last_cut storage_id e r.value r.grows
        safe in
    let (safe', same) =
      update_shards-IsSafe storage_id es vs q (rw (r.base, r.progress, r.cuts) stored) rest in
    (safe', same ∙ r.base)
update_shards-IsSafe storage_id [] (v ∷ vs) p safe h = cc
update_shards-IsSafe storage_id (e ∷ es) [] p safe h = cc

-- A storage node's report keeps every cut covered by the storage nodes.
pub update_storage_progress-IsSafe :
    (storage_id : ℕ) (progress : List ℕ) (p : MetaLogPrimary) {p' : MetaLogPrimary}
    → IsSafe p
    → update_storage_progress storage_id progress p ≡ ok p'
    → IsSafe p'
unfolding update_storage_progress
update_storage_progress-IsSafe storage_id progress p safe h =
    let (node, _, rest) = >>=-eq-ok (expect (lookup storage_id p.base.view.storage_nodes)) _ h in
    (update_shards-IsSafe storage_id node.source_engine_nodes progress p safe rest).0

shard_replicated_position-le :
    (p : MetaLogPrimary) (e s : ℕ) {r : ℕ} {engine : Engine}
    → shard_replicated_position p e ≡ ok r
    → lookup e p.base.view.engine_nodes ≡ some engine
    → elem s engine.storage_nodes ≡ true
    → (q : ℕ) × (p.storage_progresses e s ≡ some q) × (r ≤ q)
unfolding shard_replicated_position
shard_replicated_position-le p e s {r} {engine} h node member =
    let (engine', got, rest) = >>=-eq-ok (expect (lookup e p.base.view.engine_nodes)) _ h in
    let same : engine' ≡ engine = some-injective (sym (expect-eq-ok _ got) ∙ node) in
    (min_progress-le p.storage_progresses e engine'.storage_nodes (2 ^ 32 - 1) rest).1 s
      (subst (λ (x : Engine). elem s x.storage_nodes ≡ true) (sym same) member)

-- The next position of a shard is at its last cut, or stored.
next_position-IsStored :
    (p : MetaLogPrimary) (e cut current : ℕ) (cuts : Map ℕ)
    → IsStored p.base.view p.storage_progresses cuts
    → lookup e cuts ≡ some cut
    → next_position p e cut ≡ ok current
    → IsStored p.base.view p.storage_progresses (insert e current cuts)
unfolding next_position
next_position-IsStored p e cut current cuts stored last h a s c engine found node member =
    elim (Bool-cases (e == a)) [
      | inl here ↦
          at_shard (sym ((==_iff e a).0 here))
            (some-injective (sym (rw here at (sym (lookup-insert e a current cuts) ∙ found))))
      | inr there ↦
          stored a s c engine (rw there at (sym (lookup-insert e a current cuts) ∙ found)) node
            member
    ]
  where
    at_shard : a ≡ e → c ≡ current → (q : ℕ) × (p.storage_progresses a s ≡ some q) × (c ≤ q)
    at_shard same new = elim (Bool-cases (elem e p.dirty_shards)) [
      | inl dirty ↦
          rw (same, new)
            (shard_replicated_position-le p e s (rw (dirty, next_position) at h)
              (subst (λ k. lookup k p.base.view.engine_nodes ≡ some engine) same node) member)
      | inr clean ↦
          stored a s c engine
            (rw (same, new) (last ∙ ap some (ok-injective (rw (clean, next_position) at h)))) node
            member
    ]

cut_shards-IsStored :
    (p : MetaLogPrimary) (es : List ℕ) (cuts : Map ℕ) {c : CutParts}
    → IsStored p.base.view p.storage_progresses cuts
    → cut_shards p es cuts ≡ ok c
    → IsStored p.base.view p.storage_progresses c.cuts
unfolding cut_shards
cut_shards-IsStored p [] cuts stored h =
    subst (λ x. IsStored p.base.view p.storage_progresses x.cuts) (ok-injective h) stored
cut_shards-IsStored p (e ∷ es) cuts stored h =
    let (cut, last, h₁) = >>=-eq-ok (expect (lookup e cuts)) _ h in
    let (current, next, h₂) = >>=-eq-ok (next_position p e cut) _ h₁ in
    let (rest, more, h₃) = >>=-eq-ok (cut_shards p es (insert e current cuts)) _ h₂ in
    subst (λ x. IsStored p.base.view p.storage_progresses x.cuts) (ok-injective h₃)
      (cut_shards-IsStored p es (insert e current cuts)
        (next_position-IsStored p e cut current cuts stored (expect-eq-ok _ last) next) more)

-- What `MarkNextCut` does when it succeeds: nothing, or a cut.
pub data Cut (p : MetaLogPrimary) (r : Option MetaLogProto × MetaLogPrimary) : Type 0 where
  clean : p.dirty_shards ≡ [] → r ≡ (none, p) → Cut p r
  marked :
      (c : CutParts) (b : LogSpaceBase)
      → cut_shards p p.base.view.engine_node_ids p.last_cut ≡ ok c
      → provide_meta_log no_hooks (cut_metalog p c) p.base tt ≡ ok (true, b, tt)
      → r ≡ (some (cut_metalog p c), record p { base = b; dirty_shards = []; last_cut = c.cuts })
      → Cut p r

make_cut-Cut :
    (p : MetaLogPrimary) {r : Option MetaLogProto × MetaLogPrimary} → make_cut p ≡ ok r → Cut p r
unfolding make_cut
make_cut-Cut p {r} h =
    let (c, parts, h₁) = >>=-eq-ok (cut_shards p p.base.view.engine_node_ids p.last_cut) _ h in
    let ((moved, b, _), given, h₂) =
      >>=-eq-ok (provide_meta_log no_hooks (cut_metalog p c) p.base tt) _ h₁ in
    by_moved moved c b parts given h₂
  where
    by_moved :
        (moved : Bool) (c : CutParts) (b : LogSpaceBase)
        → cut_shards p p.base.view.engine_node_ids p.last_cut ≡ ok c
        → provide_meta_log no_hooks (cut_metalog p c) p.base tt ≡ ok (moved, b, tt)
        → (if moved
            then ok (
              some (cut_metalog p c),
              record p { base = b; dirty_shards = []; last_cut = c.cuts },
            )
            else panic)
          ≡ ok r
        → Cut p r
    by_moved true c b parts given e = marked c b parts given (sym (ok-injective e))
    by_moved false c b parts given e = cc

dirty-cases : (xs : List ℕ) → (xs ≡ []) ⊎ ((x : ℕ) × (rest : List ℕ) × (xs ≡ x ∷ rest))
dirty-cases [] = inl refl
dirty-cases (x ∷ rest) = inr (x, rest, refl)

pub mark_next_cut-Cut :
    (p : MetaLogPrimary) {r : Option MetaLogProto × MetaLogPrimary}
    → mark_next_cut p ≡ ok r
    → Cut p r
unfolding mark_next_cut
mark_next_cut-Cut p h = elim (dirty-cases p.dirty_shards) [
  | inl none_dirty ↦ clean none_dirty (sym (ok-injective (rw (none_dirty, mark_next_cut) at h)))
  | inr (x, rest, some_dirty) ↦ make_cut-Cut p (rw (some_dirty, mark_next_cut) at h)
]

-- A cut orders only entries that all storage nodes of their engine have.
pub mark_next_cut-IsSafe :
    (p : MetaLogPrimary) {o : Option MetaLogProto} {p' : MetaLogPrimary}
    → IsSafe p
    → mark_next_cut p ≡ ok (o, p')
    → IsSafe p'
mark_next_cut-IsSafe p {o} {p'} safe h = elim (mark_next_cut-Cut p h) [
  | clean _ e ↦ subst (λ r. IsSafe r.1) (sym e) safe
  | marked c b parts given e ↦
      let static = provide_meta_log-IsStatic no_hooks (cut_metalog p c) p.base tt given in
      subst (λ r. IsSafe r.1) (sym e)
        (subst (λ v. IsStored v p.storage_progresses c.cuts) (sym static.view)
          (cut_shards-IsStored p p.base.view.engine_node_ids p.last_cut safe parts))
]
