-- ===== src/Primary/Reach.antt =====
-- Every state of a primary that its calls lead to.
use boki.Base.{
  ℕ, ◌≤◌, List, [], ◌∷◌, Option, some, true, ◌≡◌, refl, sym, subst, ap, ◌∙◌, inl, inr, elem, ltb,
  not, ◌==◌, ◌&&◌, if◌then◌else◌, ==_iff, lookup, lookup-insert, insert, ok, panic, expect,
  >>=-eq-ok, expect-eq-ok, ok-injective, some-injective, Bool-cases, arith,
}
use boki.Proto.{MetaLogProto}
use boki.View.{View, Engine, is_replica_sequencer_node}
use boki.LogSpace.{LogSpaceBase, log_space_base, full_mode}
use boki.Primary.{
  MetaLogPrimary, update, or_zero, init_storages, init_engines, meta_log_primary,
  update_storage_progress, update_replica_progress, mark_next_cut,
}
use boki.Primary.Quorum.{Recomputed, update_replicated_position-Recomputed}
use boki.Primary.Safety.{IsSafe, update_storage_progress-IsSafe, mark_next_cut-IsSafe}

-- The calls of the sequencer on its primary that return.
pub data Step (p : MetaLogPrimary) : MetaLogPrimary → Type 0 where
  stores :
      {p' : MetaLogPrimary} (storage_id : ℕ) (progress : List ℕ)
      → update_storage_progress storage_id progress p ≡ ok p'
      → Step p p'
  replicates :
      {p' : MetaLogPrimary} (sequencer_id position : ℕ)
      → update_replica_progress sequencer_id position p ≡ ok p'
      → Step p p'
  cuts : {p' : MetaLogPrimary} (m : Option MetaLogProto) → mark_next_cut p ≡ ok (m, p') → Step p p'

pub data Reach (p : MetaLogPrimary) : MetaLogPrimary → Type 0 where
  here : Reach p p
  next : {q r : MetaLogPrimary} → Reach p q → Step q r → Reach p r

-- All cuts and all progress are at zero.
abbrev IsZero : MetaLogPrimary → Type 0
IsZero p =
    (e s c : ℕ) (engine : Engine)
    → lookup e p.last_cut ≡ some c
    → lookup e p.base.view.engine_nodes ≡ some engine
    → elem s engine.storage_nodes ≡ true
    → (p.storage_progresses e s ≡ some 0) × (c ≡ 0)

init_storages-some :
    (e : ℕ) (ss : List ℕ) (f : ℕ → ℕ → Option ℕ) (a s : ℕ)
    → init_storages e ss f a s ≡ (if (e == a) && elem s ss then some 0 else f a s)
unfolding init_storages
init_storages-some e [] f a s = ground arith
init_storages-some e (x ∷ ss) f a s = ground (arith, init_storages-some e ss (update e x 0 f) a s)

init_engines-IsZero :
    (v : View) (es : List ℕ) (p : MetaLogPrimary) {p' : MetaLogPrimary}
    → p.base.view ≡ v
    → IsZero p
    → init_engines v es p ≡ ok p'
    → IsZero p' × (p'.base ≡ p.base)
unfolding init_engines
init_engines-IsZero v [] p same z h =
    subst (λ x. IsZero x × (x.base ≡ p.base)) (ok-injective h) (z, refl)
init_engines-IsZero v (e ∷ es) p same z h =
    let (node, got, rest) = >>=-eq-ok (expect (lookup e v.engine_nodes)) _ h in
    init_engines-IsZero v es
      (record p {
        storage_progresses = init_storages e node.storage_nodes p.storage_progresses;
        last_cut = insert e 0 p.last_cut;
      })
      same (one node (expect-eq-ok _ got)) rest
  where
    one :
        (node : Engine)
        → lookup e v.engine_nodes ≡ some node
        → IsZero (record p {
          storage_progresses = init_storages e node.storage_nodes p.storage_progresses;
          last_cut = insert e 0 p.last_cut;
        })
    one node got a s c engine cut found member = elim (Bool-cases (e == a)) [
      | inl at_engine ↦
          let e≡a = (==_iff e a).0 at_engine in
          let same_node : node ≡ engine = some-injective (
            sym got
            ∙ ap (λ k. lookup k v.engine_nodes) e≡a
            ∙ ap (λ (x : View). lookup a x.engine_nodes) (sym same)
            ∙ found) in
          let stored = rw (← same_node) at member in
          (
            ground (
              arith,
              init_storages-some e node.storage_nodes p.storage_progresses a s,
              at_engine,
              stored,
            ),
            ground (arith, lookup-insert e a 0 p.last_cut, at_engine, cut),
          )
      | inr there ↦
          let (q, c≡0) =
            z a s c engine (rw there at (sym (lookup-insert e a 0 p.last_cut) ∙ cut)) found
              member in
          (
            ground
                (arith, init_storages-some e node.storage_nodes p.storage_progresses a s, there, q),
            c≡0,
          )
    ]

view-log_space_base :
    (view : View) (id : ℕ) {b : LogSpaceBase}
    → log_space_base full_mode view id ≡ ok b
    → b.view ≡ view
unfolding log_space_base
view-log_space_base view id h =
    let (node, _, h₁) = >>=-eq-ok (expect (lookup id view.sequencer_nodes)) _ h in
    ap (λ (x : LogSpaceBase). x.view) (sym (ok-injective h₁))

meta_log_primary-IsSafe :
    (view : View) (id : ℕ) {p : MetaLogPrimary} → meta_log_primary view id ≡ ok p → IsSafe p
unfolding meta_log_primary lookup
meta_log_primary-IsSafe view id h =
    let (b, new, h₁) = >>=-eq-ok (log_space_base full_mode view id) _ h in
    let (p₁, filled, h₂) = >>=-eq-ok (init_engines view view.engine_node_ids _) _ h₁ in
    let (z, same) =
      init_engines-IsZero view view.engine_node_ids _ (view-log_space_base view id new)
        (λ e s c engine cut found member. cc) filled in
    subst IsSafe (ok-injective h₂) λ e s c engine cut found member.
      let (stored, c≡0) = z e s c engine cut (rw same found) member in
      (0, stored, rw c≡0 (omega arith))

update_replica_progress-IsSafe :
    (id position : ℕ) (p : MetaLogPrimary) {p' : MetaLogPrimary}
    → IsSafe p
    → update_replica_progress id position p ≡ ok p'
    → IsSafe p'
unfolding update_replica_progress
update_replica_progress-IsSafe id position p {p'} safe h =
    elim (Bool-cases (not (is_replica_sequencer_node p.base.sequencer_node id))) [
      | inl foreign ↦ refused (rw (foreign, update_replica_progress) at h)
      | inr replica ↦ elim (Bool-cases (ltb p.base.metalog_position position)) [
        | inl ahead ↦ refused (rw (replica, ahead, update_replica_progress) at h)
        | inr within ↦ elim (Bool-cases (ltb (or_zero (lookup id p.metalog_progresses)) position)) [
          | inl up ↦ recomputed (
              update_replicated_position-Recomputed _
                (rw (replica, within, up, update_replica_progress) at h))
          | inr down ↦
              subst IsSafe (ok-injective (rw (replica, within, down, update_replica_progress) at h))
                safe
        ]
      ]
    ]
  where
    refused : panic ≡ ok p' → IsSafe p'
    refused e = cc

    recomputed :
        Recomputed (record p { metalog_progresses = insert id position p.metalog_progresses }) p'
        → IsSafe p'
    recomputed (inl same) = subst IsSafe (sym same) safe
    recomputed (inr (x, _, same)) = subst IsSafe (sym same) safe

Step-IsSafe : {p q : MetaLogPrimary} → Step p q → IsSafe p → IsSafe q
Step-IsSafe {p} (stores id progress h) safe = update_storage_progress-IsSafe id progress p safe h
Step-IsSafe {p} (replicates id position h) safe =
    update_replica_progress-IsSafe id position p safe h
Step-IsSafe {p} (cuts m h) safe = mark_next_cut-IsSafe p safe h

Reach-IsSafe : {p q : MetaLogPrimary} → Reach p q → IsSafe p → IsSafe q
Reach-IsSafe here safe = safe
Reach-IsSafe (next r s) safe = Step-IsSafe s (Reach-IsSafe r safe)

-- After any calls on a new primary, no shard has been cut above what each storage node of its engine
-- has reported: only entries that are stored everywhere are ordered.
pub ordered_is_stored :
    (view : View) (id : ℕ) {p q : MetaLogPrimary} (e s cut : ℕ) (engine : Engine)
    → meta_log_primary view id ≡ ok p
    → Reach p q
    → lookup e q.last_cut ≡ some cut
    → lookup e q.base.view.engine_nodes ≡ some engine
    → elem s engine.storage_nodes ≡ true
    → (stored : ℕ) × (q.storage_progresses e s ≡ some stored) × (cut ≤ stored)
ordered_is_stored view id e s cut engine made r =
    Reach-IsSafe r (meta_log_primary-IsSafe view id made) e s cut engine
