-- ===== src/Watcher/Agreement.antt =====
-- The view that the controller has sealed is the view that the nodes finalize.
use boki.Base.{
  ℕ, suc, ◌+◌, ◌^◌, ◌<◌, List, [], ◌∷◌, some, Bool, true, false, ◌≡◌, ◌↔◌, refl, ap, ◌∙◌, subst,
  ◌==◌, ==_iff, if◌then◌else◌, Bool-cases, ◌⊎◌, inl, inr, elem, get_elem?, All, Map, lookup, insert,
  lookup-insert, ok, expect, arith,
}
use boki.Bits.{join_two16}
use boki.Proto.{MetaLogProto, MetaLogsProto, FinalizedViewProto}
use boki.View.{View, is_active_phylog}
use boki.Controller.Seal.{
  OngoingSeal, build_final_tail_metalog, collected, check_all_sealed, active_ids,
}
use boki.Controller.Quorum.{final_tail, seal_phylogs_lem}
use boki.Controller.Majority.{check_all_sealed-seal_phylogs}
use boki.Watcher.{FinalizedView, fill_view, finalized_view, final_metalog_position, tail_metalogs}

-- Ids that differ have keys that differ.
join_two16-injective :
    (v a b : ℕ) → a < 2 ^ 16 → b < 2 ^ 16 → join_two16 v a ≡ join_two16 v b → a ≡ b
unfolding join_two16
join_two16-injective v a b small small' e = omega (arith, e)

-- A map whose value at each key is given by a function keeps that when it gains such an entry.
lookup-gained :
    {V : Type 0} (f : ℕ → V) (v a b : ℕ) (m : Map V)
    → a < 2 ^ 16
    → b < 2 ^ 16
    → (a ≡ b) ⊎ (lookup (join_two16 v b) m ≡ some (f b))
    → lookup (join_two16 v b) (insert (join_two16 v a) (f a) m) ≡ some (f b)
lookup-gained f v a b m small small' h =
    lookup-insert (join_two16 v a) (join_two16 v b) (f a) m
    ∙ go (join_two16 v a == join_two16 v b) (==_iff (join_two16 v a) (join_two16 v b)) h
  where
    go :
        (t : Bool)
        → (t ≡ true ↔ join_two16 v a ≡ join_two16 v b)
        → (a ≡ b) ⊎ (lookup (join_two16 v b) m ≡ some (f b))
        → (if t then some (f a) else lookup (join_two16 v b) m) ≡ some (f b)
    go true same h = ap (λ x. some (f x)) (join_two16-injective v a b small small' (same.0 refl))
    go false same (inl e) = cc (same.1 (ap (join_two16 v) e))
    go false same (inr e) = e

elem-cases : (x y : ℕ) (xs : List ℕ) → elem y (x ∷ xs) ≡ true → (x ≡ y) ⊎ (elem y xs ≡ true)
elem-cases x y xs h = go (x == y) (==_iff x y) h
  where
    go :
        (b : Bool)
        → (b ≡ true ↔ x ≡ y)
        → (if b then true else elem y xs) ≡ true
        → (x ≡ y) ⊎ (elem y xs ≡ true)
    go true same h = inl (same.0 refl)
    go false same h = inr h

module _ (view : View) (tails : Map MetaLogsProto) (p : FinalizedViewProto) where
  abbrev final : ℕ → ℕ
  final id = (build_final_tail_metalog (collected id tails)).0

  abbrev entries : ℕ → List MetaLogProto
  entries id = (build_final_tail_metalog (collected id tails)).1

  -- The message holds the final position and the entries of the ids from the index on.
  abbrev Holds : ℕ → List ℕ → Type 0
  Holds idx ids =
      (j id : ℕ)
      → get_elem? ids j ≡ some id
      → (get_elem? p.metalog_positions (idx + j) ≡ some (final id))
        × (get_elem? p.tail_metalogs (idx + j) ≡ some (final_tail view tails id))

  abbrev Knows : Map ℕ → Map (List MetaLogProto) → ℕ → Type 0
  Knows ps ts id =
      (lookup (join_two16 view.id id) ps ≡ some (final id))
      × (lookup (join_two16 view.id id) ts ≡ some (entries id))

  abbrev with_maps : Map ℕ → Map (List MetaLogProto) → FinalizedView
  with_maps ps ts = record { view = view; final_metalog_positions = ps; all_tail_metalogs = ts }

  fill_view-active :
      (idx id : ℕ) (ids : List ℕ) (ps : Map ℕ) (ts : Map (List MetaLogProto)) {position : ℕ}
      {tail : MetaLogsProto}
      → is_active_phylog view id ≡ true
      → get_elem? p.metalog_positions idx ≡ some position
      → get_elem? p.tail_metalogs idx ≡ some tail
      → fill_view p idx (id ∷ ids) (with_maps ps ts)
        ≡ fill_view p (idx + 1) ids (
            with_maps
              (insert (join_two16 view.id id) position ps)
              (insert (join_two16 view.id id) tail.metalogs ts))
  unfolding fill_view is_active_phylog insert
  fill_view-active idx id ids ps ts e at at' = rw e (rw at (rw at' refl))

  fill_view-inactive :
      (idx id : ℕ) (ids : List ℕ) (ps : Map ℕ) (ts : Map (List MetaLogProto))
      → is_active_phylog view id ≡ false
      → fill_view p idx (id ∷ ids) (with_maps ps ts) ≡ fill_view p idx ids (with_maps ps ts)
  unfolding fill_view is_active_phylog
  fill_view-inactive idx id ids ps ts e = rw e refl

  fill_view_lem :
      (idx : ℕ) (ids : List ℕ) (ps : Map ℕ) (ts : Map (List MetaLogProto))
      → All (λ s. s < 2 ^ 16) ids
      → Holds idx (active_ids view ids)
      → (v : FinalizedView) × (fill_view p idx ids (with_maps ps ts) ≡ ok v)
        × ((id : ℕ)
            → id < 2 ^ 16
            → Knows ps ts id
            → Knows v.final_metalog_positions v.all_tail_metalogs id)
        × ((id : ℕ)
            → elem id (active_ids view ids) ≡ true
            → Knows v.final_metalog_positions v.all_tail_metalogs id)
  unfolding fill_view active_ids
  fill_view_lem idx [] ps ts small h = (with_maps ps ts, refl, (λ id s k. k), λ id e. cc)
  fill_view_lem idx (id ∷ ids) ps ts small h = elim (Bool-cases (is_active_phylog view id)) [
    | inl e ↦
        let h' =
          subst (λ b. Holds idx (if b then id ∷ active_ids view ids else active_ids view ids)) e
            h in
        let at : get_elem? p.metalog_positions idx ≡ some (final id) =
          subst (λ i. get_elem? p.metalog_positions i ≡ some (final id)) (omega arith)
            (h' 0 id refl).0 in
        let at' : get_elem? p.tail_metalogs idx ≡ some (final_tail view tails id) =
          subst (λ i. get_elem? p.tail_metalogs i ≡ some (final_tail view tails id)) (omega arith)
            (h' 0 id refl).1 in
        let later : Holds (idx + 1) (active_ids view ids) = λ j i e'.
          subst
            (λ n.
              (get_elem? p.metalog_positions n ≡ some (final i))
              × (get_elem? p.tail_metalogs n ≡ some (final_tail view tails i)))
            (omega arith) (h' (suc j) i e') in
        let (v, run, keep, all) =
          fill_view_lem (idx + 1) ids (insert (join_two16 view.id id) (final id) ps)
            (insert (join_two16 view.id id) (entries id) ts) small.1 later in
        (
          v,
          fill_view-active idx id ids ps ts e at at' ∙ run,
          (λ i s k. keep i s (
            lookup-gained final view.id id i ps small.0 s (inr k.0),
            lookup-gained entries view.id id i ts small.0 s (inr k.1),
          )),
          λ i m.
              elim (elem-cases id i (active_ids view ids) (
                subst
                  (λ b. elem i (if b then id ∷ active_ids view ids else active_ids view ids) ≡ true)
                  e m)) [
                    | inl same ↦
                        let s = subst (λ x. x < 2 ^ 16) same small.0 in
                        keep i s (
                          lookup-gained final view.id id i ps small.0 s (inl same),
                          lookup-gained entries view.id id i ts small.0 s (inl same),
                        )
                    | inr later ↦ all i later
                  ],
        )
    | inr e ↦
        let (v, run, keep, all) = fill_view_lem idx ids ps ts small.1 (
          subst (λ b. Holds idx (if b then id ∷ active_ids view ids else active_ids view ids)) e
            h) in
        (
          v,
          fill_view-inactive idx id ids ps ts e ∙ run,
          keep,
          λ i m. all i (
              subst
                (λ b. elem i (if b then id ∷ active_ids view ids else active_ids view ids) ≡ true) e
                m),
        )
  ]

-- When the controller seals a view, every node that gets the finalized view knows for each active
-- sequencer the final position that the controller has computed, and the entries of the tails.
-- The ids of the sequencers fit 16 bits.
pub sealed_is_finalized :
    (seal : OngoingSeal) {f : FinalizedViewProto}
    → check_all_sealed seal ≡ some f
    → seal.phylogs ≡ active_ids seal.view seal.view.sequencer_node_ids
    → All (λ s. s < 2 ^ 16) seal.view.sequencer_node_ids
    → (v : FinalizedView) × (finalized_view seal.view f ≡ ok v)
      × ((id : ℕ)
          → elem id seal.phylogs ≡ true
          → (final_metalog_position (join_two16 seal.view.id id) v
              ≡ ok (build_final_tail_metalog (collected id seal.tail_metalogs)).0)
            × (tail_metalogs (join_two16 seal.view.id id) v
                ≡ ok (build_final_tail_metalog (collected id seal.tail_metalogs)).1))
unfolding finalized_view final_metalog_position tail_metalogs
sealed_is_finalized seal {f} h phylogs small =
    let (r, sealed, positions, tails) = check_all_sealed-seal_phylogs seal h in
    let (v, run, _, all) =
      fill_view_lem seal.view seal.tail_metalogs f 0 seal.view.sequencer_node_ids [] [] small
        (λ j id at.
          let (_, first, second) =
            seal_phylogs_lem seal.view seal.tail_metalogs seal.phylogs j id sealed
              (ap (λ xs. get_elem? xs j) phylogs ∙ at) in
          (
            ap (get_elem? f.metalog_positions) (omega arith)
                ∙ ap (λ xs. get_elem? xs j) positions
                ∙ first,
            ap (get_elem? f.tail_metalogs) (omega arith) ∙ ap (λ xs. get_elem? xs j) tails ∙ second,
          )) in
    (
      v,
      run,
      λ id active.
          let (first, second) = all id (subst (λ xs. elem id xs ≡ true) phylogs active) in
          (ap expect first, ap expect second),
    )
