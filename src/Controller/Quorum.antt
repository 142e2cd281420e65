-- ===== src/Controller/Quorum.antt =====
-- What sealing saves: the final position of a metalog covers every position that a majority of the
-- sequencers of the metalog has reached, because two quorums meet.
use boki.Base.{
  ℕ, zero, suc, ◌+◌, ◌/◌, ◌≤◌, List, [], ◌∷◌, Option, none, some, Bool, true, false, ◌≡◌, ◌↔◌, refl,
  sym, ap, ◌∙◌, subst, ltb, ◌==◌, ==_iff, if◌then◌else◌, elem, length, get_elem?, All, Map, lookup,
  contains, AllKeys, IsSorted, contains-IsSorted, some-injective, arith,
}
use boki.Bits.{join_two16, high_half32}
use boki.Proto.{MetaLogsProto}
use boki.View.{View}
use boki.Controller.Counting.{count, count_mono, count-gains}
use boki.Controller.Tail.{AreSmall}
use boki.Controller.Seal.{build_final_tail_metalog, collected, seal_phylogs}

-- Sequencer `p`'s tails come from the sequencers of the list.
abbrev pub ComeFrom : List ℕ → ℕ → Map MetaLogsProto → Type 0
ComeFrom ids p =
    AllKeys
      λ k t. (high_half32 k == p) ≡ true → (s : ℕ) × (elem s ids ≡ true) × (k ≡ join_two16 p s)

pub length-collected :
    (ids : List ℕ) (p lo : ℕ) (tails : Map MetaLogsProto)
    → IsSorted lo tails
    → ComeFrom ids p tails
    → length (collected p tails) ≤ count (λ s. contains (join_two16 p s) tails) ids
unfolding collected contains
length-collected ids p lo [] sorted from = omega arith
length-collected ids p lo ((k, t) ∷ tails) sorted from =
    go (high_half32 k == p) from.0 (length-collected ids p (suc k) tails sorted.1 from.1)
  where
    before : ℕ → Bool
    before s = contains (join_two16 p s) tails

    after : ℕ → Bool
    after s = contains (join_two16 p s) ((k, t) ∷ tails)

    grows : (s : ℕ) → before s ≡ true → after s ≡ true
    grows s e = ground (arith, e)

    go :
        (b : Bool)
        → (b ≡ true → (s : ℕ) × (elem s ids ≡ true) × (k ≡ join_two16 p s))
        → length (collected p tails) ≤ count before ids
        → length (if b then t ∷ collected p tails else collected p tails) ≤ count after ids
    go true source ih =
        let (s, member, key) = source refl in
        let fresh : before s ≡ false =
          subst (λ x. contains x tails ≡ false) key
            (contains-IsSorted (suc k) k tails (omega arith) sorted.1) in
        omega (arith, ih, count-gains before after s ids grows member fresh (ground (arith, key)))
    go false source ih = omega (arith, ih, count_mono before after ids grows)

module _ (p : ℕ) where
  pub collected-member :
      (k : ℕ) (tails : Map MetaLogsProto) {t : MetaLogsProto}
      → (high_half32 k == p) ≡ true
      → lookup k tails ≡ some t
      → (i : ℕ) × (get_elem? (collected p tails) i ≡ some t)
  unfolding collected lookup
  collected-member k [] e at = cc
  collected-member k ((j, u) ∷ tails) {t} e at =
      go (j == k) (==_iff j k) (collected-member k tails e) at
    where
      behind :
          (b : Bool)
          → (i : ℕ) × (get_elem? (collected p tails) i ≡ some t)
          → (i : ℕ) × (get_elem? (if b then u ∷ collected p tails else collected p tails) i
              ≡ some t)
      behind true (i, h) = (suc i, h)
      behind false (i, h) = (i, h)

      go :
          (b : Bool)
          → (b ≡ true ↔ j ≡ k)
          → (lookup k tails ≡ some t → (i : ℕ) × (get_elem? (collected p tails) i ≡ some t))
          → (if b then some u else lookup k tails) ≡ some t
          → (i : ℕ) × (get_elem?
                (if high_half32 j == p then u ∷ collected p tails else collected p tails)
                i
              ≡ some t)
      go true same ih h =
          subst
            (λ b.
              (i : ℕ) × (get_elem? (if b then u ∷ collected p tails else collected p tails) i
                ≡ some t))
            (sym (subst (λ x. (high_half32 x == p) ≡ true) (sym (same.0 refl)) e)) (0, h)
      go false same ih h = behind (high_half32 j == p) (ih h)

  pub collected-All :
      (tails : Map MetaLogsProto)
      → AllKeys (λ k (t : MetaLogsProto). AreSmall t.metalogs) tails
      → All (λ (t : MetaLogsProto). AreSmall t.metalogs) (collected p tails)
  unfolding collected
  collected-All [] h = tt
  collected-All ((k, t) ∷ tails) h = go (high_half32 k == p) (collected-All tails h.1)
    where
      go :
          (b : Bool)
          → All (λ (t : MetaLogsProto). AreSmall t.metalogs) (collected p tails)
          → All
              (λ (t : MetaLogsProto). AreSmall t.metalogs)
              (if b then t ∷ collected p tails else collected p tails)
      go true rest = (h.0, rest)
      go false rest = rest

-- The entries that are sent on for a physical log.
abbrev pub final_tail : View → Map MetaLogsProto → ℕ → MetaLogsProto
final_tail view tails p = record {
  logspace_id = join_two16 view.id p;
  metalogs = (build_final_tail_metalog (collected p tails)).1;
}

-- Each physical log of a sealed view has a quorum of tails, and its final position is theirs.
pub seal_phylogs_lem :
    (view : View) (tails : Map MetaLogsProto) (ids : List ℕ) (i p : ℕ)
    {r : List ℕ × List MetaLogsProto}
    → seal_phylogs view tails ids ≡ some r
    → get_elem? ids i ≡ some p
    → ((view.metalog_replicas + 1) / 2 ≤ length (collected p tails))
      × (get_elem? r.0 i ≡ some (build_final_tail_metalog (collected p tails)).0)
      × (get_elem? r.1 i ≡ some (final_tail view tails p))
unfolding seal_phylogs
seal_phylogs_lem view tails [] i p h at = cc
seal_phylogs_lem view tails (id ∷ ids) i p {r} h at =
    go (ltb (length (collected id tails)) ((view.metalog_replicas + 1) / 2)) refl
      (seal_phylogs view tails ids) refl i h at
      (λ q e j. seal_phylogs_lem view tails ids j p {r = q} e)
  where
    quorum : ℕ
    quorum = (view.metalog_replicas + 1) / 2

    final : ℕ → ℕ
    final q = (build_final_tail_metalog (collected q tails)).0

    go :
        (few : Bool)
        → ltb (length (collected id tails)) quorum ≡ few
        → (rest : Option (List ℕ × List MetaLogsProto)) → seal_phylogs view tails ids ≡ rest
        → (i : ℕ)
        → (if few then none else (elim rest [
          | none ↦ none
          | some (positions, finals) ↦ some (
            (build_final_tail_metalog (collected id tails)).0 ∷ positions,
            (record {
              logspace_id = join_two16 view.id id;
              metalogs = (build_final_tail_metalog (collected id tails)).1;
            })
                ∷ finals,
          )
        ]))
          ≡ some r
        → get_elem? (id ∷ ids) i ≡ some p
        → ((q : List ℕ × List MetaLogsProto)
            → seal_phylogs view tails ids ≡ some q
            → (j : ℕ) → get_elem? ids j ≡ some p
            → (quorum ≤ length (collected p tails))
              × (get_elem? q.0 j ≡ some (final p))
              × (get_elem? q.1 j ≡ some (final_tail view tails p)))
        → (quorum ≤ length (collected p tails))
          × (get_elem? r.0 i ≡ some (final p))
          × (get_elem? r.1 i ≡ some (final_tail view tails p))
    go true e rest e' i h at ih = cc
    go false e none e' i h at ih = cc
    go false e (some q) e' zero h at ih =
        let same : id ≡ p = some-injective at in
        subst
          (λ x.
            (quorum ≤ length (collected x tails))
            × (get_elem? r.0 zero ≡ some (final x))
            × (get_elem? r.1 zero ≡ some (final_tail view tails x)))
          same
          (
            ground (arith, e),
            ap (λ (z : List ℕ × List MetaLogsProto). get_elem? z.0 zero) (sym (some-injective h)),
            ap (λ (z : List ℕ × List MetaLogsProto). get_elem? z.1 zero) (sym (some-injective h)),
          )
    go false e (some q) e' (suc i) h at ih =
        let (enough, at', tail) = ih q e' i at in
        (
          enough,
          ap (λ (z : List ℕ × List MetaLogsProto). get_elem? z.0 (suc i)) (sym (some-injective h))
              ∙ at',
          ap (λ (z : List ℕ × List MetaLogsProto). get_elem? z.1 (suc i)) (sym (some-injective h))
              ∙ tail,
        )
