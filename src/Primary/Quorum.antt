-- ===== src/Primary/Quorum.antt =====
-- The replicated metalog position of the primary, and the reports of its backups.
use boki.Base.{
  ℕ, zero, suc, ◌+◌, ◌/◌, ◌≤◌, ◌<◌, List, [], ◌∷◌, map, some, true, ◌≡◌, refl, sym, subst, length,
  le→ltb, contains-insert, get_elem?_below, ap, inl, inr, ◌⊎◌, ltb→lt, ltb→le, get_elem?,
  get_elem?-lt, elem, ltb, leb, ◌==◌, if◌then◌else◌, Map, lookup, contains, insert,
  contains-IsSorted, IsSorted, insert-IsSorted, AllKeys, AllKeys-insert, ok, ok-injective,
  >>=-eq-ok, expect, expect-eq-ok, Bool-cases, arith,
}
use boki.View.{is_replica_sequencer_node}
use boki.Primary.{
  MetaLogPrimary, insert_sorted, sort, progresses, recompute, or_zero, update_replicated_position,
  update_replica_progress,
}

-- How many of the numbers are at least `r`.
abbrev pub count_ge : ℕ → List ℕ → ℕ
count_ge r [] = 0
count_ge r (x ∷ xs) = (if leb r x then 1 else 0) + count_ge r xs

count_ge-insert_sorted :
    (r x : ℕ) (xs : List ℕ)
    → count_ge r (insert_sorted x xs) ≡ (if leb r x then 1 else 0) + count_ge r xs
unfolding insert_sorted
count_ge-insert_sorted r x [] = refl
count_ge-insert_sorted r x (y ∷ ys) = ground (arith, count_ge-insert_sorted r x ys)

count_ge-sort : (r : ℕ) (xs : List ℕ) → count_ge r (sort xs) ≡ count_ge r xs
unfolding sort
count_ge-sort r [] = refl
count_ge-sort r (x ∷ xs) = omega (arith, count_ge-insert_sorted r x (sort xs), count_ge-sort r xs)

length-insert_sorted : (x : ℕ) (xs : List ℕ) → length (insert_sorted x xs) ≡ suc (length xs)
unfolding insert_sorted
length-insert_sorted x [] = refl
length-insert_sorted x (y ∷ ys) = ground (arith, length-insert_sorted x ys)

length-sort : (xs : List ℕ) → length (sort xs) ≡ length xs
unfolding sort
length-sort [] = refl
length-sort (x ∷ xs) = omega (arith, length-insert_sorted x (sort xs), length-sort xs)

-- From `lo` on, the numbers do not fall.
abbrev IsAscending : ℕ → List ℕ → Type 0
IsAscending lo [] = Unit
IsAscending lo (x ∷ xs) = (lo ≤ x) × IsAscending x xs

IsAscending-mono : (lo hi : ℕ) (xs : List ℕ) → lo ≤ hi → IsAscending hi xs → IsAscending lo xs
IsAscending-mono lo hi [] h a = tt
IsAscending-mono lo hi (x ∷ xs) h a = (omega arith, a.1)

insert_sorted-IsAscending :
    (lo x : ℕ) (xs : List ℕ) → lo ≤ x → IsAscending lo xs → IsAscending lo (insert_sorted x xs)
unfolding insert_sorted
insert_sorted-IsAscending lo x [] h a = (h, tt)
insert_sorted-IsAscending lo x (y ∷ ys) h a = ground (arith, insert_sorted-IsAscending y x ys)

sort-IsAscending : (xs : List ℕ) → IsAscending 0 (sort xs)
unfolding sort
sort-IsAscending [] = tt
sort-IsAscending (x ∷ xs) =
    insert_sorted-IsAscending 0 x (sort xs) (omega arith) (sort-IsAscending xs)

count_ge-IsAscending :
    (lo r : ℕ) (xs : List ℕ) → r ≤ lo → IsAscending lo xs → count_ge r xs ≡ length xs
count_ge-IsAscending lo r [] h a = refl
count_ge-IsAscending lo r (x ∷ xs) h a = ground (arith, count_ge-IsAscending x r xs)

-- At index `i` of ascending numbers, all but `i` of them are at least as large.
count_ge_at :
    (lo i x : ℕ) (xs : List ℕ)
    → IsAscending lo xs
    → get_elem? xs i ≡ some x
    → length xs ≤ i + count_ge x xs
count_ge_at lo i x [] a e = omega arith
count_ge_at lo zero x (y ∷ ys) a e = ground (arith, count_ge-IsAscending y x ys)
count_ge_at lo (suc i) x (y ∷ ys) a e = ground (arith, count_ge_at y i x ys)

count_ge-le-length : (r : ℕ) (xs : List ℕ) → count_ge r xs ≤ length xs
count_ge-le-length r [] = omega arith
count_ge-le-length r (x ∷ xs) = ground (arith, count_ge-le-length r xs)

get_elem?-IsAscending :
    (lo i x : ℕ) (xs : List ℕ) → IsAscending lo xs → get_elem? xs i ≡ some x → lo ≤ x
get_elem?-IsAscending lo i x [] a e = cc
get_elem?-IsAscending lo zero x (y ∷ ys) a e = ground arith
get_elem?-IsAscending lo (suc i) x (y ∷ ys) a e = ground (arith, get_elem?-IsAscending y i x ys)

count_ge_above :
    (lo i x r : ℕ) (xs : List ℕ)
    → IsAscending lo xs
    → get_elem? xs i ≡ some x
    → x < r
    → i + count_ge r xs < length xs
count_ge_above lo i x r [] a e h = cc
count_ge_above lo zero x r (y ∷ ys) a e h = ground (arith, count_ge-le-length r ys)
count_ge_above lo (suc i) x r (y ∷ ys) a e h =
    ground (arith, count_ge_above y i x r ys, get_elem?-IsAscending y i x ys)

abbrev pub values : Map ℕ → List ℕ
values = map (λ (kv : ℕ × ℕ). kv.1)

-- A progress that is known and does not fall counts for as much as before.
count_ge-insert :
    (r lo k v : ℕ) (m : Map ℕ)
    → IsSorted lo m
    → contains k m ≡ true
    → or_zero (lookup k m) ≤ v
    → (length (values (insert k v m)) ≡ length (values m))
      × (count_ge r (values m) ≤ count_ge r (values (insert k v m)))
unfolding insert contains lookup
count_ge-insert r lo k v [] s c h = cc
count_ge-insert r lo k v ((j, w) ∷ m) s c h = (
  ground (arith, count_ge-insert r (suc j) k v m s.1, contains-IsSorted (suc j) k m),
  ground (arith, count_ge-insert r (suc j) k v m s.1, contains-IsSorted (suc j) k m),
)

-- The primary's knowledge of its backups: each has an entry, none is ahead of the primary, and the
-- replicated position is one that enough of them have reached.
pub record HasQuorum (p : MetaLogPrimary) : Type 0 where
  pub known :
      (id : ℕ)
      → elem id p.base.sequencer_node.replica_sequencer_nodes ≡ true
      → contains id p.metalog_progresses ≡ true
  pub sorted : IsSorted 0 p.metalog_progresses
  pub bounded : AllKeys (λ k v. v ≤ p.base.metalog_position) p.metalog_progresses
  pub reached :
      length (progresses p)
      ≤ length (progresses p) / 2 + count_ge p.replicated_metalog_position (progresses p)
  pub below : p.replicated_metalog_position ≤ p.base.metalog_position

count_ge-AllKeys :
    (r hi : ℕ) (m : Map ℕ) → AllKeys (λ k v. v ≤ hi) m → hi < r → count_ge r (values m) ≡ 0
count_ge-AllKeys r hi [] a h = refl
count_ge-AllKeys r hi ((k, v) ∷ m) a h = ground (arith, count_ge-AllKeys r hi m a.1)

-- The number in the middle of the sorted progress, against a position that enough have reached.
middle_lem :
    (xs : List ℕ) (r x : ℕ)
    → get_elem? (sort xs) (length xs / 2) ≡ some x
    → length xs ≤ length xs / 2 + count_ge r xs
    → (length xs ≤ length xs / 2 + count_ge x xs) × (r ≤ x) × (0 < length xs)
middle_lem xs r x got enough =
    let up = sort-IsAscending xs in
    let n = length xs in
    (
      omega (arith, count_ge_at 0 (n / 2) x (sort xs) up got, length-sort xs, count_ge-sort x xs),
      elim (Bool-cases (ltb x r)) [
        | inl less ↦ absurd (
            omega (
              arith,
              count_ge_above 0 (n / 2) x r (sort xs) up got (ltb→lt x r less),
              length-sort xs,
              count_ge-sort r xs,
            ))
        | inr more ↦ ltb→le x r more
      ],
      omega (arith, length-sort xs, get_elem?-lt (sort xs) (n / 2) got),
    )

-- What recomputing does when it succeeds.
abbrev pub Recomputed : MetaLogPrimary → MetaLogPrimary → Type 0
Recomputed p p' =
    (p' ≡ p)
    ⊎ ((x : ℕ) × (get_elem? (sort (progresses p)) (length (progresses p) / 2) ≡ some x)
        × (p' ≡ record p { replicated_metalog_position = x }))

recompute-Recomputed :
    (m : Map ℕ) (p : MetaLogPrimary) {p' : MetaLogPrimary} → recompute m p ≡ ok p' → Recomputed p p'
unfolding recompute
recompute-Recomputed [] p e = inl (sym (ok-injective e))
recompute-Recomputed (_ ∷ _) p e =
    let (x, got, e₁) =
      >>=-eq-ok (expect (get_elem? (sort (progresses p)) (length (progresses p) / 2))) _ e in
    inr (x, expect-eq-ok _ got, sym (ok-injective e₁))

pub update_replicated_position-Recomputed :
    (p : MetaLogPrimary) {p' : MetaLogPrimary}
    → update_replicated_position p ≡ ok p'
    → Recomputed p p'
unfolding update_replicated_position
update_replicated_position-Recomputed p e =
    elim (Bool-cases (p.replicated_metalog_position == p.base.metalog_position)) [
      | inl same ↦ inl (sym (ok-injective (rw (same, update_replicated_position) at e)))
      | inr other ↦
          recompute-Recomputed p.metalog_progresses p (rw (other, update_replicated_position) at e)
    ]

update_replicated_position-HasQuorum :
    (p : MetaLogPrimary) {p' : MetaLogPrimary}
    → HasQuorum p
    → update_replicated_position p ≡ ok p'
    → HasQuorum p' × (p.replicated_metalog_position ≤ p'.replicated_metalog_position)
update_replicated_position-HasQuorum p {p'} q e = elim (update_replicated_position-Recomputed p e) [
  | inl same ↦
      subst (λ x. HasQuorum x × (p.replicated_metalog_position ≤ x.replicated_metalog_position))
        (sym same) (q, omega arith)
  | inr (x, got, made) ↦
      let (enough, more, some_replica) =
        middle_lem (progresses p) p.replicated_metalog_position x got q.reached in
      subst (λ x. HasQuorum x × (p.replicated_metalog_position ≤ x.replicated_metalog_position))
        (sym made)
        (
          record {
            known = q.known;
            sorted = q.sorted;
            bounded = q.bounded;
            reached = enough;
            below = not_ahead x enough some_replica;
          },
          more,
        )
]
  where
    not_ahead :
        (x : ℕ)
        → length (progresses p) ≤ length (progresses p) / 2 + count_ge x (progresses p)
        → 0 < length (progresses p)
        → x ≤ p.base.metalog_position
    not_ahead x enough nonempty = elim (Bool-cases (ltb p.base.metalog_position x)) [
      | inl ahead ↦ absurd (
          omega (
            arith,
            count_ge-AllKeys x p.base.metalog_position p.metalog_progresses q.bounded
                (ltb→lt _ _ ahead),
          ))
      | inr within ↦ ltb→le _ _ within
    ]

or_zero_bounded : (k hi : ℕ) (m : Map ℕ) → AllKeys (λ _ v. v ≤ hi) m → or_zero (lookup k m) ≤ hi
unfolding lookup
or_zero_bounded k hi [] a = omega arith
or_zero_bounded k hi ((j, v) ∷ m) a = ground (arith, or_zero_bounded k hi m a.1)

-- A backup's progress goes up, or stays.
insert-HasQuorum :
    (id v : ℕ) (p : MetaLogPrimary)
    → HasQuorum p
    → elem id p.base.sequencer_node.replica_sequencer_nodes ≡ true
    → or_zero (lookup id p.metalog_progresses) ≤ v
    → v ≤ p.base.metalog_position
    → HasQuorum (record p { metalog_progresses = insert id v p.metalog_progresses })
insert-HasQuorum id v p q member up within =
    let c =
      count_ge-insert p.replicated_metalog_position 0 id v p.metalog_progresses q.sorted
        (q.known id member) up in
    record {
      known = λ j e. ground (arith, contains-insert id j v p.metalog_progresses, q.known j e);
      sorted = insert-IsSorted 0 id v p.metalog_progresses (omega arith) q.sorted;
      bounded =
          AllKeys-insert (λ _ w. w ≤ p.base.metalog_position) id v p.metalog_progresses within
            q.bounded;
      reached = omega (arith, c.0, c.1, q.reached);
      below = q.below;
    }

recompute_total :
    (m : Map ℕ) (p : MetaLogPrimary)
    → p.metalog_progresses ≡ m
    → (p' : MetaLogPrimary) × (recompute m p ≡ ok p')
unfolding recompute
recompute_total [] p e = (p, refl)
recompute_total ((k, v) ∷ m) p e =
    let (x, got) =
      get_elem?_below (sort (progresses p)) (length (progresses p) / 2)
        (omega (arith, length-sort (progresses p), ap (λ (m : Map ℕ). length (values m)) e)) in
    (record p { replicated_metalog_position = x }, rw got)

update_replicated_position_total :
    (p : MetaLogPrimary) → (p' : MetaLogPrimary) × (update_replicated_position p ≡ ok p')
unfolding update_replicated_position
update_replicated_position_total p =
    elim (Bool-cases (p.replicated_metalog_position == p.base.metalog_position)) [
      | inl same ↦ (p, rw same)
      | inr other ↦ let (p', e) = recompute_total p.metalog_progresses p refl in (p', rw other e)
    ]

-- A report of a replica that is not ahead of the primary is taken without a panic; it keeps the
-- primary's knowledge of its backups sound and never lowers the replicated position.
pub replica_report :
    (id position : ℕ) (p : MetaLogPrimary)
    → HasQuorum p
    → is_replica_sequencer_node p.base.sequencer_node id ≡ true
    → position ≤ p.base.metalog_position
    → (p' : MetaLogPrimary) × (update_replica_progress id position p ≡ ok p')
      × HasQuorum p'
      × (p.replicated_metalog_position ≤ p'.replicated_metalog_position)
unfolding update_replica_progress is_replica_sequencer_node
replica_report id position p q member within =
    elim (Bool-cases (ltb (or_zero (lookup id p.metalog_progresses)) position)) [
      | inl up ↦
          let q₁ = insert-HasQuorum id position p q member (omega (arith, ltb→lt _ _ up)) within in
          let p₁ = record p { metalog_progresses = insert id position p.metalog_progresses } in
          let (p', e) = update_replicated_position_total p₁ in
          let (q', le) = update_replicated_position-HasQuorum p₁ q₁ e in
          (p', rw (member, le→ltb _ _ within, up) e, q', le)
      | inr down ↦
          let old = or_zero (lookup id p.metalog_progresses) in
          (
            record p { metalog_progresses = insert id old p.metalog_progresses },
            rw (member, le→ltb _ _ within, down),
            insert-HasQuorum id old p q member (omega arith)
                (or_zero_bounded id p.base.metalog_position p.metalog_progresses q.bounded),
            omega arith,
          )
    ]
