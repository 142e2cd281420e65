-- ===== src/Index/Search.antt =====
-- `PerSpaceIndex`: on a list that grows, `FindNext` finds the first entry from a position on and
-- `FindPrev` the last up to one.
use boki.Base.{
  ℕ, suc, ◌≤◌, ◌<◌, ◌^◌, List, [], ◌∷◌, Option, none, some, Bool, true, false, ◌≡◌, ◌⊎◌, ◌↔◌, subst,
  inl, inr, refl, sym, ltb, ◌==◌, if◌then◌else◌, last?, All, arith, Bool-cases, elem, ltb→lt,
  ltb→le, ==_iff,
}
use boki.Bits.{join_two32}
use boki.Index.{before_upper, at_lower, find_prev_in, find_next_in, max_log_seqnum}

-- The numbers are words and grow.
abbrev pub IsGrowing : ℕ → List ℕ → Type 0
IsGrowing lo [] = Unit
IsGrowing lo (x ∷ xs) = (lo ≤ x) × (x < 2 ^ 32) × IsGrowing (suc x) xs

-- `x` is in the list and from the position on; the numbers of the list before it are not.
abbrev pub IsFirst : ℕ → ℕ → List ℕ → ℕ → Type 0
IsFirst space query xs x =
    (elem x xs ≡ true)
    × (query ≤ join_two32 space x)
    × All (λ y. (join_two32 space y < query) ⊎ (x ≤ y)) xs

-- `x` is in the list and at most at the position; the numbers of the list after it are not.
abbrev pub IsLast : ℕ → ℕ → List ℕ → ℕ → Type 0
IsLast space query xs x =
    (elem x xs ≡ true)
    × (join_two32 space x ≤ query)
    × All (λ y. (query < join_two32 space y) ⊎ (y ≤ x)) xs

-- What a search for the next entry may answer.
abbrev pub IsNext : ℕ → ℕ → List ℕ → Option ℕ → Type 0
IsNext space query xs none = All (λ y. join_two32 space y < query) xs
IsNext space query xs (some x) = IsFirst space query xs x

abbrev pub IsPrev : ℕ → ℕ → List ℕ → Option ℕ → Type 0
IsPrev space query xs none = All (λ y. query < join_two32 space y) xs
IsPrev space query xs (some x) = IsLast space query xs x

-- Growing numbers give growing positions.
join_two32_mono :
    (space a b : ℕ) → space < 2 ^ 32 → a ≤ b → b < 2 ^ 32 → join_two32 space a ≤ join_two32 space b
unfolding join_two32
join_two32_mono space a b hs h hb = omega arith

All-IsGrowing : (lo : ℕ) (xs : List ℕ) → IsGrowing lo xs → All (λ y. (lo ≤ y) × (y < 2 ^ 32)) xs
All-IsGrowing lo [] g = tt
All-IsGrowing lo (x ∷ xs) g =
    ((g.0, g.1), weaken (suc x) lo xs (omega arith) (All-IsGrowing (suc x) xs g.2))
  where
    weaken :
        (hi lo : ℕ) (xs : List ℕ)
        → lo ≤ hi
        → All (λ y. (hi ≤ y) × (y < 2 ^ 32)) xs
        → All (λ y. (lo ≤ y) × (y < 2 ^ 32)) xs
    weaken hi lo [] le h = tt
    weaken hi lo (x ∷ xs) le h = ((omega arith, h.0.1), weaken hi lo xs le h.1)

All-weaken {κ μ} :
    {P : ℕ → Type κ} {Q : ℕ → Type μ} (xs : List ℕ) → ((x : ℕ) → P x → Q x) → All P xs → All Q xs
All-weaken [] f h = tt
All-weaken (x ∷ xs) f h = (f x h.0, All-weaken xs f h.1)

at_lower-IsNext :
    (space query lo : ℕ) (xs : List ℕ)
    → IsGrowing lo xs
    → IsNext space query xs (at_lower space query xs)
unfolding at_lower
at_lower-IsNext space query lo [] g = tt
at_lower-IsNext space query lo (x ∷ xs) g =
    go (Bool-cases (ltb (join_two32 space x) query)) (at_lower space query xs)
      (at_lower-IsNext space query (suc x) xs g.2)
  where
    go :
        ((ltb (join_two32 space x) query ≡ true) ⊎ (ltb (join_two32 space x) query ≡ false))
        → (r : Option ℕ) → IsNext space query xs r
        → IsNext space query (x ∷ xs) (if ltb (join_two32 space x) query then r else some x)
    go (inl e) none h = rw e (ltb→lt (join_two32 space x) query e, h)
    go (inl e) (some y) h =
        rw e (ground (arith, h.0), h.1, (inl (ltb→lt (join_two32 space x) query e), h.2))
    go (inr e) r h = rw e (
      ground arith,
      ltb→le (join_two32 space x) query e,
      (
        inr (omega arith),
        All-weaken xs (λ y b. inr (omega (arith, b.0))) (All-IsGrowing (suc x) xs g.2),
      ),
    )

All-elem {κ} : (P : ℕ → Type κ) (y : ℕ) (xs : List ℕ) → All P xs → elem y xs ≡ true → P y
All-elem P y [] h e = cc
All-elem P y (x ∷ xs) h e = go (x == y) (==_iff x y) (All-elem P y xs h.1) e
  where
    go :
        (t : Bool)
        → (t ≡ true ↔ x ≡ y)
        → (elem y xs ≡ true → P y)
        → (if t then true else elem y xs) ≡ true
        → P y
    go true i rest e = subst P (i.0 refl) h.0
    go false i rest e = rest e

-- When the first entry lies after the position, all do.
All-after :
    (space query lo x : ℕ) (xs : List ℕ)
    → space < 2 ^ 32
    → IsGrowing lo (x ∷ xs)
    → query < join_two32 space x
    → All (λ y. query < join_two32 space y) (x ∷ xs)
All-after space query lo x xs hs g h = (
  h,
  All-weaken xs (λ y b. omega (arith, h, join_two32_mono space x y hs (omega (arith, b.0)) b.1))
      (All-IsGrowing (suc x) xs g.2),
)

before_upper-IsPrev :
    (space query lo : ℕ) (xs : List ℕ)
    → space < 2 ^ 32
    → IsGrowing lo xs
    → IsPrev space query xs (before_upper space query xs)
unfolding before_upper
before_upper-IsPrev space query lo [] hs g = tt
before_upper-IsPrev space query lo (x ∷ xs) hs g =
    go (Bool-cases (ltb query (join_two32 space x))) (before_upper space query xs)
      (before_upper-IsPrev space query (suc x) xs hs g.2)
  where
    go :
        ((ltb query (join_two32 space x) ≡ true) ⊎ (ltb query (join_two32 space x) ≡ false))
        → (r : Option ℕ) → IsPrev space query xs r
        → IsPrev space query (x ∷ xs) (
            if ltb query (join_two32 space x)
            then none
            else (elim r [ none ↦ some x | some y ↦ some y ]))
    go (inl e) r h = rw e (All-after space query lo x xs hs g (ltb→lt query (join_two32 space x) e))
    go (inr e) none h = rw e (
      ground arith,
      ltb→le query (join_two32 space x) e,
      (inr (omega arith), All-weaken xs (λ y b. inl b) h),
    )
    go (inr e) (some y) h =
        let above =
          All-elem (λ z. (suc x ≤ z) × (z < 2 ^ 32)) y xs (All-IsGrowing (suc x) xs g.2) h.0 in
        rw e (ground (arith, h.0), h.1, (inr (omega (arith, above.0)), h.2))

-- The last of a growing list is its greatest.
last?-greatest :
    (lo x : ℕ) (xs : List ℕ)
    → IsGrowing lo (x ∷ xs)
    → (y : ℕ) × (last? (x ∷ xs) ≡ some y)
      × (elem y (x ∷ xs) ≡ true)
      × (y < 2 ^ 32)
      × All (λ z. z ≤ y) (x ∷ xs)
last?-greatest lo x [] g = (x, refl, ground arith, g.1, (omega arith, tt))
last?-greatest lo x (z ∷ zs) g =
    let (y, e, there, small, all) = last?-greatest (suc x) z zs g.2 in
    (y, e, ground (arith, there), small, (omega (arith, g.2.0, all.0), all))

-- On growing words, the private `FindNext` answers the first entry at or after the position, and
-- nothing only when every entry lies before it.
pub find_next_in-IsNext :
    (space query lo : ℕ) (seqnums : List ℕ)
    → space < 2 ^ 32
    → IsGrowing lo seqnums
    → IsNext space query seqnums (find_next_in space seqnums query)
unfolding find_next_in
find_next_in-IsNext space query lo [] hs g = tt
find_next_in-IsNext space query lo (x ∷ xs) hs g =
    let (y, e, there, small, all) = last?-greatest lo x xs g in
    subst
      (λ (o : Option ℕ). IsNext space query (x ∷ xs) (elim o as (λ _. Option ℕ) [
        | none ↦ none
        | some back ↦
            if ltb (join_two32 space back) query then none else at_lower space query (x ∷ xs)
      ]))
      (sym e)
      (elim (Bool-cases (ltb (join_two32 space y) query)) [
        | inl t ↦ rw t (
            All-weaken (x ∷ xs)
              (λ z le.
                omega (
                  arith,
                  ltb→lt (join_two32 space y) query t,
                  join_two32_mono space z y hs le small,
                ))
              all)
        | inr t ↦ rw t (at_lower-IsNext space query lo (x ∷ xs) g)
      ])

join_two32-le_max :
    (space y : ℕ) → space < 0xffff0000 → y < 2 ^ 32 → join_two32 space y ≤ max_log_seqnum
unfolding join_two32
join_two32-le_max space y hs h = omega arith

-- On growing words, the private `FindPrev` answers the last entry at or before the position, and
-- nothing only when every entry lies after it. This covers the position `kMaxLogSeqNum`, which
-- stands for the end, in a log space whose view is not the last of the 16-bit numbers.
pub find_prev_in-IsPrev :
    (space query lo : ℕ) (seqnums : List ℕ)
    → space < 0xffff0000
    → IsGrowing lo seqnums
    → IsPrev space query seqnums (find_prev_in space seqnums query)
unfolding find_prev_in
find_prev_in-IsPrev space query lo [] hs g = tt
find_prev_in-IsPrev space query lo (x ∷ xs) hs g =
    let word : space < 2 ^ 32 = omega arith in
    elim (Bool-cases (ltb query (join_two32 space x))) [
      | inl e ↦ rw e (All-after space query lo x xs word g (ltb→lt query (join_two32 space x) e))
      | inr e ↦ rw e (elim (Bool-cases (query == max_log_seqnum)) [
        | inl m ↦
            let (y, l, there, small, all) = last?-greatest lo x xs g in
            let at_end = (==_iff query max_log_seqnum).0 m in
            rw m (
              subst (IsPrev space query (x ∷ xs)) (sym l) (
                there,
                omega (arith, at_end, join_two32-le_max space y hs small),
                All-weaken (x ∷ xs) (λ z le. inr le) all,
              ))
        | inr m ↦ rw m (before_upper-IsPrev space query lo (x ∷ xs) word g)
      ])
    ]
