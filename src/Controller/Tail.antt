-- ===== src/Controller/Tail.antt =====
-- The final tail of a metalog: it is in order, and its position lies past every entry of the tails.
use boki.Base.{
  ℕ, zero, suc, ◌+◌, ◌^◌, ◌≤◌, ◌<◌, List, [], ◌∷◌, some, Bool, true, false, ◌≡◌, ◌↔◌, refl, ap, ◌∙◌,
  ◌==◌, ==_iff, if◌then◌else◌, get_elem?, All, Map, contains, insert, contains-insert, AllKeys,
  AllKeys-insert, IsSorted, insert-IsSorted, some-injective, arith,
}
use boki.Bits.{u32}
use boki.Proto.{MetaLogProto, MetaLogsProto}
use boki.Controller.Seal.{add_entries, add_tails, position_after, build_final_tail_metalog}

-- Every number is below 2 ^ 32 - 1, so that the position past it is a word.
abbrev pub AreSmall : List MetaLogProto → Type 0
AreSmall = All (λ m. suc m.metalog_seqnum < 2 ^ 32)

abbrev IsSmall : ℕ → MetaLogProto → Type 0
IsSmall k m = suc k < 2 ^ 32

position_after-ge :
    (lo position : ℕ) (es : Map MetaLogProto)
    → lo ≤ position
    → IsSorted lo es
    → AllKeys IsSmall es
    → lo ≤ position_after position es
unfolding position_after
position_after-ge lo position [] h sorted small = h
position_after-ge lo position ((k, m) ∷ es) h sorted small = omega (
  arith,
  position_after-ge (suc k) (u32 (k + 1)) es (omega (arith, small.0)) sorted.1 small.1,
  sorted.0,
)

-- The final position is above every entry.
position_after-contains :
    (lo k position : ℕ) (es : Map MetaLogProto)
    → IsSorted lo es
    → AllKeys IsSmall es
    → contains k es ≡ true
    → suc k ≤ position_after position es
unfolding position_after contains
position_after-contains lo k position [] sorted small h = cc
position_after-contains lo k position ((j, m) ∷ es) sorted small h =
    go (j == k) (==_iff j k) h (position_after-contains (suc j) k (u32 (j + 1)) es sorted.1 small.1)
  where
    go :
        (b : Bool)
        → (b ≡ true ↔ j ≡ k)
        → (if b then true else contains k es) ≡ true
        → (contains k es ≡ true → suc k ≤ position_after (u32 (j + 1)) es)
        → suc k ≤ position_after (u32 (j + 1)) es
    go true same h later = omega (
      arith,
      same.0 refl,
      position_after-ge (suc j) (u32 (j + 1)) es (omega (arith, small.0)) sorted.1 small.1,
    )
    go false same h later = later h

-- Entries are only added.
module _ (k : ℕ) where
  add_entries-contains :
      (ms : List MetaLogProto) (es : Map MetaLogProto)
      → contains k es ≡ true
      → contains k (add_entries ms es) ≡ true
  unfolding add_entries
  add_entries-contains [] es h = h
  add_entries-contains (m ∷ ms) es h =
      add_entries-contains ms (insert m.metalog_seqnum m es)
        (contains-insert m.metalog_seqnum k m es ∙ ground (arith, h))

  add_entries-member :
      (ms : List MetaLogProto) (es : Map MetaLogProto) (j : ℕ) {m : MetaLogProto}
      → get_elem? ms j ≡ some m
      → m.metalog_seqnum ≡ k
      → contains k (add_entries ms es) ≡ true
  unfolding add_entries
  add_entries-member [] es j at e = cc
  add_entries-member (n ∷ ms) es zero at e =
      add_entries-contains ms (insert n.metalog_seqnum n es) (
        contains-insert n.metalog_seqnum k n es
        ∙ ground (arith, ap (λ (x : MetaLogProto). x.metalog_seqnum) (some-injective at), e))
  add_entries-member (n ∷ ms) es (suc j) at e =
      add_entries-member ms (insert n.metalog_seqnum n es) j at e

  add_tails-contains :
      (ts : List MetaLogsProto) (es : Map MetaLogProto)
      → contains k es ≡ true
      → contains k (add_tails ts es) ≡ true
  unfolding add_tails
  add_tails-contains [] es h = h
  add_tails-contains (t ∷ ts) es h =
      add_tails-contains ts (add_entries t.metalogs es) (add_entries-contains t.metalogs es h)

-- The tails stay in order and small.
add_entries-kept :
    (ms : List MetaLogProto) (es : Map MetaLogProto)
    → AreSmall ms
    → IsSorted 0 es × AllKeys IsSmall es
    → IsSorted 0 (add_entries ms es) × AllKeys IsSmall (add_entries ms es)
unfolding add_entries
add_entries-kept [] es small h = h
add_entries-kept (m ∷ ms) es small h = add_entries-kept ms (insert m.metalog_seqnum m es) small.1 (
  insert-IsSorted 0 m.metalog_seqnum m es (omega arith) h.0,
  AllKeys-insert IsSmall m.metalog_seqnum m es small.0 h.1,
)

add_tails-kept :
    (ts : List MetaLogsProto) (es : Map MetaLogProto)
    → All (λ (t : MetaLogsProto). AreSmall t.metalogs) ts
    → IsSorted 0 es × AllKeys IsSmall es
    → IsSorted 0 (add_tails ts es) × AllKeys IsSmall (add_tails ts es)
unfolding add_tails
add_tails-kept [] es small h = h
add_tails-kept (t ∷ ts) es small h =
    add_tails-kept ts (add_entries t.metalogs es) small.1 (add_entries-kept t.metalogs es small.0 h)

add_tails-member :
    (k : ℕ) (ts : List MetaLogsProto) (es : Map MetaLogProto) (i j : ℕ) {t : MetaLogsProto}
    {m : MetaLogProto}
    → get_elem? ts i ≡ some t
    → get_elem? t.metalogs j ≡ some m
    → m.metalog_seqnum ≡ k
    → contains k (add_tails ts es) ≡ true
unfolding add_tails
add_tails-member k [] es i j at in_tail e = cc
add_tails-member k (u ∷ ts) es zero j at in_tail e =
    add_tails-contains k ts (add_entries u.metalogs es) (
      add_entries-member k u.metalogs es j
        (ap (λ (x : MetaLogsProto). get_elem? x.metalogs j) (some-injective at) ∙ in_tail) e)
add_tails-member k (u ∷ ts) es (suc i) j at in_tail e =
    add_tails-member k ts (add_entries u.metalogs es) i j at in_tail e

-- The final position lies above every entry of every tail.
pub build_final_tail_metalog-gt :
    (ts : List MetaLogsProto) (i j : ℕ) {t : MetaLogsProto} {m : MetaLogProto}
    → All (λ (t : MetaLogsProto). AreSmall t.metalogs) ts
    → get_elem? ts i ≡ some t
    → get_elem? t.metalogs j ≡ some m
    → suc m.metalog_seqnum ≤ (build_final_tail_metalog ts).0
unfolding build_final_tail_metalog
build_final_tail_metalog-gt ts i j {t} {m} small at in_tail =
    let (sorted, few) = add_tails-kept ts [] small (tt, tt) in
    position_after-contains 0 m.metalog_seqnum 0 (add_tails ts []) sorted few
      (add_tails-member m.metalog_seqnum ts [] i j at in_tail refl)
