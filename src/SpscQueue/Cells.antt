-- ===== src/SpscQueue/Cells.antt =====
-- The cells between the head and the tail hold a list.
use boki.Base.{
  ℕ, zero, suc, ◌+◌, ◌-◌, ◌^◌, ◌≤◌, ◌<◌, List, [], ◌∷◌, ◌++◌, some, Bool, false, ◌≡◌, refl, sym, ap,
  ◌∙◌, subst, ltb, ◌==◌, length, length-append, get_elem?, length-set, Bool-cases, ltb→lt, ltb→le,
  inl, inr, get_elem?-append_left, get_elem?-append_last, set, arith,
}
use boki.SpscQueue.{SpscQueue, awake, next_index}
use boki.SpscQueue.Ring.{
  wrap, next_index-wrap, woken, next_index-lt, next_index-first, wrap-differs, wrap-lt,
}

module _ {T : Type 0} where
  -- The cells from the head on hold the list, up to the tail.
  pub record Holds (q : SpscQueue T) (xs : List T) : Type 0 where
    pub size : 2 ≤ q.queue_size
    pub small : q.queue_size < 2 ^ 63
    pub memory : length q.cells ≡ q.queue_size
    pub head : awake q.head < q.queue_size
    pub fits : length xs < q.queue_size
    pub tail : q.tail ≡ wrap q.queue_size (awake q.head + length xs)
    pub at :
        (i : ℕ)
        → i < length xs
        → get_elem? q.cells (wrap q.queue_size (awake q.head + i)) ≡ get_elem? xs i

  get_elem?-set_same :
      (xs : List T) (i : ℕ) (v : T) → i < length xs → get_elem? (set xs i v) i ≡ some v
  get_elem?-set_same [] i v h = absurd (omega (arith, h))
  get_elem?-set_same (x ∷ xs) zero v h = refl
  get_elem?-set_same (x ∷ xs) (suc i) v h = get_elem?-set_same xs i v (omega (arith, h))

  get_elem?-set_other :
      (xs : List T) (i j : ℕ) (v : T) → (i == j) ≡ false → get_elem? (set xs i v) j ≡ get_elem? xs j
  get_elem?-set_other [] i j v h = refl
  get_elem?-set_other (x ∷ xs) zero zero v h = cc
  get_elem?-set_other (x ∷ xs) zero (suc j) v h = refl
  get_elem?-set_other (x ∷ xs) (suc i) zero v h = refl
  get_elem?-set_other (x ∷ xs) (suc i) (suc j) v h =
      get_elem?-set_other xs i j v (ground (arith, h))

  -- Another head with the same place.
  pub moved-Holds :
      (q : SpscQueue T) (head : ℕ) (flag : Bool) (xs : List T)
      → awake head ≡ awake q.head
      → Holds q xs
      → Holds (record q { head = head; wakeup_consumer_flag = flag }) xs
  moved-Holds q head flag xs e h = record {
    size = h.size;
    small = h.small;
    memory = h.memory;
    head = subst (λ x. x < q.queue_size) (sym e) h.head;
    fits = h.fits;
    tail = h.tail ∙ ap (λ x. wrap q.queue_size (x + length xs)) (sym e);
    at = λ i lt. ap (λ x. get_elem? q.cells (wrap q.queue_size (x + i))) e ∙ h.at i lt;
  }

  pub pushed-Holds :
      (q : SpscQueue T) (m : T) (flag : Bool) (xs : List T)
      → Holds q xs
      → length xs < q.queue_size - 1
      → Holds
          (record q {
            cells = set q.cells q.tail m;
            tail = next_index q.queue_size q.tail;
            wakeup_consumer_flag = flag;
          })
          (xs ++ m ∷ [])
  pushed-Holds q m flag xs h room =
      let longer : length (xs ++ m ∷ []) ≡ suc (length xs) =
        length-append xs (m ∷ []) ∙ omega arith in
      record {
        size = h.size;
        small = h.small;
        memory = length-set q.cells q.tail m ∙ h.memory;
        head = h.head;
        fits = omega (arith, longer, room);
        tail =
            ap (next_index q.queue_size) h.tail
            ∙ next_index-wrap q.queue_size (awake q.head) (length xs) h.head h.fits
            ∙ ap (λ k. wrap q.queue_size (awake q.head + k)) (sym longer);
        at = λ i lt. elim (Bool-cases (ltb i (length xs))) [
          | inl old ↦ old_at i (ltb→lt i (length xs) old)
          | inr new ↦ new_at i (omega (arith, ltb→le i (length xs) new, lt, longer))
        ];
      }
    where
      hd : ℕ
      hd = awake q.head

      old_at :
          (i : ℕ)
          → i < length xs
          → get_elem? (set q.cells q.tail m) (wrap q.queue_size (hd + i))
            ≡ get_elem? (xs ++ m ∷ []) i
      old_at i lt =
          get_elem?-set_other q.cells q.tail (wrap q.queue_size (hd + i)) m (
            ap (λ t. t == wrap q.queue_size (hd + i)) h.tail
            ∙ wrap-differs q.queue_size hd i (length xs) h.head h.fits lt)
          ∙ h.at i lt
          ∙ sym (get_elem?-append_left xs (m ∷ []) i lt)

      new_at :
          (i : ℕ)
          → i ≡ length xs
          → get_elem? (set q.cells q.tail m) (wrap q.queue_size (hd + i))
            ≡ get_elem? (xs ++ m ∷ []) i
      new_at i e =
          ap (λ k. get_elem? (set q.cells q.tail m) (wrap q.queue_size (hd + k))) e
          ∙ ap (get_elem? (set q.cells q.tail m)) (sym h.tail)
          ∙ get_elem?-set_same q.cells q.tail m
              (omega (arith, h.tail, wrap-lt q.queue_size hd (length xs) h.head h.fits, h.memory))
          ∙ sym (get_elem?-append_last xs m)
          ∙ ap (get_elem? (xs ++ m ∷ [])) (sym e)

  pub popped-Holds :
      (q : SpscQueue T) (x : T) (xs : List T)
      → Holds q (x ∷ xs)
      → Holds (record q { head = next_index q.queue_size (awake q.head) }) xs
  popped-Holds q x xs h =
      let n = q.queue_size in
      let hd = awake q.head in
      let next = next_index n hd in
      let there = next_index-lt n hd h.head in
      let same = (woken n next there h.small).0 in
      record {
        size = h.size;
        small = h.small;
        memory = h.memory;
        head = subst (λ k. k < n) (sym same) there;
        fits = omega (arith, h.fits);
        tail =
            h.tail
            ∙ sym (next_index-first n hd (length xs) h.head (omega (arith, h.fits)))
            ∙ ap (λ k. wrap n (k + length xs)) (sym same);
        at = λ i lt.
            ap (λ k. get_elem? q.cells (wrap n (k + i))) same
            ∙ ap (get_elem? q.cells) (next_index-first n hd i h.head (omega (arith, h.fits, lt)))
            ∙ h.at (suc i) (omega (arith, lt));
      }
