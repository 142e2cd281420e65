-- ===== src/SpscQueue/Fifo.antt =====
-- The queue is a first-in, first-out list of bounded length.
use boki.Base.{
  ℕ, ◌+◌, ◌-◌, ◌^◌, ◌<◌, List, [], ◌∷◌, ◌++◌, map, Option, none, some, Bool, true, false, not, ◌&&◌,
  ◌≡◌, refl, sym, ap, ◌∙◌, subst, ltb, ◌==◌, ==_iff, if◌then◌else◌, length, ok, panic, ok-injective,
  get_elem?, ltb→lt, ltb→le, set, arith,
}
use boki.SpscQueue.{
  SpscQueue, Call, push_call, pop_call, sleep_call, call, run, create, is_sleeping, awake,
  next_index, Outcome, pushed, popped, asleep, push, pop, consumer_enter_sleep,
}
use boki.SpscQueue.Ring.{
  wrap, next_index-wrap, is_full_iff, is_empty_iff, awake-asleep, woken, wrap-zero,
}
use boki.SpscQueue.Cells.{Holds, moved-Holds, pushed-Holds, popped-Holds}

-- What a call tells its caller: whether a message was put in, or which one was taken out.
pub data Reply (T : Type 0) : Type 0 where
  put : Bool → Reply T
  taken : Option T → Reply T
  nothing : Reply T

module _ {T : Type 0} where
  -- The reply of an outcome. Whether the producer called the wakeup function is no part of it.
  unfoldable pub reply : Outcome T → Reply T
  reply (pushed b wakes) = put b
  reply (popped x) = taken x
  reply asleep = nothing

  unfoldable pub fifo_pop : List T → Reply T × List T
  fifo_pop [] = (taken none, [])
  fifo_pop (x ∷ xs) = (taken (some x), xs)

  -- The specification, on a list of messages: a push puts one at the end of a list shorter than the
  -- bound, and a pop takes the one at the front.
  unfoldable pub fifo_call : ℕ → Call T → List T → Reply T × List T
  fifo_call bound (push_call m) items =
      if ltb (length items) bound then (put true, items ++ m ∷ []) else (put false, items)
  fifo_call bound pop_call items = fifo_pop items
  fifo_call bound sleep_call items = (nothing, items)

  unfoldable pub fifo_run : ℕ → List (Call T) → List T → List (Reply T)
  fifo_run bound [] items = []
  fifo_run bound (c ∷ cs) items =
      let (out, items') = fifo_call bound c items in out ∷ fifo_run bound cs items'

  -- What a call gives and leaves is what the call of the list does.
  Follows : ℕ → Outcome T × SpscQueue T → Reply T × List T → Type 0
  Follows n r s = (reply r.0 ≡ s.0) × (r.1.queue_size ≡ n) × Holds r.1 s.1

  push-Follows :
      (m : T) (q : SpscQueue T) (items : List T)
      → Holds q items
      → Follows q.queue_size (push m q) (fifo_call (q.queue_size - 1) (push_call m) items)
  unfolding Follows push fifo_call reply
  push-Follows m q items h =
      go (ltb (length items) (q.queue_size - 1)) refl
        (not (next_index q.queue_size q.tail == awake q.head)) room
    where
      room :
          not (next_index q.queue_size q.tail == awake q.head)
          ≡ ltb (length items) (q.queue_size - 1)
      room =
          ap (λ k. not (k == awake q.head))
            (ap (next_index q.queue_size) h.tail
              ∙ next_index-wrap q.queue_size (awake q.head) (length items) h.head h.fits)
          ∙ ap not (is_full_iff q.queue_size (awake q.head) (length items) h.head h.fits)
          ∙ not-not (ltb (length items) (q.queue_size - 1))
        where
          not-not : (b : Bool) → not (not b) ≡ b
          not-not true = refl
          not-not false = refl

      go :
          (b : Bool)
          → ltb (length items) (q.queue_size - 1) ≡ b
          → (c : Bool) → c ≡ ltb (length items) (q.queue_size - 1)
          → Follows q.queue_size
              (if◌then◌else◌ {A = Outcome T × SpscQueue T} c
                (
                  pushed true (is_sleeping q.head && not q.wakeup_consumer_flag),
                  record q {
                    cells = set q.cells q.tail m;
                    tail = next_index q.queue_size q.tail;
                    wakeup_consumer_flag = is_sleeping q.head;
                  },
                )
                (
                  pushed false (is_sleeping q.head && not q.wakeup_consumer_flag),
                  record q { wakeup_consumer_flag = is_sleeping q.head },
                ))
              (if◌then◌else◌ {A = Reply T × List T} b
                (put true, items ++ m ∷ [])
                (put false, items))
      go true e true e' = (refl, refl, pushed-Holds q m (is_sleeping q.head) items h (ltb→lt _ _ e))
      go false e false e' = (refl, refl, moved-Holds q q.head (is_sleeping q.head) items refl h)
      go true e false e' = cc
      go false e true e' = cc

  pop-Follows :
      (q : SpscQueue T) (items : List T)
      → Holds q items
      → Follows q.queue_size (pop q) (fifo_pop items)
  unfolding Follows pop fifo_pop reply
  pop-Follows q items h = go items h (awake q.head == q.tail) empty
    where
      empty : (awake q.head == q.tail) ≡ (length items == 0)
      empty =
          ap (λ t. awake q.head == t) h.tail
          ∙ is_empty_iff q.queue_size (awake q.head) (length items) h.head h.fits

      go :
          (xs : List T)
          → Holds q xs
          → (b : Bool) → b ≡ (length xs == 0)
          → Follows q.queue_size
              (if◌then◌else◌ {A = Outcome T × SpscQueue T} b
                (popped none, record q { head = awake q.head })
                (
                  popped (get_elem? q.cells (awake q.head)),
                  record q { head = next_index q.queue_size (awake q.head) },
                ))
              (fifo_pop xs)
      go [] h true e = (
        refl,
        refl,
        moved-Holds q (awake q.head) q.wakeup_consumer_flag []
            (woken q.queue_size (awake q.head) h.head h.small).0 h,
      )
      go [] h false e = cc
      go (x ∷ xs) h true e = absurd (omega (arith, (==_iff (length (x ∷ xs)) 0).0 (sym e)))
      go (x ∷ xs) h false e = (
        ap taken (
            ap (get_elem? q.cells) (sym (wrap-zero q.queue_size (awake q.head) h.head))
            ∙ h.at 0 (omega arith)),
        refl,
        popped-Holds q x xs h,
      )

  call-Follows :
      (c : Call T) (q : SpscQueue T) (items : List T)
      → Holds q items
      → Follows q.queue_size (call c q) (fifo_call (q.queue_size - 1) c items)
  unfolding call fifo_call Follows consumer_enter_sleep reply
  call-Follows (push_call m) q items h = push-Follows m q items h
  call-Follows pop_call q items h = pop-Follows q items h
  call-Follows sleep_call q items h = (
    refl,
    refl,
    moved-Holds q (awake q.head + 2 ^ 63) q.wakeup_consumer_flag items (awake-asleep q.head) h,
  )

  run-fifo_run :
      (cs : List (Call T)) (q : SpscQueue T) (items : List T)
      → Holds q items
      → map reply (run cs q) ≡ fifo_run (q.queue_size - 1) cs items
  unfolding run fifo_run Follows
  run-fifo_run [] q items h = refl
  run-fifo_run (c ∷ cs) q items h =
      let (out, size, after) = call-Follows c q items h in
      let (o, items') = fifo_call (q.queue_size - 1) c items in
      ap (λ r. r ∷ map reply (run cs (call c q).1)) out
      ∙ ap (λ l. o ∷ l)
          (run-fifo_run cs (call c q).1 items' after ∙ ap (λ n. fifo_run (n - 1) cs items') size)

  create-Holds :
      (n : ℕ) (cells : List T) {q : SpscQueue T}
      → create n cells ≡ ok q
      → length cells ≡ n
      → n < 2 ^ 63
      → (q.queue_size ≡ n) × Holds q []
  unfolding create awake is_sleeping wrap
  create-Holds n cells {q} made memory small = go (ltb n 2) refl made
    where
      go :
          (b : Bool)
          → ltb n 2 ≡ b
          → (if b
              then panic
              else ok (record {
                queue_size = n;
                head = 0;
                tail = 0;
                cells = cells;
                wakeup_consumer_flag = false;
              }))
            ≡ ok q
          → (q.queue_size ≡ n) × Holds q []
      go true e h = cc
      go false e h =
          let size = ltb→le n 2 e in
          subst (λ x. (x.queue_size ≡ n) × Holds x []) (ok-injective h)
            (
              refl,
              record {
                size = size;
                small = small;
                memory = memory;
                head = omega (arith, size);
                fits = omega (arith, size);
                tail = ground (arith, size);
                at = λ i lt. absurd (omega (arith, lt));
              },
            )

  -- A new queue of n cells, n below 2 ^ 63, replies to any run of pushes, pops and sleeps of the two
  -- sides as a first-in, first-out list of at most n - 1 messages does: a push tells whether there was
  -- room, a pop gives the oldest message or none. Calls of the wakeup function are left aside.
  pub queue_is_fifo :
      (n : ℕ) (cells : List T) (cs : List (Call T)) {q : SpscQueue T}
      → create n cells ≡ ok q
      → length cells ≡ n
      → n < 2 ^ 63
      → map reply (run cs q) ≡ fifo_run (n - 1) cs []
  queue_is_fifo n cells cs {q} made memory small =
      let (size, holds) = create-Holds n cells made memory small in
      run-fifo_run cs q [] holds ∙ ap (λ k. fifo_run (k - 1) cs []) size
