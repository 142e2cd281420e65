-- ===== src/SpscQueue/Tests.antt =====
-- A queue of three cells, which holds two messages.
use boki.Base.{
  ℕ, ◌^◌, List, [], ◌∷◌, map, none, some, true, false, not, ◌&&◌, All, ◌≡◌, refl, ok, arith,
}
use boki.SpscQueue.{
  SpscQueue, Call, push_call, pop_call, sleep_call, pushed, popped, asleep, create, run, call, push,
  pop, consumer_enter_sleep, next_index, is_sleeping, awake,
}
use boki.SpscQueue.Fifo.{reply, fifo_run, queue_is_fifo}
use boki.SpscQueue.Wakeups.{after, is_push, wakes, wakes-after}

abbrev memory : List ℕ
memory = 0 ∷ 0 ∷ 0 ∷ []

abbrev empty : SpscQueue ℕ
empty = record { queue_size = 3; head = 0; tail = 0; cells = memory; wakeup_consumer_flag = false }

abbrev calls : List (Call ℕ)
calls =
    push_call 7
    ∷ push_call 8
    ∷ push_call 9
    ∷ pop_call
    ∷ sleep_call
    ∷ push_call 9
    ∷ pop_call
    ∷ pop_call
    ∷ pop_call
    ∷ []

makes_empty : create 3 memory ≡ ok empty
unfolding create
makes_empty = refl

queue_is_fifo_example : map reply (run calls empty) ≡ fifo_run 2 calls []
queue_is_fifo_example = queue_is_fifo 3 memory calls makes_empty refl (omega arith)

outcomes :
    run calls empty
    ≡ pushed true false
      ∷ pushed true false
      ∷ pushed false false
      ∷ popped (some 7)
      ∷ asleep
      ∷ pushed true true
      ∷ popped (some 8)
      ∷ popped (some 9)
      ∷ popped none
      ∷ []
unfolding run call push pop consumer_enter_sleep next_index is_sleeping awake
outcomes = refl

-- The consumer wakes up, takes both messages and goes to sleep again between the pushes.
abbrev naps : List (Call ℕ)
naps = pop_call ∷ pop_call ∷ sleep_call ∷ []

abbrev sleeper : SpscQueue ℕ
sleeper = record empty { head = 2 ^ 63 }

no_pushes : All (λ c. is_push c ≡ false) naps
unfolding is_push
no_pushes = (refl, (refl, (refl, tt)))

wakes-after_example :
    wakes (push 8 (after naps (push 7 sleeper).1)).0
    ≡ (is_sleeping (after naps (push 7 sleeper).1).head && not (is_sleeping sleeper.head))
wakes-after_example = wakes-after 7 8 naps sleeper no_pushes

-- The second push finds the consumer asleep, and does not wake it.
not_woken :
    run (sleep_call ∷ push_call 7 ∷ pop_call ∷ pop_call ∷ sleep_call ∷ push_call 8 ∷ []) empty
    ≡ asleep ∷ pushed true true ∷ popped (some 7) ∷ popped none ∷ asleep ∷ pushed true false ∷ []
unfolding run call push pop consumer_enter_sleep next_index is_sleeping awake
not_woken = refl
