-- ===== src/SpscQueue.antt =====
-- src/ipc/spsc_queue.h and src/ipc/spsc_queue-inl.h: the queue between two processes. The shared
-- memory is the record's fields; each method of the producer and of the consumer is one step. What
-- new memory holds is an argument. The wakeup function is a flag that says that it is called.
pub mod Ring
pub mod Cells
pub mod Fifo
pub mod Wakeups
mod Tests
use boki.Base.{
  ℕ, zero, suc, ◌+◌, ◌-◌, ◌%◌, ◌^◌, List, [], ◌∷◌, Option, none, some, Bool, true, false, not, ◌&&◌,
  ltb, ◌==◌, if◌then◌else◌, length, get_elem?, set, Result, ok, panic, ◌>>=◌, expect,
}

pub record SpscQueue (T : Type 0) : Type 0 where
  pub queue_size : ℕ
  pub head : ℕ
  pub tail : ℕ
  pub cells : List T
  pub wakeup_consumer_flag : Bool

-- `head & kConsumerSleepMask` and `head & ~kConsumerSleepMask` of a word.
unfoldable pub is_sleeping : ℕ → Bool
is_sleeping head = ltb (2 ^ 63 - 1) head

unfoldable pub awake : ℕ → ℕ
awake head = head % 2 ^ 63

unfoldable pub next_index : ℕ → ℕ → ℕ
next_index queue_size current = if current + 1 == queue_size then 0 else current + 1

-- What a method gives back: a push says whether it succeeded and whether it woke the consumer.
pub data Outcome (T : Type 0) : Type 0 where
  pushed : Bool → Bool → Outcome T
  popped : Option T → Outcome T
  asleep : Outcome T

pub data Call (T : Type 0) : Type 0 where
  push_call : T → Call T
  pop_call sleep_call : Call T

module _ {T : Type 0} where
  -- `Create`, on memory with the given cells.
  unfoldable pub create : ℕ → List T → Result (SpscQueue T)
  create queue_size cells =
      if ltb queue_size 2
      then panic
      else ok (record {
        queue_size = queue_size;
        head = 0;
        tail = 0;
        cells = cells;
        wakeup_consumer_flag = false;
      })

  -- `Push`
  unfoldable pub push : T → SpscQueue T → Outcome T × SpscQueue T
  push message q =
      let next = next_index q.queue_size q.tail in
      let wakes = is_sleeping q.head && not q.wakeup_consumer_flag in
      if not (next == awake q.head)
      then (
        pushed true wakes,
        record q {
          cells = set q.cells q.tail message;
          tail = next;
          wakeup_consumer_flag = is_sleeping q.head;
        },
      )
      else (pushed false wakes, record q { wakeup_consumer_flag = is_sleeping q.head })

  -- `Pop`. The index of a cell lies within the memory.
  unfoldable pub pop : SpscQueue T → Outcome T × SpscQueue T
  pop q =
      let current = awake q.head in
      if current == q.tail
      then (popped none, record q { head = current })
      else (popped (get_elem? q.cells current), record q { head = next_index q.queue_size current })

  -- `ConsumerEnterSleep`
  unfoldable pub consumer_enter_sleep : SpscQueue T → Outcome T × SpscQueue T
  consumer_enter_sleep q = (asleep, record q { head = awake q.head + 2 ^ 63 })

  unfoldable pub call : Call T → SpscQueue T → Outcome T × SpscQueue T
  call (push_call m) q = push m q
  call pop_call q = pop q
  call sleep_call q = consumer_enter_sleep q

  -- The outcomes of a run of calls, by either side in any order.
  unfoldable pub run : List (Call T) → SpscQueue T → List (Outcome T)
  run [] q = []
  run (c ∷ cs) q = let (out, q') = call c q in out ∷ run cs q'
