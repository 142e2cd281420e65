-- ===== src/SpscQueue/Wakeups.antt =====
-- When a push calls the wakeup function of the consumer.
use boki.Base.{List, [], ◌∷◌, Bool, true, false, not, ◌&&◌, ◌≡◌, refl, ap, ◌∙◌, All, arith}
use boki.SpscQueue.{
  SpscQueue, Call, push_call, pop_call, sleep_call, call, is_sleeping, Outcome, pushed, popped,
  asleep, push, pop, consumer_enter_sleep,
}

module _ {T : Type 0} where
  -- The queue after a run of calls.
  unfoldable pub after : List (Call T) → SpscQueue T → SpscQueue T
  after [] q = q
  after (c ∷ cs) q = after cs (call c q).1

  unfoldable pub is_push : Call T → Bool
  is_push (push_call m) = true
  is_push pop_call = false
  is_push sleep_call = false

  -- Does the call call the wakeup function?
  unfoldable pub wakes : Outcome T → Bool
  wakes (pushed b w) = w
  wakes (popped x) = false
  wakes asleep = false

  push-flag : (m : T) (q : SpscQueue T) → (push m q).1.wakeup_consumer_flag ≡ is_sleeping q.head
  unfolding push
  push-flag m q = ground arith

  push-wakes :
      (m : T) (q : SpscQueue T)
      → wakes (push m q).0 ≡ (is_sleeping q.head && not q.wakeup_consumer_flag)
  unfolding push wakes
  push-wakes m q = ground arith

  call-flag :
      (c : Call T) (q : SpscQueue T)
      → is_push c ≡ false
      → (call c q).1.wakeup_consumer_flag ≡ q.wakeup_consumer_flag
  unfolding call is_push pop consumer_enter_sleep
  call-flag (push_call m) q e = cc
  call-flag pop_call q e = ground arith
  call-flag sleep_call q e = refl

  after-flag :
      (cs : List (Call T)) (q : SpscQueue T)
      → All (λ c. is_push c ≡ false) cs
      → (after cs q).wakeup_consumer_flag ≡ q.wakeup_consumer_flag
  unfolding after
  after-flag [] q es = refl
  after-flag (c ∷ cs) q (e, es) = after-flag cs (call c q).1 es ∙ call-flag c q e

  -- Take any queue, a push, any pops and sleeps of the consumer, and a second push. The second push
  -- calls the wakeup function exactly when it finds the consumer asleep and the first push found it
  -- awake: when the first push found it asleep too, the second does not wake it, even if the consumer
  -- woke up and popped messages in between and then went to sleep again.
  pub wakes-after :
      (m m' : T) (cs : List (Call T)) (q : SpscQueue T)
      → All (λ c. is_push c ≡ false) cs
      → wakes (push m' (after cs (push m q).1)).0
        ≡ (is_sleeping (after cs (push m q).1).head && not (is_sleeping q.head))
  wakes-after m m' cs q es =
      push-wakes m' (after cs (push m q).1)
      ∙ ap (λ b. is_sleeping (after cs (push m q).1).head && not b)
          (after-flag cs (push m q).1 es ∙ push-flag m q)
