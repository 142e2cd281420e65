-- ===== src/SpscQueue/Ring.antt =====
-- Places on the ring of cells, and the word that holds the head and says whether the consumer sleeps.
use boki.Base.{ℕ, suc, ◌+◌, ◌-◌, ◌^◌, ◌<◌, true, false, not, ◌≡◌, ltb, ◌==◌, if◌then◌else◌, arith}
use boki.SpscQueue.{is_sleeping, awake, next_index}

unfoldable pub wrap : ℕ → ℕ → ℕ
wrap n i = if ltb i n then i else i - n

pub next_index-wrap :
    (n h k : ℕ) → h < n → k < n → next_index n (wrap n (h + k)) ≡ wrap n (h + suc k)
unfolding next_index wrap
next_index-wrap n h k hn kn = ground (arith, hn, kn)

-- The queue is full exactly when the list has one element less than there are cells.
pub is_full_iff : (n h k : ℕ) → h < n → k < n → (wrap n (h + suc k) == h) ≡ not (ltb k (n - 1))
unfolding wrap
is_full_iff n h k hn kn = ground (arith, hn, kn)

pub is_empty_iff : (n h k : ℕ) → h < n → k < n → (h == wrap n (h + k)) ≡ (k == 0)
unfolding wrap
is_empty_iff n h k hn kn = ground (arith, hn, kn)

pub asleep_lem : (head : ℕ) → is_sleeping (awake head + 2 ^ 63) ≡ true
unfolding is_sleeping awake
asleep_lem head = ground arith

pub awake-asleep : (head : ℕ) → awake (awake head + 2 ^ 63) ≡ awake head
unfolding awake
awake-asleep head = omega arith

pub woken : (n head : ℕ) → head < n → n < 2 ^ 63 → (awake head ≡ head) × (is_sleeping head ≡ false)
unfolding awake is_sleeping
woken n head h small = (omega (arith, h, small), ground (arith, h, small))

pub next_index-lt : (n h : ℕ) → h < n → next_index n h < n
unfolding next_index
next_index-lt n h hn = ground (arith, hn)

pub next_index-first :
    (n h k : ℕ) → h < n → k < n → wrap n (next_index n h + k) ≡ wrap n (h + suc k)
unfolding next_index wrap
next_index-first n h k hn kn = ground (arith, hn, kn)

pub wrap-differs :
    (n h i k : ℕ) → h < n → k < n → i < k → (wrap n (h + k) == wrap n (h + i)) ≡ false
unfolding wrap
wrap-differs n h i k hn kn ik = ground (arith, hn, kn, ik)

pub wrap-lt : (n h k : ℕ) → h < n → k < n → wrap n (h + k) < n
unfolding wrap
wrap-lt n h k hn kn = ground (arith, hn, kn)

pub wrap-zero : (n h : ℕ) → h < n → wrap n (h + 0) ≡ h
unfolding wrap
wrap-zero n h hn = ground (arith, hn)
