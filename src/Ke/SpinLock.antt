-- ===== src/Ke/SpinLock.antt =====
-- ke/spinlock.cc: spin locks. Threads acquire and release one lock, in any order of their accesses
-- to it; each access is one step. The barriers and the pauses of the processor have no effect here.
pub mod Exclusion
pub mod Queues
pub mod Levels
mod Examples
use exectos.Base.{
  ℕ, zero, suc, ◌+◌, ◌%◌, Bool, true, false, List, [], ◌∷◌, Option, none, some, ◌==◌, if◌then◌else◌,
}
use exectos.Base.Threads.{act_at, total}

-- Where a thread is in AcquireSpinLock or ReleaseSpinLock.
pub data Thread : Type 0 where
  outside : Thread
  -- before the test of its outer loop, and of its inner one
  testing : Thread
  waiting : Thread
  holding : Thread
  clearing : Thread

-- BitTestAndSet of bit 0 of the lock: what it holds then, and whether the bit was set.
unfoldable pub bit_test_and_set : ℕ → ℕ × Bool
bit_test_and_set lock = if lock % 2 == 1 then (lock, true) else (lock + 1, false)

-- A test of a loop of AcquireSpinLock.
unfoldable pub acquire_spin_lock : ℕ → Thread → ℕ × Thread
acquire_spin_lock lock testing =
    let done = bit_test_and_set lock in (done.0, if done.1 then waiting else holding)
acquire_spin_lock lock waiting = (lock, if lock % 2 == 1 then waiting else testing)
acquire_spin_lock lock t = (lock, t)

unfoldable pub release_spin_lock : ℕ → Thread → ℕ × Thread
release_spin_lock lock clearing = (0, outside)
release_spin_lock lock t = (lock, t)

-- The next access of a thread to the lock.
unfoldable pub move : ℕ → Thread → ℕ × Thread
move lock clearing = release_spin_lock lock clearing
move lock t = acquire_spin_lock lock t

-- A thread outside may ask for the lock, and one that holds it may give it back.
unfoldable pub call : ℕ → Thread → ℕ × Thread
call lock outside = (lock, testing)
call lock holding = (lock, clearing)
call lock t = (lock, t)

-- The lock and the threads.
abbrev pub System : Type 0
System = ℕ × List Thread

unfoldable pub initialize_spin_lock : System → System
initialize_spin_lock s = (0, s.1)

-- TRUE if the lock is free.
unfoldable pub test_spin_lock : ℕ → Bool
test_spin_lock lock = lock == 0

pub data Event : Type 0 where
  calls : (k : ℕ) → Event
  moves : (k : ℕ) → Event

unfoldable pub step : System → Event → System
step s (calls k) = act_at call s.0 k s.1
step s (moves k) = act_at move s.0 k s.1

unfoldable pub run : System → List Event → System
run s [] = s
run s (e ∷ es) = run (step s e) es

-- A thread holds the lock from the test that sets its bit to the write that clears it.
abbrev pub held : Thread → ℕ
held holding = 1
held clearing = 1
held t = 0

abbrev pub holders : List Thread → ℕ
holders = total held

abbrev pub all_outside : ℕ → List Thread
all_outside zero = []
all_outside (suc n) = outside ∷ all_outside n
