-- ===== src/Ex/Rundown.antt =====
-- ex/rundown.cc: run-down protection. Threads acquire and release the protection of one
-- descriptor, in any order of their accesses to its Count; each access is one step.
pub mod Safety
pub mod Alone
pub mod Refusal
mod Examples
use exectos.Base.{
  ℕ, zero, suc, ◌+◌, ◌-◌, ◌*◌, ◌%◌, ◌^◌, ◌≡◌, Bool, true, false, List, [], ◌∷◌, ◌==◌, if◌then◌else◌,
}
use exectos.Base.Threads.{act_at, total}
use exectos.Word.{u64}

-- EX_RUNDOWN_ACTIVE
abbrev pub rundown_active : ℕ
rundown_active = 1

-- Where a thread is in AcquireProtection or ReleaseProtection; `current` is its CurrentValue.
pub data Thread : Type 0 where
  outside : Thread
  reading_to_acquire : Thread
  acquiring : (current : ℕ) → Thread
  -- AcquireProtection has returned FALSE, or TRUE
  refused : Thread
  holding : Thread
  reading_to_release : Thread
  releasing : (current : ℕ) → Thread
  -- before the count of the wait block at an address is taken down; there the model ends
  at_wait_block : (address : ℕ) → Thread

-- RTL::Atomic::CompareExchangePointer on Count: what Count is after it. It returns what it was.
abbrev pub compare_exchange : ℕ → (comperand exchange : ℕ) → ℕ
compare_exchange count comperand exchange = if count == comperand then exchange else count

-- A round of the loop of AcquireProtection. It compares Count with NewValue, `current + 2`, and
-- would write CurrentValue: the arguments stand in this order in the call.
unfoldable pub acquire_protection : ℕ → ℕ → ℕ × Thread
acquire_protection count current = if current % 2 == 1 then (count, refused) else (
  compare_exchange count (u64 (current + 2)) current,
  if count == current then holding else acquiring count,
)

-- A round of the loop of ReleaseProtection, with the same order of the arguments. Without its lowest bit an odd value is an address.
unfoldable pub release_protection : ℕ → ℕ → ℕ × Thread
release_protection count current =
    if current % 2 == 1 then (count, at_wait_block (current - 1)) else (
      compare_exchange count (u64 (current + (2 ^ 64 - 2))) current,
      if count == current then outside else releasing count,
    )

-- The next access of a thread to Count.
unfoldable pub move : ℕ → Thread → ℕ × Thread
move count reading_to_acquire = (count, acquiring count)
move count (acquiring current) = acquire_protection count current
move count reading_to_release = (count, releasing count)
move count (releasing current) = release_protection count current
move count t = (count, t)

-- A thread that does not hold the protection may ask for it, and one that does may give it back.
unfoldable pub call : ℕ → Thread → ℕ × Thread
call count outside = (count, reading_to_acquire)
call count refused = (count, reading_to_acquire)
call count holding = (count, reading_to_release)
call count t = (count, t)

-- The descriptor's Count and the threads.
abbrev pub System : Type 0
System = ℕ × List Thread

unfoldable pub initialize_protection : System → System
initialize_protection s = (0, s.1)

unfoldable pub complete_protection : System → System
complete_protection s = (rundown_active, s.1)

unfoldable pub reinitialize_protection : System → System
reinitialize_protection s = (0, s.1)

pub data Event : Type 0 where
  calls : (k : ℕ) → Event
  moves : (k : ℕ) → Event
  completes : Event
  reinitializes : Event

unfoldable pub step : System → Event → System
step s (calls k) = act_at call s.0 k s.1
step s (moves k) = act_at move s.0 k s.1
step s completes = complete_protection s
step s reinitializes = reinitialize_protection s

unfoldable pub run : System → List Event → System
run s [] = s
run s (e ∷ es) = run (step s e) es

-- A thread holds the protection from the exchange that takes it to the one that gives it back.
abbrev pub held : Thread → ℕ
held holding = 1
held reading_to_release = 1
held (releasing current) = 1
held (at_wait_block address) = 1
held t = 0

abbrev pub holders : List Thread → ℕ
holders = total held

abbrev pub all_outside : ℕ → List Thread
all_outside zero = []
all_outside (suc n) = outside ∷ all_outside n
