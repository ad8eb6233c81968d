-- ===== src/Ex/Rundown/Refusal.antt =====
-- A descriptor that is run down gives nobody its protection.
use exectos.Base.{
  ℕ, ◌+◌, ◌-◌, ◌^◌, ◌%◌, ◌≡◌, ◌≤◌, refl, false, List, [], ◌∷◌, ◌==◌, arith, Bool-cases, inl, inr,
  length,
}
use exectos.Base.Threads.{act_at, act_at-Turn, AllThreads, Keeps}
use exectos.Word.{u64}
use exectos.Ex.Rundown.{
  Thread, outside, acquiring, refused, holding, releasing, at_wait_block, reading_to_acquire,
  reading_to_release, acquire_protection, release_protection, move, call, System, Event, calls,
  moves, completes, reinitializes, step, run, held, holders, rundown_active, complete_protection,
}
use exectos.Ex.Rundown.Safety.{held-le}

-- The count stays what it is, and no more than `m` threads hold the protection.
abbrev IsClosed : ℕ → ℕ → ℕ → Type 0
IsClosed m count n = (count ≡ rundown_active) × (n ≤ m)

abbrev Anywhere : Thread → Type 0
Anywhere t = Unit

abbrev Closes : ℕ → (count others : ℕ) → ℕ × Thread → Type 0
Closes m count others done = IsClosed m done.0 (others + held done.1) × Unit {0}

acquire_protection-Closes :
    (m count current others : ℕ)
    → IsClosed m count (others + 0)
    → Closes m count others (acquire_protection count current)
unfolding acquire_protection
acquire_protection-Closes m count current others closed = elim (Bool-cases (current % 2 == 1)) [
  | inl odd ↦ rw odd (closed, tt)
  | inr even ↦
      let kept : (count == u64 (current + 2)) ≡ false = ground (arith, closed.0) in
      let changed : (count == current) ≡ false = ground (arith, closed.0) in
      rw (even, kept, changed) (closed, tt)
]

release_protection-Closes :
    (m count current others : ℕ)
    → IsClosed m count (others + 1)
    → Closes m count others (release_protection count current)
unfolding release_protection
release_protection-Closes m count current others closed = elim (Bool-cases (current % 2 == 1)) [
  | inl odd ↦ rw odd (closed, tt)
  | inr even ↦
      let kept : (count == u64 (current + (2 ^ 64 - 2))) ≡ false = ground (arith, closed.0) in
      let changed : (count == current) ≡ false = ground (arith, closed.0) in
      rw (even, kept, changed) (closed, tt)
]

call-Closes : (m most : ℕ) → Keeps held Anywhere (IsClosed m) most call
unfolding call
call-Closes m most count outside others p h closed = (closed, tt)
call-Closes m most count reading_to_acquire others p h closed = (closed, tt)
call-Closes m most count (acquiring current) others p h closed = (closed, tt)
call-Closes m most count refused others p h closed = (closed, tt)
call-Closes m most count holding others p h closed = (closed, tt)
call-Closes m most count reading_to_release others p h closed = (closed, tt)
call-Closes m most count (releasing current) others p h closed = (closed, tt)
call-Closes m most count (at_wait_block address) others p h closed = (closed, tt)

move-Closes : (m most : ℕ) → Keeps held Anywhere (IsClosed m) most move
unfolding move
move-Closes m most count outside others p h closed = (closed, tt)
move-Closes m most count reading_to_acquire others p h closed = (closed, tt)
move-Closes m most count (acquiring current) others p h closed =
    acquire_protection-Closes m count current others closed
move-Closes m most count refused others p h closed = (closed, tt)
move-Closes m most count holding others p h closed = (closed, tt)
move-Closes m most count reading_to_release others p h closed = (closed, tt)
move-Closes m most count (releasing current) others p h closed =
    release_protection-Closes m count current others closed
move-Closes m most count (at_wait_block address) others p h closed = (closed, tt)

anywhere : (ts : List Thread) → AllThreads Anywhere ts
anywhere [] = tt
anywhere (t ∷ ts) = (tt, anywhere ts)

abbrev pub StaysDown : List Event → Type 0
StaysDown [] = Unit
StaysDown (reinitializes ∷ es) = ⊥
StaysDown (e ∷ es) = StaysDown es

run-IsClosed :
    (m : ℕ) (s : System) (es : List Event)
    → IsClosed m s.0 (holders s.1)
    → StaysDown es
    → IsClosed m (run s es).0 (holders (run s es).1)
unfolding run step complete_protection
run-IsClosed m s [] closed down = closed
run-IsClosed m s (calls k ∷ es) closed down =
    run-IsClosed m (act_at call s.0 k s.1) es
      (act_at-Turn held Anywhere (IsClosed m) (length s.1) call (call-Closes m _) held-le s.0 k s.1
        (anywhere s.1) (omega arith) closed).0
      down
run-IsClosed m s (moves k ∷ es) closed down =
    run-IsClosed m (act_at move s.0 k s.1) es
      (act_at-Turn held Anywhere (IsClosed m) (length s.1) move (move-Closes m _) held-le s.0 k s.1
        (anywhere s.1) (omega arith) closed).0
      down
run-IsClosed m s (completes ∷ es) closed down =
    run-IsClosed m (rundown_active, s.1) es (refl, closed.1) down
run-IsClosed m s (reinitializes ∷ es) closed down = absurd down

-- After CompleteProtection, and as long as the descriptor is not set up again, the number of the
-- threads that hold the protection never grows, whatever the threads were doing before: their
-- exchanges fail, and the descriptor stays run down.
pub run-complete_protection :
    (s : System) (es : List Event)
    → StaysDown es
    → ((run (complete_protection s) es).0 ≡ rundown_active)
      × (holders (run (complete_protection s) es).1 ≤ holders s.1)
unfolding complete_protection
run-complete_protection s es down =
    run-IsClosed (holders s.1) (rundown_active, s.1) es (refl, omega arith) down
