-- ===== src/Ke/SpinLock/Exclusion.antt =====
-- At most one thread holds a spin lock.
use exectos.Base.{
  ℕ, zero, suc, ◌%◌, ◌≡◌, ◌≤◌, ◌⊎◌, refl, sym, true, false, List, [], ◌∷◌, ◌==◌, arith, Bool-cases,
  inl, inr, length,
}
use exectos.Base.Threads.{act_at-Turn, AllThreads, Keeps}
use exectos.Ke.SpinLock.{
  Thread, outside, testing, waiting, holding, clearing, bit_test_and_set, acquire_spin_lock,
  release_spin_lock, move, call, System, Event, calls, moves, step, run, held, holders, all_outside,
  initialize_spin_lock, test_spin_lock,
}

-- The lock tells how many threads hold it, which is one at most.
abbrev pub IsLock : ℕ → ℕ → Type 0
IsLock lock n = (lock ≡ n) × (n ≤ 1)

abbrev Anywhere : Thread → Type 0
Anywhere t = Unit

held-le : (t : Thread) → held t ≤ 1
held-le outside = omega arith
held-le testing = omega arith
held-le waiting = omega arith
held-le holding = omega arith
held-le clearing = omega arith

call-Keeps : (most : ℕ) → Keeps held Anywhere IsLock most call
unfolding call
call-Keeps most lock outside others p h sound = (sound, tt)
call-Keeps most lock testing others p h sound = (sound, tt)
call-Keeps most lock waiting others p h sound = (sound, tt)
call-Keeps most lock holding others p h sound = (sound, tt)
call-Keeps most lock clearing others p h sound = (sound, tt)

move-Keeps : (most : ℕ) → Keeps held Anywhere IsLock most move
unfolding move acquire_spin_lock release_spin_lock bit_test_and_set
move-Keeps most lock outside others p h sound = (sound, tt)
move-Keeps most lock testing others p h sound = elim (Bool-cases (lock % 2 == 1)) [
  | inl taken ↦ rw taken (sound, tt)
  | inr free ↦ rw free ((ground (arith, sound.0, sound.1), ground (arith, sound.0, sound.1)), tt)
]
move-Keeps most lock waiting others p h sound = elim (Bool-cases (lock % 2 == 1)) [
  | inl taken ↦ rw taken (sound, tt)
  | inr free ↦ rw free (sound, tt)
]
move-Keeps most lock holding others p h sound = (sound, tt)
move-Keeps most lock clearing others p h sound =
    ((omega (arith, sound.1), omega (arith, sound.1)), tt)

anywhere : (ts : List Thread) → AllThreads Anywhere ts
anywhere [] = tt
anywhere (t ∷ ts) = (tt, anywhere ts)

step-IsLock :
    (s : System) (e : Event) → IsLock s.0 (holders s.1) → IsLock (step s e).0 (holders (step s e).1)
unfolding step
step-IsLock s (calls k) sound =
    (act_at-Turn held Anywhere IsLock (length s.1) call (call-Keeps _) held-le s.0 k s.1
      (anywhere s.1) (omega arith) sound).0
step-IsLock s (moves k) sound =
    (act_at-Turn held Anywhere IsLock (length s.1) move (move-Keeps _) held-le s.0 k s.1
      (anywhere s.1) (omega arith) sound).0

run_from-IsLock :
    (s : System) (es : List Event)
    → IsLock s.0 (holders s.1)
    → IsLock (run s es).0 (holders (run s es).1)
unfolding run
run_from-IsLock s [] sound = sound
run_from-IsLock s (e ∷ es) sound = run_from-IsLock (step s e) es (step-IsLock s e sound)

all_outside-holders : (n : ℕ) → holders (all_outside n) ≡ 0
all_outside-holders zero = refl
all_outside-holders (suc n) = omega (arith, all_outside-holders n)

test_spin_lock-IsLock :
    (lock n : ℕ)
    → IsLock lock n
    → (test_spin_lock lock ≡ true) × (n ≡ 0) ⊎ (test_spin_lock lock ≡ false) × (n ≡ 1)
unfolding test_spin_lock
test_spin_lock-IsLock lock n sound = ground (arith, sound.0, sound.1)

-- However many threads acquire and release an initialized spin lock, and in whatever order they
-- come to access it, at most one of them holds it at any time. TestSpinLock tells whether none does.
pub run-IsLock :
    (n lock : ℕ) (es : List Event)
    → let s = run (initialize_spin_lock (lock, all_outside n)) es in
      ((test_spin_lock s.0 ≡ true) × (holders s.1 ≡ 0))
      ⊎ ((test_spin_lock s.0 ≡ false) × (holders s.1 ≡ 1))
unfolding initialize_spin_lock
run-IsLock n lock es = test_spin_lock-IsLock _ _ (
    run_from-IsLock (0, all_outside n) es
      (sym (all_outside-holders n), omega (arith, all_outside-holders n)))
