-- ===== src/Ke/SpinLock/Examples.antt =====
-- The theorems on spin locks at runs of two threads.
use exectos.Base.{◌≡◌, refl, ◌⊎◌, true, false, List, [], ◌∷◌}
use exectos.Base.Threads.{act_at}
use exectos.Ke.SpinLock.{
  Thread, testing, holding, Event, calls, moves, step, run, move, call, acquire_spin_lock,
  release_spin_lock, bit_test_and_set, initialize_spin_lock, test_spin_lock, holders, all_outside,
}
use exectos.Ke.SpinLock.Exclusion.{run-IsLock}
use exectos.Ke.SpinLock.Queues.{
  Store, master_lock, initialize_lock_queues, acquire_queued_spin_lock, release_queued_spin_lock,
}
use exectos.Ke.SpinLock.Levels.{KeepsOthers, queued_spin_lock-KeepsOthers}

-- The second thread waits until the first has given the lock back.
abbrev handover : List Event
handover =
    calls 0 ∷ calls 1 ∷ moves 0 ∷ moves 1 ∷ moves 1 ∷ calls 0 ∷ moves 0 ∷ moves 1 ∷ moves 1 ∷ []

handed_over :
    run (initialize_spin_lock (1, all_outside 2)) handover ≡ (1, Thread.outside ∷ holding ∷ [])
unfolding run step act_at move call acquire_spin_lock release_spin_lock bit_test_and_set
    initialize_spin_lock
handed_over = refl

run-IsLock_example :
    let s = run (initialize_spin_lock (1, all_outside 2)) handover in
    ((test_spin_lock s.0 ≡ true) × (holders s.1 ≡ 0))
    ⊎ ((test_spin_lock s.0 ≡ false) × (holders s.1 ≡ 1))
run-IsLock_example = run-IsLock 2 1 handover

abbrev free : Store
free l = 0

queued_spin_lock-KeepsOthers_example :
    KeepsOthers master_lock free
      (acquire_queued_spin_lock initialize_lock_queues master_lock free testing)
    × KeepsOthers master_lock free
        (release_queued_spin_lock initialize_lock_queues master_lock free testing)
queued_spin_lock-KeepsOthers_example = queued_spin_lock-KeepsOthers master_lock free testing
