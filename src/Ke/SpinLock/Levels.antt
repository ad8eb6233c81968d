-- ===== src/Ke/SpinLock/Levels.antt =====
-- The levels of the queued spin locks do not disturb each other.
use exectos.Base.{
  ℕ, ◌≡◌, ◌≢◌, ◌⊎◌, refl, sym, ap, ◌∙◌, subst, Bool, true, false, Option, none, some, ◌==◌, arith,
  Bool-cases, inl, inr, List, [], ◌∷◌, get_or,
}
use exectos.Ke.SpinLock.{Thread, acquire_spin_lock, release_spin_lock}
use exectos.Ke.SpinLock.Queues.{
  Level, Lock, Store, place, at_lock, initialize_lock_queues, acquire_queued_spin_lock,
  release_queued_spin_lock, dispatcher_lock, expansion_lock, pfn_lock, system_space_lock, vacb_lock,
  master_lock, non_paged_alloc_pool_lock, io_cancel_lock, work_queue_lock, io_vpb_lock,
  io_database_lock, io_completion_lock, file_system_lock, afd_work_queue_lock, bcb_lock,
  non_paged_pool_lock, reserved_system_lock, timer_table_lock, dispatcher_lock_queue,
  expansion_lock_queue, pfn_lock_queue, system_space_lock_queue, vacb_lock_queue, master_lock_queue,
  non_paged_alloc_lock_queue, io_cancel_lock_queue, work_lock_queue, io_vpb_lock_queue,
  io_database_lock_queue, io_completion_lock_queue, file_system_lock_queue,
  non_paged_pool_lock_queue, timer_table_lock_queue,
}

abbrev owner : Lock → Level
owner dispatcher_lock_queue = dispatcher_lock
owner expansion_lock_queue = expansion_lock
owner pfn_lock_queue = pfn_lock
owner system_space_lock_queue = system_space_lock
owner vacb_lock_queue = vacb_lock
owner master_lock_queue = master_lock
owner non_paged_alloc_lock_queue = non_paged_alloc_pool_lock
owner io_cancel_lock_queue = io_cancel_lock
owner work_lock_queue = work_queue_lock
owner io_vpb_lock_queue = io_vpb_lock
owner io_database_lock_queue = io_database_lock
owner io_completion_lock_queue = io_completion_lock
owner file_system_lock_queue = file_system_lock
owner non_paged_pool_lock_queue = non_paged_pool_lock
owner timer_table_lock_queue = timer_table_lock

abbrev owner_or : Level → Option Lock → Level
owner_or level none = level
owner_or level (some l) = owner l

owner_initialize : (a : Level) → owner_or a (initialize_lock_queues a).lock ≡ a
unfolding initialize_lock_queues
owner_initialize dispatcher_lock = refl
owner_initialize expansion_lock = refl
owner_initialize pfn_lock = refl
owner_initialize system_space_lock = refl
owner_initialize vacb_lock = refl
owner_initialize master_lock = refl
owner_initialize non_paged_alloc_pool_lock = refl
owner_initialize io_cancel_lock = refl
owner_initialize work_queue_lock = refl
owner_initialize io_vpb_lock = refl
owner_initialize io_database_lock = refl
owner_initialize io_completion_lock = refl
owner_initialize file_system_lock = refl
owner_initialize afd_work_queue_lock = refl
owner_initialize bcb_lock = refl
owner_initialize non_paged_pool_lock = refl
owner_initialize reserved_system_lock = refl
owner_initialize timer_table_lock = refl

-- The locks in the order of their places.
abbrev locks : List Lock
locks =
    dispatcher_lock_queue ∷ expansion_lock_queue ∷ pfn_lock_queue ∷ system_space_lock_queue
    ∷ vacb_lock_queue ∷ master_lock_queue ∷ non_paged_alloc_lock_queue ∷ io_cancel_lock_queue
    ∷ work_lock_queue ∷ io_vpb_lock_queue ∷ io_database_lock_queue ∷ io_completion_lock_queue
    ∷ file_system_lock_queue ∷ non_paged_pool_lock_queue ∷ timer_table_lock_queue ∷ []

abbrev lock_at : ℕ → Lock
lock_at n = get_or locks n timer_table_lock_queue

lock_at-place : (l : Lock) → lock_at (place l) ≡ l
lock_at-place dispatcher_lock_queue = refl
lock_at-place expansion_lock_queue = refl
lock_at-place pfn_lock_queue = refl
lock_at-place system_space_lock_queue = refl
lock_at-place vacb_lock_queue = refl
lock_at-place master_lock_queue = refl
lock_at-place non_paged_alloc_lock_queue = refl
lock_at-place io_cancel_lock_queue = refl
lock_at-place work_lock_queue = refl
lock_at-place io_vpb_lock_queue = refl
lock_at-place io_database_lock_queue = refl
lock_at-place io_completion_lock_queue = refl
lock_at-place file_system_lock_queue = refl
lock_at-place non_paged_pool_lock_queue = refl
lock_at-place timer_table_lock_queue = refl

-- Two levels have not the same lock.
lock_unique :
    (a b : Level) (l m : Lock)
    → (initialize_lock_queues a).lock ≡ some l
    → (initialize_lock_queues b).lock ≡ some m
    → place l ≡ place m
    → a ≡ b
lock_unique a b l m e f same =
    let own : owner l ≡ a = subst (λ o. owner_or a o ≡ a) e (owner_initialize a) in
    let owned : owner m ≡ b = subst (λ o. owner_or b o ≡ b) f (owner_initialize b) in
    sym own ∙ ap owner (sym (lock_at-place l) ∙ ap lock_at same ∙ lock_at-place m) ∙ owned

-- The levels that have no lock.
abbrev pub unlocked : Level → Bool
unlocked afd_work_queue_lock = true
unlocked bcb_lock = true
unlocked reserved_system_lock = true
unlocked level = false

-- What an access at a level leaves behind: a fault where the level has no lock, and otherwise the
-- locks of the other levels as they were.
abbrev pub KeepsOthers : Level → Store → Option (Store × Thread) → Type 0
KeepsOthers a store none = unlocked a ≡ true
KeepsOthers a store (some (after, t)) =
    (unlocked a ≡ false)
    × ((b : Level) (m : Lock)
        → a ≢ b
        → (initialize_lock_queues b).lock ≡ some m
        → after m ≡ store m)

locked-cases :
    (a : Level)
    → (unlocked a ≡ true) × ((initialize_lock_queues a).lock ≡ none)
      ⊎ (l : Lock) × ((unlocked a ≡ false) × ((initialize_lock_queues a).lock ≡ some l))
unfolding initialize_lock_queues
locked-cases dispatcher_lock = inr (_, (refl, refl))
locked-cases expansion_lock = inr (_, (refl, refl))
locked-cases pfn_lock = inr (_, (refl, refl))
locked-cases system_space_lock = inr (_, (refl, refl))
locked-cases vacb_lock = inr (_, (refl, refl))
locked-cases master_lock = inr (_, (refl, refl))
locked-cases non_paged_alloc_pool_lock = inr (_, (refl, refl))
locked-cases io_cancel_lock = inr (_, (refl, refl))
locked-cases work_queue_lock = inr (_, (refl, refl))
locked-cases io_vpb_lock = inr (_, (refl, refl))
locked-cases io_database_lock = inr (_, (refl, refl))
locked-cases io_completion_lock = inr (_, (refl, refl))
locked-cases file_system_lock = inr (_, (refl, refl))
locked-cases afd_work_queue_lock = inl (refl, refl)
locked-cases bcb_lock = inl (refl, refl)
locked-cases non_paged_pool_lock = inr (_, (refl, refl))
locked-cases reserved_system_lock = inl (refl, refl)
locked-cases timer_table_lock = inr (_, (refl, refl))

at_lock-KeepsOthers :
    (act : ℕ → Thread → ℕ × Thread) (a : Level) (store : Store) (t : Thread)
    → KeepsOthers a store (at_lock act store t (initialize_lock_queues a).lock)
at_lock-KeepsOthers act a store t = elim (locked-cases a) [
  | inl (u, null) ↦ rw null u
  | inr (l, (u, e)) ↦ rw e (
    u,
    λ b m other f. elim (Bool-cases (place m == place l)) [
      | inl same ↦ absurd (other (lock_unique a b l m e f (ground arith)))
      | inr apart ↦ rw apart refl
    ],
  )
]

-- AcquireQueuedSpinLock and ReleaseQueuedSpinLock, with the queues as InitializeLockQueues leaves
-- them, change no lock of another level. They go through a null pointer at the levels of the AFD
-- work queue, of the BCB and at the reserved one, and at no other.
pub queued_spin_lock-KeepsOthers :
    (a : Level) (store : Store) (t : Thread)
    → KeepsOthers a store (acquire_queued_spin_lock initialize_lock_queues a store t)
      × KeepsOthers a store (release_queued_spin_lock initialize_lock_queues a store t)
unfolding acquire_queued_spin_lock release_queued_spin_lock
queued_spin_lock-KeepsOthers a store t = (
  at_lock-KeepsOthers acquire_spin_lock a store t,
  at_lock-KeepsOthers release_spin_lock a store t,
)
