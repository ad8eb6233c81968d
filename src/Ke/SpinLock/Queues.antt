-- ===== src/Ke/SpinLock/Queues.antt =====
-- The queued spin locks of ke/spinlock.cc: the lock that each level stands for.
use exectos.Base.{ℕ, Option, none, some, ◌==◌, if◌then◌else◌}
use exectos.Ke.SpinLock.{Thread, acquire_spin_lock, release_spin_lock}

-- The levels of the lock queues of a processor.
pub data Level : Type 0 where
  dispatcher_lock expansion_lock pfn_lock system_space_lock vacb_lock master_lock : Level
  non_paged_alloc_pool_lock io_cancel_lock work_queue_lock io_vpb_lock : Level
  io_database_lock io_completion_lock file_system_lock afd_work_queue_lock : Level
  bcb_lock non_paged_pool_lock reserved_system_lock timer_table_lock : Level

-- The kernel's static locks.
pub data Lock : Type 0 where
  dispatcher_lock_queue expansion_lock_queue pfn_lock_queue : Lock
  system_space_lock_queue vacb_lock_queue master_lock_queue : Lock
  non_paged_alloc_lock_queue io_cancel_lock_queue work_lock_queue : Lock
  io_vpb_lock_queue io_database_lock_queue io_completion_lock_queue : Lock
  file_system_lock_queue non_paged_pool_lock_queue timer_table_lock_queue : Lock

-- What stands at a level: a lock, or no lock, and no next queue.
pub record LockQueue : Type 0 where
  pub lock : Option Lock
  pub next : Option Level

abbrev queue : Option Lock → LockQueue
queue l = record { lock = l; next = none }

-- InitializeLockQueues, which writes every level.
unfoldable pub initialize_lock_queues : Level → LockQueue
initialize_lock_queues dispatcher_lock = queue (some dispatcher_lock_queue)
initialize_lock_queues expansion_lock = queue (some expansion_lock_queue)
initialize_lock_queues pfn_lock = queue (some pfn_lock_queue)
initialize_lock_queues system_space_lock = queue (some system_space_lock_queue)
initialize_lock_queues vacb_lock = queue (some vacb_lock_queue)
initialize_lock_queues master_lock = queue (some master_lock_queue)
initialize_lock_queues non_paged_alloc_pool_lock = queue (some non_paged_alloc_lock_queue)
initialize_lock_queues io_cancel_lock = queue (some io_cancel_lock_queue)
initialize_lock_queues work_queue_lock = queue (some work_lock_queue)
initialize_lock_queues io_vpb_lock = queue (some io_vpb_lock_queue)
initialize_lock_queues io_database_lock = queue (some io_database_lock_queue)
initialize_lock_queues io_completion_lock = queue (some io_completion_lock_queue)
initialize_lock_queues file_system_lock = queue (some file_system_lock_queue)
initialize_lock_queues afd_work_queue_lock = queue none
initialize_lock_queues bcb_lock = queue none
initialize_lock_queues non_paged_pool_lock = queue (some non_paged_pool_lock_queue)
initialize_lock_queues reserved_system_lock = queue none
initialize_lock_queues timer_table_lock = queue (some timer_table_lock_queue)

-- Each of the static locks has its place.
abbrev pub place : Lock → ℕ
place dispatcher_lock_queue = 0
place expansion_lock_queue = 1
place pfn_lock_queue = 2
place system_space_lock_queue = 3
place vacb_lock_queue = 4
place master_lock_queue = 5
place non_paged_alloc_lock_queue = 6
place io_cancel_lock_queue = 7
place work_lock_queue = 8
place io_vpb_lock_queue = 9
place io_database_lock_queue = 10
place io_completion_lock_queue = 11
place file_system_lock_queue = 12
place non_paged_pool_lock_queue = 13
place timer_table_lock_queue = 14

abbrev pub Store : Type 0
Store = Lock → ℕ

abbrev pub write : Store → Lock → ℕ → Store
write store l value m = if place m == place l then value else store m

abbrev pub written : Store → Lock → ℕ × Thread → Store × Thread
written store l done = (write store l done.0, done.1)

-- InitializeAllLocks
unfoldable pub initialize_all_locks : Store → Store
initialize_all_locks store =
    write (write (write store dispatcher_lock_queue 0) pfn_lock_queue 0) system_space_lock_queue 0

abbrev pub at_lock :
    (ℕ → Thread → ℕ × Thread) → Store → Thread → Option Lock → Option (Store × Thread)
at_lock act store t none = none
at_lock act store t (some l) = some (written store l (act (store l) t))

-- An access of a thread in AcquireQueuedSpinLock, or in ReleaseQueuedSpinLock. `none` is an access
-- through a null pointer.
unfoldable pub acquire_queued_spin_lock :
    (Level → LockQueue) → Level → Store → Thread → Option (Store × Thread)
acquire_queued_spin_lock queues level store t =
    at_lock acquire_spin_lock store t (queues level).lock

unfoldable pub release_queued_spin_lock :
    (Level → LockQueue) → Level → Store → Thread → Option (Store × Thread)
release_queued_spin_lock queues level store t =
    at_lock release_spin_lock store t (queues level).lock
