-- ===== src/Ke/SystemResources/Examples.antt =====
-- The theorems on system resources at a list of three, and a run.
use exectos.Base.{ℕ, ◌≡◌, refl, true, false, some, List, [], ◌∷◌, arith, ◌==◌, if◌then◌else◌, not}
use exectos.Rtl.LinkedList.{Ptr, Memory, ok}
use exectos.Rtl.LinkedList.Rings.{IsRing}
use exectos.Ke.SystemResources.{
  ResourceHeader, Status, State, Call, acquires, gets, releases, make_calls, success,
  resource_locked, system_resource_acpi, system_resource_frame_buffer, get_system_resource,
  acquire_resource, get_resource, release_resource, initialize_resources,
}
use exectos.Ke.SystemResources.Lookup.{first_of_type, Got, get_system_resource-IsRing}
use exectos.Ke.SystemResources.Owning.{acquire_resource-acquire_resource}
use exectos.Ke.SystemResources.Loading.{kept, moved, initialize_resources-IsRing}

-- The boot loader's list at 1 holds 2, 3 and 4; the kernel's head is at 9.
abbrev memory : Memory
memory = record {
  flink = λ a. if a == 1 then 2 else if a == 2 then 3 else if a == 3 then 4 else 1;
  blink = λ a. if a == 1 then 4 else if a == 2 then 1 else if a == 3 then 2 else 3;
  mapped = λ a. not (a == 0);
}

memory-IsRing : IsRing memory 1 (2 ∷ 3 ∷ 4 ∷ [])
memory-IsRing = record {
  links = (refl, refl, (refl, refl, (refl, refl, (refl, refl))));
  unique = refl;
  live = λ a h. ground (arith, h);
}

abbrev header : ℕ → ℕ → ResourceHeader
header kind size = record { resource_type = kind; resource_locked = false; resource_size = size }

-- The second has not the size of its type.
abbrev state : State
state = record {
  header = λ a.
      if a == 2
      then header system_resource_frame_buffer 96
      else if a == 3
      then header system_resource_acpi 8
      else header system_resource_acpi 56;
  interrupts = true;
}

get_system_resource-IsRing_example :
    (r : Status × Ptr × State) × (get_system_resource 4 1 system_resource_acpi true state memory
      ≡ ok (some r) memory)
    × Got true state (first_of_type state system_resource_acpi (2 ∷ 3 ∷ 4 ∷ [])) r
get_system_resource-IsRing_example =
    get_system_resource-IsRing memory 1 (2 ∷ 3 ∷ 4 ∷ []) 4 memory-IsRing (omega arith)
      system_resource_acpi true state

-- The ACPI resource is acquired, and others ask for it and for the frame buffer, which is released.
abbrev others : List Call
others =
    acquires system_resource_acpi
    ∷ acquires system_resource_frame_buffer
    ∷ gets system_resource_acpi
    ∷ releases 2
    ∷ []

acquire_resource-acquire_resource_example :
    (acquired : State) × (later : State) × (acquire_resource 4 1 system_resource_acpi state memory
      ≡ ok (some (success, 3, acquired)) memory)
    × (make_calls 4 1 others acquired memory ≡ ok (some later) memory)
    × (acquire_resource 4 1 system_resource_acpi later memory
        ≡ ok (some (resource_locked, 3, later)) memory)
    × (get_resource 4 1 system_resource_acpi later memory
        ≡ ok (some (resource_locked, 3, later)) memory)
    × ((again : State) × (acquire_resource 4 1 system_resource_acpi
            (release_resource 3 later)
            memory
          ≡ ok (some (success, 3, again)) memory))
acquire_resource-acquire_resource_example =
    acquire_resource-acquire_resource memory 1 (2 ∷ 3 ∷ 4 ∷ []) 4 memory-IsRing (omega arith)
      system_resource_acpi state 3 others refl refl (refl, tt)

initialize_resources-IsRing_example :
    (n : Memory) × (initialize_resources 56 96 4 state 1 9 memory ≡ ok (some tt) n)
    × IsRing n 1 (kept 56 96 state (2 ∷ 3 ∷ 4 ∷ []))
    × IsRing n 9 (moved 56 96 state (2 ∷ 3 ∷ 4 ∷ []))
initialize_resources-IsRing_example =
    initialize_resources-IsRing 56 96 state (omega arith) (omega arith) 4 memory 1 (2 ∷ 3 ∷ 4 ∷ [])
      9 memory-IsRing refl refl refl (omega arith)

moved_resources : moved 56 96 state (2 ∷ 3 ∷ 4 ∷ []) ≡ 2 ∷ 4 ∷ []
moved_resources = refl
