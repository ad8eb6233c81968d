-- ===== src/Ke/SystemResources.antt =====
-- ke/sysres.cc: the system resources, on a list of the run-time library. A resource header stands
-- at the address of its list entry, which is its first field. The lock of the list has no effect
-- on one call.
pub mod Lookup
pub mod Owning
pub mod Loading
mod Examples
use exectos.Base.{
  ℕ, zero, suc, Bool, true, false, not, ◌&&◌, Option, none, some, ◌==◌, if◌then◌else◌, ◌≡◌, List,
  [], ◌∷◌,
}
use exectos.Rtl.LinkedList.{
  Ptr, nullptr, Cmd, pure, read_flink, initialize_list_head, list_empty, remove_entry_list,
  insert_tail_list, ◌>>=◌, ◌>>◌,
}

-- The numbers of the resource types.
abbrev pub system_resource_acpi : ℕ
system_resource_acpi = 1

abbrev pub system_resource_frame_buffer : ℕ
system_resource_frame_buffer = 2

pub record ResourceHeader : Type 0 where
  pub resource_type : ℕ
  pub resource_locked : Bool
  pub resource_size : ℕ

pub data Status : Type 0 where
  success resource_locked not_found : Status

-- The headers in memory, and whether interrupts are enabled.
pub record State : Type 0 where
  pub header : Ptr → ResourceHeader
  pub interrupts : Bool

abbrev pub set_locked : Bool → Ptr → State → State
set_locked b p s = record s {
  header = λ a. if a == p then record (s.header a) { resource_locked = b } else s.header a;
}

-- The loop over the list, on fuel: `none` if it runs out. The inner result is the first header of
-- the type, if the head of the list is not reached before it.
unfoldable pub find_resource : ℕ → State → ℕ → (head entry : Ptr) → Cmd (Option (Option Ptr))
find_resource zero s kind head entry = pure none
find_resource (suc fuel) s kind head entry =
    let rest : Cmd (Option (Option Ptr)) = do
      next ← read_flink entry
      find_resource fuel s kind head next
    in if entry == head
      then pure (some none)
      else if (s.header entry).resource_type == kind
      then pure (some (some entry))
      else rest

-- What is returned for the header that was found, and the lock that is taken.
unfoldable pub take_resource : Bool → State → Option Ptr → Status × Ptr × State
take_resource lock s none = (not_found, nullptr, s)
take_resource lock s (some p) =
    if (s.header p).resource_locked
    then (resource_locked, p, s)
    else (success, p, if lock then set_locked true p s else s)

abbrev pub taken_if : Bool → State → Option (Option Ptr) → Option (Status × Ptr × State)
taken_if lock s none = none
taken_if lock s (some o) = some (take_resource lock s o)

unfoldable pub get_system_resource :
    ℕ → (head : Ptr) → ℕ → Bool → State → Cmd (Option (Status × Ptr × State))
get_system_resource fuel head kind lock s = do
  first ← read_flink head
  found ← find_resource fuel s kind head first
  pure (taken_if lock s found)

unfoldable pub acquire_resource : ℕ → (head : Ptr) → ℕ → State → Cmd (Option (Status × Ptr × State))
acquire_resource fuel head kind s = get_system_resource fuel head kind true s

unfoldable pub get_resource : ℕ → (head : Ptr) → ℕ → State → Cmd (Option (Status × Ptr × State))
get_resource fuel head kind s = get_system_resource fuel head kind false s

-- Interrupts are enabled at the end, whatever they were before.
unfoldable pub release_resource : Ptr → State → State
release_resource p s = record (set_locked false p s) { interrupts = true }

-- What the rest of the kernel may ask for, in any order.
pub data Call : Type 0 where
  acquires gets : (kind : ℕ) → Call
  releases : (resource : Ptr) → Call

abbrev pub state_of : Option (Status × Ptr × State) → Option State
state_of none = none
state_of (some r) = some r.2

abbrev pub make_call : ℕ → (head : Ptr) → Call → State → Cmd (Option State)
make_call fuel head (acquires kind) s = do r ← acquire_resource fuel head kind s; pure (state_of r)
make_call fuel head (gets kind) s = do r ← get_resource fuel head kind s; pure (state_of r)
make_call fuel head (releases p) s = pure (some (release_resource p s))

abbrev pub go_on : Option State → (State → Cmd (Option State)) → Cmd (Option State)
go_on none next = pure none
go_on (some s) next = next s

-- Calls one after the other. `none` if one of them runs out of fuel.
unfoldable pub make_calls : ℕ → (head : Ptr) → List Call → State → Cmd (Option State)
make_calls fuel head [] s = pure (some s)
make_calls fuel head (c ∷ cs) s = do o ← make_call fuel head c s; go_on o (make_calls fuel head cs)

-- A valid resource is moved to the tail of the kernel's list.
abbrev pub move_if : Bool → (head entry : Ptr) → Cmd (Unit {0})
move_if true head entry = do remove_entry_list entry; insert_tail_list head entry
move_if false head entry = pure tt

-- The sizes of the structures are the build's.
module _ (acpi_size frame_buffer_size : ℕ) where
  unfoldable pub valid_resource : ResourceHeader → Bool
  valid_resource h =
      let size =
        if h.resource_type == system_resource_acpi
        then acpi_size
        else if h.resource_type == system_resource_frame_buffer
        then frame_buffer_size
        else 0 in
      not (size == 0) && size == h.resource_size

  -- The loop over the boot loader's list, on fuel. `none` if it runs out.
  unfoldable pub move_resources : ℕ → State → (boot head entry : Ptr) → Cmd (Option (Unit {0}))
  move_resources zero s boot head entry = pure none
  move_resources (suc fuel) s boot head entry =
      let rest : Cmd (Option (Unit {0})) = do
        next ← read_flink entry
        move_if (valid_resource (s.header entry)) head entry
        move_resources fuel s boot head next
      in if entry == boot then pure (some tt) else rest

  unfoldable pub initialize_resources : ℕ → State → (boot head : Ptr) → Cmd (Option (Unit {0}))
  initialize_resources fuel s boot head = do
    initialize_list_head head
    empty ← list_empty boot
    if empty
        then pure (some tt)
        else do first ← read_flink boot; move_resources fuel s boot head first
