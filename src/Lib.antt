-- ===== src/Lib.antt =====
-- ExectOS: a model of the kernel's own logic, with the theorems that make it correct.
--
-- The boot loader (boot/xtldr) builds a map of physical memory, over which it loads the kernel
-- (xtoskrnl) and its memory descriptors. The kernel is built on a run-time library (rtl), which the
-- executive (ex), the kernel proper (ke), the memory manager (mm) and the boot loader call.
--
--   Rtl/LinkedList   xtoskrnl/rtl/llist.cc: circular lists of LIST_ENTRYs, whose links the
--                    callers own. The memory is explicit: an access through an address that holds
--                    no entry is a fault. A ring is described by its head and the addresses of
--                    its entries in order (Rings), and each operation is an effect on that list.
--   Rtl/Math         xtoskrnl/rtl/math.cc: counts of zeroes and the division of 64-bit numbers in
--                    two halves of 32 bits. A shift by the width of its operand or more is
--                    undefined and makes the result `none`.
--   Rtl/Bitmap       xtoskrnl/rtl/bitmap.cc: bit maps over words of 64 bits, and SetMemory of
--                    xtoskrnl/rtl/memory.cc. Each operation is an effect on the bits, counted
--                    from the first of the buffer.
--   Rtl/Time         xtoskrnl/rtl/time.cc and the table of xtoskrnl/rtl/data.cc: time fields and
--                    the XT epoch. A SHORT is held as its 16 bits.
--   Rtl/Memory       xtoskrnl/rtl/memory.cc: comparing and copying blocks of bytes, which may
--                    overlap.
--   Rtl/Sha1         xtoskrnl/rtl/sha1.cc, with SwapByte32 of xtoskrnl/rtl/endian.cc. Stream says what
--                    a context stands for, byte by byte. Standard is SHA-1 as FIPS 180-4 defines it,
--                    Blocks that TransformData is its step, and Digest that ComputeDigest is it.
--   Xtldr/Memory     boot/xtldr/memory.cc: the mappings of a page map, in the order of their list.
--                    Spans says what a list of mappings says of an address, and Refinement that
--                    MapVirtualMemory acts on that. AllocatePool and the firmware's own map of memory
--                    are parameters.
--   Ex/Rundown       xtoskrnl/ex/rundown.cc: threads that acquire and release run-down protection.
--                    Each access to the count is one step, and a run is any sequence of steps. The
--                    arguments of CompareExchangePointer stand in the order of the calls, in
--                    which the value to compare with is the new one.
--   Ke/SpinLock      xtoskrnl/ke/spinlock.cc: threads at one spin lock, in the same way, and the
--                    table of queued locks (Queues).
--   Ke/SystemResources
--                    xtoskrnl/ke/sysres.cc: the list of system resources, by the operations and
--                    theorems of Rtl/LinkedList. Lookup is about one call, and Owning about any
--                    sequence of calls.
--   Mm/HardwarePool  xtoskrnl/mm/hlpool.cc: physical pages taken from the boot loader's descriptors,
--                    and (Mapping) the virtual pages that they are mapped at, with the entries of
--                    xtoskrnl/mm/amd64/pagemap.cc.
--   Word             the digits of a number and how the bitwise operators act on them.
--   Base             names of the library, Boolean tests, lists, threads that take turns.
--
-- Sources are at the paths named; operations keep the names of the functions in lower case
-- (RTL::LinkedList::InsertHeadList is insert_head_list). ULONG_PTR is taken at 64 bits, as on
-- amd64. A w-bit result is reduced by % 2 ^ w where the C++ wraps around.
--
-- ListLoop runs on fuel, since its loop need not end: for a ring the number of its entries and
-- one more suffices, and for a chain that ends its length and one more. The search of FindBits
-- runs on fuel for each try, and more than the size of the bit map suffices. The loop of
-- MapVirtualMemory runs on fuel, and three more than the number of mappings suffices, since the new
-- mapping may cut two pieces off. The search of MapHardwareMemory suffices with two more than the
-- number of pages from the start of its heap to the end of the address space. The loop of HashData
-- over whole blocks runs on as much fuel as there are bytes. The other loops are bounded by what
-- they count. The loops of AcquireProtection, ReleaseProtection and AcquireSpinLock
-- are steps of threads, and need not end.
--
-- Not modelled: code that drives processors and devices, output, the memory of page tables (a table
-- is a function of the virtual page), the TLB, and the wait blocks of run-down protection, which
-- nothing sets up. The rest of the kernel is modelled as the parts above are extended.
pub mod Base
pub mod Ex
pub mod Ke
pub mod Mm
pub mod Rtl
pub mod Word
pub mod Xtldr
