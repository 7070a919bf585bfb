-- ===== src/Lib.antt =====
-- The kernel of Nite OS (Kernel/), its own data structures and arithmetic.
--
-- The kernel is C++ without an operating system below it. Its allocators keep the free pages of
-- memory in doubly linked queues, one for each power of two (Kernel/inc/siberix/mem,
-- Kernel/src/siberix/mem); they round a request up with the arithmetic of Kernel/inc/xtra-math. The
-- page tables of the processor are arrays of 64-bit words with bit-fields, written through setters
-- (Kernel/inc/arch-x86_64/hwmem.h), and so are the descriptor tables (tables.h). Threads guard what
-- they share by a spinlock made of one atomic flag (Kernel/inc/mixins/concurrent). Kernel/inc/stdcxx
-- holds the containers that the rest uses, and Kernel/inc/siberix/time the clock's arithmetic.
--
-- Files and what they model:
--   Common.antt and Common/: numbers, lists, tests, machine words and the laws of bits; the bit-fields
--     of a word and their layouts (Bitfield), which the page table entries use.
--   Align.antt, Align/: alignDown, alignUp, alignTwoExponent (Kernel/inc/xtra-math/align.h), divCeil,
--     divFloor (div.h), pow (Kernel/inc/stdcxx/math.h) and Range (range.h), at uint64_t.
--   Atomic.antt, Atomic/: Atomic<uint64_t> (Kernel/inc/mixins/concurrent/atomic.h), an operation a step.
--   Spinlock.antt, Spinlock/: Spinlock (Kernel/inc/mixins/concurrent/spinlock.h); Step is the relation
--     of the steps of any number of threads, and Steps its runs.
--   Links.antt, Links/: the members _next and _previous of everything that is linked, in a memory that
--     is a function from addresses; chains in it and what an assignment does to them. The clients are
--     the next two, and through the second the one behind them.
--   LinkedList.antt, LinkedList/: Std::LinkedList (Kernel/inc/stdcxx/linked-list.h): add, both remove,
--     clear, get, takeFirst, takeLast, operator[]; and pushBack and pushFront of
--     mixins::utils::LinkedList (Kernel/inc/mixins/utils/linked_list.h).
--   PageQueue.antt, PageQueue/: Page4KFifoQueue (Kernel/inc/siberix/mem/page.h): push, pop, takeAway,
--     and PageRecQueue::take (Kernel/inc/sbrx/memory/page_alloc.h).
--   Buddy.antt, Buddy/: Page4K::split and merge (Kernel/src/siberix/mem/page.cpp) and
--     BuddyAlloc::allocatePhysMemory4KPages (page_alloc.cpp), over PageQueue and Align.
--   Stream.antt, Stream/: Std::Stream (Kernel/inc/stdcxx/stream.h): filter, the three matches, limit, skip,
--     findFirst, findLast.
--   Bitmap.antt, Bitmap/: Std::Bitmap<uint64_t> (Kernel/inc/stdcxx/bitmap.h): set, clear, test, setAll,
--     clearAll, findFree, and the indices of BitmapDouble.
--   Vector.antt, Vector/: Std::Vector (Kernel/inc/stdcxx/vector.h), with Step and Steps the calls of its
--     methods.
--   Paging.antt, Paging/: the unions Pml4Entry, PdptEntry, PdirEntry and PageEntry, MapLevel<L>::Entry
--     and the index functions (Kernel/inc/arch-x86_64/hwmem.h); Flags compares the setters with the
--     masks of VmmFlags; Map has X64Pages::alloc4KPages and copyAsIoAddress
--     (Kernel/src/platforms/x86_64/hwmem.cpp), where what new leaves in an array is a parameter.
--   ArrayList.antt, ArrayList/: mixins::utils::ArrayList (Kernel/inc/mixins/utils/array_list.h): add, remove,
--     removeLast and clear; Owned has the calls of its methods as Step and Steps.
--   RefPtr.antt, RefPtr/: RefPtr (Kernel/inc/stdcxx/refptr.h) on a heap of counters; Step and Steps of Uses
--     are what becomes of the references that are alive.
--   Encoding.antt, Encoding/: Utf8 and Utf16 (Kernel/inc/stdcxx/encoding.h).
--   Strings.antt, Strings/: String in UTF-8 (Kernel/inc/stdcxx/string.h).
--   Acpi.antt, Acpi/: findTable (Kernel/src/impls/acpi.cpp) with the strings it compares, and the checksum of a
--     table (Kernel/inc/drivers/acpi/spec.h). The memory is a parameter.
--   Apic.antt, Apic/: the walk of onLoad over the MADT, and the registers of the I/O APIC
--     (Kernel/src/impls/apic.cpp). The hardware is a parameter, Window, with its documented behaviour as the
--     hypothesis IsWindow.
--   MemRange.antt, MemRange/: AddressRange (Kernel/inc/siberix/mem/range.h), the search for the root pointer
--     (Kernel/src/impls/acpi.cpp) and Kernel/src/impls/smbios.cpp.
--   Ahci.antt, Ahci/: the disk (Kernel/src/impls/ahci-disk.cpp): findSlot, the structures of a command and
--     access; Controller has the ports of ahci-controller.cpp and the addresses of their structures.
--   Boot.antt, Boot/: kload_st2 (Kernel/src/platforms/x86_64/boot-stivale2.cpp), as far as it fills the
--     description of the memory (Kernel/inc/siberix/init/boot-info.h), and the constructor of BlockAlloc
--     (Kernel/src/siberix/mem/page_block.cpp).
--   Console.antt, Console/: the console of an older state of the kernel (src/Input and include/Input in
--     Kernel/backup/20230629), with Keys what is typed on it.
--   Bytes.antt, Bytes/, CText.antt, CText/: the functions of src/String.cpp of the same state of the
--     kernel, on memory (Bytes) and on strings that end in a NUL (CText).
--   VirtualMemory.antt, VirtualMemory/: the page tables of that kernel (src/Arch/x86_64/MMU.cpp, MMU.h
--     beside it in include): Heap has the pages of its heap and Space the class KernelAddressSpace
--     (src/Arch/x86_64/AddressSpace.cpp). Space/Walk has the walk of the processor, which the
--     theorems compare the tables with.
--   PageZone.antt, PageZone/: the page allocator of that kernel: the functions of src/Memory/Page.cpp,
--     the orders of include/Mem/Page.h, and of LinkedList (include/Utils/LinkedList.h) what they call;
--     SetUp has BuddyInit. It uses ALIGN_PAGE of VirtualMemory/Space and the memory of Links. The
--     size of a page's record and the records of each section are parameters.
--   Scheduler.antt, Scheduler/: the PIDs and the list of processes of the same state of the kernel
--     (src/Process, include/Proc, and the class SizedArrayList of include/Utils/ArrayList.h).
--   Descriptors.antt, Descriptors/: the entries of the GDT and the IDT (Kernel/inc/arch-x86_64/tables.h),
--     rdmsr, wrmsr and the vendor of cpuid (hwcpus.h).
--   Time.antt, Time/: Time, Duration, Calendar (Kernel/inc/siberix/time).
--
-- Numbers are the native ones. A member of w bits is cut to w bits where it is assigned, and sums and
-- differences of unsigned types wrap around as written out in Common/Words. Pointers are addresses, 0
-- the null pointer; a read or write through the null pointer is one of the entry at 0, and every
-- theorem about a list excludes it. A read outside the buffer of a stream, a vector or a bitmap has no
-- result, nor has one outside an array list or the memory of a string, nor a shift of an int beyond its width. Objects are values that an operation takes and returns.
--
-- Loops: pow runs on 65 rounds of fuel, one more than the bits of its exponent; the loops of clear
-- and remove run on fuel that is more than the entries of the list, and those of setAll on fuel
-- that is more than the words it fills, and of findFree on fuel for one round more than there are
-- words; the search of the allocator is by the rounds it has left and the halving by the order,
-- which are 10 at most; release of the spinlock runs on fuel that is two or more; the walk over
-- the MADT runs on fuel for one round more than the table has entries. access waits a million
-- reads of the disk for it to get ready, as in the source, and on fuel for one round more than the
-- command takes. The loops of memcpy and of the string functions run on fuel that is more than the
-- bytes they pass, and the searches of the heap by the rounds that are left. PAGE_ORDER runs on 12
-- rounds for at most 11 orders, BuddyInit on fuel for one round more than the blocks it adds.
-- NextPID runs on fuel for one round more than the PIDs that are taken. The loop over the tags of
-- the boot loader and that of BlockAlloc run on fuel of any amount, and end as Boot/Tags tells.
--
-- Not modelled: the rest of the drivers (the layouts of the hardware's tables, what the APIC does
-- behind its walk, how the AHCI starts and stops), the headers of the boot protocols, assembly and
-- input or output, the older kernel but for the parts named above (of KernelMapVirtualMemory4K, not
-- the part that adds a page table), the classes of a body without statements (processes, file
-- systems, users, graphics), and of the containers those not named above; freePhysMemory4KPages,
-- which shifts an int by more than its width.
mod Common
pub mod Acpi
pub mod Ahci
pub mod Align
pub mod Apic
pub mod ArrayList
pub mod Atomic
pub mod Bitmap
pub mod Boot
pub mod Buddy
pub mod Bytes
pub mod CText
pub mod Console
pub mod Descriptors
pub mod Encoding
pub mod LinkedList
pub mod Links
pub mod MemRange
pub mod PageQueue
pub mod PageZone
pub mod Paging
pub mod RefPtr
pub mod Scheduler
pub mod Spinlock
pub mod Stream
pub mod Strings
pub mod Time
pub mod Vector
pub mod VirtualMemory
