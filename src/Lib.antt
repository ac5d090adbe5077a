-- ===== src/Lib.antt =====
-- spctrx, a small x86-64 kernel in C: models of its parts, and what is proved of them.
--
-- How a call ends is a value of `Outcome` (Common/Ends.antt): it returns, `panic` halts the machine (a
-- failed `ASSERT` too), it makes an access that C leaves undefined (`fault`), or it never leaves a loop
-- (`hang`). Words are natural numbers with the reductions written out (Common/Words.antt, for the macros
-- of kernel/src/include/util.h). A struct is a record, a linked list a list with its front first, and a
-- pointer an index or an address. Messages on the console are left out.
--
-- Parts, below kernel/src/:
--   Bitmap    util/datastructures/bitmap.c: bitmapInit, bitmapSet, bitmapCheck, bitmapFillAll,
--             bitmapFill, bitmapFind, bitmapCalculateSize are the functions of the same names.
--   Pmm       mem/pmm.c: pmmAlloc, pmmFree, pmmInit over the bitmap and the spinlock. The boot loader's
--             map and the memory that holds the bitmap are parameters.
--   Spinlock  cpu/spinlock.c: for one thread in Spinlock/Defs.antt, for many in Spinlock/Threads.antt.
--   LinkedList  util/datastructures/ll.c over a heap; the other parts have lists in place of
--             linked lists.
--   Memory    util/string.c: Memory/Block.antt over a memory of bytes, Memory/Cstring.antt over arrays.
--   Vmm       mem/vmm.c, include/paging.h and pmmZeroAlloc: the walk through four levels of tables, each
--             known by its address, with new tables from the page allocator. What they map is the
--             function `lookup` of Vmm/Lookup.antt, from an address to the entry of its page.
--   Vfs       filesystem/vfs.c and vfsops.c (Vfs/Path.antt for the loop of vfsLookup, Vfs/Mount.antt for
--             the rest), filesystem/tmpfs/tmpfs.c (Vfs/Tmpfs.antt), the structs in Vfs/State.antt.
--   Cpu       cpu/gdt.c, cpu/idt.c and isrInit of cpu/isr.c, with the registers that they load; how a
--             processor uses the tables is in Cpu/Deliver.antt.
--   Irq       driver/irq.c and isrHandler of cpu/isr.c, over the bitmap.
--   Pci       driver/pci.c. The configuration space is a parameter; ahciInit is known by its calls.
--   Ahci      driver/disk/ahci.c: the memory and the start of ports (Ahci/Start.antt), command slots and
--             transfers (Ahci/Defs.antt); Ahci/Attached.antt joins the two. What the device answers is a
--             parameter.
--   Apic      cpu/lapic.c, cpu/apic.c and cpu/mp.c, over the registers of Machine and the tables of Vmm.
--   Console   driver/log/serial.c, log.c, the functions of term.c, and driver/fb.c.
--   Panic     kernel/panic.c: the report on an exception and the call trace.
--   Startup   kernel/test.c as it is compiled: the timer, which joins Irq, IoApic and Apic, and a file.
--   Acpi      driver/acpi.c over a memory of bytes: the structs in Acpi/Layout.antt, the search for
--             tables, the sleep package, shutdown and reboot in Acpi/Defs.antt.
--   Slab      mem/slab.c over the page allocator: a slab is known by its page's address, and the words
--             of its objects are kept apart from its header.
--   Machine   the inline assembly of include/util.h: outputs as values, registers as state.
--   IoApic    cpu/ioapic.c. The bytes of the MADT and the registers are parameters.
--   Tests     runs at small inputs.
--
-- Fuel: the loop over a path has one round for each byte and one to end, since each round takes a byte
-- or never takes one again; the loop over the MADT has as many, since an entry has two bytes or more.
-- The second loop of ahciSendCommand waits for the device; its fuel is a parameter, to be larger than
-- the number of rounds until the device answers, as are those of the loops of keypress, serialPutc,
-- ahciCmdStart and ahciCmdStop. acpiFindTable has at most 256 rounds inside the array that it reads.
-- slabAlloc calls itself at most once, since a new slab has a free object. All other loops are counted
-- down from their bounds.
--
-- Not modelled: printf.c and limine.h, copies of other projects; the stubs of the interrupts in assembly, and
-- the caches of the processor for tables; the terminal emulator, which is known by its bytes, and its
-- font; acpiRsdt, which only prints; the whole order of the calls in main; the parts of test.c that are not compiled.
-- In Pci and Vfs the objects that come from a slab cache are fresh nodes, and that the memory for them may run
-- out is left out; IoApic takes its nodes from the slabs. The page for the bitmap of irqInit is a parameter.
-- Memory that is read through pointers from the firmware is all readable.
pub mod Common
pub mod Bitmap
pub mod Pmm
pub mod Slab
pub mod Spinlock
pub mod Machine
pub mod Memory
pub mod Vfs
pub mod Vmm
pub mod Cpu
pub mod Irq
pub mod LinkedList
pub mod Pci
pub mod Console
pub mod Apic
pub mod Startup
pub mod Panic
pub mod Acpi
pub mod Ahci
pub mod IoApic
pub mod Tests
