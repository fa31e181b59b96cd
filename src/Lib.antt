-- ===== src/Lib.antt =====
-- A verification library for unos, a small kernel for the 32-bit x86. Paths are below the
-- repository's directory src/.
--
-- The kernel boots with its own segment and interrupt tables, sets up the interrupt controllers,
-- hands out physical memory by frames and kernel memory by blocks, shows text on the screen, reads
-- the keyboard, switches between processes and looks for devices on the PCI bus. Each part is a
-- module with the part's state as a record and a function for each of its operations, under the
-- source's names; the children of the module prove its laws.
--
--   Pmm           kernel/mm/pmm.c: the bitmap of physical frames
--   Malloc        kernel/mm/malloc.c: the kernel's heap, over the memory of Memory.antt
--   Kmalloc, Dmm  kernel/mm/kmalloc.c and kernel/mm/dmm.c: the heap with boundary tags
--   Vmm           kernel/mm/vmm.c: page directories and page tables, and the first ones at boot
--   LinkedList    lib/list.c: the doubly linked list
--   Strings       lib/string.c: the copies and fills, texts, and numbers written as texts
--   Process       kernel/scheduler/process.c and kernel/syscall/_exit.c: the scheduler
--   Pci           kernel/drivers/pci.c: the search for a device
--   Keyboard      kernel/drivers/keyboard.c: from scan codes to characters
--   Framebuffer   kernel/drivers/framebuffer.c: the text screen
--   Gdt, Tss, Idt kernel/gdt.c, kernel/tss.c and kernel/idt.c: the processor's tables
--   Pic, Isr      kernel/drivers/pic.c and kernel/isr.c: interrupts and their handlers
--   Timer         kernel/drivers/timer.c: the callbacks of a tick, and the chip's divisor
--   Syscall       kernel/syscall/syscall.c: the call of a kernel function by its number
--   Serial        kernel/drivers/serial.c: the bytes sent to the serial port
--   Network       kernel/drivers/rtl8139.c and kernel/network/ethernet.c: the card and its frames
--   NetworkUtils  kernel/network/network_utils.c: byte orders
--   Boot          kernel/kernel.c: the frames that kmain frees and reserves
--   Ports         kernel/drivers/io.c: what is written to the I/O ports
--   Memory        a byte at every address, and words of 16 and 32 bits
--   Base          numbers, bits, lists and tests that the parts share
--
-- How the parts meet: Network takes its memory from Malloc, whose invariant of owners its theorems
-- keep, finds the card with Pci and tells it addresses that Vmm translates. Process takes
-- the block and the list's node of a new process from Malloc, keeps its blocks in a LinkedList,
-- copies names with Strings, translates with Vmm, acknowledges the timer at Pic, and switches when
-- the count of ticks, which Timer advances, is a multiple of an offset. Malloc and Framebuffer fill
-- and copy memory with the functions of Strings; Tss puts its descriptor into the table of Gdt; Vmm takes the frames of its tables from
-- Pmm; Idt sets up the controllers with Pic, and Isr acknowledges an interrupt there before it
-- calls the handler, such as that of Keyboard.
--
-- Numbers are natural numbers, with `% 2 ^ w` written where the source's type wraps. `PANIC`,
-- which stops the machine, is an outcome. The walk of `malloc` over its blocks runs on fuel, one
-- round for each address below the end of the heap: every round goes up by at least 12 bytes, so
-- that is enough. The loops over a text run on fuel, and its length is enough; so do the loops of
-- `uitoa` and `itoa`, with a round for each binary digit of the number. The search of the PCI bus
-- takes one unit for each bridge on its way, of which the source sets no bound; the wait of the
-- serial port takes one for each look at its status. The walks over a linked list and the loop of
-- `vmm_alloc_page` run on fuel as well. The search of kmalloc.c takes one unit for each block and
-- one for the end, so a number above that of the blocks is enough. All other loops recur on a
-- count that the source gives.
--
-- Not modelled: `printf`, so that messages are left out, but for those that name a packet, and the
-- registration of handlers by the parts themselves. The routines in assembly appear by the
-- addresses or the effect that the C code relies on. The exercises under src/sample stand beside the kernel, which uses none of
-- them.
pub mod Base
pub mod Memory
pub mod Boot
pub mod Dmm
pub mod Framebuffer
pub mod Gdt
pub mod Idt
pub mod Isr
pub mod Keyboard
pub mod Kmalloc
pub mod LinkedList
pub mod Malloc
pub mod Network
pub mod NetworkUtils
pub mod Pci
pub mod Pic
pub mod Pmm
pub mod Ports
pub mod Process
pub mod Serial
pub mod Strings
pub mod Syscall
pub mod Timer
pub mod Tss
pub mod Vmm
