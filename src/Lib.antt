-- ===== src/Lib.antt =====
-- VortexOS: a model of the kernel's core, and theorems on it.
--
-- Mm (src/kernel/mm.cpp, include/vortex/kernel/mm.hpp) is the buddy allocator of physical pages.
-- `Pmm` is its static state: the page frames by their numbers, the heads of the eleven free lists
-- and the counters. A `PageFrame*` is a page frame number, a null pointer is `none`, and the
-- operations have the names of the source. Mm.Init has `pmm_init` on the boot loader's memory map
-- (include/limine/limine.hpp); a panic is `none`. Mm.Chain and Mm.FreeLists read the links as
-- lists, Mm.Blocks reads the lists as disjoint aligned blocks, Mm.Split, Mm.Alloc, Mm.Free and
-- Mm.Reserved are about the operations, Mm.Init.Region, Mm.Init.Regions and Mm.Init.Ready
-- about the start.
--
-- Sched (src/kernel/scheduler.cpp) has the 140 ready queues over the pool of thread control
-- blocks of include/vortex/kernel/thread.hpp; a `ThreadControlBlock*` is an index in the pool.
-- Sched.Schedule has `schedule`, the timer handler and `enqueue_thread`. The deadline scan, the
-- search for the thread before another and the two scans by priority are functions of their own.
-- What the code does to the processor (the switch, the timer, the stack for interrupts) is a
-- trace of actions. A panic or a null pointer followed is `none`. Sched.Queues and Sched.Unlink
-- read the queues as lists, Sched.Schedule.Pick, Choose, Switch, Next, Timer and Idle are about
-- the choice of the next thread and what leads to it.
--
-- Thread (src/kernel/thread.cpp, src/arch/x86_64/context_switch.S) creates threads, with a stack
-- from Mm and a control block of Sched, and switches between them, over a memory of 64-bit words
-- and the registers that the switch saves. The trampoline, the thread's function and its name are
-- addresses.
--
-- Net (src/kernel/net.cpp) is the network stack: the address cache, the UDP sockets with the system
-- calls on them, and the TCP stub stand in the root, Net.Address has the bytes of IPv4 addresses,
-- Net.Exchange address resolution on packets as fields, Net.Checksum the Internet checksum, Net.Frames
-- frames as bytes with the state of the interface, Net.Ipv4 what is sent and received over IPv4, and
-- Net.Dhcp the DHCP client and `net_init`. A packet or a frame is memory from its first byte on, which
-- goes on behind its length. What the driver's `eth_transmit` answers is a function in the state, the
-- frames handed to it are a list, and what stands on the stack behind a header's copy is a field.
-- Net.Arp, Net.Udp, Net.Tcp and Net.Configuration are about the state, Net.Delivery and Net.Datagram
-- about a packet's way from one host to another. A result of type int is an integer of Base.Ints.
--
-- Device (src/kernel/device.cpp) is the registry of devices, linked by `private_data`.
-- Device.Registry reads it as a list.
--
-- Vfs (src/kernel/vfs.cpp, include/vortex/kernel/vfs.hpp) has the nodes of the file systems, the
-- directory operations that tmpfs and devfs share, the mount table and path resolution. A
-- `VfsNode*` is a number. What kmalloc returns is not computed here: `supply` in the state lists
-- its results to come, a null pointer where it has run out, and `created` counts the nodes made, which bounds the walks along siblings. Vfs.Files has the functions behind `ops->read` and
-- `ops->write`, where a file's page comes from Mm's result in the state, and Vfs.Init the start.
-- Vfs.Files.Content, Vfs.Paths and Vfs.Dirs are about files, paths and directories.
--
-- Vmm (src/kernel/vmm.cpp) has the page tables in a memory of 64-bit words, over Mm: walking,
-- mapping, unmapping, and the creation, cloning and switching of address spaces. An `AddressSpace*`
-- is a number, or the object itself where a function only reads it. `supply` has kmalloc's results to
-- come, and `heap` what a call of it does to the allocator and to memory, which any function may stand
-- for. Vmm.Mapping is about mapping and unmapping against a walk of the page tables in memory, as tables
-- of pages of 4 KiB, Vmm.Create about a new address space.
--
-- Process (src/kernel/process.cpp) has the process list, creation, forking and destruction, over Vmm. A
-- null pointer that is followed when a process is forked is `none`.
-- Process.Table reads the list, Process.Create is about new processes.
--
-- PageFault (src/kernel/pf.cpp) is the handler of page faults, over Vmm; PageFault.Copy is about the
-- copy on write. Freestanding (src/kernel/string.cpp) has memset and memcpy.
--
-- Unsigned numbers are natural numbers with their wrap-around written out. Loops run on fuel: a
-- walk along a ready queue on one step more than there are ready threads, the search for an
-- order on 64 steps, as many as the width of the shift, the merge of buddies on the orders that are
-- left, a walk along siblings, devices or processes on one step more than there are, a path on
-- its length, the DHCP options on one round more than their length and the carries of a checksum on two rounds. Where a
-- theorem says what such a function returns, it holds with this fuel.
--
-- Not modelled: the heap itself (src/kernel/heap.cpp), so that outside Vmm and Process a call of kmalloc
-- has its result only and leaves the allocator and memory alone, and kfree does nothing; the TLB and
-- large pages; log output and the serial port, `udp_checksum`, which nothing calls, the flags of
-- interrupts, other processors, and the parts of the kernel that are not named above.
pub mod Base
pub mod Device
pub mod Freestanding
pub mod Mm
pub mod Net
pub mod PageFault
pub mod Process
pub mod Sched
pub mod Thread
pub mod Vfs
pub mod Vmm
