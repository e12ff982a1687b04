-- ===== src/Lib.antt =====
-- AfriyieOS: a model of the core of its kernel, and what its code guarantees.
--
-- The program is a small capability kernel. A process holds handles into its capability table; a
-- system call that names an object looks the handle up there and is refused without the right that
-- it needs. Processes talk through endpoints, to which they hold capabilities: messages are queued
-- in a ring of eight, and threads wait in lines for a message or for room. Below both, the physical
-- memory manager hands out the frames of the machine.
--
-- Common holds the shared names and lemmas:
--   Errors is kernel/include/afriyie/status.h; Tests has the Boolean tests of C conditions and array
--   writes; Lists, Count, Bits and Digits have the lemmas on lists, on counting over a table, on
--   `&` and `|` of words and on their single digits.
-- Cap models kernel/core/cap.c with kernel/include/afriyie/cap.h:
--   Object and Table are its types, handles (`pack`, `resolve`) and `cap_table_create`; Ops is
--   cap_insert, cap_lookup, cap_derive, cap_delete, cap_revoke with `revoke_children` and the
--   counters; Api adds the NULL table. History is a sequence of calls. Handle, Insert, Issue, Derive
--   and Cases are about single calls; Invariant, Tree, Revoke and Authority about all of them.
-- Ipc models kernel/core/ipc.c with kernel/include/afriyie/ipc.h:
--   State and Ops are endpoints, ipc_endpoint_create, ipc_endpoint_ref, ipc_endpoint_unref, ipc_send
--   and ipc_recv; Call is ipc_call and ipc_reply; Checked is ipc_send_cap, ipc_recv_cap and
--   ipc_call_cap, which use Cap; WaitList is waiter_add, waiter_remove and waiter_pop on the linked
--   lists, and Spelling is about them. Mailbox is what an endpoint promises, and Ring, Refine, Receive
--   and Serve compare the code with it. Table and Lifetime are about creation and destruction, Authority about the
--   checked calls, Hazards about what goes wrong.
-- Boot models kernel/core/boot_info.c with kernel/include/afriyie/boot_info.h:
--   Info is the handoff of the boot bridge and the queries of its memory map (usable_bytes,
--   max_address, max_usable_address, find_region); Validate is af_boot_info_validate, and Accepted
--   says what it lets through. Sample is a handoff for tests.
-- Disk models kernel/core/block.c and kernel/fs/gpt.c:
--   Block is block_read over a driver, and Range its check; Gpt is partition_table_read and
--   partition_find_esp. Entries is about their loops, Table compares the partitions with the bytes on the
--   disk. The driver is a function of the device.
-- Pmm models kernel/core/pmm.c with kernel/include/afriyie/pmm.h:
--   State is the bitmap with its primitives, Ops is pmm_alloc_frames, pmm_free_frame(s),
--   pmm_frame_ref, pmm_frame_unref and pmm_frame_refcount, Range is mark_range_free,
--   pmm_reserve_range and pmm_release_range, Init is pmm_init, which uses Boot. Frames reads the
--   bitmap as a set, Runs is about the scans, Invariant is what holds between calls; Alloc, Free,
--   Refs and Reserve are about the calls, Boundaries, Clear, Keep and Start about pmm_init.
-- Task models kernel/core/thread.c, sched.c and process.c with kernel/include/afriyie/thread.h and
-- process.h:
--   State is the thread and process structures and the static variables of the three files; Queue is
--   the run queues (runq_push, runq_pop, runq_pop_highest, runq_remove); Threads is register_thread,
--   unregister_thread, thread_create, thread_adopt_current, thread_reap and the lookups; Process is the
--   process table up to process_reap; Switch is pick_next, switch_to, sched_reap,
--   sched_collect_zombies and sched_set_process; Calls is sched_init, sched_admit, sched_tick,
--   sched_yield, sched_block, sched_unblock, sched_sleep, sched_wake_sleepers, thread_exit,
--   process_exit and process_wait. Invariant says what holds between two calls; Alike, Leave, Moves,
--   Wakes, Steps, Teardown, Collect and Members show that the calls keep it, and Histories that
--   sequences of calls do. Priority and Rotation are about whose turn it is, Woken and Sleepers about
--   waking, Spaces about page tables, Table and Pids about the two tables, Hazards about what goes
--   wrong.
--
-- Text models kernel/core/kstring.c:
--   Memory is af_memset with its words, af_memcpy, af_memmove and af_memcmp; Strings is af_strlen,
--   af_strcmp, af_strncmp, af_strchr, af_strlcpy, af_strlcat and af_str_has_prefix; Numbers is
--   af_utoa_base, af_itoa, af_format_u64 and af_format_hex. Fill is about af_memset, Move about copies
--   and comparison, Copy about strings, Parse reads a printed number back.
-- Heap models kernel/core/heap.c with kernel/include/afriyie/heap.h:
--   State is the slabs with their geometry and the static variables, Large is large_alloc, Ops is
--   heap_init, kmalloc, kfree, krealloc, kmalloc_aligned, kmalloc_usable_size and heap_check. Layout is
--   about where objects lie, Objects about the objects of a slab, Invariant says what holds between
--   calls, Allocate and Release that calls keep it, Histories that sequences of calls do. The frames
--   that the memory manager returned and whether the guard bands are intact are arguments.
--
-- Fat models kernel/fs/fat32.c, over Disk:
--   Volume is fat32_mount, cluster_to_lba, fat_next_cluster and read_cluster, with the bytes behind those that a read
--   has filled as an argument of the mount; File is fat32_read and
--   fat32_close; Names is the names in directory entries, Directory is fat32_readdir and fat32_lookup,
--   Open is fat32_open and fat32_read_file. Place is about where clusters lie, Chain about reads along
--   a chain of clusters, Search about the end of searches, Handles about the open files.
--
-- State is passed explicitly: a function takes the static variables as a record and returns the
-- record that it leaves. Arrays are functions of an index, pointers into a table are indices, and
-- NULL is `none`. Machine words are natural numbers with the wrap-around written out.
--
-- Bounds and fuel. The loops over a table or a range of frames are recursions on the number of
-- rounds left: 255 slots of a capability table, 64 endpoints, `s_frame_count` frames, at most 128
-- partition entries, 8 run queues, 1024 threads and 256 processes. `sched_collect_zombies` goes round
-- as often as there are zombies, which empties their list. The recursion of `revoke_children` has a depth, and `none` stands for a call
-- beyond it; `cap_revoke` starts with 257, for the 255 slots that a chain of derivations can hold and
-- the calls at its two ends. The walks along a wait list have a bound, for which the length of the
-- list is enough. The loop of fat32_read has the bound that its guard has, that of fat32_readdir too; the search
-- of a directory, which the source does not bound, has one round for each entry that the volume can hold, and one
-- more. The loops along a string have a bound, and `none` stands for a string that goes on beyond
-- it; the digits of a number are at most the 24 of the buffer in af_utoa_base. Every other function
-- ends by itself.
--
-- Blocking. `sched_block` ends a round with `blocks`; when the thread is woken it makes another
-- round, so a history of rounds, in any order, is an interleaving of threads. `sched_unblock` appends
-- to the list of threads that were woken. Task has the
-- scheduler that picks among them: there a call that blocks ends at its switch, and what the thread
-- does when it is switched to again is a definition of its own (block_resumed, sleep_resumed,
-- wait_round).
--
-- Not modelled: log lines, names of objects and endpoints, allocation and release of the tables'
-- own memory, the contents of frames and of heap objects, the statistics of the memory manager,
-- the saved registers and the assembly of context_switch, and all other parts of the repository.
pub mod Common
pub mod Cap
pub mod Ipc
pub mod Boot
pub mod Pmm
pub mod Disk
pub mod Task
pub mod Text
pub mod Heap
pub mod Fat
