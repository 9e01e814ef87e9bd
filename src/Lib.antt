-- ===== src/Lib.antt =====
-- T-Visor, a hypervisor for ARMv7 with virtualisation extensions: VCPUs of several virtual machines
-- share a core. This library models its core logic.
--
-- The parts and how they interact. A scheduler (one of three, chosen by a record of operations,
-- include/schedule.h) keeps slots of VCPUs in lists of queue.c. vcpu.c calls it when a VCPU
-- becomes ready, sleeps or is preempted. Timed events of timer_event.c set the hypervisor timer, and
-- its interrupt runs their callbacks; the EDF scheduler ends budgets and periods with them. Traps of
-- a guest are carried out by hyp_call.c on the saved registers. message_channel.c hands memory from
-- one VCPU to another by a hypercall. virtual_gic.c delivers interrupts in list registers whose
-- values gic.c packs.
--
-- The files.
--   Prelude: Boolean tests on numbers, lists and the bits of words that all parts share.
--   Queue: queue.c on a heap of prev and next fields. A command gives a result and a heap, or `none`
--     for a null dereference. Its functions carry the names of queue.c. Queue.Chain and Queue.Links
--     describe the links, Queue.Refine the abstract view of a list as the sequence of its nodes,
--     Queue.Ops and Queue.Check the operations in that view.
--   Sorted: the insertion loop of edf_scheduler.c (`list_enque`) and of timer_event.c, on the links
--     and on the sequence; Sorted.Walk relates the two. The parts below use sequences.
--   TimerEvent: timer_event.c, htimer_set_value, htimer_clear and htimer_is_enable of timer.c, and
--     ht_handle of irq_handler.c. A callback is a parameter. htimer_clear names the value that it
--     writes as an output, so what is written is what its operand registers held, `leftover` of the
--     state.
--   Schedule: include/schedule.h, and in Schedule.Fp, Schedule.RoundRobin and Schedule.Edf the files
--     fp_scheduler.c, my_scheduler.c and edf_scheduler.c, each with the functions of its file.
--   Vcpu: the life cycle of the VCPUs in vcpu.c over a scheduler, and `reschedule`, the call of
--     vcpu_preemption in irq_handler.c. Vcpu.Interface has the laws of a ready queue that a scheduler
--     fills, as Vcpu.RoundRobin does for my_scheduler.c; Vcpu.Run has the runs as steps, and Vcpu.Turns
--     repeated preemptions over my_scheduler.c. What vcpu_start and vcpu_save_state copy register by
--     register is one value.
--   HypReg: hyp_reg_read, hyp_reg_write and hyp_memory_passthrough of hyp_call.c. The value that a
--     register held by chance at an `msr` with a wrong operand is the parameter `leftover`.
--     HypReg.WriteBack has check_write_back of hyp_call.c, and HypReg.Coproc coproc.c.
--   Logger: logger.c, and tv_puts of debug.c with the serial line as its output.
--   Rbtree: rbtree.c on a heap of nodes with the fields of node_t. Rbtree.Shape says which tree a heap
--     holds; Rbtree.Search, Rbtree.Turn and Rbtree.Predecessor prove the search, the rotations and a
--     step of the deletion; Rbtree.Place and Rbtree.Plug describe a change inside a larger tree. On
--     top of them Rbtree.Hang has the walk of rbtree_insert down, Rbtree.Added and Rbtree.Linked the
--     new node, Rbtree.Around, Rbtree.Lift and Rbtree.Repair its second loop, with Rbtree.Standing as
--     the invariant, and Rbtree.Insert the whole function.
--   VintSender: vint_sender.c, a client of Rbtree.
--   Psci: virtual_psci.c on the VCPUs of Vcpu, with the registers of Vcpu.Context as the contexts.
--   IrqHandler: the registration and the dispatch of irq_handler.c, a client of Rbtree and of Vcpu.
--   MessageChannel: message_channel.c. `vcpu_add_page` has no definition in the sources, so what the
--     operations do to page tables and VCPUs is a list of calls.
--   Gic: the packing and reading of list register values in gic.c.
--   VirtualGic: virtual_gic_set_lr and virtual_gic_maintenance of virtual_gic.c, with what they
--     call; VirtualGic.Distributor has the reads of the distributor, at offsets from its base,
--     VirtualGic.Writes the writes, aligned to their size, and VirtualGic.Send the sending of
--     hardware and software interrupts. `balance_func` of a VM is a parameter.
--
-- Numbers. UB, UHW, UW and UD have 8, 16, 32 and 64 bits; where an operation can wrap around, the
-- model writes the remainder out. A slot's node is its index plus one, and 0 is NULL.
--
-- Fuel. The loops of queue_list_find, queue_list_check and list_enque follow pointers and take fuel;
-- `none` stands for its end. On a list of n nodes n + 2 rounds are enough, and for list_enque n + 1.
-- The walks and repairs of rbtree.c take fuel too; a fuel above the height of the tree is enough for
-- the search and for both loops of the insertion. The loop of my_schedule in fp_scheduler.c is counted by the priorities. The other loops run over
-- sequences or over a fixed count.
--
-- The slots. my_enque of the three schedulers is modelled for a VCPU that has a slot; a failed
-- allocation, which leaves NULL, is outside.
--
-- Not modelled: vcpu_setup of vcpu.c, the dispatch hyp_call of hyp_call.c, the initialisation and the
-- saving of state in virtual_gic.c, the timer handlers and the wait of irq_handler.c, virtual_device_handle.c and page tables;
-- other output, assembly, device registers, board settings and guest programs.
-- schedulers/rr_scheduler.c is not linked with schedule.c, since both define scheduler_init.
mod Prelude
pub mod Queue
pub mod Sorted
pub mod TimerEvent
pub mod Schedule
pub mod HypReg
pub mod MessageChannel
pub mod Gic
pub mod VirtualGic
pub mod Vcpu
pub mod Logger
pub mod Rbtree
pub mod VintSender
pub mod IrqHandler
pub mod Psci
