-- ===== src/Lib.antt =====
-- Simple OS Simulator: a model of the simulated kernel and what is proved of it.
--
-- The program simulates an operating system. CPU threads (src/os.c) take processes from a
-- multi-level queue scheduler (src/sched.c over src/queue.c) and execute their instructions
-- (src/cpu.c). The memory instructions go through a library (src/libmem.c), which keeps the registers
-- and free regions of a process, pages and swaps, and asks the kernel by system calls
-- (src/libstd.c, src/syscall.c, src/sys_mem.c) to grow an area (src/mm-vm.c), to map pages in a
-- five-level page table (src/mm64.c), to copy frames and to read and write a physical device
-- (src/mm-memphy.c). The model is of the build that include/os-cfg.h and include/os-mm.h configure:
-- MM64, MLQ_SCHED and MM_PAGING.
--
-- The files, and the code that each one models:
--   Prelude         shared names, tests on numbers, lists as arrays, words, bit operations
--   Queue           src/queue.c, include/queue.h: empty, enqueue, dequeue, purgequeue
--   Sched           src/sched.c: init_scheduler, get_mlq_proc, put_mlq_proc, add_mlq_proc, remove_proc
--   Memphy          src/mm-memphy.c: MEMPHY_mv_csr, _seq_read, _read, _seq_write, _write, _format,
--                   _get_freefp, _put_freefp, _dump, init_memphy
--   Pte             include/bitops.h, include/mm.h: the bit and entry macros; init_pte of src/mm64.c
--   PageTable       src/mm64.c, include/mm64.h: get_pd_from_pagenum, get_pte, pte_set_fpn,
--                   pte_set_swap, pte_get_entry, pte_set_entry
--   Mm              include/os-mm.h: vm_rg_struct, vm_area_struct, mm_struct; init_mm of src/mm64.c
--   Vm              src/mm-vm.c and the mapping part of src/mm64.c: inc_vma_limit, vm_map_ram,
--                   alloc_pages_range, vmap_page_range, vmap_pgd_memset, __swap_cp_page
--   Print           src/mm64.c: print_list_fp, print_list_rg, print_list_vma, print_list_pgn
--   Krnl            include/common.h: krnl_t, pcb_t, inst_t, and the monad of kernel steps
--   Syscall         src/libstd.c, src/syscall.c, src/sys_mem.c, src/sys_listsyscall.c
--   LibMem          src/libmem.c: __alloc, __free, pg_getpage, pg_getval, pg_setval, __read, __write
--   Stdio           the calls of the C library that read text, as an interface, and what is relied on
--   Loader          src/loader.c: get_opcode, load; Loader/Written is the text of a program,
--                   Os/Config/Plan that of a configuration
--   Cpu             src/cpu.c: run; the kernel memory stubs of src/libmem.c
--   Timer           src/timer.c: attach_event, start_timer, timer_routine, next_slot, detach_event,
--                   stop_timer, current_time; Timer/System is their interleaving
--   Os              src/os.c: the loop of cpu_routine, the end of ld_routine; Os/System is the
--                   interleaving of n CPUs and the loader from the start of main; Os/Config is
--                   read_config, Os/Loading the loop of ld_routine, Os/Main the setup in main
--   Flat            src/mm.c, the build without MM64: the flat page table against the five levels, the
--                   mapping of pages, swap_out_victim, __read, __write, the printing functions;
--                   Flat/Teardown is free_pcb_memph of src/libmem.c
--   Mem             src/mem.c, the memory of the build without MM_PAGING, as far as it is written
--   Tests           the model run at concrete inputs
-- A file beside such a name, in its folder, holds the proofs about it.
--
-- How state and operations correspond: a struct is a record with the field names of the source, a
-- linked list or an array is a list, and a function that changes an object returns the object's
-- new value. A process pointer is the position of its control block, which is never freed. An
-- operation of the kernel is a function from the kernel's state to `none`, where the code has
-- undefined behaviour (an access outside an array, a NULL that is read), or to a result and the
-- new state. A return code 0 or -1 is `success` or `failure`. Machine words are natural numbers
-- with the wrap-around written out: addr_t has 64 bits (32 in Flat), an int is its 32-bit pattern.
-- Memory that the code does not initialise before it reads it is a parameter, called `junk` or
-- named for what it stands for. So are the two macros that src/mm.c uses and no file defines.
-- Mutexes make each locked function one step; a function prints nothing in the model, except that
-- MEMPHY_dump and the printing functions give what they print. Threads are step relations: a state
-- is reached by any interleaving of the steps of the threads, so what holds of the reached states
-- of Os/System holds of those that the barrier of Timer allows. One instruction is one step there,
-- although src/os.c runs it without a lock. The loader makes a process in four steps (Os: alloc_mm,
-- init_krnl_mm, take_mm, ready_proc), since krnl->mm is shared with the CPUs and has no lock: between
-- the steps a CPU may store another process's memory there, which init_mm then empties. Where the
-- loader would next take that memory for the new process, two processes would share it, which the
-- model, where a process owns its memory, does not express: there the interleaving ends. admit is the
-- four calls in a row, as Os/Loading runs them.
--
-- Bounds and fuel: every loop is a recursion on the number of its rounds, which the code fixes before
-- the loop starts, so no fuel can run out. The endless loops of the threads are the steps of
-- relations. Five levels of 9 bits give the page numbers below 2 ^ 45; the theorems on tables are for
-- those, and an address that src/libmem.c translates has a page number below 2 ^ 14.
-- `inc_vma_limit` is treated for areas that end below 2 ^ 30, where no int overflows.
--
-- Files are read through the interface of Stdio: an opened file is a value, each call of fscanf, fgets
-- or sscanf is made of its conversions in order, and what the conversions do with the text of a line is
-- a hypothesis, which the files of Tests fulfil. exit(1) and undefined behaviour are results there.
--
-- Not modelled: src/paging.c, a separate demonstration; the usage message of main, and what it does once
-- the threads have started but for stop_timer; print_pgtbl of src/mm64.c, which prints addresses that
-- malloc chose, and dump of src/mem.c; the kernel page tables that ld_routine makes and nothing reads.
pub mod Prelude
pub mod Stdio
pub mod Queue
pub mod Sched
pub mod Memphy
pub mod Pte
pub mod PageTable
pub mod Mm
pub mod Vm
pub mod Print
pub mod Krnl
pub mod Syscall
pub mod LibMem
pub mod Loader
pub mod Cpu
pub mod Timer
pub mod Os
pub mod Flat
pub mod Mem
pub mod Tests
