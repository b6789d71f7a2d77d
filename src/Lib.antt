-- ===== src/Lib.antt =====
-- Verification of CalmOS, a teaching kernel for the x86: its scheduler (kernel/scheduler.c), its
-- message queues (kernel/queues.c), and the clock interrupt and system calls that drive them
-- (kernel/interrupt.c, kernel/syscall.c, kernel/start.c); its text console (kernel/console.c), its
-- keyboard (kernel/driver/keyboard.c) and its mouse (kernel/driver/mouse.c); its FAT16 file
-- system (kernel/filesystem/fat16.c) on a disk (kernel/driver/disk.c, kernel/driver/floppy.c); and
-- the user programs' library, shell and music (user/syscall.c, user/shell.c, user/play.c).
--
-- The kernel is single-threaded between context switches, and a call runs with interrupts off. The
-- model is a state, `Sys` of Kernel/State.antt, and one function from states to states per function
-- of the source, under the source's name. A linked list is the list of the pids on it, from the
-- head on; a pointer to a process is its pid, NULL the end of the list. An assertion that fails,
-- or a NULL that is followed, sets `panicked`. The members of the union `state_attr` other than the
-- links are fields of their own; the variables on the stacks of suspended calls at which it points
-- (`child_pid`, `retval`, `message`) are fields of the process as well.
--
-- A call of the scheduler changes `active_process` and saves nothing but the stack pointer; what
-- stands behind it runs when the process is chosen again. So the calls that block are in two parts:
-- `waitpid` and `resume_waitpid`, `psend` or `preceive` and `resume_wait`. `Kernel/Machine.antt` puts
-- them together as a step relation, from `kernel_start` on.
--
--   Base             the names the modules share, lists, integers and sorted lists
--   Kernel/State     the data of kernel/scheduler.h, kernel/queues.c and shared/system.h
--   Kernel/Runnable  remove_runnable, push_runnable, push_dead
--   Kernel/Invariant, Kernel/Ready, Kernel/Elects
--                    the invariant: which list a process stands on, in what order, who runs
--   Kernel/Tick      tick_scheduler, fix_scheduler
--   Kernel/Waiting   the lists of processes that wait on a queue
--   Kernel/Stop      stop, exit, kill
--   Kernel/Scheduler chprio, getprio, getpname, start, start_user, wait_clock
--   Kernel/Waitpid   waitpid
--   Kernel/Messages  pcount, pcreate, pdelete, preceive, preset, psend
--   Kernel/Status    processes_status, queues_status
--   Kernel/Boot, Kernel/Machine
--                    setup_scheduler, kernel_start, tic_PIT, what keys and system calls change
--   Kernel/Machine/Turns
--                    the clock interrupts among processes of one priority
--   Kernel/Syscall   user_IT: the tests of pointers and the dispatch by number; Files for the calls
--                    on files, with kernel/filesystem/filesystem.c
--   Interrupt        tic_PIT with all that it calls, kernel/driver/beep.c; Setup for
--                    setup_interrupt_handlers
--   User             the library of user programs, user/syscall.c, on top of user_IT
--   Play             the music lines of user/play.c
--   Console          the screen memory, the cursor and the control characters
--   Keyboard         cons_readline, over the messages that it receives
--   Keyboard/Input, Keyboard/Typing
--                    keyboard_data, echo, cons_read, cons_write, on the kernel and the screen
--   Mouse            mouse_IT, mouse_handle_packet, init_mouse, and mouse_callback of interrupt.c
--   Disk             disk_t, the memory disk, and what the users of a disk rely on
--   Floppy           the cache of a cylinder in kernel/driver/floppy.c: reading, writing, and the
--                    calls of a disk on top of it
--   Fat16/Layout, Fat16/Clusters
--                    the boot block, where the parts of a disk stand, the table of clusters
--   Fat16/Data       fat_add_data, fat_read_data, fat_write_data, fat_remove_data; the files below
--                    it for chains of clusters, their areas, and each of the functions
--   Fat16/Names, Fat16/Entries
--                    names, directory entries, fat_add_file, fat_remove_file, fat_fs_list, ...
--   Fat16/Create     new_fat16
--   Shell            the commands of user/shell.c, and the ones on files
--   Tests            concrete states and the theorems applied to them
--
-- The loops of the source are recursion on the list they follow, or on the number of rounds left,
-- which is the size of the table (NBPROC, NBQUEUE). The clock wraps at 2 ^ 32; sizes, pids and
-- capacities stay below the bounds that the source tests, and priorities are integers. The answers
-- of the allocators (`mem_alloc`, `user_stack_alloc`) are parameters, and so is `memmove`. Writes of
-- the kernel to user variables go to `memory`, which does not overlap the kernel's own data.
--
-- A disk is any record of operations that behaves as one array of bytes, with the memory disk as the
-- instance; the pointers of `disk_view` are functions from offsets to bytes. Fields of packed structs
-- are read and written as bytes, the lowest first; a `uint32_t` sum or product wraps at 2 ^ 32. A loop
-- over a chain of clusters takes a number of rounds, and a chain that is longer is a missing result,
-- as a failed assertion is: `fat_add_data` makes a round for each byte at most, `fat_remove_file`
-- follows as many clusters as the disk has, and reading takes the rounds as an argument. The loop of
-- `fat_fs_list` makes one round more than the directory has entries from its offset on. `memcpy` and `memset` are
-- written out as operations on lists; `strchr` and `strrchr` are parameters.
--
-- The transfer of a whole cylinder, `do_track` of kernel/driver/floppy.c, comes from the OSDev forum and is
-- a parameter, with what its callers rely on as `IsTrack` of Floppy/Cache.antt; the loops of the
-- cache make a round for each byte at most. `sprintf`, `strtoul` and the products of a `float` are
-- parameters, and what a user program has in memory at an address is one. A division by 0, and an
-- array read or written outside its bounds, are missing results, and so is a system call that is not
-- modelled. Only the geometry of a disk is computed without: where a boot block has no bytes in a sector
-- or no sectors in a cluster, the processor's exception is a quotient of 0.
--
-- Not modelled: port I/O, the assembly of the context switch, and the other parts of the system: the
-- Linux keyboard driver, the controller of keyboard and mouse, the floppy's own driver, formatted
-- output, the allocator, the debugger and the test programs; of the calls of user programs those of
-- the console and the speaker; and the choice between floppy and memory disk. The assertion that
-- `disk_view` shows a whole boot block is left out. That the value which a child writes for its
-- suspended parent is that of a zombie, the last assertion of `waitpid`, is a premise of the step
-- `child_ended`; that the keyboard's queue has room for a key is one of the step `typed`.
pub mod Base
pub mod Kernel
pub mod Console
pub mod Disk
pub mod Floppy
pub mod Fat16
pub mod Keyboard
pub mod Mouse
pub mod Shell
pub mod User
pub mod Play
pub mod Interrupt
pub mod Tests
