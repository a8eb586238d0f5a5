-- ===== src/Lib.antt =====
-- Verification of the code of a course on advanced operating systems: kernel modules and user
-- programs in C, each a component of its own. They share no code but `my_get_order`.
--
-- E2e models lab2/E2E.c with lab2/tasks.h and its variants sched.h, unsched.h and missched.h. In
-- "calibrate" mode the module adds up execution times (E2e.Cumulate), sorts all subtasks by
-- utilisation (`comp_util`), assigns them to cores by first-fit (E2e.Assign), sorts them by core and
-- relative deadline (`comp_rel_ddl`), gives priorities and finds where each core's subtasks start
-- (E2e.Priority); E2e.Init puts the phases together and lists the calls to the kernel. One thread
-- per core then searches the loop counts (E2e.Calibrate). In "run" mode each subtask has a thread
-- and a timer (E2e.Run); E2e.Threads lets all of them, the first timer and the unloading interleave
-- (`Reaches`). There a round is cut where others can come in between: on waking, at the end of the work,
-- at the start of the own timer, at the look at the successor, at the call decided on, at the test of
-- `kthread_should_stop`, and when the thread sets its state to sleep. `wake_up_process` wakes a thread
-- that sleeps and does nothing to one that does not, which `lost` counts; `hrtimer_start` replaces a
-- started timer, as the kernel documents; and a timer may expire at any time from its expiry on. The
-- statements on `Reaches` are about the time before the unloading, since `kthread_stop` releases each
-- subtask once more. `IsLaidOut` says how the subtasks of a task stand in the tables. The kernel's
-- `sort` is a parameter with what it promises (`IsSort`), which an insertion sort meets; the clock's
-- readings and the measured times are arguments.
--
-- SharedMemory models studio5/leader.c, studio5/follewer.c and studio5/shared_memory.h: the leader and
-- the follower share a region with three guards, and each of their accesses to it is a step of a
-- relation (`Reaches`), so that statements hold of every interleaving. The accesses of one process
-- take effect in program order. `values` stands for the results of `rand`.
--
-- KernelMemory models studio4/kernel_memory.c; `alloc_pages` is a parameter.
--
-- Paging models lab-1/mod/paging.c: `do_fault`, the `open` and `close` of a VMA, and `paging_mmap` in
-- both modes. Private data has a number, and its access after `kfree` is an outcome; accesses to freed
-- cells of a list are counted, and find what the cells held. The relation `Step` makes the calls that
-- the kernel makes in on-demand mode, one at a time, and keeps how many VMAs share each private data.
-- Paging.Device loads and unloads the module. The order loop has 31 rounds, enough for the 2 ^ 20 pages
-- of a 32-bit length.
--
-- TcpServer models final_project/tcp_server.c: the accepting thread and a connection thread as
-- functions from the answers of the kernel to the calls they make and the messages they print. In
-- TcpServer.Sharing the threads of all connections share the one buffer (`Reaches`), each access to it
-- being a step; elsewhere one connection is there. `behind` is the memory behind the buffer, which `%s`
-- goes on with when the buffer has no zero byte.
--
-- TcpClient models final_project/tcp_client.c and UdpServer final_project/udp_server.c in the same
-- way; the client's messages are what TcpServer's connection thread receives.
--
-- Fifo models final_project/kfifo_example.c (Fifo.Example) and final_project/kernel_fifo_test.c
-- (Fifo.Module). The kernel's queue is a record of operations and laws (`Kfifo`), which a list meets;
-- its calls are modelled one at a time.
--
-- RandomAccess models studio15/random_access.c: the iterations on the table, `HPCC_starts` and
-- `main`; `malloc`ed memory has any content.
--
-- Matrix models studio15/dense_mm.c, lab-1/user/dense_mm.c, sparse_mm.c and floyd_warshall.c
-- (Matrix.Programs) and studio9/gdb-matrix.c (Matrix.Gdb). The operations on `double` are parameters,
-- and an access past an array, which a size of 65536 leads to, is an access to one more cell.
--
-- Observer models studio12/process_observer.c: the comparison of two listings and, in
-- Observer.Program, the reading of /proc, the chains of parents and `main`. A chain gets a number of
-- levels, since it ends only if the parents do. Observer.Anomalous models the process that it is
-- tried on, studio12/anomalous_process.c.
--
-- Inotify models studio11/inotify.c; the loop over a buffer gets as many rounds as it has bytes.
--
-- Timing models studio8/timing_module.c and Barrier studio8/timing_module_q7.c: loading, unloading,
-- threads and timers are actors whose steps interleave (`Reaches`). In Barrier the accesses take
-- effect in program order, as in SharedMemory.
--
-- Monitoring models studio10/monitoring.c, and Waiting final_project/file_sync_module.c,
-- final_project/module_template.c and studio6/vfs_module.c (Waiting.Vfs).
--
-- Heap models studio10/example.c, memory_events.c, q3.c and monitored.c, as their calls to the
-- allocator; Heap.Blocks counts the calls that misuse it.
--
-- Realtime models studio7/realtime_module.c; Interfering models studio13/interfering_module.c and
-- studio13/interfering_process.c.
--
-- Words that wrap in C have the wrap written out (`u32`); a pointer into an array is its index. What
-- C leaves undefined, a read past an array, gives zeros here, and the statements keep indices in
-- range. The bisection gets 27 rounds of fuel, since 2 ^ 27 exceeds its maximum of 1e8, and the
-- shift loop gets 32, since a 32-bit word is zero by then; the loops that bring the argument of
-- `HPCC_starts` into range get 8, since 2 ^ 63 is less than 8 periods. That these are enough is proved.
--
-- Not modelled: the texts that are printed, how long steps take, which thread a core prefers, and
-- handlers of Paging or threads of Fifo that run at the same time. The modules of studio3 print
-- a line and return a constant. lab2/backup.c and pi-backup are copies, and E2E.c does not include the
-- tables lab2/sched_cal.h, sched_run.h, unsched_cal.h and unsched_run.h.
pub mod Barrier
pub mod Base
pub mod E2e
pub mod Fifo
pub mod Heap
pub mod Inotify
pub mod Interfering
pub mod KernelMemory
pub mod Matrix
pub mod Monitoring
pub mod Observer
pub mod Paging
pub mod RandomAccess
pub mod Realtime
pub mod SharedMemory
pub mod TcpClient
pub mod TcpServer
pub mod Timing
pub mod UdpServer
pub mod Waiting
