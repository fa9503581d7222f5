-- ===== src/Lib.antt =====
-- wfey measures what it costs a core to wait for events: by polling, or in the Arm instruction WFE.
--
-- The program. An event processor thread (epThread in wfey.c) waits for events of source threads
-- (sourceThread); a source makes its event active, and may press a doorbell and execute SEV. The
-- processor looks at its doorbell, goes through all sources, runs the work of each active one and
-- resets its event, which also accounts the time from activation to reset. main reads the options,
-- divides the cores among the threads, sets the sources up, ends the threads and prints a line for
-- each source. Five builds (Makefile) differ in three macros.
--
-- Which file models which part:
-- - Prelude and its children: Boolean tests, lists, options, signed integers, text and its numbers.
-- - Clock: ts_t, ts_now, ts_diff of include/common.h.
-- - Source: struct Source of include/wfey.h, source_event_activate, source_event_isActive and
--   source_event_reset of wfey.c, and the body of main's loop that sets a source up. Source/Stats
--   reads the latency fields as a list of latencies.
-- - Signal: the doorbell, SEV, WFE and armMonitor of include/wfey.h.
-- - Config: the macros and the builds.
-- - System: the loops of epThread and sourceThread as steps on the shared memory, one shared access
--   at a time; an Action says which thread steps, or that main sets an end flag, or that an event comes
--   from outside the program. Any list of actions is a run. System/Covered, System/Wakeup,
--   System/Silent, System/Pass and System/Overwrite hold the proofs. System/Mailbox reads the states of the
--   events as a mailbox; System/Mailbox/Counts counts its moves, System/Mailbox/Delivery and
--   System/Mailbox/Prompt the steps up to one, and System/Mailbox/Settled those of a processor that may sleep.
--   System/Counters: the counters of the processor and the sources. System/Latencies: the latencies that a run
--   measures.
-- - Nap: the loop over nanosleep in sourceThread, and Nap/Time how long it lasts. Nap/Delay: the delay that
--   main and sourceThread compute, over the interface of Nap/Double, and Nap/Valid the delay as a time.
-- - CpuInfo: getCPUInfo of include/wfey.h; CpuInfo/Reads: what main makes of it.
-- - Pin: pinCpu of include/common.h; Pin/Threads: the cores of all threads.
-- - Perf: the counters of include/perf.h and the line that epThread prints. Perf/Session: the calls by which
--   epThread opens, switches, reads and closes its counters; Perf/Protocol: the order in which they may be
--   made, and Perf/Protocol/Kept the calls of epThread against it. Perf/Counters: what epThread reads of
--   its counters; Perf/Report, on System/Inactive: the times in the line.
-- - Work: enum WorkType, printWorkType, work_translate, choose_work, choose_ep. Work/Calls and
--   Work/Transfer: the system calls of the work functions and the loops over read and write. Work/Mem:
--   memwork. Work/Comp: compwork. Work/Io: iowork. Work/Choose: what is chosen.
-- - Main/Args: the options of main; Main/Cores: the cores, the idle threads and the end barrier;
--   Main/Start: from the options to the cores; Main/Report: the report, and Main/Report/Runs
--   the report of a run; Main/Life: the threads of main
--   from their creation to the exit, with Main/Life/Order, Steps, Course and Runs for what is true at each place of main, Access for the memory
--   of the sources and the signals, Sweeps, Alone and End for the way to the exit, and Race for a processor
--   that is ahead of main.
-- - Hwmon: wfey_hwmon.c and include/wfey_hwmon.h, over an arbitrary directory and arbitrary files.
--   Hwmon/Cache: what a search and a call of wfey_hwmon_joules_cache_path leave; Hwmon/Reads: reads.
--   Hwmon/Standalone: main of wfey_hwmon.c.
-- - Sampler: scripts/energyBM/catmon.c; Sampler/Samples: what it prints.
-- - Driver: module/altra-hwmon.c. Driver/Read: the reads of a sensor; Driver/Create: altra_create_sensor,
--   which Driver/Create/Listed, Passes, Sensors and Sound are about; Driver/Walk: altra_hwmon_create_sensors, with
--   Driver/Walk/Bounds, Ready and Reads; Driver/Probe: altra_hwmon_probe;
--   Driver/Labels: the labels of the sensors, as wfey_hwmon.c reads them.
-- - Energy: the way of a core's energy from the driver's registers to wfey_hwmon_joules_read; Energy/Spent:
--   the two readings of epThread and its line.
-- - BasicTests: the loops of basic_tests.
-- - Tests: runs on concrete inputs.
--
-- Numbers. Machine words are natural numbers with the wrap-around written out. A timespec's fields
-- are 64-bit patterns. int is an integer where it can be negative.
--
-- Outside code. The kernel's nanosleep (Nap) and scheduler (Pin) and the double of the compiler (Nap/Double,
-- also for the energies of Perf and Energy, and Work/Comp) are records of operations with what POSIX, Linux and IEEE 754 say of them; the answers of all
-- other calls are arguments. In System the sleep of a source is one step that can end at any time; Nap is about its length.
--
-- Memory model. All accesses to the doorbell, the event states and the end flags are single steps in
-- one order (the code uses sequentially consistent atomics and volatile flags). The time stamps and
-- latency fields of a source are stepped with the access that they stand next to. The event register
-- and the monitor are as the Arm architecture describes them; the processor's own accesses neither open
-- nor move its monitor.
--
-- System begins when the sources are set up and the processor has passed its barrier. In the program the processor
-- may be in its loop before that: Main/Life has the steps of main from the beginning, and Main/Life/Race such a
-- processor. The energies are read only in a build with the macro BEAST, which no target of the Makefile defines.
--
-- Main/Life counts the threads that wait at a barrier, and lets all of them go in one step when they are
-- as many as its count; a pass of the processor over the sources is one phase, and a wait in a loop, by WFE
-- or nanosleep, can end at any time. A wait at endbarrier without initialisation has no defined end and is
-- taken to have none; the theorems on it ask for an idle core.
--
-- Fuel. mem_pass has the loop bound of memwork as fuel, which is more than the 5957 rounds of its loop.
-- The loops over read and write, and that of the sampler, recur on the list of the kernel's answers.
--
-- Not modelled: nullwork, which leaves nothing behind; failures of pthread, sigaction and malloc in
-- wfey.c; the shell scripts.
pub mod Prelude
pub mod Clock
pub mod Source
pub mod Config
pub mod Signal
pub mod System
pub mod Perf
pub mod Work
pub mod Main
pub mod CpuInfo
pub mod Pin
pub mod Hwmon
pub mod Sampler
pub mod Driver
pub mod Energy
pub mod Nap
pub mod BasicTests
mod Tests
