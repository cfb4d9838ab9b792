-- ===== src/Lib.antt =====
-- A simulator of CPU scheduling. A workload of processes, each an arrival and a list of CPU and I/O
-- phases, runs under one of several policies on a number of cores; the result is a timeline for
-- each core and the start and the completion of each process.
--
-- The engine (src/engine/engine.c) owns time. In each round of its loop it asks the policy for
-- slices while cores are free, places them, moves to the next event, and handles everything that
-- happens then: arrivals, ends of I/O, ends of slices, ends of context switches, interruptions. A
-- policy (include/sched/policy.h, src/policies) is a table of hooks over a private state. It holds
-- the ready processes, and the engine holds all others. The policies keep them in a binary heap
-- (src/util/heap.c) or in a ring (src/util/queue.c). A workload (src/engine/workload.c) is built by
-- pushes and validated once, before a run.
--
--   Util/Checked.antt: include/sched/checked.h. A value of type int64_t is an integer; IsI64 is
--     its range.
--   Util/Heap.antt: src/util/heap.c, the items as a list and the comparison as a function.
--     Heap/Order has the heap order, Heap/Push, Heap/Pop and Heap/Content the theorems.
--   Util/Bits.antt: the mixing of 64 bits of src/policies/priority.c.
--   Util/Ring.antt: src/util/queue.c. Ring/Refine relates a ring to the list that it holds.
--   Core.antt, Workload.antt: include/sched/core.h and src/engine/workload.c, function by
--     function. Workload/Phases has the sums of validation, Workload/Distinct its check for equal
--     pids.
--   Policy.antt: include/sched/policy.h. A hook that may be NULL is an option. Policy/Contract
--     states what the engine relies on.
--   Policies: one file for each of src/policies/fcfs.c, rr.c, sjf.c, srtf.c, stride.c, cfs.c,
--     mlfq.c and priority.c. Policies/Contracts is about the contract, for all of these but MLFQ;
--     Policies/Prio/Tree has the treap of src/policies/priority.c, Prio/Shape, Split, Erase and
--     Searches its theorems, Prio/Sound and Hooks the invariant of the policy, Prio/Effective,
--     Least and Deadline the effective priority, and Prio/Runs its runs under the engine;
--     Policies/Heaps is about the order in which stride, CFS, SJF and SRTF pick,
--     Policies/Mlfq/Rules about the pick of MLFQ. Policies/Vruntime is about vruntime_delta of
--     CFS, and Policies/Fraction has cmp_fraction of src/policies/hrrn.c.
--   Engine: src/engine/engine.c. State has the data, append and add_time; Step the operations on
--     one process; Dispatch the placement, process_instant and next_event; Run the checks, the
--     loop and sim_run. Timeline is about append, and Census about where the processes are:
--     Census/Order has the order of arrival, Due and Ended what moves at an instant, with Alike,
--     and Finish the test of the loop.
--   Input: src/io/input.c over the bytes of a stream. Text has the integers and the pieces of a
--     text, Tokens the interactive format, Csv the header and the rows, Files the lines of a file.
--     Decimal, Header and Rows are about these, and Accepted and Reports about whole files.
--   Cli.antt: of src/cli/main.c, load_workload over a file system that is a parameter, and the
--     options of MLFQ with finish_mlfq. Cli/Loads and Cli/Levels are about these.
--   Metrics.antt: the makespan and the nearest rank of src/metrics/metrics.c.
--   Base: what the parts share: tests on numbers, lists, integers, sorting, sums of a weight.
--   Tests: runs of the model, and the theorems at concrete inputs.
--
-- The census is the invariant of the engine. It adds up a weight over every place in which a
-- process can be: not yet arrived, ready at the policy, blocked, picked but not yet placed, on a
-- core, completed. An engine is balanced when the sum is that of the order of arrival for every
-- weight, so that each process is in exactly one place; when moreover the number of completions is
-- right and the policy is in a good state.
--
-- Times and counters are natural numbers, since validation and the checked additions keep them from
-- 0 to INT64_MAX; a subtraction is written where the source makes one that is not negative. The
-- loops of the heap run on fuel: the length of the heap for a pop, one more for a push. The
-- comparison of fractions runs at most once for each unit of its first denominator, and one round
-- more. The loop that doubles a capacity has 65 rounds, which pass 2 to the 64. The loop over
-- arrivals runs at most once for each process, and that over wake-ups at most once for each blocked
-- process. The event loop takes its fuel as an argument, and answers none where it runs out, so
-- that a result is never one that the fuel cut short; that some fuel is enough is not proved, and
-- the theorems about the loop are about any number of its rounds instead. The assertion that there
-- is a next event is left out.
--
-- Numbers of type double are a parameter with the operations that the source uses, and the
-- allocation of a workload's arrays is a parameter that grants or refuses each size. The treap's
-- arrays are read as one tree of process indices, each linked from one place; the indices of equal
-- pids would make it lose processes, and validation excludes them. A search that would follow NIL
-- in the code stops in the model, and the invariant excludes it. Other allocations are taken to
-- succeed. Error messages are left out; the status is kept. qsort is a sort by insertion. Of the C
-- library's text functions the parser's uses are modelled, in the C locale: strtoll with its
-- limits, isspace, tolower, fgets with a buffer of 4096 bytes, and a string ends at the byte 0.
-- Prompts are left out. Not modelled: the rest of HRRN, the policies lottery and optimal non-
-- preemptive (src/policies/hrrn.c, lottery.c, optnp.c), the lookup of a policy by name
-- (src/policies/registry.c), the other metrics, which are of type double, the output
-- (src/io/output.c), the other options, and the files that src/cli/main.c writes, which are input
-- and output.
pub mod Base
pub mod Util
pub mod Core
pub mod Workload
pub mod Policy
pub mod Policies
pub mod Engine
pub mod Input
pub mod Cli
pub mod Metrics
pub mod Tests
