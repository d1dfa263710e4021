-- ===== src/Lib.antt =====
-- The judge engine of Deep_OJ, src/core/worker: it compiles an untrusted C++ program and runs it
-- once, in namespaces, a root of its own, under limits and system call filters, and judges how the
-- run ended.
--
-- The parts, and how they work together. `Sandbox::Run` (sandbox.cpp) opens the files of the run,
-- clones a child, puts it into a cgroup (cgroup_manager.cpp), watches it in a loop, and turns its
-- wait status, its usage and the size of its output into a `RunResult`. The child `RunChildFn` and
-- that of a compilation, `CompileChildFn` (both sandbox_isolation.cpp), set up the isolation step
-- by step, load a filter (seccomp_rules.cpp) and become the program or the compiler. A child tells
-- its parent of a failure by its exit code, and by a marker in the file of its errors.
--
-- Which file models what:
--   Common       helpers: lists, the integers of C++ with their wrap-around written out (`to_int`,
--                `to_long`, `to_unsigned`), texts as UTF-8 bytes, the number readers of the
--                standard library, `std::filesystem` paths.
--   Types        sandbox.h and sandbox_internal.h: results, exit codes, configuration, arguments.
--   Platform     what comes from the machine and from libc: arithmetic on double, texts of errors
--                and signals, the parts of a device number.
--   Os           Calls: the system calls with their replies; Flow: a piece of the program as a
--                function of an environment and of the history so far; Trace: which calls have
--                succeeded, in which order; Tidy, Yields, Balance, Orphans: invariants of the
--                history; Owner: classes whose objects own something, and their moves.
--   Sandbox      sandbox.cpp: RequestId (IsValidRequestId), ExitStatus (GetExitCodeDescription,
--                ExitCodeToSandboxError), Marker (ReadRunExecFailureMarker and the writer in
--                ExitRunExecError), Guard (ProcessGuard, AutoCloseFd), Watch (the loop of Run), Run
--                (the rest of Run), Verdict (what Run does behind the loop), Workspace (the
--                constructor, Cleanup, DirectoryGuard), Compile (Compile).
--   Seccomp      seccomp_rules.cpp: both filters as lists of rules, and how they are loaded.
--   Isolation    sandbox_isolation.cpp: Rootfs (SetupRootfs, EnsureParentDir), SetupError
--                (ExitSetupError), Descriptors (the closing of descriptors), RunChild (RunChildFn),
--                CompileChild (CompileChildFn).
--   Cgroup       cgroup_manager.cpp: the operations of CgroupManager; Files (WriteToFile,
--                ReadFromFile), Kill (KillAllProcesses).
--   Config       config.cpp: `LoadConfig` over the interface `Yaml`; Loading (the ways in which it
--                gives up), Meaning (what a document means, said without the code).
--   Main         main.cpp behind the loop over the options: the check of the configuration, the
--                modes, and the line of JSON; Options (the loop and `main` as a whole), Sets (what
--                an option sets).
--
-- The proofs stand in the modules named for what they prove: Correct, Lockdown, Confinement,
-- Permits (the filters), Descriptors, Directory and Guards (what a request leaves behind),
-- Reaping (no child is left), Signals (whom signals are sent to), Closing and BaseName
-- (descriptors and names in the new root), Fitting, Child and Exec (how a failed child is
-- judged), Moves (moved guards), Contents and Limits (what a cgroup's files hold), Polling (what
-- the loop learns of the memory), Clock, Live and Termination (the loops end), Liveness and Ends
-- (so does the process), Controllers (what is enabled), Numbers and Printed (what is read from
-- the kernel's files), Sound and Complete (what a document means is what is loaded), Parsing (the
-- options), Leftovers (what the process leaves), Answers, and Quiet (what the parts of the parent
-- leave alone). Os has the rules for them: Tidy and Yields (invariants and results), Orphans
-- (children that are not waited for), Signals (processes known to run), Sweeps (descriptors
-- closed one by one). The theorems at concrete inputs stand in Tests and below it.
--
-- The system is a function from the history of calls to the next reply. It is a parameter of all
-- definitions and may answer anything at any time, so the theorems hold for all failures and all
-- orders of events that the replies can express. A run ends by a return, an exit, an exec, an
-- exception, or in want of fuel. Four loops of the source take fuel: the wait loops of
-- ProcessGuard, which go on while a wait is interrupted; the loops of Run and Compile, which go on
-- while the child runs; the reading of numbers from cgroup.procs, whose fuel is one more than the
-- length of the text, of which each round reads a byte at least. For the loop of Run, one more
-- than a tenth of the time limit and a second, in ms, is enough where no wait is interrupted and
-- the clock is steady, since a round sleeps 10 ms at least; for that of Compile, whose rounds
-- sleep 50 ms, one more than a fiftieth. All other loops go through a list.
--
-- Bounds: the integers are those of a 64-bit Linux, int of 32 bits and long of 64; a char array of
-- n bytes keeps n - 1 of what is written to it. The logging to std::cerr is not modelled, nor the
-- memory of the child's stack. A file is read and written by one call.
--
-- An exception goes up through the destructors to a caller that catches it, and the theorems on
-- Run and Compile say what such a caller finds. Nothing in the program catches what leaves them:
-- behind a throw `main` ends where it was raised, by std::terminate and without a destructor, as
-- GCC does it; the language leaves the unwinding open. The JSON library writes a line or throws,
-- where it refuses a text; which texts it refuses is a parameter. A write of a file gives -1
-- where the file cannot be opened, and another number but 0 where it fails later.
--
-- yaml-cpp and getopt are not part of the repository. A `Yaml` is any reading of texts as documents
-- with nodes, lookups and conversions, each of which may fail; that a lookup on a node that is
-- not const may add an undefined entry to the document is not seen by later lookups. The options
-- are the list of what `getopt_long` returns.
--
-- A string that was moved away may hold anything. Objects that are assigned to each other stand in
-- a store by their addresses.
--
-- Not modelled: the texts of exceptions of std::filesystem. The services in Go around the engine are
-- not part of this library.
pub mod Common
pub mod Types
pub mod Platform
pub mod Os
pub mod Sandbox
pub mod Seccomp
pub mod Isolation
pub mod Cgroup
pub mod Config
pub mod Main
mod Tests
