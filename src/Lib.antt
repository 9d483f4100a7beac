-- ===== src/Lib.antt =====
-- Verification of the native QA execution layer (native/).
--
-- The program runs an untrusted candidate. A launcher sends a framed RUN request to a supervisor,
-- which sets up a sandbox, starts the candidate, watches its output, memory and time, and answers
-- with a STARTED frame and then one terminal frame, a RESULT or an ERROR. The Lua program above it
-- (proc17.lua, runtime/ and the like) is not modelled.
--
-- Parts, with the file that models each and the code it follows:
--   Sha256    native/proc17_sha256.c: the digest, incremental and at once, and its hex form
--   Wire      native/proc17_qa_wire.h: integers, the envelope of a frame, the RUN v1 payloads
--   Stream    native/proc17_qa_stream.c: the observer of standard output and standard error
--   Phase     native/proc17_qa_phase.c: the first cause, finality, and the STARTED frame
--   Status    native/proc17_qa_status.c: private packets between controller and candidate
--   Controller native/proc17_qa_controller.c: resolution of an epoch, the candidate's clock
--   Allocator native/proc17_qa_allocator.c: the candidate's allocator and its telemetry
--   Scratch   native/proc17_qa_scratch.c: the walk over the scratch directory, its measurement
--   Launcher  native/proc17_qa_launcher_v1.c: the machine that takes the frames of a run
--   Report    native/proc17_qa_report.c: the controller's report, its tests, the terminal frame
--   Policy    native/proc17_qa_policy.h: the limits of a run
--   Supervisor native/proc17_qa_supervisor.c: requests, the digest of the executable, how a run ended
--   Repository native/proc17_repository_fs.c: paths, texts, creating and reading files
-- Wire uses Sha256 for the digest of a frame. Stream hashes with it and writes the measurement that
-- Wire tests. Phase sends through Wire, Controller claims causes through Phase, Status carries the
-- identity that Phase makes a token for. Report takes what Controller, Stream, Scratch and Allocator
-- measured and writes the frame that Launcher takes. Supervisor parses requests of Wire and concludes
-- the terminations of Report. Repository, the provider of the Lua program's files, stands alone.
-- Base has the shared tests, lists and bits, Memory the blocks of C memory, System what the system
-- returns, Tests the runs at concrete inputs.
--
-- Conventions:
--   A block of memory is a function from offsets to bytes, with its length beside it as in C.
--   Pointers are to valid memory, so a guard against NULL has no counterpart, unless NULL has a
--   meaning (the allocator's pointer, a descriptor of -1), which is none of an Option.
--   A local array that is written before it is read starts with zeros.
--   size_t has 64 bits. An unsigned value is a number, cut by `%` where the code may wrap around.
--   Results of the system (read, write, close, clock_gettime, malloc and the like) are arguments.
--   A call that is repeated while a signal interrupts it gets any finite number of interruptions.
--   The reads of a file may see it change in between: each gives bytes of its own.
--   A function that returns -1 or 0 gives none or some; one that keeps a changed state gives both.
-- Fuel: the loops of the digest's update and of the launcher's machine have the length of their input,
-- of which each turn takes a byte or more, and so has the test for UTF-8. The loops that write and
-- read a file have their bytes and 64 interruptions and one more, the loop of the executable's digest
-- has the ceiling and 2; all other loops are structural.
--
-- Not modelled: calls that only reach the system (mmap, mprotect, socketpair, sigaction, fcntl),
-- the set-up of namespaces, mounts and filters and the controller loop in
-- native/proc17_qa_supervisor.c, the probe and the first protocol in
-- native/proc17_qa_launcher.c, the inventory in native/proc17_repository_fs.c,
-- the capture of the scratch baseline and the poll loop of the launcher.
pub mod Base
pub mod Memory
pub mod System
pub mod Sha256
pub mod Wire
pub mod Stream
pub mod Scratch
pub mod Phase
pub mod Status
pub mod Controller
pub mod Allocator
pub mod Policy
pub mod Report
pub mod Repository
pub mod Supervisor
pub mod Launcher
pub mod Tests
