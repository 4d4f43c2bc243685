-- ===== src/Lib.antt =====
-- A verification library for the repository: the core of the xv6 kernel (xv6/kernel) with its MLFQ
-- scheduler, and of the interactive shell (c-shell).
--
-- The kernel keeps a table of 64 processes (proc.c). A process is made by a fork, waits on a channel by
-- sleep_prepare and sleep, is woken by wakeup or kill, and is chosen by the scheduler by queue and
-- arrival number; the timer tick counts its slice and boosts all processes every 48 ticks. Pipes
-- (pipe.c) wake their readers and writers through this table. File system calls change blocks in the
-- buffer cache (bio.c) and make them durable through the redo log (log.c); fs.c keeps the bitmap of
-- free blocks, directories and path names on these blocks, and file.c counts the references to open
-- files. Pages come from the free list of kalloc.c, and vm.c builds page tables of them; string.c
-- copies memory for all of them. A sleep lock (sleeplock.c) lets its waiters sleep. The shell reads a
-- line, cuts it into tokens (lexer.c), checks them (parser.c), cuts them into groups, stages and
-- redirections (pipeline.c, execute.c), and tracks the processes it starts in a job table (jobs.c),
-- which SIGCHLD events change.
--
-- Files and code:
--   Common      lists and tests on native numbers that the other modules share
--   Proc        proc.h and the globals of proc.c; Proc.Inv is the scheduling invariant
--   Proc.Mlfq   mlfq_enqueue, mlfq_boost_all, mlfq_maybe_boost, mlfq_tick of proc.c
--   Proc.Scheduler  the MLFQ branch of scheduler()
--   Proc.Sleep  sleep_prepare, sleep, wakeup, kkill, setkilled, killed, mlfq_priority_of
--   Proc.Life   allocpid, allocproc, freeproc, kfork, reparent, kexit, kwait
--   Log         log.c: initlog, recovery, commit, begin_op, end_op, log_write
--   Kalloc      kalloc.c: kinit, freerange, kfree, kalloc
--   Bytes       string.c: memset, memmove, memcmp, strncmp, strncpy, safestrcpy
--   Spinlock    spinlock.c: acquire, release, holding, push_off, pop_off
--   Sleeplock   sleeplock.c: initsleeplock, acquiresleep, releasesleep, holdingsleep
--   Vm          vm.c: walk, walkaddr, mappages, ismapped, vmfault, uvmunmap, uvmdealloc
--   Fs.Bitmap   fs.c: balloc, bfree, bzero
--   Fs.Path, Fs.Directory  fs.c: skipelem, namex, namecmp, dirlookup; dirlink
--   File        file.c: filealloc, filedup, fileclose
--   Grep        xv6/user/grep.c: match, matchhere, matchstar
--   Cache       bio.c: binit, bget, bread, brelse, bpin, bunpin
--   Pipe        pipe.c: pipewrite, piperead, pipeclose
--   Shell.Lexer, Shell.Parser  c-shell/src/lexer.c and parser.c
--   Shell.Pipeline  execute_pipeline, the stage loop of launch_group, strip_redirections, build_cmdline
--   Shell.Jobs, Shell.Events  jobs.c: the table, and the events
--   Shell.Peek  c-shell/src/peek.c: the printing of a file, forward and in reverse; Shell.Peek.Run is
--               run_peek, its flags and its files
--   Shell.Hop   c-shell/src/hop.c: hop and its database of directories
--   Shell.Resume  c-shell/src/resume.c: the arguments of resume and the resumed job
--   Shell.Outputs  the output registry of redirection.c
-- A module's children hold its proofs, and its Tests the runs on concrete inputs.
--
-- State and steps. A record holds what the code keeps in globals or in a struct, and a function takes
-- and returns it; a null pointer is `none`, a process is its index in the table, and a buffer, a job
-- or an entry of the output registry is its place. A panic is `none`. What happens while one lock is
-- held is one step, so that end_op of log.c is two with the commit between them; a call that would
-- sleep is cut there. The lexer's word buffer and the file arrays of exec_cmd are written without a
-- test in the code: a write behind them is a result of its own, `overflow` and `none`. Interleavings
-- are sequences of steps: Proc.Sleep.Lost lets wakeups, kills and boosts come between the two halves
-- of a sleep, Pipe.Steps takes any sequence of calls, Spinlock any schedule of harts, Log.Reserve any
-- order of file system calls, Log.Crash a crash between any two block writes, Sleeplock.Waiters any
-- rounds and releases of a sleep lock, File.References any opens and closes, and Shell.Events any
-- delivery of events.
--
-- Numbers are natural numbers with the wrap of the code written out: 2 ^ 32 for ticks, pids and the
-- counters of a pipe, 2 ^ 64 for arrival numbers. Theorems about arrival numbers ask for room below
-- 2 ^ 64, and those about pids for room below 2 ^ 32. A memory address does not wrap.
--
-- Fuel: `freerange_loop` has a round for each page of the range, and the lexer's outer loop one for each
-- byte of the line; `map_loop` has one for each page, `namex_loop` and `read_chunks` one for each byte of
-- the path or the file, and `scan_blocks` one for each block of the bitmap; all are shown to be enough.
-- The other loops recurse over their table or list.
--
-- Parameters: what Proc.Life asks of kalloc.c, vm.c, file.c and fs.c is its record Services; what
-- copyin and copyout answer comes with a pipe call; the disk of the buffer cache and the start of a
-- group of processes are functions, as are chdir, stat and realpath for hop; whether writei writes a
-- whole entry is an argument of `dirlink`. A block write is atomic.
--
-- Views. The flags of a page table entry are below 1024, so that an entry is a sum. A file of peek has
-- no NUL byte, and at most 100 are named. Paths of hop are shorter than PATH_MAX. namex sees of an
-- inode its type, its links and its entries; the locks and references that it takes and drops are left
-- out. Fs.Bitmap sees the blocks as the buffer cache shows them.
--
-- Not modelled: traps, devices, system call glue, and user programs but the matcher of grep; of vm.c
-- the kernel's page table, uvmalloc, uvmcopy and the copies between a process and the kernel; of fs.c
-- inodes and their blocks; of file.c the reads and writes; of proc.c the round-robin branch of the
-- scheduler, context switches, procdump and growproc; of the shell its builtins but peek, hop and
-- resume, prompt, terminal and main loop, and the system calls of launch_group. The wakeups in the calls
-- of pipe.c are left out of Pipe.
pub mod Common
pub mod Proc
pub mod Log
pub mod Grep
pub mod Kalloc
pub mod Vm
pub mod Fs
pub mod File
pub mod Bytes
pub mod Cache
pub mod Pipe
pub mod Spinlock
pub mod Sleeplock
pub mod Shell
