-- ===== src/Lib.antt =====
-- The programs of the course GTU CSE344: a model of their logic and what it guarantees.
--
-- The parts, and where each is modelled:
-- - Copy/Buffer.antt: the bounded buffer of the file copier, HW4/src/buffer.c and buffer.h. The
--   mutex makes each operation one step, so that `buffer_push`, `buffer_pop` and `buffer_set_done`
--   are functions from a buffer to an `Attempt`: the thread sleeps on a condition variable, or the
--   operation returns with a new buffer and a wake-up. `run` is a sequence of attempts by any
--   threads. A thread that is woken makes its attempt again, as the `while` around
--   `pthread_cond_wait` does.
-- - Copy/Crew.antt: the threads of the file copier, HW4/src/manager.c and worker.c: the manager,
--   which pushes the elements that `copy_directory` makes and then sets the end mark, and any
--   number of workers, as steps on one buffer. Each step on the buffer is an attempt of
--   Copy/Buffer.antt; a thread that sleeps is woken by a signal or a broadcast alone. POSIX lets a
--   thread wake without one, after which its attempt finds what it found before; such steps are
--   left out.
-- - Copy/Walk.antt: `copy_directory` (HW4/src/manager.c) over a tree of directories, to the
--   elements that the manager pushes; Copy/Bytes.antt: the loop of a worker over the pieces of a
--   file (HW4/src/worker.c); Copy/Program.antt: `main` up to the start of the threads, and
--   Copy/Time.antt: the time that it prints (HW4/src/210104004023_main.c).
-- - Copy/Barrier.antt: the copier of HW5/src, whose threads, the same as in Copy/Crew.antt, wait
--   for each other at a barrier before they end. Copy/Barrier/Store.antt has its buffer,
--   HW5/src/buffer.c, which carries the barrier; Copy/Program.antt has its `main` too.
-- - Server/Queue.antt: the queue of clients, Midterm/src/structs.c. The array has NULL, a client or
--   what `malloc` left at an index; whether `malloc` returns memory is the argument `Malloc`.
-- - Server/Sync.antt: the table of files and the reader-writer lock, Midterm/src/sync.c. `Table`
--   has `init_file`, `initialize` and `get_file` as functions on the table in shared memory, with
--   the results of `sem_init` as arguments; `Lock` has `reader_enter`, `reader_exit`,
--   `writer_enter` and `writer_exit` as steps of any number of processes, one step for each
--   operation on a semaphore; `Overlap` has the requests of several children to the table, in which
--   `init_file` goes on in steps, and `strcpy` and the search of `get_file` are one step each.
-- - Server/Request.antt: the commands of `request`, Midterm/src/server.c. A handler takes a
--   `World`, the two directories, the table, the calls made on locks and the answers sent, to an
--   `Outcome`: the loop goes on, or the process has ended. The results of the system calls of one
--   command are the argument `Os`. The handlers are cut where the code branches: `read_f` to
--   `send_line` are readF, `write_t` to `replace_placed` writeT, `upload` to `upload_copied` and
--   `download` to `download_copied` the two transfers, `arch_server` archServer. `Info` has help,
--   list and killServer, and `Command` the loop, from the line to its tokens and its command. The
--   handlers find the lock of a file by the functions of Server/Sync.antt. `Brackets` follows the
--   calls on locks through a session.
-- - Server/Accept.antt: a round of `accept_connections`, `child_process` and the handler of
--   SIGCHLD, Midterm/src/server.c, over two queues of Server/Queue.antt. What fork, the FIFO and
--   `malloc` return is the argument `Round`. Server/Accept/Signals.antt has the reads and writes of
--   `num_clients` in the same loop as steps of their own, with SIGCHLD between them.
-- - Server/Setup.antt: `main` of the server and the functions that set up its directory, log and
--   FIFO, Midterm/src/server.c, over the results of their calls; Server/Exit.antt: `exitParent`,
--   `exitFailure` and `exitSuccess`; Server/Whole.antt: rounds one after the other, then the exit.
-- - Server/Client.antt: `main` of the client, Midterm/src/client.c, over the results of its calls
--   before the loop (`Setup`) and in each round of it (`Round`); Server/Client/Killed.antt: its
--   handler `kill_child`; Server/Session.antt: its loop and the loop of `request`, connected.
-- - Copy/Whole.antt: the walk and the threads together.
-- - Grades.antt: the grade book, HW1/src/main.c. `Shell` has the state, the file name that is
--   current, the files, the terminal and the log, the results of the system calls `Os`, and the
--   frame of a command, a forked child for which the parent waits; a command leads to a `Next`: the
--   program goes on, quits or crashes. `Book` has `create_file`, `add_student_grade`,
--   `search_student` and the part of sortAll behind its menu, `Paging` showAll, listGrades and
--   listSome, `Tokens` and `Command` main from the line of input on. `Sort` has the four sorting
--   functions: a pass and the outer loop of the bubble sort are generic in the test, `strcmp` on
--   names or grades.
-- - Parking.antt: the parking lot, HW3/src/main.c: its owner, its two attendants and its signal
--   handler as steps on the shared state. What is done under the mutex is one step, and so is each
--   operation on a semaphore.
-- - Children.antt: HW2/src/main.c: the parent and its two children as steps over the bytes in two
--   FIFOs. An open waits for the other side, a read waits while the FIFO is empty and somebody
--   writes it, and bytes that nobody has open are gone. An `int` is its bit pattern of 32 bits.
--   Children/Program.antt has `main` as the parent goes through it, over the results of its calls,
--   with SIGINT and SIGTSTP between them, and Children/Program/Reaping.antt the handler of SIGCHLD as steps.
-- - Base.antt: shared helpers: Boolean tests, lists by native numbers, the ring of indices of both
--   queues, integers, the strings of the C library, and families indexed by processes.
--
-- Bounds and fuel: `send_chunks` and `copy_chunks`, the loops over pieces of 4096 bytes, have as
-- fuel one more than the length of the file; each round takes at least one byte off what is left.
-- So have `show_pieces` and `print_pieces`, over pieces of 35 bytes, and `copy_content`, over at
-- most 1024. The loop of `exitParent` has one more than the size of the queue, and takes a client out
-- in each round; the loop in which the parent of HW2 waits has 4, and its timeout ends it by then.
-- All other loops are structural. Numbers are unbounded: the counters stay below the capacities
-- here, and `num_clients` and `reader_count` are integers.
--
-- Parameters, as code that the sources call only: `malloc`, `sem_init`, the system calls and, in
-- the server, `atoi`. Memory that is read before it is written is an argument `stale`, or the slot
-- `uninit`.
--
-- Not modelled: messages on the terminal; the log of the server while it serves a client; what a
-- process of the server does on its way out of a command; the signal handlers of HW4 and HW5,
-- which clean up and exit; the failures of the children of HW2, and so SIGPIPE in its parent; a
-- child of the server that is stopped and not ended. In the threads of HW4 and HW5 a file counts
-- as copied when its worker has gone through the loop of copying for it, whatever read and write
-- return; Copy/Bytes.antt has that loop. The walk of HW5 is that of HW4 line by line, and the tree
-- that is copied does not change meanwhile. What happens behind an overrun of an array is not
-- modelled: the search of readF for a line is that of files with lines below 4096 bytes, file
-- names fit their arrays, a write past the array of 100 students of sortAll is `overrun`, and an
-- answer comes in pieces below 4096 bytes. In the grade book the product of the two numbers of
-- listSome is in the range of an integer.
pub mod Base
pub mod Copy
pub mod Server
pub mod Grades
pub mod Parking
pub mod Children
