-- ===== src/Lib.antt =====
-- A verification library of parallel_wrapper, the program that HTCondor's parallel universe starts on
-- every node of a job. The processes talk over UDP: rank 0, the master, collects REGISTER messages
-- and keeps a table of the machines; it sends QUERY messages and expects an ACK for each; TERM ends
-- the slaves, and CREATE_LINK makes a symbolic link on them.
--
-- The files:
--
--   Base          what every part uses: tests on the native numbers, lists (Lists), byte strings
--                 (Text), and the machine integers (Int)
--   StringUtil    src/string_util.c. Tokens is `strsplit` and `count_tokens`, Integer
--                 `parse_integer`, Quotes `remove_quotes`, Trim `trim`, Paths `join_paths`; Shift
--                 has what Quotes and Trim share: bytes that are moved down inside one buffer
--   System        what is asked of the operating system and of the C library
--   Sll           src/sll.c
--   Wrapper       include/wrapper.h. Action is a function of the program on the state: it ends by a
--                 value, by `return`, by `exit`, or by a crash. Machines is the loop over the table,
--                 Invariant what holds between two messages, Ensures and Completes rules for proofs
--   NetworkUtil   src/network_util.c: addresses, and sending a string. Interfaces is `get_ip_addr`, with
--                 Usable for what it keeps, Choice for what it chooses, and Answer for both by the list
--                 alone; Sockets is the binding of a port, with Range for the attempts and First for
--                 which port it is
--   UdpClient     src/udp_client.c: the messages
--   Scratch       src/scratch.c: the removal of the scratch directory; Create is its creation and the
--                 files in it, Files and SshConfig what they contain, Removal what is removed
--   Cleanup       src/cleanup.c
--   UdpServer     src/udp_server.c. Message has what the handlers share; Ack, Term, CreateLink and
--                 Register are the handlers; Dispatch is their table, `process_message`,
--                 `keep_alive`, and the service of a datagram; Loop is `udp_server`. The proofs:
--                 Safety (the invariant, and that a slave crashes at most), Authority with
--                 OnExit and NoExit (who ends a process), Ack.Effect, Ack.Slave, Ack.Stranger and
--                 Register.Effect with Runs (what a run changes), Wire (messages from the client's print to the
--                 handler), KeepAlive (the check after the sleep), Kept (what all steps of the server
--                 keep is kept by the server), and with it Links (which links are made and removed);
--                 Allowed is what is assumed of the answers that the server gets
--   Timer         src/timer.c. Firing is when a timer fires, Chain the list behind the pointers, Next
--                 the soonest firing
--   Chirp         src/chirp.c; Attributes is src/chirp_util.c. Cleaned is what is read back of a
--                 number or a quoted address, Rendezvous how a slave finds its master
--   Args          src/parse_args_env.c: Bounds is what options can set, SearchPath the new `PATH`
--   Main          src/main.c: Prepare is the set-up, with Stages and Valid for what holds after it;
--                 Waiting is the wait for the other ranks, with Times for what it reads and Rounds for
--                 how it ends; Hosts is the marking of unique hosts, with Flags for the marks alone,
--                 Marked for the machines, and First for the outcome;
--                 SharedFs is the test for a shared file system; Child the environment of the
--                 child, with Cpus for what it reads there; Answers has the loops that wait for an
--                 ACK, with Heard for how they end; Job is the rest of `main`, with Ending for the
--                 end of the master; Fresh and Connect are what holds when the listener starts, and
--                 Served what holds from there on
--   Executable    src/executable.c
--   Log           src/log.c: where a message goes
--   Tests         a job of three processes, and the theorems at concrete messages
--
-- A `char *` that may be NULL is an `Option` of a list of bytes; the bytes of a C string are those
-- before its NUL. Where the code works inside a buffer, the model has the buffer, with its NUL and
-- what stands behind it. An `int` is a value of ℤ, and wraps where the code narrows a `long`. A
-- `machine *` is a position of the heap, so that `this_machine`, `master` and `machines[0]` can be one
-- machine. A handler is a sequence of actions in the order of the code, with the code's return codes;
-- a NULL pointer that is followed, an index outside the table, a division by 0, and a call of `print`
-- whose arguments do not fit its format, are a `fault`.
--
-- `Os` has one answer for each thing that a handler asks: whether memory is found (one answer for all
-- of `malloc` in a handler, one for each `strdup` of `handle_register`, and one for each allocation of
-- `strsplit`), the time, the texts of addresses, and the results of the system calls. A theorem holds for
-- all answers, but for those that it names. What is sent, linked or removed is kept as a trace. The code
-- that `exit` is called with is kept whole: the system keeps its low 8 bits. The products in src/timer.c
-- are `long`s of 64 bits that wrap.
--
-- Loops are recursion on the list they run over, or on fuel where an index moves; the fuel is the
-- length of the string, and each round moves the index on. The theorems about `remove_quotes` and
-- `trim` show that this is enough, since they give the result for every string.
--
-- The fuel of `remove_timer` and `next_timer` is the number of timers and one more, the fuel of the
-- master's wait the seconds of its timeout and one more; the loop in which a slave asks for its master
-- has no bound in the source, and the model says when its rounds have run out.
--
-- The Chirp client library, `getopt_long`, `getenv`, `getifaddrs` and the calls on sockets and files
-- are parameters: records with one answer for each question.
--
-- The loops that repeat a message until it is acknowledged have no bound in the source either: a list of
-- rounds is their fuel, and a run that has used it up says so.
--
-- Not modelled: threads that interleave inside a handler or inside a step of `main`, and so the mutexes;
-- the waiting in `select` and `sleep`, beyond what the listener does meanwhile; the version of
-- `get_ip_addr` that the preprocessor leaves out; the pthread attribute of src/threads.c; the calls
-- of `print` and `debug` in the other parts, but for the one in `handle_ack` that crashes; a signal that
-- comes while `main` waits for the ranks or for an answer.
pub mod Base
pub mod System
pub mod StringUtil
pub mod Sll
pub mod Wrapper
pub mod NetworkUtil
pub mod UdpClient
pub mod Scratch
pub mod Cleanup
pub mod Chirp
pub mod Executable
pub mod Log
pub mod Args
pub mod Main
pub mod UdpServer
pub mod Tests
pub mod Timer
