-- ===== src/Lib.antt =====
-- The programs of a Linux system programming collection, modelled and verified. Paths are from the
-- root of the repository.
--
-- Each program is a process above the kernel. The kernel is not part of the repository, so a
-- program is a function of the list of answers that the kernel gives to its calls, one after the
-- other (`Posix.antt`). It yields a result or a way to stop (a call that is not answered yet,
-- `errExit`, `fatal`, `exit`, an access outside a buffer), together with the trace of the calls made
-- and their answers. Statements hold for every list of answers that they do not restrict, failing
-- calls, short writes and interrupted calls included. A loop of a program runs on fuel, one unit
-- more than there are answers left; every round takes an answer, and the rule of `Posix/Loop.antt`
-- shows that the fuel never runs out. Where processes or threads share memory, the program is a
-- step relation, with one step for each call or access, and a statement holds for all
-- interleavings.
--
-- Posix.antt, Posix/Rules.antt, Posix/Loop.antt, Posix/Held.antt: calls, answers, outcomes, and the
-- rules by which the proofs follow a program call by call.
--
-- Net.antt and below: LinuxAPI2/socket_inet_domain.c, LinuxAPI2/socket_unix_domain.c,
-- LinuxAPI2/ipc_pipe.c, LinuxAPI2/socket_echo_server_example.c,
-- LinuxAPI2/socket_echo_client_example.c, and file_open_read_write of LinuxAPI/file_io.c
-- (Net/FileCopy.antt).
--   Net/Traffic.antt: what a trace says of bytes moved and descriptors held.
--   Net/Copy.antt: the loop that reads from one descriptor and writes to another; the servers,
--   clients, pipe children and the file copy share it.
--   Net/Server.antt, Net/Client.antt: socket_inet_domain_stream_server, its client, and those of
--   the unix domain; Net/Streams.antt: all of these. Net/Pipe.antt: ipc_pipe and
--   socket_pair_sample. Net/Resolve.antt: the loops over the addresses of getaddrinfo in
--   `listener`, `connector` and the `_v2` programs.
--   Net/Datagram.antt: the datagram servers and clients. Net/Echo.antt: signal_handler, echo,
--   socket_echo_server and socket_echo_client. Net/Echo/Serves.antt: the server and its children.
--   Net/Tests.antt, Net/Echo/Tests.antt: runs.
--
-- Shm.antt and below: LinuxAPI2/ipc_systemv_shm_writer.c and
-- LinuxAPI2/ipc_systemv_shm/ipc_systemv_shm_reader.c, two processes in any interleaving.
--   Shm/Terminal.antt: what the terminal shows where writes are short or fail.
--   Shm/Invariant.antt: there is one turn, and who has it. Shm/Transfer.antt, Shm/Liveness.antt:
--   what the two achieve. Shm/Tests.antt: a run.
--
-- Threads.antt and below: LinuxAPI2/pthread_sync.c, pthread_sync and
-- pthread_sync_error_checking_mutex, with the main thread and two others in any interleaving.
--   Threads/Views.antt, Threads/Invariant.antt: what one thread and all of them keep to.
--   Threads/Result.antt, Threads/Progress.antt, Threads/Deadlock.antt: the results.
--   Threads/Tests.antt: a whole run.
--
-- SystemV.antt and below: LinuxAPI2/ipc_systemv_sem.c (SystemV/Sem.antt),
-- LinuxAPI2/ipc_systemv_msg_server.c and LinuxAPI2/ipc_systemv_msg/ipc_systemv_msg_client.c
-- (SystemV/Msg.antt). SystemV/Tests.antt: runs.
--
-- Daemon.antt and below: LinuxAPI/process_daemonize.c; Daemon.antt is become_daemon and
-- Daemon/Log.antt the log and the loop of process_daemonize. The text of a message is computed
-- digit by digit, and the number itself is fuel enough. Daemon/Table.antt is make_daemon of
-- api3/process_manage.c, over the table of open files. Daemon/Tests.antt: runs.
--
-- Popen.antt and below: ipc_pipe_popen of LinuxAPI2/ipc_pipe.c.
--
-- Cond.antt and below: LinuxAPI2/pthread_condition_variable.c, two producers and the main thread.
--   Cond/Views.antt, Cond/Invariant.antt, Cond/Preserved.antt, Cond/Whole.antt: what they keep to.
--   Cond/Conserved.antt, Cond/Wakeup.antt: the results. Cond/Tests.antt: a run.
--
-- PosixSem.antt and below: LinuxAPI2/ipc_posix_unnamed_sem.c. PosixSem/Refines.antt compares it with
-- Threads.antt. PosixSem/Tests.antt: a run.
--
-- Reap.antt and below: LinuxAPI/process_wait_by_signal.c; Sync.antt and below:
-- LinuxAPI/process_sync_by_signal.c. A parent, its signal handler and its children, in any
-- interleaving. Sync/Masked.antt: the signal mask at each place. Sync/Order.antt: the result.
--
-- Inotify.antt and below: event_func and inotify_example of api3/file_directory.c. The loop over the
-- buffer has one unit of fuel more than the bytes read; every event takes 16 of them at least, and
-- `Inotify/Report.antt` shows that more fuel changes nothing. Inotify/Format.antt: the bytes of
-- events. Inotify/Failure.antt: how a run ends. Inotify/Tests.antt: a run.
--
-- FileEvent.antt and below: LinuxAPI/file_event.c, over the same events. FileEvent/Batches.antt: what
-- is shown of several reads. FileEvent/Tests.antt: a run.
--
-- Modes.antt and below: get_stat and chn_access of api3/file_directory.c. Modes/Permissions.antt reads
-- the nine letters back. Modes/Tests.antt: a file.
--
-- PosixMq.antt and below: ipc_posix_mq_read_by_signal of LinuxAPI2/ipc_posix_mq.c, with any senders, in
-- any interleaving; the queue does as mq_notify(3) documents. PosixMq/Notified.antt: who is woken, and
-- who is not. PosixMq/Threads.antt: ipc_posix_mq_read_by_thread. PosixMq/Listeners.antt: both.
-- PosixMq/Tests.antt: runs.
--
-- MutexPair.antt and below: mutex_example of api3/pthread_lock.c. MutexPair/Sums.antt: one piece of
-- data and its threads. MutexPair/Printed.antt: the whole program. MutexPair/Tests.antt: a run.
--
-- Wait.antt and below: LinuxAPI/process_wait.c, and fork_exec_wait and system_sample of
-- api3/process_manage.c. Wait/Status.antt: what is printed of a status. Wait/Children.antt: the five
-- children of process_wait. Wait/Tests.antt: runs.
--
-- Memory.antt and below: api3/mem_alloc.c. Memory/Owned.antt: blocks of memory. Memory/Paths.antt: the
-- paths on the stack. Memory/Tests.antt: runs.
--
-- Cancel.antt and below: LinuxAPI2/pthread_cancellation.c, a thread cancelled at any point.
-- Cancel/Blocks.antt: which blocks are live. Cancel/Tests.antt: a run.
--
-- Suspend.antt and below: LinuxAPI/signal_suspend.c, with signals at any time. Suspend/Phases.antt and
-- Suspend/Masked.antt: what holds at each place. Suspend/Kept.antt: SIGQUIT is not lost.
-- Suspend/Ends.antt: the loop ends. Suspend/Accept.antt: LinuxAPI/signal_suspend_sync.c.
-- Suspend/Tests.antt: runs.
--
-- Fifo.antt and below: LinuxAPI2/ipc_fifo_server.c and LinuxAPI2/ipc_fifo/ipc_fifo_client.c.
-- Fifo/Requests.antt: what the server prints. Fifo/Greetings.antt: what comes through from clients.
-- Fifo/Tests.antt: a run.
--
-- FileLock.antt and below: LinuxAPI2/file_lock.c. FileLock/Held.antt: the lock on a file.
-- FileLock/Region.antt: the lock on a region. FileLock/Tests.antt: a run.
--
-- Directory.antt and below: LinuxAPI/directory_link.c. Directory/Listing.antt: what is printed, and how
-- a run ends. Directory/Tests.antt: a run.
--
-- Vector.antt and below: file_scatter_gather of LinuxAPI/file_io.c and api3/fileio_readv_writev.c.
-- Vector/Scatter.antt: several buffers as one. Vector/Lines.antt: the lines that come back.
-- Vector/Tests.antt: runs.
--
-- ThreadBuffer.antt and below: LinuxAPI2/pthread_safe.c, two threads and the memory that they share.
--   ThreadBuffer/Apart.antt: which addresses a step changes. ThreadBuffer/Stages.antt: a thread at
--   each place. ThreadBuffer/Own.antt: the result. ThreadBuffer/Tests.antt: runs.
--
-- SigIo.antt and below: alt_io_signal of LinuxAPI2/alt_io_sample.c, with input at any time.
--
-- Multiplex.antt and below: alt_io_epoll of LinuxAPI2/alt_io_sample.c (Multiplex/Epoll.antt), and
-- api3/fileio_select_poll.c (Multiplex/Waiting.antt). Multiplex/Tests.antt: runs.
--
-- FileIo.antt and below: api3/fileio_read_write.c and fileio_stdio_read of api3/fileio_stdio.c.
--   FileIo/WholeFile.antt: the reading loop. FileIo/Options.antt: each option.
--   FileIo/FirstLine.antt: the loop over the characters of a line. FileIo/Tests.antt: runs.
--
-- Not modelled: the programs of LinuxAPI, LinuxAPI2 and api3 that no entry above names, and
-- ipc_pipe_stdinout; of the files that are named in part, the functions that only make one library
-- call after the other or print its result; the layout of the socket addresses and of other
-- structures that a program only fills and hands to a call;
-- what the terminal does with output, but for short and failed writes to it in Shm.antt;
-- errExit, fatal and errMsg of LinuxAPI2/error, which belong to another library and are taken as the
-- end of the process and as output; the generated build files.
pub mod Base
pub mod Posix
pub mod Net
pub mod Shm
pub mod Threads
pub mod Cancel
pub mod Cond
pub mod Daemon
pub mod Directory
pub mod Fifo
pub mod FileEvent
pub mod FileIo
pub mod FileLock
pub mod Inotify
pub mod Memory
pub mod Modes
pub mod Multiplex
pub mod MutexPair
pub mod Popen
pub mod PosixMq
pub mod PosixSem
pub mod Reap
pub mod SigIo
pub mod Suspend
pub mod Sync
pub mod SystemV
pub mod ThreadBuffer
pub mod Vector
pub mod Wait
