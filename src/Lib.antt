-- ===== src/Lib.antt =====
-- QuickComm, a TCP server in C++: an epoll event loop with a connection pool, a thread pool for
-- the messages, a send thread, a recycling thread and a timer thread.
--
-- The parts and how they interact. A listening socket's event takes a connection object from the
-- pool and sets a heartbeat timer for it. Read events feed the receive state machine of the
-- connection, which cuts the byte stream into packets and puts each into the queue of the thread
-- pool. A thread checks a packet's checksum and runs the handler of its code, which queues a
-- reply. The send thread walks through that queue; what the socket does not take at once goes out
-- on write events. A close bumps the connection's sequence number, which makes its messages stale,
-- and puts it into the recycling queue, from which it goes back to the pool after a wait. main()
-- reads the configuration, opens the sockets and may go into the background; then the master
-- process starts the workers, each of which has all of the above for itself. The second thread pool
-- of include/thread_pool.h is not used by the others.
--
-- The files.
--   Base            lists, bits, integers and Boolean tests that the others share
--   Misc.Crc        misc/qc_crc32.cc: Reflect, Init_CRC32_Table and Get_CRC
--   Misc.Threads    misc/qc_threadpool.cc: the pool of message threads, as moves of its threads
--                   and of the callers
--   Misc.TaskPool   include/thread_pool.h: the second thread pool, as moves
--   Net.Flood       net/qc_socket.cc: TestFlood
--   Net.Recv        net/qc_socket_request.cc: the read handler after recv(), with
--                   qc_wait_request_handler_proc_p1 and _plast; Frames is the framing it refines
--   Net.Timer       net/qc_socket_time.cc: the multimap of heartbeat checks
--   Net.Pool        net/qc_socket_conn.cc: connection objects, the free list, the recycling queue
--                   and a round of the recycling thread
--   Net.Address     net/qc_socket_inet.cc: qc_sock_ntop
--   Net.Server      net/qc_socket.cc: the state of CSocket, msgSend, zdClosesocketProc and
--                   qc_epoll_oper_event
--   Net.Server.Read net/qc_socket_request.cc, net/qc_socket_accept.cc, misc/qc_threadpool.cc: the
--                   handlers of read events, and the queue of received messages
--   Net.Server.Send net/qc_socket.cc, net/qc_socket_request.cc: sendproc, the send thread and the
--                   handler of write events
--   Net.Server.Events net/qc_socket.cc: qc_epoll_process_events, for what epoll_wait() answers
--   Net.Server.Start net/qc_socket.cc: ReadConf, the listening sockets and qc_epoll_init
--   Net.Server.Life net/qc_socket.cc: Initialize, Initialize_subproc, Shutdown_subproc and the loop
--                   of the send thread
--   Service         service/qc_slogic.cc, include/qc_logiccomm.h: the dispatch of packets, the
--                   message handlers and the heartbeat check
--   Service.Monitor net/qc_socket_time.cc: a round of the timer thread
--   Service.Worker  proc/qc_process_cycle.cc, net/qc_socket.cc: the threads of a worker, as whole
--                   steps that run one at a time
--   Proc.Signals    signal/qc_signal.cc: the table of signals, the handler, the loop over waitpid()
--   Proc.Daemon     proc/qc_daemon.cc: qc_daemon
--   Proc.Cycle      proc/qc_process_cycle.cc, proc/qc_event.cc: the master process, its workers, and
--                   how a worker begins
--   Proc.Main       app/QuickComm.cc: main() up to the master process
--   Public.Trim     public/qc_public.cc: Rtrim and Ltrim
--   Public.Format   public/qc_printf.cc: qc_sprintf_num and qc_vslprintf; Pieces is the language
--                   of formats and what each directive has to show
--   Public.Log      public/qc_log.cc: the lines of qc_log_error_core and qc_log_stderr,
--                   qc_log_errno and qc_log_init
--   Public.Config   public/qc_conf.cc: CConfig::Load, GetString and GetIntDefault
-- The other modules below these hold the proofs, and those called Tests the runs on concrete data.
--
-- How state is modelled. A connection's address is a number, and the pool maps addresses to
-- connection objects; a pointer into a buffer is a distance from its start. Functions that the
-- source runs under a lock are one step. Answers of system calls, the time and the content of new
-- memory are arguments. Counters of the source are kept beside the lists they count; counters of
-- type int do not wrap, while sequence numbers and times of the flood test wrap at 64 bits.
--
-- Fuel. The restarts of the recycling loop and of the deletion of timers take one entry out of a
-- list each, so its length is enough. A round of the formatter takes a character of the format,
-- and a round of the configuration's reader a character of the file, so their lengths are enough.
-- The loop of the timer thread has fuel as an argument.
--
-- Memory that the formatter and the configuration write into has its size in the model: a function
-- returns none where the code would write or read outside of it. The processor's arithmetic on
-- doubles is a record that the formatter takes as a parameter.
--
-- Not modelled: the process title, which is the layout of memory; the statistics that
-- qc_process_events_and_timers prints; and the wrappers of new, delete and of a mutex. Fixed texts
-- for the log are left out where the model has no log. The steps of a worker's threads are whole
-- ones: what a thread does between the parts of the handling of an event, a due timer or a message
-- by another one, which take locks for parts only, is left out, and so is a call
-- of StopAll between the test of m_shutdown in a thread of the pool and its wait.
pub mod Base
pub mod Misc
pub mod Net
pub mod Proc
pub mod Public
pub mod Service
