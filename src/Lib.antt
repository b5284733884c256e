-- ===== src/Lib.antt =====
-- A model of the framework for message-driven processes in src/ (the paths below are from the
-- repository's root): sockets with buffers, the epoll state machine that drives them, timers, threads,
-- messages and the command shell, and the two programs built on them, an echo server and its client.
--
-- The parts and their files
-- - Common: Boolean tests, conditionals, lists and integers over the native numbers, and results. A
--   `Result` is a value or a `Fault`: an assertion that fails, an access past an array, signed
--   overflow, an exception that nothing catches, or fuel that ran out.
-- - Memory: an array is a list of cells, `none` where nothing was stored yet; `memcpy`.
-- - SocketBuff: `CPngConnBuf` of src/xma_socket_cache.h, with `copyBuf`, `expand`, `setNewSize`,
--   `addIndex`, `shrinkFromFront` and `checkCanOp`. `contents` is its abstract view.
-- - Sys: the Linux calls that the sockets use, as parameters. `SysLaws` states what send(2) and
--   recv(2) do with the bytes of a stream, `FdLaws` which calls make and close descriptors.
-- - Epoll: `EpollListener` and `Epoll` of src/xma_epoll.cpp. The one epoll object of a thread is its
--   counter, in `Env`, beside the state of the kernel. Process.Uses is the object with all of its listeners,
--   which take steps in any order.
-- - Socket: the data of `Socket` and `StreamSocket` in src/xma_socket.h.
-- - Stream.Tx, Stream.Rx: the writing and the reading side of `StreamSocket` in src/xma_socket.cpp
--   (`Write`, `DoWrite`, `WriteMsg`; `Read`, `DoRead`, `ReadMsg`, `OnRead`),
--   with `SetRxSize` and `SetTxSize` (Stream.Sizes).
-- - Machine: `Socket::DoHandle` with `DoListen`, `DoConnect` and `DoReadWrite`.
-- - Tcp: `TcpSocket::OpenServer`, `OpenClient` and `Accept`, `StreamSocket::Reset`, and the constructor
--   and the destructor of a stream.
-- - Timer: `Timer` and `TimerMgr` of src/xma_timer.cpp, what `Process` adds to them in
--   src/xma_process.cpp, and `TimeUtil::TimeToStr` (Timer.Text).
-- - Shell: the command table and the interpreter of src/xma_shell.cpp, and the completion of a
--   command's name (Shell.Completion), over readline's own part of it. The table is kept in the order of the
--   names (Shell.Sorted), and is determined by what it finds (Shell.Unique).
-- - Message: `Msg::Send` of src/xma_message.cpp, the registry of threads in src/xma_thread.cpp, and the
--   pipe of `ProcessService` and `ProcessMsgListener` in src/xma_process.cpp.
-- - Listener: `Listener::Handle` and the registries of src/xma_listener.h and src/xma_service.h.
-- - Threads: where the `DoRun` of each thread stands, with `ThreadMgr::Run` and `ThreadMgr::Exit` of
--   src/xma_thread.cpp and `Application::Run` of src/xma_application.cpp. The threads take steps in
--   any order (`Step`, `Moves`, `Steps`).
-- - Process: `Process::Main`, `Process::Init` (Process.Start), `ProcessService::OnInit` and `~Process`
--   (Process.Ending) of src/xma_process.cpp. Process.Punctual is `Main` with the timers of the process and a
--   clock.
-- - Application: `Application::Init` of src/xma_application.cpp with its commands.
-- - Echo: the echo server of example/, `TcpEchoListener` (Echo), `TcpEchoServer` and `TcpEchoService`
--   (Echo.Service), a connection over a sequence of events (Echo.Talk) and in `DoHandle`
--   (Echo.Talk.Calls, Echo.Talk.Handle), the server as the application of
--   `Accept` (Echo.Accepting), the process with its messages and commands (Echo.Process), and all of
--   these with the pipe of the process, from the shell to the server (Echo.Remote, Echo.Typed).
--   `OnSocketErr` deletes the object whose `Handle` is running, so Echo.Errors has it and `Handle` on a
--   store of objects.
-- - Client: the client of client/, `TcpClient`, `TcpClientTimer` and `TcpClientService`, and the
--   process with its messages and commands (Client.Process). Client.Ticking is its timer in `CheckTimers`.
-- - Command: what the commands and the messages of both programs share.
-- - Tests: a concrete kernel, and each theorem applied to concrete data.
--
-- How the parts interact: an epoll event reaches `do_handle`, which calls `read` and `write` of the
-- stream; these move bytes between the kernel and the two buffers; the opening calls make the
-- descriptor and register it. Each function takes the socket and the `Env` and returns both. A command of
-- the shell sends a message to a process; the main loop of the process hands the event of its pipe to
-- the listener, which runs the message's `Handler` on the service; the service opens and destroys
-- sockets, and their timers and receivers write and read the streams.
--
-- Bounds and fuel: `expand` doubles an `int` at most 31 times before it leaves its range, so 31 rounds are
-- enough. The loop of `CheckTimers` has a round for each timer of the list where a `Timeout` leaves the
-- timers alone or sets its own timer again, so fuel above their number is enough (Timer.Again). `Accept`
-- takes as fuel any number above the connections that wait. `Process::Main` takes as fuel any number above
-- its rounds, and the loop of `Process::Init` any number above the services that the process has at its
-- end; `%03ld` prints at most 19 digits. Buffer sizes stay below 2^29 in the invariant `Inv`, which the
-- sizes the program uses satisfy. Counters wrap at 2^64.
--
-- Not modelled: printing and logging, but for the texts of a socket; the affinity and the ids of threads;
-- the default virtual functions, which return or throw; src/xma_fifo.h, which does not compile;
-- src/xma_mailbox.hpp, which nothing uses; the `delete receiver_` of a stream's destructor,
-- behind which Tcp.Release starts; the files that CMake generated. A thread's `Main` is one step
-- in Threads, and the main loop reaches the timers and the listeners through the interface `Host`;
-- Process.Punctual has the timers behind it, and the listeners as a parameter. The default build defines
-- no NDEBUG, so `assert` is compiled in; `Sys` and the timers have it as a parameter and cover both cases.
pub mod Common
pub mod Memory
pub mod SocketBuff
pub mod Sys
pub mod Epoll
pub mod Socket
pub mod Stream
pub mod Machine
pub mod Tcp
pub mod Shell
pub mod Timer
pub mod Message
pub mod Listener
pub mod Echo
pub mod Client
pub mod Application
pub mod Command
pub mod Threads
pub mod Process
mod Tests
