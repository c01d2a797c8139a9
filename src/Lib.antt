-- ===== src/Lib.antt =====
-- A model of the server in C++ under src/, checked by its theorems.
--
-- The program is a network server on the coroutines of the `st` library. `main` loads a JSON
-- configuration, initializes the log and the server, turns the process into a daemon where the
-- configuration says so, and enters the master: the pid file is locked, the thread library is
-- initialized, a listener is opened at the configured port, and a thread takes signals from a pipe.
-- The main cycle then refreshes a cached clock every 300 milliseconds. Each accepted client becomes
-- a connection in the server's manager, until it is removed and its bytes are counted.
--
-- The files and the code they model:
--   Base: the library's names, lists, and `Base.Int`, integers with the division and the 32-bit
--     conversion of C, and `srs_min` and `srs_max` of src/base/app_macros.h.
--   Bytes: strings of bytes with `atoi` and the `%d` of the C library.
--   ErrorCode: src/base/app_error_code.h and app_error_code.cpp.
--   Config: `ConfigInfo` of src/conf/config_info.cpp. `Config.Json` is src/json/json_process.cpp;
--     cJSON is the parameter `CJson`, of which nothing is assumed.
--   Clock: the cached time of src/base/app_utility.cpp. The answers of `gettimeofday` are a function
--     of the number of the call, and the state counts the calls.
--   Kbps: `SrsKbpsSample`, `SrsKbpsSlice` and `SrsKbps` of src/base/app_kbps.cpp.
--   Log: `SrsFastLog` of src/base/app_log.cpp. `Log.Level` has the levels, `Log.Buffer` the buffer
--     with the C library's `snprintf`, `Log.Header` the header's format. `Log.Sink` is the log as its
--     users see it, without the buffer; `Log.Macros` has the macros of src/base/app_log.h.
--   Listener: `SrsListener` of src/base/app_listener.cpp; its accept loop is `Server.Accepting`.
--   PidFile: `acquire_pid_file` and `on_reload_pid` of src/base/app_server.cpp. `PidFile.Steps` has
--     them one system call at a time, `PidFile.World` several processes over one file, which stays
--     under its name and is opened by nothing else.
--   Server: the managers, signals and main cycle of `SrsServer`, src/base/app_server.cpp.
--     `Server.Uncounted` is about what it counts of its connections.
--   Signal: `SrsSignalManager` of src/base/app_signal_manager.cpp.
--   Socket: `SrsStSocket` of src/base/app_st_socket.cpp.
--   Context: `SrsThreadContext` of src/base/app_thread_context.cpp.
--   Thread: `SrsThread` of src/base/app_thread.cpp, with the coroutine that starts and stops it.
--   Address: the local and the peer's addresses of src/base/app_utility.cpp, and the byte order.
--   Conn: `SrsConnection` of src/base/app_conn.cpp and the classes under src/conns/base; `Conn.Life`
--     puts a connection, its thread and the server together, `Conn.Life.Unstarted` is one whose
--     thread could not be created, and `Conn.Pointers` has the pointers by which a connection and
--     its proxy share a socket.
--   Descriptors: the open descriptors, `srs_close_stfd` of src/base/app_st.cpp and the destructors
--     that close one, with what the events of `Server` do to the table.
--   Reload: `ISrsReloadHandler` of src/base/app_reload_handler.cpp.
--   Serving: the serving process, in which the threads of the listeners, the connections and the
--     signals take turns with the main cycle on one server.
--   Startup: src/main.cpp, src/base/app_st.cpp and the start-up methods of `SrsServer`.
--
-- State and effects. A class is a record of its fields, and a method takes the record and gives its
-- result code with the new record. What the system, the C library and `st` answer is an argument
-- (`env`, `gettimeofday`, `st_read`), and what a method does outside is a list in its result: lines
-- of the log, effects on the pid file, objects freed. A failed `srs_assert`, the use of a null
-- pointer and a write outside a buffer are `none`, or `faults` in `Startup` and `Signal`.
--
-- Numbers. An `int64_t` is an integer without bounds. Results that the code narrows to `int`, the
-- rates, keep their wrap-around. `atoi` of a number that does not fit an `int` is undefined in C and
-- gives its value here. The counter of `generate_id` is exact, and `overflowed` tells that it has
-- left the `int`, which is undefined: behind that the ids of the model mean nothing.
--
-- Threads. The coroutines of `st` give way to each other only where they sleep, join or are inside a
-- callback. A state has the place at which each stands, a step takes one of them to its next place,
-- and a schedule is any list of steps; a step that is not possible changes nothing. The
-- start of a listener's or the signals' thread is an answer of the environment; its rounds are turns
-- of `Serving`, where a turn is all that a thread does between two waits.
--
-- Signals. `Signal.Pipe` has the pipe with the room that app_signal_manager.h gives it, beyond which
-- the handler's write blocks the process. In `Serving` the pipe is taken to have room. A signal
-- reaches the handler only where it is installed.
--
-- Descriptors. The table says of each number whether it is open. `st_netfd_close` is a parameter
-- that may leave its own descriptor open but no other one changed. The system gives out a free
-- number, and the allocator an address that is not in use: an arrival against that changes nothing.
--
-- Fuel. `Config.read_chunks` has one round for each byte and one more, `Bytes.digits_before` one for
-- each unit and one more: both take at least a byte or a digit off in a round. `Signal.Order.cycles`
-- has one round for each queued signal. `Server.Cycle.rounds` counts rounds of an endless loop.
--
-- Not modelled: cJSON and the `st` library, which the code only calls; a start of a thread behind a
-- stop that could not wait for it, which no caller makes; a read of the signals' pipe that fails;
-- what the other threads do while a reload of the ports waits, but for the client of
-- `Descriptors.Reused`; what `SrsServer::cycle` does behind
-- `do_cycle`, which does not return; abstract interfaces, destructors that only free memory, and
-- what is compiled out.
pub mod Base
pub mod Descriptors
pub mod ErrorCode
pub mod Bytes
pub mod Config
pub mod Log
pub mod Listener
pub mod PidFile
pub mod Server
pub mod Signal
pub mod Startup
pub mod Socket
pub mod Context
pub mod Clock
pub mod Kbps
pub mod Thread
pub mod Address
pub mod Conn
pub mod Reload
pub mod Serving
