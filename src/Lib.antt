-- ===== src/Lib.antt =====
-- The tunnel client of this repository, libwebsockets/test-server/http_client.c with http_client.h and
-- coroutine.h beside it. A client behind a firewall keeps one websocket to a server; the server sends
-- packets over it, each a 16-byte header and a body that may be cut into several websocket messages; the
-- client makes HTTP requests and connections from them and sends the answers back the same way.
--
-- The program is one thread around `poll`. Its state is the structure `http_mgmt`, which is the record
-- `Mgmt` of State. Buffers and HTTP contexts are two arrays, with free lists; `Mgmt` has them as stores,
-- and a pointer into them is an index. A linked list is the list of its nodes in order, which is faithful
-- as long as a node stands on one list at a time. Where the program frees a current buffer that still stands on
-- its list, or puts a freed buffer on a packet's list, its lists are broken; the model ends there in the fault
-- `list_corrupted`, though C goes on. `alloc_buf` and `push_toserver` rely on a buffer that stands on no other list. What the program does to the outside is appended to
-- `trace`; what the operating system answers is an argument. An assertion that fails and a dereference
-- of NULL are faults, so a theorem that a call returns excludes them (Base.Faults).
--
-- The files, by the functions that they model:
--   State       the structures and enumerations of http_client.h, and coroutine.h's `ccrLine`
--   Header      `http_c_header` and its constants
--   Buffers     `alloc_buf`, `free_buf`, `alloc_context`, `free_context`, `next_buf_info`
--   PollTable   `mgmt_add_fd`, `mgmt_del_fd`
--   Cipher      `hash`, `generate_key`, `encry`, `decry`, `encry2`, `decry2`
--   ToServer    `http_mgmt_toserver`, `http_mgmt_writable`, `http_mgmt_handshake`, `http_mgmt_isshake`,
--               `generate_error`
--   Prepare     `release_prepare`, `save_prepare`, `http_mgmt_prepare`
--   Runtime     what the coroutines share
--   Chunk       `http_chunk_check`, `http_parse`
--   HttpContext `http_context_connect`, `_write`, `_read`, `_finish`, `_release`, `_init`, `_create`,
--               `host_init`, `insert_timeout`, `insert_ready_prio`
--   Scheduler   `http_context_execute`, `http_mgmt_run_timeout`
--   Forward     `tcp_forward_connect`, `_write`, `_read`, `_closing`, `_release`, `_create`
--   Dispatch    `prepare_process`, `process_tcp_forward`, `process_tcp_forwardresp`,
--               `process_tunnel_req`, `process_tunnel_resp`
--   Client      `tcp_client_read`, `tcp_client_write`, `tcp_client_release`
--   Server      `tcp_server_init`, `tcp_server_callback`, `tcp_server_run`
--   Cycle       `http_mgmt_service`, `http_mgmt_run`, `http_mgmt_init`, `http_mgmt_param_init`,
--               `http_mgmt_release_all`
--   Tunnel      libwebsockets/test-server/web-tunnel.c: the callbacks and the loop of `main`
--   Consistent  what stays true through the whole program, from `http_mgmt_init` through the loop and the
--               callbacks; `Ensures` of Base.Ensuring is a call's
--               postcondition if it returns, and that it follows no pointer to a released object
--   Examples    the theorems on concrete states
--
-- How the parts interact: a packet from the server passes through Prepare, which hands its buffers to
-- `prepare_process`, a parameter of that module, which Dispatch defines; its handlers give the buffers to a
-- new context of HttpContext, to a connection of Forward, or to a client. A context of HttpContext is run by Scheduler, and reads,
-- writes and releases buffers of Buffers; it has its socket in PollTable. Its response is appended to the
-- queue of ToServer, as are the messages of Forward and the requests of Client. Cycle runs all of them by the
-- events of `poll`, and Tunnel is the loop around it and what libwebsockets calls.
--
-- Bounds and fuel. A number of C that never is negative in a run without faults is a ℕ: a packet with a
-- length below 16, or a client's of 2^31 or more, makes a length negative, with which C goes on and the model
-- ends in the fault `negative_length`; a `uint32_t` keeps its
-- wrap. `prepare_loop` has 2 rounds: a fresh buffer takes any message that is allowed, and this is
-- enough by the theorems on it, which show that the call returns. `chunk_loop` has twice as many rounds as
-- there are bytes and buffers, and four, since a round takes a byte or a buffer, or ends a line or a chunk,
-- unless the size of the chunk is negative; the fault `no_rounds` stands for a loop that goes on. The
-- loops over lists recurse on the list as it is at the start, like `list_for_each_entry_safe`.
--
-- Not modelled: logging and statistics, `name_resolve` and the calls of the operating system; in web-tunnel.c
-- the options, `daemonize` and the signal handler; libwebsockets itself, cJSON and list.h, which are other
-- projects' code. `libwebsocket_service_fd` is a parameter of the main loop, and
-- `libwebsocket_context_destroy`, `libwebsocket_create_context` and `libwebsocket_client_connect` are parameters of
-- the way to a new websocket; of them it is assumed only that they change the state by the program's callbacks and
-- by `revents = 0`, as lib/libwebsockets.c documents. What a run does behind one of the faults is not modelled.
pub mod Base
pub mod State
pub mod Header
pub mod Buffers
pub mod PollTable
pub mod Cipher
pub mod ToServer
pub mod Prepare
pub mod Runtime
pub mod Chunk
pub mod HttpContext
pub mod Scheduler
pub mod Forward
pub mod Dispatch
pub mod Client
pub mod Server
pub mod Cycle
pub mod Tunnel
pub mod Consistent
pub mod Examples
