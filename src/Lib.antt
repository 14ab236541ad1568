-- ===== src/Lib.antt =====
-- The transports of this repository for the live migration of QEMU machines, and their benchmarks.
--
-- A migration runs over two proxies, one on each host. QEMU speaks to the near one over a unix
-- socket; the proxies speak to each other over TCP (migrate-proxy) or a TLS websocket
-- (migrate-websocket); QMP scripts tell both QEMUs what to do. proxy-perf measures the same
-- transports. The parts and their files:
--
--   Base       shared names, Boolean tests and list functions on native numbers
--   Async      Python's exceptions: actions on a state, `try`, `except`, `finally`
--   Dict       a Python dictionary as an association list
--   Queue      `CircularQueue` of migrate-proxy/tcp-migration-server.py
--   Histogram  `read_histogram` and `print_histogram` of the same file; Histogram/Sizes has the report
--              as a function of a quotient, the sizes read without their order
--   Forward    `forward_data` of the same file: the read task and the write task;
--              Forward/Fair is about its end on fair schedules, Forward/Shared about its histogram,
--              Forward/Bounded about what it holds, Forward/Quiet about when it has stopped
--   Connect    `connect_to_unix_socket`, and `create_unix_connection` of
--              migrate-websocket/websocket-migration-server.py
--   Proxy      the handlers: `handle_client` of tcp-migration-server.py in Proxy/Server,
--              `handle_new_qemu_connection` and `connect_and_forward` of
--              migrate-proxy/tcp-migration-client.py in Proxy/Client; the TCP server with all of its
--              connections in Proxy/System, its `start`, `stop` and `main` in Proxy/Service; one
--              connection with its handler and both forwarders in Proxy/Session, which
--              Proxy/Session/Refines relates to Proxy/Server and Proxy/Session/Liveness follows to its
--              end; two proxies one behind the other in Proxy/Chain, with all their connections
--              in Proxy/System/Delivery; `main` of the client in Proxy/Client/Service
--   Certificates  migrate-websocket/generate_certificates.py
--   Ssl        `create_ssl_context` of the websocket programs and of proxy-perf, and
--              `upgrade_to_tls` of migrate-tls
--   Websocket  the forwarding loops of both websocket programs; `handle_client` of the server in
--              Websocket/Server; `handle_qemu_connection`, `cleanup_connection` and
--              `start_unix_server` of migrate-websocket/websocket-migration-client.py in
--              Websocket/Client, and two calls of `cleanup_connection` at once in
--              Websocket/Client/Race; `start`, `stop` and `main` of the server in Websocket/Service,
--              `main` of the client in Websocket/Client/Service; `active_connections` under all the
--              handlers of the server in Websocket/Server/Roster
--   Qmp        the monitoring loop and the four scripts unix-send-tcp.py, unix-receive-tcp.py,
--              unix-send-websocket.py and unix-receive-websocket.py
--   Tls        migrate-tls/qemu-send.py and qemu-rec.py, which hand QEMU a descriptor: one that they
--              are given, or the number of a socket of their own, which is closed by then;
--              `receive_fd` in Tls/Descriptor
--   Perf       the progress meter; the senders tcp/unix-sender.py, tcp/send.py and
--              websocket/send.py of proxy-perf in Perf/Send; the receivers tcp/receive.py and
--              websocket/receive.py in Perf/Receive, `start_server` and `main` of the first in
--              Perf/Accept and of the second in Perf/Serve; the menus of both send.py in Perf/Menu; in
--              Perf/Unix the ends that listen on a unix socket, tcp/unix-receiver.py and
--              `benchmark_send_unix` of tcp/send.py
--   Echo       `handle_client` of bpf_redirect/tcp-server.py, reuse-addr/s1.py and reuse-addr/s2.py;
--              `main` of the first in Echo/Redirected, `start_server` of the others in
--              Echo/Reuse; the clients reuse-addr/c1.py and
--              reuse-addr/c2.py in Echo/Client
--   Tests      runs on small inputs, and the theorems at inputs that meet their hypotheses
--
-- The client of migrate-proxy has its own copy of `CircularQueue`, `forward_data` and
-- `print_histogram`, word for word; the model stands for both.
--
-- How the code becomes a model. A coroutine of the forwarder advances by turns, the stretches
-- between two suspensions; a run is any list of turns, so a theorem about runs holds for every
-- schedule and every behaviour of the sockets. `self.lock` is never held across a suspension, so a
-- call of the queue is one step. A handler is an action on a record of its sockets and tasks (in
-- Proxy/Session a machine whose events are the ends of its `await`s, interleaved with the turns); what
-- the sockets, the event loop, QEMU and the certificates answer are arguments. A loop over events
-- that come from outside takes them as a list and is recursive on it; where the list ends before
-- the loop does, the result says that it goes on. The retry loops recurse on the attempts left,
-- which is their own bound, so that no fuel is needed anywhere. Clock readings are whole
-- microseconds and never before the start of a test; numbers in the code are unbounded integers,
-- and the floats that are only printed are kept as quotients.
--
-- The certificate generator has no branches, so it is a list of steps on the files of its
-- directory, and `openssl` is a function on commands and files: `IsDocumented` says that it leaves
-- alone the files it is not told to write, and makes the one it is told to write if it exits with
-- 0. A TLS context is a record of its settings, and `admits` says what `ssl` documents of them.
--
-- Not modelled: `main` of tcp/unix-sender.py and tcp/unix-receiver.py, which only call what is
-- modelled; `migrate_tcp` and `migrate_incoming_tcp` of migrate-tls, which nothing calls; the sockets
-- that `create_unix_socket_server` and `create_unix_socket_client` make; the client's handler as a
-- machine, which differs from the server's in that it passes a cancellation on; log texts that no
-- property needs; failures of the file system in the certificate generator other than a missing file;
-- and the C and shell programs.
pub mod Base
pub mod Queue
pub mod Histogram
pub mod Forward
pub mod Connect
pub mod Async
pub mod Certificates
pub mod Ssl
pub mod Proxy
pub mod Dict
pub mod Websocket
pub mod Qmp
pub mod Perf
pub mod Tls
pub mod Echo
pub mod Tests
