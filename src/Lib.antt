-- ===== src/Lib.antt =====
-- The dispatch server and client of the hybrid post-quantum benchmark (c_dispatch): a server and a
-- client perform a TLS-like handshake in which a classical ECDH exchange and a post-quantum KEM are
-- combined. A router chooses for each key exchange between a sequential engine and a parallel one,
-- from the hardware profile that is taken when the program starts.
--
-- The parts, and the files that model them:
-- - Algo: the table of 10 algorithm combinations and `get_combo_by_id`
--   (c_dispatch/include/algo_config.h).
-- - Host: `host_profile_init` and the hypervisor detection (c_dispatch/src/telemetry.c). What the
--   operating system answers, the DMI file, /proc/cpuinfo and the counts of cores, is a record.
-- - Dispatch: `adaptive_dispatch` and `dispatch_execute` (c_dispatch/src/dispatcher.c).
-- - External, Act: OpenSSL, liboqs, BLAKE3 and the allocator are parameters. A call is an action on
--   the state of its library that can fail; what the program relies on is a record of laws.
-- - Crypto: ECDH and the KDF over OpenSSL (c_dispatch/src/crypto_engine.c).
-- - Engine: the worker thread and the two strategies of the key exchange
--   (c_dispatch/src/engine.c). The parallel strategy is modelled twice: as a function that runs the
--   worker's round at the place where the main thread waits for it, and in Engine/Pool.antt as two
--   threads in any interleaving; Engine/Pool/Runs.antt relates the two.
-- - Rendezvous: the step relation of a caller and a worker that meet over shared flags, for any
--   mailbox. A block under the mutex is one step, with its `pthread_cond_signal`; a thread that waits
--   sleeps until it is signalled, and wake-ups without a signal are left out. The engine's pool and
--   the client's pool are instances.
-- - Net: `recv_all`, `send_all`, `recv_json_line` and `send_json_line` over a stream socket
--   (c_dispatch/src/network_utils.c). The kernel's answer to every call is part of the socket's
--   state: how many bytes it takes or delivers, or an error.
-- - Wire: the binary frames (c_dispatch/include/network_utils.h, and the places of
--   c_dispatch/server.c and c_dispatch/client.c that fill them in), for either byte order.
-- - Handshake: the binary handshake of both sides, `handle_client_binary` of c_dispatch/server.c
--   and `execute_dispatch_handshake` of c_dispatch/client.c, with the KEM worker bodies, and the
--   JSON protocol of `handle_client` (Handshake/Json.antt), with cJSON as a parameter.
--   Handshake/Hybrid.antt follows a hybrid handshake on both sides, frame by frame, up to the two
--   sessions at the ends of one connection. Handshake/Live.antt has the other half: where the
--   libraries work and the bytes arrive, both sides return. Handshake/ServerParts, JsonParts and
--   KeyDerivation say what the server's secrets and its session key are made from.
--   Handshake/Worker.antt is the client's worker pool: `client_worker_init`,
--   `client_worker_shutdown`, `client_worker_loop` and the parallel route.
-- - First: the handshake of the first framework in lines of JSON, `handle_client` of c/server.c
--   (`handle_client_lines`) and `execute_handshake_with_telemetry` of c/client.c (`line_handshake`).
--   Each side starts a thread for its KEM step and joins it; as that thread works on liboqs alone and
--   the other on OpenSSL and the connection, it is run where it starts. What the memory of a text
--   reads as that the server uses after its release is a parameter, of which nothing is assumed. First/ClientRun and
--   First/ServerRun say what a run has read and written, First/Agreement puts the two together.
--   First/Costs is the loop of c/bench_baselines.c with the weights it writes, and the cost model of
--   c/bench_hybrid.c (`load_weights` and the predictions); First/Weights follows the object of
--   weights through the loop, First/Trained the file from one program to the other. First/Track is
--   the loop over the runs in `run_hybrid_track`, with totals of 64 bits that wrap around.
-- - HwTelemetry: the performance counters of c/src/hw_telemetry.c: `hw_telemetry_init`,
--   `hw_telemetry_start`, `hw_telemetry_stop` and `hw_telemetry_cleanup`, over the answers of
--   `perf_event_open` and a record of the calls on its descriptors; and a session of
--   c/bench_hybrid.c, in which a handshake of c/client.c may fail before or after it has started the
--   counters.
-- - Metrics: the five functions of c/src/metrics.c.
-- - Bench: the modes, the measuring loop, the statistics and the runs of
--   c_dispatch/benchmark_suite.c. A `double` is a type with the operations that the code uses, and
--   the laws of IEEE 754 that it relies on are a record.
--
-- Numbers: lengths, counts and identifiers are natural numbers, and a C `int` that can be negative
-- is an integer. The code keeps them far below the bounds of their types; where a field of a frame is
-- narrower, the round trips ask that the value fits. Buffers are lists of bytes with their size, and
-- a copy that would leave its buffer is visible in the result.
--
-- Fuel: `recv_all` and `send_all` get one round for each byte that is asked for, which is
-- enough as every round that goes on moves a byte; `recv_json_line` gets one round for each byte of
-- the inbox and one to see its end.
--
-- Not modelled: the server's accept loop, the JSON export of the benchmark suite and of the profile,
-- the other benchmark programs of c_dispatch, the calibration, the drift and the tables of
-- c/bench_hybrid.c, and the Python scripts; and of the modelled
-- parts the release of memory, core pinning, time stamps and logging. The files that the profile is
-- read from are taken to hold no NUL byte, at which C would end their lines. A failing `pthread_create` is an
-- outcome of `engine_init` and of `client_worker_init`, other failures of the thread library are not
-- considered.
pub mod Act
pub mod Algo
pub mod Bench
pub mod Crypto
pub mod Dispatch
pub mod Engine
pub mod External
pub mod First
pub mod Handshake
pub mod Host
pub mod HwTelemetry
pub mod Metrics
pub mod Net
pub mod Prelude
pub mod Rendezvous
pub mod Tests
pub mod Wire
