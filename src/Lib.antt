-- ===== src/Lib.antt =====
-- Chaos_Forger, a daemon that stops or kills Docker containers at random to test how a system
-- bears it. Each tick of the engine lists the running containers, matches their names against the
-- configured rules, rolls the dice, and strikes as many of the matched containers as its budgets
-- allow. This library models the program from its arguments to its exit, over the system calls,
-- the clock, `double` and the random generator as parameters.
--
-- The parts, with the files that model them:
-- - src/log.cpp, include/forger/log.hpp: Log. The level from the environment, the filter, the
--   folding of line breaks and the format, and the calls in their order. A written line is a value,
--   the time stamp an argument. Log/Safe is about one line, Log/Calls about any calls.
-- - src/shutdown.cpp, include/forger/shutdown.hpp: Shutdown. `request` is one atomic step, since
--   its mutex makes it one; `observe` is a look at the flag before which the signal listener of
--   main.cpp may have run, as a schedule says.
-- - include/forger/config.hpp, src/config.cpp: Config. The data, the words of a document
--   (Config/Words), and `validate_config` with its messages and warnings (Config/Validate), where
--   each key's block is a function that takes the configuration so far; Config/Ranges and
--   Config/SafeDefault are about what it accepts.
--   `load_config` is in Config/Load; what opening and reading the file gives is its argument.
-- - include/forger/json.hpp, src/json.cpp: Json, the values and the lookup of a member. An object is
--   a list of members, in the order of `std::map`. The parser's state is the record `Cursor` of
--   Json/Cursor: the text from `pos_` on, `pos_` and `err_`. `parse_string`, `parse_hex4` and
--   `append_utf8` are in Json/Strings, the values in Json/Parser; Json/Parser/Writer is a writer of
--   documents, which the program does not have.
-- - src/docker_api.cpp: Docker. The request targets (Docker/Paths), the container and the interface
--   `IDockerClient` (Docker/Api), which the engine takes as a parameter, and `DockerClient`
--   (Docker/Client; Docker/Client/Written has the document of a listing), which fills it over any `Transport`; a request has a fresh transport, which the
--   parameter `make_transport` gives.
-- - main.cpp: Main. The options (Main/Args; Main/Args/Given is about their texts), `run_until_shutdown` (Main/Scheduler), whose rounds take
--   the readings of the clock and the requests to stop from a list, and `main` (Main/Run), cut where
--   it returns; Main/Report has what it finds, the record `Environment`, and what it logs, Main/Usage
--   what it prints at its arguments. Startup is the choice of the log level, and Startup/Wiring joins
--   it and the request targets to an accepted configuration. Main/Wiring puts the program together
--   with `DockerClient` and `UnixSocketTransport`. Main/Listener is the signal listener and the end
--   of `main` as a step relation on what the two threads share, a shared access at a time; its stop
--   reasons are those of Shutdown, and Main/Run sees the listener only through `observe`.
-- - src/discovery.cpp: Discovery, the matching policy.
-- - src/chaos.cpp: Chaos. `action_budget` in Chaos/Budget, `ChaosRoller` in Chaos/Roller.
-- - src/engine.cpp: Engine. The state and its constructor in Engine/State, `tick`,
--   `should_strike` and `execute_strikes` in Engine/Tick, cut where the code branches; Engine/Steps
--   and Engine/Frame hold what proofs about a tick share. Engine/Strikes puts a counter of the strikes
--   that succeed around any client. The members of `ChaosEngine` are fields
--   of the record, together with what the engine reaches by pointer: the client's state, the
--   shutdown state, and the calls of the log macros so far.
-- - src/http_socket.cpp, `HttpResponseParser`: Http/Parser. Its members are the record `Parser` of
--   Http/Parser/Fields; a member function that returns `bool` returns it with the parser changed.
--   `parse_status_line` and `parse_headers` are in Http/Parser/Headers, `body_step_chunked` in
--   Http/Parser/Chunks, `step` and `feed` in Http/Parser itself. A call with a null pointer is
--   `none`. Http/Parser/RoundTrip has a writer of responses, which the program does not have: their
--   header block (Written), the chunked body (Chunked) and how their bytes are cut (Cuts).
-- - src/http_socket.cpp, `HttpClient`: Http/Client, over the record `Transport` for the class of
--   that name; a call returns its result with the connection changed. Http/Client/Lifecycle says what a
--   transport keeps at each step of an exchange.
-- - src/http_socket.cpp, `UnixSocketTransport`: Http/UnixSocket, over the record `SystemCalls`; what
--   the manual pages say of the calls is in Http/UnixSocket/Laws. Http/UnixSocket/Wired makes it a
--   `Transport`.
-- - Double holds the parameters for `double` and for the random generator, with the laws that the
--   code relies on: comparison is irreflexive, 1.0 is not below 0.0 and neither is NaN, a whole number
--   between two literals below 2^31 is cast to the number that compares with such literals as it
--   does, and the distribution yields values of [0, 1).
--
-- Numbers. `size_t` and the counters wrap around at 2^64, where the code can reach it: the counters
-- of rolls, strikes and errors, the sum of chunk sizes, the length of the header block, and
-- `strtoull`, which saturates as documented. `run_budget_used`, a `long`, counts the successful
-- strikes of one process and is not taken to overflow. Bytes are numbers below 256.
--
-- Loops. `chunk_loop` and `trailer_loop` run on fuel: one pass more than the buffer has bytes, which
-- is enough since a pass that goes on has taken a byte. `receive`, the client's loop, gives `none`
-- without fuel; it needs one unit for each read up to the end of the stream, and `reads` is that fuel
-- in Docker/Client. The loops of the JSON parser have the bytes that are left as fuel, its recursion
-- the 65 levels that the depth limit allows. `send_all` and `read_some` of the Unix socket need more
-- fuel than there are bytes and calls that a signal will still cut short; as a `Transport` they have
-- that much, by the count of such calls that the laws of the system give.
--
-- Not modelled: the time-out of the transport as a passing of time; the order of the lines printed
-- at the arguments and those logged there; what `format_prob` does with a `double`, which is a
-- parameter; and the parser's member `allow_eof_termination_used_`, which nothing reads.
pub mod Prelude
pub mod Double
pub mod Log
pub mod Shutdown
pub mod Json
pub mod Config
pub mod Docker
pub mod Discovery
pub mod Chaos
pub mod Engine
pub mod Http
pub mod Startup
pub mod Main
mod Tests
