-- ===== src/Lib.antt =====
-- Patina RPC: remote procedure calls over one multiplexed connection.
--
-- A client gives each call an id, parks the call under it and sends a request; the server answers
-- with a response or an error under the same id, in any order. The files follow the program:
--
--   Envelope                 crates/patina-rpc/src/envelope.rs, the messages
--   Error                    crates/patina-rpc/src/error.rs, errors and their texts
--   Codec                    crates/patina-rpc/src/codec.rs, `WireCodec`: `new`,
--                            `with_max_frame_length`, `decode`, `encode`
--   Codec/Framing, Serde     what is relied on of `LengthDelimitedCodec` and of `bincode`
--   Codec/Frames             the bytes of a frame, whole, in part and too long
--   Codec/RoundTrip, Stream, Default, Refusals   theorems on one frame, on a stream, on the default
--                            limit, on errors
--   Codec/Tests              the unit tests of codec.rs, and that they pass
--   Runtime                  what is relied on of tokio's channels and cancellation token
--   Server                   crates/patina-rpc/src/server.rs, `Handler`, `ServerBuilder` (`register`,
--                            `add_service`, `build`), `dispatch`
--   Server/Accept            `Server::serve`, and its theorem
--   Server/Registry          which handler a method has, and what `dispatch` answers
--   Server/Connection        `serve_connection_inner`, the workers it spawns, `writer_loop` and
--                            `AbortOnDrop`, as a step relation
--   Server/Connection/Tally, Invariant   how often an id is asked for and answered; the invariant
--   Server/Connection/Answers    theorem on what the replies are
--   Server/Connection/Ending     theorem that a connection returns once its stream is over
--                            and its sends are done
--   Server/Connection/Shutdown   theorems on how often they come, on the channel and on the end of a
--                            connection
--   Client/Pending           crates/patina-rpc/src/client.rs, `PendingMap` and `PendingGuard`
--   Client/Pending/Tests     the unit tests of client.rs
--   Client                   `from_stream`, `call`, `reader_loop`, `writer_loop`, as a step relation
--   Client/State             the state of a client, of its calls and of its tasks
--   Client/Invariant         who is parked, who holds which sender, and which ids are in use
--   Client/Routing           theorems on answers
--   Client/Requests, Sending   theorems on what is sent, and how often
--   Client/Closing, Losses, Teardown, Stranded   theorems on refusals, on `Closed`, on the end of a
--                            connection or of a call, and on the call that comes too late
--   Client/Ending            theorem that both tasks end and wake the calls once the reader has left
--                            its loop
--   Client/Owners, Delivery, Room, Waiting, Hearing, Verdicts   whose request an id stands for and
--                            where it is, who is in the map, what reaches calls and what they return
--   System                   a client and the server's side of its connection, joined by their wires
--   System/Wires, Order      what one side takes in is what the other put out, in that order
--   System/Contract          a call, as its caller sees it
--   System/Bytes             the same over streams of bytes, with the codec at both ends
--   System/Bytes/Framed      what is relied on of tokio-util's `Framed` over a socket
--   System/Bytes/Carried, Decoding, Encoding, Ends, Sides, Refines   the envelopes that the bytes
--                            stand for, and theorem that nothing else can happen
--   System/Flow, Settling    where a waiting call's message is, and that it arrives
--   Payload                  crates/patina-rpc/src/lib.rs, `encode` and `decode` of `__private`
--   Macros                   crates/patina-macros/src/model.rs, `ServiceTrait::parse`, `Method::parse`,
--                            `parse_result_ok`; `wire_method_name` of expand.rs
--   Macros/Syntax            the syntax trees of `syn` that the macro is given
--   Macros/Returns, Parse    theorems on what the macro accepts
--   Macros/Tests             crates/patina-macros/tests/ui, what the macro says of each trait there
--   Macros/Expand            crates/patina-macros/src/expand.rs, `expand`: the code it writes; and
--                            `service` of lib.rs, the macro
--   Macros/Expand/Typing, Obligations, WellTyped   Rust's rules for that code, and that it meets them
--   Service                  crates/patina-macros/src/expand.rs, what the generated client and server do
--   Service/Proxy, Remote    theorems on a call through them, alone and over a connection
--   Demos                    crates/patina-rpc/examples, the three example programs
--   Examples                 concrete framing, serialisation and channels, and runs on them
--   Base                     Boolean tests, lists, results, panics and association lists
--
-- State and operations. A record is the state of a task or an object, and an operation is a function
-- that returns the state it leaves. `call` is cut where another task may run: `enter` is its test of
-- the token, `fetch_add` the id, `park` the insertion, `submit` a poll of `outbound.send`, `finish` a
-- poll of `rx.await`, `cancel` the drop of its future. `reader_loop` is `read`, `fire`,
-- `reader_cancels` and `drain`; `writer_loop` is `write`, `writer_cancels` and `writer_returns`. The
-- server's connection is `on_frame` for the loop, `run_handler`, `reply_sent` and `reply_dropped` for
-- a worker, `write` and `writer_ends` for the writer, `drop_future` for an abort, and
-- `abort_writer` for what the runtime then does to the writer, some time later. `Step` lists them
-- with their conditions, and `Reach` is any sequence of steps: every schedule, and every input from
-- the socket, is among them. A handler runs in one step, on a shared state that may change between
-- any two steps. A `write` is `rx.recv` and the `sink.send` of what it gave: the step is made when that
-- send is done, and until then the message counts as queued, so a sender that waits for room gets it
-- when the send is done. Theorems that tasks run to an end therefore name the state in which a writer
-- is at a `sink.send`: it may wait there for as long as the socket does not take the message, and a
-- client's writer does not look at the token meanwhile. A hash map is an association
-- list that its operations read by key alone.
--
-- Generated code. `Macros/Expand` has the code that the macro writes as syntax trees, the quoted
-- Rust form for form, and `Service` has its meaning: a method of the generated client is
-- `client_method`, the `match` of the generated server `dispatch_arms`. The user's types come with
-- their serialisation, and the user's methods are functions on a state.
--
-- The wires. A `System` is a client, a connection of the server, and the envelopes under way in each
-- direction: a step of a writer adds one at the end, a step of the other side's reader takes the
-- first. Either side may instead find its stream at an end or broken at any time. A
-- `ByteSystem` has bytes under way in place of envelopes, which arrive in chunks of any size; a
-- socket that fails, or a writer that is aborted, may leave the beginning of a frame behind.
--
-- Which traits of serde and of Rust the user's types implement is a parameter of the typing rules,
-- `UserTypes`, and what the macro leaves to the user's care, `IsUsable`, a hypothesis.
--
-- Third-party code is a parameter: records of operations and of the laws that its documentation gives.
-- `Examples` fills each of them with a concrete function, and runs the theorems on it.
--
-- Bounds. Ids are counted modulo 2 ^ 64, and theorems that need distinct ids say that fewer were
-- handed out; `issued` counts them. The channels hold 128 envelopes. A frame's length has four bytes,
-- so the theorems on frames ask for a limit below 2 ^ 32; the default is 64 MiB. No function runs on
-- fuel, except `decimal`, whose five rounds print any `u16`.
--
-- Not modelled: the socket, logging, the spelling of the tokens that the macro emits, the
-- integration tests of crates/patina-rpc/tests, and the sockets and tasks of the example programs. A panic is not a step.
pub mod Base
pub mod Envelope
pub mod Error
pub mod Codec
pub mod Runtime
pub mod Server
pub mod Client
pub mod Payload
pub mod Macros
pub mod Service
pub mod System
pub mod Demos
mod Examples
