-- ===== src/Lib.antt =====
-- The contest system abacuscm: its servers talk to clients in blocks of text, to each other in
-- binary messages, and hand submissions to markers. This library models the core of the server
-- (src/*.C, include/*.h) and proves what makes each part correct. Each file names its code.
--
-- The parts, from a client's bytes to the marker pool:
-- MessageBlock (src/messageblock.C): a block of the client protocol, read byte by byte (`addBytes`
--   is `add_bytes`, `getRaw` is `get_raw`, `setContent` is `set_content`). Decimal is the printing
--   and reading of its content length.
-- ClientConnection (src/clientconnection.C): `read_data` cuts what comes in into blocks.
-- ClientAction (src/clientaction.C): `process` finds the handler of a block and checks the client's
--   permissions. A handler is a parameter, on a world that is a parameter too.
-- Permissions (src/permissions.C, src/permissionmap.C): the permission tests and what each type of
--   user is granted.
-- ClientEventRegistry (src/clienteventregistry.C): which connections are told of an event.
-- Markers (src/markers.C): which marker works on which submission. Its methods hold one lock, so
--   they are steps on a record, and `Reachable` is the states that calls lead to.
-- Server (src/server.C): the numbers for new submissions, clarifications and problems.
-- Timer (src/support_timer.C): the start and stop events and the time that counts.
-- Standings (src/support_standings.C): the score of a team, for contestants and in the end.
-- Message (src/message.C): `makeMessage`, the blob that travels, the two `buildMessage`, `process`.
--   The content is any type with a `Codec`; `IsLawful` is what `store` and `load` owe to each other,
--   and Message.Codecs and Marking.Codec show it of four messages.
-- Wire (src/message.C, src/act_submit.C, src/act_clarify.C, src/act_startstop.C, src/act_passwd.C,
--   src/act_bonus.C) and Marking (src/act_mark.C): the bytes of the messages between servers.
-- UdpMessenger (src/udpmessenger.C): the delays between frames, the fragments and frames of a message
--   (`sendMessage` is `send_message`), and their collection (`getMessage` is `get_message`).
-- Actions (src/clientaction.C, src/act_mark.C, src/act_submit.C, src/act_clarify.C,
--   src/act_startstop.C, src/act_passwd.C, src/act_bonus.C): the handlers that make messages, on the
--   markers, the registry, the counters and the message queue that they share. Actions.Announce is
--   what a server does with a clarification (`ClarificationMessage::int_process`), on a database
--   that is a record of calls.
-- Daemon (src/abacusd.C, with the table PeerMessage of src/dbmysql.C): the threads that queue and
--   handle messages, the pool of worker threads, and the loop of the timed actions. A thread's turn
--   is a step, and the states are those that steps in any order lead to.
-- Prelude: shared tests, lists, byte strings and sorted maps. Examples: the theorems at concrete
--   inputs.
--
-- Numbers are natural numbers. A 32-bit counter has its wrap-around written out, an `int` of the
-- protocol is its 32-bit pattern, and a pointer to a connection is a number. The database, the clock
-- and the configuration are arguments of the operations that ask them. Loops that are not structural
-- run on fuel: the length of the chunk in `read_loop`, one more than the number of entries in
-- `check_loop`, 32 rounds for a 32-bit mask in `allow_loop`, the size of what is left in
-- `load_files`, one more than the number of headers in `collect_files`, and in `create_loop` and
-- `destroy_loop` one more than the idle workers that are asked for, and those that there are.
--
-- Not modelled: the database layer, sockets and TLS, threads other than by their locks, the programs
-- that run and compare submissions and the web client.
mod Prelude
pub mod Actions
pub mod ClientAction
pub mod ClientConnection
pub mod ClientEventRegistry
pub mod Daemon
pub mod Decimal
pub mod Examples
pub mod Markers
pub mod Marking
pub mod Message
pub mod MessageBlock
pub mod Permissions
pub mod Server
pub mod Standings
pub mod Timer
pub mod UdpMessenger
pub mod Wire
