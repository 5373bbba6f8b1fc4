-- ===== src/Lib.antt =====
-- libevent-async: a coroutine library over libevent, with clients for the MySQL and memcache protocols
-- and an HTTP server with websockets.
--
-- The program's lowest part of its own is Buffer (src/Buffer.cc), a queue of bytes that coroutines fill
-- from and write to a socket. The protocol code is written over it: MySQL's ProtocolBuffer
-- (src/Protocols/MySQL/ProtocolBuffer.cc), the memcache client
-- (src/Protocols/Memcache/Client.cc) and the websocket client of the HTTP server
-- (src/Protocols/HTTP/Server.cc).
--
--   Libevent   what libevent's evbuffers and sockets do, as the two interfaces EvBuffer and Network, with
--              their documented behaviour as laws. Libevent is not part of the repository; every
--              definition takes both as parameters.
--   Buffer     the synchronous methods of class Buffer; Buffer.Awaiters the awaiters of `read`,
--              `read_to`, `read_atmost` and `write`, event by event; Buffer.Sending methods with a Buffer of
--              their own.
--   Waiters    the list of suspended coroutines that Channel and Future share.
--   Channel    src/Channel.hh; Channel.Order says who gets what.
--   Future     src/Future.hh; Future.Order says who gets what.
--   Task       src/Task.hh: AnyAwaiter and `all_limit`, as a relation between states, since the tasks may
--              finish in any order; Task.Limit and Task.Rounds its invariant, Task.Ends why it ends.
--   Base       src/Base.cc: `read` and `write` on a file descriptor.
--   MySql      ProtocolBuffer: MySql.ProtocolBuffer has the integers and strings, MySql.Command the
--              frames on a connection. Client: MySql.Client its state and what its operations share,
--              MySql.Handshake the handshake, MySql.Query the queries with their result sets, MySql.Binlog
--              the stream of binlog events. MySql.Query.Values says which value a cell's text has.
--              MySql.BinlogProcessor what src/Protocols/MySQL/BinlogProcessor.cc makes of the
--              events, over MySql.ProtocolStringReader; Encoding has the bytes that a server
--              writes. Phosg.Reader is the interface to phosg's StringReader.
--   Memcache   Memcache.Header the packets' header, Memcache.Client the operations of Client on a connection
--              that may be closed, Memcache.Stats the operation `stats`. Byte order and the text of error
--              messages come from phosg, which is no part of the repository: Phosg is its interface.
--   Http       Http.Websocket: `read` and `write` of Server::WebsocketClient. Http.UrlParams:
--              `parse_url_params` of Request (src/Protocols/HTTP/Request.cc), with what it calls of phosg.
--   Prelude    shared names and lemmas; Prelude.Maps is std::unordered_map with byte strings as keys.
--   Tests      a concrete evbuffer and socket, and runs of the program on them.
--
-- A method is an action: a function from a state to a result and a state. The result is a value, an
-- exception with its message, or `pending`: the coroutine is suspended and no event is left to resume it.
-- The state that comes with an exception is the one at the throw. A `co_await` of a socket operation
-- runs over a bounded number of readiness events. Each event on a healthy socket brings or takes a byte
-- at least, except the one at the end of the stream and a write of nothing, which libevent refuses, so
-- that as many events as there are bytes, and one more for a write, are enough; the theorems on
-- `read_to` and `write` state it. The websocket's `read` has a bound on its frames, one more than the frames before the message's last; memcache's `stats` and the
-- MySQL handshake have such bounds on the responses, and `query` one on the results and one on the rows
-- of each, with the packet that ends them.
--
-- A coroutine that a channel or a future resumes takes its item or result before `resume` returns; what it
-- does after that is a further step. Undefined behaviour there, such as the use of an iterator to a list
-- node that is gone, is `none`. A read behind the end of a std::string is the error `undefined`, which the
-- binlog's parsers have for a bitmask that is cut short.
--
-- Not modelled: sizes above INT_MAX, which libevent's calls take as an `int`; big-endian machines, as the
-- header of ProtocolBuffer says; two coroutines on one socket at a time. A libevent call that fails
-- leaves the buffer as it was. How a decimal text becomes a binary number, `stof` and `stod`, is the
-- parameter Floats of MySql.Query.Cells.
pub mod Prelude
pub mod Libevent
pub mod Phosg
pub mod Waiters
pub mod Channel
pub mod Future
pub mod Task
pub mod Base
pub mod Buffer
pub mod MySql
pub mod Memcache
pub mod Http
pub mod Tests
