-- ===== src/Lib.antt =====
-- hellojs: a model of the protocol code of an HTTP client that imitates a browser on the wire, and
-- the theorems that make it correct.
--
-- The program. A client (lib/client.js) takes connections from a pool (lib/pool.js), which opens them
-- over TLS (lib/tls) and speaks HTTP/1.1 on them, HTTP/2 (lib/h2) or HTTP/3 (lib/h3). What is
-- modelled are the parts that read and write the wire and keep the state of a connection:
--
-- * lib/h3/varint.js, in H3/Varint: the integers of QUIC. `encode` and `decode` keep Numbers and
--   BigInts apart (`Value`), and throw what the source throws (`Error`).
-- * lib/h3/huffman.js, in H3/Huffman: the code of RFC 7541 that HPACK and QPACK share. H3/Huffman/Table
--   is its table, `build_tree`, `decode` and `encode` are the functions of the same names.
-- * lib/h2/frame.js, in H2/Frame: one function for each builder and parser, Kind and Flag for the
--   constants.
-- * lib/h2/hpack.js, in H2/Hpack: Static and Table are the two tables, Integers and Strings the two
--   primitive types, Codec the header block.
-- * lib/h2/session.js, in H2/Session: State is the state of `H2Session` and `H2Stream`, Receive what a
--   chunk of the transport sets off (`on_data` calls `dispatch`, which calls one handler for each type
--   of frame), Send what the caller sets off (`request`, `write`, `end`, `close`). What the session
--   writes and emits is the list `effects`, in order.
-- * lib/h3/packet.js, in H3/Packet: Frames has `decodeFrames` with a reader for each type of frame, and
--   the frame encoders. A position in the buffer is the rest of the buffer from there.
-- * lib/cookies.js, in Cookies: Parse has `parseSetCookie` and the two matches, Jar the jar. `setCookie`
--   and `getCookies` take the request in parts (`Request`), and the time as an argument.
-- * lib/h3/transport-params.js, in H3/TransportParams: the builders and `decode`.
-- * lib/tls/session-cache.js, in Tls/SessionCache: the sessions of each host, as an association list, and
--   `parseNewSessionTicket`. The time is an argument of `take`.
-- * lib/pool.js, in Pool: Slots is the cap on the connections of a host. The step of a waiter that was
--   woken is one of its own (`resume`), since it runs in a later microtask.
-- * lib/socks5.js, in Socks5: the requests, `readReply`, and the `data` handler as a function on a state
--   (`Phase`). The handler's loop is unrolled, since a round goes on to a later state or stops.
-- * lib/h3/qpack.js, in H3/Qpack: Integers, Static, Table (with the log that it refines in Table/Log),
--   Encode, Decode (`decodeHeaders`), Dynamic (`decodeHeadersWithTable`) and Instructions (the encoder
--   stream). Offsets and integers are signed (Common/Signed); fuel is an argument of the loops, which a
--   negative length can keep from ending.
-- * lib/client.js, in Client: Response has the parser of HTTP/1.1 responses in `performH1` (Body its
--   `data` and `end` handlers, `findTrailerEnd` and `dechunk`), Redirect `handleResponse`, Retry
--   `performWithRetry`. The rounds of the parser are bounded by the bytes that have arrived.
--
-- * lib/h3/h3.js, in H3/Client: the frames and the `data` handler of a request stream (Frames, Chunks and
--   Response prove it), Encoder has `_onServerUniStream` and `_drainPeerEncoder`, Request `bootstrap` and
--   what `request` sends. The body of a request is bytes. A response's headers are kept in the order in
--   which their names came. A round of the loop takes two bytes at least, so that there are no more
--   rounds than bytes.
-- * lib/tls/tls12_records.js, in Tls/Records12: both directions of the three kinds of cipher. node:crypto
--   is the record `Crypto`, whose laws are in Parts; the random IV is an argument.
-- How it is modelled. A byte string is a list of numbers, a JavaScript string the list of its code
-- units. A function that may throw returns a `Result`. An object that is changed in place is passed on
-- and returned: a stream is found in the session's list by its id and put back there. The shifts and
-- masks of the source are the bit operations on natural numbers, with the reduction modulo 2^32 where
-- JavaScript makes it. A `subarray` is `drop` and `take`.
--
-- Loops that the source runs to a condition are recursion on fuel, and the fuel is the length of what
-- the loop consumes: the rest of a buffer or of a body, of which every round takes a byte at least.
-- A theorem that says that a loop ends, or what it returns, includes that this is enough: a loop that ran
-- out of fuel has a result of its own, which such a theorem excludes. The QPACK decoders have no such
-- bound, since a negative length leads them back: they take the number of rounds as an argument, and
-- what has not returned by then is told apart from an error (`stuck`, in H3/Client `running`).
--
-- Parameters. The conversions to and from UTF-8 and `toLowerCase` are of the language's library
-- (`Strings` in Common/Text), and theorems on text say which strings they need to survive it. A SOCKS5
-- request takes `net.isIP` and `parseInt` (`Net`), a jar `parseInt` and `Date.parse` (`Clock`) and what
-- `URL` makes of an address.
--
-- Not modelled: the cryptography of TLS and QUIC, which are calls of node:crypto; sockets, timers and
-- events as such; the profile data of browsers; logging, tests and examples. A name of
-- Object.prototype as a response header (`constructor`, `__proto__`) has a meaning of its own in the
-- object of headers that `_finalizeHeaders` fills; the model's list has no such names.
pub mod Client
pub mod Common
pub mod Cookies
pub mod H2
pub mod H3
pub mod Pool
pub mod Socks5
pub mod Tls
