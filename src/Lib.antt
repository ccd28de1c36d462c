-- ===== src/Lib.antt =====
-- httpx2: the connection handling of httpcore2 and the text handling of httpx2.
--
-- The program is an HTTP client in two packages. `httpcore2/httpcore2` keeps connections: a pool
-- (_sync/connection_pool.py) assigns requests to connections, an origin connection
-- (_sync/connection.py) connects with retries and then delegates to HTTP/1.1 (_sync/http11.py) or
-- HTTP/2 (_sync/http2.py). `httpx2/httpx2` is the client above it: URLs, bodies, streams of lines.
--
-- Where each part is modelled:
--   * Prelude, Prelude/*: native numbers, Boolean tests, lists, and text as lists of code points.
--   * Origin: `Origin` of httpcore2/_models.py.
--   * Pool: ConnectionPool. `assign_requests_to_connections` is the pass of the same name, split
--     as the source splits it: `sweep` and `trim` (the two clean-up loops), `available_connections`
--     (the snapshot), `scan` (the loop over the queue with its early stop) and `serve` (its body,
--     with the cases `reuse`, `open_connection` and `replace`). What it asks of a connection is the
--     record `Interface`. Pool/Lifecycle has the sections of `handle_request` that hold the lock
--     (`start_request`, the pass, `finish_request`, `clear_request`, `close_stream`, `close_pool`)
--     as the steps of a run in any order, with changes of the connection objects between them.
--     Connection objects are shared: the pool's list and the requests hold references to a store.
--     Pool/Retained is about connections that the pool can neither use nor drop.
--   * Http11, Http11/Exchange: the states of HTTP11Connection, `handle_request` and its loops. The
--     events of `h11` come as a list; a list that runs out is a read that has not returned yet.
--   * Http2, Http2/*: the states of HTTP2Connection and the admission of requests to streams:
--     the semaphore is a counter, and each lock section is a step of `Http2.Runs`. Http2/Frames has
--     the header list, the data frames and the dispatch of events.
--   * Connection: HTTPConnection, its retries and the interface that the pool sees.
--   * Decoders, Decoders/*: ByteChunker and LineDecoder of _decoders.py, with the loops of
--     Response (httpx2/_models.py) that feed and flush them.
--   * Url, Url/*: path normalisation, path validation, ports and percent-encoding of
--     _urlparse.py. Url/Split has the regular expressions that take a URL and an authority apart,
--     and the text of a URL; Url/Parse has `urlparse` with its keyword arguments and ParseResult.
--   * Sse, Sse/*: the line decoder, the event decoder and the parser of _sse.py.
--   * Headers, Headers/*: the multi-dict of httpx2/_models.py on encoded names and values.
--   * Client, Client/*: the state of a client of httpx2/_client.py, whose transports are references,
--     since one may be mounted under several patterns, and `send` with its loops of authentication
--     and redirects, on the numbers of the responses that are open.
--   * Response, Response/*: the reading of a response of httpx2/_models.py, with its flags and with
--     the calls on its stream as counters. An iteration that is left or suspended is a sequence of
--     steps: `start_raw` or `start_bytes`, `take_part`, and `close`.
--   * QueryParams, QueryParams/*: the multi-dict of httpx2/_urls.py.
--   * Redirects, Redirects/*: the redirects of httpx2/_client.py. `build_redirect_request` is the
--     request that follows a response, and `send_handling_redirects` the loop. URLs enter through
--     the record `Urls`; the client's cookies, which the new request gets, are left out.
--   * Mounts, Mounts/*: the patterns of httpx2/_utils.py, their order, the proxies of the
--     environment, and `_transport_for_url` of httpx2/_client.py.
--   * Auth, Auth/*: basic and digest authentication of httpx2/_auth.py. A generator of requests is
--     the functions for the parts between its `yield`s.
--   * Multipart, Multipart/*: the fields and the stream of httpx2/_multipart.py, and
--     `peek_filelike_length` of httpx2/_utils.py. A file is its bytes and the position in it.
--   * Content, Content/*: the bodies of requests and responses of httpx2/_content.py.
--   * Proxy, Proxy/*: _sync/http_proxy.py and _sync/socks_proxy.py. How the answer to a CONNECT
--     request, a handshake or a TLS upgrade ends is an argument; the state that is left is the result.
--   * WebSocket, WebSocket/*: the session of httpx2/websockets/_api.py, with `wsproto` as the record
--     `Protocol` and the failing writes of the socket as a test. WebSocket/Background has its threads;
--     the reads of the receiving thread come as a list. The queue of the session is not bounded in
--     the model: a full queue only makes the thread wait.
--   * Tests/*: runs at concrete inputs.
--
-- Fuel: `raise_loop` and `lower_loop` of Http2 take the number of rounds; the caller gives the
-- limit they count to, which is enough. `send_stream_data` takes the length of the data.
-- `send_handling_redirects` takes the number of rounds, and `max_redirects + 2` are enough; the
-- loops of Client also take a number of rounds, and what is stated of them holds for any, since an
-- authentication flow may go on for ever. The loop of `connect` recurs on the retries left. The
-- digits of a number (`decimal`, `hex_digits`) take at least the number itself as fuel, which is
-- enough. All other loops recur on the list that they read.
--
-- Not modelled: sockets, TLS, tracing, clocks (an instant is an argument), the third-party protocol
-- machines `h11`, `h2` and `wsproto`, the compression codecs, and the generated choice between
-- threads and tasks (the asynchronous files hold the same code as the synchronous ones). Cookies,
-- the class URL, the options that a client merges into a request and the opening of a WebSocket are
-- left out so far.
pub mod Prelude
pub mod Origin
pub mod Pool
pub mod Http11
pub mod Http2
pub mod Connection
pub mod Decoders
pub mod Url
pub mod Sse
pub mod Headers
pub mod Redirects
pub mod Client
pub mod WebSocket
pub mod Proxy
pub mod Mounts
pub mod Auth
pub mod Multipart
pub mod Content
pub mod QueryParams
pub mod Response
mod Tests
