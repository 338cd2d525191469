-- ===== src/Lib.antt =====
-- uproxy: a reverse proxy in C++20. Clients speak HTTP/1.1 or HTTP/2 to the server
-- (src/proxy.cpp), which parses their requests, chooses an upstream, takes a connection to it from a
-- pool and passes the request on.
--
-- The parts and their files:
--   Base      what the parts share: tests, lists, texts and integers over the native numbers, and
--             the errors and results of include/uproxy/result.h and src/result.cpp.
--   Buffer    src/buffer.cpp: `RingBuffer`, which every reader and writer works on. Window and Fifo
--             read it as a queue of bytes; Append is about growing and writing.
--   Config    include/uproxy/config.h and src/config.cpp: the configuration. Values, File, Cli and
--             Validate have the readers, the command line with the start of src/main.cpp, and the
--             validation; Numbers and Address read back what is printed, Bounds and Loaded follow
--             the numbers, Usable says what is accepted.
--   Balancer  src/load_balancer.cpp: `WeightedRoundRobin`. Scan is the loop of `next`, Choice what a
--             call does, Owed and Fair the shares over many calls.
--   Hpack     src/hpack.cpp: header compression. Header and HuffmanTable hold the static data, Table
--             the dynamic table, Huffman the code, Encode and Decode the two classes; the other
--             children prove their laws.
--   Http1     src/http1.cpp: Message has the data, Parse and Start the parser, Serialize the writer;
--             Fields, Sound and Rounds are about what the parser accepts.
--   Http2     src/http2.cpp: Frame and Reader are the framing layer, Conn and Handle the connection
--             with its streams, which uses Buffer, Hpack and the framing layer; Wire, Messages,
--             RoundTrip and Body are about frames that are written and read back, Safe, Streams,
--             Steady and Process about a connection that receives any bytes.
--   Fd        src/fd.cpp: `Uniquefd`.
--   Pool      src/upstream_pool.cpp: `UpstreamPool`. Steps is a pool with any number of
--             callers, Faults how it gets stuck, Manager has connecting and `PoolManager`.
--   Loop      include/uproxy/event_loop.h. Epoll is src/event_loop_epoll.cpp and Kqueue
--             src/event_loop_kqueue.cpp; Queue is the interface of their timers, which Timers and
--             OneShot fill, and Ticking its client, the timer of the server; Filters is about what
--             the kernel watches.
--   Tls       src/tls.cpp: Alpn is the choice of the protocol, Boring the build with BoringSSL and
--             Fallback the build without; Offers, Negotiated and Queue prove their laws.
--   Proxy     src/proxy.cpp: the server, on top of all others. System and Send are its calls of the
--             system, Response and Upstream the exchange with an upstream, Client the client's
--             socket, Http1 and Http2 the handlers of the two protocols, Server the callbacks of
--             the event loop, Run the loop that calls them, Listen the start of the server. Delivery,
--             Receive, Reply and Ending are about the bytes that go through, Slots, Lost and Exhausted
--             about the pool, Serving about a request of HTTP/1.1, Uppercase about a response of HTTP/2, Names
--             about names of headers, Served, Clients and Reachable about the states of the server, Loops
--             about the handlers as `run` calls them. Cipher and Secure are the functions for a client
--             with TLS, Ciphertext, Plaintext and Written about their bytes.
--   Entry     src/main.cpp: `main`.
--   Log       src/log.cpp: the lines of `Logger`. Line is about their ends.
-- The tests and examples of a part are in its module Tests, those of `run` and of a client with
-- TLS in Proxy/LoopTests, that of a state of the server in Proxy/StateTests.
--
-- A function of the model has the name of the function, method or loop that it translates, and is
-- `make` for a constructor. A method that changes its object takes and returns the record of the
-- members; one that can fail returns `Result`, whose `stuck` stands for a loop that ran out of fuel or
-- of answers and for nothing in the source. A byte is a number, a text and a vector of bytes are lists of
-- numbers. Numbers are unbounded, and wrap (`% 2 ^ w`) where the source's can: a vector holds fewer
-- than 2 ^ 63 bytes, so sums of two sizes do not. A map is an association list, a `shared_ptr` to an
-- endpoint an index.
--
-- Loops are structural recursion, or recursion on fuel: the length of the data in `append_loop`,
-- `write_chunks`, `parse_lines` and `decode_loop`, each round of which takes a byte at least; one
-- round more than there are bytes in `process_frames` and in `scan_offers`; the number of entries in `evict_loop`; ten
-- groups of seven bits in `encode_rest`; five bytes in `flush_bytes`; sixteen digits in `hex_loop`.
--
-- What the system answers is an argument: the values of `send`, `recv` and `poll` in the order of the
-- calls (`Returned`, `Poll`, `Attempt`), of `connect` and its companions (`Dial`), of `accept`
-- (`Accepted`), of `epoll_wait` and `kevent` (`Round`, `TimerAnswers`, `Moment`), of the library for TLS
-- (`SslResult`), the files that `std::ifstream` opens and that `stat` finds. A function whose answers
-- do not reach its end is `stuck`. What a handler does to the event loop is the interest that its
-- client is left with: a call of `modify` that fails, which src/proxy.cpp ignores, is not modelled, so
-- the interest is the one that the handler asks for.
--
-- Not modelled: a server whose clients have TLS as one state: what src/proxy.cpp does for such a client
-- is modelled function by function (Proxy/Cipher, Proxy/Secure), and `run` is the one of a build without
-- BoringSSL, which refuses to start with TLS on; the calls of the logger; the calls of `signal`.
-- A pool counts the `connect`s that fail in a counter of its own: src/upstream_pool.cpp adds them to
-- the endpoint's `failed_requests`, so the model's `stats` of the balancer lack them.
-- A mutex makes each section under it one step. The allocation of memory does not fail.
pub mod Base
pub mod Buffer
pub mod Config
pub mod Balancer
pub mod Hpack
pub mod Http1
pub mod Http2
pub mod Fd
pub mod Pool
pub mod Loop
pub mod Tls
pub mod Proxy
pub mod Entry
pub mod Log
