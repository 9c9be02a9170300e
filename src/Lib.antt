-- ===== src/Lib.antt =====
-- buffered-llm-proxy sits between a client and an LLM server. It reads the server's stream of
-- server-sent events, turns each event into typed segments, merges neighbouring segments while the
-- client is slow, and writes them out again as events. A request without a stream is passed on to one
-- of several upstreams. Responses are compressed, requests and responses can be watched through a
-- hub of monitors, and the command line configures it all. This library models these parts.
--
-- The parts and their files:
-- - pkg/sse/scanner.go: Sse/Lines is `bufio.Reader.ReadLine` with its buffer and the line that
--   `ReadEvent` makes of its chunks, Sse/Reader is `ReadEvent`, Sse/Encode the encoders.
-- - pkg/semantic/types.go, segments.go: Semantic/Types, Semantic/Chat, Semantic/Responses and
--   Semantic/Segment, where a segment is a data type with a constructor for each Go type, and
--   `Type`, `BytesLen`, `CanMerge` and `Merge` are functions on it.
-- - pkg/semantic/parser.go: Semantic/Metadata is the parser's state and its metadata,
--   Semantic/ChatParser and Semantic/ResponsesParser the two protocols, Semantic/Parser `ParseEvent`.
-- - pkg/semantic/serializer.go: Semantic/Serializer.
-- - pkg/aggregator/buffer.go: Aggregator/Buffer is `PendingBuffer` with `Append`, `Swap`, `Close`.
-- - pkg/aggregator/stream.go: Aggregator/Threads is `ProcessStream`: the reader goroutine, the
--   monitor of the context and the writer loop, as steps on one state; a schedule is a list of steps.
-- - pkg/metrics/metrics.go: Metrics.
-- - pkg/proxy/server.go: Proxy/Upstreams is the choice of an upstream by the model's name, Proxy/Paths
--   the joining of its path with the request's, Proxy/Headers the headers that are copied, Proxy/Bodies
--   the model in a JSON body, Proxy/Transparent `transparentProxy`, and Proxy/Completions
--   `handleStreamingEndpoint` up to its call of `ProcessStream`; Proxy/Routing is `ServeHTTP`'s
--   choice of a handler. A handler is the header that it leaves and its calls of the response writer.
-- - pkg/proxy/monitor.go: Proxy/Monitor is the hub, with the store of its channels.
-- - pkg/compress/compress.go: Compress/Accept is `SelectEncoding`, Compress/Writer the response writer
--   and Compress/Codec an encoder as it uses it. Http is what it uses of net/http:
--   Http/Response is the writer of a response, with its informational and final statuses and those
--   without a body, for a method other than HEAD and a declared length that is the body's.
-- - pkg/config/config.go: Config is `ParseFlags` and `BufferConfig`, Config/Settings its flags.
--   Config/Routes is the loop of cmd/proxy/main.go that makes the proxy's targets of the configured
--   upstreams.
-- Base holds what they share: byte strings, maps, integers, and the trimming of white space.
-- Semantic/Segment/Coalescing is the contract of the buffer: the sequence handed on is the sequence
-- taken in, with runs of neighbours merged. Tests runs the definitions on concrete input.
--
-- How the state corresponds. A Go map is an association list with one entry for each key. The map
-- that the `Extra` of all metadata values shares is a field of the parser, and the serializer is
-- given its content. A method of the buffer is one function, cut where it waits: a condition
-- variable is the flag that its one user is parked, the wake channel is its number and whether it is
-- closed. A result `none` is a panic. Counters are 64-bit words with wrap-around.
--
-- A channel of the hub is a number, its content and the `sync.Once` of its unsubscribe function stand
-- in a store.
--
-- Parameters. encoding/json and strconv are the record `Json` of Semantic/Json; the clock is a
-- number; the network is the number of bytes that bufio reads ahead. The encoders of gzip and zstd
-- are two records `Codec`; package flag, url.Parse and strconv.ParseFloat are functions.
-- The network behind the proxy is the record `Network`: what a request to an upstream gives. The
-- records `JsonObjects` and `Texts` are what the handlers use of encoding/json and fmt, and `Clock`
-- the number of a session and its times; `ObjectsRoundTrip` of Proxy/Bodies/Renaming is the hypothesis
-- that encoding/json encodes what it has decoded.
--
-- Bounds. There is no fuel but in `Sse.Lines.lines` and `trim_space`, whose fuel is the length of
-- the input: each round consumes at least one byte. Sizes in bytes are unbounded numbers, since they
-- count memory that is held.
--
-- Not modelled: the other handlers of pkg/proxy/server.go, the start of the server in cmd/proxy, the
-- timing and token counting of `ProcessStream`, failures of the client's writes, and the reports of the
-- metrics.
pub mod Base
pub mod Semantic
pub mod Metrics
pub mod Sse
pub mod Aggregator
pub mod Http
pub mod Compress
pub mod Proxy
pub mod Config
pub mod Tests
