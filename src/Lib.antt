-- ===== src/Lib.antt =====
-- curlu: a curl-compatible HTTP client with controllable TLS and TCP fingerprints.
--
-- `ParseArgs` (internal/curlu/options.go) reads the command line; `expandGlob` (glob.go) makes several
-- URLs of one; `execute` (client.go) checks the URLs and the request headers, chooses addresses by the
-- `--resolve` rules, connects, and sends a request and reads a response for each URL, over HTTP/1.1,
-- HTTP/2 (http2.go) or HTTP/3 (http3.go); utls.go changes the ClientHello of a TLS connection; a JA4T
-- fingerprint (ja4t.go) makes the client craft its own SYN, and the TCP connection behind it is run in
-- user space (tcpraw.go).
--
-- Base, Text and Number hold what the components share: byte texts as lists of numbers below 256,
-- Go's `(value, error)` as `Result`, the functions of `strings` and `strconv` that the source calls.
-- Glob: internal/curlu/glob.go. Glob/Defs holds `expandGlob` and `expandRange`; Glob/Grammar is
--   a grammar that gives what a text denotes without any order of evaluation.
-- Fingerprint: internal/curlu/ja4t.go, with `synackMSS` and `timestampEcho` of tcpraw.go. Sizes of the
--   SYN's options are those of the bytes that gopacket writes.
-- Tcp: internal/curlu/tcpraw.go, `ja4tConn`. Tcp/Handshake is `handshakeJA4T` with `pump`, on the
--   packets that arrive; an error that `pump` meets later is an event of the connection. Each method
--   holds the lock, and so is one step on the state; a wait of `Read` is a result `waits` with its
--   deadline, and `read_woken` is what follows it. What the packet socket does and the clock says is a list of moments in the state.
--   Sequence numbers wrap at 2^32, the packet number at 2^16. gopacket's serialisation is left out: a
--   packet is the header that the source fills in, with its payload.
-- Options: internal/curlu/options.go, and `resolveUTLSHello` of utls.go. `strconv.ParseFloat`,
--   `net.ParseIP`, `strings.ToLower`, `strings.EqualFold` and the identities of uTLS are a record
--   `Outside` that every function takes. The texts of errors are left out, their kinds are kept.
-- Request: internal/curlu/client.go, from the header arguments to the bytes of an HTTP/1.1 request. What
--   net/url answers for a URL is the record `Url`; how `utf8` finds the end of a character is an
--   argument of `safe_version`.
-- Resolve: internal/curlu/client.go, `lookupResolve`, `canonicalPort` and `checkTransportOptions`.
-- Fault: Go's errors, by what `errors.Is` and `errors.As` answer for them.
-- Response: internal/curlu/client.go, `readHeaderBlock`, `readNextResponse`, `readResponse`,
--   `receiveError`, `writeAll`. A reader is the slices that `ReadSlice` will return, an output the list of
--   what it takes at a time; `http.ReadResponse` is an argument.
-- Hello: internal/curlu/utls.go, the changes that `handshakeUTLS` makes to the ClientHello of uTLS, an
--   extension list, with its failures, and what it takes the end of the handshake for. Building and
--   marshalling a ClientHello are a record `Utls`.
-- Connect: internal/curlu/client.go and tcpraw.go, `parseTargets`, `parseURL`, `dial`, `connect` and
--   what they call. `url.Parse` is an argument, the dialler and the resolver are a record `Net`: each
--   attempt has a number, an outcome and whether the context is done behind it.
--   Connect/Quic is the same for http3.go, with the time behind each attempt.
-- Muxed: internal/curlu/http2.go, `buildMuxedRequest` and `muxedRequests` for HTTP/2 and HTTP/3. The
--   round trip of the library is an argument; an `http.Header` is a list of keys with their values.
-- Execute: internal/curlu/client.go, `execute`, which composes the parts, with `roundTripHTTP2` and
--   `executeHTTP3`. Connections, the sending and the arriving bytes are a record `Env`.
-- Program: internal/curlu/run.go, `Run` and `report`, from the arguments to the exit code.
--
-- Fuel: the loop of `expandGlob` has the length of the text, `ParseArgs` the number of its arguments,
-- `Write` the number of its bytes; each round takes at least one.
-- `readResponse` has more than the number of slices, since a header block takes at least one.
-- `FormatUint` has the number itself.
--
-- Not modelled: the raw sockets (tcpraw_linux.go), the TLS handshake itself (uTLS), the protocols
-- of HTTP/2 and HTTP/3 (golang.org/x/net/http2, quic-go), and the diagnostics (verbose.go, versions.go,
-- `formatMuxedRequest`): mostly calls of libraries and of the system. The texts
-- of messages and the help text are left out too.
pub mod Base
pub mod Text
pub mod Number
pub mod Glob
pub mod Fingerprint
pub mod Tcp
pub mod Options
pub mod Request
pub mod Resolve
pub mod Fault
pub mod Response
pub mod Hello
pub mod Connect
pub mod Muxed
pub mod Execute
pub mod Program
