-- ===== src/Lib.antt =====
-- woocoo is a Go framework for services: a web server, a gRPC server and client, and the packages
-- they share. This library models the packages that carry logic of their own, and what makes them
-- correct. The components meet at few places: the resolver, the balancer and the picker of polaris
-- hand on to each other, and both gRPC and polaris share the records of services. The Redis cache
-- keeps a memory cache before it and loads through the caller's getter, both marshal with the
-- functions of pkg/cache/cache.go, and both may register in the manager of pkg/cache/global.go. The
-- key authentication and the JWT middleware read through the extractors. The middleware of signed
-- requests takes its values with the extractors and the texts of pkg/httpx/util.go, verifies with a
-- signer and stores the signature in a cache. The others stand alone.
--
-- Base            notation, lists, integers, and the operations of strings and strconv on texts,
--                 which are lists of code points
-- TimeWheel       pkg/gds/timewheel.go. The slots are lists of addresses in a heap of elements, as
--                 container/list shares them with the map of timers. add_timer, call_add_task,
--                 reset_task, call_remove_task and stop are the interface; new_time_wheel,
--                 tick_handler, add_task, move_task, remove_task, scan, update_position and
--                 get_position_and_circle are the functions of those names; serve is the loop of
--                 start, over an explicit sequence of messages.
--                 Position, Scan, Invariant, Handlers: the well-formed wheel and what keeps it so;
--                 Due, Schedule, OnTime: when a task runs; Removal, Move, Known, Loop: the other
--                 handlers
-- Security.Policy pkg/security/policy.go: deepMatchRune, arnMatch and the two MatchResource
-- TimeInterval    pkg/gds/timeinterval/timeinterval.go: the functions UnmarshalText of the five
--                 ranges, stringableRangeFromString and parseTime; Contains: ContainsTime,
--                 daysInMonth and clamp; Meaning, Times, Ranges, ShortMonth: what holds of them
-- Cache           pkg/cache/option.go and the types of pkg/cache/cache.go; Codec: DefaultMarshalFunc,
--                 DefaultUnmarshalFunc and compress; Manager: pkg/cache/global.go; Lfu:
--                 pkg/cache/lfu/cache.go; Redisc: pkg/cache/redisc/redis.go, where get_one, set_one and
--                 group are get, set and Group. Codec.RoundTrip, Lfu.Expiry, Lfu.Laws, Redisc.Laws, Redisc.Unless:
--                 what holds of them
-- Web             web/handler/extractor.go with ValuesFromHeader of pkg/httpx/util.go (Extractor, where
--                 extract runs what CreateExtractors makes), and the handler of
--                 web/handler/keyauth.go (KeyAuth, where key_auth is the function that
--                 keyAuthWithOption returns); Skip: PathSkip and PathSkipper of
--                 web/handler/middleware.go; ErrorHandle: web/handler/errorhandle.go, where
--                 handle_errors is the function that ApplyFunc returns; Jwt: web/handler/jwt.go, where
--                 jwt_middleware is the function that middleware returns; Gzip:
--                 web/handler/gzip, where serve_zipped is the function that ApplyFunc returns.
--                 Extractor.Limit, KeyAuth.Decision, Jwt.Authentic, ErrorHandle.Masking,
--                 Gzip.ReadBack: what holds of them
-- Httpx           pkg/httpx/util.go: EscapePath, getURIPath, ValuesFromCanonical and
--                 GetSignedRequestSignature; Escape: what an escaped path stands for
-- Log             pkg/log/text.go. Text: the escapes, quotes and padded numbers; Encoder: the encoder
--                 and its Add and Append methods, as fields and elements that add_field and
--                 append_element take; Entry: EncodeEntry, addFields and getCallerString. Reader:
--                 a reader of the format; OneLine, ReadBack, Text.Padding: what holds of them
-- Signature       pkg/httpx/signature.go. Config: SignerConfig and the constructors; Canonical:
--                 BuildCanonicalRequest; Scheme: StringToSign, CalculateSignature and AttachRequest,
--                 with a signer as one of three; Sign: Sign and Verify, which share calculate;
--                 Middleware: web/handler/signer/sign.go, where apply_func is the function ApplyFunc
--                 returns and accept_request what it does before the signature is stored; Scheme.Attached,
--                 Verified, Middleware.Accepted, Middleware.Replay: what holds of them; Middleware.Stored: the redis
--                 cache as the store of signatures, which is a parameter of the middleware
-- App             app.go. Run is the relation Step between the states of its goroutines, where
--                 servers and the context may take any time, and Reach what it may come to; Born,
--                 Rank, Counts: what keeps it going; Returns, Progress: when and how it ends
-- Polaris         contrib/polarismesh. Target: the options of a target and convertDialOptions;
--                 Resolver: resolver.go; Balancer: UpdateClientConnState and Build of the picker;
--                 Picker: Pick, its requests and report; RateLimit: ratelimit.go; Registry:
--                 Register, Unregister, GetServiceInfos and the driver; Context: context.go and
--                 client.go. Serving: what a pick gives
-- Grpc            rpc/grpcx. Interceptor: interceptor/jwt.go; Recovery: interceptor/recovery.go;
--                 Service: registry/registry.go; Prefix, Authentic: what reaches a handler
-- Conf            pkg/conf. Env: ParseEnv and TryLoadEnvFromFile of util.go; Tree: the parser and the
--                 configurations below another, of config.go and parse.go; Load: loadInternal and the
--                 paths; Expand: what ParseEnv gives
-- Random          RandomString of pkg/gds/random.go: fill is the inner loop, fill_rounds the outer one;
--                 Letters: what it gives, and when it gives nothing
--
-- State is passed explicitly: an operation takes the state of its component and gives the next one,
-- with an error as a value of a result type. A panic is a value too. A method under a mutex is one
-- step, and the messages of the time wheel's channels are a sequence, since one goroutine serves
-- them. A loop of the source is a recursion over the list it walks, so that no bound or fuel is
-- needed; the digits of a number have the fuel that 64 bits need, and those of a padded number the 8
-- places of the source's array. Only the outer loop of RandomString has no such list: it walks over
-- the reads of the random source, and gives nothing while they are not enough.
--
-- Numbers are naturals or integers without a limit: delays, slots, days and minutes lie far below
-- 2^63, and a delay is a number of units of time. Code points and bytes are naturals.
--
-- What the source takes from elsewhere is a parameter: the clock, the random source, the calendar
-- and the zones of time, the title case of golang.org/x/text, msgpack, s2, the TinyLFU store, the
-- Redis client, polaris-go, koanf, the file system, the groups of golang.org/x/sync, strconv for
-- floating-point numbers, the encodings of bytes, the hashes, golang-jwt, the texts of a time that
-- is signed, and what net/http and gin read of a request. A hypothesis about one is named where it
-- is used: IsCodec, Keeps, IsBounded, IsPrintable, IsSettled, IsStore, IsRedis, Chooses, Decodes, and the
-- laws of ErrGroup.
--
-- Not modelled: the loggers behind the encoder, the HTTP and gRPC servers and clients, the
-- middleware without a file above, the code generator, and the other modules under contrib, which
-- mostly set up other packages; Group of app.go, which is derived from another project. Goroutines
-- are scheduled only in App. The expiry of an item is what is handed to the store, which applies it;
-- the default cache of the signature middleware, which may evict a signature before its time, is not
-- one that IsStore speaks of.
pub mod App
pub mod Base
pub mod Cache
pub mod Conf
pub mod Grpc
pub mod Httpx
pub mod Log
pub mod Polaris
pub mod Random
pub mod Security
pub mod Signature
pub mod TimeInterval
pub mod TimeWheel
pub mod Web
