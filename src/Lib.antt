-- ===== src/Lib.antt =====
-- agen reads an AsyncAPI 3 document and generates Go code from it; generated code publishes and
-- receives messages through a runtime. This library models the configuration, the parser of
-- documents, parts of the generator, and the runtime for Redis, and proves what they promise.
--
-- The parts of the program, and the files that model them. A run of cmd/agen finds and loads its
-- configuration (internal/config), decodes the document (asyncapi), resolves and checks it
-- (asyncapi/parser), and hands the result to the generator (internal/lowering, internal/ir, gen).
-- Generated code calls runtime/broker for the messages it exchanges with a backend, such as
-- runtime/redis.
--
-- - Prelude: what the other files share. Prelude/Tests has the Boolean tests on numbers, Prelude/Lists
--   lists measured by native numbers, Prelude/Int signed integers, Prelude/Text texts and maps with
--   texts for keys, Prelude/Result the results of fallible code with their do blocks.
-- - Config: internal/config/config.go. `load`, `set_defaults` and `auto_discover` are Load, setDefaults and
--   AutoDiscover. Config/Loaded has the proofs.
-- - AsyncApi: the errors of the parser, and `Pointers`, the package for JSON pointers that it calls.
-- - AsyncApi/Server: parseVersion, validateInfo, parseServers and resolveServerRef of
--   asyncapi/parser/parser.go. Server/Version and Server/Complete have the proofs.
-- - AsyncApi/Traits: asyncapi/parser/traits.go. `set_absent` is the rule of setString, mergeSecurity and
--   mergeTags, `merge_bindings` the three functions mergeBindings..., `merge_operation_traits` the traits
--   of operations. Traits/Merged and Traits/Bindings have the proofs.
-- - AsyncApi/Address: addressTokens and validateAddressParams of asyncapi/parser/parse_operation.go, with
--   the proofs in Address/Cutting and Address/Template.
-- - AsyncApi/RedisBinding: asyncapi/parser/parse_redis.go, the x-redis extension. RedisBinding/Sound has
--   the proofs.
-- - AsyncApi/Message: mergeMessageTraits, parseMessage and the checks of schema formats and content types.
--   Message/Kept and Message/Content have the proofs.
-- - AsyncApi/Message/Pointer: parseMessagePointer with its cache, parseMessageRef, parseMessagesList,
--   parseMessagesMap, and ptrLastSegment and sortedKeys of asyncapi/parser/utils.go. A `*Message` is a
--   place in the heap of `Store`. Pointer/Sharing is about the cache,
--   Pointer/Heap and Pointer/WellFormed about the heap, Pointer/Fuel about termination, and
--   Pointer/Sorting about the order of keys; Pointer/Staying is about what the store keeps, and
--   Pointer/Listed about the messages that a list of references is to.
-- - AsyncApi/Channel: the state of the parser with its three stores, and parseParameterPointer,
--   parameterFrom and parseServerRef. Channel/Traits has mergeChannelTraits, Channel/Parsing has
--   parseChannel, parseChannelPointer and parseChannelRef. Parsing/Sharing is about the cache of channels,
--   Parsing/Declared about their parameters and addresses, Channel/Renamed about parameters that
--   channels share, Channel/Storing, Channel/Growing, Channel/Built and Channel/WellFormed about the
--   stores, Channel/Decoded about what the cache of channels holds, and Channel/Referred about the channel
--   that a reference is to.
-- - AsyncApi/Operation: parseOperations, parseOperation, resolveOperationRef and parseReply. The
--   modules Operation/Resolved, Operation/Linked and Operation/WellFormed have the proofs.
-- - AsyncApi/Extensions: AliasXExtensions of asyncapi/extensions.go, over the tree of nodes, with the proofs
--   in Extensions/Aliased.
-- - Gen: the errors of gen/generator.go. Gen/Features has BuildFeatures, Gen/Unsupported `Generator.fail`,
--   Gen/Backend brokerBackend, Gen/Sorting sortStrings and the key of a sum type, Gen/Names goNameOf,
--   nameSchemaRef and reserveName, and Gen/RedisDefaults redisBindingDefaults, over the channels and
--   operations that the parser leaves. The modules below them have the proofs.
-- - Gen/Ir: internal/ir/operation.go, the operations, channels and messages to generate.
-- - Gen/Parts: buildChannel, buildMessage and prettyDescription of gen/generator.go. A `*parser.Channel`
--   and a `*ir.Channel` are places in two lists, and seenChannels is a map between them; so for messages
--   with builtMsgs.
-- - Gen/Building: buildOperation, with the sum types. Building/Placed and the modules beside it have the
--   proofs, also those about Gen/Parts; Building/Quiet, Building/Shared and Building/Typed are about the
--   map of sum types.
-- - Gen/Generator: NewGenerator and build, with the loop over the servers, the filter of operations, the
--   send operations for replies and the wiring. Generator/Operations, Generator/Linked,
--   Generator/Built, Generator/Shared and Generator/Safe have the proofs, and Generator/EndToEnd joins the parser and the
--   generator: the heaps that the one leaves are what the other reads.
-- - Broker: the messages of runtime/broker/broker.go, and its Chain in Broker/Chain.
-- - Redis: runtime/redis/redis.go, the publishers and consumers with their constructors, whose proofs are in
--   Redis/Config. Redis/Streams has Publish and the entries of streams, Redis/PubSub the envelopes,
--   Redis/Reading the loops that read, and Redis/Reclaimer the loop that claims pending entries. The
--   modules below them have the proofs.
--
-- How code becomes a model. A Go string is its bytes, a Go map the list of its entries in the order in
-- which `range` visits them, and a theorem that needs the keys to be distinct says so. A function that
-- returns an error returns a `Result`; an error is a message of the code, without the location that
-- wraps it. Where the code mutates an object that others share, the object has a place in a heap; where
-- only the caller sees it, the new object is returned. A loop over what the outside answers, such as the
-- loops of runtime/redis, is a function of the list of these answers, and what it asks for goes into a
-- log, so a theorem about it holds for each order of answers.
--
-- Fuel and bounds. The only fuel is that of `parse_message_pointer`, which bounds a chain of references;
-- AddKey refuses a key that the chain has met and a chain above the depth limit, so each step leaves less
-- room in the context, and more fuel than the room is enough. The other functions are structurally
-- recursive. The int64 counters of the reclaimer are natural numbers: they count claims one by one. The
-- maxLen of the x-redis extension is an integer without bounds.
--
-- Parameters of the model: the packages for JSON pointers, JSON schemas, YAML and JSON, regular
-- expressions, the Redis client and the server behind it, the file system, and the package for paths,
-- whose code is not in the repository; and, of the copies of packages of ogen, the rules for Go names
-- and the engine that lowers schemas to Go types.
--
-- Not modelled: locations of errors, logging and waiting times; asyncapi/expand.go; the imports, the
-- warnings and the equality methods of the generator gen, its templates and the files that it writes;
-- the command cmd/agen; internal/lowering, the types of internal/ir, internal/naming, internal/xmaps,
-- internal/xslices, internal/bitset, runtime/validate, runtime/codec, runtime/conv and
-- runtime/ogenregex, which are copies of packages of ogen; the generated code below
-- internal/integration and examples.
mod Prelude
pub mod AsyncApi
pub mod Broker
pub mod Redis
pub mod Config
pub mod Gen
