-- ===== src/Lib.antt =====
-- Verification of gudgeon, a caching and blocking DNS server: the stores that hold the rules of block
-- and allow lists, the response cache, the resolvers, the pool of upstream connections, and the engine
-- that handles a request.
--
-- A request is looked up in the cache, matched against the lists of the consumer's groups, and sent
-- to a resolver, which takes a connection from the pool. The parts that are modelled:
--
-- - Util/Strings, Util/Domains, Util/Dns: util/strings.go, util/domains.go, util/dns.go. Texts are
--   lists of bytes (Prelude/Text). `domain_list` is DomainList, whose loop runs on fuel: one round
--   more than the name has bytes, and one for the test that ends it.
-- - Config/Lists: GudgeonList of config/config.go and its VerifyAndInit of config/config_init.go.
-- - Rule/Line: ParseLine and IsComplex of rule/rule.go.
-- - Rule/Base, Rule/Load: rule/store.go. `StoreOps` is the interface Store over an explicit state;
--   `BaseStore` is baseStore; `create_store` and `reload_list` are CreateStore and its listener, on
--   the lines of the lists' files, for any store. A panic is `none`.
-- - Rule/Memory, Rule/Hash, Rule/Hash32, Rule/Bloom, Rule/Complex, Rule/Reloading: the stores of the
--   files rule/store_memory.go, rule/store_hash.go, rule/store_hash32.go, rule/store_bloom.go,
--   rule/store_complex.go with rule/rule_complex.go, and rule/reloading_store.go. A store that may ask
--   another one takes the methods of that one as the argument `inner`.
-- - Rule/Assembled: the store of CreateStore in rule/store.go, a reloading store over a complex store
--   over the chosen one. Rule/Complex/Plain says when the chosen one decides alone.
-- - Rule/Spec: what FindMatch promises, told from the registered lists and a test of what each holds.
--   Rule/Load/Laws has the interface `StoreLaws` that a store fills to be known to keep the promise;
--   Rule/Memory/Session and Rule/Hash/Session fill it. Rule/Search is sort.Search.
-- - Cache: cache/cache.go. The clock readings of a call are its arguments, in nanoseconds.
-- - Resolver: resolver/resolver.go and resolver/resolver_map.go. `Context` is the ResolutionContext
--   with the cache of its map; the sources are the argument `ask`, which may change the context. A
--   response is a value: what a write through a shared message does to the cache is left out.
-- - Config/Groups, Config/Settings, Config/Names, Config/Init: config/config.go and
--   config/config_init.go: the records, the verification of the settings, the maps of names, and the
--   whole with its loading. What reading and unmarshalling a file gives is an argument.
-- - Util/Time: util/time.go over Go's parser of durations, which is the argument `parse`. A number is
--   printed with one round of fuel more than the number is.
-- - Engine/Consumers, Engine/Bootstrap: engine/engine.go and engine/engine_init.go, how an address
--   leads to a consumer, and how the bootstrap makes groups and consumers of the configuration.
-- - Engine/Groups, Engine/Handle, Engine/Entry: engine/engine.go, how a request is matched, resolved and followed
--   along aliases. FindMatch of the store is the argument `find`, AnswerMultiResolvers of the map of
--   resolvers the argument `resolve` over a state `W`, without its error. A call comes to an answer,
--   to a panic or, where the fuel for aliases runs out, to no end. Engine/Handle/Aliases says when
--   the fuel is enough.
-- - Resolver/HostFile: resolver/hostfile_source.go, on the lines of the file. Its loop that removes
--   adjacent spaces has one round of fuel for each byte.
-- - Resolver/Sources: resolver/multi_source.go, resolver/loadbalancing_source.go and
--   resolver/resolver_source.go. The load balancing source has its index as state, which all requests
--   share: the argument `others` says how many turns other requests take between the rounds of one.
--   Its loop has one round more than there are sources.
-- - Resolver/DnsSource: how resolver/dns_source.go reads a specification, with net.ParseIP as the
--   argument `parse_ip`; sending over the pool is left out.
-- - Engine/Counters: the counters of engine/metrics.go, and how engine/engine_init.go counts rules.
--   An int64 is its remainder modulo 2 to the power of 64.
-- - Pool: pool/dns_pool.go. The channel is a list of slots with its capacity; an operation returns,
--   waits or panics. Every method works on a copy of the struct, which is what `keep_flag` says.
--
-- Numbers are natural numbers; a number of 32 bits is reduced where the source converts to one. The
-- loop of Shutdown has one round of fuel more than the channel has slots, sort.Search one round for
-- each index.
--
-- Parameters, with what is relied on as fields or hypotheses: the case-insensitive comparison of
-- sortfold (`FoldOrder`), murmur3 (`sum`), the filters of willf/bloom (`BloomFilter`), go-glob and
-- regexp (`glob`, `compile`), go-cache (`Backer`), the printing of miekg/dns (`Printing`), its names
-- and replies (`Outside`), the addresses of net (`Net`), dialing.
--
-- Not modelled: the SQLite store and everything else that talks to a database, the
-- other sources, the recorder, the provider, events, web pages, commands, locks, logs and files. A list, a record and a
-- connection that a method is given are not nil where the source does not test them.
pub mod Prelude
pub mod Util
pub mod Config
pub mod Rule
pub mod Cache
pub mod Resolver
pub mod Pool
pub mod Engine
