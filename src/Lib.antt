-- ===== src/Lib.antt =====
-- Tobey is a web crawler that runs as a service or from the command line. A request names URLs and
-- becomes a run. URLs to visit go through a work queue with one queue per host, each with a rate
-- limiter; a promoter moves messages from the host queues to a default queue, from which a pool of
-- visitors takes jobs. A visitor lets the run's collector fetch the page, feeds response times and
-- headers back to the queue's limits, and decides what happens after a failure. The collector
-- enqueues the links of a page that the run allows and has not seen. Reporters take results and
-- progress.
--
-- Which file models which part, with paths from the repository's root:
-- - Ctrlq/ models internal/ctrlq: Job (job.go), Hosts (util.go), Limiter (limiter_memory.go),
--   Controlled (controlled.go), Optimizer (optimizer.go), Memory (memory.go), Promoter (promoter.go).
--   A call of the queue is a function from queue to queue. History combines them: Consume's goroutine,
--   a step relation of all calls and the promoter's turns, and the states that are reached. Arrival
--   follows a message from its publication to a worker. Wakeups is about what wakes the
--   promoter, and how long it holds a queue back.
-- - Progress, Progress/Memory and Progress/Factorial model internal/progress.
-- - Visitor models visitor.go over a world of which it knows the operations that it calls.
-- - Collector models internal/collector: IsVisitAllowed and the other checks, and in Fetching scrape,
--   fetch, the HTTP backend and the callbacks of the collector that NewCollector sets up. In
--   Collector/Requests are request.go, and scrape and fetch with callbacks of every kind.
-- - Host models host.go and the authentication of api.go; Run the data of run.go; RunManager models
--   runmanager.go. HttpClient models the layers that httpclient.go puts around a transport.
-- - Store models store_memory.go, Store/Redis models store_redis.go. Store/Contract is what a store
--   owes its clients: an abstract state, each call on it, and what it is for a store to refine that.
-- - Collector/Callbacks models the callbacks of internal/collector/callbacks.go, with Handlers for
--   handleOnHTML and handleOnXML; Collector/Charset models fixCharset of response.go,
--   Collector/Elements the accessors of htmlelement.go, and Collector/Elements/Xml xmlelement.go.
-- - Api models the requests of api.go and the run that routes.go makes of one; Robots models robots.go;
--   Sitemaps models Discover of sitemap.go, and Sitemaps/Drain its Drain.
-- - Console models the request of the command line and cli of main.go; Config models configure.go;
--   Service models visitorpool.go and the handlers of routes.go, and Service/Startup service of main.go
--   up to its wait, maybeRedis of conns.go and CreateWorkQueue of internal/ctrlq/main.go.
-- - Reporters models the DSNs of conns.go and internal/result, and Reporters/Reports the reporters;
--   Reporters/Collecting models the collect function of run.go.
-- - System puts queue, progress and runs into one world and makes them the parts of a visitor, as
--   main.go does; System/Enqueue adds the enqueue function of run.go and the first loop of Start, and
--   System/Crawl models Start as a whole. System/Visiting gives the
--   visitors the collector and the client that run.go makes for a run; System/Discovery is about what
--   is published in the course of a crawl.
-- - Observe models observe.go and otel.go; Pulse models the display of cmd/pulse/main.go.
-- - Chan, Url, Headers and Failure stand for what the code uses of Go: buffered channels in a select
--   with a default, net/url's parsed URLs, HTTP headers, and the errors that a visit ends with.
-- - Common holds the helpers that all share, Tests the runs at concrete inputs.
--
-- Conventions. A result of `none`, where a function changes state, is a panic. Times and durations
-- count nanoseconds and are not negative; rates count billionths of a request per second. The
-- counters of type uint32 wrap at 2 ^ 32, and an int32 is its bit pattern. One reading of the
-- clock serves a call. A call under a lock, or on a concurrent map, is one step, and so is the
-- look for a host's queue together with the making of a new one. Calls of enqueue follow one
-- another: two that overlap, with the same URL, may both publish it, which the code says and the
-- model does not represent. An AuthConfig has a host, and a Retry-After names no time in the past.
-- Every loop is a recursion on a list, or on the number of turns that a range has left. Only the
-- sitemaps' recursion is on fuel: a depth of nesting, which is enough when it exceeds the rank of
-- a URL among indexes that are not nested in circles. Keys in Redis do not expire. Start hands
-- sitemaps to goroutines, which it does not wait for: its outcome lists them, and what they do is
-- among the later turns in System/Visiting/Once.
--
-- Parameters. Third-party and library code is an argument of the definitions that use it: URL parsing,
-- the token bucket, the LRU cache, hashing and encoding, robots.txt data, the patterns to ignore, the
-- HTTP client, gzip and HTML parsing. What the proofs rely on are fields of these records: a limit is
-- read back as it was set, a cache gives back what was added and not what it evicted, a file system and
-- Redis read back what was written.
--
-- Not modelled: logging; the metrics and traces themselves; the stop of the service and of
-- goroutines; caching and retrying of the HTTP client, which third-party round trippers do; the
-- terminal in which cmd/pulse draws; the names of files that response.go and security.go make of a
-- response, which nothing in the program calls.
pub mod Common
pub mod Chan
pub mod Url
pub mod Headers
pub mod Failure
pub mod Ctrlq
pub mod Progress
pub mod Host
pub mod HttpClient
pub mod Run
pub mod Store
pub mod RunManager
pub mod Visitor
pub mod Collector
pub mod System
pub mod Robots
pub mod Sitemaps
pub mod Api
pub mod Console
pub mod Config
pub mod Service
pub mod Reporters
pub mod Observe
pub mod Pulse
pub mod Tests
