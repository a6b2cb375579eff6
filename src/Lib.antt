-- ===== src/Lib.antt =====
-- OpenCensus for Go (module github.com/cloudian/opencensus-go): the data that the library keeps
-- and the formats it sends, modelled from the Go source, with the theorems that make them right.
--
-- The program. Tags are maps of keys to values that travel with a request (package tag). Samples
-- are recorded against views, which group them by tag values (packages stats and stats/view).
-- Spans record what a request does (package trace); finished spans are kept for the debug pages
-- in stores of bounded size. A view's collector asks the tag map for its values and writes them
-- with internal/tagencoding. A span holds evicted queues for its events; its end puts its data
-- into the store of its name, which has a bucket for each range of latencies and each error code.
-- Span contexts go over the wire in the headers of package plugin/ochttp. Gauges and cumulatives
-- (package metric) are kept by label values; the worker of the views turns what its collectors
-- hold into the same metric data.
--
-- The files. A `pub mod` line names each part; its folder holds the proofs about it.
--   Prelude      shared names, Boolean tests, lists, Go maps as association lists, and the newest
--                items of a list (Prelude/Newest)
--   Buffer       `copy` and the growth of a byte buffer
--   TagEncoding  internal/tagencoding/tagencoding.go
--   Tag          tag/map.go, tag/metadata.go; Tag/Validate is tag/validate.go and tag/key.go,
--                Tag/Mutators the mutators and `New`, Tag/Codec tag/map_codec.go with the varints
--                of the standard library in Tag/Varint
--   Trace        trace/basetypes.go and trace/export.go; Trace/EvictedQueue, Trace/Bucket,
--                Trace/SpanStore, Trace/LruMap are the files of these names; Trace/Span is
--                trace/trace.go and trace/config.go, with its calls in Trace/Span/Operations and
--                its end in Trace/Span/Finish; Trace/TracestateEntries is
--                trace/tracestate/tracestate.go, Trace/Propagation trace/propagation/propagation.go,
--                Trace/Span/Starting the start of spans from a context, Trace/Ids the identifiers
--                of trace/trace.go, Trace/Sampling trace/sampling.go, Trace/Exporters the exporters
--                of trace/export.go, Trace/SpanStore/Summary and Trace/Span/Active the reports of
--                trace/spanstore.go for the debug pages, Trace/Codes the names of status codes
--   Stats        Stats/Measures and Stats/Recording are stats/measure.go and stats/record.go with
--                the files of the two kinds of measures; Stats/Aggregation, Stats/AggregationData,
--                Stats/Views, Stats/Collector and Stats/ViewToMetric are stats/view/aggregation.go,
--                aggregation_data.go, view.go, collector.go and view_to_metric.go; Stats/Worker is
--                worker.go and worker_commands.go, with the loop of `start` in Stats/Worker/Serve
--   Resource     resource/resource.go
--   Sanitize     internal/sanitize.go
--   Floats       the float64 operations that the code uses; Floats/Whole is for the examples
--   Metric       metric/metricdata; Metric/Base and Metric/Labels are metric/common.go,
--                Metric/Entries metric/gauge.go and metric/cumulative.go, Metric/Registry
--                metric/registry.go, Metric/Manager metric/metricproducer/manager.go,
--                Metric/Reader metric/metricexport/reader.go
--   Http         plugin/ochttp/propagation: Http/TraceContext and Http/B3 are the folders of these
--                names, Http/Hex the hexadecimal text of the standard library; Http/Status is
--                plugin/ochttp/trace.go, Http/Tracker plugin/ochttp/client_stats.go
--   Grpc         plugin/ocgrpc: stats_common.go and the statistics handlers of clients and servers
--
-- Conventions. A function has the name of the Go function in snake case. A pointer method returns
-- the new record. A string or byte slice is the list of its bytes. A panic is `none`, or `panic`
-- in the package tag. A Go map is an association list, and a statement for every list holds for
-- every order of a range loop. Lengths that Go converts wrap at 8 and at 64 bits. Times are
-- nanoseconds, an int64 of a metric is its bit pattern. Locks and channels are left out: a function
-- is one critical section. Trace/Span/Stores takes the calls in any order, Stats/Worker/Serve the
-- commands, and Metric/Entries/Concurrent interleaves the goroutines of a compare-and-swap loop.
-- Objects that are shared by pointer (a registered view, a registered metric) have an address,
-- under which a heap keeps them; a view that a client changes after it registered it is not
-- followed.
--
-- Fuel. The loop of `DecodeEach` has as fuel the length of the input, which is enough since each
-- round reads a byte; the loop of `NewSpanID` has two rounds, which are enough since its step is
-- odd.
--
-- Parameters. The cache of groupcache/lru is the record `Lru`, float64 arithmetic the record
-- `Floats`; samplers, the clock, new identifiers and random numbers are arguments. What a collector
-- calls on its data is the record `Aggregator`, which Stats/ViewToMetric fills.
--
-- Not modelled: zpages and the exporters, whose work is output; the plugins for HTTP and gRPC but
-- for the propagation, the statuses, the statistics of HTTP clients and those of gRPC; the plugin
-- for the Go runtime's metrics, the label texts of resource, the texts of errors, and the profiler
-- labels.
pub mod Prelude
pub mod Buffer
pub mod TagEncoding
pub mod Tag
pub mod Trace
pub mod Stats
pub mod Resource
pub mod Floats
pub mod Metric
pub mod Http
pub mod Grpc
pub mod Sanitize
