-- ===== src/Lib.antt =====
-- next-loggers is a logging library with transports for records, a coordinator of a graceful
-- shutdown and a command line. This library models these parts of its TypeScript implementation:
--   * src/shutdown.ts: Shutdown.antt has the coordinator as the record `Coordinator`, whose phases
--     are running, draining, forcing and stopped; `request`, `begin_drain`, `begin_force` and
--     `finish` are the methods of these names. Shutdown/Steps has the step function: a request, the
--     deadline, and the end of each callback are events, and a schedule is a list of events.
--   * src/browser-stream.ts: CursorQueue.antt has the queue with a head cursor, and BrowserStream
--     the transport that uses it: `write`, `schedule`, `flush`, `flush_on_exit` and `close`. A
--     flush that waits is a value of `Flight`, and its continuations are events.
--   * src/loki.ts: Loki.antt has the transport, whose pending records are named by the number of
--     their `write`, so that the settling of each promise is logged; Loki/Push has the loop that
--     posts a batch again, and Loki/Payload the labels and the grouping into streams.
--   * src/cli/spec.ts and src/cli/argv.ts: Cli/Spec has the types of the flag tables and their
--     lookups, Cli/Argv the parser, one function for each kind of token, and Cli/Flags the defaults
--     and the readers of a flag's value; Cli/Tables has the tables of the source.
--   * src/prometheus.ts: Prometheus.antt has the labels and the choice of a series within the bound
--     (`choose_series` is `MetricBase.labels` behind the normalization), Prometheus/Values the
--     counters and gauges, and Prometheus/Histogram the filling of buckets. JavaScript numbers are
--     the parameter `Numbers`. Registration, the rendering of whole metrics and the decorated
--     transport are left out; Prometheus/Rendering has a reader of the text format for the
--     rendered labels.
--   * src/server-lifecycle.ts: Lifecycle.antt has the controller of a server's shutdown:
--     `request_graceful`, `force`, and what follows each of their awaits; Lifecycle/Steps makes a
--     step function of it, whose events are signals, deadlines and the ends of hooks.
--   * src/base-logger.ts: BaseLogger/Serialize has the serialization of values, which live in a
--     heap and so may be cyclic, BaseLogger/Event the event that a logger call makes and its
--     record, BaseLogger/Http the choice of an endpoint, BaseLogger/Tracking the error tracking,
--     and BaseLogger/Realtime the realtime transport of Supabase with its sockets.
--   * src/otel.ts: OpenTelemetry has its attributes with their limits, OpenTelemetry/Records those
--     of a record and of a metric, OpenTelemetry/Transport the `write` of the transport as the list
--     of its calls into the application's telemetry, OpenTelemetry/Provider the context that a span
--     gives, and OpenTelemetry/Spans the work in a span.
--   * src/supabase-ingest.ts: SupabaseIngest/Queue has its queue, SupabaseIngest the transport's
--     operations (`write`, `flush`, `flush_on_exit`, `close` and their parts), and
--     SupabaseIngest/Steps what follows their awaits, as a step function over events.
--
-- The parts share no state. The transports have the same interface: `write` takes a record, and
-- the shutdown coordinator's callbacks are where an application flushes and closes them. The
-- command line writes the environment from which the loggers are configured.
--
-- Prelude has the shared names, the Boolean tests and the lemmas on lists. An asynchronous method
-- is cut at its awaits: what happens up to the first await is one step, and each continuation is
-- another, which the environment starts with an event. A step that cannot happen in a state gives
-- `none`, so a theorem on a run speaks of every schedule that can happen.
--
-- Bounds and fuel: no definition needs fuel. Each loop is a recursion on the list that it walks,
-- on the retries or the depth that is left, or on the events of a schedule. Milliseconds, counts
-- and sizes are natural numbers, and an option that the source rounds down is given as one.
--
-- Assumptions: callbacks of an application do not call back into the object that calls them. A
-- clock is a function of the number of its readings. Strings are sequences of characters where
-- the source indexes UTF-16 units, and an object is the list of its entries in insertion order.
-- `JSON`, `Number`, `Date`, `localeCompare`, `toLowerCase` and `trim` are parameters, and so are
-- the answers to requests; the parser takes the flag tables as an argument.
--
-- Not modelled: the texts of error messages, URLs and headers, the connection of the browser
-- stream (whether a send succeeds is the environment's choice), the last clearing of the timer in
-- the Loki transport's `close`, the pausing of standard input and the adapters of a server's
-- framework, the message of a record, the emission of events by a logger, the timestamps of
-- the OpenTelemetry bridge, the diagnostics of its context provider and how it joins the options
-- of a logger, the
-- credentials, URL and request text of the ingest of Supabase, contexts, the platform loggers,
-- which are glue, the commands of the command line, which are input and output, the lint plugin,
-- and the SDKs in other languages.
pub mod Prelude
pub mod BaseLogger
pub mod BrowserStream
pub mod Cli
pub mod CursorQueue
pub mod Lifecycle
pub mod Loki
pub mod OpenTelemetry
pub mod Prometheus
pub mod Shutdown
pub mod SupabaseIngest
