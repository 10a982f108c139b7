-- ===== src/Lib.antt =====
-- The workflow platform under app/: HTTP commands publish events on Kafka, workers consume them,
-- projections write the read side, and an execution service runs agent workflows that report
-- their steps as events.
--
-- How a Python call is read. A function that changes state or may raise is an `Action`: it takes a
-- state and gives a result, a value or a `PyError`, beside the state that it leaves, also when it
-- raises (Effect). A payload is a `Value`, as json and pydantic see it (Value); floats are carried
-- as 64-bit patterns. What the repository does not contain is a parameter: `Broker` (how the calls
-- of the aiokafka producer end), `Host` (uuids, the clock, text conversions, the failures of the
-- publisher), `Orm` (what a model's constructor and the flush of a session refuse), `Worker`
-- (decoding, the injected handler, the failures of the database and the broker, the assigned
-- partitions), `Machine` (floating-point arithmetic, timers, the endpoint's replies), `Engine`
-- (LangGraph), `Web` (tokens and the API keys of the settings), `Database` (the answers to
-- queries), `Floats` (arithmetic and statistics), `Samples` (the metrics of a window),
-- `Dependencies` (what the health checks meet), and the queries for a deployment, for the alert of
-- a key and for the history of a metric.
--
-- The parts:
--   Events, Topics             app/domain/events.py and app/messaging/topics.py
--   Platform, Platform/Context app/core/context.py, and the publisher that the services call
--                              (PublisherProtocol and InMemoryPublisher of app/messaging/kafka.py)
--   Audit                      app/modules/audit/service.py
--   Registry                   app/modules/registry/commands.py and schemas.py: one module per kind
--                              of entity; Registry/Service joins the eighteen commands in `execute`
--   Messaging/Publisher        the partition key, the headers and the key of a message
--   Messaging/Producer         start, stop and publish of EventPublisher of app/messaging/kafka.py
--   Messaging/Consumer         BaseConsumerWorker of app/messaging/kafka.py: _process_record,
--                              _is_processed, _commit, _publish_dlq and the loop of run_forever
--   Projection                 app/projections/projector.py: Session is the database session as a
--                              list of rows, Columns are those of app/db/models.py, Rows has _upsert, _update, _delete and their kin,
--                              Handlers the _handle_ methods, Service the dispatch of apply
--                              and, with the flush, ProjectionHandler of app/workers.py
--   Alerting                   process_signal and _dispatch_notifications of
--                              app/modules/alerting/service.py
--   Orchestration/Gateway      app/modules/orchestration/gateway.py
--   Orchestration/Workflow     app/modules/orchestration/graph.py: the topology and the node handlers
--   Orchestration/Steps        _step_emitter and _publish_metric of
--                              app/modules/orchestration/service.py
--   Orchestration/Service      _run_workflow and run_execution_started_event of that file
--   Orchestration/Start        create_execution of that file
--   ReadSide, and the Queries  app/db/repositories.py and the queries.py of every module
--     of every module
--   Http                       app/core/security.py; Http/Pipeline is app/core/errors.py and
--                              app/core/middleware.py around a handler, Http/Paging the page
--                              parameters of a listing
--   the Api of every module    the routes of its api.py; Registry/Api/Routed joins the routes of the
--                              commands, ReadSide/Listings those of the listings
--   Workers                    app/workers.py: a module for each handler and the Topology of
--                              build_workers; Heartbeat is heartbeat_loop of app/worker.py
--   Monitoring                 the detectors of app/modules/monitoring/anomaly.py and drift.py;
--                              Health, health.py of that directory, and Summary, percentile and
--                              performance_summary of its queries.py
--   Runtime                    the services that AppRuntime of app/runtime.py builds
--   Tests                      concrete runs
--
-- How they interact. Commands and the execution service publish through `publish`, which appends to
-- the log of the `World`. A worker runs an injected handler on its business state; the projection's
-- `apply` is one such handler, and those of Workers are others. A request passes the middlewares, the
-- exception handlers and the role check before its command or query runs. Events keep the order in
-- which they were published.
--
-- Bounds. The retry loop recurses on the attempts that are left, which start at `max_retries`, so its
-- fuel is the loop's own bound. A run of a worker covers the records that it is sent; `restarts` gives
-- it any number of runs. A workflow's run is a derivation of `Runs`, which LangGraph is assumed to
-- follow; a run that visits the nodes in order follows it (Tests/Orchestration).
--
-- Not modelled: the start and stop of a runtime, the paths and the response models of the routes,
-- the system endpoints of the application factory, validation by pydantic but for the page
-- parameters, logging, tracing and Prometheus, and the start and stop of the aiokafka consumer and
-- of the worker tasks. A commit of the database that raises is taken to have changed nothing.
-- Primary keys are texts, and a key of another kind is refused. Defaults of the database, and the
-- rows that a deletion changes elsewhere, are not part of a session. A consumer is taken to read
-- the event that was published: the round trip of its bytes through orjson and pydantic is not
-- modelled.
pub mod Prelude
pub mod Value
pub mod Effect
pub mod Events
pub mod Topics
pub mod Platform
pub mod Audit
pub mod Registry
pub mod Projection
pub mod Messaging
pub mod Orchestration
pub mod Alerting
pub mod ReadSide
pub mod Monitoring
pub mod Http
pub mod Workers
pub mod Runtime
pub mod Tests
