-- ===== src/Lib.antt =====
-- A verification library for YasinPress, a news pipeline that turns feed items into articles, queues
-- one publication job for each article and destination in SQLite, and publishes them under an hourly
-- limit.
--
-- The parts, and the files that model them:
--   Models         yasinpress/database/models.py, publishing/__init__.py, publishing/history.py: the
--                  records Article, PublicationJob, DeliveryRecord and PublishResult. An instant is a
--                  number of microseconds since the epoch in UTC; a span of time is a number of them.
--   Database       yasinpress/database/sqlite.py: the four tables of the shared connection as lists of
--                  rows in the order of their rowids. `INSERT ... ON CONFLICT DO UPDATE` is `upsert`;
--                  save, add_job, get_eligible_jobs and the others keep their names. Keyed shows that
--                  the queue is a map from ids. Jobs is yasinpress/database/jobs.py and delivery.py,
--                  Repository is repositories.py. Texts, Migrations, Columns and Migrating are
--                  migrations.py: the texts of the rebuilt table, and migrate.
--   Engine         yasinpress/publishing/queue.py: SQLitePublicationQueueEngine. Consumed and Claim are
--                  the two halves of claim_next, Finish is mark_success, mark_failure and
--                  recover_expired_leases, Run is run_once. Reach has the steps that the clock, the
--                  feeds, recovery and interleaved workers can take on the database.
--   Publishing     yasinpress/publishing/reliability.py and orchestrator.py.
--   Scheduling     yasinpress/watchdog.py, recovery.py, and of yasinpress/scheduler jobs.py, worker.py,
--                  persistence.py, watchdog.py and callback_scheduler.py. Persistence is the JSON file;
--                  Worker is the worker on its priority queue with store.py, tasks.py and retry.py.
--   Pipeline       yasinpress/pipeline/service.py and runtime.py with processing/pipeline.py,
--                  normalization.py, duplicates.py, freshness.py, priority.py, breaking.py,
--                  validator.py and classifier.py: from feed items to queued jobs (Queueing), or to
--                  articles that are published at once (Direct). Similar is compare_title.
--   Processor      yasinpress/publishing/queue_processor.py: Select is _select_new_articles, Cycle is
--                  process_cycle; its settings are the fields of QueueConfig, and its recovery is the
--                  engine's.
--   Support        yasinpress/cache, monitoring (dispatcher.py, hourly.py, snapshot.py, metrics.py,
--                  report.py, store.py), scheduler/scheduler.py and pipeline/dedup.py. Preflight is
--                  scripts/production_certification_preflight.py.
--   Ai             yasinpress/ai (base.py, safe.py, resilient.py, fallback.py, yasin_ai.py, factory.py,
--                  config.py) and processing/enrichment.py: providers that may fail, the wrappers
--                  around them, and what becomes of the article.
--   Sources        yasinpress/sources/manager.py and filters.py: the health of a feed. Xml and Feed are
--                  sources/feed.py and fetch/feed.py: the items of a parsed document.
--   Destinations   yasinpress/publishing/rss.py, pwa.py, eitaa.py, delivery.py and registry.py. A feed
--                  file is its parsed content, and Items is what publishing does to its list of items.
--                  Elements and Reading are the elements of an RSS item, and what parse_rss reads of
--                  them; Messages is the text of an Eitaa message.
--   Application    yasinpress/pipeline/application.py, config/runtime.py, runtime.py and
--                  runtime_worker.py. Histories has the sequences of calls of the application. Factory,
--                  Intake and Production are runtime_factory.py, health.py and
--                  scheduler/application_job.py: the checks at the start, and the tick.
--   Api            yasinpress/api: app.py, request.py, responses.py, auth.py and pagination.py.
--   Cli            yasinpress/cli/main.py: the saved credentials, the choice of feeds, the exit codes.
--   Numbers        the ints and the floats of config/runtime.py, the infinite ones and NaN among them.
--   Base, Samples  lemmas on lists, sets, sorting and dictionaries; sample data of the tests.
--
-- The processing service queues jobs with add_job; the engine claims them, publishes the article and
-- records how that went; both work on the tables of Database, so that a run of the service is a
-- sequence of the steps of Reach. The application calls the service and the engine, and its calls are
-- sequences of these steps too. The processor works on the same tables.
--
-- What the models assume of code that is not here: a transaction of SQLite is atomic; it compares the
-- ISO texts of UTC instants in the order of the instants; an ORDER BY with ties keeps the order of the
-- rowids, and a LIMIT 1 without an order takes the first row. `datetime.isoformat` is a parameter
-- `iso`. What a publisher answers, the AI provider, headline cleaning, ids of new articles and the
-- search for terms in Persian texts are parameters. Every clock reading of a method is its argument
-- `now`. The store of run_once is the article table. A delay in seconds that is a float in the source
-- is exact in microseconds here. A feed file is read back as it was written. An AI provider answers each
-- article with a result or an exception, and a generation service, a JSON parser, the fetch engine and
-- the parser of feeds are parameters.
--
-- Bounds and fuel: numbers are natural numbers without bound, as Python's are. The loop of the fair
-- batch runs on fuel, the number of articles and sources in its buckets, of which each turn uses up at
-- least one; the processor's selection runs on the same measure. The scheduler's loop runs on its bound
-- of ticks, the retries and the calls of an AI provider on their attempts, and publish_pending on its
-- number of jobs, run_all on the number of the queued ones; all other loops are over lists.
--
-- ElementTree is given by a tree of elements with the searches that it documents. PriorityQueue gives a
-- job with the lowest priority number and keeps the others. What SQLite makes of a CREATE TABLE text,
-- which names of columns it takes for one, the reading of addresses, dates and numbers, Persian labels
-- and the console are parameters.
--
-- Not modelled: the texts of XML and JSON and of a report, which a library renders; HTTP and the opening
-- of connections; the cleaning of Persian texts; the declaration of command-line arguments and what is
-- printed; the handlers behind the routes of the API; helpers that the news path does not call, as the
-- plugins, the backups and the Telegram publisher. An empty article id, which normalize treats as no id,
-- is not told apart from another one. Each submission to the worker has a handler and a lifecycle job of
-- its own. Negative numbers are modelled in the configuration only.
pub mod Base
pub mod Models
pub mod Numbers
pub mod Database
pub mod Engine
pub mod Publishing
pub mod Scheduling
pub mod Pipeline
pub mod Processor
pub mod Support
pub mod Ai
pub mod Sources
pub mod Destinations
pub mod Api
pub mod Application
pub mod Cli
pub mod Samples
