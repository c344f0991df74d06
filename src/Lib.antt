-- ===== src/Lib.antt =====
-- The post-call processing pipeline, checked: durable jobs, token budgets, retries and the workers.
--
-- The program keeps its state in PostgreSQL. An ended call becomes a job in `interaction_jobs`;
-- workers claim jobs, do the work and mark the job succeeded, deferred or dead-lettered. Calls of the
-- LLM pass a limiter that reserves tokens for each minute, for the platform and for each customer.
-- Here the tables are one record, `Db`, and an operation takes the tables and returns the new ones.
--
--   Settings       src/config.py: the settings as a record; theorems hold for every value of it
--   Models         src/models: the rows and the enumerations; Db is the tables together
--   Retry          src/retries/policy.py: `next_delay`, `decide`
--   Jobs           src/repositories/jobs.py: `create_if_absent`, `claim_ready_jobs`,
--                  `recover_stale_running_jobs`, `mark_succeeded`, `defer`, `dead_letter`
--   Budget         src/rate_limiter/budget.py: `decide`; Budget.Usage has
--                  src/repositories/token_usage.py (`reserve`, `record_usage`) and
--                  src/rate_limiter/service.py (`admit`)
--   Audit          src/logging/audit.py (`emit`) and src/security/pii.py (`redact_pii`)
--   Interactions   src/repositories/interactions.py: the updates of calls and leads
--   Failure        src/workers/failure_handler.py: `handle`, on Retry, Jobs, Interactions and Audit
--   Classifier     src/scheduler/classifier.py: `classify`
--   LlmWorker      src/llm_workers/worker.py: the transaction that claims and admits jobs; LlmWorker.Save
--                  has the one that saves a result; both on all of the above
--   Llm            src/llm/client.py: `analyze_call`; Processor has src/services/post_call_processor.py;
--                  LlmWorker.Run has the rest of the worker, `_context_from_snapshot` and `run_once`
--   Orchestrator   src/orchestrator/workflow.py: an ended call becomes its child jobs; the estimate of
--                  src/llm/token_estimator.py; Orchestrator.Run has the tick
--   ResultWorker   src/workers/result_worker.py: signals and lead stages are applied
--   Recording      src/recording/worker.py, src/recording/service.py and src/recording/storage.py: the
--                  poll of the provider for a recording
--   Webhook        src/api/endpoints.py, `end_interaction`, and src/queues/durable.py: where calls enter
--   Signature      src/security/webhooks.py: `validate_webhook_signature`, and what the endpoint makes of it
--   Metrics        src/metrics/collector.py: `refresh_queue_depths`, and `queue_depth_by_status` of
--                  src/repositories/jobs.py
--   Capacity       src/services/circuit_breaker.py: `capacity_signal`, `check_capacity`
--   Tasks          src/tasks/celery_tasks.py: the old task for an ended call, the tick of all workers
--   Interactions.Payload  `as_payload`; Recording.Wrapper has src/services/recording.py, and
--                  Classifier.Pressure src/scheduler/priority.py
--   Jobs.Spec      what the job table stands for: a queue by idempotency key, with the steps it may make
--   Pipeline       all parts together: each handler as a sequence of operations of the repositories, and
--                  any sequence of deliveries, ticks and tasks as steps of that queue
--   Jobs.Queued    what stands under a key after a job was asked for: the job that was there, or the
--                  child that was asked for
--   Json, Text, Attempt, Keys, Runtime, Common, Samples: what these share (JSON values, texts as
--                  lists of code points, exceptions, idempotency keys, the parts of Python's library
--                  that are parameters, lists and Boolean tests, and rows for the tests)
--
-- Conventions. An id is the number of its UUID, and `uuid4()` hands out `next_uuid` and counts up. A
-- time is in microseconds, and each reading of the clock is an argument, so that no theorem depends on
-- how the readings relate unless it says so. `with_for_update(skip_locked=True)` is a predicate on the
-- rows that other transactions hold; a transaction is a function on the tables, so the interleavings
-- that the model has are those of whole transactions, in any order. `lower()` acts on ASCII. A JSON
-- number is an integer. The comparison of the global utilisation with 0.70 is made on exact
-- quotients. Token counts and settings are natural numbers, but a customer's budget, which comes from
-- a payload, is an integer. The ratios of Capacity and Classifier.Pressure, floats in Python, are exact
-- quotients too. All loops are structural recursion on lists, so no fuel is needed.
--
-- Of the limits of the columns, these are modelled: the idempotency keys of the jobs that follow a result
-- and of the old Celery task (String(255)), and the stage of a lead (String(100)), which the provider's
-- text can exceed; of the foreign keys, that of the job of the old Celery task, whose message can name
-- an unknown call. The other keys are made of a UUID and fixed words, and the other jobs are made for a
-- call that has been found, or for that of another job. The widths of the columns for a call's call_sid
-- and for errors are not modelled: texts that exceed them are outside the model.
--
-- Not modelled: the calls of the LLM, of the telephony provider and of the object store; Redis,
-- Celery, FastAPI and the logger; the metrics and the log-only signal functions of src/services; the
-- migrations. Of the LLM, the provider and Redis, what they answer is an argument.
pub mod Common
pub mod Text
pub mod Json
pub mod Settings
pub mod Runtime
pub mod Attempt
pub mod Keys
pub mod Models
pub mod Samples
pub mod Retry
pub mod Jobs
pub mod Budget
pub mod Audit
pub mod Interactions
pub mod Failure
pub mod Classifier
pub mod Llm
pub mod Processor
pub mod LlmWorker
pub mod Webhook
pub mod Signature
pub mod Orchestrator
pub mod ResultWorker
pub mod Recording
pub mod Metrics
pub mod Capacity
pub mod Tasks
pub mod Pipeline
