-- ===== src/Lib.antt =====
-- A verification library for risk-core, an insurance back end of Django services: policies, claims,
-- audit and notifications, joined by events on Kafka. It models the Python code of the services as
-- functions and state transformers, and proves what makes each of them correct.
--
-- The parts, and how they interact. The policy service and the claims service each write their
-- tables and, in the same transaction, a row of their outbox table; a relay publishes the outbox
-- to Kafka; the audit and the notification service consume the events. The claims service asks the
-- policy service over HTTP, behind a circuit breaker, whether a policy is active.
--
-- Prelude: the names of the libraries that are shared, and lists, texts, tables (Rows) and
-- integers (Int). Json: the values of json.loads, and payloads. Action: code that may raise on a
-- state, with transaction.atomic. Runtime: what is taken from Python and Django as an argument:
-- the texts of UUIDs, dates and amounts, their parsers, and the drawn identifiers and clock.
-- Outbox (policy-service/apps/outbox, and the same code in claims-service/apps/outbox): the
-- table OutboxEvent. Outbox/Relay is management/commands/run_outbox_relay.py: `publish_one` is
-- the body of the loop of `_process_batch`, `process_batch` is the method, and `run_batches` the
-- loop of `handle`. What the producer does to each message is the argument `Environment`.
-- Outbox/Relays has the transactions of several relays as steps, in any order; Outbox/Alone shows
-- that one `process_batch` is such a run.
-- Numbering: generate_policy_number and generate_claim_number of the two models.py, with int,
-- split, order_by and the format `:06d` written out on texts as lists of code points.
-- Numbering/Migration is policy-service/apps/policies/migrations/0002_policy_number_sequence.py,
-- with PostgreSQL's functions as the argument `Postgres`.
-- Policy: policy-service/apps/policies/models.py. Policy/Service, Policy/Create and Policy/Queries
-- are services.py, Policy/Events events.py, Policy/Requests views.py, Policy/Serializers
-- serializers.py, Policy/Errors ../core/exceptions.py. Operations have the source's names.
-- Policy/Views is views.py with the responses, where Policy/Requests has the effects only, and
-- Policy/Customers the view and the serializer of customers.
-- Claims: claims-service/apps/claims/models.py. Claims/Service is services.py (and the two
-- validations of serializers.py, and in `insert_seeing` a filing whose query has seen an older
-- table), Claims/Queries its reading part, Claims/Events events.py,
-- Claims/Requests views.py, Claims/Client clients.py, Claims/Errors ../core/exceptions.py.
-- Claims/Views is views.py with the responses, and Claims/Register the abstract view of the
-- claims: the status of each, and the steps that VALID_TRANSITIONS allows. Claims/Replay is a
-- consumer that knows the claims from the events alone.
-- Audit: audit-service/apps/audit/models.py. Audit/Service is services.py, Audit/Consumer
-- kafka_consumer.py, Audit/Queries the filters of views.py, Audit/Views its serializers and
-- get_object, Audit/Sockets ws_middleware.py and ws_consumers.py, Audit/Seed
-- management/commands/seed_audit_events.py.
-- Notifications: notification-service/apps/notifications/models.py. Notifications/Consumer is
-- kafka_consumer.py, Notifications/Task tasks.py with the retries of Celery, and
-- Notifications/Queries services.py and the filters of views.py, Notifications/Views its
-- serializers and get_object. Notifications/Race has the steps of the consumer's transaction and
-- of a worker of Celery, in any order; Notifications/Workers has those of several workers, one run
-- of a task at a time, with retries, runs that are cut off, and workers that are lost, whose
-- tasks come again (`task_acks_late` in notification-service/config/celery.py). Its fields `lost` and
-- `repeats` are counts kept by the model.
-- Http (apps/core/exceptions.py, middleware.py and views.py, the same in the four services): the
-- response to an exception, request ids, request logging, the health check.
-- Integration: the client of the claims service composed with the `verify` action of the policy
-- service that it calls, and the way of an event from the outbox to the audit table.
-- Load (infra/load-testing): Load/Shapes is the shapes of scenarios 4 and 5, Load/Policies scenario
-- 1 and the setup of scenario 2, Load/Claims the tasks of scenario 2, Load/Login auth_helper.py and
-- scenario 3. Auth (policy-service/apps/auth): the command that adds the test user.
-- Samples: the data that the Tests modules share.
-- The other modules under these hold proofs, and each Tests module runs the code on an example.
--
-- A table is a list of rows in insertion order. An identifier, a date and a time are numbers, an
-- amount is a whole number of cents. An action takes the state and gives a result or an exception,
-- and the state that is left; the argument `Draw` holds what one call draws (uuid4, now). The keys
-- drawn for coverages, history rows, log rows and outbox events are taken to be new, and values to
-- fit their columns where no length is tested; `stored k` is whether the database takes the k-th
-- statement after the first insert or save of a transaction. The instance that a view has loaded, or
-- the tables in which `get_object` has found it, are an argument of the write that follows, so that
-- other requests may have come in between; `Claims/Requests.serve` is the claims service with its
-- requests one at a time. Loops are recursion on their list; `run_batches` and the digits of a
-- number recurse on fuel, and the theorems on them give the fuel that is enough; `run_task` gets
-- four runs, one more than the retries that the task allows.
--
-- Not modelled: the libraries (Django, DRF, httpx, pybreaker, confluent_kafka, Celery, Channels,
-- simplejwt), which are arguments where the code relies on what they return; reading the body of a
-- request; logging and tracing; pagination, settings, generated migrations and admin pages, which
-- only configure Django; the scripts of the agent skills; the gateway and the frontend.
pub mod Prelude
pub mod Json
pub mod Action
pub mod Runtime
pub mod Outbox
pub mod Numbering
pub mod Policy
pub mod Claims
pub mod Audit
pub mod Notifications
pub mod Samples
pub mod Http
pub mod Integration
pub mod Load
pub mod Auth
