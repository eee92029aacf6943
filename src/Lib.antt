-- ===== src/Lib.antt =====
-- Limnopulse: the telemetry ingress, the status machines, deployments and credentials behind it
-- (src/limnopulse_api).
--
-- A connector posts a batch of readings. The service authenticates it, looks up an idempotency
-- receipt, asks the trusted mapping whether the caller owns the device that the readings are for,
-- claims a receipt, sends an envelope to a queue, and answers. A worker takes the envelope from
-- the queue and asks the trusted mapping again, because the rows may have changed in between. A
-- message that fails for good moves to a dead-letter queue, from which an operator redrives it.
-- Connectors authenticate with credentials, two at most for an account, under three rate limiters;
-- devices and components are rows with a lookup and a mirror, created once for a key; deployments
-- say at which asset and site a component stood when a reading was taken.
--
-- The files, and the code that each models:
--   Prelude              library names, tests on numbers, lists and integers over the native numbers
--   Calls                calls of the world outside: a value or an exception, and the next world; a
--                        document table with conditional writes, as an interface with its laws
--   Status               src/limnopulse_api/domain/v2_common.py (ensure_status_transition) and the
--                        transition tables of domain/devices_v2.py, integrations.py, deployments.py
--   Ingest               the records of domain/ingestion.py and of the entities that it reads
--   Ingest/Receipt       domain/ingestion.py: epoch_microseconds .. decide_receipt_replay
--   Ingest/Receipt/Adapter     adapters/dynamodb_ingress_receipts.py
--   Ingest/Trust         domain/ingestion.py: classify_admission, classify_fence,
--                        resolve_component_selectors, build_trusted_context
--   Ingest/Trust/Mapping       services/trusted_mapping.py
--   Ingest/Service       services/ingestion.py: IngressService.admit and what it calls
--   Ingest/Marks         the marks of domain/ingestion.py and adapters/dynamodb_ingest_state.py
--   Ingest/Marks/Build   domain/ingestion.py: build_ingest_marks
--   Ingest/Sequence      domain/ingestion.py: classify_component_sequence
--   Quality              domain/telemetry_quality.py, with ObservationQuality of
--                        domain/telemetry_v2.py
--   Worker               domain/ingestion.py (INGRESS_FAILURE_TABLE, ingress_backoff_seconds) and
--                        services/ingest_processor.py (RetryPolicy)
--   Worker/Processor     services/ingest_processor.py: IngestMessageProcessor; its child Mapped runs it
--                        over the mapping service
--   Worker/Handle        workers/telemetry_ingest_loop.py: _finish
--   Worker/Config        workers/telemetry_ingest_loop.py: IngestWorkerConfig, _decide, the poll size
--   Idempotency          domain/v2_common.py (IdempotencyReceipt) and the receipt requests of
--                        adapters/dynamodb_v2.py
--   Deployments          domain/deployments.py, and the rows and reads of
--                        adapters/dynamodb_deployments.py
--   Deployments/Commits  the transactions of adapters/dynamodb_deployments.py
--   Deployments/Timeline, Deployments/Lookup   what those rows have in common, and the lookup
--   Credentials          adapters/dynamodb_ingest_credentials.py, with IngestCredential
--   Credentials/Token    domain/ingestion.py: INGEST_TOKEN_PATTERN, parse_ingest_token, ingest_token
--   Credentials/Service  services/ingest_credentials.py
--   Redrive              services/ingress_redrive.py
--   Ingest/RateLimit     services/ingress_rate_limit.py, with _limit of services/ingestion.py
--   Devices              domain/devices_v2.py, and the device rows of
--                        adapters/dynamodb_devices_v2.py
--   Devices/Components   its component and capability rows
--   Devices/Mirrors, Devices/Later, Devices/Keeps, Devices/Traces, Devices/Fences   what those
--                        rows have in common, and how they change in a run
--   Devices/Service      services/devices_v2.py, with the creates of services/components.py and
--                        services/capabilities.py
--   Authentication       services/connector_auth.py, and _bearer_token and authenticate of
--                        services/ingestion.py
--   Tests                runs of the theorems on concrete data
--
-- Conventions. An identifier, a hash or an opaque text is a number: the code compares them and no
-- more. An instant is its number of microseconds since the epoch. Stateful code maps a world to an
-- outcome and a world; the world is a type parameter, and what the code awaits (repositories, the
-- queue, the clock, the metrics, the hashes) is a field of a record of parameters. The laws that a
-- theorem needs of them are records of hypotheses: a read returns what is stored, a conditional
-- write is carried out or refused as its condition says, a send that returns has enqueued its
-- message. Tests instantiate them with concrete functions. The loop over claim attempts recurs on
-- the number of attempts left, which the code sets to two; the scan of a redrive recurs on fuel
-- and ends with `out_of_fuel` where it has too little; one more than the number of messages that
-- may be moved is enough where the queue hides what it gave out. The rows of deployments,
-- credentials and devices are records of functions from keys; a transaction is carried out on the
-- present store, and what its operation read before is an argument, so that it may be out of date.
--
-- Where the program counts with floats, in the rate limiters, the tokens of the model are exact; the
-- quotient behind `Retry-After` is a parameter, since its rounding can make the wait too short.
--
-- Not modelled: the patterns and lengths that pydantic checks, JSON, hashing, floating-point
-- values, logging, the HTTP routes, the client libraries of DynamoDB, SQS and InfluxDB, the
-- migrations, and the Go and browser code.
pub mod Prelude
pub mod Calls
pub mod Status
pub mod Ingest
pub mod Worker
pub mod Idempotency
pub mod Deployments
pub mod Credentials
pub mod Redrive
pub mod Devices
pub mod Authentication
pub mod Quality
mod Tests
