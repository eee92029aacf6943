-- ===== src/Worker.antt =====
-- What the ingest worker does with a message: the failure table and the backoff of
-- domain/ingestion.py, and `RetryPolicy` of services/ingest_processor.py. `random()` is a
-- parameter: `jitter window` is `ceil(random() * window)`.
pub mod Processor
pub mod Retries
pub mod Handle
pub mod Config
use limnopulse.Prelude.{ℕ, ◌+◌, ◌-◌, ◌*◌, ◌^◌, min, max, ◌≡◌, Bool, true, false, Option, none, some}

-- `IngressFailureCategory`
pub data Category : Type 0 where
  envelope_invalid fenced fenced_unverified deferred unexpected store_unavailable : Category
  write_retryable write_permanent contract_violation processed : Category

-- `IngressMessageAction`
pub data MessageAction : Type 0 where
  delete permanent backoff : MessageAction

-- `IngressMessageOutcome`
pub data MessageOutcome : Type 0 where
  processed fenced retry permanent : MessageOutcome

-- `INGRESS_FAILURE_TABLE`
unfoldable pub failure_table : Category → MessageOutcome × MessageAction
failure_table Category.envelope_invalid = (MessageOutcome.permanent, MessageAction.permanent)
failure_table Category.fenced = (MessageOutcome.fenced, MessageAction.delete)
failure_table Category.fenced_unverified = (MessageOutcome.permanent, MessageAction.permanent)
failure_table Category.deferred = (MessageOutcome.retry, MessageAction.backoff)
failure_table Category.unexpected = (MessageOutcome.retry, MessageAction.backoff)
failure_table Category.store_unavailable = (MessageOutcome.retry, MessageAction.backoff)
failure_table Category.write_retryable = (MessageOutcome.retry, MessageAction.backoff)
failure_table Category.write_permanent = (MessageOutcome.permanent, MessageAction.permanent)
failure_table Category.contract_violation = (MessageOutcome.permanent, MessageAction.permanent)
failure_table Category.processed = (MessageOutcome.processed, MessageAction.delete)

abbrev pub max_visibility_seconds : ℕ
max_visibility_seconds = 43200

abbrev pub backoff_window : ℕ → ℕ → ℕ → ℕ
backoff_window receive_count base cap = min cap (base * 2 ^ (max receive_count 1 - 1))

-- `ingress_backoff_seconds`
unfoldable pub ingress_backoff_seconds : ℕ → ℕ → ℕ → (ℕ → ℕ) → ℕ
ingress_backoff_seconds receive_count base cap jitter =
    min (max (jitter (backoff_window receive_count base cap)) 1) max_visibility_seconds

-- `RetryPolicy`
pub record RetryPolicy : Type 0 where
  pub base : ℕ
  pub cap : ℕ
  pub permanent_visibility : ℕ
  pub jitter : ℕ → ℕ

-- `ProcessAction`
pub data ProcessAction : Type 0 where
  delete visibility : ProcessAction

-- `ProcessDecision`
pub record Decision : Type 0 where
  pub action : ProcessAction
  pub seconds : Option ℕ
  pub category : Category

-- `RetryPolicy.backoff`
unfoldable pub policy_backoff : RetryPolicy → ℕ → ℕ
unfolding ingress_backoff_seconds
policy_backoff p receive_count = ingress_backoff_seconds receive_count p.base p.cap p.jitter

-- `RetryPolicy.decision`
unfoldable pub decision : RetryPolicy → Category → ℕ → Decision
unfolding failure_table policy_backoff
decision p category receive_count = elim ((failure_table category).1) [
  | MessageAction.delete ↦ record {
    action = ProcessAction.delete;
    seconds = none;
    category = category;
  }
  | MessageAction.permanent ↦ record {
    action = ProcessAction.visibility;
    seconds = some p.permanent_visibility;
    category = category;
  }
  | MessageAction.backoff ↦ record {
    action = ProcessAction.visibility;
    seconds = some (policy_backoff p receive_count);
    category = category;
  }
]
