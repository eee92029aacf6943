-- ===== src/Worker/Config.antt =====
-- `IngestWorkerConfig` and `_decide` of workers/telemetry_ingest_loop.py. The durations that only the
-- event loop reads are microseconds; the deadline is a parameter, a step that may end without a
-- decision.
use limnopulse.Prelude.{
  ℕ, ◌≡◌, ◌≤◌, Bool, true, Option, none, some, leb, ltb, ◌&&◌, arith, min, ◌+◌, ◌-◌, if◌then◌else◌,
}
use limnopulse.Worker.{
  Category, ProcessAction, RetryPolicy, policy_backoff, Decision, max_visibility_seconds,
}
use limnopulse.Worker.Processor.{Answer, done, threw, Step, Message}

-- `IngestWorkerConfig`
pub record Config : Type 0 where
  pub max_messages : ℕ
  pub wait_seconds : ℕ
  pub visibility_seconds : ℕ
  pub concurrency : ℕ
  pub drain : ℕ
  pub processing_deadline : ℕ

-- `__post_init__`
unfoldable pub validate_config : Config → Bool
validate_config c =
    leb 1 c.max_messages
    && leb c.max_messages 10
    && leb c.wait_seconds 20
    && (leb 1 c.visibility_seconds && leb c.visibility_seconds max_visibility_seconds)
    && leb 1 c.concurrency
    && (ltb 0 c.drain && ltb 0 c.processing_deadline)

-- `_decide`: what the processor decides, or a backoff where it raises or misses the deadline
module _ {W : Type 0} (process_in_time : Message → Step W Decision) where
  abbrev pub decided : RetryPolicy → Message → Answer Decision × W → Decision × W
  decided retry message (done d, w) = (d, w)
  decided retry message (threw x, w) = (
    record {
      action = ProcessAction.visibility;
      seconds = some (policy_backoff retry message.receive_count);
      category = Category.unexpected;
    },
    w,
  )

  unfoldable pub decide : RetryPolicy → Message → W → Decision × W
  unfolding policy_backoff
  decide retry message w = decided retry message (process_in_time message w)

-- `free` and `min(self.config.max_messages, free)`: how many messages a poll asks for
unfoldable pub poll_size : Config → ℕ → Option ℕ
poll_size c in_flight =
    if leb c.concurrency in_flight
    then none
    else some (min c.max_messages (c.concurrency - in_flight))

-- A poll of a valid configuration asks for one to ten messages, and the messages in flight never
-- come to more than the concurrency.
pub poll_size_bounds :
    (c : Config) (in_flight n : ℕ)
    → validate_config c ≡ true
    → poll_size c in_flight ≡ some n
    → (1 ≤ n) × (n ≤ 10) × (in_flight + n ≤ c.concurrency)
unfolding poll_size validate_config
poll_size_bounds c in_flight n valid h = ground arith
