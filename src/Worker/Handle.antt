-- ===== src/Worker/Handle.antt =====
-- `_finish` of workers/telemetry_ingest_loop.py: the final queue action of a decided message.
use limnopulse.Prelude.{ℕ, Option, none, some}
use limnopulse.Worker.{
  Category, MessageOutcome, failure_table, ProcessAction, RetryPolicy, policy_backoff, Decision,
}
use limnopulse.Worker.Processor.{Answer, done, threw, Step, Message}

-- The queue and the counters of the loop; `count_message` swallows its own failures.
pub record Queue (W : Type 0) : Type 0 where
  pub delete : Message → Step W (Unit {0})
  pub change_visibility : Message → ℕ → Step W (Unit {0})
  pub count_action_failure : W → W
  pub count_message : MessageOutcome → Category → W → W

-- `seconds`, or the backoff where the decision has none
unfoldable pub hidden_seconds : RetryPolicy → Message → Option ℕ → ℕ
unfolding policy_backoff
hidden_seconds retry message none = policy_backoff retry message.receive_count
hidden_seconds retry message (some seconds) = seconds

module _ {W : Type 0} (queue : Queue W) where
  unfoldable pub final_action : RetryPolicy → Message → Decision → Step W (Unit {0})
  unfolding hidden_seconds
  final_action retry message d = elim (d.action) [
    | ProcessAction.delete ↦ queue.delete message
    | ProcessAction.visibility ↦
        queue.change_visibility message (hidden_seconds retry message d.seconds)
  ]

  -- an action that raises is counted, and never raised
  abbrev pub after_action : Answer (Unit {0}) × W → W
  after_action (done _, w) = w
  after_action (threw x, w) = queue.count_action_failure w

  -- `_finish`
  unfoldable pub finish : RetryPolicy → Message → Decision → W → W
  unfolding final_action failure_table
  finish retry message d w =
      queue.count_message (failure_table d.category).0 d.category
        (after_action (final_action retry message d w))
