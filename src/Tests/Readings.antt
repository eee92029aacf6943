-- ===== src/Tests/Readings.antt =====
-- Sequence numbers, quality and polls, on concrete inputs.
use limnopulse.Prelude.{◌≡◌, ◌≤◌, ◌+◌, refl, true, false, none, some, [], ◌∷◌, All, arith}
use limnopulse.Ingest.Marks.{ComponentState}
use limnopulse.Ingest.Sequence.{
  classify_component_sequence, contiguous, gap, late, IsQuiet, classify_component_sequence-IsQuiet,
}
use limnopulse.Worker.Config.{Config, validate_config, poll_size, poll_size_bounds}
use limnopulse.Quality.{
  quality_policy_1, classify_quality, validate_ordering, classify_quality_valid,
}

abbrev state : ComponentState
state = record {
  last_received_at = some 50;
  last_ingested_at = some 51;
  last_observed = some (40, 7);
}

events :
    classify_component_sequence
      (some state)
      ((42, some 11) ∷ (41, some 8) ∷ (39, some 6) ∷ (41, some 8) ∷ [])
    ≡ late ∷ contiguous ∷ gap ∷ []
unfolding classify_component_sequence
events = refl

classify_component_sequence-IsQuiet_example :
    All IsQuiet
      (classify_component_sequence (some state) ((40, some 7) ∷ (12, none) ∷ (39, some 6) ∷ []))
classify_component_sequence-IsQuiet_example =
    classify_component_sequence-IsQuiet state (40, 7)
      ((40, some 7) ∷ (12, none) ∷ (39, some 6) ∷ []) refl
      (omega arith, (omega arith, (omega arith, tt)))

classify_quality_valid_example :
    validate_ordering (classify_quality quality_policy_1 false 400000000000 10 true) ≡ true
classify_quality_valid_example = classify_quality_valid quality_policy_1 false 400000000000 10 true

abbrev config : Config
config = record {
  max_messages = 10;
  wait_seconds = 20;
  visibility_seconds = 60;
  concurrency = 4;
  drain = 30000000;
  processing_deadline = 45000000;
}

config_valid : validate_config config ≡ true
unfolding validate_config
config_valid = refl

one_free : poll_size config 3 ≡ some 1
unfolding poll_size
one_free = refl

poll_size_bounds_example : (1 ≤ 1) × (1 ≤ 10) × (3 + 1 ≤ config.concurrency)
poll_size_bounds_example = poll_size_bounds config 3 1 config_valid one_free
