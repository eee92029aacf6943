-- ===== src/Quality.antt =====
-- Quality classification: domain/telemetry_quality.py, and `ObservationQuality` of
-- domain/telemetry_v2.py. Whether the value lies within the plausible range of its metric, a test on
-- floating-point numbers, is an argument. Thresholds and instants are microseconds.
use limnopulse.Prelude.{
  ℕ, ◌+◌, ◌*◌, ◌≡◌, refl, Bool, true, false, not, ◌&&◌, List, [], ◌∷◌, ◌++◌, map, if◌then◌else◌,
  leb, ltb, arith,
}
use limnopulse.Ingest.{Instant}

-- `QualityFlag`, by its values
pub data QualityFlag : Type 0 where
  delayed clock_skew_future clock_skew_past_extreme replay duplicate : QualityFlag
  sequence_gap sequence_regression : QualityFlag

-- `QualityProvenance`
pub data QualityProvenance : Type 0 where
  schema_validation unit_mapping plausible_range clock_skew timeliness replay : QualityProvenance

-- `QualityState`
pub data QualityState : Type 0 where
  valid suspect stale out_of_range uncalibrated calibration_unknown : QualityState

-- `QualityPolicy`
pub record QualityPolicy : Type 0 where
  pub delay_threshold : ℕ
  pub future_skew_threshold : ℕ
  pub past_extreme_skew_threshold : ℕ

-- `QUALITY_POLICIES["quality-policy@1"]`
abbrev pub quality_policy_1 : QualityPolicy
quality_policy_1 = record {
  delay_threshold = 300 * 1000000;
  future_skew_threshold = 300 * 1000000;
  past_extreme_skew_threshold = 30 * 86400000000;
}

pub record Quality : Type 0 where
  pub state : QualityState
  pub flags : List QualityFlag
  pub provenance : List QualityProvenance

abbrev pub only {ℓ} : {A : Type ℓ} → Bool → A → List A
only true x = x ∷ []
only false x = []

-- `-delay > policy.future_skew_threshold`
unfoldable pub is_future : QualityPolicy → Instant → Instant → Bool
is_future p observed received = ltb (received + p.future_skew_threshold) observed

-- `delay > policy.past_extreme_skew_threshold`
unfoldable pub is_past_extreme : QualityPolicy → Instant → Instant → Bool
is_past_extreme p observed received = ltb (observed + p.past_extreme_skew_threshold) received

-- `delay > policy.delay_threshold`
unfoldable pub is_delayed : QualityPolicy → Instant → Instant → Bool
is_delayed p observed received = ltb (observed + p.delay_threshold) received

-- The place of a flag's value among the sorted values.
abbrev pub flag_rank : QualityFlag → ℕ
flag_rank QualityFlag.clock_skew_future = 0
flag_rank QualityFlag.clock_skew_past_extreme = 1
flag_rank QualityFlag.delayed = 2
flag_rank QualityFlag.duplicate = 3
flag_rank QualityFlag.replay = 4
flag_rank QualityFlag.sequence_gap = 5
flag_rank QualityFlag.sequence_regression = 6

-- `sorted`, on flags
unfoldable pub insert_flag : QualityFlag → List QualityFlag → List QualityFlag
insert_flag f [] = f ∷ []
insert_flag f (g ∷ gs) =
    if leb (flag_rank f) (flag_rank g) then f ∷ g ∷ gs else g ∷ insert_flag f gs

unfoldable pub sort_flags : List QualityFlag → List QualityFlag
unfolding insert_flag
sort_flags [] = []
sort_flags (f ∷ fs) = insert_flag f (sort_flags fs)

-- `bool(flags)`
abbrev pub is_nonempty {ℓ} : {A : Type ℓ} → List A → Bool
is_nonempty [] = false
is_nonempty (x ∷ xs) = true

-- the flags in the order in which they are added, the skew flags first; no flag is added twice
abbrev pub skew_flags : (future past : Bool) → List QualityFlag
skew_flags future past =
    only future QualityFlag.clock_skew_future ++ only past QualityFlag.clock_skew_past_extreme

abbrev pub added_flags : (future past late replayed : Bool) → List QualityFlag
added_flags future past late replayed =
    skew_flags future past ++ only late QualityFlag.delayed ++ only replayed QualityFlag.replay

-- the provenance in the order in which it is appended; the skew is there where a flag was set by then
abbrev pub appended_provenance :
    (future past late replayed implausible : Bool) → List QualityProvenance
appended_provenance future past late replayed implausible =
    QualityProvenance.schema_validation
      ∷ QualityProvenance.unit_mapping
      ∷ only implausible QualityProvenance.plausible_range
    ++ only (is_nonempty (skew_flags future past)) QualityProvenance.clock_skew
    ++ only late QualityProvenance.timeliness
    ++ only replayed QualityProvenance.replay

-- `classify_quality`
unfoldable pub classify_quality : QualityPolicy → Bool → Instant → Instant → Bool → Quality
unfolding is_future is_past_extreme is_delayed sort_flags
classify_quality p plausible observed received replayed =
    let future = is_future p observed received in
    let past = is_past_extreme p observed received in
    let late = is_delayed p observed received in
    record {
      state = if plausible then QualityState.valid else QualityState.out_of_range;
      flags = sort_flags (added_flags future past late replayed);
      provenance = appended_provenance future past late replayed (not plausible);
    }

-- `_PROVENANCE_ORDER`
abbrev pub provenance_rank : QualityProvenance → ℕ
provenance_rank QualityProvenance.schema_validation = 0
provenance_rank QualityProvenance.unit_mapping = 1
provenance_rank QualityProvenance.plausible_range = 2
provenance_rank QualityProvenance.clock_skew = 3
provenance_rank QualityProvenance.timeliness = 4
provenance_rank QualityProvenance.replay = 5

-- `list(xs) == sorted(set(xs))`
abbrev pub ascending_from : ℕ → List ℕ → Bool
ascending_from n [] = true
ascending_from n (m ∷ ms) = ltb n m && ascending_from m ms

abbrev pub ascending : List ℕ → Bool
ascending [] = true
ascending (m ∷ ms) = ascending_from m ms

-- `ObservationQuality.validate_ordering`
unfoldable pub validate_ordering : Quality → Bool
validate_ordering q =
    ascending (map flag_rank q.flags)
    && is_nonempty q.provenance
    && ascending (map provenance_rank q.provenance)

flags_sorted :
    (f g h r : Bool) → ascending (map flag_rank (sort_flags (added_flags f g h r))) ≡ true
unfolding sort_flags
flags_sorted f g h r = ground arith

provenance_sorted :
    (f g h r p : Bool) → ascending (map provenance_rank (appended_provenance f g h r p)) ≡ true
provenance_sorted f g h r p = ground arith

-- Every classification passes the ordering validator of the model that carries it.
pub classify_quality_valid :
    (p : QualityPolicy) (plausible : Bool) (observed received : Instant) (replayed : Bool)
    → validate_ordering (classify_quality p plausible observed received replayed) ≡ true
unfolding classify_quality validate_ordering
classify_quality_valid p plausible observed received replayed =
    let future = is_future p observed received in
    let past = is_past_extreme p observed received in
    let late = is_delayed p observed received in
    rw
      (
        flags_sorted future past late replayed,
        provenance_sorted future past late replayed (not plausible),
      )
      refl
