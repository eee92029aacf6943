-- ===== src/Ingest/Sequence.antt =====
-- Sequence numbers of a component: `classify_component_sequence` of domain/ingestion.py.
use limnopulse.Prelude.{
  ℕ, ◌+◌, ◌≤◌, ◌≡◌, ◌⊎◌, Option, none, some, List, [], ◌∷◌, if◌then◌else◌, ltb, ◌==◌, ◌&&◌, ◌||◌,
  All, arith,
}
use limnopulse.Ingest.{Instant}
use limnopulse.Ingest.Marks.{Pair, ComponentState}

-- `SequenceEvent`
pub data SequenceEvent : Type 0 where
  first contiguous gap regression duplicate late : SequenceEvent

-- `sorted({...})`: insertion into a sorted list without repetition
unfoldable pub insert_pair : Pair → List Pair → List Pair
insert_pair p [] = p ∷ []
insert_pair p (q ∷ qs) =
    let rest = insert_pair p qs in
    if p.0 == q.0 && p.1 == q.1
    then q ∷ qs
    else if ltb p.0 q.0 || (p.0 == q.0 && ltb p.1 q.1)
    then p ∷ q ∷ qs
    else q ∷ rest

-- the pairs that have a sequence number, sorted and distinct
unfoldable pub sorted_pairs : List (Instant × Option ℕ) → List Pair
unfolding insert_pair
sorted_pairs [] = []
sorted_pairs ((t, none) ∷ ps) = sorted_pairs ps
sorted_pairs ((t, some n) ∷ ps) = insert_pair (t, n) (sorted_pairs ps)

-- one turn of the loop: the event of a pair after the previous one
unfoldable pub sequence_event : Option Pair → Pair → SequenceEvent
sequence_event none p = SequenceEvent.first
sequence_event (some previous) p =
    if ltb previous.0 p.0
    then (if p.1 == previous.1 + 1
        then SequenceEvent.contiguous
        else if ltb (previous.1 + 1) p.1
        then SequenceEvent.gap
        else SequenceEvent.regression)
    else if p.0 == previous.0
    then (if p.1 == previous.1 then SequenceEvent.duplicate else SequenceEvent.late)
    else SequenceEvent.late

-- `previous` after the event: a late pair leaves it
unfoldable pub next_previous : SequenceEvent → Option Pair → Pair → Option Pair
next_previous SequenceEvent.late previous p = previous
next_previous _ previous p = some p

unfoldable pub classify_from : Option Pair → List Pair → List SequenceEvent
unfolding sequence_event next_previous
classify_from previous [] = []
classify_from previous (p ∷ ps) =
    let event = sequence_event previous p in
    event ∷ classify_from (next_previous event previous p) ps

-- `previous`, from the stored state
unfoldable pub stored_pair : Option ComponentState → Option Pair
stored_pair none = none
stored_pair (some state) = state.last_observed

unfoldable pub classify_component_sequence :
    Option ComponentState → List (Instant × Option ℕ) → List SequenceEvent
unfolding classify_from sorted_pairs stored_pair
classify_component_sequence state pairs = classify_from (stored_pair state) (sorted_pairs pairs)

-- A pair that was observed no later than the state's.
abbrev pub IsOld : Instant → Pair → Type 0
IsOld t p = p.0 ≤ t

-- An event that reports neither a gap nor a regression, nor any progress.
abbrev pub IsQuiet : SequenceEvent → Type 0
IsQuiet e = (e ≡ SequenceEvent.duplicate) ⊎ (e ≡ SequenceEvent.late)

insert_pair-All :
    (t : Instant) (p : Pair) (ps : List Pair)
    → IsOld t p
    → All (IsOld t) ps
    → All (IsOld t) (insert_pair p ps)
unfolding insert_pair
insert_pair-All t p [] h hs = ground arith
insert_pair-All t p (q ∷ qs) h hs = ground (arith, insert_pair-All t p qs h hs.1)

-- The pairs that are given with a sequence number are all old.
abbrev pub AreOld : Instant → List (Instant × Option ℕ) → Type 0
AreOld t = All (λ (p : Instant × Option ℕ). p.0 ≤ t)

sorted_pairs-All :
    (t : Instant) (ps : List (Instant × Option ℕ)) → AreOld t ps → All (IsOld t) (sorted_pairs ps)
unfolding sorted_pairs
sorted_pairs-All t [] h = tt
sorted_pairs-All t ((u, none) ∷ ps) h = sorted_pairs-All t ps h.1
sorted_pairs-All t ((u, some n) ∷ ps) h =
    insert_pair-All t (u, n) (sorted_pairs ps) h.0 (sorted_pairs-All t ps h.1)

old-IsQuiet :
    (q p : Pair)
    → IsOld q.0 p
    → IsQuiet (sequence_event (some q) p)
      × (next_previous (sequence_event (some q) p) (some q) p ≡ some q)
unfolding sequence_event next_previous
old-IsQuiet q p h = ground arith

classify_from-IsQuiet :
    (q : Pair) (ps : List Pair) → All (IsOld q.0) ps → All IsQuiet (classify_from (some q) ps)
unfolding classify_from
classify_from-IsQuiet q [] h = tt
classify_from-IsQuiet q (p ∷ ps) h =
    ((old-IsQuiet q p h.0).0, rw (old-IsQuiet q p h.0).1 (classify_from-IsQuiet q ps h.1))

-- Where every pair was observed no later than the stored state, as in a redelivery, the events are
-- duplicates and late arrivals only: no gap and no regression is reported.
pub classify_component_sequence-IsQuiet :
    (s : ComponentState) (q : Pair) (ps : List (Instant × Option ℕ))
    → s.last_observed ≡ some q
    → AreOld q.0 ps
    → All IsQuiet (classify_component_sequence (some s) ps)
unfolding classify_component_sequence stored_pair
classify_component_sequence-IsQuiet s q ps known h =
    rw known (classify_from-IsQuiet q (sorted_pairs ps) (sorted_pairs-All q.0 ps h))
