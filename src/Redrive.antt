-- ===== src/Redrive.antt =====
-- `redrive_dlq` of services/ingress_redrive.py. The queues are parameters: each call acts on an
-- environment, and succeeds, is refused with `IngressQueueError` or `IngressMessageTooLarge`, or raises
-- another exception. What was carried out is a log, the latest event first.
pub mod Moves
pub mod Rounds
use limnopulse.Prelude.{
  ℕ, zero, suc, ◌+◌, ◌-◌, min, Bool, true, false, not, List, [], ◌∷◌, ◌++◌, if◌then◌else◌, ◌==◌,
  ltb, contains, length, is_empty,
}
use limnopulse.Ingest.{Ident}

-- `IngressQueueMessage`, as far as a redrive reads it
pub record Message : Type 0 where
  pub message_id : Ident
  pub receipt_handle : Ident
  pub body : Ident

pub data Attempt : Type 0 where
  succeeded refused raised : Attempt

pub data Received : Type 0 where
  batch : List Message → Received
  receive_raised : Received

pub data Event : Type 0 where
  sent : Ident → Event
  deleted : Message → Event
  released : Message → Event

pub record Queues (E : Type 0) : Type 0 where
  pub receive : ℕ → E → Received × E
  pub send_raw : Ident → E → Attempt × E
  pub delete : Message → E → Attempt × E
  pub change_visibility : Message → E → Attempt × E

pub record World (E : Type 0) : Type 0 where
  pub env : E
  pub log : List Event

-- `RedriveProgress`, with the ids that were seen and the messages that are held
pub record Run : Type 0 where
  pub seen : List Ident
  pub held : List Message
  pub redriven : ℕ
  pub failed : ℕ

-- How a redrive ended: with its report, by an exception, or with the fuel.
pub data Ending : Type 0 where
  finished interrupted out_of_fuel : Ending

abbrev pub max_batch : ℕ
max_batch = 10

-- `held[message.message_id] = message`
unfoldable pub hold : Message → List Message → List Message
hold m [] = m ∷ []
hold m (h ∷ hs) = let rest = hold m hs in if h.message_id == m.message_id then m ∷ hs else h ∷ rest

-- `held.update(...)`
unfoldable pub hold_all : List Message → List Message → List Message
unfolding hold
hold_all [] hs = hs
hold_all (m ∷ ms) hs = hold_all ms (hold m hs)

-- `del held[message.message_id]`
unfoldable pub unhold : Ident → List Message → List Message
unhold id [] = []
unhold id (h ∷ hs) = let rest = unhold id hs in if h.message_id == id then hs else h ∷ rest

abbrev pub record_event : {E : Type 0} → Attempt → Event → E → List Event → World E
record_event succeeded event env log = record { env = env; log = event ∷ log }
record_event _ event env log = record { env = env; log = log }

-- what a move leaves of the counts
unfoldable pub count_move : Message → Attempt → Run → Run
unfolding unhold
count_move m succeeded run = record run {
  held = unhold m.message_id run.held;
  redriven = run.redriven + 1;
}
count_move m refused run = record run { failed = run.failed + 1 }
count_move m raised run = run

abbrev pub no_run : Run
no_run = record { seen = []; held = []; redriven = 0; failed = 0 }

abbrev pub stop_or : {A : Type 0} → Attempt → A → A → A
stop_or raised stop rest = stop
stop_or _ stop rest = rest

module _ {E : Type 0} (queues : Queues E) where
  unfoldable pub call : (E → Attempt × E) → Event → World E → Attempt × World E
  call f event w = let (r, env) = f w.env in (r, record_event r event env w.log)

  -- the `delete` of `_move`
  unfoldable pub delete_sent : Message → Attempt → World E → Attempt × World E
  unfolding call
  delete_sent m succeeded w = call (queues.delete m) (Event.deleted m) w
  delete_sent m r w = (r, w)

  -- `_move`: `succeeded` for `True`, `refused` for `False`
  unfoldable pub move : Message → World E → Attempt × World E
  unfolding delete_sent call
  move m w = let (r, w') = call (queues.send_raw m.body) (Event.sent m.body) w in delete_sent m r w'

  -- the loop over a batch: whether it reached the end, the counts and the world
  unfoldable pub scan_batch : Bool → List Message → Run → World E → Bool × Run × World E
  unfolding move count_move
  scan_batch apply [] run w = (true, run, w)
  scan_batch apply (m ∷ ms) run w =
      let next = record run { seen = m.message_id ∷ run.seen } in
      let (r, w') = move m w in
      let moved = count_move m r next in
      let skip = scan_batch apply ms run w in
      let dry = scan_batch apply ms next w in
      let rest = scan_batch apply ms moved w' in
      if contains m.message_id run.seen
      then skip
      else if not apply
      then dry
      else stop_or r (false, moved, w') rest

  -- a round, after its receive: the batch is held, and scanned
  unfoldable pub round :
      (Run → World E → Ending × Run × World E)
      → Bool
      → Run
      → List Event
      → Received × E
      → Ending × Run × World E
  unfolding scan_batch hold_all
  round again apply run log (receive_raised, env) =
      (Ending.interrupted, run, record { env = env; log = log })
  round again apply run log (batch [], env) =
      (Ending.finished, run, record { env = env; log = log })
  round again apply run log (batch (m ∷ ms), env) =
      let held = record run { held = hold_all (m ∷ ms) run.held } in
      let (through, run', w') = scan_batch apply (m ∷ ms) held (record { env = env; log = log }) in
      let next = again run' w' in if through then next else (Ending.interrupted, run', w')

  -- the `while` loop
  unfoldable pub scan : ℕ → Bool → ℕ → Run → World E → Ending × Run × World E
  unfolding round
  scan zero apply max_messages run w = (Ending.out_of_fuel, run, w)
  scan (suc fuel) apply max_messages run w =
      let next =
        round (scan fuel apply max_messages) apply run w.log
          (queues.receive (min max_batch (max_messages - length run.seen)) w.env) in
      if ltb (length run.seen) max_messages then next else (Ending.finished, run, w)

  -- `_release`: an `IngressQueueError` is passed over; whether no other exception stopped it
  unfoldable pub release : List Message → World E → Bool × World E
  unfolding call
  release [] w = (true, w)
  release (m ∷ ms) w =
      let (r, w') = call (queues.change_visibility m) (Event.released m) w in
      let rest = release ms w' in stop_or r (false, w') rest

  -- `redrive_dlq`: the scan, and the release of what is held, however the scan ended
  unfoldable pub redrive_dlq : ℕ → Bool → ℕ → World E → Ending × Run × World E
  unfolding scan release
  redrive_dlq fuel apply max_messages w =
      let (ending, run, w') = scan fuel apply max_messages no_run w in
      let (through, w'') = release run.held w' in
      (if through then ending else Ending.interrupted, run, w'')
