-- ===== src/Redrive/Moves.antt =====
-- What a redrive has done, whichever calls failed and wherever it stopped.
use limnopulse.Prelude.{
  ℕ, zero, suc, ◌≡◌, refl, Bool, List, [], ◌∷◌, contains, Bool-cases, inl, inr, ltb, length, arith,
}
use limnopulse.Redrive.{
  Message, Attempt, succeeded, refused, raised, Received, batch, receive_raised, Event, Queues,
  World, Run, Ending, call, delete_sent, move, count_move, scan_batch, round, scan, release,
  redrive_dlq, hold_all, stop_or, no_run,
}

abbrev pub IsSent : Message → List Event → Type 0
IsSent m [] = ⊥
IsSent m (Event.sent body ∷ log) = body ≡ m.body
IsSent m (e ∷ log) = ⊥

-- Each message was deleted right after its own body was sent.
abbrev pub IsSafe : List Event → Type 0
IsSafe [] = Unit
IsSafe (Event.sent body ∷ log) = IsSafe log
IsSafe (Event.deleted m ∷ log) = IsSent m log × IsSafe log
IsSafe (Event.released m ∷ log) = IsSafe log

abbrev pub count_deleted : List Event → ℕ
count_deleted [] = 0
count_deleted (Event.deleted m ∷ log) = suc (count_deleted log)
count_deleted (e ∷ log) = count_deleted log

-- The log is safe, and the count of redriven messages is that of the deletions.
abbrev pub IsTrue : Run → List Event → Type 0
IsTrue run log = IsSafe log × (run.redriven ≡ count_deleted log)

abbrev pub EndsTrue : {A E : Type 0} → A × Run × World E → Type 0
EndsTrue (a, run, w) = IsTrue run w.log

stop_or-EndsTrue :
    {A E : Type 0} (r : Attempt) (stop rest : A × Run × World E)
    → EndsTrue stop
    → EndsTrue rest
    → EndsTrue (stop_or r stop rest)
stop_or-EndsTrue raised stop rest h k = h
stop_or-EndsTrue succeeded stop rest h k = k
stop_or-EndsTrue refused stop rest h k = k

stop_or-IsTrue :
    {E : Type 0} (run : Run) (r : Attempt) (stop rest : Bool × World E)
    → IsTrue run stop.1.log
    → IsTrue run rest.1.log
    → IsTrue run (stop_or r stop rest).1.log
stop_or-IsTrue run raised stop rest h k = h
stop_or-IsTrue run succeeded stop rest h k = k
stop_or-IsTrue run refused stop rest h k = k

module _ {E : Type 0} (queues : Queues E) where
  move-IsTrue :
      (m : Message) (run : Run) (w : World E)
      → IsTrue run w.log
      → IsTrue (count_move m (move queues m w).0 run) (move queues m w).1.log
  unfolding move delete_sent call count_move
  move-IsTrue m run w h = ground arith

  scan_batch-IsTrue :
      (apply : Bool) (ms : List Message) (run : Run) (w : World E)
      → IsTrue run w.log
      → EndsTrue (scan_batch queues apply ms run w)
  unfolding scan_batch
  scan_batch-IsTrue apply [] run w h = h
  scan_batch-IsTrue apply (m ∷ ms) run w h =
      let next = record run { seen = m.message_id ∷ run.seen } in
      let moved = move-IsTrue m next w h in
      elim (Bool-cases (contains m.message_id run.seen)) [
        | inl again ↦ rw again (scan_batch-IsTrue apply ms run w h)
        | inr new ↦ elim (Bool-cases apply) [
          | inr dry ↦ rw (new, dry) (scan_batch-IsTrue apply ms next w h)
          | inl live ↦
              rw (new, live)
                (stop_or-EndsTrue (move queues m w).0 _ _ moved
                  (scan_batch-IsTrue apply ms _ _ moved))
        ]
      ]

  round-IsTrue :
      (again : Run → World E → Ending × Run × World E) (apply : Bool) (run : Run) (log : List Event)
      (received : Received × E)
      → ((run' : Run) (w : World E) → IsTrue run' w.log → EndsTrue (again run' w))
      → IsTrue run log
      → EndsTrue (round queues again apply run log received)
  unfolding round
  round-IsTrue again apply run log (receive_raised, env) keep h = h
  round-IsTrue again apply run log (batch [], env) keep h = h
  round-IsTrue again apply run log (batch (m ∷ ms), env) keep h =
      let held : Run = record run { held = hold_all (m ∷ ms) run.held } in
      let w : World E = record { env = env; log = log } in
      let scanned = scan_batch-IsTrue apply (m ∷ ms) held w h in
      elim (Bool-cases ((scan_batch queues apply (m ∷ ms) held w).0)) [
        | inl through ↦ rw through (keep _ _ scanned)
        | inr stopped ↦ rw stopped scanned
      ]

  scan-IsTrue :
      (fuel : ℕ) (apply : Bool) (max_messages : ℕ) (run : Run) (w : World E)
      → IsTrue run w.log
      → EndsTrue (scan queues fuel apply max_messages run w)
  unfolding scan
  scan-IsTrue zero apply max_messages run w h = h
  scan-IsTrue (suc fuel) apply max_messages run w h =
      elim (Bool-cases (ltb (length run.seen) max_messages)) [
        | inl more ↦ rw more (
            round-IsTrue (scan queues fuel apply max_messages) apply run w.log _
              (scan-IsTrue fuel apply max_messages) h)
        | inr full ↦ rw full h
      ]

  released-IsTrue :
      (m : Message) (run : Run) (w : World E)
      → IsTrue run w.log
      → IsTrue run (call queues (queues.change_visibility m) (Event.released m) w).1.log
  unfolding call
  released-IsTrue m run w h = ground arith

  release-IsTrue :
      (ms : List Message) (run : Run) (w : World E)
      → IsTrue run w.log
      → IsTrue run (release queues ms w).1.log
  unfolding release
  release-IsTrue [] run w h = h
  release-IsTrue (m ∷ ms) run w h =
      let one = released-IsTrue m run w h in
      stop_or-IsTrue run (call queues (queues.change_visibility m) (Event.released m) w).0 _ _ one
        (release-IsTrue ms run _ one)

  -- Wherever a redrive stops and whichever calls fail, each message that it deleted from the dead-letter
  -- queue was deleted right after its own body was sent to the source queue, and the count of redriven
  -- messages is that of the deletions.
  pub redrive_dlq-IsTrue :
      (fuel : ℕ) (apply : Bool) (max_messages : ℕ) (env : E)
      → EndsTrue (redrive_dlq queues fuel apply max_messages (record { env = env; log = [] }))
  unfolding redrive_dlq
  redrive_dlq-IsTrue fuel apply max_messages env =
      let w : World E = record { env = env; log = [] } in
      let r = scan queues fuel apply max_messages no_run w in
      let scanned = scan-IsTrue fuel apply max_messages no_run w (tt, refl) in
      release-IsTrue r.1.held r.1 r.2 scanned
