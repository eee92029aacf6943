-- ===== src/Tests/Redriven.antt =====
-- Redrives, on concrete queues.
use limnopulse.Prelude.{
  ℕ, zero, suc, ◌≡◌, ◌≢◌, refl, Bool, true, false, if◌then◌else◌, ◌==◌, [], ◌∷◌, arith,
}
use limnopulse.Ingest.{Ident}
use limnopulse.Redrive.{Message, succeeded, refused, Received, batch, Queues, Ending, redrive_dlq}
use limnopulse.Redrive.Moves.{EndsTrue, redrive_dlq-IsTrue}
use limnopulse.Redrive.Rounds.{Given, Hides, redrive_dlq-ends}

abbrev letter : Message
letter = record { message_id = 1; receipt_handle = 2; body = 3 }

-- a queue that gives one batch, and refuses a body
abbrev give : ℕ → ℕ → Received × ℕ
give n zero = (batch (letter ∷ record letter { message_id = 4; body = 5 } ∷ []), 1)
give n (suc e) = (batch [], suc e)

abbrev queues : Queues ℕ
queues = record {
  receive = give;
  send_raw = λ body e. (if body == 5 then refused else succeeded, e);
  delete = λ m e. (succeeded, e);
  change_visibility = λ m e. (succeeded, e);
}

redrive_dlq-IsTrue_example : EndsTrue (redrive_dlq queues 11 true 10 (record { env = 0; log = [] }))
redrive_dlq-IsTrue_example = redrive_dlq-IsTrue queues 11 true 10 0

one_moved : (redrive_dlq queues 11 true 10 (record { env = 0; log = [] })).1.redriven ≡ 1
unfolding redrive_dlq
one_moved = refl

-- What a queue gave is hidden for good.
abbrev hidden : ℕ → Ident → Bool
hidden zero id = false
hidden (suc e) id = true

give-Given : (n e : ℕ) → Given hidden e (give n e)
give-Given n zero = (λ id h. ground arith, ((refl, refl), ((refl, refl), tt)))
give-Given n (suc e) = (λ id h. h, tt)

queues-Hides : Hides hidden queues
queues-Hides = record {
  received = give-Given;
  sent_keeps = λ body e id h. h;
  deleted_keeps = λ m e id h. h;
}

redrive_dlq-ends_example :
    (redrive_dlq queues 11 true 10 (record { env = 0; log = [] })).0 ≢ Ending.out_of_fuel
redrive_dlq-ends_example =
    redrive_dlq-ends hidden queues queues-Hides 11 true 10 (record { env = 0; log = [] })
      (omega arith)
