-- ===== src/Redrive/Rounds.antt =====
-- How many rounds a redrive takes, where the queue hides what it gave out.
use limnopulse.Prelude.{
  ℕ, zero, suc, ◌+◌, ◌≤◌, ◌<◌, ◌≡◌, ◌≢◌, refl, Bool, true, false, List, [], ◌∷◌, contains,
  Bool-cases, inl, inr, ltb, length, All, arith,
}
use limnopulse.Ingest.{Ident}
use limnopulse.Redrive.{
  Message, Attempt, succeeded, refused, raised, Received, batch, receive_raised, Event, Queues,
  World, Run, Ending, call, delete_sent, move, count_move, scan_batch, round, scan, release,
  redrive_dlq, hold_all, stop_or, no_run,
}

module _ {E : Type 0} (hidden : E → Ident → Bool) where
  -- What was hidden stays hidden.
  abbrev pub Keeps : E → E → Type 0
  Keeps before after = (id : Ident) → hidden before id ≡ true → hidden after id ≡ true

  abbrev pub IsHidden : E → Ident → Type 0
  IsHidden env id = hidden env id ≡ true

  -- A message is received only where it is not hidden, and is hidden from then on.
  abbrev pub IsTaken : E → E → Message → Type 0
  IsTaken before after m = (hidden before m.message_id ≡ false) × IsHidden after m.message_id

  abbrev pub Given : E → Received × E → Type 0
  Given before (receive_raised, after) = Keeps before after
  Given before (batch ms, after) = Keeps before after × All (IsTaken before after) ms

  -- The hold of a received message outlasts the run, and a send or a delete ends no hold.
  pub record Hides (queues : Queues E) : Type 0 where
    pub received : (n : ℕ) (env : E) → Given env (queues.receive n env)
    pub sent_keeps : (body : Ident) (env : E) → Keeps env (queues.send_raw body env).1
    pub deleted_keeps : (m : Message) (env : E) → Keeps env (queues.delete m env).1

  IsHidden-later :
      (before after : E) (ids : List Ident)
      → Keeps before after
      → All (IsHidden before) ids
      → All (IsHidden after) ids
  IsHidden-later before after [] keeps h = tt
  IsHidden-later before after (id ∷ ids) keeps h =
      (keeps id h.0, IsHidden-later before after ids keeps h.1)

  -- an id that is not hidden was not seen
  unseen :
      (env : E) (id : Ident) (ids : List Ident)
      → hidden env id ≡ false
      → All (IsHidden env) ids
      → contains id ids ≡ false
  unseen env id [] new h = refl
  unseen env id (j ∷ ids) new h =
      let later = unseen env id ids new h.1 in let this = h.0 in ground arith

  module _ (queues : Queues E) (hides : Hides queues) where
    call_env :
        (f : E → Attempt × E) (e : Event) (w : World E) → (call queues f e w).1.env ≡ (f w.env).1
    unfolding call
    call_env f e w = ground arith

    count_move_seen : (m : Message) (r : Attempt) (run : Run) → (count_move m r run).seen ≡ run.seen
    unfolding count_move
    count_move_seen m r run = ground arith

    call-Keeps :
        (f : E → Attempt × E) (e : Event) (w : World E)
        → ((env : E) → Keeps env (f env).1)
        → Keeps w.env (call queues f e w).1.env
    call-Keeps f e w keeps = rw (call_env f e w) (keeps w.env)

    delete_sent-Keeps :
        (m : Message) (r : Attempt) (w : World E) → Keeps w.env (delete_sent queues m r w).1.env
    unfolding delete_sent
    delete_sent-Keeps m succeeded w =
        call-Keeps (queues.delete m) (Event.deleted m) w (hides.deleted_keeps m)
    delete_sent-Keeps m refused w = λ id h. h
    delete_sent-Keeps m raised w = λ id h. h

    move-Keeps : (m : Message) (w : World E) → Keeps w.env (move queues m w).1.env
    unfolding move
    move-Keeps m w id h =
        let sent = call queues (queues.send_raw m.body) (Event.sent m.body) w in
        delete_sent-Keeps m sent.0 sent.1 id
          (call-Keeps (queues.send_raw m.body) (Event.sent m.body) w (hides.sent_keeps m.body) id h)

    -- The ids that were seen are hidden, and they are at least so many.
    abbrev pub HasSeen : ℕ → Run → World E → Type 0
    HasSeen n run w = All (IsHidden w.env) run.seen × (n ≤ length run.seen)

    abbrev pub EndsSeen : {A : Type 0} → ℕ → A × Run × World E → Type 0
    EndsSeen n (a, run, w) = HasSeen n run w

    stop_or-EndsSeen :
        {A : Type 0} (n : ℕ) (r : Attempt) (stop rest : A × Run × World E)
        → EndsSeen n stop
        → EndsSeen n rest
        → EndsSeen n (stop_or r stop rest)
    stop_or-EndsSeen n raised stop rest h k = h
    stop_or-EndsSeen n succeeded stop rest h k = k
    stop_or-EndsSeen n refused stop rest h k = k

    moved-HasSeen :
        (n : ℕ) (m : Message) (run : Run) (w : World E)
        → HasSeen n run w
        → HasSeen n (count_move m (move queues m w).0 run) (move queues m w).1
    moved-HasSeen n m run w h =
        rw (count_move_seen m (move queues m w).0 run)
          (IsHidden-later w.env (move queues m w).1.env run.seen (move-Keeps m w) h.0, h.1)

    batch_later :
        (before after : E) (ms : List Message)
        → Keeps before after
        → All (λ m. IsHidden before m.message_id) ms
        → All (λ m. IsHidden after m.message_id) ms
    batch_later before after [] keeps h = tt
    batch_later before after (m ∷ ms) keeps h =
        (keeps m.message_id h.0, batch_later before after ms keeps h.1)

    abbrev pub AllHidden : World E → List Message → Type 0
    AllHidden w ms = All (λ m. IsHidden w.env m.message_id) ms

    -- a message that was not seen before is one more
    scan_new-EndsSeen :
        (apply : Bool) (n : ℕ) (m : Message) (ms : List Message) (run : Run) (w : World E)
        → contains m.message_id run.seen ≡ false
        → AllHidden w (m ∷ ms)
        → HasSeen n run w
        → ((run' : Run) (w' : World E)
            → AllHidden w' ms
            → HasSeen (suc n) run' w'
            → EndsSeen (suc n) (scan_batch queues apply ms run' w'))
        → EndsSeen (suc n) (scan_batch queues apply (m ∷ ms) run w)
    unfolding scan_batch
    scan_new-EndsSeen apply n m ms run w new given h rest =
        let next = record run { seen = m.message_id ∷ run.seen } in
        let seen : HasSeen (suc n) next w = ((given.0, h.0), omega (arith, h.1)) in
        let moved = moved-HasSeen (suc n) m next w seen in
        elim (Bool-cases apply) [
          | inr dry ↦ rw (new, dry) (rest next w given.1 seen)
          | inl live ↦
              rw (new, live)
                (stop_or-EndsSeen (suc n) (move queues m w).0 _ _ moved (
                  rest _ _ (batch_later w.env (move queues m w).1.env ms (move-Keeps m w) given.1)
                    moved))
        ]

    at_least : (n : ℕ) (r : Bool × Run × World E) → EndsSeen (suc n) r → EndsSeen n r
    at_least n r h = (h.0, omega (arith, h.1))

    scan_batch-EndsSeen :
        (apply : Bool) (n : ℕ) (ms : List Message) (run : Run) (w : World E)
        → AllHidden w ms
        → HasSeen n run w
        → EndsSeen n (scan_batch queues apply ms run w)
    unfolding scan_batch
    scan_batch-EndsSeen apply n [] run w given h = h
    scan_batch-EndsSeen apply n (m ∷ ms) run w given h =
        elim (Bool-cases (contains m.message_id run.seen)) [
          | inl again ↦ rw again (scan_batch-EndsSeen apply n ms run w given.1 h)
          | inr new ↦ at_least n (scan_batch queues apply (m ∷ ms) run w) (
              scan_new-EndsSeen apply n m ms run w new given h
                (scan_batch-EndsSeen apply (suc n) ms))
        ]

    batch_hidden :
        (before : E) (w : World E) (ms : List Message)
        → All (IsTaken before w.env) ms
        → AllHidden w ms
    batch_hidden before w [] h = tt
    batch_hidden before w (m ∷ ms) h = (h.0.1, batch_hidden before w ms h.1)

    round_ends :
        (again : Run → World E → Ending × Run × World E) (apply : Bool) (n : ℕ) (run : Run)
        (w : World E) (p : Received × E)
        → Given w.env p
        → HasSeen n run w
        → ((run' : Run) (w' : World E)
            → HasSeen (suc n) run' w'
            → (again run' w').0 ≢ Ending.out_of_fuel)
        → (round queues again apply run w.log p).0 ≢ Ending.out_of_fuel
    unfolding round
    round_ends again apply n run w (receive_raised, env) given h next = ground arith
    round_ends again apply n run w (batch [], env) given h next = ground arith
    round_ends again apply n run w (batch (m ∷ ms), env) (keeps, taken) h next =
        let held : Run = record run { held = hold_all (m ∷ ms) run.held } in
        let w' : World E = record { env = env; log = w.log } in
        let seen : HasSeen n held w' = (IsHidden-later w.env env run.seen keeps h.0, h.1) in
        let new = unseen w.env m.message_id run.seen taken.0.0 h.0 in
        let scanned =
          scan_new-EndsSeen apply n m ms held w' new (batch_hidden w.env w' (m ∷ ms) taken) seen
            (scan_batch-EndsSeen apply (suc n) ms) in
        elim (Bool-cases ((scan_batch queues apply (m ∷ ms) held w').0)) [
          | inl through ↦ rw through (next _ _ scanned)
          | inr stopped ↦ rw stopped (λ e. ground arith)
        ]

    scan_ends :
        (fuel : ℕ) (apply : Bool) (max_messages n : ℕ) (run : Run) (w : World E)
        → HasSeen n run w
        → max_messages ≤ fuel + n
        → (scan queues (suc fuel) apply max_messages run w).0 ≢ Ending.out_of_fuel
    unfolding scan
    scan_ends zero apply max_messages n run w h enough =
        let full : ltb (length run.seen) max_messages ≡ false = (let k = h.1 in ground arith) in
        rw full (λ e. ground arith)
    scan_ends (suc fuel) apply max_messages n run w h enough =
        elim (Bool-cases (ltb (length run.seen) max_messages)) [
          | inr full ↦ rw full (λ e. ground arith)
          | inl more ↦ rw more (
              round_ends (scan queues (suc fuel) apply max_messages) apply n run w _
                (hides.received _ w.env) h
                (λ run' w' h'. scan_ends fuel apply max_messages (suc n) run' w' h' (omega arith)))
        ]

    -- A redrive ends: where a received message stays hidden for the whole run, a round for each message
    -- that may be moved, and one more, is fuel enough, whichever calls fail.
    pub redrive_dlq-ends :
        (fuel : ℕ) (apply : Bool) (max_messages : ℕ) (w : World E)
        → max_messages < fuel
        → (redrive_dlq queues fuel apply max_messages w).0 ≢ Ending.out_of_fuel
    unfolding redrive_dlq
    redrive_dlq-ends zero apply max_messages w enough = absurd (omega arith)
    redrive_dlq-ends (suc fuel) apply max_messages w enough =
        let r = scan queues (suc fuel) apply max_messages no_run w in
        let ends = scan_ends fuel apply max_messages 0 no_run w (tt, omega arith) (omega arith) in
        elim (Bool-cases ((release queues r.1.held r.2).0)) [
          | inl through ↦ rw through ends
          | inr stopped ↦ rw stopped (λ e. ground arith)
        ]
