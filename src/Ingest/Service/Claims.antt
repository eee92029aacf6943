-- ===== src/Ingest/Service/Claims.antt =====
-- The claim loop: the adapter's claim and the replay table judge liveness alike, so a lost claim is
-- decided at the first attempt.
use limnopulse.Prelude.{ℕ, suc, ◌≡◌, refl, ap, ◌⊎◌, inl, inr, true, Option, some, ==_iff, arith}
use limnopulse.Calls.{Outcome, returned, raised, Table, TableLaws}
use limnopulse.Ingest.{Ident, Instant, Envelope}
use limnopulse.Ingest.Receipt.{
  Receipt, ReceiptAction, decide_receipt_replay, is_ingress_receipt_live,
}
use limnopulse.Ingest.Receipt.Adapter.{ReceiptKey, claim_ingress_receipt}
use limnopulse.Ingest.Receipt.Adapter.Claim.{claim-Claimed}
use limnopulse.Ingest.Trust.Mapping.{Admission}
use limnopulse.Ingest.Service.Answers.{Serve, ◌>>=◌, attempt}
use limnopulse.Ingest.Service.Collaborators.{Ports, Accepted, unavailable}
use limnopulse.Ingest.Service.{on_claim, on_winner, claim_loop}

live-not_admit :
    (x : Receipt) (request : Ident) (now : Instant)
    → is_ingress_receipt_live x now ≡ true
    → (decide_receipt_replay (some x) request now ≡ ReceiptAction.conflict)
      ⊎ (decide_receipt_replay (some x) request now ≡ ReceiptAction.replay)
      ⊎ (decide_receipt_replay (some x) request now ≡ ReceiptAction.resume)
unfolding decide_receipt_replay
live-not_admit x request now h = ground arith

module _ {W : Type 0} (ports : Ports W) (a : Admission) (version : Option Ident) (claim : Receipt)
    (e : Envelope) (key : Ident) (count : ℕ) (now : Instant) where
  -- A turn whose winner is the claim, or is live, does not look at the next turn.
  on_claim-decided :
      (again again' : Serve W Accepted) (x : Receipt)
      → (x.ingress_id ≡ claim.ingress_id) ⊎ (is_ingress_receipt_live x now ≡ true)
      → on_claim ports a version claim e key count now again x
        ≡ on_claim ports a version claim e key count now again' x
  unfolding on_claim on_winner
  on_claim-decided again again' x (inl mine) = rw ((==_iff _ _).1 mine)
  on_claim-decided again again' x (inr live) =
      ground (arith, live-not_admit x claim.request_sha256 now live)

  -- a turn that differs only in the next one
  turn-decided :
      (again again' : Serve W Accepted) (w : W) (r : Outcome Receipt)
      → ((x : Receipt)
          → r ≡ returned x
          → (x.ingress_id ≡ claim.ingress_id) ⊎ (is_ingress_receipt_live x now ≡ true))
      → (attempt (λ _. (r, w)) (unavailable ports)
            >>= on_claim ports a version claim e key count now again)
          w
        ≡ (attempt (λ _. (r, w)) (unavailable ports)
              >>= on_claim ports a version claim e key count now again')
            w
  unfolding unavailable
  turn-decided again again' w (returned x) ok =
      ap (λ (m : Serve W Accepted). m w) (on_claim-decided again again' x (ok x refl))
  turn-decided again again' w raised ok = refl

  -- Where the claims are those of the receipt adapter over a table that keeps its laws, the loop
  -- gives after any number of attempts what it gives after one: it never tries again, and a claim
  -- is never lost twice.
  pub claim_loop_once :
      (table : Table W ReceiptKey Receipt)
      → TableLaws table
      → ((v : W) → ports.claim_receipt claim now v ≡ claim_ingress_receipt table claim now v)
      → (n : ℕ) (w : W)
      → claim_loop ports (suc n) a version claim e key count now w
        ≡ claim_loop ports 1 a version claim e key count now w
  unfolding claim_loop
  claim_loop_once table laws same n w =
      turn-decided (claim_loop ports n a version claim e key count now)
        (claim_loop ports 0 a version claim e key count now) (ports.claim_receipt claim now w).1
        (ports.claim_receipt claim now w).0
        (λ x h. elim ((claim-Claimed table laws claim now w x (rw (← same w) h)).1) [
          | inl new ↦ inl (ap (λ (r : Receipt). r.ingress_id) new.0)
          | inr old ↦ inr old.1
        ])
