-- ===== src/Ingest/Service/Accepts/Rules.antt =====
-- What the collaborators of the service promise, and rules for the ends of a request.
use mathlib.Core.Path.{subst}
use limnopulse.Prelude.{◌≡◌, refl, Option, some, List, ◌∷◌, ℕ}
use limnopulse.Calls.{Outcome, returned, raised, Call}
use limnopulse.Ingest.{Ident, Instant, Source, Batch, Envelope}
use limnopulse.Ingest.Receipt.{Receipt}
use limnopulse.Ingest.Trust.{AdmissionDenied}
use limnopulse.Ingest.Trust.Mapping.{Admission, admission}
use limnopulse.Ingest.Service.Answers.{
  RequestOutcome, Rejection, Served, served, rejected, escaped, Serve, ◌>>=◌, return, attempt,
}
use limnopulse.Ingest.Service.Collaborators.{Ports}

-- What can be observed of a world: the messages that the queue took, the latest first, and the
-- receipt that is stored for an account and a key.
pub record Ledger (W : Type 0) : Type 0 where
  pub sent : W → List Envelope
  pub stored : W → Ident → Ident → Option Receipt

-- Only a send adds a message, and a send that returns has added its own. A receipt that is read or
-- claimed is the one that is stored. The mapping admits for the source that asks.
pub record PortLaws {W : Type 0} (p : Ports W) (l : Ledger W) : Type 0 where
  pub clock_sent : (w : W) → l.sent (p.clock w).1 ≡ l.sent w
  pub new_ingress_id_sent : (w : W) → l.sent (p.new_ingress_id w).1 ≡ l.sent w
  pub get_receipt_sent : (a k : Ident) (w : W) → l.sent (p.get_receipt a k w).1 ≡ l.sent w
  pub claim_receipt_sent :
      (r : Receipt) (t : Instant) (w : W) → l.sent (p.claim_receipt r t w).1 ≡ l.sent w
  pub mark_enqueued_sent : (a k i : Ident) (w : W) → l.sent (p.mark_enqueued a k i w).1 ≡ l.sent w
  pub admit_sent : (s : Source) (b : Batch) (w : W) → l.sent (p.admit s b w).1 ≡ l.sent w
  pub allows_sent : (t a : Ident) (n : ℕ) (w : W) → l.sent (p.allows t a n w).1 ≡ l.sent w
  pub count_request_sent : (o : RequestOutcome) (w : W) → l.sent (p.count_request o w) ≡ l.sent w
  pub count_denied_sent : (d : AdmissionDenied) (w : W) → l.sent (p.count_denied d w) ≡ l.sent w
  pub count_admitted_sent : (n : ℕ) (w : W) → l.sent (p.count_admitted n w) ≡ l.sent w
  pub send_returned :
      (e : Envelope) (w : W) → (p.send e w).0 ≡ returned tt → l.sent (p.send e w).1 ≡ e ∷ l.sent w
  pub get_receipt_stored :
      (a k : Ident) (w : W) (o : Option Receipt)
      → (p.get_receipt a k w).0 ≡ returned o
      → l.stored (p.get_receipt a k w).1 a k ≡ o
  pub claim_receipt_stored :
      (r : Receipt) (t : Instant) (w : W) (x : Receipt)
      → (p.claim_receipt r t w).0 ≡ returned x
      → l.stored (p.claim_receipt r t w).1 r.integration_account_id r.key_sha256 ≡ some x
  pub count_request_stored :
      (o : RequestOutcome) (w : W) (a k : Ident)
      → l.stored (p.count_request o w) a k ≡ l.stored w a k
  pub admit_source :
      (s : Source) (b : Batch) (w : W) (a : Admission)
      → (p.admit s b w).0 ≡ returned (admission a)
      → a.source ≡ s

-- How a request ends: served with `Q`, or rejected with `E`.
pub record Ends {W A : Type 0} (Q : A → W → Type 0) (E : Rejection → W → Type 0) (r : Served A × W)
    : Type 0 where
  pub at_served : (a : A) → r.0 ≡ served a → Q a r.1
  pub at_rejected : (x : Rejection) → r.0 ≡ rejected x → E x r.1

module _ {W A : Type 0} (Q : A → W → Type 0) (E : Rejection → W → Type 0) where
  pub Ends-return : (a : A) (w : W) → Q a w → Ends Q E (return a w)
  Ends-return a w q = record {
    at_served = λ b h. subst (λ x. Q x w) (cc h) q;
    at_rejected = λ r h. cc h;
  }

  pub Ends-attempt :
      (call : Call W A) (failure : Serve W A) (w : W)
      → ((a : A) → (call w).0 ≡ returned a → Q a (call w).1)
      → Ends Q E (failure (call w).1)
      → Ends Q E (attempt call failure w)
  Ends-attempt call failure w ok bad = go (call w).0 ok
    where
      done : Outcome A → Served A × W
      done r = elim r [ returned a ↦ (served a, (call w).1) | raised ↦ failure (call w).1 ]

      go : (r : Outcome A) → ((a : A) → r ≡ returned a → Q a (call w).1) → Ends Q E (done r)
      go (returned a) ok = Ends-return a (call w).1 (ok a refl)
      go raised ok = bad

module _ {W A B : Type 0} (P : A → W → Type 0) (Q : B → W → Type 0)
    (E : Rejection → W → Type 0) where
  pub Ends-bind :
      (m : Serve W A) (f : A → Serve W B) (w : W)
      → Ends P E (m w)
      → ((a : A) (w' : W) → P a w' → Ends Q E (f a w'))
      → Ends Q E ((m >>= f) w)
  Ends-bind m f w first next = go (m w).0 first.at_served first.at_rejected
    where
      done : Served A → Served B × W
      done r = elim r [
        | served a ↦ f a (m w).1
        | rejected x ↦ (rejected x, (m w).1)
        | escaped ↦ (escaped, (m w).1)
      ]

      go :
          (r : Served A)
          → ((a : A) → r ≡ served a → P a (m w).1)
          → ((x : Rejection) → r ≡ rejected x → E x (m w).1)
          → Ends Q E (done r)
      go (served a) p e = next a (m w).1 (p a refl)
      go (rejected x) p e = record {
        at_served = λ b h. cc h;
        at_rejected = λ y h. subst (λ z. E z (m w).1) (cc h) (e x refl);
      }
      go escaped p e = record { at_served = λ b h. cc h; at_rejected = λ y h. cc h }
