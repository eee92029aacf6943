-- ===== src/Ingest/Service/Answers.antt =====
-- What a request is answered: a value, a fixed rejection, or an exception that is no rejection.
use limnopulse.Prelude.{ℕ, Bool, Option}
use limnopulse.Calls.{returned, raised, Call}
use limnopulse.Ingest.Trust.{AdmissionDenied}

-- the closed set of the label `outcome` of `ingest_requests_total`
pub data RequestOutcome : Type 0 where
  accepted replayed unauthorized rate_limited unsupported_media too_large : RequestOutcome
  invalid conflict forbidden unavailable : RequestOutcome

-- `IngestErrorDetail`, and the body of `component_denial_detail`: the index and the reason
pub data Detail : Type 0 where
  unauthorized rate_limited unsupported_media_type too_large : Detail
  idempotency_conflict forbidden unavailable : Detail
  component : ℕ → AdmissionDenied → Detail

-- `IngestRejected`; of the headers, the value of `Retry-After` and whether there is a challenge
pub record Rejection : Type 0 where
  pub status_code : ℕ
  pub detail : Detail
  pub outcome : RequestOutcome
  pub retry_after : Option ℕ
  pub challenge : Bool

pub data Served (A : Type 0) : Type 0 where
  served : A → Served A
  rejected : Rejection → Served A
  escaped : Served A

abbrev pub Serve : Type 0 → Type 0 → Type 0
Serve W A = W → Served A × W

infixl 5 ◌>>=◌
abbrev pub ◌>>=◌ : {W A B : Type 0} → Serve W A → (A → Serve W B) → Serve W B
◌>>=◌ m f w =
    let (r, w') = m w in
    elim r [ served a ↦ f a w' | rejected x ↦ (rejected x, w') | escaped ↦ (escaped, w') ]

abbrev pub return : {W A : Type 0} → A → Serve W A
return a w = (served a, w)

-- `try: await call ... except Exception: raise failure`
abbrev pub attempt : {W A : Type 0} → Call W A → Serve W A → Serve W A
attempt call failure w =
    let (r, w') = call w in elim r [ returned a ↦ (served a, w') | raised ↦ failure w' ]
