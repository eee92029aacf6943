-- ===== src/Authentication.antt =====
-- `IngestCredentialAuthenticator` of services/connector_auth.py, and steps 1 to 4 of the route:
-- `_bearer_token` and `authenticate` of services/ingestion.py. A text is the list of its codes.
pub mod Sources
use limnopulse.Prelude.{
  ℕ, ◌+◌, Bool, true, false, not, ◌&&◌, ◌||◌, Option, none, some, List, [], ◌∷◌, if◌then◌else◌, leb,
  ◌==◌,
}
use limnopulse.Ingest.{Ident, Instant, Account, Source}
use limnopulse.Ingest.Trust.{https_direct}
use limnopulse.Ingest.RateLimit.{Limits, Buckets, try_acquire, retry_after}
use limnopulse.Status.{AccountStatus}
use limnopulse.Credentials.{Credential, is_active}
use limnopulse.Credentials.Token.{Text, parse_ingest_token}

-- the text before the first space, and the one after it
unfoldable pub scheme_of : Text → Text
scheme_of [] = []
scheme_of (c ∷ cs) = let rest = scheme_of cs in if c == 32 then [] else c ∷ rest

unfoldable pub after_space : Text → Text
after_space [] = []
after_space (c ∷ cs) = let rest = after_space cs in if c == 32 then cs else rest

-- `lstrip(" ")`
unfoldable pub strip_spaces : Text → Text
strip_spaces [] = []
strip_spaces (c ∷ cs) = let rest = strip_spaces cs in if c == 32 then rest else c ∷ cs

abbrev pub lower : ℕ → ℕ
lower c = if leb 65 c && leb c 90 then c + 32 else c

-- `scheme.lower() == "bearer"`
unfoldable pub is_lowered : Text → Text → Bool
is_lowered [] [] = true
is_lowered (w ∷ ws) (c ∷ cs) = lower c == w && is_lowered ws cs
is_lowered _ _ = false

abbrev pub bearer : Text
bearer = 98 ∷ 101 ∷ 97 ∷ 114 ∷ 101 ∷ 114 ∷ []

abbrev pub some_text : Text → Option Text
some_text [] = none
some_text (c ∷ cs) = some (c ∷ cs)

-- `_bearer_token`; a missing header is the empty text
unfoldable pub bearer_token : Text → Option Text
unfolding scheme_of after_space strip_spaces is_lowered
bearer_token authorization =
    if is_lowered bearer (scheme_of authorization)
    then some_text (strip_spaces (after_space authorization))
    else none

-- What the authenticator reads; an outer `none` is an exception of the store.
pub record Readers : Type 0 where
  pub identifier : Text → Ident
  pub ingest_secret_sha256 : Text → Ident
  pub ceil_quotient : ℕ → ℕ → ℕ
  pub get_ingest_credential : Ident → Option (Option Credential)
  pub get_integration_account : Ident → Ident → Option (Option Account)

abbrev pub is_active_account : AccountStatus → Bool
is_active_account AccountStatus.active = true
is_active_account _ = false

-- What `authenticate` answers: a source, 401, 429 with its `Retry-After`, or 503.
pub data Answer : Type 0 where
  authenticated : Source → Answer
  unauthorized : Answer
  rate_limited : ℕ → Answer
  unavailable : Answer

module _ (readers : Readers) where
  -- the end of `IngestCredentialAuthenticator.authenticate`, on the account that it read
  unfoldable pub source_of : Credential → Option (Option Account) → Answer
  source_of c none = unavailable
  source_of c (some none) = unauthorized
  source_of c (some (some a)) =
      if is_active_account a.status && a.provider_key == https_direct
      then authenticated (record {
        tenant_id = c.tenant_id;
        integration_account_id = c.integration_account_id;
        provider_key = a.provider_key;
        ingest_credential_id = c.ingest_credential_id;
      })
      else unauthorized

  -- `IngestCredentialAuthenticator.authenticate`, on the credential that it read
  unfoldable pub check_secret : Ident → Option (Option Credential) → Answer
  unfolding source_of
  check_secret digest none = unavailable
  check_secret digest (some none) = unauthorized
  check_secret digest (some (some c)) =
      if not (digest == c.secret_sha256)
      then unauthorized
      else if not (is_active c.status)
      then unauthorized
      else source_of c (readers.get_integration_account c.tenant_id c.integration_account_id)

  -- `IngestCredentialAuthenticator.authenticate`, on the id and the secret of the token
  unfoldable pub authenticate_token : Text × Text → Answer
  unfolding check_secret
  authenticate_token (id, secret) =
      check_secret (readers.ingest_secret_sha256 secret)
        (readers.get_ingest_credential (readers.identifier id))

-- The three limiters of the route, and what they hold.
pub record RouteLimits : Type 0 where
  pub preauth_global : Limits
  pub preauth : Limits
  pub account : Limits

pub record Limiters : Type 0 where
  pub preauth_global : Buckets
  pub preauth : Buckets
  pub account : Buckets

-- `PREAUTH_GLOBAL_KEY`
abbrev pub preauth_global_key : Ident
preauth_global_key = 0

-- `_limit`: the 429 where the limiter refuses
abbrev pub limited : Readers → Limits → Option ℕ → Answer → Answer
limited readers limits none rest = rest
limited readers limits (some missing) rest =
    rate_limited (retry_after readers.ceil_quotient limits missing)

abbrev pub is_granted : Option ℕ → Bool
is_granted none = true
is_granted (some missing) = false

module _ (readers : Readers) (limits : RouteLimits) where
  -- the limiter of the account, after the authenticator
  unfoldable pub limit_account : Instant → Answer → Limiters → Answer × Limiters
  unfolding try_acquire retry_after
  limit_account now (authenticated source) l =
      let (r, account) = try_acquire limits.account source.integration_account_id now l.account in
      (limited readers limits.account r (authenticated source), record l { account = account })
  limit_account now unauthorized l = (unauthorized, l)
  limit_account now (rate_limited seconds) l = (rate_limited seconds, l)
  limit_account now unavailable l = (unavailable, l)

  -- the limiter of the credential, and the authenticator; `later` is the second reading of the clock
  unfoldable pub limit_credential :
      (now later : Instant) → Text × Text → Limiters → Answer × Limiters
  unfolding limit_account authenticate_token try_acquire
  limit_credential now later parsed l =
      let (r, preauth) = try_acquire limits.preauth (readers.identifier parsed.0) now l.preauth in
      let l' = record l { preauth = preauth } in
      elim r [
        | none ↦ limit_account later (authenticate_token readers parsed) l'
        | some missing ↦
            (rate_limited (retry_after readers.ceil_quotient limits.preauth missing), l')
      ]

  unfoldable pub limit_global : (now later : Instant) → Text × Text → Limiters → Answer × Limiters
  unfolding limit_credential try_acquire
  limit_global now later parsed l =
      let (r, all) = try_acquire limits.preauth_global preauth_global_key now l.preauth_global in
      let l' = record l { preauth_global = all } in
      elim r [
        | none ↦ limit_credential now later parsed l'
        | some missing ↦
            (rate_limited (retry_after readers.ceil_quotient limits.preauth_global missing), l')
      ]

  -- `authenticate`, on the token of the header
  unfoldable pub authenticate_parsed :
      (now later : Instant) → Option (Text × Text) → Limiters → Answer × Limiters
  unfolding limit_global
  authenticate_parsed now later none l = (unauthorized, l)
  authenticate_parsed now later (some parsed) l = limit_global now later parsed l

  abbrev pub parsed_token : Option Text → Option (Text × Text)
  parsed_token none = none
  parsed_token (some token) = parse_ingest_token token

  -- `authenticate`
  unfoldable pub authenticate : (now later : Instant) → Text → Limiters → Answer × Limiters
  unfolding authenticate_parsed bearer_token parse_ingest_token
  authenticate now later authorization l =
      authenticate_parsed now later (parsed_token (bearer_token authorization)) l
