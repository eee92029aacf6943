-- ===== src/Authentication/Sources.antt =====
-- What an authenticated source stands for.
use limnopulse.Prelude.{
  ◌≡◌, refl, Option, none, some, ◌==◌, Bool-cases, Option-cases, inl, inr, ap, ==_iff, arith,
}
use limnopulse.Ingest.{Ident, Instant, Account, Source}
use limnopulse.Ingest.Trust.{https_direct}
use limnopulse.Ingest.RateLimit.{try_acquire}
use limnopulse.Status.{AccountStatus}
use limnopulse.Credentials.{CredentialStatus, Credential, is_active}
use limnopulse.Credentials.Token.{Text, IsToken, parse_ingest_token_iff}
use limnopulse.Authentication.{
  bearer_token, Readers, Answer, authenticated, unauthorized, rate_limited, unavailable, source_of,
  check_secret, authenticate_token, RouteLimits, Limiters, preauth_global_key, limit_account,
  limit_credential, limit_global, authenticate_parsed, parsed_token, authenticate,
}

-- The source is that of a stored active credential with this secret, whose account is active and of the
-- HTTPS provider.
abbrev pub IsVerified : Readers → Ident → Ident → Source → Type 0
IsVerified readers id digest source =
    (c : Credential) × (a : Account) × (readers.get_ingest_credential id ≡ some (some c))
    × (digest ≡ c.secret_sha256)
    × (c.status ≡ CredentialStatus.active)
    × (readers.get_integration_account c.tenant_id c.integration_account_id ≡ some (some a))
    × (a.status ≡ AccountStatus.active)
    × (a.provider_key ≡ https_direct)
    × (source ≡ record {
      tenant_id = c.tenant_id;
      integration_account_id = c.integration_account_id;
      provider_key = a.provider_key;
      ingest_credential_id = c.ingest_credential_id;
    })

source_of-IsVerified :
    (readers : Readers) (id digest : Ident) (c : Credential) (o : Option (Option Account))
    (source : Source)
    → readers.get_ingest_credential id ≡ some (some c)
    → digest ≡ c.secret_sha256
    → c.status ≡ CredentialStatus.active
    → readers.get_integration_account c.tenant_id c.integration_account_id ≡ o
    → source_of readers c o ≡ authenticated source
    → IsVerified readers id digest source
unfolding source_of
source_of-IsVerified readers id digest c none source found same active read h = ground arith
source_of-IsVerified readers id digest c (some none) source found same active read h = ground arith
source_of-IsVerified readers id digest c (some (some a)) source found same active read h =
    (c, a, found, same, active, read, ground arith, ground arith, ground arith)

check_secret-IsVerified :
    (readers : Readers) (id digest : Ident) (o : Option (Option Credential)) (source : Source)
    → readers.get_ingest_credential id ≡ o
    → check_secret readers digest o ≡ authenticated source
    → IsVerified readers id digest source
unfolding check_secret
check_secret-IsVerified readers id digest none source found h = ground arith
check_secret-IsVerified readers id digest (some none) source found h = ground arith
check_secret-IsVerified readers id digest (some (some c)) source found h =
    elim (Bool-cases (digest == c.secret_sha256)) [
      | inr other ↦ absurd (ground arith)
      | inl same ↦ elim (Bool-cases (is_active c.status)) [
        | inr revoked ↦ absurd (ground arith)
        | inl live ↦
            source_of-IsVerified readers id digest c
              (readers.get_integration_account c.tenant_id c.integration_account_id) source found
              ((==_iff digest c.secret_sha256).0 same) (ground arith) refl (rw (same, live) at h)
      ]
    ]

module _ (readers : Readers) (limits : RouteLimits) (now later : Instant) (l : Limiters) where
  -- The three limiters have let the request through.
  abbrev pub IsAdmitted : Ident → Ident → Type 0
  IsAdmitted id account =
      ((try_acquire limits.preauth_global preauth_global_key now l.preauth_global).0 ≡ none)
      × ((try_acquire limits.preauth id now l.preauth).0 ≡ none)
      × ((try_acquire limits.account account later l.account).0 ≡ none)

  -- What stands behind an authenticated source, for the id and the secret of a token.
  abbrev pub IsBehind : Text × Text → Source → Type 0
  IsBehind parsed source =
      let id = readers.identifier parsed.0 in
      IsVerified readers id (readers.ingest_secret_sha256 parsed.1) source
      × IsAdmitted id source.integration_account_id

  account_granted :
      (answer : Answer) (m : Limiters) (source : Source)
      → m.account ≡ l.account
      → (limit_account readers limits later answer m).0 ≡ authenticated source
      → (answer ≡ authenticated source)
        × ((try_acquire limits.account source.integration_account_id later l.account).0 ≡ none)
  unfolding limit_account
  account_granted (authenticated s) m source same h =
      elim (Option-cases (try_acquire limits.account s.integration_account_id later m.account).0) [
        | inl granted ↦
            let e : s ≡ source = ground arith in (ap authenticated e, rw (← e, ← same) granted)
        | inr (missing, refused) ↦ absurd (ground arith)
      ]
  account_granted unauthorized m source same h = absurd (ground arith)
  account_granted (rate_limited seconds) m source same h = absurd (ground arith)
  account_granted unavailable m source same h = absurd (ground arith)

  global-IsBehind :
      (parsed : Text × Text) (source : Source)
      → (limit_global readers limits now later parsed l).0 ≡ authenticated source
      → IsBehind parsed source
  unfolding limit_global limit_credential authenticate_token
  global-IsBehind parsed source h =
      elim (Option-cases
        (try_acquire limits.preauth_global preauth_global_key now l.preauth_global).0) [
          | inr (missing, refused) ↦ absurd (ground arith)
          | inl first ↦
              elim (Option-cases
                (try_acquire limits.preauth (readers.identifier parsed.0) now l.preauth).0) [
                  | inr (missing, refused) ↦ absurd (ground arith)
                  | inl second ↦
                      let m : Limiters = record {
                        preauth_global =
                            (try_acquire limits.preauth_global preauth_global_key now
                              l.preauth_global).1;
                        preauth =
                            (try_acquire limits.preauth (readers.identifier parsed.0) now
                              l.preauth).1;
                        account = l.account;
                      } in
                      let last : (limit_account readers limits later
                            (authenticate_token readers parsed) m).0
                          ≡ authenticated source =
                        rw (first, second, limit_global, limit_credential) at h in
                      let (verified, third) =
                        account_granted (authenticate_token readers parsed) m source refl last in
                      (
                        check_secret-IsVerified readers (readers.identifier parsed.0)
                            (readers.ingest_secret_sha256 parsed.1)
                            (readers.get_ingest_credential (readers.identifier parsed.0)) source
                            refl verified,
                        (first, second, third),
                      )
                ]
        ]

  parsed-IsBehind :
      (o : Option (Text × Text)) (source : Source)
      → (authenticate_parsed readers limits now later o l).0 ≡ authenticated source
      → (parsed : Text × Text) × (o ≡ some parsed) × IsBehind parsed source
  unfolding authenticate_parsed
  parsed-IsBehind none source h = absurd (ground arith)
  parsed-IsBehind (some parsed) source h = (parsed, refl, global-IsBehind parsed source h)

  IsToken-parsed :
      (o : Option Text) (parsed : Text × Text)
      → parsed_token readers limits o ≡ some parsed
      → (t : Text) × (o ≡ some t) × IsToken t parsed.0 parsed.1
  IsToken-parsed none parsed h = absurd (ground arith)
  IsToken-parsed (some t) (id, secret) h = (t, refl, (parse_ingest_token_iff t id secret).0 h)

  -- Whoever is authenticated holds a live credential: the header is a bearer's whose token is that of an
  -- id and a secret; the stored credential of the id is active and has the secret's digest; its account
  -- is active and of the HTTPS provider; the source is theirs; and the three limiters, of all requests,
  -- of the credential and of the account, have each granted a token.
  pub authenticate-IsBehind :
      (authorization : Text) (source : Source)
      → (authenticate readers limits now later authorization l).0 ≡ authenticated source
      → (t : Text) × (parsed : Text × Text) × (bearer_token authorization ≡ some t)
        × IsToken t parsed.0 parsed.1
        × IsBehind parsed source
  unfolding authenticate
  authenticate-IsBehind authorization source h =
      let (parsed, found, proof) =
        parsed-IsBehind (parsed_token readers limits (bearer_token authorization)) source h in
      let (t, header, token) = IsToken-parsed (bearer_token authorization) parsed found in
      (t, parsed, header, token, proof)
