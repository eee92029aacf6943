-- ===== src/Tests/Authenticated.antt =====
-- Authentication, on a concrete header.
use limnopulse.Prelude.{ℕ, zero, suc, ◌+◌, ◌-◌, ◌/◌, ◌≡◌, refl, none, some, [], ◌∷◌, ◌++◌}
use limnopulse.Ingest.{Account, Source}
use limnopulse.Ingest.Trust.{https_direct}
use limnopulse.Ingest.RateLimit.{Limits, find, evict}
use limnopulse.Status.{AccountStatus}
use limnopulse.Credentials.{CredentialStatus, Credential}
use limnopulse.Credentials.Token.{Text, id_prefix, token_text, IsToken}
use limnopulse.Authentication.{
  Readers, authenticated, unauthorized, RouteLimits, Limiters, bearer_token, authenticate,
}
use limnopulse.Authentication.Sources.{IsBehind, authenticate-IsBehind}

abbrev credential : Credential
credential = record {
  tenant_id = 1;
  ingest_credential_id = 10;
  integration_account_id = 2;
  slot = 1;
  secret_sha256 = 90;
  fingerprint = 90;
  status = CredentialStatus.active;
  revoked_at = none;
  created_at = 5;
  updated_at = 5;
  version = 1;
}

abbrev account : Account
account = record {
  tenant_id = 1;
  integration_account_id = 2;
  provider_key = https_direct;
  status = AccountStatus.active;
}

abbrev readers : Readers
readers = record {
  identifier = λ t. 10;
  ingest_secret_sha256 = λ t. 90;
  ceil_quotient = λ a b. (a + b - 1) / b;
  get_ingest_credential = λ id. some (some credential);
  get_integration_account = λ t a. some (some account);
}

abbrev one_at_once : Limits
one_at_once = record { capacity = 1; refill = 60; max_keys = 5 }

abbrev limits : RouteLimits
limits = record { preauth_global = one_at_once; preauth = one_at_once; account = one_at_once }

abbrev fresh : Limiters
fresh = record { preauth_global = []; preauth = []; account = [] }

abbrev fill : ℕ → ℕ → Text
fill zero c = []
fill (suc n) c = c ∷ fill n c

-- "Bearer ", and a token
abbrev header : Text
header = 66 ∷ 101 ∷ 97 ∷ 114 ∷ 101 ∷ 114 ∷ 32 ∷ token_text (id_prefix ++ fill 32 97) (fill 43 95)

abbrev source : Source
source = record {
  tenant_id = 1;
  integration_account_id = 2;
  provider_key = https_direct;
  ingest_credential_id = 10;
}

passes : (authenticate readers limits 7 8 header fresh).0 ≡ authenticated source
unfolding authenticate find evict token_text
passes = refl

no_scheme : (authenticate readers limits 7 8 (66 ∷ 32 ∷ header) fresh).0 ≡ unauthorized
unfolding authenticate token_text
no_scheme = refl

authenticate-IsBehind_example :
    (t : Text) × (parsed : Text × Text) × (bearer_token header ≡ some t)
    × IsToken t parsed.0 parsed.1
    × IsBehind readers limits 7 8 fresh parsed source
authenticate-IsBehind_example = authenticate-IsBehind readers limits 7 8 fresh header source passes
