-- ===== src/Tests/Issued.antt =====
-- Credentials, on concrete inputs.
use limnopulse.Prelude.{ℕ, ◌≡◌, ◌⊎◌, inr, refl, true, false, Option, none, some, [], ◌∷◌, arith}
use limnopulse.Ingest.{Ident, Account}
use limnopulse.Ingest.Trust.{https_direct}
use limnopulse.Status.{AccountStatus}
use limnopulse.Prelude.Deliver.{Among}
use limnopulse.Credentials.{
  CredentialStatus, is_active, Credential, Store, ok, invalid, validate_credential,
  create_ingest_credential, issuance_check,
}
use limnopulse.Prelude.{zero, suc, ◌++◌, ◌↔◌}
use limnopulse.Credentials.Token.{
  Text, id_prefix, is_token_id, is_token_secret, parse_ingest_token, token_text, IsToken,
  parse_ingest_token_iff,
}
use limnopulse.Credentials.Slots.{Slotted}
use limnopulse.Credentials.Runs.{
  issue, change, empty, Reachable, begin, next, Reachable-Slotted, IsLive, at_most_two,
}
use limnopulse.Credentials.Service
use limnopulse.Credentials.Service.{Fresh, Digests, Issued}
use limnopulse.Credentials.Service.Issues.{account_slot, IsIssued, issue-succeeds}

abbrev account : Account
account = record {
  tenant_id = 1;
  integration_account_id = 2;
  provider_key = https_direct;
  status = AccountStatus.active;
}

abbrev accounts : Ident → Ident → Option Account
accounts t a = some account

abbrev issuing : Store
issuing = record empty { accounts = accounts }

abbrev first : Credential
first = record {
  tenant_id = 1;
  ingest_credential_id = 10;
  integration_account_id = 2;
  slot = 1;
  secret_sha256 = 90;
  fingerprint = 90;
  status = CredentialStatus.active;
  revoked_at = none;
  created_at = 5;
  updated_at = 5;
  version = 1;
}

abbrev second : Credential
second = record first { ingest_credential_id = 11; slot = 2; secret_sha256 = 91; fingerprint = 91 }

abbrev one_issued : Store
one_issued = (create_ingest_credential first 50 issuing).1

abbrev two_issued : Store
two_issued = (create_ingest_credential second 51 one_issued).1

first_valid : validate_credential (λ d. d) first ≡ true
unfolding validate_credential
first_valid = refl

second_valid : validate_credential (λ d. d) second ≡ true
unfolding validate_credential
second_valid = refl

one_issued-Reachable : Reachable one_issued
one_issued-Reachable =
    next (next (begin refl) (change accounts refl)) (issue (λ d. d) first 50 first_valid refl)

two_issued-Reachable : Reachable two_issued
two_issued-Reachable = next one_issued-Reachable (issue (λ d. d) second 51 second_valid refl)

first-IsLive : IsLive two_issued first
unfolding create_ingest_credential empty
first-IsLive = (refl, refl)

second-IsLive : IsLive two_issued second
unfolding create_ingest_credential empty
second-IsLive = (refl, refl)

at_most_two_example : (first ≡ second) ⊎ (second ≡ first) ⊎ (first ≡ first)
at_most_two_example =
    at_most_two first second first two_issued-Reachable first-IsLive second-IsLive first-IsLive
      (refl, refl) (refl, refl)

Reachable-Slotted_example : Slotted two_issued
Reachable-Slotted_example = Reachable-Slotted two_issued-Reachable

abbrev fill : ℕ → ℕ → Text
fill zero c = []
fill (suc n) c = c ∷ fill n c

abbrev token_id : Text
token_id = id_prefix ++ fill 32 97

-- a secret of underscores
abbrev secret : Text
secret = fill 43 95

abbrev fresh : Fresh
fresh = record { id = token_id; secret = secret; now = 6; audit = 51 }

-- a table of one id and one secret
abbrev digests : Digests
digests = record {
  identifier = λ t. 11;
  ingest_secret_sha256 = λ t. 91;
  ingest_credential_fingerprint = λ d. d;
}

one_complete :
    (id : Ident) (c : Credential)
    → one_issued.credentials id ≡ some c
    → Service.belongs 1 2 c ≡ true
    → is_active c.status ≡ true
    → Among id (10 ∷ [])
unfolding create_ingest_credential empty
one_complete id c h own active = ground arith

second_free : one_issued.slots (account_slot 1 2 2) ≡ none
unfolding create_ingest_credential empty
second_free = refl

may_issue : issuance_check (some account) ≡ true
unfolding issuance_check
may_issue = refl

one_account : one_issued.accounts 1 2 ≡ some account
unfolding create_ingest_credential empty
one_account = refl

unused : one_issued.credentials 11 ≡ none
unfolding create_ingest_credential empty
unused = refl

unlisted : one_issued.listings (account_slot 1 2 11) ≡ none
unfolding create_ingest_credential empty
unlisted = refl

new_audit : one_issued.audits 51 ≡ false
unfolding create_ingest_credential empty
new_audit = refl

id_form : is_token_id token_id ≡ true
unfolding is_token_id
id_form = refl

secret_form : is_token_secret secret ≡ true
unfolding is_token_secret
secret_form = refl

issue-succeeds_example :
    (issued : Issued) × ((Service.issue digests 1 2 fresh
        (10 ∷ [])
        one_issued
        one_issued
        one_issued).0
      ≡ ok issued)
    × IsIssued one_issued 1 2 digests fresh issued
        (Service.issue digests 1 2 fresh (10 ∷ []) one_issued one_issued one_issued).1
issue-succeeds_example =
    issue-succeeds one_issued 1 2 (Reachable-Slotted one_issued-Reachable) (10 ∷ []) digests fresh
      account one_complete one_account may_issue id_form secret_form unused unlisted new_audit
      (inr second_free)

-- a secret that is too short is refused, and nothing is written
short_unissued :
    (Service.issue digests 1 2
      (record fresh { secret = fill 42 95 })
      (10 ∷ [])
      one_issued
      one_issued
      one_issued).0
    ≡ invalid
unfolding Service.issue create_ingest_credential empty
short_unissued = refl

printed_parsed : parse_ingest_token (token_text token_id secret) ≡ some (token_id, secret)
unfolding parse_ingest_token token_text
printed_parsed = refl

short_refused : parse_ingest_token (token_text token_id (fill 42 95)) ≡ none
unfolding parse_ingest_token token_text
short_refused = refl

parse_ingest_token_iff_example :
    (parse_ingest_token (token_text token_id secret) ≡ some (token_id, secret))
    ↔ IsToken (token_text token_id secret) token_id secret
parse_ingest_token_iff_example = parse_ingest_token_iff (token_text token_id secret) token_id secret
