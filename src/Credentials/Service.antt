-- ===== src/Credentials/Service.antt =====
-- `IngestCredentialService` of services/ingest_credentials.py over the credential rows. The stores that
-- its reads saw are arguments; a listing query is the list of the ids that it returned, in its order.
pub mod Issues
use limnopulse.Prelude.{
  ℕ, ◌+◌, ◌≤◌, ◌≡◌, ◌≢◌, refl, ◌⊎◌, inl, inr, Bool, true, false, not, ◌&&◌, ◌||◌, Option, none,
  some, List, [], ◌∷◌, if◌then◌else◌, ◌==◌, Bool-cases, Option-cases, is_some, ==_iff, arith,
}
use limnopulse.Ingest.{Ident, Instant, Account}
use limnopulse.Ingest.Trust.{https_direct}
use limnopulse.Prelude.Deliver.{Among}
use limnopulse.Credentials.{
  CredentialStatus, is_active, Credential, Key, Store, Reply, ok, conflict, not_found, invalid,
  unissuable, is_issuable, issuance_check, slot_key, listing_key, validate_credential,
  create_allowed, create_writes, create_ingest_credential, get_ingest_credential,
  revoke_ingest_credential, revoke_current, commit_revoke, revoke_writes, revoke_condition,
  is_active_row, set_revoked, map_row,
}
use limnopulse.Credentials.Token.{Text, ingest_token}

abbrev pub belongs : Ident → Ident → Credential → Bool
belongs tenant account c = c.tenant_id == tenant && c.integration_account_id == account

abbrev pub keep_own : Ident → Ident → Option Credential → List Credential → List Credential
keep_own tenant account none cs = cs
keep_own tenant account (some c) cs = if belongs tenant account c then c ∷ cs else cs

-- `list_ingest_credentials`: the authoritative row of each listing
unfoldable pub list_ingest_credentials : Store → Ident → Ident → List Ident → List Credential
list_ingest_credentials s tenant account [] = []
list_ingest_credentials s tenant account (id ∷ ids) =
    keep_own tenant account (s.credentials id) (list_ingest_credentials s tenant account ids)

-- `slot in taken`
unfoldable pub is_taken : ℕ → List Credential → Bool
is_taken slot [] = false
is_taken slot (c ∷ cs) = (is_active c.status && c.slot == slot) || is_taken slot cs

-- `free[0]`, where `free` is not empty
unfoldable pub free_slot : List Credential → Option ℕ
unfolding is_taken
free_slot cs = if not (is_taken 1 cs) then some 1 else if not (is_taken 2 cs) then some 2 else none

-- What the factories and the clock gave, and the key of the audit item.
pub record Fresh : Type 0 where
  pub id : Text
  pub secret : Text
  pub now : Instant
  pub audit : Ident

-- An id as the rows have it, the digest of a secret, and the fingerprint of a digest.
pub record Digests : Type 0 where
  pub identifier : Text → Ident
  pub ingest_secret_sha256 : Text → Ident
  pub ingest_credential_fingerprint : Ident → Ident

-- `IssuedIngestCredential`
pub record Issued : Type 0 where
  pub credential : Credential
  pub token : Text

abbrev pub with_token : Text → Reply Credential × Store → Reply Issued × Store
with_token token (ok c, s) = (ok (record { credential = c; token = token }), s)
with_token token (conflict, s) = (conflict, s)
with_token token (not_found, s) = (not_found, s)
with_token token (invalid, s) = (invalid, s)
with_token token (unissuable, s) = (unissuable, s)

module _ (digests : Digests) (tenant account : Ident) where
  unfoldable pub new_credential : ℕ → Fresh → Credential
  new_credential slot fresh = record {
    tenant_id = tenant;
    ingest_credential_id = digests.identifier fresh.id;
    integration_account_id = account;
    slot = slot;
    secret_sha256 = digests.ingest_secret_sha256 fresh.secret;
    fingerprint = digests.ingest_credential_fingerprint (digests.ingest_secret_sha256 fresh.secret);
    status = CredentialStatus.active;
    revoked_at = none;
    created_at = fresh.now;
    updated_at = fresh.now;
    version = 1;
  }

  -- `issue`, from the credential on, which is validated when it is made
  unfoldable pub issue_valid : Credential → Ident → Text → Store → Reply Issued × Store
  unfolding validate_credential create_ingest_credential
  issue_valid c audit token s =
      if validate_credential digests.ingest_credential_fingerprint c
      then with_token token (create_ingest_credential c audit s)
      else (invalid, s)

  -- `issue`, from the token on, which `ingest_token` may refuse
  unfoldable pub issue_token : ℕ → Fresh → Option Text → Store → Reply Issued × Store
  unfolding new_credential issue_valid
  issue_token slot fresh none s = (invalid, s)
  issue_token slot fresh (some token) s =
      issue_valid (new_credential slot fresh) fresh.audit token s

  -- `issue`, from the free slot on
  unfoldable pub issue_slot : Fresh → Option ℕ → Store → Reply Issued × Store
  unfolding issue_token ingest_token
  issue_slot fresh none s = (conflict, s)
  issue_slot fresh (some slot) s = issue_token slot fresh (ingest_token fresh.id fresh.secret) s

  -- `issue`, on the account row that was read
  unfoldable pub issue_account :
      Fresh → List Ident → Option Account → (seen_list s : Store) → Reply Issued × Store
  unfolding issue_slot free_slot list_ingest_credentials
  issue_account fresh ids none seen_list s = (not_found, s)
  issue_account fresh ids (some row) seen_list s =
      if not (row.provider_key == https_direct) || not (is_issuable row.status)
      then (unissuable, s)
      else issue_slot fresh (free_slot (list_ingest_credentials seen_list tenant account ids)) s

  -- `issue`
  unfoldable pub issue :
      Fresh → List Ident → (seen_account seen_list s : Store) → Reply Issued × Store
  unfolding issue_account
  issue fresh ids seen_account seen_list s =
      issue_account fresh ids (seen_account.accounts tenant account) seen_list s

-- the re-read of `revoke` shows a revoked credential of the same tenant and account
unfoldable pub is_revoked_row : Ident → Ident → Option Credential → Bool
is_revoked_row tenant account none = false
is_revoked_row tenant account (some c) = belongs tenant account c && not (is_active c.status)

abbrev pub explain : Bool → Reply Credential → Reply Credential
explain revoked not_found = if revoked then conflict else not_found
explain revoked r = r

-- `revoke`: a 404 of the repository is a 409 where the re-read of `after` shows a revoked credential
unfoldable pub revoke :
    (Ident → Ident)
    → Ident
    → Ident
    → Ident
    → ℕ
    → Instant
    → Ident
    → (seen s : Store) → Reply Credential × Store
unfolding revoke_ingest_credential is_revoked_row get_ingest_credential
revoke fingerprint tenant account id version at audit seen s =
    let (r, s') = revoke_ingest_credential fingerprint tenant account id version at audit seen s in
    (explain (is_revoked_row tenant account (get_ingest_credential s' id)) r, s')
