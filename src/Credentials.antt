-- ===== src/Credentials.antt =====
-- Ingest credentials: `IngestCredential` of domain/ingestion.py, and the rows and transactions of
-- adapters/dynamodb_ingest_credentials.py. What an operation read before its transaction is an argument
-- of the transaction: the store may have changed in between.
pub mod Slots
pub mod Token
pub mod Runs
pub mod Service
use limnopulse.Prelude.{
  set, ℕ, ◌+◌, Bool, true, false, not, ◌&&◌, ◌||◌, Option, none, some, List, [], ◌∷◌, if◌then◌else◌,
  ltb, leb, ◌==◌, is_some,
}
use limnopulse.Ingest.{Ident, Instant, Account}
use limnopulse.Ingest.Trust.{https_direct}
use limnopulse.Status.{AccountStatus}

-- `IngestCredentialStatus`
pub data CredentialStatus : Type 0 where
  active revoked : CredentialStatus

abbrev pub is_active : CredentialStatus → Bool
is_active CredentialStatus.active = true
is_active CredentialStatus.revoked = false

-- `IngestCredential`; the fingerprint is a function of the digest
pub record Credential : Type 0 where
  pub tenant_id : Ident
  pub ingest_credential_id : Ident
  pub integration_account_id : Ident
  pub slot : ℕ
  pub secret_sha256 : Ident
  pub fingerprint : Ident
  pub status : CredentialStatus
  pub revoked_at : Option Instant
  pub created_at : Instant
  pub updated_at : Instant
  pub version : ℕ

-- `validate_credential` and the validator of `V2VersionedEntity`, with the fields' bounds; the test of
-- the fingerprint is on texts, and an argument
unfoldable pub validate_credential : (Ident → Ident) → Credential → Bool
validate_credential fingerprint c =
    (c.slot == 1 || c.slot == 2)
    && c.fingerprint == fingerprint c.secret_sha256
    && elim (c.revoked_at) [ none ↦ is_active c.status | some _ ↦ not (is_active c.status) ]
    && leb c.created_at c.updated_at
    && leb 1 c.version

-- The listing row: metadata only. An update of a missing row creates one without the other attributes.
pub record Listing : Type 0 where
  pub slot : Option ℕ
  pub fingerprint : Option Ident
  pub created_at : Option Instant
  pub status : CredentialStatus
  pub revoked_at : Option Instant
  pub updated_at : Instant
  pub version : ℕ

-- Keys of the rows that belong to an account: the tenant, the account, and a slot or a credential.
pub record Key : Type 0 where
  pub tenant : Ident
  pub account : Ident
  pub item : ℕ

abbrev pub same_key : Key → Key → Bool
same_key k j = k.tenant == j.tenant && k.account == j.account && k.item == j.item

pub record Store : Type 0 where
  pub credentials : Ident → Option Credential
  pub listings : Key → Option Listing
  pub slots : Key → Option Ident
  pub accounts : Ident → Ident → Option Account
  pub audits : Ident → Bool

abbrev pub set_key {ℓ} : {V : Type ℓ} → Key → V → (Key → V) → Key → V
set_key k v f j = if same_key j k then v else f j

-- What an operation ends with: a value, `ConflictError`, `NotFoundError`, `ValueError` or
-- `IntegrationInputError`.
pub data Reply {ℓ} (A : Type ℓ) : Type ℓ where
  ok : A → Reply A
  conflict : Reply A
  not_found : Reply A
  invalid : Reply A
  unissuable : Reply A

-- `get_ingest_credential`
unfoldable pub get_ingest_credential : Store → Ident → Option Credential
get_ingest_credential s id = s.credentials id

unfoldable pub slot_key : Credential → Key
slot_key c = record { tenant = c.tenant_id; account = c.integration_account_id; item = c.slot }

unfoldable pub listing_key : Credential → Key
listing_key c = record {
  tenant = c.tenant_id;
  account = c.integration_account_id;
  item = c.ingest_credential_id;
}

-- `_listing_item`
unfoldable pub listing_item : Credential → Listing
listing_item c = record {
  slot = some c.slot;
  fingerprint = some c.fingerprint;
  created_at = some c.created_at;
  status = c.status;
  revoked_at = none;
  updated_at = c.updated_at;
  version = c.version;
}

abbrev pub is_issuable : AccountStatus → Bool
is_issuable AccountStatus.pending = true
is_issuable AccountStatus.active = true
is_issuable _ = false

-- `_ISSUANCE_CHECK`
unfoldable pub issuance_check : Option Account → Bool
issuance_check none = false
issuance_check (some a) = is_issuable a.status && a.provider_key == https_direct

-- the conditions of the issue transaction
unfoldable pub create_allowed : Credential → Ident → Store → Bool
unfolding issuance_check slot_key listing_key
create_allowed c audit s =
    issuance_check (s.accounts c.tenant_id c.integration_account_id)
    && not (is_some (s.slots (slot_key c)))
    && not (is_some (s.listings (listing_key c)))
    && not (is_some (s.credentials c.ingest_credential_id))
    && not (s.audits audit)

unfoldable pub create_writes : Credential → Ident → Store → Store
unfolding slot_key listing_key listing_item
create_writes c audit s = record s {
  credentials = set c.ingest_credential_id (some c) s.credentials;
  listings = set_key (listing_key c) (some (listing_item c)) s.listings;
  slots = set_key (slot_key c) (some c.ingest_credential_id) s.slots;
  audits = set audit true s.audits;
}

-- `create_ingest_credential`: one transaction; a refusal is a 404 only where the account is missing
unfoldable pub create_ingest_credential : Credential → Ident → Store → Reply Credential × Store
unfolding create_allowed create_writes
create_ingest_credential c audit s =
    if not (is_active c.status) || is_some c.revoked_at
    then (invalid, s)
    else if create_allowed c audit s
    then (ok c, create_writes c audit s)
    else if is_some (s.accounts c.tenant_id c.integration_account_id)
    then (conflict, s)
    else (not_found, s)

-- `_is_active_row`
unfoldable pub is_active_row : Ident → Ident → Option Credential → Bool
is_active_row tenant account none = false
is_active_row tenant account (some row) =
    row.tenant_id == tenant && row.integration_account_id == account && is_active row.status

-- `_REVOKE_CONDITION`
unfoldable pub revoke_condition : Ident → Ident → ℕ → Option Credential → Bool
unfolding is_active_row
revoke_condition tenant account version none = false
revoke_condition tenant account version (some row) =
    is_active_row tenant account (some row) && row.version == version

-- `set_revoked`, on the authoritative row and on the listing row
unfoldable pub set_revoked : Instant → ℕ → Credential → Credential
set_revoked at next row = record row {
  status = CredentialStatus.revoked;
  revoked_at = some at;
  updated_at = at;
  version = next;
}

unfoldable pub set_listing_revoked : Instant → ℕ → Option Listing → Listing
set_listing_revoked at next none = record {
  slot = none;
  fingerprint = none;
  created_at = none;
  status = CredentialStatus.revoked;
  revoked_at = some at;
  updated_at = at;
  version = next;
}
set_listing_revoked at next (some row) = record row {
  status = CredentialStatus.revoked;
  revoked_at = some at;
  updated_at = at;
  version = next;
}

-- the condition of the slot `Delete`
unfoldable pub slot_holds : Ident → Option Ident → Bool
slot_holds id none = false
slot_holds id (some holder) = holder == id

abbrev pub map_row : (Credential → Credential) → Option Credential → Option Credential
map_row f none = none
map_row f (some row) = some (f row)

-- what the revoke transaction writes, on the credential that was read
unfoldable pub revoke_writes : Credential → Ident → Instant → ℕ → Store → Store
unfolding slot_key listing_key set_revoked set_listing_revoked
revoke_writes current audit at next s =
    let id = current.ingest_credential_id in
    record s {
      credentials = set id (map_row (set_revoked at next) (s.credentials id)) s.credentials;
      listings =
          set_key (listing_key current)
            (some (set_listing_revoked at next (s.listings (listing_key current)))) s.listings;
      slots = set_key (slot_key current) none s.slots;
      audits = set audit true s.audits;
    }

-- the revoke transaction, on the credential that was read
unfoldable pub commit_revoke : Credential → ℕ → Instant → Ident → Store → Reply Credential × Store
unfolding revoke_condition slot_holds slot_key revoke_writes
commit_revoke current version at audit s =
    let row = s.credentials current.ingest_credential_id in
    let allowed = revoke_condition current.tenant_id current.integration_account_id version row in
    if allowed
      && slot_holds current.ingest_credential_id (s.slots (slot_key current))
      && not (s.audits audit)
    then (ok (set_revoked at (version + 1) current), revoke_writes current audit at (version + 1) s)
    else if not allowed && not (is_active_row current.tenant_id current.integration_account_id row)
    then (not_found, s)
    else (conflict, s)

-- `revoke_ingest_credential`, on the credential that was read
unfoldable pub revoke_current :
    (Ident → Ident)
    → Ident
    → Ident
    → ℕ
    → Instant
    → Ident
    → Option Credential
    → Store
    → Reply Credential × Store
unfolding commit_revoke set_revoked validate_credential
revoke_current fingerprint tenant account version at audit none s = (not_found, s)
revoke_current fingerprint tenant account version at audit (some current) s =
    if not (current.tenant_id == tenant && current.integration_account_id == account)
    then (not_found, s)
    else if not (validate_credential fingerprint (set_revoked at (version + 1) current))
    then (invalid, s)
    else commit_revoke current version at audit s

-- `revoke_ingest_credential`, where the credential is read from `seen`
unfoldable pub revoke_ingest_credential :
    (Ident → Ident)
    → Ident
    → Ident
    → Ident
    → ℕ
    → Instant
    → Ident
    → (seen s : Store) → Reply Credential × Store
unfolding get_ingest_credential revoke_current
revoke_ingest_credential fingerprint tenant account id version at audit seen s =
    revoke_current fingerprint tenant account version at audit (get_ingest_credential seen id) s
