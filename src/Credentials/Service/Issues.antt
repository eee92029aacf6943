-- ===== src/Credentials/Service/Issues.antt =====
-- When an issue succeeds.
use limnopulse.Prelude.{
  ℕ, ◌≡◌, refl, ◌⊎◌, inl, inr, true, false, Option, none, some, List, [], ◌∷◌, sym, ap, ◌∙◌, ◌&&◌,
  ◌||◌, ◌==◌, Bool-cases, Option-cases, arith,
}
use limnopulse.Ingest.{Ident, Account}
use limnopulse.Prelude.Deliver.{Among}
use limnopulse.Credentials.{
  is_active, Credential, Key, Store, Reply, ok, issuance_check, slot_key, listing_key,
  create_allowed, create_writes, create_ingest_credential, validate_credential, CredentialStatus,
}
use limnopulse.Credentials.Slots.{Slotted}
use limnopulse.Credentials.Service.{
  Fresh, Digests, Issued, belongs, keep_own, list_ingest_credentials, is_taken, free_slot,
  new_credential, issue_valid, issue_token, issue_slot, issue_account, issue,
}
use limnopulse.Credentials.Token.{
  Text, is_token_id, is_token_secret, token_text, ingest_token, parse_ingest_token,
  ingest_token-some,
}

-- A listed active credential of the account takes its slot.
abbrev pub Taker : Store → Ident → Ident → ℕ → Ident → Type 0
Taker s tenant account slot id =
    (c : Credential) × (s.credentials id ≡ some c)
    × (belongs tenant account c ≡ true)
    × (is_active c.status ≡ true)
    × (c.slot ≡ slot)

-- the row of an account's slot
abbrev pub account_slot : Ident → Ident → ℕ → Key
account_slot tenant account slot = record { tenant = tenant; account = account; item = slot }

module _ (s : Store) (tenant account : Ident) where
  holder_belongs :
      (c : Credential) (slot : ℕ)
      → slot_key c ≡ account_slot tenant account slot
      → (belongs tenant account c ≡ true) × (c.slot ≡ slot)
  unfolding slot_key
  holder_belongs c slot e = ground arith

  taker_key :
      (c : Credential) (slot : ℕ)
      → belongs tenant account c ≡ true
      → c.slot ≡ slot
      → slot_key c ≡ account_slot tenant account slot
  unfolding slot_key
  taker_key c slot own here = ground arith

  -- one more row of the listing
  taken_row :
      (slot : ℕ) (id : Ident) (cs : List Credential) (o : Option Credential)
      → s.credentials id ≡ o
      → is_taken slot (keep_own tenant account o cs) ≡ true
      → Taker s tenant account slot id ⊎ (is_taken slot cs ≡ true)
  unfolding is_taken
  taken_row slot id cs none e h = inr h
  taken_row slot id cs (some c) e h = elim (Bool-cases (belongs tenant account c)) [
    | inr other ↦ inr (rw other at h)
    | inl own ↦ elim (Bool-cases (is_active c.status && c.slot == slot)) [
      | inl takes ↦ inl (c, e, own, ground arith, ground arith)
      | inr leaves ↦ inr (rw (own, leaves) at h)
    ]
  ]

  taken-Taker :
      (slot : ℕ) (ids : List Ident)
      → is_taken slot (list_ingest_credentials s tenant account ids) ≡ true
      → (id : Ident) × Taker s tenant account slot id
  unfolding is_taken list_ingest_credentials
  taken-Taker slot [] h = ground arith
  taken-Taker slot (id ∷ ids) h =
      elim (taken_row slot id (list_ingest_credentials s tenant account ids) (s.credentials id) refl
        h) [ inl taker ↦ (id, taker) | inr later ↦ taken-Taker slot ids later ]

  not_taken :
      (slot : ℕ) (ids : List Ident) (id : Ident)
      → is_taken slot (list_ingest_credentials s tenant account ids) ≡ false
      → Among id ids
      → Taker s tenant account slot id
      → ⊥
  unfolding is_taken list_ingest_credentials
  not_taken slot [] id h m taker = m
  not_taken slot (j ∷ ids) id h (inl same) (c, found, own, active, here) =
      let e : s.credentials j ≡ some c = ap s.credentials (sym same) ∙ found in
      let h' : is_taken slot
            (keep_own tenant account (some c) (list_ingest_credentials s tenant account ids))
          ≡ false =
        rw e at h in
      ground arith
  not_taken slot (j ∷ ids) id h (inr m) taker =
      not_taken slot ids id (skips (s.credentials j) h) m taker
    where
      skips :
          (o : Option Credential)
          → is_taken slot (keep_own tenant account o (list_ingest_credentials s tenant account ids))
            ≡ false
          → is_taken slot (list_ingest_credentials s tenant account ids) ≡ false
      skips none h = h
      skips (some c) h = ground arith

  new_credential-active :
      (digests : Digests) (slot : ℕ) (fresh : Fresh)
      → (is_active (new_credential digests tenant account slot fresh).status ≡ true)
        × ((new_credential digests tenant account slot fresh).revoked_at ≡ none)
  unfolding new_credential
  new_credential-active digests slot fresh = (refl, refl)

  -- the credential that is made of a slot of the service passes its validators
  new_credential-valid :
      (digests : Digests) (slot : ℕ) (fresh : Fresh)
      → (slot == 1 || slot == 2) ≡ true
      → validate_credential digests.ingest_credential_fingerprint
          (new_credential digests tenant account slot fresh)
        ≡ true
  unfolding validate_credential new_credential
  new_credential-valid digests slot fresh known = ground arith

  create_writes_stored :
      (c : Credential) (audit : Ident)
      → (create_writes c audit s).credentials c.ingest_credential_id ≡ some c
  unfolding create_writes
  create_writes_stored c audit = ground arith

  created :
      (c : Credential) (audit : Ident)
      → (is_active c.status ≡ true) × (c.revoked_at ≡ none)
      → create_allowed c audit s ≡ true
      → create_ingest_credential c audit s ≡ (ok c, create_writes c audit s)
  unfolding create_ingest_credential
  created c audit new allowed = ground arith

  module _ (digests : Digests) (fresh : Fresh) where
    -- what is returned for a slot and a token
    abbrev pub issued_in : ℕ → Text → Issued
    issued_in slot token = record {
      credential = new_credential digests tenant account slot fresh;
      token = token;
    }

    new_credential-allowed :
        (slot : ℕ) (row : Account)
        → s.accounts tenant account ≡ some row
        → issuance_check (some row) ≡ true
        → s.slots (account_slot tenant account slot) ≡ none
        → s.credentials (digests.identifier fresh.id) ≡ none
        → s.listings (account_slot tenant account (digests.identifier fresh.id)) ≡ none
        → s.audits fresh.audit ≡ false
        → create_allowed (new_credential digests tenant account slot fresh) fresh.audit s ≡ true
    unfolding create_allowed new_credential slot_key listing_key
    new_credential-allowed slot row there may free unused unlisted new = ground arith

    issue_token-created :
        (slot : ℕ) (token : Text)
        → (slot == 1 || slot == 2) ≡ true
        → create_allowed (new_credential digests tenant account slot fresh) fresh.audit s ≡ true
        → issue_token digests tenant account slot fresh (some token) s ≡ (
          ok (issued_in slot token),
          create_writes (new_credential digests tenant account slot fresh) fresh.audit s,
        )
    unfolding issue_token issue_valid
    issue_token-created slot token known allowed =
        rw
          (
            new_credential-valid digests slot fresh known,
            created (new_credential digests tenant account slot fresh) fresh.audit
                (new_credential-active digests slot fresh) allowed,
          )
          refl

    -- What the issue is to give: an active credential of the account with the new id and the digest of
    -- the secret, in a slot that was free, stored under its id; and a token that parses to the id and the
    -- secret.
    abbrev pub IsIssued : Issued → Store → Type 0
    IsIssued issued s' =
        (issued.credential.tenant_id ≡ tenant)
        × (issued.credential.integration_account_id ≡ account)
        × (issued.credential.status ≡ CredentialStatus.active)
        × (issued.credential.secret_sha256 ≡ digests.ingest_secret_sha256 fresh.secret)
        × (s.slots (account_slot tenant account issued.credential.slot) ≡ none)
        × (s'.slots (account_slot tenant account issued.credential.slot)
            ≡ some (digests.identifier fresh.id))
        × (s'.credentials (digests.identifier fresh.id) ≡ some issued.credential)
        × (parse_ingest_token issued.token ≡ some (fresh.id, fresh.secret))

    created-IsIssued :
        (slot : ℕ) (token : Text)
        → s.slots (account_slot tenant account slot) ≡ none
        → parse_ingest_token token ≡ some (fresh.id, fresh.secret)
        → IsIssued
            (issued_in slot token)
            (create_writes (new_credential digests tenant account slot fresh) fresh.audit s)
    unfolding new_credential create_writes slot_key
    created-IsIssued slot token open_slot parsed =
        (refl, refl, refl, refl, open_slot, ground arith, ground arith, parsed)

  -- Every live credential of the account is listed.
  abbrev pub IsComplete : List Ident → Type 0
  IsComplete ids =
      (id : Ident) (c : Credential)
      → s.credentials id ≡ some c
      → belongs tenant account c ≡ true
      → is_active c.status ≡ true
      → Among id ids

  module _ (sound : Slotted s) (ids : List Ident) where
    -- a slot that no listed credential takes is free
    slot_free :
        (slot : ℕ)
        → IsComplete ids
        → is_taken slot (list_ingest_credentials s tenant account ids) ≡ false
        → s.slots (account_slot tenant account slot) ≡ none
    slot_free slot complete h = elim (Option-cases (s.slots (account_slot tenant account slot))) [
      | inl free ↦ free
      | inr (id, holder) ↦ absurd (elim (Option-cases (s.credentials id)) [
        | inl missing ↦
            (let held = sound.held (account_slot tenant account slot) id holder in
              rw missing at held)
        | inr (c, found) ↦
            (let held = sound.held (account_slot tenant account slot) id holder in
              let row = rw found at held in
              let own = holder_belongs c slot row.1 in
              let active : is_active c.status ≡ true = rw row.0 refl in
              not_taken slot ids id h (complete id c found own.0 active)
                (c, found, own.0, active, own.1))
      ])
    ]

    -- a slot that is free is taken by no listed credential
    free_slot_taken :
        (slot : ℕ)
        → s.slots (account_slot tenant account slot) ≡ none
        → is_taken slot (list_ingest_credentials s tenant account ids) ≡ false
    free_slot_taken slot free =
        elim (Bool-cases (is_taken slot (list_ingest_credentials s tenant account ids))) [
          | inr not ↦ not
          | inl taken ↦ absurd (
              let (id, (c, found, own, active, here)) = taken-Taker slot ids taken in
              let stored = sound.holds id in
              let row = rw found at stored in
              let holder = row.2 (ground arith) in let key = taker_key c slot own here in cc)
        ]

    -- the service picks a free slot, where there is one
    free_slot-free :
        IsComplete ids
        → (s.slots (account_slot tenant account 1) ≡ none)
          ⊎ (s.slots (account_slot tenant account 2) ≡ none)
        → (slot : ℕ) × (free_slot (list_ingest_credentials s tenant account ids) ≡ some slot)
          × (s.slots (account_slot tenant account slot) ≡ none)
          × ((slot == 1 || slot == 2) ≡ true)
    unfolding free_slot
    free_slot-free complete free =
        elim (Bool-cases (is_taken 1 (list_ingest_credentials s tenant account ids))) [
          | inr one ↦ (1, rw one refl, slot_free 1 complete one, refl)
          | inl one ↦
              elim (Bool-cases (is_taken 2 (list_ingest_credentials s tenant account ids))) [
                | inr two ↦ (2, rw (one, two) refl, slot_free 2 complete two, refl)
                | inl two ↦ absurd (elim free [
                  | inl h ↦ (let e = free_slot_taken 1 h in cc)
                  | inr h ↦ (let e = free_slot_taken 2 h in cc)
                ])
              ]
        ]

    module _ (digests : Digests) (fresh : Fresh) where
      issue_account-slot :
          (row : Account) (slot : ℕ)
          → s.accounts tenant account ≡ some row
          → issuance_check (some row) ≡ true
          → free_slot (list_ingest_credentials s tenant account ids) ≡ some slot
          → issue digests tenant account fresh ids s s s
            ≡ issue_token digests tenant account slot fresh (ingest_token fresh.id fresh.secret) s
      unfolding issue issue_account issue_slot issuance_check
      issue_account-slot row slot there may picked = ground arith

      -- An issue succeeds where nothing interferes: with a complete listing, an account that may issue, an
      -- id and a secret of their forms, an id and an audit key that are new and a slot of the account that
      -- is free, the service returns an active credential of the account with the digest of the secret,
      -- in a slot that was free and is now its own, which is stored under its id, and a token that parses
      -- to the id and the secret.
      pub issue-succeeds :
          (row : Account)
          → IsComplete ids
          → s.accounts tenant account ≡ some row
          → issuance_check (some row) ≡ true
          → is_token_id fresh.id ≡ true
          → is_token_secret fresh.secret ≡ true
          → s.credentials (digests.identifier fresh.id) ≡ none
          → s.listings (account_slot tenant account (digests.identifier fresh.id)) ≡ none
          → s.audits fresh.audit ≡ false
          → (s.slots (account_slot tenant account 1) ≡ none)
            ⊎ (s.slots (account_slot tenant account 2) ≡ none)
          → (issued : Issued) × ((issue digests tenant account fresh ids s s s).0 ≡ ok issued)
            × IsIssued digests fresh issued (issue digests tenant account fresh ids s s s).1
      issue-succeeds row complete there may good fine unused unlisted new free =
          let (slot, picked, open_slot, known) = free_slot-free complete free in
          let (made, parsed) = ingest_token-some fresh.id fresh.secret good fine in
          let allowed =
            new_credential-allowed digests fresh slot row there may open_slot unused unlisted new in
          let token = token_text fresh.id fresh.secret in
          let result =
            issue_account-slot row slot there may picked
            ∙ ap (λ o. issue_token digests tenant account slot fresh o s) made
            ∙ issue_token-created digests fresh slot token known allowed in
          (
            issued_in digests fresh slot token,
            ap (λ (r : Reply Issued × Store). r.0) result,
            rw result (created-IsIssued digests fresh slot token open_slot parsed),
          )
