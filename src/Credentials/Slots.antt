-- ===== src/Credentials/Slots.antt =====
-- The slots of an account: one for each active credential, and no other.
use limnopulse.Prelude.{
  ℕ, ◌≡◌, ◌≢◌, refl, ◌↔◌, ◌⊎◌, inl, inr, true, Option, none, some, sym, ◌∙◌, ◌==◌, Bool-cases,
  ==_iff, arith,
}
use limnopulse.Ingest.{Ident, Instant}
use limnopulse.Credentials.{
  CredentialStatus, Credential, Key, same_key, Store, slot_key, create_allowed, create_writes,
  revoke_condition, set_revoked, slot_holds, revoke_writes,
}

-- The slot row of an account names an active credential of it, in that slot.
abbrev pub HeldBy : Option Credential → Key → Type 0
HeldBy none k = ⊥
HeldBy (some c) k = (c.status ≡ CredentialStatus.active) × (slot_key c ≡ k)

-- A stored credential stands under its own id, in slot 1 or 2, and an active one holds its slot.
abbrev pub Holds : Store → Ident → Option Credential → Type 0
Holds s id none = Unit
Holds s id (some c) =
    (c.ingest_credential_id ≡ id)
    × ((c.slot ≡ 1) ⊎ (c.slot ≡ 2))
    × (c.status ≡ CredentialStatus.active → s.slots (slot_key c) ≡ some id)

pub record Slotted (s : Store) : Type 0 where
  pub held : (k : Key) (id : Ident) → s.slots k ≡ some id → HeldBy (s.credentials id) k
  pub holds : (id : Ident) → Holds s id (s.credentials id)

same_key_iff : (k j : Key) → (same_key k j ≡ true) ↔ (k ≡ j)
same_key_iff k j = (λ h. ground arith, λ h. ground arith)

create_allowed-free :
    (c : Credential) (audit : Ident) (s : Store)
    → create_allowed c audit s ≡ true
    → (s.slots (slot_key c) ≡ none) × (s.credentials c.ingest_credential_id ≡ none)
unfolding create_allowed
create_allowed-free c audit s h = ground arith

module _ (c : Credential) (audit : Ident) (s : Store) (sound : Slotted s)
    (active : c.status ≡ CredentialStatus.active) (slot : (c.slot ≡ 1) ⊎ (c.slot ≡ 2))
    (allowed : create_allowed c audit s ≡ true) where
  create_writes-held :
      (k : Key) (id : Ident)
      → (create_writes c audit s).slots k ≡ some id
      → HeldBy ((create_writes c audit s).credentials id) k
  unfolding create_writes
  create_writes-held k id h =
      let (free, absent) = create_allowed-free c audit s allowed in
      elim (Bool-cases (same_key k (slot_key c))) [
        | inl own ↦
            let e : k ≡ slot_key c = (same_key_iff k (slot_key c)).0 own in
            let i : c.ingest_credential_id ≡ id = ground arith in
            rw ((==_iff id c.ingest_credential_id).1 (sym i)) (active, sym e)
        | inr other ↦
            let old : s.slots k ≡ some id = rw other at h in
            elim (Bool-cases (id == c.ingest_credential_id)) [
              | inl same ↦ absurd (
                  let held = sound.held k id old in
                  rw ((==_iff id c.ingest_credential_id).0 same, absent) at held)
              | inr distinct ↦ rw distinct (sound.held k id old)
            ]
      ]

  -- a slot that was taken is not the one that is taken now
  create_writes_keeps :
      (k : Key) (id : Ident) → s.slots k ≡ some id → (create_writes c audit s).slots k ≡ some id
  unfolding create_writes
  create_writes_keeps k id h =
      let (free, absent) = create_allowed-free c audit s allowed in
      elim (Bool-cases (same_key k (slot_key c))) [
        | inl own ↦ absurd (let e = (same_key_iff k (slot_key c)).0 own in ground arith)
        | inr other ↦ rw other h
      ]

  Holds-create :
      (id : Ident) (o : Option Credential) → Holds s id o → Holds (create_writes c audit s) id o
  Holds-create id none h = tt
  Holds-create id (some d) h = (h.0, h.1, λ a. create_writes_keeps (slot_key d) id (h.2 a))

  create_writes-Holds :
      (id : Ident) → Holds (create_writes c audit s) id ((create_writes c audit s).credentials id)
  unfolding create_writes
  create_writes-Holds id =
      let (free, absent) = create_allowed-free c audit s allowed in
      elim (Bool-cases (id == c.ingest_credential_id)) [
        | inl same ↦
            let e = (==_iff id c.ingest_credential_id).0 same in
            rw same (sym e, slot, λ h. rw ((same_key_iff (slot_key c) (slot_key c)).1 refl, e) refl)
        | inr distinct ↦ rw distinct (Holds-create id (s.credentials id) (sound.holds id))
      ]

  pub create_writes-Slotted : Slotted (create_writes c audit s)
  create_writes-Slotted = record { held = create_writes-held; holds = create_writes-Holds }

-- what the conditions of a revocation say, where they hold
pub record Revocable (current : Credential) (version : ℕ) (s : Store) : Type 0 where
  pub row : Credential
  pub stored : s.credentials current.ingest_credential_id ≡ some row
  pub holder : s.slots (slot_key current) ≡ some current.ingest_credential_id

pub revocable :
    (current : Credential) (version : ℕ) (s : Store) (o : Option Credential) (p : Option Ident)
    → s.credentials current.ingest_credential_id ≡ o
    → s.slots (slot_key current) ≡ p
    → revoke_condition current.tenant_id current.integration_account_id version o ≡ true
    → slot_holds current.ingest_credential_id p ≡ true
    → Revocable current version s
unfolding revoke_condition slot_holds
revocable current version s none p e f cond held = ground arith
revocable current version s (some row) none e f cond held = ground arith
revocable current version s (some row) (some id) e f cond held = record {
  row = row;
  stored = e;
  holder = ground arith;
}

module _ (current : Credential) (version next : ℕ) (at : Instant) (audit : Ident) (s : Store)
    (sound : Slotted s) (r : Revocable current version s) where
  -- the slot that is freed is the one that the revoked credential holds
  freed : slot_key r.row ≡ slot_key current
  freed =
      let held = sound.held (slot_key current) current.ingest_credential_id r.holder in
      (rw r.stored at held).1

  revoke_writes-held :
      (k : Key) (id : Ident)
      → (revoke_writes current audit at next s).slots k ≡ some id
      → HeldBy ((revoke_writes current audit at next s).credentials id) k
  unfolding revoke_writes
  revoke_writes-held k id h = elim (Bool-cases (same_key k (slot_key current))) [
    | inl own ↦ absurd (ground arith)
    | inr other ↦
        let old : s.slots k ≡ some id = rw other at h in
        elim (Bool-cases (id == current.ingest_credential_id)) [
          | inl same ↦ absurd (
              let e = (==_iff id current.ingest_credential_id).0 same in
              let held = sound.held k id old in
              let key = (rw (e, r.stored) at held).1 in
              let own = (same_key_iff k (slot_key current)).1 (sym key ∙ freed) in cc)
          | inr distinct ↦ rw distinct (sound.held k id old)
        ]
  ]

  -- only the slot of the revoked credential is freed
  revoke_writes_keeps :
      (k : Key) (id : Ident)
      → s.slots k ≡ some id
      → id ≢ current.ingest_credential_id
      → (revoke_writes current audit at next s).slots k ≡ some id
  unfolding revoke_writes
  revoke_writes_keeps k id h distinct = elim (Bool-cases (same_key k (slot_key current))) [
    | inl own ↦ absurd (
        distinct (
          let e = (same_key_iff k (slot_key current)).0 own in
          let here : s.slots (slot_key current) ≡ some id = rw (← e) h in
          let there = r.holder in ground arith))
    | inr other ↦ rw other h
  ]

  Holds-revoke :
      (id : Ident) (o : Option Credential)
      → id ≢ current.ingest_credential_id
      → Holds s id o
      → Holds (revoke_writes current audit at next s) id o
  Holds-revoke id none distinct h = tt
  Holds-revoke id (some d) distinct h =
      (h.0, h.1, λ a. revoke_writes_keeps (slot_key d) id (h.2 a) distinct)

  revoke_writes-Holds :
      (id : Ident)
      → Holds
          (revoke_writes current audit at next s)
          id
          ((revoke_writes current audit at next s).credentials id)
  unfolding revoke_writes set_revoked
  revoke_writes-Holds id = elim (Bool-cases (id == current.ingest_credential_id)) [
    | inl same ↦
        let e = (==_iff id current.ingest_credential_id).0 same in
        let old = sound.holds current.ingest_credential_id in
        let row = rw r.stored at old in
        rw (same, r.stored) (row.0 ∙ sym e, row.1, λ h. ground arith)
    | inr distinct ↦
        rw distinct (Holds-revoke id (s.credentials id) (λ e. ground arith) (sound.holds id))
  ]

  pub revoke_writes-Slotted : Slotted (revoke_writes current audit at next s)
  revoke_writes-Slotted = record { held = revoke_writes-held; holds = revoke_writes-Holds }
