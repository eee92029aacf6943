-- ===== src/Credentials/Runs.antt =====
-- Any interleaving of issues and revocations, by any number of operators.
use limnopulse.Prelude.{
  ℕ, ◌+◌, ◌≡◌, refl, ◌⊎◌, inl, inr, true, false, not, ◌&&◌, ◌||◌, Option, none, some, sym, ap, ◌∙◌,
  Bool-cases, is_some, ◌==◌, arith,
}
use limnopulse.Ingest.{Ident, Instant, Account}
use limnopulse.Credentials.{
  CredentialStatus, is_active, Credential, Store, slot_key, validate_credential, create_allowed,
  create_ingest_credential, revoke_condition, set_revoked, slot_holds, commit_revoke,
  revoke_current, revoke_ingest_credential, get_ingest_credential,
}
use limnopulse.Credentials.Slots.{
  Slotted, Holds, create_writes-Slotted, revocable, revoke_writes-Slotted,
}

-- A step: an issue, a revocation whose read saw any earlier store, or a change of the account rows.
infix 40 ◌⟶◌
pub data ◌⟶◌ : Store → Store → Type 0 where
  issue :
      {s s' : Store} (fingerprint : Ident → Ident) (c : Credential) (audit : Ident)
      → validate_credential fingerprint c ≡ true
      → s' ≡ (create_ingest_credential c audit s).1
      → s ⟶ s'
  revoke :
      {s s' : Store} (fingerprint : Ident → Ident) (tenant account id : Ident) (version : ℕ)
      (at : Instant) (audit : Ident) (seen : Store)
      → s' ≡ (revoke_ingest_credential fingerprint tenant account id version at audit seen s).1
      → s ⟶ s'
  change :
      {s s' : Store} (accounts : Ident → Ident → Option Account)
      → s' ≡ record s { accounts = accounts }
      → s ⟶ s'

unfoldable pub empty : Store
empty = record {
  credentials = λ id. none;
  listings = λ k. none;
  slots = λ k. none;
  accounts = λ t a. none;
  audits = λ a. false;
}

pub data Reachable : Store → Type 0 where
  begin : {s : Store} → s ≡ empty → Reachable s
  next : {s s' : Store} → Reachable s → s ⟶ s' → Reachable s'

empty-Slotted : Slotted empty
unfolding empty
empty-Slotted = record { held = λ k id h. ground arith; holds = λ id. tt }

slot_of :
    (fingerprint : Ident → Ident) (c : Credential)
    → validate_credential fingerprint c ≡ true
    → (c.slot ≡ 1) ⊎ (c.slot ≡ 2)
unfolding validate_credential
slot_of fingerprint c h = ground arith

Holds-row :
    (s : Store) (accounts : Ident → Ident → Option Account) (id : Ident) (o : Option Credential)
    → Holds s id o
    → Holds (record s { accounts = accounts }) id o
Holds-row s accounts id none h = tt
Holds-row s accounts id (some d) h = h

Holds-change :
    (s : Store) (accounts : Ident → Ident → Option Account)
    → Slotted s
    → (id : Ident) → Holds (record s { accounts = accounts }) id (s.credentials id)
Holds-change s accounts sound id = Holds-row s accounts id (s.credentials id) (sound.holds id)

some_injective {ℓ} : {A : Type ℓ} (a b : A) → some a ≡ some b → a ≡ b
some_injective a b e = cc

create-Slotted :
    (c : Credential) (audit : Ident) (s : Store)
    → (c.slot ≡ 1) ⊎ (c.slot ≡ 2)
    → Slotted s
    → Slotted (create_ingest_credential c audit s).1
unfolding create_ingest_credential
create-Slotted c audit s slot sound =
    elim (Bool-cases (not (is_active c.status) || is_some c.revoked_at)) [
      | inl bad ↦ rw (bad, create_ingest_credential) sound
      | inr fine ↦ elim (Bool-cases (create_allowed c audit s)) [
        | inl allowed ↦
            rw (fine, allowed, create_ingest_credential)
              (create_writes-Slotted c audit s sound (ground arith) slot allowed)
        | inr refused ↦
            elim (Bool-cases (is_some (s.accounts c.tenant_id c.integration_account_id))) [
              | inl there ↦ rw (fine, refused, there, create_ingest_credential) sound
              | inr missing ↦ rw (fine, refused, missing, create_ingest_credential) sound
            ]
      ]
    ]

commit_revoke-Slotted :
    (current : Credential) (version : ℕ) (at : Instant) (audit : Ident) (s : Store)
    → Slotted s
    → Slotted (commit_revoke current version at audit s).1
unfolding commit_revoke
commit_revoke-Slotted current version at audit s sound =
    let row = s.credentials current.ingest_credential_id in
    let allowed = revoke_condition current.tenant_id current.integration_account_id version row in
    let held = slot_holds current.ingest_credential_id (s.slots (slot_key current)) in
    elim (Bool-cases (allowed && held && not (s.audits audit))) [
      | inl done ↦
          rw (done, commit_revoke)
            (revoke_writes-Slotted current version (version + 1) at audit s sound (
              revocable current version s row (s.slots (slot_key current)) refl refl (ground arith)
                (ground arith)))
      | inr refused ↦
          let same : (commit_revoke current version at audit s).1 ≡ s = ground arith in
          rw same sound
    ]

revoke_current-Slotted :
    (fingerprint : Ident → Ident) (tenant account : Ident) (version : ℕ) (at : Instant)
    (audit : Ident) (o : Option Credential) (s : Store)
    → Slotted s
    → Slotted (revoke_current fingerprint tenant account version at audit o s).1
unfolding revoke_current
revoke_current-Slotted fingerprint tenant account version at audit none s sound = sound
revoke_current-Slotted fingerprint tenant account version at audit (some current) s sound =
    elim (Bool-cases (current.tenant_id == tenant && current.integration_account_id == account)) [
      | inr other ↦ rw other sound
      | inl own ↦
          elim (Bool-cases
            (validate_credential fingerprint (set_revoked at (version + 1) current))) [
              | inr bad ↦ rw (own, bad) sound
              | inl fine ↦ rw (own, fine) (commit_revoke-Slotted current version at audit s sound)
            ]
    ]

⟶-Slotted : {s s' : Store} → s ⟶ s' → Slotted s → Slotted s'
unfolding revoke_ingest_credential
⟶-Slotted (issue fingerprint c audit valid e) sound =
    rw e (create-Slotted c audit _ (slot_of fingerprint c valid) sound)
⟶-Slotted (revoke fingerprint tenant account id version at audit seen e) sound = rw e (
    revoke_current-Slotted fingerprint tenant account version at audit
      (get_ingest_credential seen id) _ sound)
⟶-Slotted (change accounts e) sound =
    rw e (record { held = sound.held; holds = Holds-change _ accounts sound })

-- In every store that issues and revocations reach, in any interleaving and whatever earlier stores
-- their reads saw, each slot row names an active credential of its account in that slot, and each
-- active credential holds its slot, which is 1 or 2.
pub Reachable-Slotted : {s : Store} → Reachable s → Slotted s
Reachable-Slotted (begin e) = rw e empty-Slotted
Reachable-Slotted (next r step) = ⟶-Slotted step (Reachable-Slotted r)

-- The credential is stored and active.
abbrev pub IsLive : Store → Credential → Type 0
IsLive s c = (s.credentials c.ingest_credential_id ≡ some c) × (c.status ≡ CredentialStatus.active)

module _ (s : Store) (sound : Slotted s) where
  holds_slot :
      (c : Credential)
      → IsLive s c
      → ((c.slot ≡ 1) ⊎ (c.slot ≡ 2)) × (s.slots (slot_key c) ≡ some c.ingest_credential_id)
  holds_slot c h =
      let stored = sound.holds c.ingest_credential_id in
      let row = rw h.0 at stored in (row.1, row.2 h.1)

  same_slot : (a b : Credential) → IsLive s a → IsLive s b → slot_key a ≡ slot_key b → a ≡ b
  same_slot a b ha hb e =
      let (sa, pa) = holds_slot a ha in
      let (sb, pb) = holds_slot b hb in
      let ids : a.ingest_credential_id ≡ b.ingest_credential_id =
        some_injective _ _ (sym pa ∙ ap s.slots e ∙ pb) in
      some_injective a b (sym ha.0 ∙ ap s.credentials ids ∙ hb.0)

-- An account never has more than two active credentials: in any store that issues and revocations
-- reach, of three live credentials of one tenant and account two are the same.
pub at_most_two :
    {s : Store} (a b c : Credential)
    → Reachable s
    → IsLive s a
    → IsLive s b
    → IsLive s c
    → (b.tenant_id ≡ a.tenant_id) × (b.integration_account_id ≡ a.integration_account_id)
    → (c.tenant_id ≡ a.tenant_id) × (c.integration_account_id ≡ a.integration_account_id)
    → (a ≡ b) ⊎ (b ≡ c) ⊎ (a ≡ c)
unfolding slot_key
at_most_two {s} a b c r ha hb hc hab hac =
    let sound = Reachable-Slotted r in
    ground (
      arith,
      (holds_slot s sound a ha).0,
      (holds_slot s sound b hb).0,
      (holds_slot s sound c hc).0,
      same_slot s sound a b ha hb,
      same_slot s sound b c hb hc,
      same_slot s sound a c ha hc,
    )
