-- ===== src/Tests/Statuses.antt =====
-- The status machines and the receipts, on concrete inputs.
use limnopulse.Prelude.{◌≡◌, refl, ◌↔◌, ◌+◌, ◌*◌, ◌<◌, ◌≤◌, true, some, if◌then◌else◌, leb, ◌==◌}
use limnopulse.Status.{
  conflict, DeviceStatus, ComponentStatus, AccountStatus, IntegrationStatus,
  ensure_device_transition, ensure_component_transition, ensure_account_transition,
  ensure_integration_transition,
}
use limnopulse.Status.Reach.{
  Reach, DeviceHistory, AccountHistory, IntegrationHistory, ComponentHistory, DeviceHistory-iff,
  AccountHistory-iff, IntegrationHistory-iff, ComponentHistory-iff,
}
use limnopulse.Ingest.{Versions}
use limnopulse.Ingest.Receipt.{
  Delta, receipt_ttl_us, ReceiptAction, validate_receipt, new_ingress_receipt, Receipt,
  decide_receipt_replay,
}
use limnopulse.Ingest.Receipt.Decide.{new_ingress_receipt-IsValid, decide-new_ingress_receipt}

device_back : ensure_device_transition DeviceStatus.active DeviceStatus.provisioning ≡ conflict
unfolding ensure_device_transition
device_back = refl

DeviceHistory-iff_example :
    Reach ensure_device_transition DeviceStatus.provisioning DeviceStatus.suspended
    ↔ DeviceHistory DeviceStatus.provisioning DeviceStatus.suspended
DeviceHistory-iff_example = DeviceHistory-iff DeviceStatus.provisioning DeviceStatus.suspended

AccountHistory-iff_example :
    Reach ensure_account_transition AccountStatus.revoked AccountStatus.active
    ↔ AccountHistory AccountStatus.revoked AccountStatus.active
AccountHistory-iff_example = AccountHistory-iff AccountStatus.revoked AccountStatus.active

IntegrationHistory-iff_example :
    Reach ensure_integration_transition IntegrationStatus.error IntegrationStatus.active
    ↔ IntegrationHistory IntegrationStatus.error IntegrationStatus.active
IntegrationHistory-iff_example =
    IntegrationHistory-iff IntegrationStatus.error IntegrationStatus.active

ComponentHistory-iff_example :
    Reach ensure_component_transition ComponentStatus.replaced ComponentStatus.active
    ↔ ComponentHistory ComponentStatus.replaced ComponentStatus.active
ComponentHistory-iff_example = ComponentHistory-iff ComponentStatus.replaced ComponentStatus.active

abbrev noon : Delta
noon = record { days = 20000; seconds = 43200; microseconds = 5 }

abbrev later : Delta
later = record { days = 20000; seconds = 43201; microseconds = 0 }

abbrev versions : Versions
versions = record { catalog_version = 1; unit_mapping_version = 1; quality_policy_version = 1 }

abbrev receipt : Receipt
receipt = new_ingress_receipt 1 2 3 4 5 1000000 versions 1000000

new_ingress_receipt-IsValid_example :
    (validate_receipt receipt ≡ true)
    × (1000000 + receipt_ttl_us ≤ receipt.expires_at * 1000000)
    × (receipt.expires_at * 1000000 < 1000000 + receipt_ttl_us + 1000000)
new_ingress_receipt-IsValid_example = new_ingress_receipt-IsValid 1 2 3 4 5 1000000 versions 1000000

decide-new_ingress_receipt_example : decide_receipt_replay (some receipt) 9 2000000 ≡ (
    if leb (1000000 + receipt_ttl_us) 2000000
    then ReceiptAction.admit
    else if 4 == 9
    then ReceiptAction.resume
    else ReceiptAction.conflict)
decide-new_ingress_receipt_example =
    decide-new_ingress_receipt 1 2 3 4 5 1000000 versions 1000000 9 2000000
