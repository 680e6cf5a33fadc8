-- ===== src/Recipients/Examples.antt =====
-- Runs of the operations on recipients over the repository in memory, and their theorems at them.
use mathlib.Core.List.{Memᴰ}
use home_assistant.Base.{ℕ, true, none, some, List, [], ◌∷◌, ◌≡◌, ◌↔◌, refl, ◌>>=◌, trim_space, ok}
use home_assistant.Alerting.Model.{Alert, device_disconnected, critical, active}
use home_assistant.Recipients.Model.{
  AlertRecipient, CreateRecipientRequest, UpdateRecipientRequest, DeleteRecipientRequest, verified,
  disabled, deleted, is_valid_subscription_family, SubscriptionFamily,
}
use home_assistant.Recipients.Subscriptions.{
  seen, subscriptions_from, normalize_subscriptions, subscription_enabled, is_eligible,
  eligible_from,
}
use home_assistant.Recipients.Service
use home_assistant.Recipients.Service.{create_recipient, update_recipient, delete_recipient}
use home_assistant.Recipients.Selection.{Receives, eligible_from_iff}
use home_assistant.Recipients.Laws.{IsCreation, IsUpdate, Leaves}
use home_assistant.Recipients.Contracts.{create_recipient_contract, update_recipient_contract}
use home_assistant.Recipients.Memory.{Memory, view, memory_repository, service, service_laws}

-- What a run computes through.
machinery : ℕ
unfolding create_recipient update_recipient delete_recipient Service.authorize Service.now
    Service.new_recipient_id Service.normalize_email Service.is_own_email Service.validate_recipient
    Service.new_recipient memory_repository ◌>>=◌ trim_space normalize_subscriptions
    subscriptions_from seen is_valid_subscription_family subscription_enabled is_eligible
    eligible_from
machinery = 0

abbrev alert : Alert
alert = record {
  alert_id = "alert-1";
  alert_key = "device_disconnected:d1";
  account_id = "a1";
  site_id = "s1";
  device_id = "d1";
  family = device_disconnected;
  severity = critical;
  status = active;
  title = "Offline";
  detail = "The device is offline.";
  reason_code = "lwt";
  first_candidate_id = "k1";
  last_candidate_id = "k1";
  occurrence_count = 1;
  acknowledged_by_user_id = "";
  acknowledged_at = none;
  snoozed_until = none;
  resolved_at = none;
  created_at = 1_000;
  updated_at = 1_000;
}

abbrev families : List SubscriptionFamily
families = " device_disconnected" ∷ "weather" ∷ "device_disconnected" ∷ []

abbrev creation : CreateRecipientRequest
creation = record {
  account_id = "a1";
  site_id = "";
  email = " me@example.org ";
  display_label = "Me";
  actor_user_id = "u1";
  actor_email = "me@example.org";
  actor_email_verified = true;
  subscribed_families = families;
}

abbrev recipient : AlertRecipient
recipient = record {
  alert_recipient_id = "recipient-1";
  account_id = "a1";
  site_id = "";
  email = "me@example.org";
  email_normalized = "me@example.org";
  display_label = "Me";
  channel = "email";
  status = verified;
  created_by_user_id = "u1";
  verified_at = some 1_000;
  disabled_at = none;
  deleted_at = none;
  subscriptions = record { family = "device_disconnected"; enabled = true } ∷ [];
  created_at = 1_000;
  updated_at = 1_000;
}

abbrev empty : Memory
empty = record { slot = none; time = 1_000 }

abbrev filled : Memory
filled = record { slot = some recipient; time = 2_000 }

abbrev disabling : UpdateRecipientRequest
disabling = record {
  alert_recipient_id = "recipient-1";
  account_id = "a1";
  site_id = "";
  display_label = "";
  status = disabled;
  actor_user_id = "u1";
  subscribed_families = [];
}

abbrev deletion : DeleteRecipientRequest
deletion = record {
  alert_recipient_id = "recipient-1";
  account_id = "a1";
  site_id = "";
  actor_user_id = "u1";
}

created_run :
    create_recipient service creation empty ≡ (ok recipient, record empty { slot = some recipient })
unfolding machinery
created_run = refl

disabled_run :
    (update_recipient service disabling filled).0
    ≡ ok (record recipient { status = disabled; updated_at = 2_000 })
unfolding machinery
disabled_run = refl

deleted_run :
    (delete_recipient service deletion filled).0
    ≡ ok (record recipient { status = deleted; deleted_at = some 2_000; updated_at = 2_000 })
unfolding machinery
deleted_run = refl

eligible_run :
    eligible_from alert "device_disconnected" (recipient ∷ record recipient { site_id = "s2" } ∷ [])
    ≡ recipient ∷ []
unfolding machinery
eligible_run = refl

create_recipient_contract_example :
    Leaves view (view empty) (IsCreation service creation) (create_recipient service creation empty)
create_recipient_contract_example =
    create_recipient_contract view service service_laws creation empty

update_recipient_contract_example :
    Leaves view
      (view filled)
      (IsUpdate service (view filled) disabling)
      (update_recipient service disabling filled)
update_recipient_contract_example =
    update_recipient_contract view service service_laws disabling filled

eligible_from_iff_example :
    Memᴰ recipient (eligible_from alert "device_disconnected" (recipient ∷ []))
    ↔ (Memᴰ recipient (recipient ∷ []) × Receives alert "device_disconnected" recipient)
eligible_from_iff_example = eligible_from_iff alert "device_disconnected" recipient (recipient ∷ [])
