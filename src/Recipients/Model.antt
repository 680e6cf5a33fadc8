-- ===== src/Recipients/Model.antt =====
-- The data of backend/internal/domain/alerting/recipients.go. A subscription family is a text, since the
-- service trims what a request names and compares it.
use home_assistant.Base.{String, Bool, true, false, Option, none, some, List, [], ◌∷◌, ◌==◌, ◌||◌}
use home_assistant.Base.Time.{Time}
use home_assistant.Alerting.Model.{
  Family, device_disconnected, backup_failed, backup_overdue, app_update_attention,
}

pub data RecipientStatus : Type 0 where
  pending_verification verified disabled deleted : RecipientStatus
  unknown : String → RecipientStatus

abbrev pub status_text : RecipientStatus → String
status_text pending_verification = "pending_verification"
status_text verified = "verified"
status_text disabled = "disabled"
status_text deleted = "deleted"
status_text (RecipientStatus.unknown s) = s

abbrev pub is_named_status : RecipientStatus → Bool
is_named_status (RecipientStatus.unknown s) = false
is_named_status _ = true

-- the statuses that an update may ask for
abbrev pub is_settable : RecipientStatus → Bool
is_settable pending_verification = true
is_settable verified = true
is_settable disabled = true
is_settable _ = false

abbrev pub is_verified : RecipientStatus → Bool
is_verified verified = true
is_verified _ = false

abbrev pub SubscriptionFamily : Type 0
SubscriptionFamily = String

abbrev pub subscription_device_disconnected : SubscriptionFamily
subscription_device_disconnected = "device_disconnected"

abbrev pub subscription_backup_failed_or_overdue : SubscriptionFamily
subscription_backup_failed_or_overdue = "backup_failed_or_overdue"

abbrev pub subscription_app_update_attention : SubscriptionFamily
subscription_app_update_attention = "app_update_attention"

abbrev pub all_subscription_families : List SubscriptionFamily
all_subscription_families =
    subscription_device_disconnected ∷ subscription_backup_failed_or_overdue
    ∷ subscription_app_update_attention ∷ []

unfoldable pub is_valid_subscription_family : SubscriptionFamily → Bool
is_valid_subscription_family family =
    family == subscription_device_disconnected
    || family == subscription_backup_failed_or_overdue
    || family == subscription_app_update_attention

unfoldable pub subscription_family_for_alert : Family → Option SubscriptionFamily
subscription_family_for_alert device_disconnected = some subscription_device_disconnected
subscription_family_for_alert backup_failed = some subscription_backup_failed_or_overdue
subscription_family_for_alert backup_overdue = some subscription_backup_failed_or_overdue
subscription_family_for_alert app_update_attention = some subscription_app_update_attention
subscription_family_for_alert (Family.unknown s) = none

pub record AlertSubscription : Type 0 where
  pub family : SubscriptionFamily
  pub enabled : Bool

pub record AlertRecipient : Type 0 where
  pub alert_recipient_id : String
  pub account_id : String
  pub site_id : String
  pub email : String
  pub email_normalized : String
  pub display_label : String
  pub channel : String
  pub status : RecipientStatus
  pub created_by_user_id : String
  pub verified_at : Option Time
  pub disabled_at : Option Time
  pub deleted_at : Option Time
  pub subscriptions : List AlertSubscription
  pub created_at : Time
  pub updated_at : Time

pub record CreateRecipientRequest : Type 0 where
  pub account_id : String
  pub site_id : String
  pub email : String
  pub display_label : String
  pub actor_user_id : String
  pub actor_email : String
  pub actor_email_verified : Bool
  pub subscribed_families : List SubscriptionFamily

pub record UpdateRecipientRequest : Type 0 where
  pub alert_recipient_id : String
  pub account_id : String
  pub site_id : String
  pub display_label : String
  pub status : RecipientStatus
  pub actor_user_id : String
  pub subscribed_families : List SubscriptionFamily

pub record DeleteRecipientRequest : Type 0 where
  pub alert_recipient_id : String
  pub account_id : String
  pub site_id : String
  pub actor_user_id : String
