-- ===== src/Notifications/Enqueued.antt =====
-- Which alerts are put in the queue of e-mails, and for whom.
use home_assistant.Base.{String, Bool, true, false, none, some, ◌≡◌, ◌⊎◌, ok, is_empty, trim_space}
use home_assistant.Base.Json
use home_assistant.Base.Split.{append}
use home_assistant.Base.Sources.{clock_or}
use home_assistant.Alerting.Model.{Alert, Family, device_disconnected, app_update_attention}
use home_assistant.Recipients.Model.{AlertRecipient, verified}
use home_assistant.Notifications.Model.{NotificationAttempt, pending, suppressed}
use home_assistant.Notifications.Service.{Repository, Service}

-- The family of subscriptions for a family of alerts.
pub data IsNotified : Family → String → Type 0 where
  disconnected : IsNotified device_disconnected "device_disconnected"
  backup_failed : IsNotified Family.backup_failed "backup_failed_or_overdue"
  backup_overdue : IsNotified Family.backup_overdue "backup_failed_or_overdue"
  attention : IsNotified app_update_attention "app_update_attention"

-- The scope of an alert: its device if it names one, else its site, else its account.
pub data IsScope (alert : Alert) : String → Type 0 where
  of_device :
      is_empty (trim_space alert.device_id) ≡ false
      → IsScope alert (append "device:" (trim_space alert.device_id))
  of_site :
      is_empty (trim_space alert.device_id) ≡ true
      → is_empty (trim_space alert.site_id) ≡ false
      → IsScope alert (append "site:" (trim_space alert.site_id))
  of_account :
      is_empty (trim_space alert.device_id) ≡ true
      → is_empty (trim_space alert.site_id) ≡ true
      → IsScope alert (append "account:" (trim_space alert.account_id))

-- An attempt for a recipient who may be written to, pending or suppressed as the repository answers.
pub record IsEnqueued {W : Type 0} (s : Service W) (alert : Alert) (recipient : AlertRecipient)
    (a : NotificationAttempt) : Type 0 where
  pub verified_recipient : recipient.status ≡ verified
  pub by_email : recipient.channel ≡ "email"
  pub is_notified : IsNotified alert.family a.family
  pub repository : Repository W
  pub is_repository : s.repository ≡ some repository
  pub reading_world : W
  pub is_time : (clock_or s.clock s.wall_clock reading_world).0 ≡ ok a.created_at
  pub scope : String
  pub is_scope : IsScope alert scope
  pub answer : Bool
  pub asked : W
  pub is_answer :
      (repository.is_suppressed recipient.alert_recipient_id scope a.family a.created_at asked).0
      ≡ ok answer
  pub status :
      ((answer ≡ true) × (a.status ≡ suppressed)) ⊎ ((answer ≡ false) × (a.status ≡ pending))
  pub alert_id : a.alert_id ≡ alert.alert_id
  pub alert_recipient_id : a.alert_recipient_id ≡ recipient.alert_recipient_id
  pub account_id : a.account_id ≡ alert.account_id
  pub site_id : a.site_id ≡ alert.site_id
  pub device_id : a.device_id ≡ alert.device_id
  pub channel : a.channel ≡ "email"
  pub template_key : a.template_key ≡ "alert_email_v0"
  pub recipient_email : a.recipient_email ≡ recipient.email
  pub recipient_email_normalized : a.recipient_email_normalized ≡ recipient.email_normalized
  pub idempotency_key :
      a.idempotency_key
      ≡ append "alert:" (append alert.alert_id (append ":recipient:" recipient.alert_recipient_id))
  pub attempt_count : a.attempt_count ≡ 0
  pub last_error : a.last_error ≡ none
  pub sent_at : a.sent_at ≡ none
  pub updated_at : a.updated_at ≡ a.created_at
  pub identified : is_empty a.notification_attempt_id ≡ false
  pub owned : is_empty a.account_id ≡ false
  pub addressed : is_empty a.recipient_email ≡ false
  pub normalized : is_empty a.recipient_email_normalized ≡ false
  pub metadata : Json.valid a.template_data ≡ true
  pub created : W
  pub is_created : (repository.create_attempt a created).0 ≡ ok tt
