-- ===== src/Notifications/Examples.antt =====
-- An alert that is put in the queue, and its attempt that is sent, over a world that keeps nothing.
use home_assistant.Base.{false, none, some, [], ◌∷◌, ◌≡◌, refl, ok, trim_space, ◌>>=◌}
use home_assistant.Base.Int.{pos}
use home_assistant.Base.Json
use home_assistant.Base.Sources.{clock_or}
use home_assistant.Base.Split.{append}
use home_assistant.Alerting.Model
use home_assistant.Alerting.Model.{Alert, device_disconnected, critical}
use home_assistant.Recipients.Model.{AlertRecipient, verified, subscription_device_disconnected}
use home_assistant.Notifications.Model.{
  NotificationAttempt, EmailMessage, ProviderResult, default_render, escape_string,
}
use home_assistant.Notifications.Service.{
  Repository, Service, new_attempt, tried, sent_attempt, render, process_attempt, process_attempts,
  process_pending,
}
use home_assistant.Notifications.Processed.{IsBatch, process_pending-IsBatch}

abbrev alert : Alert
alert = record {
  alert_id = "alert-1";
  alert_key = "key-1";
  account_id = "account-1";
  site_id = "site-1";
  device_id = "device-1";
  family = device_disconnected;
  severity = critical;
  status = Model.Status.active;
  title = "Offline";
  detail = "A <device> is offline.";
  reason_code = "disconnected";
  first_candidate_id = "c1";
  last_candidate_id = "c1";
  occurrence_count = 1;
  acknowledged_by_user_id = "";
  acknowledged_at = none;
  snoozed_until = none;
  resolved_at = none;
  created_at = 5;
  updated_at = 5;
}

abbrev recipient : AlertRecipient
recipient = record {
  alert_recipient_id = "recipient-1";
  account_id = "account-1";
  site_id = "site-1";
  email = "Ann@example.org";
  email_normalized = "ann@example.org";
  display_label = "";
  channel = "email";
  status = verified;
  created_by_user_id = "user-1";
  verified_at = some 3;
  disabled_at = none;
  deleted_at = none;
  subscriptions = [];
  created_at = 2;
  updated_at = 3;
}

abbrev queued : NotificationAttempt
queued = new_attempt "attempt-1" subscription_device_disconnected false 7 alert recipient

abbrev repository : Repository (Unit {0})
repository = record {
  create_attempt = λ a w. (ok tt, w);
  claim_pending_attempts = λ t limit w. (ok (queued ∷ []), w);
  save_attempt = λ a w. (ok tt, w);
  is_suppressed = λ id scope family t w. (ok false, w);
}

abbrev result : ProviderResult
result = record { provider = "resend"; provider_message_id = " m1 " }

abbrev service : Service (Unit {0})
service = record {
  repository = some repository;
  provider = some (λ message w. (ok result, w));
  renderer = none;
  from_address = "alerts@example.org";
  id_generator = some (λ w. ("attempt-1", w));
  clock = some (λ w. (7, w));
  wall_clock = λ w. (7, w);
  decode = λ document. ok (record { title = "Offline"; detail = "A <device> is offline." });
}

abbrev message : EmailMessage
message = record {
  sender = "alerts@example.org";
  to = "Ann@example.org";
  subject = "HomeSignal alert: Offline";
  text = "A <device> is offline.";
  html = "<p>A &lt;device&gt; is offline.</p>";
  idempotency_key = queued.idempotency_key;
}

process_run :
    (process_pending service (pos 10) tt).0 ≡ ok (sent_attempt (tried queued) message result 7 ∷ [])
unfolding process_pending process_attempts process_attempt render default_render escape_string
    clock_or trim_space ◌>>=◌ append
process_run = refl

process_pending-IsBatch_example :
    IsBatch service (pos 10) (sent_attempt (tried queued) message result 7 ∷ [])
process_pending-IsBatch_example =
    process_pending-IsBatch service (pos 10) tt (sent_attempt (tried queued) message result 7 ∷ [])
      process_run
