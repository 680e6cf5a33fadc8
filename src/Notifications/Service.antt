-- ===== src/Notifications/Service.antt =====
-- The operations of backend/internal/domain/notifications/service.go, over a repository, a provider of
-- e-mails, a renderer, a clock and an id generator. The limit of a claim is the repository's to keep.
use home_assistant.Base.{
  ◌+◌, String, Bool, not, ◌&&◌, ◌==◌, Option, none, some, List, [], ◌∷◌, trim_space, if◌then◌else◌,
  errorf, Error, Outcome, ok, Exec, returns, lift, check, ensure, present, wrapping, settle, ◌>>=◌,
  ◌>>◌,
}
use home_assistant.Base.Int.{ℤ, is_nonpositive}
use home_assistant.Base.Json.Encode.{encode_map}
use home_assistant.Base.Sources.{clock_or, generated_id}
use home_assistant.Base.Split.{append}
use home_assistant.Base.Time.{Time}
use home_assistant.Alerting.Model.{RawMessage, Alert}
use home_assistant.Recipients.Model.{
  AlertRecipient, SubscriptionFamily, is_verified, subscription_family_for_alert,
}
use home_assistant.Notifications.Model.{
  pending, sent, failed, suppressed, channel_email, template_alert_email, NotificationAttempt,
  EmailMessage, ProviderResult, TemplateData, default_render, validate_attempt, alert_scope_key,
  template_data_of,
}

pub record Repository (W : Type 0) : Type 0 where
  pub create_attempt : NotificationAttempt → Exec W (Unit {0})
  pub claim_pending_attempts : Time → ℤ → Exec W (List NotificationAttempt)
  pub save_attempt : NotificationAttempt → Exec W (Unit {0})
  pub is_suppressed : String → String → SubscriptionFamily → Time → Exec W Bool

pub record Service (W : Type 0) : Type 0 where
  pub repository : Option (Repository W)
  pub provider : Option (EmailMessage → Exec W ProviderResult)
  pub renderer : Option (NotificationAttempt → Exec W EmailMessage)
  pub from_address : String
  pub id_generator : Option (W → String × W)
  pub clock : Option (W → Time × W)
  pub wall_clock : W → Time × W
  pub decode : RawMessage → Outcome TemplateData

abbrev pub new_attempt :
    String → SubscriptionFamily → Bool → Time → Alert → AlertRecipient → NotificationAttempt
new_attempt id family is_suppressed t alert recipient = record {
  notification_attempt_id = id;
  alert_id = alert.alert_id;
  alert_recipient_id = recipient.alert_recipient_id;
  account_id = alert.account_id;
  site_id = alert.site_id;
  device_id = alert.device_id;
  family = family;
  channel = channel_email;
  status = if is_suppressed then suppressed else pending;
  template_key = template_alert_email;
  recipient_email = recipient.email;
  recipient_email_normalized = recipient.email_normalized;
  subject = "";
  body_text = "";
  body_html = "";
  provider = "";
  provider_message_id = "";
  idempotency_key =
      append "alert:" (append alert.alert_id (append ":recipient:" recipient.alert_recipient_id));
  attempt_count = 0;
  last_error = none;
  template_data = encode_map (template_data_of alert);
  not_before = none;
  claimed_at = none;
  sent_at = none;
  failed_at = none;
  created_at = t;
  updated_at = t;
}

abbrev pub tried : NotificationAttempt → NotificationAttempt
tried a = record a { attempt_count = a.attempt_count + 1 }

abbrev pub failed_attempt : NotificationAttempt → Time → Error → NotificationAttempt
failed_attempt a t e = record a {
  status = failed;
  last_error = some e;
  failed_at = some t;
  updated_at = t;
}

abbrev pub sent_attempt :
    NotificationAttempt → EmailMessage → ProviderResult → Time → NotificationAttempt
sent_attempt a message result t = record a {
  status = sent;
  provider = trim_space result.provider;
  provider_message_id = trim_space result.provider_message_id;
  subject = message.subject;
  body_text = message.text;
  body_html = message.html;
  sent_at = some t;
  last_error = none;
  updated_at = t;
}

-- what is returned where an attempt that was sent is not saved
abbrev pub unsaved : NotificationAttempt → Error → NotificationAttempt
unsaved a e = record a { status = failed; last_error = some e }

module _ {W : Type 0} where
  unfoldable pub enqueue_alert_email :
      Service W → Alert → AlertRecipient → Exec W NotificationAttempt
  enqueue_alert_email s alert recipient = do
    repository ← present s.repository (errorf "notification repository is required" [])
    ensure (is_verified recipient.status && (recipient.channel == channel_email))
        (errorf "recipient is not eligible for product alert email" [])
    family ←
        present (subscription_family_for_alert alert.family)
          (errorf "alert family is not email-notifiable" [])
    t ← clock_or s.clock s.wall_clock
    id ←
        generated_id s.id_generator (errorf "notification attempt id generator is required" [])
          (errorf "notification attempt id is required" [])
    is_suppressed ←
        wrapping "check notification suppression"
          (repository.is_suppressed recipient.alert_recipient_id (alert_scope_key alert) family t)
    let attempt = new_attempt id family is_suppressed t alert recipient
    check (validate_attempt attempt)
    wrapping "create notification attempt" (repository.create_attempt attempt)
    returns attempt

  unfoldable pub render : Service W → NotificationAttempt → Exec W EmailMessage
  render s a = elim s.renderer [
    | none ↦ lift (default_render s.decode s.from_address a)
    | some renderer ↦ renderer a
  ]

  -- An error of the save is ignored.
  abbrev pub fail_attempt :
      Repository W → NotificationAttempt → Time → Error → W → NotificationAttempt × W
  fail_attempt r a t e w = (failed_attempt a t e, (r.save_attempt (failed_attempt a t e) w).1)

  unfoldable pub process_attempt :
      Service W
      → Repository W
      → (EmailMessage → Exec W ProviderResult)
      → NotificationAttempt
      → Time
      → W
      → NotificationAttempt × W
  process_attempt s r provider a t w =
      settle (render s (tried a) w) (λ e w. fail_attempt r (tried a) t e w)
        λ message w.
          settle (provider message w) (λ e w. fail_attempt r (tried a) t e w)
            λ result w.
              settle (r.save_attempt (sent_attempt (tried a) message result t) w)
                (λ e w. (unsaved (sent_attempt (tried a) message result t) e, w))
                (λ _ w. (sent_attempt (tried a) message result t, w))

  unfoldable pub process_attempts :
      Service W
      → Repository W
      → (EmailMessage → Exec W ProviderResult)
      → Time
      → List NotificationAttempt
      → W
      → List NotificationAttempt × W
  unfolding process_attempt
  process_attempts s r provider t [] w = ([], w)
  process_attempts s r provider t (a ∷ rest) w =
      let (a', w') = process_attempt s r provider a t w in
      let (rest', w'') = process_attempts s r provider t rest w' in (a' ∷ rest', w'')

  abbrev pub processing :
      Service W
      → Repository W
      → (EmailMessage → Exec W ProviderResult)
      → Time
      → List NotificationAttempt
      → Exec W (List NotificationAttempt)
  processing s r provider t attempts w =
      let (processed, w') = process_attempts s r provider t attempts w in (ok processed, w')

  unfoldable pub process_pending : Service W → ℤ → Exec W (List NotificationAttempt)
  unfolding process_attempts
  process_pending s limit = do
    repository ← present s.repository (errorf "notification repository is required" [])
    provider ← present s.provider (errorf "email provider is required" [])
    ensure (not (is_nonpositive limit)) (errorf "limit must be positive" [])
    t ← clock_or s.clock s.wall_clock
    attempts ←
        wrapping "claim pending notification attempts" (repository.claim_pending_attempts t limit)
    processing s repository provider t attempts
