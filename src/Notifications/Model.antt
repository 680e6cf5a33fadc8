-- ===== src/Notifications/Model.antt =====
-- The data of backend/internal/domain/notifications/service.go, and the message that is sent by default.
-- An error that is kept as a text is the error itself. The decoding of the template's data by
-- encoding/json is a parameter.
use Prim.Native.Char.{code}
use home_assistant.Base.{
  ℕ, String, Bool, true, false, not, ◌||◌, ◌==◌, Option, none, some, List, [], ◌∷◌, eqb, is_empty,
  trim_space, if◌then◌else◌, errorf, Error, Outcome, ok, err, relabel,
}
use home_assistant.Base.Json
use home_assistant.Base.Split.{append}
use home_assistant.Base.Time.{Time}
use home_assistant.Alerting.Model.{RawMessage, Alert, family_text, severity_text}
use home_assistant.Recipients.Model.{SubscriptionFamily}

pub data Status : Type 0 where
  pending claimed sent failed suppressed canceled : Status
  other : String → Status

abbrev pub is_named_status : Status → Bool
is_named_status (other s) = false
is_named_status _ = true

abbrev pub unnamed : Status → List String
unnamed (other s) = s ∷ []
unnamed _ = []

abbrev pub channel_email : String
channel_email = "email"

abbrev pub template_alert_email : String
template_alert_email = "alert_email_v0"

pub record NotificationAttempt : Type 0 where
  pub notification_attempt_id : String
  pub alert_id : String
  pub alert_recipient_id : String
  pub account_id : String
  pub site_id : String
  pub device_id : String
  pub family : SubscriptionFamily
  pub channel : String
  pub status : Status
  pub template_key : String
  pub recipient_email : String
  pub recipient_email_normalized : String
  pub subject : String
  pub body_text : String
  pub body_html : String
  pub provider : String
  pub provider_message_id : String
  pub idempotency_key : String
  pub attempt_count : ℕ
  pub last_error : Option Error
  pub template_data : RawMessage
  pub not_before : Option Time
  pub claimed_at : Option Time
  pub sent_at : Option Time
  pub failed_at : Option Time
  pub created_at : Time
  pub updated_at : Time

pub record EmailMessage : Type 0 where
  pub sender : String
  pub to : String
  pub subject : String
  pub text : String
  pub html : String
  pub idempotency_key : String

pub record ProviderResult : Type 0 where
  pub provider : String
  pub provider_message_id : String

pub record TemplateData : Type 0 where
  pub title : String
  pub detail : String

-- `html.EscapeString`
unfoldable pub escape_string : String → String
escape_string String.[] = String.[]
escape_string (String.◌∷◌ c s) =
    let rest = escape_string s in
    if eqb (code c) b'&'
    then append "&amp;" rest
    else if eqb (code c) 0x27
    then append "&#39;" rest
    else if eqb (code c) b'<'
    then append "&lt;" rest
    else if eqb (code c) b'>'
    then append "&gt;" rest
    else if eqb (code c) b'"'
    then append "&#34;" rest
    else String.◌∷◌ c rest

abbrev pub text_of : TemplateData → String
text_of data_ =
    if is_empty (trim_space data_.detail)
    then "A HomeSignal alert needs attention."
    else trim_space data_.detail

abbrev pub message_of : String → NotificationAttempt → Outcome TemplateData → Outcome EmailMessage
message_of sender a (err e) = err e
message_of sender a (ok data_) = ok (record {
  sender = sender;
  to = a.recipient_email;
  subject = append "HomeSignal alert: " (trim_space data_.title);
  text = text_of data_;
  html = append "<p>" (append (escape_string (text_of data_)) "</p>");
  idempotency_key = a.idempotency_key;
})

-- `DefaultRenderer.Render`
unfoldable pub default_render :
    (RawMessage → Outcome TemplateData) → String → NotificationAttempt → Outcome EmailMessage
unfolding escape_string
default_render decode from_address a =
    if is_empty (trim_space from_address)
    then err (errorf "EMAIL_FROM is required" [])
    else if is_empty (trim_space a.recipient_email)
    then err (errorf "recipient email is required" [])
    else message_of (trim_space from_address) a
        (relabel "render alert email" (decode a.template_data))

unfoldable pub validate_attempt : NotificationAttempt → Option Error
validate_attempt a =
    if is_empty a.notification_attempt_id || is_empty a.account_id
    then some (errorf "notification_attempt_id and account_id are required" [])
    else if not (a.channel == channel_email)
    then some (errorf "unsupported notification channel %q" (a.channel ∷ []))
    else if not (is_named_status a.status)
    then some (errorf "unsupported notification status %q" (unnamed a.status))
    else if is_empty a.template_key
        || is_empty a.recipient_email
        || is_empty a.recipient_email_normalized
    then some (errorf "template_key and recipient email are required" [])
    else if is_empty a.idempotency_key
    then some (errorf "idempotency_key is required" [])
    else if not (Json.valid (Json.or_empty_object a.template_data))
    then some (errorf "template data must be valid JSON" [])
    else none

abbrev pub alert_scope_key : Alert → String
alert_scope_key alert =
    if not (is_empty (trim_space alert.device_id))
    then append "device:" (trim_space alert.device_id)
    else if not (is_empty (trim_space alert.site_id))
    then append "site:" (trim_space alert.site_id)
    else append "account:" (trim_space alert.account_id)

-- the data of the template, with its keys in order
abbrev pub template_data_of : Alert → List (String × String)
template_data_of alert =
    ("alert_id", alert.alert_id)
    ∷ ("detail", alert.detail)
    ∷ ("family", family_text alert.family)
    ∷ ("reason_code", alert.reason_code)
    ∷ ("severity", severity_text alert.severity)
    ∷ ("title", alert.title)
    ∷ []
