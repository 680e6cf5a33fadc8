-- ===== src/Recipients/Service.antt =====
-- The operations of backend/internal/domain/alerting/recipients.go, over a world `W` on which the
-- repository, the authorization, the clock and the id generator act. `Mail` stands for what Go's
-- `mail.ParseAddress` and `strings.ToLower` answer.
use home_assistant.Base.{
  String, Bool, true, false, Option, none, some, List, [], ◌∷◌, ◌==◌, ◌&&◌, ◌||◌, not, is_empty,
  trim_space, if◌then◌else◌, Error, errorf, Outcome, ok, err, Exec, returns, lift, wrapping,
  reading, check, ensure, present, ◌>>=◌, ◌>>◌,
}
use home_assistant.Base.Time.{Time}
use home_assistant.Alerting.Model.{Alert}
use home_assistant.Recipients.Model.{
  RecipientStatus, pending_verification, verified, deleted, status_text, is_named_status,
  is_settable, SubscriptionFamily, is_valid_subscription_family, subscription_family_for_alert,
  AlertSubscription, AlertRecipient, CreateRecipientRequest, UpdateRecipientRequest,
  DeleteRecipientRequest,
}
use home_assistant.Recipients.Subscriptions.{normalize_subscriptions, eligible_from}

-- `parse_address` gives the address of a text that is one
pub record Mail : Type 0 where
  pub parse_address : String → Option String
  pub to_lower : String → String

pub record Repository (W : Type 0) : Type 0 where
  pub save_recipient : AlertRecipient → Exec W (Unit {0})
  pub get_recipient : String → Exec W AlertRecipient
  pub list_recipients_for_account : String → Exec W (List AlertRecipient)

pub record Service (W : Type 0) : Type 0 where
  pub repository : Option (Repository W)
  pub authorization : Option (String → String → String → Exec W Bool)
  pub id_generator : Option (W → String × W)
  pub clock : Option (W → Time × W)
  pub wall_clock : W → Time × W
  pub mail : Mail

abbrev named_email : String → String → Outcome (String × String)
named_email email normalized =
    if is_empty normalized
    then err (errorf "recipient email is required" [])
    else ok (email, normalized)

-- The trimmed address, and its lower case.
unfoldable pub normalize_email : Mail → String → Outcome (String × String)
normalize_email mail value = elim (mail.parse_address (trim_space value)) [
  | none ↦ err (errorf "recipient email must be valid" [])
  | some address ↦ named_email (trim_space address) (mail.to_lower (trim_space address))
]

abbrev pub is_same_email : Outcome (String × String) → String → Bool
is_same_email (ok (email, normalized)) expected = normalized == expected
is_same_email (err e) expected = false

-- whether the actor has shown that the address is theirs
unfoldable pub is_own_email : Mail → CreateRecipientRequest → String → Bool
is_own_email mail req normalized =
    req.actor_email_verified && is_same_email (normalize_email mail req.actor_email) normalized

unsupported_subscription : List AlertSubscription → Option Error
unsupported_subscription [] = none
unsupported_subscription (s ∷ rest) =
    let others = unsupported_subscription rest in
    if is_valid_subscription_family s.family
    then others
    else some (errorf "unsupported subscription family %q" (s.family ∷ []))

abbrev is_empty_list : {A : Type 0} → List A → Bool
is_empty_list [] = true
is_empty_list (a ∷ rest) = false

unfoldable pub validate_recipient : AlertRecipient → Option Error
unfolding unsupported_subscription
validate_recipient r =
    if is_empty r.alert_recipient_id || is_empty r.account_id
    then some (errorf "alert_recipient_id and account_id are required" [])
    else if not (r.channel == "email")
    then some (errorf "unsupported alert recipient channel %q" (r.channel ∷ []))
    else if is_empty r.email || is_empty r.email_normalized
    then some (errorf "recipient email is required" [])
    else if not (is_named_status r.status)
    then some (errorf "unsupported recipient status %q" (status_text r.status ∷ []))
    else if is_empty_list r.subscriptions
    then some (errorf "at least one alert subscription is required" [])
    else unsupported_subscription r.subscriptions

unfoldable pub new_recipient :
    Mail → CreateRecipientRequest → String → String → String → Time → AlertRecipient
new_recipient mail req id email normalized t =
    let own = is_own_email mail req normalized in
    record {
      alert_recipient_id = id;
      account_id = trim_space req.account_id;
      site_id = trim_space req.site_id;
      email = email;
      email_normalized = normalized;
      display_label = trim_space req.display_label;
      channel = "email";
      status = if own then verified else pending_verification;
      created_by_user_id = trim_space req.actor_user_id;
      verified_at = if own then some t else none;
      disabled_at = none;
      deleted_at = none;
      subscriptions = normalize_subscriptions req.subscribed_families;
      created_at = t;
      updated_at = t;
    }

abbrev label_or : String → String → String
label_or label default = if is_empty label then default else label

abbrev status_or : RecipientStatus → RecipientStatus → RecipientStatus
status_or status default = if is_empty (status_text status) then default else status

abbrev subscriptions_or : List SubscriptionFamily → List AlertSubscription → List AlertSubscription
subscriptions_or families default =
    if is_empty_list families then default else normalize_subscriptions families

abbrev pub updated : UpdateRecipientRequest → Time → AlertRecipient → AlertRecipient
updated req t existing = record existing {
  display_label = label_or (trim_space req.display_label) existing.display_label;
  status = status_or req.status existing.status;
  subscriptions = subscriptions_or req.subscribed_families existing.subscriptions;
  updated_at = t;
}

abbrev pub removed : Time → AlertRecipient → AlertRecipient
removed t existing = record existing { status = deleted; deleted_at = some t; updated_at = t }

module _ {W : Type 0} where
  unfoldable pub now : Service W → Exec W Time
  now s = elim s.clock [ none ↦ reading s.wall_clock | some clock ↦ reading clock ]

  unfoldable pub authorize : Service W → String → String → String → Exec W (Unit {0})
  authorize s actor account site = do
    let actor' = trim_space actor
    let account' = trim_space account
    ensure (not (is_empty actor' || is_empty account'))
        (errorf "actor_user_id and account_id are required" [])
    elim s.authorization [
      | none ↦ returns tt
      | some can_manage ↦ (do
        allowed ←
            wrapping "authorize alert recipient management"
              (can_manage actor' account' (trim_space site))
        ensure allowed (errorf "actor is not authorized to manage alert recipients" []))
    ]

  unfoldable pub new_recipient_id : Service W → Exec W String
  new_recipient_id s = do
    generator ← present s.id_generator (errorf "alert recipient id generator is required" [])
    raw ← reading generator
    let id = trim_space raw
    ensure (not (is_empty id)) (errorf "alert recipient id is required" [])
    returns id

  unfoldable pub create_recipient : Service W → CreateRecipientRequest → Exec W AlertRecipient
  create_recipient s req = do
    repository ← present s.repository (errorf "alert recipient repository is required" [])
    authorize s req.actor_user_id req.account_id req.site_id
    t ← now s
    id ← new_recipient_id s
    (email, normalized) ← lift (normalize_email s.mail req.email)
    let recipient = new_recipient s.mail req id email normalized t
    check (validate_recipient recipient)
    wrapping "save alert recipient" (repository.save_recipient recipient)
    returns recipient

  unfoldable pub update_recipient : Service W → UpdateRecipientRequest → Exec W AlertRecipient
  update_recipient s req = do
    repository ← present s.repository (errorf "alert recipient repository is required" [])
    existing ←
        wrapping "load alert recipient"
          (repository.get_recipient (trim_space req.alert_recipient_id))
    authorize s req.actor_user_id existing.account_id existing.site_id
    ensure
        (is_empty (trim_space req.account_id) || trim_space req.account_id == existing.account_id)
        (errorf "account_id cannot be changed" [])
    ensure (is_empty (trim_space req.site_id) || trim_space req.site_id == existing.site_id)
        (errorf "site_id cannot be changed" [])
    ensure (is_empty (status_text req.status) || is_settable req.status)
        (errorf "unsupported recipient status %q" (status_text req.status ∷ []))
    t ← now s
    let recipient = updated req t existing
    check (validate_recipient recipient)
    wrapping "save alert recipient" (repository.save_recipient recipient)
    returns recipient

  unfoldable pub delete_recipient : Service W → DeleteRecipientRequest → Exec W AlertRecipient
  delete_recipient s req = do
    repository ← present s.repository (errorf "alert recipient repository is required" [])
    existing ←
        wrapping "load alert recipient"
          (repository.get_recipient (trim_space req.alert_recipient_id))
    authorize s req.actor_user_id existing.account_id existing.site_id
    t ← now s
    wrapping "delete alert recipient" (repository.save_recipient (removed t existing))
    returns (removed t existing)

  unfoldable pub eligible_recipients : Service W → Alert → Exec W (List AlertRecipient)
  eligible_recipients s alert = do
    repository ← present s.repository (errorf "alert recipient repository is required" [])
    elim (subscription_family_for_alert alert.family) [
      | none ↦ returns []
      | some family ↦ (do
        recipients ←
            wrapping "list alert recipients"
              (repository.list_recipients_for_account alert.account_id)
        returns (eligible_from alert family recipients))
    ]
