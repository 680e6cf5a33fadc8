-- ===== src/Recipients/Laws.antt =====
-- What is assumed of what the service of recipients calls, and what its operations are to leave behind.
use home_assistant.Base.{
  String, Bool, true, false, Option, none, some, ◌≡◌, ◌==◌, if◌then◌else◌, is_empty, trim_space,
  Outcome, ok, Exec, reading, ◌⊎◌,
}
use home_assistant.Base.Ensures.{Settles, Ensures}
use home_assistant.Base.Simulation.{Shows, Quiet}
use home_assistant.Base.Time.{Time}
use home_assistant.Recipients.Model.{
  is_settable, verified, pending_verification, deleted, AlertRecipient, CreateRecipientRequest,
  UpdateRecipientRequest, DeleteRecipientRequest,
}
use home_assistant.Recipients.Subscriptions.{normalize_subscriptions}
use home_assistant.Recipients.Service.{Repository, Service, normalize_email, validate_recipient}

abbrev pub Stored : Type 0
Stored = String → Option AlertRecipient

abbrev pub put : AlertRecipient → Stored → Stored
put r v id = if r.alert_recipient_id == id then some r else v id

-- The contract of the repository: an error has changed nothing.
pub record RepositoryLaws {W : Type 0} (view : W → Stored) (r : Repository W) : Type 0 where
  pub save_lem :
      (x : AlertRecipient) (v : Stored)
      → Ensures (Shows view v) (λ _. Shows view (put x v)) (Shows view v) (r.save_recipient x)
  pub get_lem :
      (id : String) (v : Stored)
      → Ensures
          (Shows view v)
          (λ x w. (v x.alert_recipient_id ≡ some x) × (view w ≡ v))
          (Shows view v)
          (r.get_recipient id)

pub record ServiceLaws {W : Type 0} (view : W → Stored) (s : Service W) : Type 0 where
  pub repository_lem : (r : Repository W) → s.repository ≡ some r → RepositoryLaws view r
  pub authorization_lem :
      (f : String → String → String → Exec W Bool) (a b c : String)
      → s.authorization ≡ some f
      → Quiet view (f a b c)
  pub clock_lem : (f : W → Time × W) → s.clock ≡ some f → Quiet view (reading f)
  pub wall_clock_lem : Quiet view (reading s.wall_clock)
  pub id_generator_lem : (f : W → String × W) → s.id_generator ≡ some f → Quiet view (reading f)

-- The actor is named, and where the service has an authorization, this has said yes.
pub record Granted {W : Type 0} (s : Service W) (actor account site : String) : Type 0 where
  pub named : is_empty (trim_space actor) ≡ false
  pub owned : is_empty (trim_space account) ≡ false
  pub allowed :
      (f : String → String → String → Exec W Bool)
      → s.authorization ≡ some f
      → (w : W) × ((f (trim_space actor) (trim_space account) (trim_space site) w).0 ≡ ok true)

-- The same recipient, for the same account and site, at the same address.
pub record SameRecipient (x r : AlertRecipient) : Type 0 where
  pub alert_recipient_id : r.alert_recipient_id ≡ x.alert_recipient_id
  pub account_id : r.account_id ≡ x.account_id
  pub site_id : r.site_id ≡ x.site_id
  pub email : r.email ≡ x.email
  pub email_normalized : r.email_normalized ≡ x.email_normalized
  pub channel : r.channel ≡ x.channel
  pub created_by_user_id : r.created_by_user_id ≡ x.created_by_user_id
  pub created_at : r.created_at ≡ x.created_at
  pub verified_at : r.verified_at ≡ x.verified_at

pub record IsUpdate {W : Type 0} (s : Service W) (v : Stored) (req : UpdateRecipientRequest)
    (r : AlertRecipient) : Type 0 where
  pub existing : AlertRecipient
  pub found : v existing.alert_recipient_id ≡ some existing
  pub granted : Granted s req.actor_user_id existing.account_id existing.site_id
  pub identity : SameRecipient existing r
  pub valid : validate_recipient r ≡ none
  pub status :
      (r.status ≡ existing.status) ⊎ ((r.status ≡ req.status) × (is_settable r.status ≡ true))
  pub stamps :
      (r.verified_at ≡ existing.verified_at)
      × (r.disabled_at ≡ existing.disabled_at)
      × (r.deleted_at ≡ existing.deleted_at)

pub record IsDeletion {W : Type 0} (s : Service W) (v : Stored) (req : DeleteRecipientRequest)
    (r : AlertRecipient) : Type 0 where
  pub existing : AlertRecipient
  pub found : v existing.alert_recipient_id ≡ some existing
  pub granted : Granted s req.actor_user_id existing.account_id existing.site_id
  pub identity : SameRecipient existing r
  pub status : r.status ≡ deleted
  pub deleted_at : r.deleted_at ≡ some r.updated_at

pub record IsCreation {W : Type 0} (s : Service W) (req : CreateRecipientRequest)
    (r : AlertRecipient) : Type 0 where
  pub granted : Granted s req.actor_user_id req.account_id req.site_id
  pub identified : is_empty r.alert_recipient_id ≡ false
  pub account : r.account_id ≡ trim_space req.account_id
  pub site : r.site_id ≡ trim_space req.site_id
  pub address : normalize_email s.mail req.email ≡ ok (r.email, r.email_normalized)
  pub valid : validate_recipient r ≡ none
  pub subscriptions : r.subscriptions ≡ normalize_subscriptions req.subscribed_families
  pub status :
      ((r.status ≡ verified)
        × (r.verified_at ≡ some r.created_at)
        × (req.actor_email_verified ≡ true)
        × ((email : String) × (normalize_email s.mail req.actor_email
              ≡ ok (email, r.email_normalized))))
      ⊎ ((r.status ≡ pending_verification) × (r.verified_at ≡ none))

-- What a call of an operation on recipients, that gave `o` at a world that shows `v`, leaves behind:
-- a recipient that it returns is as `F` says and is the only thing that it stored, and with an
-- error nothing was stored.
abbrev pub Leaves :
    {W : Type 0}
    → (W → Stored)
    → Stored
    → (AlertRecipient → Type 0)
    → Outcome AlertRecipient × W
    → Type 0
Leaves view v F o = Settles (λ r w. F r × (view w ≡ put r v)) (Shows view v) o.0 o.1
