-- ===== src/Alerting/Lifecycle.antt =====
-- The abstract lifecycle of alerts: what a repository holds and how it may change.
use home_assistant.Base.{
  String, Bool, true, false, Option, none, some, List, [], ◌∷◌, ◌++◌, ◌≡◌, ◌≢◌, ◌<◌, ◌+◌, ◌==◌,
  if◌then◌else◌,
}
use home_assistant.Base.Time.{Time}
use home_assistant.Alerting.Model.{Status, Severity, Alert, AlertEvent, active}

pub record Snapshot : Type 0 where
  pub alerts : String → Option Alert
  pub candidates : String → Bool
  pub events : List AlertEvent

abbrev pub put : Alert → Snapshot → Snapshot
put alert v = record v { alerts = λ id. if alert.alert_id == id then some alert else v.alerts id }

abbrev pub note : String → Snapshot → Snapshot
note candidate_id v = record v {
  candidates = λ id. if candidate_id == id then true else v.candidates id;
}

abbrev pub log : AlertEvent → Snapshot → Snapshot
log event v = record v { events = v.events ++ event ∷ [] }

abbrev pub NoneActive : String → Snapshot → Type 0
NoneActive key v =
    (id : String) (b : Alert) → v.alerts id ≡ some b → b.status ≡ active → b.alert_key ≢ key

-- One update of an alert, as the fields that it changes.
pub data Change (a a' : Alert) : Type 0 where
  repeat :
      (severity : Severity) (title detail reason candidate : String) (t : Time)
      → a.status ≡ active
      → a' ≡ record a {
        severity = severity;
        title = title;
        detail = detail;
        reason_code = reason;
        last_candidate_id = candidate;
        occurrence_count = a.occurrence_count + 1;
        updated_at = t;
      }
      → Change a a'
  acknowledge :
      (user : String) (t : Time)
      → a' ≡ record a { acknowledged_at = some t; acknowledged_by_user_id = user; updated_at = t }
      → Change a a'
  snooze :
      (until earlier t : Time)
      → earlier < until
      → a' ≡ record a { snoozed_until = some until; updated_at = t }
      → Change a a'
  close :
      (candidate reason : String) (t : Time)
      → a.status ≢ Status.resolved
      → a' ≡ record a {
        status = Status.resolved;
        resolved_at = some t;
        updated_at = t;
        last_candidate_id = candidate;
        reason_code = reason;
      }
      → Change a a'

pub data Step (v : Snapshot) : Snapshot → Type 0 where
  intake : (id : String) → v.candidates id ≡ false → Step v (note id v)
  raise :
      (a : Alert)
      → v.alerts a.alert_id ≡ none
      → NoneActive a.alert_key v
      → a.status ≡ active
      → a.occurrence_count ≡ 1
      → Step v (put a v)
  change : (a a' : Alert) → v.alerts a.alert_id ≡ some a → Change a a' → Step v (put a' v)
  tell :
      (a : Alert) (event : AlertEvent)
      → v.alerts a.alert_id ≡ some a
      → event.alert_id ≡ a.alert_id
      → Step v (log event v)
