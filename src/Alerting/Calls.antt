-- ===== src/Alerting/Calls.antt =====
-- Any sequence of calls of the alert service, errors and failing repositories included.
use home_assistant.Base.{String, some, List, [], ◌∷◌, ◌≡◌}
use home_assistant.Base.Simulation.{Steps, here, Steps-trans, reached}
use home_assistant.Alerting.Model.{Status, Candidate, Alert, AlertActionRequest}
use home_assistant.Alerting.Service
use home_assistant.Alerting.Service.{Service}
use home_assistant.Alerting.Lifecycle.{Snapshot, Step}
use home_assistant.Alerting.Laws.{ServiceLaws}
use home_assistant.Alerting.Refinement.{
  intake_candidate-Keeps, acknowledge_alert-Keeps, snooze_alert-Keeps, resolve_alert-Keeps,
}
use home_assistant.Alerting.Invariants.{
  SameAlert, StaysResolved, UniqueActive, UniqueActive-Steps, alert_kept,
}

pub data Call : Type 0 where
  intake_candidate : Candidate → Call
  acknowledge_alert : AlertActionRequest → Call
  snooze_alert : AlertActionRequest → Call
  resolve_alert : AlertActionRequest → Call

module _ {W : Type 0} where
  unfoldable pub perform : Service W → Call → W → W
  perform s (Call.intake_candidate c) w = (Service.intake_candidate s c w).1
  perform s (Call.acknowledge_alert req) w = (Service.acknowledge_alert s req w).1
  perform s (Call.snooze_alert req) w = (Service.snooze_alert s req w).1
  perform s (Call.resolve_alert req) w = (Service.resolve_alert s req w).1

  unfoldable pub serve : Service W → List Call → W → W
  unfolding perform
  serve s [] w = w
  serve s (call ∷ calls) w = serve s calls (perform s call w)

module _ {W : Type 0} (view : W → Snapshot) (s : Service W) (laws : ServiceLaws view s) where
  -- Each call of the alert service, over a repository that meets its laws, and whether it returns a
  -- value or an error, changes what is stored only along steps of the abstract lifecycle.
  pub perform_simulates : (call : Call) (w : W) → Steps Step (view w) (view (perform s call w))
  unfolding perform
  perform_simulates (Call.intake_candidate c) w =
      reached view Step _ w (intake_candidate-Keeps view s laws (view w) c)
  perform_simulates (Call.acknowledge_alert req) w =
      reached view Step _ w (acknowledge_alert-Keeps view s laws (view w) req)
  perform_simulates (Call.snooze_alert req) w =
      reached view Step _ w (snooze_alert-Keeps view s laws (view w) req)
  perform_simulates (Call.resolve_alert req) w =
      reached view Step _ w (resolve_alert-Keeps view s laws (view w) req)

  serve_simulates : (calls : List Call) (w : W) → Steps Step (view w) (view (serve s calls w))
  unfolding serve
  serve_simulates [] w = here
  serve_simulates (call ∷ calls) w =
      Steps-trans (perform_simulates call w) (serve_simulates calls (perform s call w))

  -- If no two active alerts have one key, so it is after any calls, if the service meets its laws.
  pub serve-UniqueActive :
      (calls : List Call) (w : W) → UniqueActive (view w) → UniqueActive (view (serve s calls w))
  serve-UniqueActive calls w = UniqueActive-Steps (serve_simulates calls w)

  -- Whatever calls follow, a stored alert stays stored under its id with its key, account, site,
  -- device, family, first candidate and creation time, and no fewer occurrences, if the service meets
  -- its laws.
  pub serve_keeps_alert :
      (calls : List Call) (w : W) (id : String) (a : Alert)
      → (view w).alerts id ≡ some a
      → (b : Alert) × ((view (serve s calls w)).alerts id ≡ some b) × SameAlert a b
  serve_keeps_alert calls w id a h =
      let (b, stored, same, _) = alert_kept id a (serve_simulates calls w) h in (b, stored, same)

  -- Whatever calls follow, a stored alert that is resolved stays stored under its id and resolved, with
  -- the time, the reason, the count and the last candidate of the resolution, if the service meets its
  -- laws.
  pub serve_keeps_resolved :
      (calls : List Call) (w : W) (id : String) (a : Alert)
      → (view w).alerts id ≡ some a
      → a.status ≡ Status.resolved
      → (b : Alert) × ((view (serve s calls w)).alerts id ≡ some b) × StaysResolved a b
  serve_keeps_resolved calls w id a h r =
      let (b, stored, _, stays) = alert_kept id a (serve_simulates calls w) h in
      (b, stored, stays r)
