-- ===== src/Edgestate/Service.antt =====
-- `PutDesired` of backend/internal/domain/edgestate/service.go. The projections, which the service does
-- not use, are left out.
use home_assistant.Base.{
  String, not, ◌||◌, Option, none, some, List, [], ◌∷◌, ℕ, ◌==◌, is_empty, trim_space,
  if◌then◌else◌, errorf, Error, Exec, returns, present, check, wrapping, ◌>>=◌, ◌>>◌,
}
use home_assistant.Base.Json
use home_assistant.Base.Time.{Time}

abbrev pub StateKey : Type 0
StateKey = String

abbrev pub key_publish_policy : StateKey
key_publish_policy = "publish_policy"

abbrev pub key_update : StateKey
key_update = "update"

pub record DesiredState : Type 0 where
  pub device_id : String
  pub state_key : StateKey
  pub desired_version : String
  pub desired : List ℕ
  pub convergence_deadline_at : Option Time

-- `PutDesired` of the adapter is a function, and the repository is its `UpsertDesiredState`.
pub record Service (W : Type 0) : Type 0 where
  pub repository : Option (DesiredState → Exec W (Unit {0}))
  pub adapter : Option (DesiredState → Exec W (Unit {0}))

unfoldable pub validate_desired_state : DesiredState → Option Error
validate_desired_state state =
    if is_empty (trim_space state.device_id)
    then some (errorf "device_id is required" [])
    else if not ((state.state_key == key_publish_policy) || (state.state_key == key_update))
    then some (errorf "unsupported edge state key %q" (state.state_key ∷ []))
    else if is_empty (trim_space state.desired_version)
    then some (errorf "desired_version is required" [])
    -- an empty text is not valid JSON
    else if not (Json.valid state.desired)
    then some (errorf "desired_json must be valid JSON" [])
    else none

module _ {W : Type 0} where
  abbrev pub publish : Option (DesiredState → Exec W (Unit {0})) → DesiredState → Exec W (Unit {0})
  publish none state = returns tt
  publish (some put) state = wrapping "publish desired edge state" (put state)

  unfoldable pub put_desired : Service W → DesiredState → Exec W (Unit {0})
  put_desired s state = do
    check (validate_desired_state state)
    upsert ← present s.repository (errorf "edge state repository is required" [])
    wrapping "store desired edge state" (upsert state)
    publish s.adapter state

  -- one call after another
  unfoldable pub put_all : Service W → List DesiredState → W → W
  put_all s [] w = w
  put_all s (state ∷ rest) w = put_all s rest (put_desired s state w).1
