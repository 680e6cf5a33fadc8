-- ===== src/Authorization/Examples.antt =====
-- A user with one permission.
use home_assistant.Base.{String, List, true, some, [], ◌∷◌, ◌≡◌, ◌↔◌, refl, ok, Exec, false, ◌>>=◌}
use home_assistant.Authorization.Service.{
  Subject, Resource, Service, decision, can, valid_action, matches, is_listed, decide, denied,
}
use home_assistant.Authorization.Granted.{IsGranted, can-IsGranted}

abbrev list : String → String → String → Exec (Unit {0}) (List String)
list user account site w = (ok ("devices:read" ∷ []), w)

abbrev service : Service (Unit {0})
service = record { auth = some list }

abbrev user : Subject
user = record { type = "user"; id = "user-1" }

abbrev device : Resource
device = record { type = "device"; id = "device-1"; account_id = "account-1"; site_id = "site-1" }

granted_run : (can service user "devices:read" device tt).0 ≡ ok (decision true)
unfolding can valid_action matches decide is_listed ◌>>=◌
granted_run = refl

missing_run : (can service user "devices:write" device tt).0 ≡ ok (denied "permission_missing")
unfolding can valid_action matches decide is_listed ◌>>=◌
missing_run = refl

colon_missing : valid_action "devices" ≡ false
unfolding valid_action matches
colon_missing = refl

can-IsGranted_example :
    ((can service user "devices:read" device tt).0
      ≡ ok (record { allowed = true; reason = "permission_granted" }))
    ↔ IsGranted user "devices:read" ("devices:read" ∷ [])
can-IsGranted_example =
    can-IsGranted service list user "devices:read" device ("devices:read" ∷ []) tt refl refl
