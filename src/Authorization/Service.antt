-- ===== src/Authorization/Service.antt =====
-- `Can` of backend/internal/domain/authorization/authorization.go, over a repository of permissions.
-- The regular expression for actions, `^[a-z][a-z0-9_]*:[a-z][a-z0-9_]*$`, is its automaton.
use Prim.Native.Char.{code}
use home_assistant.Base.{
  ℕ, String, Bool, true, false, not, ◌&&◌, ◌||◌, Option, List, [], ◌∷◌, ◌==◌, leb, eqb, is_empty,
  if◌then◌else◌, errorf, Exec, returns, present, wrapping, ◌>>=◌,
}

pub record Subject : Type 0 where
  pub type : String
  pub id : String

pub record Resource : Type 0 where
  pub type : String
  pub id : String
  pub account_id : String
  pub site_id : String

pub record Decision : Type 0 where
  pub allowed : Bool
  pub reason : String

-- `ListPermissionKeys`, by the user, the account and the site
pub record Service (W : Type 0) : Type 0 where
  pub auth : Option (String → String → String → Exec W (List String))

abbrev pub is_letter : ℕ → Bool
is_letter c = leb b'a' c && leb c b'z'

abbrev pub is_word : ℕ → Bool
is_word c = is_letter c || leb b'0' c && leb c b'9' || eqb c b'_'

-- where a match stands: before or within the first or the second word
pub data Place : Type 0 where
  first_start first second_start second : Place

unfoldable pub matches : Place → String → Bool
matches second String.[] = true
matches _ String.[] = false
matches first_start (String.◌∷◌ c s) = is_letter (code c) && matches first s
matches first (String.◌∷◌ c s) =
    let colon = matches second_start s in
    let more = matches first s in if eqb (code c) b':' then colon else is_word (code c) && more
matches second_start (String.◌∷◌ c s) = is_letter (code c) && matches second s
matches second (String.◌∷◌ c s) = is_word (code c) && matches second s

unfoldable pub valid_action : String → Bool
valid_action action = matches first_start action

unfoldable pub is_listed : String → List String → Bool
is_listed action [] = false
is_listed action (permission ∷ rest) = (permission == action) || is_listed action rest

abbrev pub denied : String → Decision
denied reason = record { allowed = false; reason = reason }

abbrev pub decision : Bool → Decision
decision listed =
    if listed
    then record { allowed = true; reason = "permission_granted" }
    else denied "permission_missing"

module _ {W : Type 0} where
  unfoldable pub decide : Service W → Subject → String → Resource → Exec W Decision
  decide s subject action resource = do
    list ← present s.auth (errorf "auth repository is required" [])
    permissions ← wrapping "list permissions" (list subject.id resource.account_id resource.site_id)
    returns (decision (is_listed action permissions))

  unfoldable pub can : Service W → Subject → String → Resource → Exec W Decision
  can s subject action resource =
      if not (valid_action action)
      then returns (denied "invalid_action")
      else if not (subject.type == "user") || is_empty subject.id
      then returns (denied "unsupported_subject")
      else decide s subject action resource
