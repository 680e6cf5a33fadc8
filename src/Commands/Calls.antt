-- ===== src/Commands/Calls.antt =====
-- Any sequence of calls of the command service, errors and failing repositories included.
use home_assistant.Base.{String, true, some, List, [], ◌∷◌, ◌≡◌, refl, Outcome, ok, err, Exec}
use home_assistant.Base.Ensures.{Ensures, Settles}
use home_assistant.Commands.Model.{
  is_terminal_command_status, Command, CreateRequest, AckRequest, ProgressRequest, ResultRequest,
}
use home_assistant.Commands.Service
use home_assistant.Commands.Service.{Service}
use home_assistant.Commands.Lifecycle.{Snapshot, Steps, here, next}
use home_assistant.Commands.Laws.{ServiceLaws}
use home_assistant.Commands.Refinement.{
  create-Keeps, mark_sent-Keeps, record_ack-Keeps, expire_missing_ack-Keeps, record_progress-Keeps,
  record_result-Keeps, expire_result-Keeps, cancel-Keeps,
}
use home_assistant.Commands.Invariants.{
  SameRequest, IsStamped, terminal_absorbs, request_kept, stamps_kept, AllConcluded, results_kept,
}

pub data Call : Type 0 where
  create : CreateRequest → Call
  mark_sent : String → Call
  record_ack : AckRequest → Call
  expire_missing_ack : String → Call
  record_progress : ProgressRequest → Call
  record_result : ResultRequest → Call
  expire_result : String → Call
  cancel : String → Call

module _ {W : Type 0} where
  unfoldable pub perform : Service W → Call → W → W
  perform s (Call.create req) w = (Service.create s req w).1
  perform s (Call.mark_sent id) w = (Service.mark_sent s id w).1
  perform s (Call.record_ack req) w = (Service.record_ack s req w).1
  perform s (Call.expire_missing_ack id) w = (Service.expire_missing_ack s id w).1
  perform s (Call.record_progress req) w = (Service.record_progress s req w).1
  perform s (Call.record_result req) w = (Service.record_result s req w).1
  perform s (Call.expire_result id) w = (Service.expire_result s id w).1
  perform s (Call.cancel id) w = (Service.cancel s id w).1

  unfoldable pub serve : Service W → List Call → W → W
  unfolding perform
  serve s [] w = w
  serve s (call ∷ calls) w = serve s calls (perform s call w)

settled : {W A : Type 0} (K : W → Type 0) (r : Outcome A) (w : W) → Settles (λ _. K) K r w → K w
settled K (ok a) w h = h
settled K (err e) w h = h

Steps-trans : {v u x : Snapshot} → Steps v u → Steps u x → Steps v x
Steps-trans p here = p
Steps-trans p (next q s) = next (Steps-trans p q) s

module _ {W : Type 0} (view : W → Snapshot) (s : Service W) (laws : ServiceLaws view s) where
  reached :
      {A : Type 0} (m : Exec W A) (w : W)
      → Ensures
          (λ x. view x ≡ view w)
          (λ _ x. Steps (view w) (view x))
          (λ x. Steps (view w) (view x))
          m
      → Steps (view w) (view (m w).1)
  reached m w h = settled (λ x. Steps (view w) (view x)) (m w).0 (m w).1 (h.at w refl)

  -- Each call of the service, with any request, over a repository that meets its laws, and whether it
  -- returns a value or an error, changes what is stored only along steps of the abstract lifecycle.
  pub perform-Steps : (call : Call) (w : W) → Steps (view w) (view (perform s call w))
  unfolding perform
  perform-Steps (Call.create req) w = reached _ w (create-Keeps view s laws (view w) req)
  perform-Steps (Call.mark_sent id) w = reached _ w (mark_sent-Keeps view s laws (view w) id)
  perform-Steps (Call.record_ack req) w = reached _ w (record_ack-Keeps view s laws (view w) req)
  perform-Steps (Call.expire_missing_ack id) w =
      reached _ w (expire_missing_ack-Keeps view s laws (view w) id)
  perform-Steps (Call.record_progress req) w =
      reached _ w (record_progress-Keeps view s laws (view w) req)
  perform-Steps (Call.record_result req) w =
      reached _ w (record_result-Keeps view s laws (view w) req)
  perform-Steps (Call.expire_result id) w =
      reached _ w (expire_result-Keeps view s laws (view w) id)
  perform-Steps (Call.cancel id) w = reached _ w (cancel-Keeps view s laws (view w) id)

  serve-Steps : (calls : List Call) (w : W) → Steps (view w) (view (serve s calls w))
  unfolding serve
  serve-Steps [] w = here
  serve-Steps (call ∷ calls) w =
      Steps-trans (perform-Steps call w) (serve-Steps calls (perform s call w))

  -- Whatever calls follow, a stored command whose status is terminal stays as it is, if the service
  -- meets its laws.
  pub serve_keeps_terminal :
      (calls : List Call) (w : W) (id : String) (c : Command)
      → (view w).commands id ≡ some c
      → is_terminal_command_status c.status ≡ true
      → (view (serve s calls w)).commands id ≡ some c
  serve_keeps_terminal calls w id c = terminal_absorbs id (serve-Steps calls w)

  -- Whatever calls follow, a stored command stays stored under its id, with the request that it was made
  -- from, its result deadline and its creation times unchanged, if the service meets its laws.
  pub serve_keeps_request :
      (calls : List Call) (w : W) (id : String) (c : Command)
      → (view w).commands id ≡ some c
      → (c' : Command) × ((view (serve s calls w)).commands id ≡ some c') × SameRequest c c'
  serve_keeps_request calls w id c = request_kept id c (serve-Steps calls w)

  -- If what is stored under an id has the time stamps of its status, so has what is stored there after
  -- any calls, if the service meets its laws.
  pub serve-IsStamped :
      (calls : List Call) (w : W) (id : String)
      → ((c : Command) → (view w).commands id ≡ some c → IsStamped c)
      → (c : Command) → (view (serve s calls w)).commands id ≡ some c
      → IsStamped c
  serve-IsStamped calls w id = stamps_kept id (serve-Steps calls w)

  -- If every stored command with a terminal status has a recorded result with that status, so it is
  -- after any calls, also where the repository has failed in between, if the service meets its laws.
  pub serve-AllConcluded :
      (calls : List Call) (w : W) → AllConcluded (view w) → AllConcluded (view (serve s calls w))
  serve-AllConcluded calls w = results_kept (serve-Steps calls w)
