-- ===== src/Commands/Invariants.antt =====
-- What holds along every path of the abstract lifecycle.
use mathlib.Core.List.{Memᴰ}
use home_assistant.Base.{
  String, true, false, Option, none, some, List, [], ◌∷◌, ◌++◌, ◌≡◌, ◌≢◌, inl, inr, refl, sym, ◌∙◌,
  subst, ◌==◌, eq_iff, arith, Bool-cases,
}
use home_assistant.Commands.Model.{
  queued, sent, ack_timed_out, canceled, is_terminal_command_status, Command,
}
use home_assistant.Commands.Lifecycle.{
  Snapshot, put, IsFresh, HasResult, Transition, deliver, accept, reject, miss_ack, progress,
  finish, abort, Step, admit, update, report, conclude, Steps, here, next,
}

-- What no update of a command changes.
pub record SameRequest (c c' : Command) : Type 0 where
  pub command_id : c'.command_id ≡ c.command_id
  pub account_id : c'.account_id ≡ c.account_id
  pub site_id : c'.site_id ≡ c.site_id
  pub device_id : c'.device_id ≡ c.device_id
  pub command_type : c'.command_type ≡ c.command_type
  pub idempotency_key : c'.idempotency_key ≡ c.idempotency_key
  pub requested_by_user_id : c'.requested_by_user_id ≡ c.requested_by_user_id
  pub payload : c'.payload ≡ c.payload
  pub result_deadline_at : c'.result_deadline_at ≡ c.result_deadline_at
  pub queued_at : c'.queued_at ≡ c.queued_at
  pub created_at : c'.created_at ≡ c.created_at

SameRequest-refl : (c : Command) → SameRequest c c
SameRequest-refl c = ground arith

SameRequest-trans : {a b c : Command} → SameRequest a b → SameRequest b c → SameRequest a c
SameRequest-trans p q = ground arith

Transition-SameRequest : {c c' : Command} → Transition c c' → SameRequest c c'
Transition-SameRequest (deliver t deadline h e) = ground arith
Transition-SameRequest (accept t reported h e) = ground arith
Transition-SameRequest (reject t reported h e) = ground arith
Transition-SameRequest (miss_ack t h late e) = ground arith
Transition-SameRequest (progress t h e) = ground arith
Transition-SameRequest (finish status t h k e) = ground arith
Transition-SameRequest (abort t h e) = ground arith

Transition-pending :
    {c c' : Command} → Transition c c' → is_terminal_command_status c.status ≡ false
Transition-pending (deliver t deadline h e) = ground arith
Transition-pending (accept t reported h e) = ground arith
Transition-pending (reject t reported h e) = ground arith
Transition-pending (miss_ack t h late e) = ground arith
Transition-pending (progress t h e) = ground arith
Transition-pending (finish status t h k e) = ground arith
Transition-pending (abort t h e) = ground arith

-- What is stored under an id after a step.
pub data Moved (o o' : Option Command) : Type 0 where
  kept : o' ≡ o → Moved o o'
  created : (c : Command) → o ≡ none → o' ≡ some c → IsFresh c → Moved o o'
  moved : (c c' : Command) → o ≡ some c → o' ≡ some c' → Transition c c' → Moved o o'

put_self :
    (c : Command) (v : Snapshot) (id : String) → c.command_id ≡ id → (put c v).commands id ≡ some c
put_self c v id e = ground (arith, eq_iff c.command_id id)

put_other :
    (c : Command) (v : Snapshot) (id : String)
    → (c.command_id == id) ≡ false
    → (put c v).commands id ≡ v.commands id
put_other c v id e = rw e

at_id :
    (v : Snapshot) (i j : String) {o : Option Command} → i ≡ j → v.commands i ≡ o → v.commands j ≡ o
at_id v i j e h = rw (← e) h

some_eq : (c d : Command) → some c ≡ some d → c ≡ d
some_eq c d h = cc

pub Step-Moved : {v u : Snapshot} (id : String) → Step v u → Moved (v.commands id) (u.commands id)
Step-Moved {v} id (admit c free fresh) = elim (Bool-cases (c.command_id == id)) [
  | inl e ↦
      let same = (eq_iff _ _).0 e in created c (at_id v _ id same free) (put_self c v id same) fresh
  | inr e ↦ kept (put_other c v id e)
]
Step-Moved {v} id (update c c' found move closed) = elim (Bool-cases (c'.command_id == id)) [
  | inl e ↦
      let same = (eq_iff _ _).0 e in
      moved c c' (at_id v _ id (sym (Transition-SameRequest move).command_id ∙ same) found)
        (put_self c' v id same) move
  | inr e ↦ kept (put_other c' v id e)
]
Step-Moved id (report c event found open_ same) = kept refl
Step-Moved id (conclude c result found pending terminal same) = kept refl

Moved-terminal :
    {o o' : Option Command} {c : Command}
    → Moved o o'
    → o ≡ some c
    → is_terminal_command_status c.status ≡ true
    → o' ≡ some c
Moved-terminal (kept e) h t = e ∙ h
Moved-terminal (created c n s f) h t = cc
Moved-terminal (moved c c' p q move) h t = ground (arith, Transition-pending move)

-- A command with a terminal status is never changed again.
pub terminal_absorbs :
    {v u : Snapshot} (id : String) {c : Command}
    → Steps v u
    → v.commands id ≡ some c
    → is_terminal_command_status c.status ≡ true
    → u.commands id ≡ some c
terminal_absorbs id here h t = h
terminal_absorbs id (next path step) h t =
    Moved-terminal (Step-Moved id step) (terminal_absorbs id path h t) t

Moved-SameRequest :
    {o o' : Option Command} (c : Command)
    → Moved o o'
    → o ≡ some c
    → (c' : Command) × (o' ≡ some c') × SameRequest c c'
Moved-SameRequest c (kept e) h = (c, e ∙ h, SameRequest-refl c)
Moved-SameRequest c (created d n s f) h = absurd (ground arith)
Moved-SameRequest c (moved d d' p q move) h =
    (d', q, subst (λ x. SameRequest x d') (some_eq d c (sym p ∙ h)) (Transition-SameRequest move))

-- A command stays stored, and what was requested stays as it was.
pub request_kept :
    {v u : Snapshot} (id : String) (c : Command)
    → Steps v u
    → v.commands id ≡ some c
    → (c' : Command) × (u.commands id ≡ some c') × SameRequest c c'
request_kept id c here h = (c, h, SameRequest-refl c)
request_kept id c (next path step) h =
    let (b, hb, p) = request_kept id c path h in
    let (d, hd, q) = Moved-SameRequest b (Step-Moved id step) hb in (d, hd, SameRequest-trans p q)

-- The time stamps tell how far a command has come.
pub record IsStamped (c : Command) : Type 0 where
  pub queued_unsent : c.status ≡ queued → c.sent_at ≡ none
  pub sent_stamped : c.status ≢ queued → c.status ≢ canceled → c.sent_at ≢ none
  pub acked_stamped :
      c.status ≢ queued
      → c.status ≢ sent
      → c.status ≢ ack_timed_out
      → c.status ≢ canceled
      → c.acked_at ≢ none
  pub terminal_stamped : is_terminal_command_status c.status ≡ true → c.terminal_at ≢ none
  pub pending_unstamped : is_terminal_command_status c.status ≡ false → c.terminal_at ≡ none

pub Transition-IsStamped : {c c' : Command} → Transition c c' → IsStamped c → IsStamped c'
Transition-IsStamped (deliver t deadline h e) s = ground arith
Transition-IsStamped (accept t reported h e) s = ground arith
Transition-IsStamped (reject t reported h e) s = ground arith
Transition-IsStamped (miss_ack t h late e) s = ground arith
Transition-IsStamped (progress t h e) s = ground arith
Transition-IsStamped (finish status t h k e) s = ground arith
Transition-IsStamped (abort t h e) s = ground arith

IsFresh-IsStamped : {c : Command} → IsFresh c → IsStamped c
IsFresh-IsStamped f = ground arith

Moved-IsStamped :
    {o o' : Option Command}
    → Moved o o'
    → ((c : Command) → o ≡ some c → IsStamped c)
    → (c : Command) → o' ≡ some c
    → IsStamped c
Moved-IsStamped (kept e) all c h = all c (sym e ∙ h)
Moved-IsStamped (created d n s f) all c h =
    subst IsStamped (some_eq d c (sym s ∙ h)) (IsFresh-IsStamped f)
Moved-IsStamped (moved d d' p q move) all c h =
    subst IsStamped (some_eq d' c (sym q ∙ h)) (Transition-IsStamped move (all d p))

-- Stamps stay right for everything that is stored.
pub stamps_kept :
    {v u : Snapshot} (id : String)
    → Steps v u
    → ((c : Command) → v.commands id ≡ some c → IsStamped c)
    → (c : Command) → u.commands id ≡ some c
    → IsStamped c
stamps_kept id here all = all
stamps_kept id (next path step) all = Moved-IsStamped (Step-Moved id step) (stamps_kept id path all)

mem-append_left {ℓ} : {A : Type ℓ} {x : A} (xs ys : List A) → Memᴰ x xs → Memᴰ x (xs ++ ys)
mem-append_left [] ys m = elim m [ ]
mem-append_left (y ∷ xs) ys (Memᴰ.head e) = Memᴰ.head e
mem-append_left (y ∷ xs) ys (Memᴰ.tail m) = Memᴰ.tail (mem-append_left xs ys m)

abbrev pub AllConcluded : Snapshot → Type 0
AllConcluded v =
    (id : String) (c : Command)
    → v.commands id ≡ some c
    → is_terminal_command_status c.status ≡ true
    → HasResult v c

HasResult-same_results :
    {v u : Snapshot} {c : Command} → u.results ≡ v.results → HasResult v c → HasResult u c
HasResult-same_results {c = c} e h = record {
  result = h.result;
  recorded = subst (Memᴰ h.result) (sym e) h.recorded;
  same_command = h.same_command;
  same_status = h.same_status;
}

Step-AllConcluded : {v u : Snapshot} → Step v u → AllConcluded v → AllConcluded u
Step-AllConcluded {v} (admit c free fresh) all id d h t = elim (Bool-cases (c.command_id == id)) [
  | inl e ↦ absurd (ground (arith, fresh.status))
  | inr e ↦ HasResult-same_results refl (all id d (sym (put_other c v id e) ∙ h) t)
]
Step-AllConcluded {v} (update c c' found move closed) all id d h t =
    elim (Bool-cases (c'.command_id == id)) [
      | inl e ↦
          let same = some_eq c' d (sym (put_self c' v id ((eq_iff _ _).0 e)) ∙ h) in
          HasResult-same_results refl (subst (HasResult v) same (closed (rw same t)))
      | inr e ↦ HasResult-same_results refl (all id d (sym (put_other c' v id e) ∙ h) t)
    ]
Step-AllConcluded (report c event found open_ same) all id d h t =
    HasResult-same_results refl (all id d h t)
Step-AllConcluded {v} (conclude c x found pending terminal same) all id d h t =
    let old = all id d h t in
    record {
      result = old.result;
      recorded = mem-append_left v.results (x ∷ []) old.recorded;
      same_command = old.same_command;
      same_status = old.same_status;
    }

-- A finished command has its result on record.
pub results_kept : {v u : Snapshot} → Steps v u → AllConcluded v → AllConcluded u
results_kept here all = all
results_kept (next path step) all = Step-AllConcluded step (results_kept path all)
