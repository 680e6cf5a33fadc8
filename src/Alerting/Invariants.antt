-- ===== src/Alerting/Invariants.antt =====
-- What holds along every path of the abstract lifecycle of alerts.
use home_assistant.Base.{
  String, false, Option, none, some, ◌≡◌, ◌≤◌, ◌⊎◌, inl, inr, refl, sym, ◌∙◌, subst, ap, arith,
  ◌==◌, eq_iff, Bool-cases,
}
use home_assistant.Base.Simulation.{Steps, here, next}
use home_assistant.Alerting.Model.{Status, Alert, active}
use home_assistant.Alerting.Lifecycle.{
  Snapshot, put, NoneActive, Change, repeat, acknowledge, snooze, close, Step, intake, raise,
  change, tell,
}

-- What no update of an alert changes, and that its occurrences are never forgotten.
pub record SameAlert (a b : Alert) : Type 0 where
  pub alert_id : b.alert_id ≡ a.alert_id
  pub alert_key : b.alert_key ≡ a.alert_key
  pub account_id : b.account_id ≡ a.account_id
  pub site_id : b.site_id ≡ a.site_id
  pub device_id : b.device_id ≡ a.device_id
  pub family : b.family ≡ a.family
  pub first_candidate_id : b.first_candidate_id ≡ a.first_candidate_id
  pub created_at : b.created_at ≡ a.created_at
  pub occurrences : a.occurrence_count ≤ b.occurrence_count

SameAlert-refl : (a : Alert) → SameAlert a a
SameAlert-refl a = ground arith

SameAlert-trans : {a b c : Alert} → SameAlert a b → SameAlert b c → SameAlert a c
SameAlert-trans p q = ground arith

Change-SameAlert : {a b : Alert} → Change a b → SameAlert a b
Change-SameAlert (repeat severity title detail reason candidate t h e) = ground arith
Change-SameAlert (acknowledge user t e) = ground arith
Change-SameAlert (snooze until earlier t h e) = ground arith
Change-SameAlert (close candidate reason t h e) = ground arith

Change-active : {a b : Alert} → Change a b → b.status ≡ active → a.status ≡ active
Change-active (repeat severity title detail reason candidate t h e) k = h
Change-active (acknowledge user t e) k = ground arith
Change-active (snooze until earlier t h e) k = ground arith
Change-active (close candidate reason t h e) k = absurd (ground arith)

-- A resolved alert takes acknowledgements and snoozes, and nothing else.
pub record StaysResolved (a b : Alert) : Type 0 where
  pub status : b.status ≡ Status.resolved
  pub resolved_at : b.resolved_at ≡ a.resolved_at
  pub reason_code : b.reason_code ≡ a.reason_code
  pub occurrence_count : b.occurrence_count ≡ a.occurrence_count
  pub last_candidate_id : b.last_candidate_id ≡ a.last_candidate_id

Change-StaysResolved : {a b : Alert} → Change a b → a.status ≡ Status.resolved → StaysResolved a b
Change-StaysResolved (repeat severity title detail reason candidate t h e) k = absurd (ground arith)
Change-StaysResolved (acknowledge user t e) k = ground arith
Change-StaysResolved (snooze until earlier t h e) k = ground arith
Change-StaysResolved (close candidate reason t h e) k = absurd (h k)

StaysResolved-trans : {a b c : Alert} → StaysResolved a b → StaysResolved b c → StaysResolved a c
StaysResolved-trans p q = ground arith

some_eq : (a b : Alert) → some a ≡ some b → a ≡ b
some_eq a b h = cc

at_id : (v : Snapshot) (i j : String) {o : Option Alert} → i ≡ j → v.alerts i ≡ o → v.alerts j ≡ o
at_id v i j e h = rw (← e) h

put_self : (a : Alert) (v : Snapshot) (id : String) → a.alert_id ≡ id → (put a v).alerts id ≡ some a
put_self a v id e = ground (arith, eq_iff a.alert_id id)

put_other :
    (a : Alert) (v : Snapshot) (id : String)
    → (a.alert_id == id) ≡ false
    → (put a v).alerts id ≡ v.alerts id
put_other a v id e = rw e

-- the id of the alert that a step raises
raised_id : {v u : Snapshot} → Step v u → Option String
raised_id (intake c new) = none
raised_id (raise a free alone is_active one) = some a.alert_id
raised_id (change a b found move) = none
raised_id (tell a event found same) = none

-- What is stored under an id after a step that raises an alert under the id `n`, if any.
data Moved (v : Snapshot) (n : Option String) (id : String) (o : Option Alert) : Type 0 where
  kept : o ≡ v.alerts id → Moved v n id o
  raised :
      (a : Alert)
      → v.alerts id ≡ none
      → o ≡ some a
      → NoneActive a.alert_key v
      → n ≡ some id
      → Moved v n id o
  changed : (a b : Alert) → v.alerts id ≡ some a → o ≡ some b → Change a b → Moved v n id o

Step-Moved :
    {v u : Snapshot} (id : String) (step : Step v u) → Moved v (raised_id step) id (u.alerts id)
unfolding raised_id
Step-Moved id (intake c new) = kept refl
Step-Moved {v} id (raise a free alone is_active one) = elim (Bool-cases (a.alert_id == id)) [
  | inl e ↦
      let same = (eq_iff _ _).0 e in
      raised a (at_id v _ id same free) (put_self a v id same) alone (ap some same)
  | inr e ↦ kept (put_other a v id e)
]
Step-Moved {v} id (change a b found move) = elim (Bool-cases (b.alert_id == id)) [
  | inl e ↦
      let same = (eq_iff _ _).0 e in
      changed a b (at_id v _ id (sym (Change-SameAlert move).alert_id ∙ same) found)
        (put_self b v id same) move
  | inr e ↦ kept (put_other b v id e)
]
Step-Moved id (tell a event found same) = kept refl

-- Two active alerts with one key are one.
abbrev pub UniqueActive : Snapshot → Type 0
UniqueActive v =
    (i j : String) (a b : Alert)
    → v.alerts i ≡ some a
    → v.alerts j ≡ some b
    → a.status ≡ active
    → b.status ≡ active
    → a.alert_key ≡ b.alert_key
    → i ≡ j

-- Where an active alert comes from.
abbrev Origin : Snapshot → Option String → String → Alert → Type 0
Origin v n id b =
    ((a : Alert) × (v.alerts id ≡ some a) × (a.status ≡ active) × (a.alert_key ≡ b.alert_key))
    ⊎ ((NoneActive b.alert_key v) × (n ≡ some id))

Moved-Origin :
    (v : Snapshot) (n : Option String) {o : Option Alert} (id : String) (b : Alert)
    → Moved v n id o
    → o ≡ some b
    → b.status ≡ active
    → Origin v n id b
Moved-Origin v n id b (kept e) h k = inl (b, sym e ∙ h, k, refl)
Moved-Origin v n id b (raised a free e alone same) h k =
    subst (Origin v n id) (some_eq a b (sym e ∙ h)) (inr (alone, same))
Moved-Origin v n id b (changed a c found e move) h k =
    let same = some_eq c b (sym e ∙ h) in
    inl (
      a,
      found,
      Change-active move (subst (λ x. x.status ≡ active) (sym same) k),
      sym (Change-SameAlert move).alert_key ∙ ap (λ x. x.alert_key) same,
    )

some_text_eq : (a b : String) → some a ≡ some b → a ≡ b
some_text_eq a b h = cc

Origins-eq :
    (v : Snapshot) (n : Option String) (i j : String) (a b : Alert)
    → UniqueActive v
    → a.alert_key ≡ b.alert_key
    → Origin v n i a
    → Origin v n j b
    → i ≡ j
Origins-eq v n i j a b unique key (inl x) (inl y) =
    unique i j x.0 y.0 x.1 y.1 x.2 y.2 (x.3 ∙ key ∙ sym y.3)
Origins-eq v n i j a b unique key (inl x) (inr y) = absurd (y.0 i x.0 x.1 x.2 (x.3 ∙ key))
Origins-eq v n i j a b unique key (inr x) (inl y) = absurd (x.0 j y.0 y.1 y.2 (y.3 ∙ sym key))
Origins-eq v n i j a b unique key (inr x) (inr y) = some_text_eq i j (sym x.1 ∙ y.1)

Step-UniqueActive : {v u : Snapshot} → Step v u → UniqueActive v → UniqueActive u
Step-UniqueActive {v} step unique i j a b ha hb ka kb key =
    Origins-eq v (raised_id step) i j a b unique key
      (Moved-Origin v (raised_id step) i a (Step-Moved i step) ha ka)
      (Moved-Origin v (raised_id step) j b (Step-Moved j step) hb kb)

-- At no time are there two active alerts with one key.
pub UniqueActive-Steps : {v u : Snapshot} → Steps Step v u → UniqueActive v → UniqueActive u
UniqueActive-Steps here unique = unique
UniqueActive-Steps (next path step) unique = Step-UniqueActive step (UniqueActive-Steps path unique)

Moved-SameAlert :
    (v : Snapshot) (n : Option String) {o : Option Alert} (id : String) (a : Alert)
    → Moved v n id o
    → v.alerts id ≡ some a
    → (b : Alert) × (o ≡ some b) × SameAlert a b × (a.status ≡ Status.resolved → StaysResolved a b)
Moved-SameAlert v n id a (kept e) h = (a, e ∙ h, SameAlert-refl a, λ r. ground arith)
Moved-SameAlert v n id a (raised b free e alone same) h = absurd (ground arith)
Moved-SameAlert v n id a (changed c b found e move) h =
    let same = some_eq c a (sym found ∙ h) in
    let move' = subst (λ x. Change x b) same move in
    (b, e, Change-SameAlert move', Change-StaysResolved move')

-- An alert stays stored, is the same alert, and if it is resolved it stays so.
pub alert_kept :
    {v u : Snapshot} (id : String) (a : Alert)
    → Steps Step v u
    → v.alerts id ≡ some a
    → (b : Alert) × (u.alerts id ≡ some b)
      × SameAlert a b
      × (a.status ≡ Status.resolved → StaysResolved a b)
alert_kept id a here h = (a, h, SameAlert-refl a, λ r. ground arith)
alert_kept id a (next {u = u} path step) h =
    let (b, hb, p, r) = alert_kept id a path h in
    let (c, hc, q, t) = Moved-SameAlert u (raised_id step) id b (Step-Moved id step) hb in
    (c, hc, SameAlert-trans p q, λ k. StaysResolved-trans (r k) (t (r k).status))
