-- ===== src/Recipients/Contracts.antt =====
-- What the operations on recipients do to what is stored, on every path.
use mathlib.Core.Option.{some-injective}
use home_assistant.Base.{
  String, Bool, true, false, Option, none, some, ◌≡◌, refl, arith, if◌then◌else◌, ◌||◌, is_empty,
  Error, Outcome, ok, err, Exec, reading, ensure, wrapping, returns, present, relabel, ap, ◌⊎◌, inl,
  inr, Bool-cases, eq_iff, continue, subst, ◌∙◌, ◌>>=◌, ◌>>◌,
}
use home_assistant.Base.Ensures.{
  Settles, Ensures, Ensures-returns, Ensures-present, Ensures-wrapping, Ensures-ensure,
  Ensures-bind, Ensures-fact, Ensures-lift, Ensures-mono,
}
use home_assistant.Base.Simulation.{Shows, Quiet, Quiet-Ensures, check-Ensures}
use home_assistant.Base.Time.{Time}
use home_assistant.Recipients.Model.{
  RecipientStatus, status_text, is_settable, verified, pending_verification, AlertRecipient,
  CreateRecipientRequest, UpdateRecipientRequest, DeleteRecipientRequest,
}
use home_assistant.Recipients.Service.{
  Repository, Service, now, authorize, new_recipient_id, normalize_email, is_same_email,
  is_own_email, validate_recipient, new_recipient, updated, removed, create_recipient,
  update_recipient, delete_recipient,
}
use home_assistant.Recipients.Laws.{
  Stored, put, RepositoryLaws, ServiceLaws, Granted, IsUpdate, IsDeletion, IsCreation, Leaves,
}

status_lem :
    (asked old : RecipientStatus)
    → (is_empty (status_text asked) || is_settable asked) ≡ true
    → ((if is_empty (status_text asked) then old else asked) ≡ old)
      ⊎ (((if is_empty (status_text asked) then old else asked) ≡ asked)
          × (is_settable (if is_empty (status_text asked) then old else asked) ≡ true))
status_lem asked old h = elim (Bool-cases (is_empty (status_text asked))) [
  | inl e ↦ inl (rw e)
  | inr e ↦ inr (rw e (refl, ground arith))
]

own_lem :
    (o : Outcome (String × String)) (normalized : String)
    → is_same_email o normalized ≡ true
    → (email : String) × (o ≡ ok (email, normalized))
own_lem (ok (email, n)) normalized h = (email, ap (λ x. ok (email, x)) ((eq_iff n normalized).0 h))
own_lem (err e) normalized h = absurd (ground arith)

creation_status_lem :
    {W : Type 0} (s : Service W) (req : CreateRecipientRequest) (email normalized : String)
    (t : Time)
    → ((if is_own_email s.mail req normalized then verified else pending_verification) ≡ verified
        × (if is_own_email s.mail req normalized then some t else none) ≡ some t
        × (req.actor_email_verified ≡ true)
        × ((x : String) × (normalize_email s.mail req.actor_email ≡ ok (x, normalized))))
      ⊎ ((if is_own_email s.mail req normalized then verified else pending_verification)
            ≡ pending_verification
          × (if is_own_email s.mail req normalized then some t else none) ≡ none)
unfolding is_own_email
creation_status_lem s req email normalized t =
    elim (Bool-cases (is_own_email s.mail req normalized)) [
      | inl e ↦ inl (
        rw e refl,
        rw e refl,
        ground arith,
        own_lem (normalize_email s.mail req.actor_email) normalized (ground arith),
      )
      | inr e ↦ inr (rw e refl, rw e refl)
    ]

creation_lem :
    {W : Type 0} (s : Service W) (req : CreateRecipientRequest) (id email normalized : String)
    (t : Time)
    → Granted s req.actor_user_id req.account_id req.site_id
    → is_empty id ≡ false
    → normalize_email s.mail req.email ≡ ok (email, normalized)
    → validate_recipient (new_recipient s.mail req id email normalized t) ≡ none
    → IsCreation s req (new_recipient s.mail req id email normalized t)
unfolding new_recipient
creation_lem s req id email normalized t granted named parsed valid = record {
  granted = granted;
  identified = named;
  account = refl;
  site = refl;
  address = parsed;
  valid = valid;
  subscriptions = refl;
  status = creation_status_lem s req email normalized t;
}

asked_cases :
    {W P : Type 0} (view : W → Stored) (v : Stored) (message : String) (e : Error)
    (r : Outcome Bool) (w : W)
    → (r ≡ ok true → P)
    → view w ≡ v
    → Settles
        (λ _ u. P × (view u ≡ v))
        (Shows view v)
        (continue (relabel message r) (λ allowed. ensure allowed e) w).0
        (continue (relabel message r) (λ allowed. ensure allowed e) w).1
asked_cases view v message e (ok true) w p h = (p refl, h)
asked_cases view v message e (ok false) w p h = h
asked_cases view v message e (err x) w p h = h

asked_of :
    {W : Type 0} (f g : String → String → String → Exec W Bool) (a b c : String)
    → some f ≡ some g
    → (w : W) × ((f a b c w).0 ≡ ok true)
    → (w : W) × ((g a b c w).0 ≡ ok true)
asked_of f g a b c e q = (q.0, subst (λ h. (h a b c q.0).0 ≡ ok true) (some-injective _ _ e) q.1)

module _ {W : Type 0} (view : W → Stored) (s : Service W) (laws : ServiceLaws view s)
    (v : Stored) where
  now_lem : (o : Option (W → Time × W)) → s.clock ≡ o → Quiet view (now s)
  unfolding now
  now_lem none e w = rw (e, now) (laws.wall_clock_lem w)
  now_lem (some f) e w = rw (e, now) (laws.clock_lem f e w)

  asked_lem :
      (f : String → String → String → Exec W Bool) (a b c message : String) (e : Error)
      → s.authorization ≡ some f
      → Ensures
          (Shows view v)
          (λ _ w. ((u : W) × ((f a b c u).0 ≡ ok true)) × (view w ≡ v))
          (Shows view v)
          (do allowed ← wrapping message (f a b c); ensure allowed e)
  unfolding ◌>>=◌
  asked_lem f a b c message e h = record {
    at = λ w p.
        asked_cases view v message e (f a b c w).0 (f a b c w).1 (λ yes. (w, yes))
          (laws.authorization_lem f a b c h w ∙ p);
  }

  authorized_lem :
      (o : Option (String → String → String → Exec W Bool)) (actor account site : String)
      → s.authorization ≡ o
      → Ensures
          (Shows view v)
          (λ _ w. Granted s actor account site × (view w ≡ v))
          (Shows view v)
          (authorize s actor account site)
  unfolding authorize
  authorized_lem none actor account site e =
      rw (e, authorize)
        (Ensures-bind (Ensures-ensure _ _ (λ w p. p)) λ _. Ensures-fact λ named.
          Ensures-returns _ λ w p. (
            record {
              named = ground arith;
              owned = ground arith;
              allowed = λ f h. absurd (ground arith);
            },
            p,
          ))
  authorized_lem (some f) actor account site e =
      rw (e, authorize)
        (Ensures-bind (Ensures-ensure _ _ (λ w p. p)) λ _. Ensures-fact λ named.
          Ensures-mono (asked_lem f _ _ _ _ _ e) (λ w p. p)
            (λ _ w q. (
              record {
                named = ground arith;
                owned = ground arith;
                allowed = λ g h. asked_of f g _ _ _ h q.0;
              },
              q.1,
            ))
            (λ w p. p))

  -- The recipient that an update, a deletion or a creation stores, and that the world shows it.
  abbrev Writes : (AlertRecipient → Type 0) → AlertRecipient → W → Type 0
  Writes F r w = F r × (view w ≡ put r v)

  saved_lem :
      {F : AlertRecipient → Type 0} (message : String) (r : AlertRecipient)
      {repository : Repository W}
      → RepositoryLaws view repository
      → F r
      → Ensures
          (Shows view v)
          (Writes F)
          (Shows view v)
          (do wrapping message (repository.save_recipient r); returns r)
  saved_lem message r lawful f =
      Ensures-bind (Ensures-wrapping message (lawful.save_lem r v))
        λ _. Ensures-returns r λ w p. (f, p)

  repository_lem :
      (e : Error)
      → Ensures
          (Shows view v)
          (λ r w. RepositoryLaws view r × (view w ≡ v))
          (Shows view v)
          (present s.repository e)
  repository_lem e =
      Ensures-present s.repository e (λ r w h p. (laws.repository_lem r h, p)) (λ w p. p)

  now-Shows : Ensures (Shows view v) (λ _. Shows view v) (Shows view v) (now s)
  now-Shows = Quiet-Ensures view v _ (now_lem s.clock refl)

  update_recipient-Ensures :
      (req : UpdateRecipientRequest)
      → Ensures (Shows view v) (Writes (IsUpdate s v req)) (Shows view v) (update_recipient s req)
  unfolding update_recipient
  update_recipient-Ensures req = Ensures-bind (repository_lem _) λ r. Ensures-fact λ lawful.
      Ensures-bind (Ensures-wrapping _ (lawful.get_lem _ v)) λ x. Ensures-fact λ found.
        Ensures-bind (authorized_lem s.authorization _ _ _ refl) λ _. Ensures-fact λ granted.
          Ensures-bind (Ensures-ensure _ _ (λ w p. p)) λ _. Ensures-fact λ account.
            Ensures-bind (Ensures-ensure _ _ (λ w p. p)) λ _. Ensures-fact λ site.
              Ensures-bind (Ensures-ensure _ _ (λ w p. p)) λ _. Ensures-fact λ status.
                Ensures-bind now-Shows λ t. Ensures-bind (check-Ensures view v _) λ _.
                  Ensures-fact λ valid. saved_lem _ (updated req t x) lawful (record {
                    existing = x;
                    found = found;
                    granted = granted;
                    identity = ground arith;
                    valid = valid;
                    status = status_lem req.status x.status status;
                    stamps = (refl, refl, refl);
                  })

  delete_recipient-Ensures :
      (req : DeleteRecipientRequest)
      → Ensures (Shows view v) (Writes (IsDeletion s v req)) (Shows view v) (delete_recipient s req)
  unfolding delete_recipient
  delete_recipient-Ensures req = Ensures-bind (repository_lem _) λ r. Ensures-fact λ lawful.
      Ensures-bind (Ensures-wrapping _ (lawful.get_lem _ v)) λ x. Ensures-fact λ found.
        Ensures-bind (authorized_lem s.authorization _ _ _ refl) λ _. Ensures-fact λ granted.
          Ensures-bind now-Shows λ t. saved_lem _ (removed t x) lawful (record {
            existing = x;
            found = found;
            granted = granted;
            identity = ground arith;
            status = refl;
            deleted_at = refl;
          })

  id_lem :
      (o : Option (W → String × W)) (e : Error)
      → s.id_generator ≡ o
      → Ensures
          (Shows view v)
          (λ g w. Quiet view (reading g) × (view w ≡ v))
          (Shows view v)
          (present o e)
  id_lem none e h = record { at = λ w p. p }
  id_lem (some g) e h = record { at = λ w p. (laws.id_generator_lem g h, p) }

  new_recipient_id-Ensures :
      Ensures
        (Shows view v)
        (λ id w. (is_empty id ≡ false) × (view w ≡ v))
        (Shows view v)
        (new_recipient_id s)
  unfolding new_recipient_id
  new_recipient_id-Ensures = Ensures-bind (id_lem s.id_generator _ refl) λ g. Ensures-fact λ quiet.
      Ensures-bind (Quiet-Ensures view v _ quiet) λ raw.
        Ensures-bind (Ensures-ensure _ _ (λ w p. p))
          λ _. Ensures-fact λ named. Ensures-returns _ λ w p. (ground arith, p)

  create_recipient-Ensures :
      (req : CreateRecipientRequest)
      → Ensures (Shows view v) (Writes (IsCreation s req)) (Shows view v) (create_recipient s req)
  unfolding create_recipient
  create_recipient-Ensures req = Ensures-bind (repository_lem _) λ r. Ensures-fact λ lawful.
      Ensures-bind (authorized_lem s.authorization _ _ _ refl) λ _. Ensures-fact λ granted.
        Ensures-bind now-Shows λ t. Ensures-bind new_recipient_id-Ensures λ id.
          Ensures-fact λ named.
            Ensures-bind
              (Ensures-lift {Q = λ e w. (normalize_email s.mail req.email ≡ ok e) × (view w ≡ v)} _
                (λ e w h p. (h, p)) (λ w p. p))
              λ e. Ensures-fact λ parsed. Ensures-bind (check-Ensures view v _) λ _.
                Ensures-fact λ valid.
                  saved_lem _ (new_recipient s.mail req id e.0 e.1 t) lawful
                    (creation_lem s req id e.0 e.1 t granted named parsed valid)

module _ {W : Type 0} (view : W → Stored) (s : Service W) (laws : ServiceLaws view s) where
  -- UpdateRecipient, under the laws of the service: what it returns is the only recipient that it
  -- stored; it is a stored recipient whose account and site the actor may manage, with identity,
  -- address and the stamps of verification, disabling and deletion unchanged, valid, and with its
  -- status unchanged or as asked for where that may be set. An error leaves everything stored as is.
  pub update_recipient_contract :
      (req : UpdateRecipientRequest) (w : W)
      → Leaves view (view w) (IsUpdate s (view w) req) (update_recipient s req w)
  update_recipient_contract req w = (update_recipient-Ensures view s laws (view w) req).at w refl

  -- DeleteRecipient, under the laws of the service: what it returns is the only recipient that it
  -- stored; it is a stored recipient whose account and site the actor may manage, with identity and
  -- address unchanged, now deleted and stamped so. An error leaves everything stored as is.
  pub delete_recipient_contract :
      (req : DeleteRecipientRequest) (w : W)
      → Leaves view (view w) (IsDeletion s (view w) req) (delete_recipient s req w)
  delete_recipient_contract req w = (delete_recipient-Ensures view s laws (view w) req).at w refl

  -- CreateRecipient, under the laws of the service: what it returns is the only recipient that it
  -- stored; the actor may manage its account and site, it is valid, has an id, the normalised
  -- address and the normalised subscriptions of the request, and it is verified only if the actor's
  -- email is verified and normalises to the same address; else its verification is pending. An
  -- error leaves everything stored as is.
  pub create_recipient_contract :
      (req : CreateRecipientRequest) (w : W)
      → Leaves view (view w) (IsCreation s req) (create_recipient s req w)
  create_recipient_contract req w = (create_recipient-Ensures view s laws (view w) req).at w refl
