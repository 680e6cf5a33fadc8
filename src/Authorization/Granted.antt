-- ===== src/Authorization/Granted.antt =====
-- When an action is allowed.
use mathlib.Core.List.{Memᴰ}
use home_assistant.Base.{
  eq_iff, ◌≢◌, not, [], ◌∷◌, String, Bool, true, false, ◌&&◌, some, List, and_true, ◌==◌, ◌≡◌, ◌↔◌,
  refl, sym, ◌∙◌, ap, inl, inr, is_empty, Exec, ok, ◌>>=◌, Bool-cases, arith,
}
use home_assistant.Authorization.Service.{
  Subject, Resource, Service, valid_action, is_listed, denied, decision, decide, can,
}
use home_assistant.Authorization.Actions.{IsAction, valid-IsAction, IsAction-valid}

listed_lem : (action : String) (l : List String) → is_listed action l ≡ true → Memᴰ action l
unfolding is_listed
listed_lem action [] h = absurd cc
listed_lem action (x ∷ l) h = elim (Bool-cases (x == action)) [
  | inl e ↦ Memᴰ.head (sym ((eq_iff x action).0 e))
  | inr e ↦ Memᴰ.tail (listed_lem action l (rw e at h))
]

member_lem : (action : String) (l : List String) → Memᴰ action l → is_listed action l ≡ true
unfolding is_listed
member_lem action [] m = elim m [ ]
member_lem action (x ∷ l) (Memᴰ.head same) = rw ((eq_iff x action).1 (sym same)) refl
member_lem action (x ∷ l) (Memᴰ.tail m) = rw (member_lem action l m) (ground arith)

-- Who may do what: a user with an id, by a permission that names the action.
pub record IsGranted (subject : Subject) (action : String) (permissions : List String)
    : Type 0 where
  pub well_formed : IsAction action
  pub user : subject.type ≡ "user"
  pub identified : subject.id ≢ ""
  pub listed : Memᴰ action permissions

empty_lem : (s : String) → is_empty s ≡ false → s ≢ ""
empty_lem s h e = let bad : false ≡ true = sym h ∙ ap is_empty e in cc

named_lem : (s : String) → s ≢ "" → is_empty s ≡ false
named_lem String.[] h = absurd (h refl)
named_lem (String.◌∷◌ c s) h = refl

-- The checks of `Can` before it asks the repository, and the look for the action in the answer.
decided : Subject → String → List String → Bool
decided subject action permissions =
    valid_action action
    && (subject.type == "user")
    && not (is_empty subject.id)
    && is_listed action permissions

decided_lem :
    (subject : Subject) (action : String) (permissions : List String)
    → (decided subject action permissions ≡ true) ↔ IsGranted subject action permissions
unfolding decided
decided_lem subject action permissions = (
  λ h.
      let (front, listed) = and_true _ _ h in
      let (front, identified) = and_true _ _ front in
      let (valid, user) = and_true _ _ front in
      record {
        well_formed = valid-IsAction action valid;
        user = (eq_iff subject.type "user").0 user;
        identified = empty_lem subject.id (ground arith);
        listed = listed_lem action permissions listed;
      },
  λ h.
      rw
        (
          IsAction-valid action h.well_formed,
          (eq_iff subject.type "user").1 h.user,
          named_lem subject.id h.identified,
          member_lem action permissions h.listed,
        )
        refl,
)

granted_eq : (b : Bool) → ok (decision b) ≡ ok (decision true) → b ≡ true
granted_eq true h = refl
granted_eq false h = absurd cc

ungranted : (reason : String) → ok (denied reason) ≡ ok (decision true) → ⊥
ungranted reason h = cc

module _ {W : Type 0} (s : Service W) (list : String → String → String → Exec W (List String))
    (subject : Subject) (action : String) (resource : Resource) (permissions : List String)
    (w : W) where
  decide_lem :
      s.auth ≡ some list
      → (list subject.id resource.account_id resource.site_id w).0 ≡ ok permissions
      → (decide s subject action resource w).0 ≡ ok (decision (is_listed action permissions))
  unfolding decide ◌>>=◌
  decide_lem e h = rw (e, h) refl

  can_lem :
      s.auth ≡ some list
      → (list subject.id resource.account_id resource.site_id w).0 ≡ ok permissions
      → ((can s subject action resource w).0 ≡ ok (decision true))
        ↔ (decided subject action permissions ≡ true)
  unfolding can decided
  can_lem e h = elim (Bool-cases (valid_action action)) [
    | inr f ↦ rw f (λ k. absurd (ungranted _ k), λ k. absurd cc)
    | inl f ↦ elim (Bool-cases (subject.type == "user")) [
      | inr g ↦ rw (f, g) (λ k. absurd (ungranted _ k), λ k. absurd cc)
      | inl g ↦ elim (Bool-cases (is_empty subject.id)) [
        | inl i ↦ rw (f, g, i) (λ k. absurd (ungranted _ k), λ k. absurd cc)
        | inr i ↦
            rw (f, g, i)
              (
                λ k. granted_eq _ (sym (decide_lem e h) ∙ k),
                λ k. decide_lem e h ∙ ap (λ b. ok (decision b)) k,
              )
      ]
    ]
  ]

  -- Where the repository answers with the permissions of the user in the account and the site, an action
  -- is granted exactly where it is two words that a colon joins, each a small letter with small letters,
  -- digits and underscores after it, the subject is a user with an id, and the action is one of the
  -- permissions.
  pub can-IsGranted :
      s.auth ≡ some list
      → (list subject.id resource.account_id resource.site_id w).0 ≡ ok permissions
      → ((can s subject action resource w).0
          ≡ ok (record { allowed = true; reason = "permission_granted" }))
        ↔ IsGranted subject action permissions
  can-IsGranted e h =
      let granted = decided_lem subject action permissions in
      (λ k. granted.0 ((can_lem e h).0 k), λ k. (can_lem e h).1 (granted.1 k))
