-- ===== src/Recipients/Selection.antt =====
-- What the normalised subscriptions and the eligible recipients are.
use mathlib.Core.List.{Memᴰ}
use mathlib.Core.Bool.{false≢true}
use home_assistant.Base.{
  and_true, String, Bool, true, false, List, [], ◌∷◌, map, ◌≡◌, ◌↔◌, ◌⊎◌, inl, inr, refl, sym, ◌∙◌,
  ap, subst, ◌==◌, ◌&&◌, ◌||◌, not, arith, eq_iff, eq_refl, trim_space, is_empty, if◌then◌else◌,
  Bool-cases,
}
use home_assistant.Alerting.Model.{Alert}
use home_assistant.Recipients.Model.{
  SubscriptionFamily, AlertSubscription, AlertRecipient, verified, is_valid_subscription_family,
}
use home_assistant.Recipients.Subscriptions.{
  seen, subscriptions_from, or_all, normalize_subscriptions, subscription_enabled, is_eligible,
  eligible_from,
}

subscription_enabled-subscriptions_from :
    (known families : List SubscriptionFamily) (f : SubscriptionFamily)
    → subscription_enabled (subscriptions_from known families) f
      ≡ (is_valid_subscription_family f && not (seen known f) && seen (map trim_space families) f)
unfolding subscription_enabled subscriptions_from seen
subscription_enabled-subscriptions_from known [] f = ground arith
subscription_enabled-subscriptions_from known (raw ∷ families) f = ground (
  arith,
  eq_iff (trim_space raw) f,
  subscription_enabled-subscriptions_from known families f,
  subscription_enabled-subscriptions_from (trim_space raw ∷ known) families f,
)

-- No family is subscribed to twice, and each that is there is enabled and valid.
abbrev pub IsNormal : List AlertSubscription → Type 0
IsNormal [] = Unit
IsNormal (s ∷ rest) =
    (s.enabled ≡ true)
    × (is_valid_subscription_family s.family ≡ true)
    × (subscription_enabled rest s.family ≡ false)
    × IsNormal rest

subscribed_once :
    (known families : List SubscriptionFamily) (f : SubscriptionFamily)
    → subscription_enabled (subscriptions_from (f ∷ known) families) f ≡ false
unfolding seen
subscribed_once known families f =
    ground (arith, eq_refl f, subscription_enabled-subscriptions_from (f ∷ known) families f)

subscriptions_from-IsNormal :
    (known families : List SubscriptionFamily) → IsNormal (subscriptions_from known families)
unfolding subscriptions_from
subscriptions_from-IsNormal known [] = tt
subscriptions_from-IsNormal known (raw ∷ families) =
    added_lem (not (is_valid_subscription_family (trim_space raw)) || seen known (trim_space raw))
      refl (subscriptions_from-IsNormal known families)
      (subscriptions_from-IsNormal (trim_space raw ∷ known) families)
  where
    added_lem :
        (b : Bool)
        → (not (is_valid_subscription_family (trim_space raw)) || seen known (trim_space raw)) ≡ b
        → IsNormal (subscriptions_from known families)
        → IsNormal (subscriptions_from (trim_space raw ∷ known) families)
        → IsNormal (
            if b
            then subscriptions_from known families
            else (record { family = trim_space raw; enabled = true }
                ∷ subscriptions_from (trim_space raw ∷ known) families))
    added_lem true e h k = h
    added_lem false e h k = (refl, ground arith, subscribed_once known families (trim_space raw), k)

-- Every normalised list of subscriptions is normal.
pub normalize_subscriptions-IsNormal :
    (families : List SubscriptionFamily) → IsNormal (normalize_subscriptions families)
unfolding normalize_subscriptions
normalize_subscriptions-IsNormal families = subscriptions_from-IsNormal [] (or_all families)

-- Who gets an alert of a family.
pub record Receives (alert : Alert) (family : SubscriptionFamily) (r : AlertRecipient)
    : Type 0 where
  pub status : r.status ≡ verified
  pub channel : r.channel ≡ "email"
  pub site : (r.site_id ≡ "") ⊎ (r.site_id ≡ alert.site_id)
  pub subscribed :
      (x : AlertSubscription) × Memᴰ x r.subscriptions × (x.family ≡ family) × (x.enabled ≡ true)

is_empty_lem : (s : String) → is_empty s ≡ true → s ≡ ""
is_empty_lem String.[] h = refl
is_empty_lem (String.◌∷◌ c s) h = cc

eligible_site :
    (alert : Alert) (r : AlertRecipient)
    → (not (is_empty r.site_id) && not (r.site_id == alert.site_id)) ≡ false
    → (r.site_id ≡ "") ⊎ (r.site_id ≡ alert.site_id)
eligible_site alert r h = elim (Bool-cases (is_empty r.site_id)) [
  | inl e ↦ inl (is_empty_lem r.site_id e)
  | inr e ↦ inr ((eq_iff r.site_id alert.site_id).0 (ground arith))
]

site_eligible :
    (alert : Alert) (r : AlertRecipient)
    → (r.site_id ≡ "") ⊎ (r.site_id ≡ alert.site_id)
    → (not (is_empty r.site_id) && not (r.site_id == alert.site_id)) ≡ false
site_eligible alert r (inl e) =
    let empty : is_empty r.site_id ≡ true = ap is_empty e in ground arith
site_eligible alert r (inr e) =
    let same : (r.site_id == alert.site_id) ≡ true = (eq_iff _ _).1 e in ground arith

-- Subscriptions that enable a family, as ones of a list.
Subscribed : SubscriptionFamily → List AlertSubscription → Type 0
Subscribed family l = (x : AlertSubscription) × Memᴰ x l × (x.family ≡ family) × (x.enabled ≡ true)

enabled-Subscribed :
    (l : List AlertSubscription) (family : SubscriptionFamily)
    → subscription_enabled l family ≡ true
    → Subscribed family l
unfolding subscription_enabled Subscribed
enabled-Subscribed [] family h = absurd cc
enabled-Subscribed (x ∷ l) family h = elim (Bool-cases (x.family == family && x.enabled)) [
  | inl e ↦
      (let (same, on) = and_true (x.family == family) x.enabled e in
        (x, Memᴰ.head refl, (eq_iff x.family family).0 same, on))
  | inr e ↦
      (let (y, m, same, on) = enabled-Subscribed l family (rw e at h) in (y, Memᴰ.tail m, same, on))
]

Subscribed-enabled :
    (l : List AlertSubscription) (family : SubscriptionFamily)
    → Subscribed family l
    → subscription_enabled l family ≡ true
unfolding subscription_enabled Subscribed
Subscribed-enabled [] family (x, m, e, h) = elim m [ ]
Subscribed-enabled (y ∷ l) family (x, Memᴰ.head same, e, h) =
    rw (sym same, (eq_iff x.family family).1 e, h) refl
Subscribed-enabled (y ∷ l) family (x, Memᴰ.tail m, e, h) =
    rw (Subscribed-enabled l family (x, m, e, h)) (ground arith)

is_eligible-Receives :
    (alert : Alert) (family : SubscriptionFamily) (r : AlertRecipient)
    → is_eligible alert family r ≡ true
    → Receives alert family r
unfolding is_eligible Subscribed
is_eligible-Receives alert family r h = record {
  status = ground arith;
  channel = (eq_iff r.channel "email").0 (ground arith);
  site = eligible_site alert r (ground arith);
  subscribed = enabled-Subscribed r.subscriptions family (ground arith);
}

Receives-is_eligible :
    (alert : Alert) (family : SubscriptionFamily) (r : AlertRecipient)
    → Receives alert family r
    → is_eligible alert family r ≡ true
unfolding is_eligible Subscribed
Receives-is_eligible alert family r h = ground (
  arith,
  h.status,
  Subscribed-enabled r.subscriptions family h.subscribed,
  (eq_iff r.channel "email").1 h.channel,
  site_eligible alert r h.site,
)

-- Members of a list with an element that is kept or not.
member_lem :
    {A : Type 0} (p : A → Bool) (r x : A) (l kept : List A) (b : Bool)
    → p x ≡ b
    → (Memᴰ r kept → Memᴰ r l × (p r ≡ true))
    → Memᴰ r (if b then x ∷ kept else kept)
    → Memᴰ r (x ∷ l) × (p r ≡ true)
member_lem p r x l kept true e ih (Memᴰ.head same) =
    (Memᴰ.head same, subst (λ y. p y ≡ true) (sym same) e)
member_lem p r x l kept true e ih (Memᴰ.tail m) = (Memᴰ.tail (ih m).0, (ih m).1)
member_lem p r x l kept false e ih m = (Memᴰ.tail (ih m).0, (ih m).1)

kept_lem :
    {A : Type 0} (p : A → Bool) (r x : A) (l kept : List A) (b : Bool)
    → p x ≡ b
    → p r ≡ true
    → (Memᴰ r l → Memᴰ r kept)
    → Memᴰ r (x ∷ l)
    → Memᴰ r (if b then x ∷ kept else kept)
kept_lem p r x l kept true e h ih (Memᴰ.head same) = Memᴰ.head same
kept_lem p r x l kept true e h ih (Memᴰ.tail m) = Memᴰ.tail (ih m)
kept_lem p r x l kept false e h ih (Memᴰ.head same) =
    absurd (false≢true (sym e ∙ ap p (sym same) ∙ h))
kept_lem p r x l kept false e h ih (Memᴰ.tail m) = ih m

module _ (alert : Alert) (family : SubscriptionFamily) (r : AlertRecipient) where
  of_eligible :
      (l : List AlertRecipient)
      → Memᴰ r (eligible_from alert family l)
      → Memᴰ r l × (is_eligible alert family r ≡ true)
  unfolding eligible_from
  of_eligible [] m = elim m [ ]
  of_eligible (x ∷ l) m =
      member_lem (is_eligible alert family) r x l (eligible_from alert family l)
        (is_eligible alert family x) refl (of_eligible l) m

  eligible_of :
      (l : List AlertRecipient)
      → is_eligible alert family r ≡ true
      → Memᴰ r l
      → Memᴰ r (eligible_from alert family l)
  unfolding eligible_from
  eligible_of [] h m = elim m [ ]
  eligible_of (x ∷ l) h m =
      kept_lem (is_eligible alert family) r x l (eligible_from alert family l)
        (is_eligible alert family x) refl h (eligible_of l h) m

  -- A recipient is chosen from a list exactly if it is in the list, is verified, is reached by email,
  -- is for every site or for the site of the alert, and has an enabled subscription to the family.
  pub eligible_from_iff :
      (l : List AlertRecipient)
      → Memᴰ r (eligible_from alert family l) ↔ (Memᴰ r l × Receives alert family r)
  eligible_from_iff l = (
    λ m. ((of_eligible l m).0, is_eligible-Receives alert family r (of_eligible l m).1),
    λ m. eligible_of l (Receives-is_eligible alert family r m.1) m.0,
  )
