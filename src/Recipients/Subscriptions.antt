-- ===== src/Recipients/Subscriptions.antt =====
-- The subscriptions of a recipient, and which recipients an alert goes to
-- (backend/internal/domain/alerting/recipients.go).
use home_assistant.Base.{
  Bool, true, false, List, [], ◌∷◌, ◌==◌, ◌&&◌, ◌||◌, not, is_empty, trim_space, if◌then◌else◌,
}
use home_assistant.Alerting.Model.{Alert}
use home_assistant.Recipients.Model.{
  SubscriptionFamily, AlertSubscription, AlertRecipient, is_verified, is_valid_subscription_family,
  all_subscription_families,
}

unfoldable pub seen : List SubscriptionFamily → SubscriptionFamily → Bool
seen [] family = false
seen (f ∷ fs) family = f == family || seen fs family

-- the loop of `normalizeSubscriptions`, from the families that it has seen
unfoldable pub subscriptions_from :
    List SubscriptionFamily → List SubscriptionFamily → List AlertSubscription
subscriptions_from known [] = []
subscriptions_from known (raw ∷ families) =
    let family = trim_space raw in
    let skipped = subscriptions_from known families in
    let added = subscriptions_from (family ∷ known) families in
    if not (is_valid_subscription_family family) || seen known family
    then skipped
    else record { family = family; enabled = true } ∷ added

abbrev pub or_all : List SubscriptionFamily → List SubscriptionFamily
or_all [] = all_subscription_families
or_all (f ∷ fs) = f ∷ fs

unfoldable pub normalize_subscriptions : List SubscriptionFamily → List AlertSubscription
normalize_subscriptions families = subscriptions_from [] (or_all families)

unfoldable pub subscription_enabled : List AlertSubscription → SubscriptionFamily → Bool
subscription_enabled [] family = false
subscription_enabled (s ∷ rest) family =
    s.family == family && s.enabled || subscription_enabled rest family

unfoldable pub is_eligible : Alert → SubscriptionFamily → AlertRecipient → Bool
is_eligible alert family r =
    if not (is_verified r.status) || not (r.channel == "email")
    then false
    else if not (is_empty r.site_id) && not (r.site_id == alert.site_id)
    then false
    else subscription_enabled r.subscriptions family

-- the loop of `EligibleRecipients`
unfoldable pub eligible_from :
    Alert → SubscriptionFamily → List AlertRecipient → List AlertRecipient
eligible_from alert family [] = []
eligible_from alert family (r ∷ rest) =
    let others = eligible_from alert family rest in
    if is_eligible alert family r then r ∷ others else others
