-- ===== src/Releases/Advisories.antt =====
-- When a device is told of a newer Home Assistant, and what a refreshed catalog is.
use Prim.Native.Nat.{Ordering}
use home_assistant.Base.{
  ℕ, ◌≤◌, String, Bool, true, false, not, none, some, List, ◌≡◌, ◌↔◌, ◌⊎◌, inl, inr, refl, sym, ap,
  ◌∙◌, subst, arith, Outcome, ok, err, Option, Error, Exec, returns, relabel, continue, check,
  ◌>>=◌, ◌>>◌, if◌then◌else◌, is_empty, trim_space, Bool-cases,
}
use home_assistant.Base.Time.{Time, is_zero}
use home_assistant.Releases.Versions.{
  part, parse_dotted_version, compare_values, compare_outcomes, compare_dotted_version,
}
use home_assistant.Releases.Order.{Below, Decides, compare_values-Decides, Decides-unique}
use home_assistant.Releases.Clocks.{IsClock, now_lem}
use home_assistant.Releases.HaVersions.{
  CatalogStatus, active, stale, unavailable, update_available, hidden, CoreVersionCatalog,
  UpdateAdvisory, AdvisoryRequest, Repository, Service, validate_advisory_base, is_active, unusable,
  catalog_usable, base_advisory, compared, advisory_from, now, save_advisory,
  advisory_for_installed,
}

-- The one version is parsed, so is the other, and it is below it.
pub record IsOlder (installed latest : String) : Type 0 where
  pub values : List ℕ
  pub latest_values : List ℕ
  pub parsed : parse_dotted_version installed ≡ ok values
  pub latest_parsed : parse_dotted_version latest ≡ ok latest_values
  pub below : Below (part values) (part latest_values)

abbrev answered : Outcome Ordering → Ordering
answered (ok o) = o
answered (err e) = Ordering.eq

ok_eq {ℓ} : {A : Type ℓ} {a b : A} → ok a ≡ ok b → a ≡ b
ok_eq h = cc

compared_outcomes :
    (p q : Outcome (List ℕ))
    → compare_outcomes p q ≡ ok Ordering.lt
    → (l : List ℕ) × (r : List ℕ) × (p ≡ ok l) × (q ≡ ok r) × (compare_values l r ≡ Ordering.lt)
compared_outcomes (err e) q h = absurd cc
compared_outcomes (ok l) (err e) h = absurd cc
compared_outcomes (ok l) (ok r) h = (l, r, refl, refl, ap answered h)

compare-IsOlder :
    (installed latest : String)
    → compare_dotted_version installed latest ≡ ok Ordering.lt
    → IsOlder installed latest
unfolding compare_dotted_version
compare-IsOlder installed latest h =
    let (l, r, p, q, less) =
      compared_outcomes (parse_dotted_version installed) (parse_dotted_version latest) h in
    record {
      values = l;
      latest_values = r;
      parsed = p;
      latest_parsed = q;
      below = subst (λ o. Decides o (part l) (part r)) less (compare_values-Decides l r);
    }

IsOlder-compare :
    (installed latest : String)
    → IsOlder installed latest
    → compare_dotted_version installed latest ≡ ok Ordering.lt
unfolding compare_dotted_version
IsOlder-compare installed latest h =
    rw (h.parsed, h.latest_parsed)
      (ap ok (
        Decides-unique (part h.values) (part h.latest_values) _ Ordering.lt
          (compare_values-Decides h.values h.latest_values) h.below))

-- The catalog that was found is active and in time, and its version is newer than the installed one.
pub record Outdated (t : Time) (installed : String) (found : Outcome CoreVersionCatalog)
    : Type 0 where
  pub catalog : CoreVersionCatalog
  pub answer : found ≡ ok catalog
  pub active : catalog.status ≡ active
  pub named : is_empty (trim_space catalog.latest_version) ≡ false
  pub in_time : (catalog.expires_at ≡ 0) ⊎ (t ≤ catalog.expires_at)
  pub present : is_empty (trim_space installed) ≡ false
  pub older : IsOlder (trim_space installed) catalog.latest_version

is_active_lem : (s : CatalogStatus) → is_active s ≡ true → s ≡ active
is_active_lem active h = refl
is_active_lem stale h = absurd (ground arith)
is_active_lem unavailable h = absurd (ground arith)
is_active_lem (CatalogStatus.unknown s) h = absurd (ground arith)

in_time_lem :
    (t : Time) (c : CoreVersionCatalog)
    → catalog_usable c t ≡ true
    → (c.expires_at ≡ 0) ⊎ (t ≤ c.expires_at)
unfolding catalog_usable
in_time_lem t c h = elim (Bool-cases (is_zero c.expires_at)) [
  | inl e ↦ inl (ground arith)
  | inr e ↦ inr (ground arith)
]

usable_lem :
    (t : Time) (c : CoreVersionCatalog)
    → c.status ≡ active
    → is_empty (trim_space c.latest_version) ≡ false
    → (c.expires_at ≡ 0) ⊎ (t ≤ c.expires_at)
    → catalog_usable c t ≡ true
unfolding catalog_usable
usable_lem t c a n (inl e) = rw (a, n, e) refl
usable_lem t c a n (inr e) = rw (a, n) (ground arith)

compared_lem :
    (base : UpdateAdvisory) (o : Outcome Ordering)
    → base.advisory_status ≡ hidden
    → (compared base o).advisory_status ≡ update_available
    → o ≡ ok Ordering.lt
unfolding compared
compared_lem base (err e) b h = absurd cc
compared_lem base (ok Ordering.lt) b h = refl
compared_lem base (ok Ordering.eq) b h = absurd cc
compared_lem base (ok Ordering.gt) b h = absurd cc

gates_lem :
    (u p : Bool) (x y z : UpdateAdvisory)
    → x.advisory_status ≡ hidden
    → y.advisory_status ≡ hidden
    → (if not u then x else if p then y else z).advisory_status ≡ update_available
    → (u ≡ true) × (p ≡ false) × (z.advisory_status ≡ update_available)
gates_lem true true x y z hx hy h = absurd cc
gates_lem true false x y z hx hy h = (refl, refl, h)
gates_lem false p x y z hx hy h = absurd cc

advisory-Outdated :
    (t : Time) (req : AdvisoryRequest) (o : Outcome CoreVersionCatalog)
    → (advisory_from t (base_advisory req t) o).advisory_status ≡ update_available
    → Outdated t req.installed_version o
unfolding advisory_from unusable catalog_usable
advisory-Outdated t req (err e) h = absurd cc
advisory-Outdated t req (ok c) h =
    let (e, d, u) =
      gates_lem (catalog_usable c t) (is_empty (trim_space req.installed_version)) _ _ _ refl refl
        h in
    record {
      catalog = c;
      answer = refl;
      active = is_active_lem c.status (ground arith);
      named = ground arith;
      in_time = in_time_lem t c e;
      present = d;
      older = compare-IsOlder _ _ (
          compared_lem _
            (compare_dotted_version (trim_space req.installed_version) c.latest_version) refl u);
    }

Outdated-advisory :
    (t : Time) (req : AdvisoryRequest) (o : Outcome CoreVersionCatalog)
    → Outdated t req.installed_version o
    → (advisory_from t (base_advisory req t) o).advisory_status ≡ update_available
unfolding advisory_from compared
Outdated-advisory t req o h =
    let usable = usable_lem t h.catalog h.active h.named h.in_time in
    rw (h.answer, usable, h.present, IsOlder-compare _ _ h.older) refl

-- The advisory for an installed version says that an update is available exactly if the catalog that
-- was found is active, names a version and has not expired, an installed version is given, both
-- versions parse, and the installed one is less at the first part where they differ.
pub advisory_from_iff :
    (t : Time) (req : AdvisoryRequest) (o : Outcome CoreVersionCatalog)
    → ((advisory_from t (base_advisory req t) o).advisory_status ≡ update_available)
      ↔ Outdated t req.installed_version o
advisory_from_iff t req o = (advisory-Outdated t req o, Outdated-advisory t req o)

save_advisory_lem :
    {W : Type 0} (r : Repository W) (a b : UpdateAdvisory) (w : W)
    → (save_advisory r a w).0 ≡ ok b
    → a ≡ b
unfolding save_advisory ◌>>=◌
save_advisory_lem r a b w h = saved_lem (r.upsert_advisory a w).0 (r.upsert_advisory a w).1 h
  where
    saved_lem :
        {W : Type 0} (o : Outcome (Unit {0})) (u : W)
        → (continue (relabel "save Home Assistant update advisory" o) (λ _. returns a) u).0 ≡ ok b
        → a ≡ b
    saved_lem (ok x) u h = ok_eq h
    saved_lem (err e) u h = absurd cc

checked_lem :
    {W : Type 0} (o : Option Error) (m : Exec W UpdateAdvisory) (w : W) (a : UpdateAdvisory)
    → ((check o >> m) w).0 ≡ ok a
    → (m w).0 ≡ ok a
unfolding ◌>>=◌
checked_lem none m w a h = h
checked_lem (some e) m w a h = absurd cc

module _ {W : Type 0} (s : Service W) (r : Repository W) (is_repository : s.repository ≡ some r)
    (clock : W → Time × W) (is_clock : IsClock s clock) where
  advisory_for_installed_lem :
      (req : AdvisoryRequest) (w : W) (a : UpdateAdvisory)
      → (advisory_for_installed s req w).0 ≡ ok a
      → advisory_from
          (now s w).0
          (base_advisory req (now s w).0)
          (r.get_core_catalog "stable" (now s w).1).0
        ≡ a
  unfolding advisory_for_installed ◌>>=◌ now
  advisory_for_installed_lem req w a h =
      let (t, u) = now s w in
      let advice = base_advisory req t in
      save_advisory_lem r _ a (r.get_core_catalog "stable" u).1 (
        checked_lem (validate_advisory_base advice)
          (λ x.
            save_advisory r (advisory_from t advice (r.get_core_catalog "stable" x).0)
              (r.get_core_catalog "stable" x).1)
          u a (rw is_repository at h))

  -- An advisory that AdvisoryForInstalled returns says that an update is available exactly if the
  -- repository, asked for the stable catalog after the clock was read, answered with a catalog that is
  -- active, names a version and has not expired at that time, an installed version is given, both
  -- versions parse, and the installed one is less at the first part where they differ.
  pub advisory_for_installed-Outdated :
      (req : AdvisoryRequest) (w : W) (a : UpdateAdvisory)
      → (advisory_for_installed s req w).0 ≡ ok a
      → (a.advisory_status ≡ update_available)
        ↔ Outdated (clock w).0 req.installed_version (r.get_core_catalog "stable" (clock w).1).0
  advisory_for_installed-Outdated req w a h =
      let e = ap (λ x. x.advisory_status) (advisory_for_installed_lem req w a h) in
      subst
        (λ (c : W → Time × W).
          (a.advisory_status ≡ update_available)
          ↔ Outdated (c w).0 req.installed_version (r.get_core_catalog "stable" (c w).1).0)
        (now_lem s clock is_clock)
        (
          (λ k. advisory-Outdated (now s w).0 req _ (e ∙ k)),
          (λ k. sym e ∙ Outdated-advisory (now s w).0 req _ k),
        )
