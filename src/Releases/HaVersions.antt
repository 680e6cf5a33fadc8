-- ===== src/Releases/HaVersions.antt =====
-- The catalog of Home Assistant versions and the advisories for devices:
-- backend/internal/domain/releases/ha_versions.go, over a world `W` on which the repository, the
-- provider and the clock act.
use Prim.Native.Nat.{Ordering}
use home_assistant.Base.{
  ℕ, ◌+◌, ◌*◌, String, Bool, true, false, not, ◌&&◌, ◌||◌, ◌==◌, Option, none, some, List, [], ◌∷◌,
  Error, errorf, errorw, Outcome, ok, err, Exec, returns, wrapping, reading, attempt, check, settle,
  present, ◌>>=◌, ◌>>◌, eqb, if◌then◌else◌, is_empty, trim_space,
}
use home_assistant.Base.Json
use home_assistant.Base.Json.Encode.{encode_map}
use home_assistant.Base.Time.{Time, Duration, is_zero, after, before, hour}
use home_assistant.Releases.Versions.{parse_dotted_version, compare_dotted_version}

pub data CatalogStatus : Type 0 where
  active stale unavailable : CatalogStatus
  unknown : String → CatalogStatus

pub data AdvisoryStatus : Type 0 where
  current update_available hidden : AdvisoryStatus
  unknown : String → AdvisoryStatus

pub record CoreVersionCatalog : Type 0 where
  pub catalog_key : String
  pub latest_version : String
  pub source_url : String
  pub status : CatalogStatus
  pub metadata : List ℕ
  pub fetched_at : Time
  pub expires_at : Time

pub record UpdateAdvisory : Type 0 where
  pub account_id : String
  pub site_id : String
  pub device_id : String
  pub installed_version : String
  pub latest_version : String
  pub advisory_status : AdvisoryStatus
  pub reason_code : String
  pub catalog_fetched_at : Option Time
  pub observed_at : Time

pub record AdvisoryRequest : Type 0 where
  pub account_id : String
  pub site_id : String
  pub device_id : String
  pub installed_version : String
  pub observed_at : Time

pub record Repository (W : Type 0) : Type 0 where
  pub save_core_catalog : CoreVersionCatalog → Exec W (Unit {0})
  pub get_core_catalog : String → Exec W CoreVersionCatalog
  pub upsert_advisory : UpdateAdvisory → Exec W (Unit {0})

pub record Service (W : Type 0) : Type 0 where
  pub repository : Option (Repository W)
  pub provider : Option (Exec W CoreVersionCatalog)
  pub clock : Option (W → Time × W)
  pub wall_clock : W → Time × W
  pub ttl : Duration

abbrev catalog_stable : String
catalog_stable = "stable"

abbrev pub is_active : CatalogStatus → Bool
is_active active = true
is_active _ = false

abbrev pub normalize_json : List ℕ → List ℕ
normalize_json [] = Json.empty_object
normalize_json (c ∷ rest) = c ∷ rest

unfoldable pub parse_error : Outcome (List ℕ) → Option Error
parse_error (ok values) = none
parse_error (err e) = some (errorw "latest Home Assistant version is ambiguous" e)

abbrev pub or_error : Option Error → Option Error → Option Error
or_error none second = second
or_error (some e) second = some e

unfoldable pub status_error : CoreVersionCatalog → CatalogStatus → Option Error
unfolding parse_error
status_error catalog active =
    if is_empty (trim_space catalog.latest_version)
    then some (errorf "latest Home Assistant version is required for active catalog" [])
    else parse_error (parse_dotted_version catalog.latest_version)
status_error catalog stale = none
status_error catalog unavailable = none
status_error catalog (CatalogStatus.unknown s) =
    some (errorf "unsupported Home Assistant catalog status %q" (s ∷ []))

unfoldable pub validate_catalog : CoreVersionCatalog → Option Error
unfolding status_error
validate_catalog catalog =
    if not (catalog.catalog_key == catalog_stable)
    then some (errorf "unsupported Home Assistant version catalog %q" (catalog.catalog_key ∷ []))
    else or_error (status_error catalog catalog.status) (
        if Json.valid catalog.metadata
        then none
        else some (errorf "Home Assistant catalog metadata must be valid JSON" []))

unfoldable pub validate_advisory_base : UpdateAdvisory → Option Error
validate_advisory_base a =
    if is_empty a.account_id || is_empty a.site_id || is_empty a.device_id
    then some (errorf "account_id, site_id, and device_id are required" [])
    else none

unfoldable pub catalog_usable : CoreVersionCatalog → Time → Bool
catalog_usable catalog now =
    if not (is_active catalog.status)
    then false
    else if is_empty (trim_space catalog.latest_version)
    then false
    else is_zero catalog.expires_at || before now catalog.expires_at || eqb now catalog.expires_at

abbrev pub unavailable_catalog : Time → Duration → CoreVersionCatalog
unavailable_catalog now ttl = record {
  catalog_key = catalog_stable;
  latest_version = "";
  source_url = "";
  status = unavailable;
  metadata = encode_map (("reason_code", "provider_unavailable") ∷ []);
  fetched_at = now;
  expires_at = now + ttl;
}

-- `HACoreVersionCatalog{}`
abbrev pub empty_catalog : CoreVersionCatalog
empty_catalog = record {
  catalog_key = "";
  latest_version = "";
  source_url = "";
  status = CatalogStatus.unknown "";
  metadata = [];
  fetched_at = 0;
  expires_at = 0;
}

-- a catalog beside an error
abbrev pub Answer : Type 0
Answer = CoreVersionCatalog × Option Error

abbrev key_or_stable : String → String
key_or_stable key = if is_empty key then catalog_stable else key

abbrev fetched_or : Time → Time → Time
fetched_or fetched now = if is_zero fetched then now else fetched

-- the catalog that a provider gave, as it is stored
unfoldable pub fetched_catalog : CoreVersionCatalog → Time → Duration → CoreVersionCatalog
fetched_catalog catalog now ttl = record {
  catalog_key = key_or_stable (trim_space catalog.catalog_key);
  latest_version = trim_space catalog.latest_version;
  source_url = trim_space catalog.source_url;
  status = active;
  metadata = normalize_json catalog.metadata;
  fetched_at = fetched_or catalog.fetched_at now;
  expires_at =
      if is_zero catalog.expires_at
      then fetched_or catalog.fetched_at now + ttl
      else catalog.expires_at;
}

abbrev pub base_advisory : AdvisoryRequest → Time → UpdateAdvisory
base_advisory req now = record {
  account_id = trim_space req.account_id;
  site_id = trim_space req.site_id;
  device_id = trim_space req.device_id;
  installed_version = trim_space req.installed_version;
  latest_version = "";
  advisory_status = hidden;
  reason_code = "no_advisory";
  catalog_fetched_at = none;
  observed_at = fetched_or req.observed_at now;
}

unfoldable pub unusable : Time → UpdateAdvisory → CoreVersionCatalog → UpdateAdvisory
unusable now base catalog = record base {
  latest_version = trim_space catalog.latest_version;
  reason_code =
      if is_active catalog.status && after now catalog.expires_at
      then "catalog_stale"
      else "catalog_unavailable";
  catalog_fetched_at = if is_zero catalog.fetched_at then none else some catalog.fetched_at;
}

unfoldable pub compared : UpdateAdvisory → Outcome Ordering → UpdateAdvisory
compared base (err e) = record base { reason_code = "installed_version_ambiguous" }
compared base (ok Ordering.lt) = record base {
  advisory_status = update_available;
  reason_code = "ha_core_update_available";
}
compared base (ok _) = record base { advisory_status = current; reason_code = "ha_core_current" }

-- the advisory that `AdvisoryForInstalled` saves, from what the repository gave
unfoldable pub advisory_from : Time → UpdateAdvisory → Outcome CoreVersionCatalog → UpdateAdvisory
unfolding unusable
advisory_from now base (err e) = record base { reason_code = "catalog_missing" }
advisory_from now base (ok catalog) =
    let known = record base {
      latest_version = catalog.latest_version;
      catalog_fetched_at = some catalog.fetched_at;
    } in
    if not (catalog_usable catalog now)
    then unusable now base catalog
    else if is_empty base.installed_version
    then record known { reason_code = "installed_version_missing" }
    else compared known (compare_dotted_version base.installed_version catalog.latest_version)

module _ {W : Type 0} where
  abbrev pub refuse : Error → W → Answer × W
  refuse e w = ((empty_catalog, some e), w)

  unfoldable pub now : Service W → W → Time × W
  now s = elim s.clock [ none ↦ s.wall_clock | some clock ↦ clock ]

  unfoldable pub ttl_of : Service W → Duration
  ttl_of s = if is_zero s.ttl then 24 * hour else s.ttl

  -- what the provider gave, unless the validation has an error
  abbrev pub save_unless : Option Error → Repository W → CoreVersionCatalog → W → Answer × W
  save_unless (some e) repository catalog w = refuse e w
  save_unless none repository catalog w =
      settle (repository.save_core_catalog catalog w)
        (λ e w'. refuse (errorw "save Home Assistant version catalog" e) w')
        (λ _ w'. ((catalog, none), w'))

  -- after the provider: where it an unavailable catalog is saved and returned beside its error
  unfoldable pub save_fetched :
      Service W → Repository W → Time → Outcome CoreVersionCatalog → W → Answer × W
  save_fetched s repository t (err e) w =
      let catalog = unavailable_catalog t (ttl_of s) in
      settle (repository.save_core_catalog catalog w)
        (λ d w'.
          refuse (errorw "fetch latest Home Assistant version, save unavailable catalog" e) w')
        (λ _ w'. ((catalog, some (errorw "fetch latest Home Assistant version" e)), w'))
  save_fetched s repository t (ok fetched) w =
      let catalog = fetched_catalog fetched t (ttl_of s) in
      save_unless (validate_catalog catalog) repository catalog w

  unfoldable pub refresh_from :
      Service W → Option (Repository W) → Option (Exec W CoreVersionCatalog) → W → Answer × W
  refresh_from s none provider w =
      refuse (errorf "Home Assistant version repository is required" []) w
  refresh_from s (some repository) none w =
      refuse (errorf "Home Assistant version provider is required" []) w
  refresh_from s (some repository) (some provider) w =
      let (t, w') = now s w in
      let (fetched, w'') = provider w' in save_fetched s repository t fetched w''

  unfoldable pub refresh_latest_stable : Service W → W → Answer × W
  unfolding refresh_from
  refresh_latest_stable s w = refresh_from s s.repository s.provider w

  unfoldable pub save_advisory : Repository W → UpdateAdvisory → Exec W UpdateAdvisory
  save_advisory repository advisory = do
    wrapping "save Home Assistant update advisory" (repository.upsert_advisory advisory)
    returns advisory

  unfoldable pub advisory_for_installed : Service W → AdvisoryRequest → Exec W UpdateAdvisory
  advisory_for_installed s req = do
    repository ← present s.repository (errorf "Home Assistant version repository is required" [])
    t ← reading (now s)
    check (validate_advisory_base (base_advisory req t))
    found ← attempt (repository.get_core_catalog catalog_stable)
    save_advisory repository (advisory_from t (base_advisory req t) found)
