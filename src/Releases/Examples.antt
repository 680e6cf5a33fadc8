-- ===== src/Releases/Examples.antt =====
-- Runs of the version comparison and of the advisories, and the theorems at them.
use Prim.Native.Nat.{Ordering}
use home_assistant.Base.{
  ℕ, true, none, some, List, [], ◌∷◌, ◌≡◌, ◌↔◌, refl, inl, errorw, ◌>>=◌, trim_space, Option,
  errorf, ok, err, Exec,
}
use home_assistant.Base.Split.{split}
use home_assistant.Base.Json
use home_assistant.Releases.Versions.{
  trim_prefix, without_suffix, digits_from, atoi, parse_parts, parse_dotted_version, compare_parts,
  compare_values, compare_dotted_version, version_within, part,
}
use home_assistant.Releases.Order.{Decides, compare_values-Decides}
use home_assistant.Releases.HaVersions
use home_assistant.Releases.HaVersions.{
  active, update_available, CoreVersionCatalog, UpdateAdvisory, AdvisoryRequest, Repository,
  Service, base_advisory, advisory_from, refresh_latest_stable, advisory_for_installed,
}
use home_assistant.Releases.Advisories.{
  Outdated, advisory_from_iff, advisory_for_installed-Outdated,
}
use home_assistant.Releases.Catalog.{IsRefreshed, refresh_latest_stable-IsRefreshed}

-- What a run computes through.
machinery : ℕ
unfolding trim_space trim_prefix without_suffix split digits_from atoi parse_parts
    parse_dotted_version compare_parts compare_values compare_dotted_version version_within
    HaVersions.validate_catalog HaVersions.status_error HaVersions.parse_error
    HaVersions.validate_advisory_base HaVersions.catalog_usable HaVersions.fetched_catalog
    HaVersions.unusable HaVersions.compared HaVersions.advisory_from HaVersions.now
    HaVersions.ttl_of HaVersions.refresh_from HaVersions.save_fetched
    HaVersions.refresh_latest_stable HaVersions.save_advisory HaVersions.advisory_for_installed
    Json.valid ◌>>=◌
machinery = 0

parsed_run : parse_dotted_version " v2024.12.1-beta " ≡ ok (2_024 ∷ 12 ∷ 1 ∷ [])
unfolding machinery
parsed_run = refl

padded_run : compare_dotted_version "2024.12" "2024.12.0" ≡ ok Ordering.eq
unfolding machinery
padded_run = refl

within_run : version_within "1.5" "1.2" "1.10" ≡ ok true
unfolding machinery
within_run = refl

record World : Type 0 where
  catalog : Option CoreVersionCatalog
  advisories : List UpdateAdvisory

abbrev get_catalog : Option CoreVersionCatalog → Exec World CoreVersionCatalog
get_catalog none w = (err (errorf "not found" []), w)
get_catalog (some c) w = (ok c, w)

abbrev repository : Repository World
repository = record {
  save_core_catalog = λ c w. (ok tt, record w { catalog = some c });
  get_core_catalog = λ key w. get_catalog w.catalog w;
  upsert_advisory = λ a w. (ok tt, record w { advisories = a ∷ w.advisories });
}

abbrev catalog : CoreVersionCatalog
catalog = record {
  catalog_key = "stable";
  latest_version = "2024.12.1";
  source_url = "";
  status = active;
  metadata = Json.empty_object;
  fetched_at = 500;
  expires_at = 5_000;
}

abbrev service : Service World
service = record {
  repository = some repository;
  provider = some (λ w. (ok catalog, w));
  clock = some (λ w. (1_000, w));
  wall_clock = λ w. (1_000, w);
  ttl = 0;
}

abbrev world : World
world = record { catalog = some catalog; advisories = [] }

abbrev request : AdvisoryRequest
request = record {
  account_id = "a1";
  site_id = "s1";
  device_id = "d1";
  installed_version = "2024.11.3";
  observed_at = 900;
}

abbrev advisory : UpdateAdvisory
advisory = record {
  account_id = "a1";
  site_id = "s1";
  device_id = "d1";
  installed_version = "2024.11.3";
  latest_version = "2024.12.1";
  advisory_status = update_available;
  reason_code = "ha_core_update_available";
  catalog_fetched_at = some 500;
  observed_at = 900;
}

advised_run :
    advisory_for_installed service request world
    ≡ (ok advisory, record world { advisories = advisory ∷ [] })
unfolding machinery
advised_run = refl

advisory_run : (advisory_for_installed service request world).0 ≡ ok advisory
unfolding machinery
advisory_run = refl

refreshed_run : (refresh_latest_stable service world).0 ≡ (catalog, none)
unfolding machinery
refreshed_run = refl

missed_run :
    (refresh_latest_stable
      (record service { provider = some (λ w. (err (errorf "offline" []), w)) })
      world).0
    ≡ (
      HaVersions.unavailable_catalog 1_000 86_400_000_000_000,
      some (errorw "fetch latest Home Assistant version" (errorf "offline" [])),
    )
unfolding machinery
missed_run = refl

compare_values-Decides_example :
    Decides
      (compare_values (1 ∷ 2 ∷ []) (1 ∷ 2 ∷ 4 ∷ []))
      (part (1 ∷ 2 ∷ []))
      (part (1 ∷ 2 ∷ 4 ∷ []))
compare_values-Decides_example = compare_values-Decides (1 ∷ 2 ∷ []) (1 ∷ 2 ∷ 4 ∷ [])

advisory_from_iff_example :
    ((advisory_from 1_000 (base_advisory request 1_000) (ok catalog)).advisory_status
      ≡ update_available)
    ↔ Outdated 1_000 "2024.11.3" (ok catalog)
advisory_from_iff_example = advisory_from_iff 1_000 request (ok catalog)

advisory_for_installed-Outdated_example :
    (advisory.advisory_status ≡ update_available) ↔ Outdated 1_000 "2024.11.3" (ok catalog)
advisory_for_installed-Outdated_example =
    advisory_for_installed-Outdated service repository refl (λ w. (1_000, w)) (inl refl) request
      world advisory advisory_run

refresh_latest_stable-IsRefreshed_example :
    IsRefreshed service 1_000 world (refresh_latest_stable service world).0
refresh_latest_stable-IsRefreshed_example =
    refresh_latest_stable-IsRefreshed service world (λ w. (1_000, w)) (inl refl)
