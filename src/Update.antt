-- ===== src/Update.antt =====
-- apps/api/internal/update/checker.go: the check for a newer release, its cache and the spacing of the
-- calls of the API that it asks.
pub mod Versions
pub mod Coherence
use proxy_core.Base.{
  ℕ, ◌+◌, ◌*◌, ◌≤◌, Bool, true, false, not, Option, none, some, String, if◌then◌else◌, ltb, leb,
  ◌==◌, ◌&&◌, ◌||◌, List, [], ◌∷◌,
}
use proxy_core.Base.Texts.{Text, is_empty, trim_space}
use proxy_core.Update.Versions.{
  SemanticVersion, Comparison, less, equal, greater, normalize_version, parse_sem_ver,
  compare_sem_ver,
}

-- The values of `Status`.
pub data Status : Type 0 where
  current : Status
  update_available : Status
  stale : Status
  unavailable : Status
  disabled : Status

-- Instants are nanoseconds.
pub record Release : Type 0 where
  pub version : Text
  pub tag : Text
  pub url : Text
  pub published_at : Option ℕ

-- `UpdateInProgress` and `TargetVersion`, which the checker leaves alone, are not in the model.
pub record CheckResult : Type 0 where
  pub status : Status
  pub current_version : Text
  pub latest : Option Release
  pub is_available : Bool
  pub checked_at : Option ℕ

-- `last_forced` is `none` for the zero time; `in_flight` says whether a call of the API is running.
pub record Checker : Type 0 where
  pub current_version : Text
  pub enabled : Bool
  pub ttl : ℕ
  pub cached : Option CheckResult
  pub expires : ℕ
  pub in_flight : Bool
  pub last_forced : Option ℕ

abbrev pub second : ℕ
second = 1_000_000_000

abbrev pub default_ttl : ℕ
default_ttl = 6 * 60 * 60 * second

abbrev pub min_forced_refresh_interval : ℕ
min_forced_refresh_interval = 10 * second

-- `NewChecker`: zero stands for every time to live that is not positive.
unfoldable pub new_checker : Text → Bool → ℕ → Checker
new_checker version enabled ttl = record {
  current_version = normalize_version version;
  enabled = enabled;
  ttl = if ttl == 0 then default_ttl else ttl;
  cached = none;
  expires = 0;
  in_flight = false;
  last_forced = none;
}

-- What the API answers, once it is decoded.
pub record GithubRelease : Type 0 where
  pub tag_name : Text
  pub html_url : Text
  pub published_at : Option ℕ

abbrev pub has_prerelease : SemanticVersion → Bool
has_prerelease v = not (is_empty v.prerelease)

abbrev of_payload : GithubRelease → Option SemanticVersion → Option Release
of_payload p none = none
of_payload p (some parsed) =
    if has_prerelease parsed || is_empty (trim_space p.tag_name) || is_empty (trim_space p.html_url)
    then none
    else some (record {
      version = normalize_version (trim_space p.tag_name);
      tag = trim_space p.tag_name;
      url = trim_space p.html_url;
      published_at = p.published_at;
    })

-- The end of `fetchLatestRelease`; `none` is an error, of the call or of what it answers.
unfoldable pub latest_release : Option GithubRelease → Option Release
latest_release none = none
latest_release (some p) = of_payload p (parse_sem_ver (normalize_version (trim_space p.tag_name)))

abbrev pub is_greater : Comparison → Bool
is_greater less = false
is_greater equal = false
is_greater greater = true

abbrev compared :
    Text → Release → ℕ → Option SemanticVersion → Option SemanticVersion → Option CheckResult
compared version latest now none _ = none
compared version latest now (some v) none = none
compared version latest now (some v) (some w) =
    if has_prerelease w
    then none
    else some (record {
      status = if is_greater (compare_sem_ver w v) then update_available else current;
      current_version = version;
      latest = some latest;
      is_available = is_greater (compare_sem_ver w v);
      checked_at = some now;
    })

unfoldable pub result_for : Text → Release → ℕ → Option CheckResult
result_for version latest now =
    compared version latest now (parse_sem_ver version) (parse_sem_ver latest.version)

abbrev is_known : CheckResult → Bool
is_known r = elim r.latest [
  | none ↦ false
  | some l ↦ elim r.checked_at [ none ↦ false | some t ↦ true ]
]

-- What is answered without the API.
unfoldable pub fallback_result : Text → Option CheckResult → CheckResult
fallback_result version (some r) = if is_known r then record r { status = stale } else r
fallback_result version none = record {
  status = unavailable;
  current_version = version;
  latest = none;
  is_available = false;
  checked_at = none;
}

abbrev pub failure_ttl : Checker → ℕ
failure_ttl c = if ltb c.ttl (5 * 60 * second) then c.ttl else 5 * 60 * second

abbrev fresh_or_fallback : ℕ → Checker → Option CheckResult → CheckResult
fresh_or_fallback now c none = fallback_result c.current_version none
fresh_or_fallback now c (some r) =
    if ltb now c.expires then r else fallback_result c.current_version (some r)

unfoldable pub throttled_result : ℕ → Checker → CheckResult
throttled_result now c = fresh_or_fallback now c c.cached

-- How a call of `lookup` goes on after its first part, which holds the lock: it has its answer, it
-- waits for the call of the API that is running, or it calls the API, with the cache as it was.
pub data Begun : Type 0 where
  answered : CheckResult → Begun
  waits : Option CheckResult → Begun
  fetches : Option CheckResult → Begun

abbrev pub is_fresh : ℕ → Checker → Bool
is_fresh now c = elim c.cached [ none ↦ false | some r ↦ ltb now c.expires ]

abbrev pub is_throttled : ℕ → Option ℕ → Bool
is_throttled now none = false
is_throttled now (some last) = ltb now (last + min_forced_refresh_interval)

abbrev pub fetch : Bool → ℕ → Checker → Checker
fetch force now c = record c {
  in_flight = true;
  last_forced = if force then some now else c.last_forced;
}

abbrev pub disabled_result : Text → CheckResult
disabled_result version = record {
  status = disabled;
  current_version = version;
  latest = none;
  is_available = false;
  checked_at = none;
}

unfoldable pub begin_lookup : Bool → ℕ → Checker → Checker × Begun
begin_lookup force now c =
    if not c.enabled
    then (c, answered (disabled_result c.current_version))
    else if not force && is_fresh now c
    then (c, answered (throttled_result now c))
    else if c.in_flight
    then (c, waits c.cached)
    else if force && is_throttled now c.last_forced
    then (c, answered (throttled_result now c))
    else (fetch force now c, fetches c.cached)

abbrev conclude : ℕ → Option CheckResult → Checker → Option CheckResult → Checker × CheckResult
conclude now before c (some r) =
    (record c { cached = some r; expires = now + c.ttl; in_flight = false }, r)
conclude now before c none =
    let r = fallback_result c.current_version before in
    (record c { cached = some r; expires = now + failure_ttl c; in_flight = false }, r)

abbrev fetched_result : Text → ℕ → Option Release → Option CheckResult
fetched_result version now none = none
fetched_result version now (some latest) = result_for version latest now

-- The last part of `lookup`, after the call of the API.
unfoldable pub finish_lookup :
    ℕ → Option CheckResult → Option GithubRelease → Checker → Checker × CheckResult
finish_lookup now before payload c =
    conclude now before c (fetched_result c.current_version now (latest_release payload))

-- A caller that waited and whose context ended first.
abbrev pub give_up : Option CheckResult → Checker → CheckResult
give_up before c = fallback_result c.current_version before
