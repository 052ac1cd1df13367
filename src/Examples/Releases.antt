-- ===== src/Examples/Releases.antt =====
-- Versions, and a checker that has asked for a release.
use proxy_core.Base.{ℕ, ◌≡◌, refl, true, false, Bool, Option, none, some, List, [], ◌∷◌, codes}
use proxy_core.Base.Texts.{Text, text_eq, trim_left}
use proxy_core.Update.Versions.{
  SemanticVersion, less, compare_sem_ver, compare_prereleases, compare_lists, compare_identifiers,
  is_numeric_identifier, compare_numeric_strings,
}
use proxy_core.Update.Versions.Order.{reverse, compare_sem_ver-reverse}
use proxy_core.Update.Versions.Transitivity.{compare_sem_ver_trans}
use proxy_core.Update.{
  Checker, CheckResult, GithubRelease, new_checker, fetch, begin_lookup, finish_lookup, give_up,
  fetches, waits, answered,
}
use proxy_core.Update.Coherence.{IsCoherent, started, looked_up, fetched, Reachable-IsCoherent}

abbrev version : List Text → SemanticVersion
version identifiers = record { major = 1; minor = 4; patch = 0; prerelease = identifiers }

abbrev rc2 : SemanticVersion
rc2 = version (codes "rc" ∷ codes "2" ∷ [])

abbrev rc10 : SemanticVersion
rc10 = version (codes "rc" ∷ codes "10" ∷ [])

reverse_example : compare_sem_ver rc10 rc2 ≡ reverse (compare_sem_ver rc2 rc10)
reverse_example = compare_sem_ver-reverse rc2 rc10

rc2_before : compare_sem_ver rc2 rc10 ≡ less
unfolding compare_sem_ver compare_prereleases compare_lists compare_identifiers
    is_numeric_identifier compare_numeric_strings text_eq trim_left
rc2_before = refl

rc10_before : compare_sem_ver rc10 (version []) ≡ less
unfolding compare_sem_ver compare_prereleases
rc10_before = refl

trans_example : compare_sem_ver rc2 (version []) ≡ less
trans_example = compare_sem_ver_trans rc2 rc10 (version []) rc2_before rc10_before

abbrev checker : Checker
checker = new_checker (codes "v1.3.9") true 0

abbrev release : GithubRelease
release = record {
  tag_name = codes "v1.4.0";
  html_url = codes "https://github.example/releases/v1.4.0";
  published_at = none;
}

-- No call of the API is running.
abbrev idle : Option (Option CheckResult)
idle = none

abbrev after : Checker
after = (finish_lookup 120 none (some release) (fetch false 100 checker)).0

reachable_example :
    ((force : Bool) (now : ℕ) (d : Checker) (before : Option CheckResult)
      → begin_lookup force now after ≡ (d, fetches before)
      → idle ≡ none)
    × ((force : Bool) (now : ℕ) (d : Checker) (r : CheckResult)
        → begin_lookup force now after ≡ (d, answered r)
        → IsCoherent after.current_version r)
    × ((now : ℕ) (payload : Option GithubRelease) (before : Option CheckResult)
        → idle ≡ some before
        → IsCoherent after.current_version (finish_lookup now before payload after).1)
    × ((force : Bool) (now : ℕ) (d : Checker) (before : Option CheckResult)
        → begin_lookup force now after ≡ (d, waits before)
        → IsCoherent after.current_version (give_up before after))
unfolding new_checker begin_lookup
reachable_example = Reachable-IsCoherent after idle (
    fetched 120 (some release) (fetch false 100 checker) none (
      looked_up false 100 checker (fetch false 100 checker) none none
        (started (codes "v1.3.9") true 0) refl))
