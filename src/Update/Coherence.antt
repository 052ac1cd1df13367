-- ===== src/Update/Coherence.antt =====
-- About what the checker of apps/api/internal/update/checker.go answers, over every sequence of calls.
use proxy_core.Base.{
  ℕ, ◌≡◌, refl, sym, subst, Bool, true, false, Option, none, some, ltb, arith, inl, inr, ◌⊎◌,
  Bool-cases, Option-cases,
}
use proxy_core.Base.Texts.{Text}
use proxy_core.Update.Versions.{SemanticVersion, greater, parse_sem_ver, compare_sem_ver}
use proxy_core.Update.{
  current, update_available, Release, CheckResult, Checker, new_checker, GithubRelease,
  has_prerelease, latest_release, result_for, fallback_result, throttled_result, answered, waits,
  fetches, is_fresh, is_throttled, disabled_result, is_known, fresh_or_fallback, conclude,
  begin_lookup, finish_lookup, give_up, fetch,
}

-- The release is newer than the version.
pub record IsNewer (version : Text) (latest : Option Release) : Type 0 where
  pub release : Release
  pub old : SemanticVersion
  pub new : SemanticVersion
  pub known : latest ≡ some release
  pub parses_old : parse_sem_ver version ≡ some old
  pub parses_new : parse_sem_ver release.version ≡ some new
  pub is_final : has_prerelease new ≡ false
  pub newer : compare_sem_ver new old ≡ greater

-- A result about the version: an update is available only where the release is newer, and its status
-- is not at odds with that.
pub record IsCoherent (version : Text) (r : CheckResult) : Type 0 where
  pub about : r.current_version ≡ version
  pub newer : r.is_available ≡ true → IsNewer version r.latest
  pub offered : r.status ≡ update_available → r.is_available ≡ true
  pub up_to_date : r.status ≡ current → r.is_available ≡ false

abbrev pub IsCoherentCache : Text → Option CheckResult → Type 0
IsCoherentCache version none = Unit
IsCoherentCache version (some r) = IsCoherent version r

result_for-IsCoherent :
    (version : Text) (latest : Release) (now : ℕ) (r : CheckResult)
    → result_for version latest now ≡ some r
    → IsCoherent version r
unfolding result_for
result_for-IsCoherent version latest now r h = elim (Option-cases (parse_sem_ver version)) [
  | inl bad ↦ absurd (ground (arith, h, bad))
  | inr (v, old) ↦ elim (Option-cases (parse_sem_ver latest.version)) [
    | inl bad ↦ absurd (ground (arith, h, old, bad))
    | inr (w, new) ↦ record {
      about = ground (arith, h, old, new);
      newer = λ available. record {
        release = latest;
        old = v;
        new = w;
        known = ground (arith, h, old, new);
        parses_old = old;
        parses_new = new;
        is_final = ground (arith, h, old, new);
        newer = ground (arith, h, old, new, available);
      };
      offered = λ s. ground (arith, h, old, new, s);
      up_to_date = λ s. ground (arith, h, old, new, s);
    }
  ]
]

fallback_result-IsCoherent :
    (version : Text) (before : Option CheckResult)
    → IsCoherentCache version before
    → IsCoherent version (fallback_result version before)
unfolding fallback_result
fallback_result-IsCoherent version none k = record {
  about = refl;
  newer = λ h. absurd (cc);
  offered = λ h. absurd (ground arith);
  up_to_date = λ h. refl;
}
fallback_result-IsCoherent version (some r) k = elim (Bool-cases (is_known r)) [
  | inr unknown ↦ rw unknown k
  | inl known ↦ rw known (record {
    about = k.about;
    newer = k.newer;
    offered = λ h. absurd (ground arith);
    up_to_date = λ h. absurd (ground arith);
  })
]

throttled_result-IsCoherent :
    (now : ℕ) (c : Checker)
    → IsCoherentCache c.current_version c.cached
    → IsCoherent c.current_version (throttled_result now c)
unfolding throttled_result
throttled_result-IsCoherent now c k = of_cache c.cached k
  where
    of_cache :
        (cached : Option CheckResult)
        → IsCoherentCache c.current_version cached
        → IsCoherent c.current_version (fresh_or_fallback now c cached)
    of_cache none k = fallback_result-IsCoherent c.current_version none tt
    of_cache (some r) k = elim (Bool-cases (ltb now c.expires)) [
      | inl fresh ↦ rw fresh k
      | inr old ↦ rw old (fallback_result-IsCoherent c.current_version (some r) k)
    ]

-- When a call of `lookup` calls the API.
pub record Fetches (force : Bool) (now : ℕ) (c : Checker) : Type 0 where
  pub enabled : c.enabled ≡ true
  pub alone : c.in_flight ≡ false
  pub spaced : force ≡ true → is_throttled now c.last_forced ≡ false
  pub expired : force ≡ false → is_fresh now c ≡ false

begin_lookup-Fetches :
    (force : Bool) (now : ℕ) (c d : Checker) (before : Option CheckResult)
    → begin_lookup force now c ≡ (d, fetches before)
    → (d ≡ fetch force now c) × (before ≡ c.cached) × Fetches force now c
unfolding begin_lookup
begin_lookup-Fetches force now c d before h = (
  ground (arith, h),
  ground (arith, h),
  record {
    enabled = ground (arith, h);
    alone = ground (arith, h);
    spaced = λ k. ground (arith, h, k);
    expired = λ k. ground (arith, h, k);
  },
)

begin_lookup-answered :
    (force : Bool) (now : ℕ) (c d : Checker) (r : CheckResult)
    → begin_lookup force now c ≡ (d, answered r)
    → (disabled_result c.current_version ≡ r) ⊎ (throttled_result now c ≡ r)
unfolding begin_lookup
begin_lookup-answered force now c d r h = elim (Bool-cases c.enabled) [
  | inr off ↦ inl (ground (arith, h, off))
  | inl on ↦ inr (ground (arith, h, on))
]

begin_lookup-IsCoherent :
    (force : Bool) (now : ℕ) (c d : Checker) (r : CheckResult)
    → IsCoherentCache c.current_version c.cached
    → begin_lookup force now c ≡ (d, answered r)
    → IsCoherent c.current_version r
begin_lookup-IsCoherent force now c d r k h = elim (begin_lookup-answered force now c d r h) [
  | inl off ↦ subst (IsCoherent c.current_version) off (record {
    about = refl;
    newer = λ h. absurd (cc);
    offered = λ h. absurd (ground arith);
    up_to_date = λ h. refl;
  })
  | inr known ↦ subst (IsCoherent c.current_version) known (throttled_result-IsCoherent now c k)
]

-- The checkers that calls lead to, with the cache that the running call of the API began with, if one
-- is running.
pub data Reachable : Checker → Option (Option CheckResult) → Type 0 where
  started :
      (version : Text) (enabled : Bool) (ttl : ℕ) → Reachable (new_checker version enabled ttl) none
  looked_up :
      (force : Bool) (now : ℕ) (c d : Checker) (p : Option (Option CheckResult))
      (before : Option CheckResult)
      → Reachable c p
      → begin_lookup force now c ≡ (d, fetches before)
      → Reachable d (some before)
  fetched :
      (now : ℕ) (payload : Option GithubRelease) (c : Checker) (before : Option CheckResult)
      → Reachable c (some before)
      → Reachable (finish_lookup now before payload c).0 none

abbrev pub is_running : Option (Option CheckResult) → Bool
is_running none = false
is_running (some before) = true

abbrev IsCoherentCall : Text → Option (Option CheckResult) → Type 0
IsCoherentCall version none = Unit
IsCoherentCall version (some before) = IsCoherentCache version before

-- One call of the API runs at most, and what is remembered is coherent.
pub record IsSound (c : Checker) (p : Option (Option CheckResult)) : Type 0 where
  pub single : c.in_flight ≡ is_running p
  pub cached : IsCoherentCache c.current_version c.cached
  pub call : IsCoherentCall c.current_version p

finish_lookup-IsCoherent :
    (now : ℕ) (payload : Option GithubRelease) (c : Checker) (before : Option CheckResult)
    → IsCoherentCache c.current_version before
    → IsSound (finish_lookup now before payload c).0 none
      × IsCoherent c.current_version (finish_lookup now before payload c).1
unfolding finish_lookup
finish_lookup-IsCoherent now payload c before k = elim (Option-cases (latest_release payload)) [
  | inl failed ↦ rw failed (fails)
  | inr (l, got) ↦ elim (Option-cases (result_for c.current_version l now)) [
    | inl bad ↦ rw (got, bad) fails
    | inr (r, good) ↦
        let coherent = result_for-IsCoherent c.current_version l now r good in
        rw (got, good) (record { single = refl; cached = coherent; call = tt }, coherent)
  ]
]
  where
    fails :
        IsSound (conclude now before c none).0 none
        × IsCoherent c.current_version (conclude now before c none).1
    fails =
        let coherent = fallback_result-IsCoherent c.current_version before k in
        (record { single = refl; cached = coherent; call = tt }, coherent)

Reachable-IsSound : (c : Checker) (p : Option (Option CheckResult)) → Reachable c p → IsSound c p
Reachable-IsSound c p (started version enabled ttl) =
    unfold new_checker in record { single = refl; cached = tt; call = tt }
Reachable-IsSound c p (looked_up force now b d q before r h) =
    let (moved, same, f) = begin_lookup-Fetches force now b d before h in
    let sound = Reachable-IsSound b q r in
    subst (λ e. IsSound e (some before)) (sym moved)
      (record {
        single = refl;
        cached = sound.cached;
        call = subst (IsCoherentCache b.current_version) (sym same) sound.cached;
      })
Reachable-IsSound c p (fetched now payload b before r) =
    (finish_lookup-IsCoherent now payload b before (Reachable-IsSound b (some before) r).call).0

-- Whatever calls of a checker came before, in any order, a call of the API begins only where none
-- is running; and what the checker answers at once, after a call, or when a caller gives up waiting
-- is coherent: an update is offered only where the release parses, is no prerelease and is newer
-- than the current version, and the status agrees.
pub Reachable-IsCoherent :
    (c : Checker) (p : Option (Option CheckResult))
    → Reachable c p
    → ((force : Bool) (now : ℕ) (d : Checker) (before : Option CheckResult)
        → begin_lookup force now c ≡ (d, fetches before)
        → p ≡ none)
      × ((force : Bool) (now : ℕ) (d : Checker) (r : CheckResult)
          → begin_lookup force now c ≡ (d, answered r)
          → IsCoherent c.current_version r)
      × ((now : ℕ) (payload : Option GithubRelease) (before : Option CheckResult)
          → p ≡ some before
          → IsCoherent c.current_version (finish_lookup now before payload c).1)
      × ((force : Bool) (now : ℕ) (d : Checker) (before : Option CheckResult)
          → begin_lookup force now c ≡ (d, waits before)
          → IsCoherent c.current_version (give_up before c))
unfolding begin_lookup
Reachable-IsCoherent c p r =
    let s = Reachable-IsSound c p r in
    (
      λ force now d before h.
          let (moved, same, f) = begin_lookup-Fetches force now c d before h in
          alone p s.single f.alone,
      λ force now d r h. begin_lookup-IsCoherent force now c d r s.cached h,
      λ now payload before running.
          (finish_lookup-IsCoherent now payload c before
            (subst (IsCoherentCall c.current_version) running s.call)).1,
      λ force now d before h.
          let same : c.cached ≡ before = ground (arith, h) in
          fallback_result-IsCoherent c.current_version before
            (subst (IsCoherentCache c.current_version) same s.cached),
    )
  where
    alone :
        {running : Bool} (p : Option (Option CheckResult))
        → running ≡ is_running p
        → running ≡ false
        → p ≡ none
    alone none h k = refl
    alone (some before) h k = absurd (cc)
