-- ===== src/Apply/Whole.antt =====
-- About Apply in apps/api/internal/worker/apply/apply.go as a whole: the job is read and claimed, the
-- candidates are rendered, and the phases and the rollback follow.
use proxy_core.Base.{◌≡◌, refl, String, List, [], ◌∷◌, Option, none, some, Result, ok, err}
use proxy_core.Jobs.{Status, queued, validating, applying, applied, rolled_back, other}
use proxy_core.Store.{Job}
use proxy_core.Store.Patch.{empty_patch}
use proxy_core.Apply.{Candidate, Env, Run, failed}
use proxy_core.Apply.Phases.{and_then, exit_of}
use proxy_core.Apply.Attempt.{
  rendered, some_candidates, run_candidates, execute, conclude, fresh_run, apply_claimed, claim,
  apply_found, apply,
}
use proxy_core.Apply.Observed.{observed}
use proxy_core.Apply.Checks.{Silent-Checks, set_status-log}
use proxy_core.Apply.Gate.{Gated, stopped, run_candidates-Gated}

-- The candidates of an answer of the renderer.
abbrev candidates_of : Result String (List Candidate) → List Candidate
candidates_of (ok cs) = cs
candidates_of (err m) = []

-- The candidates that the renderer makes of a snapshot for a job.
abbrev pub rendering : (e : Env) → String → Job → e.World → List Candidate
rendering e snapshot job w = candidates_of (e.render (e.desired_snapshot snapshot) job w).1

execute-Gated :
    (e : Env) (snapshot : String) (s : Run (observed e))
    → s.promoted ≡ []
    → Gated e
        (rendering e snapshot s.job s.world.0)
        s
        (conclude (observed e) (execute (observed e) snapshot s)).0
unfolding execute rendered some_candidates and_then
execute-Gated e snapshot s h = gate (e.render (e.desired_snapshot snapshot) s.job s.world.0).1
  where
    t : Run (observed e)
    t = record s { world = ((e.render (e.desired_snapshot snapshot) s.job s.world.0).0, s.world.1) }

    gate :
        (r : Result String (List Candidate))
        → Gated e
            (candidates_of r)
            s
            (conclude (observed e) (
              and_then
                (t, exit_of r)
                λ cs u.
                  and_then
                    (some_candidates (observed e) cs u)
                    λ _. run_candidates (observed e) cs)).0
    gate (ok []) = stopped e [] s t (failed _) h (Silent-Checks e s t (refl, refl, refl))
    gate (ok (c ∷ cs)) = run_candidates-Gated e (c ∷ cs) t h
    gate (err m) = stopped e [] s t (failed m) h (Silent-Checks e s t (refl, refl, refl))

claim-log :
    (e : Env) (job : Job) (status : Status) (w : (observed e).World)
    → (claim (observed e) job status w).0.1 ≡ w.1
unfolding claim
claim-log e job queued w = set_status-log e job validating empty_patch w
claim-log e job validating w = refl
claim-log e job applying w = refl
claim-log e job applied w = refl
claim-log e job Status.failed w = refl
claim-log e job rolled_back w = refl
claim-log e job (other s) w = refl

-- How an attempt that begins with `w` and the id of a job ends: control has received nothing, or the
-- job was found and claimed, and the phases from there on are gated.
pub data Attempted (e : Env) (id snapshot : String) (w after : (observed e).World) : Type 0 where
  nothing_asked : after.1 ≡ w.1 → Attempted e id snapshot w after
  claimed :
      (found job : Job) (y : e.World) (x : (observed e).World)
      → e.get_job id w.0 ≡ (y, ok (some found))
      → claim (observed e) found found.status (y, w.1) ≡ (x, ok job)
      → x.1 ≡ w.1
      → Gated e (rendering e snapshot job x.0) (fresh_run (observed e) job x) after
      → Attempted e id snapshot w after

claimed-Attempted :
    (e : Env) (id snapshot : String) (w : (observed e).World) (found : Job) (y : e.World)
    → e.get_job id w.0 ≡ (y, ok (some found))
    → (q : (observed e).World × Result String Job)
    → claim (observed e) found found.status (y, w.1) ≡ q
    → q.0.1 ≡ w.1
    → Attempted e id snapshot w (apply_claimed (observed e) snapshot q).0
unfolding apply_claimed
claimed-Attempted e id snapshot w found y h (x, err m) q same = nothing_asked same
claimed-Attempted e id snapshot w found y h (x, ok job) q same =
    claimed found job y x h q same (execute-Gated e snapshot (fresh_run (observed e) job x) refl)

-- Whatever the stores, control, the renderer and the files answer, an attempt to apply a job ends
-- with control having received nothing; or the job was found and claimed, and from then on either
-- control has received nothing but requests to stage and to validate, or it has first received, for
-- each candidate that was rendered in turn, the request to stage it and the request to validate it,
-- with the service, checksum and path of the candidate and the revision of the job, and has answered
-- OK to all of them. The attempt includes the rollback that follows an error.
pub apply-Attempted :
    (e : Env) (id snapshot : String) (w : (observed e).World)
    → Attempted e id snapshot w (apply (observed e) id snapshot w).0
unfolding apply apply_found
apply-Attempted e id snapshot w = found_cases (e.get_job id w.0) refl
  where
    found_cases :
        (q : e.World × Result String (Option Job))
        → e.get_job id w.0 ≡ q
        → Attempted e id snapshot w (apply_found (observed e) snapshot ((q.0, w.1), q.1)).0
    found_cases (y, err m) h = nothing_asked refl
    found_cases (y, ok none) h = nothing_asked refl
    found_cases (y, ok (some found)) h =
        claimed-Attempted e id snapshot w found y h (claim (observed e) found found.status (y, w.1))
          refl (claim-log e found found.status (y, w.1))
