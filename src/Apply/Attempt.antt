-- ===== src/Apply/Attempt.antt =====
-- One attempt to apply a job: execute and Apply of apps/api/internal/worker/apply/apply.go.
-- The attempt is over when `apply` returns, so each call makes a new run.
use proxy_core.Base.{String, Bool, true, false, Option, none, some, List, [], ◌∷◌, Result, ok, err}
use proxy_core.Jobs.{Status, queued, validating, applied, rolled_back}
use proxy_core.Store.{Job}
use proxy_core.Store.Patch.{empty_patch, set}
use proxy_core.Apply.{Env, Run, Candidate, Outputs, Exit, go, stop, failed, or_default}
use proxy_core.Apply.Phases.{
  M, and_then, call, exit_with, set_status, fail, stage_all, start_applying, promote_all, check_all,
  rollback_promoted,
}

unfoldable pub rendered : (e : Env) → String → M e (List Candidate)
rendered e snapshot s = call (e.render (e.desired_snapshot snapshot) s.job) s

unfoldable pub some_candidates : (e : Env) → List Candidate → M e (Unit {0})
some_candidates e [] s = (s, failed "No candidates were rendered")
some_candidates e (c ∷ cs) s = (s, go tt)

-- The revision is marked, then the job.
unfoldable pub finish : (e : Env) → Outputs → Outputs → M e Job
finish e applied_outputs health_outputs s =
    and_then (call (e.mark_applied s.job.revision_id) s) λ _ t.
      let r =
        set_status e t.job applied
          (record empty_patch {
            apply_output = set (e.marshal_outputs applied_outputs);
            health_output = set (e.marshal_outputs health_outputs);
            finished_at = set (e.now t.world);
          })
          t.world in
      (record t { world = r.0 }, exit_with r.1)

-- The candidates are staged and validated, then promoted, then reloaded and checked.
unfoldable pub run_candidates : (e : Env) → List Candidate → M e Job
run_candidates e cs s = and_then (stage_all e cs [] s) λ validation t.
    and_then (start_applying e validation t) λ _ u.
      and_then (promote_all e cs [] u) λ applied_outputs v.
        and_then (check_all e cs [] v) λ health_outputs. finish e applied_outputs health_outputs

unfoldable pub execute : (e : Env) → String → M e Job
execute e snapshot s =
    and_then (rendered e snapshot s)
      λ cs t. and_then (some_candidates e cs t) λ _. run_candidates e cs

-- After an error: what was promoted is rolled back, and the job is rolled back or failed.
unfoldable pub after_rollback : (e : Env) → String → Run e × Bool → e.World × Result String Job
after_rollback e message (s, true) =
    set_status e s.job rolled_back
      (record empty_patch {
        error_message = set (e.scrub_message message);
        finished_at = set (e.now s.world);
      })
      s.world
after_rollback e message (s, false) = fail e s.job message empty_patch s.world

unfoldable pub recover_run :
    (e : Env) → String → Run e → List Candidate → e.World × Result String Job
recover_run e message s [] = fail e s.job message empty_patch s.world
recover_run e message s (c ∷ cs) = after_rollback e message (rollback_promoted e s)

unfoldable pub conclude : (e : Env) → Run e × Exit Job → e.World × Result String Job
conclude e (s, go j) = (s.world, ok j)
conclude e (s, stop j) = (s.world, ok j)
conclude e (s, failed message) = recover_run e (or_default message "Apply failed") s s.promoted

abbrev pub fresh_run : (e : Env) → Job → e.World → Run e
fresh_run e job w = record { world = w; job = job; promoted = [] }

unfoldable pub apply_claimed :
    (e : Env) → String → e.World × Result String Job → e.World × Result String Job
apply_claimed e snapshot (w, err message) = (w, err message)
apply_claimed e snapshot (w, ok job) = conclude e (execute e snapshot (fresh_run e job w))

-- A queued job is claimed first, and a validating one was claimed before.
unfoldable pub claim : (e : Env) → Job → Status → e.World → e.World × Result String Job
claim e job queued w = set_status e job validating empty_patch w
claim e job validating w = (w, ok job)
claim e job _ w = (w, err "Job is not queued")

unfoldable pub apply_found :
    (e : Env) → String → e.World × Result String (Option Job) → e.World × Result String Job
apply_found e snapshot (w, err message) = (w, err message)
apply_found e snapshot (w, ok none) = (w, err "Job not found")
apply_found e snapshot (w, ok (some job)) = apply_claimed e snapshot (claim e job job.status w)

unfoldable pub apply : (e : Env) → String → String → e.World → e.World × Result String Job
apply e id snapshot w = apply_found e snapshot (e.get_job id w)
