-- ===== src/Apply/Lost.antt =====
-- About the move to `applying` in apps/api/internal/worker/apply/apply.go.
use proxy_core.Base.{◌≡◌, refl, String, List, [], err}
use proxy_core.Jobs.{other, applying, failed, transition}
use proxy_core.Store.Patch.{JobPatch, empty_patch, set}
use proxy_core.Apply.{Candidate, Outputs, Env, Run, go, zero_job}
use proxy_core.Apply.Phases.{and_then, set_status, fail, stage_all, start_applying}
use proxy_core.Apply.Attempt.{run_candidates, conclude, recover_run}

zero_fails :
    (e : Env) (message : String) (patch : JobPatch) (w : e.World)
    → fail e zero_job message patch w
      ≡ (w, err (e.transition_message (record { current = other ""; next = failed })))
unfolding fail set_status transition
zero_fails e message patch w = refl

-- Where every candidate is valid, nothing was promoted and the store fails to record `applying`, the
-- attempt returns the error of a move from the empty status to `failed`, and makes no further call:
-- the error of the store is lost and the job is not failed.
pub conclude-lost :
    (e : Env) (cs : List Candidate) (s t : Run e) (validation : Outputs) (w : e.World)
    (message : String)
    → stage_all e cs [] s ≡ (t, go validation)
    → t.promoted ≡ []
    → set_status e t.job applying
        (record empty_patch { validation_output = set (e.marshal_outputs validation) })
        t.world
      ≡ (w, err message)
    → conclude e (run_candidates e cs s)
      ≡ (w, err (e.transition_message (record { current = other ""; next = failed })))
unfolding conclude recover_run run_candidates and_then start_applying
conclude-lost e cs s t validation w message h k r = rw (h, r, k) (zero_fails e _ empty_patch w)
