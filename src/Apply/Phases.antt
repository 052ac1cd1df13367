-- ===== src/Apply/Phases.antt =====
-- The phases of apps/api/internal/worker/apply/apply.go: staging and validation, promotion,
-- reload and health, and the rollback.
use proxy_core.Base.{
  String, Bool, true, false, not, some, List, [], ◌∷◌, ◌++◌, reverse, Result, ok, err,
  if◌then◌else◌, ◌||◌, ◌&&◌,
}
use proxy_core.Jobs.{Status, failed, applying, rolled_back, transition}
use proxy_core.Store.{Job}
use proxy_core.Store.Patch.{JobPatch, empty_patch, set}
use proxy_core.Apply.{
  Operation, stage, validate, promote, reload, health, rollback, Candidate, Request, Response,
  Outputs, Env, Run, Exit, go, stop, zero_job, or_default, rollback_failed, set_output,
}

abbrev pub M : Env → Type 0 → Type 0
M e A = Run e → Run e × Exit A

unfoldable pub and_then : {e : Env} {A B : Type 0} → Run e × Exit A → (A → M e B) → Run e × Exit B
and_then (s, go a) f = f a s
and_then (s, stop j) f = (s, stop j)
and_then (s, Exit.failed m) f = (s, Exit.failed m)

-- An outcome of a store: the job ends the run.
abbrev pub exit_with : {A : Type 0} → Result String Job → Exit A
exit_with (ok j) = stop j
exit_with (err m) = Exit.failed m

abbrev pub exit_of : {A : Type 0} → Result String A → Exit A
exit_of (ok a) = go a
exit_of (err m) = Exit.failed m

-- A call of the surroundings.
abbrev pub call : {e : Env} {A : Type 0} → (e.World → e.World × Result String A) → M e A
call f s = (record s { world = (f s.world).0 }, exit_of (f s.world).1)

unfoldable pub set_status :
    (e : Env) → Job → Status → JobPatch → e.World → e.World × Result String Job
set_status e job status patch w = elim (transition job.status status) [
  | err x ↦ (w, err (e.transition_message x))
  | ok next ↦ e.update_job job.id (record patch { status = some next }) w
]

unfoldable pub fail : (e : Env) → Job → String → JobPatch → e.World → e.World × Result String Job
fail e job message patch w =
    set_status e job failed
      (record patch { error_message = set (e.scrub_message message); finished_at = set (e.now w) })
      w

-- `return o.fail(...)`.
unfoldable pub return_fail : {A : Type 0} (e : Env) → String → JobPatch → M e A
return_fail e message patch s =
    let r = fail e s.job message patch s.world in (record s { world = r.0 }, exit_with r.1)

abbrev pub request_of : Operation → Candidate → Job → Request
request_of operation c job = record {
  operation = operation;
  service = c.service;
  revision_id = job.revision_id;
  checksum = c.checksum;
  candidate_path = c.candidate_path;
}

abbrev pub is_accepted : Result String Response → Bool
is_accepted (ok r) = r.is_ok
is_accepted (err m) = false

-- A control request and its answer.
unfoldable pub send : (e : Env) → Operation → Candidate → Run e → Run e × Result String Response
send e operation c s =
    let r = e.control (request_of operation c s.job) s.world in (record s { world = r.0 }, r.1)

unfoldable pub request : (e : Env) → Operation → Candidate → M e Response
request e operation c s = let r = send e operation c s in (r.0, exit_of r.1)

-- The checks of the answers to `stage` and to `validate`.
unfoldable pub after_stage : (e : Env) → Candidate → Response → M e (Unit {0})
after_stage e c staged s =
    if staged.is_ok
    then (s, go tt)
    else return_fail e (or_default staged.error "Candidate staging failed")
        (record empty_patch { validation_output = set (e.marshal_staged c.service staged.output) })
        s

unfoldable pub after_validate : (e : Env) → Candidate → Outputs → Response → M e Outputs
after_validate e c outputs validation s =
    let now = set_output outputs c.service validation.output in
    if validation.is_ok
    then (s, go now)
    else return_fail e (or_default validation.error "Candidate validation failed")
        (record empty_patch { validation_output = set (e.marshal_outputs now) }) s

unfoldable pub stage_one : (e : Env) → Candidate → Outputs → M e Outputs
stage_one e c outputs s = and_then (call (e.write_candidate c) s) λ _ t.
    and_then (request e stage c t) λ staged u.
      and_then (after_stage e c staged u)
        λ _ v. and_then (request e validate c v) λ validation. after_validate e c outputs validation

unfoldable pub stage_all : (e : Env) → List Candidate → Outputs → M e Outputs
stage_all e [] outputs s = (s, go outputs)
stage_all e (c ∷ cs) outputs s = and_then (stage_one e c outputs s) (stage_all e cs)

-- The job of the run is replaced by what the store returns, which is the zero job on an error.
abbrev pub entered : (e : Env) → Run e → e.World × Result String Job → Run e × Exit (Unit {0})
entered e s (w, ok job) = (record s { world = w; job = job }, go tt)
entered e s (w, err m) = (record s { world = w; job = zero_job }, Exit.failed m)

unfoldable pub start_applying : (e : Env) → Outputs → M e (Unit {0})
start_applying e outputs s = entered e s (
    set_status e s.job applying
      (record empty_patch { validation_output = set (e.marshal_outputs outputs) }) s.world)

unfoldable pub after_promote : (e : Env) → Candidate → Outputs → Response → M e Outputs
after_promote e c outputs answer s =
    if answer.is_ok
    then (
      record s { promoted = s.promoted ++ c ∷ [] },
      go (set_output outputs c.service answer.output),
    )
    else (s, Exit.failed (or_default answer.error "Candidate promotion failed"))

unfoldable pub promote_all : (e : Env) → List Candidate → Outputs → M e Outputs
promote_all e [] outputs s = (s, go outputs)
promote_all e (c ∷ cs) outputs s =
    and_then (request e promote c s)
      λ answer t. and_then (after_promote e c outputs answer t) (promote_all e cs)

-- `rollback` on the candidates in the order in which it goes through them: all are tried, whatever
-- the answers are.
unfoldable pub rollback_each : (e : Env) → List Candidate → Run e → Run e × Bool
rollback_each e [] s = (s, true)
rollback_each e (c ∷ cs) s =
    let r = send e rollback c s in
    let rest = rollback_each e cs r.0 in (rest.0, is_accepted r.1 && rest.1)

unfoldable pub rollback_promoted : (e : Env) → Run e → Run e × Bool
rollback_promoted e s = rollback_each e (reverse s.promoted) s

-- What follows a failed health check and its rollback.
unfoldable pub return_rolled_back :
    {A : Type 0} (e : Env) → Outputs → String → Run e × Bool → Run e × Exit A
return_rolled_back e outputs error (s, true) =
    let r =
      set_status e s.job rolled_back
        (record empty_patch {
          health_output = set (e.marshal_outputs outputs);
          error_message =
              set (e.scrub_message (or_default error "Post-reload health failed; rolled back"));
          finished_at = set (e.now s.world);
        })
        s.world in
    (record s { world = r.0 }, exit_with r.1)
return_rolled_back e outputs error (s, false) =
    return_fail e (rollback_failed (or_default error "Post-reload health failed"))
      (record empty_patch { health_output = set (e.marshal_outputs outputs) }) s

unfoldable pub after_reload : (e : Env) → Response → M e (Unit {0})
after_reload e answer s =
    if answer.is_ok
    then (s, go tt)
    else (s, Exit.failed (or_default answer.error "Service reload failed"))

unfoldable pub after_health : (e : Env) → Candidate → Outputs → Response → M e Outputs
after_health e c outputs answer s =
    let now = set_output outputs c.service answer.output in
    if not answer.is_ok || e.has_drift answer
    then return_rolled_back e now answer.error (rollback_promoted e s)
    else (s, go now)

unfoldable pub check_all : (e : Env) → List Candidate → Outputs → M e Outputs
check_all e [] outputs s = (s, go outputs)
check_all e (c ∷ cs) outputs s = and_then (request e reload c s) λ reloaded t.
    and_then (after_reload e reloaded t) λ _ u.
      and_then (request e health c u)
        λ answer v. and_then (after_health e c outputs answer v) (check_all e cs)
