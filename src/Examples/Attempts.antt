-- ===== src/Examples/Attempts.antt =====
-- Attempts to apply a job (apps/api/internal/worker/apply) where control answers every request with
-- success, and where the store refuses every update.
use proxy_core.Base.{◌≡◌, refl, true, false, none, some, [], ◌∷◌, ok, err}
use proxy_core.Jobs.{validating, applying, transition}
use proxy_core.Store.{Job, zero_time}
use proxy_core.Store.Patch.{empty_patch, set}
use proxy_core.Apply.{Candidate, Env, Run, go, zero_job, set_output}
use proxy_core.Apply.Phases.{
  and_then, request, send, after_stage, after_validate, stage_one, stage_all, set_status,
  rollback_promoted,
}
use proxy_core.Apply.Attempt.{run_candidates, conclude, apply}
use proxy_core.Apply.Observed.{observed}
use proxy_core.Apply.Trace.{RolledBack, rollback_promoted-RolledBack}
use proxy_core.Apply.Whole.{Attempted, apply-Attempted}
use proxy_core.Apply.Lost.{conclude-lost}

abbrev refusing : Env
refusing = record {
  World = Unit {0};
  get_job = λ id w. (w, ok none);
  update_job = λ id patch w. (w, err "database is locked");
  mark_applied = λ id w. (w, ok tt);
  control = λ r w. (w, ok (record { is_ok = true; output = none; error = "" }));
  render = λ snapshot job w. (w, ok []);
  write_candidate = λ c w. (w, ok tt);
  now = λ w. zero_time;
  desired_snapshot = λ s. s;
  scrub_message = λ s. s;
  marshal_outputs = λ o. "{}";
  marshal_staged = λ s o. "{}";
  has_drift = λ r. false;
  transition_message = λ x. "Invalid job transition";
}

abbrev nginx_candidate : Candidate
nginx_candidate = record {
  service = "nginx";
  candidate_path = "/c/nginx";
  checksum = "a";
  files = none;
}

abbrev dns_candidate : Candidate
dns_candidate = record {
  service = "coredns";
  candidate_path = "/c/dns";
  checksum = "b";
  files = none;
}

abbrev claimed_job : Job
claimed_job = record zero_job { id = "j"; status = validating }

abbrev attempt : Run refusing
attempt = record { world = tt; job = claimed_job; promoted = [] }

abbrev watched : Run (observed refusing)
watched = record { world = (tt, []); job = claimed_job; promoted = [] }

abbrev promoted_two : Run (observed refusing)
promoted_two = record watched { promoted = nginx_candidate ∷ dns_candidate ∷ [] }

rollback_promoted_example :
    RolledBack refusing
      (dns_candidate ∷ nginx_candidate ∷ [])
      promoted_two
      (rollback_promoted (observed refusing) promoted_two).0
      (rollback_promoted (observed refusing) promoted_two).1
rollback_promoted_example = rollback_promoted-RolledBack refusing promoted_two

-- A job is there, and two candidates are rendered for it.
abbrev answering : Env
answering = record refusing {
  get_job = λ id w. (w, ok (some claimed_job));
  render = λ snapshot job w. (w, ok (nginx_candidate ∷ dns_candidate ∷ []));
}

apply_example :
    Attempted answering "j" "{}" (tt, []) (apply (observed answering) "j" "{}" (tt, [])).0
apply_example = apply-Attempted answering "j" "{}" (tt, [])

validates : stage_all refusing (nginx_candidate ∷ []) [] attempt ≡ (attempt, go [])
unfolding stage_all stage_one and_then request send after_stage after_validate set_output
validates = refl

refuses_applying :
    set_status refusing claimed_job applying
      (record empty_patch { validation_output = set "{}" })
      tt
    ≡ (tt, err "database is locked")
unfolding set_status transition
refuses_applying = refl

conclude_example :
    conclude refusing (run_candidates refusing (nginx_candidate ∷ []) attempt)
    ≡ (tt, err "Invalid job transition")
conclude_example =
    conclude-lost refusing (nginx_candidate ∷ []) attempt attempt [] tt "database is locked"
      validates refl refuses_applying
