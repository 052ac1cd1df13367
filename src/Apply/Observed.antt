-- ===== src/Apply/Observed.antt =====
-- Control of apps/api/internal/worker/apply/apply.go as it is seen from its own side: surroundings in
-- which control writes down each request that it receives.
use proxy_core.Base.{String, Bool, List, [], ◌∷◌, ◌++◌, Result}
use proxy_core.Apply.{Operation, Candidate, Request, Env, Run}
use proxy_core.Apply.Phases.{is_accepted}

-- A request that control received; `accepted` says that it answered, and that the answer was OK.
pub record Event : Type 0 where
  pub asked : Request
  pub accepted : Bool

-- A call that does not reach control.
abbrev apart :
    {W A : Type 0} → (W → W × Result String A) → W × List Event → (W × List Event) × Result String A
apart f (w, log) = (((f w).0, log), (f w).1)

-- The surroundings `e`, with control writing down what it receives and how it answers.
abbrev pub observed : Env → Env
observed e = record {
  World = e.World × List Event;
  get_job = λ id. apart (e.get_job id);
  update_job = λ id patch. apart (e.update_job id patch);
  mark_applied = λ id. apart (e.mark_applied id);
  control = λ q w.
      let r = e.control q w.0 in
      ((r.0, w.1 ++ record { asked = q; accepted = is_accepted r.1 } ∷ []), r.1);
  render = λ snapshot job. apart (e.render snapshot job);
  write_candidate = λ c. apart (e.write_candidate c);
  now = λ w. e.now w.0;
  desired_snapshot = e.desired_snapshot;
  scrub_message = e.scrub_message;
  marshal_outputs = e.marshal_outputs;
  marshal_staged = e.marshal_staged;
  has_drift = e.has_drift;
  transition_message = e.transition_message;
}

-- What control has received so far.
abbrev pub log : (e : Env) → Run (observed e) → List Event
log e s = s.world.1

-- The request that asks for an operation on a candidate of a revision.
abbrev pub asking : Operation → String → Candidate → Request
asking operation revision_id c = record {
  operation = operation;
  service = c.service;
  revision_id = revision_id;
  checksum = c.checksum;
  candidate_path = c.candidate_path;
}
