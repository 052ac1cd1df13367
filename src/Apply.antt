-- ===== src/Apply.antt =====
-- apps/api/internal/worker/apply/apply.go: the types of the apply orchestrator and the surfaces that
-- it works on.
pub mod Phases
pub mod Attempt
pub mod Observed
pub mod Trace
pub mod Checks
pub mod Later
pub mod Gate
pub mod Whole
pub mod Lost
use Prim.Native.String.{◌++◌}
use proxy_core.Base.{
  String, Bool, true, false, Option, none, some, List, [], ◌∷◌, Result, if◌then◌else◌, str_eq,
}
use proxy_core.Timestamp.{FiniteTimestamp}
use proxy_core.Jobs.{TransitionError, other}
use proxy_core.Store.{Job, Target, Source, other_target, other_source, zero_time}
use proxy_core.Store.Patch.{JobPatch}

pub data Operation : Type 0 where
  stage validate promote reload health rollback : Operation

-- A rendered candidate; its files are the business of `write_candidate`.
pub record Candidate : Type 0 where
  pub service : String
  pub candidate_path : String
  pub checksum : String
  pub files : Option (List (String × String))

-- A control request, less its fresh identifier.
pub record Request : Type 0 where
  pub operation : Operation
  pub service : String
  pub revision_id : String
  pub checksum : String
  pub candidate_path : String

pub record Response : Type 0 where
  pub is_ok : Bool
  pub output : Option String
  pub error : String

-- The outputs of the services by name, as they were recorded.
abbrev pub Outputs : Type 0
Outputs = List (String × String)

-- What an orchestrator is given: the job store, the revision store, control, the renderer, the
-- files and the clock, on a world that each call may change; and the functions on JSON and on
-- texts. An error is its message.
pub record Env : Type 1 where
  pub World : Type 0
  pub get_job : String → World → World × Result String (Option Job)
  pub update_job : String → JobPatch → World → World × Result String Job
  pub mark_applied : String → World → World × Result String (Unit {0})
  pub control : Request → World → World × Result String Response
  pub render : String → Job → World → World × Result String (List Candidate)
  pub write_candidate : Candidate → World → World × Result String (Unit {0})
  pub now : World → FiniteTimestamp
  pub desired_snapshot : String → String
  pub scrub_message : String → String
  pub marshal_outputs : Outputs → String
  pub marshal_staged : String → Option String → String
  pub has_drift : Response → Bool
  pub transition_message : TransitionError → String

-- `applyRun`, with the world.
pub record Run (e : Env) : Type 0 where
  pub world : e.World
  pub job : Job
  pub promoted : List Candidate

-- How a phase ends: the run goes on, it returns a job, or it returns an error.
pub data Exit (A : Type 0) : Type 0 where
  go : A → Exit A
  stop : Job → Exit A
  failed : String → Exit A

-- The zero `store.Job`.
abbrev pub zero_job : Job
zero_job = record {
  id = "";
  revision_id = "";
  actor_user_id = none;
  target = other_target "";
  status = other "";
  source = other_source "";
  source_primary_id = none;
  source_node_id = none;
  source_revision_id = none;
  snapshot_content_hash = none;
  snapshot_version = none;
  replication_version = none;
  leadership_generation = none;
  correlation_id = "";
  created_at = zero_time;
  claimed_at = none;
  started_at = none;
  finished_at = none;
  validation_output = none;
  apply_output = none;
  health_output = none;
  error_message = none;
}

abbrev pub or_default : String → String → String
or_default value fallback = if str_eq value "" then fallback else value

abbrev pub rollback_failed : String → String
rollback_failed message = message ++ "; rollback failed"

put_output : Outputs → String → String → Outputs
put_output [] service output = (service, output) ∷ []
put_output ((name, old) ∷ rest) service output =
    let more = put_output rest service output in
    if str_eq name service then (service, output) ∷ rest else (name, old) ∷ more

-- `setOutput`.
unfoldable pub set_output : Outputs → String → Option String → Outputs
unfolding put_output
set_output outputs service none = outputs
set_output outputs service (some output) = put_output outputs service output
