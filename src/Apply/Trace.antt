-- ===== src/Apply/Trace.antt =====
-- About rollback of apps/api/internal/worker/apply/apply.go: the requests that control receives.
use proxy_core.Base.{
  ◌≡◌, refl, sym, ap, Bool, List, [], ◌∷◌, ◌++◌, append-nil, append_assoc, map, all, reverse, ◌∙◌,
  ◌&&◌,
}
use proxy_core.Apply.{Request, rollback, Candidate, Env, Run}
use proxy_core.Apply.Phases.{send, is_accepted, rollback_each, rollback_promoted}
use proxy_core.Apply.Observed.{Event, observed, log, asking}

-- A rollback of `cs` from `s` to `t`, with what it reports.
pub record RolledBack (e : Env) (cs : List Candidate) (s t : Run (observed e)) (reported : Bool)
    : Type 0 where
  pub events : List Event
  pub received : log e t ≡ log e s ++ events
  pub requests : map (λ (v : Event). v.asked) events ≡ map (asking rollback s.job.revision_id) cs
  pub verdict : reported ≡ all (λ (v : Event). v.accepted) events

rollback_each-RolledBack :
    (e : Env) (cs : List Candidate) (s : Run (observed e))
    → RolledBack e cs s (rollback_each (observed e) cs s).0 (rollback_each (observed e) cs s).1
unfolding rollback_each send
rollback_each-RolledBack e [] s = record {
  events = [];
  received = sym (append-nil (log e s));
  requests = refl;
  verdict = refl;
}
rollback_each-RolledBack e (c ∷ cs) s =
    let r = send (observed e) rollback c s in
    let rest = rollback_each-RolledBack e cs r.0 in
    let q = asking rollback s.job.revision_id c in
    record {
      events = record { asked = q; accepted = is_accepted r.1 } ∷ rest.events;
      received = rest.received ∙ append_assoc (log e s) _ rest.events;
      requests = ap (λ (qs : List Request). q ∷ qs) rest.requests;
      verdict = ap (λ (b : Bool). is_accepted r.1 && b) rest.verdict;
    }

-- In a rollback control receives exactly one request to roll back for each promoted candidate, with
-- the service, checksum and path of the candidate and the revision of the job, the last promoted
-- first, whatever it answers; success is reported exactly when every answer was OK.
pub rollback_promoted-RolledBack :
    (e : Env) (s : Run (observed e))
    → RolledBack e
        (reverse s.promoted)
        s
        (rollback_promoted (observed e) s).0
        (rollback_promoted (observed e) s).1
unfolding rollback_promoted
rollback_promoted-RolledBack e s = rollback_each-RolledBack e (reverse s.promoted) s
