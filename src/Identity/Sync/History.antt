-- ===== src/Identity/Sync/History.antt =====
-- About histories of calls of the service of apps/api/internal/identity.
use proxy_core.Base.{ℕ, suc, String, Bool, Option, some, List, [], ◌∷◌, Result, arith}
use proxy_core.Timestamp.{FiniteTimestamp}
use proxy_core.Topology.{Role}
use proxy_core.Identity.Store.{IdentityError, Db}
use proxy_core.Identity.Service.{
  Service, load, ensure_bootstrapped, set_node_unlinked, transition_to, record_imported_snapshot,
  promote, demote,
}
use proxy_core.Identity.Enrollment.{commit_node_enrollment, with_atomic_enrollment}
use proxy_core.Identity.Sync.{IsGeneration, Synced}
use proxy_core.Identity.Sync.Methods.{
  load-Synced, ensure_bootstrapped-Synced, set_node_unlinked-Synced, transition_to-Synced,
  record_imported_snapshot-Synced,
}
use proxy_core.Identity.Sync.Workflows.{promote-Synced, demote-Synced}
use proxy_core.Identity.Sync.Enrolling.{
  Honest, with_atomic_enrollment-Synced, commit_node_enrollment-Synced,
}

-- A call of the service.
pub data Call : Type 0 where
  loads : Call
  boots : String → String → Call
  unlinks : Bool → Call
  transitions : Role → Call
  imports : ℕ → Call
  promotes : String → Option ℕ → Call
  demotes : String → Option ℕ → Call
  commits : Option String → ℕ → Call
  activates : FiniteTimestamp → (Db → Db × Result IdentityError Role) → Call

unfoldable pub step : Service → Call → Service
step s loads = (load s).0
step s (boots installation_id node_id) = (ensure_bootstrapped installation_id node_id s).0
step s (unlinks b) = (set_node_unlinked b s).0
step s (transitions role) = (transition_to role s).0
step s (imports g) = (record_imported_snapshot g s).0
step s (promotes actor g) = (promote actor g s).0
step s (demotes actor g) = (demote actor g s).0
step s (commits key g) = (commit_node_enrollment key g s).0
step s (activates now activate) = (with_atomic_enrollment now (some activate) s).0

unfoldable pub run : Service → List Call → Service
run s [] = s
run s (c ∷ cs) = run (step s c) cs

-- The generations that a call brings in, or makes, are below 2^63, and a callback is honest.
abbrev pub Fits : Service → Call → Type 0
Fits s (imports g) = IsGeneration g
Fits s (commits key g) = IsGeneration g
Fits s (promotes actor g) = IsGeneration (suc s.cached.latest_known_generation)
Fits s (activates now activate) = Honest activate
Fits s loads = Unit
Fits s (boots installation_id node_id) = Unit
Fits s (unlinks b) = Unit
Fits s (transitions role) = Unit
Fits s (demotes actor g) = Unit

abbrev pub AllFit : Service → List Call → Type 0
AllFit s [] = Unit
AllFit s (c ∷ cs) = Fits s c × AllFit (step s c) cs

pub step-Synced :
    {low seen : ℕ} (s : Service) (c : Call)
    → Fits s c
    → Synced low seen s
    → Synced low seen (step s c)
unfolding step
step-Synced s loads f v = load-Synced s v
step-Synced s (boots installation_id node_id) f v =
    ensure_bootstrapped-Synced installation_id node_id s v
step-Synced s (unlinks b) f v = set_node_unlinked-Synced b s v
step-Synced s (transitions role) f v = transition_to-Synced role s v
step-Synced s (imports g) f v = record_imported_snapshot-Synced g s f v
step-Synced s (promotes actor g) f v = promote-Synced actor g s f v
step-Synced s (demotes actor g) f v = demote-Synced actor g s v
step-Synced s (commits key g) f v = commit_node_enrollment-Synced key g s f v
step-Synced s (activates now activate) f v = with_atomic_enrollment-Synced now activate s f v

run_from-Synced :
    {low seen : ℕ} (s : Service) (cs : List Call)
    → AllFit s cs
    → Synced low seen s
    → Synced low seen (run s cs)
unfolding run
run_from-Synced s [] f v = v
run_from-Synced s (c ∷ cs) f v = run_from-Synced (step s c) cs f.1 (step-Synced s c f.0 v)

rebase :
    {low seen : ℕ} (s : Service)
    → Synced low seen s
    → Synced s.cached.leadership_generation s.cached.latest_known_generation s
rebase s v = record {
  row = v.row;
  stored = v.stored;
  agrees = v.agrees;
  ordered = v.ordered;
  bounded = v.bounded;
  above = omega arith;
  seen_above = omega arith;
  is_loaded = v.is_loaded;
  is_transactional = v.is_transactional;
  provisioner_keeps = v.provisioner_keeps;
}

-- Take a loaded service over the SQLite store whose cache repeats the stored row, with its two
-- generations in order and below 2^63, and whose cluster key provisioner, if it has one, leaves the
-- row alone. Make any sequence of the calls load, ensure_bootstrapped, set_node_unlinked,
-- transition_to, record_imported_snapshot, promote, demote, commit_node_enrollment and
-- with_atomic_enrollment, where the generations that they bring in or make are below 2^63, and where
-- the callback of with_atomic_enrollment leaves the row alone if it fails and otherwise sets its
-- role to the one that it reports, a primary with or without nodes, and changes nothing else but its
-- time of update. Let any other database calls fail. Then the cache still repeats the row, and
-- neither generation is lower than at the start.
pub run-Synced :
    {low seen : ℕ} (s : Service) (cs : List Call)
    → AllFit s cs
    → Synced low seen s
    → Synced s.cached.leadership_generation s.cached.latest_known_generation (run s cs)
run-Synced s cs f v = run_from-Synced s cs f (rebase s v)
