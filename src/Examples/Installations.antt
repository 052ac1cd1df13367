-- ===== src/Examples/Installations.antt =====
-- Installations: a primary, a stale primary, and calls of their services.
use proxy_core.Base.{
  ℕ, ◌≡◌, ◌⊎◌, refl, String, Bool, true, false, Option, none, some, List, [], ◌∷◌, Result, ok, err,
  arith, inl,
}
use proxy_core.Base.Int.{pos}
use proxy_core.Timestamp.{FiniteTimestamp}
use proxy_core.Topology.{Role, primary, node, stale_primary, is_allowed_transition}
use proxy_core.Identity.{can_enroll_as_node}
use proxy_core.Identity.Store.{
  IdentityRow, IdentityError, io, ineligible, Db, write, sqlite_update, update_role,
  update_leadership_generation, update_latest_known_generation, update_cluster_key_id,
  scan_identity, consume,
}
use proxy_core.Identity.Retire.{PromoteInput, TopologyChange, promote_topology}
use proxy_core.Identity.Service.{
  Service, record_imported_snapshot, enters_stale, move_when, move_role,
}
use proxy_core.Identity.Enrollment.{
  commit_node_enrollment, commit_writes, already_committed, enter_node, adopt_generation, bind_key,
}
use proxy_core.Identity.Sync.{Synced}
use proxy_core.Identity.Sync.History.{
  Call, loads, boots, unlinks, imports, commits, activates, run, run-Synced,
}
use proxy_core.Identity.Sync.Enrolling.{Honest}
use proxy_core.Identity.Laws.{Promoted, can_promote, promote_topology-Promoted}
use proxy_core.Identity.Stale.{Recorded, record_imported_snapshot-Recorded}
use proxy_core.Identity.Commit.{
  Committed, Replaces, commit_node_enrollment-Committed, commit_node_enrollment_stuck,
}

abbrev now : FiniteTimestamp
now = record { seconds = pos 100; nanos = pos 0 }

abbrev own : String
own = "00000000-0000-4000-8000-0000000000aa"

abbrev delivered : String
delivered = "00000000-0000-4000-8000-0000000000bb"

abbrev row_as : Role → Option String → ℕ → ℕ → IdentityRow
row_as role key leadership latest = record {
  installation_id = "00000000-0000-4000-8000-000000000001";
  node_id = "00000000-0000-4000-8000-000000000002";
  role = role;
  leadership_generation = leadership;
  latest_known_generation = latest;
  cluster_key_id = key;
  updated_at = now;
}

abbrev db_of : IdentityRow → List Bool → Db
db_of r faults = record {
  identity = some r;
  node_credentials = record { id = "c"; revoked_at = none } ∷ [];
  enrolled_nodes = [];
  cluster_keys = [];
  node_state = [];
  health_components = [];
  audit_events = [];
  faults = faults;
  clock = now;
}

abbrev service_of : IdentityRow → List Bool → Service
service_of r faults = record {
  db = db_of r faults;
  cached = scan_identity r;
  loaded = true;
  provisioner = none;
  transactional = true;
}

abbrev stale : IdentityRow
stale = row_as stale_primary (some own) 3 5

abbrev promotion : PromoteInput
promotion = record {
  actor_user_id = "u";
  from_role = stale_primary;
  from_generation = 3;
  next_generation = 6;
}

promote_topology_example :
    ((can_promote promotion (db_of stale []) stale ≡ false)
      × ((e : IdentityError) × (promote_topology promotion (db_of stale [])
            ≡ (consume (db_of stale []), err e))))
    ⊎ ((can_promote promotion (db_of stale []) stale ≡ true)
        × ((t : Db) × (change : TopologyChange) × (promote_topology promotion (db_of stale [])
              ≡ (t, ok change))
            × Promoted promotion stale (db_of stale []) t change))
promote_topology_example = promote_topology-Promoted promotion (db_of stale []) stale refl

abbrev leader : IdentityRow
leader = row_as primary (some own) 3 3

-- The leader learns of generation 5.
abbrev led : Service
led = service_of (row_as stale_primary (some own) 3 5) []

records : record_imported_snapshot 5 (service_of leader []) ≡ (led, ok led.cached)
unfolding record_imported_snapshot enters_stale move_when move_role update_latest_known_generation
    update_role sqlite_update write
records = refl

record_imported_snapshot_example : Recorded 5 (service_of leader []).cached led.cached
record_imported_snapshot_example =
    (record_imported_snapshot-Recorded 5 (service_of leader []) records).1

abbrev failing : Service
failing = service_of leader (false ∷ false ∷ true ∷ [])

failing-Synced : Synced 0 0 failing
failing-Synced = record {
  row = leader;
  stored = refl;
  agrees = record {
    same_installation = refl;
    same_node = refl;
    same_role = refl;
    same_leadership = refl;
    same_latest = refl;
    same_key = refl;
  };
  ordered = omega arith;
  bounded = omega arith;
  above = omega arith;
  seen_above = omega arith;
  is_loaded = refl;
  is_transactional = refl;
  provisioner_keeps = tt;
}

-- An activation that makes the row a primary.
abbrev leads : Db → Db × Result IdentityError Role
leads db = (
  record db {
    identity = elim db.identity [
      | none ↦ none
      | some r ↦ some (record r { role = primary; updated_at = db.clock })
    ];
  },
  ok primary,
)

leads-Honest : Honest leads
leads-Honest db r h = (inl refl, db.clock, rw h refl)

-- Superseded, with a failing write in between, activated, and enrolled under the new primary.
abbrev history : List Call
history =
    loads
    ∷ boots "i" "n"
    ∷ imports 5
    ∷ activates now leads
    ∷ unlinks true
    ∷ commits (some delivered) 5
    ∷ []

run_example : Synced 3 3 (run failing history)
run_example =
    run-Synced failing history (tt, (tt, (omega arith, (leads-Honest, (tt, (omega arith, tt))))))
      failing-Synced

abbrev enrolled : Service
enrolled = service_of (row_as node (some delivered) 5 5) []

commits_key :
    commit_node_enrollment (some delivered) 5 (service_of leader [])
    ≡ (enrolled, ok enrolled.cached)
unfolding commit_node_enrollment commit_writes already_committed can_enroll_as_node enter_node
    adopt_generation bind_key update_leadership_generation update_cluster_key_id update_role
    sqlite_update write is_allowed_transition
commits_key = refl

commit_node_enrollment_example :
    (enrolled.cached ≡ enrolled.cached)
    × Committed delivered 5 enrolled.cached
    × (commit_node_enrollment (some delivered) 5 enrolled ≡ (enrolled, ok enrolled.cached))
commit_node_enrollment_example =
    commit_node_enrollment-Committed delivered 5 (service_of leader []) commits_key

abbrev interrupted : Service
interrupted = service_of leader (false ∷ true ∷ [])

leader-Replaces : Replaces interrupted leader own delivered 3
leader-Replaces = record {
  loaded = refl;
  stored = refl;
  own_role = inl refl;
  own_key = refl;
  linked = refl;
  differs = refl;
  real = refl;
  reached = omega arith;
}

commit_node_enrollment_stuck_example :
    let t = (commit_node_enrollment (some delivered) 3 interrupted).0 in
    ((commit_node_enrollment (some delivered) 3 interrupted).1 ≡ err io)
    × (t.cached.role ≡ node)
    × (t.cached.cluster_key_id ≡ some own)
    × (commit_node_enrollment (some delivered) 3 t ≡ (t, err ineligible))
commit_node_enrollment_stuck_example =
    commit_node_enrollment_stuck interrupted leader own delivered 3 [] leader-Replaces refl
