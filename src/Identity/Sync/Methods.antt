-- ===== src/Identity/Sync/Methods.antt =====
-- About the methods of apps/api/internal/identity/service.go that change one column.
use proxy_core.Base.{
  ℕ, ◌≡◌, refl, ◌∙◌, String, Bool, true, false, Option, none, some, Result, ok, err, arith, inl,
  inr, ◌⊎◌, Bool-cases, str_eq,
}
use proxy_core.Topology.{Role, is_valid, stale_primary, role_eq, is_allowed_transition}
use proxy_core.Identity.{Identity, is_some}
use proxy_core.Identity.Store.{
  IdentityError, IdentityRow, Db, get, sqlite_update, update_role, update_latest_known_generation,
  update_cluster_key_id, set_role, set_leadership, set_latest, set_key, consume, fault_head, io,
  invalid_role, scan_identity, checked_row,
}
use proxy_core.Identity.Service.{
  Service, and_then, cached_identity, raise, load, bootstrap, ensure_bootstrapped, transition_to,
  move_role, record_imported_snapshot, move_when, enters_stale, ensure_cluster_key, adopt_key,
  provisions, nil_uuid, set_node_unlinked, return, provision_with, with_db,
}
use proxy_core.Identity.Sync.{
  Agrees, IsGeneration, KeepsRow, Synced, max_int64-raise, raise_bounds, Synced-consume, write_step,
}

-- The updates of one column agree with the changes of the cache.
pub Agrees-role :
    (role : Role) {r : IdentityRow} {i : Identity}
    → Agrees r i
    → Agrees (set_role role r) (record i { role = role })
Agrees-role role a = ground arith

pub Agrees-key :
    (key : Option String) {r : IdentityRow} {i : Identity}
    → Agrees r i
    → Agrees (set_key key r) (record i { cluster_key_id = key })
Agrees-key key a = ground arith

Agrees-latest :
    (g : ℕ) {r : IdentityRow} {i : Identity}
    → IsGeneration g
    → IsGeneration i.latest_known_generation
    → Agrees r i
    → Agrees
        (set_latest g r)
        (record i { latest_known_generation = raise i.latest_known_generation g })
Agrees-latest g {r} {i} h k a = ground (arith, max_int64-raise i.latest_known_generation g k h)

pub Agrees-leadership :
    (g : ℕ) {r : IdentityRow} {i : Identity}
    → IsGeneration g
    → IsGeneration i.latest_known_generation
    → Agrees r i
    → Agrees (set_leadership g r) (record i {
      leadership_generation = g;
      latest_known_generation = raise i.latest_known_generation g;
    })
Agrees-leadership g {r} {i} h k a = ground (arith, max_int64-raise i.latest_known_generation g k h)

pub update_role_lem :
    (role : Role) (db : Db)
    → is_valid role ≡ true
    → update_role role db ≡ sqlite_update (set_role role) db
unfolding update_role
update_role_lem role db h = rw h

pub move_role-Synced :
    {low seen : ℕ} (role : Role) (s : Service)
    → is_valid role ≡ true
    → Synced low seen s
    → Synced low seen (move_role role s).0
unfolding move_role
move_role-Synced role s h v = rw (update_role_lem role s.db h) (
    write_step (set_role role) (λ i. record i { role = role }) cached_identity s v
      (Agrees-role role v.agrees) v.ordered v.bounded v.above v.seen_above (λ t w _. w))

pub transition_to-Synced :
    {low seen : ℕ} (role : Role) (s : Service)
    → Synced low seen s
    → Synced low seen (transition_to role s).0
unfolding transition_to
transition_to-Synced role s v = elim (Bool-cases (is_valid role)) [
  | inr bad ↦ rw bad v
  | inl good ↦ rw good (elim (Bool-cases (role_eq s.cached.role role)) [
    | inl same ↦ rw same v
    | inr other ↦ rw other (elim (Bool-cases (is_allowed_transition s.cached.role role)) [
      | inr refused ↦ rw refused v
      | inl allowed ↦ rw allowed (move_role-Synced role s good v)
    ])
  ])
]

move_when-Synced :
    {low seen : ℕ} (b : Bool) (s : Service)
    → Synced low seen s
    → Synced low seen (move_when b stale_primary s).0
unfolding move_when
move_when-Synced true s v = move_role-Synced stale_primary s refl v
move_when-Synced false s v = v

pub record_imported_snapshot-Synced :
    {low seen : ℕ} (g : ℕ) (s : Service)
    → IsGeneration g
    → Synced low seen s
    → Synced low seen (record_imported_snapshot g s).0
unfolding record_imported_snapshot update_latest_known_generation
record_imported_snapshot-Synced g s h v =
    let (bound, up, _) = raise_bounds s.cached.latest_known_generation g v.bounded h in
    write_step (set_latest g)
      (λ i. record i { latest_known_generation = raise i.latest_known_generation g })
      (move_when (enters_stale s.cached g) stale_primary) s v (Agrees-latest g h v.bounded v.agrees)
      (omega (arith, v.ordered, up)) bound v.above (omega (arith, v.seen_above, up))
      (λ t w _. move_when-Synced (enters_stale s.cached g) t w)

pub set_node_unlinked-Synced :
    {low seen : ℕ} (b : Bool) (s : Service)
    → Synced low seen s
    → Synced low seen (set_node_unlinked b s).0
unfolding set_node_unlinked
set_node_unlinked-Synced b s v = record {
  row = v.row;
  stored = v.stored;
  agrees = Agrees-unlinked b v.agrees;
  ordered = v.ordered;
  bounded = v.bounded;
  above = v.above;
  seen_above = v.seen_above;
  is_loaded = v.is_loaded;
  is_transactional = v.is_transactional;
  provisioner_keeps = v.provisioner_keeps;
}
  where
    Agrees-unlinked :
        (b : Bool) {r : IdentityRow} {i : Identity}
        → Agrees r i
        → Agrees r (record i { node_unlinked = b })
    Agrees-unlinked b a = ground arith

adopt_key-Synced :
    {low seen : ℕ} (key : String) (s : Service)
    → Synced low seen s
    → Synced low seen (adopt_key key s).0
unfolding adopt_key update_cluster_key_id
adopt_key-Synced key s v = elim (Bool-cases (str_eq key nil_uuid)) [
  | inl zero_key ↦ rw zero_key v
  | inr real ↦ rw real (
      write_step (set_key (some key)) (λ i. record i { cluster_key_id = some key }) (return tt) s v
        (Agrees-key (some key) v.agrees) v.ordered v.bounded v.above v.seen_above (λ t w _. w))
]

-- A database whose row is as before keeps the invariant.
Synced-db :
    {low seen : ℕ} (s : Service) (db : Db)
    → db.identity ≡ s.db.identity
    → Synced low seen s
    → Synced low seen (record s { db = db })
Synced-db s db e v = record {
  row = v.row;
  stored = e ∙ v.stored;
  agrees = v.agrees;
  ordered = v.ordered;
  bounded = v.bounded;
  above = v.above;
  seen_above = v.seen_above;
  is_loaded = v.is_loaded;
  is_transactional = v.is_transactional;
  provisioner_keeps = v.provisioner_keeps;
}

after_provision :
    {low seen : ℕ} (s : Service) (db : Db) (r : Result IdentityError String)
    → db.identity ≡ s.db.identity
    → Synced low seen s
    → Synced low seen (and_then (with_db s (db, r)) adopt_key).0
after_provision s db (ok key) e v = adopt_key-Synced key (record s { db = db }) (Synced-db s db e v)
after_provision s db (err x) e v = Synced-db s db e v

provision_with-Synced :
    {low seen : ℕ} (p : Option (Db → Db × Result IdentityError String)) (s : Service)
    → KeepsRow p
    → Synced low seen s
    → Synced low seen (provision_with p s).0
unfolding provision_with
provision_with-Synced none s keeps v = v
provision_with-Synced (some provision) s keeps v =
    elim (Bool-cases (is_some s.cached.cluster_key_id)) [
      | inl has ↦ rw has v
      | inr lacks ↦ rw lacks (elim (Bool-cases (provisions s.cached.role)) [
        | inr other ↦ rw other v
        | inl able ↦
            rw able (after_provision s (provision s.db).0 (provision s.db).1 (keeps s.db) v)
      ])
    ]

pub ensure_cluster_key-Synced :
    {low seen : ℕ} (s : Service) → Synced low seen s → Synced low seen (ensure_cluster_key s).0
unfolding ensure_cluster_key
ensure_cluster_key-Synced s v = provision_with-Synced s.provisioner s v.provisioner_keeps v

-- A read gives the row, or fails and changes nothing.
pub get_cases :
    (db : Db) (r : IdentityRow)
    → db.identity ≡ some r
    → ((e : IdentityError) × (get db ≡ (consume db, err e)))
      ⊎ (get db ≡ (consume db, ok (scan_identity r)))
unfolding get
get_cases db r e = elim (Bool-cases (fault_head db.faults)) [
  | inl failing ↦ inl (io, rw failing refl)
  | inr fine ↦ elim (Bool-cases (is_valid r.role)) [
    | inl known ↦ inr (rw (fine, e, checked_row) (rw known refl))
    | inr unknown ↦ inl (invalid_role, rw (fine, e, checked_row) (rw unknown refl))
  ]
]

Agrees-scan : (r : IdentityRow) → Agrees r (scan_identity r)
Agrees-scan r = ground arith

loaded-Synced :
    {low seen : ℕ} (s : Service) (v : Synced low seen s)
    → Synced low seen (record s { db = consume s.db; cached = scan_identity v.row; loaded = true })
loaded-Synced s v = record {
  row = v.row;
  stored = v.stored;
  agrees = Agrees-scan v.row;
  ordered = omega (arith, v.ordered, v.agrees.same_leadership, v.agrees.same_latest);
  bounded = omega (arith, v.bounded, v.agrees.same_latest);
  above = omega (arith, v.above, v.agrees.same_leadership);
  seen_above = omega (arith, v.seen_above, v.agrees.same_latest);
  is_loaded = refl;
  is_transactional = v.is_transactional;
  provisioner_keeps = v.provisioner_keeps;
}

-- Attaching to the stored row again.
pub load-Synced : {low seen : ℕ} (s : Service) → Synced low seen s → Synced low seen (load s).0
unfolding load
load-Synced s v = elim (get_cases s.db v.row v.stored) [
  | inl (x, e) ↦ rw e (Synced-consume s v)
  | inr e ↦ rw e (loaded-Synced s v)
]

-- A read of a stored row does not miss it.
get_reads :
    (db : Db) (r : IdentityRow)
    → db.identity ≡ some r
    → (get db ≡ (consume db, err io))
      ⊎ ((get db ≡ (consume db, err invalid_role)) ⊎ (get db ≡ (consume db, ok (scan_identity r))))
unfolding get
get_reads db r e = elim (Bool-cases (fault_head db.faults)) [
  | inl failing ↦ inl (rw failing refl)
  | inr fine ↦ elim (Bool-cases (is_valid r.role)) [
    | inl known ↦ inr (inr (rw (fine, e, checked_row) (rw known refl)))
    | inr unknown ↦ inr (inl (rw (fine, e, checked_row) (rw unknown refl)))
  ]
]

-- The boot of an installation that is stored already.
pub ensure_bootstrapped-Synced :
    {low seen : ℕ} (installation_id node_id : String) (s : Service)
    → Synced low seen s
    → Synced low seen (ensure_bootstrapped installation_id node_id s).0
unfolding ensure_bootstrapped bootstrap
ensure_bootstrapped-Synced installation_id node_id s v = elim (get_reads s.db v.row v.stored) [
  | inl failing ↦ rw failing (Synced-consume s v)
  | inr (inl unknown) ↦ rw unknown (Synced-consume s v)
  | inr (inr e) ↦ rw e (loaded-Synced s v)
]
