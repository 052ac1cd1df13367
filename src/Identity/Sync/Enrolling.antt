-- ===== src/Identity/Sync/Enrolling.antt =====
-- About WithAtomicEnrollment and CommitNodeEnrollment of apps/api/internal/identity/enrollment.go.
use proxy_core.Base.{
  ℕ, ◌≡◌, ◌⊎◌, ◌||◌, true, false, not, if◌then◌else◌, refl, String, Bool, Option, none, some,
  Result, ok, err, arith, ltb, inl, inr, Bool-cases,
}
use proxy_core.Timestamp.{FiniteTimestamp}
use proxy_core.Topology.{Role, primary, primary_with_nodes, node, role_eq, is_allowed_transition}
use proxy_core.Identity.{Identity, can_enroll_as_node}
use proxy_core.Identity.Store.{
  IdentityError, IdentityRow, Db, not_loaded, set_leadership, set_key, update_leadership_generation,
  update_cluster_key_id,
}
use proxy_core.Identity.Service.{Service, M, and_then, with_db, ensure_cluster_key, return, raise}
use proxy_core.Identity.Enrollment.{
  enter_node, adopt_generation, bind_key, commit_writes, commit_node_enrollment, is_nil_key,
  with_atomic_enrollment, activate_with, finish_activation, already_committed,
}
use proxy_core.Identity.Sync.{IsGeneration, Agrees, Synced, raise_bounds, write_step}
use proxy_core.Identity.Sync.Methods.{
  Agrees-key, Agrees-leadership, ensure_cluster_key-Synced, update_role_lem, Agrees-role,
}

and_then-Synced :
    {low seen : ℕ} {A B : Type 0} (p : Service × Result IdentityError A) (k : A → M B)
    → Synced low seen p.0
    → ((a : A) (t : Service) → Synced low seen t → Synced low seen (k a t).0)
    → Synced low seen (and_then p k).0
and_then-Synced (t, ok a) k v next = next a t v
and_then-Synced (t, err e) k v next = v

enter_node-Synced :
    {low seen : ℕ} (role : Role) (s : Service)
    → Synced low seen s
    → Synced low seen (enter_node role s).0
unfolding enter_node
enter_node-Synced role s v = elim (Bool-cases (role_eq role node)) [
  | inl same ↦ rw same v
  | inr other ↦ rw other (elim (Bool-cases (is_allowed_transition role node)) [
    | inr refused ↦ rw refused v
    | inl allowed ↦
        rw (allowed, update_role_lem node s.db refl)
          (write_step _ (λ i. record i { role = node }) (return tt) s v (Agrees-role node v.agrees)
            v.ordered v.bounded v.above v.seen_above (λ t w _. w))
  ])
]

adopt_generation-Synced :
    {low seen : ℕ} (g : ℕ) (s : Service)
    → IsGeneration g
    → Synced low seen s
    → Synced low seen (adopt_generation g s).0
unfolding adopt_generation update_leadership_generation
adopt_generation-Synced g s h v = elim (Bool-cases (ltb s.cached.leadership_generation g)) [
  | inr behind ↦ rw behind v
  | inl ahead ↦
      let (bound, kept, up) = raise_bounds s.cached.latest_known_generation g v.bounded h in
      rw ahead (
        write_step (set_leadership g)
          (λ i. record i {
            leadership_generation = g;
            latest_known_generation = raise i.latest_known_generation g;
          })
          (return tt) s v (Agrees-leadership g h v.bounded v.agrees) up bound
          (ground (arith, v.above)) (omega (arith, v.seen_above, kept)) (λ t w _. w))
]

bind_key-Synced :
    {low seen : ℕ} (key : Option String) (s : Service)
    → Synced low seen s
    → Synced low seen (bind_key key s).0
unfolding bind_key update_cluster_key_id
bind_key-Synced none s v = v
bind_key-Synced (some key) s v =
    write_step (set_key (some key)) (λ i. record i { cluster_key_id = some key }) (return tt) s v
      (Agrees-key (some key) v.agrees) v.ordered v.bounded v.above v.seen_above (λ t w _. w)

commit_writes-Synced :
    {low seen : ℕ} (key : Option String) (g : ℕ) (s : Service)
    → IsGeneration g
    → Synced low seen s
    → Synced low seen (commit_writes key g s).0
unfolding commit_writes
commit_writes-Synced key g s h v =
    and_then-Synced (enter_node s.cached.role s) _ (enter_node-Synced s.cached.role s v) λ _ t w.
      and_then-Synced (adopt_generation g t) _ (adopt_generation-Synced g t h w)
        λ _ u x. and_then-Synced (bind_key key u) _ (bind_key-Synced key u x) (λ _ z y. y)

pub commit_node_enrollment-Synced :
    {low seen : ℕ} (key : Option String) (g : ℕ) (s : Service)
    → IsGeneration g
    → Synced low seen s
    → Synced low seen (commit_node_enrollment key g s).0
unfolding commit_node_enrollment
commit_node_enrollment-Synced key g s h v = simp v.is_loaded (elim (Bool-cases (is_nil_key key)) [
  | inl zero_key ↦ rw zero_key v
  | inr real ↦ rw real (elim (Bool-cases (already_committed s.cached key g)) [
    | inl before ↦ rw before v
    | inr new ↦ rw new (elim (Bool-cases (can_enroll_as_node s.cached)) [
      | inr refused ↦ rw refused v
      | inl able ↦ rw able (commit_writes-Synced key g s h v)
    ])
  ])
])

-- A callback of WithAtomicEnrollment, on a stored row: where it fails it leaves the row alone, and
-- where it succeeds it has set the role of the row to the one it reports, a primary with or without
-- nodes, and nothing else but the time of update.
abbrev pub HonestResult : IdentityRow → Db × Result IdentityError Role → Type 0
HonestResult r (db, err e) = db.identity ≡ some r
HonestResult r (db, ok role) =
    ((role ≡ primary) ⊎ (role ≡ primary_with_nodes))
    × (now : FiniteTimestamp) × (db.identity ≡ some (record r { role = role; updated_at = now }))

abbrev pub Honest : (Db → Db × Result IdentityError Role) → Type 0
Honest activate = (db : Db) (r : IdentityRow) → db.identity ≡ some r → HonestResult r (activate db)

Agrees-activated :
    (role : Role) (at now : FiniteTimestamp) {r : IdentityRow} {i : Identity}
    → Agrees r i
    → Agrees
        (record r { role = role; updated_at = at })
        (record i { role = role; updated_at = now })
Agrees-activated role at now a = ground arith

activated-Synced :
    {low seen : ℕ} (now : FiniteTimestamp) (s : Service)
    → (v : Synced low seen s) → (q : Db × Result IdentityError Role) → HonestResult v.row q
    → Synced low seen (and_then (with_db s q) (finish_activation now)).0
unfolding finish_activation
activated-Synced now s v (db, err e) h = record {
  row = v.row;
  stored = h;
  agrees = v.agrees;
  ordered = v.ordered;
  bounded = v.bounded;
  above = v.above;
  seen_above = v.seen_above;
  is_loaded = v.is_loaded;
  is_transactional = v.is_transactional;
  provisioner_keeps = v.provisioner_keeps;
}
activated-Synced now s v (db, ok role) (kind, at, h) =
    let accepted : (role_eq role primary || role_eq role primary_with_nodes) ≡ true =
      ground (arith, kind) in
    rw accepted (record {
      row = record v.row { role = role; updated_at = at };
      stored = h;
      agrees = Agrees-activated role at now v.agrees;
      ordered = v.ordered;
      bounded = v.bounded;
      above = v.above;
      seen_above = v.seen_above;
      is_loaded = v.is_loaded;
      is_transactional = v.is_transactional;
      provisioner_keeps = v.provisioner_keeps;
    })

loaded_only :
    {low seen : ℕ} {A : Type 0} (is_loaded : Bool)
    → is_loaded ≡ true
    → (p q : Service × Result IdentityError A) → Synced low seen q.0
    → Synced low seen (if not is_loaded then p else q).0
loaded_only true h p q v = v
loaded_only false h p q v = absurd (cc)

pub with_atomic_enrollment-Synced :
    {low seen : ℕ} (now : FiniteTimestamp) (activate : Db → Db × Result IdentityError Role)
    (s : Service)
    → Honest activate
    → Synced low seen s
    → Synced low seen (with_atomic_enrollment now (some activate) s).0
unfolding with_atomic_enrollment activate_with
with_atomic_enrollment-Synced now activate s h v =
    loaded_only s.loaded v.is_loaded (s, err not_loaded) (activate_with now (some activate) s)
      (and_then-Synced (ensure_cluster_key s) _ (ensure_cluster_key-Synced s v)
        λ _ t w. activated-Synced now t w (activate t.db) (h t.db w.row w.stored))
