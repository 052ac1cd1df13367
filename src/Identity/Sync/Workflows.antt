-- ===== src/Identity/Sync/Workflows.antt =====
-- About Promote and Demote of apps/api/internal/identity/topology.go.
use proxy_core.Base.{
  ℕ, suc, ◌<◌, ◌≤◌, ◌≡◌, refl, ap, ◌∙◌, String, Option, none, some, Result, ok, err, arith, leb,
  inl, inr, ◌⊎◌, Bool-cases, ◌&&◌, ◌==◌,
}
use proxy_core.Topology.{primary, node, role_eq, next_generation}
use proxy_core.Identity.{Identity}
use proxy_core.Identity.Store.{
  IdentityError, io, invalid_transition, generation_mismatch, IdentityRow, Db, write, commit,
  consume,
}
use proxy_core.Identity.Retire.{
  PromoteInput, DemoteInput, TopologyChange, promotable_from, demotable_from, promote_topology,
  promote_row, promoted_db, promoted_row, demote_topology, demote_row, demoted_db, demoted_row,
  count_active,
}
use proxy_core.Identity.Service.{
  Service, promotion_generation, promote, promote_next, promote_transaction, adopt_change, with_key,
  expected, demote, demote_transaction,
}
use proxy_core.Identity.Sync.{
  Agrees, IsGeneration, Synced, max_int64-raise, raise_bounds, Synced-consume,
}
use proxy_core.Identity.Sync.Methods.{ensure_cluster_key-Synced}

-- What a successful promotion returns.
abbrev pub promote_change : PromoteInput → Db → TopologyChange
promote_change i db = record {
  role = primary;
  generation = i.next_generation;
  cluster_key_id = none;
  revoked_credentials = count_active db.node_credentials;
}

-- A transaction fails at once, or commits what its callback makes of the database.
write_cases :
    {A : Type 0} (db : Db) (f : Db → Result IdentityError (Db × A))
    → (write db f ≡ (consume db, err io)) ⊎ (write db f ≡ commit (consume db) (f (consume db)))
unfolding write
write_cases db f = ground arith

promote_row_cases :
    (i : PromoteInput) (db : Db) (r : IdentityRow)
    → ((e : IdentityError) × (promote_row i db (some r) ≡ err e))
      ⊎ ((promote_row i db (some r) ≡ ok (promoted_db i db r, promote_change i db))
          × (r.latest_known_generation < i.next_generation)
          × (r.leadership_generation ≡ i.from_generation))
unfolding promote_row
promote_row_cases i db r =
    elim (Bool-cases (promotable_from r.role && role_eq r.role i.from_role)) [
      | inr other ↦ inl (invalid_transition, rw other refl)
      | inl same ↦ elim (Bool-cases (r.leadership_generation == i.from_generation)) [
        | inr moved ↦ inl (generation_mismatch, rw (same, moved) refl)
        | inl here ↦ elim (Bool-cases (leb i.next_generation r.latest_known_generation)) [
          | inl behind ↦ inl (generation_mismatch, rw (same, here, behind) refl)
          | inr ahead ↦ inr (rw (same, here, ahead) refl, ground arith, ground arith)
        ]
      ]
    ]

-- The transaction fails and changes nothing, or it has promoted the row, whose generations are
-- then below the new one.
pub promote_topology_cases :
    (i : PromoteInput) (db : Db) (r : IdentityRow)
    → db.identity ≡ some r
    → ((e : IdentityError) × (promote_topology i db ≡ (consume db, err e)))
      ⊎ ((promote_topology i db ≡ (promoted_db i (consume db) r, ok (promote_change i db)))
          × (r.latest_known_generation < i.next_generation)
          × (r.leadership_generation ≡ i.from_generation))
unfolding promote_topology
promote_topology_cases i db r e = elim (write_cases db (λ d. promote_row i d d.identity)) [
  | inl failed ↦ inl (io, failed)
  | inr run ↦
      let read =
        ap (λ (o : Option IdentityRow). commit (consume db) (promote_row i (consume db) o)) e in
      elim (promote_row_cases i (consume db) r) [
        | inl (x, refused) ↦ inl (x, run ∙ read ∙ ap (commit (consume db)) refused)
        | inr (done, above, same) ↦ inr (run ∙ read ∙ ap (commit (consume db)) done, above, same)
      ]
]

-- What a successful demotion returns.
abbrev pub demote_change : IdentityRow → Db → TopologyChange
demote_change r db = record {
  role = node;
  generation = r.leadership_generation;
  cluster_key_id = none;
  revoked_credentials = count_active db.node_credentials;
}

demote_row_cases :
    (i : DemoteInput) (db : Db) (r : IdentityRow)
    → ((e : IdentityError) × (demote_row i db (some r) ≡ err e))
      ⊎ (demote_row i db (some r) ≡ ok (demoted_db i db r, demote_change r db))
unfolding demote_row
demote_row_cases i db r = elim (Bool-cases (demotable_from r.role && role_eq r.role i.from_role)) [
  | inr other ↦ inl (invalid_transition, rw other refl)
  | inl same ↦ elim (Bool-cases (r.leadership_generation == i.from_generation)) [
    | inr moved ↦ inl (generation_mismatch, rw (same, moved) refl)
    | inl here ↦ inr (rw (same, here) refl)
  ]
]

pub demote_topology_cases :
    (i : DemoteInput) (db : Db) (r : IdentityRow)
    → db.identity ≡ some r
    → ((e : IdentityError) × (demote_topology i db ≡ (consume db, err e)))
      ⊎ (demote_topology i db ≡ (demoted_db i (consume db) r, ok (demote_change r db)))
unfolding demote_topology
demote_topology_cases i db r e = elim (write_cases db (λ d. demote_row i d d.identity)) [
  | inl failed ↦ inl (io, failed)
  | inr run ↦
      let read =
        ap (λ (o : Option IdentityRow). commit (consume db) (demote_row i (consume db) o)) e in
      elim (demote_row_cases i (consume db) r) [
        | inl (x, refused) ↦ inl (x, run ∙ read ∙ ap (commit (consume db)) refused)
        | inr done ↦ inr (run ∙ read ∙ ap (commit (consume db)) done)
      ]
]

-- The promoted row and the cache after the promotion.
promoted-Agrees :
    (i : PromoteInput) (db : Db) {r : IdentityRow} {c : Identity}
    → IsGeneration i.next_generation
    → IsGeneration c.latest_known_generation
    → Agrees r c
    → Agrees (promoted_row i (consume db) r) (adopt_change (promote_change i db) c)
unfolding promoted_row adopt_change
promoted-Agrees i db {r} {c} h k a =
    ground (arith, max_int64-raise c.latest_known_generation i.next_generation k h)

with_key-state :
    (before : Identity) (n : ℕ) (p : Service × Result IdentityError (Unit {0}))
    → (with_key before n p).0 ≡ p.0
unfolding with_key
with_key-state before n (s, r) = refl

promote_transaction-Synced :
    {low seen : ℕ} (actor : String) (next : ℕ) (s : Service)
    → IsGeneration next
    → Synced low seen s
    → Synced low seen (promote_transaction actor s.cached next s).0
unfolding promote_transaction
promote_transaction-Synced actor next s h v = elim (promote_topology_cases i s.db v.row v.stored) [
  | inl (x, e) ↦ rw e (Synced-consume s v)
  | inr (e, above, same) ↦
      rw (e, with_key-state)
        (ensure_cluster_key-Synced _ (record {
          row = promoted_row i (consume s.db) v.row;
          stored = unfold promoted_db in refl;
          agrees = promoted-Agrees i s.db h v.bounded v.agrees;
          ordered =
              unfold adopt_change in
              (raise_bounds s.cached.latest_known_generation next v.bounded h).2;
          bounded =
              unfold adopt_change in
              (raise_bounds s.cached.latest_known_generation next v.bounded h).0;
          above =
              unfold adopt_change in omega (arith, v.above, v.ordered, above, v.agrees.same_latest);
          seen_above =
              unfold adopt_change in
              omega (
                arith,
                v.seen_above,
                (raise_bounds s.cached.latest_known_generation next v.bounded h).1,
              );
          is_loaded = v.is_loaded;
          is_transactional = v.is_transactional;
          provisioner_keeps = v.provisioner_keeps;
        }))
]
  where
    i : PromoteInput
    i = record {
      actor_user_id = actor;
      from_role = s.cached.role;
      from_generation = s.cached.leadership_generation;
      next_generation = next;
    }

-- The generation of a promotion is above both that the identity holds, and the next one above
-- the latest known where that is not behind the own one.
pub promotion_generation_bounds :
    (i : Identity) {n : ℕ}
    → i.leadership_generation ≤ i.latest_known_generation
    → promotion_generation i ≡ some n
    → (i.leadership_generation < n)
      × (i.latest_known_generation < n)
      × (n ≤ suc i.latest_known_generation)
unfolding promotion_generation next_generation
promotion_generation_bounds i le e = ground arith

promote_next-Synced :
    {low seen : ℕ} (actor : String) (g : Option ℕ) (s : Service)
    → promotion_generation s.cached ≡ g
    → IsGeneration (suc s.cached.latest_known_generation)
    → Synced low seen s
    → Synced low seen (promote_next actor s.cached g s).0
unfolding promote_next
promote_next-Synced actor none s e h v = v
promote_next-Synced actor (some n) s e h v =
    let (_, _, small) = promotion_generation_bounds s.cached v.ordered e in
    simp v.is_transactional (promote_transaction-Synced actor n s (omega arith) v)

pub promote-Synced :
    {low seen : ℕ} (actor : String) (g : Option ℕ) (s : Service)
    → IsGeneration (suc s.cached.latest_known_generation)
    → Synced low seen s
    → Synced low seen (promote actor g s).0
unfolding promote
promote-Synced actor g s h v = elim (Bool-cases (promotable_from s.cached.role)) [
  | inr other ↦ rw other v
  | inl able ↦ rw able (elim (Bool-cases (expected g s.cached.leadership_generation)) [
    | inr moved ↦ rw moved v
    | inl same ↦ rw same (promote_next-Synced actor (promotion_generation s.cached) s refl h v)
  ])
]

demoted-Agrees :
    (db : Db) {r : IdentityRow} {c : Identity}
    → Agrees r c
    → Agrees (demoted_row db r) (record c { role = node; cluster_key_id = none })
unfolding demoted_row
demoted-Agrees db a = ground arith

demote_transaction-Synced :
    {low seen : ℕ} (actor : String) (s : Service)
    → Synced low seen s
    → Synced low seen (demote_transaction actor s.cached s).0
unfolding demote_transaction
demote_transaction-Synced actor s v = elim (demote_topology_cases i s.db v.row v.stored) [
  | inl (x, e) ↦ rw e (Synced-consume s v)
  | inr e ↦ rw e (record {
    row = demoted_row (consume s.db) v.row;
    stored = unfold demoted_db in refl;
    agrees = demoted-Agrees (consume s.db) v.agrees;
    ordered = v.ordered;
    bounded = v.bounded;
    above = v.above;
    seen_above = v.seen_above;
    is_loaded = v.is_loaded;
    is_transactional = v.is_transactional;
    provisioner_keeps = v.provisioner_keeps;
  })
]
  where
    i : DemoteInput
    i = record {
      actor_user_id = actor;
      from_role = s.cached.role;
      from_generation = s.cached.leadership_generation;
    }

pub demote-Synced :
    {low seen : ℕ} (actor : String) (g : Option ℕ) (s : Service)
    → Synced low seen s
    → Synced low seen (demote actor g s).0
unfolding demote
demote-Synced actor g s v = elim (Bool-cases (demotable_from s.cached.role)) [
  | inr other ↦ rw other v
  | inl able ↦ rw able (elim (Bool-cases (expected g s.cached.leadership_generation)) [
    | inr moved ↦ rw moved v
    | inl same ↦ rw same (simp v.is_transactional (demote_transaction-Synced actor s v))
  ])
]
