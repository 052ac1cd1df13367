-- ===== src/Apply/Later.antt =====
-- About execute and Apply in apps/api/internal/worker/apply/apply.go once the candidates are staged and
-- validated: what control has received only grows.
use proxy_core.Base.{
  ◌≡◌, refl, sym, ap, ◌∙◌, Bool, true, false, not, List, [], ◌∷◌, ◌++◌, append_assoc, append-nil,
  ok, err, Result, inl, inr, Bool-cases, ◌||◌, String,
}
use proxy_core.Store.{Job}
use proxy_core.Jobs.{failed, rolled_back, applied, applying}
use proxy_core.Store.Patch.{JobPatch, empty_patch}
use proxy_core.Apply.{
  Operation, promote, reload, health, Candidate, Response, Outputs, Env, Run, Exit, go, stop,
  or_default,
}
use proxy_core.Apply.Phases.{
  M, and_then, call, set_status, fail, send, request, rollback_promoted, start_applying, entered,
  after_promote, promote_all, return_rolled_back, after_reload, after_health, check_all,
}
use proxy_core.Apply.Attempt.{finish, conclude, recover_run, after_rollback}
use proxy_core.Apply.Observed.{Event, observed, log}
use proxy_core.Apply.Trace.{rollback_promoted-RolledBack}
use proxy_core.Apply.Checks.{set_status-log, return_fail-Silent}

-- What control has received goes on from what it had received at `s`.
abbrev pub Extends : (e : Env) → Run (observed e) → (observed e).World → Type 0
Extends e s w = (rest : List Event) × (w.1 ≡ log e s ++ rest)

pub Extends-refl :
    (e : Env) (s : Run (observed e)) (w : (observed e).World) → w.1 ≡ log e s → Extends e s w
Extends-refl e s w h = ([], h ∙ sym (append-nil (log e s)))

pub Extends-trans :
    (e : Env) (s t : Run (observed e)) (w : (observed e).World)
    → Extends e s t.world
    → Extends e t w
    → Extends e s w
Extends-trans e s t w (xs, h) (ys, k) =
    (xs ++ ys, k ∙ ap (λ (zs : List Event). zs ++ ys) h ∙ append_assoc (log e s) xs ys)

pub and_then-Extends :
    (e : Env) {A B : Type 0} (s : Run (observed e)) (r : Run (observed e) × Exit A)
    (f : A → M (observed e) B)
    → Extends e s r.0.world
    → ((a : A) (t : Run (observed e)) → Extends e t (f a t).0.world)
    → Extends e s (and_then r f).0.world
unfolding and_then
and_then-Extends e s (t, go a) f h k = Extends-trans e s t (f a t).0.world h (k a t)
and_then-Extends e s (t, stop j) f h k = h
and_then-Extends e s (t, Exit.failed m) f h k = h

request-Extends :
    (e : Env) (operation : Operation) (c : Candidate) (s : Run (observed e))
    → Extends e s (request (observed e) operation c s).0.world
unfolding request send
request-Extends e operation c s = (_ ∷ [], refl)

pub start_applying-log :
    (e : Env) (outputs : Outputs) (s : Run (observed e))
    → log e (start_applying (observed e) outputs s).0 ≡ log e s
unfolding start_applying
start_applying-log e outputs s =
    entered-log (set_status (observed e) s.job applying _ s.world)
    ∙ set_status-log e s.job applying _ s.world
  where
    entered-log :
        (r : (observed e).World × Result String Job) → log e (entered (observed e) s r).0 ≡ r.0.1
    entered-log (w, ok j) = refl
    entered-log (w, err m) = refl

after_promote-log :
    (e : Env) (c : Candidate) (outputs : Outputs) (r : Response) (s : Run (observed e))
    → log e (after_promote (observed e) c outputs r s).0 ≡ log e s
unfolding after_promote
after_promote-log e c outputs r s = elim (Bool-cases r.is_ok) [
  | inl h ↦ rw h refl
  | inr h ↦ rw h refl
]

pub promote_all-Extends :
    (e : Env) (cs : List Candidate) (outputs : Outputs) (s : Run (observed e))
    → Extends e s (promote_all (observed e) cs outputs s).0.world
unfolding promote_all
promote_all-Extends e [] outputs s = Extends-refl e s s.world refl
promote_all-Extends e (c ∷ cs) outputs s =
    and_then-Extends e s _ _ (request-Extends e promote c s) λ r t.
      and_then-Extends e t _ _
        (Extends-refl e t (after_promote (observed e) c outputs r t).0.world
          (after_promote-log e c outputs r t))
        λ v u. promote_all-Extends e cs v u

return_rolled_back-log :
    (A : Type 0) (e : Env) (outputs : Outputs) (error : String) (s : Run (observed e)) (b : Bool)
    → log e (return_rolled_back {A = A} (observed e) outputs error (s, b)).0 ≡ log e s
unfolding return_rolled_back
return_rolled_back-log A e outputs error s true = set_status-log e s.job rolled_back _ s.world
return_rolled_back-log A e outputs error s false = (return_fail-Silent A e _ _ s).0

after_health-Extends :
    (e : Env) (c : Candidate) (outputs : Outputs) (r : Response) (s : Run (observed e))
    → Extends e s (after_health (observed e) c outputs r s).0.world
unfolding after_health
after_health-Extends e c outputs r s = elim (Bool-cases (not r.is_ok || e.has_drift r)) [
  | inl h ↦
      let back = rollback_promoted-RolledBack e s in
      rw h (
        back.events,
        return_rolled_back-log Outputs e _ r.error (rollback_promoted (observed e) s).0
              (rollback_promoted (observed e) s).1
            ∙ back.received,
      )
  | inr h ↦ rw h (Extends-refl e s s.world refl)
]

after_reload-log :
    (e : Env) (r : Response) (s : Run (observed e))
    → log e (after_reload (observed e) r s).0 ≡ log e s
unfolding after_reload
after_reload-log e r s = elim (Bool-cases r.is_ok) [ inl h ↦ rw h refl | inr h ↦ rw h refl ]

pub check_all-Extends :
    (e : Env) (cs : List Candidate) (outputs : Outputs) (s : Run (observed e))
    → Extends e s (check_all (observed e) cs outputs s).0.world
unfolding check_all
check_all-Extends e [] outputs s = Extends-refl e s s.world refl
check_all-Extends e (c ∷ cs) outputs s =
    and_then-Extends e s _ _ (request-Extends e reload c s) λ r t.
      and_then-Extends e t _ _
        (Extends-refl e t (after_reload (observed e) r t).0.world (after_reload-log e r t))
        λ _ u. and_then-Extends e u _ _ (request-Extends e health c u) λ r v.
          and_then-Extends e v _ _ (after_health-Extends e c outputs r v)
            λ o w. check_all-Extends e cs o w

pub finish-Extends :
    (e : Env) (a h : Outputs) (s : Run (observed e))
    → Extends e s (finish (observed e) a h s).0.world
unfolding finish
finish-Extends e a h s =
    and_then-Extends e s _ _
      (Extends-refl e s (call ((observed e).mark_applied s.job.revision_id) s).0.world refl)
      (λ _ t.
        Extends-refl e t (set_status (observed e) t.job applied _ t.world).0
          (set_status-log e t.job applied _ t.world))

fail-log :
    (e : Env) (job : Job) (message : String) (patch : JobPatch) (w : (observed e).World)
    → (fail (observed e) job message patch w).0.1 ≡ w.1
unfolding fail
fail-log e job message patch w = set_status-log e job failed _ w

after_rollback-log :
    (e : Env) (message : String) (s : Run (observed e)) (b : Bool)
    → (after_rollback (observed e) message (s, b)).0.1 ≡ log e s
unfolding after_rollback
after_rollback-log e message s true = set_status-log e s.job rolled_back _ s.world
after_rollback-log e message s false = fail-log e s.job message _ s.world

recover_run-Extends :
    (e : Env) (message : String) (s : Run (observed e)) (cs : List Candidate)
    → Extends e s (recover_run (observed e) message s cs).0
unfolding recover_run
recover_run-Extends e message s [] =
    Extends-refl e s (fail (observed e) s.job message empty_patch s.world).0
      (fail-log e s.job message empty_patch s.world)
recover_run-Extends e message s (c ∷ cs) =
    let back = rollback_promoted-RolledBack e s in
    (
      back.events,
      after_rollback-log e message (rollback_promoted (observed e) s).0
            (rollback_promoted (observed e) s).1
          ∙ back.received,
    )

pub conclude-Extends :
    (e : Env) (s : Run (observed e)) (p : Run (observed e) × Exit Job)
    → Extends e s p.0.world
    → Extends e s (conclude (observed e) p).0
unfolding conclude
conclude-Extends e s (t, go j) h = h
conclude-Extends e s (t, stop j) h = h
conclude-Extends e s (t, Exit.failed m) h =
    Extends-trans e s t (recover_run (observed e) (or_default m "Apply failed") t t.promoted).0 h
      (recover_run-Extends e (or_default m "Apply failed") t t.promoted)

-- Without a promoted candidate, control receives nothing more once the phases are over.
pub conclude-silent :
    (e : Env) (s : Run (observed e)) (x : Exit Job)
    → s.promoted ≡ []
    → (conclude (observed e) (s, x)).0.1 ≡ log e s
unfolding conclude recover_run
conclude-silent e s (go j) h = refl
conclude-silent e s (stop j) h = refl
conclude-silent e s (Exit.failed m) h = rw h (fail-log e s.job _ _ s.world)
