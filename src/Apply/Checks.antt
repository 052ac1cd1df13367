-- ===== src/Apply/Checks.antt =====
-- About the first phase of execute in apps/api/internal/worker/apply/apply.go, where candidates are
-- staged and validated: the requests that control receives.
use proxy_core.Base.{
  String, ◌≡◌, refl, sym, ap, ◌∙◌, Bool, true, false, List, [], ◌∷◌, ◌++◌, append_assoc, append-nil,
  all, arith, inl, inr, Bool-cases, Result-cases,
}
use proxy_core.Jobs.{Status, failed, transition}
use proxy_core.Store.{Job}
use proxy_core.Store.Patch.{JobPatch}
use proxy_core.Apply.{
  Operation, stage, validate, Candidate, Response, Outputs, Env, Run, Exit, go, stop,
}
use proxy_core.Apply.Phases.{
  M, and_then, set_status, fail, call, send, request, return_fail, after_stage, after_validate,
  stage_one, stage_all,
}
use proxy_core.Apply.Observed.{Event, observed, log, asking}

-- The requests of the first phase.
abbrev pub is_check : Event → Bool
is_check v = elim v.asked.operation [ stage ↦ true | validate ↦ true | _ ↦ false ]

-- A request on a candidate that control received and answered with OK.
abbrev pub accepted : Operation → String → Candidate → Event
accepted operation revision_id c = record {
  asked = asking operation revision_id c;
  accepted = true;
}

-- The requests of a first phase that went through.
abbrev pub staged : String → List Candidate → List Event
staged revision_id [] = []
staged revision_id (c ∷ cs) =
    accepted stage revision_id c ∷ accepted validate revision_id c ∷ staged revision_id cs

-- Between `s` and `t` control received nothing but checks, and nothing was promoted.
abbrev pub Checks : (e : Env) → Run (observed e) → Run (observed e) → Type 0
Checks e s t =
    ((events : List Event) × (log e t ≡ log e s ++ events) × (all is_check events ≡ true))
    × (t.promoted ≡ s.promoted)
    × (t.job ≡ s.job)

all-append :
    (p : Event → Bool) (xs ys : List Event)
    → all p xs ≡ true
    → all p ys ≡ true
    → all p (xs ++ ys) ≡ true
all-append p [] ys h k = k
all-append p (x ∷ xs) ys h k = ground (arith, all-append p xs ys)

-- Control receives nothing, and nothing is promoted.
abbrev pub Silent : (e : Env) → Run (observed e) → Run (observed e) → Type 0
Silent e s t = (log e t ≡ log e s) × (t.promoted ≡ s.promoted) × (t.job ≡ s.job)

pub Silent-Checks : (e : Env) (s t : Run (observed e)) → Silent e s t → Checks e s t
Silent-Checks e s t (h, k, j) = (([], h ∙ sym (append-nil (log e s)), refl), k, j)

Checks-trans : (e : Env) (s t u : Run (observed e)) → Checks e s t → Checks e t u → Checks e s u
Checks-trans e s t u ((xs, h, a), m, i) ((ys, k, b), n, j) = (
  (
    xs ++ ys,
    k ∙ ap (λ (zs : List Event). zs ++ ys) h ∙ append_assoc (log e s) xs ys,
    all-append is_check xs ys a b,
  ),
  n ∙ m,
  j ∙ i,
)

and_then-Checks :
    (e : Env) {A B : Type 0} (s : Run (observed e)) (r : Run (observed e) × Exit A)
    (f : A → M (observed e) B)
    → Checks e s r.0
    → ((a : A) (t : Run (observed e)) → Checks e t (f a t).0)
    → Checks e s (and_then r f).0
unfolding and_then
and_then-Checks e s (t, go a) f h k = Checks-trans e s t (f a t).0 h (k a t)
and_then-Checks e s (t, stop j) f h k = h
and_then-Checks e s (t, Exit.failed m) f h k = h

request-Checks :
    (e : Env) (operation : Operation) (c : Candidate) (s : Run (observed e))
    → ((b : Bool)
        → is_check (record { asked = asking operation s.job.revision_id c; accepted = b }) ≡ true)
    → Checks e s (request (observed e) operation c s).0
unfolding request send
request-Checks e operation c s h = ((_ ∷ [], refl, rw (h _) refl), refl, refl)

pub set_status-log :
    (e : Env) (job : Job) (status : Status) (patch : JobPatch) (w : (observed e).World)
    → (set_status (observed e) job status patch w).0.1 ≡ w.1
unfolding set_status
set_status-log e job status patch w = elim (Result-cases (transition job.status status)) [
  | inl (next, q) ↦ rw (q, set_status) refl
  | inr (x, q) ↦ rw (q, set_status) refl
]

pub return_fail-Silent :
    (A : Type 0) (e : Env) (message : String) (patch : JobPatch) (s : Run (observed e))
    → Silent e s (return_fail {A = A} (observed e) message patch s).0
unfolding return_fail fail
return_fail-Silent A e message patch s = (set_status-log e s.job failed _ s.world, refl, refl)

pub after_stage-Silent :
    (e : Env) (c : Candidate) (r : Response) (s : Run (observed e))
    → Silent e s (after_stage (observed e) c r s).0
unfolding after_stage
after_stage-Silent e c r s = elim (Bool-cases r.is_ok) [
  | inl h ↦ rw h (refl, refl, refl)
  | inr h ↦ rw h (return_fail-Silent (Unit {0}) e _ _ s)
]

pub after_validate-Silent :
    (e : Env) (c : Candidate) (outputs : Outputs) (r : Response) (s : Run (observed e))
    → Silent e s (after_validate (observed e) c outputs r s).0
unfolding after_validate
after_validate-Silent e c outputs r s = elim (Bool-cases r.is_ok) [
  | inl h ↦ rw h (refl, refl, refl)
  | inr h ↦ rw h (return_fail-Silent Outputs e _ _ s)
]

pub stage_one-Checks :
    (e : Env) (c : Candidate) (outputs : Outputs) (s : Run (observed e))
    → Checks e s (stage_one (observed e) c outputs s).0
unfolding stage_one
stage_one-Checks e c outputs s =
    and_then-Checks e s _ _
      (Silent-Checks e s (call ((observed e).write_candidate c) s).0 (refl, refl, refl))
      λ _ t. and_then-Checks e t _ _ (request-Checks e stage c t (λ _. refl)) λ r u.
        and_then-Checks e u _ _
          (Silent-Checks e u (after_stage (observed e) c r u).0 (after_stage-Silent e c r u))
          λ _ v. and_then-Checks e v _ _ (request-Checks e validate c v (λ _. refl)) λ r w.
            Silent-Checks e w (after_validate (observed e) c outputs r w).0
              (after_validate-Silent e c outputs r w)

pub stage_all-Checks :
    (e : Env) (cs : List Candidate) (outputs : Outputs) (s : Run (observed e))
    → Checks e s (stage_all (observed e) cs outputs s).0
unfolding stage_all
stage_all-Checks e [] outputs s = Silent-Checks e s s (refl, refl, refl)
stage_all-Checks e (c ∷ cs) outputs s =
    and_then-Checks e s _ _ (stage_one-Checks e c outputs s) (λ v t. stage_all-Checks e cs v t)
