-- ===== src/Jobs/Laws.antt =====
-- About Transition of apps/api/internal/worker/jobs/jobs.go.
use proxy_core.Base.{ok, err, ◌≡◌, refl, ◌⊎◌, arith, ◌↔◌}
use proxy_core.Jobs.{
  Status, queued, validating, applying, applied, failed, rolled_back, other, transition,
}

-- One move of the documented life cycle.
infix 40 ◌⟶◌
pub data ◌⟶◌ : Status → Status → Type 0 where
  claim : queued ⟶ validating
  apply : validating ⟶ applying
  reject : validating ⟶ failed
  finish : applying ⟶ applied
  abort : applying ⟶ failed
  revert : applying ⟶ rolled_back
  retry : failed ⟶ queued
  retry_rolled_back : rolled_back ⟶ queued

pub ruleset moves = (claim, apply, reject, finish, abort, revert, retry, retry_rolled_back)

sound : (s t : Status) → transition s t ≡ ok t → s ⟶ t
unfolding transition
sound queued validating h = claim
sound validating applying h = apply
sound validating failed h = reject
sound applying applied h = finish
sound applying failed h = abort
sound applying rolled_back h = revert
sound failed queued h = retry
sound rolled_back queued h = retry_rolled_back
sound applied queued h = cc
sound (other s) queued h = cc
sound _ _ h = cc

complete : {s t : Status} → s ⟶ t → transition s t ≡ ok t
unfolding transition
complete claim = refl
complete apply = refl
complete reject = refl
complete finish = refl
complete abort = refl
complete revert = refl
complete retry = refl
complete retry_rolled_back = refl

-- `transition` returns the target state exactly for the moves of the life cycle, and for every
-- other pair of states the error that names both.
pub transition-⟶ :
    (s t : Status)
    → ((transition s t ≡ ok t) ↔ (s ⟶ t))
      × ((transition s t ≡ ok t) ⊎ (transition s t ≡ err (record { current = s; next = t })))
transition-⟶ s t = ((sound s t, complete), unfold transition in ground arith)

-- A successful move ends in the state that was asked for.
pub transition_ok : (s t : Status) {u : Status} → transition s t ≡ ok u → u ≡ t
unfolding transition
transition_ok s t h = ground arith
