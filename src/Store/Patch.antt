-- ===== src/Store/Patch.antt =====
-- apps/api/internal/worker/store/store.go: the patch of a job and the assignments that it makes.
use proxy_core.Base.{
  ℕ, String, Bool, true, false, Option, none, some, List, Result, ok, err, ◌>>=◌, ◌&&◌,
}
use proxy_core.Timestamp.{FiniteTimestamp, finite, encode_timestamp, TimestampError}
use proxy_core.Jobs.{Status}
use proxy_core.Store.{Row, Json, StoreError, nanos_outside, invalid_output}

-- `Nullable`: the zero value, `Set` and `Clear`.
pub data Nullable (A : Type 0) : Type 0 where
  keep : Nullable A
  set : A → Nullable A
  clear : Nullable A

pub record JobPatch : Type 0 where
  pub status : Option Status
  pub validation_output : Nullable String
  pub apply_output : Nullable String
  pub health_output : Nullable String
  pub error_message : Nullable String
  pub claimed_at : Nullable FiniteTimestamp
  pub started_at : Nullable FiniteTimestamp
  pub finished_at : Nullable FiniteTimestamp

-- The zero patch.
abbrev pub empty_patch : JobPatch
empty_patch = record {
  status = none;
  validation_output = keep;
  apply_output = keep;
  health_output = keep;
  error_message = keep;
  claimed_at = keep;
  started_at = keep;
  finished_at = keep;
}

-- The assignments of a patch, in the form of the columns.
pub record Assignments : Type 0 where
  pub status : Option Status
  pub validation_output : Nullable String
  pub apply_output : Nullable String
  pub health_output : Nullable String
  pub error_message : Nullable String
  pub claimed_at : Nullable (List ℕ)
  pub started_at : Nullable (List ℕ)
  pub finished_at : Nullable (List ℕ)

-- `encodeTime`; a finite value never encodes to SQL NULL.
abbrev key_of : Result TimestampError (Option (List ℕ)) → Result StoreError (List ℕ)
key_of (ok (some key)) = ok key
key_of (ok none) = err nanos_outside
key_of (err e) = err nanos_outside

unfoldable pub encode_time : FiniteTimestamp → Result StoreError (List ℕ)
encode_time t = key_of (encode_timestamp (finite t))

-- `compactOutput`.
unfoldable pub compact_output : Json → String → Result StoreError String
compact_output json s = elim (json.compact s) [ none ↦ err invalid_output | some t ↦ ok t ]

unfoldable pub assign :
    {A B : Type 0} → (A → Result StoreError B) → Nullable A → Result StoreError (Nullable B)
assign f keep = ok keep
assign f clear = ok clear
assign f (set a) = do b ← f a; ok (set b)

unfoldable pub assignments : Json → JobPatch → Result StoreError Assignments
assignments json p = do
  validation ← assign (compact_output json) p.validation_output
  applied ← assign (compact_output json) p.apply_output
  health ← assign (compact_output json) p.health_output
  claimed ← assign encode_time p.claimed_at
  started ← assign encode_time p.started_at
  finished ← assign encode_time p.finished_at
  ok (record {
    status = p.status;
    validation_output = validation;
    apply_output = applied;
    health_output = health;
    error_message = p.error_message;
    claimed_at = claimed;
    started_at = started;
    finished_at = finished;
  })

abbrev is_keep : {A : Type 0} → Nullable A → Bool
is_keep keep = true
is_keep clear = false
is_keep (set a) = false

abbrev is_unset : Option Status → Bool
is_unset none = true
is_unset (some s) = false

-- Whether the list of assignments is empty.
unfoldable pub assigns_nothing : Assignments → Bool
assigns_nothing a =
    is_unset a.status
    && is_keep a.validation_output
    && is_keep a.apply_output
    && is_keep a.health_output
    && is_keep a.error_message
    && is_keep a.claimed_at
    && is_keep a.started_at
    && is_keep a.finished_at

abbrev assigned : {A : Type 0} → Nullable A → Option A → Option A
assigned keep old = old
assigned clear old = none
assigned (set a) old = some a

-- The SET clause on a row.
unfoldable pub assign_row : Assignments → Row → Row
assign_row a r = record r {
  status = elim a.status [ none ↦ r.status | some s ↦ s ];
  validation_output = assigned a.validation_output r.validation_output;
  apply_output = assigned a.apply_output r.apply_output;
  health_output = assigned a.health_output r.health_output;
  error_message = assigned a.error_message r.error_message;
  claimed_at = assigned a.claimed_at r.claimed_at;
  started_at = assigned a.started_at r.started_at;
  finished_at = assigned a.finished_at r.finished_at;
}
