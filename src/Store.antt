-- ===== src/Store.antt =====
-- apps/api/internal/worker/store: the jobs of the worker. This file has the row and the record of a
-- job, and the reading of one from the other (job.go).
pub mod Patch
pub mod Table
pub mod Ops
pub mod Enqueue
pub mod Claim
pub mod Active
pub mod Inserted
pub mod Listing
pub mod Laws
use proxy_core.Base.{
  ℕ, String, Bool, true, false, not, Option, none, some, List, [], ◌∷◌, ◌++◌, Result, ok, err,
  ◌>>=◌, ◌>>◌, guard, if◌then◌else◌, ltb, leb, ◌==◌, ◌&&◌, ◌||◌, str_eq, codes, any, ◌^◌,
}
use proxy_core.Base.Int.{ℤ, pos, negsuc}
use proxy_core.Timestamp.{FiniteTimestamp, Timestamp, TimestampError, finite, decode_timestamp}
use proxy_core.Jobs.{Status, other, queued, validating, applying, TransitionError}

-- `Target` and `Source` are strings in the source; the last constructor holds any other text.
pub data Target : Type 0 where
  coredns nginx combined certificate : Target
  other_target : String → Target

pub data Source : Type 0 where
  ordinary import sync : Source
  other_source : String → Source

abbrev pub valid_target : Target → Bool
valid_target (other_target s) = false
valid_target coredns = true
valid_target nginx = true
valid_target combined = true
valid_target certificate = true

abbrev pub valid_source : Source → Bool
valid_source (other_source s) = false
valid_source ordinary = true
valid_source import = true
valid_source sync = true

abbrev pub valid_status : Status → Bool
valid_status (other s) = false
valid_status queued = true
valid_status _ = true

-- A row of `apply_jobs`. Clock columns hold the keys of the timestamp module, output columns JSON
-- texts.
pub record Row : Type 0 where
  pub id : String
  pub revision_id : String
  pub correlation_id : String
  pub created_at : List ℕ
  pub target : Target
  pub status : Status
  pub source : Source
  pub actor_user_id : Option String
  pub source_primary_id : Option String
  pub source_node_id : Option String
  pub source_revision_id : Option String
  pub snapshot_content_hash : Option String
  pub validation_output : Option String
  pub apply_output : Option String
  pub health_output : Option String
  pub error_message : Option String
  pub claimed_at : Option (List ℕ)
  pub started_at : Option (List ℕ)
  pub finished_at : Option (List ℕ)
  pub snapshot_version : Option ℤ
  pub replication_version : Option ℤ
  pub leadership_generation : Option ℤ

pub record Job : Type 0 where
  pub id : String
  pub revision_id : String
  pub actor_user_id : Option String
  pub target : Target
  pub status : Status
  pub source : Source
  pub source_primary_id : Option String
  pub source_node_id : Option String
  pub source_revision_id : Option String
  pub snapshot_content_hash : Option String
  pub snapshot_version : Option ℤ
  pub replication_version : Option ℤ
  pub leadership_generation : Option ℤ
  pub correlation_id : String
  pub created_at : FiniteTimestamp
  pub claimed_at : Option FiniteTimestamp
  pub started_at : Option FiniteTimestamp
  pub finished_at : Option FiniteTimestamp
  pub validation_output : Option String
  pub apply_output : Option String
  pub health_output : Option String
  pub error_message : Option String

-- The errors of the store; a column's error keeps no name of the column.
pub data StoreError : Type 0 where
  io invalid_domain invalid_uuid invalid_text invalid_time invalid_output invalid_integer :
      StoreError
  invalid_target missing_reference lost_row no_values job_not_found nanos_outside : StoreError
  invalid_transition : TransitionError → StoreError

-- What the store uses of `encoding/json`: `Valid`, and `Compact`, which fails on what is no JSON.
pub record Json : Type 0 where
  pub valid : String → Bool
  pub compact : String → Option String

-- The pattern of a canonical UUID: where it has a hexadecimal digit, and where a dash.
abbrev uuid_shape : List Bool
uuid_shape =
    true ∷ true ∷ true ∷ true ∷ true ∷ true ∷ true ∷ true ∷ false ∷ true ∷ true ∷ true ∷ true
    ∷ false ∷ true ∷ true ∷ true ∷ true ∷ false ∷ true ∷ true ∷ true ∷ true ∷ false ∷ true ∷ true
    ∷ true ∷ true ∷ true ∷ true ∷ true ∷ true ∷ true ∷ true ∷ true ∷ true ∷ []

abbrev is_hex : ℕ → Bool
is_hex c = (leb b'0' c && leb c b'9') || (leb b'a' c && leb c b'f')

matches_shape : List Bool → List ℕ → Bool
matches_shape [] [] = true
matches_shape [] (c ∷ cs) = false
matches_shape (b ∷ bs) [] = false
matches_shape (b ∷ bs) (c ∷ cs) = (if b then is_hex c else c == b'-') && matches_shape bs cs

unfoldable pub is_uuid : String → Bool
unfolding matches_shape
is_uuid s = matches_shape uuid_shape (codes s)

unfoldable pub has_nul : String → Bool
has_nul s = any (λ c. c == 0) (codes s)

-- `bytes.TrimSpace` on a valid JSON text, around which only these four bytes can stand.
abbrev is_space : ℕ → Bool
is_space c = c == b' ' || c == 9 || c == 10 || c == 13

all_space : List ℕ → Bool
all_space [] = true
all_space (c ∷ cs) = is_space c && all_space cs

-- Whether a text is `word` between white space.
trimmed_eq : List ℕ → List ℕ → Bool
unfolding all_space
trimmed_eq [] cs = all_space cs
trimmed_eq (w ∷ ws) [] = false
trimmed_eq (w ∷ ws) (c ∷ cs) = c == w && trimmed_eq ws cs

unfoldable pub is_null_json : List ℕ → Bool
unfolding trimmed_eq
is_null_json [] = false
is_null_json (c ∷ cs) =
    let rest = is_null_json cs in
    if is_space c then rest else trimmed_eq (b'n' ∷ b'u' ∷ b'l' ∷ b'l' ∷ []) (c ∷ cs)

-- The zero `time.Time`, the first second of the year 1.
abbrev pub zero_time : FiniteTimestamp
zero_time = record { seconds = negsuc 62135596799; nanos = pos 0 }

-- A tagged infinity reads as the zero time; the key holds no NUL where it decodes.
abbrev time_of : Result TimestampError Timestamp → Result StoreError FiniteTimestamp
time_of (ok (finite t)) = ok t
time_of (ok untimed) = ok zero_time
time_of (err e) = err invalid_time

unfoldable pub decode_time : List ℕ → Result StoreError FiniteTimestamp
decode_time key = time_of (decode_timestamp (some key))

unfoldable pub scan_time : Option (List ℕ) → Result StoreError (Option FiniteTimestamp)
scan_time none = ok none
scan_time (some key) = do t ← decode_time key; ok (some t)

unfoldable pub scan_id : Option String → Result StoreError (Option String)
scan_id none = ok none
scan_id (some id) = if is_uuid id then ok (some id) else err invalid_uuid

unfoldable pub scan_text : Option String → Result StoreError (Option String)
scan_text none = ok none
scan_text (some s) = if has_nul s then err invalid_text else ok (some s)

unfoldable pub scan_output : Json → Option String → Result StoreError (Option String)
scan_output json none = ok none
scan_output json (some s) =
    if has_nul s || not (json.valid s)
    then err invalid_output
    else if is_null_json (codes s)
    then ok none
    else ok (some s)

-- The range of `int32`.
abbrev is_int32 : ℤ → Bool
is_int32 (pos n) = ltb n (2 ^ 31)
is_int32 (negsuc n) = ltb n (2 ^ 31)

unfoldable pub scan_int32 : Option ℤ → Result StoreError (Option ℤ)
scan_int32 none = ok none
scan_int32 (some z) = if is_int32 z then ok (some z) else err invalid_integer

-- The checks that come first.
unfoldable pub scan_domain : Row → Result StoreError FiniteTimestamp
scan_domain r = do
  guard (valid_target r.target && valid_status r.status && valid_source r.source) invalid_domain
  guard (is_uuid r.id && is_uuid r.revision_id) invalid_uuid
  guard (not (has_nul r.correlation_id)) invalid_text
  decode_time r.created_at

-- The four loops over the optional columns: identifiers and texts, outputs, clocks, versions.
unfoldable pub scan_ids :
    Row → Result StoreError (Option String × Option String × Option String × Option String)
scan_ids r = do
  actor ← scan_id r.actor_user_id
  primary ← scan_id r.source_primary_id
  node ← scan_id r.source_node_id
  revision ← scan_id r.source_revision_id
  ok (actor, primary, node, revision)

unfoldable pub scan_texts : Row → Result StoreError (Option String × Option String)
scan_texts r = do
  hash ← scan_text r.snapshot_content_hash
  message ← scan_text r.error_message
  ok (hash, message)

unfoldable pub scan_outputs :
    Json → Row → Result StoreError (Option String × Option String × Option String)
scan_outputs json r = do
  validation ← scan_output json r.validation_output
  applied ← scan_output json r.apply_output
  health ← scan_output json r.health_output
  ok (validation, applied, health)

unfoldable pub scan_times :
    Row
    → Result StoreError (Option FiniteTimestamp × Option FiniteTimestamp × Option FiniteTimestamp)
scan_times r = do
  claimed ← scan_time r.claimed_at
  started ← scan_time r.started_at
  finished ← scan_time r.finished_at
  ok (claimed, started, finished)

unfoldable pub scan_versions : Row → Result StoreError (Option ℤ × Option ℤ)
scan_versions r = do
  version ← scan_int32 r.snapshot_version
  replication ← scan_int32 r.replication_version
  ok (version, replication)

unfoldable pub scan_job : Json → Row → Result StoreError Job
scan_job json r = do
  created ← scan_domain r
  ids ← scan_ids r
  texts ← scan_texts r
  outputs ← scan_outputs json r
  times ← scan_times r
  versions ← scan_versions r
  ok (record {
    id = r.id;
    revision_id = r.revision_id;
    actor_user_id = ids.0;
    target = r.target;
    status = r.status;
    source = r.source;
    source_primary_id = ids.1;
    source_node_id = ids.2;
    source_revision_id = ids.3;
    snapshot_content_hash = texts.0;
    snapshot_version = versions.0;
    replication_version = versions.1;
    leadership_generation = r.leadership_generation;
    correlation_id = r.correlation_id;
    created_at = created;
    claimed_at = times.0;
    started_at = times.1;
    finished_at = times.2;
    validation_output = outputs.0;
    apply_output = outputs.1;
    health_output = outputs.2;
    error_message = texts.1;
  })
