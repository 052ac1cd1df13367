-- ===== src/Timestamp.antt =====
-- apps/api/internal/sqlitedb/timestamp.go: the texts under which a clock value is stored. A text is
-- the list of its bytes.
pub mod Digits
pub mod Laws
use proxy_core.Base.{
  ℕ, ◌^◌, ◌+◌, Bool, true, false, List, [], ◌∷◌, ◌++◌, Option, none, some, Result, ok, err, ◌>>=◌,
  ◌>>◌, guard, if◌then◌else◌, ltb, leb, ◌==◌, ◌&&◌,
}
use proxy_core.Base.Int.{ℤ, pos, negsuc, to_uint64, to_int64, flip_top, ltbℤ}
use Digits.{pad, digits}

-- Floor Unix seconds (an int64) and the remainder in nanoseconds (an int32).
pub record FiniteTimestamp : Type 0 where
  pub seconds : ℤ
  pub nanos : ℤ

pub data Timestamp : Type 0 where
  null negative_infinity positive_infinity : Timestamp
  finite : FiniteTimestamp → Timestamp

pub data TimestampError : Type 0 where
  nanos_outside noncanonical biased_seconds : TimestampError

-- The guard on the nanoseconds, and their value where it passes.
unfoldable pub nanos_value : ℤ → Result TimestampError ℕ
nanos_value (pos n) = if leb n 999999999 then ok n else err nanos_outside
nanos_value (negsuc n) = err nanos_outside

-- The key of a finite value: "1", twenty digits, ".", nine digits.
unfoldable pub finite_key : ℕ → ℕ → List ℕ
finite_key biased nanos = b'1' ∷ (pad 20 biased ++ b'.' ∷ pad 9 nanos)

unfoldable pub encode_timestamp : Timestamp → Result TimestampError (Option (List ℕ))
unfolding nanos_value finite_key
encode_timestamp null = ok none
encode_timestamp negative_infinity = ok (some (b'0' ∷ []))
encode_timestamp positive_infinity = ok (some (b'2' ∷ []))
encode_timestamp (finite v) = do
  nanos ← nanos_value v.nanos
  ok (some (finite_key (flip_top (to_uint64 v.seconds)) nanos))

-- The submatches of `^1([0-9]{20})\.([0-9]{9})$` as numbers, which fixes the length 31 too.
pub parse_nanos : ℕ → List ℕ → Option (ℕ × ℕ)
parse_nanos biased [] = none
parse_nanos biased (c ∷ rest) =
    if c == b'.'
    then elim (digits 9 rest) [
      | none ↦ none
      | some (nanos, []) ↦ some (biased, nanos)
      | some (nanos, more) ↦ none
    ]
    else none

pub parse_finite : List ℕ → Option (ℕ × ℕ)
unfolding parse_nanos
parse_finite [] = none
parse_finite (c ∷ rest) =
    if c == b'1'
    then elim (digits 20 rest) [ none ↦ none | some (biased, more) ↦ parse_nanos biased more ]
    else none

pub decode_finite : List ℕ → Result TimestampError Timestamp
unfolding parse_finite
decode_finite key = elim (parse_finite key) [
  | none ↦ err noncanonical
  | some (biased, nanos) ↦
      if ltb biased (2 ^ 64)
      then ok (finite (record { seconds = to_int64 (flip_top biased); nanos = pos nanos }))
      else err biased_seconds
]

-- Equality of a text with a text of one byte.
abbrev pub is_byte : ℕ → List ℕ → Bool
is_byte b [] = false
is_byte b (c ∷ []) = c == b
is_byte b (c ∷ d ∷ rest) = false

unfoldable pub decode_timestamp : Option (List ℕ) → Result TimestampError Timestamp
unfolding decode_finite
decode_timestamp none = ok null
decode_timestamp (some key) =
    if is_byte b'0' key
    then ok negative_infinity
    else if is_byte b'2' key
    then ok positive_infinity
    else decode_finite key
