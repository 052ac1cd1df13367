-- ===== src/Timestamp/Laws.antt =====
-- About EncodeTimestamp and DecodeTimestamp of apps/api/internal/sqlitedb/timestamp.go.
use proxy_core.Base.{
  ℕ, ◌^◌, ◌<◌, ◌≡◌, refl, sym, ap, subst, ◌∙◌, Bool, true, false, List, [], ◌∷◌, ◌++◌, Option, none,
  some, ok, if◌then◌else◌, ltb, lt→ltb, ◌==◌, arith, append-nil, Bool-cases, Option-cases, inl, inr,
}
use proxy_core.Base.Int.{
  ℤ, pos, negsuc, IsInt64, ltbℤ, to_uint64, to_int64, flip_top, to_int64-flip_top, flip_top_order,
  to_int64-IsInt64, flip_top-to_int64,
}
use proxy_core.Timestamp.{
  Timestamp, FiniteTimestamp, null, negative_infinity, positive_infinity, finite, encode_timestamp,
  decode_timestamp, finite_key, parse_finite, parse_nanos, decode_finite, nanos_value, is_byte,
}
use proxy_core.Timestamp.Digits.{
  pad, digits, digits-pad, digits-lt, pad-digits, bytes_lt, bytes_lt-pad,
}

-- The seconds of a Go value are an `int64`.
abbrev pub IsTyped : Timestamp → Type 0
IsTyped null = Unit
IsTyped negative_infinity = Unit
IsTyped positive_infinity = Unit
IsTyped (finite v) = IsInt64 v.seconds

-- What `EncodeTimestamp` accepts of a finite value.
abbrev pub HasNanos : Timestamp → Type 0
HasNanos null = Unit
HasNanos negative_infinity = Unit
HasNanos positive_infinity = Unit
HasNanos (finite v) = (n : ℕ) × (v.nanos ≡ pos n) × (n < 1_000_000_000)

flip_top-lt : (u : ℕ) → flip_top u < 2 ^ 64
flip_top-lt u = omega arith

is_byte_ne : (b c : ℕ) (cs : List ℕ) → (c == b) ≡ false → is_byte b (c ∷ cs) ≡ false
is_byte_ne b c [] h = h
is_byte_ne b c (d ∷ cs) h = refl

parse_finite-key :
    (biased nanos : ℕ)
    → biased < 10 ^ 20
    → nanos < 10 ^ 9
    → parse_finite (finite_key biased nanos) ≡ some (biased, nanos)
unfolding parse_finite finite_key
parse_finite-key biased nanos h k = rw (digits-pad 20 biased (b'.' ∷ pad 9 nanos) h) (
    rw (ap (digits 9) (sym (append-nil (pad 9 nanos))) ∙ digits-pad 9 nanos [] k, parse_nanos) refl)

-- What a key of the finite form is decoded to.
abbrev value_of : ℕ → ℕ → Timestamp
value_of biased nanos = finite (record { seconds = to_int64 (flip_top biased); nanos = pos nanos })

decode_finite-key :
    (biased nanos : ℕ)
    → biased < 2 ^ 64
    → nanos < 10 ^ 9
    → decode_finite (finite_key biased nanos) ≡ ok (value_of biased nanos)
unfolding decode_finite
decode_finite-key biased nanos h k =
    rw (parse_finite-key biased nanos (omega arith) k, decode_finite) (rw (lt→ltb _ _ h))

not_byte : (b biased nanos : ℕ) → (b'1' == b) ≡ false → is_byte b (finite_key biased nanos) ≡ false
unfolding finite_key
not_byte b biased nanos h = is_byte_ne b b'1' (pad 20 biased ++ b'.' ∷ pad 9 nanos) h

decode-key :
    (biased nanos : ℕ)
    → biased < 2 ^ 64
    → nanos < 10 ^ 9
    → decode_timestamp (some (finite_key biased nanos)) ≡ ok (value_of biased nanos)
unfolding decode_timestamp
decode-key biased nanos h k = unfold_key
  where
    unfold_key : decode_timestamp (some (finite_key biased nanos)) ≡ ok (value_of biased nanos)
    unfold_key =
        rw (not_byte b'0' biased nanos refl, not_byte b'2' biased nanos refl)
          (decode_finite-key biased nanos h k)

encode-finite :
    (v : FiniteTimestamp) (n : ℕ)
    → v.nanos ≡ pos n
    → n < 1_000_000_000
    → encode_timestamp (finite v) ≡ ok (some (finite_key (flip_top (to_uint64 v.seconds)) n))
unfolding encode_timestamp nanos_value
encode-finite v n e h = rw (e, nanos_value) (ground arith)

-- Every value that can be encoded is decoded to itself.
pub decode-encode_timestamp :
    (t : Timestamp)
    → IsTyped t
    → HasNanos t
    → (key : Option (List ℕ)) × (encode_timestamp t ≡ ok key) × (decode_timestamp key ≡ ok t)
unfolding encode_timestamp decode_timestamp
decode-encode_timestamp null h k = (none, refl, refl)
decode-encode_timestamp negative_infinity h k = (some (b'0' ∷ []), refl, refl)
decode-encode_timestamp positive_infinity h k = (some (b'2' ∷ []), refl, refl)
decode-encode_timestamp (finite v) h (n, e, n_lt) = (
  some (finite_key (flip_top (to_uint64 v.seconds)) n),
  encode-finite v n e n_lt,
  decode-key (flip_top (to_uint64 v.seconds)) n (flip_top-lt _) n_lt
      ∙ ap (λ (z : ℤ). ok (finite (record { seconds = z; nanos = pos n })))
          (to_int64-flip_top v.seconds h)
      ∙ ap (λ (z : ℤ). ok (finite (record { seconds = v.seconds; nanos = z }))) (sym e),
)

is_byte-eq : (b : ℕ) (cs : List ℕ) → is_byte b cs ≡ true → cs ≡ b ∷ []
is_byte-eq b [] h = cc
is_byte-eq b (c ∷ []) h = ground arith
is_byte-eq b (c ∷ d ∷ cs) h = cc

parse_nanos-key :
    (b : ℕ) (cs : List ℕ) {biased nanos : ℕ}
    → parse_nanos b cs ≡ some (biased, nanos)
    → (b ≡ biased) × (cs ≡ b'.' ∷ pad 9 nanos) × (nanos < 10 ^ 9)
unfolding parse_nanos
parse_nanos-key b [] h = cc
parse_nanos-key b (c ∷ rest) {biased} {nanos} h = elim (Option-cases (digits 9 rest)) [
  | inl e ↦ ground arith
  | inr ((n, []), e) ↦ ground (arith, pad-digits 9 rest e, digits-lt 9 rest e, append-nil (pad 9 n))
  | inr ((n, d ∷ ds), e) ↦ ground arith
]

parse_finite-inv :
    (cs : List ℕ) {biased nanos : ℕ}
    → parse_finite cs ≡ some (biased, nanos)
    → (cs ≡ finite_key biased nanos) × (nanos < 10 ^ 9)
unfolding parse_finite finite_key
parse_finite-inv [] h = cc
parse_finite-inv (c ∷ rest) {biased} {nanos} h = elim (Option-cases (digits 20 rest)) [
  | inl e ↦ ground arith
  | inr ((n, more), e) ↦
      ground (arith, parse_nanos-key n more {biased = biased} {nanos = nanos}, pad-digits 20 rest e)
]

decode_finite-inv :
    (cs : List ℕ) {t : Timestamp}
    → decode_finite cs ≡ ok t
    → (biased : ℕ) × (nanos : ℕ) × (cs ≡ finite_key biased nanos)
      × (biased < 2 ^ 64)
      × (nanos < 10 ^ 9)
      × (t ≡ value_of biased nanos)
unfolding decode_finite
decode_finite-inv cs {t} h = elim (Option-cases (parse_finite cs)) [
  | inl e ↦ cc (rw (e, decode_finite) at h)
  | inr ((biased, nanos), e) ↦
      let inv = parse_finite-inv cs e in (biased, nanos, inv.0, ground arith, inv.1, ground arith)
]

encode-value_of :
    (biased nanos : ℕ)
    → biased < 2 ^ 64
    → nanos < 10 ^ 9
    → encode_timestamp (value_of biased nanos) ≡ ok (some (finite_key biased nanos))
encode-value_of biased nanos h k =
    rw
      (encode-finite (record { seconds = to_int64 (flip_top biased); nanos = pos nanos }) nanos refl
        k)
      (rw (flip_top-to_int64 biased h))

abbrev pub IsCanonical : Option (List ℕ) → Timestamp → Type 0
IsCanonical key t = (encode_timestamp t ≡ ok key) × IsTyped t × HasNanos t

-- Only the key of a value is decoded to it: the stored texts are canonical, and what is decoded
-- has seconds of 64 bits and nanoseconds in range.
pub encode-decode_timestamp :
    (key : Option (List ℕ)) {t : Timestamp} → decode_timestamp key ≡ ok t → IsCanonical key t
unfolding encode_timestamp decode_timestamp
encode-decode_timestamp none {t} h =
    let found : null ≡ t = cc in subst (λ u. IsCanonical none u) found (refl, tt, tt)
encode-decode_timestamp (some key) {t} h = elim (Bool-cases (is_byte b'0' key)) [
  | inl e ↦
      let found : negative_infinity ≡ t = cc (rw (e, decode_timestamp) at h) in
      subst (λ u. IsCanonical (some key) u) found (rw (is_byte-eq b'0' key e) refl, tt, tt)
  | inr e ↦ elim (Bool-cases (is_byte b'2' key)) [
    | inl f ↦
        let found : positive_infinity ≡ t = cc (rw (e, f, decode_timestamp) at h) in
        subst (λ u. IsCanonical (some key) u) found (rw (is_byte-eq b'2' key f) refl, tt, tt)
    | inr f ↦
        let (biased, nanos, key_eq, b_lt, n_lt, t_eq) =
          decode_finite-inv key (rw (e, f, decode_timestamp) at h) in
        rw (t_eq, key_eq)
          (
            encode-value_of biased nanos b_lt n_lt,
            to_int64-IsInt64 _ (flip_top-lt biased),
            (nanos, refl, n_lt),
          )
  ]
]

-- The order of two clock values that are not NULL.
abbrev finite_before : FiniteTimestamp → FiniteTimestamp → Bool
finite_before u v =
    if ltbℤ u.seconds v.seconds
    then true
    else if ltbℤ v.seconds u.seconds
    then false
    else ltbℤ u.nanos v.nanos

abbrev pub before : Timestamp → Timestamp → Bool
before negative_infinity negative_infinity = false
before negative_infinity (finite v) = true
before negative_infinity positive_infinity = true
before (finite u) (finite v) = finite_before u v
before (finite u) positive_infinity = true
before _ _ = false

pad_order : (w m n : ℕ) → m < 10 ^ w → n < 10 ^ w → bytes_lt (pad w m) (pad w n) ≡ ltb m n
unfolding bytes_lt
pad_order w m n h k =
    ground (arith, append-nil (pad w m), append-nil (pad w n), bytes_lt-pad w m n [] [] h k)

key_order :
    (a b m n : ℕ)
    → a < 2 ^ 64
    → b < 2 ^ 64
    → m < 10 ^ 9
    → n < 10 ^ 9
    → bytes_lt (finite_key a m) (finite_key b n)
      ≡ (if ltb a b then true else if ltb b a then false else ltb m n)
unfolding finite_key bytes_lt
key_order a b m n ha hb hm hn =
    bytes_lt-pad 20 a b (b'.' ∷ pad 9 m) (b'.' ∷ pad 9 n) (omega arith) (omega arith)
    ∙ rw (pad_order 9 m n hm hn) refl

-- What a finite value is encoded to.
record FiniteKey (v : FiniteTimestamp) (k : List ℕ) : Type 0 where
  nanos : ℕ
  nanos_eq : v.nanos ≡ pos nanos
  nanos_lt : nanos < 10 ^ 9
  key_eq : k ≡ finite_key (flip_top (to_uint64 v.seconds)) nanos

encode-FiniteKey :
    (v : FiniteTimestamp) (z : ℤ) {k : List ℕ}
    → v.nanos ≡ z
    → encode_timestamp (finite v) ≡ ok (some k)
    → FiniteKey v k
unfolding encode_timestamp nanos_value
encode-FiniteKey v (pos n) e h = record {
  nanos = n;
  nanos_eq = e;
  nanos_lt = ground arith;
  key_eq = ground arith;
}
encode-FiniteKey v (negsuc n) e h = cc (rw (e, nanos_value) at h)

finite_order :
    (u v : FiniteTimestamp) {k l : List ℕ}
    → IsInt64 u.seconds
    → IsInt64 v.seconds
    → FiniteKey u k
    → FiniteKey v l
    → bytes_lt k l ≡ finite_before u v
finite_order u v hu hv fu fv =
    rw (fu.key_eq, fv.key_eq, fu.nanos_eq, fv.nanos_eq)
      (key_order _ _ fu.nanos fv.nanos (flip_top-lt _) (flip_top-lt _) fu.nanos_lt fv.nanos_lt
        ∙ rw (flip_top_order u.seconds v.seconds hu hv, flip_top_order v.seconds u.seconds hv hu)
            refl)

-- The keys of two values that are not NULL compare as the values do: minus infinity first, then
-- finite values by seconds and nanoseconds, plus infinity last.
pub bytes_lt-encode_timestamp :
    (s t : Timestamp) {k l : List ℕ}
    → IsTyped s
    → IsTyped t
    → encode_timestamp s ≡ ok (some k)
    → encode_timestamp t ≡ ok (some l)
    → bytes_lt k l ≡ before s t
unfolding encode_timestamp bytes_lt finite_key
bytes_lt-encode_timestamp null t hs ht es et = cc
bytes_lt-encode_timestamp negative_infinity null hs ht es et = cc
bytes_lt-encode_timestamp negative_infinity negative_infinity hs ht es et = ground arith
bytes_lt-encode_timestamp negative_infinity positive_infinity hs ht es et = ground arith
bytes_lt-encode_timestamp negative_infinity (finite v) hs ht es et =
    ground (arith, (encode-FiniteKey v v.nanos refl et).key_eq)
bytes_lt-encode_timestamp positive_infinity null hs ht es et = cc
bytes_lt-encode_timestamp positive_infinity negative_infinity hs ht es et = ground arith
bytes_lt-encode_timestamp positive_infinity positive_infinity hs ht es et = ground arith
bytes_lt-encode_timestamp positive_infinity (finite v) hs ht es et =
    ground (arith, (encode-FiniteKey v v.nanos refl et).key_eq)
bytes_lt-encode_timestamp (finite u) null hs ht es et = cc
bytes_lt-encode_timestamp (finite u) negative_infinity hs ht es et =
    ground (arith, (encode-FiniteKey u u.nanos refl es).key_eq)
bytes_lt-encode_timestamp (finite u) positive_infinity hs ht es et =
    ground (arith, (encode-FiniteKey u u.nanos refl es).key_eq)
bytes_lt-encode_timestamp (finite u) (finite v) hs ht es et =
    finite_order u v hs ht (encode-FiniteKey u u.nanos refl es) (encode-FiniteKey v v.nanos refl et)
