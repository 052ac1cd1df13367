-- ===== src/Examples/Keys.antt =====
-- Keys of the instants one second before and half a second after the epoch.
use proxy_core.Base.{ℕ, ◌-◌, ◌^◌, ◌≡◌, refl, true, Option, some, List, ok, arith}
use proxy_core.Base.Int.{pos, negsuc}
use proxy_core.Timestamp.{
  Timestamp, finite, finite_key, encode_timestamp, decode_timestamp, nanos_value,
}
use proxy_core.Timestamp.Digits.{pad, digits, bytes_lt}
use proxy_core.Timestamp.Laws.{
  IsTyped, IsCanonical, decode-encode_timestamp, encode-decode_timestamp, bytes_lt-encode_timestamp,
}

abbrev before_epoch : Timestamp
before_epoch = finite (record { seconds = negsuc 0; nanos = pos 0 })

abbrev after_epoch : Timestamp
after_epoch = finite (record { seconds = pos 0; nanos = pos 500000000 })

abbrev before_key : List ℕ
before_key = finite_key (2 ^ 63 - 1) 0

abbrev after_key : List ℕ
after_key = finite_key (2 ^ 63) 500000000

encodes_before : encode_timestamp before_epoch ≡ ok (some before_key)
unfolding encode_timestamp nanos_value finite_key pad
encodes_before = refl

encodes_after : encode_timestamp after_epoch ≡ ok (some after_key)
unfolding encode_timestamp nanos_value finite_key pad
encodes_after = refl

decodes_after : decode_timestamp (some after_key) ≡ ok after_epoch
unfolding decode_timestamp digits finite_key pad
decodes_after = refl

before-IsTyped : IsTyped before_epoch
before-IsTyped = omega arith

after-IsTyped : IsTyped after_epoch
after-IsTyped = omega arith

decode-encode_example :
    (key : Option (List ℕ)) × (encode_timestamp after_epoch ≡ ok key)
    × (decode_timestamp key ≡ ok after_epoch)
decode-encode_example =
    decode-encode_timestamp after_epoch after-IsTyped (500000000, refl, omega arith)

encode-decode_example : IsCanonical (some after_key) after_epoch
encode-decode_example = encode-decode_timestamp (some after_key) decodes_after

order_example : bytes_lt before_key after_key ≡ true
unfolding bytes_lt
order_example =
    bytes_lt-encode_timestamp before_epoch after_epoch before-IsTyped after-IsTyped encodes_before
      encodes_after
