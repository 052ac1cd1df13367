-- ===== src/Identifiers.antt =====
-- apps/api/internal/domain/identity.go: the identifiers of installations and nodes, which are UUIDs of
-- version 4 as texts. A text is the list of its bytes.
pub mod Laws
use proxy_core.Base.{
  ℕ, zero, suc, ◌+◌, ◌-◌, ◌/◌, ◌%◌, String, Bool, true, false, List, [], ◌∷◌, ◌++◌, if◌then◌else◌,
  ltb, leb, ◌==◌, ◌&&◌, ◌||◌, codes, length,
}

-- A digit of `hex.Encode`, and the two of a byte, which is the low eight bits of a number.
unfoldable pub hex_digit : ℕ → ℕ
hex_digit n = if ltb n 10 then b'0' + n else b'a' + n - 10

unfoldable pub hex_encode : List ℕ → List ℕ
hex_encode [] = []
hex_encode (b ∷ bs) = hex_digit (b / 16 % 16) ∷ hex_digit (b % 16) ∷ hex_encode bs

-- The 16 random bytes.
pub record Random : Type 0 where
  pub b0 : ℕ
  pub b1 : ℕ
  pub b2 : ℕ
  pub b3 : ℕ
  pub b4 : ℕ
  pub b5 : ℕ
  pub b6 : ℕ
  pub b7 : ℕ
  pub b8 : ℕ
  pub b9 : ℕ
  pub b10 : ℕ
  pub b11 : ℕ
  pub b12 : ℕ
  pub b13 : ℕ
  pub b14 : ℕ
  pub b15 : ℕ

-- `b & 0x0f | 0x40` and `b & 0x3f | 0x80`.
abbrev pub version_byte : ℕ → ℕ
version_byte b = b % 16 + 0x40

abbrev pub variant_byte : ℕ → ℕ
variant_byte b = b % 64 + 0x80

unfoldable pub new_installation_id : Random → List ℕ
unfolding hex_encode
new_installation_id r =
    hex_encode (r.b0 ∷ r.b1 ∷ r.b2 ∷ r.b3 ∷ [])
    ++ b'-' ∷ hex_encode (r.b4 ∷ r.b5 ∷ [])
    ++ b'-' ∷ hex_encode (version_byte r.b6 ∷ r.b7 ∷ [])
    ++ b'-' ∷ hex_encode (variant_byte r.b8 ∷ r.b9 ∷ [])
    ++ b'-' ∷ hex_encode (r.b10 ∷ r.b11 ∷ r.b12 ∷ r.b13 ∷ r.b14 ∷ r.b15 ∷ [])

unfoldable pub is_hex : ℕ → Bool
is_hex c = (leb b'0' c && leb c b'9') || (leb b'a' c && leb c b'f')

-- `s[i]`.
abbrev pub byte_at : List ℕ → ℕ → ℕ
byte_at [] i = 0
byte_at (c ∷ cs) zero = c
byte_at (c ∷ cs) (suc i) = byte_at cs i

abbrev pub is_dash_place : ℕ → Bool
is_dash_place i = i == 8 || i == 13 || i == 18 || i == 23

-- The loop of `IsValid` over the text, from the place `i`.
abbrev pub hex_from : ℕ → List ℕ → Bool
hex_from i [] = true
hex_from i (c ∷ cs) = (is_dash_place i || is_hex c) && hex_from (i + 1) cs

unfoldable pub is_variant : ℕ → Bool
is_variant c = c == b'8' || c == b'9' || c == b'a' || c == b'b'

unfoldable pub is_valid_bytes : List ℕ → Bool
is_valid_bytes cs =
    length cs == 36
    && byte_at cs 8 == b'-'
    && byte_at cs 13 == b'-'
    && byte_at cs 18 == b'-'
    && byte_at cs 23 == b'-'
    && hex_from 0 cs
    && byte_at cs 14 == b'4'
    && is_variant (byte_at cs 19)

-- `IsValid`, of an installation and of a node.
unfoldable pub is_valid_id : String → Bool
unfolding is_valid_bytes is_hex is_variant
is_valid_id s = is_valid_bytes (codes s)
