-- ===== src/Identifiers/Laws.antt =====
-- About NewInstallationID and IsValid of apps/api/internal/domain/identity.go.
use proxy_core.Base.{ℕ, ◌/◌, ◌%◌, ◌≡◌, ◌<◌, refl, true, arith}
use proxy_core.Identifiers.{
  hex_digit, Random, version_byte, variant_byte, new_installation_id, is_hex, is_variant,
  is_valid_bytes,
}

hex_digit-lt : (n : ℕ) → n < 16 → is_hex (hex_digit n) ≡ true
unfolding hex_digit is_hex
hex_digit-lt n h = ground arith

high_digit : (b : ℕ) → is_hex (hex_digit (b / 16 % 16)) ≡ true
high_digit b = hex_digit-lt (b / 16 % 16) (omega arith)

low_digit : (b : ℕ) → is_hex (hex_digit (b % 16)) ≡ true
low_digit b = hex_digit-lt (b % 16) (omega arith)

version_digit : (b : ℕ) → hex_digit (version_byte b / 16 % 16) ≡ b'4'
unfolding hex_digit
version_digit b = let e : version_byte b / 16 % 16 ≡ 4 = omega arith in rw e refl

four_digit : is_hex b'4' ≡ true
unfolding is_hex
four_digit = refl

variant_digit : (b : ℕ) → is_variant (hex_digit (variant_byte b / 16 % 16)) ≡ true
unfolding hex_digit is_variant
variant_digit b = ground arith

-- Whatever the random bytes are, a fresh installation id passes the validation of installation ids.
pub new_installation_id-is_valid : (r : Random) → is_valid_bytes (new_installation_id r) ≡ true
unfolding new_installation_id is_valid_bytes
new_installation_id-is_valid r =
    simp (four_digit, high_digit, low_digit, version_digit, variant_digit)
