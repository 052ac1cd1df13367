-- ===== src/Domain/Names.antt =====
-- apps/api/internal/domain/dns.go: DNS names. A parameter stands for the case tables of Unicode beyond
-- ASCII.
pub mod Laws
use proxy_core.Base.{
  ℕ, ◌+◌, ◌≤◌, String, Bool, true, false, not, List, [], ◌∷◌, ◌++◌, if◌then◌else◌, ltb, leb, ◌==◌,
  ◌&&◌, ◌||◌, codes, length, Result, err, ok, guard, ◌>>=◌, ◌>>◌,
}
use proxy_core.Base.Texts.{
  Text, text_eq, is_empty, byte_length, is_digit, is_lower, trim_space, trim_right, to_lower, split,
  has_suffix,
}

abbrev pub is_dot : ℕ → Bool
is_dot c = c == b'.'

abbrev pub is_alphanumeric : ℕ → Bool
is_alphanumeric c = is_digit c || is_lower c

-- The optional part of `dnsLabelPattern`: at most 61 letters, digits and dashes, and then a letter or
-- a digit.
unfoldable pub label_rest : Text → Bool
label_rest [] = true
label_rest (c ∷ []) = is_alphanumeric c
label_rest (c ∷ d ∷ s) = (is_alphanumeric c || c == b'-') && label_rest (d ∷ s)

-- `dnsLabelPattern`, and the bound on the length.
unfoldable pub is_label : Text → Bool
is_label [] = false
is_label (c ∷ s) = is_alphanumeric c && label_rest s && leb (length s) 62

abbrev pub is_wildcard : Text → Bool
is_wildcard l = text_eq l (b'*' ∷ [])

-- The loop over the labels; only the first can be a wildcard.
unfoldable pub valid_labels : Bool → List Text → Bool
valid_labels wild [] = true
valid_labels wild (l ∷ ls) = ((wild && is_wildcard l) || is_label l) && valid_labels false ls

abbrev pub without_root : (ℕ → ℕ) → Text → Text
without_root wide value = to_lower wide (trim_right is_dot (trim_space value))

unfoldable pub check_name : Text → Bool → Result String Text
check_name name wild =
    guard (not (is_empty name)) "DNS_NAME_EMPTY"
    >> guard (leb (length (split b'.' name)) 127) "DNS_NAME_LABELS"
    >> guard (valid_labels wild (split b'.' name)) "DNS_LABEL_INVALID"
    >> guard (leb (byte_length name) 253) "DNS_NAME_LENGTH"
    >> ok name

unfoldable pub normalize_dns_name : (ℕ → ℕ) → Text → Bool → Result String Text
normalize_dns_name wide value wild = check_name (without_root wide value) wild

abbrev pub under : Text → Text → Text
under name zone = name ++ b'.' ∷ zone

unfoldable pub place_in_zone : Text → Text → Text
place_in_zone zone name =
    if text_eq name zone || has_suffix (b'.' ∷ zone) name then name else under name zone

unfoldable pub canonical_record_name : (ℕ → ℕ) → Text → Text → Result String Text
canonical_record_name wide name zone_name = normalize_dns_name wide zone_name false >>= λ zone.
    let value = trim_space name in
    if is_empty value || text_eq value (b'@' ∷ [])
    then ok zone
    else (normalize_dns_name wide value true >>= λ normalized. ok (place_in_zone zone normalized))
