-- ===== src/Domain/Names/Laws.antt =====
-- About the names that apps/api/internal/domain/dns.go accepts.
use proxy_core.Base.{
  ℕ, ◌≤◌, ◌≡◌, refl, subst, Bool, true, false, not, List, [], ◌∷◌, ltb, leb, ◌==◌, ◌&&◌, ◌||◌,
  length, all, arith, ◌⊎◌, inl, inr, Bool-cases, ok, Result-cases, leb→le,
}
use proxy_core.Base.Texts.{
  Text, text_eq, text_eq_iff, is_empty, byte_length, is_space, is_upper, trim_space, split,
  split_first, has_suffix, has_suffix_sound, trim_space-clean, trim_right-split, all-split,
  all_mono, to_lower-clean,
}
use proxy_core.Domain.Names.{
  is_alphanumeric, label_rest, is_label, is_wildcard, valid_labels, without_root, check_name,
  normalize_dns_name, under, place_in_zone, canonical_record_name,
}

-- A name that can be stored: its labels are valid, and neither they nor its bytes are too many.
pub record IsName (wild : Bool) (name : Text) : Type 0 where
  pub nonempty : is_empty name ≡ false
  pub labels : valid_labels wild (split b'.' name) ≡ true
  pub few : length (split b'.' name) ≤ 127
  pub short : byte_length name ≤ 253

abbrev is_name_char : ℕ → Bool
is_name_char c = is_alphanumeric c || c == b'-' || c == b'.' || c == b'*'

label_rest-chars : (l : Text) → label_rest l ≡ true → all is_name_char l ≡ true
unfolding label_rest
label_rest-chars [] h = refl
label_rest-chars (c ∷ []) h = ground arith
label_rest-chars (c ∷ d ∷ l) h = ground (arith, label_rest-chars (d ∷ l))

is_label-chars : (l : Text) → is_label l ≡ true → all is_name_char l ≡ true
unfolding is_label
is_label-chars [] h = refl
is_label-chars (c ∷ l) h = ground (arith, label_rest-chars l)

is_wildcard-chars : (l : Text) → is_wildcard l ≡ true → all is_name_char l ≡ true
is_wildcard-chars l h = rw ((text_eq_iff l (b'*' ∷ [])).0 h) refl

valid_labels-chars :
    (wild : Bool) (ls : List Text) → valid_labels wild ls ≡ true → all (all is_name_char) ls ≡ true
unfolding valid_labels
valid_labels-chars wild [] h = refl
valid_labels-chars wild (l ∷ ls) h =
    ground (arith, is_label-chars l, is_wildcard-chars l, valid_labels-chars false ls)

valid_labels-nonempty :
    (ls : List Text) → valid_labels false ls ≡ true → all (λ l. not (is_empty l)) ls ≡ true
unfolding valid_labels is_label
valid_labels-nonempty [] h = refl
valid_labels-nonempty ([] ∷ ls) h = absurd (ground arith)
valid_labels-nonempty ((c ∷ l) ∷ ls) h = ground (arith, valid_labels-nonempty ls)

IsName-chars : (wild : Bool) (name : Text) → IsName wild name → all is_name_char name ≡ true
IsName-chars wild name n =
    all-split is_name_char b'.' name refl (valid_labels-chars wild (split b'.' name) n.labels)

-- A name is its own normal form.
without_root-IsName :
    (wide : ℕ → ℕ) (wild : Bool) (name : Text) → IsName wild name → without_root wide name ≡ name
unfolding split valid_labels is_space
without_root-IsName wide wild name n =
    let chars = IsName-chars wild name n in
    let spaceless =
      trim_space-clean name
        (all_mono is_name_char (λ c. not (is_space c)) (λ c h. ground arith) name chars) in
    let dotless =
      trim_right-split b'.' name
        (valid_labels-nonempty (split_first b'.' name).1 (ground (arith, n.labels))) in
    let lower = to_lower-clean wide name (
      all_mono is_name_char (λ c. not (is_upper c) && ltb c 0x80) (λ c h. ground arith) name
        chars) in
    rw (spaceless, dotless) lower

check_name_sound :
    (name : Text) (wild : Bool) (r : Text)
    → check_name name wild ≡ ok r
    → (name ≡ r) × IsName wild name
unfolding check_name
check_name_sound name wild r h =
    let nonempty : is_empty name ≡ false = ground arith in
    let few : leb (length (split b'.' name)) 127 ≡ true = ground arith in
    let labels : valid_labels wild (split b'.' name) ≡ true = ground arith in
    let short : leb (byte_length name) 253 ≡ true = ground arith in
    let same : name ≡ r = ground arith in
    (
      same,
      record {
        nonempty = nonempty;
        labels = labels;
        few = leb→le (length (split b'.' name)) 127 few;
        short = leb→le (byte_length name) 253 short;
      },
    )

check_name-IsName : (name : Text) (wild : Bool) → IsName wild name → check_name name wild ≡ ok name
unfolding check_name
check_name-IsName name wild n =
    let few : leb (length (split b'.' name)) 127 ≡ true = ground (arith, n.few) in
    let short : leb (byte_length name) 253 ≡ true = ground (arith, n.short) in
    rw (n.nonempty, few, n.labels, short) refl

pub normalize_dns_name-IsName :
    (wide : ℕ → ℕ) (value : Text) (wild : Bool) (r : Text)
    → normalize_dns_name wide value wild ≡ ok r
    → IsName wild r
unfolding normalize_dns_name
normalize_dns_name-IsName wide value wild r h =
    let (same, n) = check_name_sound (without_root wide value) wild r h in
    subst (IsName wild) same n

pub IsName-normalize :
    (wide : ℕ → ℕ) (wild : Bool) (name : Text)
    → IsName wild name
    → normalize_dns_name wide name wild ≡ ok name
unfolding normalize_dns_name
IsName-normalize wide wild name n =
    rw (without_root-IsName wide wild name n) (check_name-IsName name wild n)

-- A DNS name that is accepted is kept with valid labels, 127 at most, in 253 bytes at most, and in
-- a form that is accepted again and stays.
pub normalize_dns_name-stable :
    (wide : ℕ → ℕ) (wild : Bool) (value name : Text)
    → normalize_dns_name wide value wild ≡ ok name
    → IsName wild name × (normalize_dns_name wide name wild ≡ ok name)
normalize_dns_name-stable wide wild value name h =
    let n = normalize_dns_name-IsName wide value wild name h in
    (n, IsName-normalize wide wild name n)

-- The zone itself, or a name under it.
abbrev pub InZone : Text → Text → Type 0
InZone zone name = (name ≡ zone) ⊎ ((p : Text) × (name ≡ under p zone))

place_in_zone-InZone : (zone name : Text) → InZone zone (place_in_zone zone name)
unfolding place_in_zone
place_in_zone-InZone zone name = elim (Bool-cases (text_eq name zone)) [
  | inl same ↦ inl (rw same ((text_eq_iff name zone).0 same))
  | inr other ↦ elim (Bool-cases (has_suffix (b'.' ∷ zone) name)) [
    | inl below ↦
        let (p, e) = has_suffix_sound (b'.' ∷ zone) name below in inr (p, rw (other, below) e)
    | inr outside ↦ inr (name, rw (other, outside) refl)
  ]
]

-- The canonical name of a record is the zone's or stands under it.
pub canonical_record_name-InZone :
    (wide : ℕ → ℕ) (name zone_name zone r : Text)
    → normalize_dns_name wide zone_name false ≡ ok zone
    → canonical_record_name wide name zone_name ≡ ok r
    → InZone zone r
unfolding canonical_record_name
canonical_record_name-InZone wide name zone_name zone r z h =
    elim (Bool-cases (is_empty (trim_space name) || text_eq (trim_space name) (b'@' ∷ []))) [
      | inl apex ↦ inl (ground (arith, h, z, apex))
      | inr other ↦ elim (Result-cases (normalize_dns_name wide (trim_space name) true)) [
        | inr (e, bad) ↦ absurd (ground (arith, h, z, other, bad))
        | inl (n, good) ↦
            subst (InZone zone) (ground (arith, h, z, other, good)) (place_in_zone-InZone zone n)
      ]
    ]
