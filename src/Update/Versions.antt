-- ===== src/Update/Versions.antt =====
-- apps/api/internal/update/checker.go: semantic versions, how they are read and how they are compared.
pub mod Order
pub mod Transitivity
use proxy_core.Base.{
  ℕ, zero, suc, ◌+◌, ◌-◌, ◌*◌, ◌^◌, ◌≤◌, Bool, true, false, not, Option, none, some, List, [], ◌∷◌,
  if◌then◌else◌, ltb, leb, ◌==◌, ◌&&◌, ◌||◌, length, all, any,
}
use proxy_core.Base.Order.{text_lt}
use proxy_core.Base.Texts.{
  Text, text_eq, is_empty, is_digit, is_lower, is_upper, trim_left, trim_space, split, cut,
}

-- -1, 0 and 1.
pub data Comparison : Type 0 where
  less : Comparison
  equal : Comparison
  greater : Comparison

-- The numbers are below 2^64.
pub record SemanticVersion : Type 0 where
  pub major : ℕ
  pub minor : ℕ
  pub patch : ℕ
  pub prerelease : List Text

abbrev drop_v : Text → Text
drop_v [] = []
drop_v (c ∷ s) = if c == b'v' then s else c ∷ s

unfoldable pub normalize_version : Text → Text
normalize_version raw = drop_v (trim_space raw)

unfoldable pub is_numeric_identifier : Text → Bool
is_numeric_identifier s = not (is_empty s) && all is_digit s

abbrev has_leading_zero : Text → Bool
has_leading_zero [] = false
has_leading_zero (c ∷ s) = c == b'0' && not (is_empty s)

unfoldable decimal : ℕ → Text → ℕ
decimal n [] = n
decimal n (c ∷ s) = decimal (n * 10 + (c - b'0')) s

-- `strconv.ParseUint(raw, 10, 64)` after the check for a leading zero.
unfoldable pub parse_core_number : Text → Option ℕ
unfolding decimal
parse_core_number raw =
    if is_empty raw || has_leading_zero raw
    then none
    else if all is_digit raw && ltb (decimal 0 raw) (2 ^ 64)
    then some (decimal 0 raw)
    else none

abbrev is_identifier_char : ℕ → Bool
is_identifier_char c = is_digit c || is_upper c || is_lower c || c == b'-'

unfoldable pub valid_identifier_list : Text → Bool
valid_identifier_list raw =
    not (is_empty raw) && all (λ i. not (is_empty i) && all is_identifier_char i) (split b'.' raw)

abbrev zero_led : Text → Bool
zero_led i = is_numeric_identifier i && has_leading_zero i

abbrev parse_prerelease : Option Text → Option (List Text)
parse_prerelease none = some []
parse_prerelease (some raw) =
    if valid_identifier_list raw && not (any zero_led (split b'.' raw))
    then some (split b'.' raw)
    else none

abbrev bind {ℓ κ} : {A : Type ℓ} {B : Type κ} → Option A → (A → Option B) → Option B
bind none f = none
bind (some a) f = f a

unfoldable pub parse_core : List Text → Option (List Text) → Option SemanticVersion
parse_core (a ∷ b ∷ c ∷ []) prerelease = bind (parse_core_number a) (λ major.
    bind (parse_core_number b) (λ minor. bind (parse_core_number c) (λ patch.
      bind prerelease (λ identifiers.
        some (record { major = major; minor = minor; patch = patch; prerelease = identifiers })))))
parse_core _ prerelease = none

abbrev valid_build : Option Text → Bool
valid_build none = true
valid_build (some build) = valid_identifier_list build

-- `none` is an error.
unfoldable pub parse_sem_ver : Text → Option SemanticVersion
parse_sem_ver text =
    let raw = normalize_version text in
    let (without_build, build) = cut b'+' raw in
    let (core, prerelease) = cut b'-' without_build in
    if is_empty raw || not (valid_build build)
    then none
    else parse_core (split b'.' core) (parse_prerelease prerelease)

-- `compareUint` and `compareInt`.
abbrev pub compare_uint : ℕ → ℕ → Comparison
compare_uint a b = if ltb a b then less else if ltb b a then greater else equal

abbrev pub strip_zeros : Text → Text
strip_zeros s = let t = trim_left (λ c. c == b'0') s in if is_empty t then b'0' ∷ [] else t

abbrev pub compare_stripped : Text → Text → Comparison
compare_stripped a b =
    if length a == length b
    then (if text_lt a b then less else if text_lt b a then greater else equal)
    else compare_uint (length a) (length b)

unfoldable pub compare_numeric_strings : Text → Text → Comparison
compare_numeric_strings a b = compare_stripped (strip_zeros a) (strip_zeros b)

-- Two identifiers that are not the same.
unfoldable pub compare_identifiers : Text → Text → Comparison
compare_identifiers a b =
    if is_numeric_identifier a
    then (if is_numeric_identifier b then compare_numeric_strings a b else less)
    else if is_numeric_identifier b
    then greater
    else if text_lt a b
    then less
    else greater

-- The loop over the identifiers, and the lengths at its end.
unfoldable pub compare_lists : List Text → List Text → Comparison
compare_lists [] [] = equal
compare_lists [] (b ∷ bs) = less
compare_lists (a ∷ more) [] = greater
compare_lists (a ∷ more) (b ∷ bs) =
    let rest = compare_lists more bs in if text_eq a b then rest else compare_identifiers a b

-- A version without identifiers comes after the same one with some.
unfoldable pub compare_prereleases : List Text → List Text → Comparison
compare_prereleases [] [] = equal
compare_prereleases [] (b ∷ bs) = greater
compare_prereleases (a ∷ more) [] = less
compare_prereleases (a ∷ more) (b ∷ bs) = compare_lists (a ∷ more) (b ∷ bs)

unfoldable pub compare_sem_ver : SemanticVersion → SemanticVersion → Comparison
compare_sem_ver l r =
    if not (l.major == r.major)
    then compare_uint l.major r.major
    else if not (l.minor == r.minor)
    then compare_uint l.minor r.minor
    else if not (l.patch == r.patch)
    then compare_uint l.patch r.patch
    else compare_prereleases l.prerelease r.prerelease
