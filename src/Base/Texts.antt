-- ===== src/Base/Texts.antt =====
-- Texts as lists of code points, and what Go's `strings` does on them. A text is valid UTF-8, so a
-- text is its code points; `byte_length` is `len`.
use Prim.Native.Nat.{ℕ, ◌+◌}
use mathlib.Core.Path.{◌≡◌, refl, ap}
use mathlib.Core.Logic.{◌↔◌, inl, inr}
use mathlib.Core.Bool.{Bool, true, false, not, ◌&&◌, ◌||◌}
use mathlib.Core.Option.{Option, none, some}
use mathlib.Core.List.{List, [], ◌∷◌, ◌++◌}
use native.Mathlib.Omega.{arith}
use proxy_core.Base.Tests.{if◌then◌else◌, ltb, leb, ◌==◌, Bool-cases}
use proxy_core.Base.Lists.{any, all}

abbrev pub Text : Type 0
Text = List ℕ

unfoldable pub text_eq : Text → Text → Bool
text_eq [] [] = true
text_eq [] (d ∷ t) = false
text_eq (c ∷ s) [] = false
text_eq (c ∷ s) (d ∷ t) = c == d && text_eq s t

pub text_eq_iff : (s t : Text) → (text_eq s t ≡ true) ↔ (s ≡ t)
unfolding text_eq
text_eq_iff [] [] = ground arith
text_eq_iff [] (d ∷ t) = ground arith
text_eq_iff (c ∷ s) [] = ground arith
text_eq_iff (c ∷ s) (d ∷ t) = ground (arith, text_eq_iff s t)

abbrev pub is_empty {ℓ} : {A : Type ℓ} → List A → Bool
is_empty [] = true
is_empty (c ∷ s) = false

abbrev rune_length : ℕ → ℕ
rune_length c = if ltb c 0x80 then 1 else if ltb c 0x800 then 2 else if ltb c 0x1_0000 then 3 else 4

unfoldable pub byte_length : Text → ℕ
byte_length [] = 0
byte_length (c ∷ s) = rune_length c + byte_length s

-- `unicode.IsSpace`.
unfoldable pub is_space : ℕ → Bool
is_space c =
    (leb 9 c && leb c 13)
    || c == 32
    || c == 0x85
    || c == 0xa0
    || c == 0x1680
    || (leb 0x2000 c && leb c 0x200a)
    || c == 0x2028
    || c == 0x2029
    || c == 0x202f
    || c == 0x205f
    || c == 0x3000

abbrev pub is_digit : ℕ → Bool
is_digit c = leb b'0' c && leb c b'9'

abbrev pub is_lower : ℕ → Bool
is_lower c = leb b'a' c && leb c b'z'

abbrev pub is_upper : ℕ → Bool
is_upper c = leb b'A' c && leb c b'Z'

unfoldable pub trim_left : (ℕ → Bool) → Text → Text
trim_left p [] = []
trim_left p (c ∷ s) = let rest = trim_left p s in if p c then rest else c ∷ s

unfoldable pub trim_right : (ℕ → Bool) → Text → Text
trim_right p [] = []
trim_right p (c ∷ s) = let rest = trim_right p s in if is_empty rest && p c then [] else c ∷ rest

unfoldable pub trim_space : Text → Text
trim_space s = trim_left is_space (trim_right is_space s)

-- `unicode.ToLower`, with the tables beyond ASCII as a parameter.
unfoldable pub rune_lower : (ℕ → ℕ) → ℕ → ℕ
rune_lower wide c = if is_upper c then c + 32 else if ltb c 0x80 then c else wide c

unfoldable pub to_lower : (ℕ → ℕ) → Text → Text
to_lower wide [] = []
to_lower wide (c ∷ s) = rune_lower wide c ∷ to_lower wide s

-- `strings.Split` at a character: the first part and the others.
unfoldable pub split_first : ℕ → Text → Text × List Text
split_first d [] = ([], [])
split_first d (c ∷ s) =
    let rest = split_first d s in if c == d then ([], rest.0 ∷ rest.1) else (c ∷ rest.0, rest.1)

unfoldable pub split : ℕ → Text → List Text
split d s = (split_first d s).0 ∷ (split_first d s).1

-- `strings.SplitN(s, d, 2)`: what stands before the first `d`, and what stands after it, if there
-- is one.
unfoldable pub cut : ℕ → Text → Text × Option Text
cut d [] = ([], none)
cut d (c ∷ s) = let rest = cut d s in if c == d then ([], some s) else (c ∷ rest.0, rest.1)

unfoldable pub has_prefix : Text → Text → Bool
has_prefix [] s = true
has_prefix (c ∷ p) [] = false
has_prefix (c ∷ p) (d ∷ s) = c == d && has_prefix p s

-- `strings.HasSuffix(s, suffix)`.
unfoldable pub has_suffix : Text → Text → Bool
has_suffix suffix [] = is_empty suffix
has_suffix suffix (c ∷ s) = let rest = has_suffix suffix s in text_eq (c ∷ s) suffix || rest

abbrev pub contains_char : ℕ → Text → Bool
contains_char d s = any (λ c. c == d) s

pub has_suffix_sound :
    (suffix s : Text) → has_suffix suffix s ≡ true → (p : Text) × (s ≡ p ++ suffix)
unfolding has_suffix
has_suffix_sound [] [] h = ([], refl)
has_suffix_sound (d ∷ suffix) [] h = absurd (ground arith)
has_suffix_sound suffix (c ∷ s) h = elim (Bool-cases (text_eq (c ∷ s) suffix)) [
  | inl same ↦ ([], (text_eq_iff (c ∷ s) suffix).0 same)
  | inr other ↦ let (p, e) = has_suffix_sound suffix s (ground arith) in (c ∷ p, ap (λ t. c ∷ t) e)
]

-- What has nothing to trim stays.
pub trim_left-clean : (p : ℕ → Bool) (s : Text) → all (λ c. not (p c)) s ≡ true → trim_left p s ≡ s
unfolding trim_left
trim_left-clean p [] h = refl
trim_left-clean p (c ∷ s) h = ground arith

pub trim_right-clean :
    (p : ℕ → Bool) (s : Text) → all (λ c. not (p c)) s ≡ true → trim_right p s ≡ s
unfolding trim_right
trim_right-clean p [] h = refl
trim_right-clean p (c ∷ s) h = ground (arith, trim_right-clean p s)

pub trim_space-clean : (s : Text) → all (λ c. not (is_space c)) s ≡ true → trim_space s ≡ s
unfolding trim_space
trim_space-clean s h = rw (trim_right-clean is_space s h) (trim_left-clean is_space s h)

split_first-empty : (d : ℕ) (s : Text) → is_empty (split_first d s).0 ≡ false → is_empty s ≡ false
unfolding split_first
split_first-empty d [] h = h
split_first-empty d (c ∷ s) h = refl

-- A text whose parts after the first one are not empty does not end with the separator.
pub trim_right-split :
    (d : ℕ) (s : Text)
    → all (λ l. not (is_empty l)) (split_first d s).1 ≡ true
    → trim_right (λ c. c == d) s ≡ s
unfolding trim_right split_first
trim_right-split d [] h = refl
trim_right-split d (c ∷ s) h = ground (arith, trim_right-split d s, split_first-empty d s)

-- The parts have every character of the text but the separators.
pub all-split :
    (p : ℕ → Bool) (d : ℕ) (s : Text) → p d ≡ true → all (all p) (split d s) ≡ true → all p s ≡ true
unfolding split split_first
all-split p d [] sep h = refl
all-split p d (c ∷ s) sep h = ground (arith, all-split p d s sep)

pub all_mono :
    (p q : ℕ → Bool)
    → ((c : ℕ) → p c ≡ true → q c ≡ true)
    → (s : Text) → all p s ≡ true
    → all q s ≡ true
all_mono p q imp [] h = refl
all_mono p q imp (c ∷ s) h = ground (arith, imp c, all_mono p q imp s)

pub to_lower-clean :
    (wide : ℕ → ℕ) (s : Text)
    → all (λ c. not (is_upper c) && ltb c 0x80) s ≡ true
    → to_lower wide s ≡ s
unfolding to_lower rune_lower
to_lower-clean wide [] h = refl
to_lower-clean wide (c ∷ s) h = ground (arith, to_lower-clean wide s)
