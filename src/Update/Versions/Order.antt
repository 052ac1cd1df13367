-- ===== src/Update/Versions/Order.antt =====
-- About the order of semantic versions in apps/api/internal/update/checker.go.
use proxy_core.Base.{ℕ, ◌≡◌, refl, false, List, [], ◌∷◌, length, arith}
use proxy_core.Base.Order.{text_eq-sym, text_lt-asym, text_lt-total}
use proxy_core.Base.Texts.{Text, text_eq}
use proxy_core.Update.Versions.{
  Comparison, less, equal, greater, SemanticVersion, compare_uint, strip_zeros, compare_stripped,
  compare_numeric_strings, compare_identifiers, compare_lists, compare_prereleases, compare_sem_ver,
}

abbrev pub reverse : Comparison → Comparison
reverse less = greater
reverse equal = equal
reverse greater = less

compare_uint-reverse : (a b : ℕ) → compare_uint b a ≡ reverse (compare_uint a b)
compare_uint-reverse a b = ground arith

compare_stripped-reverse : (a b : Text) → compare_stripped b a ≡ reverse (compare_stripped a b)
compare_stripped-reverse a b =
    ground (arith, text_lt-asym a b, text_lt-asym b a, compare_uint-reverse (length a) (length b))

pub compare_identifiers-reverse :
    (a b : Text) → text_eq a b ≡ false → compare_identifiers b a ≡ reverse (compare_identifiers a b)
unfolding compare_identifiers compare_numeric_strings
compare_identifiers-reverse a b ne = ground (
  arith,
  ne,
  text_lt-asym a b,
  text_lt-total a b,
  compare_stripped-reverse (strip_zeros a) (strip_zeros b),
)

compare_lists-reverse :
    (more bs : List Text) → compare_lists bs more ≡ reverse (compare_lists more bs)
unfolding compare_lists
compare_lists-reverse [] [] = refl
compare_lists-reverse [] (b ∷ bs) = refl
compare_lists-reverse (a ∷ more) [] = refl
compare_lists-reverse (a ∷ more) (b ∷ bs) =
    ground (arith, text_eq-sym a b, compare_lists-reverse more bs, compare_identifiers-reverse a b)

compare_prereleases-reverse :
    (more bs : List Text) → compare_prereleases bs more ≡ reverse (compare_prereleases more bs)
unfolding compare_prereleases
compare_prereleases-reverse [] [] = refl
compare_prereleases-reverse [] (b ∷ bs) = refl
compare_prereleases-reverse (a ∷ more) [] = refl
compare_prereleases-reverse (a ∷ more) (b ∷ bs) = compare_lists-reverse (a ∷ more) (b ∷ bs)

-- Comparing two versions the other way round gives the opposite result.
pub compare_sem_ver-reverse :
    (l r : SemanticVersion) → compare_sem_ver r l ≡ reverse (compare_sem_ver l r)
unfolding compare_sem_ver
compare_sem_ver-reverse l r = ground (arith, compare_prereleases-reverse l.prerelease r.prerelease)
