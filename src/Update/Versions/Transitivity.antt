-- ===== src/Update/Versions/Transitivity.antt =====
-- About the order of semantic versions in apps/api/internal/update/checker.go: chains of versions.
use proxy_core.Base.{◌≡◌, refl, List, [], ◌∷◌, arith}
use proxy_core.Base.Order.{text_lt_trans}
use proxy_core.Base.Texts.{Text, text_eq_iff}
use proxy_core.Update.Versions.{
  less, SemanticVersion, strip_zeros, compare_stripped, compare_numeric_strings,
  compare_identifiers, compare_lists, compare_prereleases, compare_sem_ver,
}
use proxy_core.Update.Versions.Order.{compare_identifiers-reverse}

compare_stripped_trans :
    (a b c : Text)
    → compare_stripped a b ≡ less
    → compare_stripped b c ≡ less
    → compare_stripped a c ≡ less
compare_stripped_trans a b c h k = ground (arith, text_lt_trans a b c)

compare_identifiers_trans :
    (a b c : Text)
    → compare_identifiers a b ≡ less
    → compare_identifiers b c ≡ less
    → compare_identifiers a c ≡ less
unfolding compare_identifiers compare_numeric_strings
compare_identifiers_trans a b c h k = ground (
  arith,
  text_lt_trans a b c,
  compare_stripped_trans (strip_zeros a) (strip_zeros b) (strip_zeros c),
)

compare_lists_trans :
    (ps qs rs : List Text)
    → compare_lists ps qs ≡ less
    → compare_lists qs rs ≡ less
    → compare_lists ps rs ≡ less
unfolding compare_lists
compare_lists_trans [] [] rs h k = absurd (ground arith)
compare_lists_trans (a ∷ ps) [] rs h k = absurd (ground arith)
compare_lists_trans ps (b ∷ qs) [] h k = absurd (ground arith)
compare_lists_trans [] (b ∷ qs) (c ∷ rs) h k = refl
compare_lists_trans (a ∷ ps) (b ∷ qs) (c ∷ rs) h k = ground (
  arith,
  h,
  k,
  text_eq_iff a b,
  text_eq_iff b c,
  text_eq_iff a c,
  compare_lists_trans ps qs rs,
  compare_identifiers-reverse a b,
  compare_identifiers_trans a b c,
)

compare_prereleases_trans :
    (ps qs rs : List Text)
    → compare_prereleases ps qs ≡ less
    → compare_prereleases qs rs ≡ less
    → compare_prereleases ps rs ≡ less
unfolding compare_prereleases
compare_prereleases_trans [] [] rs h k = absurd (ground arith)
compare_prereleases_trans [] (b ∷ qs) rs h k = absurd (ground arith)
compare_prereleases_trans (a ∷ ps) [] [] h k = refl
compare_prereleases_trans (a ∷ ps) [] (c ∷ rs) h k = absurd (ground arith)
compare_prereleases_trans (a ∷ ps) (b ∷ qs) [] h k = refl
compare_prereleases_trans (a ∷ ps) (b ∷ qs) (c ∷ rs) h k =
    compare_lists_trans (a ∷ ps) (b ∷ qs) (c ∷ rs) h k

-- A version before one that is before a third one is before the third.
pub compare_sem_ver_trans :
    (u v w : SemanticVersion)
    → compare_sem_ver u v ≡ less
    → compare_sem_ver v w ≡ less
    → compare_sem_ver u w ≡ less
unfolding compare_sem_ver
compare_sem_ver_trans u v w h k =
    ground (arith, compare_prereleases_trans u.prerelease v.prerelease w.prerelease)
