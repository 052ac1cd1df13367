-- ===== src/Domain/Proxies/Rules/Laws.antt =====
-- About the rules on paths and headers that apps/api/internal/domain/proxy.go accepts.
use proxy_core.Base.{
  ◌≡◌, subst, String, false, Option, none, some, List, [], ◌∷◌, codes, any, arith, inl, inr, All,
  Pairwise, ok, Result-cases, Option-cases, >>=-eq-ok,
}
use proxy_core.Base.Texts.{Text, text_eq}
use proxy_core.Domain.Values.{Json, Fields, get, as_object, proxy_string}
use proxy_core.Domain.Proxies.Rules.{
  validate_dns_path, check_action, Seen, check_path_rule, path_rule, path_rules_from,
  validate_path_rules,
}

check_path_rule-fresh :
    (seen : Seen) (rule : Option Fields) (p : String × Text)
    → path_rule seen rule ≡ ok p
    → any (λ q. text_eq q.1 p.1) seen ≡ false
unfolding check_path_rule
check_path_rule-fresh seen none p h = absurd (ground arith)
check_path_rule-fresh seen (some rule) p h =
    elim (Result-cases (validate_dns_path (codes (proxy_string rule "pattern")))) [
      | inr (x, bad) ↦ absurd (ground (arith, h, bad))
      | inl (pattern, good) ↦ elim (Result-cases (check_action (as_object (get "action" rule)))) [
        | inr (x, bad) ↦ absurd (ground (arith, h, good, bad))
        | inl (u, fine) ↦ ground (arith, h, good, fine)
      ]
    ]

check_path_rule-pattern :
    (seen : Seen) (rule : Fields) (p : String × Text)
    → path_rule seen (some rule) ≡ ok p
    → validate_dns_path (codes (proxy_string rule "pattern")) ≡ ok p.1
unfolding check_path_rule
check_path_rule-pattern seen rule p h =
    elim (Result-cases (validate_dns_path (codes (proxy_string rule "pattern")))) [
      | inr (x, bad) ↦ absurd (ground (arith, h, bad))
      | inl (pattern, good) ↦ elim (Result-cases (check_action (as_object (get "action" rule)))) [
        | inr (x, bad) ↦ absurd (ground (arith, h, good, bad))
        | inl (u, fine) ↦ ground (arith, h, good, fine)
      ]
    ]

-- The pattern of a rule, in its normal form.
abbrev pub Pattern : Json → Text → Type 0
Pattern raw p =
    (rule : Fields) × (as_object raw ≡ some rule)
    × (validate_dns_path (codes (proxy_string rule "pattern")) ≡ ok p)

Pattern-unique : (raw : Json) (p q : Text) → Pattern raw p → Pattern raw q → p ≡ q
Pattern-unique raw p q (r, e, h) (s, f, k) = ground (arith, e, f, h, k)

path_rule-Pattern :
    (seen : Seen) (raw : Json) (p : String × Text)
    → path_rule seen (as_object raw) ≡ ok p
    → Pattern raw p.1
path_rule-Pattern seen raw p h = elim (Option-cases (as_object raw)) [
  | inl absent ↦ absurd (ground (arith, h, absent))
  | inr (rule, is_rule) ↦ (
    rule,
    is_rule,
    check_path_rule-pattern seen rule p (subst (λ o. path_rule seen o ≡ ok p) is_rule h),
  )
]

-- The patterns of two rules differ.
abbrev pub Apart : Json → Json → Type 0
Apart a b = (p q : Text) → Pattern a p → Pattern b q → text_eq p q ≡ false

-- The pattern of a rule is none of those that were seen.
abbrev Unseen : Seen → Json → Type 0
Unseen seen raw =
    (p : Text) → Pattern raw p → All (λ (s : String × Text). text_eq s.1 p ≡ false) seen

-- Every rule is an object with a pattern that is a path, and the patterns of any two rules differ.
pub record HasPatterns (rules : List Json) : Type 0 where
  pub each : All (λ raw. (p : Text) × Pattern raw p) rules
  pub differ : Pairwise Apart rules

none_seen :
    (seen : Seen) (p : Text)
    → any (λ q. text_eq q.1 p) seen ≡ false
    → All (λ (q : String × Text). text_eq q.1 p ≡ false) seen
none_seen [] p h = tt
none_seen (q ∷ seen) p h = (ground arith, none_seen seen p (ground arith))

first_rule :
    (seen : Seen) (p : String × Text) (raw : Json) (rules : List Json)
    → Pattern raw p.1
    → All (Unseen (p ∷ seen)) rules
    → All (Apart raw) rules × All (Unseen seen) rules
first_rule seen p raw [] own u = (tt, tt)
first_rule seen p raw (r ∷ rules) own (u, us) =
    let (aparts, rest) = first_rule seen p raw rules own us in
    (
      (
        λ x y mine other.
            subst (λ t. text_eq t y ≡ false) (Pattern-unique raw p.1 x own mine) (u y other).0,
        aparts,
      ),
      (λ y other. (u y other).1, rest),
    )

path_rules_from-HasPatterns :
    (seen : Seen) (rules : List Json) (out : Seen)
    → path_rules_from seen rules ≡ ok out
    → HasPatterns rules × All (Unseen seen) rules
unfolding path_rules_from
path_rules_from-HasPatterns seen [] out h = (record { each = tt; differ = tt }, tt)
path_rules_from-HasPatterns seen (raw ∷ more) out h =
    let (p, first, rest) =
      >>=-eq-ok (path_rule seen (as_object raw)) (λ p. path_rules_from (p ∷ seen) more) h in
    let (later, unseen) = path_rules_from-HasPatterns (p ∷ seen) more out rest in
    let own = path_rule-Pattern seen raw p first in
    let (aparts, others) = first_rule seen p raw more own unseen in
    (
      record { each = ((p.1, own), later.each); differ = (aparts, later.differ) },
      (
        λ q mine.
            subst (λ t. All (λ (s : String × Text). text_eq s.1 t ≡ false) seen)
              (Pattern-unique raw p.1 q own mine)
              (none_seen seen p.1 (check_path_rule-fresh seen (as_object raw) p first)),
        others,
      ),
    )

-- The rules that are accepted have patterns, which are all different.
pub validate_path_rules-HasPatterns :
    (rules : List Json) → validate_path_rules rules ≡ ok tt → HasPatterns rules
unfolding validate_path_rules
validate_path_rules-HasPatterns rules h = elim (Result-cases (path_rules_from [] rules)) [
  | inr (x, bad) ↦ absurd (ground (arith, h, bad))
  | inl (seen, good) ↦ (path_rules_from-HasPatterns [] rules seen good).0
]
