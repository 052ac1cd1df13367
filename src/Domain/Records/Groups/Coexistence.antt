-- ===== src/Domain/Records/Groups/Coexistence.antt =====
-- About the records of one name that apps/api/internal/domain/dns.go accepts together.
use proxy_core.Base.{
  ◌≤◌, ◌≡◌, refl, Bool, true, false, List, [], ◌∷◌, if◌then◌else◌, ◌&&◌, any, arith, inl, inr, ◌⊎◌,
  subst, Bool-cases, All, All-map, All-intro, Pairwise-intro, Pairwise, Pairwise-map, ok, >>=-eq-ok,
}
use proxy_core.Base.Texts.{text_eq_iff}
use proxy_core.Domain.Records.Groups.{
  DnsRecord, filter, count, is_in_group, enabled_by_name, is_cname, check_group, groups_from,
  check_groups,
}

-- Neither is a CNAME, and one of them at most is proxied.
abbrev pub Compatible : DnsRecord → DnsRecord → Type 0
Compatible r s = (is_cname r ≡ false) × (is_cname s ≡ false) × ((r.proxied && s.proxied) ≡ false)

-- Two records that are enabled and have one name are compatible.
abbrev pub Coexist : DnsRecord → DnsRecord → Type 0
Coexist r s = r.enabled ≡ true → s.enabled ≡ true → r.name ≡ s.name → Compatible r s

-- A list none of whose records is a CNAME, and one of which at most is proxied.
no_cname-Compatible :
    (r : DnsRecord) (l : List DnsRecord)
    → any is_cname (r ∷ l) ≡ false
    → count (λ r. r.proxied) (r ∷ l) ≤ 1
    → All (Compatible r) l
unfolding count
no_cname-Compatible r [] none few = tt
no_cname-Compatible r (s ∷ l) none few = (
  (ground arith, ground arith, ground arith),
  no_cname-Compatible r l (ground arith) (ground arith),
)

few-Compatible :
    (l : List DnsRecord)
    → any is_cname l ≡ false
    → count (λ r. r.proxied) l ≤ 1
    → Pairwise Compatible l
unfolding count
few-Compatible [] none few = tt
few-Compatible (r ∷ l) none few = (
  no_cname-Compatible r l none (unfold count in few),
  few-Compatible l (ground arith) (ground arith),
)

check_group-Compatible : (l : List DnsRecord) → check_group l ≡ ok tt → Pairwise Compatible l
unfolding check_group
check_group-Compatible [] h = tt
check_group-Compatible (r ∷ []) h = (tt, tt)
check_group-Compatible (r ∷ s ∷ l) h = few-Compatible (r ∷ s ∷ l) (ground arith) (ground arith)

module _ {ℓ κ} {A : Type ℓ} (p : A → Bool) where
  filter-passes : (x : A) (l : List A) → p x ≡ true → filter p (x ∷ l) ≡ x ∷ filter p l
  unfolding filter
  filter-passes x l h = rw h refl

  filter-fails : (x : A) (l : List A) → p x ≡ false → filter p (x ∷ l) ≡ filter p l
  unfolding filter
  filter-fails x l h = rw h refl

  -- What holds of the elements that pass, and between them.
  All-filter : (P : A → Type κ) (l : List A) → All P (filter p l) → All (λ x. p x ≡ true → P x) l
  All-filter P [] h = tt
  All-filter P (x ∷ l) h = elim (Bool-cases (p x)) [
    | inl passes ↦
        let (first, rest) = subst (All P) (filter-passes x l passes) h in
        (λ _. first, All-filter P l rest)
    | inr fails ↦ (λ q. absurd (cc), All-filter P l (subst (All P) (filter-fails x l fails) h))
  ]

  Pairwise-filter :
      (R : A → A → Type κ) (l : List A)
      → Pairwise R (filter p l)
      → Pairwise (λ x y. p x ≡ true → p y ≡ true → R x y) l
  Pairwise-filter R [] h = tt
  Pairwise-filter R (x ∷ l) h = elim (Bool-cases (p x)) [
    | inl passes ↦
        let (first, rest) = subst (Pairwise R) (filter-passes x l passes) h in
        (
          All-map (λ y. p y ≡ true → R x y) (λ y. p x ≡ true → p y ≡ true → R x y) (λ y f _. f) l
              (All-filter (R x) l first),
          Pairwise-filter R l rest,
        )
    | inr fails ↦ (
      All-intro (λ y. p x ≡ true → p y ≡ true → R x y) (λ y q. absurd (cc)) l,
      Pairwise-filter R l (subst (Pairwise R) (filter-fails x l fails) h),
    )
  ]

-- What relates the elements after each one, as that one sees it, relates any two.
Pairwise-diagonal {ℓ κ} :
    {A : Type ℓ} (P : A → A → A → Type κ) (l : List A)
    → All (λ x. Pairwise (P x) l) l
    → Pairwise (λ x y. P x x y) l
Pairwise-diagonal P [] h = tt
Pairwise-diagonal P (x ∷ l) h = (
  h.0.0,
  Pairwise-diagonal P l
      (All-map (λ y. Pairwise (P y) (x ∷ l)) (λ y. Pairwise (P y) l) (λ y q. q.1) l h.1),
)

-- What a group's check says, whoever looks at it.
abbrev Seen : DnsRecord → DnsRecord → DnsRecord → Type 0
Seen t r s =
    t.enabled ≡ true → is_in_group t.name r ≡ true → is_in_group t.name s ≡ true → Compatible r s

groups_from-Seen :
    (all_records rs : List DnsRecord)
    → groups_from all_records rs ≡ ok tt
    → All (λ t. Pairwise (Seen t) all_records) rs
unfolding groups_from
groups_from-Seen all_records [] h = tt
groups_from-Seen all_records (t ∷ rs) h =
    let (u, first, rest) =
      >>=-eq-ok (if t.enabled then check_group (enabled_by_name t.name all_records) else ok tt)
        (λ _. groups_from all_records rs) h in
    (seen (Bool-cases t.enabled) first, groups_from-Seen all_records rs rest)
  where
    seen :
        {u : Unit {0}}
        → (t.enabled ≡ true) ⊎ (t.enabled ≡ false)
        → (if t.enabled then check_group (enabled_by_name t.name all_records) else ok tt) ≡ ok u
        → Pairwise (Seen t) all_records
    seen (inl on) first =
        Pairwise-map
          (λ r s. is_in_group t.name r ≡ true → is_in_group t.name s ≡ true → Compatible r s)
          (Seen t) (λ r s f _. f) all_records
          (Pairwise-filter (is_in_group t.name) Compatible all_records (
            check_group-Compatible (enabled_by_name t.name all_records)
              (ground (arith, first, on))))
    seen (inr off) first = Pairwise-intro (Seen t) (λ r s on. absurd (cc)) all_records

pub check_groups-Coexist :
    (records : List DnsRecord) → check_groups records ≡ ok tt → Pairwise Coexist records
unfolding check_groups
check_groups-Coexist records h =
    Pairwise-map (λ r s. Seen r r s) Coexist
      (λ r s f on also same.
        f on (ground (arith, text_eq_iff r.name r.name))
          (ground (arith, text_eq_iff s.name r.name)))
      records (Pairwise-diagonal Seen records (groups_from-Seen records records h))
