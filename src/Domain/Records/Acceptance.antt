-- ===== src/Domain/Records/Acceptance.antt =====
-- About the records that apps/api/internal/domain/dns.go has to accept for a zone.
use proxy_core.Base.{
  ℕ, ◌≤◌, ◌≡◌, ◌≢◌, refl, sym, ◌∙◌, String, Bool, true, false, List, [], ◌∷◌, str_eq, any, arith,
  eq_iff, inl, inr, Bool-cases, All, All-map, Pairwise, Pairwise-map, ok,
}
use proxy_core.Base.Texts.{Text, text_eq_iff}
use proxy_core.Domain.Names.{normalize_dns_name}
use proxy_core.Domain.Records.{RecordSetOptions, validate_record, records_from, validate_record_set}
use proxy_core.Domain.Records.Groups.{
  DnsRecord, filter, count, is_in_group, enabled_by_name, is_cname, check_group, groups_from,
  check_groups,
}
use proxy_core.Domain.Records.Groups.Coexistence.{Compatible, Coexist}

-- Records none of which is a CNAME beside another, and one of which at most is proxied.
All-Compatible :
    (r : DnsRecord) (l : List DnsRecord)
    → All (Compatible r) l
    → r.proxied ≡ true
    → count (λ r. r.proxied) l ≡ 0
unfolding count
All-Compatible r [] h on = refl
All-Compatible r (s ∷ l) h on = ground (arith, h.0, All-Compatible r l h.1 on)

count-Compatible : (l : List DnsRecord) → Pairwise Compatible l → count (λ r. r.proxied) l ≤ 1
unfolding count
count-Compatible [] h = omega arith
count-Compatible (r ∷ l) h = ground (arith, count-Compatible l h.1, All-Compatible r l h.0)

any-Compatible :
    (r s : DnsRecord) (l : List DnsRecord)
    → Pairwise Compatible (r ∷ s ∷ l)
    → any is_cname (r ∷ s ∷ l) ≡ false
any-Compatible r s [] h = ground (arith, h.0.0)
any-Compatible r s (t ∷ l) h = ground (arith, h.0.0, any-Compatible s t l h.1)

Compatible-check_group : (l : List DnsRecord) → Pairwise Compatible l → check_group l ≡ ok tt
unfolding check_group
Compatible-check_group [] h = ground (arith, count-Compatible [] h)
Compatible-check_group (r ∷ []) h = ground (arith, count-Compatible (r ∷ []) h)
Compatible-check_group (r ∷ s ∷ l) h =
    ground (arith, count-Compatible (r ∷ s ∷ l) h, any-Compatible r s l h)

module _ {A : Type 0} (p : A → Bool) where
  filter-All : (P : A → Type 0) (l : List A) → All (λ x. p x ≡ true → P x) l → All P (filter p l)
  unfolding filter
  filter-All P [] h = tt
  filter-All P (x ∷ l) h = elim (Bool-cases (p x)) [
    | inl on ↦ rw on (h.0 on, filter-All P l h.1)
    | inr off ↦ rw off (filter-All P l h.1)
  ]

  filter-Pairwise :
      (R : A → A → Type 0) (l : List A)
      → Pairwise (λ x y. p x ≡ true → p y ≡ true → R x y) l
      → Pairwise R (filter p l)
  unfolding filter
  filter-Pairwise R [] h = tt
  filter-Pairwise R (x ∷ l) h = elim (Bool-cases (p x)) [
    | inl on ↦ rw on (
      filter-All (R x) l (
          All-map (λ y. p x ≡ true → p y ≡ true → R x y) (λ y. p y ≡ true → R x y) (λ y f. f on) l
            h.0),
      filter-Pairwise R l h.1,
    )
    | inr off ↦ rw off (filter-Pairwise R l h.1)
  ]

Coexist-groups_from :
    (all_records rs : List DnsRecord)
    → Pairwise Coexist all_records
    → groups_from all_records rs ≡ ok tt
unfolding groups_from
Coexist-groups_from all_records [] h = refl
Coexist-groups_from all_records (t ∷ rs) h =
    let group = Compatible-check_group (enabled_by_name t.name all_records) (
      filter-Pairwise (is_in_group t.name) Compatible all_records (
        Pairwise-map Coexist
          (λ r s. is_in_group t.name r ≡ true → is_in_group t.name s ≡ true → Compatible r s)
          (λ r s f on also. f (ground (arith, on)) (ground (arith, also)) (
            (text_eq_iff r.name t.name).0 (ground (arith, on))
            ∙ sym ((text_eq_iff s.name t.name).0 (ground (arith, also)))))
          all_records h)) in
    ground (arith, group, Coexist-groups_from all_records rs h)

-- Each record alone is accepted, as the one in its place.
abbrev pub Accepted : (ℕ → ℕ) → RecordSetOptions → Text → List DnsRecord → List DnsRecord → Type 0
Accepted wide o zone [] [] = Unit
Accepted wide o zone [] (next ∷ out) = ⊥
Accepted wide o zone (r ∷ rs) [] = ⊥
Accepted wide o zone (r ∷ rs) (next ∷ out) =
    (validate_record wide o zone [] r ≡ ok next) × Accepted wide o zone rs out

validate_record_unseen :
    (wide : ℕ → ℕ) (o : RecordSetOptions) (zone : Text) (seen : List String) (r next : DnsRecord)
    → any (str_eq r.id) seen ≡ false
    → validate_record wide o zone [] r ≡ ok next
    → validate_record wide o zone seen r ≡ ok next
unfolding validate_record
validate_record_unseen wide o zone seen r next new h = rw new h

abbrev Unseen : List String → DnsRecord → Type 0
Unseen seen r = any (str_eq r.id) seen ≡ false

records_from_complete :
    (wide : ℕ → ℕ) (o : RecordSetOptions) (zone : Text) (seen : List String)
    (rs out : List DnsRecord)
    → Accepted wide o zone rs out
    → All (Unseen seen) rs
    → Pairwise (λ r s. s.id ≢ r.id) rs
    → records_from wide o zone seen rs ≡ ok out
unfolding records_from
records_from_complete wide o zone seen [] [] a new d = refl
records_from_complete wide o zone seen [] (next ∷ out) a new d = elim a [ ]
records_from_complete wide o zone seen (r ∷ rs) [] a new d = elim a [ ]
records_from_complete wide o zone seen (r ∷ rs) (next ∷ out) a new d =
    let first = validate_record_unseen wide o zone seen r next new.0 a.0 in
    let fresh = both seen r rs new.1 d.0 in
    let rest = records_from_complete wide o zone (r.id ∷ seen) rs out a.1 fresh d.1 in
    ground (arith, first, rest)
  where
    both :
        (seen : List String) (r : DnsRecord) (rs : List DnsRecord)
        → All (Unseen seen) rs
        → All (λ (s : DnsRecord). s.id ≢ r.id) rs
        → All (Unseen (r.id ∷ seen)) rs
    both seen r [] u d = tt
    both seen r (s ∷ rs) u d = (
      elim (Bool-cases (str_eq s.id r.id)) [
        | inl same ↦ absurd (d.0 ((eq_iff s.id r.id).0 same))
        | inr other ↦ ground (arith, u.0, other)
      ],
      both seen r rs u.1 d.1,
    )

-- Records that are accepted each alone, with ids that differ, are accepted together where those of
-- one name can stand together.
pub validate_record_set_complete :
    (wide : ℕ → ℕ) (o : RecordSetOptions) (zone : Text) (records out : List DnsRecord)
    → normalize_dns_name wide o.zone_name false ≡ ok zone
    → Accepted wide o zone records out
    → Pairwise (λ r s. s.id ≢ r.id) records
    → Pairwise Coexist out
    → validate_record_set wide records o ≡ ok out
unfolding validate_record_set check_groups
validate_record_set_complete wide o zone records out z a d c =
    let checked = records_from_complete wide o zone [] records out a (unseen records) d in
    let grouped = Coexist-groups_from out out c in ground (arith, z, checked, grouped)
  where
    unseen : (rs : List DnsRecord) → All (Unseen []) rs
    unseen [] = tt
    unseen (r ∷ rs) = (refl, unseen rs)
