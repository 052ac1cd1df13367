-- ===== src/Domain/Records/Laws.antt =====
-- About the records that apps/api/internal/domain/dns.go accepts for a zone.
use proxy_core.Base.{
  ℕ, ◌≡◌, ◌≢◌, refl, sym, ap, ◌∙◌, subst, String, true, false, List, [], ◌∷◌, str_eq, any, map,
  arith, eq_iff, inl, inr, All, All-map, Pairwise, Pairwise-map, ok, Result-cases,
}
use proxy_core.Base.Texts.{Text}
use proxy_core.Domain.Values.{is_between}
use proxy_core.Domain.Names.{normalize_dns_name, canonical_record_name}
use proxy_core.Domain.Names.Laws.{
  IsName, InZone, IsName-normalize, normalize_dns_name-stable, canonical_record_name-InZone,
}
use proxy_core.Domain.Records.{
  min_ttl, max_ttl, RecordSetOptions, is_record_type, validate_record_value, check_proxy, ttl_of,
  validate_record, records_from, validate_record_set,
}
use proxy_core.Domain.Records.Groups.{DnsRecord, check_groups}
use proxy_core.Domain.Records.Groups.Coexistence.{Coexist, check_groups-Coexist}

-- A record that can be served from a zone: its name stands in it, and its type, its TTL, its value
-- and its proxy settings are valid.
pub record IsRecord (wide : ℕ → ℕ) (o : RecordSetOptions) (zone : Text) (r : DnsRecord)
    : Type 0 where
  pub in_zone : InZone zone r.name
  pub type : is_record_type r.type ≡ true
  pub ttl : is_between min_ttl max_ttl r.ttl ≡ true
  pub value : validate_record_value wide r.type r.value ≡ ok tt
  pub proxy : check_proxy wide o r.name r ≡ ok tt

abbrev Unseen : List String → DnsRecord → Type 0
Unseen seen r = any (str_eq r.id) seen ≡ false

validate_record_sound :
    (wide : ℕ → ℕ) (o : RecordSetOptions) (zone : Text) (seen : List String) (r next : DnsRecord)
    → IsName false zone
    → validate_record wide o zone seen r ≡ ok next
    → IsRecord wide o zone next × Unseen seen next × (next.id ≡ r.id)
unfolding validate_record
validate_record_sound wide o zone seen r next z h =
    elim (Result-cases (canonical_record_name wide r.name zone)) [
      | inr (x, bad) ↦ absurd (ground (arith, h, bad))
      | inl (name, good) ↦ elim (Result-cases (validate_record_value wide r.type r.value)) [
        | inr (x, bad) ↦ absurd (ground (arith, h, good, bad))
        | inl (u, value) ↦ elim (Result-cases (check_proxy wide o name r)) [
          | inr (x, bad) ↦ absurd (ground (arith, h, good, value, bad))
          | inl (v, proxy) ↦
              let e : record r { name = name; ttl = ttl_of r.ttl } ≡ next =
                ground (arith, h, good, value, proxy) in
              subst (λ n. IsRecord wide o zone n × Unseen seen n × (n.id ≡ r.id)) e
                (
                  record {
                    in_zone =
                        canonical_record_name-InZone wide r.name zone zone name
                          (IsName-normalize wide false zone z) good;
                    type = ground (arith, h, good);
                    ttl = ground (arith, h, good);
                    value = value;
                    proxy = unfold check_proxy in proxy;
                  },
                  ground (arith, h, good),
                  refl,
                )
        ]
      ]
    ]

abbrev Distinct : DnsRecord → DnsRecord → Type 0
Distinct r s = str_eq s.id r.id ≡ false

-- Records that keep the ids of those they come from, which differ from those seen.
abbrev Listed :
    (ℕ → ℕ) → RecordSetOptions → Text → List String → List DnsRecord → List DnsRecord → Type 0
Listed wide o zone seen rs out =
    All (IsRecord wide o zone) out
    × All (Unseen seen) out
    × Pairwise Distinct out
    × (map (λ r. r.id) out ≡ map (λ r. r.id) rs)

records_from_sound :
    (wide : ℕ → ℕ) (o : RecordSetOptions) (zone : Text) (seen : List String)
    (rs out : List DnsRecord)
    → IsName false zone
    → records_from wide o zone seen rs ≡ ok out
    → Listed wide o zone seen rs out
unfolding records_from
records_from_sound wide o zone seen [] out z h =
    let e : [] ≡ out = ground (arith, h) in subst (Listed wide o zone seen []) e (tt, tt, tt, refl)
records_from_sound wide o zone seen (r ∷ rs) out z h =
    elim (Result-cases (validate_record wide o zone seen r)) [
      | inr (x, bad) ↦ absurd (ground (arith, h, bad))
      | inl (next, good) ↦ elim (Result-cases (records_from wide o zone (r.id ∷ seen) rs)) [
        | inr (x, bad) ↦ absurd (ground (arith, h, good, bad))
        | inl (rest, more) ↦
            let (valid, new, same) = validate_record_sound wide o zone seen r next z good in
            let (all_valid, fresh, apart, ids) =
              records_from_sound wide o zone (r.id ∷ seen) rs rest z more in
            let e : next ∷ rest ≡ out = ground (arith, h, good, more) in
            subst (Listed wide o zone seen (r ∷ rs)) e (
              (valid, all_valid),
              (new, All-map (Unseen (r.id ∷ seen)) (Unseen seen) (λ s k. ground arith) rest fresh),
              (
                All-map (Unseen (r.id ∷ seen)) (Distinct next) (λ s k. ground (arith, same)) rest
                    fresh,
                apart,
              ),
              cc,
            )
      ]
    ]

-- Records that are accepted for a zone are returned in their order with their ids, no two of which
-- are the same. Each has a name in the zone, a type that is supported, a TTL within the bounds, and
-- a value and proxy settings that are valid. Of the enabled records of one name, a CNAME stands
-- alone and one at most is proxied.
pub validate_record_set_sound :
    (wide : ℕ → ℕ) (o : RecordSetOptions) (records out : List DnsRecord)
    → validate_record_set wide records o ≡ ok out
    → (zone : Text) × (normalize_dns_name wide o.zone_name false ≡ ok zone)
      × (map (λ r. r.id) out ≡ map (λ r. r.id) records)
      × All (IsRecord wide o zone) out
      × Pairwise (λ r s. s.id ≢ r.id) out
      × Pairwise Coexist out
unfolding validate_record_set
validate_record_set_sound wide o records out h =
    elim (Result-cases (normalize_dns_name wide o.zone_name false)) [
      | inr (x, bad) ↦ absurd (ground (arith, h, bad))
      | inl (zone, good) ↦ elim (Result-cases (records_from wide o zone [] records)) [
        | inr (x, bad) ↦ absurd (ground (arith, h, good, bad))
        | inl (normalized, more) ↦
            let (z, stays) = normalize_dns_name-stable wide false o.zone_name zone good in
            let (valid, fresh, apart, ids) =
              records_from_sound wide o zone [] records normalized z more in
            let grouped : check_groups normalized ≡ ok tt = ground (arith, h, good, more) in
            let e : normalized ≡ out = ground (arith, h, good, more, grouped) in
            (
              zone,
              good,
              ap (map (λ r. r.id)) (sym e) ∙ ids,
              subst (All (IsRecord wide o zone)) e valid,
              subst (Pairwise (λ r s. s.id ≢ r.id)) e (
                  Pairwise-map Distinct (λ r s. s.id ≢ r.id)
                    (λ r s d q. absurd (ground (arith, eq_iff s.id r.id))) normalized apart),
              subst (Pairwise Coexist) e (check_groups-Coexist normalized grouped),
            )
      ]
    ]
