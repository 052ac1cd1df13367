-- ===== src/Domain/Records.antt =====
-- apps/api/internal/domain/dns.go and model.go: the records of a zone. A parameter stands for the case
-- tables of Unicode beyond ASCII.
pub mod Certificates
pub mod Groups
pub mod Laws
pub mod Acceptance
use proxy_core.Base.{
  ℕ, ◌+◌, ◌≤◌, String, Bool, true, false, not, Option, none, some, List, [], ◌∷◌, ◌++◌,
  if◌then◌else◌, ltb, leb, ◌==◌, ◌&&◌, ◌||◌, str_eq, codes, length, all, any, Result, err, ok,
  guard, ◌>>=◌, ◌>>◌,
}
use proxy_core.Base.Int.{ℤ, pos, negsuc}
use proxy_core.Base.Texts.{Text, is_empty, byte_length, trim_space}
use proxy_core.Domain.Values.{
  Json, Fields, no_fields, get, as_bool, as_text, as_object, to_int, or_else, proxy_bool,
  proxy_string, is_between,
}
use proxy_core.Domain.Names.{normalize_dns_name, canonical_record_name}
use proxy_core.Domain.Addresses.{ip_version}
use proxy_core.Domain.Proxies.{is_present, validate_proxy_settings}
use proxy_core.Domain.Proxies.Rules.{is_newline}
use proxy_core.Domain.Records.Certificates.{CertificateStatus, validate_proxy_certificate}
use proxy_core.Domain.Records.Groups.{DnsRecord, check_groups}

abbrev pub min_ttl : ℕ
min_ttl = 30

abbrev pub max_ttl : ℕ
max_ttl = 86_400

abbrev pub default_ttl : ℕ
default_ttl = 300

-- An address that is not given is the empty text.
pub record Ingress : Type 0 where
  pub ipv4 : String
  pub ipv6 : String

pub record RecordSetOptions : Type 0 where
  pub zone_name : Text
  pub ingress : Option Ingress
  pub certificates : Option (List CertificateStatus)

-- `recordTypeSet`.
abbrev pub is_record_type : String → Bool
is_record_type t =
    str_eq t "A"
    || str_eq t "AAAA"
    || str_eq t "CNAME"
    || str_eq t "TXT"
    || str_eq t "MX"
    || str_eq t "SRV"

abbrev is_uint16 : Option ℤ → Bool
is_uint16 none = false
is_uint16 (some n) = is_between 0 65_535 n

-- A name that a value holds, which has to be there and to be valid.
unfoldable check_target : (ℕ → ℕ) → Bool → Option String → String → Result String (Unit {0})
check_target wide fine none fault = err fault
check_target wide fine (some name) fault =
    guard fine fault >> (normalize_dns_name wide (codes name) true >>= λ _. ok tt)

unfoldable assert_mx_value : (ℕ → ℕ) → Option Fields → Result String (Unit {0})
unfolding check_target
assert_mx_value wide none = err "MX_VALUE"
assert_mx_value wide (some m) =
    check_target wide (is_uint16 (to_int (get "priority" m))) (as_text (get "exchange" m))
      "MX_VALUE"

unfoldable assert_srv_value : (ℕ → ℕ) → Option Fields → Result String (Unit {0})
unfolding check_target
assert_srv_value wide none = err "SRV_VALUE"
assert_srv_value wide (some m) =
    check_target wide
      (is_uint16 (to_int (get "priority" m))
        && is_uint16 (to_int (get "weight" m))
        && is_uint16 (to_int (get "port" m)))
      (as_text (get "target" m)) "SRV_VALUE"

abbrev has_version : ℕ → Option String → Bool
has_version v none = false
has_version v (some s) = ip_version s == v

abbrev is_txt : Option String → Bool
is_txt none = false
is_txt (some s) =
    not (is_empty (codes s)) && leb (byte_length (codes s)) 255 && not (any is_newline (codes s))

unfoldable pub validate_record_value : (ℕ → ℕ) → String → Json → Result String (Unit {0})
unfolding check_target assert_mx_value assert_srv_value
validate_record_value wide type value =
    if str_eq type "A"
    then guard (has_version 4 (as_text value)) "A_VALUE"
    else if str_eq type "AAAA"
    then guard (has_version 6 (as_text value)) "AAAA_VALUE"
    else if str_eq type "CNAME"
    then check_target wide true (as_text value) "CNAME_VALUE"
    else if str_eq type "TXT"
    then guard (is_txt (as_text value)) "TXT_VALUE"
    else if str_eq type "MX"
    then assert_mx_value wide (as_object value)
    else if str_eq type "SRV"
    then assert_srv_value wide (as_object value)
    else ok tt

unfoldable pub validate_ingress_for_record : String → Option Ingress → Result String (Unit {0})
validate_ingress_for_record type none = err "INGRESS_REQUIRED"
validate_ingress_for_record type (some i) =
    if str_eq type "A"
    then guard (ip_version i.ipv4 == 4) "INGRESS_IPV4_REQUIRED"
    else if str_eq type "AAAA"
    then guard (ip_version i.ipv6 == 6) "INGRESS_IPV6_REQUIRED"
    else guard (ip_version i.ipv4 == 4 || ip_version i.ipv6 == 6) "INGRESS_REQUIRED"

abbrev check_certificate :
    (ℕ → ℕ) → Text → Fields → Option (List CertificateStatus) → Result String (Unit {0})
check_certificate wide name proxy none = ok tt
check_certificate wide name proxy (some certificates) =
    validate_proxy_certificate wide name (proxy_bool proxy "tlsEnabled")
      (proxy_string proxy "certificateId") certificates

abbrev can_be_proxied : String → Bool
can_be_proxied type = str_eq type "A" || str_eq type "AAAA" || str_eq type "CNAME"

abbrev check_settings : (ℕ → ℕ) → Option Fields → Result String (Unit {0})
check_settings wide none = ok tt
check_settings wide (some proxy) = validate_proxy_settings wide proxy none >>= λ _. ok tt

-- The proxy settings of a record with its canonical name.
unfoldable pub check_proxy :
    (ℕ → ℕ) → RecordSetOptions → Text → DnsRecord → Result String (Unit {0})
check_proxy wide o name r =
    if r.proxied
    then (guard (can_be_proxied r.type) "PROXY_RECORD_TYPE"
        >> guard (is_present r.proxy) "PROXY_SETTINGS_REQUIRED"
        >> validate_ingress_for_record r.type o.ingress
        >> check_settings wide r.proxy
        >> check_certificate wide name (or_else no_fields r.proxy) o.certificates)
    else check_settings wide r.proxy

abbrev pub ttl_of : ℤ → ℤ
ttl_of (negsuc n) = negsuc n
ttl_of (pos n) = if n == 0 then pos default_ttl else pos n

-- The body of the first loop, after the ids that it has seen.
unfoldable pub validate_record :
    (ℕ → ℕ) → RecordSetOptions → Text → List String → DnsRecord → Result String DnsRecord
validate_record wide o zone seen r =
    guard (not (is_empty (trim_space (codes r.id)))) "RECORD_ID_REQUIRED"
    >> guard (not (any (str_eq r.id) seen)) "RECORD_ID_DUPLICATE"
    >> guard (is_record_type r.type) "RECORD_TYPE"
    >> (canonical_record_name wide r.name zone >>= λ name.
        guard (is_between min_ttl max_ttl (ttl_of r.ttl)) "TTL_INVALID"
        >> validate_record_value wide r.type r.value
        >> check_proxy wide o name r
        >> ok (record r { name = name; ttl = ttl_of r.ttl }))

unfoldable pub records_from :
    (ℕ → ℕ)
    → RecordSetOptions
    → Text
    → List String
    → List DnsRecord
    → Result String (List DnsRecord)
records_from wide o zone seen [] = ok []
records_from wide o zone seen (r ∷ rs) = validate_record wide o zone seen r >>= λ next.
    records_from wide o zone (r.id ∷ seen) rs >>= λ rest. ok (next ∷ rest)

unfoldable pub validate_record_set :
    (ℕ → ℕ) → List DnsRecord → RecordSetOptions → Result String (List DnsRecord)
validate_record_set wide records o = normalize_dns_name wide o.zone_name false >>= λ zone.
    records_from wide o zone [] records >>= λ normalized. (check_groups normalized >> ok normalized)
