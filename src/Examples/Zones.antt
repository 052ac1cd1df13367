-- ===== src/Examples/Zones.antt =====
-- A zone, the proxy settings of a record, forwarding rules and stream routes.
use proxy_core.Base.{
  ℕ, ◌≡◌, ◌≢◌, refl, String, true, false, none, some, List, [], ◌∷◌, ◌++◌, map, codes, any, ◌||◌,
  All, Pairwise, ok,
}
use proxy_core.Domain.Addresses.{ip_version, parses_ip, is_ipv4, is_ipv6}
use proxy_core.Domain.Proxies.Rules.{
  validate_path_rules, path_rules_from, check_path_rule, validate_dns_path, check_action,
  validate_header_rules, header_rules_from, check_header_rule, is_header_name,
}
use proxy_core.Base.Int.{pos}
use proxy_core.Base.Texts.{
  Text, to_lower, trim_right, trim_space, trim_left, is_space, split, split_first, rune_lower,
  byte_length, text_eq, has_suffix, has_prefix,
}
use proxy_core.Domain.Names.{
  normalize_dns_name, canonical_record_name, check_name, valid_labels, is_label, label_rest,
  place_in_zone,
}
use proxy_core.Domain.Names.Laws.{
  IsName, InZone, normalize_dns_name-stable, canonical_record_name-InZone,
}
use proxy_core.Domain.Values.{
  Json, Fields, text, whole, boolean, object, array, field, no_fields, element, no_elements, get,
  slice_of,
}
use proxy_core.Domain.Proxies.{
  validate_proxy_settings, check_origin, check_basic_auth, is_username, is_secret_id, check_http3,
  check_cache, check_timeouts, timeout_or_default,
}
use proxy_core.Domain.Proxies.Directives.{
  is_brace, contains_unquoted_brace, validate_nginx_directives, check_directives, unix_lines,
  brace_from, has_block_context,
}
use proxy_core.Domain.Proxies.Directives.Quotes.{contains_unquoted_brace-quoted}
use proxy_core.Domain.Records.{
  RecordSetOptions, validate_record_set, records_from, validate_record, validate_record_value,
  check_proxy, validate_ingress_for_record,
}
use proxy_core.Domain.Records.Groups.{
  DnsRecord, check_groups, groups_from, check_group, filter, count,
}
use proxy_core.Domain.Records.Groups.Coexistence.{Coexist}
use proxy_core.Domain.Records.Acceptance.{Accepted, validate_record_set_complete}
use proxy_core.Domain.Records.Laws.{IsRecord, validate_record_set_sound}
use proxy_core.Domain.Forwarding.{
  ForwardingRule, StreamRoute, validate_forwarding_rules, validate_stream_routes, forwarding_from,
  validate_forwarding_rule, validate_resolver_pool, endpoints_from, validate_resolver_endpoint,
  stream_routes_from, validate_stream_route,
}
use proxy_core.Domain.Forwarding.Laws.{
  IsRule, IsRoute, Apart, validate_forwarding_rules_sound, validate_stream_routes_sound,
}

-- Case tables that leave what is not ASCII as it is.
abbrev same : ℕ → ℕ
same c = c

abbrev zone : Text
zone = codes "example.org"

abbrev spelled : Text
spelled = codes " Example.ORG. "

normalizes : normalize_dns_name same spelled false ≡ ok zone
unfolding normalize_dns_name check_name valid_labels is_label label_rest to_lower trim_right
    trim_space trim_left is_space split split_first rune_lower byte_length text_eq has_suffix
    has_prefix
normalizes = refl

normalize_dns_name_example : IsName false zone × (normalize_dns_name same zone false ≡ ok zone)
normalize_dns_name_example = normalize_dns_name-stable same false spelled zone normalizes

names_host : canonical_record_name same (codes "WWW") spelled ≡ ok (codes "www.example.org")
unfolding normalize_dns_name check_name valid_labels is_label label_rest canonical_record_name
    place_in_zone to_lower trim_right trim_space trim_left is_space split split_first rune_lower
    byte_length text_eq has_suffix has_prefix
names_host = refl

canonical_record_name_example : InZone zone (codes "www.example.org")
canonical_record_name_example =
    canonical_record_name-InZone same (codes "WWW") spelled zone (codes "www.example.org")
      normalizes names_host

abbrev settings : Fields
settings =
    field "origin"
      (object (
        field "ip" (text "192.0.2.7")
          (field "port" (whole (pos 8080)) (field "protocol" (text "http") no_fields))))
      (field "tlsEnabled" (boolean true) (
        field "basicAuth"
          (object (
            field "username" (text "admin")
              (field "passwordSecretId" (text "secret-01") no_fields)))
          (field "nginxDirectives" (text "return 200 '{}';") (
            field "pathRules"
              (array (element (object (field "pattern" (text "/api/") no_fields)) no_elements))
              no_fields))))

contains_unquoted_brace_example :
    contains_unquoted_brace (codes "return 200 " ++ (b'\'' ∷ (codes "{\"" ++ (b'\'' ∷ codes ";"))))
    ≡ (any is_brace (codes "return 200 ") || contains_unquoted_brace (codes ";"))
contains_unquoted_brace_example =
    contains_unquoted_brace-quoted b'\'' (codes "return 200 ") (codes "{\"") (codes ";") refl refl
      refl

abbrev record_of : String → Text → String → Json → DnsRecord
record_of id name type value = record {
  id = id;
  name = name;
  type = type;
  value = value;
  ttl = pos 0;
  enabled = true;
  comment = none;
  proxied = false;
  proxy = none;
}

abbrev records : List DnsRecord
records =
    record (record_of "a" (codes "@") "A" (text "192.0.2.1")) {
      proxied = true;
      proxy = some settings;
    }
    ∷ record_of "b" (codes "www") "CNAME" (text "example.org.")
    ∷ record_of "c" (codes "") "AAAA" (text "2001:db8::1")
    ∷ []

abbrev validated : List DnsRecord
validated =
    record (record_of "a" zone "A" (text "192.0.2.1")) {
      proxied = true;
      proxy = some settings;
      ttl = pos 300;
    }
    ∷ record (record_of "b" (codes "www.example.org") "CNAME" (text "example.org.")) {
      ttl = pos 300;
    }
    ∷ record (record_of "c" zone "AAAA" (text "2001:db8::1")) { ttl = pos 300 }
    ∷ []

abbrev options : RecordSetOptions
options = record {
  zone_name = spelled;
  ingress = some (record { ipv4 = "198.51.100.1"; ipv6 = "" });
  certificates = none;
}

validates : validate_record_set same records options ≡ ok validated
unfolding normalize_dns_name check_name valid_labels is_label label_rest canonical_record_name
    place_in_zone to_lower trim_right trim_space trim_left is_space split split_first rune_lower
    byte_length text_eq has_suffix has_prefix get slice_of ip_version parses_ip is_ipv4 is_ipv6
    validate_proxy_settings check_origin check_basic_auth is_username is_secret_id check_http3
    check_cache check_timeouts timeout_or_default validate_path_rules path_rules_from
    check_path_rule validate_dns_path check_action validate_header_rules header_rules_from
    check_header_rule is_header_name validate_nginx_directives check_directives unix_lines
    brace_from contains_unquoted_brace has_block_context validate_record_set records_from
    validate_record validate_record_value check_proxy validate_ingress_for_record check_groups
    groups_from check_group filter count
validates = refl

validate_record_set_example :
    (z : Text) × (normalize_dns_name same spelled false ≡ ok z)
    × (map (λ r. r.id) validated ≡ map (λ r. r.id) records)
    × All (IsRecord same options z) validated
    × Pairwise (λ r s. s.id ≢ r.id) validated
    × Pairwise Coexist validated
validate_record_set_example = validate_record_set_sound same options records validated validates

alone : Accepted same options zone records validated
unfolding normalize_dns_name check_name valid_labels is_label label_rest canonical_record_name
    place_in_zone to_lower trim_right trim_space trim_left is_space split split_first rune_lower
    byte_length text_eq has_suffix has_prefix get slice_of ip_version parses_ip is_ipv4 is_ipv6
    validate_proxy_settings check_origin check_basic_auth is_username is_secret_id check_http3
    check_cache check_timeouts timeout_or_default validate_path_rules path_rules_from
    check_path_rule validate_dns_path check_action validate_header_rules header_rules_from
    check_header_rule is_header_name validate_nginx_directives check_directives unix_lines
    brace_from contains_unquoted_brace has_block_context validate_record_set records_from
    validate_record validate_record_value check_proxy validate_ingress_for_record check_groups
    groups_from check_group filter count
alone = (refl, (refl, (refl, tt)))

coexist : Pairwise (λ r s. s.id ≢ r.id) validated × Pairwise Coexist validated
coexist =
    let (z, n, ids, valid, distinct, apart) =
      validate_record_set_sound same options records validated validates in
    (distinct, apart)

validate_record_set_complete_example : validate_record_set same records options ≡ ok validated
validate_record_set_complete_example =
    validate_record_set_complete same options zone records validated normalizes alone coexist.0
      coexist.1

abbrev rule : Text → ForwardingRule
rule suffix = record {
  suffix = suffix;
  pool = record { id = "pool"; endpoints = record { host = "9.9.9.9"; port = pos 53 } ∷ [] };
}

abbrev rules : List ForwardingRule
rules = rule (codes "corp.example") ∷ rule (codes "lab.example") ∷ []

forwards : validate_forwarding_rules same rules ≡ ok rules
unfolding normalize_dns_name check_name valid_labels is_label label_rest canonical_record_name
    place_in_zone to_lower trim_right trim_space trim_left is_space split split_first rune_lower
    byte_length text_eq has_suffix has_prefix ip_version parses_ip is_ipv4 is_ipv6
    validate_forwarding_rules forwarding_from validate_forwarding_rule validate_resolver_pool
    endpoints_from validate_resolver_endpoint validate_stream_routes stream_routes_from
    validate_stream_route
forwards = refl

validate_forwarding_rules_example : All IsRule rules × Pairwise (λ r s. s.suffix ≢ r.suffix) rules
validate_forwarding_rules_example = validate_forwarding_rules_sound same rules rules forwards

abbrev route : String → StreamRoute
route protocol = record {
  id = protocol;
  enabled = true;
  protocol = protocol;
  listen_address = "::";
  listen_port = pos 53;
  upstream = record { ip = "192.0.2.53"; port = pos 53; protocol = protocol };
}

abbrev routes : List StreamRoute
routes = route "tcp" ∷ route "udp" ∷ []

listens : validate_stream_routes routes ≡ ok routes
unfolding to_lower trim_right trim_space trim_left is_space split split_first rune_lower byte_length
    text_eq has_suffix has_prefix ip_version parses_ip is_ipv4 is_ipv6 validate_forwarding_rules
    forwarding_from validate_forwarding_rule validate_resolver_pool endpoints_from
    validate_resolver_endpoint validate_stream_routes stream_routes_from validate_stream_route
listens = refl

validate_stream_routes_example : (routes ≡ routes) × All IsRoute routes × Pairwise Apart routes
validate_stream_routes_example = validate_stream_routes_sound routes routes listens
