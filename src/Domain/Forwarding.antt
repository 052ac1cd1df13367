-- ===== src/Domain/Forwarding.antt =====
-- apps/api/internal/domain/dns.go, proxy.go and model.go: resolver pools, forwarding rules and stream
-- routes. A parameter stands for the case tables of Unicode beyond ASCII.
pub mod Laws
use proxy_core.Base.{
  ℕ, zero, suc, ◌+◌, ◌/◌, ◌%◌, String, Bool, true, false, not, Option, none, some, List, [], ◌∷◌,
  ◌++◌, if◌then◌else◌, ltb, leb, ◌==◌, ◌&&◌, ◌||◌, str_eq, codes, any, Result, err, ok, guard,
  ◌>>=◌, ◌>>◌,
}
use proxy_core.Base.Int.{ℤ, pos, negsuc}
use proxy_core.Base.Texts.{Text, text_eq, is_empty, trim_space}
use proxy_core.Domain.Values.{is_between}
use proxy_core.Domain.Names.{normalize_dns_name}
use proxy_core.Domain.Addresses.{ip_version}

pub record ResolverEndpoint : Type 0 where
  pub host : String
  pub port : ℤ

pub record ResolverPool : Type 0 where
  pub id : String
  pub endpoints : List ResolverEndpoint

pub record ForwardingRule : Type 0 where
  pub suffix : Text
  pub pool : ResolverPool

unfoldable pub validate_resolver_endpoint : ResolverEndpoint → Result String ResolverEndpoint
validate_resolver_endpoint e =
    guard (ltb 0 (ip_version e.host)) "RESOLVER_IP"
    >> guard (is_between 1 65_535 e.port) "RESOLVER_PORT"
    >> ok e

unfoldable pub endpoints_from : List ResolverEndpoint → Result String (List ResolverEndpoint)
endpoints_from [] = ok []
endpoints_from (e ∷ es) =
    validate_resolver_endpoint e >>= λ f. endpoints_from es >>= λ fs. ok (f ∷ fs)

unfoldable pub validate_resolver_pool : ResolverPool → Result String ResolverPool
validate_resolver_pool p =
    guard (not (is_empty (trim_space (codes p.id)))) "POOL_ID"
    >> guard (not (is_empty p.endpoints)) "POOL_EMPTY"
    >> (endpoints_from p.endpoints >>= λ es. ok (record { id = p.id; endpoints = es }))

unfoldable pub validate_forwarding_rule :
    (ℕ → ℕ) → List Text → ForwardingRule → Result String ForwardingRule
validate_forwarding_rule wide seen rule = normalize_dns_name wide rule.suffix false >>= λ suffix.
    (guard (not (any (text_eq suffix) seen)) "FORWARD_SUFFIX_DUPLICATE"
      >> (validate_resolver_pool rule.pool >>= λ pool.
          ok (record { suffix = suffix; pool = pool })))

unfoldable pub forwarding_from :
    (ℕ → ℕ) → List Text → List ForwardingRule → Result String (List ForwardingRule)
forwarding_from wide seen [] = ok []
forwarding_from wide seen (rule ∷ more) = validate_forwarding_rule wide seen rule >>= λ next.
    forwarding_from wide (next.suffix ∷ seen) more >>= λ rest. ok (next ∷ rest)

unfoldable pub validate_forwarding_rules :
    (ℕ → ℕ) → List ForwardingRule → Result String (List ForwardingRule)
validate_forwarding_rules wide rules = forwarding_from wide [] rules

pub record UpstreamTarget : Type 0 where
  pub ip : String
  pub port : ℤ
  pub protocol : String

pub record StreamRoute : Type 0 where
  pub id : String
  pub enabled : Bool
  pub protocol : String
  pub listen_address : String
  pub listen_port : ℤ
  pub upstream : UpstreamTarget

-- `strconv.Itoa` of a number that is not negative and has at most as many digits as the fuel.
abbrev digits : ℕ → ℕ → Text → Text
digits zero n rest = rest
digits (suc fuel) n rest =
    let more = digits fuel (n / 10) ((b'0' + n % 10) ∷ rest) in
    if ltb n 10 then (b'0' + n) ∷ rest else more

abbrev pub itoa : ℤ → Text
itoa (negsuc n) = b'-' ∷ digits 20 (n + 1) []
itoa (pos n) = digits 20 n []

abbrev pub listener_key : StreamRoute → Text
listener_key r = codes r.protocol ++ b':' ∷ codes r.listen_address ++ b':' ∷ itoa r.listen_port

unfoldable pub validate_stream_route : List Text → StreamRoute → Result String (Unit {0})
validate_stream_route listeners r =
    guard (ltb 0 (ip_version r.listen_address)) "STREAM_LISTEN_IP"
    >> guard (is_between 1 65_535 r.listen_port) "STREAM_LISTEN_PORT"
    >> guard (str_eq r.upstream.protocol r.protocol) "STREAM_PROTOCOL"
    >> guard (ltb 0 (ip_version r.upstream.ip)) "STREAM_UPSTREAM_IP"
    >> guard (is_between 1 65_535 r.upstream.port) "STREAM_UPSTREAM_PORT"
    >> guard (not (any (text_eq (listener_key r)) listeners)) "STREAM_CONFLICT"

unfoldable pub stream_routes_from : List Text → List StreamRoute → Result String (Unit {0})
stream_routes_from listeners [] = ok tt
stream_routes_from listeners (r ∷ rs) =
    validate_stream_route listeners r >> stream_routes_from (listener_key r ∷ listeners) rs

unfoldable pub validate_stream_routes : List StreamRoute → Result String (List StreamRoute)
validate_stream_routes routes = stream_routes_from [] routes >> ok routes
