-- ===== src/Domain/Proxies.antt =====
-- apps/api/internal/domain/proxy.go: the settings of a proxied record. The parameter of the validators
-- stands for the case tables of Unicode beyond ASCII.
pub mod Rules
pub mod Directives
pub mod Laws
use proxy_core.Base.{
  ℕ, ◌+◌, ◌≤◌, String, Bool, true, false, not, Option, none, some, List, [], ◌∷◌, ◌++◌,
  if◌then◌else◌, ltb, leb, ◌==◌, ◌&&◌, ◌||◌, str_eq, codes, length, all, any, Result, err, ok,
  guard, ◌>>=◌, ◌>>◌,
}
use proxy_core.Base.Int.{ℤ, pos, negsuc}
use proxy_core.Base.Texts.{Text, is_digit, is_lower, is_upper}
use proxy_core.Domain.Values.{
  Json, Fields, object, get, as_bool, as_text, as_object, to_int, or_else, proxy_bool, proxy_string,
  slice_of, is_between,
}
use proxy_core.Domain.Addresses.{ip_version}
use proxy_core.Domain.Proxies.Rules.{validate_path_rules, validate_header_rules}
use proxy_core.Domain.Proxies.Directives.{validate_nginx_directives}

abbrev is_letter : ℕ → Bool
is_letter c = is_lower c || is_upper c

-- `basicAuthUsernamePattern` and `basicAuthSecretPattern`.
unfoldable pub is_username : Text → Bool
is_username s =
    leb 1 (length s)
    && leb (length s) 64
    && all
        (λ c.
          is_letter c
          || is_digit c
          || c == b'.'
          || c == b'_'
          || c == b'@'
          || c == b'+'
          || c == b'='
          || c == b'-')
        s

unfoldable pub is_secret_id : Text → Bool
is_secret_id s =
    leb 8 (length s)
    && leb (length s) 128
    && all (λ c. is_letter c || is_digit c || c == b'_' || c == b'-') s

-- What the binary and the host can do, by name; a missing one cannot be done.
abbrev pub Capabilities : Type 0
Capabilities = String → Bool

abbrev can_http3 : Option Capabilities → Bool
can_http3 none = false
can_http3 (some has) = has "http3Module" && has "tcp443Published" && has "udp443Published"

abbrev is_port : Option ℤ → Bool
is_port none = false
is_port (some n) = is_between 1 65_535 n

unfoldable pub check_origin : Option Fields → Result String (Unit {0})
check_origin none = err "ORIGIN_IP"
check_origin (some origin) =
    guard (ltb 0 (ip_version (proxy_string origin "ip"))) "ORIGIN_IP"
    >> guard (is_port (to_int (get "port" origin))) "ORIGIN_PORT"
    >> guard
        (str_eq (proxy_string origin "protocol") "http"
          || str_eq (proxy_string origin "protocol") "https")
        "ORIGIN_PROTOCOL"

abbrev pub is_present {ℓ} : {A : Type ℓ} → Option A → Bool
is_present none = false
is_present (some a) = true

unfoldable pub check_basic_auth : Bool → Option Fields → Result String (Unit {0})
check_basic_auth tls none = ok tt
check_basic_auth tls (some auth) =
    guard tls "BASIC_AUTH_TLS"
    >> guard (is_username (codes (proxy_string auth "username"))) "BASIC_AUTH_USERNAME"
    >> guard (is_secret_id (codes (proxy_string auth "passwordSecretId"))) "BASIC_AUTH_SECRET"

unfoldable pub check_http3 : Bool → Bool → Option Capabilities → Result String (Unit {0})
check_http3 wanted tls capabilities =
    if wanted
    then (guard (can_http3 capabilities) "HTTP3_UNAVAILABLE" >> guard tls "HTTP3_TLS")
    else ok tt

-- Whether the settings enable the cache.
abbrev pub caches : Fields → Bool
caches proxy = elim (as_object (get "cache" proxy)) [
  | none ↦ false
  | some cache ↦ proxy_bool cache "enabled"
]

unfoldable pub check_cache : Fields → Result String (Unit {0})
check_cache proxy =
    if caches proxy
    then (guard (not (is_present (as_object (get "basicAuth" proxy)))) "CACHE_AUTH"
        >> guard (not (proxy_bool proxy "websocket")) "CACHE_WEBSOCKET")
    else ok tt

unfoldable pub timeout_or_default : Option Fields → String → ℕ → ℤ
timeout_or_default none key fallback = pos fallback
timeout_or_default (some timeouts) key fallback = or_else (pos fallback) (to_int (get key timeouts))

unfoldable pub check_timeouts : Option Fields → Result String (Unit {0})
check_timeouts timeouts =
    guard (is_between 1 300 (timeout_or_default timeouts "connectSeconds" 5)) "DOMAIN_VALIDATION"
    >> guard (is_between 1 3_600 (timeout_or_default timeouts "sendReadSeconds" 60))
        "DOMAIN_VALIDATION"
    >> guard (is_between 1 300 (timeout_or_default timeouts "clientHeaderSeconds" 15))
        "DOMAIN_VALIDATION"
    >> guard (is_between 1 1_024 (timeout_or_default timeouts "bodyLimitMb" 10)) "DOMAIN_VALIDATION"

unfoldable pub validate_proxy_settings :
    (ℕ → ℕ) → Fields → Option Capabilities → Result String Fields
validate_proxy_settings wide proxy capabilities =
    check_origin (as_object (get "origin" proxy))
    >> guard (is_present (as_bool (get "tlsEnabled" proxy))) "TLS_REQUIRED"
    >> check_basic_auth (proxy_bool proxy "tlsEnabled") (as_object (get "basicAuth" proxy))
    >> check_http3 (proxy_bool proxy "http3") (proxy_bool proxy "tlsEnabled") capabilities
    >> validate_path_rules (slice_of (get "pathRules" proxy))
    >> validate_header_rules wide (slice_of (get "headers" proxy))
    >> validate_nginx_directives (get "nginxDirectives" proxy)
    >> check_cache proxy
    >> check_timeouts (as_object (get "timeouts" proxy))
    >> ok proxy
