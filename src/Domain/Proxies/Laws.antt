-- ===== src/Domain/Proxies/Laws.antt =====
-- About the proxy settings that apps/api/internal/domain/proxy.go accepts.
use proxy_core.Base.{ℕ, ◌≡◌, String, true, false, Option, codes, ok}
use proxy_core.Base.Texts.{is_empty}
use proxy_core.Domain.Values.{Fields, get, text, as_object, proxy_bool, slice_of}
use proxy_core.Domain.Proxies.{
  Capabilities, can_http3, is_present, check_basic_auth, check_http3, caches, check_cache,
}
use proxy_core.Domain.Proxies.Rules.{validate_path_rules}
use proxy_core.Domain.Proxies.Rules.Laws.{HasPatterns}
use proxy_core.Domain.Proxies.Directives.{
  contains_unquoted_brace, has_block_context, normalize_directives, validate_nginx_directives,
}

-- What settings never ask for.
pub record IsSafe (capabilities : Option Capabilities) (proxy : Fields) : Type 0 where
  pub auth_tls :
      is_present (as_object (get "basicAuth" proxy)) ≡ true → proxy_bool proxy "tlsEnabled" ≡ true
  pub http3 :
      proxy_bool proxy "http3" ≡ true
      → (can_http3 capabilities ≡ true) × (proxy_bool proxy "tlsEnabled" ≡ true)
  pub cache :
      caches proxy ≡ true
      → (is_present (as_object (get "basicAuth" proxy)) ≡ false)
        × (proxy_bool proxy "websocket" ≡ false)
  pub patterns : HasPatterns (slice_of (get "pathRules" proxy))
  pub directives :
      (s : String)
      → get "nginxDirectives" proxy ≡ text s
      → is_empty (normalize_directives (codes s)) ≡ false
      → (contains_unquoted_brace (normalize_directives (codes s)) ≡ false)
        × (has_block_context (normalize_directives (codes s)) ≡ false)

-- The steps of the validation have all passed.
record Passes (wide : ℕ → ℕ) (capabilities : Option Capabilities) (proxy : Fields) : Type 0 where
  auth :
      check_basic_auth (proxy_bool proxy "tlsEnabled") (as_object (get "basicAuth" proxy)) ≡ ok tt
  quic : check_http3 (proxy_bool proxy "http3") (proxy_bool proxy "tlsEnabled") capabilities ≡ ok tt
  paths : validate_path_rules (slice_of (get "pathRules" proxy)) ≡ ok tt
  text_directives : validate_nginx_directives (get "nginxDirectives" proxy) ≡ ok tt
  caching : check_cache proxy ≡ ok tt
