-- ===== src/Domain/Forwarding/Laws.antt =====
-- About the forwarding rules and the stream routes that apps/api/internal/domain accepts.
use proxy_core.Base.{
  ℕ, ◌≡◌, ◌≢◌, refl, subst, true, false, List, [], ◌∷◌, ltb, ◌&&◌, codes, any, all, arith, eq_iff,
  inl, inr, All, All-map, Pairwise, Pairwise-map, ok, Result-cases, >>=-eq-ok,
}
use proxy_core.Base.Texts.{Text, text_eq, text_eq_iff, is_empty, trim_space}
use proxy_core.Domain.Values.{is_between}
use proxy_core.Domain.Names.{normalize_dns_name}
use proxy_core.Domain.Names.Laws.{IsName, normalize_dns_name-IsName}
use proxy_core.Domain.Addresses.{ip_version}
use proxy_core.Domain.Forwarding.{
  ResolverEndpoint, ResolverPool, ForwardingRule, validate_resolver_endpoint, endpoints_from,
  validate_resolver_pool, validate_forwarding_rule, forwarding_from, validate_forwarding_rules,
  StreamRoute, listener_key, validate_stream_route, stream_routes_from, validate_stream_routes,
}

-- A route between literal addresses and ports that exist, with one protocol.
pub record IsRoute (r : StreamRoute) : Type 0 where
  pub listens : ltb 0 (ip_version r.listen_address) ≡ true
  pub listen_port : is_between 1 65_535 r.listen_port ≡ true
  pub protocol : r.upstream.protocol ≡ r.protocol
  pub forwards : ltb 0 (ip_version r.upstream.ip) ≡ true
  pub port : is_between 1 65_535 r.upstream.port ≡ true

-- Two routes that do not listen for the same protocol at the same address and port.
abbrev pub Apart : StreamRoute → StreamRoute → Type 0
Apart r s = ¬ (
    (r.protocol ≡ s.protocol)
    × (r.listen_address ≡ s.listen_address)
    × (r.listen_port ≡ s.listen_port))

abbrev Unlisted : List Text → StreamRoute → Type 0
Unlisted listeners r = any (text_eq (listener_key r)) listeners ≡ false

validate_stream_route_sound :
    (listeners : List Text) (r : StreamRoute)
    → validate_stream_route listeners r ≡ ok tt
    → IsRoute r × Unlisted listeners r
unfolding validate_stream_route
validate_stream_route_sound listeners r h = (
  record {
    listens = ground arith;
    listen_port = ground arith;
    protocol = ground (arith, eq_iff r.upstream.protocol r.protocol);
    forwards = ground arith;
    port = ground arith;
  },
  ground arith,
)

abbrev Differ : StreamRoute → StreamRoute → Type 0
Differ r s = text_eq (listener_key s) (listener_key r) ≡ false

stream_routes_from_sound :
    (listeners : List Text) (rs : List StreamRoute)
    → stream_routes_from listeners rs ≡ ok tt
    → All IsRoute rs × All (Unlisted listeners) rs × Pairwise Differ rs
unfolding stream_routes_from
stream_routes_from_sound listeners [] h = (tt, tt, tt)
stream_routes_from_sound listeners (r ∷ rs) h =
    let (u, first, rest) =
      >>=-eq-ok (validate_stream_route listeners r)
        (λ _. stream_routes_from (listener_key r ∷ listeners) rs) h in
    let (route, new) = validate_stream_route_sound listeners r first in
    let (routes, fresh, apart) = stream_routes_from_sound (listener_key r ∷ listeners) rs rest in
    (
      (route, routes),
      (
        new,
        All-map (Unlisted (listener_key r ∷ listeners)) (Unlisted listeners) (λ s k. ground arith)
            rs fresh,
      ),
      (
        All-map (Unlisted (listener_key r ∷ listeners)) (Differ r) (λ s k. ground arith) rs fresh,
        apart,
      ),
    )

Differ-Apart : (r s : StreamRoute) → Differ r s → Apart r s
Differ-Apart r s d (p, a, q) =
    let same : listener_key s ≡ listener_key r = cc in
    absurd (ground (arith, text_eq_iff (listener_key s) (listener_key r)))

-- Stream routes that are accepted are returned as they are; each is a route between literal
-- addresses and valid ports with one protocol, and no two listen for the same protocol at the same
-- port and at an address that is written the same.
pub validate_stream_routes_sound :
    (routes out : List StreamRoute)
    → validate_stream_routes routes ≡ ok out
    → (out ≡ routes) × All IsRoute routes × Pairwise Apart routes
unfolding validate_stream_routes
validate_stream_routes_sound routes out h =
    let (u, checked, same) = >>=-eq-ok (stream_routes_from [] routes) (λ _. ok routes) h in
    let (valid, fresh, apart) = stream_routes_from_sound [] routes checked in
    (cc, valid, Pairwise-map Differ Apart Differ-Apart routes apart)

-- A pool with an id and an endpoint, all of whose endpoints are literal addresses with valid ports.
pub record IsPool (p : ResolverPool) : Type 0 where
  pub named : is_empty (trim_space (codes p.id)) ≡ false
  pub some_endpoint : is_empty p.endpoints ≡ false
  pub addresses :
      all (λ e. ltb 0 (ip_version e.host) && is_between 1 65_535 e.port) p.endpoints ≡ true

endpoints_from_sound :
    (es fs : List ResolverEndpoint)
    → endpoints_from es ≡ ok fs
    → (fs ≡ es) × (all (λ e. ltb 0 (ip_version e.host) && is_between 1 65_535 e.port) es ≡ true)
unfolding endpoints_from validate_resolver_endpoint
endpoints_from_sound [] fs h = (ground arith, refl)
endpoints_from_sound (e ∷ es) fs h = elim (Result-cases (endpoints_from es)) [
  | inr (x, bad) ↦ absurd (ground (arith, bad))
  | inl (gs, good) ↦
      let (same, addresses) = endpoints_from_sound es gs good in
      (ground (arith, good, same), ground (arith, good, addresses))
]

validate_resolver_pool_sound :
    (p q : ResolverPool) → validate_resolver_pool p ≡ ok q → (q ≡ p) × IsPool p
unfolding validate_resolver_pool
validate_resolver_pool_sound p q h = elim (Result-cases (endpoints_from p.endpoints)) [
  | inr (x, bad) ↦ absurd (ground (arith, bad))
  | inl (gs, good) ↦
      let (same, addresses) = endpoints_from_sound p.endpoints gs good in
      (
        ground (arith, good, same),
        record {
          named = ground (arith, good);
          some_endpoint = ground (arith, good);
          addresses = addresses;
        },
      )
]

-- A rule that is accepted: a suffix that is a name without a wildcard, and a pool.
pub record IsRule (r : ForwardingRule) : Type 0 where
  pub suffix : IsName false r.suffix
  pub pool : IsPool r.pool

abbrev Unseen : List Text → ForwardingRule → Type 0
Unseen seen r = any (text_eq r.suffix) seen ≡ false

validate_forwarding_rule_sound :
    (wide : ℕ → ℕ) (seen : List Text) (rule next : ForwardingRule)
    → validate_forwarding_rule wide seen rule ≡ ok next
    → IsRule next × Unseen seen next
unfolding validate_forwarding_rule
validate_forwarding_rule_sound wide seen rule next h =
    let (suffix, name, h1) = >>=-eq-ok (normalize_dns_name wide rule.suffix false) _ h in
    elim (Result-cases (validate_resolver_pool rule.pool)) [
      | inr (x, bad) ↦ absurd (ground (arith, h1, bad))
      | inl (pool, good) ↦
          let (same, p) = validate_resolver_pool_sound rule.pool pool good in
          let e : record { suffix = suffix; pool = rule.pool } ≡ next =
            ground (arith, h1, good, same) in
          let new : any (text_eq suffix) seen ≡ false = ground (arith, h1, good) in
          subst (λ r. IsRule r × Unseen seen r) e
            (
              record {
                suffix = normalize_dns_name-IsName wide rule.suffix false suffix name;
                pool = p;
              },
              new,
            )
    ]

abbrev Differing : ForwardingRule → ForwardingRule → Type 0
Differing r s = text_eq s.suffix r.suffix ≡ false

-- Rules whose suffixes differ from those seen and from each other.
abbrev Fresh : List Text → List ForwardingRule → Type 0
Fresh seen out = All IsRule out × All (Unseen seen) out × Pairwise Differing out

forwarding_from_sound :
    (wide : ℕ → ℕ) (seen : List Text) (rules out : List ForwardingRule)
    → forwarding_from wide seen rules ≡ ok out
    → Fresh seen out
unfolding forwarding_from
forwarding_from_sound wide seen [] out h =
    let e : [] ≡ out = ground (arith, h) in subst (Fresh seen) e (tt, tt, tt)
forwarding_from_sound wide seen (rule ∷ rules) out h =
    elim (Result-cases (validate_forwarding_rule wide seen rule)) [
      | inr (x, bad) ↦ absurd (ground (arith, h, bad))
      | inl (next, good) ↦ elim (Result-cases (forwarding_from wide (next.suffix ∷ seen) rules)) [
        | inr (x, bad) ↦ absurd (ground (arith, h, good, bad))
        | inl (rest, more) ↦
            let (rule_valid, new) = validate_forwarding_rule_sound wide seen rule next good in
            let (valid, fresh, apart) =
              forwarding_from_sound wide (next.suffix ∷ seen) rules rest more in
            let e : next ∷ rest ≡ out = ground (arith, h, good, more) in
            subst (Fresh seen) e (
              (rule_valid, valid),
              (
                new,
                All-map (Unseen (next.suffix ∷ seen)) (Unseen seen) (λ s k. ground arith) rest
                    fresh,
              ),
              (
                All-map (Unseen (next.suffix ∷ seen)) (Differing next) (λ s k. ground arith) rest
                    fresh,
                apart,
              ),
            )
      ]
    ]

-- Forwarding rules that are accepted have suffixes that are normal names without a wildcard, no two
-- the same, and each has a pool with an id and at least one endpoint, whose endpoints are literal
-- addresses with valid ports.
pub validate_forwarding_rules_sound :
    (wide : ℕ → ℕ) (rules out : List ForwardingRule)
    → validate_forwarding_rules wide rules ≡ ok out
    → All IsRule out × Pairwise (λ r s. s.suffix ≢ r.suffix) out
unfolding validate_forwarding_rules
validate_forwarding_rules_sound wide rules out h =
    let (valid, fresh, apart) = forwarding_from_sound wide [] rules out h in
    (
      valid,
      Pairwise-map Differing (λ r s. s.suffix ≢ r.suffix)
          (λ r s d e. absurd (ground (arith, text_eq_iff s.suffix r.suffix))) out apart,
    )
