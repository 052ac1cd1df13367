-- ===== src/Domain/Proxies/Rules.antt =====
-- apps/api/internal/domain/proxy.go: the rules of a proxied record on paths and on headers. A set of
-- texts is the list of its elements.
pub mod Laws
use proxy_core.Base.{
  ℕ, ◌+◌, ◌≤◌, String, Bool, true, false, not, Option, none, some, List, [], ◌∷◌, ◌++◌,
  if◌then◌else◌, ltb, leb, ◌==◌, ◌&&◌, ◌||◌, str_eq, codes, length, all, any, Result, err, ok,
  guard, ◌>>=◌, ◌>>◌,
}
use proxy_core.Base.Int.{ℤ, pos, negsuc}
use proxy_core.Base.Texts.{
  Text, text_eq, is_empty, byte_length, is_digit, is_lower, is_upper, trim_space, trim_right,
  to_lower, has_prefix,
}
use proxy_core.Domain.Values.{Json, Fields, get, as_object, to_int, or_else, proxy_string}

-- `crlfPattern`.
abbrev pub is_newline : ℕ → Bool
is_newline c = c == 13 || c == 10

abbrev is_unsupported : ℕ → Bool
is_unsupported c = is_newline c || c == b'?' || c == b'#' || c == b'[' || c == b']'

abbrev trim_path : Text → Text
trim_path s = if ltb 1 (byte_length s) then trim_right (λ c. c == b'/') s else s

unfoldable pub validate_dns_path : Text → Result String Text
validate_dns_path path =
    let normalized = trim_space path in
    guard (has_prefix (b'/' ∷ []) normalized) "PATH_START"
    >> guard (not (any is_unsupported normalized)) "PATH_CHARACTERS"
    >> guard (leb (byte_length normalized) 2_048) "PATH_LENGTH"
    >> ok (trim_path normalized)

abbrev is_redirect_status : ℤ → Bool
is_redirect_status (negsuc n) = false
is_redirect_status (pos n) = n == 301 || n == 302 || n == 307 || n == 308

unfoldable check_rewrite : String → Result String (Unit {0})
check_rewrite rewrite =
    if str_eq rewrite "" then ok tt else (validate_dns_path (codes rewrite) >>= λ _. ok tt)

unfoldable check_redirect : Fields → Result String (Unit {0})
check_redirect action =
    guard (is_redirect_status (or_else (pos 0) (to_int (get "status" action)))) "REDIRECT_STATUS"
    >> guard (not (any is_newline (codes (proxy_string action "location")))) "REDIRECT_LOCATION"

unfoldable pub check_action : Option Fields → Result String (Unit {0})
unfolding check_rewrite check_redirect
check_action none = ok tt
check_action (some action) =
    if str_eq (proxy_string action "type") "redirect"
    then check_redirect action
    else check_rewrite (proxy_string action "rewrite")

-- The kinds and the patterns of the rules before: the keys of `seen`, which pair them, and `patterns`.
abbrev pub Seen : Type 0
Seen = List (String × Text)

unfoldable pub check_path_rule : Seen → Fields → Result String (String × Text)
check_path_rule seen rule = validate_dns_path (codes (proxy_string rule "pattern")) >>= λ pattern.
    guard
      (not (
        any
          (λ p.
            text_eq (codes p.0 ++ b':' ∷ p.1) (codes (proxy_string rule "kind") ++ b':' ∷ pattern))
          seen))
      "PATH_DUPLICATE"
    >> guard (not (any (λ p. text_eq p.1 pattern) seen)) "PATH_AMBIGUOUS"
    >> check_action (as_object (get "action" rule))
    >> ok (proxy_string rule "kind", pattern)

abbrev pub path_rule : Seen → Option Fields → Result String (String × Text)
path_rule seen none = err "PATH_RULE"
path_rule seen (some rule) = check_path_rule seen rule

unfoldable pub path_rules_from : Seen → List Json → Result String Seen
path_rules_from seen [] = ok seen
path_rules_from seen (raw ∷ more) =
    path_rule seen (as_object raw) >>= λ p. path_rules_from (p ∷ seen) more

unfoldable pub validate_path_rules : List Json → Result String (Unit {0})
validate_path_rules rules = path_rules_from [] rules >>= λ _. ok tt

-- `headerNamePattern`.
abbrev is_header_char : ℕ → Bool
is_header_char c =
    is_digit c || is_lower c || is_upper c || any (λ d. d == c) (codes "!#$%&'*+-.^_`|~")

unfoldable pub is_header_name : Text → Bool
is_header_name s = not (is_empty s) && all is_header_char s

unfoldable pub check_header_rule : (ℕ → ℕ) → List Text → Fields → Result String Text
check_header_rule wide seen header =
    let name = codes (proxy_string header "name") in
    guard (is_header_name name) "HEADER_NAME"
    >> guard (not (any is_newline (codes (proxy_string header "value")))) "HEADER_VALUE"
    >> guard (not (any (λ n. text_eq n (to_lower wide name)) seen)) "HEADER_DUPLICATE"
    >> ok (to_lower wide name)

abbrev pub header_rule : (ℕ → ℕ) → List Text → Option Fields → Result String Text
header_rule wide seen none = err "HEADER_RULE"
header_rule wide seen (some header) = check_header_rule wide seen header

unfoldable pub header_rules_from : (ℕ → ℕ) → List Text → List Json → Result String (List Text)
header_rules_from wide seen [] = ok seen
header_rules_from wide seen (raw ∷ more) =
    header_rule wide seen (as_object raw) >>= λ n. header_rules_from wide (n ∷ seen) more

unfoldable pub validate_header_rules : (ℕ → ℕ) → List Json → Result String (Unit {0})
validate_header_rules wide headers = header_rules_from wide [] headers >>= λ _. ok tt
