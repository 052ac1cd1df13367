-- ===== src/Domain/Proxies/Directives.antt =====
-- apps/api/internal/domain/proxy.go: the directives that are copied into the server's configuration.
pub mod Quotes
use proxy_core.Base.{
  ℕ, zero, suc, ◌+◌, ◌≤◌, String, Bool, true, false, not, Option, none, some, List, [], ◌∷◌, ◌++◌,
  if◌then◌else◌, ltb, leb, ◌==◌, ◌&&◌, ◌||◌, codes, any, Result, err, ok, guard, ◌>>=◌, ◌>>◌,
}
use proxy_core.Base.Texts.{
  Text, is_empty, byte_length, is_digit, is_lower, is_upper, trim_space, contains_char,
}
use proxy_core.Domain.Values.{Json, null, boolean, whole, fraction, text, array, object}

-- Every `\r\n`, and then every `\r`, becomes `\n`.
unfoldable pub unix_lines : Text → Text
unix_lines [] = []
unix_lines (c ∷ []) = if c == 13 then 10 ∷ [] else c ∷ []
unix_lines (c ∷ d ∷ s) =
    let rest = unix_lines (d ∷ s) in
    if c == 13 && d == 10 then rest else if c == 13 then 10 ∷ rest else c ∷ rest

-- The state of the scan: outside of quotes, or within the quote that a character opened, after a
-- backslash or not.
pub data Place : Type 0 where
  outside : Place
  within : ℕ → Place
  escaped : ℕ → Place

abbrev pub is_quote : ℕ → Bool
is_quote c = c == b'"' || c == b'\''

abbrev pub is_brace : ℕ → Bool
is_brace c = c == b'{' || c == b'}'

abbrev pub advance : Place → ℕ → Place
advance outside c = if is_quote c then within c else outside
advance (within q) c = if c == b'\\' then escaped q else if c == q then outside else within q
advance (escaped q) c = within q

abbrev pub is_outside : Place → Bool
is_outside outside = true
is_outside (within q) = false
is_outside (escaped q) = false

unfoldable pub brace_from : Place → Text → Bool
brace_from p [] = false
brace_from p (c ∷ s) = let rest = brace_from (advance p c) s in (is_outside p && is_brace c) || rest

unfoldable pub contains_unquoted_brace : Text → Bool
contains_unquoted_brace s = brace_from outside s

-- `nginxBlockContextPattern`, which ignores case: U+017F is a capital of `s` too.
abbrev fold_case : ℕ → ℕ
fold_case c = if is_upper c then c + 32 else if c == 0x17f then b's' else c

abbrev is_word_char : ℕ → Bool
is_word_char c = is_digit c || is_lower c || is_upper c || c == b'_'

abbrev starts_in_word : Text → Bool
starts_in_word [] = false
starts_in_word (c ∷ s) = is_word_char c

-- A word and then `\b`, which needs exactly one of the characters beside it in a word; `last` is the
-- character before.
unfoldable match_word : ℕ → Text → Text → Bool
match_word last [] s = if is_word_char last then not (starts_in_word s) else starts_in_word s
match_word last (w ∷ ws) [] = false
match_word last (w ∷ ws) (c ∷ s) = fold_case c == w && match_word c ws s

abbrev is_blank : ℕ → Bool
is_blank c = c == 9 || c == 10 || c == 12 || c == 13 || c == 32

unfoldable match_context : Text → Bool
unfolding match_word
match_context s =
    any (λ w. match_word 0 (codes w) s) ("events" ∷ "http" ∷ "server" ∷ "stream" ∷ "location" ∷ [])

-- Whether a line that starts here begins with a word of the pattern after blanks.
unfoldable context_at : Text → Bool
unfolding match_context
context_at [] = false
context_at (c ∷ s) = let rest = context_at s in if is_blank c then rest else match_context (c ∷ s)

unfoldable context_after : Text → Bool
unfolding context_at
context_after [] = false
context_after (c ∷ s) = let rest = context_after s in (c == 10 && context_at s) || rest

unfoldable pub has_block_context : Text → Bool
unfolding context_at context_after
has_block_context s = context_at s || context_after s

abbrev pub normalize_directives : Text → Text
normalize_directives s = trim_space (unix_lines s)

unfoldable pub check_directives : Text → Result String (Unit {0})
check_directives normalized =
    if is_empty normalized
    then ok tt
    else (guard (leb (byte_length normalized) 32_000) "NGINX_DIRECTIVES_LENGTH"
        >> guard (not (contains_char 0 normalized)) "NGINX_DIRECTIVES_CHARACTERS"
        >> guard (not (contains_unquoted_brace normalized)) "NGINX_DIRECTIVES_BLOCK"
        >> guard (not (has_block_context normalized)) "NGINX_DIRECTIVES_CONTEXT")

unfoldable pub validate_nginx_directives : Json → Result String (Unit {0})
validate_nginx_directives null = ok tt
validate_nginx_directives (text s) = check_directives (normalize_directives (codes s))
validate_nginx_directives (boolean b) = err "NGINX_DIRECTIVES_TYPE"
validate_nginx_directives (whole n) = err "NGINX_DIRECTIVES_TYPE"
validate_nginx_directives (fraction s) = err "NGINX_DIRECTIVES_TYPE"
validate_nginx_directives (array vs) = err "NGINX_DIRECTIVES_TYPE"
validate_nginx_directives (object m) = err "NGINX_DIRECTIVES_TYPE"
