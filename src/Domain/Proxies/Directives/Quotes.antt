-- ===== src/Domain/Proxies/Directives/Quotes.antt =====
-- About the scan for braces in apps/api/internal/domain/proxy.go.
use proxy_core.Base.{ℕ, ◌≡◌, refl, ◌∙◌, true, not, [], ◌∷◌, ◌++◌, ◌==◌, ◌&&◌, ◌||◌, any, all, arith}
use proxy_core.Base.Texts.{Text}
use proxy_core.Domain.Proxies.Directives.{
  outside, within, is_quote, is_brace, brace_from, contains_unquoted_brace,
}

brace_from-plain :
    (a s : Text)
    → all (λ c. not (is_quote c)) a ≡ true
    → brace_from outside (a ++ s) ≡ (any is_brace a || brace_from outside s)
unfolding brace_from
brace_from-plain [] s h = refl
brace_from-plain (c ∷ a) s h = ground (arith, brace_from-plain a s)

brace_from-within :
    (q : ℕ) (body s : Text)
    → is_quote q ≡ true
    → all (λ c. not (c == q) && not (c == b'\\')) body ≡ true
    → brace_from (within q) (body ++ q ∷ s) ≡ brace_from outside s
unfolding brace_from
brace_from-within q [] s quote h = ground arith
brace_from-within q (c ∷ body) s quote h = ground (arith, brace_from-within q body s quote)

-- In a text that begins with a part without quotes and then a quoted part without its own quote and
-- without a backslash, the braces that count are those of the first part and of what follows.
pub contains_unquoted_brace-quoted :
    (q : ℕ) (a body s : Text)
    → is_quote q ≡ true
    → all (λ c. not (is_quote c)) a ≡ true
    → all (λ c. not (c == q) && not (c == b'\\')) body ≡ true
    → contains_unquoted_brace (a ++ (q ∷ (body ++ (q ∷ s))))
      ≡ (any is_brace a || contains_unquoted_brace s)
unfolding contains_unquoted_brace brace_from
contains_unquoted_brace-quoted q a body s quote plain clean =
    brace_from-plain a (q ∷ (body ++ (q ∷ s))) plain
    ∙ ground (arith, brace_from-within q body s quote clean)
