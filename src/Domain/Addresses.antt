-- ===== src/Domain/Addresses.antt =====
-- apps/api/internal/domain/dns.go: the literal IP addresses, and what `net.ParseIP` accepts.
use proxy_core.Base.{
  ℕ, zero, suc, ◌+◌, ◌*◌, ◌-◌, String, Bool, true, false, not, [], ◌∷◌, if◌then◌else◌, ltb, leb,
  ◌==◌, ◌&&◌, ◌||◌, codes, length, all,
}
use proxy_core.Base.Texts.{Text, is_empty, is_digit, split, contains_char}

-- A field of an IPv4 address: a number up to 255 without a leading zero.
abbrev decimal : ℕ → Text → ℕ
decimal n [] = n
decimal n (c ∷ s) = decimal (n * 10 + (c - b'0')) s

unfoldable is_octet : Text → Bool
is_octet [] = false
is_octet (c ∷ s) =
    all is_digit (c ∷ s)
    && leb (length s) 2
    && (is_empty s || not (c == b'0'))
    && leb (decimal 0 (c ∷ s)) 255

unfoldable pub is_ipv4 : Text → Bool
unfolding is_octet
is_ipv4 s = length (split b'.' s) == 4 && all is_octet (split b'.' s)

abbrev is_hex_digit : ℕ → Bool
is_hex_digit c = is_digit c || (leb b'a' c && leb c b'f') || (leb b'A' c && leb c b'F')

unfoldable hex_group : Text → Text × Text
hex_group [] = ([], [])
hex_group (c ∷ s) =
    let rest = hex_group s in if is_hex_digit c then (c ∷ rest.0, rest.1) else ([], c ∷ s)

-- What is left to read after a group, with the groups read and whether a `::` was read before.
abbrev after_colon : (ℕ → Bool → Text → Bool) → ℕ → Bool → Text → Bool
after_colon next groups elided [] = false
after_colon next groups elided (c ∷ s) =
    if c == b':'
    then (not elided && (if is_empty s then ltb groups 8 else next groups true s))
    else next groups elided (c ∷ s)

abbrev after_group : (ℕ → Bool → Text → Bool) → Text → ℕ → Bool → Text → Bool
after_group next whole groups elided [] = if elided then ltb (groups + 1) 8 else groups + 1 == 8
after_group next whole groups elided (c ∷ s) =
    if c == b'.'
    then (if elided then ltb (groups + 2) 8 else groups == 6) && is_ipv4 whole
    else (c == b':' && after_colon next (groups + 1) elided s)

-- The loop over the groups, 8 at most.
unfoldable read_groups : ℕ → ℕ → Bool → Text → Bool
unfolding hex_group
read_groups zero groups elided s = false
read_groups (suc fuel) groups elided s =
    let next = read_groups fuel in
    let (digits, rest) = hex_group s in
    not (is_empty digits) && leb (length digits) 4 && after_group next s groups elided rest

unfoldable pub is_ipv6 : Text → Bool
unfolding read_groups
is_ipv6 (c ∷ d ∷ s) =
    if c == b':' && d == b':'
    then (if is_empty s then true else read_groups 8 0 true s)
    else read_groups 8 0 false (c ∷ d ∷ s)
is_ipv6 _ = false

-- The first of `.` and `:` decides how the address is read.
unfoldable pub parses_ip : Text → Text → Bool
parses_ip whole [] = false
parses_ip whole (c ∷ s) =
    let rest = parses_ip whole s in
    if c == b'.' then is_ipv4 whole else if c == b':' then is_ipv6 whole else rest

unfoldable pub ip_version : String → ℕ
ip_version value =
    if not (parses_ip (codes value) (codes value))
    then 0
    else if contains_char b':' (codes value)
    then 6
    else 4
