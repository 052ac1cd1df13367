-- ===== src/Domain/Records/Groups.antt =====
-- apps/api/internal/domain/dns.go: what records of one name can stand together.
pub mod Coexistence
use proxy_core.Base.{
  ℕ, zero, suc, ◌+◌, ◌≤◌, String, Bool, true, false, not, Option, List, [], ◌∷◌, if◌then◌else◌, leb,
  ◌&&◌, ◌||◌, str_eq, length, any, Result, err, ok, guard, ◌>>=◌, ◌>>◌,
}
use proxy_core.Base.Int.{ℤ}
use proxy_core.Base.Texts.{Text, text_eq}
use proxy_core.Domain.Values.{Json, Fields}

pub record DnsRecord : Type 0 where
  pub id : String
  pub name : Text
  pub type : String
  pub value : Json
  pub ttl : ℤ
  pub enabled : Bool
  pub comment : Option String
  pub proxied : Bool
  pub proxy : Option Fields

unfoldable pub filter {ℓ} : {A : Type ℓ} → (A → Bool) → List A → List A
filter p [] = []
filter p (x ∷ xs) = let rest = filter p xs in if p x then x ∷ rest else rest

unfoldable pub count {ℓ} : {A : Type ℓ} → (A → Bool) → List A → ℕ
count p [] = 0
count p (x ∷ xs) = let rest = count p xs in if p x then suc rest else rest

abbrev pub is_in_group : Text → DnsRecord → Bool
is_in_group name r = r.enabled && text_eq r.name name

-- `enabledByName[name]`.
abbrev pub enabled_by_name : Text → List DnsRecord → List DnsRecord
enabled_by_name name records = filter (is_in_group name) records

abbrev pub is_cname : DnsRecord → Bool
is_cname r = str_eq r.type "CNAME"

unfoldable pub check_group : List DnsRecord → Result String (Unit {0})
check_group group =
    guard (not (any is_cname group) || leb (length group) 1) "CNAME_COEXISTENCE"
    >> guard (leb (count (λ r. r.proxied) group) 1) "PROXY_HOST_CONFLICT"

-- The range over the groups, with the names in the order of the records; a name that several records
-- have is looked at again for each of them, which has the same outcome.
unfoldable pub groups_from : List DnsRecord → List DnsRecord → Result String (Unit {0})
groups_from all_records [] = ok tt
groups_from all_records (r ∷ rs) =
    (if r.enabled then check_group (enabled_by_name r.name all_records) else ok tt)
    >> groups_from all_records rs

unfoldable pub check_groups : List DnsRecord → Result String (Unit {0})
check_groups records = groups_from records records
