-- ===== src/Domain/Records/Certificates.antt =====
-- apps/api/internal/domain/dns.go and certificate.go: whether a certificate covers a proxied host. A
-- parameter stands for the case tables of Unicode beyond ASCII.
use proxy_core.Base.{
  ℕ, String, Bool, not, Option, none, some, List, [], ◌∷◌, if◌then◌else◌, ◌==◌, ◌&&◌, ◌||◌, str_eq,
  length, any, Result, err, ok, guard, ◌>>◌,
}
use proxy_core.Base.Texts.{Text, text_eq, trim_right, to_lower, split, has_prefix, has_suffix}
use proxy_core.Domain.Names.{is_dot}

-- What the validation reads of a certificate.
pub record CertificateStatus : Type 0 where
  pub id : String
  pub status : String
  pub hostnames : List Text

-- The first certificate that has the id.
unfoldable pub find_certificate : String → List CertificateStatus → Option CertificateStatus
find_certificate id [] = none
find_certificate id (c ∷ cs) =
    let rest = find_certificate id cs in if str_eq c.id id then some c else rest

abbrev pub plain_host : (ℕ → ℕ) → Text → Text
plain_host wide s = trim_right is_dot (to_lower wide s)

-- `candidate[1:]` of a candidate that begins with `*.`.
abbrev pub drop_first : Text → Text
drop_first [] = []
drop_first (c ∷ s) = s

unfoldable pub covers : Text → Text → Bool
covers host candidate =
    text_eq candidate host
    || (has_prefix (b'*' ∷ b'.' ∷ []) candidate
        && has_suffix (drop_first candidate) host
        && length (split b'.' host) == length (split b'.' candidate))

unfoldable pub check_coverage : (ℕ → ℕ) → Text → Option CertificateStatus → Result String (Unit {0})
check_coverage wide hostname none = err "CERTIFICATE_NOT_FOUND"
check_coverage wide hostname (some c) =
    guard (str_eq c.status "active" || str_eq c.status "issued") "CERTIFICATE_NOT_ACTIVE"
    >> guard (any (λ h. covers (plain_host wide hostname) (plain_host wide h)) c.hostnames)
        "CERTIFICATE_HOSTNAME"

unfoldable pub validate_proxy_certificate :
    (ℕ → ℕ) → Text → Bool → String → List CertificateStatus → Result String (Unit {0})
validate_proxy_certificate wide hostname tls id certificates =
    if tls
    then (guard (not (str_eq id "")) "CERTIFICATE_REQUIRED"
        >> check_coverage wide hostname (find_certificate id certificates))
    else ok tt
