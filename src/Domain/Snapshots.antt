-- ===== src/Domain/Snapshots.antt =====
-- apps/api/internal/domain/snapshot.go: the text of a snapshot that does not depend on the order of
-- the fields, and its checksum. The snapshot is the tree that encoding/json makes of it; the parameter
-- is json.Marshal on a string. A number that `int` does not hold stands for its text, and
-- negative zero is left out.
pub mod Stability
use proxy_core.Base.{
  ℕ, zero, suc, ◌+◌, ◌/◌, ◌%◌, String, Bool, true, false, Option, List, [], ◌∷◌, ◌++◌,
  if◌then◌else◌, ltb, codes,
}
use proxy_core.Base.Int.{ℤ, pos, negsuc}
use proxy_core.Base.Texts.{Text}
use proxy_core.Base.Order.{text_lt}
use proxy_core.Domain.Forwarding.{itoa}
use proxy_core.Domain.Values.{
  Json, Elements, Fields, null, boolean, whole, fraction, text, array, object, no_elements, element,
  no_fields, field,
}

-- A field that is written: its key and the text of its value.
abbrev pub Written : Type 0
Written = Text × Text

-- The place of a field in the order of the keys.
unfoldable pub insert_field : Written → List Written → List Written
insert_field w [] = w ∷ []
insert_field w (v ∷ vs) =
    let rest = insert_field w vs in if text_lt v.0 w.0 then v ∷ rest else w ∷ v ∷ vs

-- `builder.WriteByte(',')` between the items.
unfoldable pub commas : List Text → Text
commas [] = []
commas (t ∷ []) = t
commas (t ∷ u ∷ ts) = t ++ b',' ∷ commas (u ∷ ts)

unfoldable pub pairs : (Text → Text) → List Written → List Text
pairs quote [] = []
pairs quote (w ∷ ws) = (quote w.0 ++ b':' ∷ w.1) ∷ pairs quote ws

unfoldable mutual
  pub write_stable : (Text → Text) → Json → Text
  write_stable quote null = codes "null"
  write_stable quote (boolean b) = if b then codes "true" else codes "false"
  write_stable quote (whole n) = itoa n
  write_stable quote (fraction s) = codes s
  write_stable quote (text s) = quote (codes s)
  write_stable quote (array vs) = b'[' ∷ (commas (write_elements quote vs) ++ b']' ∷ [])
  write_stable quote (object m) = b'{' ∷ (commas (pairs quote (sorted_fields quote m)) ++ b'}' ∷ [])

  pub write_elements : (Text → Text) → Elements → List Text
  write_elements quote no_elements = []
  write_elements quote (element v vs) = write_stable quote v ∷ write_elements quote vs

  -- The fields in the order of `sort.Strings` of their keys.
  pub sorted_fields : (Text → Text) → Fields → List Written
  sorted_fields quote no_fields = []
  sorted_fields quote (field k v m) =
      insert_field (codes k, write_stable quote v) (sorted_fields quote m)

-- `ChecksumSnapshot`, with sha256 and its text as a parameter.
unfoldable pub checksum_snapshot : (Text → Text) → (Text → Text) → Json → Text
checksum_snapshot sum quote v = sum (write_stable quote v)
