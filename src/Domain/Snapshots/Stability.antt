-- ===== src/Domain/Snapshots/Stability.antt =====
-- About the text and the checksum of a snapshot in apps/api/internal/domain/snapshot.go.
use proxy_core.Base.{
  ◌≡◌, refl, sym, ◌∙◌, ap, String, true, false, List, [], ◌∷◌, ◌++◌, codes, arith, inl, inr,
  Bool-cases,
}
use proxy_core.Base.Texts.{Text, text_eq}
use proxy_core.Base.Order.{text_lt, text_lt-asym, text_lt-total, text_lt_trans, text_eq-sym}
use proxy_core.Domain.Values.{
  Json, Elements, Fields, array, object, no_elements, element, no_fields, field,
}
use proxy_core.Domain.Snapshots.{
  Written, insert_field, commas, pairs, write_stable, write_elements, sorted_fields,
  checksum_snapshot,
}

-- Two trees that differ in the order of fields with different keys, at any depth.
mutual
  pub data SameTree : Json → Json → Type 0 where
    same_value : (v : Json) → SameTree v v
    same_array : (vs ws : Elements) → SameElements vs ws → SameTree (array vs) (array ws)
    same_object : (m n : Fields) → SameFields m n → SameTree (object m) (object n)

  pub data SameElements : Elements → Elements → Type 0 where
    same_end : SameElements no_elements no_elements
    same_element :
        (v w : Json) (vs ws : Elements)
        → SameTree v w
        → SameElements vs ws
        → SameElements (element v vs) (element w ws)

  pub data SameFields : Fields → Fields → Type 0 where
    same_no_fields : SameFields no_fields no_fields
    same_field :
        (k : String) (v w : Json) (m n : Fields)
        → SameTree v w
        → SameFields m n
        → SameFields (field k v m) (field k w n)
    swapped :
        (k j : String) (v w : Json) (m : Fields)
        → text_eq (codes k) (codes j) ≡ false
        → SameFields (field k v (field j w m)) (field j w (field k v m))
    chained : (m n o : Fields) → SameFields m n → SameFields n o → SameFields m o

insert_field-less :
    (v w : Written) (ws : List Written)
    → text_eq v.0 w.0 ≡ false
    → text_lt v.0 w.0 ≡ true
    → insert_field v (insert_field w ws) ≡ insert_field w (insert_field v ws)
unfolding insert_field
insert_field-less v w [] ne lt = ground (arith, text_lt-asym v.0 w.0)
insert_field-less v w (u ∷ ws) ne lt =
    ground (arith, text_lt-asym v.0 w.0, text_lt_trans u.0 v.0 w.0, insert_field-less v w ws)

insert_field-swap :
    (v w : Written) (ws : List Written)
    → text_eq v.0 w.0 ≡ false
    → insert_field v (insert_field w ws) ≡ insert_field w (insert_field v ws)
insert_field-swap v w ws ne = elim (Bool-cases (text_lt v.0 w.0)) [
  | inl lt ↦ insert_field-less v w ws ne lt
  | inr after ↦
      sym (insert_field-less w v ws (text_eq-sym v.0 w.0 ∙ ne) (text_lt-total v.0 w.0 ne after))
]

mutual
  unfolding write_stable

  write_stable-SameTree :
      (quote : Text → Text) (v w : Json)
      → SameTree v w
      → write_stable quote v ≡ write_stable quote w
  write_stable-SameTree quote v w (same_value u) = refl
  write_stable-SameTree quote v w (same_array vs ws s) =
      ap (λ ts. b'[' ∷ (commas ts ++ b']' ∷ [])) (write_elements-SameElements quote vs ws s)
  write_stable-SameTree quote v w (same_object m n s) =
      ap (λ fs. b'{' ∷ (commas (pairs quote fs) ++ b'}' ∷ []))
        (sorted_fields-SameFields quote m n s)

  write_elements-SameElements :
      (quote : Text → Text) (vs ws : Elements)
      → SameElements vs ws
      → write_elements quote vs ≡ write_elements quote ws
  write_elements-SameElements quote vs ws same_end = refl
  write_elements-SameElements quote vs ws (same_element v w xs ys s t) =
      cc (write_stable-SameTree quote v w s, write_elements-SameElements quote xs ys t)

  sorted_fields-SameFields :
      (quote : Text → Text) (m n : Fields)
      → SameFields m n
      → sorted_fields quote m ≡ sorted_fields quote n
  sorted_fields-SameFields quote m n same_no_fields = refl
  sorted_fields-SameFields quote m n (same_field k v w x y s t) =
      cc (write_stable-SameTree quote v w s, sorted_fields-SameFields quote x y t)
  sorted_fields-SameFields quote m n (swapped k j v w x ne) =
      insert_field-swap (codes k, write_stable quote v) (codes j, write_stable quote w)
        (sorted_fields quote x) ne
  sorted_fields-SameFields quote m n (chained x y z s t) =
      sorted_fields-SameFields quote x y s ∙ sorted_fields-SameFields quote y z t

-- Snapshots that differ only in the order of fields with different keys, at any depth, have one
-- text and one checksum.
pub checksum_snapshot-SameTree :
    (sum quote : Text → Text) (v w : Json)
    → SameTree v w
    → (write_stable quote v ≡ write_stable quote w)
      × (checksum_snapshot sum quote v ≡ checksum_snapshot sum quote w)
unfolding checksum_snapshot
checksum_snapshot-SameTree sum quote v w s =
    let same = write_stable-SameTree quote v w s in (same, ap sum same)
