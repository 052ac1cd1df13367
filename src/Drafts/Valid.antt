-- ===== src/Drafts/Valid.antt =====
-- About the operations of apps/api/internal/enrollment/draft_cache.go: what a cache satisfies between
-- them.
use proxy_core.Base.{
  ℕ, ◌≤◌, ◌<◌, ◌≡◌, refl, ◌∙◌, subst, String, true, false, Option, none, some, List, str_eq, length,
  arith, eq_iff, Bool-cases, Option-cases, inl, inr,
}
use proxy_core.Base.Maps.{lookup, insert, length-erase-lt, length-erase-le}
use proxy_core.Drafts.{
  Codec, Draft, Entry, DraftCache, valid_selector, is_expired, remove_locked, evict_expired,
  next_sequence, place, store_draft, get_found, get_locked, get_by_selector, get_by_id,
  attach_found, attach_primary_ca, delete_by_id, secrets_after, attempt_secrets,
}
use proxy_core.Drafts.Index.{
  Indexed, remove_locked-Indexed, evict_expired-Indexed, capacity-evict_expired,
}
use proxy_core.Drafts.Bound.{fit-Fits}
use proxy_core.Drafts.Place.{replace-Indexed, place-Indexed}

-- Both maps tell the same, and the capacity holds.
pub record IsValid {w : Codec} (c : DraftCache w) : Type 0 where
  pub indexed : Indexed c
  pub positive : 0 < c.capacity
  pub bounded : length c.entries ≤ c.capacity

length-replace :
    {w : Codec} (s : String) (e f : Entry w) (l : List (String × Entry w))
    → lookup s l ≡ some e
    → length (insert s f l) ≤ length l
unfolding insert
length-replace s e f l h = omega (arith, length-erase-lt s l h)

pub valid_selector-named : (s : String) → valid_selector s ≡ true → str_eq s "" ≡ false
unfolding valid_selector
valid_selector-named s h = elim (Bool-cases (str_eq s "")) [
  | inr other ↦ other
  | inl empty ↦ absurd (cc (subst (λ t. valid_selector t ≡ true) ((eq_iff s "").0 empty) h))
]

-- An entry leaves a cache.
pub remove_locked-IsValid :
    {w : Codec} (s : String) (e : Entry w) (c : DraftCache w)
    → lookup s c.entries ≡ some e
    → IsValid c
    → IsValid (remove_locked s e.draft.draft_id c)
unfolding remove_locked
remove_locked-IsValid s e c h v = record {
  indexed = unfold remove_locked in remove_locked-Indexed s e c h v.indexed;
  positive = v.positive;
  bounded = omega (arith, v.bounded, length-erase-le s c.entries);
}

pub replace-IsValid :
    {w : Codec} (s : String) (e f : Entry w) (n : ℕ) (c : DraftCache w)
    → lookup s c.entries ≡ some e
    → f.draft.draft_id ≡ e.draft.draft_id
    → IsValid c
    → IsValid (record c { entries = insert s f c.entries; sequence = n })
replace-IsValid s e f n c h q v = record {
  indexed = replace-Indexed s e f n c h q v.indexed;
  positive = v.positive;
  bounded = omega (arith, v.bounded, length-replace s e f c.entries h);
}

pub get_locked-IsValid :
    {w : Codec} (s : String) (now : ℕ) (c : DraftCache w)
    → IsValid c
    → IsValid (get_locked s now c).0
unfolding get_locked get_found
get_locked-IsValid s now c v = elim (Option-cases (lookup s c.entries)) [
  | inl missing ↦ rw (missing, get_found) v
  | inr (e, there) ↦
      rw (there, get_found)
        (elim (Bool-cases (is_expired now e)) [
          | inl gone ↦ rw gone (remove_locked-IsValid s e c there v)
          | inr live ↦ rw live (
              replace-IsValid s e (record e { used = next_sequence c.sequence })
                (next_sequence c.sequence) c there refl v)
        ])
]

pub get_by_selector-IsValid :
    {w : Codec} (s : String) (now : ℕ) (c : DraftCache w)
    → IsValid c
    → IsValid (get_by_selector s now c).0
unfolding get_by_selector
get_by_selector-IsValid s now c v = elim (Bool-cases (valid_selector s)) [
  | inl good ↦ rw good (get_locked-IsValid s now c v)
  | inr bad ↦ rw bad v
]

pub get_by_id-IsValid :
    {w : Codec} (id : String) (now : ℕ) (c : DraftCache w)
    → IsValid c
    → IsValid (get_by_id id now c).0
unfolding get_by_id
get_by_id-IsValid id now c v = elim (Bool-cases (str_eq id "")) [
  | inl empty ↦ rw empty v
  | inr given ↦ rw given (elim (Option-cases (lookup id c.by_id)) [
    | inl missing ↦ rw missing v
    | inr (s, listed) ↦ rw listed (get_locked-IsValid s now c v)
  ])
]

pub attempt_secrets-IsValid :
    {w : Codec} (id : String) (now : ℕ) (c : DraftCache w)
    → IsValid c
    → IsValid (attempt_secrets id now c).0
unfolding attempt_secrets
attempt_secrets-IsValid id now c v = elim (Bool-cases (str_eq id "")) [
  | inl empty ↦ rw empty v
  | inr given ↦ rw given (elim (Option-cases (lookup id c.by_id)) [
    | inl missing ↦ rw missing v
    | inr (s, listed) ↦ rw listed (after s (get_locked s now c) (get_locked-IsValid s now c v))
  ])
]
  where
    after :
        {w : Codec} (s : String) (r : DraftCache w × Option (Draft w))
        → IsValid r.0
        → IsValid (secrets_after s r).0
    after s (d, none) v = v
    after s (d, some x) v = v

pub attach_primary_ca-IsValid :
    {w : Codec} (id ca_pem : String) (now : ℕ) (c : DraftCache w)
    → IsValid c
    → IsValid (attach_primary_ca id ca_pem now c).0
unfolding attach_primary_ca attach_found
attach_primary_ca-IsValid id ca_pem now c v = elim (Bool-cases (str_eq id "")) [
  | inl empty ↦ rw empty v
  | inr given ↦ rw given (elim (Option-cases (lookup id c.by_id)) [
    | inl missing ↦ rw missing v
    | inr (s, listed) ↦ rw listed (elim (Option-cases (lookup s c.entries)) [
      | inl gone ↦ rw (gone, attach_found) v
      | inr (e, there) ↦
          rw (there, attach_found)
            (elim (Bool-cases (is_expired now e)) [
              | inl late ↦ rw late v
              | inr live ↦ rw live (
                  replace-IsValid s e
                    (record e { draft = record e.draft { primary_ca_pem = ca_pem } }) c.sequence c
                    there refl v)
            ])
    ])
  ])
]

pub delete_by_id-IsValid :
    {w : Codec} (id : String) (c : DraftCache w) → IsValid c → IsValid (delete_by_id id c)
unfolding delete_by_id
delete_by_id-IsValid {w} id c v = elim (Bool-cases (str_eq id "")) [
  | inl empty ↦ rw empty v
  | inr given ↦ rw given (elim (Option-cases (lookup id c.by_id)) [
    | inl missing ↦ rw missing v
    | inr (s, listed) ↦
        let (e, there, same) = v.indexed.forward id s listed in
        rw listed
          (subst (λ i. IsValid (remove_locked s i c)) same (remove_locked-IsValid s e c there v))
  ])
]

pub capacity-place :
    {w : Codec} (e : Entry w) (c : DraftCache w) → (place e c).capacity ≡ c.capacity
unfolding place
capacity-place e c = refl

pub store_draft-IsValid :
    {w : Codec} (e : Entry w) (now : ℕ) (c : DraftCache w)
    → str_eq e.draft.selector "" ≡ false
    → lookup e.draft.draft_id c.by_id ≡ none
    → IsValid c
    → IsValid (store_draft e now c).0
unfolding store_draft
store_draft-IsValid e now c nonempty fresh v =
    let f =
      fit-Fits (evict_expired now (place e c))
        (evict_expired-Indexed now (place e c) (place-Indexed e c nonempty fresh v.indexed)) in
    let same : (evict_expired now (place e c)).capacity ≡ c.capacity =
      capacity-evict_expired now (place e c) ∙ capacity-place e c in
    record {
      indexed = f.indexed;
      positive = ground (arith, f.capacity, same, v.positive);
      bounded = omega (arith, f.capacity, f.bounded);
    }
