-- ===== src/Drafts/Index.antt =====
-- About the two maps of apps/api/internal/enrollment/draft_cache.go, which every operation changes
-- together.
use proxy_core.Base.{
  ℕ, ◌≤◌, ◌≡◌, refl, ◌∙◌, String, false, Option, none, some, List, [], ◌∷◌, if◌then◌else◌, str_eq,
  length, arith, eq_iff, Bool-cases, Option-cases, inl, inr, All,
}
use proxy_core.Base.Maps.{lookup, erase, lookup-erase, length-erase-le, Distinct, erase-Distinct}
use proxy_core.Drafts.{
  Codec, Entry, DraftCache, is_expired, remove_locked, evict_each, evict_expired,
}

-- The index lists exactly the drafts of the entries, each under its id, and no selector is empty.
pub record Indexed {w : Codec} (c : DraftCache w) : Type 0 where
  pub distinct : Distinct c.entries
  pub forward :
      (id selector : String)
      → lookup id c.by_id ≡ some selector
      → (e : Entry w) × (lookup selector c.entries ≡ some e) × (e.draft.draft_id ≡ id)
  pub backward :
      (selector : String) (e : Entry w)
      → lookup selector c.entries ≡ some e
      → lookup e.draft.draft_id c.by_id ≡ some selector
  pub named :
      (selector : String) (e : Entry w)
      → lookup selector c.entries ≡ some e
      → str_eq selector "" ≡ false

pub remove_locked-Indexed :
    {w : Codec} (selector : String) (e : Entry w) (c : DraftCache w)
    → lookup selector c.entries ≡ some e
    → Indexed c
    → Indexed (remove_locked selector e.draft.draft_id c)
unfolding remove_locked
remove_locked-Indexed {w} selector e c h v = record {
  distinct = erase-Distinct selector c.entries v.distinct;
  forward = λ id s k.
      let kept : lookup id c.by_id ≡ some s =
        ground (arith, lookup-erase e.draft.draft_id id c.by_id) in
      let (f, there, same) = v.forward id s kept in
      (
        f,
        ground (
          arith,
          lookup-erase e.draft.draft_id id c.by_id,
          lookup-erase selector s c.entries,
          eq_iff selector s,
          eq_iff e.draft.draft_id id,
        ),
        same,
      );
  backward = λ s f k.
      let kept : lookup s c.entries ≡ some f = ground (arith, lookup-erase selector s c.entries) in
      ground (
        arith,
        lookup-erase selector s c.entries,
        lookup-erase e.draft.draft_id f.draft.draft_id c.by_id,
        v.backward s f kept,
        v.backward selector e h,
        eq_iff selector s,
        eq_iff e.draft.draft_id f.draft.draft_id,
      );
  named = λ s f k. v.named s f (ground (arith, lookup-erase selector s c.entries));
}

-- The pairs of a list that the map shows.
abbrev pub Shown : {w : Codec} → List (String × Entry w) → List (String × Entry w) → Type 0
Shown m l = All (λ p. lookup p.0 m ≡ some p.1) l

Shown-cons :
    {w : Codec} (k : String) (e : Entry w) (m l : List (String × Entry w))
    → lookup k m ≡ none
    → Shown m l
    → Shown ((k, e) ∷ m) l
unfolding lookup
Shown-cons k e m [] h s = tt
Shown-cons k e m ((j, f) ∷ l) h s = (ground (arith, s.0, eq_iff k j), Shown-cons k e m l h s.1)

Distinct-Shown : {w : Codec} (m : List (String × Entry w)) → Distinct m → Shown m m
unfolding lookup
Distinct-Shown [] d = tt
Distinct-Shown ((k, e) ∷ m) d =
    (ground (arith, eq_iff k k), Shown-cons k e m m d.0 (Distinct-Shown m d.1))

-- A pair that goes leaves the others shown.
Shown-erase :
    {w : Codec} (k : String) (m l : List (String × Entry w))
    → lookup k l ≡ none
    → Shown m l
    → Shown (erase k m) l
unfolding lookup
Shown-erase k m [] h s = tt
Shown-erase k m ((j, f) ∷ l) h s = (
  ground (arith, s.0, lookup-erase k j m, eq_iff k j, eq_iff j k),
  Shown-erase k m l (ground arith) s.1,
)

evict_each-Indexed :
    {w : Codec} (now : ℕ) (l : List (String × Entry w)) (c : DraftCache w)
    → Distinct l
    → Shown c.entries l
    → Indexed c
    → Indexed (evict_each now l c)
unfolding evict_each
evict_each-Indexed now [] c d s v = v
evict_each-Indexed now ((k, e) ∷ l) c d s v = elim (Bool-cases (is_expired now e)) [
  | inl gone ↦ rw gone (
      evict_each-Indexed now l (remove_locked k e.draft.draft_id c) d.1
        (unfold remove_locked in Shown-erase k c.entries l d.0 s.1)
        (remove_locked-Indexed k e c s.0 v))
  | inr live ↦ rw live (evict_each-Indexed now l c d.1 s.1 v)
]

pub evict_expired-Indexed :
    {w : Codec} (now : ℕ) (c : DraftCache w) → Indexed c → Indexed (evict_expired now c)
unfolding evict_expired
evict_expired-Indexed now c v =
    evict_each-Indexed now c.entries c v.distinct (Distinct-Shown c.entries v.distinct) v

-- An entry, unless it has expired.
abbrev pub unexpired : {w : Codec} → ℕ → Option (Entry w) → Option (Entry w)
unexpired now none = none
unexpired now (some e) = if is_expired now e then none else some e

-- What a round of evictions leaves under a selector.
abbrev left : {w : Codec} → ℕ → Option (Entry w) → Option (Entry w) → Option (Entry w)
left now none kept = kept
left now (some e) kept = if is_expired now e then none else kept

lookup-evict_each :
    {w : Codec} (now : ℕ) (s : String) (l : List (String × Entry w)) (c : DraftCache w)
    → Distinct l
    → lookup s (evict_each now l c).entries ≡ left now (lookup s l) (lookup s c.entries)
unfolding evict_each lookup remove_locked
lookup-evict_each now s [] c d = refl
lookup-evict_each now s ((k, e) ∷ l) c d = elim (Bool-cases (is_expired now e)) [
  | inl gone ↦
      rw (gone, lookup)
        (lookup-evict_each now s l (remove_locked k e.draft.draft_id c) d.1
          ∙ ground (arith, lookup-erase k s c.entries, eq_iff k s))
  | inr live ↦ rw (live, lookup) (lookup-evict_each now s l c d.1 ∙ ground (arith, eq_iff k s))
]

-- A round of evictions over a cache whose selectors are distinct takes away the expired entries and
-- no other.
pub lookup-evict_expired :
    {w : Codec} (now : ℕ) (s : String) (c : DraftCache w)
    → Distinct c.entries
    → lookup s (evict_expired now c).entries ≡ unexpired now (lookup s c.entries)
unfolding evict_expired
lookup-evict_expired now s c d =
    lookup-evict_each now s c.entries c d
    ∙ elim (Option-cases (lookup s c.entries)) [ inl e ↦ rw e refl | inr (f, e) ↦ rw e refl ]

capacity-evict_each :
    {w : Codec} (now : ℕ) (l : List (String × Entry w)) (c : DraftCache w)
    → (evict_each now l c).capacity ≡ c.capacity
unfolding evict_each remove_locked
capacity-evict_each now [] c = refl
capacity-evict_each now ((k, e) ∷ l) c = elim (Bool-cases (is_expired now e)) [
  | inl gone ↦
      rw (gone, evict_each) (capacity-evict_each now l (remove_locked k e.draft.draft_id c))
  | inr live ↦ rw (live, evict_each) (capacity-evict_each now l c)
]

pub capacity-evict_expired :
    {w : Codec} (now : ℕ) (c : DraftCache w) → (evict_expired now c).capacity ≡ c.capacity
unfolding evict_expired
capacity-evict_expired now c = capacity-evict_each now c.entries c

length-evict_each :
    {w : Codec} (now : ℕ) (l : List (String × Entry w)) (c : DraftCache w)
    → length (evict_each now l c).entries ≤ length c.entries
unfolding evict_each remove_locked
length-evict_each now [] c = omega arith
length-evict_each now ((k, e) ∷ l) c = elim (Bool-cases (is_expired now e)) [
  | inl gone ↦
      rw (gone, evict_each)
        (omega (
          arith,
          length-erase-le k c.entries,
          length-evict_each now l (remove_locked k e.draft.draft_id c),
        ))
  | inr live ↦ rw (live, evict_each) (length-evict_each now l c)
]

pub length-evict_expired :
    {w : Codec} (now : ℕ) (c : DraftCache w)
    → length (evict_expired now c).entries ≤ length c.entries
unfolding evict_expired
length-evict_expired now c = length-evict_each now c.entries c

pub unexpired-some :
    {w : Codec} (now : ℕ) (o : Option (Entry w)) {e : Entry w}
    → unexpired now o ≡ some e
    → o ≡ some e
unexpired-some now none h = h
unexpired-some now (some f) h = elim (Bool-cases (is_expired now f)) [
  | inl gone ↦ absurd (ground arith)
  | inr live ↦ ground arith
]
