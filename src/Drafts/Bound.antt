-- ===== src/Drafts/Bound.antt =====
-- About the evictions of `put` in apps/api/internal/enrollment/draft_cache.go.
use proxy_core.Base.{
  ℕ, zero, suc, ◌≤◌, ◌<◌, ◌≡◌, refl, ◌∙◌, ap, String, false, none, some, if◌then◌else◌, List, [],
  ◌∷◌, ltb, str_eq, length, arith, eq_iff, Bool-cases, inl, inr, ◌⊎◌, ◌||◌,
}
use proxy_core.Base.Maps.{lookup, lookup-erase, length-erase-lt, length-erase, Distinct}
use proxy_core.Drafts.{
  Codec, Entry, DraftCache, remove_locked, Oldest, older, least_used, no_oldest,
  evict_least_recently_used, shrink, fit,
}
use proxy_core.Drafts.Index.{Indexed, remove_locked-Indexed}

abbrev of_entry : {w : Codec} → String → Entry w → Oldest
of_entry s e = record { selector = s; id = e.draft.draft_id; used = e.used }

-- The scan ends with where it began or with an entry of the list.
least_used-source :
    {w : Codec} (l : List (String × Entry w)) (o : Oldest)
    → Distinct l
    → (least_used l o ≡ o)
      ⊎ ((s : String) × (e : Entry w) × (lookup s l ≡ some e) × (least_used l o ≡ of_entry s e))
unfolding least_used lookup
least_used-source [] o d = inl refl
least_used-source ((k, f) ∷ l) o d = elim (least_used-source l (older k f o) d.1) [
  | inr (s, e, there, found) ↦ inr (s, e, ground (arith, there, d.0, eq_iff k s), found)
  | inl same ↦ elim (Bool-cases (str_eq o.selector "" || ltb f.used o.used)) [
    | inl newer ↦ inr (k, f, ground (arith, eq_iff k k), same ∙ rw newer refl)
    | inr kept ↦ inl (same ∙ rw kept refl)
  ]
]

-- No entry of the list was used before the one that is found.
least_used-le :
    {w : Codec} (l : List (String × Entry w)) (o : Oldest)
    → Distinct l
    → ((s : String) (e : Entry w) → lookup s l ≡ some e → str_eq s "" ≡ false)
    → str_eq o.selector "" ≡ false
    → ((least_used l o).used ≤ o.used)
      × ((s : String) (e : Entry w) → lookup s l ≡ some e → (least_used l o).used ≤ e.used)
unfolding least_used lookup
least_used-le [] o d named h = (omega arith, λ s e k. absurd (ground arith))
least_used-le ((k, f) ∷ l) o d named h =
    let head : str_eq k "" ≡ false = named k f (ground (arith, eq_iff k k)) in
    let tail = λ (s : String) (e : Entry _) (there : lookup s l ≡ some e).
      named s e (ground (arith, there, d.0, eq_iff k s)) in
    let (low, all_low) = least_used-le l (older k f o) d.1 tail (ground (arith, head, h)) in
    (
      ground (arith, low, h),
      λ s e there. elim (Bool-cases (str_eq k s)) [
        | inl same ↦ ground (arith, low, h, there, same)
        | inr other ↦ all_low s e (ground (arith, there, other))
      ],
    )

-- An entry that no other one was used before.
pub record IsLeast {w : Codec} (l : List (String × Entry w)) (s : String) (e : Entry w)
    : Type 0 where
  pub there : lookup s l ≡ some e
  pub least : (t : String) (f : Entry w) → lookup t l ≡ some f → e.used ≤ f.used

least_used-IsLeast :
    {w : Codec} (l : List (String × Entry w))
    → Distinct l
    → ((s : String) (e : Entry w) → lookup s l ≡ some e → str_eq s "" ≡ false)
    → 0 < length l
    → (s : String) × (e : Entry w) × (least_used l no_oldest ≡ of_entry s e) × IsLeast l s e
unfolding least_used lookup
least_used-IsLeast [] d named pos = absurd (omega arith)
least_used-IsLeast {w} ((k, f) ∷ l) d named pos = elim (least_used-source l (of_entry k f) d.1) [
  | inl same ↦ (
    k,
    f,
    same,
    record {
      there = ground (arith, eq_iff k k);
      least = λ t g h. below t g h (ap (λ (o : Oldest). o.used) same);
    },
  )
  | inr (s, e, there, found) ↦ (
    s,
    e,
    found,
    record {
      there = ground (arith, there, d.0, eq_iff k s);
      least = λ t g h. below t g h (ap (λ (o : Oldest). o.used) found);
    },
  )
]
  where
    head : str_eq k "" ≡ false
    head = named k f (ground (arith, eq_iff k k))

    tail : (s : String) (e : Entry w) → lookup s l ≡ some e → str_eq s "" ≡ false
    tail s e there = named s e (ground (arith, there, d.0, eq_iff k s))

    below :
        {n : ℕ} (t : String) (g : Entry w)
        → lookup t ((k, f) ∷ l) ≡ some g
        → (least_used l (of_entry k f)).used ≡ n
        → n ≤ g.used
    below t g h q =
        let (low, all_low) = least_used-le l (of_entry k f) d.1 tail head in
        elim (Bool-cases (str_eq k t)) [
          | inl same ↦ ground (arith, low, h, same, q)
          | inr other ↦ ground (arith, all_low t g (ground (arith, h, other)), q)
        ]

-- An eviction removes an entry that was used no later than any other.
evict_least_recently_used_lem :
    {w : Codec} (c : DraftCache w)
    → Indexed c
    → 0 < length c.entries
    → (s : String) × (e : Entry w) × (evict_least_recently_used c
        ≡ remove_locked s e.draft.draft_id c)
      × IsLeast c.entries s e
unfolding evict_least_recently_used
evict_least_recently_used_lem c v pos =
    let (s, e, found, l) = least_used-IsLeast c.entries v.distinct v.named pos in
    (s, e, rw (found, v.named s e l.there) refl, l)

-- The cache `d` is `c` without the entry `e` of the selector `s`.
pub record Without {w : Codec} (s : String) (e : Entry w) (c d : DraftCache w) : Type 0 where
  pub entries :
      (t : String) → lookup t d.entries ≡ (if str_eq s t then none else lookup t c.entries)
  pub by_id :
      (id : String)
      → lookup id d.by_id ≡ (if str_eq e.draft.draft_id id then none else lookup id c.by_id)
  pub one_less : suc (length d.entries) ≡ length c.entries

remove_locked-Without :
    {w : Codec} (s : String) (e : Entry w) (c : DraftCache w)
    → Indexed c
    → lookup s c.entries ≡ some e
    → Without s e c (remove_locked s e.draft.draft_id c)
unfolding remove_locked
remove_locked-Without s e c v there = record {
  entries = λ t. lookup-erase s t c.entries;
  by_id = λ id. lookup-erase e.draft.draft_id id c.by_id;
  one_less = length-erase s c.entries v.distinct there;
}

-- A consistent cache that is not empty loses exactly one entry to an eviction, an entry that was
-- used no later than any other: its selector and its draft id are no longer found, every other
-- selector and every other id is found as before, and there is one entry less.
pub evict_least_recently_used-IsLeast :
    {w : Codec} (c : DraftCache w)
    → Indexed c
    → 0 < length c.entries
    → (s : String) × (e : Entry w) × IsLeast c.entries s e
      × Without s e c (evict_least_recently_used c)
evict_least_recently_used-IsLeast c v pos =
    let (s, e, same, l) = evict_least_recently_used_lem c v pos in
    (s, e, l, rw same (remove_locked-Without s e c v l.there))

-- After the loop: the capacity holds, and the maps are as consistent as before.
pub record Fits {w : Codec} (c d : DraftCache w) : Type 0 where
  pub indexed : Indexed d
  pub bounded : length d.entries ≤ c.capacity
  pub capacity : d.capacity ≡ c.capacity
  pub sequence : d.sequence ≡ c.sequence
  pub ttl : d.ttl ≡ c.ttl

shrink-Fits :
    {w : Codec} (fuel : ℕ) (c : DraftCache w)
    → length c.entries ≤ fuel
    → Indexed c
    → Fits c (shrink fuel c)
unfolding shrink remove_locked
shrink-Fits zero c h v = record {
  indexed = v;
  bounded = omega arith;
  capacity = refl;
  sequence = refl;
  ttl = refl;
}
shrink-Fits (suc fuel) c h v = elim (Bool-cases (ltb c.capacity (length c.entries))) [
  | inr small ↦
      rw small (record {
        indexed = v;
        bounded = ground arith;
        capacity = refl;
        sequence = refl;
        ttl = refl;
      })
  | inl large ↦
      let (s, e, same, l) = evict_least_recently_used_lem c v (ground arith) in
      let shorter = length-erase-lt s c.entries l.there in
      let rest =
        shrink-Fits fuel (remove_locked s e.draft.draft_id c) (omega arith)
          (remove_locked-Indexed s e c l.there v) in
      rw (large, same)
        (record {
          indexed = rest.indexed;
          bounded = rest.bounded;
          capacity = rest.capacity;
          sequence = rest.sequence;
          ttl = rest.ttl;
        })
]

-- The loop of evictions of a consistent cache ends within as many rounds as there are entries:
-- after it the capacity holds and the maps are as consistent as before.
pub fit-Fits : {w : Codec} (c : DraftCache w) → Indexed c → Fits c (fit c)
unfolding fit
fit-Fits c v = shrink-Fits (length c.entries) c (omega arith) v

-- A list of two keys has one that is not the given one.
other_entry :
    {w : Codec} (s : String) (l : List (String × Entry w))
    → Distinct l
    → 1 < length l
    → (t : String) × (f : Entry w) × (lookup t l ≡ some f) × (str_eq s t ≡ false)
unfolding lookup
other_entry s [] d h = absurd (omega arith)
other_entry s ((k, e) ∷ []) d h = absurd (omega arith)
other_entry s ((k, e) ∷ (j, f) ∷ l) d h = elim (Bool-cases (str_eq s k)) [
  | inr other ↦ (k, e, ground (arith, eq_iff k k), other)
  | inl same ↦ (
    j,
    f,
    ground (arith, d.0, eq_iff k j, eq_iff j j),
    ground (arith, d.0, eq_iff k j, eq_iff s k, eq_iff s j),
  )
]

-- Every other entry was used before.
abbrev pub IsNewest : {w : Codec} → List (String × Entry w) → String → Entry w → Type 0
IsNewest {w} l s e =
    (t : String) (f : Entry w) → str_eq s t ≡ false → lookup t l ≡ some f → f.used < e.used

shrink-newest :
    {w : Codec} (s : String) (e : Entry w) (fuel : ℕ) (c : DraftCache w)
    → Indexed c
    → 0 < c.capacity
    → lookup s c.entries ≡ some e
    → IsNewest c.entries s e
    → lookup s (shrink fuel c).entries ≡ some e
unfolding shrink remove_locked
shrink-newest s e zero c v pos h new = h
shrink-newest s e (suc fuel) c v pos h new = elim (Bool-cases (ltb c.capacity (length c.entries))) [
  | inr small ↦ rw small h
  | inl large ↦
      let (t, f, same, l) = evict_least_recently_used_lem c v (ground arith) in
      let (o, g, there, ne) = other_entry s c.entries v.distinct (ground arith) in
      let differs : str_eq t s ≡ false =
        ground (arith, eq_iff t s, l.there, h, l.least o g there, new o g ne there) in
      rw (large, same)
        (shrink-newest s e fuel (remove_locked t f.draft.draft_id c)
          (remove_locked-Indexed t f c l.there v) pos
          (ground (arith, h, differs, lookup-erase t s c.entries))
          (λ u k m p. new u k m (ground (arith, p, lookup-erase t u c.entries))))
]

-- The entry that was used last is never evicted.
pub lookup-fit :
    {w : Codec} (s : String) (e : Entry w) (c : DraftCache w)
    → Indexed c
    → 0 < c.capacity
    → lookup s c.entries ≡ some e
    → IsNewest c.entries s e
    → lookup s (fit c).entries ≡ some e
unfolding fit
lookup-fit s e c v pos h new = shrink-newest s e (length c.entries) c v pos h new
