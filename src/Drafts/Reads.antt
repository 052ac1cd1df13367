-- ===== src/Drafts/Reads.antt =====
-- About what a draft that was put into a cache (apps/api/internal/enrollment/draft_cache.go) can be
-- read as.
use proxy_core.Base.{
  ℕ, ◌+◌, ◌^◌, ◌≤◌, ◌<◌, ◌≡◌, refl, sym, ◌∙◌, ap, String, false, none, some, if◌then◌else◌, str_eq,
  arith, eq_iff, inl, inr,
}
use proxy_core.Base.Maps.{lookup, lookup-insert}
use proxy_core.Drafts.{
  Codec, Draft, Entry, DraftCache, PutInput, clone_draft, is_expired, evict_expired, next_sequence,
  place, store_draft, put, new_draft, get_found, get_locked, get_by_id,
}
use proxy_core.Drafts.Index.{
  Indexed, unexpired, unexpired-some, evict_expired-Indexed, lookup-evict_expired,
  capacity-evict_expired,
}
use proxy_core.Drafts.Bound.{lookup-fit}
use proxy_core.Drafts.Place.{place-Indexed}
use proxy_core.Drafts.Valid.{IsValid, valid_selector-named, store_draft-IsValid, capacity-place}
use proxy_core.Drafts.History.{Accepted, entry_of, put-Accepted, put_cases}

-- No entry was used after the newest use.
abbrev pub IsOrdered : {w : Codec} → DraftCache w → Type 0
IsOrdered {w} c = (s : String) (e : Entry w) → lookup s c.entries ≡ some e → e.used ≤ c.sequence

get_by_id-live :
    {w : Codec} (id : String) (now : ℕ) (s : String) (e : Entry w) (c : DraftCache w)
    → Indexed c
    → lookup s c.entries ≡ some e
    → e.draft.draft_id ≡ id
    → str_eq id "" ≡ false
    → is_expired now e ≡ false
    → (get_by_id id now c).1 ≡ some (clone_draft e.draft)
unfolding get_by_id get_locked get_found
get_by_id-live id now s e c v there same given live =
    let listed : lookup id c.by_id ≡ some s = ground (arith, v.backward s e there, same) in
    rw (given, listed) (rw (there, get_found) (rw live refl))

lookup-place :
    {w : Codec} (e : Entry w) (c : DraftCache w) (t : String)
    → c.sequence + 1 < 2 ^ 64
    → lookup t (place e c).entries ≡ (
        if str_eq e.draft.selector t
        then some (record e { used = c.sequence + 1 })
        else lookup t c.entries)
unfolding place
lookup-place e c t small =
    let same : next_sequence c.sequence ≡ c.sequence + 1 = omega arith in
    lookup-insert e.draft.selector t (record e { used = next_sequence c.sequence }) c.entries
    ∙ simp same refl

put-store_draft :
    {w : Codec} (e : Entry w) (now : ℕ) (c : DraftCache w)
    → (store_draft e now c).1 ≡ some (clone_draft e.draft)
unfolding store_draft
put-store_draft e now c = refl

-- The newest entry is in the cache after its `put`.
lookup-store_draft :
    {w : Codec} (e : Entry w) (now : ℕ) (c : DraftCache w)
    → IsValid c
    → IsOrdered c
    → c.sequence + 1 < 2 ^ 64
    → str_eq e.draft.selector "" ≡ false
    → lookup e.draft.draft_id c.by_id ≡ none
    → is_expired now e ≡ false
    → lookup e.draft.selector (store_draft e now c).0.entries
      ≡ some (record e { used = c.sequence + 1 })
unfolding store_draft
lookup-store_draft {w} e now c v old small nonempty fresh live =
    lookup-fit e.draft.selector new (evict_expired now (place e c))
      (evict_expired-Indexed now (place e c) placed)
      (ground (arith, capacity-evict_expired now (place e c), capacity-place e c, v.positive))
      (lookup-evict_expired now e.draft.selector (place e c) placed.distinct
        ∙ ap (unexpired now) here
        ∙ rw live refl)
      (λ t f other h.
        let there = sym (lookup-evict_expired now t (place e c) placed.distinct) ∙ h in
        newest t f other (unexpired-some now (lookup t (place e c).entries) there))
  where
    new : Entry w
    new = record e { used = c.sequence + 1 }

    placed : Indexed (place e c)
    placed = place-Indexed e c nonempty fresh v.indexed

    here : lookup e.draft.selector (place e c).entries ≡ some new
    here =
        ground
          (arith, lookup-place e c e.draft.selector small, eq_iff e.draft.selector e.draft.selector)

    newest :
        (t : String) (f : Entry w)
        → str_eq e.draft.selector t ≡ false
        → lookup t (place e c).entries ≡ some f
        → f.used < c.sequence + 1
    newest t f other h = omega (arith, old t f (ground (arith, lookup-place e c t small, other, h)))

-- What is read by id until it expires is the draft that the put returned: for a cache whose uses
-- are in order and do not reach 2^64, a fresh id, and a time to live that is not zero.
pub get_by_id-put :
    {w : Codec} (i : PutInput w) (c : DraftCache w) (d : Draft w) (now : ℕ)
    → IsValid c
    → IsOrdered c
    → c.sequence + 1 < 2 ^ 64
    → lookup i.fresh_id c.by_id ≡ none
    → str_eq i.fresh_id "" ≡ false
    → 0 < c.ttl
    → now < i.now + c.ttl
    → (put i c).1 ≡ some d
    → (get_by_id i.fresh_id now (put i c).0).1 ≡ some d
unfolding new_draft
get_by_id-put {w} i c d now v old small fresh given positive early accepted = elim (put_cases i c) [
  | inl same ↦ absurd (ground (arith, same))
  | inr a ↦ read a
]
  where
    read : Accepted i → (get_by_id i.fresh_id now (put i c).0).1 ≡ some d
    read a =
        let e : Entry w = entry_of i a.drawn c.ttl a.copied in
        let nonempty = valid_selector-named i.selector a.selector_valid in
        let kept = store_draft-IsValid e i.now c nonempty fresh v in
        let there = lookup-store_draft e i.now c v old small nonempty fresh (ground arith) in
        rw (put-Accepted i c a) (
          get_by_id-live i.fresh_id now i.selector (record e { used = c.sequence + 1 })
            (store_draft e i.now c).0 kept.indexed there refl given (ground arith)
          ∙ sym (put-store_draft e i.now c)
          ∙ ap (λ r. r.1) (sym (put-Accepted i c a))
          ∙ accepted)
