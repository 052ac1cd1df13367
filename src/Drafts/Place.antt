-- ===== src/Drafts/Place.antt =====
-- About an entry that `put`, a read or `AttachPrimaryCA` of
-- apps/api/internal/enrollment/draft_cache.go puts into the two maps.
use proxy_core.Base.{
  ℕ, ◌≡◌, subst, String, false, none, some, List, str_eq, arith, eq_iff, Bool-cases, Option-cases,
  inl, inr,
}
use proxy_core.Base.Maps.{lookup, insert, erase, lookup-erase, lookup-insert, insert-Distinct}
use proxy_core.Drafts.{Codec, Entry, DraftCache, next_sequence, place, drop_previous}
use proxy_core.Drafts.Index.{Indexed}

-- Another entry in the place of one, for the same draft id.
pub replace-Indexed :
    {w : Codec} (s : String) (e f : Entry w) (n : ℕ) (c : DraftCache w)
    → lookup s c.entries ≡ some e
    → f.draft.draft_id ≡ e.draft.draft_id
    → Indexed c
    → Indexed (record c { entries = insert s f c.entries; sequence = n })
replace-Indexed s e f n c h q v = record {
  distinct = insert-Distinct s f c.entries v.distinct;
  forward = λ id t k.
      let (g, there, same) = v.forward id t k in
      elim (Bool-cases (str_eq s t)) [
        | inl here ↦ (
          f,
          ground (arith, lookup-insert s t f c.entries, here),
          ground (arith, eq_iff s t, here, h, there, same, q),
        )
        | inr other ↦ (g, ground (arith, lookup-insert s t f c.entries, there, other), same)
      ];
  backward = λ t g k.
      ground
        (arith, lookup-insert s t f c.entries, k, v.backward s e h, v.backward t g, eq_iff s t, q);
  named = λ t g k.
      ground (arith, lookup-insert s t f c.entries, k, v.named s e h, v.named t g, eq_iff s t);
}

pub place-Indexed :
    {w : Codec} (e : Entry w) (c : DraftCache w)
    → str_eq e.draft.selector "" ≡ false
    → lookup e.draft.draft_id c.by_id ≡ none
    → Indexed c
    → Indexed (place e c)
unfolding place
place-Indexed {w} e c nonempty fresh v = record {
  distinct = insert-Distinct s e' c.entries v.distinct;
  forward = forward;
  backward = backward;
  named =
      λ t g k. ground (arith, lookup-insert s t e' c.entries, k, nonempty, v.named t g, eq_iff s t);
}
  where
    s : String
    s = e.draft.selector

    e' : Entry w
    e' = record e { used = next_sequence c.sequence }

    index : List (String × String)
    index = drop_previous (lookup s c.entries) c.by_id

    forward :
        (id t : String)
        → lookup id (insert e.draft.draft_id s index) ≡ some t
        → (g : Entry w) × (lookup t (insert s e' c.entries) ≡ some g) × (g.draft.draft_id ≡ id)
    forward id t k = elim (Bool-cases (str_eq e.draft.draft_id id)) [
      | inl new ↦ (
        e',
        ground (
          arith,
          lookup-insert e.draft.draft_id id s index,
          lookup-insert s t e' c.entries,
          k,
          new,
          eq_iff s t,
        ),
        ground (arith, eq_iff e.draft.draft_id id, new),
      )
      | inr old ↦ elim (Option-cases (lookup s c.entries)) [
        | inl free ↦
            let kept : lookup id c.by_id ≡ some t =
              ground (arith, lookup-insert e.draft.draft_id id s index, k, old, free) in
            let (g, there, same) = v.forward id t kept in
            (g, ground (arith, lookup-insert s t e' c.entries, there, free, eq_iff s t), same)
        | inr (p, taken) ↦
            let in_index : lookup id (erase p.draft.draft_id c.by_id) ≡ some t =
              ground (arith, lookup-insert e.draft.draft_id id s index, k, old, taken) in
            let kept : lookup id c.by_id ≡ some t =
              ground (arith, lookup-erase p.draft.draft_id id c.by_id, in_index) in
            let (g, there, same) = v.forward id t kept in
            (
              g,
              ground (
                arith,
                lookup-insert s t e' c.entries,
                lookup-erase p.draft.draft_id id c.by_id,
                in_index,
                there,
                taken,
                same,
                eq_iff s t,
                eq_iff p.draft.draft_id id,
              ),
              same,
            )
      ]
    ]

    backward :
        (t : String) (g : Entry w)
        → lookup t (insert s e' c.entries) ≡ some g
        → lookup g.draft.draft_id (insert e.draft.draft_id s index) ≡ some t
    backward t g k = elim (Bool-cases (str_eq s t)) [
      | inl here ↦
          let same : e' ≡ g = ground (arith, lookup-insert s t e' c.entries, k, here) in
          subst
            (λ (f : Entry w). lookup f.draft.draft_id (insert e.draft.draft_id s index) ≡ some t)
            same
            (ground (
              arith,
              lookup-insert e.draft.draft_id e.draft.draft_id s index,
              eq_iff s t,
              here,
              eq_iff e.draft.draft_id e.draft.draft_id,
            ))
      | inr other ↦
          let there : lookup t c.entries ≡ some g =
            ground (arith, lookup-insert s t e' c.entries, k, other) in
          let listed = v.backward t g there in
          elim (Option-cases (lookup s c.entries)) [
            | inl free ↦ ground (
              arith,
              lookup-insert e.draft.draft_id g.draft.draft_id s index,
              fresh,
              listed,
              free,
              eq_iff e.draft.draft_id g.draft.draft_id,
            )
            | inr (p, taken) ↦ ground (
              arith,
              lookup-insert e.draft.draft_id g.draft.draft_id s index,
              fresh,
              listed,
              taken,
              lookup-erase p.draft.draft_id g.draft.draft_id c.by_id,
              v.backward s p taken,
              eq_iff s t,
              other,
              eq_iff e.draft.draft_id g.draft.draft_id,
              eq_iff p.draft.draft_id g.draft.draft_id,
            )
          ]
    ]
