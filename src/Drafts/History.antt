-- ===== src/Drafts/History.antt =====
-- About histories of calls of a cache of drafts (apps/api/internal/enrollment/draft_cache.go), and
-- what a draft that was put can be read as.
use proxy_core.Base.{
  ℕ, ◌≡◌, refl, String, true, Option, none, some, str_eq, arith, Bool-cases, Option-cases, inl, inr,
  ◌⊎◌,
}
use proxy_core.Base.Maps.{lookup}
use proxy_core.Identifiers.{is_valid_id}
use proxy_core.Drafts.{
  Codec, Entry, DraftCache, PutInput, valid_selector, clone_envelope, store_draft, secrets_of,
  put_copied, put, new_draft, get_by_selector, get_by_id, attach_primary_ca, delete_by_id,
  attempt_secrets, len, put_with_primary_url_and_token, new_draft_cache,
}
use proxy_core.Drafts.Index.{evict_expired-Indexed, capacity-evict_expired, length-evict_expired}
use proxy_core.Drafts.Valid.{
  IsValid, valid_selector-named, store_draft-IsValid, get_by_selector-IsValid, get_by_id-IsValid,
  attach_primary_ca-IsValid, delete_by_id-IsValid, attempt_secrets-IsValid,
}

-- Whether the input is accepted: the token's key was drawn and the envelope could be copied.
pub record Accepted {w : Codec} (i : PutInput w) : Type 0 where
  pub copied : w.Envelope
  pub drawn : Option String
  pub selector_valid : valid_selector i.selector ≡ true
  pub node_valid : is_valid_id i.overlay.node_id ≡ true
  pub copies : clone_envelope w i.envelope ≡ some copied
  pub draws : secrets_of i.token i.recipient ≡ some drawn

abbrev pub entry_of : {w : Codec} → PutInput w → Option String → ℕ → w.Envelope → Entry w
entry_of i drawn ttl e = record {
  draft = new_draft i ttl (some e);
  used = 0;
  token = i.token;
  recipient = drawn;
}

pub put-Accepted :
    {w : Codec} (i : PutInput w) (c : DraftCache w) (a : Accepted i)
    → put i c ≡ store_draft (entry_of i a.drawn c.ttl a.copied) i.now c
unfolding put put_copied
put-Accepted i c a = rw (a.selector_valid, a.node_valid, a.copies, put_copied) (rw (a.draws) refl)

-- An input that is not accepted changes nothing.
pub put_cases : {w : Codec} (i : PutInput w) (c : DraftCache w) → (put i c ≡ (c, none)) ⊎ Accepted i
unfolding put put_copied
put_cases {w} i c = elim (Bool-cases (valid_selector i.selector)) [
  | inr bad ↦ inl (rw bad refl)
  | inl good ↦ elim (Bool-cases (is_valid_id i.overlay.node_id)) [
    | inr bad ↦ inl (rw (good, bad) refl)
    | inl node ↦ elim (Option-cases (clone_envelope w i.envelope)) [
      | inl uncopied ↦ inl (rw (good, node, uncopied, put_copied) refl)
      | inr (e, copies) ↦ elim (Option-cases (secrets_of i.token i.recipient)) [
        | inl undrawn ↦ inl (rw (good, node, copies, put_copied) (rw undrawn refl))
        | inr (k, draws) ↦ inr (record {
          copied = e;
          drawn = k;
          selector_valid = good;
          node_valid = node;
          copies = copies;
          draws = draws;
        })
      ]
    ]
  ]
]

put-IsValid :
    {w : Codec} (i : PutInput w) (c : DraftCache w)
    → lookup i.fresh_id c.by_id ≡ none
    → IsValid c
    → IsValid (put i c).0
put-IsValid i c fresh v = elim (put_cases i c) [
  | inl same ↦ rw same v
  | inr a ↦ rw (put-Accepted i c a) (
      store_draft-IsValid (entry_of i a.drawn c.ttl a.copied) i.now c
        (unfold new_draft in valid_selector-named i.selector a.selector_valid)
        (unfold new_draft in fresh) v)
]

put_token-IsValid :
    {w : Codec} (i : PutInput w) (c : DraftCache w)
    → lookup i.fresh_id c.by_id ≡ none
    → IsValid c
    → IsValid (put_with_primary_url_and_token i c).0
unfolding put_with_primary_url_and_token
put_token-IsValid i c fresh v = elim (Bool-cases (str_eq i.token "")) [
  | inl empty ↦ rw empty v
  | inr given ↦ rw given (put-IsValid i c fresh v)
]

len-IsValid : {w : Codec} (now : ℕ) (c : DraftCache w) → IsValid c → IsValid (len now c).0
unfolding len
len-IsValid now c v = record {
  indexed = evict_expired-Indexed now c v.indexed;
  positive = ground (arith, capacity-evict_expired now c, v.positive);
  bounded = omega (arith, capacity-evict_expired now c, length-evict_expired now c, v.bounded);
}

-- The calls of a cache; each holds its lock from its start to its end.
pub data Call (w : Codec) : Type 0 where
  puts : PutInput w → Call w
  puts_token : PutInput w → Call w
  reads_selector : String → ℕ → Call w
  reads_id : String → ℕ → Call w
  reads_secrets : String → ℕ → Call w
  attaches : String → String → ℕ → Call w
  deletes : String → Call w
  counts : ℕ → Call w

unfoldable pub step : {w : Codec} → Call w → DraftCache w → DraftCache w
step (puts i) c = (put i c).0
step (puts_token i) c = (put_with_primary_url_and_token i c).0
step (reads_selector s now) c = (get_by_selector s now c).0
step (reads_id id now) c = (get_by_id id now c).0
step (reads_secrets id now) c = (attempt_secrets id now c).0
step (attaches id ca_pem now) c = (attach_primary_ca id ca_pem now c).0
step (deletes id) c = delete_by_id id c
step (counts now) c = (len now c).0

-- The id that a call draws is not in the cache.
abbrev pub IsFresh : {w : Codec} → Call w → DraftCache w → Type 0
IsFresh (puts i) c = lookup i.fresh_id c.by_id ≡ none
IsFresh (puts_token i) c = lookup i.fresh_id c.by_id ≡ none
IsFresh (reads_selector s now) c = Unit
IsFresh (reads_id id now) c = Unit
IsFresh (reads_secrets id now) c = Unit
IsFresh (attaches id ca_pem now) c = Unit
IsFresh (deletes id) c = Unit
IsFresh (counts now) c = Unit

step-IsValid :
    {w : Codec} (k : Call w) (c : DraftCache w) → IsFresh k c → IsValid c → IsValid (step k c)
unfolding step
step-IsValid (puts i) c fresh v = put-IsValid i c fresh v
step-IsValid (puts_token i) c fresh v = put_token-IsValid i c fresh v
step-IsValid (reads_selector s now) c fresh v = get_by_selector-IsValid s now c v
step-IsValid (reads_id id now) c fresh v = get_by_id-IsValid id now c v
step-IsValid (reads_secrets id now) c fresh v = attempt_secrets-IsValid id now c v
step-IsValid (attaches id ca_pem now) c fresh v = attach_primary_ca-IsValid id ca_pem now c v
step-IsValid (deletes id) c fresh v = delete_by_id-IsValid id c v
step-IsValid (counts now) c fresh v = len-IsValid now c v

-- The caches that calls lead to, from a new one.
pub data Reachable {w : Codec} : DraftCache w → Type 0 where
  started : (capacity ttl : ℕ) → Reachable (new_draft_cache capacity ttl)
  called : (k : Call w) (c : DraftCache w) → IsFresh k c → Reachable c → Reachable (step k c)

new_draft_cache-IsValid :
    {w : Codec} (capacity ttl : ℕ) → IsValid {w = w} (new_draft_cache capacity ttl)
unfolding new_draft_cache lookup
new_draft_cache-IsValid capacity ttl = record {
  indexed = record {
    distinct = tt;
    forward = λ id s h. absurd (ground arith);
    backward = λ s e h. absurd (ground arith);
    named = λ s e h. absurd (ground arith);
  };
  positive = ground arith;
  bounded = omega arith;
}

-- Whatever calls a new cache of drafts has had, with ids that were fresh when they were drawn, the
-- index and the entries list the same drafts under the same ids and selectors, and there are no
-- more entries than the capacity.
pub Reachable-IsValid : {w : Codec} (c : DraftCache w) → Reachable c → IsValid c
Reachable-IsValid c (started capacity ttl) = new_draft_cache-IsValid capacity ttl
Reachable-IsValid c (called k b fresh r) = step-IsValid k b fresh (Reachable-IsValid b r)
