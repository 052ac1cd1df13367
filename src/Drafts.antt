-- ===== src/Drafts.antt =====
-- apps/api/internal/enrollment/draft_cache.go: the cache of enrollment drafts, keyed by selector,
-- with an index by draft id. A map is an association list; its order is the order in which a range
-- over it goes. The zeroing of bytes that leave the cache is not in the model.
pub mod Index
pub mod Bound
pub mod Place
pub mod Valid
pub mod History
pub mod Reads
use proxy_core.Base.{
  ℕ, zero, suc, ◌+◌, ◌*◌, ◌%◌, ◌^◌, String, Bool, true, false, not, Option, none, some, List, [],
  ◌∷◌, if◌then◌else◌, ltb, leb, ◌==◌, ◌&&◌, ◌||◌, str_eq, codes, length, all,
}
use proxy_core.Base.Maps.{lookup, insert, erase}
use proxy_core.Topology.{Role}
use proxy_core.Identifiers.{is_valid_id}

-- The envelope of a snapshot and its copy by `Marshal` and `Unmarshal`, which may fail.
pub record Codec : Type 1 where
  pub Envelope : Type 0
  pub clone : Envelope → Option Envelope

pub record Overlay : Type 0 where
  pub node_id : String
  pub ipv4 : String
  pub ipv6 : String
  pub role : Role

-- Instants are nanoseconds.
pub record Draft (w : Codec) : Type 0 where
  pub draft_id : String
  pub selector : String
  pub primary_url : String
  pub envelope : Option w.Envelope
  pub overlay : Overlay
  pub primary_ca_pem : String
  pub created_at : ℕ
  pub expires_at : ℕ

-- The empty token is a nil one; `recipient` is the private key of the bootstrap recipient.
pub record Entry (w : Codec) : Type 0 where
  pub draft : Draft w
  pub used : ℕ
  pub token : String
  pub recipient : Option String

pub record DraftCache (w : Codec) : Type 0 where
  pub capacity : ℕ
  pub ttl : ℕ
  pub sequence : ℕ
  pub entries : List (String × Entry w)
  pub by_id : List (String × String)

abbrev pub default_capacity : ℕ
default_capacity = 8

abbrev pub default_ttl : ℕ
default_ttl = 15 * 60 * 1_000_000_000

-- `NewDraftCache`; zero stands for every capacity and every time that is not positive.
unfoldable pub new_draft_cache : {w : Codec} → ℕ → ℕ → DraftCache w
new_draft_cache capacity ttl = record {
  capacity = if capacity == 0 then default_capacity else capacity;
  ttl = if ttl == 0 then default_ttl else ttl;
  sequence = 0;
  entries = [];
  by_id = [];
}

-- `validDraftSelector`: what is the encoding of its own decoding to 16 bytes is written with 32
-- lower case digits.
abbrev is_lower_hex : ℕ → Bool
is_lower_hex c = (leb b'0' c && leb c b'9') || (leb b'a' c && leb c b'f')

unfoldable pub valid_selector : String → Bool
valid_selector s = length (codes s) == 32 && all is_lower_hex (codes s)

-- A failed copy leaves no envelope.
abbrev pub clone_envelope : (w : Codec) → Option w.Envelope → Option w.Envelope
clone_envelope w none = none
clone_envelope w (some e) = w.clone e

unfoldable pub clone_draft : {w : Codec} → Draft w → Draft w
clone_draft {w} d = record d { envelope = clone_envelope w d.envelope }

-- The sequence is a uint64.
abbrev pub next_sequence : ℕ → ℕ
next_sequence n = (n + 1) % 2 ^ 64

-- `!now.Before(ExpiresAt)`.
abbrev pub is_expired : {w : Codec} → ℕ → Entry w → Bool
is_expired now e = not (ltb now e.draft.expires_at)

unfoldable pub remove_locked : {w : Codec} → String → String → DraftCache w → DraftCache w
remove_locked selector id c = record c {
  entries = erase selector c.entries;
  by_id = erase id c.by_id;
}

-- The range of `evictExpiredLocked` over the entries that it began with.
unfoldable pub evict_each : {w : Codec} → ℕ → List (String × Entry w) → DraftCache w → DraftCache w
evict_each now [] c = c
evict_each now ((selector, e) ∷ more) c =
    evict_each now more (if is_expired now e then remove_locked selector e.draft.draft_id c else c)

unfoldable pub evict_expired : {w : Codec} → ℕ → DraftCache w → DraftCache w
evict_expired now c = evict_each now c.entries c

-- The selector, the id and the use of the least recently used entry so far.
pub record Oldest : Type 0 where
  pub selector : String
  pub id : String
  pub used : ℕ

abbrev pub older : {w : Codec} → String → Entry w → Oldest → Oldest
older selector e o =
    if str_eq o.selector "" || ltb e.used o.used
    then record { selector = selector; id = e.draft.draft_id; used = e.used }
    else o

unfoldable pub least_used : {w : Codec} → List (String × Entry w) → Oldest → Oldest
least_used [] o = o
least_used ((selector, e) ∷ more) o = least_used more (older selector e o)

abbrev pub no_oldest : Oldest
no_oldest = record { selector = ""; id = ""; used = 0 }

abbrev pub remove_oldest : {w : Codec} → Oldest → DraftCache w → DraftCache w
remove_oldest o c = if str_eq o.selector "" then c else remove_locked o.selector o.id c

unfoldable pub evict_least_recently_used : {w : Codec} → DraftCache w → DraftCache w
evict_least_recently_used c = remove_oldest (least_used c.entries no_oldest) c

-- The loop of `put` while there are more entries than the capacity.
unfoldable pub shrink : {w : Codec} → ℕ → DraftCache w → DraftCache w
shrink zero c = c
shrink (suc fuel) c =
    let rest = shrink fuel (evict_least_recently_used c) in
    if ltb c.capacity (length c.entries) then rest else c

-- What `put` is given, with the fresh id, the reading of the clock and the recipient that was
-- drawn, which is needed where there is a token.
pub record PutInput (w : Codec) : Type 0 where
  pub selector : String
  pub primary_url : String
  pub envelope : Option w.Envelope
  pub overlay : Overlay
  pub token : String
  pub fresh_id : String
  pub now : ℕ
  pub recipient : Option String

unfoldable pub new_draft : {w : Codec} → PutInput w → ℕ → Option w.Envelope → Draft w
new_draft i ttl envelope = record {
  draft_id = i.fresh_id;
  selector = i.selector;
  primary_url = i.primary_url;
  envelope = envelope;
  overlay = i.overlay;
  primary_ca_pem = "";
  created_at = i.now;
  expires_at = i.now + ttl;
}

-- The entry that had the selector leaves the index.
abbrev pub drop_previous :
    {w : Codec} → Option (Entry w) → List (String × String) → List (String × String)
drop_previous none by_id = by_id
drop_previous (some e) by_id = erase e.draft.draft_id by_id

unfoldable pub place : {w : Codec} → Entry w → DraftCache w → DraftCache w
place e c = record c {
  sequence = next_sequence c.sequence;
  entries = insert e.draft.selector (record e { used = next_sequence c.sequence }) c.entries;
  by_id =
      insert e.draft.draft_id e.draft.selector
        (drop_previous (lookup e.draft.selector c.entries) c.by_id);
}

unfoldable pub fit : {w : Codec} → DraftCache w → DraftCache w
fit c = shrink (length c.entries) c

unfoldable pub store_draft :
    {w : Codec} → Entry w → ℕ → DraftCache w → DraftCache w × Option (Draft w)
store_draft e now c = (fit (evict_expired now (place e c)), some (clone_draft e.draft))

-- The token and the key of the entry, `none` where a key was needed and none was drawn.
abbrev pub secrets_of : String → Option String → Option (Option String)
secrets_of token recipient =
    if str_eq token "" then some none else elim recipient [ none ↦ none | some k ↦ some (some k) ]

unfoldable pub put_copied :
    {w : Codec} → PutInput w → DraftCache w → Option w.Envelope → DraftCache w × Option (Draft w)
put_copied i c none = (c, none)
put_copied i c (some e) = elim (secrets_of i.token i.recipient) [
  | none ↦ (c, none)
  | some recipient ↦
      store_draft
        (record {
          draft = new_draft i c.ttl (some e);
          used = 0;
          token = i.token;
          recipient = recipient;
        })
        i.now c
]

-- `none` is ErrInvalidDraft.
unfoldable pub put : {w : Codec} → PutInput w → DraftCache w → DraftCache w × Option (Draft w)
put {w} i c =
    if valid_selector i.selector && is_valid_id i.overlay.node_id
    then put_copied i c (clone_envelope w i.envelope)
    else (c, none)

unfoldable pub put_with_primary_url_and_token :
    {w : Codec} → PutInput w → DraftCache w → DraftCache w × Option (Draft w)
put_with_primary_url_and_token i c = if str_eq i.token "" then (c, none) else put i c

-- The entry is used once more.
abbrev pub touch : {w : Codec} → String → Entry w → DraftCache w → DraftCache w
touch selector e c = record c {
  sequence = next_sequence c.sequence;
  entries = insert selector (record e { used = next_sequence c.sequence }) c.entries;
}

unfoldable pub get_found :
    {w : Codec} → String → ℕ → DraftCache w → Option (Entry w) → DraftCache w × Option (Draft w)
get_found selector now c none = (c, none)
get_found selector now c (some e) =
    if is_expired now e
    then (remove_locked selector e.draft.draft_id c, none)
    else (touch selector e c, some (clone_draft e.draft))

unfoldable pub get_locked :
    {w : Codec} → String → ℕ → DraftCache w → DraftCache w × Option (Draft w)
get_locked selector now c = get_found selector now c (lookup selector c.entries)

unfoldable pub get_by_selector :
    {w : Codec} → String → ℕ → DraftCache w → DraftCache w × Option (Draft w)
get_by_selector selector now c =
    if valid_selector selector then get_locked selector now c else (c, none)

abbrev pub get_indexed :
    {w : Codec} → ℕ → DraftCache w → Option String → DraftCache w × Option (Draft w)
get_indexed now c none = (c, none)
get_indexed now c (some selector) = get_locked selector now c

unfoldable pub get_by_id : {w : Codec} → String → ℕ → DraftCache w → DraftCache w × Option (Draft w)
get_by_id id now c = if str_eq id "" then (c, none) else get_indexed now c (lookup id c.by_id)

unfoldable pub attach_found :
    {w : Codec} → String → String → ℕ → DraftCache w → Option (Entry w) → DraftCache w × Bool
attach_found selector ca_pem now c none = (c, false)
attach_found selector ca_pem now c (some e) = if is_expired now e then (c, false) else (
  record c {
    entries =
        insert selector (record e { draft = record e.draft { primary_ca_pem = ca_pem } }) c.entries;
  },
  true,
)

abbrev pub attach_indexed :
    {w : Codec} → String → ℕ → DraftCache w → Option String → DraftCache w × Bool
attach_indexed ca_pem now c none = (c, false)
attach_indexed ca_pem now c (some selector) =
    attach_found selector ca_pem now c (lookup selector c.entries)

unfoldable pub attach_primary_ca :
    {w : Codec} → String → String → ℕ → DraftCache w → DraftCache w × Bool
attach_primary_ca id ca_pem now c =
    if str_eq id "" then (c, false) else attach_indexed ca_pem now c (lookup id c.by_id)

abbrev pub delete_indexed : {w : Codec} → String → DraftCache w → Option String → DraftCache w
delete_indexed id c none = c
delete_indexed id c (some selector) = remove_locked selector id c

unfoldable pub delete_by_id : {w : Codec} → String → DraftCache w → DraftCache w
delete_by_id id c = if str_eq id "" then c else delete_indexed id c (lookup id c.by_id)

-- The secrets of an entry, where it has both.
abbrev pub entry_secrets : {w : Codec} → Option (Entry w) → Option (String × String)
entry_secrets none = none
entry_secrets (some e) =
    if str_eq e.token ""
    then none
    else elim e.recipient [ none ↦ none | some k ↦ some (e.token, k) ]

abbrev pub secrets_after :
    {w : Codec} → String → DraftCache w × Option (Draft w) → DraftCache w × Option (String × String)
secrets_after selector (c, none) = (c, none)
secrets_after selector (c, some d) = (c, entry_secrets (lookup selector c.entries))

abbrev pub secrets_indexed :
    {w : Codec} → ℕ → DraftCache w → Option String → DraftCache w × Option (String × String)
secrets_indexed now c none = (c, none)
secrets_indexed now c (some selector) = secrets_after selector (get_locked selector now c)

unfoldable pub attempt_secrets :
    {w : Codec} → String → ℕ → DraftCache w → DraftCache w × Option (String × String)
attempt_secrets id now c =
    if str_eq id "" then (c, none) else secrets_indexed now c (lookup id c.by_id)

unfoldable pub len : {w : Codec} → ℕ → DraftCache w → DraftCache w × ℕ
len now c = let d = evict_expired now c in (d, length d.entries)
