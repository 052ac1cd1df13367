-- ===== src/Examples/Enrollments.antt =====
-- A cache of drafts, and identifiers.
use proxy_core.Base.{ℕ, ◌≡◌, refl, String, true, none, some, arith}
use proxy_core.Base.Maps.{lookup, insert, erase}
use proxy_core.Topology.{node}
use proxy_core.Identifiers.{Random, new_installation_id, is_valid_bytes, is_valid_id}
use proxy_core.Identifiers.Laws.{new_installation_id-is_valid}
use proxy_core.Drafts.{
  Codec, Draft, Entry, DraftCache, PutInput, new_draft_cache, evict_expired,
  evict_least_recently_used, place, fit, put, put_copied, valid_selector, store_draft, new_draft,
  get_by_id, clone_draft,
}
use proxy_core.Drafts.Index.{Indexed, unexpired, lookup-evict_expired}
use proxy_core.Drafts.Bound.{IsLeast, Without, Fits, fit-Fits, evict_least_recently_used-IsLeast}
use proxy_core.Drafts.Place.{place-Indexed}
use proxy_core.Drafts.Valid.{IsValid}
use proxy_core.Drafts.History.{puts, reads_id, step, started, called, Reachable-IsValid}
use proxy_core.Drafts.Reads.{get_by_id-put}

abbrev numbered : Codec
numbered = record { Envelope = ℕ; clone = some }

abbrev selector : String
selector = "0123456789abcdef0123456789abcdef"

abbrev input : PutInput numbered
input = record {
  selector = selector;
  primary_url = "https://primary.example";
  envelope = some 7;
  overlay = record {
    node_id = "123e4567-e89b-42d3-a456-426614174000";
    ipv4 = "192.0.2.1";
    ipv6 = "";
    role = node;
  };
  token = "token";
  fresh_id = "draft";
  now = 50;
  recipient = some "key";
}

abbrev drafted : Draft numbered
drafted = record {
  draft_id = "draft";
  selector = selector;
  primary_url = "https://primary.example";
  envelope = some 7;
  overlay = input.overlay;
  primary_ca_pem = "";
  created_at = 50;
  expires_at = 150;
}

abbrev empty_cache : DraftCache numbered
empty_cache = new_draft_cache 1 100

empty-IsValid : IsValid empty_cache
empty-IsValid = Reachable-IsValid empty_cache (started 1 100)

history_example : IsValid (step (reads_id "draft" 60) (step (puts input) empty_cache))
unfolding new_draft_cache lookup
history_example = Reachable-IsValid (step (reads_id "draft" 60) (step (puts input) empty_cache)) (
    called (reads_id "draft" 60) (step (puts input) empty_cache) tt
      (called (puts input) empty_cache refl (started 1 100)))

get_by_id-put_example : (get_by_id "draft" 149 (put input empty_cache).0).1 ≡ some drafted
unfolding new_draft_cache lookup put put_copied valid_selector is_valid_id store_draft clone_draft
    new_draft
get_by_id-put_example =
    get_by_id-put input empty_cache drafted 149 empty-IsValid (λ s e h. absurd (ground arith))
      (omega arith) refl refl (omega arith) (omega arith) refl

-- Two entries in a cache for one.
abbrev first_entry : Entry numbered
first_entry = record { draft = drafted; used = 0; token = ""; recipient = none }

abbrev second_entry : Entry numbered
second_entry = record first_entry {
  draft = record drafted { draft_id = "other"; selector = "fedcba9876543210fedcba9876543210" };
}

abbrev crowded : DraftCache numbered
crowded = place second_entry (place first_entry empty_cache)

crowded-Indexed : Indexed crowded
unfolding place new_draft_cache lookup insert erase
crowded-Indexed = place-Indexed second_entry (place first_entry empty_cache) refl refl (
    place-Indexed first_entry empty_cache refl refl
      (unfold new_draft_cache in empty-IsValid.indexed))

fit_example : Fits crowded (fit crowded)
fit_example = fit-Fits crowded crowded-Indexed

evict_least_recently_used_example :
    (s : String) × (e : Entry numbered) × IsLeast crowded.entries s e
    × Without s e crowded (evict_least_recently_used crowded)
unfolding place new_draft_cache lookup insert erase
evict_least_recently_used_example =
    evict_least_recently_used-IsLeast crowded (crowded-Indexed) (omega arith)

evict_expired_example :
    lookup selector (evict_expired 200 crowded).entries
    ≡ unexpired 200 (lookup selector crowded.entries)
evict_expired_example = lookup-evict_expired 200 selector crowded crowded-Indexed.distinct

abbrev zeros : Random
zeros = record {
  b0 = 0;
  b1 = 0;
  b2 = 0;
  b3 = 0;
  b4 = 0;
  b5 = 0;
  b6 = 0xff;
  b7 = 0;
  b8 = 0xff;
  b9 = 0;
  b10 = 0;
  b11 = 0;
  b12 = 0;
  b13 = 0;
  b14 = 0;
  b15 = 0;
}

new_installation_id_example : is_valid_bytes (new_installation_id zeros) ≡ true
new_installation_id_example = new_installation_id-is_valid zeros
