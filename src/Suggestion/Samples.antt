-- ===== src/Suggestion/Samples.antt =====
-- Two suggestions, one of them reviewed, in a Redis in memory.
use Prim.Native.String.{count, ◌∷◌ as ◌∷ᶜ◌}
use Prim.Native.String.count
use Prim.Native.Char.{Char}
use thalamus_usecase_ssa.Prelude.{
  ℕ, zero, suc, ◌+◌, ◌<◌, ◌-◌, ◌≡◌, refl, ap, ◌∙◌, String, true, false, Option, none, some, List,
  [], ◌∷◌, map, length, take, drop, page_of, has, ◌==◌, string_Eq, ==_iff, subst, Bool-cases, inl,
  inr, arith,
}
use thalamus_usecase_ssa.Suggestion.{
  Hash, lookup, Fields, text_value, Platform, Schema, GenericInsertSuggestion, IndexKey, value_of,
  normalize_filter, extract_flat_fields, reserved_hash_keys, serialize_domain_fields,
  index_suggestion, unindex_suggestion, zadd_scopes, zrem_scopes, severity_index, legacy_index,
  pending,
}
use thalamus_usecase_ssa.Suggestion.Store.{
  insert_many, insert_generic, enqueue_write, enqueue_writes, to_hash, review, to_row,
}
use thalamus_usecase_ssa.Suggestion.Memory.{Memory, memory_redis}
use thalamus_usecase_ssa.Suggestion.Kept.{IsPlatform, IsKept}
use thalamus_usecase_ssa.Suggestion.Kept.Reach.{
  Reachable, at_first, inserted_many, was_reviewed, Reachable-IsKept,
}
use thalamus_usecase_ssa.Suggestion.Listing.{
  Ranking, ListFilters, lookup_value, value_text, list, scan_filtered_index,
}
use thalamus_usecase_ssa.Suggestion.Exact.{IsFaithful}
use thalamus_usecase_ssa.Suggestion.Scan.{scan_filtered_index_exact, matching}
use thalamus_usecase_ssa.Suggestion.Stats.{Stats, get_stats}
use thalamus_usecase_ssa.Suggestion.Stats.Counts.{AreCounts, get_stats-AreCounts}
use thalamus_usecase_ssa.Suggestion.Page.{IsPage, list-IsPage}

abbrev stroke : Char
stroke = "1"

-- The strokes of a number.
abbrev strokes : ℕ → String
strokes zero = "1"
strokes (suc n) = stroke ∷ᶜ strokes n

count-strokes : (n : ℕ) → count (strokes n) ≡ suc n
count-strokes zero = refl
count-strokes (suc n) = count.cons stroke (strokes n) ∙ ap suc (count-strokes n)

abbrev platform : Platform
platform = record {
  number_text = strokes;
  object_text = λ json. "[object Object]";
  trim_lower = λ text. text;
  parse_date = λ text. some 7;
  iso_date = λ now. "2026";
  stringify = λ fields. "{}";
  parse_object = λ text. none;
  stringify_feedback = λ accepted note fields. "feedback";
}

strokes_filled : (n : ℕ) → (strokes n == "") ≡ false
strokes_filled n = elim (Bool-cases (strokes n == "")) [
  | inl a ↦
      let e : count (strokes n) ≡ 0 = ap count ((==_iff (strokes n) "").0 a) in
      absurd (omega (arith, e, count-strokes n))
  | inr a ↦ a
]

promise : IsPlatform platform
promise = record {
  injective = λ a b h. omega (arith, count-strokes a, count-strokes b, ap count h);
  number_filled = strokes_filled;
  date_filled = λ n. refl;
}

abbrev flat : Fields → List (String × Option String)
flat [] = []
flat ((key, text_value text) ∷ fields) = (key, some text) ∷ flat fields
flat (field ∷ fields) = flat fields

abbrev texts : Schema
texts = record {
  serialize = λ input. record { flat_fields = flat input; blob = [] };
  deserialize = λ fields blob. map value_of fields;
}

read_back :
    (name : String) (d : Hash)
    → has reserved_hash_keys name ≡ false
    → normalize_filter platform
        (value_text platform (lookup_value (map value_of (extract_flat_fields d)) name))
      ≡ normalize_filter platform (lookup d name)
read_back name [] free = refl
read_back name ((key, value) ∷ d) free = elim (Bool-cases (has reserved_hash_keys key)) [
  | inl a ↦ elim (Bool-cases (key == name)) [
    | inl b ↦
        let wrong : has reserved_hash_keys name ≡ true =
          subst (λ k. has reserved_hash_keys k ≡ true) ((==_iff key name).0 b) a in
        cc
    | inr b ↦ rw (a, b) (read_back name d free)
  ]
  | inr a ↦ elim (Bool-cases (value == "")) [
    | inl blank ↦ elim (Bool-cases (key == name)) [
      | inl b ↦ rw (a, blank, b, blank) refl
      | inr b ↦ rw (a, blank, b) (read_back name d free)
    ]
    | inr full ↦ elim (Bool-cases (key == name)) [
      | inl b ↦ rw (a, full, b, full) refl
      | inr b ↦ rw (a, full, b) (read_back name d free)
    ]
  ]
]

faithful : IsFaithful platform (some texts) "generic"
faithful = record {
  severity = λ d. read_back "severity" d refl;
  category = λ d. read_back "category" d refl;
}

abbrev nothing : Memory
nothing = record { hashes = λ id. []; members = λ k. []; waiting = []; entries = []; count = 0 }

abbrev suggestion : String → GenericInsertSuggestion
suggestion severity = record {
  domain = "";
  domain_fields = ("severity", text_value severity) ∷ [];
  resolution_payload = none;
  sim_swarm_id = none;
  sim_distribution = none;
}

abbrev two : List GenericInsertSuggestion
two = suggestion "info" ∷ suggestion "critical" ∷ []

abbrev stored : Memory
stored = (insert_many platform (some texts) "generic" memory_redis two 5 nothing).0

abbrev seen : Memory
seen = (review platform (some texts) "generic" memory_redis "11" true none 6 stored).0

seen-Reachable : Reachable platform (some texts) "generic" memory_redis seen
seen-Reachable = was_reviewed "11" true none 6 stored (
    inserted_many two 5 nothing (
      at_first nothing (record {
        fields = λ m name. refl;
        indexes = λ k m. refl;
        pendings = λ m. refl;
        feedbacks = refl;
      })))

Reachable-IsKept_example : IsKept platform memory_redis (memory_redis.counter seen) seen
Reachable-IsKept_example =
    Reachable-IsKept platform (some texts) "generic" memory_redis promise seen seen-Reachable

seen-IsKept : IsKept platform memory_redis (memory_redis.counter seen) seen
seen-IsKept =
    Reachable-IsKept platform (some texts) "generic" memory_redis promise seen seen-Reachable

abbrev ranking : (m : Memory) → Ranking memory_redis m
ranking m = record {
  zrevrange = λ k start stop. take (stop + 1 - start) (drop start (m.members k));
  zcard = λ k. length (m.members k);
  ranked = λ k. m.members k;
  zrevrange_law = λ k start stop. refl;
  zcard_law = λ k. refl;
  ranked_law = λ k id. refl;
}

abbrev open_critical : ListFilters
open_critical = record {
  reviewed_is = some false;
  severity_is = some "critical";
  category_is = none;
}

pending_critical : seen.members (severity_index pending "critical") ≡ "111" ∷ []
unfolding insert_many enqueue_writes enqueue_write to_hash serialize_domain_fields review to_row
    index_suggestion unindex_suggestion zadd_scopes zrem_scopes
pending_critical = refl

abbrev pending_index : IndexKey
pending_index = severity_index pending "critical"

few_pending : length ((ranking seen).ranked pending_index) < 2
few_pending = omega (arith, ap length pending_critical)

scan_filtered_index_exact_example :
    scan_filtered_index platform
      (some texts)
      "generic"
      memory_redis
      seen
      (ranking seen)
      2
      pending_index
      open_critical
      0
      20
    ≡ some (
      page_of 0 20 (
          matching platform
            (some texts)
            "generic"
            memory_redis
            seen
            open_critical
            ((ranking seen).ranked pending_index)),
      length (
          matching platform
            (some texts)
            "generic"
            memory_redis
            seen
            open_critical
            ((ranking seen).ranked pending_index)),
    )
scan_filtered_index_exact_example =
    scan_filtered_index_exact platform (some texts) "generic" memory_redis seen (ranking seen)
      pending_index open_critical 0 20 2 few_pending

list-IsPage_example :
    IsPage platform
      (some texts)
      "generic"
      memory_redis
      seen
      (memory_redis.counter seen)
      seen-IsKept
      faithful
      open_critical
      (ranking seen)
      1
      20
      (list platform
        (some texts)
        "generic"
        memory_redis
        seen
        (ranking seen)
        2
        open_critical
        none
        none)
list-IsPage_example =
    list-IsPage platform (some texts) "generic" memory_redis seen (memory_redis.counter seen)
      seen-IsKept faithful open_critical (ranking seen) 2 none none few_pending

abbrev third : Memory
third = (insert_generic platform (some texts) "generic" memory_redis (suggestion "info") 8 seen).0

all_two : seen.members legacy_index ≡ "111" ∷ "11" ∷ []
unfolding insert_many enqueue_writes enqueue_write to_hash serialize_domain_fields review to_row
    index_suggestion unindex_suggestion zadd_scopes zrem_scopes
all_two = refl

few_in_all : length ((ranking seen).ranked legacy_index) < 3
few_in_all = omega (arith, ap length all_two)

get_stats-AreCounts_example :
    (stats : Stats) × (get_stats memory_redis seen (ranking seen) 3 1 ≡ some stats)
    × AreCounts memory_redis seen (ranking seen) stats
get_stats-AreCounts_example = get_stats-AreCounts memory_redis seen (ranking seen) 3 1 few_in_all
