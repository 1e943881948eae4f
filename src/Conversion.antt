-- ===== src/Conversion.antt =====
-- pkg/webhook/conversion/chain.go and Rule of pkg/webhook/conversion/config.go: chains of the conversion rules of a
-- custom resource. `append` is taken to copy, where the source may let paths of three rules and more share an array.
pub mod Versions
pub mod Find
pub mod Steps
pub mod Sound
pub mod Ends
pub mod Fuel
pub mod Puts
pub mod Answers
mod Tests
use shell_operator.Base.{
  ◌↔◌, ◌≡◌, Bool, ◌==◌, string_key, if◌then◌else◌, Option, none, some, true, false, ◌&&◌, ◌||◌,
  arith, eq_iff, List, [], ◌∷◌, ◌++◌, String, lookup, insert, map, Key, any, ◌≡◌,
}
use shell_operator.Conversion.Versions.{trim_group, versions_matched, occurs_in, has_group}

pub record Rule : Type 0 where
  pub from_version : String
  pub to_version : String

abbrev pub rule_same : Rule → Rule → Bool
rule_same r s = r.from_version == s.from_version && (r.to_version == s.to_version)

pub rule_same_iff : (r s : Rule) → (rule_same r s ≡ true) ↔ (r ≡ s)
rule_same_iff r s =
    ground (arith, eq_iff r.from_version s.from_version, eq_iff r.to_version s.to_version)

instance abbrev pub rule_key : Key Rule
rule_key = record { same = rule_same; same_iff = rule_same_iff }

abbrev pub Targets : Type 0
Targets = List (String × Unit {0})

-- A Go map from rules to paths, and one from source versions to sets of target versions.
pub record Chain : Type 0 where
  pub paths_cache : List (Rule × List Rule)
  pub base_from_to_index : List (String × Targets)

-- The orders in which Go walks the maps.
pub record Walks : Type 0 where
  pub range_paths : List (Rule × List Rule) → List (Rule × List Rule)
  pub range_index : List (String × Targets) → List (String × Targets)
  pub range_targets : Targets → Targets

abbrev pub empty_chain : Chain
empty_chain = record { paths_cache = []; base_from_to_index = [] }

abbrev pub or_empty : {A : Type 0} → Option (List A) → List A
or_empty none = []
or_empty (some xs) = xs

unfoldable pub put : Rule → Chain → Chain
put rule c = record {
  paths_cache = insert rule (rule ∷ []) c.paths_cache;
  base_from_to_index =
      insert rule.from_version
        (insert rule.to_version tt (or_empty (lookup rule.from_version c.base_from_to_index)))
        c.base_from_to_index;
}

-- A missing key reads as an empty path.
abbrev pub path_of : Rule → Chain → List Rule
path_of k c = or_empty (lookup k c.paths_cache)

-- The walk over the cache: an exact match ends it, the keys that match are collected.
pub data Search : Type 0 where
  exact : Rule → Search
  similar : List Rule → Search

abbrev pub is_similar : Rule → Rule → Bool
is_similar rule k =
    versions_matched rule.to_version k.to_version
    && versions_matched rule.from_version k.from_version

unfoldable pub search_keys : Rule → List (Rule × List Rule) → List Rule → Search
search_keys rule [] keys = similar keys
search_keys rule ((k, p) ∷ m) keys =
    if rule.to_version == k.to_version && (rule.from_version == k.from_version)
    then exact k
    else search_keys rule m (if is_similar rule k then keys ++ k ∷ [] else keys)

abbrev pub first_or : List Rule → Rule → Rule
first_or [] k = k
first_or (x ∷ xs) k = x

abbrev pub is_full_from : Rule → Rule → Bool
is_full_from rule k = has_group rule.from_version && (k.from_version == rule.from_version)

abbrev pub is_full_to : Rule → Rule → Bool
is_full_to rule k = has_group rule.to_version && (k.to_version == rule.to_version)

abbrev pub add_if : Bool → Rule → List Rule → List Rule
add_if b k ks = if b then ks ++ k ∷ [] else ks

-- The stricter of several similar paths: a full target version, then a full source version, then the first.
unfoldable pub prefer : Rule → Rule → List Rule → List Rule → List Rule → Rule
prefer rule fallback [] from_matches to_matches =
    first_or to_matches (first_or from_matches fallback)
prefer rule fallback (k ∷ ks) from_matches to_matches =
    if is_full_from rule k && is_full_to rule k
    then k
    else prefer rule fallback ks (add_if (is_full_from rule k) k from_matches)
        (add_if (is_full_to rule k) k to_matches)

abbrev pub choose : Rule → Search → Option Rule
choose rule (exact k) = some k
choose rule (similar []) = none
choose rule (similar (k ∷ [])) = some k
choose rule (similar (k ∷ l ∷ ks)) = some (prefer rule k (k ∷ l ∷ ks) [] [])

abbrev pub path_at : Option Rule → Chain → List Rule
path_at none c = []
path_at (some k) c = path_of k c

unfoldable pub search_path_for_rule : Walks → Rule → Chain → List Rule
unfolding search_keys prefer
search_path_for_rule world rule c =
    path_at (choose rule (search_keys rule (world.range_paths c.paths_cache) [])) c

unfoldable pub rules_with_similar_from_version : Rule → List (Rule × List Rule) → List Rule
rules_with_similar_from_version rule [] = []
rules_with_similar_from_version rule ((k, p) ∷ m) =
    let rest = rules_with_similar_from_version rule m in
    if versions_matched k.from_version rule.from_version then k ∷ rest else rest

-- The rules from one version to each of its targets.
abbrev pub rules_from : String → Targets → List Rule
rules_from k = map (λ t. record { from_version = k; to_version = t.0 })

unfoldable pub next_rules : Walks → String → List (String × Targets) → List Rule
next_rules world from [] = []
next_rules world from ((k, ts) ∷ m) =
    let rest = next_rules world from m in
    if k == from || occurs_in (trim_group from) k
    then rules_from k (world.range_targets ts) ++ rest
    else rest

unfoldable pub has_target_version : String → List (String × Targets) → Bool
has_target_version target [] = false
has_target_version target ((k, ts) ∷ m) =
    any (λ t. versions_matched target t.0) ts || has_target_version target m
