-- ===== src/Conversion/Find.antt =====
-- ChainStorage.FindConversionChain of pkg/webhook/conversion/chain.go. The loop, which ends when it finds nothing new,
-- runs on fuel. `append` copies a path of one or two rules, whose slice is full; a longer one may share its array
-- with other paths, and there the model stops.
use shell_operator.Base.{
  length, ltb, any, ℕ, suc, zero, Bool, ◌==◌, string_key, if◌then◌else◌, Option, none, some, ◌&&◌,
  List, [], ◌∷◌, ◌++◌, String, lookup, insert, not,
}
use shell_operator.Counter.{is_empty}
use shell_operator.Conversion.{
  Rule, Chain, Walks, rule_key, path_of, search_path_for_rule, rules_with_similar_from_version,
  next_rules, has_target_version, empty_chain,
}
use shell_operator.Conversion.Versions.{trim_group}

abbrev pub Paths : Type 0
Paths = List (Rule × List Rule)

-- The rule from the version that is asked for to the next target.
abbrev pub new_rule : Rule → Rule → Rule
new_rule rule next = record { from_version = rule.from_version; to_version = next.to_version }

abbrev pub is_loop : Rule → Rule → Bool
is_loop rule r = trim_group r.to_version == trim_group rule.from_version

abbrev pub is_news : Walks → Rule → Chain → Rule → Bool
is_news world rule c next =
    not (is_loop rule (new_rule rule next))
    && is_empty (search_path_for_rule world (new_rule rule next) c)

-- The inner loop, over the rules that go on from one cached path.
unfoldable pub extend_path : Walks → Rule → Chain → Rule → List Rule → Paths → Paths
extend_path world rule c checked [] paths = paths
extend_path world rule c checked (next ∷ ns) paths = extend_path world rule c checked ns (
    if is_news world rule c next
    then insert (new_rule rule next) (path_of checked c ++ next ∷ []) paths
    else paths)

-- The outer loop, over the cached paths that start from a similar version.
unfoldable pub extend_paths : Walks → Rule → Chain → List Rule → Paths → Paths
unfolding extend_path
extend_paths world rule c [] paths = paths
extend_paths world rule c (checked ∷ cs) paths = extend_paths world rule c cs (
    if is_loop rule checked
    then paths
    else extend_path world rule c checked
        (next_rules world checked.to_version (world.range_index c.base_from_to_index)) paths)

unfoldable pub new_paths : Walks → Rule → Chain → Paths
unfolding extend_paths
new_paths world rule c =
    extend_paths world rule c
      (rules_with_similar_from_version rule (world.range_paths c.paths_cache)) []

unfoldable pub add_paths : Paths → Chain → Chain
add_paths [] c = c
add_paths ((k, p) ∷ ps) c = add_paths ps (record c { paths_cache = insert k p c.paths_cache })

-- A round goes on from a cached path of three or more rules.
unfoldable pub goes_on_from_long : Walks → Rule → Chain → Bool
goes_on_from_long world rule c =
    any (λ k. not (is_loop rule k) && not (ltb (length (path_of k c)) 3))
      (rules_with_similar_from_version rule (world.range_paths c.paths_cache))

-- A path, which is empty for none; `may_share` if a round is to extend a path of three or more rules; `no_fuel` if the
-- fuel runs out.
pub data FoundPath : Type 0 where
  path : List Rule → FoundPath
  may_share no_fuel : FoundPath

unfoldable pub find_loop : ℕ → Walks → Rule → Chain → FoundPath × Chain
unfolding search_path_for_rule new_paths add_paths
find_loop zero world rule c = (no_fuel, c)
find_loop (suc n) world rule c =
    let found = search_path_for_rule world rule c in
    let news = new_paths world rule c in
    let rest = find_loop n world rule (add_paths news c) in
    if not (is_empty found)
    then (path found, c)
    else if goes_on_from_long world rule c
    then (may_share, c)
    else if is_empty news
    then (path [], c)
    else rest

-- The storage of the chains, by the names of the custom resources.
abbrev pub ChainStorage : Type 0
ChainStorage = List (String × Chain)

-- Get makes a missing chain.
unfoldable pub get_chain : String → ChainStorage → Chain × ChainStorage
get_chain crd cs = elim (lookup crd cs) [
  | none ↦ (empty_chain, insert crd empty_chain cs)
  | some c ↦ (c, cs)
]

abbrev pub find_in :
    ℕ → Walks → String → Rule → Option Chain → ChainStorage → FoundPath × ChainStorage
find_in fuel world crd rule none cs = (path [], cs)
find_in fuel world crd rule (some c) cs =
    if has_target_version rule.to_version c.base_from_to_index
    then (let (p, c') = find_loop fuel world rule c in (p, insert crd c' cs))
    else (path [], cs)

unfoldable pub find_conversion_chain :
    ℕ → Walks → String → Rule → ChainStorage → FoundPath × ChainStorage
unfolding find_loop
find_conversion_chain fuel world crd rule cs = find_in fuel world crd rule (lookup crd cs) cs
