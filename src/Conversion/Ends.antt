-- ===== src/Conversion/Ends.antt =====
-- A round of the loop of ChainStorage.FindConversionChain (pkg/webhook/conversion/chain.go) that goes on caches
-- paths to target versions that had none.
use shell_operator.Base.{
  ℕ, ◌≡◌, Bool, ◌==◌, string_key, some, true, false, ◌&&◌, ◌||◌, List, [], ◌∷◌, ◌++◌, String, ◌≤◌,
  ◌<◌, lookup, insert, has_key, map, length, keep, any, any-append, any-perm, All, refl, sym, arith,
  eq_iff, Bool-cases, Option-cases, inl, inr, ap, ◌∙◌, not, lookup-insert,
}
use shell_operator.Counter.{is_empty}
use shell_operator.Contexts.Grouped.{IsRangeOrder}
use shell_operator.Conversion.{
  Rule, Chain, Walks, Targets, rule_key, rule_same_iff, path_of, search_keys, exact, choose,
  path_at, or_empty, search_path_for_rule, rules_with_similar_from_version, next_rules,
}
use shell_operator.Conversion.Find.{
  Paths, new_rule, is_loop, is_news, extend_path, extend_paths, new_paths, add_paths,
}
use shell_operator.Conversion.Steps.{
  has_target, is_base, next_rules-base, in_entries, search_path-eq,
}
use shell_operator.Conversion.Sound.{IsSoundCache}

-- All target versions of the base rules.
unfoldable pub targets_of : List (String × Targets) → List String
targets_of [] = []
targets_of ((k, ts) ∷ m) = map (λ e. e.0) ts ++ targets_of m

has_target-any :
    (t : String) (ts : Targets) → has_target t ts ≡ any (λ s. s == t) (map (λ e. e.0) ts)
has_target-any t [] = refl
has_target-any t ((s, u) ∷ ts) = ground (arith, has_target-any t ts)

is_base-target :
    (m : List (String × Targets)) (r : Rule)
    → is_base m r ≡ true
    → any (λ s. s == r.to_version) (targets_of m) ≡ true
unfolding targets_of
is_base-target [] r h = absurd (ground arith)
is_base-target ((k, ts) ∷ m) r h = ground (
  arith,
  is_base-target m r,
  any-append (λ s. s == r.to_version) (map (λ e. e.0) ts) (targets_of m),
  has_target-any r.to_version ts,
)

abbrev pub rule_to : Rule → String → Rule
rule_to rule t = record { from_version = rule.from_version; to_version = t }

-- The target has no path from the version that is asked for.
abbrev pub is_missing : Rule → Paths → String → Bool
is_missing rule m t = not (has_key (rule_to rule t) m)

abbrev pub missing_targets : Rule → Chain → ℕ
missing_targets rule c =
    length (keep (is_missing rule c.paths_cache) (targets_of c.base_from_to_index))

keep_less :
    (p q : String → Bool) (ts : List String)
    → ((t : String) → p t ≡ true → q t ≡ true)
    → length (keep p ts) ≤ length (keep q ts)
keep_less p q [] f = omega arith
keep_less p q (t ∷ ts) f = ground (arith, f t, keep_less p q ts f)

pub keep_fewer :
    (p q : String → Bool) (s : String) (ts : List String)
    → ((t : String) → p t ≡ true → q t ≡ true)
    → p s ≡ false
    → q s ≡ true
    → any (λ t. t == s) ts ≡ true
    → length (keep p ts) < length (keep q ts)
keep_fewer p q s [] f a b h = absurd (ground arith)
keep_fewer p q s (t ∷ ts) f a b h = elim (Bool-cases (t == s)) [
  | inl e ↦
      let same : t ≡ s = ground (arith, eq_iff t s) in
      let a' : p t ≡ false = ap p same ∙ a in
      let b' : q t ≡ true = ap q same ∙ b in ground (arith, a', b', keep_less p q ts f)
  | inr e ↦ ground (arith, f t, keep_fewer p q s ts f a b (ground arith))
]

-- A path that is cached for a rule is found for it.
search_keys-exact :
    (rule : Rule) (m : Paths) (keys : List Rule)
    → in_entries rule m ≡ true
    → search_keys rule m keys ≡ exact rule
unfolding search_keys
search_keys-exact rule [] keys h = absurd (ground arith)
search_keys-exact rule ((k, p) ∷ m) keys h =
    elim (Bool-cases (rule.to_version == k.to_version && (rule.from_version == k.from_version))) [
      | inl e ↦
          rw (e, search_keys)
            (ap exact (
              (rule_same_iff k rule).0 (
                ground (
                  arith,
                  eq_iff rule.to_version k.to_version,
                  eq_iff rule.from_version k.from_version,
                  eq_iff k.to_version rule.to_version,
                  eq_iff k.from_version rule.from_version,
                ))))
      | inr e ↦
          rw (e, search_keys)
            (search_keys-exact rule m _ (
              ground (
                arith,
                eq_iff rule.to_version k.to_version,
                eq_iff rule.from_version k.from_version,
                eq_iff k.to_version rule.to_version,
                eq_iff k.from_version rule.from_version,
              )))
    ]

lookup-in_entries : (k : Rule) (m : Paths) → has_key k m ≡ in_entries k m
lookup-in_entries k [] = refl
lookup-in_entries k ((j, p) ∷ m) = ground (arith, lookup-in_entries k m)

cached_found :
    (world : Walks) (rule : Rule) (c : Chain)
    → IsRangeOrder world.range_paths
    → IsSoundCache c
    → has_key rule c.paths_cache ≡ true
    → is_empty (search_path_for_rule world rule c) ≡ false
cached_found world rule c wp v h = elim (Option-cases (lookup rule c.paths_cache)) [
  | inl e ↦ absurd (ground arith)
  | inr (p, e) ↦
      let (r, rs, q, s) = (v rule p e).starts in
      let walked : in_entries rule (world.range_paths c.paths_cache) ≡ true =
        any-perm (λ x. rule_key.same x.0 rule) (wp c.paths_cache)
        ∙ sym (lookup-in_entries rule c.paths_cache)
        ∙ h in
      ap is_empty (
        search_path-eq world rule c
        ∙ ap (λ x. path_at (choose rule x) c)
            (search_keys-exact rule (world.range_paths c.paths_cache) [] walked)
        ∙ ap or_empty (e ∙ ap some q))
]

-- A new path is for a rule from the version that is asked for to some target, and that rule had none.
abbrev pub IsNew : Rule → Chain → Rule → Type 0
IsNew rule c k =
    (k.from_version ≡ rule.from_version)
    × (has_key k c.paths_cache ≡ false)
    × (any (λ s. s == k.to_version) (targets_of c.base_from_to_index) ≡ true)

abbrev pub AllNew : Rule → Chain → Paths → Type 0
AllNew rule c = All (λ e. IsNew rule c e.0)

All-insert_key :
    (P : Rule → Type 0) (k : Rule) (p : List Rule) (ps : Paths)
    → P k
    → All (λ e. P e.0) ps
    → All (λ e. P e.0) (insert k p ps)
unfolding insert
All-insert_key P k p [] v h = (v, tt)
All-insert_key P k p ((j, q) ∷ ps) v h = elim (Bool-cases (rule_key.same j k)) [
  | inl e ↦ rw (e, insert) (v, h.1)
  | inr e ↦ rw (e, insert) (h.0, All-insert_key P k p ps v h.1)
]

module _ (world : Walks) (rule : Rule) (c : Chain) (wp : IsRangeOrder world.range_paths)
    (v : IsSoundCache c) where
  news-IsNew :
      (n : Rule)
      → is_news world rule c n ≡ true
      → is_base c.base_from_to_index n ≡ true
      → IsNew rule c (new_rule rule n)
  news-IsNew n h b = (
    refl,
    elim (Bool-cases (has_key (new_rule rule n) c.paths_cache)) [
      | inl e ↦ absurd (ground (arith, cached_found world (new_rule rule n) c wp v e))
      | inr e ↦ e
    ],
    is_base-target c.base_from_to_index n b,
  )

  extend_path-AllNew :
      (k : Rule) (ns : List Rule) (ps : Paths)
      → All (λ r. is_base c.base_from_to_index r ≡ true) ns
      → AllNew rule c ps
      → AllNew rule c (extend_path world rule c k ns ps)
  unfolding extend_path
  extend_path-AllNew k [] ps b h = h
  extend_path-AllNew k (n ∷ ns) ps b h = elim (Bool-cases (is_news world rule c n)) [
    | inl i ↦
        rw (i, extend_path)
          (extend_path-AllNew k ns (insert (new_rule rule n) (path_of k c ++ n ∷ []) ps) b.1 (
            All-insert_key (IsNew rule c) (new_rule rule n) (path_of k c ++ n ∷ []) ps
              (news-IsNew n i b.0) h))
    | inr i ↦ rw (i, extend_path) (extend_path-AllNew k ns ps b.1 h)
  ]

  extend_paths-AllNew :
      (ks : List Rule) (ps : Paths)
      → IsRangeOrder world.range_index
      → IsRangeOrder world.range_targets
      → AllNew rule c ps
      → AllNew rule c (extend_paths world rule c ks ps)
  unfolding extend_paths
  extend_paths-AllNew [] ps wi wt h = h
  extend_paths-AllNew (k ∷ ks) ps wi wt h = elim (Bool-cases (is_loop rule k)) [
    | inl l ↦ rw (l, extend_paths) (extend_paths-AllNew ks ps wi wt h)
    | inr l ↦
        let nexts = next_rules world k.to_version (world.range_index c.base_from_to_index) in
        rw (l, extend_paths)
          (extend_paths-AllNew ks (extend_path world rule c k nexts ps) wi wt (
            extend_path-AllNew k nexts ps
              (next_rules-base world k.to_version c.base_from_to_index wi wt) h))
  ]

  pub new_paths-AllNew :
      IsRangeOrder world.range_index
      → IsRangeOrder world.range_targets
      → AllNew rule c (new_paths world rule c)
  unfolding new_paths
  new_paths-AllNew wi wt =
      extend_paths-AllNew (rules_with_similar_from_version rule (world.range_paths c.paths_cache))
        [] wi wt tt

-- What is cached stays cached, and the first new path is cached.
has_key-insert :
    (k j : Rule) (p : List Rule) (m : Paths)
    → has_key k (insert j p m) ≡ (rule_key.same j k || has_key k m)
has_key-insert k j p m = ground (arith, lookup-insert j k p m)

pub add_paths-has_key :
    (k : Rule) (ps : Paths) (c : Chain)
    → has_key k c.paths_cache ≡ true
    → has_key k (add_paths ps c).paths_cache ≡ true
unfolding add_paths
add_paths-has_key k [] c h = h
add_paths-has_key k ((j, p) ∷ ps) c h =
    add_paths-has_key k ps (record c { paths_cache = insert j p c.paths_cache })
      (has_key-insert k j p c.paths_cache ∙ ground (arith, h))

pub add_paths-first :
    (k : Rule) (p : List Rule) (ps : Paths) (c : Chain)
    → has_key k (add_paths ((k, p) ∷ ps) c).paths_cache ≡ true
unfolding add_paths
add_paths-first k p ps c =
    add_paths-has_key k ps (record c { paths_cache = insert k p c.paths_cache })
      (has_key-insert k k p c.paths_cache ∙ ground (arith, rule_same_iff k k))
