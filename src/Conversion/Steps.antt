-- ===== src/Conversion/Steps.antt =====
-- The searches and walks of pkg/webhook/conversion/chain.go: what they find.
use shell_operator.Base.{
  ◌≡◌, Bool, ◌==◌, string_key, Option, none, some, true, false, ◌&&◌, ◌||◌, List, [], ◌∷◌, ◌++◌,
  String, lookup, any, any-perm, All, All-append, refl, sym, arith, eq_iff, Bool-cases,
  Option-cases, inl, inr, ap, ◌∙◌, subst,
}
use shell_operator.Contexts.Grouped.{IsRangeOrder}
use shell_operator.Conversion.{
  Rule, Chain, Walks, Targets, rule_key, rule_same_iff, Search, exact, similar, search_keys, prefer,
  choose, first_or, path_at, search_path_for_rule, rules_with_similar_from_version, next_rules,
  rules_from, is_similar, add_if, is_full_from, is_full_to,
}
use shell_operator.Conversion.Versions.{
  trim_group, occurs_in, versions_matched, versions_matched-short,
}

-- Behind their groups, the versions of two rules are the same.
abbrev pub IsNear : Rule → Rule → Type 0
IsNear rule k =
    (trim_group k.from_version ≡ trim_group rule.from_version)
    × (trim_group k.to_version ≡ trim_group rule.to_version)

similar-IsNear : (rule k : Rule) → is_similar rule k ≡ true → IsNear rule k
similar-IsNear rule k h = (
  sym (versions_matched-short rule.from_version k.from_version (ground arith)),
  sym (versions_matched-short rule.to_version k.to_version (ground arith)),
)

abbrev AllNear : Rule → Search → Type 0
AllNear rule (exact k) = IsNear rule k
AllNear rule (similar ks) = All (IsNear rule) ks

search_keys-AllNear :
    (rule : Rule) (m : List (Rule × List Rule)) (keys : List Rule)
    → All (IsNear rule) keys
    → AllNear rule (search_keys rule m keys)
unfolding search_keys
search_keys-AllNear rule [] keys h = h
search_keys-AllNear rule ((k, p) ∷ m) keys h =
    elim (Bool-cases (rule.to_version == k.to_version && (rule.from_version == k.from_version))) [
      | inl e ↦
          rw (e, search_keys)
            (
              ap trim_group (ground (arith, eq_iff rule.from_version k.from_version)),
              ap trim_group (ground (arith, eq_iff rule.to_version k.to_version)),
            )
      | inr e ↦ elim (Bool-cases (is_similar rule k)) [
        | inl s ↦
            rw (e, s, search_keys)
              (search_keys-AllNear rule m (keys ++ k ∷ [])
                (All-append (IsNear rule) keys (k ∷ []) h (similar-IsNear rule k s, tt)))
        | inr s ↦ rw (e, s, search_keys) (search_keys-AllNear rule m keys h)
      ]
    ]

All-first_or : (P : Rule → Type 0) (ks : List Rule) (k : Rule) → All P ks → P k → P (first_or ks k)
All-first_or P [] k h p = p
All-first_or P (x ∷ ks) k h p = h.0

All-add_if :
    (P : Rule → Type 0) (b : Bool) (k : Rule) (ks : List Rule)
    → P k
    → All P ks
    → All P (add_if b k ks)
All-add_if P true k ks p h = All-append P ks (k ∷ []) h (p, tt)
All-add_if P false k ks p h = h

prefer-All :
    (P : Rule → Type 0) (rule k : Rule) (ks fs ts : List Rule)
    → P k
    → All P ks
    → All P fs
    → All P ts
    → P (prefer rule k ks fs ts)
unfolding prefer
prefer-All P rule k [] fs ts p h f t = All-first_or P ts (first_or fs k) t (All-first_or P fs k f p)
prefer-All P rule k (x ∷ ks) fs ts p h f t =
    elim (Bool-cases (is_full_from rule x && is_full_to rule x)) [
      | inl e ↦ rw (e, prefer) h.0
      | inr e ↦
          rw (e, prefer)
            (prefer-All P rule k ks (add_if (is_full_from rule x) x fs)
              (add_if (is_full_to rule x) x ts) p h.1
              (All-add_if P (is_full_from rule x) x fs h.0 f)
              (All-add_if P (is_full_to rule x) x ts h.0 t))
    ]

choose-IsNear :
    (rule : Rule) (s : Search) (k : Rule) → AllNear rule s → choose rule s ≡ some k → IsNear rule k
choose-IsNear rule (exact l) k h e = subst (IsNear rule) (ground arith) h
choose-IsNear rule (similar []) k h e = absurd (ground arith)
choose-IsNear rule (similar (l ∷ [])) k h e = subst (IsNear rule) (ground arith) h.0
choose-IsNear rule (similar (l ∷ m ∷ ks)) k h e =
    subst (IsNear rule) (ground arith)
      (prefer-All (IsNear rule) rule l (l ∷ m ∷ ks) [] [] h.0 h tt tt)

path_at-found :
    (o : Option Rule) (c : Chain) (r : Rule) (rs : List Rule)
    → path_at o c ≡ r ∷ rs
    → (k : Rule) × (o ≡ some k) × (lookup k c.paths_cache ≡ some (r ∷ rs))
path_at-found none c r rs h = absurd (ground arith)
path_at-found (some k) c r rs h = elim (Option-cases (lookup k c.paths_cache)) [
  | inl e ↦ absurd (ground arith)
  | inr (p, e) ↦ (k, refl, ground arith)
]

pub search_path-eq :
    (world : Walks) (rule : Rule) (c : Chain)
    → search_path_for_rule world rule c
      ≡ path_at (choose rule (search_keys rule (world.range_paths c.paths_cache) [])) c
unfolding search_path_for_rule
search_path-eq world rule c = refl

-- SearchPathForRule answers the path of a cached rule that is near the one asked for, or nothing.
pub search_path-found :
    (world : Walks) (rule : Rule) (c : Chain) (r : Rule) (rs : List Rule)
    → search_path_for_rule world rule c ≡ r ∷ rs
    → (k : Rule) × IsNear rule k × (lookup k c.paths_cache ≡ some (r ∷ rs))
search_path-found world rule c r rs h =
    let keys = search_keys rule (world.range_paths c.paths_cache) [] in
    let (k, e, l) =
      path_at-found (choose rule keys) c r rs (sym (search_path-eq world rule c) ∙ h) in
    (
      k,
      choose-IsNear rule keys k (search_keys-AllNear rule (world.range_paths c.paths_cache) [] tt)
          e,
      l,
    )

-- The key is in a list of entries.
abbrev pub in_entries : Rule → List (Rule × List Rule) → Bool
in_entries k = any (λ e. rule_key.same e.0 k)

in_entries-lookup :
    (k : Rule) (m : List (Rule × List Rule))
    → in_entries k m ≡ true
    → (p : List Rule) × (lookup k m ≡ some p)
in_entries-lookup k [] h = absurd (ground arith)
in_entries-lookup k ((j, p) ∷ m) h = elim (Bool-cases (rule_key.same j k)) [
  | inl e ↦ (p, ground arith)
  | inr e ↦ let (q, l) = in_entries-lookup k m (ground arith) in (q, ground arith)
]

-- The cached keys from a similar version.
abbrev pub IsStart : Rule → Chain → Rule → Type 0
IsStart rule c k =
    (trim_group k.from_version ≡ trim_group rule.from_version)
    × ((p : List Rule) × (lookup k c.paths_cache ≡ some p))

IsEntry : Rule → List (Rule × List Rule) → Rule → Type 0
IsEntry rule m k =
    (trim_group k.from_version ≡ trim_group rule.from_version) × (in_entries k m ≡ true)

All-weaken : (P Q : Rule → Type 0) (ks : List Rule) → ((k : Rule) → P k → Q k) → All P ks → All Q ks
All-weaken P Q [] f h = tt
All-weaken P Q (k ∷ ks) f h = (f k h.0, All-weaken P Q ks f h.1)

similar_from-IsEntry :
    (rule : Rule) (m : List (Rule × List Rule))
    → All (IsEntry rule m) (rules_with_similar_from_version rule m)
unfolding rules_with_similar_from_version IsEntry
similar_from-IsEntry rule [] = tt
similar_from-IsEntry rule ((k, p) ∷ m) =
    let rest : All (IsEntry rule ((k, p) ∷ m)) (rules_with_similar_from_version rule m) =
      All-weaken (IsEntry rule m) (IsEntry rule ((k, p) ∷ m))
        (rules_with_similar_from_version rule m) (λ j h. (h.0, ground (arith, h.1)))
        (similar_from-IsEntry rule m) in
    elim (Bool-cases (versions_matched k.from_version rule.from_version)) [
      | inl e ↦
          rw (e, rules_with_similar_from_version)
            (
              (
                versions_matched-short k.from_version rule.from_version e,
                ground (arith, rule_same_iff k k),
              ),
              rest,
            )
      | inr e ↦ rw (e, rules_with_similar_from_version) rest
    ]

-- RulesWithSimilarFromVersion answers cached keys whose source version is near, in any order of the walk.
pub similar_from-IsStart :
    (world : Walks) (rule : Rule) (c : Chain)
    → IsRangeOrder world.range_paths
    → All (IsStart rule c) (rules_with_similar_from_version rule (world.range_paths c.paths_cache))
unfolding IsEntry
similar_from-IsStart world rule c walks =
    All-weaken (IsEntry rule (world.range_paths c.paths_cache)) (IsStart rule c)
      (rules_with_similar_from_version rule (world.range_paths c.paths_cache))
      (λ k h. (
        h.0,
        in_entries-lookup k c.paths_cache
            (sym (any-perm (λ e. rule_key.same e.0 k) (walks c.paths_cache)) ∙ h.1),
      ))
      (similar_from-IsEntry rule (world.range_paths c.paths_cache))

-- A base rule: the index leads from its source version to its target.
abbrev pub has_target : String → Targets → Bool
has_target t = any (λ e. e.0 == t)

abbrev pub is_base : List (String × Targets) → Rule → Bool
is_base m r = any (λ e. e.0 == r.from_version && has_target r.to_version e.1) m

abbrev IsBaseIn : List (String × Targets) → Rule → Type 0
IsBaseIn m r = is_base m r ≡ true

rules_from-All :
    (k : String) (ts us : Targets)
    → ((t : String) → has_target t us ≡ true → has_target t ts ≡ true)
    → All (λ r. (r.from_version ≡ k) × (has_target r.to_version ts ≡ true)) (rules_from k us)
rules_from-All k ts [] f = tt
rules_from-All k ts ((t, u) ∷ us) f =
    ((refl, f t (ground (arith, eq_iff t t))), rules_from-All k ts us (λ s h. f s (ground arith)))

next_rules-IsBaseIn :
    (world : Walks) (from : String) (m : List (String × Targets))
    → IsRangeOrder world.range_targets
    → All (IsBaseIn m) (next_rules world from m)
unfolding next_rules
next_rules-IsBaseIn world from [] walks = tt
next_rules-IsBaseIn world from ((k, ts) ∷ m) walks =
    let rest : All (IsBaseIn ((k, ts) ∷ m)) (next_rules world from m) =
      All-weaken (IsBaseIn m) (IsBaseIn ((k, ts) ∷ m)) (next_rules world from m)
        (λ r h. ground (arith, h)) (next_rules-IsBaseIn world from m walks) in
    let now : All (IsBaseIn ((k, ts) ∷ m)) (rules_from k (world.range_targets ts)) =
      All-weaken (λ r. (r.from_version ≡ k) × (has_target r.to_version ts ≡ true))
        (IsBaseIn ((k, ts) ∷ m)) (rules_from k (world.range_targets ts))
        (λ r h. ground (arith, h.0, h.1, eq_iff k r.from_version))
        (rules_from-All k ts (world.range_targets ts)
          (λ t h. sym (any-perm (λ e. e.0 == t) (walks ts)) ∙ h)) in
    elim (Bool-cases (k == from || occurs_in (trim_group from) k)) [
      | inl e ↦
          rw (e, next_rules)
            (All-append (IsBaseIn ((k, ts) ∷ m)) (rules_from k (world.range_targets ts))
              (next_rules world from m) now rest)
      | inr e ↦ rw (e, next_rules) rest
    ]

-- NextRules answers base rules only, in any order of the walks.
pub next_rules-base :
    (world : Walks) (from : String) (m : List (String × Targets))
    → IsRangeOrder world.range_index
    → IsRangeOrder world.range_targets
    → All (λ r. is_base m r ≡ true) (next_rules world from (world.range_index m))
next_rules-base world from m walks targets =
    All-weaken (IsBaseIn (world.range_index m)) (IsBaseIn m)
      (next_rules world from (world.range_index m))
      (λ r h.
        sym (any-perm (λ e. e.0 == r.from_version && has_target r.to_version e.1) (walks m)) ∙ h)
      (next_rules-IsBaseIn world from (world.range_index m) targets)
