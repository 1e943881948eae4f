-- ===== src/Conversion/Sound.antt =====
-- The paths that pkg/webhook/conversion/chain.go caches and answers.
use shell_operator.Base.{
  Option-cases, ltb, ◌&&◌, not, length, any, ◌≤◌, ℕ, suc, zero, ◌≡◌, string_key, some, true, false,
  List, [], ◌∷◌, ◌++◌, String, lookup, insert, All, All-append, refl, sym, arith, Bool-cases, inl,
  inr, ap, ◌∙◌, subst, lookup-insert_cases, ◌⊎◌,
}
use shell_operator.Counter.{is_empty}
use shell_operator.Contexts.Grouped.{IsRangeOrder}
use shell_operator.Conversion.{
  Rule, Chain, Walks, Targets, rule_key, path_of, search_path_for_rule,
  rules_with_similar_from_version, next_rules,
}
use shell_operator.Conversion.Find.{
  may_share, goes_on_from_long, path, Paths, new_rule, is_loop, is_news, extend_path, extend_paths,
  new_paths, add_paths, find_loop,
}
use shell_operator.Conversion.Steps.{
  IsNear, search_path-found, IsStart, similar_from-IsStart, is_base, next_rules-base,
}
use shell_operator.Conversion.Versions.{trim_group}

-- A path for a rule: it starts from the rule's source version but for the group, ends at the rule's target, and consists
-- of base rules.
pub record IsPathFor (m : List (String × Targets)) (k : Rule) (p : List Rule) : Type 0 where
  pub starts :
      (r : Rule) × (rs : List Rule) × (p ≡ r ∷ rs)
      × (trim_group r.from_version ≡ trim_group k.from_version)
  pub ends : (rs : List Rule) × (r : Rule) × (p ≡ rs ++ r ∷ []) × (r.to_version ≡ k.to_version)
  pub based : All (λ r. is_base m r ≡ true) p

-- Every cached path is a path for its key.
abbrev pub IsSoundCache : Chain → Type 0
IsSoundCache c =
    (k : Rule) (p : List Rule)
    → lookup k c.paths_cache ≡ some p
    → IsPathFor c.base_from_to_index k p

abbrev AllPaths : List (String × Targets) → Paths → Type 0
AllPaths m = All (λ e. IsPathFor m e.0 e.1)

All-insert_path :
    (m : List (String × Targets)) (k : Rule) (p : List Rule) (ps : Paths)
    → IsPathFor m k p
    → AllPaths m ps
    → AllPaths m (insert k p ps)
unfolding insert
All-insert_path m k p [] v h = (v, tt)
All-insert_path m k p ((j, q) ∷ ps) v h = elim (Bool-cases (rule_key.same j k)) [
  | inl e ↦ rw (e, insert) (v, h.1)
  | inr e ↦ rw (e, insert) (h.0, All-insert_path m k p ps v h.1)
]

-- A path that goes on with a base rule.
longer_path :
    (m : List (String × Targets)) (rule k next : Rule) (p : List Rule)
    → IsPathFor m k p
    → trim_group k.from_version ≡ trim_group rule.from_version
    → is_base m next ≡ true
    → IsPathFor m (new_rule rule next) (p ++ next ∷ [])
longer_path m rule k next p v near base = record {
  starts =
      let (r, rs, e, s) = v.starts in (r, rs ++ next ∷ [], ap (λ q. q ++ next ∷ []) e, s ∙ near);
  ends = (p, next, refl, refl);
  based = All-append (λ r. is_base m r ≡ true) p (next ∷ []) v.based (base, tt);
}

module _ (world : Walks) (rule : Rule) (c : Chain) where
  extend_path-AllPaths :
      (k : Rule) (p : List Rule) (ns : List Rule) (ps : Paths)
      → IsPathFor c.base_from_to_index k p
      → path_of k c ≡ p
      → trim_group k.from_version ≡ trim_group rule.from_version
      → All (λ r. is_base c.base_from_to_index r ≡ true) ns
      → AllPaths c.base_from_to_index ps
      → AllPaths c.base_from_to_index (extend_path world rule c k ns ps)
  unfolding extend_path
  extend_path-AllPaths k p [] ps v e near b h = h
  extend_path-AllPaths k p (n ∷ ns) ps v e near b h = elim (Bool-cases (is_news world rule c n)) [
    | inl i ↦
        rw (i, extend_path)
          (extend_path-AllPaths k p ns (insert (new_rule rule n) (path_of k c ++ n ∷ []) ps) v e
            near b.1
            (All-insert_path c.base_from_to_index (new_rule rule n) (path_of k c ++ n ∷ []) ps
              (longer_path c.base_from_to_index rule k n (path_of k c)
                (subst (IsPathFor c.base_from_to_index k) (sym e) v) near b.0)
              h))
    | inr i ↦ rw (i, extend_path) (extend_path-AllPaths k p ns ps v e near b.1 h)
  ]

  extend_paths-AllPaths :
      (ks : List Rule) (ps : Paths)
      → IsRangeOrder world.range_index
      → IsRangeOrder world.range_targets
      → IsSoundCache c
      → All (IsStart rule c) ks
      → AllPaths c.base_from_to_index ps
      → AllPaths c.base_from_to_index (extend_paths world rule c ks ps)
  unfolding extend_paths
  extend_paths-AllPaths [] ps wi wt v s h = h
  extend_paths-AllPaths (k ∷ ks) ps wi wt v s h = elim (Bool-cases (is_loop rule k)) [
    | inl l ↦ rw (l, extend_paths) (extend_paths-AllPaths ks ps wi wt v s.1 h)
    | inr l ↦
        let (near, (p, e)) = s.0 in
        let nexts = next_rules world k.to_version (world.range_index c.base_from_to_index) in
        rw (l, extend_paths)
          (extend_paths-AllPaths ks (extend_path world rule c k nexts ps) wi wt v s.1 (
            extend_path-AllPaths k p nexts ps (v k p e) (ground (arith, e)) near
              (next_rules-base world k.to_version c.base_from_to_index wi wt) h))
  ]

  pub new_paths-AllPaths :
      IsRangeOrder world.range_paths
      → IsRangeOrder world.range_index
      → IsRangeOrder world.range_targets
      → IsSoundCache c
      → AllPaths c.base_from_to_index (new_paths world rule c)
  unfolding new_paths
  new_paths-AllPaths wp wi wt v =
      extend_paths-AllPaths (rules_with_similar_from_version rule (world.range_paths c.paths_cache))
        [] wi wt v (similar_from-IsStart world rule c wp) tt

pub lookup_rule :
    (j k : Rule) (q p : List Rule) (m : Paths)
    → lookup k (insert j q m) ≡ some p
    → ((j ≡ k) × (q ≡ p)) ⊎ (lookup k m ≡ some p)
lookup_rule j k q p m h = elim (lookup-insert_cases j k q p m h) [ inl a ↦ inl a | inr b ↦ inr b.1 ]

pub add_paths-IsSoundCache :
    (ps : Paths) (c : Chain)
    → AllPaths c.base_from_to_index ps
    → IsSoundCache c
    → IsSoundCache (add_paths ps c) × ((add_paths ps c).base_from_to_index ≡ c.base_from_to_index)
unfolding add_paths
add_paths-IsSoundCache [] c h v = (v, refl)
add_paths-IsSoundCache ((j, q) ∷ ps) c h v =
    add_paths-IsSoundCache ps (record c { paths_cache = insert j q c.paths_cache }) h.1
      (λ k p e. elim (lookup_rule j k q p c.paths_cache e) [
        | inl (a, b) ↦
            subst (λ r. IsPathFor c.base_from_to_index r p) a
              (subst (IsPathFor c.base_from_to_index j) b h.0)
        | inr l ↦ v k p l
      ])

-- A chain for what is asked for: it leads from the source version to the target version, but for their groups, along
-- base rules.
pub record IsChainFor (m : List (String × Targets)) (rule : Rule) (p : List Rule) : Type 0 where
  pub starts :
      (r : Rule) × (rs : List Rule) × (p ≡ r ∷ rs)
      × (trim_group r.from_version ≡ trim_group rule.from_version)
  pub ends :
      (rs : List Rule) × (r : Rule) × (p ≡ rs ++ r ∷ [])
      × (trim_group r.to_version ≡ trim_group rule.to_version)
  pub based : All (λ r. is_base m r ≡ true) p

near_chain :
    (m : List (String × Targets)) (rule k : Rule) (p : List Rule)
    → IsNear rule k
    → IsPathFor m k p
    → IsChainFor m rule p
near_chain m rule k p near v = record {
  starts = let (r, rs, e, s) = v.starts in (r, rs, e, s ∙ near.0);
  ends = let (rs, r, e, s) = v.ends in (rs, r, e, ap trim_group s ∙ near.1);
  based = v.based;
}

-- A path of three or more rules is cached.
abbrev pub HasLongPath : Chain → Type 0
HasLongPath c = (k : Rule) × (p : List Rule) × (lookup k c.paths_cache ≡ some p) × (3 ≤ length p)

long_path :
    (rule : Rule) (c : Chain) (ks : List Rule)
    → any (λ k. not (is_loop rule k) && not (ltb (length (path_of k c)) 3)) ks ≡ true
    → HasLongPath c
long_path rule c [] h = cc
long_path rule c (k ∷ ks) h = elim (Option-cases (lookup k c.paths_cache)) [
  | inl l ↦ long_path rule c ks (ground arith)
  | inr (p, l) ↦ elim (Bool-cases (ltb (length p) 3)) [
    | inl short ↦ long_path rule c ks (ground arith)
    | inr long ↦ (k, p, l, ground arith)
  ]
]

-- One round of the loop.
pub data Round (n : ℕ) (world : Walks) (rule : Rule) (c : Chain) : Type 0 where
  found :
      (r : Rule) (rs : List Rule)
      → search_path_for_rule world rule c ≡ r ∷ rs
      → find_loop (suc n) world rule c ≡ (path (r ∷ rs), c)
      → Round n world rule c
  gives_up : find_loop (suc n) world rule c ≡ (path [], c) → Round n world rule c
  stops : HasLongPath c → find_loop (suc n) world rule c ≡ (may_share, c) → Round n world rule c
  goes_on :
      is_empty (new_paths world rule c) ≡ false
      → find_loop (suc n) world rule c
        ≡ find_loop n world rule (add_paths (new_paths world rule c) c)
      → Round n world rule c

List-cases : (ts : List Rule) → (ts ≡ []) ⊎ ((x : Rule) × (xs : List Rule) × (ts ≡ x ∷ xs))
List-cases [] = inl refl
List-cases (x ∷ xs) = inr (x, xs, refl)

pub round : (n : ℕ) (world : Walks) (rule : Rule) (c : Chain) → Round n world rule c
unfolding find_loop goes_on_from_long
round n world rule c = elim (List-cases (search_path_for_rule world rule c)) [
  | inr (r, rs, e) ↦ found r rs e (rw (e, find_loop) refl)
  | inl e ↦ elim (Bool-cases (goes_on_from_long world rule c)) [
    | inl long ↦
        stops
          (long_path rule c (rules_with_similar_from_version rule (world.range_paths c.paths_cache))
            long)
          (rw (e, long, find_loop) refl)
    | inr short ↦ elim (Bool-cases (is_empty (new_paths world rule c))) [
      | inl none_new ↦ gives_up (rw (e, short, none_new, find_loop) refl)
      | inr some_new ↦ goes_on some_new (rw (e, short, some_new, find_loop) refl)
    ]
  ]
]

-- A chain that FindConversionChain answers leads from the version that is asked for to the target version, but for
-- their groups, along base rules, whatever the orders in which Go walks the maps; and what it adds to the cache keeps
-- every cached path a path for its key.
pub find_loop-IsChainFor :
    (fuel : ℕ) (world : Walks) (rule : Rule) (c c' : Chain) (r : Rule) (rs : List Rule)
    → IsRangeOrder world.range_paths
    → IsRangeOrder world.range_index
    → IsRangeOrder world.range_targets
    → IsSoundCache c
    → find_loop fuel world rule c ≡ (path (r ∷ rs), c')
    → IsChainFor c.base_from_to_index rule (r ∷ rs) × IsSoundCache c'
find_loop-IsChainFor zero world rule c c' r rs wp wi wt v h =
    unfold find_loop in absurd (ground (arith, ap (λ x. x.0) h))
find_loop-IsChainFor (suc n) world rule c c' r rs wp wi wt v h = elim (round n world rule c) [
  | found x xs s e ↦
      let (k, near, l) = search_path-found world rule c x xs s in
      let q : path (x ∷ xs) ≡ path (r ∷ rs) = ap (λ y. y.0) (sym e ∙ h) in
      (
        subst (IsChainFor c.base_from_to_index rule) (ground arith)
            (near_chain c.base_from_to_index rule k (x ∷ xs) near (v k (x ∷ xs) l)),
        subst IsSoundCache (ap (λ y. y.1) (sym e ∙ h)) v,
      )
  | stops _ e ↦
      let q : may_share ≡ path (r ∷ rs) = ap (λ y. y.0) (sym e ∙ h) in absurd (ground arith)
  | gives_up e ↦
      let q : path [] ≡ path (r ∷ rs) = ap (λ y. y.0) (sym e ∙ h) in absurd (ground arith)
  | goes_on s e ↦
      let (v', same_base) =
        add_paths-IsSoundCache (new_paths world rule c) c
          (new_paths-AllPaths world rule c wp wi wt v) v in
      let (a, b) =
        find_loop-IsChainFor n world rule (add_paths (new_paths world rule c) c) c' r rs wp wi wt v'
          (sym e ∙ h) in
      (subst (λ m. IsChainFor m rule (r ∷ rs)) same_base a, b)
]
