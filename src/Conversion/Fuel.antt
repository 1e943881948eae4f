-- ===== src/Conversion/Fuel.antt =====
-- The loop of ChainStorage.FindConversionChain (pkg/webhook/conversion/chain.go) ends after at most as many rounds as
-- there are target versions without a path, and one.
use shell_operator.Base.{
  ◌⊎◌, sym, ℕ, suc, zero, ◌≡◌, string_key, true, false, List, [], ◌∷◌, String, ◌<◌, has_key, arith,
  Bool-cases, inl, inr, ap, subst, not,
}
use shell_operator.Counter.{is_empty}
use shell_operator.Contexts.Grouped.{IsRangeOrder}
use shell_operator.Conversion.{Rule, Chain, Walks, rule_key}
use shell_operator.Conversion.Find.{
  may_share, path, FoundPath, Paths, new_paths, add_paths, find_loop,
}
use shell_operator.Conversion.Sound.{
  HasLongPath, stops, IsSoundCache, found, gives_up, goes_on, round, add_paths-IsSoundCache,
  new_paths-AllPaths,
}
use shell_operator.Conversion.Ends.{
  targets_of, missing_targets, is_missing, rule_to, keep_fewer, AllNew, new_paths-AllNew,
  add_paths-has_key, add_paths-first,
}

abbrev rule_of : String → String → Rule
rule_of v w = record { from_version = v; to_version = w }

still_cached :
    (rule : Rule) (ps : Paths) (c : Chain) (t : String)
    → is_missing rule (add_paths ps c).paths_cache t ≡ true
    → is_missing rule c.paths_cache t ≡ true
still_cached rule ps c t h = elim (Bool-cases (has_key (rule_to rule t) c.paths_cache)) [
  | inl e ↦ absurd (ground (arith, add_paths-has_key (rule_to rule t) ps c e))
  | inr e ↦ ap not e
]

fewer_missing :
    (rule : Rule) (ps : Paths) (c : Chain)
    → is_empty ps ≡ false
    → AllNew rule c ps
    → (add_paths ps c).base_from_to_index ≡ c.base_from_to_index
    → missing_targets rule (add_paths ps c) < missing_targets rule c
fewer_missing rule [] c e h b = absurd (ground arith)
fewer_missing rule ((k, p) ∷ ps) c e h b =
    let (from, new, target) = h.0 in
    let same : k ≡ rule_to rule k.to_version = ap (λ v. rule_of v k.to_version) from in
    rw b (
      keep_fewer (is_missing rule (add_paths ((k, p) ∷ ps) c).paths_cache)
        (is_missing rule c.paths_cache) k.to_version (targets_of c.base_from_to_index)
        (still_cached rule ((k, p) ∷ ps) c)
        (ap not (
          subst (λ r. has_key r (add_paths ((k, p) ∷ ps) c).paths_cache ≡ true) same
            (add_paths-first k p ps c)))
        (ap not (subst (λ r. has_key r c.paths_cache ≡ false) same new)) target)

-- The loop ends: with a path, or where a path of three or more rules is to be extended.
abbrev pub HasEnded : FoundPath × Chain → Type 0
HasEnded r =
    ((p : List Rule) × (c' : Chain) × (r ≡ (path p, c')))
    ⊎ ((c' : Chain) × (r ≡ (may_share, c')) × HasLongPath c')

-- With more fuel than there are target versions without a cached path from the version that is asked for, the loop
-- of FindConversionChain ends, with an answer or where it is to extend a path of three or more rules.
pub find_loop-ends :
    (fuel : ℕ) (world : Walks) (rule : Rule) (c : Chain)
    → IsRangeOrder world.range_paths
    → IsRangeOrder world.range_index
    → IsRangeOrder world.range_targets
    → IsSoundCache c
    → missing_targets rule c < fuel
    → HasEnded (find_loop fuel world rule c)
find_loop-ends zero world rule c wp wi wt v h = absurd (ground arith)
find_loop-ends (suc n) world rule c wp wi wt v h = elim (round n world rule c) [
  | found r rs s e ↦ inl (r ∷ rs, c, e)
  | gives_up e ↦ inl ([], c, e)
  | stops long e ↦ inr (c, e, long)
  | goes_on s e ↦
      let (v', same_base) =
        add_paths-IsSoundCache (new_paths world rule c) c
          (new_paths-AllPaths world rule c wp wi wt v) v in
      let fewer =
        fewer_missing rule (new_paths world rule c) c s (new_paths-AllNew world rule c wp v wi wt)
          same_base in
      let q =
        find_loop-ends n world rule (add_paths (new_paths world rule c) c) wp wi wt v'
          (omega (arith, fewer, h)) in
      subst HasEnded (sym e) q
]
