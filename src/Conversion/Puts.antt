-- ===== src/Conversion/Puts.antt =====
-- Chain.Put of pkg/webhook/conversion/chain.go fills the index and the cache.
use shell_operator.Base.{
  ◌≡◌, ◌==◌, string_key, true, ◌||◌, List, [], ◌∷◌, String, lookup, insert, All, refl, arith,
  eq_iff, Bool-cases, inl, inr, subst, ◌∙◌,
}
use shell_operator.Conversion.{Rule, Chain, Targets, rule_key, or_empty, put, empty_chain}
use shell_operator.Conversion.Steps.{has_target, is_base}
use shell_operator.Conversion.Sound.{IsPathFor, IsSoundCache, lookup_rule}

has_target-insert :
    (t to : String) (ts : Targets) → has_target t (insert to tt ts) ≡ (to == t || has_target t ts)
unfolding insert
has_target-insert t to [] = refl
has_target-insert t to ((s, u) ∷ ts) = ground (arith, has_target-insert t to ts, eq_iff s to)

-- Putting a base rule keeps the base rules.
is_base-insert :
    (from : String) (ts : Targets) (r : Rule) (m : List (String × Targets))
    → (has_target r.to_version (or_empty (lookup from m)) ≡ true
        → has_target r.to_version ts ≡ true)
    → is_base m r ≡ true
    → is_base (insert from ts m) r ≡ true
unfolding insert
is_base-insert from ts r [] f h = absurd (ground arith)
is_base-insert from ts r ((k, us) ∷ m) f h = elim (Bool-cases (k == from)) [
  | inl e ↦
      let g : has_target r.to_version us ≡ true → has_target r.to_version ts ≡ true =
        λ q. f (rw e q) in
      rw (e, insert) (ground (arith, eq_iff k from, g, h))
  | inr e ↦
      let rest : is_base m r ≡ true → is_base (insert from ts m) r ≡ true =
        is_base-insert from ts r m (λ q. f (rw e q)) in
      rw (e, insert) (ground (arith, rest, h))
]

is_base-new :
    (from to : String) (ts : Targets) (m : List (String × Targets))
    → is_base (insert from (insert to tt ts) m) (record { from_version = from; to_version = to })
      ≡ true
unfolding insert
is_base-new from to ts [] =
    ground (arith, eq_iff from from, has_target-insert to to ts, eq_iff to to)
is_base-new from to ts ((k, us) ∷ m) = elim (Bool-cases (k == from)) [
  | inl e ↦
      rw (e, insert) (ground (arith, eq_iff from from, has_target-insert to to ts, eq_iff to to))
  | inr e ↦ rw (e, insert) (ground (arith, is_base-new from to ts m))
]

All-based :
    (m m' : List (String × Targets)) (p : List Rule)
    → ((r : Rule) → is_base m r ≡ true → is_base m' r ≡ true)
    → All (λ r. is_base m r ≡ true) p
    → All (λ r. is_base m' r ≡ true) p
All-based m m' [] f h = tt
All-based m m' (r ∷ p) f h = (f r h.0, All-based m m' p f h.1)

still_path :
    (m m' : List (String × Targets)) (k : Rule) (p : List Rule)
    → ((r : Rule) → is_base m r ≡ true → is_base m' r ≡ true)
    → IsPathFor m k p
    → IsPathFor m' k p
still_path m m' k p f v = record {
  starts = v.starts;
  ends = v.ends;
  based = All-based m m' p f v.based;
}

put-IsSoundCache : (rule : Rule) (c : Chain) → IsSoundCache c → IsSoundCache (put rule c)
unfolding put
put-IsSoundCache rule c v k p h = elim (lookup_rule rule k (rule ∷ []) p c.paths_cache h) [
  | inl (a, b) ↦
      subst (λ j. IsPathFor (put rule c).base_from_to_index j p) a
        (subst (IsPathFor (put rule c).base_from_to_index rule) b (record {
          starts = (rule, [], refl, refl);
          ends = ([], rule, refl, refl);
          based = (is_base-new rule.from_version rule.to_version _ c.base_from_to_index, tt);
        }))
  | inr l ↦
      still_path c.base_from_to_index (put rule c).base_from_to_index k p
        (λ r b.
          is_base-insert rule.from_version
            (insert rule.to_version tt (or_empty (lookup rule.from_version c.base_from_to_index))) r
            c.base_from_to_index
            (λ q.
              has_target-insert r.to_version rule.to_version
                (or_empty (lookup rule.from_version c.base_from_to_index))
              ∙ ground (arith, q))
            b)
        (v k p l)
]

-- The chain of the rules that a configuration lists.
unfoldable pub put_all : List Rule → Chain → Chain
put_all [] c = c
put_all (r ∷ rs) c = put_all rs (put r c)

put_all-IsSoundCache_from :
    (rs : List Rule) (c : Chain) → IsSoundCache c → IsSoundCache (put_all rs c)
unfolding put_all
put_all-IsSoundCache_from [] c v = v
put_all-IsSoundCache_from (r ∷ rs) c v =
    put_all-IsSoundCache_from rs (put r c) (put-IsSoundCache r c v)

-- However many rules are put into a new chain, every cached path is a path for its key.
pub put_all-IsSoundCache : (rs : List Rule) → IsSoundCache (put_all rs empty_chain)
put_all-IsSoundCache rs = put_all-IsSoundCache_from rs empty_chain (λ k p h. absurd (ground arith))
