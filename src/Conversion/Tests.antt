-- ===== src/Conversion/Tests.antt =====
-- pkg/webhook/conversion/chain.go at concrete rules.
use mathlib.Core.List.Permᴰ
use shell_operator.Base.{◌≡◌, string_key, List, [], ◌∷◌, String, insert, refl}
use shell_operator.Conversion.{
  rules_with_similar_from_version, has_target_version, Rule, Chain, Walks, rule_key, put,
  empty_chain, next_rules,
}
use shell_operator.Conversion.Versions.{
  versions_matched, trim_group, occurs_in, starts_with, after_slash,
}
use shell_operator.Conversion.Find.{goes_on_from_long, find_loop, path, find_conversion_chain}
use shell_operator.Conversion.Puts.{put_all}

abbrev world : Walks
world = record { range_paths = λ m. m; range_index = λ m. m; range_targets = λ m. m }

abbrev rule : String → String → Rule
rule from to = record { from_version = from; to_version = to }

abbrev rules : List Rule
rules = rule "v1" "v2" ∷ rule "v2" "v3" ∷ []

abbrev chain : Chain
chain = put_all rules empty_chain

-- A rule from `v1beta1` is taken to go on from `v1`.
next_rules_v1 : next_rules world "v1" (("v1beta1", ("v2", tt) ∷ []) ∷ []) ≡ rule "v1beta1" "v2" ∷ []
unfolding next_rules trim_group after_slash occurs_in starts_with
next_rules_v1 = refl

-- Two rules are chained.
chained :
    (find_conversion_chain 3 world "crontabs" (rule "v1" "v3") (("crontabs", chain) ∷ [])).0
    ≡ path (rule "v1" "v2" ∷ rule "v2" "v3" ∷ [])
unfolding find_conversion_chain find_loop put_all put insert has_target_version versions_matched
    goes_on_from_long rules_with_similar_from_version trim_group next_rules occurs_in
chained = refl
