-- ===== src/Conversion/Answers.antt =====
-- ChainStorage.FindConversionChain of pkg/webhook/conversion/chain.go as a whole.
use shell_operator.Base.{◌≡◌, string_key, List, [], String, ◌⊎◌}
use shell_operator.Conversion.{Rule, Targets, rule_key}
use shell_operator.Conversion.Sound.{IsChainFor}

-- No chain, or a chain for what is asked for.
abbrev pub IsAnswer : List (String × Targets) → Rule → List Rule → Type 0
IsAnswer m rule p = (p ≡ []) ⊎ IsChainFor m rule p
