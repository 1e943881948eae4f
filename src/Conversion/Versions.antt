-- ===== src/Conversion/Versions.antt =====
-- Versions of pkg/webhook/conversion/chain.go and pkg/utils/string_helper: `group/v1` or, without a group, `v1`.
use Prim.Native.Char.{code}
use Prim.Native.String.{String, [], ◌∷◌}
use shell_operator.Base.{
  ◌⊎◌, ◌↔◌, ◌≡◌, Bool, ◌==◌, nat_key, string_key, if◌then◌else◌, Option, none, some, true, false,
  ◌&&◌, ◌||◌, arith, eq_iff, Option-cases,
}

-- What follows the first slash.
unfoldable pub after_slash : String → Option String
after_slash [] = none
after_slash (c ∷ s) = if code c == 47 then some s else after_slash s

abbrev pub trimmed : Option String → String → String
trimmed none s = s
trimmed (some r) s = r

unfoldable pub trim_group : String → String
unfolding after_slash
trim_group s = trimmed (after_slash s) s

abbrev pub matched_with : Option String → Option String → String → String → Bool
matched_with none (some r) v w = v == r
matched_with (some r) none v w = r == w
matched_with none none v w = false
matched_with (some r) (some q) v w = false

unfoldable pub versions_matched : String → String → Bool
unfolding after_slash
versions_matched v w = if v == w then true else matched_with (after_slash v) (after_slash w) v w

unfoldable pub starts_with : String → String → Bool
starts_with [] s = true
starts_with (c ∷ p) [] = false
starts_with (c ∷ p) (d ∷ s) = code c == code d && starts_with p s

-- strings.Index finds the text.
unfoldable pub occurs_in : String → String → Bool
unfolding starts_with
occurs_in p [] = starts_with p []
occurs_in p (c ∷ s) = starts_with p (c ∷ s) || occurs_in p s

abbrev pub has_group : String → Bool
has_group v = elim (after_slash v) [ none ↦ false | some r ↦ true ]

-- Versions that match are equal behind their groups.
pub versions_matched-short :
    (v w : String) → versions_matched v w ≡ true → trim_group v ≡ trim_group w
unfolding versions_matched trim_group
versions_matched-short v w h = ground (
  arith,
  eq_iff v w,
  Option-cases (after_slash v),
  Option-cases (after_slash w),
  eq_iff (trim_group v) w,
  eq_iff v (trim_group w),
)

-- Versions match exactly if they are equal behind their groups, and are equal or only one of them has a group.
pub versions_matched_iff :
    (v w : String)
    → (versions_matched v w ≡ true) ↔ (
        (trim_group v ≡ trim_group w)
        × ((v ≡ w) ⊎ ((has_group v && has_group w ≡ false) × (has_group v || has_group w ≡ true))))
unfolding versions_matched trim_group
versions_matched_iff v w = (
  λ h. (
    versions_matched-short v w h,
    ground (arith, eq_iff v w, Option-cases (after_slash v), Option-cases (after_slash w)),
  ),
  λ (e, o). ground (
    arith,
    eq_iff v w,
    Option-cases (after_slash v),
    Option-cases (after_slash w),
    eq_iff (trim_group v) w,
    eq_iff v (trim_group w),
    e,
    o,
  ),
)
