-- ===== src/Contexts/Adjacent.antt =====
-- The last loop of combineBindingContextForHook in pkg/shell-operator/combine_binding_context.go
-- keeps the last context of each run of one group, and nothing else is dropped.
use shell_operator.Base.{
  keep_all, insert, ◌≡◌, ◌≢◌, Bool, string_key, nat_key, if◌then◌else◌, List, [], ◌∷◌, String, true,
  false, inl, inr, refl, sym, arith, Bool-cases, keep, eq_iff, subst, ◌∙◌, ap,
}
use shell_operator.Task.{BindingContext}
use shell_operator.Contexts.{
  last_for_group, is_ungrouped, superseded_by_next, compact_adjacent, compact_binding_contexts,
}
use shell_operator.Contexts.Grouped.{in_group, latest, IsRangeOrder, keep-perm}

compact_adjacent-cons :
    (c : BindingContext) (cs : List BindingContext)
    → compact_adjacent (c ∷ cs)
      ≡ (if superseded_by_next c cs then compact_adjacent cs else c ∷ compact_adjacent cs)
unfolding compact_adjacent
compact_adjacent-cons c cs = refl

compact_adjacent-dropped :
    (c : BindingContext) (cs : List BindingContext)
    → superseded_by_next c cs ≡ true
    → compact_adjacent (c ∷ cs) ≡ compact_adjacent cs
compact_adjacent-dropped c cs h = ground (arith, compact_adjacent-cons c cs)

compact_adjacent-kept :
    (c : BindingContext) (cs : List BindingContext)
    → superseded_by_next c cs ≡ false
    → compact_adjacent (c ∷ cs) ≡ c ∷ compact_adjacent cs
compact_adjacent-kept c cs h = ground (arith, compact_adjacent-cons c cs)

-- The combination for a hook keeps every ungrouped context, in order.
pub compact_adjacent-ungrouped :
    (cs : List BindingContext) → keep is_ungrouped (compact_adjacent cs) ≡ keep is_ungrouped cs
unfolding compact_adjacent
compact_adjacent-ungrouped [] = refl
compact_adjacent-ungrouped (c ∷ []) = ground arith
compact_adjacent-ungrouped (c ∷ d ∷ cs) = ground (arith, compact_adjacent-ungrouped (d ∷ cs))

-- No context of a group stands right before another one of that group.
abbrev pub HasNoRuns : List BindingContext → Type 0
HasNoRuns [] = Unit {0}
HasNoRuns (c ∷ cs) = (superseded_by_next c cs ≡ false) × HasNoRuns cs

compact_adjacent-nil : HasNoRuns (compact_adjacent [])
unfolding compact_adjacent
compact_adjacent-nil = tt

one_context : (c : BindingContext) → HasNoRuns (c ∷ compact_adjacent [])
unfolding compact_adjacent
one_context c = (refl, tt)

-- The first context that is kept has the group of the first one that was given.
compact_adjacent-head :
    (c : BindingContext) (cs : List BindingContext)
    → (d : BindingContext) × (ds : List BindingContext) × (compact_adjacent (c ∷ cs) ≡ d ∷ ds)
      × (d.group ≡ c.group)
compact_adjacent-head c [] = (c, compact_adjacent [], compact_adjacent-kept c [] refl, refl)
compact_adjacent-head c (d ∷ cs) =
    let (e, es, p, q) = compact_adjacent-head d cs in
    elim (Bool-cases (superseded_by_next c (d ∷ cs))) [
      | inl s ↦
          (e, es, compact_adjacent-dropped c (d ∷ cs) s ∙ p, ground (arith, eq_iff d.group c.group))
      | inr s ↦ (c, compact_adjacent (d ∷ cs), compact_adjacent-kept c (d ∷ cs) s, refl)
    ]

still_apart :
    (c d e : BindingContext) (cs es : List BindingContext)
    → superseded_by_next c (d ∷ cs) ≡ false
    → e.group ≡ d.group
    → superseded_by_next c (e ∷ es) ≡ false
still_apart c d e cs es h q = rw q h

-- After the combination for a hook no context of a group stands right before another one of that
-- group.
pub compact_adjacent-HasNoRuns : (cs : List BindingContext) → HasNoRuns (compact_adjacent cs)
compact_adjacent-HasNoRuns [] = compact_adjacent-nil
compact_adjacent-HasNoRuns (c ∷ []) = rw (compact_adjacent-kept c [] refl) (one_context c)
compact_adjacent-HasNoRuns (c ∷ d ∷ cs) = elim (Bool-cases (superseded_by_next c (d ∷ cs))) [
  | inl s ↦ rw (compact_adjacent-dropped c (d ∷ cs) s) (compact_adjacent-HasNoRuns (d ∷ cs))
  | inr s ↦
      let (e, es, p, q) = compact_adjacent-head d cs in
      rw (compact_adjacent-kept c (d ∷ cs) s) (
        subst (λ r. superseded_by_next c r ≡ false) (sym p) (still_apart c d e cs es s q),
        compact_adjacent-HasNoRuns (d ∷ cs),
      )
]

latest-keep_cons :
    (p : BindingContext → Bool) (before : List BindingContext) (c : BindingContext)
    (cs : List BindingContext)
    → latest before (keep p (c ∷ cs)) ≡ latest (if p c then c ∷ [] else before) (keep p cs)
latest-keep_cons p before c cs = ground arith

-- A context behind which another one of its group stands does not count.
latest_superseded :
    (g : String) (before : List BindingContext) (c d : BindingContext) (cs : List BindingContext)
    → superseded_by_next c (d ∷ cs) ≡ true
    → latest before (keep (in_group g) (d ∷ cs)) ≡ latest before (keep (in_group g) (c ∷ d ∷ cs))
latest_superseded g before c d cs h =
    ground (arith, eq_iff d.group c.group, eq_iff c.group g, eq_iff d.group g)

-- The combination for a hook keeps the last context of each group (`before` is what stands for an empty list).
pub compact_adjacent-latest :
    (g : String) (before cs : List BindingContext)
    → latest before (keep (in_group g) (compact_adjacent cs)) ≡ latest before (keep (in_group g) cs)
compact_adjacent-latest g before [] = unfold compact_adjacent in refl
compact_adjacent-latest g before (c ∷ cs) = elim (Bool-cases (superseded_by_next c cs)) [
  | inl s ↦
      ap (λ r. latest before (keep (in_group g) r)) (compact_adjacent-dropped c cs s)
      ∙ compact_adjacent-latest g before cs
      ∙ dropped cs s
  | inr s ↦
      ap (λ r. latest before (keep (in_group g) r)) (compact_adjacent-kept c cs s)
      ∙ latest-keep_cons (in_group g) before c (compact_adjacent cs)
      ∙ compact_adjacent-latest g (if in_group g c then c ∷ [] else before) cs
      ∙ sym (latest-keep_cons (in_group g) before c cs)
]
  where
    dropped :
        (ds : List BindingContext)
        → superseded_by_next c ds ≡ true
        → latest before (keep (in_group g) ds) ≡ latest before (keep (in_group g) (c ∷ ds))
    dropped [] s = cc
    dropped (d ∷ ds) s = latest_superseded g before c d ds s

one_entry_order :
    {A : Type 0} (order : List A → List A) (x : A) → IsRangeOrder order → order (x ∷ []) ≡ x ∷ []
one_entry_order order x walks =
    sym (keep_all (order (x ∷ []))) ∙ keep-perm (λ _. true) (walks (x ∷ [])) (omega arith)

-- The two compactions differ on a grouped context before an ungrouped one: compactBindingContexts
-- moves the grouped one behind, where the combination for a hook leaves the order as it is.
pub compact_binding_contexts-reorders :
    (order : List (String × BindingContext) → List (String × BindingContext)) (b u : BindingContext)
    → IsRangeOrder order
    → b.group ≢ ""
    → u.group ≡ ""
    → (compact_binding_contexts order (b ∷ u ∷ []) ≡ u ∷ b ∷ [])
      × (compact_adjacent (b ∷ u ∷ []) ≡ b ∷ u ∷ [])
unfolding compact_binding_contexts compact_adjacent last_for_group insert
compact_binding_contexts-reorders order b u walks ne e = ground (
  arith,
  one_entry_order order (b.group, b) walks,
  eq_iff b.group "",
  eq_iff u.group "",
  eq_iff u.group b.group,
)
