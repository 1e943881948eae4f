-- ===== src/Combine/Ids.antt =====
-- Lists of tasks whose ids differ, as combineBindingContextForHook of
-- pkg/shell-operator/combine_binding_context.go filters them by id.
use shell_operator.Base.{
  ◌≡◌, Bool, ◌==◌, string_key, nat_key, if◌then◌else◌, List, [], ◌∷◌, ◌++◌, some, String, true,
  false, not, lookup, any, keep, refl, sym, arith, eq_iff, Bool-cases, inl, inr, ap, ◌∙◌, subst,
}
use shell_operator.LinkedList.Sequence.{Element, IsDistinct, Listed, values, holds}
use shell_operator.Task.{Task, task_has_id}

-- No two tasks of the list share an id.
abbrev pub HasDistinctIds : List Task → Type 0
HasDistinctIds [] = Unit {0}
HasDistinctIds (t ∷ ts) = (any (λ u. u.id == t.id) ts ≡ false) × HasDistinctIds ts

-- The longest beginning of a list that passes a test, and what follows it.
unfoldable pub take_while : (Task → Bool) → List Task → List Task
take_while p [] = []
take_while p (x ∷ xs) = if p x then x ∷ take_while p xs else []

unfoldable pub drop_while : (Task → Bool) → List Task → List Task
drop_while p [] = []
drop_while p (x ∷ xs) = if p x then drop_while p xs else x ∷ xs

abbrev pub without_task : Task → List Task → List Task
without_task t = keep (λ x. not (x.id == t.id))

any_value :
    (k : String) (es : List (Element Task))
    → any (λ u. u.id == k) (values es) ≡ true
    → (e : Element Task) × Listed e es × (e.value.id ≡ k)
any_value k [] h = absurd (ground arith)
any_value k (e ∷ es) h = elim (Bool-cases (e.value.id == k)) [
  | inl same ↦ (e, inl refl, ground (arith, eq_iff e.value.id k))
  | inr other ↦ let (f, l, p) = any_value k es (ground arith) in (f, inr l, p)
]

holds-handle :
    (e : Element Task) (es : List (Element Task)) → Listed e es → holds e.handle es ≡ true
holds-handle e [] l = absurd l
holds-handle e (x ∷ es) (inl p) = subst (λ y. holds y.handle (x ∷ es) ≡ true) p (ground arith)
holds-handle e (x ∷ es) (inr l) = ground (arith, holds-handle e es l)

-- An index that is complete tells tasks apart, so no two of them share an id.
pub distinct_ids :
    (es : List (Element Task)) (m : List (String × Element Task))
    → IsDistinct es
    → ((e : Element Task) → Listed e es → lookup e.value.id m ≡ some e)
    → HasDistinctIds (values es)
distinct_ids [] m d c = tt
distinct_ids (e ∷ es) m d c = (
  elim (Bool-cases (any (λ u. u.id == e.value.id) (values es))) [
    | inl h ↦
        let (f, l, p) = any_value e.value.id es h in
        let twice : some f ≡ some e = sym (c f (inr l)) ∙ ap (λ k. lookup k m) p ∙ c e (inl refl) in
        absurd (ground (arith, holds-handle f es l, twice))
    | inr h ↦ h
  ],
  distinct_ids es m d.1 (λ f l. c f (inr l)),
)

any-keep :
    (k : String) (p : Task → Bool) (ts : List Task)
    → any (λ u. u.id == k) ts ≡ false
    → any (λ u. u.id == k) (keep p ts) ≡ false
any-keep k p [] h = refl
any-keep k p (t ∷ ts) h = ground (arith, any-keep k p ts)

pub HasDistinctIds-keep :
    (p : Task → Bool) (ts : List Task) → HasDistinctIds ts → HasDistinctIds (keep p ts)
HasDistinctIds-keep p [] d = tt
HasDistinctIds-keep p (t ∷ ts) d =
    ground (arith, HasDistinctIds-keep p ts d.1, any-keep t.id p ts d.0)

pub take-drop : (p : Task → Bool) (ts : List Task) → take_while p ts ++ drop_while p ts ≡ ts
unfolding take_while drop_while
take-drop p [] = refl
take-drop p (t ∷ ts) = ground (arith, take-drop p ts)

-- The test that no task of the list has the id.
abbrev pub is_not_among : List Task → Task → Bool
is_not_among xs x = not (any (λ o. o.id == x.id) xs)

keep_more :
    (x : Task) (xs zs : List Task)
    → any (λ u. u.id == x.id) zs ≡ false
    → keep (is_not_among (x ∷ xs)) zs ≡ keep (is_not_among xs) zs
keep_more x xs [] h = refl
keep_more x xs (z ∷ zs) h = ground (arith, keep_more x xs zs, eq_iff x.id z.id, eq_iff z.id x.id)

none_among : (zs : List Task) → keep (is_not_among []) zs ≡ zs
none_among [] = refl
none_among (z ∷ zs) = ap (λ r. z ∷ r) (none_among zs)

pub keep_rest :
    (xs ys : List Task) → HasDistinctIds (xs ++ ys) → keep (is_not_among xs) (xs ++ ys) ≡ ys
keep_rest [] ys d = none_among ys
keep_rest (x ∷ xs) ys d =
    ground (arith, keep_more x xs (xs ++ ys) d.0, keep_rest xs ys d.1, eq_iff x.id x.id)

pub any-take_while :
    (t : Task) (p : Task → Bool) (ts : List Task)
    → any (λ o. o.id == t.id) (take_while p (without_task t ts)) ≡ false
unfolding take_while
any-take_while t p [] = refl
any-take_while t p (x ∷ xs) = ground (arith, any-take_while t p xs)
