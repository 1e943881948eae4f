-- ===== src/Queue/Groups.antt =====
-- The first pass of TaskQueue.compaction (pkg/task/queue/task_queue.go): which elements the groups mark for merging.
use shell_operator.Base.{
  ℕ, Bool, ◌≡◌, ◌==◌, string_key, nat_key, if◌then◌else◌, List, [], ◌∷◌, ◌++◌, Option, none, some,
  String, true, false, ◌&&◌, ◌||◌, not, lookup, insert, has_key, any, keep, refl, arith, All,
  eq_iff, Option-cases, Bool-cases, lookup-insert, any-append, inl, inr, ap, ◌∙◌,
}
use shell_operator.LinkedList.Sequence.{Element, holds, IsDistinct, values}
use shell_operator.Task.{Task, HookMetadata}
use shell_operator.Counter.{NameSet}
use shell_operator.Queue.State.{CompactionGroup, TaskQueue}
use shell_operator.Queue.Merge.{mergeable, add_to_group, add_mergeable, collect_groups}

abbrev pub Groups : Type 0
Groups = List (String × CompactionGroup)

-- Some group is to merge the element of this handle.
abbrev pub in_groups : ℕ → Groups → Bool
in_groups h [] = false
in_groups h ((n, g) ∷ gs) = holds h g.to_merge || in_groups h gs

in_groups-insert_new :
    (h : ℕ) (name : String) (e : Element Task) (gs : Groups)
    → lookup name gs ≡ none
    → in_groups h (insert name (record { target = e; to_merge = [] }) gs) ≡ in_groups h gs
unfolding insert
in_groups-insert_new h name e [] l = refl
in_groups-insert_new h name e ((n, g) ∷ gs) l =
    ground (arith, in_groups-insert_new h name e gs, eq_iff n name)

in_groups-insert_more :
    (h : ℕ) (name : String) (e : Element Task) (g : CompactionGroup) (gs : Groups)
    → lookup name gs ≡ some g
    → in_groups h (insert name (record g { to_merge = g.to_merge ++ e ∷ [] }) gs)
      ≡ (in_groups h gs || nat_key.same e.handle h)
unfolding insert
in_groups-insert_more h name e g [] l = cc
in_groups-insert_more h name e g ((n, k) ∷ gs) l = ground (
  arith,
  in_groups-insert_more h name e g gs,
  eq_iff n name,
  any-append (λ x. nat_key.same x.handle h) g.to_merge (e ∷ []),
)

pub in_groups-add :
    (h : ℕ) (name : String) (e : Element Task) (gs : Groups)
    → in_groups h (add_to_group name e gs)
      ≡ (in_groups h gs || has_key name gs && nat_key.same e.handle h)
unfolding add_to_group
in_groups-add h name e gs = elim (Option-cases (lookup name gs)) [
  | inl l ↦ ground (arith, in_groups-insert_new h name e gs l)
  | inr (g, l) ↦ ground (arith, in_groups-insert_more h name e g gs l)
]

pub has_key-add :
    (k name : String) (e : Element Task) (gs : Groups)
    → has_key k (add_to_group name e gs) ≡ (string_key.same name k || has_key k gs)
unfolding add_to_group
has_key-add k name e gs = elim (Option-cases (lookup name gs)) [
  | inl l ↦ ground (arith, lookup-insert name k (record { target = e; to_merge = [] }) gs)
  | inr (g, l) ↦
      ground (
        arith,
        lookup-insert name k (record g { to_merge = g.to_merge ++ e ∷ [] }) gs,
        eq_iff name k,
      )
]

module _ (ids : NameSet) (q : TaskQueue) where
  pub collect_groups-cons :
      (e : Element Task) (es : List (Element Task)) (gs : Groups)
      → collect_groups ids q (e ∷ es) gs
        ≡ collect_groups ids q es (add_mergeable (mergeable ids q e.value) e gs)
  unfolding collect_groups
  collect_groups-cons e es gs = refl

  in_groups-add_mergeable :
      (h : ℕ) (m : Option HookMetadata) (e : Element Task) (gs : Groups)
      → nat_key.same e.handle h ≡ false
      → in_groups h (add_mergeable m e gs) ≡ in_groups h gs
  in_groups-add_mergeable h none e gs d = refl
  in_groups-add_mergeable h (some m) e gs d = ground (arith, in_groups-add h m.hook_name e gs)

  -- The pass marks none but the elements that it walks over.
  pub collect_groups-outside :
      (h : ℕ) (es : List (Element Task)) (gs : Groups)
      → holds h es ≡ false
      → in_groups h (collect_groups ids q es gs) ≡ in_groups h gs
  collect_groups-outside h [] gs d = unfold collect_groups in refl
  collect_groups-outside h (e ∷ es) gs d =
      ap (in_groups h) (collect_groups-cons e es gs)
      ∙ collect_groups-outside h es (add_mergeable (mergeable ids q e.value) e gs) (ground arith)
      ∙ in_groups-add_mergeable h (mergeable ids q e.value) e gs (ground arith)

  -- The specification: of the tasks that may be merged the first of each hook stays, and so do all others.
  abbrev pub seen_before : String → List String → Bool
  seen_before name = any (λ s. s == name)

  abbrev pub stay_or_go :
      Option HookMetadata → Task → List String → (List String → List Task) → List Task
  stay_or_go none t seen rest = t ∷ rest seen
  stay_or_go (some m) t seen rest =
      if seen_before m.hook_name seen then rest seen else t ∷ rest (m.hook_name ∷ seen)

  unfoldable pub first_of_hooks : List String → List Task → List Task
  first_of_hooks seen [] = []
  first_of_hooks seen (t ∷ ts) = stay_or_go (mergeable ids q t) t seen (λ s. first_of_hooks s ts)

  -- The groups know the hooks that have been seen.
  abbrev pub Knows : Groups → List String → Type 0
  Knows gs seen = (k : String) → has_key k gs ≡ seen_before k seen

  abbrev pub unmarked : Groups → Element Task → Bool
  unmarked gs e = not (in_groups e.handle gs)

  new_after :
      (m : Option HookMetadata) (e : Element Task) (es : List (Element Task)) (gs : Groups)
      → holds e.handle es ≡ false
      → All (λ x. in_groups x.handle gs ≡ false) es
      → All (λ x. in_groups x.handle (add_mergeable m e gs) ≡ false) es
  new_after m e [] gs d new = tt
  new_after m e (x ∷ es) gs d new = (
    in_groups-add_mergeable x.handle m e gs (ground arith) ∙ new.0,
    new_after m e es gs (ground arith) new.1,
  )

  Knows-seen :
      (m : HookMetadata) (e : Element Task) (gs : Groups) (seen : List String)
      → Knows gs seen
      → seen_before m.hook_name seen ≡ true
      → Knows (add_mergeable (some m) e gs) seen
  Knows-seen m e gs seen k h name =
      ground (arith, has_key-add name m.hook_name e gs, k name, eq_iff m.hook_name name)

  Knows-new :
      (m : HookMetadata) (e : Element Task) (gs : Groups) (seen : List String)
      → Knows gs seen
      → Knows (add_mergeable (some m) e gs) (m.hook_name ∷ seen)
  Knows-new m e gs seen k name = ground (arith, has_key-add name m.hook_name e gs, k name)

  -- Whether the element that the pass has just met is marked in the end.
  marked_now :
      (m : Option HookMetadata) (e : Element Task) (es : List (Element Task)) (gs : Groups)
      → mergeable ids q e.value ≡ m
      → holds e.handle es ≡ false
      → in_groups e.handle (collect_groups ids q (e ∷ es) gs)
        ≡ in_groups e.handle (add_mergeable m e gs)
  marked_now m e es gs h d =
      ap (in_groups e.handle) (collect_groups-cons e es gs)
      ∙ collect_groups-outside e.handle es (add_mergeable (mergeable ids q e.value) e gs) d
      ∙ ap (λ r. in_groups e.handle (add_mergeable r e gs)) h

  next_groups :
      (m : Option HookMetadata) (e : Element Task) (es : List (Element Task)) (gs : Groups)
      → mergeable ids q e.value ≡ m
      → collect_groups ids q (e ∷ es) gs ≡ collect_groups ids q es (add_mergeable m e gs)
  next_groups m e es gs h =
      collect_groups-cons e es gs ∙ ap (λ r. collect_groups ids q es (add_mergeable r e gs)) h

  -- What the groups do not mark is what the specification lets stay.
  pub unmarked-first_of_hooks :
      (seen : List String) (es : List (Element Task)) (gs : Groups)
      → IsDistinct es
      → All (λ e. in_groups e.handle gs ≡ false) es
      → Knows gs seen
      → values (keep (unmarked (collect_groups ids q es gs)) es) ≡ first_of_hooks seen (values es)
  unfolding first_of_hooks
  unmarked-first_of_hooks seen [] gs d new k = refl
  unmarked-first_of_hooks seen (e ∷ es) gs d new k = elim (Option-cases (mergeable ids q e.value)) [
    | inl h ↦ ground (
      arith,
      h,
      marked_now none e es gs h d.0,
      next_groups none e es gs h,
      unmarked-first_of_hooks seen es gs d.1 new.1 k,
    )
    | inr (m, h) ↦ elim (Bool-cases (seen_before m.hook_name seen)) [
      | inl s ↦ ground (
        arith,
        h,
        s,
        marked_now (some m) e es gs h d.0,
        next_groups (some m) e es gs h,
        in_groups-add e.handle m.hook_name e gs,
        k m.hook_name,
        unmarked-first_of_hooks seen es (add_mergeable (some m) e gs) d.1
            (new_after (some m) e es gs d.0 new.1) (Knows-seen m e gs seen k s),
      )
      | inr s ↦ ground (
        arith,
        h,
        s,
        marked_now (some m) e es gs h d.0,
        next_groups (some m) e es gs h,
        in_groups-add e.handle m.hook_name e gs,
        k m.hook_name,
        unmarked-first_of_hooks (m.hook_name ∷ seen) es (add_mergeable (some m) e gs) d.1
            (new_after (some m) e es gs d.0 new.1) (Knows-new m e gs seen k),
      )
    ]
  ]
