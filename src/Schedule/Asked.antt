-- ===== src/Schedule/Asked.antt =====
-- Which bindings pkg/schedule_manager/schedule_manager.go remembers for a crontab, after any calls.
use shell_operator.Base.{
  Option-cases, Bool-cases, Option, eq_iff, lookup-delete, lookup-insert, ℕ, not, ◌≡◌,
  if◌then◌else◌, ◌==◌, delete, insert, lookup, has_key, List, Bool, String, inr, inl, false, true,
  some, none, nat_key, string_key, arith, refl, [], ◌∷◌, ◌||◌, ◌&&◌, ap, ◌∙◌, ◌↔◌,
}
use shell_operator.Counter.{is_empty}
use shell_operator.Schedule.{
  CronLibrary, IsCron, ScheduleEntry, CronEntry, ScheduleManager, add_entry, remove_entry, Call,
  adds, removes, run, with_id, with_new_job,
}
use shell_operator.Schedule.Jobs.{IsTied, run-IsTied}

-- The manager has noted that a binding asks for a crontab.
abbrev pub is_noted : {C : Type 0} → String → String → ScheduleManager C → Bool
is_noted tab id m = elim (lookup tab m.entries) [ none ↦ false | some e ↦ has_key id e.ids ]

abbrev pub is_for : String → String → ScheduleEntry → Bool
is_for tab id e = e.crontab == tab && e.id == id

-- The entries of a manager, seen by their noted bindings.
abbrev noted_in : List (String × CronEntry) → String → String → Bool
noted_in es tab id = elim (lookup tab es) [ none ↦ false | some e ↦ has_key id e.ids ]

-- What the calls say of one binding and one crontab: each Add notes it if the crontab can be parsed, and each Remove
-- takes it back.
abbrev pub wanted :
    {C : Type 0} {lib : CronLibrary C}
    → (String → Bool)
    → String
    → String
    → List (Call lib)
    → Bool
    → Bool
wanted parses tab id [] b = b
wanted parses tab id (adds e ∷ xs) b =
    wanted parses tab id xs (if is_for tab id e then b || (not (tab == "") && parses tab) else b)
wanted parses tab id (removes e ∷ xs) b =
    wanted parses tab id xs (if is_for tab id e then false else b)

has_key-insert :
    (k j : String) (m : List (String × Bool))
    → has_key j (insert k true m) ≡ (k == j || has_key j m)
has_key-insert k j m = ground (arith, lookup-insert k j true m)

has_key-delete :
    (k j : String) (m : List (String × Bool))
    → has_key j (delete k m) ≡ (not (k == j) && has_key j m)
has_key-delete k j m = ground (arith, lookup-delete k j m)

has_key-with_id :
    {C : Type 0} (lib : CronLibrary C) (id j : String) (e : CronEntry)
    → has_key j (with_id lib id e).ids ≡ (id == j || has_key j e.ids)
has_key-with_id lib id j e = ground (arith, has_key-insert id j e.ids, eq_iff id j)

noted_in-insert :
    (k tab id : String) (e : CronEntry) (es : List (String × CronEntry))
    → noted_in (insert k e es) tab id ≡ (if k == tab then has_key id e.ids else noted_in es tab id)
noted_in-insert k tab id e es = ground (arith, lookup-insert k tab e es)

noted_in-delete :
    (k tab id : String) (es : List (String × CronEntry))
    → noted_in (delete k es) tab id ≡ (if k == tab then false else noted_in es tab id)
noted_in-delete k tab id es = ground (arith, lookup-delete k tab es)

not-has_key : (j : String) (m : List (String × Bool)) → is_empty m ≡ true → has_key j m ≡ false
not-has_key j [] h = refl
not-has_key j (x ∷ m) h = cc

module _ {C : Type 0} (lib : CronLibrary C) (parses : String → Bool)
    (parsed : (tab : String) (c : C) → ((lib.add_func tab c).0 ≡ none) ↔ (parses tab ≡ false)) where
  abbrev pub can_have : String → Bool
  can_have tab = not (tab == "") && parses tab

  -- Every entry is for a crontab that can be parsed.
  abbrev pub AreParsed : ScheduleManager C → Type 0
  AreParsed m = (tab : String) → has_key tab m.entries ≡ true → can_have tab ≡ true

  new_job-noted :
      (tab id : String) (new : ScheduleEntry) (o : Option ℕ) (c : C) (m : ScheduleManager C)
      → lookup new.crontab m.entries ≡ none
      → (o ≡ none → parses new.crontab ≡ false)
      → (parses new.crontab ≡ false → o ≡ none)
      → (new.crontab == "") ≡ false
      → is_noted tab id (with_new_job lib new (o, c) m)
        ≡ (if is_for tab id new then is_noted tab id m || can_have tab else is_noted tab id m)
  new_job-noted tab id new none c m l p p' n = ground (arith, p refl, l, eq_iff new.crontab tab)
  new_job-noted tab id new (some j) c m l p p' n =
      let e : CronEntry = record { entry_id = j; ids = (new.id, true) ∷ [] } in
      let some_parses : parses new.crontab ≡ true = elim (Bool-cases (parses new.crontab)) [
        | inl b ↦ b
        | inr b ↦ let x = p' b in cc
      ] in
      noted_in-insert new.crontab tab id e m.entries
      ∙ ground (arith, some_parses, l, eq_iff new.crontab tab, n)

  add_entry-noted :
      (tab id : String) (new : ScheduleEntry) (m : ScheduleManager C)
      → AreParsed m
      → is_noted tab id (add_entry lib new m)
        ≡ (if is_for tab id new then is_noted tab id m || (can_have tab) else is_noted tab id m)
  unfolding add_entry
  add_entry-noted tab id new m v = elim (Bool-cases (new.crontab == "")) [
    | inl empty ↦ rw (empty, add_entry) (ground (arith, eq_iff new.crontab tab, empty))
    | inr q ↦ elim (Option-cases (lookup new.crontab m.entries)) [
      | inl l ↦
          let a = lib.add_func new.crontab m.cron in
          let p = parsed new.crontab m.cron in
          rw (q, l, add_entry) (new_job-noted tab id new a.0 a.1 m l p.0 p.1 q)
      | inr (e, l) ↦
          rw (q, l, add_entry)
            (noted_in-insert new.crontab tab id (with_id lib new.id e) m.entries
              ∙ ground (arith, has_key-with_id lib new.id id e, l, eq_iff new.crontab tab, v tab))
    ]
  ]

  remove_entry-noted :
      (tab id : String) (old : ScheduleEntry) (m : ScheduleManager C)
      → is_noted tab id (remove_entry lib old m)
        ≡ (if is_for tab id old then false else is_noted tab id m)
  unfolding remove_entry
  remove_entry-noted tab id old m = elim (Option-cases (lookup old.crontab m.entries)) [
    | inl l ↦ rw (l, remove_entry) (ground (arith, l, eq_iff old.crontab tab))
    | inr (e, l) ↦ elim (Bool-cases (has_key old.id e.ids)) [
      | inr q ↦
          rw (l, q, remove_entry) (ground (arith, l, q, eq_iff old.crontab tab, eq_iff old.id id))
      | inl q ↦ elim (Bool-cases (is_empty (delete old.id e.ids))) [
        | inl last ↦
            rw (l, q, last, remove_entry)
              (noted_in-delete old.crontab tab id m.entries
                ∙ ground (
                  arith,
                  l,
                  eq_iff old.crontab tab,
                  has_key-delete old.id id e.ids,
                  not-has_key id (delete old.id e.ids) last,
                ))
        | inr more ↦
            rw (l, q, more, remove_entry)
              (noted_in-insert old.crontab tab id (record e { ids = delete old.id e.ids }) m.entries
                ∙ ground (arith, l, eq_iff old.crontab tab, has_key-delete old.id id e.ids))
      ]
    ]
  ]

  new_job-AreParsed :
      (new : ScheduleEntry) (o : Option ℕ) (c : C) (m : ScheduleManager C)
      → AreParsed m
      → (parses new.crontab ≡ false → o ≡ none)
      → (new.crontab == "") ≡ false
      → AreParsed (with_new_job lib new (o, c) m)
  new_job-AreParsed new none c m v p n tab h = v tab h
  new_job-AreParsed new (some j) c m v p n tab h = elim (Bool-cases (parses new.crontab)) [
    | inr b ↦ let x = p b in cc
    | inl b ↦
        let e : CronEntry = record { entry_id = j; ids = (new.id, true) ∷ [] } in
        ground
          (arith, lookup-insert new.crontab tab e m.entries, eq_iff new.crontab tab, v tab, b, n)
  ]

  add_entry-AreParsed :
      (new : ScheduleEntry) (m : ScheduleManager C) → AreParsed m → AreParsed (add_entry lib new m)
  unfolding add_entry
  add_entry-AreParsed new m v tab h = elim (Bool-cases (new.crontab == "")) [
    | inl empty ↦ v tab (ground arith)
    | inr q ↦ elim (Option-cases (lookup new.crontab m.entries)) [
      | inl l ↦
          let a = lib.add_func new.crontab m.cron in
          let h' = rw (q, l, add_entry) at h in
          new_job-AreParsed new a.0 a.1 m v (parsed new.crontab m.cron).1 q tab h'
      | inr (e, l) ↦
          let h' = rw (q, l, add_entry) at h in
          let b = lookup-insert new.crontab tab (with_id lib new.id e) m.entries in
          v tab (ground (arith, b, l, eq_iff new.crontab tab))
    ]
  ]

  remove_entry-AreParsed :
      (old : ScheduleEntry) (m : ScheduleManager C)
      → AreParsed m
      → AreParsed (remove_entry lib old m)
  unfolding remove_entry
  remove_entry-AreParsed old m v tab h = elim (Option-cases (lookup old.crontab m.entries)) [
    | inl l ↦ v tab (rw (l, remove_entry) at h)
    | inr (e, l) ↦
        let e' : CronEntry = record e { ids = delete old.id e.ids } in
        v tab (
          ground (
            arith,
            l,
            lookup-delete old.crontab tab m.entries,
            lookup-insert old.crontab tab e' m.entries,
            eq_iff old.crontab tab,
          ))
  ]

  run-noted :
      (tab id : String) (xs : List (Call lib)) (m : ScheduleManager C)
      → AreParsed m
      → is_noted tab id (run lib xs m) ≡ wanted parses tab id xs (is_noted tab id m)
  unfolding run
  run-noted tab id [] m v = refl
  run-noted tab id (adds e ∷ xs) m v =
      run-noted tab id xs (add_entry lib e m) (add_entry-AreParsed e m v)
      ∙ ap (wanted parses tab id xs) (add_entry-noted tab id e m v)
  run-noted tab id (removes e ∷ xs) m v =
      run-noted tab id xs (remove_entry lib e m) (remove_entry-AreParsed e m v)
      ∙ ap (wanted parses tab id xs) (remove_entry-noted tab id e m)

  -- Over a cron library that keeps its jobs as documented, and that refuses exactly the crontabs that it cannot parse,
  -- after any calls of Add and Remove from a manager whose jobs are those of its entries, all of them parsed: the jobs of the library are
  -- exactly the entries' crontabs, each once; a binding is noted for a crontab exactly if it has asked for it, the
  -- crontab being one that can be parsed, and has not taken that back since; and no entry is left without a
  -- binding.
  pub run-asked :
      (jobs : C → List (ℕ × String)) (cron : IsCron lib jobs) (xs : List (Call lib))
      (m : ScheduleManager C)
      → IsTied jobs m
      → AreParsed m
      → IsTied jobs (run lib xs m)
        × ((tab id : String)
            → is_noted tab id (run lib xs m) ≡ wanted parses tab id xs (is_noted tab id m))
  run-asked jobs cron xs m v v' =
      (run-IsTied lib jobs cron xs m v, λ tab id. run-noted tab id xs m v')
