-- ===== src/Schedule/Jobs.antt =====
-- The manager of pkg/schedule_manager/schedule_manager.go keeps one job of the cron library for each of its entries, and
-- none else.
use mathlib.Core.List.{map-append}
use shell_operator.Base.{
  insert-absent, ℕ, Bool, ◌≡◌, ◌==◌, nat_key, string_key, List, [], ◌∷◌, ◌++◌, Option, none, some,
  String, true, false, not, lookup, insert, delete, has_key, any, keep, map, refl, sym, arith,
  Bool-cases, Option-cases, inl, inr, ap, ◌∙◌, subst, All, All-append,
}
use shell_operator.Counter.{is_empty}
use shell_operator.Schedule.{
  CronLibrary, IsCron, ScheduleEntry, CronEntry, ScheduleManager, add_entry, remove_entry, Call,
  adds, removes, run, with_id, with_new_job,
}
use shell_operator.Schedule.Entries.{
  Entries, job_of, AreDistinct, HasIds, any-key, AreDistinct-append, AreDistinct-insert, map-insert,
  All-insert_entry, map-delete, AreDistinct-delete, All-delete,
}

-- The jobs are those of the entries, and every entry has an id.
pub record IsTied {C : Type 0} (jobs : C → List (ℕ × String)) (m : ScheduleManager C) : Type 0 where
  pub tied : jobs m.cron ≡ map job_of m.entries
  pub distinct : AreDistinct m.entries
  pub asked : All HasIds m.entries

insert-HasIds :
    (id : String) (b : Bool) (m : List (String × Bool)) → is_empty (insert id b m) ≡ false
unfolding insert
insert-HasIds id b [] = refl
insert-HasIds id b ((j, c) ∷ m) = ground arith

any-job :
    (n : ℕ) (es : Entries) → any (λ j. j.0 == n) (map job_of es) ≡ any (λ x. x.1.entry_id == n) es
any-job n [] = refl
any-job n (e ∷ es) = ground (arith, any-job n es)

module _ {C : Type 0} (lib : CronLibrary C) (jobs : C → List (ℕ × String))
    (cron : IsCron lib jobs) where
  new_job-IsTied :
      (new : ScheduleEntry) (o : Option ℕ) (c : C) (m : ScheduleManager C)
      → lib.add_func new.crontab m.cron ≡ (o, c)
      → lookup new.crontab m.entries ≡ none
      → IsTied jobs m
      → IsTied jobs (with_new_job lib new (o, c) m)
  new_job-IsTied new none c m h absent v = record {
    tied = cron.refused new.crontab m.cron c h ∙ v.tied;
    distinct = v.distinct;
    asked = v.asked;
  }
  new_job-IsTied new (some n) c m h absent v =
      let e : CronEntry = record { entry_id = n; ids = (new.id, true) ∷ [] } in
      let (a, b) = cron.added new.crontab m.cron c n h in
      let placed = insert-absent new.crontab e m.entries absent in
      let fresh : any (λ x. x.1.entry_id == n) m.entries ≡ false =
        sym (any-job n m.entries) ∙ ap (any (λ j. j.0 == n)) (sym v.tied) ∙ b in
      record {
        tied =
            a
            ∙ ap (λ r. r ++ (n, new.crontab) ∷ []) v.tied
            ∙ sym (ap (map job_of) placed ∙ map-append job_of m.entries ((new.crontab, e) ∷ []));
        distinct = subst AreDistinct (sym placed) (
            AreDistinct-append (new.crontab, e) m.entries v.distinct
              (any-key new.crontab m.entries absent) fresh);
        asked =
            subst (All HasIds) (sym placed)
              (All-append HasIds m.entries ((new.crontab, e) ∷ []) v.asked (refl, tt));
      }

  -- Another set of ids for an entry that is there.
  changed_ids-IsTied :
      (k : String) (e e' : CronEntry) (m : ScheduleManager C)
      → lookup k m.entries ≡ some e
      → e'.entry_id ≡ e.entry_id
      → HasIds (k, e')
      → IsTied jobs m
      → IsTied jobs (record m { entries = insert k e' m.entries })
  changed_ids-IsTied k e e' m l s i v = record {
    tied = v.tied ∙ sym (map-insert k e e' m.entries l s);
    distinct = AreDistinct-insert k e e' m.entries l s v.distinct;
    asked = All-insert_entry k e' m.entries i v.asked;
  }

  with_id-HasIds : (id : String) (e : CronEntry) → HasIds (id, e) → HasIds (id, with_id lib id e)
  with_id-HasIds id e h = elim (Bool-cases (has_key id e.ids)) [
    | inl q ↦ rw q h
    | inr q ↦ rw q (insert-HasIds id true e.ids)
  ]

  with_id-job : (id : String) (e : CronEntry) → (with_id lib id e).entry_id ≡ e.entry_id
  with_id-job id e = ground arith

  asked-lookup :
      (k : String) (e : CronEntry) (es : Entries)
      → lookup k es ≡ some e
      → All HasIds es
      → HasIds (k, e)
  asked-lookup k e [] h a = absurd (ground arith)
  asked-lookup k e ((j, c) ∷ es) h a = elim (Bool-cases (j == k)) [
    | inl q ↦ let p : c ≡ e = ground arith in subst (λ x. HasIds (k, x)) p a.0
    | inr q ↦ asked-lookup k e es (ground arith) a.1
  ]

  add_entry-IsTied :
      (new : ScheduleEntry) (m : ScheduleManager C)
      → IsTied jobs m
      → IsTied jobs (add_entry lib new m)
  unfolding add_entry
  add_entry-IsTied new m v = elim (Bool-cases (new.crontab == "")) [
    | inl empty ↦ rw (empty, add_entry) v
    | inr q ↦ elim (Option-cases (lookup new.crontab m.entries)) [
      | inl l ↦
          rw (q, l, add_entry)
            (new_job-IsTied new (lib.add_func new.crontab m.cron).0
              (lib.add_func new.crontab m.cron).1 m refl l v)
      | inr (e, l) ↦
          rw (q, l, add_entry)
            (changed_ids-IsTied new.crontab e (with_id lib new.id e) m l (with_id-job new.id e)
              (with_id-HasIds new.id e (asked-lookup new.crontab e m.entries l v.asked)) v)
    ]
  ]

  remove_entry-IsTied :
      (old : ScheduleEntry) (m : ScheduleManager C)
      → IsTied jobs m
      → IsTied jobs (remove_entry lib old m)
  unfolding remove_entry
  remove_entry-IsTied old m v = elim (Option-cases (lookup old.crontab m.entries)) [
    | inl l ↦ rw (l, remove_entry) v
    | inr (e, l) ↦ elim (Bool-cases (has_key old.id e.ids)) [
      | inr q ↦ rw (l, q, remove_entry) v
      | inl q ↦ elim (Bool-cases (is_empty (delete old.id e.ids))) [
        | inl last ↦
            rw (l, q, last, remove_entry)
              (record {
                tied =
                    cron.removed e.entry_id m.cron
                    ∙ ap (keep (λ j. not (j.0 == e.entry_id))) v.tied
                    ∙ sym (map-delete old.crontab e m.entries l v.distinct);
                distinct = AreDistinct-delete old.crontab m.entries v.distinct;
                asked = All-delete old.crontab m.entries v.asked;
              })
        | inr more ↦
            rw (l, q, more, remove_entry)
              (changed_ids-IsTied old.crontab e (record e { ids = delete old.id e.ids }) m l refl
                more v)
      ]
    ]
  ]

  -- Over a cron library that keeps its jobs as documented, and after any calls of Add and Remove
  -- from a manager for which this holds: the jobs of the library are exactly the entries' crontabs,
  -- each once, and every entry has an id.
  pub run-IsTied :
      (xs : List (Call lib)) (m : ScheduleManager C) → IsTied jobs m → IsTied jobs (run lib xs m)
  unfolding run
  run-IsTied [] m v = v
  run-IsTied (adds e ∷ xs) m v = run-IsTied xs (add_entry lib e m) (add_entry-IsTied e m v)
  run-IsTied (removes e ∷ xs) m v = run-IsTied xs (remove_entry lib e m) (remove_entry-IsTied e m v)
