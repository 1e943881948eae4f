-- ===== src/Schedule.antt =====
-- pkg/schedule_manager/schedule_manager.go: the jobs of the cron library that bindings share by their crontab. The library
-- gopkg.in/robfig/cron.v2 is a parameter.
pub mod Entries
pub mod Jobs
pub mod Asked
pub mod Links
pub mod Handled
mod Tests
use shell_operator.Base.{
  ℕ, Bool, ◌≡◌, ◌==◌, nat_key, string_key, if◌then◌else◌, List, [], ◌∷◌, ◌++◌, Option, none, some,
  String, true, false, not, lookup, insert, delete, has_key, any, keep,
}
use shell_operator.Counter.{is_empty}

-- AddFunc, which answers no id for a crontab that it cannot parse, and Remove.
pub record CronLibrary (C : Type 0) : Type 0 where
  pub add_func : String → C → Option ℕ × C
  pub remove_job : ℕ → C → C

-- What the library documents of its jobs.
pub record IsCron {C : Type 0} (lib : CronLibrary C) (jobs : C → List (ℕ × String)) : Type 0 where
  pub added :
      (tab : String) (c c' : C) (id : ℕ)
      → lib.add_func tab c ≡ (some id, c')
      → (jobs c' ≡ jobs c ++ (id, tab) ∷ []) × (any (λ j. j.0 == id) (jobs c) ≡ false)
  pub refused : (tab : String) (c c' : C) → lib.add_func tab c ≡ (none, c') → jobs c' ≡ jobs c
  pub removed : (id : ℕ) (c : C) → jobs (lib.remove_job id c) ≡ keep (λ j. not (j.0 == id)) (jobs c)

pub record ScheduleEntry : Type 0 where
  pub crontab : String
  pub id : String

pub record CronEntry : Type 0 where
  pub entry_id : ℕ
  pub ids : List (String × Bool)

pub record ScheduleManager (C : Type 0) : Type 0 where
  pub cron : C
  pub entries : List (String × CronEntry)

module _ {C : Type 0} (lib : CronLibrary C) where
  abbrev pub with_new_job : ScheduleEntry → Option ℕ × C → ScheduleManager C → ScheduleManager C
  with_new_job new (none, c) m = record m { cron = c }
  with_new_job new (some entry, c) m = record {
    cron = c;
    entries = insert new.crontab (record { entry_id = entry; ids = (new.id, true) ∷ [] }) m.entries;
  }

  abbrev pub with_id : String → CronEntry → CronEntry
  with_id id e = if has_key id e.ids then e else record e { ids = insert id true e.ids }

  unfoldable pub add_entry : ScheduleEntry → ScheduleManager C → ScheduleManager C
  add_entry new m = if new.crontab == "" then m else elim (lookup new.crontab m.entries) [
    | none ↦ with_new_job new (lib.add_func new.crontab m.cron) m
    | some e ↦ record m { entries = insert new.crontab (with_id new.id e) m.entries }
  ]

  -- The id is taken out, and the job stopped with the last one.
  abbrev pub without_id : ScheduleEntry → CronEntry → ScheduleManager C → ScheduleManager C
  without_id old e m =
      let ids = delete old.id e.ids in
      if is_empty ids
      then record {
        cron = lib.remove_job e.entry_id m.cron;
        entries = delete old.crontab m.entries;
      }
      else record m { entries = insert old.crontab (record e { ids = ids }) m.entries }

  unfoldable pub remove_entry : ScheduleEntry → ScheduleManager C → ScheduleManager C
  remove_entry old m = elim (lookup old.crontab m.entries) [
    | none ↦ m
    | some e ↦ if has_key old.id e.ids then without_id old e m else m
  ]

  pub data Call : Type 0 where
    adds removes : ScheduleEntry → Call

  abbrev pub step : Call → ScheduleManager C → ScheduleManager C
  step (adds e) m = add_entry e m
  step (removes e) m = remove_entry e m

  unfoldable pub run : List Call → ScheduleManager C → ScheduleManager C
  run [] m = m
  run (x ∷ xs) m = run xs (step x m)
