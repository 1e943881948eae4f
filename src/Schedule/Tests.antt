-- ===== src/Schedule/Tests.antt =====
-- pkg/schedule_manager/schedule_manager.go over a cron library that is a list of jobs.
use mathlib.Core.List.{Permᴰ}
use shell_operator.Base.{
  ◌↔◌, Bool, ℕ, suc, ◌≡◌, ◌==◌, nat_key, string_key, if◌then◌else◌, List, [], ◌∷◌, ◌++◌, none, some,
  String, true, false, not, ◌+◌, ◌≤◌, any, keep, refl, sym, arith, Bool-cases, inl, inr, ap, ◌∙◌,
  subst,
}
use shell_operator.Schedule.{
  CronLibrary, IsCron, ScheduleEntry, ScheduleManager, Call, adds, removes, run,
}
use shell_operator.Schedule.Jobs.{IsTied}
use shell_operator.Schedule.Asked.{is_noted, wanted, run-asked}
use shell_operator.Schedule.Links.{ScheduleConfig, ScheduleController}
use mathlib.Core.List.Permᴰ

abbrev Jobs : Type 0
Jobs = List (ℕ × String)

-- A number above those of all jobs.
abbrev unused : Jobs → ℕ
unused [] = 1
unused (j ∷ js) = suc (j.0 + unused js)

abbrev library : CronLibrary Jobs
library = record {
  add_func = λ tab js.
      if tab == "nonsense" then (none, js) else (some (unused js), js ++ (unused js, tab) ∷ []);
  remove_job = λ id js. keep (λ j. not (j.0 == id)) js;
}

any-unused : (n : ℕ) (js : Jobs) → unused js ≤ n → any (λ j. j.0 == n) js ≡ false
any-unused n [] h = refl
any-unused n (j ∷ js) h = ground (arith, any-unused n js)

abbrev jobs_of : Jobs → List (ℕ × String)
jobs_of js = js

add-nonsense :
    (tab : String) (c : Jobs) → (tab == "nonsense") ≡ true → library.add_func tab c ≡ (none, c)
add-nonsense tab c q = rw q refl

add-job :
    (tab : String) (c : Jobs)
    → (tab == "nonsense") ≡ false
    → library.add_func tab c ≡ (some (unused c), c ++ (unused c, tab) ∷ [])
add-job tab c q = rw q refl

added_job :
    (tab : String) (c c' : Jobs) (id : ℕ)
    → library.add_func tab c ≡ (some id, c')
    → (c' ≡ c ++ (id, tab) ∷ []) × (any (λ j. j.0 == id) c ≡ false)
added_job tab c c' id h = elim (Bool-cases (tab == "nonsense")) [
  | inl q ↦
      let o : none ≡ some id = ap (λ r. r.0) (sym (add-nonsense tab c q) ∙ h) in
      absurd (ground (arith, o))
  | inr q ↦
      let e = sym (add-job tab c q) ∙ h in
      let o : some (unused c) ≡ some id = ap (λ r. r.0) e in
      let p : unused c ≡ id = ground (arith, o) in
      (
        sym (ap (λ r. r.1) e) ∙ ap (λ n. c ++ (n, tab) ∷ []) p,
        subst (λ n. any (λ j. j.0 == n) c ≡ false) p (any-unused (unused c) c (omega arith)),
      )
]

refused_job : (tab : String) (c c' : Jobs) → library.add_func tab c ≡ (none, c') → c' ≡ c
refused_job tab c c' h = elim (Bool-cases (tab == "nonsense")) [
  | inl q ↦ sym (ap (λ r. r.1) (sym (add-nonsense tab c q) ∙ h))
  | inr q ↦
      let o : some (unused c) ≡ none = ap (λ r. r.0) (sym (add-job tab c q) ∙ h) in
      absurd (ground (arith, o))
]

library-IsCron : IsCron library jobs_of
library-IsCron = record { added = added_job; refused = refused_job; removed = λ id c. refl }

abbrev new_manager : ScheduleManager Jobs
new_manager = record { cron = []; entries = [] }

abbrev entry : String → String → ScheduleEntry
entry tab id = record { crontab = tab; id = id }

abbrev calls : List (Call library)
calls =
    adds (entry "* * * * *" "a")
    ∷ adds (entry "* * * * *" "b")
    ∷ removes (entry "* * * * *" "a")
    ∷ []

-- The library parses every text but one.
abbrev is_crontab : String → Bool
is_crontab tab = not (tab == "nonsense")

library-parses :
    (tab : String) (js : Jobs) → ((library.add_func tab js).0 ≡ none) ↔ (is_crontab tab ≡ false)
library-parses tab js = elim (Bool-cases (tab == "nonsense")) [
  | inl e ↦ rw e ((λ p. refl), (λ p. refl))
  | inr e ↦ rw e ((λ p. cc), (λ p. cc))
]

run-asked_example :
    IsTied jobs_of (run library calls new_manager)
    × ((tab id : String)
        → is_noted tab id (run library calls new_manager) ≡ wanted is_crontab tab id calls false)
run-asked_example =
    run-asked library is_crontab library-parses jobs_of library-IsCron calls new_manager
      (record { tied = refl; distinct = tt; asked = tt }) (λ tab h. cc)

abbrev binding_at : String → String → ScheduleConfig
binding_at tab id = record {
  binding_name = id;
  schedule_entry = entry tab id;
  include_snapshots_from = [];
  allow_failure = false;
  queue = "main";
  group = "";
}

-- Two bindings share a crontab.
abbrev three_bindings : ScheduleController Jobs
three_bindings = record {
  schedule_links = [];
  schedule_bindings =
      binding_at "* * * * *" "a" ∷ binding_at "0 * * * *" "b" ∷ binding_at "* * * * *" "c" ∷ [];
  schedule_manager = new_manager;
}
