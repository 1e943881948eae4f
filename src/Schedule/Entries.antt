-- ===== src/Schedule/Entries.antt =====
-- The entries of the manager of pkg/schedule_manager/schedule_manager.go, and the jobs that they stand for.
use shell_operator.Base.{
  ℕ, ◌≡◌, ◌==◌, nat_key, string_key, List, [], ◌∷◌, ◌++◌, none, some, String, true, false, not,
  lookup, insert, delete, any, any-append, keep, map, refl, sym, arith, Bool-cases, inl, inr, ap,
  ◌∙◌, eq_iff, subst, All,
}
use shell_operator.Counter.{is_empty}
use shell_operator.Schedule.{CronEntry}

abbrev pub Entries : Type 0
Entries = List (String × CronEntry)

abbrev pub job_of : String × CronEntry → ℕ × String
job_of e = (e.1.entry_id, e.0)

-- No crontab and no job occurs twice.
abbrev pub AreDistinct : Entries → Type 0
AreDistinct [] = Unit {0}
AreDistinct (e ∷ es) =
    (any (λ x. x.0 == e.0) es ≡ false)
    × (any (λ x. x.1.entry_id == e.1.entry_id) es ≡ false)
    × AreDistinct es

abbrev pub HasIds : String × CronEntry → Type 0
HasIds e = is_empty e.1.ids ≡ false

pub any-key : (k : String) (es : Entries) → lookup k es ≡ none → any (λ x. x.0 == k) es ≡ false
any-key k [] h = refl
any-key k ((j, d) ∷ es) h = ground (arith, any-key k es)

pub AreDistinct-append :
    (e : String × CronEntry) (es : Entries)
    → AreDistinct es
    → any (λ x. x.0 == e.0) es ≡ false
    → any (λ x. x.1.entry_id == e.1.entry_id) es ≡ false
    → AreDistinct (es ++ e ∷ [])
AreDistinct-append e [] d a b = (refl, refl, tt)
AreDistinct-append e (x ∷ es) d a b = (
  ground (arith, any-append (λ y. y.0 == x.0) es (e ∷ []), eq_iff x.0 e.0, eq_iff e.0 x.0, d.0, a),
  ground (arith, any-append (λ y. y.1.entry_id == x.1.entry_id) es (e ∷ []), d.1, b),
  AreDistinct-append e es d.2 (ground (arith, a)) (ground (arith, b)),
)

-- A change of an entry that keeps its job.
any-insert :
    (k t : String) (e e' : CronEntry) (es : Entries)
    → lookup k es ≡ some e
    → any (λ x. x.0 == t) (insert k e' es) ≡ any (λ x. x.0 == t) es
unfolding insert
any-insert k t e e' [] h = absurd (ground arith)
any-insert k t e e' ((j, d) ∷ es) h = ground (arith, any-insert k t e e' es, eq_iff j k)

head_entry :
    (j k : String) (d e : CronEntry) (es : Entries)
    → lookup k ((j, d) ∷ es) ≡ some e
    → (j == k) ≡ true
    → d ≡ e
head_entry j k d e es h q = ground arith

any-insert_job :
    (k : String) (n : ℕ) (e e' : CronEntry) (es : Entries)
    → lookup k es ≡ some e
    → e'.entry_id ≡ e.entry_id
    → any (λ x. x.1.entry_id == n) (insert k e' es) ≡ any (λ x. x.1.entry_id == n) es
unfolding insert
any-insert_job k n e e' [] h s = absurd (ground arith)
any-insert_job k n e e' ((j, d) ∷ es) h s = elim (Bool-cases (j == k)) [
  | inl q ↦
      let same : d.entry_id ≡ e.entry_id = ap (λ x. x.entry_id) (head_entry j k d e es h q) in
      ground (arith, s, same, q)
  | inr q ↦ ground (arith, any-insert_job k n e e' es, q, s)
]

pub AreDistinct-insert :
    (k : String) (e e' : CronEntry) (es : Entries)
    → lookup k es ≡ some e
    → e'.entry_id ≡ e.entry_id
    → AreDistinct es
    → AreDistinct (insert k e' es)
unfolding insert
AreDistinct-insert k e e' [] h s d = absurd (ground arith)
AreDistinct-insert k e e' ((j, c) ∷ es) h s d = elim (Bool-cases (j == k)) [
  | inl q ↦
      let tab : j ≡ k = ground (arith, eq_iff j k) in
      let job : c.entry_id ≡ e'.entry_id =
        ap (λ x. x.entry_id) (head_entry j k c e es h q) ∙ sym s in
      rw (q, insert)
        (
          subst (λ t. any (λ x. x.0 == t) es ≡ false) tab d.0,
          subst (λ n. any (λ x. x.1.entry_id == n) es ≡ false) job d.1,
          d.2,
        )
  | inr q ↦
      let l : lookup k es ≡ some e = ground arith in
      rw (q, insert)
        (
          any-insert k j e e' es l ∙ d.0,
          any-insert_job k c.entry_id e e' es l s ∙ d.1,
          AreDistinct-insert k e e' es l s d.2,
        )
]

pub map-insert :
    (k : String) (e e' : CronEntry) (es : Entries)
    → lookup k es ≡ some e
    → e'.entry_id ≡ e.entry_id
    → map job_of (insert k e' es) ≡ map job_of es
unfolding insert
map-insert k e e' [] h s = absurd (ground arith)
map-insert k e e' ((j, c) ∷ es) h s = elim (Bool-cases (j == k)) [
  | inl q ↦
      let tab : j ≡ k = ground (arith, eq_iff j k) in
      let job : c.entry_id ≡ e'.entry_id =
        ap (λ x. x.entry_id) (head_entry j k c e es h q) ∙ sym s in
      rw (q, insert) (ground (arith, tab, job))
  | inr q ↦ rw (q, insert) (ap (λ r. (c.entry_id, j) ∷ r) (map-insert k e e' es (ground arith) s))
]

pub All-insert_entry :
    (k : String) (e : CronEntry) (es : Entries)
    → HasIds (k, e)
    → All HasIds es
    → All HasIds (insert k e es)
unfolding insert
All-insert_entry k e [] p h = (p, tt)
All-insert_entry k e ((j, c) ∷ es) p h = elim (Bool-cases (j == k)) [
  | inl q ↦ rw (q, insert) (p, h.1)
  | inr q ↦ rw (q, insert) (h.0, All-insert_entry k e es p h.1)
]

-- A removal takes out one entry, and with it the job of that number.
delete-absent : (k : String) (es : Entries) → any (λ x. x.0 == k) es ≡ false → delete k es ≡ es
unfolding delete
delete-absent k [] a = refl
delete-absent k ((j, c) ∷ es) a = ground (arith, delete-absent k es)

keep-absent :
    (n : ℕ) (es : Entries)
    → any (λ x. x.1.entry_id == n) es ≡ false
    → keep (λ j. not (j.0 == n)) (map job_of es) ≡ map job_of es
keep-absent n [] a = refl
keep-absent n ((j, c) ∷ es) a = ground (arith, keep-absent n es)

any-lookup :
    (k : String) (e : CronEntry) (es : Entries)
    → lookup k es ≡ some e
    → any (λ x. x.1.entry_id == e.entry_id) es ≡ true
any-lookup k e [] h = absurd (ground arith)
any-lookup k e ((j, c) ∷ es) h = elim (Bool-cases (j == k)) [
  | inl q ↦
      let job : c.entry_id ≡ e.entry_id = ap (λ x. x.entry_id) (head_entry j k c e es h q) in
      ground (arith, job)
  | inr q ↦ ground (arith, any-lookup k e es, q)
]

pub map-delete :
    (k : String) (e : CronEntry) (es : Entries)
    → lookup k es ≡ some e
    → AreDistinct es
    → map job_of (delete k es) ≡ keep (λ j. not (j.0 == e.entry_id)) (map job_of es)
unfolding delete
map-delete k e [] h d = absurd (ground arith)
map-delete k e ((j, c) ∷ es) h d = elim (Bool-cases (j == k)) [
  | inl q ↦
      let tab : j ≡ k = ground (arith, eq_iff j k) in
      let job : c.entry_id ≡ e.entry_id = ap (λ x. x.entry_id) (head_entry j k c e es h q) in
      rw (q, delete)
        (ap (map job_of) (delete-absent k es (subst (λ t. any (λ x. x.0 == t) es ≡ false) tab d.0))
          ∙ sym (
              keep-absent e.entry_id es
                (subst (λ n. any (λ x. x.1.entry_id == n) es ≡ false) job d.1))
          ∙ ground (arith, job))
  | inr q ↦
      let l : lookup k es ≡ some e = ground arith in
      rw (q, delete)
        (elim (Bool-cases (c.entry_id == e.entry_id)) [
          | inl same ↦
              let n : c.entry_id ≡ e.entry_id = ground arith in
              absurd (
                ground (
                  arith,
                  any-lookup k e es l,
                  subst (λ i. any (λ x. x.1.entry_id == i) es ≡ false) n d.1,
                ))
          | inr other ↦
              ap (λ r. (c.entry_id, j) ∷ r) (map-delete k e es l d.2) ∙ ground (arith, other)
        ])
]

any-delete :
    (k t : String) (es : Entries)
    → any (λ x. x.0 == t) es ≡ false
    → any (λ x. x.0 == t) (delete k es) ≡ false
unfolding delete
any-delete k t [] a = refl
any-delete k t ((j, c) ∷ es) a = ground (arith, any-delete k t es)

any-delete_job :
    (k : String) (n : ℕ) (es : Entries)
    → any (λ x. x.1.entry_id == n) es ≡ false
    → any (λ x. x.1.entry_id == n) (delete k es) ≡ false
unfolding delete
any-delete_job k n [] a = refl
any-delete_job k n ((j, c) ∷ es) a = ground (arith, any-delete_job k n es)

pub AreDistinct-delete : (k : String) (es : Entries) → AreDistinct es → AreDistinct (delete k es)
unfolding delete
AreDistinct-delete k [] d = tt
AreDistinct-delete k ((j, c) ∷ es) d = elim (Bool-cases (j == k)) [
  | inl q ↦ rw (q, delete) (AreDistinct-delete k es d.2)
  | inr q ↦
      rw (q, delete)
        (any-delete k j es d.0, any-delete_job k c.entry_id es d.1, AreDistinct-delete k es d.2)
]

pub All-delete : (k : String) (es : Entries) → All HasIds es → All HasIds (delete k es)
unfolding delete
All-delete k [] h = tt
All-delete k ((j, c) ∷ es) h = elim (Bool-cases (j == k)) [
  | inl q ↦ rw (q, delete) (All-delete k es h.1)
  | inr q ↦ rw (q, delete) (h.0, All-delete k es h.1)
]
