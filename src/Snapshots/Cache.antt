-- ===== src/Snapshots/Cache.antt =====
-- The cache of UpdateSnapshots, pkg/hook/controller/hook_controller.go.
use shell_operator.Base.{
  ==_sym, insert-absent, ◌++◌, map, lookup-insert_ne, subst, sym, differ, ◌==◌, lookup-insert_self,
  ◌≢◌, ◌∙◌, ◌+◌, Option-cases, ap, length, Option, ℕ, ◌≡◌, insert, lookup, String, List, inr, inl,
  false, some, none, nat_key, string_key, arith, refl, [], ◌∷◌,
}
use shell_operator.Bindings.{MonitorCalls, OnKubernetesEventConfig, World}
use shell_operator.Snapshots.{Fetched, monitor_of, snapshots_for, fetch, cached}

abbrev pub Cache : Type 0 → Type 0
Cache R = List (String × Option (List R))

-- What has been read stays as it was read.
abbrev pub IsGrown : {R : Type 0} → Cache R → Cache R → Type 0
IsGrown m m' = (k : String) (o : Option (List _)) → lookup k m ≡ some o → lookup k m' ≡ some o

abbrev pub HasDistinctNames : {R : Type 0} → Cache R → Type 0
HasDistinctNames [] = Unit
HasDistinctNames ((k, o) ∷ m) = (lookup k m ≡ none) × HasDistinctNames m

pub IsGrown_refl : {R : Type 0} (m : Cache R) → IsGrown m m
IsGrown_refl m k o h = h

pub IsGrown_trans :
    {R : Type 0} (m m' m'' : Cache R) → IsGrown m m' → IsGrown m' m'' → IsGrown m m''
IsGrown_trans m m' m'' g h k o e = h k o (g k o e)

insert-HasDistinctNames :
    {R : Type 0} (k : String) (o : Option (List R)) (m : Cache R)
    → lookup k m ≡ none
    → HasDistinctNames m
    → HasDistinctNames (insert k o m)
unfolding insert
insert-HasDistinctNames k o [] e h = (refl, tt)
insert-HasDistinctNames k o ((j, v) ∷ m) e h =
    let d : (j == k) ≡ false = ground arith in
    let n = differ j k d in
    rw d (
      lookup-insert_ne k j o m (λ p. n (sym p)) ∙ h.0,
      insert-HasDistinctNames k o m (ground arith) h.1,
    )

length-insert_new :
    {R : Type 0} (k : String) (o : Option (List R)) (m : Cache R)
    → lookup k m ≡ none
    → length (insert k o m) ≡ length m + 1
unfolding insert
length-insert_new k o [] e = refl
length-insert_new k o ((j, v) ∷ m) e = ground (arith, length-insert_new k o m)

module _ {M R : Type 0} (calls : MonitorCalls M R) where
  -- What a read of a name gives: the objects of the monitor of the first binding with that name.
  abbrev pub expected_read : String → World M → Option (List R) × World M
  expected_read name w = elim (lookup name (map (λ b. (b.binding_name, b.monitor_id)) w.bindings)) [
    | none ↦ (none, w)
    | some id ↦ elim (lookup id w.monitors) [
      | none ↦ (none, w)
      | some m ↦
          let (objects, m') = calls.snapshot m in
          (some objects, record w { monitors = insert id m' w.monitors })
    ]
  ]

  monitor_of-lookup :
      (bs : List OnKubernetesEventConfig) (name : String)
      → monitor_of bs name ≡ lookup name (map (λ b. (b.binding_name, b.monitor_id)) bs)
  monitor_of-lookup [] name = refl
  monitor_of-lookup (b ∷ bs) name = rw (==_sym name b.binding_name, monitor_of-lookup bs name) refl

  snapshots_for-read :
      (name : String) (w : World M) → snapshots_for calls name w ≡ expected_read name w
  unfolding snapshots_for
  snapshots_for-read name w = rw (snapshots_for, monitor_of-lookup w.bindings name) refl

  module _ (others : ℕ → World M → World M) where
    -- Reads of names, one after the other, with what happens to the monitors before each.
    abbrev pub reads : ℕ → List String → World M → Cache R × World M
    reads n [] w = ([], w)
    reads n (name ∷ names) w =
        let (o, w') = expected_read name (others n w) in
        let (cache, w'') = reads (n + 1) names w' in ((name, o) ∷ cache, w'')

    abbrev pub names_of : Cache R → List String
    names_of = map (λ e. e.0)

    -- Each name is read once, and what is cached is what reads of the names give, from the world `w` on.
    pub record IsRead (w : World M) (f : Fetched M R) : Type 0 where
      pub distinct : HasDistinctNames f.cache
      pub counted : f.calls_made ≡ length f.cache
      pub replayed : reads 0 (names_of f.cache) w ≡ (f.cache, f.world)

    pub start-IsRead : (w : World M) → IsRead w (record { world = w; cache = []; calls_made = 0 })
    start-IsRead w = record { distinct = tt; counted = refl; replayed = refl }

    reads-append :
        (n : ℕ) (c c' : Cache R) (name : String) (o : Option (List R)) (w w' w'' : World M)
        → reads n (names_of c) w ≡ (c', w')
        → expected_read name (others (n + length c) w') ≡ (o, w'')
        → reads n (names_of (c ++ (name, o) ∷ [])) w ≡ (c' ++ (name, o) ∷ [], w'')
    reads-append n [] c' name o w w' w'' h e =
        let p : (c' ≡ []) × (w' ≡ w) = (ap (λ x. x.0) (sym h), ap (λ x. x.1) (sym h)) in
        let e' : expected_read name (others n w) ≡ (o, w'') =
          subst (λ x. expected_read name (others n x) ≡ (o, w'')) p.1
            (ap (λ x. expected_read name (others x w')) (omega arith) ∙ e) in
        rw (e', p.0) refl
    reads-append n ((k, v) ∷ c) c' name o w w' w'' h e =
        let r = expected_read k (others n w) in
        let ih =
          reads-append (n + 1) c (reads (n + 1) (names_of c) r.1).0 name o r.1 w' w''
            (ap (λ x. ((reads (n + 1) (names_of c) r.1).0, x.1)) h)
            (ap (λ x. expected_read name (others x w')) (omega arith) ∙ e) in
        ap (λ x. ((k, r.0) ∷ x.0, x.1)) ih ∙ ap (λ x. (x.0 ++ (name, o) ∷ [], w'')) h

    fetch-known :
        (n : String) (f : Fetched M R) (o : Option (List R))
        → lookup n f.cache ≡ some o
        → fetch calls others n f ≡ f
    unfolding fetch
    fetch-known n f o e = rw (e, fetch) refl

    abbrev answer : String → Fetched M R → Option (List R) × World M
    answer n f = snapshots_for calls n (others f.calls_made f.world)

    abbrev asked : String → Fetched M R → Fetched M R
    asked n f = record {
      world = (answer n f).1;
      cache = insert n (answer n f).0 f.cache;
      calls_made = f.calls_made + 1;
    }

    fetch-new :
        (n : String) (f : Fetched M R)
        → lookup n f.cache ≡ none
        → fetch calls others n f ≡ asked n f
    unfolding fetch
    fetch-new n f e = rw (e, fetch) refl

    asked-IsRead :
        (w : World M) (n : String) (f : Fetched M R)
        → lookup n f.cache ≡ none
        → IsRead w f
        → IsRead w (asked n f)
    asked-IsRead w n f e h =
        let a = (answer n f).0 in
        let same : 0 + length f.cache ≡ f.calls_made = let c = h.counted in omega arith in
        record {
          distinct = insert-HasDistinctNames n a f.cache e h.distinct;
          counted = ap (λ x. x + 1) h.counted ∙ sym (length-insert_new n a f.cache e);
          replayed =
              subst (λ c. reads 0 (names_of c) w ≡ (c, (answer n f).1))
                (sym (insert-absent n a f.cache e))
                (reads-append 0 f.cache f.cache n a w f.world (answer n f).1 h.replayed (
                  ap (λ x. expected_read n (others x f.world)) same
                  ∙ sym (snapshots_for-read n (others f.calls_made f.world))));
        }

    pub fetch-IsRead :
        (w : World M) (n : String) (f : Fetched M R)
        → IsRead w f
        → IsRead w (fetch calls others n f)
    fetch-IsRead w n f h = elim (Option-cases (lookup n f.cache)) [
      | inl e ↦ rw (fetch-new n f e) (asked-IsRead w n f e h)
      | inr (o, e) ↦ rw (fetch-known n f o e) h
    ]

    pub fetch-IsGrown :
        (n : String) (f : Fetched M R) → IsGrown f.cache (fetch calls others n f).cache
    fetch-IsGrown n f k o l = elim (Option-cases (lookup n f.cache)) [
      | inr (v, e) ↦ rw (fetch-known n f v e) l
      | inl e ↦
          let a = (answer n f).0 in
          let ne : n ≢ k = λ p. let x = subst (λ j. lookup j f.cache ≡ none) p e in cc in
          rw (fetch-new n f e) (lookup-insert_ne n k a f.cache ne ∙ l)
    ]

    -- The name has been read.
    pub fetch-lookup :
        (n : String) (f : Fetched M R)
        → (o : Option (List R)) × (lookup n (fetch calls others n f).cache ≡ some o)
    fetch-lookup n f = elim (Option-cases (lookup n f.cache)) [
      | inr (v, e) ↦ (v, rw (fetch-known n f v e) e)
      | inl e ↦ let a = (answer n f).0 in (a, rw (fetch-new n f e) (lookup-insert_self n a f.cache))
    ]

    pub cached-some :
        (n : String) (f : Fetched M R) (o : Option (List R))
        → lookup n f.cache ≡ some o
        → cached calls others n f ≡ o
    cached-some n f o e = rw (e, cached) refl
