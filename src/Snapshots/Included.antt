-- ===== src/Snapshots/Included.antt =====
-- What the loops of UpdateSnapshots, pkg/hook/controller/hook_controller.go, have read and put into a context.
use shell_operator.Base.{
  sym, if◌then◌else◌, ==_sym, map, ap, lookup-insert_self, differ, subst, lookup-insert_ne,
  Bool-cases, eq_iff, ◌∙◌, ◌==◌, insert, any, lookup, List, ◌≡◌, Option, ℕ, String, inr, inl, false,
  true, some, none, nat_key, string_key, arith, refl, [], ◌∷◌,
}
use shell_operator.Task.{context_is_synchronization}
use shell_operator.Bindings.{OnKubernetesEventConfig, MonitorCalls, World}
use shell_operator.Snapshots.{
  including, kubernetes_including, get_include_snapshots_from, IncludingBinding, HookController,
  FullContext, Fetched, or_empty, fetch, cached, include,
}
use shell_operator.Snapshots.Cache.{
  Cache, IsGrown, IsGrown_refl, IsGrown_trans, IsRead, fetch-IsRead, fetch-IsGrown, fetch-lookup,
  cached-some,
}

-- A snapshot that has been read, under its name.
abbrev pub HasRead : {R : Type 0} → Cache R → String → Option (List R) → Type 0
HasRead cache name snapshot =
    (o : Option (List _)) × (lookup name cache ≡ some o) × (snapshot ≡ some (or_empty o))

-- What the bindings of a hook include, by their type and then by their name.
abbrev pub included_table : HookController → List (String × List (String × List String))
included_table hc =
    ("kubernetes", map (λ b. (b.binding_name, b.include_snapshots_from)) hc.kubernetes_bindings)
    ∷ ("schedule", map (λ b. (b.binding_name, b.include_snapshots_from)) hc.schedule_bindings)
    ∷ (
      "kubernetesValidating",
      map (λ b. (b.binding_name, b.include_snapshots_from)) hc.validating_bindings,
    )
    ∷ (
      "kubernetesMutating",
      map (λ b. (b.binding_name, b.include_snapshots_from)) hc.mutating_bindings,
    )
    ∷ (
      "kubernetesCustomResourceConversion",
      map (λ b. (b.binding_name, b.include_snapshots_from)) hc.conversion_bindings,
    )
    ∷ []

-- No entry is as an empty one.
abbrev pub entry_of {ℓ} : {A : Type ℓ} → String → List (String × List A) → List A
entry_of key table = elim (lookup key table) [ none ↦ [] | some x ↦ x ]

abbrev pub included_names : {R : Type 0} → HookController → FullContext R → List String
included_names hc c =
    entry_of c.context.binding (entry_of c.context.binding_type (included_table hc))

entry_of-cons {ℓ} :
    {A : Type ℓ} (name k : String) (x : List A) (m : List (String × List A))
    → entry_of name ((k, x) ∷ m) ≡ (if name == k then x else entry_of name m)
entry_of-cons name k x m = elim (Bool-cases (name == k)) [
  | inl e ↦ let q : (k == name) ≡ true = ==_sym k name ∙ e in rw (e, q, lookup, entry_of) refl
  | inr e ↦ let q : (k == name) ≡ false = ==_sym k name ∙ e in rw (e, q, lookup, entry_of) refl
]

kubernetes_including-entry :
    (bs : List OnKubernetesEventConfig) (name : String)
    → kubernetes_including bs name
      ≡ entry_of name (map (λ b. (b.binding_name, b.include_snapshots_from)) bs)
kubernetes_including-entry [] name = refl
kubernetes_including-entry (b ∷ bs) name =
    ap (λ r. if name == b.binding_name then b.include_snapshots_from else r)
      (kubernetes_including-entry bs name)
    ∙ sym (
        entry_of-cons name b.binding_name b.include_snapshots_from
          (map (λ b. (b.binding_name, b.include_snapshots_from)) bs))

including-entry :
    (bs : List IncludingBinding) (name : String)
    → including bs name ≡ entry_of name (map (λ b. (b.binding_name, b.include_snapshots_from)) bs)
including-entry [] name = refl
including-entry (b ∷ bs) name =
    ap (λ r. if name == b.binding_name then b.include_snapshots_from else r)
      (including-entry bs name)
    ∙ sym (
        entry_of-cons name b.binding_name b.include_snapshots_from
          (map (λ b. (b.binding_name, b.include_snapshots_from)) bs))

-- One more row of the table.
entry_of-row :
    (type name k : String) (row : List (String × List String))
    (table : List (String × List (String × List String))) (x y : List String)
    → x ≡ entry_of name row
    → y ≡ entry_of name (entry_of type table)
    → (if type == k then x else y) ≡ entry_of name (entry_of type ((k, row) ∷ table))
entry_of-row type name k row table x y h h' = elim (Bool-cases (type == k)) [
  | inl e ↦
      let q : entry_of type ((k, row) ∷ table) ≡ row =
        entry_of-cons type k row table ∙ ap (λ b. if b then row else entry_of type table) e in
      ap (λ b. if b then x else y) e ∙ h ∙ ap (λ r. entry_of name r) (sym q)
  | inr e ↦
      let q : entry_of type ((k, row) ∷ table) ≡ entry_of type table =
        entry_of-cons type k row table ∙ ap (λ b. if b then row else entry_of type table) e in
      ap (λ b. if b then x else y) e ∙ h' ∙ ap (λ r. entry_of name r) (sym q)
]

abbrev named_rows : List IncludingBinding → List (String × List String)
named_rows = map (λ b. (b.binding_name, b.include_snapshots_from))

pub get_include_snapshots_from-table :
    (hc : HookController) (type name : String)
    → get_include_snapshots_from hc type name ≡ entry_of name (entry_of type (included_table hc))
unfolding get_include_snapshots_from
get_include_snapshots_from-table hc type name =
    let conversions = named_rows hc.conversion_bindings in
    let t5 = ("kubernetesCustomResourceConversion", conversions) ∷ [] in
    let mutating = named_rows hc.mutating_bindings in
    let t4 = ("kubernetesMutating", mutating) ∷ t5 in
    let validating = named_rows hc.validating_bindings in
    let t3 = ("kubernetesValidating", validating) ∷ t4 in
    let schedules = named_rows hc.schedule_bindings in
    let t2 = ("schedule", schedules) ∷ t3 in
    let kubernetes = map (λ b. (b.binding_name, b.include_snapshots_from)) hc.kubernetes_bindings in
    entry_of-row type name "kubernetes" kubernetes t2
      (kubernetes_including hc.kubernetes_bindings name) _
      (kubernetes_including-entry hc.kubernetes_bindings name)
      (entry_of-row type name "schedule" schedules t3 (including hc.schedule_bindings name) _
        (including-entry hc.schedule_bindings name)
        (entry_of-row type name "kubernetesValidating" validating t4
          (including hc.validating_bindings name) _ (including-entry hc.validating_bindings name)
          (entry_of-row type name "kubernetesMutating" mutating t5
            (including hc.mutating_bindings name) _ (including-entry hc.mutating_bindings name)
            (entry_of-row type name "kubernetesCustomResourceConversion" conversions []
              (including hc.conversion_bindings name) []
              (including-entry hc.conversion_bindings name) refl))))

module _ {R : Type 0} where
  -- What a context `c'` shows, of the context `c` and of what has been read.
  pub record IsShown (hc : HookController) (cache : Cache R) (c c' : FullContext R) : Type 0 where
    pub same_context : c'.context ≡ c.context
    pub included :
        (k : String)
        → any (λ n. n == k) (included_names hc c) ≡ true
        → HasRead cache k (lookup k c'.snapshots)
    pub not_included :
        (k : String)
        → any (λ n. n == k) (included_names hc c) ≡ false
        → lookup k c'.snapshots ≡ none
    pub synchronization_objects :
        context_is_synchronization c.context ≡ true
        → lookup c.context.binding cache ≡ some c'.objects
    pub other_objects : context_is_synchronization c.context ≡ false → c'.objects ≡ c.objects

  -- The same for lists of contexts, one by one.
  abbrev pub AreShown :
      HookController → Cache R → List (FullContext R) → List (FullContext R) → Type 0
  AreShown hc cache [] [] = Unit
  AreShown hc cache (c ∷ cs) (c' ∷ cs') = IsShown hc cache c c' × AreShown hc cache cs cs'
  AreShown hc cache _ _ = ⊥

  pub IsShown-grown :
      (hc : HookController) (cache cache' : Cache R) (c c' : FullContext R)
      → IsGrown cache cache'
      → IsShown hc cache c c'
      → IsShown hc cache' c c'
  IsShown-grown hc cache cache' c c' g h = record {
    same_context = h.same_context;
    included = λ k e. let (o, l, s) = h.included k e in (o, g k o l, s);
    not_included = h.not_included;
    synchronization_objects = λ e. g c.context.binding c'.objects (h.synchronization_objects e);
    other_objects = h.other_objects;
  }

  pub AreShown-grown :
      (hc : HookController) (cache cache' : Cache R) (cs cs' : List (FullContext R))
      → IsGrown cache cache'
      → AreShown hc cache cs cs'
      → AreShown hc cache' cs cs'
  AreShown-grown hc cache cache' [] [] g h = tt
  AreShown-grown hc cache cache' (c ∷ cs) (c' ∷ cs') g h =
      (IsShown-grown hc cache cache' c c' g h.0, AreShown-grown hc cache cache' cs cs' g h.1)
  AreShown-grown hc cache cache' [] (c' ∷ cs') g h = elim h [ ]
  AreShown-grown hc cache cache' (c ∷ cs) [] g h = elim h [ ]

module _ {M R : Type 0} (calls : MonitorCalls M R) (others : ℕ → World M → World M) where
  pub include-IsRead :
      (w : World M) (names : List String) (snapshots : List (String × List R)) (f : Fetched M R)
      → IsRead calls others w f
      → IsRead calls others w (include calls others names snapshots f).1
  unfolding include
  include-IsRead w [] snapshots f h = h
  include-IsRead w (n ∷ names) snapshots f h =
      let f' = fetch calls others n f in
      include-IsRead w names (insert n (or_empty (cached calls others n f')) snapshots) f'
        (fetch-IsRead calls others w n f h)

  pub include-IsGrown :
      (names : List String) (snapshots : List (String × List R)) (f : Fetched M R)
      → IsGrown f.cache (include calls others names snapshots f).1.cache
  unfolding include
  include-IsGrown [] snapshots f = IsGrown_refl f.cache
  include-IsGrown (n ∷ names) snapshots f =
      let f' = fetch calls others n f in
      let ss = insert n (or_empty (cached calls others n f')) snapshots in
      IsGrown_trans f.cache f'.cache (include calls others names ss f').1.cache
        (fetch-IsGrown calls others n f) (include-IsGrown names ss f')

  -- The names that are not in the list keep what they had.
  pub include-others :
      (names : List String) (snapshots : List (String × List R)) (f : Fetched M R) (k : String)
      → any (λ n. n == k) names ≡ false
      → lookup k (include calls others names snapshots f).0 ≡ lookup k snapshots
  unfolding include
  include-others [] snapshots f k e = refl
  include-others (n ∷ names) snapshots f k e =
      let f' = fetch calls others n f in
      let o = or_empty (cached calls others n f') in
      include-others names (insert n o snapshots) f' k (ground arith)
      ∙ lookup-insert_ne n k o snapshots (differ n k (ground arith))

  -- The first of the names, which later ones may name again.
  include-first :
      (n k : String) (names : List String) (snapshots : List (String × List R)) (f : Fetched M R)
      → (n == k) ≡ true
      → any (λ x. x == k) names ≡ false
      → let f' = fetch calls others n f in
        let r =
          include calls others names
            (insert n (or_empty (cached calls others n f')) snapshots)
            f' in
        HasRead r.1.cache k (lookup k r.0)
  include-first n k names snapshots f e d =
      let f' = fetch calls others n f in
      let ss = insert n (or_empty (cached calls others n f')) snapshots in
      let s : n ≡ k = (eq_iff n k).0 e in
      let (o, l) = fetch-lookup calls others n f in
      let l' = include-IsGrown names ss f' n o l in
      (
        o,
        subst (λ x. lookup x (include calls others names ss f').1.cache ≡ some o) s l',
        include-others names ss f' k d
            ∙ subst (λ x. lookup x ss ≡ some (or_empty o)) s
                (lookup-insert_self n (or_empty (cached calls others n f')) snapshots
                  ∙ ap (λ x. some (or_empty x)) (cached-some calls others n f' o l)),
      )

  pub include-HasRead :
      (names : List String) (snapshots : List (String × List R)) (f : Fetched M R) (k : String)
      → any (λ n. n == k) names ≡ true
      → let r = include calls others names snapshots f in HasRead r.1.cache k (lookup k r.0)
  unfolding include
  include-HasRead [] snapshots f k e = cc
  include-HasRead (n ∷ names) snapshots f k e = elim (Bool-cases (any (λ x. x == k) names)) [
    | inl q ↦
        let f' = fetch calls others n f in
        include-HasRead names (insert n (or_empty (cached calls others n f')) snapshots) f' k q
    | inr q ↦ include-first n k names snapshots f (ground arith) q
  ]
