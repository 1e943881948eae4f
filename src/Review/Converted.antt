-- ===== src/Review/Converted.antt =====
-- What handleReviewRequest of pkg/webhook/conversion/handler.go answers.
use shell_operator.Base.{
  nat_beq_iff, length, nat_beq, differ, ◌≢◌, ap, subst, Bool-cases, Option-cases, ◌⊎◌, ◌++◌, ◌≡◌,
  List, String, inr, inl, true, some, nat_key, string_key, refl, [], ◌∷◌,
}
use text.Mathlib.TextLemmas.{append-eq-nil_iff}
use shell_operator.Conversion.{Rule}
use shell_operator.Review.{
  answer_after, unsuccessful, failed_message, HookAnswer, responds, fails, no_response,
  ConversionCalls, Answer, error, response, Ended, returned, done, not_done, converted,
  extract_api_versions, is_converted, run_path, run_versions, handle, review_of,
  handle_review_request,
}

HookAnswer-cases :
    {O : Type 0} (a : HookAnswer O)
    → ((a ≡ fails) ⊎ (a ≡ no_response))
      ⊎ ((message : String) × (objs : List O) × (a ≡ responds message objs))
HookAnswer-cases fails = inl (inl refl)
HookAnswer-cases no_response = inl (inr refl)
HookAnswer-cases (responds message objs) = inr (message, objs, refl)

Ended-cases :
    {O : Type 0} (e : Ended O) → ((a : Answer O) × (e ≡ returned a)) ⊎ ((e ≡ done) ⊎ (e ≡ not_done))
Ended-cases (returned a) = inl (a, refl)
Ended-cases done = inr (inl refl)
Ended-cases not_done = inr (inr refl)

module _ {S O : Type 0} (calls : ConversionCalls S O) (crd desired : String) where
  -- Hooks for the rules, run one after the other, take the first objects to the last ones.
  pub data Ran : List Rule → List O → List O → Type 0 where
    ran_none : {objs : List O} → Ran [] objs objs
    ran_hook :
        {r : Rule} {rs : List Rule} {objs objs' objs'' : List O} (run : List O → HookAnswer O)
        (message : String)
        → calls.hook_for crd r ≡ some run
        → run objs ≡ responds message objs'
        → Ran rs objs' objs''
        → Ran (r ∷ rs) objs objs''

  Ran-append :
      {rs rs' : List Rule} {a b c : List O} → Ran rs a b → Ran rs' b c → Ran (rs ++ rs') a c
  Ran-append ran_none d = d
  Ran-append (ran_hook run message h e k) d = ran_hook run message h e (Ran-append k d)

  abbrev pub HasRun : List O → List O → Type 0
  HasRun objs objs' = (rules : List Rule) × Ran rules objs objs'

  -- An answer without objects: an error, or a response with a message.
  abbrev IsRefusal : Answer O → Type 0
  IsRefusal (error message) = Unit
  IsRefusal (response message objs) = message ≢ ""

  -- How a loop may end.
  abbrev IsEnded : List O → Ended O → List O → Type 0
  IsEnded objs (returned a) objs' = IsRefusal a
  IsEnded objs done objs' = HasRun objs objs' × (is_converted calls desired objs' ≡ true)
  IsEnded objs not_done objs' = HasRun objs objs'

  IsEnded-after :
      (objs objs' : List O) (end : Ended O) (objs'' : List O)
      → HasRun objs objs'
      → IsEnded objs' end objs''
      → IsEnded objs end objs''
  IsEnded-after objs objs' (returned a) objs'' v h = h
  IsEnded-after objs objs' done objs'' (rs, v) ((rs', u), q) = ((rs ++ rs', Ran-append v u), q)
  IsEnded-after objs objs' not_done objs'' (rs, v) (rs', u) = (rs ++ rs', Ran-append v u)

  failed_message-nonempty : failed_message calls desired ≢ ""
  failed_message-nonempty e =
      differ "Hook failed to convert to " "" refl
        ((append-eq-nil_iff {p = "Hook failed to convert to "} {q = desired}).0 e).0

  unsuccessful-nonempty : unsuccessful calls crd desired ≢ ""
  unsuccessful-nonempty e =
      differ "Conversion " "" refl ((append-eq-nil_iff {p = "Conversion "}).0 e).0

  run_path-IsEnded :
      (rs : List Rule) (objs : List O)
      → let r = run_path calls crd desired rs objs in IsEnded objs r.0 r.1
  unfolding run_path
  run_path-IsEnded [] objs = ([], ran_none)
  run_path-IsEnded (r ∷ rs) objs = elim (Option-cases (calls.hook_for crd r)) [
    | inl e ↦ rw (e, run_path) tt
    | inr (run, e) ↦ elim (HookAnswer-cases (run objs)) [
      | inl (inl f) ↦ rw (e, run_path, f) failed_message-nonempty
      | inl (inr f) ↦ rw (e, run_path, f) tt
      | inr (message, objs', f) ↦
          let one : HasRun objs objs' = (r ∷ [], ran_hook run message e f ran_none) in
          elim (Bool-cases (is_converted calls desired objs')) [
            | inl q ↦ rw (e, run_path, f, q) (one, q)
            | inr q ↦
                rw (e, run_path, f, q)
                  (IsEnded-after objs objs' (run_path calls crd desired rs objs').0
                    (run_path calls crd desired rs objs').1 one (run_path-IsEnded rs objs'))
          ]
    ]
  ]

  abbrev found : String → S → List Rule × S
  found v s = calls.find_conversion_chain crd (record { from_version = v; to_version = desired }) s

  with_end :
      (objs : List O) (end end' : Ended O) (objs' : List O)
      → end ≡ end'
      → IsEnded objs end objs'
      → IsEnded objs end' objs'
  with_end objs end end' objs' e h = subst (λ x. IsEnded objs x objs') e h

  run_versions-IsEnded :
      (vs : List String) (objs : List O) (s : S)
      → let r = run_versions calls crd desired vs objs s in IsEnded objs r.0 r.1
  unfolding run_versions
  run_versions-IsEnded [] objs s = ([], ran_none)
  run_versions-IsEnded (v ∷ vs) objs s =
      let path = (found v s).0 in
      let r = run_path calls crd desired path objs in
      let h = run_path-IsEnded path objs in
      elim (Ended-cases r.0) [
        | inl (a, e) ↦ rw (e, run_versions) (with_end objs r.0 (returned a) r.1 e h)
        | inr (inl e) ↦ rw (e, run_versions) (with_end objs r.0 done r.1 e h)
        | inr (inr e) ↦
            let next = run_versions calls crd desired vs r.1 (found v s).1 in
            rw (e, run_versions)
              (IsEnded-after objs r.1 next.0 next.1 (with_end objs r.0 not_done r.1 e h)
                (run_versions-IsEnded vs r.1 (found v s).1))
      ]

  -- A response without a message passes the review, with the objects that the request then holds.
  abbrev Accepts : Ended O × List O × S → List O → Type 0
  Accepts r os = review_of calls (answer_after calls crd desired r) ≡ converted os

  message_empty :
      (message : String) (xs os : List O) → response message xs ≡ response "" os → message ≡ ""
  message_empty message xs os e = cc

  Accepts-answer :
      (end : Ended O) (objs objs' os : List O) (s : S)
      → IsEnded objs end objs'
      → (answer_after calls crd desired (end, objs', s)).answer ≡ response "" os
      → Accepts (end, objs', s) os
  Accepts-answer (returned (error message)) objs objs' os s h e = absurd (cc)
  Accepts-answer (returned (response message xs)) objs objs' os s h e =
      absurd (h (message_empty message xs os e))
  Accepts-answer not_done objs objs' os s h e =
      absurd (unsuccessful-nonempty (message_empty (unsuccessful calls crd desired) [] os e))
  Accepts-answer done objs objs' os s h e =
      let n : nat_beq (length objs') (length objs') ≡ true =
        (nat_beq_iff (length objs') (length objs')).1 refl in
      let same : objs' ≡ os = cc in rw n (ap converted same)

  -- Whatever objects a handler answers without a message, handleReviewRequest answers them, in any number: the count
  -- of the request that it compares them with is the count after the handler has changed the request.
  pub handle_review_request-uncounted :
      (objs os : List O) (s : S)
      → (handle calls crd desired objs s).answer ≡ response "" os
      → (handle_review_request calls crd desired objs s).0 ≡ converted os
  unfolding handle_review_request handle
  handle_review_request-uncounted objs os s h =
      let vs = extract_api_versions calls objs in
      let r = run_versions calls crd desired vs objs s in
      Accepts-answer r.0 objs r.1 os r.2 (run_versions-IsEnded vs objs s) h
