-- ===== src/Review.antt =====
-- The conversion of the objects of one request: ConversionEventHandler of pkg/shell-operator/webhook_handlers.go, and
-- handleReviewRequest of pkg/webhook/conversion/handler.go. The manager of hooks and the runner of tasks are interfaces.
pub mod Converted
mod Tests
use shell_operator.Base.{
  length, nat_beq, has_key, ◌==◌, Bool, insert, Option, if◌then◌else◌, List, String, false, some,
  none, nat_key, string_key, arith, [], ◌∷◌,
}
use Prim.Native.String.{◌++◌ as append}
use shell_operator.Conversion.{Rule}

-- The result of the task of a hook: the status Fail, no response among its properties, or a response with its
-- message and its objects.
pub data HookAnswer (O : Type 0) : Type 0 where
  fails no_response : HookAnswer O
  responds : String → List O → HookAnswer O

-- `S` is the state of the manager, `object_version` the apiVersion of an object; `hook_for` runs the task
-- that HandleConversionEvent makes for a custom resource and a rule, on the objects of the request.
pub record ConversionCalls (S O : Type 0) : Type 0 where
  pub object_version : O → String
  pub find_conversion_chain : String → Rule → S → List Rule × S
  pub hook_for : String → Rule → Option (List O → HookAnswer O)

pub data Answer (O : Type 0) : Type 0 where
  error : String → Answer O
  response : String → List O → Answer O

-- How a loop is left: by a return, by a break with all objects converted, or at its end.
pub data Ended (O : Type 0) : Type 0 where
  returned : Answer O → Ended O
  done not_done : Ended O

-- The answer, the objects that the request then holds, and the state of the manager.
pub record Handled (S O : Type 0) : Type 0 where
  pub answer : Answer O
  pub objects : List O
  pub state : S

pub data Review (O : Type 0) : Type 0 where
  refused : String → Review O
  converted : List O → Review O

module _ {S O : Type 0} (calls : ConversionCalls S O) where
  unfoldable pub new_versions : List (String × Unit {0}) → List O → List String
  new_versions seen [] = []
  new_versions seen (obj ∷ objs) =
      let v = calls.object_version obj in
      let rest = new_versions (insert v tt seen) objs in
      if has_key v seen then new_versions seen objs else v ∷ rest

  -- The versions of the objects, each once.
  unfoldable pub extract_api_versions : List O → List String
  unfolding new_versions
  extract_api_versions = new_versions []

  abbrev pub is_only : String → List String → Bool
  is_only desired [] = false
  is_only desired (v ∷ []) = v == desired
  is_only desired (v ∷ w ∷ vs) = false

  abbrev pub is_converted : String → List O → Bool
  is_converted desired objs = is_only desired (extract_api_versions objs)

  abbrev pub failed_message : String → String
  failed_message desired = append "Hook failed to convert to " desired

  abbrev no_hook_message : String → String
  no_hook_message crd =
      append "no hook found for 'kubernetesCustomResourceConversion' event for crd/" crd

  -- The loop over the rules of one path. The message of a response is not read.
  unfoldable pub run_path : String → String → List Rule → List O → Ended O × List O
  run_path crd desired [] objs = (not_done, objs)
  run_path crd desired (r ∷ rs) objs = elim (calls.hook_for crd r) [
    | none ↦ (returned (error (no_hook_message crd)), objs)
    | some run ↦ elim (run objs) [
      | fails ↦ (returned (response (failed_message desired) []), objs)
      | no_response ↦ (returned (error "hook task prop error"), objs)
      | responds message objs' ↦
          if is_converted desired objs' then (done, objs') else run_path crd desired rs objs'
    ]
  ]

  abbrev conversion_rule : String → String → Rule
  conversion_rule version desired = record { from_version = version; to_version = desired }

  -- The loop over the versions that the objects have at first.
  unfoldable pub run_versions : String → String → List String → List O → S → Ended O × List O × S
  unfolding run_path
  run_versions crd desired [] objs s = (not_done, objs, s)
  run_versions crd desired (v ∷ vs) objs s =
      let (path, s') = calls.find_conversion_chain crd (conversion_rule v desired) s in
      let (end, objs') = run_path crd desired path objs in
      elim end [
        | returned a ↦ (returned a, objs', s')
        | done ↦ (done, objs', s')
        | not_done ↦ run_versions crd desired vs objs' s'
      ]

  abbrev pub unsuccessful : String → String → String
  unsuccessful crd desired =
      append "Conversion " (append crd (append " to " (append desired " was not successful")))

  abbrev pub answer_after : String → String → Ended O × List O × S → Handled S O
  answer_after crd desired (returned a, objs, s) = record { answer = a; objects = objs; state = s }
  answer_after crd desired (done, objs, s) = record {
    answer = response "" objs;
    objects = objs;
    state = s;
  }
  answer_after crd desired (not_done, objs, s) = record {
    answer = response (unsuccessful crd desired) [];
    objects = objs;
    state = s;
  }

  unfoldable pub handle : String → String → List O → S → Handled S O
  unfolding run_versions extract_api_versions
  handle crd desired objs s =
      answer_after crd desired (run_versions crd desired (extract_api_versions objs) objs s)

  abbrev pub review_of : Handled S O → Review O
  review_of h = elim h.answer [
    | error msg ↦ refused (append "handle ConversionReview: " msg)
    | response msg objs ↦
        if msg == ""
        then if nat_beq (length h.objects) (length objs)
          then converted objs
          else refused "hook returned another number of objects"
        else refused msg
  ]

  -- A handler is set. The request is the one that it has changed, and the numbers are left out of the text.
  unfoldable pub handle_review_request : String → String → List O → S → Review O × S
  unfolding handle
  handle_review_request crd desired objs s =
      let h = handle crd desired objs s in (review_of h, h.state)
