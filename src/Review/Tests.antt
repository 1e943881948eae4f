-- ===== src/Review/Tests.antt =====
-- Requests to convert objects, pkg/webhook/conversion/handler.go, over a chain of conversion rules. An object is its version.
use shell_operator.Conversion.Versions.{versions_matched}
use shell_operator.Base.{insert, ◌≡◌, String, List, some, nat_key, string_key, refl, [], ◌∷◌}
use shell_operator.Conversion.{has_target_version, Rule, Walks, empty_chain, put}
use shell_operator.Conversion.Find.{FoundPath, path, ChainStorage, find_conversion_chain}
use shell_operator.Review.{
  HookAnswer, responds, ConversionCalls, response, converted, handle, handle_review_request,
}
use shell_operator.Review.Converted.{handle_review_request-uncounted}

abbrev walks : Walks
walks = record { range_paths = λ m. m; range_index = λ m. m; range_targets = λ m. m }

abbrev chains : ChainStorage
chains = ("crontabs", put (record { from_version = "v1"; to_version = "v2" }) empty_chain) ∷ []

-- The hook answers the new version of the first object only.
abbrev first_only : Rule → List String → HookAnswer String
first_only r [] = responds "" []
first_only r (v ∷ vs) = responds "" (r.to_version ∷ [])

abbrev path_or_empty : FoundPath → List Rule
path_or_empty (path p) = p
path_or_empty _ = []

abbrev crontabs : ConversionCalls ChainStorage String
crontabs = record {
  object_version = λ v. v;
  find_conversion_chain =
      λ crd r cs. let (p, cs') = find_conversion_chain 10 walks crd r cs in (path_or_empty p, cs');
  hook_for = λ crd r. some (first_only r);
}

one_handled :
    (handle crontabs "crontabs" "v2" ("v1" ∷ "v1" ∷ []) chains).answer ≡ response "" ("v2" ∷ [])
unfolding handle find_conversion_chain has_target_version put insert versions_matched
one_handled = refl

handle_review_request-uncounted_example :
    (handle_review_request crontabs "crontabs" "v2" ("v1" ∷ "v1" ∷ []) chains).0
    ≡ converted ("v2" ∷ [])
handle_review_request-uncounted_example =
    handle_review_request-uncounted crontabs "crontabs" "v2" ("v1" ∷ "v1" ∷ []) ("v2" ∷ []) chains
      one_handled
