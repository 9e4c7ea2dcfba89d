-- ===== src/Reqconv/Tests.antt =====
-- The message pipeline on a concrete request, and its theorems there.
use kirocc_prox.Base.{◌≡◌, refl, true, List, [], ◌∷◌, All, String}
use kirocc_prox.Reqconv.Messages.{Message, plain_string, Fields, join, extract_text_content}
use kirocc_prox.Reqconv.Normalizer.{
  normalize, merge_adjacent_same_role, merge_runs, run_length, normalize_roles,
  textualize_tool_content, textualize_after, textualize_orphan_tool_results,
  ensure_starts_with_user, ensure_alternating_roles, alternate_after,
}
use kirocc_prox.Reqconv.Conversation.{
  Alternates, flatten, IsRun, IsMaximal, wholes, normalize-Alternates, merge-Partition,
}

abbrev says : String → String → Message
says role words = record { role = role; content = plain_string words }

abbrev marshal_nothing : Fields → String
marshal_nothing f = "{}"

abbrev request : List Message
request = says "assistant" "hi" ∷ says "developer" "a" ∷ says "user" "b" ∷ []

normalize_runs :
    normalize marshal_nothing request true
    ≡ says "user" "(empty)" ∷ says "assistant" "hi" ∷ says "user" "a\nb" ∷ []
unfolding normalize merge_adjacent_same_role merge_runs run_length normalize_roles
    textualize_tool_content textualize_after textualize_orphan_tool_results ensure_starts_with_user
    ensure_alternating_roles alternate_after join extract_text_content
normalize_runs = refl

normalize-Alternates_example : Alternates "user" (normalize marshal_nothing request true)
normalize-Alternates_example = normalize-Alternates marshal_nothing request true

merge-Partition_example :
    (parts : List (List Message)) × (flatten parts ≡ request)
    × All IsRun parts
    × IsMaximal parts
    × (merge_adjacent_same_role request ≡ wholes parts)
merge-Partition_example = merge-Partition request
