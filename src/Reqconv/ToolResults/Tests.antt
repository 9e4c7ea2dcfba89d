-- ===== src/Reqconv/ToolResults/Tests.antt =====
-- Tool results reordered on concrete data, and the theorem there.
use kirocc_prox.Base.{◌≡◌, ◌↔◌, refl, List, [], ◌∷◌, String, lookup, insert, Member}
use kirocc_prox.Usage.Records.{contains_string}
use kirocc_prox.Reqconv.ToolResults.{ToolResult, index_results, find_results, reorder_tool_results}
use kirocc_prox.Reqconv.ToolResults.Reorder.{reorder_tool_results-Member}

abbrev result : String → String → ToolResult
result id content = record { tool_use_id = id; status = "success"; content = content }

abbrev three : List ToolResult
three = result "c" "1" ∷ result "a" "2" ∷ result "b" "3" ∷ []

-- The result without a tool use comes last. Of two results of one tool use, the first is dropped.
reorder_runs :
    (reorder_tool_results three ("a" ∷ "b" ∷ [])
      ≡ result "a" "2" ∷ result "b" "3" ∷ result "c" "1" ∷ [])
    × (reorder_tool_results (result "a" "1" ∷ result "a" "2" ∷ []) ("a" ∷ []) ≡ result "a" "2" ∷ [])
unfolding reorder_tool_results find_results index_results lookup insert contains_string
reorder_runs = (refl, refl)

reorder_tool_results-Member_example :
    Member (result "c" "1") (reorder_tool_results three ("a" ∷ "b" ∷ []))
    ↔ Member (result "c" "1") three
reorder_tool_results-Member_example =
    reorder_tool_results-Member three ("a" ∷ "b" ∷ []) (result "c" "1")
      ((refl, (refl, tt)), ((refl, tt), (tt, tt)))
