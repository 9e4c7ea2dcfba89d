-- ===== src/Reqconv/ToolResults.antt =====
-- `ReorderToolResults` of internal/reqconv/tool_results.go. The content of a result is one string.
pub mod Reorder
mod Tests
use kirocc_prox.Base.{
  ℕ, Bool, true, false, not, ◌||◌, List, [], ◌∷◌, ◌++◌, Option, none, some, String, if◌then◌else◌,
  leb, ◌==◌, length, Map, lookup, insert, keep_if,
}
use kirocc_prox.Usage.Records.{contains_string}

pub record ToolResult : Type 0 where
  pub tool_use_id : String
  pub status : String
  pub content : String

-- `index`: a later result of the same tool use replaces an earlier one.
unfoldable pub index_results : Map ToolResult → List ToolResult → Map ToolResult
index_results m [] = m
index_results m (r ∷ rs) = index_results (insert r.tool_use_id r m) rs

-- A result found, with what follows it.
abbrev pub push_found : Option ToolResult → List ToolResult → List ToolResult
push_found none rest = rest
push_found (some r) rest = r ∷ rest

abbrev pub push_used : Option ToolResult → String → List String → List String
push_used none id rest = rest
push_used (some r) id rest = id ∷ rest

-- The loop over the identifiers: the results in their order, and `used`.
unfoldable pub find_results : Map ToolResult → List String → List ToolResult × List String
find_results m [] = ([], [])
find_results m (id ∷ ids) =
    let rest = find_results m ids in
    (push_found (lookup id m) rest.0, push_used (lookup id m) id rest.1)

unfoldable pub reorder_tool_results : List ToolResult → List String → List ToolResult
reorder_tool_results results tool_use_ids =
    let found = find_results (index_results [] results) tool_use_ids in
    if leb (length results) 1 || (length tool_use_ids == 0)
    then results
    else found.0 ++ keep_if (λ r. not (contains_string found.1 r.tool_use_id)) results
