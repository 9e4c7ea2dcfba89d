-- ===== src/Reqconv/ToolResults/Reorder.antt =====
-- What `ReorderToolResults` of internal/reqconv/tool_results.go keeps.
use kirocc_prox.Base.{
  ◌≡◌, ◌↔◌, refl, sym, ap, subst, ◌∙◌, Bool, true, false, not, ◌||◌, arith, List, [], ◌∷◌, ◌++◌,
  some, String, str_eq, if_both, str_eq_iff, str_eq_refl, if◌then◌else◌, leb, ◌==◌, length, Map,
  lookup, insert, lookup-insert, keep_if, All, Member, Bool-cases, Option-cases, inl, inr, ◌⊎◌,
}
use kirocc_prox.Usage.Records.{contains_string}
use kirocc_prox.Reqconv.ToolResults.{
  ToolResult, index_results, push_found, push_used, find_results, reorder_tool_results,
}

-- No two results are of one tool use.
abbrev pub Distinct : List ToolResult → Type 0
Distinct [] = Unit
Distinct (r ∷ rs) = All (λ q. str_eq r.tool_use_id q.tool_use_id ≡ false) rs × Distinct rs

-- What is found for an identifier is one of the results, or was there before.
found_before :
    (m : Map ToolResult) (rs : List ToolResult) (k : String) (r : ToolResult)
    → lookup k (index_results m rs) ≡ some r
    → Member r rs ⊎ (lookup k m ≡ some r)
unfolding index_results
found_before m [] k r e = inr e
found_before m (q ∷ rs) k r e = elim (found_before (insert q.tool_use_id q m) rs k r e) [
  | inl h ↦ inl (inr h)
  | inr h ↦
      let h' = sym (lookup-insert q.tool_use_id k q m) ∙ h in
      elim (Bool-cases (str_eq q.tool_use_id k)) [
        | inl f ↦ inl (inl (ground (arith, h', f)))
        | inr f ↦ inr (ground (arith, h', f))
      ]
]

index_results-other :
    (m : Map ToolResult) (rs : List ToolResult) (k : String)
    → All (λ q. str_eq k q.tool_use_id ≡ false) rs
    → lookup k (index_results m rs) ≡ lookup k m
unfolding index_results
index_results-other m [] k h = refl
index_results-other m (q ∷ rs) k (e, h) =
    index_results-other (insert q.tool_use_id q m) rs k h
    ∙ ground (
      arith,
      lookup-insert q.tool_use_id k q m,
      e,
      str_eq_iff k q.tool_use_id,
      str_eq_iff q.tool_use_id k,
    )

index_results-found :
    (m : Map ToolResult) (rs : List ToolResult) (r : ToolResult)
    → Distinct rs
    → Member r rs
    → lookup r.tool_use_id (index_results m rs) ≡ some r
unfolding index_results
index_results-found m [] r d h = elim h [ ]
index_results-found m (q ∷ rs) r (fresh, d) (inr h) =
    index_results-found (insert q.tool_use_id q m) rs r d h
index_results-found m (q ∷ rs) r (fresh, d) (inl e) =
    subst (λ z. lookup z.tool_use_id (index_results (insert q.tool_use_id q m) rs) ≡ some z) (sym e)
      (index_results-other (insert q.tool_use_id q m) rs q.tool_use_id fresh
        ∙ lookup-insert q.tool_use_id q.tool_use_id q m
        ∙ (rw (str_eq_refl q.tool_use_id) refl))

append_left : (r : ToolResult) (xs ys : List ToolResult) → Member r xs → Member r (xs ++ ys)
append_left r (x ∷ xs) ys (inl e) = inl e
append_left r (x ∷ xs) ys (inr h) = inr (append_left r xs ys h)
append_left r [] ys h = elim h [ ]

append_right : (r : ToolResult) (xs ys : List ToolResult) → Member r ys → Member r (xs ++ ys)
append_right r [] ys h = h
append_right r (x ∷ xs) ys h = inr (append_right r xs ys h)

append_cases :
    (r : ToolResult) (xs ys : List ToolResult) → Member r (xs ++ ys) → Member r xs ⊎ Member r ys
append_cases r [] ys h = inr h
append_cases r (x ∷ xs) ys (inl e) = inl (inl e)
append_cases r (x ∷ xs) ys (inr h) = elim (append_cases r xs ys h) [
  | inl k ↦ inl (inr k)
  | inr k ↦ inr k
]

keep_if-Member :
    (p : ToolResult → Bool) (xs : List ToolResult) (r : ToolResult)
    → Member r (keep_if p xs)
    → Member r xs
keep_if-Member p [] r h = h
keep_if-Member p (x ∷ xs) r h = elim (Bool-cases (p x)) [
  | inl e ↦ elim (subst (λ b. Member r (if b then x ∷ keep_if p xs else keep_if p xs)) e h) [
    | inl k ↦ inl k
    | inr k ↦ inr (keep_if-Member p xs r k)
  ]
  | inr e ↦ inr (
      keep_if-Member p xs r
        (subst (λ b. Member r (if b then x ∷ keep_if p xs else keep_if p xs)) e h))
]

keep_if-kept :
    (p : ToolResult → Bool) (xs : List ToolResult) (r : ToolResult)
    → p r ≡ true
    → Member r xs
    → Member r (keep_if p xs)
keep_if-kept p [] r e h = h
keep_if-kept p (x ∷ xs) r e (inl same) =
    let px : p x ≡ true = ap p (sym same) ∙ e in
    subst (λ b. Member r (if b then x ∷ keep_if p xs else keep_if p xs)) (sym px) (inl same)
keep_if-kept p (x ∷ xs) r e (inr h) = elim (Bool-cases (p x)) [
  | inl f ↦
      subst (λ b. Member r (if b then x ∷ keep_if p xs else keep_if p xs)) (sym f)
        (inr (keep_if-kept p xs r e h))
  | inr f ↦
      subst (λ b. Member r (if b then x ∷ keep_if p xs else keep_if p xs)) (sym f)
        (keep_if-kept p xs r e h)
]

found-Member :
    (results : List ToolResult) (ids : List String) (r : ToolResult)
    → Member r (find_results (index_results [] results) ids).0
    → Member r results
unfolding find_results lookup
found-Member results [] r h = elim h [ ]
found-Member results (id ∷ ids) r h = elim (Option-cases (lookup id (index_results [] results))) [
  | inl e ↦
      found-Member results ids r
        (subst (λ o. Member r (push_found o (find_results (index_results [] results) ids).0)) e h)
  | inr (q, e) ↦
      elim (subst (λ o. Member r (push_found o (find_results (index_results [] results) ids).0)) e
        h) [
          | inl same ↦ elim (found_before [] results id q e) [
            | inl m ↦ subst (λ z. Member z results) (sym same) m
            | inr f ↦ ground (arith, f)
          ]
          | inr m ↦ found-Member results ids r m
        ]
]

-- A used identifier's result is found.
used_found :
    (m : Map ToolResult) (ids : List String) (r : ToolResult)
    → lookup r.tool_use_id m ≡ some r
    → contains_string (find_results m ids).1 r.tool_use_id ≡ true
    → Member r (find_results m ids).0
unfolding find_results contains_string
used_found m [] r e h = ground (arith, h)
used_found m (id ∷ ids) r e h = elim (Option-cases (lookup id m)) [
  | inl f ↦
      subst (λ o. Member r (push_found o (find_results m ids).0)) (sym f)
        (used_found m ids r e (
          subst (λ o. contains_string (push_used o id (find_results m ids).1) r.tool_use_id ≡ true)
            f h))
  | inr (q, f) ↦
      let h' : contains_string (id ∷ (find_results m ids).1) r.tool_use_id ≡ true =
        subst (λ o. contains_string (push_used o id (find_results m ids).1) r.tool_use_id ≡ true) f
          h in
      subst (λ o. Member r (push_found o (find_results m ids).0)) (sym f)
        (elim (Bool-cases (str_eq id r.tool_use_id)) [
          | inl g ↦
              let same : id ≡ r.tool_use_id = ground (arith, g, str_eq_iff id r.tool_use_id) in
              inl (ground (arith, e, f, ap (λ k. lookup k m) same))
          | inr g ↦ inr (used_found m ids r e (ground (arith, h', g)))
        ])
]

-- Where no two results are of one tool use, a result is among the reordered ones exactly where it was
-- among the results.
pub reorder_tool_results-Member :
    (results : List ToolResult) (ids : List String) (r : ToolResult)
    → Distinct results
    → Member r (reorder_tool_results results ids) ↔ Member r results
unfolding reorder_tool_results
reorder_tool_results-Member results ids r distinct =
    let found : List ToolResult × List String = find_results (index_results [] results) ids in
    let is_unused : ToolResult → Bool = λ q. not (contains_string found.1 q.tool_use_id) in
    let unused : List ToolResult = keep_if is_unused results in
    if_both {A = List ToolResult} (λ xs. Member r xs ↔ Member r results)
      (leb (length results) 1 || (length ids == 0)) {x = results} {y = found.0 ++ unused}
      (λ h. h, λ h. h)
      (
        λ h. elim (append_cases r found.0 unused h) [
          | inl m ↦ found-Member results ids r m
          | inr m ↦ keep_if-Member is_unused results r m
        ],
        λ h. elim (Bool-cases (contains_string found.1 r.tool_use_id)) [
          | inl e ↦ append_left r found.0 unused (
              used_found (index_results [] results) ids r
                (index_results-found [] results r distinct h) e)
          | inr e ↦ append_right r found.0 unused (keep_if-kept is_unused results r (ap not e) h)
        ],
      )
