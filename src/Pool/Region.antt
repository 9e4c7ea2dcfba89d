-- ===== src/Pool/Region.antt =====
-- internal/pool/region_hint.go: the preference for accounts near the client.
use Prim.Native.Char.{code}
use kirocc_prox.Base.{
  ℕ, ◌≢◌, Bool, List, [], ◌∷◌, arith, Option, none, some, String, str_eq, if◌then◌else◌, keep_if,
  ◌==◌, All, inl, inr, Bool-cases,
}
use kirocc_prox.Pool.Store.{Heap}

-- The text before the first `-`, if there is one.
unfoldable pub before_dash : String → Option String
before_dash String.[] = none
before_dash (String.◌∷◌ c s) =
    if code c == b'-'
    then some ""
    else elim (before_dash s) [ none ↦ none | some t ↦ some (String.◌∷◌ c t) ]

-- `regionContinent`: "" where there is no dash, or where the dash comes first.
abbrev pub prefix_of : Option String → String
prefix_of none = ""
prefix_of (some t) = t

unfoldable pub region_continent : String → String
unfolding before_dash
region_continent region = prefix_of (before_dash region)

abbrev pub or_else : List ℕ → List ℕ → List ℕ
or_else [] fallback = fallback
or_else (p ∷ ps) fallback = p ∷ ps

abbrev pub in_region : Heap → String → List ℕ → List ℕ
in_region h region = keep_if (λ p. str_eq (h p).region region)

abbrev pub in_continent : Heap → String → List ℕ → List ℕ
in_continent h continent = keep_if (λ p. str_eq (region_continent (h p).region) continent)

unfoldable pub filter_by_region : Heap → List ℕ → String → List ℕ
unfolding region_continent
filter_by_region h creds region =
    if str_eq region ""
    then creds
    else or_else (in_region h region creds) (
        if str_eq (region_continent region) ""
        then creds
        else or_else (in_continent h (region_continent region) creds) creds)

keep_if-Within :
    (test : ℕ → Bool) (P : ℕ → Type 0) (xs : List ℕ) → All P xs → All P (keep_if test xs)
keep_if-Within test P [] h = tt
keep_if-Within test P (x ∷ xs) h = elim (Bool-cases (test x)) [
  | inl e ↦ rw e (h.0, keep_if-Within test P xs h.1)
  | inr e ↦ rw e (keep_if-Within test P xs h.1)
]

or_else_cases : (P : List ℕ → Type 0) (xs ys : List ℕ) → (xs ≢ [] → P xs) → P ys → P (or_else xs ys)
or_else_cases P [] ys f g = g
or_else_cases P (x ∷ xs) ys f g = f (λ e. ground arith)

-- The choice among some accounts is a choice among some of those accounts, and each property that
-- all the given accounts have holds of what is left.
abbrev Narrows : (ℕ → Type 0) → List ℕ → Type 0
Narrows P xs = (xs ≢ []) × All P xs

-- A region hint never leaves the selector without a candidate and never adds one: from a non-empty
-- slice some accounts are left, and a property of all the given accounts holds of all that are left.
pub filter_by_region-Narrows :
    (h : Heap) (creds : List ℕ) (region : String) (P : ℕ → Type 0)
    → creds ≢ []
    → All P creds
    → (filter_by_region h creds region ≢ []) × All P (filter_by_region h creds region)
unfolding filter_by_region
filter_by_region-Narrows h creds region P some_left within = elim (Bool-cases (str_eq region "")) [
  | inl e ↦ rw e (some_left, within)
  | inr e ↦ rw e (
      or_else_cases (Narrows P) (in_region h region creds) _
        (λ n. (n, keep_if-Within _ P creds within))
        (elim (Bool-cases (str_eq (region_continent region) "")) [
          | inl f ↦ rw f (some_left, within)
          | inr f ↦ rw f (
              or_else_cases (Narrows P) (in_continent h (region_continent region) creds) creds
                (λ n. (n, keep_if-Within _ P creds within)) (some_left, within))
        ]))
]
