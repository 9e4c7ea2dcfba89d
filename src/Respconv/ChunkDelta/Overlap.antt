-- ===== src/Respconv/ChunkDelta/Overlap.antt =====
-- Overlaps between the end of a text and the start of b, for internal/respconv/chunk_delta.go.
use kirocc_prox.Base.{
  ℕ, zero, suc, ◌+◌, ◌-◌, ◌≤◌, ◌<◌, ◌≡◌, sym, ap, ◌∙◌, arith, [], ◌∷◌, ◌++◌, none, some, length,
  take, get_elem?, get_elem?-append, get_elem?-take, length-append, length-take, if◌then◌else◌, ltb,
  ◌==◌,
}
use kirocc_prox.Respconv.Text.{Text}

-- The last n bytes of t are the first n bytes of b.
abbrev pub Overlaps : Text → Text → ℕ → Type 0
Overlaps b t n =
    (n ≤ length t)
    × (n ≤ length b)
    × ((j : ℕ) → j < n → get_elem? t (length t - n + j) ≡ get_elem? b j)

-- n is the longest overlap that is shorter than b.
abbrev pub IsLongest : Text → Text → ℕ → Type 0
IsLongest b t n =
    (n < length b) × Overlaps b t n × ((m : ℕ) → m < length b → Overlaps b t m → m ≤ n)

get_elem?-one : (c i : ℕ) → get_elem? (c ∷ []) i ≡ (if i == 0 then some c else none)
get_elem?-one c zero = ground arith
get_elem?-one c (suc i) = ground arith

same_place : (t : Text) {i j : ℕ} → i ≡ j → get_elem? t i ≡ get_elem? t j
same_place t e = ap (get_elem? t) e

length-snoc : (t : Text) (c : ℕ) → length (t ++ c ∷ []) ≡ length t + 1
length-snoc t c = length-append t (c ∷ [])

pub get_elem?-snoc :
    (t : Text) (c i : ℕ)
    → get_elem? (t ++ c ∷ []) i
      ≡ (if ltb i (length t) then get_elem? t i else if i == length t then some c else none)
get_elem?-snoc t c i = ground (arith, get_elem?-append t (c ∷ []) i, get_elem?-one c (i - length t))

shift_trans : (n k m j : ℕ) → k ≤ n → m ≤ k → j < m → n - m + j ≡ n - k + (k - m + j)
shift_trans n k m j a b c = omega arith

take_at : (b : Text) (k i : ℕ) → i < k → get_elem? b i ≡ get_elem? (take k b) i
take_at b k i h = ground (arith, get_elem?-take k b i)

shift_snoc :
    (t : Text) (c n j : ℕ)
    → n ≤ length t
    → get_elem? (t ++ c ∷ []) (length t - n + j)
      ≡ get_elem? (t ++ c ∷ []) (length (t ++ c ∷ []) - suc n + j)
shift_snoc t c n j l = same_place (t ++ c ∷ []) (omega (arith, length-snoc t c))

snoc_last : (b : Text) (c n j : ℕ) → get_elem? b n ≡ some c → j ≡ n → get_elem? b j ≡ some c
snoc_last b c n j h e = same_place b e ∙ h

before_last :
    (t : Text) (c n j : ℕ)
    → n ≤ length t
    → j < n
    → get_elem? t (length t - n + j) ≡ get_elem? (t ++ c ∷ []) (length t - n + j)
before_last t c n j l h = ground (arith, get_elem?-snoc t c (length t - n + j))

at_last : (t : Text) (c n : ℕ) → n ≤ length t → get_elem? (t ++ c ∷ []) (length t - n + n) ≡ some c
at_last t c n l = ground (arith, get_elem?-snoc t c (length t - n + n))

plus_one_cancels : (k n j l : ℕ) → l ≡ k + 1 → l - (n + 1) + j ≡ k - n + j
plus_one_cancels k n j l e = omega arith

pub Overlaps-zero : (b t : Text) → Overlaps b t 0
Overlaps-zero b t = (omega arith, omega arith, λ j h. ground arith)

pub Overlaps-snoc :
    (b t : Text) (c n : ℕ)
    → Overlaps b t n
    → get_elem? b n ≡ some c
    → n < length b
    → Overlaps b (t ++ c ∷ []) (n + 1)
Overlaps-snoc b t c n (short, within, same) here l = (
  omega (arith, length-append t (c ∷ [])),
  omega arith,
  λ j h.
      same_place (t ++ c ∷ []) (plus_one_cancels (length t) n j _ (length-snoc t c))
      ∙ ground (arith, get_elem?-snoc t c (length t - n + j), same j, snoc_last b c n j here),
)

pub Overlaps-unsnoc :
    (b t : Text) (c n : ℕ)
    → Overlaps b (t ++ c ∷ []) (suc n)
    → Overlaps b t n × (get_elem? b n ≡ some c)
Overlaps-unsnoc b t c n (long, within, same) =
    let short : n ≤ length t = omega (arith, length-snoc t c) in
    (
      (
        short,
        omega arith,
        λ j h. before_last t c n j short h ∙ shift_snoc t c n j short ∙ same j (omega arith),
      ),
      sym (same n (omega arith)) ∙ sym (shift_snoc t c n n short) ∙ at_last t c n short,
    )

-- An overlap of the first k bytes of b carries over to a text that ends with them.
pub Overlaps-trans :
    (b t : Text) (k m : ℕ) → Overlaps b t k → Overlaps b (take k b) m → Overlaps b t m
Overlaps-trans b t k m (short, within, same) (short', within', same') = (
  omega (arith, length-take k b),
  within',
  λ j h.
      same_place t (shift_trans (length t) k m j short (omega (arith, length-take k b)) h)
      ∙ same (k - m + j) (omega (arith, length-take k b))
      ∙ take_at b k (k - m + j) (omega (arith, length-take k b))
      ∙ same_place (take k b) (omega (arith, length-take k b))
      ∙ same' j h,
)

pub Overlaps-prefix :
    (b t : Text) (k m : ℕ) → Overlaps b t k → Overlaps b t m → m ≤ k → Overlaps b (take k b) m
Overlaps-prefix b t k m (short, within, same) (short', within', same') l = (
  omega (arith, length-take k b),
  within',
  λ j h.
      same_place (take k b) (omega (arith, length-take k b))
      ∙ sym (take_at b k (k - m + j) (omega arith))
      ∙ sym (same (k - m + j) (omega arith))
      ∙ same_place t (sym (shift_trans (length t) k m j short l h))
      ∙ same' j h,
)
