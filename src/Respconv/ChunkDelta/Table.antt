-- ===== src/Respconv/ChunkDelta/Table.antt =====
-- The failure table of internal/respconv/chunk_delta.go.
use kirocc_prox.Base.{
  ℕ, zero, suc, ◌+◌, ◌-◌, ◌≤◌, ◌<◌, ◌≡◌, refl, sym, ap, subst, ◌∙◌, true, false, arith, List, [],
  ◌∷◌, ◌++◌, Option, none, some, length, take, get_elem?, length-append, length-take, if◌then◌else◌,
  ltb, Bool-cases, ◌⊎◌, inl, inr, Empty,
}
use kirocc_prox.Respconv.Text.{Text}
use kirocc_prox.Respconv.ChunkDelta.{fall_back, advance, holds_byte, entry}
use kirocc_prox.Respconv.ChunkDelta.Overlap.{
  Overlaps, IsLongest, Overlaps-zero, Overlaps-snoc, Overlaps-unsnoc, Overlaps-trans,
  Overlaps-prefix, get_elem?-snoc,
}

holds_byte_lem : (o : Option ℕ) (c : ℕ) → holds_byte o c ≡ true → o ≡ some c
holds_byte_lem none c h = ground arith
holds_byte_lem (some d) c h = ground (arith, h)

holds_byte_not : (o : Option ℕ) (c : ℕ) → holds_byte o c ≡ false → o ≡ some c → Empty {0}
holds_byte_not o c h e = ground (arith, h, e)

not_this : (m k : ℕ) → m ≤ suc k → (m ≡ suc k → Empty {0}) → m ≤ k
not_this m k l n = ground (arith, n)

module _ (first : ℕ) (rest : Text) where
  abbrev pub b : Text
  b = first ∷ rest

  Overlaps-border : (u : Text) (m : ℕ) → Overlaps b (first ∷ u) m → m ≤ length u → Overlaps b u m
  Overlaps-border u m (short, within, same) l = (l, within, λ j h. drop_first u m j l ∙ same j h)
    where
      drop_first :
          (u : Text) (m j : ℕ)
          → m ≤ length u
          → get_elem? u (length u - m + j) ≡ get_elem? (first ∷ u) (suc (length u) - m + j)
      drop_first u m j l =
          let e : suc (length u) - m + j ≡ suc (length u - m + j) = omega arith in rw e refl

  Overlaps-whole : (u : Text) (m : ℕ) → Overlaps b u m → Overlaps b (first ∷ u) m
  Overlaps-whole u m (short, within, same) =
      (omega arith, within, λ j h. add_first u m j short ∙ same j h)
    where
      add_first :
          (u : Text) (m j : ℕ)
          → m ≤ length u
          → get_elem? (first ∷ u) (suc (length u) - m + j) ≡ get_elem? u (length u - m + j)
      add_first u m j l =
          let e : suc (length u) - m + j ≡ suc (length u - m + j) = omega arith in rw e refl

  -- Entry i of the table is the longest overlap of the i bytes after the first one.
  abbrev pub Table : List ℕ → ℕ → Type 0
  Table fail n =
      (length fail ≡ n) × ((i : ℕ) → i < n → IsLongest b (take i rest) (entry (get_elem? fail i)))

  -- An overlap k is followed, in size, by the one in the table.
  pub shorter :
      (t : Text) (fail : List ℕ) (n k : ℕ)
      → Table fail n
      → suc k ≤ n
      → Overlaps b t (suc k)
      → (entry (get_elem? fail k) ≤ k)
        × (entry (get_elem? fail k) < length b)
        × Overlaps b t (entry (get_elem? fail k))
        × ((m : ℕ) → m ≤ k → Overlaps b t m → m ≤ entry (get_elem? fail k))
  shorter t fail n k (size, longest) l here =
      let (small, over, best) = longest k l in
      (
        omega (arith, over.0, length-take k rest),
        small,
        Overlaps-trans b t (suc k) (entry (get_elem? fail k)) here
            (Overlaps-whole (take k rest) _ over),
        λ m h o. best m (omega (arith, here.1)) (
            Overlaps-border (take k rest) m (Overlaps-prefix b t (suc k) m here o (omega arith))
              (omega (arith, length-take k rest, here.1))),
      )

  abbrev IsBack : Text → ℕ → ℕ → ℕ → Type 0
  IsBack t c k r =
      (r < length b)
      × Overlaps b t r
      × ((r ≡ 0) ⊎ (holds_byte (get_elem? b r) c ≡ true))
      × ((m : ℕ) → m ≤ k → Overlaps b t m → get_elem? b m ≡ some c → m ≤ r)

  at_most_next :
      (t : Text) (c k r m : ℕ)
      → ((m : ℕ) → m < length b → Overlaps b t m → m ≤ k)
      → ((m : ℕ) → m ≤ k → Overlaps b t m → get_elem? b m ≡ some c → m ≤ r)
      → Overlaps b (t ++ c ∷ []) m
      → m ≤ r + 1
  at_most_next t c k r zero longest best o = omega arith
  at_most_next t c k r (suc m) longest best o =
      let (over, byte) = Overlaps-unsnoc b t c m o in
      let low : m ≤ k = longest m (omega (arith, o.1)) over in omega (arith, best m low over byte)

  no_next :
      (t : Text) (c k r m : ℕ)
      → r ≡ 0
      → holds_byte (get_elem? b r) c ≡ false
      → ((m : ℕ) → m < length b → Overlaps b t m → m ≤ k)
      → ((m : ℕ) → m ≤ k → Overlaps b t m → get_elem? b m ≡ some c → m ≤ r)
      → Overlaps b (t ++ c ∷ []) m
      → m ≤ r
  no_next t c k r zero z e longest best o = omega arith
  no_next t c k r (suc m) z e longest best o =
      let (over, byte) = Overlaps-unsnoc b t c m o in
      let low : m ≤ r = best m (longest m (omega (arith, o.1)) over) over byte in
      let same : r ≡ m = omega arith in
      elim (holds_byte_not (get_elem? b r) c e (ap (get_elem? b) same ∙ byte)) [ ]

  fall_back_step :
      (fail : List ℕ) (c rounds k : ℕ)
      → fall_back b fail c (suc rounds) (suc k) ≡ (
          if holds_byte (get_elem? b (suc k)) c
          then suc k
          else fall_back b fail c rounds (entry (get_elem? fail k)))
  unfolding fall_back
  fall_back_step fail c rounds k = let e : suc k - 1 ≡ k = omega arith in rw e (ground arith)

  fall_back-IsBack :
      (t : Text) (fail : List ℕ) (n c rounds k : ℕ)
      → Table fail n
      → k ≤ n
      → k ≤ rounds
      → k < length b
      → Overlaps b t k
      → IsBack t c k (fall_back b fail c rounds k)
  unfolding fall_back
  fall_back-IsBack t fail n c zero k table l enough small here =
      (small, here, inl (omega arith), λ m h o e. h)
  fall_back-IsBack t fail n c (suc rounds) zero table l enough small here =
      (small, here, inl refl, λ m h o e. h)
  fall_back-IsBack t fail n c (suc rounds) (suc k) table l enough small here =
      subst (IsBack t c (suc k)) (sym (fall_back_step fail c rounds k))
        (elim (Bool-cases (holds_byte (get_elem? b (suc k)) c)) [
          | inl e ↦
              subst
                (λ h.
                  IsBack t c (suc k)
                    (if h then suc k else fall_back b fail c rounds (entry (get_elem? fail k))))
                (sym e) (small, here, inr e, λ m h o f. h)
          | inr e ↦
              let (low, small', over, best) = shorter t fail n k table l here in
              let (small'', over', stops, best') =
                fall_back-IsBack t fail n c rounds (entry (get_elem? fail k)) table (omega arith)
                  (omega arith) small' over in
              subst
                (λ h.
                  IsBack t c (suc k)
                    (if h then suc k else fall_back b fail c rounds (entry (get_elem? fail k))))
                (sym e)
                (
                  small'',
                  over',
                  stops,
                  λ m h o f.
                      best' m
                        (best m
                          (not_this m k h
                            (λ g. holds_byte_not _ c e (sym (ap (get_elem? b) g) ∙ f)))
                          o)
                        o f,
                )
        ])

  -- Where k is the longest overlap of t, the next one is the longest of t and one byte more. It may be
  -- all of b.
  pub advance_best :
      (t : Text) (fail : List ℕ) (n c k : ℕ)
      → Table fail n
      → k ≤ n
      → IsLongest b t k
      → Overlaps b (t ++ c ∷ []) (advance b fail k c)
        × ((m : ℕ) → Overlaps b (t ++ c ∷ []) m → m ≤ advance b fail k c)
  unfolding advance
  advance_best t fail n c k table l (small, here, longest) =
      let r = fall_back b fail c k k in
      let (small', over, stops, best) =
        fall_back-IsBack t fail n c k k table l (omega arith) small here in
      elim (Bool-cases (holds_byte (get_elem? b r) c)) [
        | inl e ↦ rw e (
          Overlaps-snoc b t c r over (holds_byte_lem (get_elem? b r) c e) small',
          λ m o. at_most_next t c k r m longest best o,
        )
        | inr e ↦
            let z : r ≡ 0 = ground (arith, stops, e) in
            rw e (
              subst (Overlaps b (t ++ c ∷ [])) (sym z) (Overlaps-zero b (t ++ c ∷ [])),
              λ m o. no_next t c k r m z e longest best o,
            )
      ]

  pub Table-snoc :
      (fail : List ℕ) (n r : ℕ)
      → Table fail n
      → IsLongest b (take n rest) r
      → Table (fail ++ r ∷ []) (suc n)
  Table-snoc fail n r (size, longest) new = (
    omega (arith, size, length-append fail (r ∷ [])),
    λ i l. elim (Bool-cases (ltb i n)) [
      | inl e ↦
          let old : i < n = ground (arith, e) in
          subst (IsLongest b (take i rest)) (sym (entry_old fail r i (omega arith))) (longest i old)
      | inr e ↦
          let here : n ≡ i = ground (arith, e) in
          subst (λ j. IsLongest b (take j rest) (entry (get_elem? (fail ++ r ∷ []) j))) here
            (subst (IsLongest b (take n rest)) (sym (entry_new fail r n size)) new)
    ],
  )
    where
      entry_old :
          (fail : List ℕ) (r i : ℕ)
          → i < length fail
          → entry (get_elem? (fail ++ r ∷ []) i) ≡ entry (get_elem? fail i)
      entry_old fail r i l =
          let e : get_elem? (fail ++ r ∷ []) i ≡ get_elem? fail i =
            ground (arith, get_elem?-snoc fail r i) in
          rw e refl

      entry_new :
          (fail : List ℕ) (r n : ℕ) → length fail ≡ n → entry (get_elem? (fail ++ r ∷ []) n) ≡ r
      entry_new fail r n l =
          let e : get_elem? (fail ++ r ∷ []) n ≡ some r = ground (arith, get_elem?-snoc fail r n) in
          rw e refl
