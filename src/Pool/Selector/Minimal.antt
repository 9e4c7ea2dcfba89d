-- ===== src/Pool/Selector/Minimal.antt =====
-- What the strategies choose from a slice sorted by priority, as `Scheduler.Ready` returns it.
use kirocc_prox.Base.{
  ℕ, ◌≡◌, refl, ◌⊎◌, inl, inr, Bool, true, false, arith, List, [], ◌∷◌, some, ℤ, ◌≤ℤ◌, eq_ℤ, All,
  All-map, Member, Bool-cases, sym, ◌∙◌,
}
use mathlib.Core.Bool.{false≢true}
use kirocc_prox.Pool.Credential.{Credential}
use kirocc_prox.Pool.Store.{Heap}
use kirocc_prox.Pool.Selector.{scan, pick_least}
use kirocc_prox.Pool.Selector.Scores.{IsStrict}

-- Sorted by falling priority.
abbrev pub IsDescending : Heap → List ℕ → Type 0
IsDescending h [] = Unit
IsDescending h (p ∷ ps) = All (λ q. (h q).priority ≤ℤ (h p).priority) ps × IsDescending h ps

eq_ℤ→≡ : (a b : ℤ) → eq_ℤ a b ≡ true → a ≡ b
eq_ℤ→≡ a b e = ground arith

-- A priority that is not the top one, and not above it, is below it; so is what comes after it.
below_top : (a b top : ℤ) → a ≤ℤ b → b ≤ℤ top → eq_ℤ b top ≡ false → a ≡ top → ⊥
below_top a b top h k e q = ground arith

le_of_chain : (a b c d : ℤ) → a ≤ℤ b → b ≤ℤ c → d ≡ c → a ≤ℤ d
le_of_chain a b c d h k e = rw e (omega arith)

module _ {S : Type 0} (h : Heap) (score : Credential → S) (lt : S → S → Bool) (Valid : S → Type 0)
    (strict : IsStrict Valid lt) where
  -- `q` would not have been the better choice than `p`: its priority is lower, or it is the same
  -- and its score is not below that of `p`.
  abbrev pub NotBetter : ℕ → ℕ → Type 0
  NotBetter p q =
      ((h q).priority ≤ℤ (h p).priority)
      × ((h q).priority ≡ (h p).priority → lt (score (h q)) (score (h p)) ≡ false)

  -- What the loop returns when it starts from `b` in the group of priority `top`.
  record Best (top : ℤ) (b r : ℕ) (ps : List ℕ) : Type 0 where
    prio : (h r).priority ≡ top
    valid : Valid (score (h r))
    origin : (r ≡ b) ⊎ (Member r ps × (lt (score (h r)) (score (h b)) ≡ true))
    others : All (NotBetter r) ps

  not_lt :
      (a b : ℕ)
      → Valid (score (h a))
      → Valid (score (h b))
      → (a ≡ b) ⊎ (lt (score (h a)) (score (h b)) ≡ true)
      → lt (score (h b)) (score (h a)) ≡ false
  not_lt a b va vb (inl e) = rw e (strict.irrefl _ vb)
  not_lt a b va vb (inr e) = elim (Bool-cases (lt (score (h b)) (score (h a)))) [
    | inl k ↦ absurd (false≢true (sym (strict.irrefl _ va) ∙ strict.trans _ _ _ va vb va e k))
    | inr k ↦ k
  ]

  not_below :
      (b c r : ℕ) (ps : List ℕ)
      → Valid (score (h b))
      → Valid (score (h c))
      → Valid (score (h r))
      → lt (score (h c)) (score (h b)) ≡ false
      → (r ≡ b) ⊎ (Member r ps × (lt (score (h r)) (score (h b)) ≡ true))
      → lt (score (h c)) (score (h r)) ≡ false
  not_below b c r ps vb vc vr l (inl e) = rw e l
  not_below b c r ps vb vc vr l (inr (m, below)) =
      elim (Bool-cases (lt (score (h c)) (score (h r)))) [
        | inl k ↦ absurd (false≢true (sym l ∙ strict.trans _ _ _ vc vr vb k below))
        | inr k ↦ k
      ]

  -- The loop stops: what is left has a lower priority.
  stop :
      (top : ℤ) (b c : ℕ) (ps : List ℕ)
      → (h b).priority ≡ top
      → eq_ℤ (h c).priority top ≡ false
      → (h c).priority ≤ℤ top
      → All (λ q. (h q).priority ≤ℤ (h c).priority) ps
      → All (NotBetter b) ps
  stop top b c ps e ne l d =
      All-map _ (NotBetter b) ps
        (λ q k. (
          le_of_chain (h q).priority (h c).priority top (h b).priority k l e,
          λ same. absurd (below_top (h q).priority (h c).priority top k l ne (same ∙ e)),
        ))
        d

  -- A better credential is taken.
  Best-better :
      (top : ℤ) (b c r : ℕ) (ps : List ℕ)
      → Valid (score (h b))
      → Valid (score (h c))
      → (h c).priority ≡ top
      → lt (score (h c)) (score (h b)) ≡ true
      → Best top c r ps
      → Best top b r (c ∷ ps)
  Best-better top b c r ps vb vc e l v = record {
    prio = v.prio;
    valid = v.valid;
    origin = inr (elim v.origin [
      | inl same ↦ (inl same, rw same l)
      | inr (m, below) ↦ (inr m, strict.trans _ _ _ v.valid vc vb below l)
    ]);
    others = (
      (
        le_of_chain (h c).priority (h c).priority top (h r).priority (omega arith)
            (rw e (omega arith)) v.prio,
        λ _.
            not_lt r c v.valid vc
              (elim v.origin [ inl same ↦ inl same | inr (m, below) ↦ inr below ]),
      ),
      v.others,
    );
  }

  -- A credential that is no better is passed over.
  Best-same :
      (top : ℤ) (b c r : ℕ) (ps : List ℕ)
      → Valid (score (h b))
      → Valid (score (h c))
      → (h c).priority ≡ top
      → lt (score (h c)) (score (h b)) ≡ false
      → Best top b r ps
      → Best top b r (c ∷ ps)
  Best-same top b c r ps vb vc e l v = record {
    prio = v.prio;
    valid = v.valid;
    origin = elim v.origin [ inl same ↦ inl same | inr (m, below) ↦ inr (inr m, below) ];
    others = (
      (
        le_of_chain (h c).priority (h c).priority top (h r).priority (omega arith)
            (rw e (omega arith)) v.prio,
        λ _. not_below b c r ps vb vc v.valid l v.origin,
      ),
      v.others,
    );
  }

  scan-Best :
      (top : ℤ) (b : ℕ) (ps : List ℕ)
      → Valid (score (h b))
      → All (λ q. Valid (score (h q))) ps
      → (h b).priority ≡ top
      → All (λ q. (h q).priority ≤ℤ top) ps
      → IsDescending h ps
      → Best top b (scan h score lt top b (score (h b)) ps) ps
  unfolding scan
  scan-Best top b [] vb vs e l d = record { prio = e; valid = vb; origin = inl refl; others = tt }
  scan-Best top b (c ∷ ps) vb vs e l d = elim (Bool-cases (eq_ℤ (h c).priority top)) [
    | inr ne ↦ rw ne (record {
      prio = e;
      valid = vb;
      origin = inl refl;
      others = stop top b c (c ∷ ps) e ne l.0 (omega arith, d.0);
    })
    | inl same ↦ rw same (elim (Bool-cases (lt (score (h c)) (score (h b)))) [
      | inl better ↦ rw better (
          Best-better top b c _ ps vb vs.0 (eq_ℤ→≡ _ _ same) better
            (scan-Best top c ps vs.0 vs.1 (eq_ℤ→≡ _ _ same) l.1 d.1))
      | inr worse ↦ rw worse (
          Best-same top b c _ ps vb vs.0 (eq_ℤ→≡ _ _ same) worse
            (scan-Best top b ps vb vs.1 e l.1 d.1))
    ])
  ]

  -- `Pick` on a slice that is not empty.
  pub pick_least-NotBetter :
      (c : ℕ) (rest : List ℕ)
      → All (λ q. Valid (score (h q))) (c ∷ rest)
      → IsDescending h (c ∷ rest)
      → (p : ℕ) × (pick_least h score lt (c ∷ rest) ≡ some p)
        × Member p (c ∷ rest)
        × All (NotBetter p) (c ∷ rest)
  unfolding pick_least
  pick_least-NotBetter c rest v d =
      let best = scan-Best (h c).priority c rest v.0 v.1 refl d.0 d.1 in
      (
        _,
        refl,
        elim best.origin [ inl same ↦ inl same | inr (m, below) ↦ inr m ],
        (
          (
            rw best.prio (omega arith),
            λ _.
                not_lt _ c best.valid v.0
                  (elim best.origin [ inl same ↦ inl same | inr (m, below) ↦ inr below ]),
          ),
          best.others,
        ),
      )
