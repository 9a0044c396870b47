-- ===== src/Text/Split.antt =====
-- `str::split(sep)`: the parts between the separators, always at least one.
use zns_mint.Prelude.{
  ℕ, ◌≡◌, refl, ◌∙◌, ap, ◌≢◌, List, [], ◌∷◌, ◌++◌, arith, ◌==◌, nat_eq, if◌then◌else◌, All,
}

-- A byte in front of the first part.
abbrev extend_first : ℕ → List (List ℕ) → List (List ℕ)
extend_first c [] = (c ∷ []) ∷ []
extend_first c (p ∷ ps) = (c ∷ p) ∷ ps

unfoldable pub split : ℕ → List ℕ → List (List ℕ)
split sep [] = [] ∷ []
split sep (c ∷ s) = let rest = split sep s in if c == sep then [] ∷ rest else extend_first c rest

abbrev pub Lacks : ℕ → List ℕ → Type 0
Lacks b = All (λ c. c ≢ b)

-- The parts with the separator between them.
unfoldable pub join : ℕ → List (List ℕ) → List ℕ
join sep [] = []
join sep (p ∷ []) = p
join sep (p ∷ q ∷ ps) = p ++ sep ∷ join sep (q ∷ ps)

pub split_part :
    (sep : ℕ) (p rest : List ℕ) → Lacks sep p → split sep (p ++ sep ∷ rest) ≡ p ∷ split sep rest
unfolding split
split_part sep [] rest h = ground arith
split_part sep (c ∷ p) rest h = ground (arith, split_part sep p rest h.1)

pub split_last : (sep : ℕ) (p : List ℕ) → Lacks sep p → split sep p ≡ p ∷ []
unfolding split
split_last sep [] h = refl
split_last sep (c ∷ p) h = ground (arith, split_last sep p h.1)

-- Splitting a join gives the parts back, if none holds the separator and there is one.
pub split-join :
    (sep : ℕ) (p : List ℕ) (ps : List (List ℕ))
    → All (Lacks sep) (p ∷ ps)
    → split sep (join sep (p ∷ ps)) ≡ p ∷ ps
unfolding join
split-join sep p [] h = split_last sep p h.0
split-join sep p (q ∷ ps) h = split_part sep p _ h.0 ∙ ap (◌∷◌ p) (split-join sep q ps h.1)
