-- ===== src/Transfer/Pointers.antt =====
-- Lists of addresses: membership as a predicate by recursion, which case splits read.
use rescale_interlink.Common.{
  ℕ, ◌+◌, ◌<◌, Bool, true, List, [], ◌∷◌, ◌++◌, ◌≡◌, refl, ◌⊎◌, inl, inr, All, keep, arith, subst,
  ap, Bool-cases, ◌∙◌,
}

abbrev pub In : ℕ → List ℕ → Type 0
In p [] = ⊥
In p (x ∷ xs) = (x ≡ p) ⊎ In p xs

pub In-append_last : (p : ℕ) (ps : List ℕ) → In p (ps ++ p ∷ [])
In-append_last p [] = inl refl
In-append_last p (x ∷ xs) = inr (In-append_last p xs)

pub In-append_left : (p r : ℕ) (ps : List ℕ) → In p ps → In p (ps ++ r ∷ [])
In-append_left p r [] h = elim h [ ]
In-append_left p r (x ∷ xs) (inl e) = inl e
In-append_left p r (x ∷ xs) (inr h) = inr (In-append_left p r xs h)

pub below_more : (fresh : ℕ) (ps : List ℕ) → All (λ p. p < fresh) ps → All (λ p. p < fresh + 1) ps
below_more fresh [] h = tt
below_more fresh (p ∷ ps) h = (omega arith, below_more fresh ps h.1)

pub In-below : (p fresh : ℕ) (ps : List ℕ) → All (λ p. p < fresh) ps → In p ps → p < fresh
In-below p fresh [] h i = elim i [ ]
In-below p fresh (x ∷ xs) h (inl e) = omega arith
In-below p fresh (x ∷ xs) h (inr i) = In-below p fresh xs h.1 i

-- What holds of all elements holds of a member.
pub All-In {κ} : (P : ℕ → Type κ) (p : ℕ) (ps : List ℕ) → All P ps → In p ps → P p
All-In P p [] h i = elim i [ ]
All-In P p (x ∷ xs) h (inl e) = subst P e h.0
All-In P p (x ∷ xs) h (inr i) = All-In P p xs h.1 i

pub In-keep : (f : ℕ → Bool) (p : ℕ) (ps : List ℕ) → In p ps → f p ≡ true → In p (keep f ps)
In-keep f p [] i h = elim i [ ]
In-keep f p (x ∷ xs) (inl e) h = let passes : f x ≡ true = ap f e ∙ h in rw passes (inl e)
In-keep f p (x ∷ xs) (inr i) h = elim (Bool-cases (f x)) [
  | inl e ↦ rw e (inr (In-keep f p xs i h))
  | inr e ↦ rw e (In-keep f p xs i h)
]

pub keep-In : (f : ℕ → Bool) (p : ℕ) (ps : List ℕ) → In p (keep f ps) → In p ps × (f p ≡ true)
keep-In f p [] i = elim i [ ]
keep-In f p (x ∷ xs) i = ground (arith, keep-In f p xs)

pub All-keep {κ} : (P : ℕ → Type κ) (f : ℕ → Bool) (ps : List ℕ) → All P ps → All P (keep f ps)
All-keep P f [] h = tt
All-keep P f (x ∷ xs) h = elim (Bool-cases (f x)) [
  | inl e ↦ rw e (h.0, All-keep P f xs h.1)
  | inr e ↦ rw e (All-keep P f xs h.1)
]
