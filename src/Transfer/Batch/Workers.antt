-- ===== src/Transfer/Batch/Workers.antt =====
-- internal/transfer/batch.go: every run of RunBatch ends, and none gets stuck before.
use native.Mathlib.Nat.{suc-mul}
use rescale_interlink.Common.{
  ℕ, zero, suc, ◌+◌, ◌*◌, ◌≤◌, Bool, true, false, List, [], ◌∷◌, some, ◌≡◌, refl, ◌⊎◌, inl, inr,
  All, arith, length, get_elem?, set, replicate, Bool-cases, ◌∙◌, sym, ap,
}
use rescale_interlink.Transfer.Batch.{
  Worker, waiting, holding, executing, reporting, finished, Batch, spawned, worker, Step, receive,
  leave, give_up, execute, succeed, fail, report, cancel, Steps, start, later,
}

module _ {A : Type 0} where
  -- The sum of a weight over a list.
  abbrev pub sum : (A → ℕ) → List A → ℕ
  sum f [] = 0
  sum f (x ∷ xs) = f x + sum f xs

  pub sum-set :
      (f : A → ℕ) (xs : List A) (i : ℕ) (old new : A)
      → get_elem? xs i ≡ some old
      → sum f (set xs i new) + f old ≡ sum f xs + f new
  sum-set f [] i old new h = ground arith
  sum-set f (x ∷ xs) zero old new h = ground (arith, h)
  sum-set f (x ∷ xs) (suc i) old new h = omega (arith, sum-set f xs i old new h)

  pub sum-replicate : (f : A → ℕ) (n : ℕ) (x : A) → sum f (replicate n x) ≡ n * f x
  sum-replicate f zero x = omega arith
  sum-replicate f (suc n) x =
      ap (λ k. f x + k) (sum-replicate f n x) ∙ sym (suc-mul n (f x) ∙ omega arith)

abbrev cancellable : Bool → ℕ
cancellable true = 0
cancellable false = 1

module _ {T E : Type 0} where
  -- The steps that a worker still takes with what it has in hand.
  abbrev weight : Worker T E → ℕ
  weight waiting = 1
  weight (holding x) = 4
  weight (executing x) = 3
  weight (reporting e) = 2
  weight finished = 0

  -- A bound on the steps that are left.
  measure : Batch T E → ℕ
  measure b = length b.work * 4 + sum weight b.workers + cancellable b.cancelled

  measure_step : (b c : Batch T E) → Step b c → suc (measure c) ≤ measure b
  unfolding measure
  measure_step b c (receive i {x} w h) =
      let moved = sum-set weight b.workers i waiting (holding x) w in ground (arith, moved, h)
  measure_step b c (leave i w h) = omega (arith, sum-set weight b.workers i waiting finished w)
  measure_step b c (give_up i {x} w h) =
      omega (arith, sum-set weight b.workers i (holding x) finished w)
  measure_step b c (execute i {x} w h) =
      omega (arith, sum-set weight b.workers i (holding x) (executing x) w)
  measure_step b c (succeed i {x} w) =
      omega (arith, sum-set weight b.workers i (executing x) waiting w)
  measure_step b c (fail i {x} e w) =
      omega (arith, sum-set weight b.workers i (executing x) (reporting e) w)
  measure_step b c (report i {e} w) =
      omega (arith, sum-set weight b.workers i (reporting e) waiting w)
  measure_step b c (cancel h) = ground (arith, h)

  measure_steps : (b c : Batch T E) (n : ℕ) → Steps b n c → n + measure c ≤ measure b
  measure_steps b c n start = omega arith
  measure_steps b c (suc n) (later {c = m} s t) =
      omega (arith, measure_steps b m n s, measure_step m c t)

  abbrev pub IsFinished : Worker T E → Type 0
  IsFinished w = w ≡ finished

  -- Whether all workers have returned, which is what RunBatch waits for.
  abbrev pub IsReturned : Batch T E → Type 0
  IsReturned b = All IsFinished b.workers

  -- A worker that has not finished.
  abbrev Busy : Worker T E → Type 0
  Busy finished = ⊥
  Busy _ = Unit {0}

  some_left :
      (ws : List (Worker T E))
      → All IsFinished ws ⊎ ((i : ℕ) × (w : Worker T E) × (get_elem? ws i ≡ some w) × Busy w)
  some_left [] = inl tt
  some_left (waiting ∷ ws) = inr (zero, waiting, refl, tt)
  some_left (holding x ∷ ws) = inr (zero, holding x, refl, tt)
  some_left (executing x ∷ ws) = inr (zero, executing x, refl, tt)
  some_left (reporting e ∷ ws) = inr (zero, reporting e, refl, tt)
  some_left (finished ∷ ws) = elim (some_left ws) [
    | inl done ↦ inl (refl, done)
    | inr (i, w, at, busy) ↦ inr (suc i, w, at, busy)
  ]

  receive_or_leave :
      (b : Batch T E) (i : ℕ) (work : List T)
      → worker b i ≡ some waiting
      → b.work ≡ work
      → (c : Batch T E) × Step b c
  receive_or_leave b i [] h e = (_, leave i h e)
  receive_or_leave b i (x ∷ xs) h e = (_, receive i h e)

  go_on :
      (b : Batch T E) (i : ℕ) (w : Worker T E)
      → worker b i ≡ some w
      → Busy w
      → (c : Batch T E) × Step b c
  go_on b i waiting h busy = receive_or_leave b i b.work h refl
  go_on b i (holding x) h busy = elim (Bool-cases b.cancelled) [
    | inl e ↦ (_, give_up i h e)
    | inr e ↦ (_, execute i h e)
  ]
  go_on b i (executing x) h busy = (_, succeed i h)
  go_on b i (reporting e) h busy = (_, report i h)
  go_on b i finished h busy = elim busy [ ]

  -- What can be said of a run of some steps.
  abbrev pub Ends : ℕ → ℕ → ℕ → Batch T E → Type 0
  Ends items num_workers n b =
      (n ≤ items * 4 + num_workers + 1) × (IsReturned b ⊎ ((c : Batch T E) × Step b c))

  -- However the workers of RunBatch take turns, whatever execute returns and whenever the context is
  -- cancelled, a run has at most four steps for each item, one for each worker and one more; and as
  -- long as not all workers have returned, there is a next step.
  pub steps-spawned :
      (num_workers : ℕ) (items : List T) (n : ℕ) (b : Batch T E)
      → Steps (spawned num_workers items) n b
      → Ends (length items) num_workers n b
  unfolding measure spawned
  steps-spawned num_workers items n b s =
      let weighed : sum weight (replicate {A = Worker T E} num_workers waiting) ≡ num_workers =
        sum-replicate weight num_workers waiting ∙ omega arith in
      (
        omega (arith, measure_steps (spawned num_workers items) b n s, weighed),
        elim (some_left b.workers) [
          | inl done ↦ inl done
          | inr (i, w, at, busy) ↦ inr (go_on b i w at busy)
        ],
      )
