-- ===== src/Transfer/Batch/Results.antt =====
-- internal/transfer/batch.go: what RunBatch has done and counted when it returns.
use rescale_interlink.Common.{
  ℕ, zero, suc, ◌+◌, ◌≤◌, ◌<◌, Bool, false, List, [], ◌∷◌, ◌++◌, some, ◌≡◌, refl, All,
  if◌then◌else◌, arith, length, length-append, length-set, length-replicate, get_elem?, set,
  replicate, ap,
}
use rescale_interlink.Transfer.Float.{Float}
use rescale_interlink.Transfer.Batch.{
  result, BatchConfig, compute_workers, Worker, waiting, holding, executing, reporting, finished,
  Batch, spawned, Step, receive, leave, give_up, execute, succeed, fail, report, cancel, Steps,
  start, later,
}
use rescale_interlink.Transfer.Batch.Workers.{sum, sum-set, IsFinished, IsReturned}

module _ {A : Type 0} where
  -- How many elements pass a test.
  abbrev pub tally : (A → Bool) → List A → ℕ
  tally p [] = 0
  tally p (x ∷ xs) = (if p x then 1 else 0) + tally p xs

  tally-append : (p : A → Bool) (xs ys : List A) → tally p (xs ++ ys) ≡ tally p xs + tally p ys
  tally-append p [] ys = omega arith
  tally-append p (x ∷ xs) ys = omega (arith, tally-append p xs ys)

  no_tally : (p : A → Bool) (xs : List A) → length xs ≡ 0 → tally p xs ≡ 0
  no_tally p [] h = refl
  no_tally p (x ∷ xs) h = absurd (omega arith)

module _ {T E : Type 0} where
  abbrev held : (T → Bool) → Worker T E → ℕ
  held p (holding x) = if p x then 1 else 0
  held p _ = 0

  abbrev in_execute : Worker T E → ℕ
  in_execute (executing x) = 1
  in_execute _ = 0

  abbrev in_report : Worker T E → ℕ
  in_report (reporting e) = 1
  in_report _ = 0

  abbrev gone : Worker T E → ℕ
  gone finished = 1
  gone _ = 0

  -- What holds of a run on some items at any time.
  record Accounts (items : List T) (b : Batch T E) : Type 0 where
    once :
        (p : T → Bool)
        → tally p b.work + sum (held p) b.workers + tally p b.executed + tally p b.dropped
          ≡ tally p items
    counted : b.completed + b.failed + sum in_execute b.workers ≡ length b.executed
    errors : length b.errs + sum in_report b.workers ≡ b.failed
    kept : b.cancelled ≡ false → length b.dropped ≡ 0
    staffed : 0 < length b.workers
    drained : b.cancelled ≡ false → 0 < sum gone b.workers → length b.work ≡ 0

  -- What the sums of all workers are when one of them moves on.
  abbrev Balances :
      (Worker T E → ℕ) → List (Worker T E) → List (Worker T E) → Worker T E → Worker T E → Type 0
  Balances f before after old new = sum f after + f old ≡ sum f before + f new

  moved :
      (ws : List (Worker T E)) (i : ℕ) (old new : Worker T E)
      → get_elem? ws i ≡ some old
      → ((p : T → Bool) → Balances (held p) ws (set ws i new) old new)
        × Balances in_execute ws (set ws i new) old new
        × Balances in_report ws (set ws i new) old new
        × Balances gone ws (set ws i new) old new
        × (length (set ws i new) ≡ length ws)
  moved ws i old new w = (
    λ p. sum-set (held p) ws i old new w,
    sum-set in_execute ws i old new w,
    sum-set in_report ws i old new w,
    sum-set gone ws i old new w,
    length-set ws i new,
  )

  step-Accounts :
      (items : List T) (b c : Batch T E) → Accounts items b → Step b c → Accounts items c
  step-Accounts items b c v (receive i {x} {xs} w h) =
      let sums = moved b.workers i waiting (holding x) w in
      record {
        once = λ p. ground (arith, v.once p, sums.0 p, h);
        counted = ground (arith, v.counted, sums.1);
        errors = ground (arith, v.errors, sums.2);
        kept = v.kept;
        staffed = omega (arith, v.staffed, sums.4);
        drained = λ q some_gone. ground (arith, v.drained, sums.3, h, q, some_gone);
      }
  step-Accounts items b c v (leave i w h) =
      let sums = moved b.workers i waiting finished w in
      record {
        once = λ p. ground (arith, v.once p, sums.0 p);
        counted = ground (arith, v.counted, sums.1);
        errors = ground (arith, v.errors, sums.2);
        kept = v.kept;
        staffed = omega (arith, v.staffed, sums.4);
        drained = λ q some_gone. ground (arith, h);
      }
  step-Accounts items b c v (give_up i {x} w h) =
      let sums = moved b.workers i (holding x) finished w in
      record {
        once = λ p. ground (arith, v.once p, sums.0 p);
        counted = ground (arith, v.counted, sums.1);
        errors = ground (arith, v.errors, sums.2);
        kept = λ q. ground (arith, h, q);
        staffed = omega (arith, v.staffed, sums.4);
        drained = λ q some_gone. ground (arith, h, q);
      }
  step-Accounts items b c v (execute i {x} w h) =
      let sums = moved b.workers i (holding x) (executing x) w in
      record {
        once = λ p. ground (arith, v.once p, sums.0 p, tally-append p b.executed (x ∷ []));
        counted = ground (arith, v.counted, sums.1, length-append b.executed (x ∷ []));
        errors = ground (arith, v.errors, sums.2);
        kept = v.kept;
        staffed = omega (arith, v.staffed, sums.4);
        drained = λ q some_gone. ground (arith, v.drained, sums.3, q, some_gone);
      }
  step-Accounts items b c v (succeed i {x} w) =
      let sums = moved b.workers i (executing x) waiting w in
      record {
        once = λ p. ground (arith, v.once p, sums.0 p);
        counted = ground (arith, v.counted, sums.1);
        errors = ground (arith, v.errors, sums.2);
        kept = v.kept;
        staffed = omega (arith, v.staffed, sums.4);
        drained = λ q some_gone. ground (arith, v.drained, sums.3, q, some_gone);
      }
  step-Accounts items b c v (fail i {x} e w) =
      let sums = moved b.workers i (executing x) (reporting e) w in
      record {
        once = λ p. ground (arith, v.once p, sums.0 p);
        counted = ground (arith, v.counted, sums.1);
        errors = ground (arith, v.errors, sums.2);
        kept = v.kept;
        staffed = omega (arith, v.staffed, sums.4);
        drained = λ q some_gone. ground (arith, v.drained, sums.3, q, some_gone);
      }
  step-Accounts items b c v (report i {e} w) =
      let sums = moved b.workers i (reporting e) waiting w in
      record {
        once = λ p. ground (arith, v.once p, sums.0 p);
        counted = ground (arith, v.counted, sums.1);
        errors = ground (arith, v.errors, sums.2, length-append b.errs (e ∷ []));
        kept = v.kept;
        staffed = omega (arith, v.staffed, sums.4);
        drained = λ q some_gone. ground (arith, v.drained, sums.3, q, some_gone);
      }
  step-Accounts items b c v (cancel h) = record {
    once = v.once;
    counted = v.counted;
    errors = v.errors;
    kept = λ q. ground (arith, q);
    staffed = v.staffed;
    drained = λ q some_gone. ground (arith, q);
  }

  idle : (f : Worker T E → ℕ) (n : ℕ) → f waiting ≡ 0 → sum f (replicate n waiting) ≡ 0
  idle f zero h = refl
  idle f (suc n) h = omega (arith, h, idle f n h)

  spawned-Accounts :
      (num_workers : ℕ) (items : List T)
      → 1 ≤ num_workers
      → Accounts items (spawned {E = E} num_workers items)
  unfolding spawned
  spawned-Accounts n items some_worker = record {
    once = λ p. omega (arith, idle (held p) n refl);
    counted = omega (arith, idle in_execute n refl);
    errors = omega (arith, idle in_report n refl);
    kept = λ q. refl;
    staffed = omega (arith, some_worker, length-replicate {A = Worker T E} n waiting);
    drained = λ q some_gone. absurd (omega (arith, idle gone n refl));
  }

  steps-Accounts :
      (items : List T) (b c : Batch T E) (n : ℕ) → Accounts items b → Steps b n c → Accounts items c
  steps-Accounts items b c n v start = v
  steps-Accounts items b c (suc n) v (later {c = m} s t) =
      step-Accounts items m c (steps-Accounts items b m n v s) t

  count_gone : (ws : List (Worker T E)) → All IsFinished ws → sum gone ws ≡ length ws
  count_gone [] h = refl
  count_gone (w ∷ ws) h = ground (arith, h.0, count_gone ws h.1)

  -- The sum of what workers that have finished have in hand.
  none_left :
      (f : Worker T E → ℕ) (ws : List (Worker T E))
      → f finished ≡ 0
      → All IsFinished ws
      → sum f ws ≡ 0
  none_left f [] e h = refl
  none_left f (w ∷ ws) e h = omega (arith, ap f h.0, e, none_left f ws e h.1)

  -- What the result of a run counts, and which items were executed.
  pub record IsComplete (items : List T) (b : Batch T E) : Type 0 where
    pub counted : (result b).completed + (result b).failed ≡ length b.executed
    pub errors : length (result b).errors ≡ (result b).failed
    pub at_most_once : (p : T → Bool) → tally p b.executed ≤ tally p items
    pub all_executed : b.cancelled ≡ false → (p : T → Bool) → tally p b.executed ≡ tally p items

  Accounts-IsComplete :
      (items : List T) (b : Batch T E) → Accounts items b → IsReturned b → IsComplete items b
  unfolding result
  Accounts-IsComplete items b v done =
      let out = count_gone b.workers done in
      record {
        counted = omega (arith, v.counted, none_left in_execute b.workers refl done);
        errors = omega (arith, v.errors, none_left in_report b.workers refl done);
        at_most_once = λ p. omega (arith, v.once p);
        all_executed = λ q p.
            let empty = v.drained q (omega (arith, v.staffed, out)) in
            omega (
              arith,
              v.once p,
              none_left (held p) b.workers refl done,
              no_tally p b.work empty,
              no_tally p b.dropped (v.kept q),
            );
      }

compute_workers_positive :
    {F : Type 0} {T : Type 0} (fl : Float F) (cores memory : ℕ) (file_size : T → ℕ) (items : List T)
    (cfg : BatchConfig)
    → 1 ≤ compute_workers fl cores memory file_size items cfg
unfolding compute_workers
compute_workers_positive fl cores memory file_size items cfg = ground arith

-- When all workers of RunBatch have returned, in whatever order they took their turns: the completed
-- and the failed items are as many as those executed, there is an error for each failed one, no item
-- was executed more often than it was given, and if the context was not cancelled all were executed.
pub run_batch-IsComplete :
    {F : Type 0} {T E : Type 0} (fl : Float F) (cores memory : ℕ) (file_size : T → ℕ)
    (items : List T) (cfg : BatchConfig) (n : ℕ) (b : Batch T E)
    → Steps (spawned (compute_workers fl cores memory file_size items cfg) items) n b
    → IsReturned b
    → IsComplete items b
run_batch-IsComplete fl cores memory file_size items cfg n b s done =
    let w = compute_workers fl cores memory file_size items cfg in
    let starts =
      spawned-Accounts w items (compute_workers_positive fl cores memory file_size items cfg) in
    Accounts-IsComplete items b (steps-Accounts items (spawned w items) b n starts s) done
