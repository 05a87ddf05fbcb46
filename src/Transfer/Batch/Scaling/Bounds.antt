-- ===== src/Transfer/Batch/Scaling/Bounds.antt =====
-- internal/transfer/batch.go: the bounds that the scaling of RunBatchFromChannel keeps.
use rescale_interlink.Common.{
  ℕ, ◌+◌, ◌*◌, ◌≤◌, true, List, [], ◌∷◌, ◌++◌, ◌≡◌, ltb, leb, length, length-append, arith,
  Bool-cases, inl, inr, ◌&&◌,
}
use rescale_interlink.Transfer.Float.{Float}
use rescale_interlink.Resources.Pool.Concurrency.{compute_batch_concurrency}
use rescale_interlink.Resources.Pool.Concurrency.Fits.{compute_batch_concurrency_bounds}
use rescale_interlink.Transfer.Batch.{BatchConfig, max_workers_of}
use rescale_interlink.Transfer.Batch.Scaling.{
  Dispatcher, initial_workers, new_dispatcher, spawn_more, should_scale, capped_target, rescale,
  dispatch_item, dispatch_items, post_loop, dispatcher, sample_size,
}

-- The bounds on the workers there are, and on the count that is shown to the transfers.
pub record IsScaled (cfg : BatchConfig) (d : Dispatcher) : Type 0 where
  pub some_worker : 1 ≤ d.adaptive
  pub shown : d.adaptive ≤ d.active_workers
  pub limited : d.active_workers ≤ max_workers_of cfg
  pub sequential : cfg.force_sequential ≡ true → d.active_workers ≡ 1

max_workers_of_positive : (cfg : BatchConfig) → 1 ≤ max_workers_of cfg
unfolding max_workers_of
max_workers_of_positive cfg = ground arith

new_dispatcher-IsScaled : (cfg : BatchConfig) → IsScaled cfg (new_dispatcher cfg)
unfolding new_dispatcher initial_workers
new_dispatcher-IsScaled cfg =
    let some_allowed = max_workers_of_positive cfg in
    record {
      some_worker = ground arith;
      shown = ground arith;
      limited = ground arith;
      sequential = λ e. ground arith;
    }

spawn_more-IsScaled :
    (cfg : BatchConfig) (d : Dispatcher) (target : ℕ)
    → target ≤ max_workers_of cfg
    → IsScaled cfg d
    → IsScaled cfg (spawn_more cfg d target)
unfolding spawn_more
spawn_more-IsScaled cfg d target h v = record {
  some_worker = ground (arith, v.some_worker);
  shown = ground (arith, v.shown);
  limited = ground (arith, v.limited);
  sequential = λ e. ground (arith, v.sequential e);
}

show_less-IsScaled :
    (cfg : BatchConfig) (d : Dispatcher) (target : ℕ)
    → 1 ≤ target
    → target ≤ d.active_workers
    → IsScaled cfg d
    → IsScaled cfg (record d { adaptive = target })
show_less-IsScaled cfg d target h k v = record {
  some_worker = h;
  shown = k;
  limited = v.limited;
  sequential = v.sequential;
}

recount-IsScaled :
    (cfg : BatchConfig) (d : Dispatcher) (sampled : List ℕ) (n : ℕ)
    → IsScaled cfg d
    → IsScaled cfg (record d { sampled = sampled; items_since_sample = n })
recount-IsScaled cfg d sampled n v = record {
  some_worker = v.some_worker;
  shown = v.shown;
  limited = v.limited;
  sequential = v.sequential;
}

module _ {F : Type 0} (fl : Float F) (cores memory : ℕ) (cfg : BatchConfig) where
  capped_target_bounds :
      (d : Dispatcher)
      → 1 ≤ length d.sampled
      → 1 ≤ d.active_workers
      → (1 ≤ capped_target fl cores memory cfg d)
        × (capped_target fl cores memory cfg d ≤ max_workers_of cfg)
        × (capped_target fl cores memory cfg d ≤ d.active_workers * 2)
  unfolding capped_target
  capped_target_bounds d h k =
      let some_allowed = max_workers_of_positive cfg in
      let (low, high) =
        compute_batch_concurrency_bounds fl cores memory cfg.resource_mgr d.sampled
          (max_workers_of cfg) h some_allowed in
      ground (arith, low, high, some_allowed)

  rescale-IsScaled :
      (d : Dispatcher)
      → 1 ≤ length d.sampled
      → IsScaled cfg d
      → IsScaled cfg (rescale fl cores memory cfg d)
  unfolding rescale
  rescale-IsScaled d h v =
      let target = capped_target fl cores memory cfg d in
      let (low, high, _) = capped_target_bounds d h (omega (arith, v.some_worker, v.shown)) in
      elim (Bool-cases (ltb d.active_workers target)) [
        | inl e ↦
            rw (rescale, e) (recount-IsScaled cfg _ _ 0 (spawn_more-IsScaled cfg d target high v))
        | inr e ↦ elim (Bool-cases (ltb target d.active_workers)) [
          | inl f ↦
              rw (rescale, e, f)
                (recount-IsScaled cfg _ _ 0 (show_less-IsScaled cfg d target low (ground arith) v))
          | inr f ↦ rw (rescale, e, f) (recount-IsScaled cfg d _ 0 v)
        ]
      ]

  dispatch_item-IsScaled :
      (d : Dispatcher) (size : ℕ)
      → IsScaled cfg d
      → IsScaled cfg (dispatch_item fl cores memory cfg d size)
  unfolding dispatch_item
  dispatch_item-IsScaled d size v =
      let counted = record d {
        sampled = d.sampled ++ size ∷ [];
        items_since_sample = d.items_since_sample + 1;
      } in
      let same = recount-IsScaled cfg d (d.sampled ++ size ∷ []) (d.items_since_sample + 1) v in
      elim (Bool-cases (should_scale counted)) [
        | inl e ↦
            rw (dispatch_item, e)
              (rescale-IsScaled counted (omega (arith, length-append d.sampled (size ∷ []))) same)
        | inr e ↦ rw (dispatch_item, e) same
      ]

  dispatch_items-IsScaled :
      (d : Dispatcher) (sizes : List ℕ)
      → IsScaled cfg d
      → IsScaled cfg (dispatch_items fl cores memory cfg d sizes)
  unfolding dispatch_items
  dispatch_items-IsScaled d [] v = v
  dispatch_items-IsScaled d (size ∷ sizes) v =
      dispatch_items-IsScaled (dispatch_item fl cores memory cfg d size) sizes
        (dispatch_item-IsScaled d size v)

  post_loop-IsScaled :
      (d : Dispatcher) → IsScaled cfg d → IsScaled cfg (post_loop fl cores memory cfg d)
  unfolding post_loop
  post_loop-IsScaled d v =
      let most = max_workers_of cfg in
      let target = compute_batch_concurrency fl cores memory cfg.resource_mgr d.sampled most in
      elim (Bool-cases (ltb 0 (length d.sampled) && ltb (length d.sampled) sample_size)) [
        | inr none_or_enough ↦ rw (post_loop, none_or_enough) v
        | inl few ↦
            let (low, high) =
              compute_batch_concurrency_bounds fl cores memory cfg.resource_mgr d.sampled most
                (ground (arith, few)) (max_workers_of_positive cfg) in
            elim (Bool-cases (ltb d.active_workers target && leb target most)) [
              | inl more ↦ rw (post_loop, few, more) (spawn_more-IsScaled cfg d target high v)
              | inr enough ↦
                  rw (post_loop, few, enough)
                    (show_less-IsScaled cfg d target low (ground (arith, enough, high)) v)
            ]
      ]

  -- However many items of whatever sizes the dispatcher of RunBatchFromChannel passes on, at any time and
  -- at its end there is a worker at least, there are not more workers than the maximum, and only one if
  -- the batch is forced to be sequential; and the count that the transfers read is from 1 to the number
  -- of workers.
  pub dispatcher-IsScaled :
      (sizes : List ℕ)
      → IsScaled cfg (dispatch_items fl cores memory cfg (new_dispatcher cfg) sizes)
        × IsScaled cfg (dispatcher fl cores memory cfg sizes)
  unfolding dispatcher
  dispatcher-IsScaled sizes =
      let v = dispatch_items-IsScaled (new_dispatcher cfg) sizes (new_dispatcher-IsScaled cfg) in
      (v, post_loop-IsScaled (dispatch_items fl cores memory cfg (new_dispatcher cfg) sizes) v)
