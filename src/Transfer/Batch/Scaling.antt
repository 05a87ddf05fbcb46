-- ===== src/Transfer/Batch/Scaling.antt =====
-- internal/transfer/batch.go: the dispatcher of RunBatchFromChannel, which samples the sizes of the
-- items and scales the number of workers.
pub mod Bounds
use rescale_interlink.Common.{
  ℕ, ◌+◌, ◌*◌, Bool, true, false, not, ◌&&◌, ◌||◌, List, [], ◌∷◌, ◌++◌, ltb, leb, ◌==◌,
  if◌then◌else◌, length,
}
use rescale_interlink.Transfer.Float.{Float}
use rescale_interlink.Resources.Limits.{default_max_concurrent}
use rescale_interlink.Resources.Pool.Concurrency.{compute_batch_concurrency}
use rescale_interlink.Transfer.Batch.{BatchConfig, max_workers_of}

-- The variables of the dispatcher, the number of workers spawned and the count of AdaptiveWorkerCount.
pub record Dispatcher : Type 0 where
  pub sampled : List ℕ
  pub items_since_sample : ℕ
  pub active_workers : ℕ
  pub adaptive : ℕ

-- sampleSize and resampleInterval
abbrev pub sample_size : ℕ
sample_size = 20

abbrev pub resample_interval : ℕ
resample_interval = 50

-- `initialWorkers`
unfoldable pub initial_workers : BatchConfig → ℕ
unfolding max_workers_of
initial_workers cfg =
    let wanted = if cfg.force_sequential then 1 else default_max_concurrent in
    if ltb (max_workers_of cfg) wanted then max_workers_of cfg else wanted

unfoldable pub new_dispatcher : BatchConfig → Dispatcher
unfolding initial_workers
new_dispatcher cfg = record {
  sampled = [];
  items_since_sample = 0;
  active_workers = initial_workers cfg;
  adaptive = initial_workers cfg;
}

-- spawnMore
unfoldable pub spawn_more : BatchConfig → Dispatcher → ℕ → Dispatcher
spawn_more cfg d target =
    if cfg.force_sequential
    then d
    else if leb target d.active_workers
    then d
    else record d { active_workers = target; adaptive = target }

-- `shouldScale`
unfoldable pub should_scale : Dispatcher → Bool
should_scale d =
    (length d.sampled == sample_size && d.items_since_sample == sample_size)
    || leb resample_interval d.items_since_sample

module _ {F : Type 0} (fl : Float F) (cores memory : ℕ) (cfg : BatchConfig) where
  -- The target of a scaling, which is at most twice the workers there are.
  unfoldable pub capped_target : Dispatcher → ℕ
  unfolding max_workers_of
  capped_target d =
      let target =
        compute_batch_concurrency fl cores memory cfg.resource_mgr d.sampled (max_workers_of cfg) in
      let twice = d.active_workers * 2 in
      let max_target = if ltb (max_workers_of cfg) twice then max_workers_of cfg else twice in
      if ltb max_target target then max_target else target

  -- The body of `if shouldScale`.
  unfoldable pub rescale : Dispatcher → Dispatcher
  unfolding capped_target spawn_more
  rescale d =
      let target = capped_target d in
      let scaled =
        if ltb d.active_workers target
        then spawn_more cfg d target
        else if ltb target d.active_workers
        then record d { adaptive = target }
        else d in
      record scaled { items_since_sample = 0 }

  -- A round of the loop, for an item of a size.
  unfoldable pub dispatch_item : Dispatcher → ℕ → Dispatcher
  unfolding rescale should_scale
  dispatch_item d size =
      let counted = record d {
        sampled = d.sampled ++ size ∷ [];
        items_since_sample = d.items_since_sample + 1;
      } in
      if should_scale counted then rescale counted else counted

  unfoldable pub dispatch_items : Dispatcher → List ℕ → Dispatcher
  unfolding dispatch_item
  dispatch_items d [] = d
  dispatch_items d (size ∷ sizes) = dispatch_items (dispatch_item d size) sizes

  -- What comes after the label postLoop.
  unfoldable pub post_loop : Dispatcher → Dispatcher
  unfolding spawn_more max_workers_of
  post_loop d =
      let target =
        compute_batch_concurrency fl cores memory cfg.resource_mgr d.sampled (max_workers_of cfg) in
      let scaled =
        if ltb d.active_workers target && leb target (max_workers_of cfg)
        then spawn_more cfg d target
        else record d { adaptive = target } in
      if ltb 0 (length d.sampled) && ltb (length d.sampled) sample_size then scaled else d

  -- The dispatcher on a channel that is closed behind some items.
  unfoldable pub dispatcher : List ℕ → Dispatcher
  unfolding dispatch_items post_loop new_dispatcher
  dispatcher sizes = post_loop (dispatch_items (new_dispatcher cfg) sizes)
