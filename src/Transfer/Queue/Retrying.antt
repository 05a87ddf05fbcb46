-- ===== src/Transfer/Queue/Retrying.antt =====
-- internal/transfer/queue.go: Retry, whose checks and reset are two critical sections, and what it
-- does to the bytes that a batch counts.
use rescale_interlink.Common.{ℕ, [], ◌∷◌, ◌++◌, ◌≡◌, ◌≢◌, arith, String, some, none, ◌↔◌, true, inl}
use rescale_interlink.Common.Map.{get}
use rescale_interlink.Transfer.Float.{Float}
use rescale_interlink.Transfer.Task.{queued, can_retry, retryable}
use rescale_interlink.Transfer.Queue.{Queue, write, store, publish_transfer_event}
use rescale_interlink.Transfer.Queue.Finish.{retry, retry_check, retry_reset, cannot_be_retried}

module _ {F : Type 0} ⦃fl : Float F⦄ where
  -- Retry of a known task succeeds just when the task has failed or was cancelled and an executor is
  -- set. Then the task is queued and has no error, it is handed to the executor once, and no other task
  -- changes; otherwise Retry changes nothing.
  pub retry_lem :
      (q : Queue F) (id : String) (p : ℕ)
      → get q.tasks_by_id id ≡ some p
      → (((retry q id).1 ≡ none)
          ↔ ((retryable (q.heap p).state ≡ true) × (q.retry_executor ≢ none)))
        × ((retry q id).1 ≡ none
            → (((retry q id).0.heap p).state ≡ queued)
              × (((retry q id).0.heap p).error ≡ none)
              × ((retry q id).0.retried ≡ q.retried ++ p ∷ [])
              × ((a : ℕ) → a ≢ p → (retry q id).0.heap a ≡ q.heap a))
        × ((retry q id).1 ≢ none → (retry q id).0 ≡ q)
  unfolding retry retry_check retry_reset can_retry write store publish_transfer_event
  retry_lem q id p h = (
    ground arith,
    λ e. (ground arith, ground arith, ground arith, λ a ne. ground arith),
    λ ne. ground arith,
  )

  -- When the checks of Retry pass for a task, two calls that both make them before either resets the task
  -- hand it to the executor twice; of two calls in sequence the second fails.
  pub retry_twice :
      (q : Queue F) (id : String) (p executor : ℕ)
      → retry_check q id ≡ inl (p, executor)
      → ((retry_reset (retry_reset q p) p).retried ≡ (q.retried ++ p ∷ []) ++ p ∷ [])
        × ((retry (retry q id).0 id).1 ≡ some cannot_be_retried)
  unfolding retry retry_check retry_reset can_retry write store publish_transfer_event
  retry_twice q id p executor h = ground arith
