-- ===== src/Webhooks/Queue/Sizes.antt =====
-- agent_os/webhooks.py, `WebhookEventSink`: the sizes of the queue and of its workers, and the sentinels.
use agent_os_langgraph.Prelude.{ℕ, suc, ◌+◌, ◌≤◌, ◌≡◌, false, List, [], ◌∷◌, length}
use agent_os_langgraph.Webhooks.Queue.{Item, event, sentinel, Sink}

abbrev pub sentinels : List Item → ℕ
sentinels [] = 0
sentinels (event e ∷ q) = sentinels q
sentinels (sentinel ∷ q) = suc (sentinels q)

-- The queue is not over its size, no more workers live than were asked for, each delivers one event at
-- most, and for each sentinel that is queued or still to put there is a worker that it can end; before
-- a close there is none, and all workers that were started live.
pub record IsWithin (max_size num_workers : ℕ) (s : Sink) : Type 0 where
  pub sized : length s.queued ≤ max_size
  pub few : s.alive ≤ num_workers
  pub busy : s.delivering ≤ s.alive
  pub matched : sentinels s.queued + s.to_put ≤ s.alive
  pub unclosed : s.is_closed ≡ false → (s.alive ≡ s.started) × (sentinels s.queued + s.to_put ≡ 0)
  pub unstarted : s.started ≡ 0 → (s.alive ≡ 0)
