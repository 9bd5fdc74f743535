-- ===== src/Webhooks/Queue.antt =====
-- agent_os/webhooks.py, `WebhookEventSink`: the queue of events, its workers and the closing.
pub mod Sizes
use agent_os_langgraph.Prelude.{
  ℕ, suc, ◌+◌, ◌-◌, ◌≤◌, ◌≡◌, refl, Bool, true, false, List, [], ◌∷◌, ◌++◌, arith, ltb,
  if◌then◌else◌, length, length-append, Bool-cases, inl, inr, ◌==◌,
}
use agent_os_langgraph.Text.{Str}

-- An event, or `_SHUTDOWN_SENTINEL`.
pub data Item : Type 0 where
  event : Str → Item
  sentinel : Item

-- The state of a sink: `started` is the length of `_workers`, `alive` the number of its threads that
-- have not ended, `delivering` the number of events that a worker has taken and not finished, and
-- `to_put` the number of sentinels that `close` has still to put.
pub record Sink : Type 0 where
  pub queued : List Item
  pub started : ℕ
  pub alive : ℕ
  pub delivering : ℕ
  pub to_put : ℕ
  pub is_closed : Bool

-- `put_nowait`, which drops the item where the queue is full
unfoldable pub put_nowait : ℕ → Item → List Item → List Item
put_nowait max_size i q = if ltb (length q) max_size then q ++ i ∷ [] else q

-- `_ensure_workers_started`
abbrev pub ensure_workers : ℕ → Sink → Sink
ensure_workers num_workers s =
    if s.started == 0 then record s { started = num_workers; alive = num_workers } else s

-- An emit that has seen the sink open, possibly before a close
unfoldable pub emit_seen_open : ℕ → ℕ → Str → Sink → Sink
unfolding put_nowait
emit_seen_open max_size num_workers e s =
    let t = ensure_workers num_workers s in
    record t { queued = put_nowait max_size (event e) t.queued }

unfoldable pub emit : ℕ → ℕ → Str → Sink → Sink
unfolding emit_seen_open
emit max_size num_workers e s = if s.is_closed then s else emit_seen_open max_size num_workers e s

-- `close` up to its loop, which puts a sentinel for each worker; the workers are counted when the flag is
-- set.
unfoldable pub close_sink : Sink → Sink
close_sink s = if s.is_closed then s else record s { is_closed = true; to_put = s.started }

-- One round of that loop; workers may take items between two of them.
unfoldable pub put_sentinel : ℕ → Sink → Sink
unfolding put_nowait
put_sentinel max_size s =
    if s.to_put == 0
    then s
    else record s { to_put = s.to_put - 1; queued = put_nowait max_size sentinel s.queued }

-- What a worker does with the first item: it delivers an event, and ends on a sentinel.
abbrev pub taken : Sink → List Item → Sink
taken s [] = s
taken s (event e ∷ q) = record s { queued = q; delivering = suc s.delivering }
taken s (sentinel ∷ q) = record s { queued = q; alive = s.alive - 1 }

-- `_worker_loop` up to the delivery, by a worker that is not delivering.
unfoldable pub take_item : Sink → Sink
take_item s = if ltb s.delivering s.alive then taken s s.queued else s

-- A delivery has ended, with whatever outcome.
unfoldable pub delivered : Sink → Sink
delivered s = record s { delivering = s.delivering - 1 }

-- A sink with a queue and a number of workers of these sizes, which are at least one.
module _ (max_size num_workers : ℕ) where
  pub data SinkStep (s : Sink) : Sink → Type 0 where
    emits : (e : Str) → SinkStep s (emit max_size num_workers e s)
    emits_late : (e : Str) → SinkStep s (emit_seen_open max_size num_workers e s)
    closes : SinkStep s (close_sink s)
    puts : SinkStep s (put_sentinel max_size s)
    takes : SinkStep s (take_item s)
    delivers : SinkStep s (delivered s)

  pub data SinkReach (s : Sink) : Sink → Type 0 where
    at_sink : SinkReach s s
    then_sink : {m n : Sink} → SinkReach s m → SinkStep m n → SinkReach s n
