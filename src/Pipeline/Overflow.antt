-- ===== src/Pipeline/Overflow.antt =====
-- What the strategies of internal/pipeline/overflow.go keep and drop.
use mcp_ironclaw.Prelude.{
  subst, ℕ, ◌+◌, ◌≤◌, ◌<◌, ◌≡◌, refl, false, Bool, Option, none, some, List, [], ◌∷◌, length, arith,
  ap, length-append, leb, inl, inr, if_both, List-cases,
}
use mcp_ironclaw.Domain.Errors.{Error}
use mcp_ironclaw.Domain.Event.{Event, Batch, len}
use mcp_ironclaw.Pipeline.{
  with_event, collected, BatcherConfig, Batcher, Attempt, with_outcome, OverflowPolicy, Transport,
  start_flush, strategy_for, drop_oldest_stage, drop_newest_stage, block_stage, send_batch, accept,
}
use mcp_ironclaw.Pipeline.Steps.{State, Step, Reachable, attempted}

-- Where a batch was evicted there is room for the new one.
abbrev pub HasRoom : ℕ → Option Attempt → List Batch → Type 0
HasRoom depth (some (Attempt.reoffering oldest b)) queue = length queue < depth
HasRoom depth a queue = Unit

abbrev IsBounded : {W : Type 0} → BatcherConfig → Batcher W → Type 0
IsBounded c b = (length b.queue ≤ c.queue_depth) × HasRoom c.queue_depth b.attempt b.queue

stage-IsBounded :
    (p : OverflowPolicy) (give_up : Bool) (depth : ℕ) (a : Attempt) (queue : List Batch)
    → length queue ≤ depth
    → HasRoom depth (some a) queue
    → let (a', queue') = strategy_for p give_up depth a queue in
      (length queue' ≤ depth) × HasRoom depth (some a') queue'
unfolding strategy_for drop_oldest_stage drop_newest_stage block_stage
stage-IsBounded OverflowPolicy.drop_oldest give_up depth (Attempt.offering b) queue h r =
    ground (arith, length-append queue (b ∷ []))
stage-IsBounded OverflowPolicy.drop_oldest give_up depth (Attempt.evicting b) [] h r = omega arith
stage-IsBounded OverflowPolicy.drop_oldest give_up depth (Attempt.evicting b) (q ∷ queue) h r =
    omega arith
stage-IsBounded OverflowPolicy.drop_oldest give_up depth (Attempt.reoffering x b) queue h r =
    ground (arith, length-append queue (b ∷ []))
stage-IsBounded OverflowPolicy.drop_oldest give_up depth (Attempt.ended o) queue h r = (h, tt)
stage-IsBounded OverflowPolicy.drop_newest give_up depth (Attempt.offering b) queue h r =
    ground (arith, length-append queue (b ∷ []))
stage-IsBounded OverflowPolicy.drop_newest give_up depth (Attempt.evicting b) queue h r = (h, tt)
stage-IsBounded OverflowPolicy.drop_newest give_up depth (Attempt.reoffering x b) queue h r = (h, r)
stage-IsBounded OverflowPolicy.drop_newest give_up depth (Attempt.ended o) queue h r = (h, tt)
stage-IsBounded OverflowPolicy.block give_up depth (Attempt.offering b) queue h r =
    ground (arith, length-append queue (b ∷ []))
stage-IsBounded OverflowPolicy.block give_up depth (Attempt.evicting b) queue h r = (h, tt)
stage-IsBounded OverflowPolicy.block give_up depth (Attempt.reoffering x b) queue h r = (h, r)
stage-IsBounded OverflowPolicy.block give_up depth (Attempt.ended o) queue h r = (h, tt)

start_flush-IsBounded :
    {W : Type 0} (c : BatcherConfig) (now : ℕ) (b : Batcher W)
    → IsBounded c b
    → IsBounded c (start_flush c now b)
unfolding start_flush
start_flush-IsBounded c now b h = elim (List-cases b.pending) [
  | inl e ↦ ground (arith, h)
  | inr (x, xs, e) ↦ ground (arith, h)
]

collected-IsBounded :
    {W : Type 0} (c : BatcherConfig) (now : ℕ) (e : Event) (verdict : Option Error) (b : Batcher W)
    → IsBounded c b
    → IsBounded c (collected c now e verdict b)
unfolding collected
collected-IsBounded c now e (some x) b h = h
collected-IsBounded c now e none b h =
    if_both (IsBounded c) (leb c.max_events (length (with_event e b).pending)) _ _
      (start_flush-IsBounded c now (with_event e b) h) h

less-HasRoom :
    (depth : ℕ) (a : Option Attempt) (q : Batch) (queue : List Batch)
    → HasRoom depth a (q ∷ queue)
    → HasRoom depth a queue
less-HasRoom depth none q queue h = tt
less-HasRoom depth (some (Attempt.offering b)) q queue h = tt
less-HasRoom depth (some (Attempt.evicting b)) q queue h = tt
less-HasRoom depth (some (Attempt.reoffering x b)) q queue h = omega arith
less-HasRoom depth (some (Attempt.ended o)) q queue h = tt

Step-IsBounded :
    {W : Type 0} (c : BatcherConfig) (send : Transport W) (s t : State W)
    → Step c send s t
    → IsBounded c s.batcher
    → IsBounded c t.batcher
unfolding send_batch
Step-IsBounded c send s _ (Step.receiving now e _ free going) h =
    collected-IsBounded c now e (accept c e) s.batcher h
Step-IsBounded c send s _ (Step.ticking now _ free going) h =
    start_flush-IsBounded c now s.batcher h
Step-IsBounded c send s _ (Step.finishing now _ free going) h =
    start_flush-IsBounded c now s.batcher h
Step-IsBounded c send s _ (Step.trying give_up a _ e) h =
    stage-IsBounded c.policy give_up c.queue_depth a s.batcher.queue h.0
      (subst (λ o. HasRoom c.queue_depth o s.batcher.queue) e h.1)
Step-IsBounded c send s _ (Step.settling o _ e) h = (h.0, tt)
Step-IsBounded c send s _ (Step.taking batch rest _ free e) h = (
  omega (arith, h.0, ap length e),
  less-HasRoom c.queue_depth s.batcher.attempt batch rest
      (subst (HasRoom c.queue_depth s.batcher.attempt) e h.1),
)
Step-IsBounded c send s _ (Step.sending batch _ e) h = h

-- In every reachable state the queue holds no more batches than its depth; and where the drop-oldest
-- strategy has evicted a batch, there is room for the new one, so that its last `select` never drops
-- both.
pub Reachable-IsBounded :
    {W : Type 0} (c : BatcherConfig) (send : Transport W) (s : State W)
    → Reachable c send s
    → (length s.batcher.queue ≤ c.queue_depth)
      × HasRoom c.queue_depth s.batcher.attempt s.batcher.queue
Reachable-IsBounded c send _ (Reachable.new world) = (omega arith, tt)
Reachable-IsBounded c send s (Reachable.step {s = before} r st) =
    Step-IsBounded c send before s st (Reachable-IsBounded c send before r)

module _ {W : Type 0} (c : BatcherConfig) (send : Transport W) where
  -- The sender empties the queue while an `Enqueue` waits before its second `select`.
  emptied :
      (b : Batch) (queue : List Batch) (s : State W)
      → Reachable c send s
      → s.batcher.attempt ≡ some (Attempt.evicting b)
      → s.batcher.hand ≡ none
      → s.batcher.queue ≡ queue
      → (t : State W) × Reachable c send t
        × (t.batcher.attempt ≡ some (Attempt.evicting b))
        × (t.batcher.queue ≡ [])
  unfolding send_batch
  emptied b [] s r e free q = (s, r, e, q)
  emptied b (batch ∷ rest) s r e free q =
      let taken : State W = record s {
        batcher = record (s.batcher) { queue = rest; hand = some batch };
      } in
      let sent : State W = record taken {
        batcher = send_batch send batch taken.batcher;
        handed = taken.handed + len batch;
      } in
      emptied b rest sent
        (Reachable.step (Reachable.step r (Step.taking batch rest s free q))
          (Step.sending batch taken refl))
        e refl refl

  -- From every reachable state in which the drop-oldest strategy has met a full queue, and the sender
  -- is free, the batcher can reach one in which the new batch is dropped although the queue is empty:
  -- the sender empties the queue before the strategy looks for a batch to evict.
  pub newest_dropped :
      (b : Batch) (s : State W)
      → c.policy ≡ OverflowPolicy.drop_oldest
      → Reachable c send s
      → s.batcher.attempt ≡ some (Attempt.evicting b)
      → s.batcher.hand ≡ none
      → (t : State W) × Reachable c send t
        × (t.batcher.attempt ≡ some (with_outcome false (b ∷ [])))
        × (t.batcher.queue ≡ [])
  unfolding strategy_for drop_oldest_stage
  newest_dropped b s p r e free =
      let (t, r', e', q) = emptied b s.batcher.queue s r e free refl in
      (
        record t { batcher = attempted c false (Attempt.evicting b) t.batcher },
        Reachable.step r' (Step.trying false (Attempt.evicting b) t e'),
        ground (arith, p, q),
        ground (arith, p, q),
      )
