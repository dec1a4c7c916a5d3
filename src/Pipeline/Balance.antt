-- ===== src/Pipeline/Balance.antt =====
-- Where the events of the agent's batcher are (internal/pipeline): none gets lost unaccounted for.
use mcp_ironclaw.Prelude.{
  ℕ, ◌+◌, ◌%◌, ◌≡◌, refl, Bool, Option, none, some, List, [], ◌∷◌, ◌++◌, length, arith, ap,
  length-append, if_both, List-cases, inl, inr, leb,
}
use mcp_ironclaw.Go.Int64.{modulus, add64}
use mcp_ironclaw.Domain.Event.{Event, Batch, len}
use mcp_ironclaw.Pipeline.{
  Error, with_event, collected, BatcherConfig, Batcher, Attempt, OverflowPolicy, Counters,
  Transport, start_flush, strategy_for, drop_oldest_stage, drop_newest_stage, block_stage,
  count_outcome, count_dropped, send_batch, accept,
}
use mcp_ironclaw.Pipeline.Steps.{State, Step, Reachable}

unfoldable pub events_in : List Batch → ℕ
events_in [] = 0
events_in (b ∷ bs) = len b + events_in bs

events_in-append : (bs cs : List Batch) → events_in (bs ++ cs) ≡ events_in bs + events_in cs
unfolding events_in
events_in-append [] cs = omega arith
events_in-append (b ∷ bs) cs = omega (arith, events_in-append bs cs)

-- The events that an `Enqueue` holds: those of its batch until it is stored or dropped, and those of
-- the batches that it gives up.
unfoldable pub events_of : Attempt → ℕ
unfolding events_in
events_of (Attempt.offering b) = len b
events_of (Attempt.evicting b) = len b
events_of (Attempt.reoffering oldest b) = len oldest + len b
events_of (Attempt.ended o) = events_in o.dropped

abbrev pub attempt_events : Option Attempt → ℕ
attempt_events none = 0
attempt_events (some a) = events_of a

abbrev pub hand_events : Option Batch → ℕ
hand_events none = 0
hand_events (some b) = len b

-- The events inside the batcher.
abbrev pub held : {W : Type 0} → Batcher W → ℕ
held b = length b.pending + attempt_events b.attempt + events_in b.queue + hand_events b.hand

-- Every accepted event is inside, or was handed to the transport, or is counted as dropped.
abbrev pub IsBalanced : {W : Type 0} → State W → Type 0
IsBalanced s =
    s.batcher.stats.events_accepted
    ≡ (held s.batcher + s.handed + s.batcher.stats.events_dropped) % modulus

stage-events :
    (p : OverflowPolicy) (give_up : Bool) (depth : ℕ) (a : Attempt) (queue : List Batch)
    → let (a', queue') = strategy_for p give_up depth a queue in
      events_of a' + events_in queue' ≡ events_of a + events_in queue
unfolding strategy_for drop_oldest_stage drop_newest_stage block_stage events_of events_in
stage-events OverflowPolicy.drop_oldest give_up depth (Attempt.offering b) queue =
    ground (arith, events_in-append queue (b ∷ []))
stage-events OverflowPolicy.drop_oldest give_up depth (Attempt.evicting b) [] = omega arith
stage-events OverflowPolicy.drop_oldest give_up depth (Attempt.evicting b) (q ∷ queue) = omega arith
stage-events OverflowPolicy.drop_oldest give_up depth (Attempt.reoffering x b) queue =
    ground (arith, events_in-append queue (b ∷ []))
stage-events OverflowPolicy.drop_oldest give_up depth (Attempt.ended o) queue = refl
stage-events OverflowPolicy.drop_newest give_up depth (Attempt.offering b) queue =
    ground (arith, events_in-append queue (b ∷ []))
stage-events OverflowPolicy.drop_newest give_up depth (Attempt.evicting b) queue = refl
stage-events OverflowPolicy.drop_newest give_up depth (Attempt.reoffering x b) queue = refl
stage-events OverflowPolicy.drop_newest give_up depth (Attempt.ended o) queue = refl
stage-events OverflowPolicy.block give_up depth (Attempt.offering b) queue =
    ground (arith, events_in-append queue (b ∷ []))
stage-events OverflowPolicy.block give_up depth (Attempt.evicting b) queue = refl
stage-events OverflowPolicy.block give_up depth (Attempt.reoffering x b) queue = refl
stage-events OverflowPolicy.block give_up depth (Attempt.ended o) queue = refl

start_flush-held :
    {W : Type 0} (c : BatcherConfig) (now : ℕ) (b : Batcher W)
    → b.attempt ≡ none
    → held (start_flush c now b) ≡ held b
unfolding start_flush events_of
start_flush-held c now b h = elim (List-cases b.pending) [
  | inl e ↦ ground (arith, h)
  | inr (x, xs, e) ↦ ground (arith, h, ap length e)
]

count_dropped-counts :
    (bs : List Batch) (n : Counters)
    → ((count_dropped bs n).events_accepted ≡ n.events_accepted)
      × ((count_dropped bs n).events_dropped % modulus
          ≡ (n.events_dropped + events_in bs) % modulus)
unfolding count_dropped events_in
count_dropped-counts [] n = (refl, omega arith)
count_dropped-counts (b ∷ bs) n =
    let rest = count_dropped-counts bs _ in (rest.0, omega (arith, rest.1))

-- A batcher that holds the same, with the same counters, is as balanced.
IsBalanced-by :
    {W : Type 0} (b : Batcher W) (s : State W)
    → held b ≡ held s.batcher
    → b.stats ≡ s.batcher.stats
    → IsBalanced s
    → IsBalanced (record s { batcher = b })
IsBalanced-by b s e f h =
    ground (arith, h, e, ap Counters.events_accepted f, ap Counters.events_dropped f)

start_flush-stats :
    {W : Type 0} (c : BatcherConfig) (now : ℕ) (b : Batcher W)
    → (start_flush c now b).stats ≡ b.stats
unfolding start_flush
start_flush-stats c now b = ground arith

with_event-IsBalanced :
    {W : Type 0} (e : Event) (s : State W)
    → IsBalanced s
    → IsBalanced (record s { batcher = with_event e s.batcher })
with_event-IsBalanced e s h = omega (arith, h, length-append s.batcher.pending (e ∷ []))

start_flush-IsBalanced :
    {W : Type 0} (c : BatcherConfig) (now : ℕ) (s : State W)
    → s.batcher.attempt ≡ none
    → IsBalanced s
    → IsBalanced (record s { batcher = start_flush c now s.batcher })
start_flush-IsBalanced c now s free h =
    IsBalanced-by (start_flush c now s.batcher) s (start_flush-held c now s.batcher free)
      (start_flush-stats c now s.batcher) h

collected-IsBalanced :
    {W : Type 0} (c : BatcherConfig) (now : ℕ) (e : Event) (verdict : Option Error) (s : State W)
    → s.batcher.attempt ≡ none
    → IsBalanced s
    → IsBalanced (record s { batcher = collected c now e verdict s.batcher })
unfolding collected
collected-IsBalanced c now e (some x) s free h = h
collected-IsBalanced {W} c now e none s free h =
    let more : State W = record s { batcher = with_event e s.batcher } in
    let kept = with_event-IsBalanced e s h in
    if_both (λ (b : Batcher W). IsBalanced (record s { batcher = b }))
      (leb c.max_events (length more.batcher.pending)) _ _
      (start_flush-IsBalanced c now more free kept) kept

-- What the steps keep.
Step-IsBalanced :
    {W : Type 0} (c : BatcherConfig) (send : Transport W) (s t : State W)
    → Step c send s t
    → IsBalanced s
    → IsBalanced t
unfolding send_batch count_outcome events_of events_in
Step-IsBalanced c send s _ (Step.receiving now e _ free going) h =
    collected-IsBalanced c now e (accept c e) s free h
Step-IsBalanced c send s _ (Step.ticking now _ free going) h = start_flush-IsBalanced c now s free h
Step-IsBalanced c send s _ (Step.finishing now _ free going) h =
    start_flush-IsBalanced c now s free h
Step-IsBalanced c send s _ (Step.trying give_up a _ e) h =
    ground (arith, h, e, stage-events c.policy give_up c.queue_depth a s.batcher.queue)
Step-IsBalanced c send s _ (Step.settling o _ e) h = ground (
  arith,
  h,
  e,
  count_dropped-counts o.dropped s.batcher.stats,
  count_dropped-counts o.dropped
      (record (s.batcher.stats) { batches_enqueued = add64 s.batcher.stats.batches_enqueued 1 }),
)
Step-IsBalanced c send s _ (Step.taking batch rest _ free e) h = ground (arith, h, free, e)
Step-IsBalanced c send s _ (Step.sending batch _ e) h = ground (arith, h, e)

-- In every state that the collector and the sender reach, in any interleaving and with any strategy,
-- each event that was accepted is still inside (in the next batch, in an `Enqueue`, in the queue or
-- in the sender's hands), or was handed to the transport, or is counted as dropped: the numbers agree
-- modulo the range of the counters.
pub Reachable-IsBalanced :
    {W : Type 0} (c : BatcherConfig) (send : Transport W) (s : State W)
    → Reachable c send s
    → IsBalanced s
unfolding events_in
Reachable-IsBalanced c send _ (Reachable.new world) = refl
Reachable-IsBalanced c send s (Reachable.step {s = before} r st) =
    Step-IsBalanced c send before s st (Reachable-IsBalanced c send before r)
