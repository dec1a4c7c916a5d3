-- ===== src/Bus/Consuming.antt =====
-- No value is lost between its partition and the end of its delivery in internal/bus/bus.go, while the
-- calls of `deliver` interleave.
use mcp_ironclaw.Prelude.{
  ℕ, zero, suc, ◌+◌, ◌≡◌, ◌%◌, refl, sym, ◌∙◌, ap, subst, none, some, List, ◌∷◌, [], arith, length,
  Option, length-append,
}
use mcp_ironclaw.Go.Int64.{modulus}
use mcp_ironclaw.Go.Map.{
  Map, find, put, remove, nat_eq, IsUnique, put-IsUnique, remove-IsUnique, total, total-put_new,
  total-put_old, total-remove,
}
use mcp_ironclaw.Go.Map.Entries.{Entries}
use mcp_ironclaw.Domain.Errors.{Error}
use mcp_ironclaw.Bus.{
  Bus, Stats, set_queue, queue_at, take_value, count_delivered, count_abandoned, count_retry,
  count_dead, add_dead_letter,
}
use mcp_ironclaw.Bus.Queues.{IsConfig, queued, queued-set_queue}
use mcp_ironclaw.Bus.Lifecycle.{System, Hand, Inv, InPartition, in_hand, unburied}

-- What the steps of the consumers leave as it was.
pub record IsSame {T : Type 0} (b b' : Bus T) : Type 0 where
  pub config : b'.config ≡ b.config
  pub partitions : length b'.partitions ≡ length b.partitions
  pub inflight : b'.inflight ≡ b.inflight
  pub closed : b'.closed ≡ b.closed
  pub shutdown : b'.shutdown ≡ b.shutdown
  pub published : b'.stats.published ≡ b.stats.published

-- The values that were taken for published, and where they are.
abbrev accounted : {T : Type 0} → Bus T → Map ℕ (Hand T) → ℕ
accounted b m =
    b.stats.delivered + b.stats.dead + b.stats.abandoned + total in_hand m + queued b.partitions

-- A step of a consumer changes at most a partition's values, the counts and the dead letters.
touched :
    {T : Type 0} (b : Bus T) (qs : List (List T)) (counts : Stats) (letters : List T)
    → length qs ≡ length b.partitions
    → counts.published ≡ b.stats.published
    → IsSame b (record b { partitions = qs; stats = counts; dead_letter = letters })
touched b qs counts letters h g = record {
  config = refl;
  partitions = h;
  inflight = refl;
  closed = refl;
  shutdown = refl;
  published = g;
}

module _ {T W : Type 0} where
  -- A step of a consumer that leaves every value in one place.
  pub held-Inv :
      (s : System T W) (b : Bus T) (m : Map ℕ (Hand T)) (x : W)
      → Inv s
      → IsSame s.bus b
      → IsUnique m
      → accounted b m % modulus ≡ accounted s.bus s.hands % modulus
      → b.stats.dead % modulus ≡ (length b.dead_letter + total unburied m) % modulus
      → Inv (record s { bus = b; hands = m; world = x })
  held-Inv s b m x inv same unique balance letters = record {
    config = subst IsConfig (sym same.config) inv.config;
    partitions = same.partitions ∙ inv.partitions ∙ ap (λ g. g.partitions) (sym same.config);
    unique = inv.unique;
    in_partition =
        subst (λ g. Entries (InPartition g.partitions) s.senders) (sym same.config)
          inv.in_partition;
    inflight = same.inflight ∙ inv.inflight;
    unique_hands = unique;
    shut = λ h. ground (arith, inv.shut (sym same.shutdown ∙ h), same.closed, same.inflight);
    balance = omega (arith, inv.balance, balance, same.published);
    letters = letters;
  }

  pub taking-Inv :
      (i p : ℕ) (v : T) (rest : List T) (s : System T W)
      → find i s.hands ≡ none
      → queue_at p s.bus.partitions ≡ v ∷ rest
      → Inv s
      → Inv (record s {
        bus = take_value p rest s.bus;
        hands = put i (Hand.trying s.bus.config.max_attempts v) s.hands;
      })
  taking-Inv i p v rest s fresh front inv =
      let hand = Hand.trying s.bus.config.max_attempts v in
      let (less, same) = queued-set_queue p v rest s.bus.partitions front in
      held-Inv s (take_value p rest s.bus) (put i hand s.hands) s.world inv
        (touched s.bus (set_queue p rest s.bus.partitions) s.bus.stats s.bus.dead_letter same refl)
        (put-IsUnique i hand s.hands inv.unique_hands)
        (omega (arith, less, total-put_new in_hand i hand s.hands fresh))
        (omega (arith, inv.letters, total-put_new unburied i hand s.hands fresh))

  -- A step in which a value stays in its hand, and counts neither as dead nor as delivered.
  pub keeping-Inv :
      (i : ℕ) (hand hand' : Hand T) (s : System T W) (x : W)
      → find i s.hands ≡ some hand
      → in_hand hand' ≡ in_hand hand
      → unburied hand' ≡ unburied hand
      → Inv s
      → Inv (record s { hands = put i hand' s.hands; world = x })
  keeping-Inv i hand hand' s x here same same' inv =
      held-Inv s s.bus (put i hand' s.hands) x inv
        (touched s.bus s.bus.partitions s.bus.stats s.bus.dead_letter refl refl)
        (put-IsUnique i hand' s.hands inv.unique_hands)
        (omega (arith, same, total-put_old in_hand i hand' hand s.hands here))
        (omega (arith, same', inv.letters, total-put_old unburied i hand' hand s.hands here))

  pub retrying-Inv : (n : ℕ) (s : System T W) → Inv s → Inv (record s { bus = count_retry n s.bus })
  retrying-Inv zero s inv = inv
  retrying-Inv (suc n) s inv =
      held-Inv s (count_retry (suc n) s.bus) s.hands s.world inv
        (touched s.bus s.bus.partitions (count_retry (suc n) s.bus).stats
          (count_retry (suc n) s.bus).dead_letter refl refl)
        inv.unique_hands refl inv.letters

  -- A value leaves its hand when it is counted as delivered or as abandoned.
  pub delivering-Inv :
      (i n : ℕ) (v : T) (failure : Option Error) (s : System T W)
      → find i s.hands ≡ some (Hand.returned n v failure)
      → Inv s
      → Inv (record s { bus = count_delivered s.bus; hands = remove i s.hands })
  delivering-Inv i n v failure s here inv =
      let hand = Hand.returned n v failure in
      held-Inv s (count_delivered s.bus) (remove i s.hands) s.world inv
        (touched s.bus s.bus.partitions (count_delivered s.bus).stats
          (count_delivered s.bus).dead_letter refl refl)
        (remove-IsUnique i s.hands inv.unique_hands)
        (omega (arith, total-remove in_hand i hand s.hands inv.unique_hands here))
        (omega (arith, inv.letters, total-remove unburied i hand s.hands inv.unique_hands here))

  pub abandoning-Inv :
      (i n : ℕ) (v : T) (failure : Option Error) (s : System T W)
      → find i s.hands ≡ some (Hand.returned n v failure)
      → Inv s
      → Inv (record s { bus = count_abandoned s.bus; hands = remove i s.hands })
  abandoning-Inv i n v failure s here inv =
      let hand = Hand.returned n v failure in
      held-Inv s (count_abandoned s.bus) (remove i s.hands) s.world inv
        (touched s.bus s.bus.partitions (count_abandoned s.bus).stats
          (count_abandoned s.bus).dead_letter refl refl)
        (remove-IsUnique i s.hands inv.unique_hands)
        (omega (arith, total-remove in_hand i hand s.hands inv.unique_hands here))
        (omega (arith, inv.letters, total-remove unburied i hand s.hands inv.unique_hands here))

  pub dying-Inv :
      (i : ℕ) (v : T) (s : System T W)
      → find i s.hands ≡ some (Hand.trying 0 v)
      → Inv s
      → Inv (record s { bus = count_dead s.bus; hands = put i (Hand.burying v) s.hands })
  dying-Inv i v s here inv =
      let hand = Hand.burying v in
      held-Inv s (count_dead s.bus) (put i hand s.hands) s.world inv
        (touched s.bus s.bus.partitions (count_dead s.bus).stats (count_dead s.bus).dead_letter refl
          refl)
        (put-IsUnique i hand s.hands inv.unique_hands)
        (omega (arith, total-put_old in_hand i hand (Hand.trying 0 v) s.hands here))
        (omega (arith, inv.letters, total-put_old unburied i hand (Hand.trying 0 v) s.hands here))

  pub burying-Inv :
      (i : ℕ) (v : T) (s : System T W)
      → find i s.hands ≡ some (Hand.burying v)
      → Inv s
      → Inv (record s { bus = add_dead_letter v s.bus; hands = remove i s.hands })
  burying-Inv i v s here inv =
      let hand = Hand.burying v in
      held-Inv s (add_dead_letter v s.bus) (remove i s.hands) s.world inv
        (touched s.bus s.bus.partitions (add_dead_letter v s.bus).stats
          (add_dead_letter v s.bus).dead_letter refl refl)
        (remove-IsUnique i s.hands inv.unique_hands)
        (omega (arith, total-remove in_hand i hand s.hands inv.unique_hands here))
        (omega (
          arith,
          inv.letters,
          length-append s.bus.dead_letter (v ∷ []),
          total-remove unburied i hand s.hands inv.unique_hands here,
        ))
