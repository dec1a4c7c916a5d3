-- ===== src/Bus/Reachability.antt =====
-- The balance of internal/bus/bus.go holds from the start, and what it says after a shutdown.
use mcp_ironclaw.Prelude.{
  ℕ, zero, suc, ◌+◌, ◌%◌, ◌≤◌, ◌≡◌, refl, sym, ◌∙◌, ap, subst, inl, inr, none, some, List, [], ◌∷◌,
  arith, true, length, Option-cases,
}
use mcp_ironclaw.Go.Int64.{modulus}
use mcp_ironclaw.Go.Map.{Map, put, find, nat_eq, IsUnique, total}
use mcp_ironclaw.Domain.Errors.{ok}
use mcp_ironclaw.Bus.{
  fresh_bus, Config, Bus, Consumer, new_bus, with_defaults, validate_config, repeat, enter_send,
  receive,
}
use mcp_ironclaw.Bus.Queues.{queued, queued-set_queue, IsConfig, validate_config-IsConfig}
use mcp_ironclaw.Bus.Lifecycle.{Phase, System, Step, Inv, uncounted, in_hand, unburied, Hand}
use mcp_ironclaw.Bus.Consuming.{
  taking-Inv, keeping-Inv, retrying-Inv, delivering-Inv, abandoning-Inv, dying-Inv, burying-Inv,
}
use mcp_ironclaw.Bus.Conservation.{
  entering-Inv, storing-Inv, counting-Inv, giving_up-Inv, leaving-Inv,
}

module _ {T W : Type 0} (c : Consumer T W) where
  Step-Inv : (s s' : System T W) → Step c s s' → Inv s → Inv s'
  Step-Inv s _ (Step.entering i key v _ b fresh e) inv = entering-Inv c i key v s b fresh e inv
  Step-Inv s _ (Step.storing i p v _ here room) inv = storing-Inv c i p v s here inv
  Step-Inv s _ (Step.counting i _ here) inv = counting-Inv c i s here inv
  Step-Inv s _ (Step.giving_up i p v _ here) inv = giving_up-Inv c i p v s here inv
  Step-Inv s _ (Step.leaving i _ here) inv = leaving-Inv c i s here inv
  Step-Inv s _ (Step.closing _) inv = record {
    config = inv.config;
    partitions = inv.partitions;
    unique = inv.unique;
    in_partition = inv.in_partition;
    inflight = inv.inflight;
    unique_hands = inv.unique_hands;
    shut = λ h. (refl, (inv.shut h).1);
    balance = inv.balance;
    letters = inv.letters;
  }
  Step-Inv s _ (Step.shutting_down _ closed idle) inv = record {
    config = inv.config;
    partitions = inv.partitions;
    unique = inv.unique;
    in_partition = inv.in_partition;
    inflight = inv.inflight;
    unique_hands = inv.unique_hands;
    shut = λ h. (closed, idle);
    balance = inv.balance;
    letters = inv.letters;
  }
  Step-Inv s _ (Step.taking i p v rest _ fresh front) inv = taking-Inv i p v rest s fresh front inv
  Step-Inv s _ (Step.handling i n v _ here) inv =
      let (x, failure) = c.handler v s.world in
      keeping-Inv i (Hand.trying (suc n) v) (Hand.returned n v failure) s x here refl refl inv
  Step-Inv s _ (Step.delivering i n v _ here) inv = delivering-Inv i n v none s here inv
  Step-Inv s _ (Step.abandoning i n v e e' _ here done) inv =
      abandoning-Inv i n v (some e) s here inv
  Step-Inv s _ (Step.retrying i n v e _ here going) inv =
      retrying-Inv n (record s { hands = put i (Hand.trying n v) s.hands })
        (keeping-Inv i (Hand.returned n v (some e)) (Hand.trying n v) s s.world here refl refl inv)
  Step-Inv s _ (Step.dying i v _ here) inv = dying-Inv i v s here inv
  Step-Inv s _ (Step.burying i v _ here) inv = burying-Inv i v s here inv

  -- What a new bus comes to by any sequence of steps.
  pub data Reachable : System T W → Type 0 where
    new :
        (config : Config) (b : Bus T) (x : W)
        → new_bus config ≡ ok b
        → Reachable (record { bus = b; senders = []; hands = []; world = x })
    step : {s s' : System T W} → Reachable s → Step c s s' → Reachable s'

  length-repeat : (n : ℕ) (q : List T) → (length (repeat n q) ≡ n)
  unfolding repeat
  length-repeat zero q = refl
  length-repeat (suc n) q = ap suc (length-repeat n q)

  queued-repeat : (n : ℕ) → queued {T = T} (repeat n []) ≡ 0
  unfolding repeat
  queued-repeat zero = refl
  queued-repeat (suc n) = omega (arith, queued-repeat n)

  new_bus-ok :
      (config : Config) (b : Bus T)
      → new_bus config ≡ ok b
      → (b ≡ fresh_bus (with_defaults config)) × (validate_config (with_defaults config) ≡ none)
  unfolding new_bus
  new_bus-ok config b e = elim (Option-cases (validate_config (with_defaults config))) [
    | inr (x, f) ↦ absurd (ground arith)
    | inl f ↦ (ground arith, f)
  ]

  fresh_bus-Inv :
      (config : Config) (x : W)
      → IsConfig config
      → Inv {T = T} {W = W} (record { bus = fresh_bus config; senders = []; hands = []; world = x })
  unfolding total IsUnique
  fresh_bus-Inv config x valid = record {
    config = valid;
    partitions = length-repeat config.partitions [];
    unique = tt;
    in_partition = tt;
    inflight = refl;
    unique_hands = tt;
    shut = λ h. cc;
    balance = omega (arith, queued-repeat config.partitions);
    letters = refl;
  }

  new_bus-Inv :
      (config : Config) (b : Bus T) (x : W)
      → new_bus config ≡ ok b
      → Inv {T = T} {W = W} (record { bus = b; senders = []; hands = []; world = x })
  new_bus-Inv config b x e =
      let (same, valid) = new_bus-ok config b e in
      subst (λ b. Inv (record { bus = b; senders = []; hands = []; world = x })) (sym same)
        (fresh_bus-Inv (with_defaults config) x
          (validate_config-IsConfig (with_defaults config) valid))

  Reachable-Inv : (s : System T W) → Reachable s → Inv s
  Reachable-Inv _ (Reachable.new config b x e) = new_bus-Inv config b x e
  Reachable-Inv s' (Reachable.step {s = s} r t) = Step-Inv s s' t (Reachable-Inv s r)

  -- In every state that the calls reach, in any interleaving, the values that were sent are accounted
  -- for, modulo the range of the counters: those counted as published and those about to be counted
  -- are as many as the delivered, the dead, the abandoned, those in a consumer's hands and the queued
  -- ones together; and the dead ones are as many as the dead letters and those about to become one.
  pub Reachable-balance :
      (s : System T W)
      → Reachable s
      → ((s.bus.stats.published + total uncounted s.senders) % modulus
          ≡ (s.bus.stats.delivered
              + s.bus.stats.dead
              + s.bus.stats.abandoned
              + total in_hand s.hands
              + queued s.bus.partitions)
            % modulus)
        × (s.bus.stats.dead % modulus
            ≡ (length s.bus.dead_letter + total unburied s.hands) % modulus)
  Reachable-balance s r = let inv = Reachable-Inv s r in (inv.balance, inv.letters)

  no_sender : (m : Map ℕ (Phase T)) → length m ≡ 0 → m ≡ []
  no_sender [] h = refl
  no_sender (p ∷ m) h = absurd (omega arith)

  total-empty : {V : Type 0} (f : V → ℕ) (m : Map ℕ V) → m ≡ [] → total f m ≡ 0
  unfolding total
  total-empty f [] h = refl
  total-empty f (p ∷ m) h = cc

  none_found : (m : Map ℕ (Phase T)) (i : ℕ) (x : Phase T) → m ≡ [] → find i m ≡ some x → ⊥
  unfolding find
  none_found [] i x h e = cc
  none_found (p ∷ m) i x h e = cc

  -- What a step can do when the bus is shut down and no sender is inside.
  IsQuiet : System T W → System T W → Type 0
  IsQuiet s s' =
      (s'.bus.shutdown ≡ true)
      × (s'.bus.stats.published ≡ s.bus.stats.published)
      × (queued s'.bus.partitions ≤ queued s.bus.partitions)

  IsQuiet-Step :
      (s s' : System T W)
      → Inv s
      → s.senders ≡ []
      → s.bus.closed ≡ true
      → s.bus.shutdown ≡ true
      → Step c s s'
      → IsQuiet s s'
  unfolding receive enter_send IsQuiet
  IsQuiet-Step s _ inv idle closed down (Step.entering i key v _ b fresh e) = absurd (ground arith)
  IsQuiet-Step s _ inv idle closed down (Step.storing i p v _ here room) =
      absurd (none_found s.senders i (Phase.entered p v) idle here)
  IsQuiet-Step s _ inv idle closed down (Step.counting i _ here) =
      absurd (none_found s.senders i Phase.stored idle here)
  IsQuiet-Step s _ inv idle closed down (Step.giving_up i p v _ here) = (down, refl, omega arith)
  IsQuiet-Step s _ inv idle closed down (Step.leaving i _ here) =
      absurd (none_found s.senders i Phase.ended idle here)
  IsQuiet-Step s _ inv idle closed down (Step.closing _) = (down, refl, omega arith)
  IsQuiet-Step s _ inv idle closed down (Step.shutting_down _ _ _) = (refl, refl, omega arith)
  IsQuiet-Step s _ inv idle closed down (Step.taking i p v rest _ fresh front) =
      (down, refl, omega (arith, (queued-set_queue p v rest s.bus.partitions front).0))
  IsQuiet-Step s _ inv idle closed down (Step.handling i n v _ here) = (down, refl, omega arith)
  IsQuiet-Step s _ inv idle closed down (Step.delivering i n v _ here) = (down, refl, omega arith)
  IsQuiet-Step s _ inv idle closed down (Step.abandoning i n v e e' _ here done) =
      (down, refl, omega arith)
  IsQuiet-Step s _ inv idle closed down (Step.retrying i zero v e _ here going) =
      (down, refl, omega arith)
  IsQuiet-Step s _ inv idle closed down (Step.retrying i (suc n) v e _ here going) =
      (down, refl, omega arith)
  IsQuiet-Step s _ inv idle closed down (Step.dying i v _ here) = (down, refl, omega arith)
  IsQuiet-Step s _ inv idle closed down (Step.burying i v _ here) = (down, refl, omega arith)

  -- Once `Close` has signalled the shutdown no call of `Send` is left inside, and no later step adds
  -- a value to a partition or counts one as published; so when the partitions are drained and no
  -- consumer has a value in its hands, every value that was published has been delivered, was
  -- abandoned or is a dead letter.
  pub shutdown_settles :
      (s : System T W)
      → Reachable s
      → s.bus.shutdown ≡ true
      → (s.senders ≡ [])
        × ((s' : System T W)
            → Step c s s'
            → (s'.bus.shutdown ≡ true)
              × (s'.bus.stats.published ≡ s.bus.stats.published)
              × (queued s'.bus.partitions ≤ queued s.bus.partitions))
        × (queued s.bus.partitions ≡ 0
            → s.hands ≡ []
            → s.bus.stats.published % modulus
              ≡ (s.bus.stats.delivered + length s.bus.dead_letter + s.bus.stats.abandoned)
                % modulus)
  unfolding IsQuiet
  shutdown_settles s r down =
      let inv = Reachable-Inv s r in
      let (closed, idle) = inv.shut down in
      let empty = no_sender s.senders (sym inv.inflight ∙ idle) in
      (
        empty,
        λ s' t. IsQuiet-Step s s' inv empty closed down t,
        λ drained handed. omega (
          arith,
          inv.balance,
          inv.letters,
          drained,
          total-empty uncounted s.senders empty,
          total-empty in_hand s.hands handed,
          total-empty unburied s.hands handed,
        ),
      )
