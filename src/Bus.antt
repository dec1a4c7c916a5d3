-- ===== src/Bus.antt =====
-- internal/bus/bus.go: the in-process broker. Its state is what the mutexes, atomics and channels
-- hold; a partition is the buffer of its channel, and `closing` is closed together with `closed`.
pub mod Delivery
pub mod Queues
pub mod Lifecycle
pub mod Conservation
pub mod Consuming
pub mod Reachability
pub mod Runs
pub mod Adapters
pub mod Claims
mod Examples
use mcp_ironclaw.Prelude.{
  ◌-◌, ℕ, zero, suc, ◌+◌, ◌*◌, ◌/◌, ◌%◌, ◌^◌, ◌-◌, Bool, true, false, not, ◌||◌, Option, none, some,
  List, [], ◌∷◌, ◌++◌, ltb, ◌==◌, if◌then◌else◌, length,
}
use mcp_ironclaw.Go.Int64.{add64, is_positive}
use mcp_ironclaw.Go.Text.{Text}
use mcp_ironclaw.Domain.Errors.{
  Error, Result, ok, err, invalid_partitions, invalid_capacity, invalid_attempts, no_free_partition,
  ◌>>◌, reject_if,
}

pub record Config : Type 0 where
  pub partitions : ℕ  -- int
  pub capacity : ℕ
  pub max_attempts : ℕ

-- math.MaxInt32
abbrev max_int32 : ℕ
max_int32 = 2 ^ 31 - 1

unfoldable pub validate_config : Config → Option Error
validate_config c =
    reject_if (not (is_positive c.partitions)) invalid_partitions
    >> reject_if (ltb max_int32 c.partitions) invalid_partitions
    >> reject_if (not (is_positive c.capacity)) invalid_capacity
    >> reject_if (not (is_positive c.max_attempts)) invalid_attempts

pub record Stats : Type 0 where
  pub published : ℕ  -- int64, as all of these
  pub delivered : ℕ
  pub retried : ℕ
  pub dead : ℕ
  pub abandoned : ℕ

pub record Bus (T : Type 0) : Type 0 where
  pub config : Config
  pub partitions : List (List T)
  pub claimed : List Bool
  pub dead_letter : List T
  pub stats : Stats
  pub inflight : ℕ
  pub closed : Bool
  pub shutdown : Bool

unfoldable pub repeat {ℓ} : {A : Type ℓ} → ℕ → A → List A
repeat zero x = []
repeat (suc n) x = x ∷ repeat n x

-- The configuration with the default number of attempts.
abbrev pub with_defaults : Config → Config
with_defaults c = if c.max_attempts == 0 then record c { max_attempts = 1 } else c

-- The bus that `New` builds from a valid configuration.
abbrev pub fresh_bus : {T : Type 0} → Config → Bus T
fresh_bus c = record {
  config = c;
  partitions = repeat c.partitions [];
  claimed = repeat c.partitions false;
  dead_letter = [];
  stats = record { published = 0; delivered = 0; retried = 0; dead = 0; abandoned = 0 };
  inflight = 0;
  closed = false;
  shutdown = false;
}

unfoldable pub new_bus : {T : Type 0} → Config → Result (Bus T)
new_bus config = elim (validate_config (with_defaults config)) [
  | some e ↦ err e
  | none ↦ ok (fresh_bus (with_defaults config))
]

-- a ^ b on the lowest bits
unfoldable pub xor_bits : ℕ → ℕ → ℕ → ℕ
xor_bits zero a b = 0
xor_bits (suc n) a b = (a + b) % 2 + 2 * xor_bits n (a / 2) (b / 2)

-- hash/fnv, New32a: the hash after a text.
unfoldable pub fnv32a_from : ℕ → Text → ℕ
fnv32a_from h [] = h
fnv32a_from h (b ∷ s) = fnv32a_from ((xor_bits 32 h b * 16_777_619) % 2 ^ 32) s

unfoldable pub fnv32a : Text → ℕ
fnv32a s = fnv32a_from 2_166_136_261 s

unfoldable pub partition_for : {T : Type 0} → Bus T → Text → ℕ
partition_for b key = fnv32a key % (b.config.partitions % 2 ^ 32)

-- The first partition that is free, and the claims with it taken.
unfoldable pub claim_from : ℕ → List Bool → Option (ℕ × List Bool)
claim_from i [] = none
claim_from i (false ∷ cs) = some (i, true ∷ cs)
claim_from i (true ∷ cs) = elim (claim_from (i + 1) cs) [
  | none ↦ none
  | some p ↦ some (p.0, true ∷ p.1)
]

unfoldable pub claim : {T : Type 0} → Bus T → Bus T × Result ℕ
claim b = elim (claim_from 0 b.claimed) [
  | none ↦ (b, err no_free_partition)
  | some p ↦ (record b { claimed = p.1 }, ok p.0)
]

-- for _, taken := range b.claimed { if taken { … } }
unfoldable pub any_taken : List Bool → Bool
any_taken [] = false
any_taken (c ∷ cs) = c || any_taken cs

unfoldable pub set_all : Bool → List Bool → List Bool
set_all v [] = []
set_all v (c ∷ cs) = v ∷ set_all v cs

unfoldable pub claim_all : {T : Type 0} → Bus T → Bus T × Option Error
claim_all b =
    if any_taken b.claimed
    then (b, some no_free_partition)
    else (record b { claimed = set_all true b.claimed }, none)

-- b.claimed[partition] = false, for a partition in range
unfoldable pub free_at : ℕ → List Bool → List Bool
free_at i [] = []
free_at zero (c ∷ cs) = false ∷ cs
free_at (suc i) (c ∷ cs) = c ∷ free_at i cs

abbrev pub release : {T : Type 0} → ℕ → Bus T → Bus T
release partition b = record b { claimed = free_at partition b.claimed }

abbrev pub release_all : {T : Type 0} → Bus T → Bus T
release_all b = record b { claimed = set_all false b.claimed }

-- enterSend: whether the sender may go on.
unfoldable pub enter_send : {T : Type 0} → Bus T → Bus T × Bool
enter_send b = if b.closed then (b, false) else (record b { inflight = b.inflight + 1 }, true)

unfoldable pub leave_send : {T : Type 0} → Bus T → Bus T
leave_send b = record b { inflight = b.inflight - 1 }

-- A value at the end of a partition's buffer, and the value at its front.
unfoldable pub push_at : {T : Type 0} → ℕ → T → List (List T) → List (List T)
push_at i v [] = []
push_at zero v (q ∷ qs) = (q ++ v ∷ []) ∷ qs
push_at (suc i) v (q ∷ qs) = q ∷ push_at i v qs

unfoldable pub queue_at : {T : Type 0} → ℕ → List (List T) → List T
queue_at i [] = []
queue_at zero (q ∷ qs) = q
queue_at (suc i) (q ∷ qs) = queue_at i qs

unfoldable pub set_queue : {T : Type 0} → ℕ → List T → List (List T) → List (List T)
set_queue i q' [] = []
set_queue zero q' (q ∷ qs) = q' ∷ qs
set_queue (suc i) q' (q ∷ qs) = q ∷ set_queue i q' qs

-- Whether a send to a partition can proceed: the first case of the `select` of `Send`.
abbrev pub has_room : {T : Type 0} → ℕ → Bus T → Bool
has_room p b = ltb (length (queue_at p b.partitions)) b.config.capacity

abbrev pub store_value : {T : Type 0} → ℕ → T → Bus T → Bus T
store_value p v b = record b { partitions = push_at p v b.partitions }

abbrev pub count_published : {T : Type 0} → Bus T → Bus T
count_published b = record b { stats = record (b.stats) { published = add64 b.stats.published 1 } }

abbrev pub count_delivered : {T : Type 0} → Bus T → Bus T
count_delivered b = record b { stats = record (b.stats) { delivered = add64 b.stats.delivered 1 } }

abbrev pub count_retried : {T : Type 0} → Bus T → Bus T
count_retried b = record b { stats = record (b.stats) { retried = add64 b.stats.retried 1 } }

abbrev pub count_abandoned : {T : Type 0} → Bus T → Bus T
count_abandoned b = record b { stats = record (b.stats) { abandoned = add64 b.stats.abandoned 1 } }

abbrev pub count_dead : {T : Type 0} → Bus T → Bus T
count_dead b = record b { stats = record (b.stats) { dead = add64 b.stats.dead 1 } }

-- b.deadLetter = append(b.deadLetter, value)
abbrev pub add_dead_letter : {T : Type 0} → T → Bus T → Bus T
add_dead_letter v b = record b { dead_letter = b.dead_letter ++ v ∷ [] }

abbrev pub bury : {T : Type 0} → T → Bus T → Bus T
bury v b = add_dead_letter v (count_dead b)

-- if attempt < b.config.MaxAttempts { … }, with the number of attempts after this one
abbrev pub count_retry : {T : Type 0} → ℕ → Bus T → Bus T
count_retry zero b = b
count_retry (suc n) b = count_retried b

-- A handler with the world that it changes, and what `ctx.Err()` returns in a world.
pub record Consumer (T W : Type 0) : Type 0 where
  pub handler : T → W → W × Option Error
  pub context : W → Option Error

-- case value := <-b.partitions[partition]
abbrev pub take_value : {T : Type 0} → ℕ → List T → Bus T → Bus T
take_value p rest b = record b { partitions = set_queue p rest b.partitions }

module _ {T W : Type 0} (c : Consumer T W) where
  -- The loop of `deliver`, with the number of attempts that are left.
  unfoldable pub deliver_from : ℕ → T → Bus T → W → Bus T × W
  deliver_from zero v b x = (bury v b, x)
  deliver_from (suc n) v b x =
      let (x', failure) = c.handler v x in
      let again = deliver_from n v (count_retry n b) x' in
      elim failure [
        | none ↦ (count_delivered b, x')
        | some e ↦ elim (c.context x') [ some e' ↦ (count_abandoned b, x') | none ↦ again ]
      ]

  unfoldable pub deliver : T → Bus T → W → Bus T × W
  deliver v b x = deliver_from b.config.max_attempts v b x

  -- A value taken from the front of a partition and delivered: the second case of `consume` and of
  -- `drain`.
  unfoldable pub receive : ℕ → T → List T → Bus T → W → Bus T × W
  receive p v rest b x = deliver v (take_value p rest b) x

  -- The loop of `drain` over the values that its partition held when it began: nothing is sent to it
  -- any more.
  unfoldable pub drain_all : ℕ → List T → Bus T → W → Bus T × W × Option Error
  drain_all p [] b x = (b, x, none)
  drain_all p (v ∷ rest) b x =
      let (b', x') = receive p v rest b x in
      let others = drain_all p rest b' x' in
      elim (c.context x) [ some e ↦ (b, x, some e) | none ↦ others ]

  unfoldable pub drain : ℕ → Bus T → W → Bus T × W × Option Error
  drain p b x = drain_all p (queue_at p b.partitions) b x
