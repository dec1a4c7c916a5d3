-- ===== src/Bus/Queues.antt =====
-- The partitions of internal/bus/bus.go: which one a key goes to, and what they hold.
use mcp_ironclaw.Prelude.{
  ap, ℕ, zero, suc, ◌+◌, ◌^◌, ◌≤◌, ◌<◌, ◌≡◌, refl, none, List, [], ◌∷◌, arith, length,
  length-append,
}
use mcp_ironclaw.Go.Text.{Text}
use mcp_ironclaw.Bus.{Config, Bus, partition_for, push_at, queue_at, set_queue, validate_config}

-- The number of values in the partitions.
abbrev pub queued : {T : Type 0} → List (List T) → ℕ
queued [] = 0
queued (q ∷ qs) = length q + queued qs

pub queued-push_at :
    {T : Type 0} (p : ℕ) (v : T) (qs : List (List T))
    → p < length qs
    → (queued (push_at p v qs) ≡ queued qs + 1) × (length (push_at p v qs) ≡ length qs)
unfolding push_at
queued-push_at p v [] h = absurd (omega arith)
queued-push_at zero v (q ∷ qs) h = (omega (arith, length-append q (v ∷ [])), refl)
queued-push_at (suc p) v (q ∷ qs) h =
    let (a, b) = queued-push_at p v qs (omega arith) in (omega (arith, a), omega (arith, b))

pub queued-set_queue :
    {T : Type 0} (p : ℕ) (v : T) (rest : List T) (qs : List (List T))
    → queue_at p qs ≡ v ∷ rest
    → (queued (set_queue p rest qs) + 1 ≡ queued qs) × (length (set_queue p rest qs) ≡ length qs)
unfolding set_queue queue_at
queued-set_queue p v rest [] h = cc
queued-set_queue zero v rest (q ∷ qs) h = (ground (arith, ap length h), refl)
queued-set_queue (suc p) v rest (q ∷ qs) h =
    let (a, b) = queued-set_queue p v rest qs h in (omega (arith, a), omega (arith, b))

-- A configuration that `New` accepts.
pub record IsConfig (c : Config) : Type 0 where
  pub some_partition : 1 ≤ c.partitions
  pub few_partitions : c.partitions < 2 ^ 31
  pub some_capacity : 1 ≤ c.capacity
  pub some_attempt : 1 ≤ c.max_attempts

pub validate_config-IsConfig : (c : Config) → validate_config c ≡ none → IsConfig c
unfolding validate_config
validate_config-IsConfig c h = record {
  some_partition = ground arith;
  few_partitions = ground arith;
  some_capacity = ground arith;
  some_attempt = ground arith;
}

-- Every key has a partition of its own choice, within the configured number.
pub partition_for-lt :
    {T : Type 0} (b : Bus T) (key : Text)
    → IsConfig b.config
    → partition_for b key < b.config.partitions
unfolding partition_for
partition_for-lt b key c = let p = c.some_partition in let q = c.few_partitions in omega arith
