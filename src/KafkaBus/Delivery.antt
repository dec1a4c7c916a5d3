-- ===== src/KafkaBus/Delivery.antt =====
-- Consumer.deliver of internal/kafkabus/bus.go: what has become of a record that is delivered.
use mcp_ironclaw.Prelude.{
  subst, Option-cases, ℕ, zero, suc, ◌+◌, ◌<◌, ◌≡◌, refl, ◌⊎◌, inl, inr, Option, none, some, arith,
}
use mcp_ironclaw.Go.Int64.{modulus}
use mcp_ironclaw.Domain.Errors.{ok, Error}
use mcp_ironclaw.KafkaBus.{Config, Text, KafkaRecord}
use mcp_ironclaw.KafkaBus.Consumer.{
  check_consumer, new_consumer, tried, Consumer, Handle, Setup, attempt_from, deliver,
  send_to_dead_letter, dead_record,
}

module _ {S D : Type 0} (c : Setup S D) (handle : Handle S) (ctx : S → Option Error)
    (r : KafkaRecord) where
  -- The world after attempts that all failed, with the error of the last one, each reported under its
  -- number while the context was not done.
  pub data Failures : S → ℕ → Option Error → S → Type 0 where
    no_attempt : (w : S) → Failures w 0 none w
    failed_again :
        (w v : S) (k : ℕ) (last : Option Error) (e : Error)
        → Failures w k last v
        → (handle r v).1 ≡ some e
        → ctx (handle r v).0 ≡ none
        → Failures w (k + 1) (some e) (c.on_error (k + 1) e (handle r v).0)

module _ {S D K : Type 0} (c : Setup S D) (handle : Handle S) (ctx : S → Option Error)
    (r : KafkaRecord) where
  -- The handler took the record, before the attempts were used up.
  abbrev pub IsTaken : Consumer S D K → Consumer S D K → Type 0
  IsTaken s s' =
      (k : ℕ) × (last : Option Error) × (v : S) × (k < c.max_attempts)
      × Failures c handle ctx r s.world k last v
      × ((handle r v).1 ≡ none)
      × (s'.world ≡ (handle r v).0)
      × (s'.dead_client ≡ s.dead_client)

  -- Every attempt failed, and the dead-letter client took the record with its key and value.
  abbrev pub IsDeadLettered : Consumer S D K → Consumer S D K → Type 0
  IsDeadLettered s s' =
      (last : Option Error) × (produce : KafkaRecord → D → D × Option Error) × Failures c handle ctx
        r s.world c.max_attempts last s'.world
      × (c.dead_letter ≡ some produce)
      × ((produce (dead_record c.message c.dead_letter_topic r last) s.dead_client).1 ≡ none)
      × (s'.dead_client
          ≡ (produce (dead_record c.message c.dead_letter_topic r last) s.dead_client).0)

  abbrev pub IsSettled : Consumer S D K → Consumer S D K → Type 0
  IsSettled s s' = (s'.offsets ≡ s.offsets) × (IsTaken s s' ⊎ IsDeadLettered s s')

  send_to_dead_letter-IsSettled :
      (last : Option Error) (s t : Consumer S D K)
      → Failures c handle ctx r s.world c.max_attempts last t.world
      → t.dead_client ≡ s.dead_client
      → t.offsets ≡ s.offsets
      → (send_to_dead_letter c r last t).1 ≡ none
      → IsSettled s (send_to_dead_letter c r last t).0
  unfolding send_to_dead_letter
  send_to_dead_letter-IsSettled last s t f d o h = elim (Option-cases c.dead_letter) [
    | inl e ↦ absurd (ground arith)
    | inr (produce, e) ↦
        elim (Option-cases
          (produce (dead_record c.message c.dead_letter_topic r last) t.dead_client).1) [
            | inl g ↦ (
              ground arith,
              inr (
                last,
                produce,
                subst (λ w. Failures c handle ctx r s.world c.max_attempts last w) (ground arith) f,
                e,
                ground arith,
                ground arith,
              ),
            )
            | inr (x, g) ↦ absurd (ground arith)
          ]
  ]

  attempt_from-again :
      (left k : ℕ) (last : Option Error) (e : Error) (t : Consumer S D K)
      → (handle r t.world).1 ≡ some e
      → ctx (handle r t.world).0 ≡ none
      → attempt_from c handle ctx r (suc left) (k + 1) last t
        ≡ attempt_from c handle ctx r left
            (k + 1 + 1)
            (some e)
            (tried c (k + 1) e (record t { world = (handle r t.world).0 }))
  unfolding attempt_from
  attempt_from-again left k last e t g x = ground arith

  attempt_from_lem :
      (left k : ℕ) (last : Option Error) (s t : Consumer S D K)
      → k + left ≡ c.max_attempts
      → Failures c handle ctx r s.world k last t.world
      → t.dead_client ≡ s.dead_client
      → t.offsets ≡ s.offsets
      → (attempt_from c handle ctx r left (k + 1) last t).1 ≡ none
      → IsSettled s (attempt_from c handle ctx r left (k + 1) last t).0
  unfolding attempt_from
  attempt_from_lem zero k last s t n f d o h =
      let same : k ≡ c.max_attempts = omega arith in
      send_to_dead_letter-IsSettled last s t
        (subst (λ n. Failures c handle ctx r s.world n last t.world) same f) d o h
  attempt_from_lem (suc left) k last s t n f d o h = elim (Option-cases (handle r t.world).1) [
    | inl g ↦ (ground arith, inl (k, last, t.world, omega arith, f, g, ground arith, ground arith))
    | inr (e, g) ↦ elim (Option-cases (ctx (handle r t.world).0)) [
      | inl x ↦
          let next = tried c (k + 1) e (record t { world = (handle r t.world).0 }) in
          rw (attempt_from-again left k last e t g x) (
            attempt_from_lem left (k + 1) (some e) s next (omega arith)
              (failed_again s.world t.world k last e f g x) d o
              (subst (λ p. p.1 ≡ none) (attempt_from-again left k last e t g x) h))
      | inr (x, y) ↦ absurd (ground arith)
    ]
  ]

  -- When a delivery succeeds, the handler has taken the record, on one of the attempts that are allowed
  -- and with all attempts before it failed, reported and the context not done; or every attempt failed
  -- in this way, and the dead-letter client has taken the record's key and value, with the last error.
  pub deliver-IsSettled :
      (s : Consumer S D K)
      → (deliver c handle ctx r s).1 ≡ none
      → IsSettled s (deliver c handle ctx r s).0
  unfolding deliver
  deliver-IsSettled s h =
      attempt_from_lem c.max_attempts 0 none s s (omega arith) (no_attempt s.world) refl refl h

  attempt_from-offsets :
      (left n : ℕ) (last : Option Error) (s : Consumer S D K)
      → (attempt_from c handle ctx r left n last s).0.offsets ≡ s.offsets
  unfolding attempt_from send_to_dead_letter
  attempt_from-offsets zero n last s = ground arith
  attempt_from-offsets (suc left) n last s = elim (Option-cases (handle r s.world).1) [
    | inl g ↦ ground arith
    | inr (e, g) ↦ ground (
      arith,
      attempt_from-offsets left (n + 1) (some e)
          (tried c n e (record s { world = (handle r s.world).0 })),
    )
  ]

  pub deliver-offsets : (s : Consumer S D K) → (deliver c handle ctx r s).0.offsets ≡ s.offsets
  unfolding deliver
  deliver-offsets s = attempt_from-offsets c.max_attempts 1 none s

-- A consumer that was made has an attempt, and if it has more than one, it has a dead-letter client.
pub new_consumer_lem :
    {S D : Type 0} (produce : KafkaRecord → D → D × Option Error) (on_error : ℕ → Error → S → S)
    (message : Error → Text) (config : Config) (c : Setup S D)
    → config.max_attempts < modulus
    → new_consumer produce on_error message config ≡ ok c
    → (0 < c.max_attempts) × ((c.max_attempts ≡ 1) ⊎ (c.dead_letter ≡ some produce))
unfolding new_consumer check_consumer
new_consumer_lem produce on_error message config c b h = ground arith
