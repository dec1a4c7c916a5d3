-- ===== src/Bus/Claims.antt =====
-- Receive, ReceivePartition and RunConsumerGroup of internal/bus/bus.go: the claims around the consumers.
-- What a consumer does, with all that runs beside it, is a parameter.
use mcp_ironclaw.Prelude.{
  ℕ, suc, ◌+◌, ◌-◌, ◌≤◌, ◌≡◌, refl, ap, Bool, true, false, Option, none, some, List, [], ◌∷◌, arith,
  ltb, if◌then◌else◌, Option-cases, Bool-cases, inl, inr,
}
use mcp_ironclaw.Domain.Errors.{Error, ok, err, no_partition}
use mcp_ironclaw.Bus.{
  Bus, claim, claim_from, claim_all, release, release_all, free_at, set_all, any_taken,
}

-- errors.Join: nil if all of the errors are, and else one of them stands for all.
abbrev pub join : List (Option Error) → Option Error
join [] = none
join (none ∷ es) = join es
join (some e ∷ es) = some e

module _ {T W : Type 0} (consume : ℕ → Bus T → W → Bus T × W × Option Error) where
  -- Receive
  unfoldable pub receive_claimed : Bus T → W → Bus T × W × Option Error
  receive_claimed b x =
      let (b', claimed) = claim b in
      elim claimed [
        | err e ↦ (b, x, some e)
        | ok p ↦ let (b'', x', result) = consume p b' x in (release p b'', x', result)
      ]

  -- ReceivePartition
  unfoldable pub receive_partition : ℕ → Bus T → W → Bus T × W × Option Error
  receive_partition p b x =
      if ltb p b.config.partitions then consume p b x else (b, x, some no_partition)

-- RunConsumerGroup: the consumers of all partitions run side by side, until each has returned an error
-- or none.
unfoldable pub run_consumer_group :
    {T W : Type 0}
    → (Bus T → W → Bus T × W × List (Option Error))
    → Bus T
    → W
    → Bus T × W × Option Error
run_consumer_group consume b x =
    let (b', refused) = claim_all b in
    elim refused [
      | some e ↦ (b, x, some e)
      | none ↦ let (b'', x', errors) = consume b' x in (release_all b'', x', join errors)
    ]

-- A claim takes a partition that was free, and its release gives back the claims as they were.
free_at-claim_from :
    (i p : ℕ) (cs ds : List Bool)
    → claim_from i cs ≡ some (p, ds)
    → (i ≤ p) × (free_at (p - i) ds ≡ cs)
unfolding claim_from free_at
free_at-claim_from i p [] ds h = cc
free_at-claim_from i p (false ∷ cs) ds h =
    let same : i ≡ p = cc in
    let taken : true ∷ cs ≡ ds = cc in
    let none_before : p - i ≡ 0 = omega (arith, same) in
    (omega (arith, same), rw (none_before, ← taken) refl)
free_at-claim_from i p (true ∷ cs) ds h = elim (Option-cases (claim_from (i + 1) cs)) [
  | inl e ↦ absurd (ground arith)
  | inr ((r, es), e) ↦
      let (later, freed) = free_at-claim_from (i + 1) r cs es e in
      let same : r ≡ p = ground arith in
      let taken : true ∷ es ≡ ds = ground arith in
      let one_more : p - i ≡ suc (r - (i + 1)) = omega (arith, same, later) in
      (omega (arith, same, later), rw (one_more, ← taken) (ap (λ ds. true ∷ ds) freed))
]

set_all-any_taken : (cs : List Bool) → any_taken cs ≡ false → set_all false (set_all true cs) ≡ cs
unfolding any_taken set_all
set_all-any_taken [] h = refl
set_all-any_taken (true ∷ cs) h = cc
set_all-any_taken (false ∷ cs) h = ap (λ ds. false ∷ ds) (set_all-any_taken cs h)

module _ {T W : Type 0} (consume : ℕ → Bus T → W → Bus T × W × Option Error)
    (keeps : (p : ℕ) (b : Bus T) (x : W) → (consume p b x).0.claimed ≡ b.claimed) where
  -- With consumers that leave the claims alone, `Receive` leaves them as they were: it claims a partition
  -- and gives it back, or it refuses, and then no consumer runs.
  pub receive_claimed_lem :
      (b : Bus T) (x : W) → (receive_claimed consume b x).0.claimed ≡ b.claimed
  unfolding receive_claimed claim
  receive_claimed_lem b x = elim (Option-cases (claim_from 0 b.claimed)) [
    | inl e ↦ ground (arith, e)
    | inr ((p, ds), e) ↦
        let (_, freed) = free_at-claim_from 0 p b.claimed ds e in
        ground (arith, e, freed, keeps p (record b { claimed = ds }) x)
  ]

module _ {T W : Type 0} (consume : Bus T → W → Bus T × W × List (Option Error))
    (keeps : (b : Bus T) (x : W) → (consume b x).0.claimed ≡ b.claimed) where
  -- So does `RunConsumerGroup`, which refuses when any partition is claimed.
  pub run_consumer_group_lem :
      (b : Bus T) (x : W) → (run_consumer_group consume b x).0.claimed ≡ b.claimed
  unfolding run_consumer_group claim_all
  run_consumer_group_lem b x = elim (Bool-cases (any_taken b.claimed)) [
    | inl e ↦ ground (arith, e)
    | inr e ↦ ground (
      arith,
      e,
      set_all-any_taken b.claimed e,
      keeps (record b { claimed = set_all true b.claimed }) x,
    )
  ]
