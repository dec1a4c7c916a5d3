-- ===== src/KafkaBus/Polling.antt =====
-- Consumer.poll of internal/kafkabus/bus.go: what a round has delivered, and what it commits.
use mcp_ironclaw.Prelude.{
  sym, append-nil, subst, ◌∙◌, ap, Option-cases, ◌≡◌, refl, ◌⊎◌, inl, inr, Option, none, some, List,
  [], ◌∷◌, ◌++◌, arith,
}
use mcp_ironclaw.Domain.Errors.{Error}
use mcp_ironclaw.KafkaBus.{KafkaRecord}
use mcp_ironclaw.KafkaBus.Consumer.{
  first_error, returned, Consumer, Handle, Setup, deliver, deliver_each, Commit, polling,
  commit_handled, fetched, poll_round,
}
use mcp_ironclaw.KafkaBus.Delivery.{deliver-offsets, IsSettled, deliver-IsSettled}

module _ {S D K : Type 0} (c : Setup S D) (handle : Handle S) (ctx : S → Option Error) where
  -- The records, each settled in the state that the one before it has left.
  pub data AllSettled : List KafkaRecord → Consumer S D K → Consumer S D K → Type 0 where
    nothing : (s : Consumer S D K) → AllSettled [] s s
    then_next :
        (r : KafkaRecord) (rs : List KafkaRecord) (s t u : Consumer S D K)
        → IsSettled c handle ctx r s t
        → AllSettled rs t u
        → AllSettled (r ∷ rs) s u

  -- The first records were settled; where there are others, the delivery of the next one has failed.
  abbrev pub IsDelivered :
      List KafkaRecord → Consumer S D K → Consumer S D K → List KafkaRecord → Option Error → Type 0
  IsDelivered rs s s' handled failure =
      (rest : List KafkaRecord) × (t : Consumer S D K) × (rs ≡ handled ++ rest)
      × AllSettled handled s t
      × (((rest ≡ []) × (failure ≡ none) × (s' ≡ t))
          ⊎ ((r : KafkaRecord) × (after : List KafkaRecord) × (e : Error) × (rest ≡ r ∷ after)
              × (failure ≡ some e)
              × (deliver c handle ctx r t ≡ (s', some e))))

  pub deliver_each-offsets :
      (rs : List KafkaRecord) (s : Consumer S D K)
      → (deliver_each c handle ctx rs s).0.offsets ≡ s.offsets
  unfolding deliver_each
  deliver_each-offsets [] s = refl
  deliver_each-offsets (r ∷ rs) s = ground (
    arith,
    deliver-offsets c handle ctx r s,
    deliver_each-offsets rs (deliver c handle ctx r s).0,
  )

  IsDelivered-all :
      (rs : List KafkaRecord) (s s' : Consumer S D K) (handled : List KafkaRecord)
      (failure : Option Error)
      → IsDelivered rs s s' handled failure
      → failure ≡ none
      → handled ≡ rs
  IsDelivered-all rs s s' handled failure (rest, t, parts, settled, inl (no_rest, x, y)) f =
      sym (parts ∙ ap (λ rest. handled ++ rest) no_rest ∙ append-nil handled)
  IsDelivered-all rs s s' handled failure (rest, t, parts, settled, inr (r, after, e, x, failed, y))
        f =
      absurd (ground arith)

  deliver_each-next :
      (r : KafkaRecord) (rs : List KafkaRecord) (s : Consumer S D K)
      → (deliver c handle ctx r s).1 ≡ none
      → let (s', handled, failure) = deliver_each c handle ctx rs (deliver c handle ctx r s).0 in
        deliver_each c handle ctx (r ∷ rs) s ≡ (s', r ∷ handled, failure)
  unfolding deliver_each
  deliver_each-next r rs s h = ground arith

  deliver_each-stop :
      (r : KafkaRecord) (rs : List KafkaRecord) (s : Consumer S D K) (e : Error)
      → (deliver c handle ctx r s).1 ≡ some e
      → deliver_each c handle ctx (r ∷ rs) s ≡ ((deliver c handle ctx r s).0, [], some e)
  unfolding deliver_each
  deliver_each-stop r rs s e h = ground arith

  pub deliver_each_lem :
      (rs : List KafkaRecord) (s : Consumer S D K)
      → let (s', handled, failure) = deliver_each c handle ctx rs s in
        IsDelivered rs s s' handled failure
  unfolding deliver_each
  deliver_each_lem [] s = ([], s, refl, nothing s, inl (refl, refl, refl))
  deliver_each_lem (r ∷ rs) s = elim (Option-cases (deliver c handle ctx r s).1) [
    | inl h ↦
        let (rest, t, parts, settled, end) = deliver_each_lem rs (deliver c handle ctx r s).0 in
        rw (deliver_each-next r rs s h) (
          rest,
          t,
          ap (λ rs. r ∷ rs) parts,
          then_next r (deliver_each c handle ctx rs (deliver c handle ctx r s).0).1 s
              (deliver c handle ctx r s).0 t (deliver-IsSettled c handle ctx r s h) settled,
          end,
        )
    | inr (e, h) ↦
        rw (deliver_each-stop r rs s e h)
          (r ∷ rs, s, refl, nothing s, inr (r, rs, e, refl, refl, ground arith))
  ]

module _ {S D K : Type 0} (c : Setup S D) (commit : Commit K) (handle : Handle S) where
  -- The records that a round hands to the client's commit, and what the commit makes of the offsets.
  abbrev pub committed : List KafkaRecord → K → K × Option Error
  committed [] k = (k, none)
  committed (r ∷ rs) k = commit (r ∷ rs) k

  pub commit_handled_lem :
      (after : Option Error) (handled : List KafkaRecord) (failure : Option Error)
      (m : Consumer S D K)
      → let (s', end) = commit_handled c commit handle after handled failure m in
        (s'.offsets ≡ (committed handled m.offsets).0)
        × (((end ≡ polling) × (failure ≡ none) × ((committed handled m.offsets).1 ≡ none))
            ⊎ ((e : Error) × (end ≡ returned (some e))))
  unfolding commit_handled
  commit_handled_lem after [] none m = (refl, inl (refl, refl, refl))
  commit_handled_lem after [] (some e) m = (refl, inr (e, refl))
  commit_handled_lem after (r ∷ rs) none m = elim (Option-cases (commit (r ∷ rs) m.offsets).1) [
    | inl h ↦ (ground arith, inl (ground arith, refl, h))
    | inr (e, h) ↦ (ground arith, inr (first_error after e, ground arith))
  ]
  commit_handled_lem after (r ∷ rs) (some x) m = elim (Option-cases (commit (r ∷ rs) m.offsets).1) [
    | inl h ↦ (ground arith, inr (x, ground arith))
    | inr (e, h) ↦ (ground arith, inr (first_error after e, ground arith))
  ]

  -- A round of `poll` that has fetched records settles the first of them, in order, up to the first
  -- delivery that fails; it commits exactly the records that were settled, in one call, if there are
  -- any, and the commit is all that touches the offsets. The loop goes on only if every record of the
  -- round was settled and the commit has succeeded; otherwise it returns an error.
  pub poll_round_lem :
      (after : Option Error) (ctx : S → Option Error) (rs : List KafkaRecord) (s : Consumer S D K)
      → let (s', end) = poll_round c commit handle none after ctx (fetched rs) s in
        (m : Consumer S D K) × (handled : List KafkaRecord) × (failure : Option Error) × IsDelivered
          c handle ctx rs s m handled failure
        × (s'.offsets ≡ (committed handled s.offsets).0)
        × (((end ≡ polling) × (handled ≡ rs) × ((committed handled s.offsets).1 ≡ none))
            ⊎ ((e : Error) × (end ≡ returned (some e))))
  unfolding poll_round
  poll_round_lem after ctx rs s =
      let (m, handled, failure) = deliver_each c handle ctx rs s in
      let (offsets, end) = commit_handled_lem after handled failure m in
      let delivered = deliver_each_lem c handle ctx rs s in
      let same = deliver_each-offsets c handle ctx rs s in
      (
        m,
        handled,
        failure,
        delivered,
        subst
            (λ k.
              (commit_handled c commit handle after handled failure m).0.offsets
              ≡ (committed handled k).0)
            same offsets,
        elim end [
          | inl (e, f, k) ↦ inl (
            e,
            IsDelivered-all c handle ctx rs s m handled failure delivered f,
            subst (λ k. (committed handled k).1 ≡ none) same k,
          )
          | inr x ↦ inr x
        ],
      )
