-- ===== src/Bus/Conservation.antt =====
-- No value is lost between `Send` and the end of its delivery in internal/bus/bus.go.
use mcp_ironclaw.Prelude.{
  ℕ, ◌+◌, ◌≡◌, sym, ◌∙◌, subst, inl, inr, none, some, arith, true, false, Bool-cases,
}
use mcp_ironclaw.Go.Text.{Text}
use mcp_ironclaw.Go.Map.{
  find, put, remove, nat_eq, put-IsUnique, remove-IsUnique, length-put_new, length-put_old,
  length-remove_unique, total-put_new, total-put_old, total-remove,
}
use mcp_ironclaw.Go.Map.Entries.{Entries-put, Entries-remove, Entries-find}
use mcp_ironclaw.Bus.{
  Bus, Consumer, partition_for, enter_send, leave_send, store_value, count_published,
}
use mcp_ironclaw.Bus.Queues.{queued-push_at, partition_for-lt}
use mcp_ironclaw.Bus.Lifecycle.{Phase, System, Inv, uncounted, InPartition}

module _ {T W : Type 0} (c : Consumer T W) where
  enter_send-ok :
      (b b' : Bus T)
      → enter_send b ≡ (b', true)
      → (b' ≡ record b { inflight = b.inflight + 1 }) × (b.closed ≡ false)
  unfolding enter_send
  enter_send-ok b b' h = elim (Bool-cases b.closed) [
    | inl e ↦ ground arith
    | inr e ↦ (ground arith, e)
  ]

  pub entering-Inv :
      (i : ℕ) (key : Text) (v : T) (s : System T W) (b : Bus T)
      → find i s.senders ≡ none
      → enter_send s.bus ≡ (b, true)
      → Inv s
      → Inv (record s {
        bus = b;
        senders = put i (Phase.entered (partition_for s.bus key) v) s.senders;
      })
  entering-Inv i key v s b fresh e inv =
      let phase = Phase.entered (partition_for s.bus key) v in
      let (same, is_open) = enter_send-ok s.bus b e in
      subst (λ b. Inv (record s { bus = b; senders = put i phase s.senders })) (sym same)
        (record {
          config = inv.config;
          partitions = inv.partitions;
          unique = put-IsUnique i phase s.senders inv.unique;
          in_partition =
              Entries-put (InPartition s.bus.config.partitions) i phase s.senders
                (partition_for-lt s.bus key inv.config) inv.in_partition;
          inflight = omega (arith, inv.inflight, length-put_new i phase s.senders fresh);
          unique_hands = inv.unique_hands;
          shut = λ h. ground (arith, inv.shut h);
          letters = inv.letters;
          balance = omega (arith, inv.balance, total-put_new uncounted i phase s.senders fresh);
        })

  pub storing-Inv :
      (i p : ℕ) (v : T) (s : System T W)
      → find i s.senders ≡ some (Phase.entered p v)
      → Inv s
      → Inv (record s { bus = store_value p v s.bus; senders = put i Phase.stored s.senders })
  storing-Inv i p v s here inv =
      let below =
        Entries-find (InPartition s.bus.config.partitions) i (Phase.entered p v) s.senders here
          inv.in_partition in
      let (more, same) =
        queued-push_at p v s.bus.partitions (omega (arith, below, inv.partitions)) in
      record {
        config = inv.config;
        partitions = same ∙ inv.partitions;
        unique = put-IsUnique i Phase.stored s.senders inv.unique;
        in_partition =
            Entries-put (InPartition s.bus.config.partitions) i Phase.stored s.senders tt
              inv.in_partition;
        inflight =
            omega (
              arith,
              inv.inflight,
              length-put_old i Phase.stored (Phase.entered p v) s.senders here,
            );
        unique_hands = inv.unique_hands;
        shut = inv.shut;
        letters = inv.letters;
        balance = omega (
          arith,
          inv.balance,
          more,
          total-put_old uncounted i Phase.stored (Phase.entered p v) s.senders here,
        );
      }

  pub counting-Inv :
      (i : ℕ) (s : System T W)
      → find i s.senders ≡ some Phase.stored
      → Inv s
      → Inv (record s { bus = count_published s.bus; senders = put i Phase.ended s.senders })
  counting-Inv i s here inv = record {
    config = inv.config;
    partitions = inv.partitions;
    unique = put-IsUnique i Phase.ended s.senders inv.unique;
    in_partition =
        Entries-put (InPartition s.bus.config.partitions) i Phase.ended s.senders tt
          inv.in_partition;
    inflight =
        omega (arith, inv.inflight, length-put_old i Phase.ended Phase.stored s.senders here);
    unique_hands = inv.unique_hands;
    shut = inv.shut;
    letters = inv.letters;
    balance =
        omega
          (arith, inv.balance, total-put_old uncounted i Phase.ended Phase.stored s.senders here);
  }

  pub giving_up-Inv :
      (i p : ℕ) (v : T) (s : System T W)
      → find i s.senders ≡ some (Phase.entered p v)
      → Inv s
      → Inv (record s { senders = put i Phase.ended s.senders })
  giving_up-Inv i p v s here inv = record {
    config = inv.config;
    partitions = inv.partitions;
    unique = put-IsUnique i Phase.ended s.senders inv.unique;
    in_partition =
        Entries-put (InPartition s.bus.config.partitions) i Phase.ended s.senders tt
          inv.in_partition;
    inflight =
        omega
          (arith, inv.inflight, length-put_old i Phase.ended (Phase.entered p v) s.senders here);
    unique_hands = inv.unique_hands;
    shut = inv.shut;
    letters = inv.letters;
    balance = omega (
      arith,
      inv.balance,
      total-put_old uncounted i Phase.ended (Phase.entered p v) s.senders here,
    );
  }

  pub leaving-Inv :
      (i : ℕ) (s : System T W)
      → find i s.senders ≡ some Phase.ended
      → Inv s
      → Inv (record s { bus = leave_send s.bus; senders = remove i s.senders })
  unfolding leave_send
  leaving-Inv i s here inv = record {
    config = inv.config;
    partitions = inv.partitions;
    unique = remove-IsUnique i s.senders inv.unique;
    in_partition =
        Entries-remove (InPartition s.bus.config.partitions) i s.senders inv.in_partition;
    inflight =
        omega (arith, inv.inflight, length-remove_unique i Phase.ended s.senders inv.unique here);
    unique_hands = inv.unique_hands;
    shut = λ h. ground (arith, inv.shut h);
    letters = inv.letters;
    balance =
        omega (arith, inv.balance, total-remove uncounted i Phase.ended s.senders inv.unique here);
  }
