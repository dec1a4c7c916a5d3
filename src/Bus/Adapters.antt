-- ===== src/Bus/Adapters.antt =====
-- `Send` of internal/bus/bus.go run without interleaving, and the typed buses of
-- internal/bus/adapters.go and internal/bus/commands.go.
use mcp_ironclaw.Prelude.{
  ◌∷◌, ◌⊎◌, Option, none, some, true, false, if◌then◌else◌, ◌≡◌, refl, [], arith, subst, sym,
  Bool-cases, Option-cases, inl, inr,
}
use mcp_ironclaw.Go.Text.{Text}
use mcp_ironclaw.Go.Map.{find, put, remove, nat_eq}
use mcp_ironclaw.Domain.Errors.{Error, bus_closed}
use mcp_ironclaw.Domain.Event.{Batch}
use mcp_ironclaw.Domain.Key.{AggregateWindow, shard_tag}
use mcp_ironclaw.Domain.Command.{Command, validate_command, command_shard_tag}
use mcp_ironclaw.Bus.{
  Bus, Consumer, partition_for, enter_send, leave_send, has_room, store_value, count_published,
}
use mcp_ironclaw.Bus.Lifecycle.{Phase, Step}
use mcp_ironclaw.Bus.Reachability.{Reachable}

module _ {T : Type 0} where
  -- The `select` of `Send` when its partition is full and the bus is open: it waits, `none`, or it
  -- returns the error of its context.
  abbrev pub wait_for : Option Error → Bus T → Option (Bus T × Option Error)
  wait_for none b = none
  wait_for (some e) b = some (leave_send b, some e)

  -- Send, where a send that can proceed does so.
  unfoldable pub send : Option Error → Text → T → Bus T → Option (Bus T × Option Error)
  send ctx key v b =
      let p = partition_for b key in
      let entered = (enter_send b).0 in
      if b.closed
      then some (b, some bus_closed)
      else if has_room p entered
      then some (leave_send (count_published (store_value p v entered)), none)
      else wait_for ctx entered

-- BatchBus.Publish
abbrev pub publish : Option Error → Text → Batch → Bus Batch → Option (Bus Batch × Option Error)
publish ctx partition_key batch b = send ctx partition_key batch b

-- WindowBus.PublishWindow
abbrev pub publish_window :
    Option Error
    → AggregateWindow
    → Bus AggregateWindow
    → Option (Bus AggregateWindow × Option Error)
publish_window ctx w b = send ctx (shard_tag w.key) w b

-- CommandBus.PublishCommand
unfoldable pub publish_command :
    Option Error → Command → Bus Command → Option (Bus Command × Option Error)
publish_command ctx command b =
    let sent = send ctx (command_shard_tag command) command b in
    elim (validate_command command) [ some e ↦ some (b, some e) | none ↦ sent ]

module _ {T W : Type 0} (c : Consumer T W) where
  enter_send-open : (b : Bus T) → b.closed ≡ false → enter_send b ≡ ((enter_send b).0, true)
  unfolding enter_send
  enter_send-open b h = ground arith

  -- The three ways in which `Send` returns.
  send-cases :
      (ctx : Option Error) (key : Text) (v : T) (b b' : Bus T) (result : Option Error)
      → send ctx key v b ≡ some (b', result)
      → let p = partition_for b key in
        let entered = (enter_send b).0 in
        (b' ≡ b)
        ⊎ ((b.closed ≡ false)
            × (((has_room p entered ≡ true)
                  × (b' ≡ leave_send (count_published (store_value p v entered))))
                ⊎ (b' ≡ leave_send entered)))
  unfolding send
  send-cases ctx key v b b' result e = elim (Bool-cases b.closed) [
    | inl h ↦ inl (ground arith)
    | inr h ↦ elim (Bool-cases (has_room (partition_for b key) (enter_send b).0)) [
      | inl room ↦ inr (h, inl (room, ground arith))
      | inr full ↦ elim (Option-cases ctx) [
        | inl n ↦ absurd (ground arith)
        | inr (x, n) ↦ inr (h, inr (ground arith))
      ]
    ]
  ]

  -- A call of `Send` that returns, run without interleaving, is a sequence of the steps of the bus:
  -- whatever holds of every state that the steps reach holds after it.
  pub send-Reachable :
      (ctx : Option Error) (key : Text) (v : T) (b b' : Bus T) (x : W) (result : Option Error)
      → send ctx key v b ≡ some (b', result)
      → Reachable c (record { bus = b; senders = []; hands = []; world = x })
      → Reachable c (record { bus = b'; senders = []; hands = []; world = x })
  unfolding find put remove
  send-Reachable ctx key v b b' x result e r =
      let p = partition_for b key in
      let entered = (enter_send b).0 in
      let still =
        λ (b : Bus T). Reachable c (record { bus = b; senders = []; hands = []; world = x }) in
      elim (send-cases ctx key v b b' result e) [
        | inl same ↦ subst still (sym same) r
        | inr (is_open, ends) ↦
            let inside = Reachable.step r (
              Step.entering 0 key v (record { bus = b; senders = []; hands = []; world = x })
                entered refl (enter_send-open b is_open)) in
            elim ends [
              | inl (room, same) ↦ subst still (sym same) (
                  let stored_bus = store_value p v entered in
                  let stored = Reachable.step inside (
                    Step.storing 0 p v
                      (record {
                        bus = entered;
                        senders = (0, Phase.entered p v) ∷ [];
                        hands = [];
                        world = x;
                      })
                      refl room) in
                  let counted = Reachable.step stored (
                    Step.counting 0
                      (record {
                        bus = stored_bus;
                        senders = (0, Phase.stored) ∷ [];
                        hands = [];
                        world = x;
                      })
                      refl) in
                  Reachable.step counted (
                    Step.leaving 0
                      (record {
                        bus = count_published stored_bus;
                        senders = (0, Phase.ended) ∷ [];
                        hands = [];
                        world = x;
                      })
                      refl))
              | inr same ↦ subst still (sym same) (
                  Reachable.step
                    (Reachable.step inside (
                      Step.giving_up 0 p v
                        (record {
                          bus = entered;
                          senders = (0, Phase.entered p v) ∷ [];
                          hands = [];
                          world = x;
                        })
                        refl))
                    (Step.leaving 0
                      (record {
                        bus = entered;
                        senders = (0, Phase.ended) ∷ [];
                        hands = [];
                        world = x;
                      })
                      refl))
            ]
      ]
