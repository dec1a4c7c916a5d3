-- ===== src/Services/Handlers.antt =====
-- internal/persister/service.go and internal/commands/service.go: what consumes windows and
-- commands. The state that they write to is a component of its own: a function on a world.
pub mod Commands
use mcp_ironclaw.Prelude.{ℕ, ◌==◌, Option, none, some, if◌then◌else◌}
use mcp_ironclaw.Go.Text.{Text, codes}
use mcp_ironclaw.Domain.Errors.{Error, unsupported_kind}
use mcp_ironclaw.Domain.Key.{AggregateWindow}
use mcp_ironclaw.Domain.Command.{Command, validate_command, command_reset_counters}
use mcp_ironclaw.Services.Metrics.{Recorder, record_sample}

abbrev pub metric_windows_persisted : Text
metric_windows_persisted = codes "persister_windows_persisted"

abbrev pub metric_commands_applied : Text
metric_commands_applied = codes "commands_applied"

abbrev pub metric_commands_rejected : Text
metric_commands_rejected = codes "commands_rejected"

-- A service with the state that it writes to.
pub record Handler (W : Type 0) : Type 0 where
  pub world : W
  pub metrics : Recorder

-- domain.StateWriter
abbrev pub StateWriter : Type 0 → Type 0
StateWriter W = AggregateWindow → W → W × Option Error

-- persister: HandleWindow
unfoldable pub handle_window :
    {W : Type 0} → StateWriter W → AggregateWindow → Handler W → Handler W × Option Error
handle_window apply w s =
    let (world, result) = apply w s.world in
    elim result [
      | some e ↦ (record s { world = world }, some e)
      | none ↦ (
        record { world = world; metrics = record_sample metric_windows_persisted 1 s.metrics },
        none,
      )
    ]

-- The interface `DeviceResetter`.
abbrev pub DeviceResetter : Type 0 → Type 0
DeviceResetter W = Text → Text → W → W × Option Error

abbrev pub finish : {W : Type 0} → Option Error → Handler W → Handler W × Option Error
finish (some e) s =
    (record s { metrics = record_sample metric_commands_rejected 1 s.metrics }, some e)
finish none s = (record s { metrics = record_sample metric_commands_applied 1 s.metrics }, none)

-- commands: the `switch` of HandleCommand
unfoldable pub dispatch :
    {W : Type 0} → DeviceResetter W → Command → Handler W → Handler W × Option Error
dispatch reset c s =
    let (world, result) = reset c.user_id c.device_id s.world in
    if c.kind == command_reset_counters
    then finish result (record s { world = world })
    else finish (some unsupported_kind) s

unfoldable pub handle_command :
    {W : Type 0} → DeviceResetter W → Command → Handler W → Handler W × Option Error
handle_command reset c s = elim (validate_command c) [
  | some e ↦ finish (some e) s
  | none ↦ dispatch reset c s
]
