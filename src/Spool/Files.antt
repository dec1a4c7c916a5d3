-- ===== src/Spool/Files.antt =====
-- The disk of internal/spool/spool.go, and the steps that publish an entry's file: a temporary file
-- is written, synced and closed before it gets its final name.
use mcp_ironclaw.Prelude.{ℕ, Bool, Option, none, some, List, ◌++◌}
use mcp_ironclaw.Go.Text.{Text}
use mcp_ironclaw.Domain.Errors.{Error, Result}
use mcp_ironclaw.Spool.Names.{pending}

-- The operations of `os` and of the two helpers that write a file and sync the directory.
pub record Disk (W : Type 0) : Type 0 where
  pub remove_file : Text → W → W × Option Error
  pub open_file : Text → W → W × Option Error
  pub write_file : Text → List ℕ → W → W × Option Error
  pub sync_file : Text → W → W × Option Error
  pub close_file : Text → W → W × Option Error
  pub rename_file : Text → Text → W → W × Option Error
  pub sync_directory : W → W × Option Error
  pub is_regular : Text → W → Result Bool
  pub read_file : Text → W → Result (List ℕ)

module _ {W : Type 0} (d : Disk W) where
  -- A step on a file, after the steps before it.
  abbrev pub and_then : (W → W × Option Error) → W × Option Error → W × Option Error
  and_then step (x, none) = step x
  and_then step (x, some e) = (x, some e)

  -- A step on an open file, which is closed when the step fails.
  abbrev pub or_close : Text → (W → W × Option Error) → W → W × Option Error
  or_close path step x =
      let (x', failure) = step x in
      elim failure [ none ↦ (x', none) | some e ↦ ((d.close_file path x').0, some e) ]

  -- writeFileSynced
  unfoldable pub write_file_synced : Text → List ℕ → W → W × Option Error
  write_file_synced path payload x = and_then (d.close_file path) (
      and_then (or_close path (d.sync_file path))
        (and_then (or_close path (d.write_file path payload)) (d.open_file path x)))

  -- The temporary file is removed when a step fails.
  abbrev pub or_remove : Text → W × Option Error → W × Option Error
  or_remove path (x, none) = (x, none)
  or_remove path (x, some e) = ((d.remove_file path x).0, some e)

  -- The entry's file, under its final name.
  unfoldable pub publish_file : Text → List ℕ → W → W × Option Error
  publish_file name payload x = or_remove (name ++ pending) (
      and_then (d.rename_file (name ++ pending) name)
        (write_file_synced (name ++ pending) payload x))
