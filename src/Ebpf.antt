-- ===== src/Ebpf.antt =====
-- internal/ebpf/record.go: the records of the kernel and the events that are made of them.
pub mod Layout
mod Examples
use mcp_ironclaw.Prelude.{
  ℕ, zero, suc, ◌+◌, ◌*◌, Bool, not, Option, none, some, List, [], ◌∷◌, ltb, ◌==◌, ◌||◌, length,
  if◌then◌else◌,
}
use mcp_ironclaw.Go.Time
use mcp_ironclaw.Go.Text.{Text, is_empty}
use mcp_ironclaw.Domain.Errors.{
  Error, Result, ok, err, ◌>>◌, reject_if, short_record, missing_capture_identity, zero_boot_time,
}
use mcp_ironclaw.Domain.Event.{Event, validate, kind_syscall}

abbrev pub record_size : ℕ
record_size = 40

pub record KernelRecord : Type 0 where
  pub timestamp_nanos : ℕ  -- uint64
  pub latency_nanos : ℕ  -- uint64
  pub result : ℕ  -- int64, the field Return
  pub pid : ℕ  -- uint32
  pub tgid : ℕ  -- uint32
  pub syscall_number : ℕ  -- int32
  pub failed : Bool

-- binary.LittleEndian of the first so many bytes
unfoldable pub little_endian : ℕ → List ℕ → ℕ
little_endian zero raw = 0
little_endian (suc n) [] = 0
little_endian (suc n) (b ∷ raw) = b + 256 * little_endian n raw

-- raw[n:]
unfoldable pub skip : ℕ → List ℕ → List ℕ
skip zero raw = raw
skip (suc n) [] = []
skip (suc n) (b ∷ raw) = skip n raw

unfoldable pub decode : List ℕ → Result KernelRecord
decode raw =
    if ltb (length raw) record_size
    then err short_record
    else ok (record {
      timestamp_nanos = little_endian 8 raw;
      latency_nanos = little_endian 8 (skip 8 raw);
      result = little_endian 8 (skip 16 raw);
      pid = little_endian 4 (skip 24 raw);
      tgid = little_endian 4 (skip 28 raw);
      syscall_number = little_endian 4 (skip 32 raw);
      failed = not (little_endian 1 (skip 36 raw) == 0);
    })

pub record Translator : Type 0 where
  pub device_id : Text
  pub user_id : Text
  pub pod_id : Text
  pub boot_time : ℕ  -- time.Time

unfoldable pub validate_translator : Translator → Option Error
validate_translator t =
    reject_if (is_empty t.device_id || is_empty t.user_id) missing_capture_identity
    >> reject_if (Time.is_zero t.boot_time) zero_boot_time

abbrev pub event_of : Translator → KernelRecord → Event
event_of t r = record {
  device_id = t.device_id;
  user_id = t.user_id;
  process_id = r.tgid;
  pod_id = t.pod_id;
  kind = kind_syscall;
  observed_at = Time.add t.boot_time r.timestamp_nanos;
  latency_nanos = r.latency_nanos;
  bytes = 0;
  failed = r.failed;
}

-- Translator.Event
unfoldable pub translate : Translator → KernelRecord → Result Event
translate t r = elim (validate_translator t) [
  | some e ↦ err e
  | none ↦ elim (validate (event_of t r)) [ some e ↦ err e | none ↦ ok (event_of t r) ]
]
