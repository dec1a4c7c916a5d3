-- ===== src/Domain/Errors.antt =====
-- The error values of the packages, as one type: a sentinel is a constructor, `%w` wrapping keeps
-- the wrapped error, and the text of a message is left out.
use mcp_ironclaw.Prelude.{ℕ, Bool, true, false, Option, none, some, ◌≡◌, refl, ◌⊎◌, inl, inr}

pub data Error : Type 0 where
  -- internal/domain
  missing_device_id missing_user_id invalid_kind negative_latency negative_bytes : Error
  zero_timestamp device_mismatch invalid_command missing_actor device_not_found : Error
  -- internal/aggregate
  invalid_window_size invalid_key_ceiling too_many_keys : Error
  invalid_accuracy accuracy_mismatch invalid_quantile nil_sketch_operand : Error
  -- internal/store
  lock_held lease_superseded empty_resource : Error
  -- internal/bus
  invalid_partitions invalid_capacity invalid_attempts : Error
  no_free_partition no_partition bus_closed : Error
  -- internal/spool
  no_directory invalid_budget spool_empty too_large empty_payload too_many invalid_name : Error
  -- internal/ingest and internal/transport
  missing_identity rejected unacceptable : Error
  -- internal/commands
  unsupported_kind : Error
  -- internal/wire
  unknown_format kind_out_of_range : Error
  -- internal/pipeline
  invalid_max_events invalid_interval invalid_queue_depth : Error
  -- internal/kafkabus
  no_brokers no_topic no_group no_dead_topic : Error
  -- internal/mcpserver
  missing_user missing_device missing_claimed_actor : Error
  -- internal/ebpf
  short_record missing_capture_identity zero_boot_time : Error
  unauthenticated forbidden identifier_too_long identifier_invalid : Error
  no_metrics_reader no_device_lister no_device_watcher writes_disabled : Error
  too_many_watches watch_closed : Error
  -- a cancelled context
  canceled : Error
  -- an error of a file that does not exist
  not_exist : Error
  -- a run-time panic, such as the use of a nil pointer
  panic : Error
  -- an error of a component outside the repository
  foreign : ℕ → Error
  -- fmt.Errorf("… %d …: %w", i, err)
  at_index : ℕ → Error → Error

-- A function that returns `(T, error)`.
pub data Result {ℓ} (A : Type ℓ) : Type ℓ where
  ok : A → Result A
  err : Error → Result A

pub Result-cases {ℓ} :
    {A : Type ℓ} (r : Result A) → ((e : Error) × (r ≡ err e)) ⊎ ((a : A) × (r ≡ ok a))
Result-cases (ok a) = inr (a, refl)
Result-cases (err e) = inl (e, refl)

-- `if err := a; err != nil { return err }` and then `b`, for functions that return an error only.
infixl 5 ◌>>◌
abbrev pub ◌>>◌ : Option Error → Option Error → Option Error
none >> next = next
some e >> next = some e

-- if b { return e }
abbrev pub reject_if : Bool → Error → Option Error
reject_if true e = some e
reject_if false e = none

-- errors.Is(err, domain.ErrDeviceMismatch), and likewise for the sentinels that the code asks for
unfoldable pub is_device_mismatch : Error → Bool
is_device_mismatch device_mismatch = true
is_device_mismatch (at_index i e) = is_device_mismatch e
is_device_mismatch _ = false

unfoldable pub is_device_not_found : Error → Bool
is_device_not_found device_not_found = true
is_device_not_found (at_index i e) = is_device_not_found e
is_device_not_found _ = false

unfoldable pub is_too_many_keys : Error → Bool
is_too_many_keys too_many_keys = true
is_too_many_keys (at_index i e) = is_too_many_keys e
is_too_many_keys _ = false

unfoldable pub is_not_exist : Error → Bool
is_not_exist not_exist = true
is_not_exist (at_index i e) = is_not_exist e
is_not_exist _ = false

unfoldable pub is_unacceptable : Error → Bool
is_unacceptable unacceptable = true
is_unacceptable (at_index i e) = is_unacceptable e
is_unacceptable _ = false
