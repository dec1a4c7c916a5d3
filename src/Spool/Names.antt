-- ===== src/Spool/Names.antt =====
-- The names of the entries in internal/spool/spool.go.
use mcp_ironclaw.Prelude.{ℕ, zero, suc, ◌+◌, ◌-◌, ◌/◌, ◌%◌, ◌^◌, [], ◌∷◌, ◌++◌, if◌then◌else◌}
use mcp_ironclaw.Go.Int64.{is_negative}
use mcp_ironclaw.Go.Text.{Text, codes}

abbrev pub extension : Text
extension = codes ".batch"

abbrev pub pending : Text
pending = codes ".partial"

-- The last so many decimal digits of a number.
unfoldable pub fixed : ℕ → ℕ → Text
fixed zero n = []
fixed (suc k) n = fixed k (n / 10) ++ (b'0' + n % 10) ∷ []

-- %020d of an int64 and of a uint64
unfoldable pub pad_int : ℕ → Text
pad_int n = if is_negative n then b'-' ∷ fixed 19 (2 ^ 64 - n) else fixed 20 n

unfoldable pub pad_uint : ℕ → Text
pad_uint n = fixed 20 n

-- The name with an ordinal and a sequence number.
unfoldable pub entry_name : ℕ → ℕ → Text
entry_name ordinal sequence = pad_int ordinal ++ b'-' ∷ (pad_uint sequence ++ extension)
