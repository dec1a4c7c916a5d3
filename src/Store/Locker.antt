-- ===== src/Store/Locker.antt =====
-- internal/store/lock.go: leases with fencing tokens. The clock is an argument: a method takes the
-- instant it reads, and the error of its context.
pub mod Fencing
mod Examples
use mcp_ironclaw.Prelude.{
  ℕ, ◌*◌, Bool, false, not, [], ◌||◌, Option, none, some, ◌==◌, if◌then◌else◌,
}
use mcp_ironclaw.Go.Int64.{add64, is_positive, slt}
use mcp_ironclaw.Go.Time
use mcp_ironclaw.Go.Text.{Text, is_empty}
use mcp_ironclaw.Go.Map.{Map, find, put, remove, get_or, string_eq}
use mcp_ironclaw.Domain.Errors.{
  Error, Result, ok, err, lock_held, lease_superseded, empty_resource, ◌>>◌, reject_if,
}

-- domain.Lease
pub record Lease : Type 0 where
  pub resource : Text
  pub token : ℕ  -- int64
  pub expires_at : ℕ  -- time.Time

pub record HeldLock : Type 0 where
  pub token : ℕ
  pub expires_at : ℕ

pub record Locker : Type 0 where
  pub held : Map Text HeldLock
  pub fences : Map Text ℕ

abbrev pub new_locker : Locker
new_locker = record { held = []; fences = [] }

abbrev pub default_lease_ttl : ℕ
default_lease_ttl = 15 * 1_000_000_000

-- The token of the last lease of a resource: l.fences[resource].
abbrev pub fence : Text → Locker → ℕ
fence r l = get_or r l.fences 0

-- ttl, or the default for one that is not positive
abbrev pub ttl_or_default : ℕ → ℕ
ttl_or_default ttl = if is_positive ttl then ttl else default_lease_ttl

-- current, ok := l.held[resource]; ok && current.expiresAt.After(now)
unfoldable pub is_held : Text → ℕ → Locker → Bool
is_held r now l = elim (find r l.held) [ none ↦ false | some h ↦ Time.after h.expires_at now ]

-- The lease that `Acquire` grants.
abbrev pub lease_of : Text → ℕ → ℕ → Locker → Lease
lease_of r ttl now l = record {
  resource = r;
  token = add64 (fence r l) 1;
  expires_at = Time.add now (ttl_or_default ttl);
}

abbrev pub grant : Lease → Locker → Locker
grant g l = record {
  held = put g.resource (record { token = g.token; expires_at = g.expires_at }) l.held;
  fences = put g.resource g.token l.fences;
}

unfoldable pub acquire : Option Error → Text → ℕ → ℕ → Locker → Locker × Result Lease
acquire ctx r ttl now l =
    elim (ctx >> reject_if (is_empty r) empty_resource >> reject_if (is_held r now l) lock_held) [
      | some x ↦ (l, err x)
      | none ↦ let g = lease_of r ttl now l in (grant g l, ok g)
    ]

unfoldable pub release : Option Error → Lease → Locker → Locker × Option Error
release ctx g l = elim ctx [
  | some x ↦ (l, some x)
  | none ↦ elim (find g.resource l.held) [
    | none ↦ (l, none)
    | some h ↦
        if not (h.token == g.token)
        then (l, some lease_superseded)
        else (record l { held = remove g.resource l.held }, none)
  ]
]

-- The last two conditions of `Guard`, for a lock that is held under the lease's token.
abbrev pub fenced_off : Lease → HeldLock → ℕ → Locker → Bool
fenced_off g h now l = slt g.token (fence g.resource l) || not (Time.after h.expires_at now)

unfoldable pub guard : Option Error → Lease → ℕ → Locker → Option Error
guard ctx g now l = ctx >> elim (find g.resource l.held) [
  | none ↦ some lease_superseded
  | some h ↦ reject_if (not (h.token == g.token) || fenced_off g h now l) lease_superseded
]
