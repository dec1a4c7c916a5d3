-- ===== src/Store/Locker/Fencing.antt =====
-- What the leases of internal/store/lock.go promise: one holder at a time, and a token that rises
-- with every grant, over any sequence of acquisitions and releases.
use mcp_ironclaw.Prelude.{some, ℕ, ◌+◌, ◌≤◌, ◌<◌, ◌≡◌, ◌≢◌, ◌↔◌, ap, false, Option, none, arith}
use mcp_ironclaw.Go.Int64.{add64, sign_bit}
use mcp_ironclaw.Go.Time
use mcp_ironclaw.Go.Text.{is_empty, Text, text_eq_iff, text_eq_refl}
use mcp_ironclaw.Go.Map.{get_or, find-put, find-put_self, find-remove, string_eq}
use mcp_ironclaw.Domain.Errors.{lease_superseded, Error, ok}
use mcp_ironclaw.Store.Locker.{
  Lease, Locker, fence, is_held, lease_of, grant, ttl_or_default, acquire, release, guard,
}

-- One call that changes the locks: `Acquire` or `Release`, by anyone, at any instant.
pub data Step : Locker → Locker → Type 0 where
  acquiring :
      (ctx : Option Error) (r : Text) (ttl now : ℕ) (l : Locker)
      → Step l (acquire ctx r ttl now l).0
  releasing : (ctx : Option Error) (g : Lease) (l : Locker) → Step l (release ctx g l).0

-- A sequence of so many calls.
pub data Run : Locker → ℕ → Locker → Type 0 where
  start : {l : Locker} → Run l 0 l
  then_step : {l l' l'' : Locker} {n : ℕ} → Run l n l' → Step l' l'' → Run l (n + 1) l''

-- A grant raises the fence of its resource by one, and no call lowers a fence.
fence-acquire :
    (ctx : Option Error) (r s : Text) (ttl now : ℕ) (l : Locker)
    → fence s l + 1 < sign_bit
    → (fence s l ≤ fence s (acquire ctx r ttl now l).0)
      × (fence s (acquire ctx r ttl now l).0 ≤ fence s l + 1)
unfolding acquire get_or
fence-acquire ctx r s ttl now l h =
    ground (arith, find-put r s (add64 (fence r l) 1) l.fences, text_eq_iff r s)

fence-release :
    (ctx : Option Error) (g : Lease) (s : Text) (l : Locker)
    → fence s (release ctx g l).0 ≡ fence s l
unfolding release
fence-release ctx g s l = ground arith

fence-Step :
    (s : Text) (l l' : Locker)
    → Step l l'
    → fence s l + 1 < sign_bit
    → (fence s l ≤ fence s l') × (fence s l' ≤ fence s l + 1)
fence-Step s l _ (Step.acquiring ctx r ttl now _) h = fence-acquire ctx r s ttl now l h
fence-Step s l _ (Step.releasing ctx g _) h = ground (arith, fence-release ctx g s l)

fence-Run :
    (s : Text) (l l' : Locker) (n : ℕ)
    → Run l n l'
    → fence s l + n < sign_bit
    → (fence s l ≤ fence s l') × (fence s l' ≤ fence s l + n)
fence-Run s l _ _ Run.start h = omega arith
fence-Run s l l'' _ (Run.then_step {l' = l'} {n = n} run step) h =
    let p = fence-Run s l l' n run (omega arith) in
    let q = fence-Step s l' l'' step (omega arith) in omega arith

-- What a call of `Acquire` that grants a lease does.
pub acquire-ok :
    (ctx : Option Error) (r : Text) (ttl now : ℕ) (l : Locker) (l' : Locker) (g : Lease)
    → acquire ctx r ttl now l ≡ (l', ok g)
    → (g ≡ lease_of r ttl now l) × (l' ≡ grant g l) × (is_held r now l ≡ false)
unfolding acquire
acquire-ok ctx r ttl now l l' g h = ground arith

fence-grant : (g : Lease) (l : Locker) → fence g.resource (grant g l) ≡ g.token
unfolding get_or
fence-grant g l =
    ground (arith, find-put g.resource g.resource g.token l.fences, text_eq_refl g.resource)

-- A lease whose token is below the fence of its resource is refused.
guard_below_fence :
    (ctx : Option Error) (g : Lease) (now : ℕ) (l : Locker)
    → fence g.resource l < sign_bit
    → g.token < fence g.resource l
    → guard ctx g now l ≢ none
unfolding guard
guard_below_fence ctx g now l h b = ground arith

-- A lease that is granted carries the next token of its resource.
pub acquire-token :
    (ctx : Option Error) (r : Text) (ttl now : ℕ) (l l' : Locker) (g : Lease)
    → acquire ctx r ttl now l ≡ (l', ok g)
    → fence r l + 1 < sign_bit
    → (g.resource ≡ r) × (g.token ≡ fence r l + 1) × (fence r l' ≡ fence r l + 1)
acquire-token ctx r ttl now l l' g h room =
    let (e, f, _) = acquire-ok ctx r ttl now l l' g h in ground (arith, fence-grant g l)

-- Once a resource has been granted again, the earlier lease never passes the guard: whatever is
-- acquired and released before and after, at whatever instants, as long as fewer than 2 ^ 63 grants
-- are made.
pub stale_lease_refused :
    (ctx1 ctx2 : Option Error) (r : Text) (ttl1 ttl2 now1 now2 : ℕ) (l l1 l2 l3 l4 : Locker)
    (g1 g2 : Lease) (n m : ℕ)
    → acquire ctx1 r ttl1 now1 l ≡ (l1, ok g1)
    → Run l1 n l2
    → acquire ctx2 r ttl2 now2 l2 ≡ (l3, ok g2)
    → Run l3 m l4
    → fence r l + n + m + 2 < sign_bit
    → (ctx : Option Error) (now : ℕ) → (g1.token < g2.token) × (guard ctx g1 now l4 ≢ none)
stale_lease_refused ctx1 ctx2 r ttl1 ttl2 now1 now2 l l1 l2 l3 l4 g1 g2 n m h1 run1 h2 run2 room ctx
      now =
    let (e1, t1, f1) = acquire-token ctx1 r ttl1 now1 l l1 g1 h1 (omega arith) in
    let (low, high) = fence-Run r l1 l2 n run1 (omega arith) in
    let (e2, t2, f2) = acquire-token ctx2 r ttl2 now2 l2 l3 g2 h2 (omega arith) in
    let (low', high') = fence-Run r l3 l4 m run2 (omega arith) in
    let same = ap (λ s. fence s l4) e1 in
    (omega arith, guard_below_fence ctx g1 now l4 (omega arith) (omega arith))

-- Two leases of a resource never both pass the guard: those that do carry the same token.
pub guard_exclusive :
    (ctx1 ctx2 : Option Error) (g1 g2 : Lease) (now1 now2 : ℕ) (l : Locker)
    → g1.resource ≡ g2.resource
    → guard ctx1 g1 now1 l ≡ none
    → guard ctx2 g2 now2 l ≡ none
    → g1.token ≡ g2.token
unfolding guard
guard_exclusive ctx1 ctx2 g1 g2 now1 now2 l same h1 h2 = ground arith

-- While a lease passes the guard nobody is granted its resource.
pub acquire_refused :
    (ctx ctx' : Option Error) (g : Lease) (ttl now : ℕ) (l : Locker)
    → guard ctx' g now l ≡ none
    → ((acquire ctx g.resource ttl now l).0 ≡ l)
      × ((g' : Lease) → (acquire ctx g.resource ttl now l).1 ≢ ok g')
unfolding acquire guard is_held
acquire_refused ctx ctx' g ttl now l h = (ground arith, λ g'. ground arith)

-- A granted lease passes the guard exactly until it expires, if nothing else is called.
pub acquire-guard :
    (r : Text) (ttl now at : ℕ) (l l' : Locker) (g : Lease) (ctx : Option Error)
    → acquire ctx r ttl now l ≡ (l', ok g)
    → fence r l + 1 < sign_bit
    → (guard none g at l' ≡ none) ↔ (at < Time.add now (ttl_or_default ttl))
unfolding guard
acquire-guard r ttl now at l l' g ctx h room =
    let (e, f, _) = acquire-ok ctx r ttl now l l' g h in
    ground (
      arith,
      fence-grant g l,
      find-put_self g.resource (record { token = g.token; expires_at = g.expires_at }) l.held,
    )

-- A holder that releases its lease frees the resource: the next acquisition is granted at once,
-- under a new token.
pub acquire-release :
    (g : Lease) (now ttl now' : ℕ) (l : Locker)
    → is_empty g.resource ≡ false
    → guard none g now l ≡ none
    → let l' = (release none g l).0 in
      acquire none g.resource ttl now' l'
      ≡ (grant (lease_of g.resource ttl now' l) l', ok (lease_of g.resource ttl now' l))
unfolding acquire release guard is_held
acquire-release g now ttl now' l e h =
    ground (arith, find-remove g.resource g.resource l.held, text_eq_refl g.resource)

-- A lease that has been superseded cannot release the lock of its successor.
pub release_superseded :
    (g1 g2 : Lease) (now : ℕ) (l : Locker)
    → g1.resource ≡ g2.resource
    → g1.token ≢ g2.token
    → guard none g2 now l ≡ none
    → release none g1 l ≡ (l, some lease_superseded)
unfolding release guard
release_superseded g1 g2 now l same different h = ground arith
