-- ===== src/Ebpf/Layout.antt =====
-- `Decode` of internal/ebpf/record.go against the layout of the kernel's records, and what becomes of
-- such a record as an event.
use mcp_ironclaw.Prelude.{
  inl, inr, Option-cases, ◌==◌, ltb, subst, subst, ℕ, zero, suc, ◌+◌, ◌/◌, ◌%◌, ◌^◌, ◌≤◌, ◌<◌, ◌≡◌,
  refl, ap, sym, ◌∙◌, Bool, true, false, not, List, [], ◌∷◌, ◌++◌, arith, length, length-append,
  if◌then◌else◌,
}
use native.Mathlib.Nat.{pow-suc}
use mcp_ironclaw.Domain.Errors.{ok}
use mcp_ironclaw.Domain.Event.Validity.{IsValid, validate_iff}
use mcp_ironclaw.Ebpf.{
  event_of, validate, Event, Translator, translate, ltb, KernelRecord, little_endian, skip, decode,
}

-- So many bytes of a number, the lowest first.
unfoldable pub bytes_of : ℕ → ℕ → List ℕ
bytes_of zero v = []
bytes_of (suc n) v = v % 256 ∷ bytes_of n (v / 256)

length-bytes_of : (n v : ℕ) → length (bytes_of n v) ≡ n
unfolding bytes_of
length-bytes_of zero v = refl
length-bytes_of (suc n) v = omega (arith, length-bytes_of n (v / 256))

little_endian-bytes_of :
    (n v : ℕ) (xs : List ℕ) → v < 256 ^ n → little_endian n (bytes_of n v ++ xs) ≡ v
unfolding bytes_of little_endian
little_endian-bytes_of zero v xs h = omega arith
little_endian-bytes_of (suc n) v xs h =
    omega (arith, little_endian-bytes_of n (v / 256) xs (omega (arith, h, pow-suc 256 n)))

skip-bytes_of : (n m v : ℕ) (xs : List ℕ) → skip (n + m) (bytes_of n v ++ xs) ≡ skip m xs
unfolding bytes_of skip
skip-bytes_of zero m v xs = ap (λ k. skip k xs) (omega arith)
skip-bytes_of (suc n) m v xs =
    let same : suc n + m ≡ suc (n + m) = omega arith in rw same (skip-bytes_of n m (v / 256) xs)

-- The fields of a record after its first ones, as the kernel lays them out.
abbrev after_pid : KernelRecord → List ℕ → List ℕ
after_pid r rest =
    bytes_of 4 r.tgid
    ++ (bytes_of 4 r.syscall_number
        ++ (bytes_of 1 (if r.failed then 1 else 0) ++ (bytes_of 3 0 ++ rest)))

-- A record in the memory of the kernel: the failure is one byte, and three bytes of padding follow it.
abbrev pub layout : KernelRecord → List ℕ → List ℕ
layout r rest =
    bytes_of 8 r.timestamp_nanos
    ++ (bytes_of 8 r.latency_nanos
        ++ (bytes_of 8 r.result ++ (bytes_of 4 r.pid ++ after_pid r rest)))

pub record IsInLayout (r : KernelRecord) : Type 0 where
  pub timestamp : r.timestamp_nanos < 256 ^ 8
  pub latency : r.latency_nanos < 256 ^ 8
  pub result : r.result < 256 ^ 8
  pub pid : r.pid < 256 ^ 4
  pub tgid : r.tgid < 256 ^ 4
  pub syscall_number : r.syscall_number < 256 ^ 4

skip_first : (n v : ℕ) (xs : List ℕ) → skip n (bytes_of n v ++ xs) ≡ xs
unfolding skip
skip_first n v xs =
    let same : n ≡ n + 0 = omega arith in
    subst (λ k. skip k (bytes_of n v ++ xs) ≡ xs) (sym same) (skip-bytes_of n 0 v xs)

length-prefix : (n v m : ℕ) (xs : List ℕ) → m ≤ length xs → n + m ≤ length (bytes_of n v ++ xs)
length-prefix n v m xs h = omega (arith, h, length-append (bytes_of n v) xs, length-bytes_of n v)

flag_back : (b : Bool) → not ((if b then 1 else 0) == 0) ≡ b
flag_back true = refl
flag_back false = refl

-- Whatever follows a record of the kernel, `Decode` reads the record back, field by field.
pub decode-layout :
    (r : KernelRecord) (rest : List ℕ) → IsInLayout r → decode (layout r rest) ≡ ok r
unfolding decode
decode-layout r rest h =
    let flag : ℕ = if r.failed then 1 else 0 in
    let t6 : List ℕ = bytes_of 1 flag ++ (bytes_of 3 0 ++ rest) in
    let t5 : List ℕ = bytes_of 4 r.syscall_number ++ t6 in
    let t4 : List ℕ = bytes_of 4 r.tgid ++ t5 in
    let t3 : List ℕ = bytes_of 4 r.pid ++ t4 in
    let t2 : List ℕ = bytes_of 8 r.result ++ t3 in
    let t1 : List ℕ = bytes_of 8 r.latency_nanos ++ t2 in
    let n6 =
      length-prefix 1 flag 3 (bytes_of 3 0 ++ rest) (length-prefix 3 0 0 rest (omega arith)) in
    let n5 = length-prefix 4 r.syscall_number 4 t6 n6 in
    let n3 = length-prefix 4 r.pid 12 t4 (length-prefix 4 r.tgid 8 t5 n5) in
    let n1 = length-prefix 8 r.latency_nanos 24 t2 (length-prefix 8 r.result 16 t3 n3) in
    let long : 40 ≤ length (layout r rest) = length-prefix 8 r.timestamp_nanos 32 t1 n1 in
    let enough : ltb (length (layout r rest)) 40 ≡ false = ground (arith, long) in
    let s1 : skip 8 (layout r rest) ≡ t1 = skip_first 8 r.timestamp_nanos t1 in
    let s2 : skip 16 (layout r rest) ≡ t2 =
      skip-bytes_of 8 8 r.timestamp_nanos t1 ∙ skip_first 8 r.latency_nanos t2 in
    let s3 : skip 24 (layout r rest) ≡ t3 =
      skip-bytes_of 8 16 r.timestamp_nanos t1
      ∙ skip-bytes_of 8 8 r.latency_nanos t2
      ∙ skip_first 8 r.result t3 in
    let s4 : skip 28 (layout r rest) ≡ t4 =
      skip-bytes_of 8 20 r.timestamp_nanos t1
      ∙ skip-bytes_of 8 12 r.latency_nanos t2
      ∙ skip-bytes_of 8 4 r.result t3
      ∙ skip_first 4 r.pid t4 in
    let s5 : skip 32 (layout r rest) ≡ t5 =
      skip-bytes_of 8 24 r.timestamp_nanos t1
      ∙ skip-bytes_of 8 16 r.latency_nanos t2
      ∙ skip-bytes_of 8 8 r.result t3
      ∙ skip-bytes_of 4 4 r.pid t4
      ∙ skip_first 4 r.tgid t5 in
    let s6 : skip 36 (layout r rest) ≡ t6 =
      skip-bytes_of 8 28 r.timestamp_nanos t1
      ∙ skip-bytes_of 8 20 r.latency_nanos t2
      ∙ skip-bytes_of 8 12 r.result t3
      ∙ skip-bytes_of 4 8 r.pid t4
      ∙ skip-bytes_of 4 4 r.tgid t5
      ∙ skip_first 4 r.syscall_number t6 in
    rw
      (
        decode,
        enough,
        s1,
        s2,
        s3,
        s4,
        s5,
        s6,
        little_endian-bytes_of 8 r.timestamp_nanos t1 h.timestamp,
        little_endian-bytes_of 8 r.latency_nanos t2 h.latency,
        little_endian-bytes_of 8 r.result t3 h.result,
        little_endian-bytes_of 4 r.pid t4 h.pid,
        little_endian-bytes_of 4 r.tgid t5 h.tgid,
        little_endian-bytes_of 4 r.syscall_number t6 h.syscall_number,
        little_endian-bytes_of 1 flag (bytes_of 3 0 ++ rest) (ground arith),
        flag_back r.failed,
      )
      refl

-- A record that is translated is a valid event of the translator's device and user.
pub translate-IsValid :
    (t : Translator) (r : KernelRecord) (e : Event)
    → translate t r ≡ ok e
    → IsValid e × (e.device_id ≡ t.device_id) × (e.user_id ≡ t.user_id)
unfolding translate
translate-IsValid t r e h = elim (Option-cases (validate (event_of t r))) [
  | inr (x, f) ↦ absurd (ground arith)
  | inl f ↦
      let same : e ≡ event_of t r = ground arith in
      rw same ((validate_iff (event_of t r)).0 f, refl, refl)
]
