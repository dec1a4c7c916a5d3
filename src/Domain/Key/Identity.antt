-- ===== src/Domain/Key/Identity.antt =====
-- What the texts of key.go determine.
use mathlib.Core.List.{append_cancel_left}
use mcp_ironclaw.Prelude.{
  ap, sym, ◌∙◌, ℕ, ◌^◌, ◌<◌, ◌≡◌, inl, inr, [], ◌∷◌, ◌++◌, arith, append_assoc,
}
use mcp_ironclaw.Go.Int64.{modulus}
use mcp_ironclaw.Go.Text.{Text, Lacks, split_last, split_first}
use mcp_ironclaw.Go.Strconv.{format_int, format_int-injective, format_int-Lacks}
use mcp_ironclaw.Domain.Key.{
  CorrelationKey, AggregateWindow, sign_extend, append, to_string, identity, window_identity,
}

-- The numbers of a window are bit patterns of 64 bits.
pub record InRange (w : AggregateWindow) : Type 0 where
  pub window_id : w.window_id < modulus
  pub sequence : w.sequence < modulus

number-Lacks_hash : (n : ℕ) → Lacks b'#' (format_int n)
number-Lacks_hash n = format_int-Lacks b'#' n (λ e. omega arith) (inl (omega arith))

window_identity-injective :
    (v w : AggregateWindow)
    → v.window_id < modulus
    → w.window_id < modulus
    → window_identity v ≡ window_identity w
    → (to_string v.key ≡ to_string w.key) × (v.window_id ≡ w.window_id)
unfolding window_identity to_string
window_identity-injective v w hv hw e =
    let (p, q) =
      split_last b'#' (append v.key []) (append w.key []) (format_int v.window_id)
        (format_int w.window_id) (number-Lacks_hash v.window_id) (number-Lacks_hash w.window_id)
        e in
    (p, format_int-injective v.window_id w.window_id hv hw q)

-- Two emissions with one `Identity` have the same key text, the same window and the same sequence
-- number, so that two deltas of one window never collapse.
pub identity-injective :
    (v w : AggregateWindow)
    → InRange v
    → InRange w
    → identity v ≡ identity w
    → (to_string v.key ≡ to_string w.key) × (v.window_id ≡ w.window_id) × (v.sequence ≡ w.sequence)
unfolding identity window_identity
identity-injective v w hv hw e =
    let (p, q) =
      split_last b'#' (window_identity v) (window_identity w) (format_int v.sequence)
        (format_int w.sequence) (number-Lacks_hash v.sequence) (number-Lacks_hash w.sequence) e in
    let (k, i) = window_identity-injective v w hv.window_id hw.window_id p in
    (k, i, format_int-injective v.sequence w.sequence hv.sequence hw.sequence q)

-- A key whose text can be read back: no `}` in the user, no `:` in the device.
pub record IsPlain (k : CorrelationKey) : Type 0 where
  pub user : Lacks b'}' k.user_id
  pub device : Lacks b':' k.device_id
  pub process : k.process_id < 2 ^ 32

number-Lacks_colon : (n : ℕ) → Lacks b':' (format_int n)
number-Lacks_colon n = format_int-Lacks b':' n (λ e. omega arith) (inr (omega arith))

tail_eq : (a : ℕ) (s t : Text) → a ∷ s ≡ a ∷ t → s ≡ t
tail_eq a s t e = cc

sign_extend-injective : (a b : ℕ) → a < 2 ^ 32 → b < 2 ^ 32 → sign_extend a ≡ sign_extend b → a ≡ b
sign_extend-injective a b ha hb e = ground arith

sign_extend-lt : (a : ℕ) → a < 2 ^ 32 → sign_extend a < modulus
sign_extend-lt a h = ground arith

abbrev after_device : CorrelationKey → Text
after_device k = format_int (sign_extend k.process_id) ++ b':' ∷ k.pod_id

after_device-injective :
    (k l : CorrelationKey)
    → k.process_id < 2 ^ 32
    → l.process_id < 2 ^ 32
    → after_device k ≡ after_device l
    → (k.process_id ≡ l.process_id) × (k.pod_id ≡ l.pod_id)
after_device-injective k l hk hl e =
    let (process, pod) =
      split_first b':' (format_int (sign_extend k.process_id))
        (format_int (sign_extend l.process_id)) k.pod_id l.pod_id (number-Lacks_colon _)
        (number-Lacks_colon _) e in
    let same : sign_extend k.process_id ≡ sign_extend l.process_id =
      format_int-injective _ _ (sign_extend-lt _ hk) (sign_extend-lt _ hl) process in
    (sign_extend-injective k.process_id l.process_id hk hl same, pod)

to_string-cancel :
    (k l : CorrelationKey)
    → k.user_id ≡ l.user_id
    → k.device_id ≡ l.device_id
    → to_string k ≡ to_string l
    → after_device k ≡ after_device l
unfolding to_string
to_string-cancel k l user device e =
    let rest = append_cancel_left k.user_id _ _ (
      tail_eq _ _ _ (
        e
        ∙ ap (λ (u : Text). b'{' ∷ (u ++ b'}' ∷ b':' ∷ (l.device_id ++ b':' ∷ after_device l)))
            (sym user))) in
    tail_eq _ _ _ (
      append_cancel_left k.device_id _ _ (
        tail_eq _ _ _ (tail_eq _ _ _ rest)
        ∙ ap (λ (d : Text). d ++ b':' ∷ after_device l) (sym device)))

-- For emissions of one device of one user, whatever their texts hold, the `Identity` determines the
-- key, the window and the sequence number.
pub identity-injective_of_device :
    (v w : AggregateWindow)
    → InRange v
    → InRange w
    → v.process_id < 2 ^ 32
    → w.process_id < 2 ^ 32
    → v.user_id ≡ w.user_id
    → v.device_id ≡ w.device_id
    → identity v ≡ identity w
    → (v.key ≡ w.key) × (v.window_id ≡ w.window_id) × (v.sequence ≡ w.sequence)
identity-injective_of_device v w hv hw pv pw user device e =
    let (text, window, sequence) = identity-injective v w hv hw e in
    let (process, pod) =
      after_device-injective v.key w.key pv pw (to_string-cancel v.key w.key user device text) in
    (ground arith, window, sequence)

-- Among keys whose user holds no `}` and whose device holds no `:`, the text of a key determines
-- the key.
pub to_string-injective :
    (k l : CorrelationKey) → IsPlain k → IsPlain l → to_string k ≡ to_string l → k ≡ l
unfolding to_string
to_string-injective k l pk pl e =
    let (user, rest) = split_first b'}' k.user_id l.user_id _ _ pk.user pl.user (tail_eq _ _ _ e) in
    let (device, rest') =
      split_first b':' k.device_id l.device_id (after_device k) (after_device l) pk.device pl.device
        (tail_eq _ _ _ rest) in
    let (process, pod) = after_device-injective k l pk.process pl.process rest' in ground arith

-- Without that, keys collide: a `:` may be moved between the device and the pod. Whatever the user,
-- the device, the process and the two parts of the pod, these two different keys have one text.
pub to_string_collides :
    (user device rest : Text) (process : ℕ)
    → to_string (record {
      user_id = user;
      device_id = device;
      process_id = process;
      pod_id = format_int (sign_extend process) ++ b':' ∷ rest;
    })
      ≡ to_string (record {
        user_id = user;
        device_id = device ++ b':' ∷ format_int (sign_extend process);
        process_id = process;
        pod_id = rest;
      })
unfolding to_string
to_string_collides user device rest process = simp append_assoc
