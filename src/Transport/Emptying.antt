-- ===== src/Transport/Emptying.antt =====
-- `Drain` of internal/transport/https.go once the edge can be reached again: the spool becomes empty.
use mcp_ironclaw.Prelude.{
  if_both, ℕ, ◌≡◌, ◌≤◌, refl, ◌⊎◌, inl, inr, ◌∙◌, Bool, true, false, none, some, List, [], ◌∷◌,
  arith, All, Bool-cases, ap, sym, subst, length, List-cases,
}
use mcp_ironclaw.Go.Text.{Text}
use mcp_ironclaw.Go.Map.{string_eq}
use mcp_ironclaw.Domain.Errors.{Result, Error, ok, unacceptable, is_unacceptable}
use mcp_ironclaw.Spool.{Spool, is_unsafe, peek, peek_entry, release_entry, remove_locked}
use mcp_ironclaw.Spool.Files.{Disk}
use mcp_ironclaw.Spool.Index.{IsIndexed}
use mcp_ironclaw.Spool.Budget.{remove_locked_lem, oldest_found}
use mcp_ironclaw.Spool.Front.{peek_empty, peek_front, release_entry-IsAdvanced}
use mcp_ironclaw.Transport.{
  follow, Client, Https, Next, Round, error_of, permanently_refused, post, release, drain_response,
  drain_round, drain,
}
use mcp_ironclaw.Transport.Draining.{IsSettled, release-queue}

-- Every entry can be read and removed.
pub record IsWorking {D : Type 0} (d : Disk D) : Type 0 where
  pub removes : (name : Text) (x : D) → (d.remove_file name x).1 ≡ none
  pub regular : (name : Text) (x : D) → d.is_regular name x ≡ ok true
  pub readable : (name : Text) (x : D) → (payload : List ℕ) × (d.read_file name x ≡ ok payload)

-- A transport whose spool has no entries.
abbrev pub IsEmptied : {W D : Type 0} → Https W D → Type 0
IsEmptied h = (q : Spool) × (h.queue ≡ some q) × (q.order ≡ [])

module _ {W D : Type 0} (client : Client W) (d : Disk D) (works : IsWorking d) where
  release_entry-order :
      (room : ℕ) (name : Text) (names : List Text) (s : Spool) (x : D)
      → s.order ≡ name ∷ names
      → is_unsafe name ≡ false
      → IsIndexed room s
      → (release_entry d name (s, x)).0.0.order ≡ names
  unfolding release_entry remove_locked
  release_entry-order room name names s x o safe h =
      elim (remove_locked_lem d room name names s x o h) [
        | inr ((e, f), _) ↦ absurd (ground (arith, works.removes name x))
        | inl (f, _, g) ↦ ground (arith, f, g, oldest_found room name names s o h)
      ]

  peek-works :
      (name : Text) (names : List Text) (s : Spool) (x : D)
      → s.order ≡ name ∷ names
      → (payload : List ℕ) × (peek d (s, x) ≡ ((s, x), ok (payload, name)))
  unfolding peek_entry
  peek-works name names s x o =
      let (payload, e) = works.readable name x in
      (payload, peek_front d name names s x o ∙ rw (works.regular name x, e, peek_entry) refl)

  module _ (settles : (payload : List ℕ) (x : W) → IsSettled (client payload x).1) where
    settled-cases :
        (payload : List ℕ) (x : W)
        → (error_of (client payload x).1 ≡ none)
          ⊎ ((e : Error) × (error_of (client payload x).1 ≡ some e) × (is_unacceptable e ≡ true))
    unfolding error_of is_unacceptable permanently_refused
    settled-cases payload x = elim (settles payload x) [
      | inl e ↦ inl e
      | inr (status, e, refused) ↦ inr (unacceptable, rw e (ground arith), refl)
    ]

    -- A round takes the oldest entry out of the spool, and the next one follows at once.
    drain_round-takes :
        (room failures : ℕ) (name : Text) (names : List Text) (q : Spool) (h : Https W D)
        → h.queue ≡ some q
        → q.order ≡ name ∷ names
        → is_unsafe name ≡ false
        → IsIndexed room q
        → let (h', next) = drain_round client d failures h in
          (next ≡ Next.going_on)
          × ((q' : Spool) × (h'.queue ≡ some q') × (q'.order ≡ names) × IsIndexed room q')
    unfolding drain_round drain_response post
    drain_round-takes room failures name names q h s o safe x =
        let (payload, found) = peek-works name names q h.disk o in
        let result = ap (λ (y : (Spool × D) × Result (List ℕ × Text)). y.1) found in
        let looked = ap (λ (y : (Spool × D) × Result (List ℕ × Text)). y.0) found in
        let rest = (release_entry d name (q, h.disk)).0.0 in
        let left : (rest.order ≡ names) × IsIndexed room rest = (
          release_entry-order room name names q h.disk o safe x,
          (release_entry-IsAdvanced d room name names q h.disk o x).indexed,
        ) in
        let after : Https W D = record h {
          queue = some q;
          network = (client payload h.network).0;
        } in
        let released : (release client d name q after).queue ≡ some rest =
          release-queue client d name q after in
        elim (settled-cases payload h.network) [
          | inl e ↦ rw (s, drain_round, result, looked, e) (refl, (rest, released, left.0, left.1))
          | inr (y, e, u) ↦
              rw (s, drain_round, result, looked, e, u) (refl, (rest, released, left.0, left.1))
        ]

    drain_round-idle :
        (failures : ℕ) (h : Https W D)
        → IsEmptied h
        → let (h', next) = drain_round client d failures h in IsEmptied h' × (next ≡ Next.waiting)
    unfolding drain_round
    drain_round-idle failures h (q, s, o) =
        let empty = peek_empty d q h.disk o in
        rw (s, drain_round, ap (λ (y : (Spool × D) × Result (List ℕ × Text)). y.1) empty)
          ((q, ap (λ (y : (Spool × D) × Result (List ℕ × Text)). some y.0.0) empty, o), refl)

    follow-idle :
        {A : Type 0} (P : A → Type 0) (timer : Bool) (next : Next) (go_on : ℕ → A) (ended : A)
        → next ≡ Next.waiting
        → P (go_on 0)
        → P ended
        → P (follow timer next go_on ended)
    unfolding follow
    follow-idle P timer next go_on ended e g h =
        rw (e, follow) (if_both P timer (go_on 0) ended g h)

    drain-idle :
        (rounds : List Round) (failures : ℕ) (h : Https W D)
        → IsEmptied h
        → IsEmptied (drain client d rounds failures h)
    unfolding drain
    drain-idle [] failures h e = e
    drain-idle (r ∷ rs) failures h e =
        let (e', next) = drain_round-idle failures h e in
        elim (Bool-cases r.canceled) [
          | inl c ↦ rw (c, drain) e
          | inr c ↦
              rw (c, drain)
                (follow-idle IsEmptied r.timer _ _ _ next
                  (drain-idle rs 0 (drain_round client d failures h).0 e') e')
        ]

    -- Once the edge settles whatever it is sent, taking it or refusing it for good, and the
    -- disk works, `Drain` empties the spool in as many rounds as it has entries, or more,
    -- however often it had failed before and whether or not its waits are cut short, as long as
    -- its context is not done at the start of a round. The index must agree, and the names of
    -- the entries must be safe.
    pub drain-empties :
        (rounds : List Round) (room failures : ℕ) (q : Spool) (h : Https W D)
        → h.queue ≡ some q
        → IsIndexed room q
        → All (λ name. is_unsafe name ≡ false) q.order
        → All (λ r. r.canceled ≡ false) rounds
        → length q.order ≤ length rounds
        → IsEmptied (drain client d rounds failures h)
    unfolding drain follow
    drain-empties [] room failures q h s x safe live enough = elim (List-cases q.order) [
      | inl o ↦ (q, s, o)
      | inr (name, names, o) ↦ absurd (omega (arith, ap length o))
    ]
    drain-empties (r ∷ rs) room failures q h s x safe live enough = elim (List-cases q.order) [
      | inl o ↦ drain-idle (r ∷ rs) failures h (q, s, o)
      | inr (name, names, o) ↦
          let all_safe = subst (All (λ name. is_unsafe name ≡ false)) o safe in
          let (next, (q', s', o', x')) =
            drain_round-takes room failures name names q h s o all_safe.0 x in
          let rest =
            drain-empties rs room 0 q' (drain_round client d failures h).0 s' x'
              (subst (All (λ name. is_unsafe name ≡ false)) (sym o') all_safe.1) live.1
              (omega (arith, ap length o, ap length o', enough)) in
          rw (live.0, drain, next, follow) rest
    ]
