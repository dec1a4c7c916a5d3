-- ===== src/Transport/Draining.antt =====
-- `Drain` of internal/transport/https.go: what leaves the spool, and when.
use mcp_ironclaw.Prelude.{
  Bool, if_both, ◌∙◌, ◌∙◌, ℕ, ◌≡◌, refl, ◌⊎◌, inl, inr, true, none, some, List, [], ◌∷◌, ◌++◌,
  arith, Bool-cases, Option-cases, ap, subst, sym, append_assoc,
}
use mcp_ironclaw.Go.Text.{Text}
use mcp_ironclaw.Domain.Errors.{Error, ok, is_unacceptable, Result-cases}
use mcp_ironclaw.Spool.{Spool, peek, release_entry}
use mcp_ironclaw.Spool.Files.{Disk}
use mcp_ironclaw.Spool.Index.{IsIndexed}
use mcp_ironclaw.Spool.Peeking.{IsLeft, peek-IsLeft}
use mcp_ironclaw.Spool.Front.{IsAdvanced, peek-IsPeeked, release_entry-IsAdvanced}
use mcp_ironclaw.Transport.{
  follow, Client, Response, Https, Next, Round, error_of, permanently_refused, post, release,
  drain_response, drain_round, drain,
}

-- The edge has settled the payload for good: it has taken it, or it will never take it.
abbrev pub IsSettled : Response → Type 0
IsSettled r =
    (error_of r ≡ none)
    ⊎ ((status : ℕ) × (r ≡ Response.answered status) × (permanently_refused status ≡ true))

error_of-IsSettled :
    (r : Response) (e : Error) → error_of r ≡ some e → is_unacceptable e ≡ true → IsSettled r
unfolding error_of is_unacceptable
error_of-IsSettled (Response.failed n) e h u = absurd (ground arith)
error_of-IsSettled (Response.answered status) e h u = inr (status, refl, ground arith)

-- Later entries stay, in their order.
abbrev pub IsSuffix : List Text → List Text → Type 0
IsSuffix xs ys = (front : List Text) × (ys ≡ front ++ xs)

follow_both :
    {A : Type 0} (P : A → Type 0) (timer : Bool) (next : Next) (go_on : ℕ → A) (ended : A)
    → ((n : ℕ) → P (go_on n))
    → P ended
    → P (follow timer next go_on ended)
unfolding follow
follow_both P timer Next.stop go_on ended g e = e
follow_both P timer Next.going_on go_on ended g e = g 0
follow_both P timer Next.waiting go_on ended g e = if_both P timer (go_on 0) ended (g 0) e
follow_both P timer (Next.backing_off n) go_on ended g e = if_both P timer (go_on n) ended (g n) e

module _ {W D : Type 0} (client : Client W) (d : Disk D) where
  pub release-queue :
      (name : Text) (q : Spool) (h : Https W D)
      → (release client d name q h).queue ≡ some (release_entry d name (q, h.disk)).0.0
  unfolding release
  release-queue name q h = ground arith

  -- What a round leaves of a spool: what `Peek` leaves, or that without the payload that it has
  -- returned, which the edge has settled.
  abbrev IsHandled : Spool → Https W D → Https W D → Type 0
  IsHandled q h h' =
      let (looked, result) = peek d (q, h.disk) in
      (h'.queue ≡ some looked.0)
      ⊎ ((payload : List ℕ) × (name : Text) × (result ≡ ok (payload, name))
          × IsSettled (client payload h.network).1
          × (h'.queue ≡ some (release_entry d name looked).0.0))

  drain_round-IsHandled :
      (failures : ℕ) (q : Spool) (h : Https W D)
      → h.queue ≡ some q
      → IsHandled q h (drain_round client d failures h).0
  unfolding drain_round drain_response post
  drain_round-IsHandled failures q h s = elim (Result-cases (peek d (q, h.disk)).1) [
    | inl (e, f) ↦ inl (ground (arith, s))
    | inr ((payload, name), f) ↦
        let (looked, result) = peek d (q, h.disk) in
        let r = (client payload h.network).1 in
        elim (Option-cases (error_of r)) [
          | inl g ↦ inr (
            payload,
            name,
            f,
            inl g,
            ground (
              arith,
              s,
              release-queue name looked.0 (record h {
                queue = some looked.0;
                disk = looked.1;
                network = (client payload h.network).0;
              }),
            ),
          )
          | inr (e, g) ↦ elim (Bool-cases (is_unacceptable e)) [
            | inl u ↦ inr (
              payload,
              name,
              f,
              error_of-IsSettled r e g u,
              ground (
                arith,
                s,
                release-queue name looked.0 (record h {
                  queue = some looked.0;
                  disk = looked.1;
                  network = (client payload h.network).0;
                }),
              ),
            )
            | inr u ↦ inl (ground (arith, s))
          ]
        ]
  ]

  -- What a round leaves of the entries, and why one has left: its file is gone or is no regular file, or
  -- the edge has settled the payload that its file held.
  abbrev pub IsRound : Spool → Https W D → Https W D → Type 0
  IsRound q h h' =
      (q' : Spool) × (h'.queue ≡ some q')
      × (IsLeft d q q' h.disk
          ⊎ ((name : Text) × (payload : List ℕ) × (q.order ≡ name ∷ q'.order)
              × (d.read_file name h.disk ≡ ok payload)
              × IsSettled (client payload h.network).1))

  -- A round of `Drain`, on a spool whose index agrees, takes at most the oldest entry out, and
  -- only if the edge has acknowledged the payload that the entry's file holds or has refused it
  -- for good, or if that file does not exist or is no regular file; otherwise every entry stays,
  -- in its place.
  pub drain_round_lem :
      (room failures : ℕ) (q : Spool) (h : Https W D)
      → h.queue ≡ some q
      → IsIndexed room q
      → IsRound q h (drain_round client d failures h).0
  drain_round_lem room failures q h s x =
      let (looked, result) = peek d (q, h.disk) in
      let (left, read) = peek-IsLeft d room q h.disk x in
      elim (drain_round-IsHandled failures q h s) [
        | inl e ↦ (looked.0, e, inl left)
        | inr (payload, name, f, g, e) ↦
            let (advanced, found) = peek-IsPeeked d room q h.disk x in
            let (same, (names, o)) = found payload name f in
            let released =
              release_entry-IsAdvanced d room name names looked.0 looked.1 (ap Spool.order same ∙ o)
                advanced.indexed in
            let t = (release_entry d name looked).0.0 in
            elim (released.order) [
              | inl kept ↦ (t, e, inl (inl (kept ∙ ap Spool.order same)))
              | inr (name', gone) ↦
                  let front : q.order ≡ name' ∷ t.order = sym (ap Spool.order same) ∙ gone in
                  let named : name' ≡ name = cc in
                  (
                    t,
                    e,
                    inr (
                      name,
                      payload,
                      subst (λ n. q.order ≡ n ∷ t.order) named front,
                      read payload name f,
                      g,
                    ),
                  )
            ]
      ]

  -- A spool whose index agrees, and whose entries are later ones of another's.
  abbrev pub IsRest : ℕ → Spool → Https W D → Type 0
  IsRest room q h =
      (q' : Spool) × (h.queue ≡ some q') × IsIndexed room q' × IsSuffix q'.order q.order

  suffix_of-IsAdvanced : (room : ℕ) (s t : Spool) → IsAdvanced room s t → IsSuffix t.order s.order
  suffix_of-IsAdvanced room s t a = elim (a.order) [
    | inl e ↦ ([], sym e)
    | inr (name, e) ↦ (name ∷ [], e)
  ]

  drain_round-IsRest :
      (room failures : ℕ) (q : Spool) (h : Https W D)
      → h.queue ≡ some q
      → IsIndexed room q
      → IsRest room q (drain_round client d failures h).0
  drain_round-IsRest room failures q h s x =
      let (looked, result) = peek d (q, h.disk) in
      let (advanced, found) = peek-IsPeeked d room q h.disk x in
      elim (drain_round-IsHandled failures q h s) [
        | inl e ↦ (looked.0, e, advanced.indexed, suffix_of-IsAdvanced room q looked.0 advanced)
        | inr (payload, name, f, g, e) ↦
            let (same, (names, o)) = found payload name f in
            let released =
              release_entry-IsAdvanced d room name names looked.0 looked.1 (ap Spool.order same ∙ o)
                advanced.indexed in
            let t = (release_entry d name looked).0.0 in
            (
              t,
              e,
              released.indexed,
              subst (IsSuffix t.order) (ap Spool.order same)
                  (suffix_of-IsAdvanced room looked.0 t released),
            )
      ]

  -- However its rounds end and whatever the network and the disk answer, `Drain` takes entries from the
  -- front of the spool only: those that are left are the newest ones, in their order, and the index
  -- agrees.
  pub drain-IsRest :
      (rounds : List Round) (room failures : ℕ) (q : Spool) (h : Https W D)
      → h.queue ≡ some q
      → IsIndexed room q
      → IsRest room q (drain client d rounds failures h)
  unfolding drain
  drain-IsRest [] room failures q h s x = (q, s, x, ([], refl))
  drain-IsRest (r ∷ rs) room failures q h s x =
      let (q', s', x', (front, f)) = drain_round-IsRest room failures q h s x in
      let (h', next) = drain_round client d failures h in
      let later : (n : ℕ) → IsRest room q (drain client d rs n h') = λ n.
        let (q'', s'', x'', (front', f')) = drain-IsRest rs room n q' h' s' x' in
        (q'', s'', x'', (front ++ front', ground (arith, append_assoc front front' q''.order))) in
      elim (Bool-cases r.canceled) [
        | inl c ↦ rw (c, drain) (q, s, x, ([], refl))
        | inr c ↦
            rw (c, drain)
              (follow_both (IsRest room q) r.timer next (λ n. drain client d rs n h') h' later
                (q', s', x', (front, f)))
      ]
