-- ===== src/Store/Memory/Ledger.antt =====
-- The abstract view of a device in internal/store/memory.go: the set of the windows that reached it.
-- The record of the device implements it, whatever is delivered, how often and in which order.
use mcp_ironclaw.Prelude.{
  inl, inr, ◌≡◌, refl, ◌∙◌, ◌&&◌, sym, subst, Bool, true, false, Option, none, some, List, [], ◌∷◌,
  arith, Option-cases, Bool-cases, if◌then◌else◌,
}
use mcp_ironclaw.Go.Text.{Text, text_eq_iff, text_eq→eq, text_eq}
use mcp_ironclaw.Go.Map.Totals.{total_determined}
use mcp_ironclaw.Go.Map.{
  IsUnique, put-IsUnique, Map, find, put, get_or, find-put, total, total-put_new, string_eq,
}
use mcp_ironclaw.Domain.Errors.{ok}
use mcp_ironclaw.Domain.Key.{AggregateWindow, DeviceState, identity}
use mcp_ironclaw.Store.Memory.{Memory, new_memory, apply_window, device_state, device_key}
use mcp_ironclaw.Store.Memory.Records.{DeviceRecord, new_record}
use mcp_ironclaw.Store.Memory.Devices.{
  find-apply_window, fold_in, fold_in_new, fold_in_old, record_or_new, key_of_window,
  fold_in-applied,
}

-- The windows of a device by their identities.
abbrev pub Ledger : Type 0
Ledger = Map Text AggregateWindow

-- A window is entered once.
unfoldable pub enter : AggregateWindow → Ledger → Ledger
enter w l = elim (find (identity w) l) [ some _ ↦ l | none ↦ put (identity w) w l ]

-- The ledger of a device after a list of deliveries.
unfoldable pub ledger_of : Text → List AggregateWindow → Ledger → Ledger
ledger_of key [] l = l
ledger_of key (w ∷ ws) l = ledger_of key ws (if text_eq (key_of_window w) key then enter w l else l)

-- Deliveries one after the other.
unfoldable pub apply_all : List AggregateWindow → Memory → Memory
apply_all [] m = m
apply_all (w ∷ ws) m = apply_all ws (apply_window none w m).0

abbrev is_entered : Text → Ledger → Bool
is_entered i l = elim (find i l) [ none ↦ false | some _ ↦ true ]

record Represents (r : DeviceRecord) (l : Ledger) : Type 0 where
  applied : (i : Text) → get_or i r.applied false ≡ is_entered i l
  count : r.state.count ≡ total (λ w. w.count) l
  error_count : r.state.error_count ≡ total (λ w. w.error_count) l
  bytes : r.state.bytes ≡ total (λ w. w.bytes) l

abbrev Holds : Option DeviceRecord → Ledger → Type 0
Holds none l = l ≡ []
Holds (some r) l = Represents r l

new_record-Represents : (w : AggregateWindow) → Represents (new_record w) []
unfolding get_or find total
new_record-Represents w = record {
  applied = λ i. refl;
  count = refl;
  error_count = refl;
  bytes = refl;
}

fold_in-Represents :
    (w : AggregateWindow) (r : DeviceRecord) (l : Ledger)
    → Represents r l
    → Represents (fold_in w r) (enter w l)
unfolding enter
fold_in-Represents w r l p = elim (Option-cases (find (identity w) l)) [
  | inr (v, e) ↦ rw (e, enter, fold_in_old w r (ground (arith, p.applied (identity w)))) p
  | inl e ↦
      let (c, f, b, a) = fold_in_new w r (ground (arith, p.applied (identity w))) in
      rw (e, enter)
        (record {
          applied = λ i. ground (
            arith,
            fold_in-applied w r i,
            p.applied i,
            find-put (identity w) i w l,
            text_eq_iff (identity w) i,
          );
          count = ground (arith, c, p.count, total-put_new (λ w. w.count) (identity w) w l e);
          error_count =
              ground
                (arith, f, p.error_count, total-put_new (λ w. w.error_count) (identity w) w l e);
          bytes = ground (arith, b, p.bytes, total-put_new (λ w. w.bytes) (identity w) w l e);
        })
]

-- The record that a window is folded into represents what has been entered so far.
record_or_new-Represents :
    (w : AggregateWindow) (o : Option DeviceRecord) (l : Ledger)
    → Holds o l
    → Represents (elim o [ none ↦ new_record w | some r ↦ r ]) l
record_or_new-Represents w none l h =
    subst (Represents (new_record w)) (sym h) (new_record-Represents w)
record_or_new-Represents w (some r) l h = h

apply-Holds :
    (w : AggregateWindow) (m : Memory) (l : Ledger) (key : Text)
    → Holds (find key m.devices) l
    → Holds
        (find key (apply_window none w m).0.devices)
        (if text_eq (key_of_window w) key then enter w l else l)
unfolding get_or
apply-Holds w m l key h = elim (Bool-cases (text_eq (key_of_window w) key)) [
  | inr e ↦ rw (find-apply_window w m key, e) h
  | inl e ↦
      let same = text_eq→eq (key_of_window w) key e in
      let here = subst (λ k. Holds (find k m.devices) l) (sym same) h in
      rw (find-apply_window w m key, e)
        (fold_in-Represents w (record_or_new w m) l
          (record_or_new-Represents w (find (key_of_window w) m.devices) l here))
]

apply_all-Holds :
    (ws : List AggregateWindow) (m : Memory) (l : Ledger) (key : Text)
    → Holds (find key m.devices) l
    → Holds (find key (apply_all ws m).devices) (ledger_of key ws l)
unfolding apply_all ledger_of
apply_all-Holds [] m l key h = h
apply_all-Holds (w ∷ ws) m l key h =
    apply_all-Holds ws (apply_window none w m).0
      (if text_eq (key_of_window w) key then enter w l else l) key (apply-Holds w m l key h)

new_memory-Holds : (key : Text) → Holds (find key new_memory.devices) []
unfolding find
new_memory-Holds key = refl

-- Whatever windows are delivered to a new memory, in whatever order and however often, the counts
-- that are read of a device are the totals of the windows in its ledger, each counted once.
pub counts_refine_ledger :
    (ws : List AggregateWindow) (u d : Text) (s : DeviceState)
    → device_state none u d (apply_all ws new_memory) ≡ ok s
    → let l = ledger_of (device_key u d) ws [] in
      (s.count ≡ total (λ w. w.count) l)
      × (s.error_count ≡ total (λ w. w.error_count) l)
      × (s.bytes ≡ total (λ w. w.bytes) l)
unfolding device_state
counts_refine_ledger ws u d s e =
    let key = device_key u d in
    let new_empty = new_memory-Holds key in
    let h = apply_all-Holds ws new_memory [] key new_empty in
    elim (Option-cases (find key (apply_all ws new_memory).devices)) [
      | inl n ↦ absurd (ground arith)
      | inr (r, f) ↦
          let p = subst (λ o. Holds o (ledger_of key ws [])) f h in
          (ground (arith, p.count), ground (arith, p.error_count), ground (arith, p.bytes))
    ]

enter-IsUnique : (w : AggregateWindow) (l : Ledger) → IsUnique l → IsUnique (enter w l)
unfolding enter
enter-IsUnique w l u = ground (arith, put-IsUnique (identity w) w l u)

pub ledger_of-IsUnique :
    (key : Text) (ws : List AggregateWindow) (l : Ledger)
    → IsUnique l
    → IsUnique (ledger_of key ws l)
unfolding ledger_of
ledger_of-IsUnique key [] l u = u
ledger_of-IsUnique key (w ∷ ws) l u =
    ledger_of-IsUnique key ws (if text_eq (key_of_window w) key then enter w l else l)
      (ground (arith, enter-IsUnique w l u))

-- The first window of a device that is delivered under an identity.
unfoldable pub first_delivered : Text → Text → List AggregateWindow → Option AggregateWindow
first_delivered key i [] = none
first_delivered key i (w ∷ ws) =
    if text_eq (key_of_window w) key && text_eq (identity w) i
    then some w
    else first_delivered key i ws

find-enter :
    (w : AggregateWindow) (l : Ledger) (i : Text)
    → find i (enter w l)
      ≡ elim (find i l) [ some v ↦ some v | none ↦ if text_eq (identity w) i then some w else none ]
unfolding enter
find-enter w l i = ground (arith, find-put (identity w) i w l, text_eq_iff (identity w) i)

pub find-ledger_of :
    (key i : Text) (ws : List AggregateWindow) (l : Ledger)
    → find i (ledger_of key ws l)
      ≡ elim (find i l) [ some v ↦ some v | none ↦ first_delivered key i ws ]
unfolding ledger_of first_delivered
find-ledger_of key i [] l = ground arith
find-ledger_of key i (w ∷ ws) l =
    let l' = if text_eq (key_of_window w) key then enter w l else l in
    ground (arith, find-ledger_of key i ws l', find-enter w l i)

agree_ledgers :
    (key : Text) (ws ws' : List AggregateWindow)
    → ((i : Text) → first_delivered key i ws ≡ first_delivered key i ws')
    → (i : Text) → find i (ledger_of key ws []) ≡ find i (ledger_of key ws' [])
unfolding find
agree_ledgers key ws ws' same i =
    find-ledger_of key i ws [] ∙ same i ∙ sym (find-ledger_of key i ws' [])

-- Two sequences of deliveries that bring the same windows of a device, in any order and any number
-- of times, give it the same counts, when both leave it readable.
pub counts_order_independent :
    (ws ws' : List AggregateWindow) (u d : Text) (s s' : DeviceState)
    → ((i : Text) → first_delivered (device_key u d) i ws ≡ first_delivered (device_key u d) i ws')
    → device_state none u d (apply_all ws new_memory) ≡ ok s
    → device_state none u d (apply_all ws' new_memory) ≡ ok s'
    → (s.count ≡ s'.count) × (s.error_count ≡ s'.error_count) × (s.bytes ≡ s'.bytes)
unfolding IsUnique find
counts_order_independent ws ws' u d s s' same e e' =
    let key = device_key u d in
    let (c, f, b) = counts_refine_ledger ws u d s e in
    let (c', f', b') = counts_refine_ledger ws' u d s' e' in
    let v = ledger_of-IsUnique key ws [] tt in
    let v' = ledger_of-IsUnique key ws' [] tt in
    let agree = agree_ledgers key ws ws' same in
    let l = ledger_of key ws [] in
    let l' = ledger_of key ws' [] in
    (
      c ∙ total_determined (λ w. w.count) l l' v v' agree ∙ sym c',
      f ∙ total_determined (λ w. w.error_count) l l' v v' agree ∙ sym f',
      b ∙ total_determined (λ w. w.bytes) l l' v v' agree ∙ sym b',
    )
