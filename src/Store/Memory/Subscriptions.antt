-- ===== src/Store/Memory/Subscriptions.antt =====
-- What a watch, its end and a delivery of internal/store/watch.go do to the watchers: they stay live.
use mcp_ironclaw.Prelude.{
  ap, ◌&&◌, inl, inr, ℕ, ◌≤◌, ◌≡◌, refl, true, false, ◌||◌, not, Option, none, some, List, [], ◌∷◌,
  ◌++◌, ◌==◌, arith, length, ==_iff, Option-cases, Bool-cases, if◌then◌else◌,
}
use mcp_ironclaw.Go.Text.{is_empty, Text, text_eq_iff, text_eq}
use mcp_ironclaw.Go.Map.{Map, find, put, get_or, find-put, find-remove, nat_eq, string_eq}
use mcp_ironclaw.Go.Map.Entries.{has}
use mcp_ironclaw.Go.Sort.{has-select}
use mcp_ironclaw.Domain.Errors.{◌>>◌, reject_if, device_not_found, Error}
use mcp_ironclaw.Domain.Key.{DeviceState}
use mcp_ironclaw.Store.Memory.{
  Memory, Watcher, watch_buffer, watch_device, unwatch, set_watchers, close_channel, remaining,
  device_key,
}
use mcp_ironclaw.Store.Memory.Watchers.{watching, IsLive}

has-append : (y x : ℕ) (xs : List ℕ) → has y (xs ++ x ∷ []) ≡ (has y xs || x == y)
unfolding has
has-append y x [] = ground arith
has-append y x (z ∷ xs) = ground (arith, has-append y x xs)

get_or-put :
    (key l : Text) (xs : List ℕ) (ws : Map Text (List ℕ))
    → get_or l (put key xs ws) [] ≡ (if text_eq key l then xs else get_or l ws [])
unfolding get_or
get_or-put key l xs ws = ground (arith, find-put key l xs ws)

get_or-set_watchers :
    (key l : Text) (xs : List ℕ) (ws : Map Text (List ℕ))
    → get_or l (set_watchers key xs ws) [] ≡ (if text_eq key l then xs else get_or l ws [])
unfolding get_or set_watchers
get_or-set_watchers key l [] ws = ground (arith, find-remove key l ws)
get_or-set_watchers key l (x ∷ xs) ws = ground (arith, find-put key l (x ∷ xs) ws)

-- Who watches a device after one watcher has come, and after one has gone.
has-watch :
    (key l : Text) (x y : ℕ) (m : Memory)
    → has y (get_or l (put key (watching key m ++ x ∷ []) m.watchers) [])
      ≡ (has y (watching l m) || (text_eq key l && x == y))
has-watch key l x y m = ground (
  arith,
  get_or-put key l (watching key m ++ x ∷ []) m.watchers,
  has-append y x (watching key m),
  text_eq_iff key l,
)

has-unwatch :
    (key l : Text) (x y : ℕ) (m : Memory)
    → has y (get_or l (set_watchers key (remaining key x m) m.watchers) [])
      ≡ (has y (watching l m) && not (text_eq key l && x == y))
has-unwatch key l x y m = ground (
  arith,
  get_or-set_watchers key l (remaining key x m) m.watchers,
  has-select (λ z. not (z == x)) y (watching key m),
  text_eq_iff key l,
)

not_watched :
    (x : ℕ) (m : Memory) (l : Text)
    → find x m.channels ≡ none
    → IsLive m
    → has x (watching l m) ≡ false
not_watched x m l fresh live = elim (Bool-cases (has x (watching l m))) [
  | inr e ↦ e
  | inl e ↦ let (w, f, _) = live.all_open l x e in cc
]

-- A memory with one more watcher, at an address that was free.
watched-IsLive :
    (key : Text) (x : ℕ) (m : Memory)
    → find x m.channels ≡ none
    → IsLive m
    → IsLive (record m {
      channels = put x (record { updates = []; closed = false }) m.channels;
      watchers = put key (watching key m ++ x ∷ []) m.watchers;
    })
watched-IsLive key x m fresh live = record {
  all_open = λ l y h. elim (Bool-cases (x == y)) [
    | inl e ↦ (
      record { updates = []; closed = false },
      ground (arith, find-put x y (record { updates = []; closed = false }) m.channels, ==_iff x y),
      refl,
    )
    | inr e ↦
        let (w, f, c) = live.all_open l y (ground (arith, has-watch key l x y m)) in
        (
          w,
          ground (
            arith,
            find-put x y (record { updates = []; closed = false }) m.channels,
            ==_iff x y,
          ),
          c,
        )
  ];
  one_key = λ l l' y h h'. ground (
    arith,
    has-watch key l x y m,
    has-watch key l' x y m,
    text_eq_iff key l,
    text_eq_iff key l',
    not_watched x m l fresh live,
    not_watched x m l' fresh live,
    live.one_key l l' y,
  );
  buffers = λ y w e.
      ground (
        arith,
        live.buffers y w,
        find-put x y (record { updates = []; closed = false }) m.channels,
      );
}

find-close_channel :
    (x y : ℕ) (w : Watcher) (cs : Map ℕ Watcher)
    → find y cs ≡ some w
    → find y (close_channel x cs) ≡ some (if x == y then record w { closed = true } else w)
unfolding close_channel
find-close_channel x y w cs e = elim (Option-cases (find x cs)) [
  | inl n ↦ ground (arith, ==_iff x y)
  | inr (v, f) ↦ ground (arith, ==_iff x y, find-put x y (record v { closed = true }) cs)
]

close_channel-bounded :
    (x y : ℕ) (w : Watcher) (cs : Map ℕ Watcher)
    → ((y : ℕ) (w : Watcher) → find y cs ≡ some w → length w.updates ≤ watch_buffer)
    → find y (close_channel x cs) ≡ some w
    → length w.updates ≤ watch_buffer
unfolding close_channel
close_channel-bounded x y w cs h e = elim (Option-cases (find x cs)) [
  | inl n ↦ ground (arith, h y w)
  | inr (v, f) ↦ ground (arith, h y w, h x v, find-put x y (record v { closed = true }) cs)
]

pub unwatch-IsLive :
    (key : Text) (x : ℕ) (m : Memory)
    → has x (watching key m) ≡ true
    → IsLive m
    → IsLive (unwatch key x m)
unfolding unwatch
unwatch-IsLive key x m h live = record {
  all_open = λ l y g.
      let (w, f, c) = live.all_open l y (ground (arith, has-unwatch key l x y m)) in
      (
        w,
        ground (
          arith,
          find-close_channel x y w m.channels,
          has-unwatch key l x y m,
          live.one_key key l x,
          ==_iff x y,
          text_eq_iff key l,
        ),
        c,
      );
  one_key = λ l l' y g g'.
      ground (arith, has-unwatch key l x y m, has-unwatch key l' x y m, live.one_key l l' y);
  buffers = λ y w e. close_channel-bounded x y w m.channels live.buffers e;
}

pub watch_device-IsLive :
    (ctx : Option Error) (u d : Text) (x : ℕ) (m : Memory)
    → find x m.channels ≡ none
    → IsLive m
    → IsLive (watch_device ctx u d x m).0
unfolding watch_device
watch_device-IsLive ctx u d x m fresh live =
    elim (Option-cases (ctx >> reject_if (is_empty u || is_empty d) device_not_found)) [
      | inr (e, f) ↦ rw (f, watch_device) live
      | inl f ↦ rw (f, watch_device) (watched-IsLive (device_key u d) x m fresh live)
    ]

-- The memory after a consumer has taken the first update that a channel buffers.
abbrev pub received : ℕ → Watcher → List DeviceState → Memory → Memory
received x w rest m = record m { channels = put x (record w { updates = rest }) m.channels }

pub received-IsLive :
    (x : ℕ) (w : Watcher) (s : DeviceState) (rest : List DeviceState) (m : Memory)
    → find x m.channels ≡ some w
    → w.updates ≡ s ∷ rest
    → IsLive m
    → IsLive (received x w rest m)
received-IsLive x w s rest m e f live = record {
  all_open = λ key y h.
      let (v, g, c) = live.all_open key y h in
      elim (Bool-cases (x == y)) [
        | inl q ↦ (
          record w { updates = rest },
          ground (arith, find-put x y (record w { updates = rest }) m.channels, ==_iff x y),
          ground (arith, ==_iff x y),
        )
        | inr q ↦ (
          v,
          ground (arith, find-put x y (record w { updates = rest }) m.channels, ==_iff x y),
          c,
        )
      ];
  one_key = live.one_key;
  buffers = λ y v g. ground (
    arith,
    live.buffers y v,
    live.buffers x w e,
    ap length f,
    find-put x y (record w { updates = rest }) m.channels,
  );
}
