-- ===== src/Wire/Formats.antt =====
-- `For` of internal/wire/codec.go: the codecs behind their names, and the kinds that come in.
use mcp_ironclaw.Prelude.{
  ℕ, ◌<◌, ◌≡◌, refl, ◌⊎◌, inl, inr, List, [], ◌∷◌, map, arith, All, Bool-cases, ltb, subst,
}
use mcp_ironclaw.Go.Text.{Text}
use mcp_ironclaw.Domain.Errors.{ok, err, kind_out_of_range}
use mcp_ironclaw.Domain.Event.{Batch}
use mcp_ironclaw.Domain.Key.{AggregateWindow}
use mcp_ironclaw.Wire.{EventMessage, BatchMessage, batch_message, window_message}
use mcp_ironclaw.Wire.Json.{JsonLibrary, json_batch, json_window}
use mcp_ironclaw.Wire.Codec.{
  ProtobufLibrary, Codec, codec_for, json, protobuf, decode_events, event_of, batch_of,
  decode_batch, max_kind,
}
use mcp_ironclaw.Wire.RoundTrip.{
  IsFaithful, IsCarriedBatch, IsCarriedWindow, BatchTexts, WindowTexts, protobuf_batch,
  json_batch_back, protobuf_window, json_window_back,
}

codec_for-cases :
    (j : JsonLibrary) (p : ProtobufLibrary) (format : Text) (c : Codec)
    → codec_for j p format ≡ ok c
    → (c ≡ json j) ⊎ (c ≡ protobuf p)
unfolding codec_for
codec_for-cases j p format c h = ground arith

module _ (P : Text → Type 0) (j : JsonLibrary) (p : ProtobufLibrary) where
  -- With the codec of any format that `For` knows, a batch that was encoded is decoded to itself: as
  -- long as the two libraries give back what they have taken, the texts of the batch are such as they
  -- carry unchanged, its kinds fit a byte, its times have nanoseconds in an int64, and it was created
  -- at the zero time or after 1970.
  pub codec_for-batch :
      (format : Text) (c : Codec) (b : Batch) (raw : List ℕ)
      → IsFaithful (BatchTexts P) json_batch j.batches
      → IsFaithful (BatchTexts P) batch_message p.batches
      → codec_for j p format ≡ ok c
      → IsCarriedBatch b
      → BatchTexts P b
      → c.encode_batch b ≡ ok raw
      → c.decode_batch raw ≡ ok b
  codec_for-batch format c b raw fj fp known h t e = elim (codec_for-cases j p format c known) [
    | inl f ↦ rw f (json_batch_back P j b raw fj h t (subst (λ c. c.encode_batch b ≡ ok raw) f e))
    | inr f ↦ rw f (protobuf_batch P p b raw fp h t (subst (λ c. c.encode_batch b ≡ ok raw) f e))
  ]

  -- So is a window: as long as the two libraries give back what they have taken, its texts are such as
  -- they carry unchanged, and its two times have nanoseconds in an int64.
  pub codec_for-window :
      (format : Text) (c : Codec) (w : AggregateWindow) (raw : List ℕ)
      → IsFaithful (WindowTexts P) json_window j.windows
      → IsFaithful (WindowTexts P) window_message p.windows
      → codec_for j p format ≡ ok c
      → IsCarriedWindow w
      → WindowTexts P w
      → c.encode_window w ≡ ok raw
      → c.decode_window raw ≡ ok w
  codec_for-window format c w raw fj fp known h t e = elim (codec_for-cases j p format c known) [
    | inl f ↦ rw f (json_window_back P j w raw fj h t (subst (λ c. c.encode_window w ≡ ok raw) f e))
    | inr f ↦ rw f (protobuf_window P p w raw fp h t (subst (λ c. c.encode_window w ≡ ok raw) f e))
  ]

abbrev pub IsByteKind : EventMessage → Type 0
IsByteKind m = m.kind < 256

decode_events-cases :
    (ms : List EventMessage)
    → (All IsByteKind ms × (decode_events ms ≡ ok (map event_of ms)))
      ⊎ ((All IsByteKind ms → ⊥) × (decode_events ms ≡ err kind_out_of_range))
unfolding decode_events
decode_events-cases [] = inl (tt, refl)
decode_events-cases (m ∷ ms) = elim (decode_events-cases ms) [
  | inl (a, e) ↦ elim (Bool-cases (ltb max_kind m.kind)) [
    | inl big ↦ inr (λ h. ground arith, ground arith)
    | inr small ↦ inl ((ground arith, a), ground arith)
  ]
  | inr (n, e) ↦ inr (λ h. n h.1, ground arith)
]

-- The protobuf decoder takes a message exactly when all its kinds fit a byte, and then takes every
-- event, in order; any other message it refuses as out of range, without the events that do fit.
pub decode_batch_kinds :
    (l : ProtobufLibrary) (raw : List ℕ) (m : BatchMessage)
    → l.batches.unmarshal raw ≡ ok m
    → (All IsByteKind m.events × (decode_batch l raw ≡ ok (batch_of m (map event_of m.events))))
      ⊎ ((All IsByteKind m.events → ⊥) × (decode_batch l raw ≡ err kind_out_of_range))
unfolding decode_batch
decode_batch_kinds l raw m e = elim (decode_events-cases m.events) [
  | inl (a, f) ↦ inl (a, ground arith)
  | inr (n, f) ↦ inr (n, ground arith)
]
