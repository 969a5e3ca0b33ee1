-- ===== src/G711/RoundTrip.antt =====
-- pkg/rtp/session.go: decoding and encoding a G.711 payload gives the payload back.
use clear_stream.Prelude.{
  ℕ, ◌<◌, ◌≡◌, refl, ap₂, true, List, [], ◌∷◌, map, ◌==◌, ==_iff, if◌then◌else◌, All, passes_below,
  passes_below_at,
}
use clear_stream.G711.{
  ulaw_to_linear, decode_g711u, alaw_to_linear, decode_g711a, linear_to_ulaw, encode_g711u,
  linear_to_alaw, encode_g711a,
}

alaw_table : passes_below (λ b. linear_to_alaw (alaw_to_linear b) == b) 256 ≡ true
unfolding passes_below linear_to_alaw alaw_to_linear
alaw_table = refl

-- The only byte that does not come back is the negative zero, 0x7F, which is encoded as 0xFF.
ulaw_table :
    passes_below (λ b. linear_to_ulaw (ulaw_to_linear b) == (if b == 0x7f then 0xff else b)) 256
    ≡ true
unfolding passes_below linear_to_ulaw ulaw_to_linear
ulaw_table = refl

abbrev pub IsByte : ℕ → Type 0
IsByte b = b < 256

-- Decoding an A-law payload and encoding it again gives the same bytes.
encode-decode_g711a :
    (payload : List ℕ) → All IsByte payload → encode_g711a (decode_g711a payload) ≡ payload
unfolding encode_g711a decode_g711a
encode-decode_g711a [] h = refl
encode-decode_g711a (b ∷ bs) h =
    ap₂ (λ x xs. x ∷ xs) ((==_iff _ b).0 (passes_below_at _ 256 alaw_table b h.0))
      (encode-decode_g711a bs h.1)

-- Decoding a µ-law payload and encoding it again gives the same bytes, but for the second code of
-- silence, 0x7F, which becomes the first one, 0xFF.
pub encode-decode_g711u :
    (payload : List ℕ)
    → All IsByte payload
    → encode_g711u (decode_g711u payload) ≡ map (λ b. if b == 0x7f then 0xff else b) payload
unfolding encode_g711u decode_g711u
encode-decode_g711u [] h = refl
encode-decode_g711u (b ∷ bs) h =
    ap₂ (λ x xs. x ∷ xs)
      ((==_iff _ (if b == 0x7f then 0xff else b)).0 (passes_below_at _ 256 ulaw_table b h.0))
      (encode-decode_g711u bs h.1)
