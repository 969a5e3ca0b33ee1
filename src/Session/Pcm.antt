-- ===== src/Session/Pcm.antt =====
-- pkg/rtp/session.go, bytesToInt16Slice and int16SliceToBytes: samples as little-endian bytes.
use clear_stream.Prelude.{
  ℕ, ◌+◌, ◌-◌, ◌*◌, ◌/◌, ◌%◌, ◌<◌, ◌≡◌, refl, ap₂, List, [], ◌∷◌, ltb, if◌then◌else◌, All, ℤ, pos,
  negsuc, arith,
}

-- int16(lo) | int16(hi)<<8
abbrev pub int16_of : ℕ → ℕ → ℤ
int16_of lo hi = let n = hi * 256 + lo in if ltb n 32768 then pos n else negsuc (65535 - n)

-- A last byte without its second is left.
unfoldable pub bytes_to_int16_slice : List ℕ → List ℤ
bytes_to_int16_slice (lo ∷ hi ∷ rest) = int16_of lo hi ∷ bytes_to_int16_slice rest
bytes_to_int16_slice short = []

-- The sample's sixteen bits.
abbrev pub word_of : ℤ → ℕ
word_of (pos n) = n % 65536
word_of (negsuc n) = 65535 - n % 65536

unfoldable pub int16_slice_to_bytes : List ℤ → List ℕ
int16_slice_to_bytes [] = []
int16_slice_to_bytes (v ∷ rest) = word_of v % 256 ∷ word_of v / 256 ∷ int16_slice_to_bytes rest

-- The range of an int16.
abbrev pub IsInt16 : ℤ → Type 0
IsInt16 (pos n) = n < 32768
IsInt16 (negsuc n) = n < 32768

int16_of-word_of : (v : ℤ) → IsInt16 v → int16_of (word_of v % 256) (word_of v / 256) ≡ v
int16_of-word_of (pos n) h = ground arith
int16_of-word_of (negsuc n) h = ground arith

-- Every slice of samples in the range of int16 is read back from its bytes.
bytes_to_int16_slice-int16_slice_to_bytes :
    (samples : List ℤ)
    → All IsInt16 samples
    → bytes_to_int16_slice (int16_slice_to_bytes samples) ≡ samples
unfolding bytes_to_int16_slice int16_slice_to_bytes
bytes_to_int16_slice-int16_slice_to_bytes [] h = refl
bytes_to_int16_slice-int16_slice_to_bytes (v ∷ rest) h =
    ap₂ (◌∷◌) (int16_of-word_of v h.0) (bytes_to_int16_slice-int16_slice_to_bytes rest h.1)
