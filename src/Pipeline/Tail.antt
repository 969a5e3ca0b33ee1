-- ===== src/Pipeline/Tail.antt =====
-- pkg/audio/pipeline.go, Flush: the frame made of the bytes that are left.
use mathlib.Core.List.{append_assoc}
use clear_stream.Prelude.{
  take-append, ℕ, ◌≡◌, sym, ap, ◌∙◌, List, [], ◌∷◌, ◌++◌, length, take, replicate, Float, arith,
}
use clear_stream.Pipeline.{PipelineConfig, Stages, bytes_to_int16, frame_size_bytes}
use clear_stream.Pipeline.Calls.{
  flush, flush_bytes, padded, suppress_present, write_bytes, with_live,
}
use clear_stream.Pipeline.Steps.{Live, ◌>>=◌}

padded-append : (a b : List ℕ) → length a ≡ frame_size_bytes → padded (a ++ b) ≡ padded a
unfolding padded
padded-append a b h =
    ap (take frame_size_bytes) (append_assoc a b (replicate frame_size_bytes 0))
    ∙ take-append frame_size_bytes a (b ++ replicate frame_size_bytes 0) (omega arith)
    ∙ sym (take-append frame_size_bytes a (replicate frame_size_bytes 0) (omega arith))

module _ {F X : Type 0} ⦃fl : Float F⦄ (o : Stages X) (cfg : PipelineConfig) where
  -- Flush forgets what is left beyond 320 bytes, as at rates above 16 kHz there may be: with any
  -- bytes behind them it does what it does with those 320 alone.
  pub flush-forgets :
      (a b : List ℕ) (live : Live F X)
      → length a ≡ frame_size_bytes
      → flush o cfg (record { buf = a ++ b; live = live })
        ≡ flush o cfg (record { buf = a; live = live })
  unfolding flush flush_bytes
  flush-forgets [] b live h = absurd (omega arith)
  flush-forgets (c ∷ a) b live h =
      ap
        (λ bytes.
          with_live (record { buf = []; live = live })
            ((suppress_present o cfg (bytes_to_int16 bytes) >>= write_bytes o cfg) live))
        (padded-append (c ∷ a) b h)
