-- ===== src/Transcode/Filter.antt =====
-- filter_encode_write_frame of native/transcode.c.
pub mod Laws
use audio_fs.Base.{ℕ, zero, suc, true, false, Option, some, if◌then◌else◌}
use audio_fs.Base.Int.{ℤ, pos, is_neg}
use audio_fs.Memory.{Outcome, done, spent, ◌>>=◌}
use audio_fs.Transcode.{Ffmpeg, World, is_end}
use audio_fs.Transcode.Encode.{encode_write_frame}

module _ (lib : Ffmpeg) where
  open lib use {Frame, add_frame, get_frame, no_picture}

  -- The loop that pulls filtered frames; `rounds` is the fuel of each loop inside it.
  unfoldable pub filter_loop : ℕ → ℕ → ℕ → World lib → Outcome (World lib × ℤ)
  filter_loop rounds zero stream_index w = spent
  filter_loop rounds (suc fuel) stream_index w =
      let (graph', ret, frame) = get_frame w.graph in
      elim (is_neg ret) [
        | true ↦ done (record w { graph = graph' }, if is_end lib ret then pos 0 else ret)
        | false ↦
            encode_write_frame lib rounds stream_index (some (no_picture frame))
              (record w { graph = graph' })
            >>= λ r. elim (is_neg r.1) [
              | true ↦ done (r.0, r.1)
              | false ↦ filter_loop rounds fuel stream_index r.0
            ]
      ]

  unfoldable pub filter_encode_write_frame :
      ℕ → Option Frame → ℕ → World lib → Outcome (World lib × ℤ)
  unfolding filter_loop
  filter_encode_write_frame rounds frame stream_index w =
      let (graph', ret) = add_frame w.graph frame in
      elim (is_neg ret) [
        | true ↦ done (record w { graph = graph' }, ret)
        | false ↦ filter_loop rounds rounds stream_index (record w { graph = graph' })
      ]
