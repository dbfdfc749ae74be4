-- ===== src/Transcode/Packets.antt =====
-- The references that the variable `packet` of do_transcode of native/transcode.c holds in the loop over
-- the packets of the input. Transcode.Main has the flow of the data.
pub mod Rounds
pub mod Laws
mod Tests
use audio_fs.Base.{
  ℕ, zero, suc, ◌+◌, true, false, Bool, not, Option, none, some, List, [], ◌∷◌, ◌==◌, if◌then◌else◌,
}
use audio_fs.Base.Int.{ℤ, is_neg}
use audio_fs.Memory.{Outcome, done, spent, ◌>>=◌}
use audio_fs.Transcode.{Ffmpeg, World}
use audio_fs.Transcode.Main.{Exit, decode_loop, remux}

-- Whether `packet` holds a reference to data, and how many references were overwritten, so that nothing
-- can release them.
pub record Holding : Type 0 where
  pub held : Bool
  pub lost : ℕ

-- av_read_frame does not release what the packet holds. It fills the packet with a reference, or makes
-- it blank where it gives an error.
abbrev pub overwritten : Bool → Holding → Holding
overwritten given h = record { held = given; lost = if h.held then h.lost + 1 else h.lost }

-- av_packet_unref, av_packet_free, and av_interleaved_write_frame, which takes the reference over.
abbrev pub released : Holding → Holding
released h = record h { held = false }

module _ (lib : Ffmpeg) where
  open lib use {packet_stream, has_graph, read_frame, rescale_in, send_packet}

  -- The loop over the packets of the input, with what `packet` holds.
  unfoldable pub read_loop_held : ℕ → ℕ → ℕ → World lib → Holding → Outcome (Exit lib × Holding)
  unfolding decode_loop remux
  read_loop_held rounds zero selected w h = spent
  read_loop_held rounds (suc fuel) selected w h =
      let (demuxer', ret, packet) = read_frame w.demuxer in
      let w' : World lib = record w { demuxer = demuxer' } in
      let h' = overwritten (not (is_neg ret)) h in
      let (decoder', ret') = send_packet w.decoder (rescale_in packet) in
      let go_on : Holding → Exit lib → Outcome (Exit lib × Holding) = λ at_jump r. elim r.1 [
        | none ↦ read_loop_held rounds fuel selected r.0 (released h')
        | some code ↦ done ((r.0, some code), at_jump)
      ] in
      elim (is_neg ret) [
        | true ↦ done ((w', none), h')
        | false ↦ elim (packet_stream packet == selected) [
          | false ↦ read_loop_held rounds fuel selected w' h'
          | true ↦ elim has_graph [
            | false ↦ remux lib selected packet w' >>= go_on (released h')
            | true ↦ elim (is_neg ret') [
              | true ↦ done ((record w' { decoder = decoder' }, none), h')
              | false ↦
                  decode_loop lib rounds rounds selected (record w' { decoder = decoder' })
                  >>= go_on h'
            ]
          ]
        ]
      ]

  -- The loop from the packet that av_packet_alloc gives to the av_packet_free behind it.
  unfoldable pub packet_lifetime : ℕ → ℕ → World lib → Outcome (Exit lib × Holding)
  unfolding read_loop_held
  packet_lifetime rounds selected w =
      read_loop_held rounds rounds selected w (record { held = false; lost = 0 }) >>= λ r.
      done (r.0, released r.1)
