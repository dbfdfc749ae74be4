-- ===== src/Transcode/Packets/Laws.antt =====
-- How many references the loop over packets loses.
use audio_fs.Base.{
  ℕ, zero, suc, ◌+◌, ◌≡◌, ◌<◌, ◌⊎◌, refl, sym, ap, ◌∙◌, true, false, Bool, Bool-cases, inl, inr,
  not, ◌==◌, ==-cases, Option, none, some, List, [], ◌∷◌, arith, if◌then◌else◌,
}
use audio_fs.Base.Int.{ℤ, is_neg}
use audio_fs.Memory.{done, ◌>>=◌}
use audio_fs.Transcode.{Ffmpeg, World, Encoding, Finite}
use audio_fs.Transcode.Main.{read_loop}
use audio_fs.Transcode.Main.Laws.{Left, decode_loop-Decodes}
use audio_fs.Transcode.Packets.{Holding, overwritten, released, read_loop_held, packet_lifetime}
use audio_fs.Transcode.Packets.Rounds.{
  Round, over, stop, again, decoding, over_round, other_round, bad_round, decoded_round,
  remux_round,
}

module _ (lib : Ffmpeg) where
  open lib use {
    Demuxer, Packet, packet_stream, nb_out, has_graph, read_frame, rescale_in, send_packet,
  }

  -- The packets that the demuxer gives one after another, up to a later state of it.
  pub data Gives : Demuxer → List Packet → Demuxer → Type 0 where
    no_more : {d : Demuxer} → Gives d [] d
    one_more :
        {d d' : Demuxer} {ps : List Packet}
        → is_neg (read_frame d).1 ≡ false
        → Gives (read_frame d).0 ps d'
        → Gives d ((read_frame d).2 ∷ ps) d'

  -- How many packets are of another stream than `i`.
  abbrev pub others : ℕ → List Packet → ℕ
  others i [] = 0
  others i (p ∷ ps) = let rest = others i ps in if packet_stream p == i then rest else rest + 1

  -- The demuxer behind its packets, or behind the error that ended them.
  abbrev pub Behind : Demuxer → Demuxer → Type 0
  Behind d d' = (d' ≡ d) ⊎ ((is_neg (read_frame d).1 ≡ true) × (d' ≡ (read_frame d).0))

  abbrev pub bit : Bool → ℕ
  bit true = 1
  bit false = 0

  module _ (enc : Encoding lib) (fin : Finite lib) where
    abbrev Empty : World lib → Type 0
    Empty w = enc.ready w.encoder ≡ []

    Left-Empty :
        (e : lib.Encoder) (out : Option ℤ) → Left lib enc fin e out → out ≡ none → enc.ready e ≡ []
    Left-Empty e none left same = left
    Left-Empty e (some ret) left same = cc

    -- A packet of the selected stream.
    same_round :
        (rounds fuel i : ℕ) (w : World lib)
        → Empty w
        → enc.most < rounds
        → fin.most < rounds
        → i < nb_out
        → is_neg (read_frame w.demuxer).1 ≡ false
        → packet_stream (read_frame w.demuxer).2 ≡ i
        → Round lib rounds fuel i w Empty
    same_round rounds fuel i w empty p r q given same =
        let sent = send_packet w.decoder (rescale_in (read_frame w.demuxer).2) in
        elim (Bool-cases has_graph) [
          | inr none_there ↦ remux_round lib rounds fuel i w given same none_there q empty
          | inl graph ↦ elim (Bool-cases (is_neg sent.1)) [
            | inl bad ↦ bad_round lib rounds fuel i w given same graph bad
            | inr good ↦
                let bound = fin.frames_decoded-most sent.0 in
                let (c3, g3, e3, m3, out, run, end) =
                  decode_loop-Decodes lib enc fin rounds rounds i (decoding lib w) empty p r
                    (omega arith) q in
                decoded_round lib rounds fuel i w out given same graph good run refl
                  (Left-Empty e3 out end)
          ]
        ]

    round :
        (rounds fuel i : ℕ) (w : World lib)
        → Empty w
        → enc.most < rounds
        → fin.most < rounds
        → i < nb_out
        → Round lib rounds fuel i w Empty
    round rounds fuel i w empty p r q = elim (Bool-cases (is_neg (read_frame w.demuxer).1)) [
      | inl e ↦ over_round lib rounds fuel i w e
      | inr given ↦ elim (==-cases (packet_stream (read_frame w.demuxer).2) i) [
        | inr other ↦ other_round lib rounds fuel i w given other empty
        | inl same ↦ same_round rounds fuel i w empty p r q given same
      ]
    ]

    -- What the two loops come to from `w` and `h`.
    abbrev Counted : ℕ → ℕ → ℕ → World lib → Holding → Type 0
    Counted rounds fuel i w h =
        (w' : World lib) × (out : Option ℤ) × (h' : Holding) × (ps : List Packet) × (d : Demuxer)
        × (read_loop lib rounds fuel i w ≡ done (w', out))
        × (read_loop_held lib rounds fuel i w h ≡ done ((w', out), h'))
        × Gives w.demuxer ps d
        × Behind d w'.demuxer
        × (h'.lost ≡ h.lost + bit h.held + others i ps)

    read_loop_held-Counted :
        (rounds fuel i : ℕ) (w : World lib) (h : Holding)
        → Empty w
        → enc.most < rounds
        → fin.most < rounds
        → fin.packets_left w.demuxer < fuel
        → i < nb_out
        → Counted rounds fuel i w h
    read_loop_held-Counted rounds zero i w h empty p r left q = absurd (omega arith)
    read_loop_held-Counted rounds (suc fuel) i w h empty p r left q =
        elim (round rounds fuel i w empty p r q) [
          | over e w1 here run run' ↦
              (w1, none, _, [], w.demuxer, run, run' h, no_more, inr (e, here), ground arith)
          | stop w1 out held given same here run run' ↦ (
            w1,
            out,
            _,
            (read_frame w.demuxer).2 ∷ [],
            (read_frame w.demuxer).0,
            run,
            run' h,
            one_more given no_more,
            inl here,
            ground arith,
          )
          | again w1 given here empty1 run run' ↦
              let less = fin.read_fewer w.demuxer given in
              let b = not (packet_stream (read_frame w.demuxer).2 == i) in
              let (w', out, h', ps, d, run1, run1', gives, behind, count) =
                read_loop_held-Counted rounds fuel i w1 (overwritten b h) empty1 p r
                  (ground (arith, here)) q in
              (
                w',
                out,
                h',
                (read_frame w.demuxer).2 ∷ ps,
                d,
                run ∙ run1,
                run' h ∙ run1',
                one_more given (rw (sym here) gives),
                behind,
                ground (arith, count),
              )
        ]

    -- With parts of finite contents, an encoder that works and is empty to begin with, fuel over what
    -- each part can hold and an output stream of the selected index, the loop over packets ends, as it
    -- does without the references, and whichever way it ends, the data of each packet of another stream
    -- that it was given is lost, and no other; `packet` holds nothing behind av_packet_free.
    pub packet_lifetime_lem :
        (rounds i : ℕ) (w : World lib)
        → enc.ready w.encoder ≡ []
        → enc.most < rounds
        → fin.most < rounds
        → i < nb_out
        → (w' : World lib) × (out : Option ℤ) × (h : Holding) × (ps : List Packet) × (d : Demuxer)
          × (read_loop lib rounds rounds i w ≡ done (w', out))
          × (packet_lifetime lib rounds i w ≡ done ((w', out), h))
          × Gives w.demuxer ps d
          × Behind d w'.demuxer
          × (h.lost ≡ others i ps)
          × (h.held ≡ false)
    unfolding packet_lifetime
    packet_lifetime_lem rounds i w empty p r q =
        let bound = fin.packets_left-most w.demuxer in
        let (w', out, h, ps, d, run, run', gives, behind, count) =
          read_loop_held-Counted rounds rounds i w (record { held = false; lost = 0 }) empty p r
            (omega arith) q in
        (
          w',
          out,
          released h,
          ps,
          d,
          run,
          ap (λ o. o >>= λ r. done (r.0, released r.1)) run',
          gives,
          behind,
          ground (arith, count),
          refl,
        )
