-- ===== src/Avio/Tests.antt =====
-- Runs of the AVIO callbacks, and the theorems about them at concrete handles.
use audio_fs.Base.{ℕ, ◌≡◌, refl, ◌⊎◌, false, List, [], ◌∷◌, some, arith, length, ◌≤◌}
use audio_fs.Base.Int.{ℤ, pos, negsuc}
use audio_fs.Memory.{done, fault, resize, ◌>>=◌}
use audio_fs.Buffer.{Buffer}
use audio_fs.Avio.{Handle, seek_set}
use audio_fs.Avio.Resize.{resize_to}
use audio_fs.Avio.Resize.Laws.{resize_to-Resized, Resized, Grew}
use audio_fs.Avio.Transfer.{avio_read, avio_write}
use audio_fs.Avio.Transfer.Laws.{avio_write_lem, Written, Refused}
use audio_fs.Avio.Transfer.Reads.{avio_read_lem, avio_read_past_end}
use audio_fs.Avio.Transfer.Sequence.{write_all_lem, Writes}
use audio_fs.Avio.Transfer.Replay.{replay, write-read_roundtrip}
use audio_fs.Avio.Seek.{avio_seek, minus_enomem}
use audio_fs.Avio.Seek.Laws.{avio_seek-avio_read_fault, avio_seek_empty}
use audio_fs.Samples.{
  generous, stingy, calm, small_buffer, small_buffer-IsValid, fresh_handle, used_handle,
  fresh_handle-MemoryBacked, used_handle-MemoryBacked, fresh_handle-Fresh,
}

resize_to-Resized_example :
    (b : Buffer) × (code : ℤ) × (resize_to generous used_handle 100
      ≡ done (record used_handle { buffer = some b }, code))
    × Resized generous 100 small_buffer (done (b, code))
resize_to-Resized_example = resize_to-Resized generous used_handle 100 refl small_buffer-IsValid

avio_write_lem_example :
    (h : Handle) × (b : Buffer) × (((avio_write stingy calm used_handle (1 ∷ 2 ∷ []) (pos 2)
          ≡ done (h, pos 2))
        × Written used_handle small_buffer (1 ∷ 2 ∷ []) 2 h b)
      ⊎ ((avio_write stingy calm used_handle (1 ∷ 2 ∷ []) (pos 2) ≡ done (h, negsuc 0))
          × Refused used_handle small_buffer h b
          × ((size : ℕ) × (stingy.grants resize size ≡ false))))
avio_write_lem_example =
    avio_write_lem stingy calm used_handle (1 ∷ 2 ∷ []) 2 used_handle-MemoryBacked (omega arith)
      (omega arith) (omega arith) (omega arith)

avio_read_lem_example :
    (bytes : List ℕ) × (avio_read calm used_handle (pos 9)
      ≡ done (record used_handle { position = 3 }, pos 2, bytes))
    × (length bytes ≡ 2)
avio_read_lem_example =
    let (bytes, run, len, _) =
      avio_read_lem calm used_handle 9 used_handle-MemoryBacked (omega arith) (omega arith)
        (omega arith) (omega arith) in
    (bytes, run, len)

avio_read_past_end_example : avio_read calm (record used_handle { position = 4 }) (pos 1) ≡ fault
avio_read_past_end_example =
    avio_read_past_end calm (record used_handle { position = 4 }) 1
      (record { memory = refl; held = refl; valid = small_buffer-IsValid; nonempty = omega arith })
      (omega arith) (omega arith) (omega arith)

write_all_lem_example : Writes generous calm [] ((1 ∷ 2 ∷ []) ∷ (3 ∷ []) ∷ []) fresh_handle
write_all_lem_example =
    write_all_lem generous calm ((1 ∷ 2 ∷ []) ∷ (3 ∷ []) ∷ []) [] fresh_handle
      (record {
        backed = fresh_handle-MemoryBacked;
        at_end = refl;
        fits = omega arith;
        counted = omega arith;
        bytes = λ i p. absurd (omega arith);
      })
      (omega arith)

write-read_roundtrip_example :
    (h : Handle) × (replay generous calm fresh_handle ((5 ∷ 6 ∷ []) ∷ [])
      ≡ done (some (h, pos 2, 5 ∷ 6 ∷ [])))
write-read_roundtrip_example =
    write-read_roundtrip generous calm fresh_handle fresh_handle-Fresh (5 ∷ 6 ∷ []) (omega arith)

avio_seek-avio_read_fault_example :
    (avio_seek generous calm used_handle (pos 90) seek_set >>= λ r. avio_read calm r.0 (pos 1))
    ≡ fault
avio_seek-avio_read_fault_example =
    avio_seek-avio_read_fault generous calm used_handle 90 1 used_handle-MemoryBacked (omega arith)
      (omega arith) (omega arith) (omega arith)

avio_seek_empty_example :
    (b : Buffer) × Grew small_buffer b
    × (((avio_seek generous calm fresh_handle (pos 9) seek_set
            ≡ done (record fresh_handle { buffer = some b; position = 9 }, pos 9))
          × (9 ≤ b.len))
        ⊎ ((avio_seek generous calm fresh_handle (pos 9) seek_set
              ≡ done (record fresh_handle { buffer = some b }, minus_enomem))
            × ((size : ℕ) × (generous.grants resize size ≡ false))))
avio_seek_empty_example =
    avio_seek_empty generous calm fresh_handle 9 seek_set fresh_handle-MemoryBacked tt refl
      (omega arith)
