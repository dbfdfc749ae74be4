-- ===== src/Setup/Tests.antt =====
-- The set-up at a concrete allocator.
use audio_fs.Base.{◌≡◌, refl, true, false, [], ◌∷◌, arith}
use audio_fs.Memory.{done, blocked}
use audio_fs.Buffer.{Buffer, buffer_realloc}
use audio_fs.Buffer.Valid.{IsValid}
use audio_fs.Samples.{generous}
use audio_fs.Setup.{audiofs_libav_setup, owned_byte_slice}
use audio_fs.Setup.Laws.{audiofs_libav_setup-owned_byte_slice}

audiofs_libav_setup-owned_byte_slice_example :
    (b taken grown : Buffer) × (audiofs_libav_setup generous 64 ≡ done b)
    × (owned_byte_slice b ≡ done (taken, b't' ∷ b'e' ∷ b's' ∷ b't' ∷ 0 ∷ []))
    × (owned_byte_slice taken ≡ blocked)
    × (buffer_realloc generous taken 9 ≡ done (grown, true))
    × IsValid grown
    × (grown.len ≡ 9)
    × (grown.used_outside_audiofs ≡ false)
audiofs_libav_setup-owned_byte_slice_example =
    audiofs_libav_setup-owned_byte_slice generous 64 9 refl refl (omega arith) refl
