-- ===== src/Avio/Seek.antt =====
-- audiofs_avio_seek of native/custom_avio.c.
pub mod Laws
use audio_fs.Base.{ℕ, ◌+◌, Bool, true, false, Option, none, some, ◌==◌, if◌then◌else◌}
use audio_fs.Base.Int.{ℤ, pos, negsuc, is_neg, is_nonzero}
use audio_fs.Word.{u64, to_u64, to_int64, within_bounds}
use audio_fs.Memory.{Outcome, done, ◌>>=◌, Allocator}
use audio_fs.Avio.{Handle, Posix, Whence, seek_cur, seek_set, seek_end, other_whence}
use audio_fs.Avio.Resize.{resize_to}

-- -EINVAL and -ENOMEM
abbrev pub minus_einval : ℤ
minus_einval = negsuc 21

abbrev pub minus_enomem : ℤ
minus_enomem = negsuc 11

-- The switch over `whence`: the target offset, or nothing where it returns -EINVAL.
unfoldable pub target_offset : Handle → ℕ → Whence → Option ℤ
target_offset h offset seek_cur = some (to_int64 (u64 (h.position + offset)))
target_offset h offset seek_set = some (pos offset)
target_offset h offset seek_end =
    let target = to_int64 (u64 (h.apparent_size + offset)) in
    if is_neg target then none else some target
target_offset h offset (other_whence n) = none

-- What follows the switch.
unfoldable pub seek_to : Allocator → Handle → ℤ → Outcome (Handle × ℤ)
unfolding within_bounds
seek_to mem h target =
    if within_bounds target h.apparent_size == 0
    then (resize_to mem h (to_u64 target) >>= λ r.
        if is_nonzero r.1
        then done (r.0, minus_enomem)
        else done (record (r.0) { position = to_u64 target }, target))
    else done (record h { position = to_u64 target }, target)

-- audiofs_avio_seek
unfoldable pub avio_seek : Allocator → Posix → Handle → ℤ → Whence → Outcome (Handle × ℤ)
unfolding target_offset seek_to
avio_seek mem os h (negsuc n) whence = done (h, negsuc 0)
avio_seek mem os h (pos n) whence =
    if h.in_memory
    then elim (target_offset h n whence) [
      | none ↦ done (h, minus_einval)
      | some target ↦ seek_to mem h target
    ]
    else done (h, os.lseek h.file (pos n) whence)
