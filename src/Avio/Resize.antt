-- ===== src/Avio/Resize.antt =====
-- audiofs_avio_resize_to of native/custom_avio.c: the growth steps and the loop.
pub mod Laws
use audio_fs.Base.{
  ℕ, zero, suc, ◌+◌, ◌*◌, ◌/◌, Bool, true, false, none, some, ltb, leb, ◌==◌, if◌then◌else◌,
}
use audio_fs.Base.Int.{ℤ, pos, negsuc}
use audio_fs.Word.{u64, c_max}
use audio_fs.Memory.{Outcome, done, fault, spent, ◌>>=◌, Allocator}
use audio_fs.Buffer.{Buffer, buffer_realloc}
use audio_fs.Avio.{Handle, int64_max}

abbrev pub kib64 : ℕ
kib64 = 1024 * 64

abbrev pub mib : ℕ
mib = 1024 * 1024

abbrev pub mib16 : ℕ
mib16 = 16 * 1024 * 1024

-- The four assignments of `new_size`, in the order of the code.
unfoldable pub next_size : ℕ → ℕ
next_size len =
    let a = if leb mib16 len then u64 (len + mib16) else 0 in
    let b = if ltb len mib16 then mib16 else a in
    let c = if ltb len mib then mib else b in if ltb len kib64 then kib64 else c

-- The loop of audiofs_avio_resize_to over the handle's buffer, with the value that it returns.
unfoldable pub resize_loop : Allocator → ℕ → ℕ → Buffer → Outcome (Buffer × ℤ)
resize_loop mem zero buf_size b = spent
resize_loop mem (suc fuel) buf_size b = elim (ltb b.len (c_max buf_size b.len)) [
  | false ↦ done (b, pos 0)
  | true ↦ elim (ltb int64_max buf_size) [
    | true ↦ done (b, negsuc 0)
    | false ↦ elim (next_size b.len == 0) [
      | true ↦ done (b, negsuc 0)
      | false ↦ buffer_realloc mem b (next_size b.len) >>= λ r. elim r.1 [
        | true ↦ resize_loop mem fuel buf_size r.0
        | false ↦ done (r.0, negsuc 0)
      ]
    ]
  ]
]

-- Rounds for every size that the loop can be asked for.
abbrev pub enough : ℕ → ℕ
enough buf_size = buf_size / mib16 + 5

-- audiofs_avio_resize_to
unfoldable pub resize_to : Allocator → Handle → ℕ → Outcome (Handle × ℤ)
unfolding resize_loop
resize_to mem h buf_size = elim h.buffer [
  | none ↦ fault
  | some b ↦ resize_loop mem (enough buf_size) buf_size b >>= λ r.
      done (record h { buffer = some r.0 }, r.1)
]
