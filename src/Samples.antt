-- ===== src/Samples.antt =====
-- Concrete allocators, systems, buffers and handles for the tests of the components.
use audio_fs.Base.{◌+◌, refl, true, false, [], ◌∷◌, none, some, arith}
use audio_fs.Base.Int.{pos, negsuc}
use audio_fs.Memory.{Allocator, Block}
use audio_fs.Buffer.{Buffer, magic_a}
use audio_fs.Buffer.Valid.{IsValid}
use audio_fs.Avio.{Handle, Posix}
use audio_fs.Avio.Transfer.Laws.{MemoryBacked}
use audio_fs.Avio.Transfer.Replay.{Fresh}

-- Memory is always granted; what is not cleared holds 7.
abbrev pub generous : Allocator
generous = record { grants = λ r n. true; garbage = λ i. 7 }

-- Memory is never granted.
abbrev pub stingy : Allocator
stingy = record { grants = λ r n. false; garbage = λ i. 7 }

-- A system whose calls succeed.
abbrev pub calm : Posix
calm = record {
  read = λ fd n. (pos 2, 8 ∷ 9 ∷ []);
  write = λ fd buf n. pos n;
  lseek = λ fd offset whence. offset;
  fstat_size = λ fd. some (pos 2);
  open_file = λ name. pos 5;
}

-- A system whose calls fail.
abbrev pub broken : Posix
broken = record {
  read = λ fd n. (negsuc 0, []);
  write = λ fd buf n. negsuc 0;
  lseek = λ fd offset whence. negsuc 0;
  fstat_size = λ fd. none;
  open_file = λ name. negsuc 0;
}

-- Four bytes, 10, 11, 12, 13.
abbrev pub four : Block
four = record { size = 4; byte = λ i. 10 + i }

abbrev pub small_buffer : Buffer
small_buffer = record {
  address = 64;
  cookie = magic_a;
  block = some four;
  len = 4;
  lock = false;
  self = 64;
  used_outside_audiofs = false;
}

pub small_buffer-IsValid : IsValid small_buffer
small_buffer-IsValid = record { cookie_set = refl; self_set = refl; unlocked = refl; sized = refl }

-- A handle in memory that has just been opened.
abbrev pub fresh_handle : Handle
fresh_handle = record {
  file = pos 0;
  in_memory = true;
  buffer = some small_buffer;
  apparent_size = 0;
  position = 0;
}

-- Three bytes have been written, and one of them has been passed.
abbrev pub used_handle : Handle
used_handle = record fresh_handle { apparent_size = 3; position = 1 }

pub fresh_handle-MemoryBacked : MemoryBacked fresh_handle small_buffer
fresh_handle-MemoryBacked = record {
  memory = refl;
  held = refl;
  valid = small_buffer-IsValid;
  nonempty = omega arith;
}

pub used_handle-MemoryBacked : MemoryBacked used_handle small_buffer
used_handle-MemoryBacked = record {
  memory = refl;
  held = refl;
  valid = small_buffer-IsValid;
  nonempty = omega arith;
}

pub fresh_handle-Fresh : Fresh generous fresh_handle small_buffer
fresh_handle-Fresh = record {
  backed = fresh_handle-MemoryBacked;
  at_start = refl;
  no_size = refl;
  granted = λ n. refl;
}
