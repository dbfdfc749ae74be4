-- ===== src/Avio.antt =====
-- The AVIO handle of native/custom_avio.h, and what native/custom_avio.c takes from the system. The
-- children hold its operations: a call returns the handle changed, beside the C result.
pub mod Resize
pub mod Transfer
pub mod Seek
pub mod Open
mod Tests
use audio_fs.Base.{ℕ, ◌-◌, ◌^◌, Bool, List, Option}
use audio_fs.Base.Int.{ℤ}
use audio_fs.Buffer.{Buffer}

-- struct audiofs_avio_handle
pub record Handle : Type 0 where
  pub file : ℤ
  pub in_memory : Bool
  pub buffer : Option Buffer
  pub apparent_size : ℕ
  pub position : ℕ

abbrev pub int32_max : ℕ
int32_max = 2 ^ 31 - 1

abbrev pub int64_max : ℕ
int64_max = 2 ^ 63 - 1

-- The third argument of a seek.
pub data Whence : Type 0 where
  seek_cur seek_set seek_end : Whence
  other_whence : ℕ → Whence

-- The system calls on a file that is not held in memory, which are not part of the program: a read
-- gives its result and the bytes that it put into the buffer, fstat nothing where it fails.
pub record Posix : Type 0 where
  pub read : ℤ → ℕ → ℤ × List ℕ
  pub write : ℤ → List ℕ → ℕ → ℤ
  pub lseek : ℤ → ℤ → Whence → ℤ
  pub fstat_size : ℤ → Option ℤ
  pub open_file : List ℕ → ℤ
