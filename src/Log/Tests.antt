-- ===== src/Log/Tests.antt =====
-- The log at concrete calls.
use audio_fs.Base.{◌≡◌, refl, false, [], ◌∷◌, none, some, List}
use audio_fs.Base.Int.{pos}
use audio_fs.Memory.{done}
use audio_fs.Samples.{generous, stingy}
use audio_fs.Log.{
  severity_of, Logger, LogCall, set_level, log, log_calls, error, warn, info, debug, as_info,
  as_error,
}
use audio_fs.Log.Sequence.{Logged, heard, log_calls_lem}

-- The variables as the program starts with them.
abbrev at_start : Logger
at_start = record {
  go_log_mutex = false;
  go_log_buffer = none;
  go_log_buffer_len = 0;
  go_log_level = pos 0;
  entries = [];
  complaints = 0;
  lost = 0;
}

-- The level of the second line is not listened to, and memory is refused for the third.
abbrev four_lines : List LogCall
four_lines =
    set_level (pos 4)
    ∷ log generous info (some (b'a' ∷ b'b' ∷ []))
    ∷ log generous debug (some (b'c' ∷ []))
    ∷ log stingy warn (some (b'd' ∷ []))
    ∷ log generous error (some (b'e' ∷ []))
    ∷ []

four_lines-heard :
    heard (pos 0) four_lines ≡ (as_info, b'a' ∷ b'b' ∷ []) ∷ (as_error, b'e' ∷ []) ∷ []
unfolding severity_of
four_lines-heard = refl

log_calls_lem_example :
    (s' : Logger) × (log_calls four_lines at_start ≡ done s') × Logged four_lines at_start s'
log_calls_lem_example = log_calls_lem four_lines at_start refl refl refl
