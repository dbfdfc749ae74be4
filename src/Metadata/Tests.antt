-- ===== src/Metadata/Tests.antt =====
-- get_metadate_from_file at concrete files.
use audio_fs.Base.{
  ◌++◌, map, ◌+◌, ◌%◌, List, ℕ, ◌≡◌, refl, true, false, [], ◌∷◌, Option, none, some, arith, Bool,
}
use audio_fs.Base.Int.{pos, negsuc}
use audio_fs.Memory.{Outcome, done, fault, zeroed}
use audio_fs.Buffer.{magic_a, buffer_alloc}
use audio_fs.Avio.{Handle}
use audio_fs.Avio.Open.{memory_name, avio_get_size, avio_open}
use audio_fs.Samples.{generous, calm}
use audio_fs.Transcode.{Ffmpeg, World, is_end}
use audio_fs.Transcode.Session.{Session, Answers, Willing}
use audio_fs.Transcode.Main.{transcode_packets}
use audio_fs.Transcode.Slots.{slots}
use audio_fs.Metadata.Fingerprint.{read_print}
use audio_fs.Metadata.Fingerprint.Laws.{write_all-read_print}
use audio_fs.Avio.Transfer.Sequence.{write_all}
use audio_fs.Metadata.Fingerprint.Chunks.{chunks-read_print}
use audio_fs.Avio.Open.{avio_close}
use audio_fs.Avio.{Handle}
use audio_fs.Samples.{fresh_handle, fresh_handle-Fresh}
use audio_fs.Metadata.{MediaFile}
use audio_fs.Metadata.File.{literal_empty, dumped, Left, get_metadate_from_file}
use audio_fs.Metadata.File.Laws.{audio_streams}
use audio_fs.Metadata.File.Returns.{get_metadate_from_file_lem}
use audio_fs.Metadata.Owned.{owned}
use audio_fs.Metadata.Go.{get_metadata_from_file, get_metadata_from_file_fault}
use audio_fs.Metadata.Success.{PrintedOnce}
use audio_fs.Metadata.Whole.{metadata_of, metadata_of_error_fault}
use audio_fs.Metadata.Samples.{
  no_session, flac, flac_stream, cover_stream, song, two_letters, transcoded, prints,
}
use audio_fs.Metadata.Document.Contents.{Fingerprint}

get_metadate_from_file_lem_example :
    (o : Left) × (get_metadate_from_file calm (λ n. true) transcoded song no_session
      ≡ done (o, dumped))
    × (owned (λ r. 0) o.calls ≡ none)
    × (o.arrays ≡ 0)
    × (o.prints ≡ audio_streams (flac_stream ∷ cover_stream ∷ []))
get_metadate_from_file_lem_example =
    get_metadate_from_file_lem calm (λ n. true) transcoded song no_session refl refl refl
      (omega arith) prints

abbrev missing : MediaFile
missing = record song { open_code = negsuc 1 }

-- A pipeline whose encoder refuses every frame.
abbrev mute : Ffmpeg
mute = record slots { send_frame = λ e f. (e, negsuc 21) }

abbrev mute_loaded : World mute
mute_loaded = record { demuxer = some 30; decoder = none; graph = none; encoder = none; muxer = [] }

abbrev agreeing : Answers
agreeing = record { gives = λ n. true; code = λ c. pos 0; nofile = false }

agreeing-Willing : Willing agreeing
agreeing-Willing = record { given = λ n. refl; fine = λ c. refl; configured = refl }

memory_opened : avio_open generous calm 64 memory_name no_session.ledger ≡ (
  some (record {
    file = pos 0;
    in_memory = true;
    buffer = some (record {
      address = 64;
      cookie = magic_a;
      block = some (zeroed 1024);
      len = 1024;
      lock = false;
      self = 64;
      used_outside_audiofs = false;
    });
    apparent_size = 0;
    position = 0;
  }),
  record { handles = 1; buffers = 1; blocks = 1; files = 0 },
)
unfolding avio_open buffer_alloc
memory_opened = refl

mute_run :
    transcode_packets mute 3 0 mute_loaded ≡ done (record mute_loaded { demuxer = none }, negsuc 21)
unfolding transcode_packets is_end
mute_run = refl

metadata_of_error_fault_example :
    metadata_of mute
      (λ m h. h)
      generous
      calm
      (λ n. true)
      64
      3
      (λ i. agreeing)
      (λ i. mute_loaded)
      song
      no_session
    ≡ fault
metadata_of_error_fault_example =
    metadata_of_error_fault mute (λ m h. h) generous calm (λ n. true) 64 3 (λ i. agreeing)
      (λ i. mute_loaded) song no_session flac_stream (cover_stream ∷ []) flac refl refl refl refl
      refl refl agreeing-Willing refl memory_opened mute_run refl

-- The transcode goes well and writes nothing.
abbrev silent : Session → ℕ → Outcome (Session × Option Handle)
silent s i = done (s, some (record two_letters { apparent_size = 0; position = 0 }))

get_metadata_from_file_fault_example :
    ((o : Left) × (get_metadate_from_file calm (λ n. true) silent song no_session
        ≡ done (o, literal_empty)))
    × (get_metadata_from_file calm (λ n. true) silent true song no_session ≡ fault)
unfolding avio_get_size
get_metadata_from_file_fault_example =
    get_metadata_from_file_fault calm (λ n. true) silent true song no_session no_session flac_stream
      (cover_stream ∷ []) flac (record two_letters { apparent_size = 0; position = 0 }) refl refl
      refl (omega arith) refl refl refl refl refl

write_all-read_print_example :
    (h' : Handle) × (write_all generous calm fresh_handle ((65 ∷ 66 ∷ []) ∷ []) ≡ done (some h'))
    × (read_print calm (λ n. true) (no_session, some h')
        ≡ done
            (record no_session { ledger = avio_close h' no_session.ledger }, some (65 ∷ 66 ∷ [])))
write_all-read_print_example =
    write_all-read_print generous calm (λ n. true) no_session fresh_handle fresh_handle-Fresh 65
      (66 ∷ []) (omega arith) refl refl

chunks-read_print_example :
    (h' : Handle) × (rest : List ℕ) × (write_all generous calm fresh_handle
        ((65 ∷ 66 ∷ []) ∷ (67 ∷ []) ∷ [])
      ≡ done (some h'))
    × (read_print calm (λ n. true) (no_session, some h')
        ≡ done (
          record no_session { ledger = avio_close h' no_session.ledger },
          some ((67 ∷ 66 ∷ []) ++ rest),
        ))
chunks-read_print_example =
    chunks-read_print generous calm (λ n. true) no_session fresh_handle fresh_handle-Fresh 65
      (66 ∷ []) ((67 ∷ []) ∷ []) (omega arith) refl refl

-- A pipeline that works: the packet of stream 0 goes through, and the trailer behind it.
abbrev song_loaded : World slots
song_loaded = record { demuxer = some 30; decoder = none; graph = none; encoder = none; muxer = [] }

song_transcoded :
    transcode_packets slots 3 0 song_loaded
    ≡ done (record song_loaded { demuxer = none; muxer = 0 ∷ 30 ∷ [] }, pos 0)
unfolding transcode_packets is_end
song_transcoded = refl

-- The muxer hands on one letter for each packet, in one chunk.
abbrev letters_of : List ℕ → List (List ℕ)
letters_of m = map (λ p. 65 + p % 26) m ∷ []

abbrev handle_behind : Handle → Outcome (Option Handle) → Handle
handle_behind h (done (some h')) = h'
handle_behind h _ = h

abbrev written_letters : List ℕ → Handle → Handle
written_letters m h = handle_behind h (write_all generous calm h (letters_of m))

abbrev song_prints : PrintedOnce slots letters_of 3 0 agreeing song_loaded
song_prints = record {
  willing = agreeing-Willing;
  needs_file = refl;
  last = record song_loaded { demuxer = none; muxer = 0 ∷ 30 ∷ [] };
  ret = pos 0;
  run = song_transcoded;
  good = refl;
  head = 65;
  tail = 69 ∷ [];
  written_once = refl;
  short = omega arith;
  clean = refl;
}

-- Each text counts as UTF-8.
abbrev any_text : List ℕ → Bool
any_text t = true
