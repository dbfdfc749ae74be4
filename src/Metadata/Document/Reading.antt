-- ===== src/Metadata/Document/Reading.antt =====
-- What a reader finds in the document of a run of get_metadate_from_file that returns one.
use audio_fs.Transcode.Session.{Session}
