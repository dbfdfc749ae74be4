-- ===== src/Resampler.antt =====
-- native/resampler.c: the names of the dithers, and the options that are set on a resampler.
pub mod Dither
pub mod Options
pub mod Support
mod Tests
