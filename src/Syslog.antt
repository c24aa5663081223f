-- ===== src/Syslog.antt =====
-- The writer of src/daemon.rs that buffers one log event and hands it to syslog when it is dropped.
-- Severities and priorities are those of `tracing` and of syslog(3). What is emitted is the
-- priority with the bytes of the C string.
pub mod Emits
use ubgp.Base.{
  ℕ, Bool, true, false, not, Option, none, some, List, [], ◌∷◌, ◌++◌, if◌then◌else◌, ◌==◌, length,
  is_empty, ◌||◌, Result, ok, panic, ◌>>=◌,
}

pub data Level : Type 0 where
  error_level warn_level info_level debug_level trace_level : Level

pub data Priority : Type 0 where
  log_err log_warning log_info log_debug : Priority

-- `Event`
pub record LogEvent : Type 0 where
  pub bytes : List ℕ
  pub priority : Priority

-- `make_writer`
abbrev pub make_writer : LogEvent
make_writer = record { bytes = []; priority = log_info }

-- The `match` of `make_writer_for`.
abbrev pub priority_of : Level → Priority
priority_of error_level = log_err
priority_of warn_level = log_warning
priority_of info_level = log_info
priority_of debug_level = log_debug
priority_of trace_level = log_debug

unfoldable pub make_writer_for : Level → LogEvent
make_writer_for level = record { bytes = []; priority = priority_of level }

-- `b'?'` for a NUL.
abbrev pub sanitized : ℕ → ℕ
sanitized b = if b == 0 then 63 else b

abbrev pub sanitize : List ℕ → List ℕ
sanitize [] = []
sanitize (b ∷ bytes) = sanitized b ∷ sanitize bytes

-- `Event::write`, which takes all bytes.
unfoldable pub write : List ℕ → LogEvent → ℕ × LogEvent
write bytes e = (length bytes, record e { bytes = e.bytes ++ sanitize bytes })

abbrev pub has_nul : List ℕ → Bool
has_nul [] = false
has_nul (b ∷ bytes) = (b == 0) || has_nul bytes

-- `CString::new(..).expect(..)`
unfoldable pub c_string : List ℕ → Result (List ℕ)
c_string bytes = if has_nul bytes then panic else ok bytes

-- `Event::drop`, with what syslog is given.
unfoldable pub drop_event : LogEvent → Result (Option (Priority × List ℕ))
drop_event e =
    if is_empty e.bytes then ok none else (do text ← c_string e.bytes; ok (some (e.priority, text)))

-- The life of one event: its writes, of what the formatter has left each time, and its drop.
unfoldable pub write_each : List (List ℕ) → LogEvent → LogEvent
write_each [] e = e
write_each (bytes ∷ writes) e = write_each writes (write bytes e).1

unfoldable pub log_event : Level → List (List ℕ) → Result (Option (Priority × List ℕ))
log_event level writes = drop_event (write_each writes (make_writer_for level))
