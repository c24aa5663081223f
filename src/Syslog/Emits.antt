-- ===== src/Syslog/Emits.antt =====
-- What a log event comes to.
use ubgp.Base.{
  ℕ, zero, suc, Option, ◌≡◌, ◌≤◌, ◌∙◌, refl, sym, ap, Bool, true, false, none, some, List, [], ◌∷◌,
  ◌++◌, ◌==◌, is_empty, if◌then◌else◌, ok, All, arith, append-nil, append_assoc,
}
use ubgp.Syslog.{
  Level, error_level, warn_level, info_level, debug_level, trace_level, Priority, log_err,
  log_warning, log_info, log_debug, LogEvent, priority_of, make_writer_for, sanitized, sanitize,
  has_nul, write, c_string, drop_event, write_each, log_event,
}

-- All that is written.
abbrev pub joined : List (List ℕ) → List ℕ
joined [] = []
joined (bytes ∷ writes) = bytes ++ joined writes

-- The byte that stands for a byte of the event in the C string: '?' for NUL, and itself for others.
pub shown_as : ℕ → ℕ
shown_as zero = 63
shown_as (suc b) = suc b

pub as_text : List ℕ → List ℕ
as_text [] = []
as_text (b ∷ bytes) = shown_as b ∷ as_text bytes

-- The numbers of syslog(3): LOG_ERR 3, LOG_WARNING 4, LOG_INFO 6, LOG_DEBUG 7.
pub number_of : Priority → ℕ
number_of log_err = 3
number_of log_warning = 4
number_of log_info = 6
number_of log_debug = 7

-- The number for each level.
pub syslog_level : Level → ℕ
syslog_level error_level = 3
syslog_level warn_level = 4
syslog_level info_level = 6
syslog_level debug_level = 7
syslog_level trace_level = 7

-- What syslog is given of `text` at a level: nothing of no bytes, and otherwise one message.
abbrev pub IsMessage : Level → List ℕ → Option (Priority × List ℕ) → Type 0
IsMessage level [] emitted = emitted ≡ none
IsMessage level (b ∷ bytes) none = ⊥
IsMessage level (b ∷ bytes) (some (priority, text)) =
    (number_of priority ≡ syslog_level level) × (text ≡ as_text (b ∷ bytes)) × All (λ b. 1 ≤ b) text

not_zero : (b : ℕ) → 1 ≤ b → (b == 0) ≡ false
not_zero b h = ground arith

sanitize-as_text : (bytes : List ℕ) → sanitize bytes ≡ as_text bytes
unfolding as_text shown_as
sanitize-as_text [] = refl
sanitize-as_text (zero ∷ bytes) = ap (λ t. 63 ∷ t) (sanitize-as_text bytes)
sanitize-as_text (suc b ∷ bytes) =
    rw (not_zero (suc b) (omega arith)) (ap (λ t. suc b ∷ t) (sanitize-as_text bytes))

number_of-priority_of : (level : Level) → number_of (priority_of level) ≡ syslog_level level
unfolding number_of syslog_level
number_of-priority_of error_level = refl
number_of-priority_of warn_level = refl
number_of-priority_of info_level = refl
number_of-priority_of debug_level = refl
number_of-priority_of trace_level = refl

sanitize-append : (xs ys : List ℕ) → sanitize (xs ++ ys) ≡ sanitize xs ++ sanitize ys
sanitize-append [] ys = refl
sanitize-append (x ∷ xs) ys = ap (λ t. sanitized x ∷ t) (sanitize-append xs ys)

sanitized_positive : (b : ℕ) → 1 ≤ sanitized b
sanitized_positive b = ground arith

sanitize-positive : (bytes : List ℕ) → All (λ b. 1 ≤ b) (sanitize bytes)
sanitize-positive [] = tt
sanitize-positive (b ∷ bytes) = (sanitized_positive b, sanitize-positive bytes)

has_nul-sanitize : (bytes : List ℕ) → has_nul (sanitize bytes) ≡ false
has_nul-sanitize [] = refl
has_nul-sanitize (b ∷ bytes) =
    rw (not_zero (sanitized b) (sanitized_positive b)) (has_nul-sanitize bytes)

is_empty-sanitize : (bytes : List ℕ) → is_empty (sanitize bytes) ≡ is_empty bytes
is_empty-sanitize [] = refl
is_empty-sanitize (b ∷ bytes) = refl

both_ok : {A : Type 0} (b : Bool) (x y : A) → (if b then ok x else ok y) ≡ ok (if b then x else y)
both_ok true x y = refl
both_ok false x y = refl

emitted_lem :
    (level : Level) (bytes : List ℕ)
    → IsMessage level bytes
        (if is_empty bytes then none else some (priority_of level, sanitize bytes))
emitted_lem level [] = refl
emitted_lem level (b ∷ bytes) =
    (number_of-priority_of level, sanitize-as_text (b ∷ bytes), sanitize-positive (b ∷ bytes))

write_each-sanitize :
    (writes : List (List ℕ)) (e : LogEvent)
    → write_each writes e ≡ record e { bytes = e.bytes ++ sanitize (joined writes) }
unfolding write_each write
write_each-sanitize [] e = ap (λ bytes. record e { bytes = bytes }) (sym (append-nil e.bytes))
write_each-sanitize (bytes ∷ writes) e =
    write_each-sanitize writes _
    ∙ ap (λ bytes. record e { bytes = bytes })
        (append_assoc e.bytes (sanitize bytes) (sanitize (joined writes))
          ∙ ap (λ t. e.bytes ++ t) (sym (sanitize-append bytes (joined writes))))

-- However an event is cut into writes, its drop does not panic: it hands syslog all that was
-- written, in order, with '?' for each NUL and each other byte as it is, at the number that
-- syslog(3) has for its level, in one message without a NUL, or it hands it nothing when nothing
-- was written.
pub log_event-emits :
    (level : Level) (writes : List (List ℕ))
    → (emitted : Option (Priority × List ℕ)) × (log_event level writes ≡ ok emitted)
      × IsMessage level (joined writes) emitted
unfolding log_event drop_event c_string make_writer_for
log_event-emits level writes = (
  _,
  rw
      (
        write_each-sanitize writes (make_writer_for level),
        is_empty-sanitize (joined writes),
        has_nul-sanitize (joined writes),
      )
      (both_ok (is_empty (joined writes)) _ _),
  emitted_lem level (joined writes),
)
