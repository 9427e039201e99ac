-- ===== src/Log.antt =====
-- src/log.c: the names of priorities and facilities, and where a message goes.
pub mod Names
mod Tests
use fanpico.Base.{
  ℕ, Bool, true, false, not, ◌&&◌, Option, none, some, List, [], ◌∷◌, ◌==◌, if◌then◌else◌,
}
use fanpico.Base.Int.{ℤ, pos, negsuc, ltb_ℤ}
use fanpico.Base.Text.{codes, strcasecmp_eq}

-- A table of codes and names, which ends where the name is NULL.
abbrev pub Table : Type 0
Table = List (ℕ × List ℕ)

abbrev pub log_priorities : Table
log_priorities =
    (0, codes "EMERG")
    ∷ (1, codes "ALERT")
    ∷ (2, codes "CRIT")
    ∷ (3, codes "ERR")
    ∷ (4, codes "WARNING")
    ∷ (5, codes "NOTICE")
    ∷ (6, codes "INFO")
    ∷ (7, codes "DEBUG")
    ∷ []

abbrev pub log_facilities : Table
log_facilities =
    (0, codes "KERN")
    ∷ (1, codes "USER")
    ∷ (2, codes "MAIL")
    ∷ (3, codes "DAEMON")
    ∷ (4, codes "AUTH")
    ∷ (5, codes "SYSLOG")
    ∷ (6, codes "LPR")
    ∷ (7, codes "NEWS")
    ∷ (8, codes "UUCP")
    ∷ (9, codes "CRON")
    ∷ (10, codes "AUTHPRIV")
    ∷ (11, codes "FTP")
    ∷ (16, codes "LOCAL0")
    ∷ (17, codes "LOCAL1")
    ∷ (18, codes "LOCAL2")
    ∷ (19, codes "LOCAL3")
    ∷ (20, codes "LOCAL4")
    ∷ (21, codes "LOCAL5")
    ∷ (22, codes "LOCAL6")
    ∷ (23, codes "LOCAL7")
    ∷ []

-- The loop of the two functions from names to codes.
unfoldable pub code_of : Table → List ℕ → ℤ
code_of [] name = negsuc 0
code_of ((c, n) ∷ t) name =
    let rest = code_of t name in if strcasecmp_eq n name then pos c else rest

-- The loop of the two functions from codes to names.
unfoldable pub name_of : Table → ℤ → Option (List ℕ)
name_of [] code = none
name_of ((c, n) ∷ t) (negsuc k) = name_of t (negsuc k)
name_of ((c, n) ∷ t) (pos k) = let rest = name_of t (pos k) in if c == k then some n else rest

unfoldable pub str2log_priority : Option (List ℕ) → ℤ
unfolding code_of
str2log_priority none = negsuc 1
str2log_priority (some pri) = code_of log_priorities pri

unfoldable pub log_priority2str : ℤ → Option (List ℕ)
unfolding name_of
log_priority2str pri = name_of log_priorities pri

unfoldable pub str2log_facility : Option (List ℕ) → ℤ
unfolding code_of
str2log_facility none = negsuc 1
str2log_facility (some facility) = code_of log_facilities facility

unfoldable pub log_facility2str : ℤ → Option (List ℕ)
unfolding name_of
log_facility2str facility = name_of log_facilities facility

-- The globals, which the `get_` and `set_` functions read and write.
pub record LogLevels : Type 0 where
  pub global_debug_level : ℤ
  pub global_log_level : ℤ
  pub global_syslog_level : ℤ

unfoldable pub set_log_level : ℤ → LogLevels → LogLevels
set_log_level level s = record s { global_log_level = level }

unfoldable pub set_syslog_level : ℤ → LogLevels → LogLevels
set_syslog_level level s = record s { global_syslog_level = level }

unfoldable pub set_debug_level : ℤ → LogLevels → LogLevels
set_debug_level level s = record s { global_debug_level = level }

-- The text without a newline at its end.
unfoldable pub strip_newline : List ℕ → List ℕ
strip_newline [] = []
strip_newline (c ∷ []) = if c == 10 then [] else c ∷ []
strip_newline (c ∷ d ∷ s) = c ∷ strip_newline (d ∷ s)

-- The messages for the console and for the syslog server. `text` is what `vsnprintf` makes of the
-- arguments, at most 255 bytes.
unfoldable pub log_msg : LogLevels → ℤ → List ℕ → Option (List ℕ) × Option (List ℕ)
log_msg s priority text =
    let buf = strip_newline text in
    if ltb_ℤ s.global_log_level priority && ltb_ℤ s.global_syslog_level priority
    then (none, none)
    else (
      if ltb_ℤ s.global_log_level priority then none else some buf,
      if ltb_ℤ s.global_syslog_level priority then none else some buf,
    )

-- Whether a debug message is printed.
unfoldable pub debug : LogLevels → ℤ → Bool
debug s debug_level = not (ltb_ℤ s.global_debug_level debug_level)
