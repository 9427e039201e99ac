-- ===== src/Log/Names.antt =====
-- src/log.c: names are read back as the codes they stand for, and the levels decide what is logged.
use fanpico.Base.{
  ◌++◌, ◌≢◌, refl, ap, ◌∙◌, false, Option, ℕ, ◌≡◌, arith, Bool-cases, inl, inr, none, some, List,
  [], ◌∷◌, All, ◌==◌, if◌then◌else◌,
}
use fanpico.Base.Int.{ℤ, pos, ltb_ℤ}
use fanpico.Base.Text.{strcasecmp_eq}
use mathlib.Core.Path.{subst}
use fanpico.Log.{
  Table, log_priorities, log_facilities, code_of, name_of, str2log_priority, log_priority2str,
  str2log_facility, log_facility2str, LogLevels, log_msg, strip_newline,
}

-- What holds of every row holds of a row that is found.
name_of_row :
    (P : ℕ × List ℕ → Type 0) (t : Table) (c : ℕ) (s : List ℕ)
    → All P t
    → name_of t (pos c) ≡ some s
    → P (c, s)
unfolding name_of
name_of_row P [] c s h e = absurd (ground arith)
name_of_row P ((d, n) ∷ t) c s (p, ps) e = elim (Bool-cases (d == c)) [
  | inl here ↦
      let code : d ≡ c = ground arith in
      let found : some n ≡ some s = rw here at e in
      let name : n ≡ s = ground arith in subst (λ z. P (z, s)) code (subst (λ z. P (d, z)) name p)
  | inr later ↦ name_of_row P t c s ps (rw later at e)
]

abbrev RowsRead : Table → Table → Type 0
RowsRead whole t = All (λ r. code_of whole r.1 ≡ pos r.0) t

priorities-RowsRead : RowsRead log_priorities log_priorities
unfolding code_of strcasecmp_eq
priorities-RowsRead = ground arith

facilities-RowsRead : RowsRead log_facilities log_facilities
unfolding code_of strcasecmp_eq
facilities-RowsRead = ground arith

-- The name that is printed for a priority, or for a facility, is read back as its code.
pub log_names_round_trip :
    (p f : ℕ) (s t : List ℕ)
    → log_priority2str (pos p) ≡ some s
    → log_facility2str (pos f) ≡ some t
    → (str2log_priority (some s) ≡ pos p) × (str2log_facility (some t) ≡ pos f)
unfolding str2log_priority log_priority2str str2log_facility log_facility2str
log_names_round_trip p f s t h k = (
  name_of_row (λ r. code_of log_priorities r.1 ≡ pos r.0) log_priorities p s priorities-RowsRead h,
  name_of_row (λ r. code_of log_facilities r.1 ≡ pos r.0) log_facilities f t facilities-RowsRead k,
)

one_newline : (t : List ℕ) → strip_newline (t ++ (10 ∷ [])) ≡ t
unfolding strip_newline
one_newline [] = refl
one_newline (c ∷ []) = refl
one_newline (c ∷ d ∷ t) = ap (λ s. c ∷ s) (one_newline (d ∷ t))

no_newline : (t : List ℕ) (c : ℕ) → c ≢ 10 → strip_newline (t ++ (c ∷ [])) ≡ t ++ (c ∷ [])
unfolding strip_newline
no_newline [] c h = let other : (c == 10) ≡ false = ground arith in rw other refl
no_newline (x ∷ []) c h = let other : (c == 10) ≡ false = ground arith in rw other refl
no_newline (x ∷ y ∷ t) c h = ap (λ s. x ∷ s) (no_newline (y ∷ t) c h)

-- A text to the console where its priority is not above the log level, and to the syslog server
-- where it is not above the syslog level.
abbrev pub sent : LogLevels → ℤ → List ℕ → Option (List ℕ) × Option (List ℕ)
sent s priority t = (
  if ltb_ℤ s.global_log_level priority then none else some t,
  if ltb_ℤ s.global_syslog_level priority then none else some t,
)

log_msg-sent :
    (s : LogLevels) (priority : ℤ) (text : List ℕ)
    → log_msg s priority text ≡ sent s priority (strip_newline text)
unfolding log_msg
log_msg-sent s priority text = ground arith

-- A text with a newline behind it is sent without this newline, and a text whose last byte is none
-- is sent as it is: to the console exactly if its priority is not above the log level, and to the
-- syslog server exactly if it is not above the syslog level.
pub log_msg_outputs :
    (s : LogLevels) (priority : ℤ) (text : List ℕ) (last : ℕ)
    → last ≢ 10
    → (log_msg s priority (text ++ (10 ∷ [])) ≡ sent s priority text)
      × (log_msg s priority (text ++ (last ∷ [])) ≡ sent s priority (text ++ (last ∷ [])))
log_msg_outputs s priority text last h = (
  log_msg-sent s priority (text ++ (10 ∷ [])) ∙ ap (sent s priority) (one_newline text),
  log_msg-sent s priority (text ++ (last ∷ [])) ∙ ap (sent s priority) (no_newline text last h),
)
