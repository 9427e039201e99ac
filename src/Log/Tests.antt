-- ===== src/Log/Tests.antt =====
-- src/log.c: tests, and the theorems at inputs.
use fanpico.Base.{◌++◌, ◌∷◌, [], arith, ◌≡◌, refl, some, none}
use fanpico.Base.Int.{pos, negsuc}
use fanpico.Base.Text.{codes, strcasecmp_eq}
use fanpico.Log.{
  LogLevels, log_msg, str2log_priority, log_priority2str, str2log_facility, log_facility2str,
}
use fanpico.Log.Names.{log_names_round_trip, log_msg_outputs}

lower_case : str2log_facility (some (codes "local0")) ≡ pos 16
unfolding str2log_facility strcasecmp_eq
lower_case = refl

unknown : str2log_priority (some (codes "ERROR")) ≡ negsuc 0
unfolding str2log_priority strcasecmp_eq
unknown = refl

log_names_round_trip_example :
    (str2log_priority (some (codes "ERR")) ≡ pos 3)
    × (str2log_facility (some (codes "FTP")) ≡ pos 11)
unfolding log_priority2str log_facility2str
log_names_round_trip_example = log_names_round_trip 3 11 (codes "ERR") (codes "FTP") refl refl

abbrev levels : LogLevels
levels = record {
  global_debug_level = pos 0;
  global_log_level = pos 3;
  global_syslog_level = pos 5;
}

log_msg_outputs_example :
    (log_msg levels (pos 4) (codes "Warm star" ++ (10 ∷ [])) ≡ (none, some (codes "Warm star")))
    × (log_msg levels (pos 4) (codes "Warm star" ++ (b't' ∷ []))
        ≡ (none, some (codes "Warm start")))
log_msg_outputs_example = log_msg_outputs levels (pos 4) (codes "Warm star") b't' (ground arith)
