-- ===== src/Tests/LogLines.antt =====
-- A log line with a token among its attributes.
use task_platform.Common.{◌≡◌, refl, true, false, none, [], ◌∷◌, codes, text_eq, remove_prefix?}
use task_platform.Common.Dict
use task_platform.Common.Dict.{Dict, Key, text_key}
use task_platform.StructuredLog.{
  log_text, LogEntry, Logging, run_id_key, core_fields, is_sensitive, payload_of,
}
use task_platform.StructuredLog.Redacted.{IsRedacted, payload_of_lem}

abbrev plain_logging : Logging
plain_logging = record { lower = λ t. t; is_standard = λ key. false }

abbrev line : LogEntry
line = record {
  timestamp = codes "t";
  level = codes "INFO";
  name = codes "task_platform.job.r1";
  message = codes "hi";
  attributes = (codes "token", log_text (codes "abc")) ∷ (codes "level", log_text (codes "x")) ∷ [];
  exception = none;
}

token_is_sensitive : is_sensitive plain_logging (codes "token") ≡ true
unfolding is_sensitive remove_prefix?
token_is_sensitive = refl

token_is_new : Dict.has (core_fields (codes "api") line) (codes "token") ≡ false
unfolding Dict.has Dict.get text_eq
token_is_new = refl

level_is_core : Dict.has (core_fields (codes "api") line) (codes "level") ≡ true
unfolding Dict.has Dict.get text_eq
level_is_core = refl

not_run_id : text_eq run_id_key (codes "token") ≡ false
unfolding text_eq
not_run_id = refl

not_exception : text_eq (codes "exception") (codes "token") ≡ false
unfolding text_eq
not_exception = refl

payload_of_lem_example :
    IsRedacted (Dict.get (payload_of plain_logging (codes "api") line) (codes "token"))
    × (Dict.get (payload_of plain_logging (codes "api") line) (codes "level")
        ≡ Dict.get (core_fields (codes "api") line) (codes "level"))
payload_of_lem_example =
    payload_of_lem plain_logging (codes "api") line (codes "token") (codes "level")
      token_is_sensitive token_is_new not_run_id not_exception level_is_core
