-- ===== src/Settings/Tests.antt =====
-- The theorems on recipients and e-mail settings at concrete inputs.
use open_energy_data_server.Common.Dict
use open_energy_data_server.Settings.RateLimit.{
  is_recent, is_rate_limited, emit_all, Spaced, emit_all-Spaced,
}
use open_energy_data_server.Common.{String, ◌≡◌, refl, true, some, [], ◌∷◌, arith}
use open_energy_data_server.Yaml.{Value, bool, text, dict, Fields, end, field, get, has, put}
use open_energy_data_server.Settings.Recipients.{recipients_of_text}
use open_energy_data_server.Settings.EmailEnv.{EmailEnv, apply_email_env_overrides, email_setting}

abbrev no_text : Value → String
no_text _ = ""

split_example :
    recipients_of_text " ops@example.org; ,dev@example.org "
    ≡ "ops@example.org" ∷ "dev@example.org" ∷ []
unfolding recipients_of_text
split_example = refl

abbrev host_only : EmailEnv
host_only = record {
  toaddrs = "";
  mailhost = " smtp.example.org ";
  fromaddr = "";
  subject = "";
  username = "";
  password = "";
}

abbrev config_file : Fields
config_file =
    field "smard" (dict (field "enable" (bool true) end))
      (field "default" (dict (field "email" (dict (field "mailhost" (text "old") end)) end)) end)

host_overridden :
    email_setting "mailhost" (apply_email_env_overrides host_only config_file)
    ≡ some (text "smtp.example.org")
unfolding email_setting apply_email_env_overrides get has put
host_overridden = refl

-- of four records the first and the third are sent
emit_all-Spaced_example : Spaced 60 (emit_all "errors" 60 (100 ∷ 130 ∷ 165 ∷ 170 ∷ []) [])
emit_all-Spaced_example = emit_all-Spaced "errors" 60 (100 ∷ 130 ∷ 165 ∷ 170 ∷ []) [] (ground arith)

sent_times : emit_all "errors" 60 (100 ∷ 130 ∷ 165 ∷ 170 ∷ []) [] ≡ 100 ∷ 165 ∷ []
unfolding emit_all is_rate_limited is_recent Dict.get Dict.put
sent_times = refl
