-- ===== src/Tests/Lines.antt =====
-- Runs of the syslog parser and the normalizers.
use ot_collector.Prelude.{◌≡◌, refl, none, some, Option, String, str_eq, if◌then◌else◌}
use ot_collector.GoText.{trim_space}
use ot_collector.Syslog.{Groups, Library, parse}
use ot_collector.Normalizers.{Context}
use ot_collector.Event.{Event, tag?}
use ot_collector.Normalizers.Plc.{apply_plc}
use ot_collector.Normalizers.Plc.Users.{apply_plc-user}
use ot_collector.Tests.{pump}
use ot_collector.Syslog.Parts.{IsParsed, parse-IsParsed}

abbrev groups : Groups
groups = record { digits = "165"; time = "-"; host = "plc1"; app = "openplc"; rest = " started" }

-- Expressions that know one line.
abbrev pub library : Library
library = record {
  rfc5424_re =
      λ (s : String). if str_eq s "<165>1 - plc1 openplc - - started" then some groups else none;
  rfc3164_re = λ (s : String). none;
  atoi = λ (s : String). some 165;
  now = "t0";
  rfc3339_nano = λ (s : String). none;
  rfc3339 = λ (s : String). none;
  month_day_time = λ (s : String). none;
}

parse-IsParsed_example :
    IsParsed
      (trim_space "<165>1 - plc1 openplc - - started ")
      (parse library "<165>1 - plc1 openplc - - started ")
parse-IsParsed_example = parse-IsParsed library "<165>1 - plc1 openplc - - started "

abbrev pub context : Context
context = record { parsed = parse library "x"; source_ip = "10.0.0.9" }

abbrev pub none_found : String → Option String
none_found s = if str_eq s "plc_login_success" then none else some "operator"

abbrev login : Event
login = record pump { message = "Login success for user: 'operator'" }

apply_plc-user_example :
    tag? (apply_plc (λ (s : String). s) none_found login) "plc_user" ≡ tag? login "plc_user"
apply_plc-user_example = apply_plc-user (λ (s : String). s) none_found refl refl login
