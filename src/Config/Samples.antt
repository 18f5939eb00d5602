-- ===== src/Config/Samples.antt =====
-- Tests of the configuration and the first-run wizard, and their theorems at a typed session.
use shadow_stat.Base.{ℕ, ◌≡◌, refl, String, Bool, true, false, Option, some, [], ◌∷◌}
use shadow_stat.Base.Text.{Text, codes, text_string, text_beq}
use shadow_stat.Store.Driver.{ok, Driver}
use shadow_stat.Store.Accounts.{Accounts, create_user, role_admin}
use shadow_stat.Config.{is_setup_complete}
use shadow_stat.Config.Answered.{IsValid, prompts-IsValid}
use shadow_stat.Config.Finished.{
  IsFinished, run_first_run_wizard-IsFinished, run_first_run_wizard-unfinished,
}
use shadow_stat.Config.Retry.{run_first_run_wizard-retry}
use shadow_stat.Config.Wizard.{
  WizardRun, Tables, Answers, prompts, write_answers, run_first_run_wizard,
}

-- A name typed as a text is the string again.
text_string-test : text_string (codes "admin") ≡ "admin"
unfolding text_string
text_string-test = refl

abbrev pub parse_cidr : Text → Bool
parse_cidr s = text_beq s (codes "10.0.0.0/8")

abbrev pub hash_password : Text → Option String
hash_password p = some "hash"

abbrev working : Driver
working = record { fails = λ c. false }

abbrev pub typed : WizardRun
typed = record {
  interactive = true;
  has_node = λ n. true;
  interfaces = some (
      record { name = codes "lo"; loopback = true }
      ∷ record { name = codes "eth0"; loopback = false }
      ∷ record { name = codes "eth1"; loopback = false }
      ∷ []);
  -- an interface that is not there, eth1, no subnet, a subnet, the default retention, no name, a name
  lines =
      codes "3\n"
      ∷ codes "2\n"
      ∷ codes "home\n"
      ∷ codes " 10.0.0.0/8\n"
      ∷ codes "\n"
      ∷ codes "\n"
      ∷ codes "admin\n"
      ∷ [];
  -- too short, mistyped, right
  passwords =
      codes "short"
      ∷ codes "correct horse"
      ∷ codes "correct house"
      ∷ codes "correct horse"
      ∷ codes "correct horse"
      ∷ [];
  now = 1000;
  driver = working;
  set_settings_fails = false;
  set_setting_fails = false;
}

abbrev pub fresh : Tables
fresh = record { accounts = record { users = []; sessions = []; next_id = 1 }; settings = [] }

abbrev answers : Answers
answers = record {
  iface = codes "eth1";
  subnet = codes "10.0.0.0/8";
  retention_days = 30;
  username = codes "admin";
  password = codes "correct horse";
}

prompts-test : prompts parse_cidr typed ≡ some answers
unfolding prompts
prompts-test = refl

prompts-IsValid_example : IsValid parse_cidr typed answers
prompts-IsValid_example = prompts-IsValid parse_cidr typed answers prompts-test

run_first_run_wizard-test : (run_first_run_wizard parse_cidr hash_password typed fresh).0 ≡ true
unfolding run_first_run_wizard
run_first_run_wizard-test = refl

run_first_run_wizard-IsFinished_example :
    IsFinished parse_cidr hash_password typed fresh
      (run_first_run_wizard parse_cidr hash_password typed fresh).1
run_first_run_wizard-IsFinished_example =
    run_first_run_wizard-IsFinished parse_cidr hash_password typed fresh run_first_run_wizard-test

-- The settings cannot be saved.
abbrev interrupted : WizardRun
interrupted = record typed { set_settings_fails = true }

interrupted-fails : (run_first_run_wizard parse_cidr hash_password interrupted fresh).0 ≡ false
unfolding run_first_run_wizard
interrupted-fails = refl

run_first_run_wizard-unfinished_example :
    is_setup_complete false
      ((run_first_run_wizard parse_cidr hash_password interrupted fresh).1).settings
    ≡ is_setup_complete false fresh.settings
run_first_run_wizard-unfinished_example =
    run_first_run_wizard-unfinished parse_cidr hash_password interrupted fresh interrupted-fails

abbrev with_admin : ℕ × Accounts
with_admin = (
  1,
  record {
    users =
        record {
          id = 1;
          username = "admin";
          password_hash = "hash";
          role = role_admin;
          created_at = 1000;
        }
        ∷ [];
    sessions = [];
    next_id = 2;
  },
)

create_user-test :
    create_user working (text_string (codes "admin")) "hash" role_admin 1000 fresh.accounts
    ≡ ok with_admin
unfolding create_user text_string
create_user-test = refl

run_first_run_wizard-retry_example :
    (run_first_run_wizard parse_cidr hash_password typed
      (write_answers parse_cidr hash_password interrupted answers fresh).1).0
    ≡ false
run_first_run_wizard-retry_example =
    run_first_run_wizard-retry parse_cidr hash_password interrupted typed answers answers fresh
      "hash" with_admin prompts-test refl refl create_user-test
