-- ===== src/Cmd/Run/Served.antt =====
-- The program serves only when setup is complete.
use shadow_stat.Base.{
  ℕ, ◌≡◌, ◌≢◌, refl, ◌∙◌, ap, sym, String, Bool, true, false, ◌||◌, not, Option, none, some,
  if◌then◌else◌, if-cases, arith,
}
use shadow_stat.Base.Text.{Text}
use shadow_stat.Store.Driver.{Result, ok, err, Error}
use shadow_stat.Store.Settings.{SettingsTable, get_setting, all_settings}
use shadow_stat.Config.{
  Settings, Loaded, loaded, load_settings_failed, parse_retention_days_failed,
  parse_flush_interval_failed, load, is_setup_complete,
}
use shadow_stat.Config.Paths.{resolve_data_dir, db_path, cert_path, key_path}
use shadow_stat.Config.Wizard.{Tables, run_first_run_wizard}
use shadow_stat.Config.Finished.{run_first_run_wizard-IsFinished}
use shadow_stat.Cmd.Run.{
  Machine, Outcome, exits, serves, serve, with_loaded, load_and_serve, after_wizard, with_setup,
  in_data_dir, with_flags, run, exit_no_interactive_setup,
}

-- The settings that are served with are those in the database, their subnet is one, and setup is
-- complete.
pub record IsServed (parse_cidr : Text → Bool) (c : Settings) (t : Tables) : Type 0 where
  pub subnet : parse_cidr c.lan_subnet_cidr ≡ true
  pub loads : load false t.settings ≡ loaded c
  pub complete : is_setup_complete false t.settings ≡ ok true

exits-serves : (n : ℕ) (c : Settings) (p : Bool) (code : ℕ) → exits n ≢ serves c p code
exits-serves n c p code h = cc

failed_loaded : (c : Settings) → load_settings_failed ≢ loaded c
failed_loaded c h = cc

err-ok {ℓ} : {A : Type ℓ} {e : Error} {a : A} → err e ≢ ok a
err-ok h = cc

abbrev settings_of : Settings → Outcome → Settings
settings_of d (exits n) = d
settings_of d (serves c p code) = c

module _ (parse_cidr : Text → Bool) (hash_password : Text → Option String) (m : Machine) where
  serve-subnet :
      (data_dir : String) (promiscuous : Bool) (d c : Settings) (p : Bool) (code : ℕ)
      → serve parse_cidr hash_password m data_dir promiscuous d ≡ serves c p code
      → (d ≡ c) × (parse_cidr c.lan_subnet_cidr ≡ true)
  unfolding serve
  serve-subnet data_dir promiscuous d c p code =
      if-cases (not (parse_cidr d.lan_subnet_cidr)) (exits 1) _ (serves c p code)
        (λ bad e. elim (exits-serves 1 c p code e) [ ])
        (λ good.
          if-cases (not m.filter_compiles) (exits 1) _ (serves c p code)
            (λ bad e. elim (exits-serves 1 c p code e) [ ])
            (λ compiles.
              if-cases (not (m.source_opens d.capture_interface promiscuous)) (exits 1) _
                (serves c p code) (λ bad e. elim (exits-serves 1 c p code e) [ ])
                (λ opens.
                  if-cases
                    (not (
                      m.server_starts d.http_listen_addr (cert_path m.files data_dir)
                        (key_path m.files data_dir)))
                    (exits 1) (serves d promiscuous (if m.server_fails then 1 else 0))
                    (serves c p code) (λ bad e. elim (exits-serves 1 c p code e) [ ])
                    (λ starts e.
                      let same : d ≡ c = ap (settings_of d) e in
                      (
                        same,
                        ap (λ (s : Settings). parse_cidr s.lan_subnet_cidr) (sym same)
                            ∙ not_false (parse_cidr d.lan_subnet_cidr) good,
                      )))))
    where
      not_false : (b : Bool) → not b ≡ false → b ≡ true
      not_false true h = refl
      not_false false h = sym h

  load_unfailed :
      (fails : Bool) (t : SettingsTable) (c : Settings)
      → load fails t ≡ loaded c
      → load false t ≡ loaded c
  unfolding load all_settings
  load_unfailed false t c h = h
  load_unfailed true t c h = elim (failed_loaded c h) [ ]

  -- Setup that was found complete is complete.
  complete_unfailed :
      (fails : Bool) (t : SettingsTable)
      → is_setup_complete fails t ≡ ok true
      → is_setup_complete false t ≡ ok true
  unfolding is_setup_complete get_setting
  complete_unfailed false t h = h
  complete_unfailed true t h = elim (err-ok h) [ ]

  load_and_serve-IsServed :
      (data_dir : String) (promiscuous : Bool) (t : Tables) (c : Settings) (p : Bool) (code : ℕ)
      → is_setup_complete false t.settings ≡ ok true
      → with_loaded parse_cidr hash_password m data_dir promiscuous (load m.load_fails t.settings)
        ≡ serves c p code
      → IsServed parse_cidr c t
  load_and_serve-IsServed data_dir promiscuous t c p code done h =
      go (load m.load_fails t.settings) refl h
    where
      go :
          (r : Loaded)
          → load m.load_fails t.settings ≡ r
          → with_loaded parse_cidr hash_password m data_dir promiscuous r ≡ serves c p code
          → IsServed parse_cidr c t
      go (loaded d) e k =
          let s = serve-subnet data_dir promiscuous d c p code k in
          record {
            subnet = s.1;
            loads = load_unfailed m.load_fails t.settings c (e ∙ ap loaded s.0);
            complete = done;
          }
      go load_settings_failed e k = elim (exits-serves 1 c p code k) [ ]
      go parse_retention_days_failed e k = elim (exits-serves 1 c p code k) [ ]
      go parse_flush_interval_failed e k = elim (exits-serves 1 c p code k) [ ]

  after_wizard-IsServed :
      (data_dir : String) (promiscuous : Bool) (t : Tables) (r : Bool × Tables) (c : Settings)
      (p : Bool) (code : ℕ)
      → (r.0 ≡ true → is_setup_complete false (r.1).settings ≡ ok true)
      → (after_wizard parse_cidr hash_password m data_dir promiscuous r).0 ≡ serves c p code
      → IsServed parse_cidr c (after_wizard parse_cidr hash_password m data_dir promiscuous r).1
  after_wizard-IsServed data_dir promiscuous t (true, t') c p code f h =
      load_and_serve-IsServed data_dir promiscuous t' c p code (f refl) h
  after_wizard-IsServed data_dir promiscuous t (false, t') c p code f h =
      elim (exits-serves 1 c p code h) [ ]

  -- Both branches serve only what is complete.
  with_setup-IsServed :
      (data_dir : String) (promiscuous first_run : Bool) (t : Tables) (setup : Result Bool)
      (c : Settings) (p : Bool) (code : ℕ)
      → is_setup_complete m.setup_query_fails t.settings ≡ setup
      → (with_setup parse_cidr hash_password m data_dir promiscuous first_run t setup).0
        ≡ serves c p code
      → IsServed parse_cidr c
          (with_setup parse_cidr hash_password m data_dir promiscuous first_run t setup).1
  with_setup-IsServed data_dir promiscuous first_run t (err e) c p code q h =
      elim (exits-serves 1 c p code h) [ ]
  with_setup-IsServed data_dir promiscuous first_run t (ok setup_done) c p code q h =
      go (first_run || not setup_done) (m.wizard).interactive (or_false first_run setup_done) h
    where
      or_false : (f d : Bool) → f || not d ≡ false → d ≡ true
      or_false f d = ground arith

      go :
          (again interactive : Bool)
          → (again ≡ false → setup_done ≡ true)
          → (if again
              then (if not interactive
                  then (exits exit_no_interactive_setup, t)
                  else after_wizard parse_cidr hash_password m data_dir promiscuous
                      (run_first_run_wizard parse_cidr hash_password m.wizard t))
              else load_and_serve parse_cidr hash_password m data_dir promiscuous t).0
            ≡ serves c p code
          → IsServed parse_cidr c
              (if again
                then (if not interactive
                    then (exits exit_no_interactive_setup, t)
                    else after_wizard parse_cidr hash_password m data_dir promiscuous
                        (run_first_run_wizard parse_cidr hash_password m.wizard t))
                else load_and_serve parse_cidr hash_password m data_dir promiscuous t).1
      go true false f k = elim (exits-serves exit_no_interactive_setup c p code k) [ ]
      go true true f k =
          after_wizard-IsServed data_dir promiscuous t
            (run_first_run_wizard parse_cidr hash_password m.wizard t) c p code
            (λ w. (run_first_run_wizard-IsFinished parse_cidr hash_password m.wizard t w).complete)
            k
      go false interactive f k =
          load_and_serve-IsServed data_dir promiscuous t c p code
            (complete_unfailed m.setup_query_fails t.settings (q ∙ ap ok (f refl))) k

  in_data_dir-IsServed :
      (promiscuous : Bool) (t : Tables) (dir : Option String) (c : Settings) (p : Bool) (code : ℕ)
      → (in_data_dir parse_cidr hash_password m promiscuous t dir).0 ≡ serves c p code
      → IsServed parse_cidr c (in_data_dir parse_cidr hash_password m promiscuous t dir).1
  in_data_dir-IsServed promiscuous t none c p code h = elim (exits-serves 1 c p code h) [ ]
  in_data_dir-IsServed promiscuous t (some data_dir) c p code h =
      go (m.opens (db_path m.files data_dir)) h
    where
      first_run : Bool
      first_run = m.missing (db_path m.files data_dir)

      go :
          (opens : Bool)
          → (if not opens
              then (exits 1, t)
              else with_setup parse_cidr hash_password m data_dir promiscuous first_run t
                  (is_setup_complete m.setup_query_fails t.settings)).0
            ≡ serves c p code
          → IsServed parse_cidr c
              (if not opens
                then (exits 1, t)
                else with_setup parse_cidr hash_password m data_dir promiscuous first_run t
                    (is_setup_complete m.setup_query_fails t.settings)).1
      go false k = elim (exits-serves 1 c p code k) [ ]
      go true k =
          with_setup-IsServed data_dir promiscuous first_run t
            (is_setup_complete m.setup_query_fails t.settings) c p code refl k

-- Whatever the machine answers, and whether or not the wizard ran: when the program serves, setup
-- is complete in its database, and it serves with the settings that Load reads there, whose subnet
-- net.ParseCIDR takes.
pub run-IsServed :
    (parse_cidr : Text → Bool) (hash_password : Text → Option String) (m : Machine) (t : Tables)
    (c : Settings) (p : Bool) (code : ℕ)
    → (run parse_cidr hash_password m t).0 ≡ serves c p code
    → IsServed parse_cidr c (run parse_cidr hash_password m t).1
unfolding run
run-IsServed parse_cidr hash_password m t c p code = go m.flags
  where
    go :
        (flags : Option (String × Bool))
        → (with_flags parse_cidr hash_password m t flags).0 ≡ serves c p code
        → IsServed parse_cidr c (with_flags parse_cidr hash_password m t flags).1
    go none h = elim (exits-serves 2 c p code h) [ ]
    go (some (data_dir, promiscuous)) h =
        in_data_dir-IsServed parse_cidr hash_password m promiscuous t
          (resolve_data_dir m.files data_dir) c p code h
