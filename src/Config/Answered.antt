-- ===== src/Config/Answered.antt =====
-- The prompts of the first-run wizard take valid answers only.
use shadow_stat.Base.{
  ℕ, zero, suc, ◌≡◌, ◌≢◌, refl, ◌≤◌, ◌∙◌, ap, sym, Bool, true, false, Option, none, some, List, [],
  ◌∷◌, if◌then◌else◌, arith, none-some, some-injective, get_elem?, ltb,
}
use mathlib.Core.Path.{subst}
use shadow_stat.Base.Text.{Text, text_beq, trim_space, byte_length}
use shadow_stat.Base.Decimal.{ℤ, pos, negsuc, atoi}
use shadow_stat.Config.{Interface, list_capture_interfaces}
use shadow_stat.Config.Wizard.{
  WizardRun, Answers, Read, choice, or_again, menu_line, prompt_menu, prompt_interface,
  prompt_subnet, prompt_retention, username_line, prompt_username, prompt_password, prompts,
  retention_choices, min_password_len, ◌>>=◌,
}

-- An element of the list.
abbrev pub IsOption {ℓ} : {A : Type ℓ} → List A → A → Type ℓ
IsOption xs x = (i : ℕ) × (get_elem? xs i ≡ some x)

choice-IsOption {ℓ} :
    {A : Type ℓ} (v : Option ℤ) (xs : List A) (x : A) → choice v xs ≡ some x → IsOption xs x
unfolding choice
choice-IsOption none xs x h = elim (none-some h) [ ]
choice-IsOption (some (negsuc n)) xs x h = elim (none-some h) [ ]
choice-IsOption (some (pos zero)) xs x h = elim (none-some h) [ ]
choice-IsOption (some (pos (suc i))) xs x h = (i, h)

or_again-IsOption {ℓ} :
    {A : Type ℓ} (xs : List A) (o : Option A) (rest : List Text) (again : Read A)
    (r : A × List Text)
    → ((x : A) → o ≡ some x → IsOption xs x)
    → (again ≡ some r → IsOption xs r.0)
    → or_again o rest again ≡ some r
    → IsOption xs r.0
or_again-IsOption xs none rest again r k a h = a h
or_again-IsOption xs (some x) rest again r k a h = k r.0 (ap (λ p. some p.0) (some-injective h))

menu_line-IsOption {ℓ} :
    {A : Type ℓ} (default : A) (xs : List A) (rest : List Text) (again : Read A) (line : Text)
    (r : A × List Text)
    → IsOption xs default
    → (again ≡ some r → IsOption xs r.0)
    → menu_line default xs rest again line ≡ some r
    → IsOption xs r.0
unfolding menu_line
menu_line-IsOption default xs rest again [] r d a h =
    subst (IsOption xs) (ap (λ p. p.0) (some-injective h)) d
menu_line-IsOption default xs rest again (c ∷ s) r d a h =
    or_again-IsOption xs (choice (atoi (c ∷ s)) xs) rest again r (choice-IsOption (atoi (c ∷ s)) xs)
      a h

prompt_menu-IsOption {ℓ} :
    {A : Type ℓ} (default : A) (xs : List A) (lines : List Text) (r : A × List Text)
    → IsOption xs default
    → prompt_menu default xs lines ≡ some r
    → IsOption xs r.0
unfolding prompt_menu
prompt_menu-IsOption default xs [] r d h = elim (none-some h) [ ]
prompt_menu-IsOption default xs (line ∷ rest) r d h =
    menu_line-IsOption default xs rest (prompt_menu default xs rest) (trim_space line) r d
      (prompt_menu-IsOption default xs rest r d) h

-- What a chain of prompts that succeeds went through.
pub bind-some {ℓ κ} :
    {A : Type ℓ} {B : Type κ} (o : Option A) (f : A → Option B) (b : B)
    → (o >>= f) ≡ some b
    → (a : A) × (o ≡ some a) × (f a ≡ some b)
bind-some none f b h = elim (none-some h) [ ]
bind-some (some a) f b h = (a, refl, h)

-- The name of one of the candidates.
pub record IsCandidate (ifaces : Option (List Interface)) (name : Text) : Type 0 where
  pub found : List Interface
  pub listed : ifaces ≡ some found
  pub chosen : Interface
  pub member : IsOption found chosen
  pub named : chosen.name ≡ name

prompt_interface-IsCandidate :
    (ifaces : Option (List Interface)) (lines : List Text) (r : Text × List Text)
    → prompt_interface ifaces lines ≡ some r
    → IsCandidate ifaces r.0
unfolding prompt_interface
prompt_interface-IsCandidate none lines r h = elim (none-some h) [ ]
prompt_interface-IsCandidate (some []) lines r h = elim (none-some h) [ ]
prompt_interface-IsCandidate (some (i ∷ is)) lines r h =
    let (c, found, rest) =
      bind-some (prompt_menu i (i ∷ is) lines) (λ c. some (c.0.name, c.1)) r h in
    record {
      found = i ∷ is;
      listed = refl;
      chosen = c.0;
      member = prompt_menu-IsOption i (i ∷ is) lines c (0, refl) found;
      named = ap (λ p. p.0) (some-injective rest);
    }

pub if-some {ℓ κ} :
    {A : Type ℓ} (P : A → Type κ) (b : Bool) (o p : Option A) (a : A)
    → (b ≡ true → o ≡ some a → P a)
    → (b ≡ false → p ≡ some a → P a)
    → (if b then o else p) ≡ some a
    → P a
if-some P true o p a h k e = h refl e
if-some P false o p a h k e = k refl e

prompt_subnet-takes :
    (parse_cidr : Text → Bool) (lines : List Text) (r : Text × List Text)
    → prompt_subnet parse_cidr lines ≡ some r
    → parse_cidr r.0 ≡ true
unfolding prompt_subnet
prompt_subnet-takes parse_cidr [] r h = elim (none-some h) [ ]
prompt_subnet-takes parse_cidr (line ∷ rest) r h =
    if-some (λ q. parse_cidr q.0 ≡ true) (parse_cidr (trim_space line))
      (some (trim_space line, rest)) (prompt_subnet parse_cidr rest) r
      (λ takes e. ap (λ q. parse_cidr q.0) (sym (some-injective e)) ∙ takes)
      (λ refuses e. prompt_subnet-takes parse_cidr rest r e) h

pub cons-nil : (c : ℕ) (s : Text) → c ∷ s ≢ []
cons-nil c s h = cc

username_line-nonempty :
    (rest : List Text) (again : Read Text) (line : Text) (r : Text × List Text)
    → (again ≡ some r → r.0 ≢ [])
    → username_line rest again line ≡ some r
    → r.0 ≢ []
username_line-nonempty rest again [] r a h e = a h e
username_line-nonempty rest again (c ∷ s) r a h e =
    cons-nil c s (ap (λ q. q.0) (some-injective h) ∙ e)

prompt_username-nonempty :
    (lines : List Text) (r : Text × List Text) → prompt_username lines ≡ some r → r.0 ≢ []
unfolding prompt_username
prompt_username-nonempty [] r h = elim (none-some h) [ ]
prompt_username-nonempty (line ∷ rest) r h =
    username_line-nonempty rest (prompt_username rest) (trim_space line) r
      (prompt_username-nonempty rest r) h

not_short : (n : ℕ) → ltb n min_password_len ≡ false → min_password_len ≤ n
not_short n h = ground arith

prompt_password-long :
    (typed : List Text) (p : Text)
    → prompt_password typed ≡ some p
    → min_password_len ≤ byte_length p
unfolding prompt_password
prompt_password-long [] p h = elim (none-some h) [ ]
prompt_password-long (pw1 ∷ []) p h = elim (none-some h) [ ]
prompt_password-long (pw1 ∷ pw2 ∷ rest) p h =
    if-some (λ q. min_password_len ≤ byte_length q) (ltb (byte_length pw1) min_password_len)
      (prompt_password (pw2 ∷ rest)) (if text_beq pw1 pw2 then some pw1 else prompt_password rest) p
      (λ short. prompt_password-long (pw2 ∷ rest) p)
      (λ long.
        if-some (λ q. min_password_len ≤ byte_length q) (text_beq pw1 pw2) (some pw1)
          (prompt_password rest) p
          (λ same e.
            subst (λ q. min_password_len ≤ byte_length q) (some-injective e)
              (not_short (byte_length pw1) long))
          (λ differ. prompt_password-long rest p))
      h

-- What the prompts answer when none of them fails.
pub record IsValid (parse_cidr : Text → Bool) (s : WizardRun) (a : Answers) : Type 0 where
  pub iface : IsCandidate (list_capture_interfaces s.has_node s.interfaces) a.iface
  pub subnet : parse_cidr a.subnet ≡ true
  pub retention : IsOption retention_choices a.retention_days
  pub username : a.username ≢ []
  pub password : min_password_len ≤ byte_length a.password

-- The prompts, however many lines they ask for, answer only with an interface that is listed, a
-- subnet that net.ParseCIDR takes, days of the menu, a name that is not empty and a password of at
-- least 12 bytes.
pub prompts-IsValid :
    (parse_cidr : Text → Bool) (s : WizardRun) (a : Answers)
    → prompts parse_cidr s ≡ some a
    → IsValid parse_cidr s a
unfolding prompts prompt_retention
prompts-IsValid parse_cidr s a h =
    let (i, i_read, h1) =
      bind-some (prompt_interface (list_capture_interfaces s.has_node s.interfaces) s.lines) _ a
        h in
    let (n, n_read, h2) = bind-some (prompt_subnet parse_cidr i.1) _ a h1 in
    let (r, r_read, h3) = bind-some (prompt_retention n.1) _ a h2 in
    let (u, u_read, h4) = bind-some (prompt_username r.1) _ a h3 in
    let (p, p_read, h5) = bind-some (prompt_password s.passwords) _ a h4 in
    subst (IsValid parse_cidr s) (some-injective h5) (record {
      iface =
          prompt_interface-IsCandidate (list_capture_interfaces s.has_node s.interfaces) s.lines i
            i_read;
      subnet = prompt_subnet-takes parse_cidr i.1 n n_read;
      retention = prompt_menu-IsOption 30 retention_choices n.1 r (1, refl) r_read;
      username = prompt_username-nonempty r.1 u u_read;
      password = prompt_password-long s.passwords p p_read;
    })
