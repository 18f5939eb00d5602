-- ===== src/Config/Typed/Prompts.antt =====
-- The prompts answer with what was typed, whatever number of lines they refuse.
use shadow_stat.Base.{
  true-false, ℕ, suc, ◌≡◌, ◌≢◌, refl, ◌≤◌, ◌<◌, ◌∙◌, ap, sym, Bool, true, false, Option, none, some,
  List, [], ◌∷◌, ◌⊎◌, inl, inr, Bool-cases, if◌then◌else◌, arith, none-some, some-injective,
  get_elem?, ltb,
}
use mathlib.Core.Path.{subst}
use shadow_stat.Base.Text.{Text, text_beq, text_beq_sound, trim_space, byte_length}
use shadow_stat.Base.Decimal.{pos, atoi}
use shadow_stat.Config.{Interface, list_capture_interfaces}
use shadow_stat.Config.Answered.{bind-some, cons-nil, if-some}
use shadow_stat.Config.Wizard.{
  WizardRun, Answers, Read, or_again, menu_line, prompt_menu, prompt_interface, prompt_subnet,
  prompt_retention, username_line, prompt_username, prompt_password, prompts, retention_choices,
  min_password_len,
}
use shadow_stat.Config.Typed.{
  Chooses, IsFirst, IsConfirmed, twice, short, mistyped, TakesSubnet, TakesName, IsTyped, Reads,
  IsFirst-step, choice-cases,
}

menu_line-Reads {ℓ} :
    {A : Type ℓ} (default : A) (xs : List A) (line : Text) (rest : List Text) (again : Read A)
    → Reads (Chooses default xs) (menu_line default xs rest again (trim_space line)) line rest again
unfolding menu_line
menu_line-Reads {A = A} default xs line rest again = means (trim_space line)
  where
    means :
        (t : Text)
        → ((x : A) × (((t ≡ []) × (x ≡ default))
              ⊎ ((i : ℕ) × (atoi t ≡ some (pos (suc i))) × (get_elem? xs i ≡ some x)))
            × (menu_line default xs rest again t ≡ some (x, rest)))
          ⊎ (((y : A)
                → ¬ (
                    ((t ≡ []) × (y ≡ default))
                    ⊎ ((i : ℕ) × (atoi t ≡ some (pos (suc i))) × (get_elem? xs i ≡ some y))))
              × (menu_line default xs rest again t ≡ again))
    means [] = inl (default, inl (refl, refl), refl)
    means (c ∷ s) = elim (choice-cases (atoi (c ∷ s)) xs) [
      | inl (x, chosen, entry) ↦ inl (x, inr entry, ap (λ o. or_again o rest again) chosen)
      | inr (no_entry, none_chosen) ↦ inr (
        λ y chooses. elim chooses [
          | inl (empty, _) ↦ cons-nil c s empty
          | inr (i, e, f) ↦ none_chosen i y e f
        ],
        ap (λ o. or_again o rest again) no_entry,
      )
    ]

prompt_menu-IsFirst {ℓ} :
    {A : Type ℓ} (default : A) (xs : List A) (lines : List Text) (r : A × List Text)
    → prompt_menu default xs lines ≡ some r
    → IsFirst (Chooses default xs) lines r.1 r.0
unfolding prompt_menu
prompt_menu-IsFirst default xs [] r h = elim (none-some h) [ ]
prompt_menu-IsFirst default xs (line ∷ rest) r h =
    IsFirst-step (Chooses default xs) (prompt_menu default xs (line ∷ rest)) line rest
      (prompt_menu default xs rest) r (menu_line-Reads default xs line rest _)
      (prompt_menu-IsFirst default xs rest r) h

prompt_subnet-IsFirst :
    (parse_cidr : Text → Bool) (lines : List Text) (r : Text × List Text)
    → prompt_subnet parse_cidr lines ≡ some r
    → IsFirst (TakesSubnet parse_cidr) lines r.1 r.0
unfolding prompt_subnet
prompt_subnet-IsFirst parse_cidr [] r h = elim (none-some h) [ ]
prompt_subnet-IsFirst parse_cidr (line ∷ rest) r h =
    IsFirst-step (TakesSubnet parse_cidr) (prompt_subnet parse_cidr (line ∷ rest)) line rest
      (prompt_subnet parse_cidr rest) r
      (elim (Bool-cases (parse_cidr (trim_space line))) [
        | inl takes ↦ inl (trim_space line, (refl, takes), rw takes refl)
        | inr refuses ↦
            inr (λ y t. true-false (sym t.1 ∙ ap parse_cidr t.0 ∙ refuses), rw refuses refl)
      ])
      (prompt_subnet-IsFirst parse_cidr rest r) h

prompt_username-IsFirst :
    (lines : List Text) (r : Text × List Text)
    → prompt_username lines ≡ some r
    → IsFirst TakesName lines r.1 r.0
unfolding prompt_username
prompt_username-IsFirst [] r h = elim (none-some h) [ ]
prompt_username-IsFirst (line ∷ rest) r h =
    IsFirst-step TakesName (prompt_username (line ∷ rest)) line rest (prompt_username rest) r
      (means (trim_space line)) (prompt_username-IsFirst rest r) h
  where
    means :
        (t : Text)
        → ((x : Text) × ((x ≡ t) × (x ≢ []))
            × (username_line rest (prompt_username rest) t ≡ some (x, rest)))
          ⊎ (((y : Text) → ¬ ((y ≡ t) × (y ≢ [])))
              × (username_line rest (prompt_username rest) t ≡ prompt_username rest))
    means [] = inr (λ y t. t.1 t.0, refl)
    means (c ∷ s) = inl (c ∷ s, (refl, cons-nil c s), refl)

text_beq-same : (s : Text) → text_beq s s ≡ true
unfolding text_beq
text_beq-same [] = refl
text_beq-same (c ∷ s) = ground (arith, text_beq-same s)

differs : (s t : Text) → text_beq s t ≡ false → s ≢ t
differs s t h e = true-false (sym (text_beq-same s) ∙ ap (λ q. text_beq s q) e ∙ h)

is_short : (n : ℕ) → ltb n min_password_len ≡ true → n < 12
is_short n h = ground arith

is_long : (n : ℕ) → ltb n min_password_len ≡ false → 12 ≤ n
is_long n h = ground arith

prompt_password-IsConfirmed :
    (typed : List Text) (p : Text) → prompt_password typed ≡ some p → IsConfirmed p typed
unfolding prompt_password
prompt_password-IsConfirmed [] p h = elim (none-some h) [ ]
prompt_password-IsConfirmed (pw1 ∷ []) p h = elim (none-some h) [ ]
prompt_password-IsConfirmed (pw1 ∷ pw2 ∷ rest) p h =
    if-some (λ q. IsConfirmed q (pw1 ∷ pw2 ∷ rest)) (ltb (byte_length pw1) min_password_len)
      (prompt_password (pw2 ∷ rest)) (if text_beq pw1 pw2 then some pw1 else prompt_password rest) p
      (λ small e.
        short (is_short (byte_length pw1) small) (prompt_password-IsConfirmed (pw2 ∷ rest) p e))
      (λ large.
        if-some (λ q. IsConfirmed q (pw1 ∷ pw2 ∷ rest)) (text_beq pw1 pw2) (some pw1)
          (prompt_password rest) p
          (λ same e.
            subst (λ q. IsConfirmed q (pw1 ∷ pw2 ∷ rest)) (some-injective e)
              (subst (λ q. IsConfirmed pw1 (pw1 ∷ q ∷ rest)) (text_beq_sound pw1 pw2 same)
                (twice (is_long (byte_length pw1) large))))
          (λ differ e.
            mistyped (is_long (byte_length pw1) large) (differs pw1 pw2 differ)
              (prompt_password-IsConfirmed rest p e)))
      h

-- The menu of the interfaces and what was chosen from it.
record IsPicked (ifaces : Option (List Interface)) (lines : List Text) (r : Text × List Text)
    : Type 0 where
  first : Interface
  others : List Interface
  listed : ifaces ≡ some (first ∷ others)
  chosen : Interface
  picked : IsFirst (Chooses first (first ∷ others)) lines r.1 chosen
  named : r.0 ≡ chosen.name

prompt_interface-IsPicked :
    (ifaces : Option (List Interface)) (lines : List Text) (r : Text × List Text)
    → prompt_interface ifaces lines ≡ some r
    → IsPicked ifaces lines r
unfolding prompt_interface
prompt_interface-IsPicked none lines r h = elim (none-some h) [ ]
prompt_interface-IsPicked (some []) lines r h = elim (none-some h) [ ]
prompt_interface-IsPicked (some (i ∷ is)) lines r h =
    let (c, found, rest) =
      bind-some (prompt_menu i (i ∷ is) lines) (λ c. some (c.0.name, c.1)) r h in
    record {
      first = i;
      others = is;
      listed = refl;
      chosen = c.0;
      picked =
          subst (λ lines_left. IsFirst (Chooses i (i ∷ is)) lines lines_left c.0)
            (ap (λ q. q.1) (some-injective rest)) (prompt_menu-IsFirst i (i ∷ is) lines c found);
      named = sym (ap (λ q. q.0) (some-injective rest));
    }

-- The answers of the prompts, where none fails, are those of the first lines that they accept.
pub prompts-IsTyped :
    (parse_cidr : Text → Bool) (s : WizardRun) (a : Answers)
    → prompts parse_cidr s ≡ some a
    → IsTyped parse_cidr s a
unfolding prompts prompt_retention
prompts-IsTyped parse_cidr s a h =
    let (i, i_read, h1) =
      bind-some (prompt_interface (list_capture_interfaces s.has_node s.interfaces) s.lines) _ a
        h in
    let (n, n_read, h2) = bind-some (prompt_subnet parse_cidr i.1) _ a h1 in
    let (r, r_read, h3) = bind-some (prompt_retention n.1) _ a h2 in
    let (u, u_read, h4) = bind-some (prompt_username r.1) _ a h3 in
    let (p, p_read, h5) = bind-some (prompt_password s.passwords) _ a h4 in
    let m =
      prompt_interface-IsPicked (list_capture_interfaces s.has_node s.interfaces) s.lines i
        i_read in
    subst (IsTyped parse_cidr s) (some-injective h5) (record {
      first = m.first;
      others = m.others;
      listed = m.listed;
      chosen = m.chosen;
      after_iface = i.1;
      after_subnet = n.1;
      after_retention = r.1;
      after_username = u.1;
      iface = m.picked;
      named = m.named;
      subnet = prompt_subnet-IsFirst parse_cidr i.1 n n_read;
      retention = prompt_menu-IsFirst 30 retention_choices n.1 r r_read;
      username = prompt_username-IsFirst r.1 u u_read;
      password = prompt_password-IsConfirmed s.passwords p p_read;
    })
