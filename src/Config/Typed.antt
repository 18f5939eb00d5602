-- ===== src/Config/Typed.antt =====
-- What the prompts of internal/config/firstrun.go make of what is typed, said without their loops:
-- the answer of a prompt is that of the first line which it accepts.
pub mod Prompts
use shadow_stat.Base.{
  ℕ, zero, suc, ◌≡◌, ◌≢◌, refl, ◌≤◌, ◌<◌, ◌∙◌, ap, sym, Bool, true, Option, none, some, List, [],
  ◌∷◌, ◌++◌, ◌⊎◌, inl, inr, All, Option-cases, none-some, some-injective, get_elem?,
}
use mathlib.Core.Path.{subst}
use shadow_stat.Base.Text.{Text, trim_space, byte_length}
use shadow_stat.Base.Decimal.{ℤ, pos, negsuc, atoi}
use shadow_stat.Config.{Interface, list_capture_interfaces}
use shadow_stat.Config.Wizard.{WizardRun, Answers, Read, choice}

-- A line of a menu: the empty one stands for the default, a number from 1 for that entry.
abbrev pub Chooses {ℓ} : {A : Type ℓ} → A → List A → Text → A → Type ℓ
Chooses default xs line x =
    ((trim_space line ≡ []) × (x ≡ default))
    ⊎ ((i : ℕ) × (atoi (trim_space line) ≡ some (pos (suc i))) × (get_elem? xs i ≡ some x))

-- The value is that of the first line that has one, and `rest` are the lines after it.
pub record IsFirst {ℓ} {A : Type ℓ} (Accepts : Text → A → Type ℓ) (lines rest : List Text) (x : A)
    : Type ℓ where
  pub skipped : List Text
  pub line : Text
  pub cut : lines ≡ skipped ++ line ∷ rest
  pub refused : All (λ l. (y : A) → ¬ Accepts l y) skipped
  pub accepted : Accepts line x

-- A password is taken when it is long enough and typed the same once more.
pub data IsConfirmed (pw : Text) : List Text → Type 0 where
  twice : {rest : List Text} → 12 ≤ byte_length pw → IsConfirmed pw (pw ∷ pw ∷ rest)
  short :
      {p : Text} {rest : List Text}
      → byte_length p < 12
      → IsConfirmed pw rest
      → IsConfirmed pw (p ∷ rest)
  mistyped :
      {p q : Text} {rest : List Text}
      → 12 ≤ byte_length p
      → p ≢ q
      → IsConfirmed pw rest
      → IsConfirmed pw (p ∷ q ∷ rest)

abbrev pub TakesSubnet : (Text → Bool) → Text → Text → Type 0
TakesSubnet parse_cidr line t = (t ≡ trim_space line) × (parse_cidr t ≡ true)

abbrev pub TakesName : Text → Text → Type 0
TakesName line t = (t ≡ trim_space line) × (t ≢ [])

-- The answers are what was typed: interface, subnet, days and name one after another in the lines,
-- each at the first line that has one.
pub record IsTyped (parse_cidr : Text → Bool) (s : WizardRun) (a : Answers) : Type 0 where
  pub first : Interface
  pub others : List Interface
  pub listed : list_capture_interfaces s.has_node s.interfaces ≡ some (first ∷ others)
  pub chosen : Interface
  pub after_iface : List Text
  pub after_subnet : List Text
  pub after_retention : List Text
  pub after_username : List Text
  pub iface : IsFirst (Chooses first (first ∷ others)) s.lines after_iface chosen
  pub named : a.iface ≡ chosen.name
  pub subnet : IsFirst (TakesSubnet parse_cidr) after_iface after_subnet a.subnet
  pub retention :
      IsFirst (Chooses 30 (7 ∷ 30 ∷ 90 ∷ 365 ∷ [])) after_subnet after_retention a.retention_days
  pub username : IsFirst TakesName after_retention after_username a.username
  pub password : IsConfirmed a.password s.passwords

IsFirst-here {ℓ} :
    {A : Type ℓ} (Accepts : Text → A → Type ℓ) (line : Text) (rest : List Text) (x : A)
    → Accepts line x
    → IsFirst Accepts (line ∷ rest) rest x
IsFirst-here Accepts line rest x h = record {
  skipped = [];
  line = line;
  cut = refl;
  refused = tt;
  accepted = h;
}

IsFirst-skip {ℓ} :
    {A : Type ℓ} (Accepts : Text → A → Type ℓ) (line : Text) (lines rest : List Text) (x : A)
    → ((y : A) → ¬ Accepts line y)
    → IsFirst Accepts lines rest x
    → IsFirst Accepts (line ∷ lines) rest x
IsFirst-skip Accepts line lines rest x h f = record {
  skipped = line ∷ f.skipped;
  line = f.line;
  cut = ap (λ ls. line ∷ ls) f.cut;
  refused = (h, f.refused);
  accepted = f.accepted;
}

-- A prompt that reads a line takes the value of the line, or it refuses the line and asks again.
abbrev pub Reads {ℓ} :
    {A : Type ℓ} → (Text → A → Type ℓ) → (Read A) → Text → List Text → Read A → Type ℓ
Reads {A = A} Accepts asked line rest again =
    ((x : A) × Accepts line x × (asked ≡ some (x, rest)))
    ⊎ (((y : A) → ¬ Accepts line y) × (asked ≡ again))

pub IsFirst-step {ℓ} :
    {A : Type ℓ} (Accepts : Text → A → Type ℓ) (asked : Read A) (line : Text) (rest : List Text)
    (again : Read A) (r : A × List Text)
    → Reads Accepts asked line rest again
    → (again ≡ some r → IsFirst Accepts rest r.1 r.0)
    → asked ≡ some r
    → IsFirst Accepts (line ∷ rest) r.1 r.0
IsFirst-step {A = A} Accepts asked line rest again r (inl (x, takes, e)) k h =
    subst (λ (q : A × List Text). IsFirst Accepts (line ∷ rest) q.1 q.0)
      (some-injective (sym e ∙ h)) (IsFirst-here Accepts line rest x takes)
IsFirst-step Accepts asked line rest again r (inr (refuses, e)) k h =
    IsFirst-skip Accepts line rest r.1 r.0 refuses (k (sym e ∙ h))

abbrev number_of : Option ℤ → ℕ
number_of (some (pos (suc i))) = i
number_of _ = 0

-- The entry that a number chooses, or that it chooses none.
pub choice-cases {ℓ} :
    {A : Type ℓ} (v : Option ℤ) (xs : List A)
    → ((x : A) × (choice v xs ≡ some x)
        × ((i : ℕ) × (v ≡ some (pos (suc i))) × (get_elem? xs i ≡ some x)))
      ⊎ ((choice v xs ≡ none)
          × ((i : ℕ) (x : A) → v ≡ some (pos (suc i)) → get_elem? xs i ≢ some x))
unfolding choice
choice-cases none xs = inr (refl, λ i x e f. none-some e)
choice-cases (some (negsuc n)) xs = inr (refl, λ i x e f. cc)
choice-cases (some (pos zero)) xs = inr (refl, λ i x e f. cc)
choice-cases (some (pos (suc i))) xs = elim (Option-cases (get_elem? xs i)) [
  | inl p ↦ inr (p, λ j x e f. none-some (sym p ∙ ap (λ k. get_elem? xs k) (ap number_of e) ∙ f))
  | inr (x, p) ↦ inl (x, p, (i, refl, p))
]
