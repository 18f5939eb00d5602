-- ===== src/Base/Text.antt =====
-- Texts that the program walks, as lists of code points, and what it uses of Go's package strings.
use Prim.Native.Char.{Char, char, code}
use Prim.Native.String.{String}
use Prim.Native.Nat.{ℕ, ◌+◌}
use Prim.Native.Nat.{Ordering, compare}
use mathlib.Core.Path.{◌≡◌, refl, ap, ◌∙◌}
use mathlib.Core.Bool.{Bool, true, false, ◌&&◌, ◌||◌}
use mathlib.Core.List.{List, [], ◌∷◌, ◌++◌}
use native.Mathlib.Omega.{arith}
use shadow_stat.Base.Tests.{if◌then◌else◌, ◌==◌, leb, ltb}
use shadow_stat.Base.Lists.{All}

abbrev pub Text : Type 0
Text = List ℕ

abbrev pub codes : String → Text
codes String.[] = []
codes (String.◌∷◌ c s) = code c ∷ codes s

-- The character of a number, the replacement character where there is none.
unfoldable char_of :
    (n : ℕ) (a b c : Ordering)
    → compare n 0xd800 ≡ a
    → compare 0xdfff n ≡ b
    → compare n 0x110000 ≡ c
    → Char
char_of n Ordering.lt b c h j k = char n (rw h tt)
char_of n Ordering.eq b c h j k = char 0xfffd tt
char_of n Ordering.gt Ordering.lt Ordering.lt h j k = char n (rw (h, j, k) tt)
char_of n Ordering.gt Ordering.lt Ordering.eq h j k = char 0xfffd tt
char_of n Ordering.gt Ordering.lt Ordering.gt h j k = char 0xfffd tt
char_of n Ordering.gt Ordering.eq c h j k = char 0xfffd tt
char_of n Ordering.gt Ordering.gt c h j k = char 0xfffd tt

-- The string of a text.
unfoldable pub text_string : Text → String
unfolding char_of
text_string [] = String.[]
text_string (c ∷ s) =
    String.◌∷◌ (char_of c (compare c 0xd800) (compare 0xdfff c) (compare c 0x110000) refl refl refl)
      (text_string s)

unfoldable pub text_beq : Text → Text → Bool
text_beq [] [] = true
text_beq [] (d ∷ t) = false
text_beq (c ∷ s) [] = false
text_beq (c ∷ s) (d ∷ t) = (c == d) && text_beq s t

pub text_beq_sound : (s t : Text) → text_beq s t ≡ true → s ≡ t
unfolding text_beq
text_beq_sound [] [] h = refl
text_beq_sound [] (d ∷ t) h = cc
text_beq_sound (c ∷ s) [] h = cc
text_beq_sound (c ∷ s) (d ∷ t) h = ground (arith, text_beq_sound s t)

pub text_beq_refl : (s : Text) → text_beq s s ≡ true
unfolding text_beq
text_beq_refl [] = refl
text_beq_refl (c ∷ s) = ground (arith, text_beq_refl s)

abbrev cons_head : ℕ → List Text → List Text
cons_head c [] = (c ∷ []) ∷ []
cons_head c (p ∷ ps) = (c ∷ p) ∷ ps

-- strings.Split with a separator of one character: one part more than there are separators.
unfoldable pub split : ℕ → Text → List Text
split sep [] = [] ∷ []
split sep (c ∷ s) = let rest = split sep s in if c == sep then [] ∷ rest else cons_head c rest

-- The parts with the separator between them.
unfoldable pub join : ℕ → List Text → Text
join sep [] = []
join sep (p ∷ []) = p
join sep (p ∷ q ∷ ps) = p ++ sep ∷ join sep (q ∷ ps)

-- unicode.IsSpace
unfoldable pub is_space : ℕ → Bool
is_space c =
    (leb 9 c && leb c 13)
    || ((c == 32)
        || ((c == 0x85)
            || ((c == 0xa0)
                || ((c == 0x1680)
                    || ((leb 0x2000 c && leb c 0x200a)
                        || ((c == 0x2028)
                            || ((c == 0x2029)
                                || ((c == 0x202f) || ((c == 0x205f) || (c == 0x3000))))))))))

-- The number of bytes of a character in UTF-8.
abbrev pub utf8_length : ℕ → ℕ
utf8_length c = if ltb c 0x80 then 1 else if ltb c 0x800 then 2 else if ltb c 0x10000 then 3 else 4

-- len of a string
unfoldable pub byte_length : Text → ℕ
byte_length [] = 0
byte_length (c ∷ s) = utf8_length c + byte_length s

unfoldable pub trim_left : Text → Text
unfolding is_space
trim_left [] = []
trim_left (c ∷ s) = let rest = trim_left s in if is_space c then rest else c ∷ s

abbrev keep : ℕ → Text → Text
keep c [] = if is_space c then [] else c ∷ []
keep c (d ∷ s) = c ∷ d ∷ s

unfoldable pub trim_right : Text → Text
unfolding is_space
trim_right [] = []
trim_right (c ∷ s) = keep c (trim_right s)

-- strings.TrimSpace
unfoldable pub trim_space : Text → Text
unfolding trim_left trim_right
trim_space s = trim_right (trim_left s)

abbrev pub Lacks : (ℕ → Bool) → Text → Type 0
Lacks p s = All (λ c. p c ≡ false) s

pub trim_left-Lacks : (s : Text) → Lacks is_space s → trim_left s ≡ s
unfolding trim_left
trim_left-Lacks [] h = refl
trim_left-Lacks (c ∷ s) h = ground (arith, h.0)

keep-eq : (c : ℕ) (s : Text) → is_space c ≡ false → keep c s ≡ c ∷ s
keep-eq c [] h = rw h refl
keep-eq c (d ∷ s) h = refl

pub trim_right-Lacks : (s : Text) → Lacks is_space s → trim_right s ≡ s
unfolding trim_right
trim_right-Lacks [] h = refl
trim_right-Lacks (c ∷ s) h = rw (trim_right-Lacks s h.1) (keep-eq c s h.0)

pub trim_space-Lacks : (s : Text) → Lacks is_space s → trim_space s ≡ s
unfolding trim_space
trim_space-Lacks s h = rw (trim_left-Lacks s h) (trim_right-Lacks s h)

split-part :
    (sep : ℕ) (p s : Text) → Lacks (λ c. c == sep) p → split sep (p ++ sep ∷ s) ≡ p ∷ split sep s
unfolding split
split-part sep [] s h = ground arith
split-part sep (c ∷ p) s h = rw (h.0, split-part sep p s h.1) refl

split-last : (sep : ℕ) (p : Text) → Lacks (λ c. c == sep) p → split sep p ≡ p ∷ []
unfolding split
split-last sep [] h = refl
split-last sep (c ∷ p) h = rw (h.0, split-last sep p h.1) refl

-- Splitting a join gives the parts back, when no part has the separator.
pub split-join :
    (sep : ℕ) (p : Text) (ps : List Text)
    → All (Lacks (λ c. c == sep)) (p ∷ ps)
    → split sep (join sep (p ∷ ps)) ≡ p ∷ ps
unfolding join
split-join sep p [] h = split-last sep p h.0
split-join sep p (q ∷ ps) h =
    split-part sep p (join sep (q ∷ ps)) h.0 ∙ ap (λ rest. p ∷ rest) (split-join sep q ps h.1)
