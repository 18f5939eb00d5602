-- ===== src/Detect/DnsAnomaly/Entropy.antt =====
-- internal/detect/dns_anomaly.go: leftmostLabel and shannonEntropy.
use shadow_stat.Base.{
  append-nil, ℕ, suc, Option, none, some, List, [], ◌∷◌, ◌++◌, ◌==◌, if◌then◌else◌, ◌≡◌, ap, refl,
  nat_eq,
}
use shadow_stat.Base.Assoc.{alter}
use shadow_stat.Base.Text.{Text, Lacks, byte_length}
use shadow_stat.Base.Float.{Float}

-- The order in which a loop over a map meets its entries, which Go leaves open.
abbrev pub MapOrder : Type 0
MapOrder = List (ℕ × ℕ) → List (ℕ × ℕ)

-- strings.TrimSuffix with a dot
unfoldable pub trim_dot : Text → Text
trim_dot [] = []
trim_dot (c ∷ []) = if c == b'.' then [] else c ∷ []
trim_dot (c ∷ d ∷ s) = c ∷ trim_dot (d ∷ s)

-- What stands in front of the first dot, or the whole text.
unfoldable pub before_dot : Text → Text
before_dot [] = []
before_dot (c ∷ s) = let rest = before_dot s in if c == b'.' then [] else c ∷ rest

unfoldable pub leftmost_label : Text → Text
unfolding trim_dot before_dot
leftmost_label qname = before_dot (trim_dot qname)

abbrev one_more : Option ℕ → ℕ
one_more none = 1
one_more (some n) = suc n

-- The loop over the characters.
unfoldable pub count_runes : Text → List (ℕ × ℕ) → List (ℕ × ℕ)
unfolding alter
count_runes [] counts = counts
count_runes (r ∷ s) counts = count_runes s (alter one_more r counts)

module _ {ℓ} {F : Type ℓ} (float : Float F) where
  -- The loop over the counts; `n` is the length of the label.
  unfoldable pub add_entropy : F → List (ℕ × ℕ) → F → F
  add_entropy n [] entropy = entropy
  add_entropy n ((r, c) ∷ rest) entropy =
      let p = float.div (float.of_int c) n in
      add_entropy n rest (float.sub entropy (float.mul p (float.log2 p)))

  unfoldable pub shannon_entropy : MapOrder → Text → F
  unfolding add_entropy count_runes byte_length
  shannon_entropy order [] = float.of_int 0
  shannon_entropy order (c ∷ s) =
      add_entropy (float.of_int (byte_length (c ∷ s))) (order (count_runes (c ∷ s) []))
        (float.of_int 0)

trim_dot-longer :
    (label : Text) (c : ℕ) (s : Text) → trim_dot (label ++ c ∷ s) ≡ label ++ trim_dot (c ∷ s)
unfolding trim_dot
trim_dot-longer [] c s = refl
trim_dot-longer (d ∷ []) c s = refl
trim_dot-longer (d ∷ e ∷ label) c s = ap (λ q. d ∷ q) (trim_dot-longer (e ∷ label) c s)

before_dot-Lacks : (label : Text) → Lacks (λ c. c == b'.') label → before_dot label ≡ label
unfolding before_dot
before_dot-Lacks [] h = refl
before_dot-Lacks (c ∷ s) h = rw (h.0, before_dot-Lacks s h.1) refl

before_dot-append :
    (label s : Text) → Lacks (λ c. c == b'.') label → before_dot (label ++ b'.' ∷ s) ≡ label
unfolding before_dot
before_dot-append [] s h = refl
before_dot-append (c ∷ label) s h = rw (h.0, before_dot-append label s h.1) refl

-- The leftmost label of a name is the part before its first dot, whatever stands behind.
pub leftmost_label-append :
    (label rest : Text)
    → Lacks (λ c. c == b'.') label
    → leftmost_label (label ++ b'.' ∷ rest) ≡ label
unfolding leftmost_label trim_dot
leftmost_label-append label [] h =
    rw (trim_dot-longer label b'.' [], append-nil label) (before_dot-Lacks label h)
leftmost_label-append label (c ∷ rest) h =
    rw (trim_dot-longer label b'.' (c ∷ rest)) (before_dot-append label (trim_dot (c ∷ rest)) h)
