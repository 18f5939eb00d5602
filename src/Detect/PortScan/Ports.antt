-- ===== src/Detect/PortScan/Ports.antt =====
-- The list of ports as SQLite's GROUP_CONCAT writes it and parsePortsCSV reads it.
use shadow_stat.Base.{
  append-nil, sym, ℕ, ◌≡◌, refl, ◌≤◌, Bool, true, false, Option, none, some, List, [], ◌∷◌, map,
  leb, All, arith, ◌==◌, ◌++◌, ◌≢◌,
}
use shadow_stat.Base.Text.{
  Text, split, join, trim_space, trim_space-Lacks, split-join, is_space, Lacks,
}
use shadow_stat.Base.Decimal.{ℤ, pos, negsuc, atoi, itoa, atoi-itoa, itoa-Lacks, max_int64}
use shadow_stat.Store.DetectQueries.{sort_by, place}

-- GROUP_CONCAT: the numbers with commas between them
unfoldable pub group_concat : List ℕ → Text
unfolding join itoa
group_concat ports = join b',' (map itoa ports)

abbrev pub int_leb : ℤ → ℤ → Bool
int_leb (pos a) (pos b) = leb a b
int_leb (pos a) (negsuc b) = false
int_leb (negsuc a) (pos b) = true
int_leb (negsuc a) (negsuc b) = leb b a

abbrev and_parsed : Option ℤ → List ℤ → List ℤ
and_parsed none rest = rest
and_parsed (some v) rest = v ∷ rest

-- The loop over the parts; what cannot be parsed is skipped.
unfoldable pub parse_parts : List Text → List ℤ
unfolding atoi trim_space
parse_parts [] = []
parse_parts (p ∷ rest) = and_parsed (atoi (trim_space p)) (parse_parts rest)

unfoldable pub parse_ports_csv : Text → List ℤ
unfolding split parse_parts
parse_ports_csv [] = []
parse_ports_csv (c ∷ csv) = sort_by int_leb (parse_parts (split b',' (c ∷ csv)))

parse_parts-itoa :
    (ports : List ℕ) → All (λ p. p ≤ max_int64) ports → parse_parts (map itoa ports) ≡ map pos ports
unfolding parse_parts
parse_parts-itoa [] h = refl
parse_parts-itoa (p ∷ rest) h =
    rw
      (
        trim_space-Lacks (itoa p) (itoa-Lacks is_space p (λ d k. unfold is_space in ground arith)),
        atoi-itoa p h.0,
        parse_parts-itoa rest h.1,
      )
      refl

place-map :
    (p : ℕ) (ports : List ℕ) → place int_leb (pos p) (map pos ports) ≡ map pos (place leb p ports)
place-map p [] = refl
place-map p (q ∷ rest) = ground (arith, place-map p rest)

sort_by-map : (ports : List ℕ) → sort_by int_leb (map pos ports) ≡ map pos (sort_by leb ports)
sort_by-map [] = refl
sort_by-map (p ∷ rest) = rw (sort_by-map rest) (place-map p (sort_by leb rest))

parts-lack : (ports : List ℕ) → All (Lacks (λ c. c == b',')) (map itoa ports)
parts-lack [] = tt
parts-lack (p ∷ rest) = (itoa-Lacks (λ c. c == b',') p (λ d k. ground arith), parts-lack rest)

-- A text that Atoi reads is not empty.
atoi-nonempty :
    (t s : Text)
    → atoi t ≢ none
    → parse_ports_csv (t ++ s) ≡ sort_by int_leb (parse_parts (split b',' (t ++ s)))
unfolding parse_ports_csv atoi
atoi-nonempty [] s h = elim (h refl) [ ]
atoi-nonempty (c ∷ t) s h = refl

join-cons : (p : Text) (ps : List Text) → (rest : Text) × (join b',' (p ∷ ps) ≡ p ++ rest)
unfolding join
join-cons p [] = ([], sym (append-nil p))
join-cons p (q ∷ ps) = (b',' ∷ join b',' (q ∷ ps), refl)

parse_join :
    (p : ℕ) (ps : List ℕ)
    → p ≤ max_int64
    → parse_ports_csv (join b',' (map itoa (p ∷ ps)))
      ≡ sort_by int_leb (parse_parts (split b',' (join b',' (map itoa (p ∷ ps)))))
parse_join p ps h =
    rw (join-cons (itoa p) (map itoa ps)).1
      (atoi-nonempty (itoa p) (join-cons (itoa p) (map itoa ps)).0 (rw (atoi-itoa p h) (λ e. cc)))

-- parsePortsCSV gives back the ports that GROUP_CONCAT wrote, in increasing order.
pub parse_ports_csv-group_concat :
    (ports : List ℕ)
    → All (λ p. p ≤ max_int64) ports
    → parse_ports_csv (group_concat ports) ≡ map pos (sort_by leb ports)
unfolding parse_ports_csv group_concat
parse_ports_csv-group_concat [] h = refl
parse_ports_csv-group_concat (p ∷ rest) h =
    rw
      (
        parse_join p rest h.0,
        split-join b',' (itoa p) (map itoa rest) (parts-lack (p ∷ rest)),
        parse_parts-itoa (p ∷ rest) h,
      )
      (sort_by-map (p ∷ rest))
