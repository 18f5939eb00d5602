-- ===== src/Geoip/Delegated.antt =====
-- parseDelegatedExtended and main of tools/geoip-gen/main.go: from the lines of the registries'
-- files, which bufio.Scanner cuts, to the bytes of the table.
use shadow_stat.Base.{
  ℕ, ◌+◌, ◌-◌, ◌/◌, ◌%◌, ◌^◌, ◌<◌, ◌≤◌, ◌≡◌, ◌∙◌, ap, refl, Bool, true, false, ◌&&◌, ◌||◌, not,
  Option, none, some, List, [], ◌∷◌, ◌++◌, ltb, leb, ◌==◌, if◌then◌else◌, All, arith,
}
use shadow_stat.Base.Text.{Text, codes, text_beq, split, join, split-join, Lacks}
use shadow_stat.Base.Decimal.{unsigned, within, itoa, unsigned-itoa, itoa-Lacks}
use shadow_stat.Store.DetectQueries.{sort_by}
use shadow_stat.Geoip.Table.{
  Range, Country, u32_mod, resolve_overlaps_and_merge_adjacent, write_table,
}

-- The two bytes of a code in UTF-8; none when there are not two.
unfoldable pub code_bytes : Text → Option Country
code_bytes [] = none
code_bytes (c ∷ []) =
    if leb 0x80 c && ltb c 0x800
    then some (record { hi = 0xc0 + c / 64; lo = 0x80 + c % 64 })
    else none
code_bytes (c ∷ d ∷ []) =
    if ltb c 0x80 && ltb d 0x80 then some (record { hi = c; lo = d }) else none
code_bytes (c ∷ d ∷ e ∷ s) = none

-- start + count - 1, for a count that ParseUint gives, with 32 bits
unfoldable pub range_of : Option Country → Option ℕ → Option ℕ → Option Range
range_of none start count = none
range_of (some country) none count = none
range_of (some country) (some start) none = none
range_of (some country) (some start) (some count) =
    if count == 0
    then none
    else some
        (record { start = start; end = (start + count + u32_mod - 1) % u32_mod; cc = country })

abbrev pub max_u32 : ℕ
max_u32 = 2 ^ 32 - 1

module _ (parse_ipv4 : Text → Option ℕ) where
  -- The fields of a line; fewer than seven are a version or summary line. `parse_ipv4` is net.ParseIP
  -- with To4.
  unfoldable pub parse_fields : List Text → Option Range
  unfolding text_beq code_bytes range_of unsigned
  parse_fields (registry ∷ country ∷ kind ∷ start ∷ count ∷ date ∷ status ∷ rest) =
      if not (text_beq kind (codes "ipv4"))
      then none
      else if not (text_beq status (codes "allocated")) && not (text_beq status (codes "assigned"))
      then none
      else range_of (code_bytes country) (parse_ipv4 start) (within max_u32 (unsigned count))
  parse_fields _ = none

  -- An empty line and a comment have no range.
  unfoldable pub parse_line : Text → Option Range
  unfolding parse_fields split
  parse_line [] = none
  parse_line (c ∷ s) = if c == b'#' then none else parse_fields (split b'|' (c ∷ s))

  abbrev and_range : Option Range → List Range → List Range
  and_range none out = out
  and_range (some r) out = r ∷ out

  unfoldable pub parse_delegated_extended : List Text → List Range
  unfolding parse_line
  parse_delegated_extended [] = []
  parse_delegated_extended (line ∷ rest) =
      and_range (parse_line line) (parse_delegated_extended rest)

  unfoldable pub parse_sources : List (List Text) → List Range
  unfolding parse_delegated_extended
  parse_sources [] = []
  parse_sources (lines ∷ rest) = parse_delegated_extended lines ++ parse_sources rest

  -- The file that main writes.
  unfoldable pub generate : List (List Text) → List ℕ
  unfolding parse_sources write_table resolve_overlaps_and_merge_adjacent
  generate sources = write_table (
      resolve_overlaps_and_merge_adjacent
        (sort_by (λ (r s : Range). leb r.start s.start) (parse_sources sources)))

-- A line as the registries write it: registry|cc|type|start|value|date|status[|extensions...]
abbrev pub delegated_line : Text → ℕ → ℕ → Text → ℕ → Text → Text → List Text → Text
delegated_line registry hi lo start count date status extensions =
    join b'|'
      (registry ∷ (hi ∷ lo ∷ []) ∷ codes "ipv4" ∷ start ∷ itoa count ∷ date ∷ status ∷ extensions)

abbrev NoBar : Text → Type 0
NoBar = Lacks (λ c. c == b'|')

parse_line-split :
    (parse_ipv4 : Text → Option ℕ) (c : ℕ) (s : Text)
    → (c == b'#') ≡ false
    → parse_line parse_ipv4 (c ∷ s) ≡ parse_fields parse_ipv4 (split b'|' (c ∷ s))
unfolding parse_line
parse_line-split parse_ipv4 c s h = rw h refl

count-within : (n : ℕ) → n ≤ max_u32 → within max_u32 (unsigned (itoa n)) ≡ some n
count-within n h = rw (unsigned-itoa n) (ground arith)

status_taken :
    (a b : Bool) (x y : Option Range) → a || b ≡ true → (if not a && not b then x else y) ≡ y
status_taken true b x y h = refl
status_taken false true x y h = refl
status_taken false false x y h = cc

range_of-fits :
    (hi lo s count : ℕ)
    → hi < 0x80
    → lo < 0x80
    → 0 < count
    → s + count ≤ u32_mod
    → range_of (code_bytes (hi ∷ lo ∷ [])) (some s) (some count)
      ≡ some (record { start = s; end = s + count - 1; cc = record { hi = hi; lo = lo } })
unfolding range_of code_bytes
range_of-fits hi lo s count h l z w = ground arith

-- The fields of a line of one of the two statuses.
parse_fields-allocated :
    (parse_ipv4 : Text → Option ℕ) (registry : Text) (hi lo s : ℕ) (start : Text) (count : ℕ)
    (date status : Text) (extensions : List Text)
    → hi < 0x80
    → lo < 0x80
    → text_beq status (codes "allocated") || text_beq status (codes "assigned") ≡ true
    → parse_ipv4 start ≡ some s
    → 0 < count
    → s + count ≤ u32_mod
    → count ≤ max_u32
    → parse_fields parse_ipv4
        (registry ∷ (hi ∷ lo ∷ []) ∷ codes "ipv4" ∷ start ∷ itoa count ∷ date ∷ status ∷ extensions)
      ≡ some (record { start = s; end = s + count - 1; cc = record { hi = hi; lo = lo } })
unfolding parse_fields code_bytes range_of
parse_fields-allocated parse_ipv4 registry hi lo s start count date status extensions h l st p z w
      u =
    status_taken (text_beq status (codes "allocated")) (text_beq status (codes "assigned")) none
      (range_of (code_bytes (hi ∷ lo ∷ [])) (parse_ipv4 start)
        (within max_u32 (unsigned (itoa count))))
      st
    ∙ ap (range_of (code_bytes (hi ∷ lo ∷ [])) (parse_ipv4 start)) (count-within count u)
    ∙ ap (λ o. range_of (code_bytes (hi ∷ lo ∷ [])) o (some count)) p
    ∙ range_of-fits hi lo s count h l z w

-- A line of the registries' format, allocated or assigned, with any number of extension fields and
-- whose addresses stay below 2 ^ 32, gives the range of its `count` addresses from its start on.
pub parse_line-delegated_line :
    (parse_ipv4 : Text → Option ℕ) (c : ℕ) (registry : Text) (hi lo s : ℕ) (start : Text)
    (count : ℕ) (date status : Text) (extensions : List Text)
    → (c == b'#') ≡ false
    → All NoBar ((c ∷ registry) ∷ (hi ∷ lo ∷ []) ∷ start ∷ date ∷ status ∷ extensions)
    → hi < 0x80
    → lo < 0x80
    → text_beq status (codes "allocated") || text_beq status (codes "assigned") ≡ true
    → parse_ipv4 start ≡ some s
    → 0 < count
    → s + count ≤ u32_mod
    → count ≤ max_u32
    → parse_line parse_ipv4 (delegated_line (c ∷ registry) hi lo start count date status extensions)
      ≡ some (record { start = s; end = s + count - 1; cc = record { hi = hi; lo = lo } })
unfolding join
parse_line-delegated_line parse_ipv4 c registry hi lo s start count date status extensions f b h l
      st p z w u =
    parse_line-split parse_ipv4 c _ f
    ∙ ap (parse_fields parse_ipv4) (
        split-join b'|' (c ∷ registry)
          ((hi ∷ lo ∷ []) ∷ codes "ipv4" ∷ start ∷ itoa count ∷ date ∷ status ∷ extensions)
          (
            b.0,
            (
              b.1.0,
              (
                (refl, (refl, (refl, (refl, tt)))),
                (
                  b.1.1.0,
                  (itoa-Lacks (λ d. d == b'|') count (λ d k. ground arith), (b.1.1.1.0, b.1.1.1.1)),
                ),
              ),
            ),
          ))
    ∙ parse_fields-allocated parse_ipv4 (c ∷ registry) hi lo s start count date status extensions h
        l st p z w u
