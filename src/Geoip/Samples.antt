-- ===== src/Geoip/Samples.antt =====
-- Tests of the table, and the theorems at three claims of which two conflict.
use shadow_stat.Base.Text.{Text, codes, text_beq, Lacks}
use shadow_stat.Geoip.Delegated.{
  parse_delegated_extended, parse_line, delegated_line, parse_line-delegated_line,
}
use shadow_stat.Base.{
  ℕ, Bool, false, true, Option, All, ◌||◌, ◌+◌, ◌-◌, ◌==◌, if◌then◌else◌, ◌≡◌, refl, none, some,
  List, [], ◌∷◌, arith,
}
use shadow_stat.Geoip.Table.{
  Range, Country, resolve_overlaps_and_merge_adjacent, write_table, parse_table,
}
use shadow_stat.Geoip.Lookup.{lookup_target, country_for_ip}
use shadow_stat.Geoip.Codec.{parse_table-write_table}
use shadow_stat.Geoip.Owner.{owner, IsTableFrom, lookup_target-eq-owner}
use shadow_stat.Geoip.Merge.{owner-resolve, resolve-IsTableFrom}
use shadow_stat.Geoip.Chain.{owner_of_ip, country_for_ip-eq-owner}

abbrev gb : Country
gb = record { hi = b'G'; lo = b'B' }

abbrev fr : Country
fr = record { hi = b'F'; lo = b'R' }

abbrev claims : List Range
claims =
    record { start = 10; end = 20; cc = gb }
    ∷ record { start = 15; end = 30; cc = fr }
    ∷ record { start = 31; end = 40; cc = fr }
    ∷ []

abbrev table : List Range
table = record { start = 10; end = 20; cc = gb } ∷ record { start = 21; end = 40; cc = fr } ∷ []

resolve_claims : resolve_overlaps_and_merge_adjacent claims ≡ table
unfolding resolve_overlaps_and_merge_adjacent
resolve_claims = refl

lookup_gap : (lookup_target table 9 ≡ none) × (lookup_target table 18 ≡ some gb)
unfolding lookup_target
lookup_gap = (refl, refl)

parse_table-write_table_example : parse_table (write_table table) ≡ table
parse_table-write_table_example = parse_table-write_table table (omega arith)

lookup_target-eq-owner_example : lookup_target table 25 ≡ owner table 25
lookup_target-eq-owner_example = lookup_target-eq-owner table 25 (omega arith)

resolve-IsTableFrom_example : IsTableFrom 0 (resolve_overlaps_and_merge_adjacent claims)
resolve-IsTableFrom_example = resolve-IsTableFrom claims (omega arith)

owner-resolve_example : owner (resolve_overlaps_and_merge_adjacent claims) 18 ≡ owner claims 18
owner-resolve_example = owner-resolve claims 18 (omega arith)

country_for_ip-eq-owner_example :
    country_for_ip
      (parse_table (write_table (resolve_overlaps_and_merge_adjacent claims)))
      (some 18)
    ≡ owner_of_ip claims (some 18)
country_for_ip-eq-owner_example = country_for_ip-eq-owner claims (some 18) (omega arith)

abbrev parse_ipv4 : Text → Option ℕ
parse_ipv4 t = if text_beq t (codes "1.0.0.0") then some 0x01000000 else none

-- A comment, a version line, a summary line, an allocation and a reserved range.
parse_delegated_extended-test :
    parse_delegated_extended parse_ipv4 (
      codes "# comment"
      ∷ codes "2|apnic|20240101|5|19830101|20240101|+1000"
      ∷ codes "apnic|*|ipv4|*|5|summary"
      ∷ codes "apnic|AU|ipv4|1.0.0.0|256|20110811|assigned|A91872ED"
      ∷ codes "apnic|ZZ|ipv4|1.0.0.0|256||reserved|"
      ∷ [])
    ≡ record { start = 0x01000000; end = 0x010000ff; cc = record { hi = b'A'; lo = b'U' } } ∷ []
unfolding parse_delegated_extended
parse_delegated_extended-test = refl

reads_address : parse_ipv4 (codes "1.0.0.0") ≡ some 0x01000000
unfolding text_beq
reads_address = refl

is_status :
    text_beq (codes "assigned") (codes "allocated")
      || text_beq (codes "assigned") (codes "assigned")
    ≡ true
unfolding text_beq
is_status = refl

no_or : (a b : Bool) → a || b ≡ false → a ≡ false
no_or a b h = ground arith

rest_no : (a b : Bool) → a || b ≡ false → b ≡ false
rest_no a b h = ground arith

abbrev has_bar : Text → Bool
has_bar [] = false
has_bar (c ∷ s) = (c == b'|') || has_bar s

Lacks-bar : (s : Text) → has_bar s ≡ false → Lacks (λ c. c == b'|') s
Lacks-bar [] h = tt
Lacks-bar (c ∷ s) h =
    (no_or (c == b'|') (has_bar s) h, Lacks-bar s (rest_no (c == b'|') (has_bar s) h))

no_bars : All (Lacks (λ c. c == b'|')) (
    codes "apnic"
    ∷ codes "AU"
    ∷ codes "1.0.0.0"
    ∷ codes "20110811"
    ∷ codes "assigned"
    ∷ codes "A91872ED"
    ∷ [])
no_bars = (
  Lacks-bar (codes "apnic") refl,
  (
    Lacks-bar (codes "AU") refl,
    (
      Lacks-bar (codes "1.0.0.0") refl,
      (
        Lacks-bar (codes "20110811") refl,
        (Lacks-bar (codes "assigned") refl, (Lacks-bar (codes "A91872ED") refl, tt)),
      ),
    ),
  ),
)

parse_line-delegated_line_example :
    parse_line parse_ipv4 (
      delegated_line
        (codes "apnic")
        b'A'
        b'U'
        (codes "1.0.0.0")
        256
        (codes "20110811")
        (codes "assigned")
        (codes "A91872ED" ∷ []))
    ≡ some (record {
      start = 0x01000000;
      end = 0x01000000 + 256 - 1;
      cc = record { hi = b'A'; lo = b'U' };
    })
parse_line-delegated_line_example =
    parse_line-delegated_line parse_ipv4 b'a' (codes "pnic") b'A' b'U' 0x01000000 (codes "1.0.0.0")
      256 (codes "20110811") (codes "assigned") (codes "A91872ED" ∷ []) refl no_bars (omega arith)
      (omega arith) is_status reads_address (omega arith) (omega arith) (omega arith)
