-- ===== src/Geoip/Table.antt =====
-- The table: `record` of both programs, resolveOverlapsAndMergeAdjacent and writeTable of
-- tools/geoip-gen/main.go, parseTable of internal/geoip/geoip.go. A `uint32` is a number below
-- 2 ^ 32 and a byte one below 256; sums wrap as in Go.
use shadow_stat.Base.{
  ℕ, zero, suc, ◌+◌, ◌*◌, ◌/◌, ◌%◌, ◌^◌, Bool, ◌&&◌, not, List, [], ◌∷◌, ◌++◌, ltb, leb, ◌==◌,
  if◌then◌else◌, length, take, drop,
}

-- cc: two ASCII letters
pub record Country : Type 0 where
  pub hi : ℕ
  pub lo : ℕ

unfoldable pub same_country : Country → Country → Bool
same_country c d = c.hi == d.hi && c.lo == d.lo

pub record Range : Type 0 where
  pub start : ℕ
  -- inclusive
  pub end : ℕ
  pub cc : Country

abbrev pub u32_mod : ℕ
u32_mod = 2 ^ 32

abbrev pub add_u32 : ℕ → ℕ → ℕ
add_u32 a b = (a + b) % u32_mod

-- What one round of the loop appends to `out`, and the new `cur`.
pub record Round : Type 0 where
  pub emitted : List Range
  pub cur : Range

unfoldable pub resolve_step : Range → Range → Round
unfolding same_country
resolve_step cur r =
    let true_overlap = leb r.start cur.end in
    if same_country r.cc cur.cc && leb r.start (add_u32 cur.end 1)
    then record {
      emitted = [];
      cur = if ltb cur.end r.end then record cur { end = r.end } else cur;
    }
    else if not true_overlap
    then record { emitted = cur ∷ []; cur = r }
    else if ltb cur.end r.end
    then record {
      emitted = cur ∷ [];
      cur = record { start = add_u32 cur.end 1; end = r.end; cc = r.cc };
    }
    else record { emitted = []; cur = cur }

unfoldable pub resolve_loop : List Range → Range → List Range → List Range
resolve_loop out cur [] = out ++ cur ∷ []
resolve_loop out cur (r ∷ rest) =
    let s = resolve_step cur r in resolve_loop (out ++ s.emitted) s.cur rest

unfoldable pub resolve_overlaps_and_merge_adjacent : List Range → List Range
unfolding resolve_loop resolve_step
resolve_overlaps_and_merge_adjacent [] = []
resolve_overlaps_and_merge_adjacent (r ∷ rest) = resolve_loop [] r rest

-- binary.BigEndian.PutUint32, and the bytes that follow
unfoldable pub put_u32 : ℕ → List ℕ → List ℕ
put_u32 v rest = (v / 2 ^ 24 % 256) ∷ (v / 2 ^ 16 % 256) ∷ (v / 2 ^ 8 % 256) ∷ (v % 256) ∷ rest

-- binary.BigEndian.Uint32
unfoldable pub get_u32 : ℕ → ℕ → ℕ → ℕ → ℕ
get_u32 a b c d = ((a * 256 + b) * 256 + c) * 256 + d

unfoldable pub write_table : List Range → List ℕ
unfolding put_u32
write_table [] = []
write_table (r ∷ rest) = put_u32 r.start (put_u32 r.end (r.cc.hi ∷ r.cc.lo ∷ write_table rest))

abbrev pub record_size : ℕ
record_size = 10

-- The ten bytes of one record; a shorter rest of the file is no record.
unfoldable pub parse_record : List ℕ → List Range
unfolding get_u32
parse_record (a ∷ b ∷ c ∷ d ∷ e ∷ f ∷ g ∷ h ∷ hi ∷ lo ∷ rest) =
    record { start = get_u32 a b c d; end = get_u32 e f g h; cc = record { hi = hi; lo = lo } } ∷ []
parse_record _ = []

-- `n` records from the front of the bytes
unfoldable pub parse_records : ℕ → List ℕ → List Range
unfolding parse_record
parse_records zero bytes = []
parse_records (suc n) bytes =
    parse_record (take record_size bytes) ++ parse_records n (drop record_size bytes)

unfoldable pub parse_table : List ℕ → List Range
unfolding parse_records
parse_table bytes = parse_records (length bytes / record_size) bytes
