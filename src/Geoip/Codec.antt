-- ===== src/Geoip/Codec.antt =====
-- writeTable of tools/geoip-gen/main.go against parseTable of internal/geoip/geoip.go.
use shadow_stat.Base.{ℕ, ◌*◌, ◌/◌, ◌%◌, ◌^◌, ◌<◌, ◌≡◌, refl, List, [], ◌∷◌, All, length, arith}
use shadow_stat.Geoip.Table.{Range, u32_mod, get_u32, write_table, parse_records, parse_table}

-- The bounds of a range fit four bytes.
pub record Fits (r : Range) : Type 0 where
  pub start_fits : r.start < u32_mod
  pub end_fits : r.end < u32_mod

get_u32-bytes :
    (v : ℕ)
    → v < u32_mod
    → get_u32 (v / 2 ^ 24 % 256) (v / 2 ^ 16 % 256) (v / 2 ^ 8 % 256) (v % 256) ≡ v
unfolding get_u32
get_u32-bytes v h = omega arith

length-write_table : (rs : List Range) → length (write_table rs) ≡ 10 * length rs
unfolding write_table
length-write_table [] = refl
length-write_table (r ∷ rest) = omega (arith, length-write_table rest)

parse_records-write_table :
    (rs : List Range) → All Fits rs → parse_records (length rs) (write_table rs) ≡ rs
unfolding parse_records write_table
parse_records-write_table [] h = refl
parse_records-write_table (r ∷ rest) h = rw (
  get_u32-bytes r.start h.0.start_fits,
  get_u32-bytes r.end h.0.end_fits,
  parse_records-write_table rest h.1,
)

-- Reading a table that was written gives its records back, in order, when their bounds are 32-bit.
pub parse_table-write_table : (rs : List Range) → All Fits rs → parse_table (write_table rs) ≡ rs
unfolding parse_table
parse_table-write_table rs h =
    let n : length (write_table rs) / 10 ≡ length rs = omega (arith, length-write_table rs) in
    rw n (parse_records-write_table rs h)
