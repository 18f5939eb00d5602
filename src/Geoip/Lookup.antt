-- ===== src/Geoip/Lookup.antt =====
-- CountryForIP of internal/geoip/geoip.go, over the sort.Search of the Go library.
use shadow_stat.Base.{
  ℕ, zero, suc, ◌+◌, ◌/◌, Bool, true, false, Option, none, some, List, ltb, leb, if◌then◌else◌,
  length, get_elem?,
}
use shadow_stat.Geoip.Table.{Range, Country}

-- for i < j { h := (i + j) / 2; if !f(h) { i = h + 1 } else { j = h } }, with fuel
unfoldable pub search_loop : ℕ → (ℕ → Bool) → ℕ → ℕ → ℕ
search_loop zero f i j = i
search_loop (suc fuel) f i j = elim (ltb i j) [
  | false ↦ i
  | true ↦
      let h = (i + j) / 2 in
      elim (f h) [ false ↦ search_loop fuel f (h + 1) j | true ↦ search_loop fuel f i h ]
]

-- The range halves, so `n` rounds are enough for a range of `n`.
unfoldable pub search_index : ℕ → (ℕ → Bool) → ℕ
unfolding search_loop
search_index n f = search_loop n f 0 n

-- table[i].end >= target; an index out of range is not asked for
unfoldable pub ends_at_or_after : List Range → ℕ → ℕ → Bool
ends_at_or_after table target i = elim (get_elem? table i) [
  | none ↦ true
  | some r ↦ leb target r.end
]

unfoldable pub answer : ℕ → Option Range → Option Country
answer target none = none
answer target (some r) = if leb r.start target then some r.cc else none

-- The lookup of an IPv4 address, as a `uint32`.
unfoldable pub lookup_target : List Range → ℕ → Option Country
unfolding answer search_index ends_at_or_after
lookup_target table target =
    answer target (get_elem? table (search_index (length table) (ends_at_or_after table target)))

-- ip.To4() is `none` for an address that is not IPv4
unfoldable pub country_for_ip : List Range → Option ℕ → Option Country
unfolding lookup_target
country_for_ip table none = none
country_for_ip table (some target) = lookup_target table target
