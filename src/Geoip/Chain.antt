-- ===== src/Geoip/Chain.antt =====
-- From the sorted claims of the registries to the answer of CountryForIP.
use shadow_stat.Base.{ℕ, ◌≡◌, Option, none, some, List, refl}
use shadow_stat.Geoip.Table.{
  Range, Country, resolve_overlaps_and_merge_adjacent, write_table, parse_table,
}
use shadow_stat.Geoip.Lookup.{country_for_ip}
use shadow_stat.Geoip.Codec.{parse_table-write_table}
use shadow_stat.Geoip.Owner.{owner, lookup_target-eq-owner}
use shadow_stat.Geoip.Merge.{IsClaimsFrom, owner-resolve, resolve-IsTableFrom, resolve-Fits}

unfoldable pub owner_of_ip : List Range → Option ℕ → Option Country
owner_of_ip claims none = none
owner_of_ip claims (some a) = owner claims a

-- For sorted claims: CountryForIP over the embedded file that geoip-gen writes answers, for every
-- IPv4 address, with the country of the first claim that contains it, and with nothing for an
-- address that no claim contains or that is not IPv4.
pub country_for_ip-eq-owner :
    (claims : List Range) (ip : Option ℕ)
    → IsClaimsFrom 0 claims
    → country_for_ip (parse_table (write_table (resolve_overlaps_and_merge_adjacent claims))) ip
      ≡ owner_of_ip claims ip
unfolding country_for_ip owner_of_ip
country_for_ip-eq-owner claims none h = refl
country_for_ip-eq-owner claims (some a) h = rw (
  parse_table-write_table (resolve_overlaps_and_merge_adjacent claims) (resolve-Fits claims h),
  lookup_target-eq-owner (resolve_overlaps_and_merge_adjacent claims) a
      (resolve-IsTableFrom claims h),
  owner-resolve claims a h,
)
