-- ===== src/Geoip/Merge.antt =====
-- resolveOverlapsAndMergeAdjacent of tools/geoip-gen/main.go keeps every address with the country
-- of the first record that claims it, and leaves a table in order.
use mathlib.Core.List.{append_assoc}
use native.Mathlib.Nat.{le_refl}
use shadow_stat.Base.{
  ℕ, ◌+◌, ◌≤◌, ◌<◌, ◌≡◌, refl, sym, ◌∙◌, inl, inr, none, List, [], ◌∷◌, ◌++◌, arith, ltb,
  Bool-cases, All, All-append,
}
use shadow_stat.Geoip.Table.{
  Range, u32_mod, resolve_step, resolve_loop, resolve_overlaps_and_merge_adjacent,
}
use shadow_stat.Geoip.Codec.{Fits}
use shadow_stat.Geoip.Owner.{owner, owner_below, IsTableFrom}

-- The records as main() hands them over: sorted by start, each with its bounds in order.
abbrev pub IsClaimsFrom : ℕ → List Range → Type 0
IsClaimsFrom lo [] = Unit
IsClaimsFrom lo (r ∷ rest) =
    (lo ≤ r.start) × (r.start ≤ r.end) × (r.end < u32_mod) × IsClaimsFrom r.start rest

-- What the loop appends to `out` from `cur` on.
merged_from : Range → List Range → List Range
merged_from cur [] = cur ∷ []
merged_from cur (r ∷ rest) = let s = resolve_step cur r in s.emitted ++ merged_from s.cur rest

resolve_loop-eq :
    (out : List Range) (cur : Range) (rs : List Range)
    → resolve_loop out cur rs ≡ out ++ merged_from cur rs
unfolding resolve_loop merged_from
resolve_loop-eq out cur [] = refl
resolve_loop-eq out cur (r ∷ rest) = simp (
  resolve_loop-eq (out ++ (resolve_step cur r).emitted) (resolve_step cur r).cur rest,
  append_assoc,
)

-- No record is lost: `cur` starts no earlier than it did, and ends no earlier than `r`.
record IsRange (lo : ℕ) (r : Range) : Type 0 where
  from : lo ≤ r.start
  ordered : r.start ≤ r.end
  fits : r.end < u32_mod

merged_from-IsTableFrom :
    (lo c : ℕ) (cur : Range) (rs : List Range)
    → IsRange lo cur
    → IsClaimsFrom c rs
    → IsTableFrom lo (merged_from cur rs)
unfolding merged_from resolve_step
merged_from-IsTableFrom lo c cur [] h k = (h.from, h.ordered, tt)
merged_from-IsTableFrom lo c cur (r ∷ rest) h k = ground (
  arith,
  merged_from-IsTableFrom lo r.start (resolve_step cur r).cur rest,
  merged_from-IsTableFrom (cur.end + 1) r.start (resolve_step cur r).cur rest,
)

owner_below_claims :
    (lo : ℕ) (rs : List Range) (a : ℕ) → IsClaimsFrom lo rs → a < lo → owner rs a ≡ none
unfolding owner
owner_below_claims lo [] a h lt = refl
owner_below_claims lo (r ∷ rest) a h lt = ground (arith, owner_below_claims r.start rest a h.3)

resolve_step-IsRange :
    (cur r : Range)
    → cur.start ≤ cur.end
    → cur.end < u32_mod
    → r.start ≤ r.end
    → r.end < u32_mod
    → IsRange 0 (resolve_step cur r).cur
unfolding resolve_step
resolve_step-IsRange cur r h f k m = ground arith

-- One round, with `t` for what the later rounds give.
owner-round :
    (cur r : Range) (rest t : List Range) (a : ℕ)
    → cur.start ≤ cur.end
    → cur.end < u32_mod
    → cur.start ≤ a
    → r.start ≤ r.end
    → r.end < u32_mod
    → ((resolve_step cur r).cur.start ≤ a → owner t a ≡ owner ((resolve_step cur r).cur ∷ rest) a)
    → (r.start ≤ (resolve_step cur r).cur.start → a < r.start → owner t a ≡ none)
    → (a < r.start → owner rest a ≡ none)
    → owner ((resolve_step cur r).emitted ++ t) a ≡ owner (cur ∷ r ∷ rest) a
unfolding resolve_step owner
owner-round cur r rest t a o f le ro rf later gap below = ground arith

owner-merged_from :
    (c : ℕ) (cur : Range) (rs : List Range) (a : ℕ)
    → cur.start ≤ cur.end
    → cur.end < u32_mod
    → IsClaimsFrom c rs
    → cur.start ≤ a
    → owner (merged_from cur rs) a ≡ owner (cur ∷ rs) a
unfolding merged_from
owner-merged_from c cur [] a h f k le = refl
owner-merged_from c cur (r ∷ rest) a h f k le =
    let s = resolve_step-IsRange cur r h f k.1 k.2 in
    owner-round cur r rest (merged_from (resolve_step cur r).cur rest) a h f le k.1 k.2
      (owner-merged_from r.start (resolve_step cur r).cur rest a s.ordered s.fits k.3)
      (λ p lt.
        owner_below r.start _ a
          (merged_from-IsTableFrom r.start r.start (resolve_step cur r).cur rest
            (record { from = p; ordered = s.ordered; fits = s.fits }) k.3)
          lt)
      (owner_below_claims r.start rest a k.3)

-- From sorted claims the generator makes a table in order: nonempty ranges, no address twice.
pub resolve-IsTableFrom :
    (rs : List Range) → IsClaimsFrom 0 rs → IsTableFrom 0 (resolve_overlaps_and_merge_adjacent rs)
unfolding resolve_overlaps_and_merge_adjacent
resolve-IsTableFrom [] h = tt
resolve-IsTableFrom (r ∷ rest) h = rw (resolve_loop-eq [] r rest) (
    merged_from-IsTableFrom 0 r.start r rest
      (record { from = omega arith; ordered = h.1; fits = h.2 }) h.3)

-- The table that the generator makes of sorted claims gives every address the country of the
-- first claim that contains it, and no country where no claim does.
pub owner-resolve :
    (rs : List Range) (a : ℕ)
    → IsClaimsFrom 0 rs
    → owner (resolve_overlaps_and_merge_adjacent rs) a ≡ owner rs a
unfolding resolve_overlaps_and_merge_adjacent
owner-resolve [] a h = refl
owner-resolve (r ∷ rest) a h = rw (resolve_loop-eq [] r rest) (elim (Bool-cases (ltb a r.start)) [
  | inl lt ↦
      owner_below r.start (merged_from r rest) a
        (merged_from-IsTableFrom r.start r.start r rest
          (record { from = le_refl r.start; ordered = h.1; fits = h.2 }) h.3)
        (ground arith)
      ∙ sym
          (owner_below_claims r.start (r ∷ rest) a (le_refl r.start, h.1, h.2, h.3) (ground arith))
  | inr ge ↦ owner-merged_from r.start r rest a h.1 h.2 h.3 (ground arith)
])

range-Fits : {lo : ℕ} {r : Range} → IsRange lo r → Fits r
range-Fits h = record { start_fits = ground (arith, h.ordered, h.fits); end_fits = h.fits }

emitted-Fits : (cur r : Range) → IsRange 0 cur → All Fits (resolve_step cur r).emitted
unfolding resolve_step
emitted-Fits cur r h = ground (arith, range-Fits h)

merged_from-Fits :
    (c : ℕ) (cur : Range) (rs : List Range)
    → IsRange 0 cur
    → IsClaimsFrom c rs
    → All Fits (merged_from cur rs)
unfolding merged_from
merged_from-Fits c cur [] h k = (range-Fits h, tt)
merged_from-Fits c cur (r ∷ rest) h k =
    let s = resolve_step-IsRange cur r h.ordered h.fits k.1 k.2 in
    All-append Fits (resolve_step cur r).emitted (merged_from (resolve_step cur r).cur rest)
      (emitted-Fits cur r h) (merged_from-Fits r.start (resolve_step cur r).cur rest s k.3)

pub resolve-Fits :
    (rs : List Range) → IsClaimsFrom 0 rs → All Fits (resolve_overlaps_and_merge_adjacent rs)
unfolding resolve_overlaps_and_merge_adjacent
resolve-Fits [] h = tt
resolve-Fits (r ∷ rest) h =
    rw (resolve_loop-eq [] r rest) (
      merged_from-Fits r.start r rest (record { from = omega arith; ordered = h.1; fits = h.2 })
        h.3)
