-- ===== src/Geoip/Owner.antt =====
-- What a list of ranges says of an address, independently of how it is searched: the country of
-- the first range that contains it. The binary search of internal/geoip/geoip.go finds just that.
use native.Mathlib.Nat.{le_refl}
use shadow_stat.Base.{
  ℕ, zero, suc, ◌+◌, ◌-◌, ◌/◌, ◌≤◌, ◌<◌, ◌≡◌, refl, inl, inr, Bool, true, false, ◌&&◌, Option, none,
  some, List, [], ◌∷◌, arith, ltb, leb, if◌then◌else◌, length, get_elem?, Bool-cases,
}
use shadow_stat.Geoip.Table.{Range, Country}
use shadow_stat.Geoip.Lookup.{search_loop, search_index, ends_at_or_after, answer, lookup_target}

abbrev pub covers : Range → ℕ → Bool
covers r a = leb r.start a && leb a r.end

unfoldable pub owner : List Range → ℕ → Option Country
owner [] a = none
owner (r ∷ rest) a = let later = owner rest a in if covers r a then some r.cc else later

-- Ranges from `lo` upwards, each nonempty, in order, with no address in two of them.
abbrev pub IsTableFrom : ℕ → List Range → Type 0
IsTableFrom lo [] = Unit
IsTableFrom lo (r ∷ rest) = (lo ≤ r.start) × (r.start ≤ r.end) × IsTableFrom (r.end + 1) rest

pub owner_below :
    (lo : ℕ) (rs : List Range) (a : ℕ) → IsTableFrom lo rs → a < lo → owner rs a ≡ none
unfolding owner
owner_below lo [] a h lt = refl
owner_below lo (r ∷ rest) a h lt = ground (arith, owner_below (r.end + 1) rest a h.2)

-- `s` is where `f` turns from false to true.
record IsTurn (f : ℕ → Bool) (s : ℕ) : Type 0 where
  before : (k : ℕ) → k < s → f k ≡ false
  after : (k : ℕ) → s ≤ k → f k ≡ true

-- What sort.Search asks of its argument.
abbrev IsMonotone : (ℕ → Bool) → Type 0
IsMonotone f = (i j : ℕ) → i ≤ j → f i ≡ true → f j ≡ true

false_before : (f : ℕ → Bool) → IsMonotone f → (i k : ℕ) → f i ≡ false → k ≤ i → f k ≡ false
false_before f mono i k miss le = ground (arith, mono k i le)

search_loop-IsTurn :
    (f : ℕ → Bool)
    → IsMonotone f
    → (fuel i j : ℕ) → i ≤ j
    → j - i ≤ fuel
    → ((k : ℕ) → k < i → f k ≡ false)
    → ((k : ℕ) → j ≤ k → f k ≡ true)
    → IsTurn f (search_loop fuel f i j)
unfolding search_loop
search_loop-IsTurn f mono zero i j le m below above = record {
  before = below;
  after = λ k p. above k (omega arith);
}
search_loop-IsTurn f mono (suc fuel) i j le m below above = elim (Bool-cases (ltb i j)) [
  | inl more ↦ elim (Bool-cases (f ((i + j) / 2))) [
    | inl hit ↦
        let e : search_loop (suc fuel) f i j ≡ search_loop fuel f i ((i + j) / 2) = ground arith in
        rw e (
          search_loop-IsTurn f mono fuel i ((i + j) / 2) (omega arith) (ground arith) below
            (λ k p. mono ((i + j) / 2) k p hit))
    | inr miss ↦
        let e : search_loop (suc fuel) f i j ≡ search_loop fuel f ((i + j) / 2 + 1) j =
          ground arith in
        rw e (
          search_loop-IsTurn f mono fuel ((i + j) / 2 + 1) j (ground arith) (ground arith)
            (λ k p. false_before f mono ((i + j) / 2) k miss (omega arith)) above)
  ]
  | inr done ↦
      let e : search_loop (suc fuel) f i j ≡ i = ground arith in
      rw e (record { before = below; after = λ k p. above k (ground arith) })
]

turn_unique : (f : ℕ → Bool) (s t : ℕ) → IsTurn f s → IsTurn f t → s ≡ t
turn_unique f s t p q =
    ground (arith, p.before t, p.after s (le_refl s), q.before s, q.after t (le_refl t))

-- How many ranges at the front end before the address.
ranges_before : List Range → ℕ → ℕ
ranges_before [] a = 0
ranges_before (r ∷ rest) a = let n = ranges_before rest a in if leb a r.end then 0 else suc n

ends_above :
    (lo : ℕ) (rs : List Range) (a : ℕ)
    → IsTableFrom lo rs
    → a ≤ lo
    → (j : ℕ) → ends_at_or_after rs a j ≡ true
unfolding ends_at_or_after
ends_above lo [] a h le j = refl
ends_above lo (r ∷ rest) a h le zero = ground arith
ends_above lo (r ∷ rest) a h le (suc j) = ends_above (r.end + 1) rest a h.2 (omega arith) j

ends-IsMonotone :
    (lo : ℕ) (rs : List Range) (a : ℕ) → IsTableFrom lo rs → IsMonotone (ends_at_or_after rs a)
unfolding ends_at_or_after
ends-IsMonotone lo [] a h i j le e = refl
ends-IsMonotone lo (r ∷ rest) a h zero zero le e = e
ends-IsMonotone lo (r ∷ rest) a h zero (suc j) le e =
    ends_above (r.end + 1) rest a h.2 (ground arith) j
ends-IsMonotone lo (r ∷ rest) a h (suc i) zero le e = absurd (omega arith)
ends-IsMonotone lo (r ∷ rest) a h (suc i) (suc j) le e =
    ends-IsMonotone (r.end + 1) rest a h.2 i j (omega arith) e

before_suc :
    (r : Range) (rest : List Range) (a : ℕ) {n : ℕ}
    → leb a r.end ≡ false
    → ((k : ℕ) → k < n → ends_at_or_after rest a k ≡ false)
    → (k : ℕ) → k < suc n
    → ends_at_or_after (r ∷ rest) a k ≡ false
unfolding ends_at_or_after
before_suc r rest a miss h zero p = miss
before_suc r rest a miss h (suc k) p = h k (omega arith)

after_suc :
    (r : Range) (rest : List Range) (a : ℕ) {n : ℕ}
    → ((k : ℕ) → n ≤ k → ends_at_or_after rest a k ≡ true)
    → (k : ℕ) → suc n ≤ k
    → ends_at_or_after (r ∷ rest) a k ≡ true
unfolding ends_at_or_after
after_suc r rest a h zero p = absurd (omega arith)
after_suc r rest a h (suc k) p = h k (omega arith)

ranges_before-IsTurn :
    (lo : ℕ) (rs : List Range) (a : ℕ)
    → IsTableFrom lo rs
    → IsTurn (ends_at_or_after rs a) (ranges_before rs a)
unfolding ranges_before ends_at_or_after
ranges_before-IsTurn lo [] a h = record {
  before = λ k p. absurd (omega arith);
  after = λ k p. refl;
}
ranges_before-IsTurn lo (r ∷ rest) a h =
    let ih = ranges_before-IsTurn (r.end + 1) rest a h.2 in
    elim (Bool-cases (leb a r.end)) [
      | inl hit ↦
          let e : ranges_before (r ∷ rest) a ≡ 0 = ground arith in
          rw e (record {
            before = λ k p. absurd (omega arith);
            after = λ k p. ends-IsMonotone lo (r ∷ rest) a h 0 k p hit;
          })
      | inr miss ↦
          let e : ranges_before (r ∷ rest) a ≡ suc (ranges_before rest a) = ground arith in
          rw e (record {
            before = before_suc r rest a miss ih.before;
            after = after_suc r rest a ih.after;
          })
    ]

answer-ranges_before :
    (lo : ℕ) (rs : List Range) (a : ℕ)
    → IsTableFrom lo rs
    → answer a (get_elem? rs (ranges_before rs a)) ≡ owner rs a
unfolding ranges_before answer owner
answer-ranges_before lo [] a h = refl
answer-ranges_before lo (r ∷ rest) a h =
    ground (arith, answer-ranges_before (r.end + 1) rest a h.2, owner_below (r.end + 1) rest a h.2)

ends_past_end : (rs : List Range) (a k : ℕ) → length rs ≤ k → ends_at_or_after rs a k ≡ true
unfolding ends_at_or_after
ends_past_end [] a k p = refl
ends_past_end (r ∷ rest) a zero p = absurd (omega arith)
ends_past_end (r ∷ rest) a (suc k) p = ends_past_end rest a k (omega arith)

search_index-eq-ranges_before :
    (lo : ℕ) (rs : List Range) (a : ℕ)
    → IsTableFrom lo rs
    → search_index (length rs) (ends_at_or_after rs a) ≡ ranges_before rs a
unfolding search_index
search_index-eq-ranges_before lo rs a h =
    turn_unique (ends_at_or_after rs a) _ _
      (search_loop-IsTurn (ends_at_or_after rs a) (ends-IsMonotone lo rs a h) (length rs) 0
        (length rs) (omega arith) (omega arith) (λ k p. absurd (omega arith)) (ends_past_end rs a))
      (ranges_before-IsTurn lo rs a h)

-- On a table in order the binary search returns the country of the range that contains the
-- address, and nothing where no range does.
pub lookup_target-eq-owner :
    (rs : List Range) (target : ℕ) → IsTableFrom 0 rs → lookup_target rs target ≡ owner rs target
unfolding lookup_target
lookup_target-eq-owner rs target h =
    rw (search_index-eq-ranges_before 0 rs target h) (answer-ranges_before 0 rs target h)
