-- ===== src/Capture/Pipeline/Cache.antt =====
-- The host cache agrees with the table of hosts.
use shadow_stat.Base.{
  ℕ, ◌≡◌, refl, String, true, false, some, List, ◌∷◌, inl, inr, str_eq, str_eq_iff, string_eq,
  arith, Bool-cases, Option-cases,
}
use shadow_stat.Base.Assoc.{lookup, insert, lookup-insert}
use shadow_stat.Store.Hosts.{Hosts}
use shadow_stat.Store.Hosts.Lookup.{
  HasHost, Keeps, Keeps-refl, Keeps-trans, IsUpserted, upsert_host-IsUpserted, set_host_mac-Keeps,
}
use shadow_stat.Capture.Pipeline.{Pipeline, Failures, is_bumped, refresh_mac, resolve_host}

-- Every cached id is the id of a host with that address.
pub record IsCached (cache : List (String × ℕ)) (t : Hosts) : Type 0 where
  pub cached : (ip : String) (id : ℕ) → lookup ip cache ≡ some id → HasHost id ip t

pub IsCached-kept :
    (cache : List (String × ℕ)) (t t' : Hosts) → Keeps t t' → IsCached cache t → IsCached cache t'
IsCached-kept cache t t' k c = record { cached = λ ip id h. k.kept id ip (c.cached ip id h) }

pub insert-IsCached :
    (ip : String) (id : ℕ) (cache : List (String × ℕ)) (t t' : Hosts)
    → IsUpserted ip t id t'
    → IsCached cache t
    → IsCached (insert ip id cache) t'
insert-IsCached ip id cache t t' u c = record {
  cached = λ j i h. elim (Bool-cases (str_eq ip j)) [
    | inl same ↦ ground (arith, u.host, lookup-insert ip j id cache, str_eq_iff ip j)
    | inr other ↦ u.keeps.kept i j (c.cached j i (ground (arith, lookup-insert ip j id cache)))
  ];
}

-- Also an address that this flush has touched is cached.
pub record IsCoherent (p : Pipeline) (t : Hosts) : Type 0 where
  pub cache : IsCached p.host_cache t
  pub bumped :
      (ip : String)
      → is_bumped ip p.bumped_this_flush ≡ true
      → (id : ℕ) × (lookup ip p.host_cache ≡ some id)

-- What a call of resolveHost that answers `id` leaves behind.
pub record IsResolved (ip : String) (p : Pipeline) (t : Hosts) (id : ℕ) (p' : Pipeline) (t' : Hosts)
    : Type 0 where
  pub coherent : IsCoherent p' t'
  pub keeps : Keeps t t'
  pub host : HasHost id ip t'
  pub agg : p'.agg ≡ p.agg

pub refresh_mac-Keeps :
    (e : Failures) (ip : String) (id : ℕ) (p : Pipeline) (t : Hosts)
    → Keeps t (refresh_mac e ip id p t)
unfolding refresh_mac
refresh_mac-Keeps e ip id p t = elim (Option-cases (lookup ip p.mac_by_ip)) [
  | inl none_there ↦ rw (refresh_mac, none_there) (Keeps-refl t)
  | inr (mac, there) ↦ elim (Bool-cases (str_eq mac "")) [
    | inl empty ↦ rw (refresh_mac, there, empty) (Keeps-refl t)
    | inr full ↦ elim (set_host_mac-Keeps (e.set_mac_of ip) id mac t) [
      | inl failed ↦ rw (refresh_mac, there, full, failed) (Keeps-refl t)
      | inr (t', worked, k) ↦ rw (refresh_mac, there, full, worked) k
    ]
  ]
]

IsCoherent-kept : (p : Pipeline) (t t' : Hosts) → Keeps t t' → IsCoherent p t → IsCoherent p t'
IsCoherent-kept p t t' k c = record {
  cache = IsCached-kept p.host_cache t t' k c.cache;
  bumped = c.bumped;
}

bump-IsCoherent :
    (ip : String) (id : ℕ) (p : Pipeline) (t : Hosts)
    → lookup ip p.host_cache ≡ some id
    → IsCoherent p t
    → IsCoherent (record p { bumped_this_flush = ip ∷ p.bumped_this_flush }) t
bump-IsCoherent ip id p t h c = record {
  cache = c.cache;
  bumped = λ j b. elim (Bool-cases (str_eq ip j)) [
    | inl same ↦ (id, ground (arith, str_eq_iff ip j))
    | inr other ↦ c.bumped j (ground arith)
  ];
}

insert-IsCoherent :
    (ip : String) (id : ℕ) (p : Pipeline) (t t' : Hosts)
    → IsUpserted ip t id t'
    → IsCoherent p t
    → IsCoherent
        (record p {
          bumped_this_flush = ip ∷ p.bumped_this_flush;
          host_cache = insert ip id p.host_cache;
        })
        t'
insert-IsCoherent ip id p t t' u c = record {
  cache = insert-IsCached ip id p.host_cache t t' u c.cache;
  bumped = λ j b. elim (Bool-cases (str_eq ip j)) [
    | inl same ↦ (id, ground (arith, lookup-insert ip j id p.host_cache))
    | inr other ↦ (
      (c.bumped j (ground arith)).0,
      ground (arith, (c.bumped j (ground arith)).1, lookup-insert ip j id p.host_cache),
    )
  ];
}

-- While the upserts work, resolveHost answers with the id of a host that has the address, and the
-- cache and the table stay in agreement.
pub resolve_host-IsResolved :
    (e : Failures) (ip : String) (seen_at : ℕ) (p : Pipeline) (t : Hosts)
    → e.upsert_host_of ip ≡ false
    → IsCoherent p t
    → (id : ℕ) × (p' : Pipeline) × (t' : Hosts) × (resolve_host e ip seen_at p t
        ≡ (some id, (p', t')))
      × IsResolved ip p t id p' t'
unfolding resolve_host
resolve_host-IsResolved e ip seen_at p t works c =
    elim (Bool-cases (is_bumped ip p.bumped_this_flush)) [
      | inl done ↦
          rw (resolve_host, done, (c.bumped ip done).1)
            (
              (c.bumped ip done).0,
              p,
              t,
              refl,
              record {
                coherent = c;
                keeps = Keeps-refl t;
                host = c.cache.cached ip (c.bumped ip done).0 (c.bumped ip done).1;
                agg = refl;
              },
            )
      | inr fresh ↦
          let u = upsert_host-IsUpserted ip seen_at t in
          elim (Option-cases (lookup ip p.host_cache)) [
            | inl absent ↦
                rw (resolve_host, fresh, absent, works, u.2)
                  (
                    u.0,
                    _,
                    _,
                    refl,
                    record {
                      coherent =
                          IsCoherent-kept _ u.1 _ (refresh_mac-Keeps e ip u.0 p u.1)
                            (insert-IsCoherent ip u.0 p t u.1 u.3 c);
                      keeps = Keeps-trans t u.1 _ (u.3).keeps (refresh_mac-Keeps e ip u.0 p u.1);
                      host = (refresh_mac-Keeps e ip u.0 p u.1).kept u.0 ip (u.3).host;
                      agg = refl;
                    },
                  )
            | inr (id, there) ↦
                rw (resolve_host, fresh, there, works, u.2)
                  (
                    id,
                    _,
                    _,
                    refl,
                    (let k =
                          Keeps-trans t u.1 (refresh_mac e ip id p u.1) (u.3).keeps
                            (refresh_mac-Keeps e ip id p u.1) in
                        record {
                          coherent = IsCoherent-kept _ t _ k (bump-IsCoherent ip id p t there c);
                          keeps = k;
                          host = k.kept id ip (c.cache.cached ip id there);
                          agg = refl;
                        }),
                  )
          ]
    ]
