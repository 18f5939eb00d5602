-- ===== src/Capture/Pipeline/Stores.antt =====
-- What a flush writes when the store works.
use shadow_stat.Base.{ℕ, ◌≡◌, refl, ◌∙◌, String, false, List, [], ◌∷◌}
use shadow_stat.Store.Hosts.{Hosts}
use shadow_stat.Store.Hosts.Lookup.{HasHost, Keeps, Keeps-refl, Keeps-trans}
use shadow_stat.Capture.Pipeline.{Pipeline, Store, Failures}
use shadow_stat.Capture.Pipeline.Flush.{resolve_each}
use shadow_stat.Capture.Pipeline.Cache.{IsCoherent, resolve_host-IsResolved}

-- No call of the store fails.
pub record IsWorking (e : Failures) : Type 0 where
  pub upserts : (ip : String) → e.upsert_host_of ip ≡ false
  pub begins : e.begin_flows ≡ false
  pub commits : e.commit_flows ≡ false
  pub inserts : (i : ℕ) → e.insert_flows_chunk i ≡ false

module _ {A R : Type 0} (ip_of : A → String) (make : ℕ → A → R) where
  -- One record for each element, with the id of a host that has the element's address.
  abbrev pub AreRecords : Hosts → List A → List R → Type 0
  AreRecords t [] rs = rs ≡ []
  AreRecords t (x ∷ xs) rs =
      (id : ℕ) × (rest : List R) × (rs ≡ make id x ∷ rest)
      × HasHost id (ip_of x) t
      × AreRecords t xs rest

  -- Where a pass over the elements ends.
  pub record IsPass (p : Pipeline) (t : Hosts) (xs : List A) (r : List R × (Pipeline × Hosts))
      : Type 0 where
    pub coherent : IsCoherent r.1.0 r.1.1
    pub keeps : Keeps t r.1.1
    pub records : AreRecords r.1.1 xs r.0
    pub agg : (r.1.0).agg ≡ p.agg

  pub resolve_each-IsPass :
      (e : Failures) (now : ℕ) (xs : List A) (p : Pipeline) (t : Hosts)
      → ((ip : String) → e.upsert_host_of ip ≡ false)
      → IsCoherent p t
      → IsPass p t xs (resolve_each ip_of make e now xs p t)
  unfolding resolve_each
  resolve_each-IsPass e now [] p t works c = record {
    coherent = c;
    keeps = Keeps-refl t;
    records = refl;
    agg = refl;
  }
  resolve_each-IsPass e now (x ∷ rest) p t works c =
      let r = resolve_host-IsResolved e (ip_of x) now p t (works (ip_of x)) c in
      let s = resolve_each-IsPass e now rest r.1 r.2 works (r.4).coherent in
      rw (resolve_each, r.3)
        (record {
          coherent = s.coherent;
          keeps = Keeps-trans t r.2 _ (r.4).keeps s.keeps;
          records = (r.0, _, refl, s.keeps.kept r.0 (ip_of x) (r.4).host, s.records);
          agg = s.agg ∙ (r.4).agg;
        })
