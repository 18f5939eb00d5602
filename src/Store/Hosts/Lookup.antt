-- ===== src/Store/Hosts/Lookup.antt =====
-- A host keeps its id and its address under every statement on the table.
use shadow_stat.Base.{
  ℕ, suc, ◌≤◌, ◌≡◌, refl, ◌∙◌, String, Bool, true, false, ◌&&◌, not, some, List, [], ◌∷◌, ◌++◌,
  ◌==◌, inl, inr, ◌⊎◌, ==_iff, arith, str_eq, str_eq_iff, string_eq, first_where, update_where,
  count_where, count_where-append, count-update_where-same, Option-cases,
}
use shadow_stat.Store.Driver.{ok, err, db_failed}
use shadow_stat.Store.Hosts.{
  Host, Hosts, has_ip, has_host_id, is_text, bump_last_seen, new_host, named, upsert_host,
  set_host_mac,
}

abbrev pub is_host : ℕ → String → Host → Bool
is_host id ip h = (h.id == id) && str_eq h.ip ip

-- There is a host with this id and address.
pub record HasHost (id : ℕ) (ip : String) (t : Hosts) : Type 0 where
  pub exists : 1 ≤ count_where (is_host id ip) t.hosts

-- SQLite gives ids from 1 on.
pub record HasNoZero (t : Hosts) : Type 0 where
  pub absent : count_where (has_host_id 0) t.hosts ≡ 0
  pub next : 1 ≤ t.next_id

-- Every host is still there, and the id 0 is not given.
pub record Keeps (t t' : Hosts) : Type 0 where
  pub kept : (id : ℕ) (ip : String) → HasHost id ip t → HasHost id ip t'
  pub no_zero : HasNoZero t → HasNoZero t'

pub Keeps-refl : (t : Hosts) → Keeps t t
Keeps-refl t = record { kept = λ id ip h. h; no_zero = λ h. h }

pub Keeps-trans : (a b c : Hosts) → Keeps a b → Keeps b c → Keeps a c
Keeps-trans a b c h k = record {
  kept = λ id ip x. k.kept id ip (h.kept id ip x);
  no_zero = λ x. k.no_zero (h.no_zero x);
}

pub updated-Keeps :
    (t : Hosts) (q : Host → Bool) (f : Host → Host)
    → ((h : Host) → (f h).id ≡ h.id)
    → ((h : Host) → (f h).ip ≡ h.ip)
    → Keeps t (record t { hosts = update_where q f t.hosts })
updated-Keeps t q f kid kip = record {
  kept = λ id ip h. record {
    exists =
        rw (count-update_where-same (is_host id ip) q f t.hosts (λ x. rw (kid x) (rw (kip x) refl)))
          h.exists;
  };
  no_zero = λ h. record {
    absent = count-update_where-same (has_host_id 0) q f t.hosts (λ x. rw (kid x) refl) ∙ h.absent;
    next = h.next;
  };
}

pub named-Keeps :
    (mac hostname : String) (t : Hosts) (d : List (String × (String × ℕ)))
    → Keeps t (record t { hosts = named mac hostname t.hosts; dhcp_hostnames = d })
named-Keeps mac hostname t d =
    let k =
      updated-Keeps t (λ h. is_text mac h.mac_address && not (is_text hostname h.display_name))
        (λ h. record h { display_name = some hostname }) (λ h. refl) (λ h. refl) in
    record {
      kept = λ id ip h. record { exists = (k.kept id ip h).exists };
      no_zero = λ h. record { absent = (k.no_zero h).absent; next = h.next };
    }

appended-Keeps :
    (ip : String) (seen_at : ℕ) (t : Hosts)
    → Keeps t (record t {
      hosts = t.hosts ++ new_host t.next_id ip seen_at ∷ [];
      next_id = suc t.next_id;
    })
appended-Keeps ip seen_at t = record {
  kept = λ id j k. record {
    exists = omega (
      arith,
      k.exists,
      count_where-append (is_host id j) t.hosts (new_host t.next_id ip seen_at ∷ []),
    );
  };
  no_zero = λ h. record {
    absent = ground (
      arith,
      h.absent,
      h.next,
      count_where-append (has_host_id 0) t.hosts (new_host t.next_id ip seen_at ∷ []),
    );
    next = omega arith;
  };
}

first_where-id :
    (ip : String) (hosts : List Host) {h : Host}
    → first_where (has_ip ip) hosts ≡ some h
    → 1 ≤ count_where (is_host h.id ip) hosts
first_where-id ip [] k = cc
first_where-id ip (x ∷ rest) {h} k =
    ground (arith, first_where-id ip rest {h = h}, ==_iff x.id h.id)

-- UpsertHost keeps every host, and answers with the id of a host with the address.
pub record IsUpserted (ip : String) (t : Hosts) (id : ℕ) (t' : Hosts) : Type 0 where
  pub keeps : Keeps t t'
  pub host : HasHost id ip t'

new_host-HasHost :
    (ip : String) (seen_at : ℕ) (t : Hosts)
    → HasHost t.next_id ip (record t {
      hosts = t.hosts ++ new_host t.next_id ip seen_at ∷ [];
      next_id = suc t.next_id;
    })
new_host-HasHost ip seen_at t = record {
  exists = ground (
    arith,
    str_eq_iff ip ip,
    ==_iff t.next_id t.next_id,
    count_where-append (is_host t.next_id ip) t.hosts (new_host t.next_id ip seen_at ∷ []),
  );
}

-- A call that does not fail.
pub upsert_host-IsUpserted :
    (ip : String) (seen_at : ℕ) (t : Hosts)
    → (id : ℕ) × (t' : Hosts) × (upsert_host false ip seen_at t ≡ ok (id, t'))
      × IsUpserted ip t id t'
unfolding upsert_host
upsert_host-IsUpserted ip seen_at t = elim (Option-cases (first_where (has_ip ip) t.hosts)) [
  | inl absent ↦ rw absent (
    t.next_id,
    _,
    refl,
    record { keeps = appended-Keeps ip seen_at t; host = new_host-HasHost ip seen_at t },
  )
  | inr (h, there) ↦ rw there (
    h.id,
    _,
    refl,
    record {
      keeps = updated-Keeps t (has_ip ip) (bump_last_seen seen_at) (λ h. refl) (λ h. refl);
      host =
          (updated-Keeps t (has_ip ip) (bump_last_seen seen_at) (λ h. refl) (λ h. refl)).kept h.id
            ip (record { exists = first_where-id ip t.hosts there });
    },
  )
]

pub set_host_mac-Keeps :
    (fails : Bool) (id : ℕ) (mac : String) (t : Hosts)
    → (set_host_mac fails id mac t ≡ err db_failed)
      ⊎ ((t' : Hosts) × (set_host_mac fails id mac t ≡ ok t') × Keeps t t')
unfolding set_host_mac
set_host_mac-Keeps true id mac t = inl refl
set_host_mac-Keeps false id mac t = inr (
  _,
  refl,
  updated-Keeps t (λ h. has_host_id id h && not (is_text mac h.mac_address))
      (λ h. record h { mac_address = some mac }) (λ h. refl) (λ h. refl),
)
