-- ===== src/Store/Flows/Chunks.antt =====
-- The chunks of a batch insert together are the batch.
use shadow_stat.Base.{
  ℕ, zero, suc, ◌+◌, ◌≤◌, ◌≡◌, sym, ap, ◌∙◌, Bool, false, some, List, [], ◌∷◌, ◌++◌, length, take,
  drop, arith, take-append-drop, length-drop,
}
use mathlib.Core.List.{append_assoc, append-nil}
use shadow_stat.Store.Flows.{insert_chunks, insert_in_transaction, flow_insert_chunk}

module _ {ℓ} {A : Type ℓ} where
  pub insert_chunks-all :
      (fails : ℕ → Bool) (fuel i : ℕ) (table records : List A)
      → ((j : ℕ) → fails j ≡ false)
      → length records ≤ fuel
      → insert_chunks fails fuel i table records ≡ some (table ++ records)
  unfolding insert_chunks
  insert_chunks-all fails fuel i table [] works enough = ap some (sym (append-nil table))
  insert_chunks-all fails zero i table (r ∷ rest) works enough = ground arith
  insert_chunks-all fails (suc fuel) i table (r ∷ rest) works enough = rw (works i) (
      insert_chunks-all fails fuel (i + 1) (table ++ take flow_insert_chunk (r ∷ rest))
        (drop flow_insert_chunk (r ∷ rest)) works
        (omega (arith, enough, length-drop flow_insert_chunk (r ∷ rest)))
      ∙ ap some (
          append_assoc table (take flow_insert_chunk (r ∷ rest)) (drop flow_insert_chunk (r ∷ rest))
          ∙ ap (λ ys. table ++ ys) (take-append-drop flow_insert_chunk (r ∷ rest))))

  -- A batch of any length whose calls all work is appended whole.
  pub insert_in_transaction-all :
      (fails : ℕ → Bool) (records table : List A)
      → ((j : ℕ) → fails j ≡ false)
      → insert_in_transaction false false fails records table ≡ some (table ++ records)
  unfolding insert_in_transaction
  insert_in_transaction-all fails [] table works = ap some (sym (append-nil table))
  insert_in_transaction-all fails (r ∷ rest) table works =
      insert_chunks-all fails (length (r ∷ rest)) 0 table (r ∷ rest) works (omega arith)
