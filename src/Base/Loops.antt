-- ===== src/Base/Loops.antt =====
-- `for (i = 0; i < n; i++)` over a state.
use fanpico.Base.{ℕ, zero, suc, ◌<◌, arith}

module _ {ℓ} {S : Type ℓ} where
  unfoldable pub for_range : ℕ → (ℕ → S → S) → S → S
  for_range zero body s = s
  for_range (suc n) body s = body n (for_range n body s)

  -- A property of the state before round i that each round carries on holds at the end.
  pub for_range_inv {κ} :
      (P : ℕ → S → Type κ) (body : ℕ → S → S) (n : ℕ) (s : S)
      → ((i : ℕ) (t : S) → i < n → P i t → P (suc i) (body i t))
      → P 0 s
      → P n (for_range n body s)
  unfolding for_range
  for_range_inv P body zero s keep h = h
  for_range_inv P body (suc n) s keep h =
      keep n (for_range n body s) (omega arith)
        (for_range_inv P body n s (λ i t l. keep i t (omega arith)) h)
