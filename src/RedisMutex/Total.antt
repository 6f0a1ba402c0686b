-- ===== src/RedisMutex/Total.antt =====
-- Sums over the clients of the lock in base/dao/redis/redismutex.go.
use gogame.Common.{
  ℕ, zero, suc, ◌+◌, ◌≤◌, replicate, ◌≡◌, refl, ap, arith, List, [], ◌∷◌, ◌⊎◌, inl, inr,
}
use gogame.RedisMutex.{Client, idle, client_at, set_client}

module _ (w : Client → ℕ) where
  pub total : List Client → ℕ
  total [] = 0
  total (c ∷ cs) = w c + total cs

  pub one-le-total : w idle ≡ 0 → (i : ℕ) (cs : List Client) → w (client_at i cs) ≤ total cs
  unfolding total
  one-le-total none i [] = omega arith
  one-le-total none zero (c ∷ cs) = omega arith
  one-le-total none (suc i) (c ∷ cs) = omega (arith, one-le-total none i cs)

  -- An index without a client is that of an idle one, which cannot be set.
  pub total-set_client :
      (i : ℕ) (c : Client) (cs : List Client)
      → ((client_at i cs ≡ idle) × (set_client i c cs ≡ cs))
        ⊎ (total (set_client i c cs) + w (client_at i cs) ≡ total cs + w c)
  unfolding total
  total-set_client i c [] = inl (refl, refl)
  total-set_client zero c (d ∷ cs) = inr (omega arith)
  total-set_client (suc i) c (d ∷ cs) = elim (total-set_client i c cs) [
    | inl (none, same) ↦ inl (none, ap (λ x. d ∷ x) same)
    | inr moved ↦ inr (omega (arith, moved))
  ]

  pub total-replicate : w idle ≡ 0 → (n : ℕ) → total (replicate n idle) ≡ 0
  unfolding total
  total-replicate none zero = refl
  total-replicate none (suc n) = omega (arith, total-replicate none n)

pub total_mono :
    (v w : Client → ℕ) → ((c : Client) → v c ≤ w c) → (cs : List Client) → total v cs ≤ total w cs
unfolding total
total_mono v w le [] = omega arith
total_mono v w le (c ∷ cs) = omega (arith, le c, total_mono v w le cs)
