-- ===== src/Retry/Bounds.antt =====
-- How often a fetch asks, and how long it waits.
use gamehub.Prelude.{
  ℕ, zero, suc, ◌+◌, ◌-◌, ◌*◌, ◌^◌, ◌≤◌, ◌≡◌, refl, ap, max, List, [], ◌∷◌, length, arith,
  Bool-cases, inl, inr,
}
use gamehub.Retry.{Client, Fetched, result_of, is_retryable, fetch_from, fetch_json_with_retries}

-- `n` delays, each twice the one before it, from the attempt on.
abbrev pub doubling : ℕ → ℕ → ℕ → List ℕ
doubling backoff attempt zero = []
doubling backoff attempt (suc n) = backoff * 2 ^ (attempt - 1) ∷ doubling backoff (attempt + 1) n

module _ {P : Type 0} (client : Client P) where
  abbrev Bounded : ℕ → ℕ → ℕ → Fetched client → Type 0
  Bounded backoff left attempt f =
      (f.requests ≤ left + 1)
      × (f.requests ≡ length f.delays + 1)
      × (f.delays ≡ doubling backoff attempt (length f.delays))

  fetch_from-Bounded :
      (backoff left attempt : ℕ) (w : client.W)
      → Bounded backoff left attempt (fetch_from client backoff left attempt w)
  unfolding fetch_from
  fetch_from-Bounded backoff zero attempt w = (omega arith, refl, refl)
  fetch_from-Bounded backoff (suc left) attempt w =
      let rest = fetch_from-Bounded backoff left (attempt + 1) (client.get w).1 in
      elim (Bool-cases (is_retryable client (result_of (client.get w).0))) [
        | inl e ↦
            rw (e, Bounded)
              (
                omega (arith, rest.0),
                omega (arith, rest.1),
                ap (λ later. backoff * 2 ^ (attempt - 1) ∷ later) rest.2,
              )
        | inr e ↦ rw (e, Bounded) (omega arith, refl, refl)
      ]

  -- A fetch makes at least one request and at most `attempts` (one, if that is 0), sleeps once
  -- between any two of them, and doubles its delay each time, from the given one.
  pub fetch_json_with_retries-bounds :
      (attempts backoff : ℕ) (w : client.W)
      → let f = fetch_json_with_retries client attempts backoff w in
        (f.requests ≤ max 1 attempts)
        × (f.requests ≡ length f.delays + 1)
        × (f.delays ≡ doubling backoff 1 (length f.delays))
  unfolding fetch_json_with_retries
  fetch_json_with_retries-bounds attempts backoff w =
      let h = fetch_from-Bounded backoff (max 1 attempts - 1) 1 w in (omega (arith, h.0), h.1, h.2)
