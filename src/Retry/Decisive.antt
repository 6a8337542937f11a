-- ===== src/Retry/Decisive.antt =====
-- Which reply decides a fetch.
use gamehub.Prelude.{
  ℕ, zero, suc, ◌+◌, ◌-◌, ◌≡◌, refl, max, List, [], ◌∷◌, Bool-cases, inl, inr, if◌then◌else◌,
}
use gamehub.Retry.{Client, Result, result_of, is_retryable, fetch_from, fetch_json_with_retries}

module _ {P : Type 0} (client : Client P) where
  -- What `n + 1` requests in a row come to: the first result, and the others.
  abbrev pub results : ℕ → client.W → Result P × List (Result P)
  results zero w = (result_of (client.get w).0, [])
  results (suc n) w =
      let later = results n (client.get w).1 in (result_of (client.get w).0, later.0 ∷ later.1)

  -- The first result that is not worth a retry, or else the last one.
  abbrev pub decisive : Result P → List (Result P) → Result P
  decisive r [] = r
  decisive r (r' ∷ rs) = if is_retryable client r then decisive r' rs else r

  fetch_from-decisive :
      (backoff left attempt : ℕ) (w : client.W)
      → (fetch_from client backoff left attempt w).result
        ≡ decisive (results left w).0 (results left w).1
  unfolding fetch_from
  fetch_from-decisive backoff zero attempt w = refl
  fetch_from-decisive backoff (suc left) attempt w =
      elim (Bool-cases (is_retryable client (result_of (client.get w).0))) [
        | inl e ↦ rw e (fetch_from-decisive backoff left (attempt + 1) (client.get w).1)
        | inr e ↦ rw e refl
      ]

  -- A fetch comes to the first payload or final error among the results of `attempts` requests in a
  -- row, and to the last of them if every one is an error that is worth a retry.
  pub fetch_json_with_retries-decisive :
      (attempts backoff : ℕ) (w : client.W)
      → (fetch_json_with_retries client attempts backoff w).result
        ≡ decisive (results (max 1 attempts - 1) w).0 (results (max 1 attempts - 1) w).1
  unfolding fetch_json_with_retries
  fetch_json_with_retries-decisive attempts backoff w =
      fetch_from-decisive backoff (max 1 attempts - 1) 1 w
