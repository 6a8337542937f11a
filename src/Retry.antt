-- ===== src/Retry.antt =====
-- `_fetch_json_with_retries` of src/gamehub_cli/sync/index.py, with which the client fetches the
-- index, the health, the status and the save bindings. A request is a parameter over a state of the
-- world; delays are numbers of one unit, in the order in which the function sleeps. What it reports
-- is left out, and so are its last three lines, which no run reaches.
pub mod Bounds
pub mod Decisive
use gamehub.Prelude.{
  ℕ, zero, suc, ◌+◌, ◌-◌, ◌*◌, ◌^◌, max, leb, nat_eq, String, Bool, true, false, not, ◌&&◌, ◌||◌,
  Option, none, some, List, [], ◌∷◌, if◌then◌else◌,
}

-- The exceptions that the code tells apart; those of `httpx` occur only where it is installed.
pub data FetchError : Type 0 where
  http_error : ℕ → FetchError
  url_error timeout_or_connection : FetchError
  httpx_timeout httpx_transport : FetchError
  httpx_status : Option ℕ → FetchError
  value_error other_error : FetchError

-- What one request and the decoding of its body come to.
pub data Reply (P : Type 0) : Type 0 where
  json_object : P → Reply P
  json_other : Reply P
  raised : FetchError → Reply P

unfoldable pub is_retryable_index_status : ℕ → Bool
is_retryable_index_status status_code =
    nat_eq status_code 408 || nat_eq status_code 429 || (leb 500 status_code && leb status_code 599)

-- The first argument: `httpx` is there.
unfoldable pub is_retryable_index_fetch_error : Bool → FetchError → Bool
unfolding is_retryable_index_status
is_retryable_index_fetch_error client (http_error code) = is_retryable_index_status code
is_retryable_index_fetch_error client url_error = true
is_retryable_index_fetch_error client timeout_or_connection = true
is_retryable_index_fetch_error client httpx_timeout = client
is_retryable_index_fetch_error client httpx_transport = client
is_retryable_index_fetch_error client (httpx_status none) = false
is_retryable_index_fetch_error client (httpx_status (some code)) =
    client && is_retryable_index_status code
is_retryable_index_fetch_error client value_error = false
is_retryable_index_fetch_error client other_error = false

pub record Client (P : Type 0) : Type 1 where
  pub W : Type 0
  pub installed : Bool
  pub get : W → Reply P × W

-- The payload, or the exception that leaves the function.
pub data Result (P : Type 0) : Type 0 where
  returned : P → Result P
  failed : FetchError → Result P

-- A payload that is not an object is a `ValueError`.
abbrev pub result_of : {P : Type 0} → Reply P → Result P
result_of (json_object p) = returned p
result_of json_other = failed value_error
result_of (raised e) = failed e

module _ {P : Type 0} (client : Client P) where
  open client use {W, installed, get}

  pub record Fetched : Type 0 where
    pub result : Result P
    pub requests : ℕ
    pub delays : List ℕ

  abbrev pub is_retryable : Result P → Bool
  is_retryable (returned p) = false
  is_retryable (failed e) = is_retryable_index_fetch_error installed e

  -- The loop from one attempt on; the first argument counts the attempts that are left after it.
  unfoldable pub fetch_from : ℕ → ℕ → ℕ → W → Fetched
  fetch_from retry_backoff_seconds zero attempt w = record {
    result = result_of (get w).0;
    requests = 1;
    delays = [];
  }
  fetch_from retry_backoff_seconds (suc left) attempt w =
      let rest = fetch_from retry_backoff_seconds left (attempt + 1) (get w).1 in
      if is_retryable (result_of (get w).0)
      then record {
        result = rest.result;
        requests = rest.requests + 1;
        delays = retry_backoff_seconds * 2 ^ (attempt - 1) ∷ rest.delays;
      }
      else record { result = result_of (get w).0; requests = 1; delays = [] }

  unfoldable pub fetch_json_with_retries : ℕ → ℕ → W → Fetched
  fetch_json_with_retries attempts retry_backoff_seconds w =
      fetch_from retry_backoff_seconds (max 1 attempts - 1) 1 w

  -- One request, to the health of the server.
  unfoldable pub probe_server_health : W → Bool
  probe_server_health w = elim (fetch_json_with_retries 1 0 w).result [
    | returned p ↦ true
    | failed e ↦ false
  ]
