-- ===== src/Examples/Fetches.antt =====
-- Fetches from a server that is busy once, and then answers.
use gamehub.Prelude.{◌+◌, ◌-◌, ◌≤◌, ◌≡◌, refl, max, String, true, List, [], ◌∷◌, length}
use gamehub.Retry.{
  Client, Reply, json_object, json_other, raised, http_error, returned, fetch_json_with_retries,
  fetch_from, is_retryable_index_fetch_error,
}
use gamehub.Retry.Bounds.{doubling, fetch_json_with_retries-bounds}
use gamehub.Retry.Decisive.{results, decisive, fetch_json_with_retries-decisive}

-- The head of the replies, and the rest.
abbrev pop : List (Reply String) → Reply String × List (Reply String)
pop [] = (json_other, [])
pop (r ∷ rs) = (r, rs)

abbrev client : Client String
client = record { W = List (Reply String); installed = true; get = pop }

abbrev busy_once : List (Reply String)
busy_once = raised (http_error 503) ∷ json_object "index" ∷ []

fetched_second :
    fetch_json_with_retries client 3 10 busy_once
    ≡ record { result = returned "index"; requests = 2; delays = 10 ∷ [] }
unfolding fetch_json_with_retries fetch_from is_retryable_index_fetch_error
fetched_second = refl

fetch_json_with_retries-bounds_example :
    ((fetch_json_with_retries client 3 10 busy_once).requests ≤ max 1 3)
    × ((fetch_json_with_retries client 3 10 busy_once).requests
        ≡ length (fetch_json_with_retries client 3 10 busy_once).delays + 1)
    × ((fetch_json_with_retries client 3 10 busy_once).delays
        ≡ doubling 10 1 (length (fetch_json_with_retries client 3 10 busy_once).delays))
fetch_json_with_retries-bounds_example = fetch_json_with_retries-bounds client 3 10 busy_once

fetch_json_with_retries-decisive_example :
    (fetch_json_with_retries client 3 10 busy_once).result
    ≡ decisive client
        (results client (max 1 3 - 1) busy_once).0
        (results client (max 1 3 - 1) busy_once).1
fetch_json_with_retries-decisive_example = fetch_json_with_retries-decisive client 3 10 busy_once
