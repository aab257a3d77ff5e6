-- ===== src/AccessPoint/Server/Identifiers.antt =====
-- accesspoint/lib/service.go.
-- The identifiers of requests.
use au10_service.Prelude.{
  ℕ, zero, suc, ◌+◌, ◌≤◌, ◌<◌, ◌≡◌, ap, ◌≢◌, Option, some, List, [], ◌∷◌, arith, length, get_elem?,
  Outcome, ok, ap,
}
use au10_service.Text.{Bytes}
use au10_service.Au10.Users.{Users}
use au10_service.Au10.Post.{u32}
use au10_service.AccessPoint.Status.{Status}
use au10_service.AccessPoint.Client.{Services, Client}
use au10_service.AccessPoint.Server.{Server, accounts_of, new_request_client}
use au10_service.AccessPoint.Server.Clients.{new_request_client-ok}

-- The clients of a sequence of requests, each with its metadata and its name.
abbrev pub clients_of :
    Services → List (Option (List Bytes) × Bytes) → Server → List (Outcome Status Client)
clients_of service [] s = []
clients_of service ((values, request) ∷ rs) s =
    (new_request_client service values request s).1
    ∷ clients_of service rs (new_request_client service values request s).0

-- The k-th client (from 0) of any sequence of requests has the identifier k + 1 places behind the
-- server's last one, counted in 32 bits; every request gets its client.
pub clients_of-request_id :
    (service : Services) (users : Users) (rs : List (Option (List Bytes) × Bytes)) (s : Server)
    (k : ℕ)
    → service.users ≡ accounts_of users
    → k < length rs
    → (client : Client) × (get_elem? (clients_of service rs s) k ≡ some (ok client))
      × (client.request_id ≡ u32 (s.last_request_id + k + 1))
clients_of-request_id service users [] s k h less = absurd (omega arith)
clients_of-request_id service users ((values, request) ∷ rs) s zero h less =
    let (client, e, _, id, _) = new_request_client-ok service users values request s h in
    (client, ap some e, omega (arith, id))
clients_of-request_id service users ((values, request) ∷ rs) s (suc k) h less =
    let (_, _, _, _, last) = new_request_client-ok service users values request s h in
    let (client, e, id) =
      clients_of-request_id service users rs (new_request_client service values request s).0 k h
        (omega arith) in
    (client, e, omega (arith, id, last))

-- Among 2^32 requests in a row no two have one identifier.
pub request_ids_distinct :
    (service : Services) (users : Users) (rs : List (Option (List Bytes) × Bytes)) (s : Server)
    (j k : ℕ) (client client' : Client)
    → service.users ≡ accounts_of users
    → j < k
    → k < length rs
    → length rs ≤ 4294967296
    → get_elem? (clients_of service rs s) j ≡ some (ok client)
    → get_elem? (clients_of service rs s) k ≡ some (ok client')
    → client.request_id ≢ client'.request_id
request_ids_distinct service users rs s j k client client' h less bound room e e' =
    let (c, f, id) = clients_of-request_id service users rs s j h (omega arith) in
    let (c', f', id') = clients_of-request_id service users rs s k h bound in
    let same : c.request_id ≡ client.request_id = ground arith in
    let same' : c'.request_id ≡ client'.request_id = ground arith in
    omega (arith, id, id', same, same')
