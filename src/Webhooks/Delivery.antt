-- ===== src/Webhooks/Delivery.antt =====
-- The delivery of webhooks: `deliverPayload` of webhooks/queue.go and of webhooks/legacy.go. The
-- HTTP client and the UPDATE of the delivery's record are parameters.
pub mod Reasons
pub mod Laws
use core_go_nopgp.Base.{
  ℕ, ℤ, Str, codes, ◌==◌, ◌||◌, Bool, true, false, Option, none, some, List, [], ◌∷◌, ◌++◌, Map,
  if◌then◌else◌, Go, ok, err, panic,
}
use core_go_nopgp.Errors.{Error, delivery_status}
use core_go_nopgp.Crypto.{Primitives, Keys, sign_webhook}
use core_go_nopgp.Database.Tx.{Answers, with_tx}

pub record Request : Type 0 where
  pub url : Str
  pub body : Str
  pub headers : Map Str

pub record Response : Type 0 where
  pub status_code : ℕ
  pub status : Str
  pub headers : Str
  -- What ReadAll gives of the body, limited to a number of bytes.
  pub read_body : ℕ → Go Error Str

-- net/http: whether a URL cannot be requested, sending, and headers written out.
pub record Net : Type 0 where
  pub bad_url : Str → Option Error
  pub send : Request → Go Error Response
  pub write_headers : Map Str → Str

-- What a task's function comes to: it is done, it is to be tried again, it is not to be tried again
-- (ErrDoNotReattempt), or it panics.
pub data Attempt : Type 0 where
  delivered : Attempt
  retry give_up crashed : Error → Attempt

-- The exchange with the server: it ended the attempt, or the server answered, with its body.
pub data Exchange : Type 0 where
  stopped : Attempt → Exchange
  answered : Request → Response → Str → Exchange

-- Set on the record of the delivery; the headers of the request only by webhooks/legacy.go.
pub record Update : Type 0 where
  pub delivery_id : ℤ
  pub response_body : Str
  pub response_status : ℕ
  pub response_headers : Str
  pub payload_headers : Option Str

-- 502, 503 and 504.
abbrev pub is_unavailable : ℕ → Bool
is_unavailable status = (status == 502) || (status == 503) || (status == 504)

abbrev pub by_status : Response → Attempt
by_status response =
    if is_unavailable response.status_code
    then retry (delivery_status response.status_code response.status)
    else delivered

module _ (p : Primitives) (keys : Keys) (net : Net) (limit : ℕ) where
  abbrev pub after_read : Request → Response → Go Error Str → Exchange
  after_read request response (ok body) = answered request response body
  after_read request response (err e) = stopped (give_up e)
  after_read request response (panic e) = stopped (crashed e)

  abbrev pub after_send : Request → Go Error Response → Exchange
  after_send request (ok response) = after_read request response (response.read_body limit)
  after_send request (err e) = stopped (retry e)
  after_send request (panic e) = stopped (crashed e)

  abbrev pub signed_request : Str → Map Str → Str → Str × Str → Request
  signed_request url headers payload (nonce, signature) = record {
    url = url;
    body = payload;
    headers =
        headers ++ (codes "X-Payload-Nonce", nonce) ∷ (codes "X-Payload-Signature", signature) ∷ [];
  }

  abbrev pub after_signing : Str → Map Str → Str → Go Error (Str × Str) → Exchange
  after_signing url headers payload (ok signed) =
      let request = signed_request url headers payload signed in
      after_send request (net.send request)
  after_signing url headers payload (err e) = stopped (crashed e)
  after_signing url headers payload (panic e) = stopped (crashed e)

  abbrev pub after_url : Option Error → Exchange → Exchange
  after_url (some e) rest = stopped (give_up e)
  after_url none rest = rest

  -- Up to the reading of the response, with the randomness of the nonce.
  unfoldable pub exchange : Str → Map Str → Option Str → Str → Exchange
  exchange url headers seed payload =
      after_url (net.bad_url url)
        (after_signing url headers payload (sign_webhook p keys seed payload))

module _ {S : Type 0} (net : Net) (present : Bool) (answers : Answers)
    (update : Update → S → Go Error (Unit {0}) × S) (delivery_id : ℤ) where
  abbrev pub record_response : Request → Response → Str → Bool → Update
  record_response request response body with_headers = record {
    delivery_id = delivery_id;
    response_body = body;
    response_status = response.status_code;
    response_headers = response.headers;
    payload_headers = if with_headers then some (net.write_headers request.headers) else none;
  }

  -- A record that is not updated is logged.
  abbrev pub after_update : Response → Go Error (Unit {0}) → Attempt
  after_update response (panic e) = crashed e
  after_update response _ = by_status response

  abbrev pub after_legacy_update : Response → Go Error (Unit {0}) → Attempt
  after_legacy_update response (ok _) = by_status response
  after_legacy_update response (err e) = delivered
  after_legacy_update response (panic e) = crashed e

  abbrev pub finish : Exchange → S → Attempt × S
  finish (stopped attempt) s = (attempt, s)
  finish (answered request response body) s =
      let run = with_tx present answers (update (record_response request response body false)) s in
      (after_update response run.result, run.state)

  abbrev pub legacy_finish : Exchange → S → Attempt × S
  legacy_finish (stopped attempt) s = (attempt, s)
  legacy_finish (answered request response body) s =
      let run = with_tx present answers (update (record_response request response body true)) s in
      (after_legacy_update response run.result, run.state)

  -- `deliverPayload` of webhooks/queue.go
  unfoldable pub deliver_payload :
      Primitives → Keys → Str → Map Str → Option Str → Str → S → Attempt × S
  unfolding exchange
  deliver_payload p keys url headers seed payload s =
      finish (exchange p keys net 262144 url headers seed payload) s

  -- `deliverPayload` of webhooks/legacy.go
  unfoldable pub legacy_deliver_payload :
      Primitives → Keys → Str → Map Str → Option Str → Str → S → Attempt × S
  unfolding exchange
  legacy_deliver_payload p keys url headers seed payload s =
      legacy_finish (exchange p keys net 65536 url headers seed payload) s
