-- ===== src/Webhooks/Delivery/Laws.antt =====
-- What is sent, and what is tried again.
use core_go_nopgp.Base.{
  ℕ, ℤ, Str, codes, Bool, true, false, Option, some, [], ◌∷◌, ◌++◌, Map, Go, ok, err, panic, ◌≡◌,
  ◌↔◌, inl, inr, refl, sym, ap, subst, Option-cases, Bool-cases,
}
use core_go_nopgp.Config.{IniFile}
use core_go_nopgp.Errors.{Error}
use core_go_nopgp.Crypto.{Primitives, Keys, init_crypto, verify_webhook}
use core_go_nopgp.Crypto.Laws.{Documented, verify_webhook-sign_webhook}
use core_go_nopgp.Database.Tx.{Answers, with_tx}
use core_go_nopgp.Webhooks.Delivery.{
  Request, Response, Net, Exchange, stopped, answered, Update, is_unavailable, by_status,
  after_read, after_send, signed_request, exchange, record_response, after_update,
  after_legacy_update, finish, legacy_finish, deliver_payload, legacy_deliver_payload,
}
use core_go_nopgp.Webhooks.Delivery.Reasons.{
  IsRetry, NoPanic, IsStored, HasOutcome, HasReason, HasOutcome-iff,
}

-- A request that carries a payload with a nonce and a signature that verify with the keys.
pub record IsSigned (p : Primitives) (keys : Keys) (url : Str) (headers : Map Str) (payload : Str)
    (request : Request) : Type 0 where
  pub nonce : Str
  pub signature : Str
  pub made : request ≡ record {
    url = url;
    body = payload;
    headers =
        headers ++ (codes "X-Payload-Nonce", nonce) ∷ (codes "X-Payload-Signature", signature) ∷ [];
  }
  pub verifies : verify_webhook p keys payload nonce signature ≡ true

module _ (p : Primitives) (documented : Documented p) (conf : IniFile) (keys : Keys)
    (started : init_crypto p conf ≡ ok keys) (net : Net) (limit : ℕ) where
  after_read-answered :
      (sent request : Request) (got response : Response) (read : Go Error Str) (body : Str)
      → after_read p keys net limit sent got read ≡ answered request response body
      → (sent ≡ request) × (got ≡ response) × (read ≡ ok body)
  after_read-answered sent request got response (ok b) body h = (cc h, cc h, cc h)
  after_read-answered sent request got response (err e) body h = cc
  after_read-answered sent request got response (panic e) body h = cc

  after_send-answered :
      (sent request : Request) (outcome : Go Error Response) (response : Response) (body : Str)
      → after_send p keys net limit sent outcome ≡ answered request response body
      → (sent ≡ request) × (outcome ≡ ok response) × (response.read_body limit ≡ ok body)
  after_send-answered sent request (ok got) response body h =
      let (same, same_response, read) =
        after_read-answered sent request got response (got.read_body limit) body h in
      (
        same,
        ap ok same_response,
        subst (λ (r : Response). r.read_body limit ≡ ok body) same_response read,
      )
  after_send-answered sent request (err e) response body h = cc
  after_send-answered sent request (panic e) response body h = cc

  -- The request that a delivery sends carries the payload to the URL of the subscription, with the
  -- headers of the delivery and a nonce and a signature that verify with the keys of the
  -- configuration; the response that is recorded is the answer to this request, with its body as
  -- far as the limit. The condition is that the ciphers are as documented (`Documented`): a
  -- signature verifies with the public key of its private key, and is bytes.
  pub exchange-IsSigned :
      (url : Str) (headers : Map Str) (seed payload : Str) (request : Request) (response : Response)
      (body : Str)
      → exchange p keys net limit url headers (some seed) payload ≡ answered request response body
      → IsSigned p keys url headers payload request
        × (net.send request ≡ ok response)
        × (response.read_body limit ≡ ok body)
  unfolding exchange
  exchange-IsSigned url headers seed payload request response body h =
      elim (Option-cases (net.bad_url url)) [
        | inr (e, bad) ↦ cc (rw bad at h)
        | inl good ↦
            let (nonce, signature, signed, verifies) =
              verify_webhook-sign_webhook p documented conf keys started seed payload in
            let sent = signed_request p keys net limit url headers payload (nonce, signature) in
            let (same, outcome, read) =
              after_send-answered sent request (net.send sent) response body
                (rw (good, signed) at h) in
            (
              record { nonce = nonce; signature = signature; made = sym same; verifies = verifies },
              subst (λ (r : Request). net.send r ≡ ok response) same outcome,
              read,
            )
      ]

by_status-IsRetry_iff :
    (response : Response)
    → IsRetry (by_status response) ↔ (is_unavailable response.status_code ≡ true)
by_status-IsRetry_iff response = elim (Bool-cases (is_unavailable response.status_code)) [
  | inl down ↦ rw down (λ _. refl, λ _. tt)
  | inr up ↦ rw up (λ h. absurd h, λ h. cc)
]

module _ {S : Type 0} (net : Net) (present : Bool) (answers : Answers)
    (update : Update → S → Go Error (Unit {0}) × S) (delivery_id : ℤ) where
  after_update-IsRetry_iff :
      (response : Response) (u : Go Error (Unit {0}))
      → IsRetry (after_update net present answers update delivery_id response u)
        ↔ ((is_unavailable response.status_code ≡ true) × NoPanic u)
  after_update-IsRetry_iff response (ok v) =
      let (there, back) = by_status-IsRetry_iff response in (λ h. (there h, tt), λ h. back h.0)
  after_update-IsRetry_iff response (err e) =
      let (there, back) = by_status-IsRetry_iff response in (λ h. (there h, tt), λ h. back h.0)
  after_update-IsRetry_iff response (panic e) = (λ h. absurd h, λ h. absurd h.1)

  after_legacy_update-IsRetry_iff :
      (response : Response) (u : Go Error (Unit {0}))
      → IsRetry (after_legacy_update net present answers update delivery_id response u)
        ↔ ((is_unavailable response.status_code ≡ true) × IsStored u)
  after_legacy_update-IsRetry_iff response (ok v) =
      let (there, back) = by_status-IsRetry_iff response in (λ h. (there h, tt), λ h. back h.0)
  after_legacy_update-IsRetry_iff response (err e) = (λ h. absurd h, λ h. absurd h.1)
  after_legacy_update-IsRetry_iff response (panic e) = (λ h. absurd h, λ h. absurd h.1)

  -- The outcome of the recording of an answer.
  abbrev pub recording : S → Bool → Request → Response → Str → Go Error (Unit {0})
  recording s with_headers request response body =
      (with_tx present answers
        (update (
          record_response net present answers update delivery_id request response body
            with_headers))
        s).result

  finish-IsRetry_iff :
      (x : Exchange) (s : S)
      → IsRetry (finish net present answers update delivery_id x s).0
        ↔ HasOutcome NoPanic (recording s false) x
  finish-IsRetry_iff (stopped attempt) s = (λ h. h, λ h. h)
  finish-IsRetry_iff (answered request response body) s = after_update-IsRetry_iff response _

  legacy_finish-IsRetry_iff :
      (x : Exchange) (s : S)
      → IsRetry (legacy_finish net present answers update delivery_id x s).0
        ↔ HasOutcome IsStored (recording s true) x
  legacy_finish-IsRetry_iff (stopped attempt) s = (λ h. h, λ h. h)
  legacy_finish-IsRetry_iff (answered request response body) s =
      after_legacy_update-IsRetry_iff response _

  -- A delivery is tried again exactly if its request was made and could not be sent, or the server
  -- answered 502, 503 or 504, its body could be read, and the recording of the answer did not panic.
  -- A legacy delivery is tried again exactly if its request could not be sent, or the server
  -- answered so, its body could be read and the answer was recorded.
  pub deliver_payload-IsRetry_iff :
      (p : Primitives) (keys : Keys) (url : Str) (headers : Map Str) (seed : Option Str)
      (payload : Str) (s : S)
      → (IsRetry
            (deliver_payload net present answers update delivery_id p keys url headers seed payload
              s).0
          ↔ HasReason p keys net 262144 url headers seed payload NoPanic (recording s false))
        × (IsRetry
              (legacy_deliver_payload net present answers update delivery_id p keys url headers seed
                payload s).0
            ↔ HasReason p keys net 65536 url headers seed payload IsStored (recording s true))
  unfolding deliver_payload legacy_deliver_payload
  deliver_payload-IsRetry_iff p keys url headers seed payload s =
      let (a, b) = finish-IsRetry_iff (exchange p keys net 262144 url headers seed payload) s in
      let (c, d) =
        HasOutcome-iff p keys net 262144 url headers seed payload NoPanic (recording s false) in
      let (e, f) =
        legacy_finish-IsRetry_iff (exchange p keys net 65536 url headers seed payload) s in
      let (g, h) =
        HasOutcome-iff p keys net 65536 url headers seed payload IsStored (recording s true) in
      ((λ r. c (a r), λ r. b (d r)), (λ r. g (e r), λ r. f (h r)))
