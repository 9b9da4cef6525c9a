-- ===== src/Webhooks/Delivery/Reasons.antt =====
-- Why `deliverPayload` of webhooks/queue.go and of webhooks/legacy.go is tried again.
use core_go_nopgp.Base.{
  ℕ, Str, codes, true, Option, Option-cases, none, [], ◌∷◌, ◌++◌, Map, Go, ok, err, panic, ◌≡◌, ◌↔◌,
  ◌⊎◌, inl, inr, refl, arith,
}
use core_go_nopgp.Errors.{Error}
use core_go_nopgp.Crypto.{Primitives, Keys, sign_webhook}
use core_go_nopgp.Webhooks.Delivery.{
  Request, Response, Net, Attempt, retry, Exchange, stopped, answered, is_unavailable, after_read,
  after_send, after_signing, signed_request, exchange,
}

-- The attempt is to be made again.
abbrev pub IsRetry : Attempt → Type 0
IsRetry (retry e) = Unit
IsRetry _ = ⊥

abbrev pub NoPanic : Go Error (Unit {0}) → Type 0
NoPanic (panic e) = ⊥
NoPanic _ = Unit

abbrev pub IsStored : Go Error (Unit {0}) → Type 0
IsStored (ok _) = Unit
IsStored _ = ⊥

-- As the exchange with the server went: the attempt ended with a retry, or the server was
-- unavailable, and the recording of the answer passed.
abbrev pub HasOutcome :
    (Go Error (Unit {0}) → Type 0)
    → (Request → Response → Str → Go Error (Unit {0}))
    → Exchange
    → Type 0
HasOutcome passed recorded (stopped attempt) = IsRetry attempt
HasOutcome passed recorded (answered request response body) =
    (is_unavailable response.status_code ≡ true) × passed (recorded request response body)

-- 502 Bad Gateway, 503 Service Unavailable and 504 Gateway Timeout.
abbrev pub IsDown : ℕ → Type 0
IsDown status = (status ≡ 502) ⊎ (status ≡ 503) ⊎ (status ≡ 504)

is_unavailable_iff : (status : ℕ) → (is_unavailable status ≡ true) ↔ IsDown status
is_unavailable_iff status = (λ h. ground arith, λ h. ground arith)

module _ (p : Primitives) (keys : Keys) (net : Net) (limit : ℕ) (url : Str) (headers : Map Str)
    (seed : Option Str) (payload : Str) where
  -- The request that a delivery makes, where the URL can be requested and the payload signed.
  pub record IsRequest (request : Request) : Type 0 where
    pub nonce : Str
    pub signature : Str
    pub good_url : net.bad_url url ≡ none
    pub signed : sign_webhook p keys seed payload ≡ ok (nonce, signature)
    pub made : request ≡ record {
      url = url;
      body = payload;
      headers =
          headers
          ++ (codes "X-Payload-Nonce", nonce) ∷ (codes "X-Payload-Signature", signature) ∷ [];
    }

  -- Why an attempt is made again: the request could not be sent, or the server answered that it or
  -- one behind it is unavailable, and the recording of the answer passed.
  pub data HasReason (passed : Go Error (Unit {0}) → Type 0)
      (recorded : Request → Response → Str → Go Error (Unit {0})) : Type 0 where
    unsent :
        (request : Request) (e : Error)
        → IsRequest request
        → net.send request ≡ err e
        → HasReason passed recorded
    down :
        (request : Request) (response : Response) (body : Str)
        → IsRequest request
        → net.send request ≡ ok response
        → response.read_body limit ≡ ok body
        → IsDown response.status_code
        → passed (recorded request response body)
        → HasReason passed recorded

  module _ (passed : Go Error (Unit {0}) → Type 0)
      (recorded : Request → Response → Str → Go Error (Unit {0})) where
    after_read-HasReason :
        (request : Request) (response : Response) (read : Go Error Str)
        → IsRequest request
        → net.send request ≡ ok response
        → response.read_body limit ≡ read
        → HasOutcome passed recorded (after_read p keys net limit request response read)
        → HasReason passed recorded
    after_read-HasReason request response (ok body) made sent read (unavailable, h) =
        down request response body made sent read ((is_unavailable_iff _).0 unavailable) h
    after_read-HasReason request response (err e) made sent read h = absurd h
    after_read-HasReason request response (panic e) made sent read h = absurd h

    after_send-HasReason :
        (request : Request) (outcome : Go Error Response)
        → IsRequest request
        → net.send request ≡ outcome
        → HasOutcome passed recorded (after_send p keys net limit request outcome)
        → HasReason passed recorded
    after_send-HasReason request (ok response) made sent h =
        after_read-HasReason request response (response.read_body limit) made sent refl h
    after_send-HasReason request (err e) made sent h = unsent request e made sent
    after_send-HasReason request (panic e) made sent h = absurd h

    after_signing-HasReason :
        (outcome : Go Error (Str × Str))
        → net.bad_url url ≡ none
        → sign_webhook p keys seed payload ≡ outcome
        → HasOutcome passed recorded (after_signing p keys net limit url headers payload outcome)
        → HasReason passed recorded
    after_signing-HasReason (ok (nonce, signature)) good signed h =
        let request = signed_request p keys net limit url headers payload (nonce, signature) in
        after_send-HasReason request (net.send request)
          (record {
            nonce = nonce;
            signature = signature;
            good_url = good;
            signed = signed;
            made = refl;
          })
          refl h
    after_signing-HasReason (err e) good signed h = absurd h
    after_signing-HasReason (panic e) good signed h = absurd h

    exchange-HasReason :
        HasOutcome passed recorded (exchange p keys net limit url headers seed payload)
        → HasReason passed recorded
    unfolding exchange
    exchange-HasReason h = elim (Option-cases (net.bad_url url)) [
      | inr (e, bad) ↦ absurd (rw bad at h)
      | inl good ↦
          after_signing-HasReason (sign_webhook p keys seed payload) good refl (rw good at h)
    ]

    exchange_of_request :
        (request : Request)
        → IsRequest request
        → exchange p keys net limit url headers seed payload
          ≡ after_send p keys net limit request (net.send request)
    unfolding exchange
    exchange_of_request request made = rw (made.good_url, made.signed, made.made) refl

    HasReason-exchange :
        HasReason passed recorded
        → HasOutcome passed recorded (exchange p keys net limit url headers seed payload)
    HasReason-exchange (unsent request e made sent) = rw (exchange_of_request request made, sent) tt
    HasReason-exchange (down request response body made sent read d h) =
        rw (exchange_of_request request made, sent, read) ((is_unavailable_iff _).1 d, h)

    pub HasOutcome-iff :
        HasOutcome passed recorded (exchange p keys net limit url headers seed payload)
        ↔ HasReason passed recorded
    HasOutcome-iff = (exchange-HasReason, HasReason-exchange)
