-- ===== src/Proxy/Sizes.antt =====
-- The sizes of what the client and the plugin hand to the mix network.
use opt.Base.{
  ◌≡◌, ◌⊎◌, refl, List, [], ◌∷◌, Option, none, some, Bool-cases, Option-cases, inl, inr, arith, ltb,
  length, ◌≤◌, ℕ, Bytes,
}
use opt.Base.{subst, ◌++◌, ◌<◌}
use opt.Base.Texts.{bytes_of, itoa, contains-middle}
use opt.Base.Outcome.{ok, ok-inj, Outcome-cases}
use opt.Proxy.{
  Web, Url, HttpRequest, OutRequest, Reply, failed, unreadable, answered, compress_data,
  decompress_data,
}
use opt.Proxy.Plugin.{
  Config, Command, request, other, Handled, on_command, on_request, serve, forward, reply_with,
  send_error, send_payload, out_request, find_network, validate_request_url, probe_delay,
  max_payload_size, without_slash,
}
use opt.Proxy.Wallet.{
  Thin, handler, http_error, send_failure, error_text, send_request, send_blob,
  user_forward_payload_length, Delivery,
}

-- The payload of a response: that of a probe, an error, or at most the largest payload.
pub data Fits (web : Web) (error : Option Bytes) (payload : Bytes) : Type 0 where
  empty : error ≡ none → payload ≡ [] → Fits web error payload
  unmarshalled : (msg : Bytes) → error ≡ some msg → payload ≡ [] → Fits web error payload
  message :
      (msg : Bytes)
      → error ≡ some msg
      → web.marshal_response record { payload = []; error = msg } ≡ some payload
      → Fits web error payload
  bounded :
      (compressed : Bytes)
      → error ≡ none
      → length compressed ≤ max_payload_size
      → web.marshal_response record { payload = compressed; error = [] } ≡ some payload
      → Fits web error payload

-- Exactly one response, to the sender's SURB, and one that fits.
pub record Responds (web : Web) (id : ℕ) (surb : Option Bytes) (h : Handled) : Type 0 where
  pub payload : Bytes
  pub once : h.written ≡ record { id = id; surb = surb; payload = payload } ∷ []
  pub fits : Fits web h.error payload

module _ (web : Web) (cfg : Config) (id : ℕ) (surb : Option Bytes) where
  send_error-Responds :
      (sent : List OutRequest) (msg : Bytes)
      → Responds web id surb (send_error web cfg id surb sent msg)
  unfolding send_error
  send_error-Responds sent msg =
      elim (Option-cases (web.marshal_response record { payload = []; error = msg })) [
        | inl e ↦ record { payload = []; once = ground arith; fits = unmarshalled msg refl refl }
        | inr (p, e) ↦ record { payload = p; once = ground arith; fits = message msg refl e }
      ]

  send_payload-Responds :
      (sent : List OutRequest) (slept : ℕ) (payload : Bytes)
      → Fits web none payload
      → Responds web id surb (send_payload web cfg id surb sent slept payload)
  unfolding send_payload
  send_payload-Responds sent slept payload f = record { payload = payload; once = refl; fits = f }

  answered-Responds :
      (sent : List OutRequest) (body : Bytes)
      → Responds web id surb (reply_with web cfg id surb sent (answered body))
  unfolding reply_with
  answered-Responds sent body = elim (Option-cases (compress_data web body)) [
    | inl e ↦ rw (e, reply_with) (send_error-Responds sent _)
    | inr (c, e) ↦ elim (Bool-cases (ltb max_payload_size (length c))) [
      | inl big ↦ rw (e, big, reply_with) (send_error-Responds sent _)
      | inr small ↦ elim (Option-cases (web.marshal_response record { payload = c; error = [] })) [
        | inl m ↦ rw (e, small, m, reply_with) (send_error-Responds sent _)
        | inr (p, m) ↦
            rw (e, small, m, reply_with)
              (send_payload-Responds sent 0 p (bounded c refl (ground arith) m))
      ]
    ]
  ]

  reply_with-Responds :
      (sent : List OutRequest) (r : Reply)
      → Responds web id surb (reply_with web cfg id surb sent r)
  unfolding reply_with
  reply_with-Responds sent failed = send_error-Responds sent _
  reply_with-Responds sent (unreadable why) = send_error-Responds sent _
  reply_with-Responds sent (answered body) = answered-Responds sent body

  pub forward-Responds :
      (r : HttpRequest) (uri : Bytes) → Responds web id surb (forward web cfg id surb r uri)
  unfolding forward
  forward-Responds r uri = elim (Option-cases (find_network uri cfg.networks)) [
    | inl e ↦ rw (e, forward) (send_error-Responds [] _)
    | inr (target, e) ↦ elim (Bool-cases (web.is_request r.method target)) [
      | inl good ↦
          rw (e, good, forward)
            (let q = out_request web cfg id surb r target in
              reply_with-Responds (q ∷ web.redirects q) (web.exchange q))
      | inr bad ↦ rw (e, bad, forward) (send_error-Responds [] _)
    ]
  ]

  -- serve ends in one of four ways.
  serve_cases :
      (r : HttpRequest) (h : Handled)
      → serve web cfg id surb r ≡ ok h
      → ((msg : Bytes) × (send_error web cfg id surb [] msg ≡ h))
        ⊎ ((send_payload web cfg id surb [] (probe_delay r.url.path) [] ≡ h)
            ⊎ (forward web cfg id surb r (without_slash web cfg id surb r.url.path) ≡ h))
  unfolding serve
  serve_cases r h e = elim (Outcome-cases (validate_request_url r.url.path)) [
    | inl (none, v) ↦ inr (ground arith)
    | inl (some why, v) ↦ inl (bytes_of "validateRequestURL failed: " ++ why, ground arith)
    | inr (inl (why, v)) ↦ absurd (ground arith)
    | inr (inr v) ↦ absurd (ground arith)
  ]

  serve-Responds :
      (r : HttpRequest) (h : Handled) → serve web cfg id surb r ≡ ok h → Responds web id surb h
  serve-Responds r h e = elim (serve_cases r h e) [
    | inl (msg, p) ↦ subst (Responds web id surb) p (send_error-Responds [] msg)
    | inr (inl p) ↦
        subst (Responds web id surb) p
          (send_payload-Responds [] (probe_delay r.url.path) [] (empty refl refl))
    | inr (inr p) ↦ subst (Responds web id surb) p (forward-Responds r _)
  ]

  on_request-Responds :
      (payload : Bytes) (h : Handled)
      → on_request web cfg id surb payload ≡ ok h
      → Responds web id surb h
  unfolding on_request
  on_request-Responds payload h e = elim (Option-cases (web.decode_request payload)) [
    | inl d ↦ failing (bytes_of "Error decoding request") (ground arith)
    | inr (req, d) ↦ elim (Option-cases (decompress_data web req.payload)) [
      | inl u ↦ failing (bytes_of "Failed to decompress request") (ground arith)
      | inr (raw, u) ↦ elim (Option-cases (web.read_request raw)) [
        | inl p ↦ failing (bytes_of "Failed to read HTTP request") (ground arith)
        | inr (r, p) ↦ serve-Responds r h (ground arith)
      ]
    ]
  ]
    where
      failing : (msg : Bytes) → send_error web cfg id surb [] msg ≡ h → Responds web id surb h
      failing msg p = subst (Responds web id surb) p (send_error-Responds [] msg)

-- A command that is no request gets no response; a request that does not make the plugin panic gets
-- exactly one, to its SURB. The payload of that is the empty one of a probe, an error message (or
-- empty, where the message cannot be marshalled), or a body of at most 29980 bytes after compression.
pub on_command-Responds :
    (web : Web) (cfg : Config) (cmd : Command) (h : Handled)
    → on_command web cfg cmd ≡ ok h
    → ((cmd ≡ other) × (h.written ≡ []))
      ⊎ ((id : ℕ) × (surb : Option Bytes) × (payload : Bytes) × (cmd ≡ request id surb payload)
          × Responds web id surb h)
unfolding on_command
on_command-Responds web cfg other h e = inl (refl, ground arith)
on_command-Responds web cfg (request id none payload) h e = inr (
  id,
  none,
  payload,
  refl,
  subst (Responds web id none) (ok-inj e) (send_error-Responds web cfg id none [] _),
)
on_command-Responds web cfg (request id (some surb) payload) h e =
    inr (id, some surb, payload, refl, on_request-Responds web cfg id (some surb) payload h e)

-- sendRequest depends on what the mix network does with messages of at most 30000 bytes only: it
-- hands on no longer one.
pub send_request-Fits :
    (web : Web) (thin : Thin) (deliver : Bytes → Delivery) (http : Bytes)
    → ((blob : Bytes) → length blob ≤ user_forward_payload_length → thin.send blob ≡ deliver blob)
    → send_request web thin http ≡ send_request web record thin { send = deliver } http
unfolding send_request
send_request-Fits web thin deliver http same = elim (Option-cases (compress_data web http)) [
  | inl e ↦ ground arith
  | inr (c, e) ↦ elim (Option-cases (web.marshal_request record { payload = c })) [
    | inl m ↦ ground arith
    | inr (blob, m) ↦ ground (arith, same blob)
  ]
]

-- A wallet whose request makes a message of more than 30000 bytes is answered `custom 500`, and the
-- answer is the same whatever the mix network would do: nothing is sent.
pub handler-too_big :
    (web : Web) (thin : Thin) (req : HttpRequest) (url : Url) (c blob : Bytes)
    → web.parse_url req.request_uri ≡ some url
    → compress_data web (web.write_request record req { url = url; request_uri = [] }) ≡ some c
    → web.marshal_request record { payload = c } ≡ some blob
    → user_forward_payload_length < length blob
    → handler web thin req ≡ ok (http_error (bytes_of "custom 500") 500)
unfolding handler send_request send_blob send_failure error_text
handler-too_big web thin req url c blob u p m big = ground (
  arith,
  u,
  p,
  m,
  contains-middle (bytes_of "payload size " ++ (itoa (length blob) ++ bytes_of " "))
      (bytes_of "exceeds maximum")
      (bytes_of " " ++ (itoa user_forward_payload_length ++ bytes_of " bytes")),
)
