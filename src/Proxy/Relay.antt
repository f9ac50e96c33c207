-- ===== src/Proxy/Relay.antt =====
-- The client and the plugin together, over a mix network that pads what it carries with zeros: a
-- reverse proxy for the configured targets.
use opt.Base.{
  ℕ, ◌≡◌, ◌≤◌, sym, ◌∙◌, List, [], ◌∷◌, ◌++◌, Option, none, some, true, false, Bool-cases,
  Option-cases, inl, inr, arith, ltb, some-inj, length, Bytes, replicate, if◌then◌else◌,
}
use opt.Base.Texts.{bytes_of}
use opt.Base.Outcome.{ok, err, panics}
use opt.Proxy.{
  Web, Url, HttpRequest, OutRequest, Reply, failed, unreadable, answered, Request, Response,
  compress_data, decompress_data,
}
use opt.Proxy.Plugin.{
  Config, Networks, request, Handled, on_command, on_request, serve, forward, reply_with,
  send_error, send_payload, out_request, find_network, validate_request_url, max_payload_size,
  is_probe,
}
use opt.Proxy.Sizes.{forward-Responds}
use opt.Proxy.Wallet.{
  Thin, Delivery, replied, undelivered, send_request, send_blob, user_forward_payload_length,
  show_reply, Answer, internal_error, success, handler,
}

-- What is inflated is what was deflated, and the first object that is decoded is the one that was
-- marshalled, whatever zeros follow it.
pub record Lawful (web : Web) : Type 0 where
  pub compresses :
      (plain : Bytes) → (c : Bytes) × (web.deflate plain ≡ some c) × (web.inflate c ≡ some plain)
  pub request_codec :
      (r : Request) (zeros : ℕ)
      → (blob : Bytes) × (web.marshal_request r ≡ some blob)
        × (web.decode_request (blob ++ replicate zeros 0) ≡ some r)
  pub response_codec :
      (r : Response) (zeros : ℕ)
      → (blob : Bytes) × (web.marshal_response r ≡ some blob)
        × (web.decode_response (blob ++ replicate zeros 0) ≡ some r)

-- What a reverse proxy has for a request with the path `/uri`: the target's body, unless no network
-- or no target of that name answers or the body is too long.
unfoldable pub body_of : Web → Reply → Option Bytes
body_of web failed = none
body_of web (unreadable why) = none
body_of web (answered body) = elim (compress_data web body) [
  | none ↦ none
  | some c ↦ if ltb max_payload_size (length c) then none else some body
]

unfoldable pub fetch : Web → Networks → HttpRequest → Bytes → Option Bytes
unfolding body_of
fetch web nets r uri = elim (find_network uri nets) [
  | none ↦ none
  | some target ↦
      if web.is_request r.method target
      then body_of web (
          web.exchange record {
            method = r.method;
            target = target;
            content_type = r.content_type;
            content_length = r.content_length;
            body = r.body;
          })
      else none
]

-- What the wallet is to see of it.
abbrev pub relayed : Web → Option Bytes → Answer
relayed web none = internal_error
relayed web (some body) = success web body

-- What the client makes of the first response, with the padding of the way back.
abbrev shown : Web → ℕ → Handled → Answer
shown web zeros h = elim h.written [
  | [] ↦ internal_error
  | w ∷ ws ↦ show_reply web (w.payload ++ replicate zeros 0)
]

-- The mix network: a message reaches the plugin, and its response comes back.
abbrev pub through_plugin : Web → Config → ℕ → ℕ → ℕ → Bytes → Bytes → Delivery
through_plugin web cfg up down id surb blob =
    elim (on_command web cfg (request id (some surb) (blob ++ replicate up 0))) [
      | panics ↦ undelivered (bytes_of "lost")
      | err e ↦ undelivered (bytes_of "lost")
      | ok h ↦ elim h.written [
        | [] ↦ undelivered (bytes_of "lost")
        | w ∷ ws ↦ replied (w.payload ++ replicate down 0)
      ]
    ]

module _ (web : Web) (lawful : Lawful web) where
  compressed :
      (plain : Bytes)
      → (c : Bytes) × (compress_data web plain ≡ some c) × (decompress_data web c ≡ some plain)
  unfolding compress_data decompress_data
  compressed plain = elim (Bool-cases web.compression_enabled) [
    | inl on ↦ let (c, d, i) = lawful.compresses plain in (c, ground arith, ground arith)
    | inr off ↦ (plain, ground arith, ground arith)
  ]

  module _ (cfg : Config) (id : ℕ) (surb : Option Bytes) (zeros : ℕ) where
    shown-send_error :
        (sent : List OutRequest) (c : ℕ) (msg : Bytes)
        → shown web zeros (send_error web cfg id surb sent (c ∷ msg)) ≡ internal_error
    unfolding send_error show_reply
    shown-send_error sent c msg =
        let (blob, m, d) = lawful.response_codec record { payload = []; error = c ∷ msg } zeros in
        ground arith

    shown-answered :
        (sent : List OutRequest) (body : Bytes)
        → shown web zeros (reply_with web cfg id surb sent (answered body))
          ≡ relayed web (body_of web (answered body))
    unfolding reply_with send_payload show_reply body_of
    shown-answered sent body =
        let (c, e, i) = compressed body in
        elim (Bool-cases (ltb max_payload_size (length c))) [
          | inl big ↦
              ground (arith, shown-send_error sent b'H' (bytes_of "TTP response is too big"))
          | inr small ↦
              let (blob, m, d) = lawful.response_codec record { payload = c; error = [] } zeros in
              ground arith
        ]

    shown-reply_with :
        (sent : List OutRequest) (r : Reply)
        → shown web zeros (reply_with web cfg id surb sent r) ≡ relayed web (body_of web r)
    unfolding reply_with body_of
    shown-reply_with sent failed = shown-send_error sent b'H' (bytes_of "TTP request failed")
    shown-reply_with sent (unreadable why) =
        shown-send_error sent b'i' (bytes_of "o.ReadAll(resp.Body) failed: " ++ why)
    shown-reply_with sent (answered body) = shown-answered sent body

    shown-forward :
        (r : HttpRequest) (uri : Bytes)
        → shown web zeros (forward web cfg id surb r uri)
          ≡ relayed web (fetch web cfg.networks r uri)
    unfolding forward fetch
    shown-forward r uri = elim (Option-cases (find_network uri cfg.networks)) [
      | inl e ↦ ground (arith, shown-send_error [] b'U' (bytes_of "RI not configured in networks"))
      | inr (target, e) ↦ elim (Bool-cases (web.is_request r.method target)) [
        | inl good ↦
            let q = out_request web cfg id surb r target in
            ground (arith, shown-reply_with (q ∷ web.redirects q) (web.exchange q))
        | inr bad ↦
            ground (arith, shown-send_error [] b'F' (bytes_of "ailed to create HTTP request"))
      ]
    ]

-- A request of a wallet, what the client writes of it and what the plugin reads back, on the path
-- `/uri`. The mix network has a SURB id and a service, and carries the message.
pub record Carried (web : Web) (req seen : HttpRequest) (uri raw blob : Bytes) : Type 0 where
  pub url : Url
  pub url_parses : web.parse_url req.request_uri ≡ some url
  pub raw_is : raw ≡ web.write_request record req { url = url; request_uri = [] }
  pub reads_back : web.read_request raw ≡ some seen
  pub compressed_raw : Bytes
  pub compresses : compress_data web raw ≡ some compressed_raw
  pub marshals : web.marshal_request record { payload = compressed_raw } ≡ some blob
  pub path_is : seen.url.path ≡ b'/' ∷ uri
  pub no_probe : is_probe seen.url.path ≡ false

module _ (web : Web) (lawful : Lawful web) (cfg : Config) (up down id : ℕ) (surb : Bytes) where
  serve-forward :
      (seen : HttpRequest) (uri : Bytes)
      → seen.url.path ≡ b'/' ∷ uri
      → is_probe seen.url.path ≡ false
      → serve web cfg id (some surb) seen ≡ ok (forward web cfg id (some surb) seen uri)
  unfolding serve validate_request_url
  serve-forward seen uri p q = ground arith

  arrives :
      {req seen : HttpRequest} {uri raw blob : Bytes}
      → Carried web req seen uri raw blob
      → on_command web cfg (request id (some surb) (blob ++ replicate up 0))
        ≡ ok (forward web cfg id (some surb) seen uri)
  unfolding on_command on_request
  arrives {seen = seen} {uri = uri} {raw = raw} {blob = blob} c =
      let (blob', m, d) = lawful.request_codec record { payload = c.compressed_raw } up in
      let (packed, p, u) = compressed web lawful raw in
      let same : blob' ≡ blob = some-inj (sym m ∙ c.marshals) in
      let packed_is : packed ≡ c.compressed_raw = some-inj (sym p ∙ c.compresses) in
      ground
        (arith, d, u, c.reads_back, serve-forward seen uri c.path_is c.no_probe, same, packed_is)

  abbrev pub network : Thin
  network = record {
    random_ok = true;
    has_service = true;
    send = through_plugin web cfg up down id surb;
  }

  -- Through the client, the mix network and the plugin, a wallet sees exactly what a reverse proxy
  -- has for its request: the target's body, printed, with the status 200, or the status 500. The
  -- codecs are lawful, the request carries over on a path of one slash and a name that is no probe,
  -- and its message has at most 30000 bytes.
  pub handler-relayed :
      (req seen : HttpRequest) (uri raw blob : Bytes)
      → Carried web req seen uri raw blob
      → length blob ≤ user_forward_payload_length
      → handler web network req ≡ ok (relayed web (fetch web cfg.networks seen uri))
  unfolding handler send_request send_blob
  handler-relayed req seen uri raw blob c fits =
      let h = forward web cfg id (some surb) seen uri in
      let r = forward-Responds web cfg id (some surb) seen uri in
      let s = shown-forward web lawful cfg id (some surb) down seen uri in
      ground (arith, c.url_parses, c.raw_is, c.compresses, c.marshals, arrives c, r.once, s)
