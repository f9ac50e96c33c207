-- ===== src/Proxy/Contained.antt =====
-- What the plugin sends to the outside, for whatever a client writes to it, and when it panics.
use opt.Base.{
  ◌≡◌, ◌≢◌, ◌↔◌, ◌⊎◌, refl, List, [], ◌∷◌, Option, none, some, true, Bool-cases, Option-cases, inl,
  inr, arith, ℕ, Bytes, bytes_eq_sound,
}
use opt.Base.Outcome.{ok, panics}
use opt.Proxy.{Web, HttpRequest, OutRequest, Reply, failed, unreadable, answered, decompress_data}
use opt.Proxy.Plugin.{
  Config, Networks, Command, request, other, Handled, find_network, all_filled, load, on_command,
  on_request, serve, forward, reply_with, send_error, send_payload, validate_request_url,
  out_request, without_slash,
}

-- The request in the payload of a message.
pub record Reads (web : Web) (payload : Bytes) (r : HttpRequest) : Type 0 where
  pub envelope : Bytes
  pub raw : Bytes
  pub decodes : web.decode_request payload ≡ some record { payload = envelope }
  pub inflates : decompress_data web envelope ≡ some raw
  pub parses : web.read_request raw ≡ some r

-- A request goes to the target of an entry of the configuration, which has no empty side.
pub record Configured (cfg : Config) (q : OutRequest) : Type 0 where
  pub network : Bytes
  pub listed : find_network network cfg.networks ≡ some q.target
  pub named : network ≢ []
  pub aimed : q.target ≢ []

find_network-filled :
    (uri : Bytes) (nets : Networks) (target : Bytes)
    → all_filled nets ≡ true
    → find_network uri nets ≡ some target
    → (uri ≢ []) × (target ≢ [])
unfolding find_network all_filled
find_network-filled uri [] target f h = cc
find_network-filled uri (([], v) ∷ nets) target f h = cc
find_network-filled uri ((c ∷ k, []) ∷ nets) target f h = cc
find_network-filled uri ((c ∷ k, d ∷ v) ∷ nets) target f h =
    ground (arith, bytes_eq_sound (c ∷ k) uri, find_network-filled uri nets target)

loaded_filled :
    (parse : Bytes → Option Config) (b : Option Bytes) (cfg : Config)
    → load parse b ≡ some cfg
    → all_filled cfg.networks ≡ true
unfolding load
loaded_filled parse none cfg h = cc
loaded_filled parse (some b) cfg h = ground arith

-- Nothing is sent, or one request to a configured target and those that its redirects lead to.
abbrev pub SendsInside : Web → Config → List OutRequest → Type 0
SendsInside web cfg sent =
    (sent ≡ []) ⊎ ((q : OutRequest) × Configured cfg q × (sent ≡ q ∷ web.redirects q))

module _ (web : Web) (cfg : Config) (filled : all_filled cfg.networks ≡ true) (id : ℕ)
    (surb : Option Bytes) where
  reply_with-sent :
      (sent : List OutRequest) (r : Reply) → (reply_with web cfg id surb sent r).sent ≡ sent
  unfolding reply_with
  reply_with-sent sent failed = refl
  reply_with-sent sent (unreadable why) = refl
  reply_with-sent sent (answered body) = ground arith

  forward-SendsInside :
      (r : HttpRequest) (uri : Bytes) → SendsInside web cfg (forward web cfg id surb r uri).sent
  unfolding forward send_error
  forward-SendsInside r uri = elim (Option-cases (find_network uri cfg.networks)) [
    | inl e ↦ inl (ground arith)
    | inr (target, e) ↦ elim (Bool-cases (web.is_request r.method target)) [
      | inl good ↦
          let q = out_request web cfg id surb r target in
          let (named, aimed) = find_network-filled uri cfg.networks target filled e in
          inr (
            q,
            record { network = uri; listed = e; named = named; aimed = aimed },
            ground (arith, reply_with-sent (q ∷ web.redirects q) (web.exchange q)),
          )
      | inr bad ↦ inl (ground arith)
    ]
  ]

  serve-SendsInside :
      (r : HttpRequest) (h : Handled) → serve web cfg id surb r ≡ ok h → SendsInside web cfg h.sent
  unfolding serve send_error send_payload
  serve-SendsInside r h e =
      ground (arith, forward-SendsInside r (without_slash web cfg id surb r.url.path))

  on_request-SendsInside :
      (payload : Bytes) (h : Handled)
      → on_request web cfg id surb payload ≡ ok h
      → SendsInside web cfg h.sent
  unfolding on_request send_error
  on_request-SendsInside payload h e = elim (Option-cases (web.decode_request payload)) [
    | inl none' ↦ inl (ground arith)
    | inr (req, d) ↦ elim (Option-cases (decompress_data web req.payload)) [
      | inl none' ↦ inl (ground arith)
      | inr (raw, u) ↦ elim (Option-cases (web.read_request raw)) [
        | inl none' ↦ inl (ground arith)
        | inr (r, p) ↦ serve-SendsInside r h (ground arith)
      ]
    ]
  ]

-- Whatever command reaches the plugin, with the configuration that it has loaded: if it does not
-- panic, it makes at most one HTTP request, to the target of a configured network whose name and
-- target are not empty, and nothing else is sent but what Go's HTTP client sends where that request is
-- redirected.
pub on_command-SendsInside :
    (web : Web) (parse : Bytes → Option Config) (file : Option Bytes) (cfg : Config) (cmd : Command)
    (h : Handled)
    → load parse file ≡ some cfg
    → on_command web cfg cmd ≡ ok h
    → SendsInside web cfg h.sent
unfolding on_command send_error
on_command-SendsInside web parse file cfg (request id none payload) h l e = inl (ground arith)
on_command-SendsInside web parse file cfg (request id (some surb) payload) h l e =
    on_request-SendsInside web cfg (loaded_filled parse file cfg l) id (some surb) payload h e
on_command-SendsInside web parse file cfg other h l e = inl (ground arith)

-- A message on which the plugin panics.
pub record Kills (web : Web) (cmd : Command) : Type 0 where
  pub id : ℕ
  pub surb : Bytes
  pub payload : Bytes
  pub is_request : cmd ≡ request id (some surb) payload
  pub http : HttpRequest
  pub reads : Reads web payload http
  pub no_path : http.url.path ≡ []

serve-panics :
    (web : Web) (cfg : Config) (id : ℕ) (surb : Option Bytes) (r : HttpRequest)
    → (serve web cfg id surb r ≡ panics) ↔ (r.url.path ≡ [])
unfolding serve validate_request_url
serve-panics web cfg id surb r = ground arith

Kills-of_panics :
    (web : Web) (cfg : Config) (cmd : Command) → on_command web cfg cmd ≡ panics → Kills web cmd
unfolding on_command on_request
Kills-of_panics web cfg (request id none payload) e = cc
Kills-of_panics web cfg other e = cc
Kills-of_panics web cfg (request id (some surb) payload) e =
    elim (Option-cases (web.decode_request payload)) [
      | inl none' ↦ absurd (ground arith)
      | inr (req, d) ↦ elim (Option-cases (decompress_data web req.payload)) [
        | inl none' ↦ absurd (ground arith)
        | inr (raw, u) ↦ elim (Option-cases (web.read_request raw)) [
          | inl none' ↦ absurd (ground arith)
          | inr (r, p) ↦ record {
            id = id;
            surb = surb;
            payload = payload;
            is_request = refl;
            http = r;
            reads = record {
              envelope = req.payload;
              raw = raw;
              decodes = d;
              inflates = u;
              parses = p;
            };
            no_path = (serve-panics web cfg id (some surb) r).0 (ground arith);
          }
        ]
      ]
    ]

panics-of_Kills :
    (web : Web) (cfg : Config) (cmd : Command) → Kills web cmd → on_command web cfg cmd ≡ panics
unfolding on_command on_request
panics-of_Kills web cfg cmd k =
    let r = k.reads in
    let p = (serve-panics web cfg k.id (some k.surb) k.http).1 k.no_path in
    ground (arith, k.is_request, r.decodes, r.inflates, r.parses)

-- The plugin panics exactly on a request with a SURB whose payload holds an HTTP request without a
-- path, as that for `http://host` is.
pub on_command-panics :
    (web : Web) (cfg : Config) (cmd : Command) → (on_command web cfg cmd ≡ panics) ↔ Kills web cmd
on_command-panics web cfg cmd = (Kills-of_panics web cfg cmd, panics-of_Kills web cfg cmd)
