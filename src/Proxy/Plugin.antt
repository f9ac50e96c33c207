-- ===== src/Proxy/Plugin.antt =====
-- The plugin: server_plugins/cbor_plugins/http_proxy/common.go and its cmd/http_proxy/main.go.
use opt.Base.{
  ℕ, ◌-◌, ◌*◌, ◌%◌, ◌^◌, List, [], ◌∷◌, ◌++◌, Option, none, some, Bool, true, false, ◌||◌, Bytes,
  bytes_eq, length, get_elem?, ltb, ◌==◌, if◌then◌else◌,
}
use opt.Base.Texts.{bytes_of, has_prefix, split, atoi}
use opt.Base.Int.{pos_part}
use opt.Base.Outcome.{Outcome, ok, panics, ◌>>=◌}
use opt.Proxy.{
  Web, HttpRequest, OutRequest, Reply, failed, unreadable, answered, compress_data, decompress_data,
}

abbrev pub Networks : Type 0
Networks = List (Bytes × Bytes)

pub record Config : Type 0 where
  pub networks : Networks

unfoldable pub find_network : Bytes → Networks → Option Bytes
find_network uri [] = none
find_network uri ((k, v) ∷ rest) = if bytes_eq k uri then some v else find_network uri rest

abbrev is_empty : Bytes → Bool
is_empty [] = true
is_empty (c ∷ s) = false

-- Config.Validate: an entry with an empty side is an error, whichever entry the iteration meets.
unfoldable pub all_filled : Networks → Bool
all_filled [] = true
all_filled ((k, v) ∷ rest) = if is_empty k || is_empty v then false else all_filled rest

unfoldable pub validate : Config → Bool
unfolding all_filled
validate cfg = all_filled cfg.networks

-- Load: a nil buffer, TOML that does not parse and a configuration that is not valid are errors.
unfoldable pub load : (Bytes → Option Config) → Option Bytes → Option Config
unfolding validate
load parse none = none
load parse (some b) = elim (parse b) [
  | none ↦ none
  | some cfg ↦ if validate cfg then some cfg else none
]

abbrev pub max_payload_size : ℕ
max_payload_size = 30000 - 20

-- cborplugin.Command: a request with its SURB, or another command.
pub data Command : Type 0 where
  request : (id : ℕ) → (surb : Option Bytes) → (payload : Bytes) → Command
  other : Command

pub record PluginResponse : Type 0 where
  pub id : ℕ
  pub surb : Option Bytes
  pub payload : Bytes

-- What a command leads to: the requests sent to targets and where they redirect, the nanoseconds slept, what is written
-- to the mix server, and the error that is returned.
pub record Handled : Type 0 where
  pub sent : List OutRequest
  pub slept : ℕ
  pub written : List PluginResponse
  pub error : Option Bytes

-- The index 0 of an empty string is out of range. No error is `none`.
unfoldable pub validate_request_url : Bytes → Outcome (Option Bytes)
validate_request_url [] = panics
validate_request_url (c ∷ uri) =
    if c == b'/' then ok none else ok (some (bytes_of "uri must start with a slash"))

-- time.Sleep(time.Duration(delay) * time.Second), an int64 that wraps; a negative one returns at once.
unfoldable pub sleep_seconds : ℕ → ℕ
sleep_seconds delay =
    let wrapped = (delay * 1000000000) % 2 ^ 64 in if ltb wrapped (2 ^ 63) then wrapped else 0

unfoldable pub is_probe : Bytes → Bool
is_probe path = has_prefix path (bytes_of "/_/probe")

unfoldable pub probe_delay : Bytes → ℕ
unfolding sleep_seconds
probe_delay path = elim (get_elem? (split b'/' path) 3) [
  | none ↦ 0
  | some segment ↦ elim (atoi segment) [
    | none ↦ 0
    | some d ↦ if ltb 0 (pos_part d) then sleep_seconds (pos_part d) else 0
  ]
]

module _ (web : Web) (cfg : Config) (id : ℕ) (surb : Option Bytes) where
  -- The error of the second Marshal is dropped: the payload is then nil.
  unfoldable pub send_error : List OutRequest → Bytes → Handled
  send_error sent msg = record {
    sent = sent;
    slept = 0;
    written =
        record {
          id = id;
          surb = surb;
          payload = elim (web.marshal_response record { payload = []; error = msg }) [
            | none ↦ []
            | some payload ↦ payload
          ];
        }
        ∷ [];
    error = some msg;
  }

  unfoldable pub send_payload : List OutRequest → ℕ → Bytes → Handled
  send_payload sent slept payload = record {
    sent = sent;
    slept = slept;
    written = record { id = id; surb = surb; payload = payload } ∷ [];
    error = none;
  }

  -- From the target's response on.
  unfoldable pub reply_with : List OutRequest → Reply → Handled
  unfolding send_error send_payload
  reply_with sent failed = send_error sent (bytes_of "HTTP request failed")
  reply_with sent (unreadable why) =
      send_error sent (bytes_of "io.ReadAll(resp.Body) failed: " ++ why)
  reply_with sent (answered body) = elim (compress_data web body) [
    | none ↦ send_error sent (bytes_of "Failed to compress response")
    | some compressed ↦
        if ltb max_payload_size (length compressed)
        then send_error sent (bytes_of "HTTP response is too big")
        else elim (web.marshal_response record { payload = compressed; error = [] }) [
          | none ↦ send_error sent (bytes_of "Error marshaling response")
          | some payload ↦ send_payload sent 0 payload
        ]
  ]

  abbrev pub out_request : HttpRequest → Bytes → OutRequest
  out_request r target = record {
    method = r.method;
    target = target;
    content_type = r.content_type;
    content_length = r.content_length;
    body = r.body;
  }

  -- From the lookup of the target on.
  unfoldable pub forward : HttpRequest → Bytes → Handled
  unfolding reply_with
  forward r uri = elim (find_network uri cfg.networks) [
    | none ↦ send_error [] (bytes_of "URI not configured in networks")
    | some target ↦
        if web.is_request r.method target
        then reply_with (out_request r target ∷ web.redirects (out_request r target))
            (web.exchange (out_request r target))
        else send_error [] (bytes_of "Failed to create HTTP request")
  ]

  abbrev pub without_slash : Bytes → Bytes
  without_slash [] = []
  without_slash (c ∷ uri) = uri

  -- From the check of the path on.
  unfoldable pub serve : HttpRequest → Outcome Handled
  unfolding forward
  serve r = do
    refused ← validate_request_url r.url.path
    elim refused [
      | some why ↦ ok (send_error [] (bytes_of "validateRequestURL failed: " ++ why))
      | none ↦
          if is_probe r.url.path
          then ok (send_payload [] (probe_delay r.url.path) [])
          else ok (forward r (without_slash r.url.path))
    ]

  -- The bytes after the first object of the payload are padding, and dropped.
  unfoldable pub on_request : Bytes → Outcome Handled
  unfolding serve
  on_request payload = elim (web.decode_request payload) [
    | none ↦ ok (send_error [] (bytes_of "Error decoding request"))
    | some req ↦ elim (decompress_data web req.payload) [
      | none ↦ ok (send_error [] (bytes_of "Failed to decompress request"))
      | some raw ↦ elim (web.read_request raw) [
        | none ↦ ok (send_error [] (bytes_of "Failed to read HTTP request"))
        | some r ↦ serve r
      ]
    ]
  ]

unfoldable pub on_command : Web → Config → Command → Outcome Handled
unfolding on_request
on_command web cfg (request id none payload) =
    ok (send_error web cfg id none [] (bytes_of "no SURB, cannot reply"))
on_command web cfg (request id (some surb) payload) = on_request web cfg id (some surb) payload
on_command web cfg other =
    ok record { sent = []; slept = 0; written = []; error = some (bytes_of "invalid Command type") }
