-- ===== src/Tests/Proxies.antt =====
-- Runs of the client and the plugin, over codecs that write the lengths in front.
use opt.Base.{
  ℕ, ◌<◌, ◌⊎◌, ◌↔◌, sym, subst, length-replicate, zero, suc, ◌≡◌, refl, ◌∙◌, ap, List, [], ◌∷◌,
  ◌++◌, Option, none, some, Bool, true, false, Bytes, length, take, arith, if◌then◌else◌, bytes_eq,
  ◌==◌, ltb, replicate,
}
use mathlib.Core.List.{append_assoc}
use opt.Base.Texts.{bytes_of, atoi, itoa, split, has_prefix}
use opt.Base.Outcome.{ok, panics}
use opt.Proxy.{Web, HttpRequest, Request, Response, answered, compress_data, decompress_data}
use opt.Proxy.Plugin.{
  Command, other, Handled, forward, validate_request_url, Config, load, request, on_command,
  probe_delay, is_probe, find_network,
}
use opt.Proxy.Wallet.{success, handler}
use opt.Proxy.Contained.{SendsInside, Kills, on_command-SendsInside, on_command-panics}
use opt.Proxy.Sizes.{Responds, on_command-Responds}
use opt.Proxy.Relay.{Lawful, relayed, network, Carried, handler-relayed, fetch}

abbrev drop : ℕ → Bytes → Bytes
drop zero xs = xs
drop (suc n) [] = []
drop (suc n) (x ∷ xs) = drop n xs

take-length : (xs ys : Bytes) → take (length xs) (xs ++ ys) ≡ xs
take-length [] ys = refl
take-length (x ∷ xs) ys = ap (λ l. x ∷ l) (take-length xs ys)

drop-length : (xs ys : Bytes) → drop (length xs) (xs ++ ys) ≡ ys
drop-length [] ys = refl
drop-length (x ∷ xs) ys = drop-length xs ys

abbrev tail_after_1 : Bytes → Option Bytes
tail_after_1 [] = none
tail_after_1 (c ∷ b) = if c == 1 then some b else none

abbrev read_envelope : Bytes → Option Request
read_envelope [] = none
read_envelope (n ∷ b) = some record { payload = take n b }

abbrev read_response : Bytes → Option Response
read_response [] = none
read_response (n ∷ []) = none
read_response (n ∷ m ∷ b) = some record { payload = take n b; error = take m (drop n b) }

abbrev get_of : Bytes → HttpRequest
get_of path = record {
  method = bytes_of "GET";
  url = record { path = path; host = [] };
  request_uri = [];
  content_type = [];
  content_length = [];
  body = [];
}

-- The target answers "{}", and a request is written as its path.
abbrev web : Web
web = record {
  compression_enabled = true;
  deflate = λ b. some (1 ∷ b);
  inflate = tail_after_1;
  marshal_request = λ r. some (length r.payload ∷ r.payload);
  decode_request = read_envelope;
  marshal_response = λ r. some (length r.payload ∷ length r.error ∷ (r.payload ++ r.error));
  decode_response = read_response;
  deflate_error = [];
  marshal_error = [];
  parse_url = λ uri. some record { path = uri; host = [] };
  write_request = λ r. r.url.path;
  read_request = λ raw. some (get_of raw);
  is_request = λ m t. true;
  redirects = λ q. [];
  exchange = λ q. answered (bytes_of "{}");
  printf = λ b. b;
}

web-Lawful : Lawful web
web-Lawful = record {
  compresses = λ plain. (1 ∷ plain, refl, refl);
  request_codec = λ r zeros.
      (length r.payload ∷ r.payload, refl, rw (take-length r.payload (replicate zeros 0)) refl);
  response_codec = λ r zeros. (
    length r.payload ∷ length r.error ∷ (r.payload ++ r.error),
    refl,
    rw
        (
          append_assoc r.payload r.error (replicate zeros 0),
          take-length r.payload (r.error ++ replicate zeros 0),
          drop-length r.payload (r.error ++ replicate zeros 0),
          take-length r.error (replicate zeros 0),
        )
        refl,
  );
}

abbrev networks : Config
networks = record { networks = (bytes_of "eth", bytes_of "https://t") ∷ [] }

abbrev envelope : Bytes → Bytes
envelope path = 1 ∷ path

abbrev message : Bytes → Bytes
message path = length (envelope path) ∷ envelope path

atoi_cases :
    (atoi (bytes_of "12") ≡ some (opt.Base.Int.pos 12))
    × (atoi (bytes_of "1x") ≡ none)
    × (atoi (bytes_of "9223372036854775808") ≡ none)
unfolding atoi
atoi_cases = (refl, refl, refl)

itoa_30000 : itoa 30000 ≡ bytes_of "30000"
unfolding itoa
itoa_30000 = refl

probe_waits : probe_delay (bytes_of "/_/probe/2") ≡ 2000000000
unfolding probe_delay split atoi
probe_waits = refl

abbrev ask_eth : Command
ask_eth = request 1 (some []) (message (bytes_of "/eth"))

abbrev eth_handled : Handled
eth_handled = forward web networks 1 (some []) (get_of (bytes_of "/eth")) (bytes_of "eth")

eth_ok : on_command web networks ask_eth ≡ ok eth_handled
unfolding on_command decompress_data is_probe has_prefix validate_request_url
eth_ok = refl

on_command-SendsInside_example : SendsInside web networks eth_handled.sent
unfolding load
on_command-SendsInside_example =
    on_command-SendsInside web (λ b. some networks) (some []) networks ask_eth eth_handled refl
      eth_ok

on_command-Responds_example :
    ((ask_eth ≡ other) × (eth_handled.written ≡ []))
    ⊎ ((id : ℕ) × (surb : Option Bytes) × (payload : Bytes) × (ask_eth ≡ request id surb payload)
        × Responds web id surb eth_handled)
on_command-Responds_example = on_command-Responds web networks ask_eth eth_handled eth_ok

-- An empty path kills the plugin.
abbrev ask_nothing : Command
ask_nothing = request 1 (some []) (message [])

nothing_panics : on_command web networks ask_nothing ≡ panics
unfolding on_command decompress_data validate_request_url
nothing_panics = refl

on_command-panics_example : (on_command web networks ask_nothing ≡ panics) ↔ Kills web ask_nothing
on_command-panics_example = on_command-panics web networks ask_nothing

eth-Carried :
    Carried web
      record (get_of []) { request_uri = bytes_of "/eth" }
      (get_of (bytes_of "/eth"))
      (bytes_of "eth")
      (bytes_of "/eth")
      (message (bytes_of "/eth"))
unfolding compress_data is_probe has_prefix
eth-Carried = record {
  url = record { path = bytes_of "/eth"; host = [] };
  url_parses = refl;
  raw_is = refl;
  reads_back = refl;
  compressed_raw = envelope (bytes_of "/eth");
  compresses = refl;
  marshals = refl;
  path_is = refl;
  no_probe = refl;
}

handler-relayed_example :
    handler web
      (network web web-Lawful networks 3 5 1 [])
      record (get_of []) { request_uri = bytes_of "/eth" }
    ≡ ok (relayed web (fetch web networks.networks (get_of (bytes_of "/eth")) (bytes_of "eth")))
handler-relayed_example =
    handler-relayed web web-Lawful networks 3 5 1 []
      record (get_of []) { request_uri = bytes_of "/eth" } (get_of (bytes_of "/eth"))
      (bytes_of "eth") (bytes_of "/eth") (message (bytes_of "/eth")) eth-Carried (omega arith)

-- The wallet sees the target's body.
eth_seen :
    relayed web (fetch web networks.networks (get_of (bytes_of "/eth")) (bytes_of "eth"))
    ≡ success web (bytes_of "{}")
unfolding fetch find_network bytes_eq compress_data
eth_seen = refl
