-- ===== src/Proxy/Wallet.antt =====
-- The client: sendRequest and Handler of apps/walletshield/main.go.
use opt.Base.{ℕ, [], ◌∷◌, ◌++◌, Option, none, some, Bool, Bytes, length, ltb, if◌then◌else◌}
use opt.Base.Texts.{bytes_of, contains, itoa}
use opt.Base.Outcome.{Outcome, ok, panics}
use opt.Proxy.{Web, HttpRequest, compress_data, decompress_data}

abbrev pub user_forward_payload_length : ℕ
user_forward_payload_length = 30000

-- What BlockingSendMessage comes back with.
pub data Delivery : Type 0 where
  replied : Bytes → Delivery
  undelivered : (why : Bytes) → Delivery

-- The thin client: whether the random bytes of a SURB id and a service are to be had, and the
-- delivery of a message to it.
pub record Thin : Type 0 where
  pub random_ok : Bool
  pub has_service : Bool
  pub send : Bytes → Delivery

pub data SendError : Type 0 where
  compress_failed : (why : Bytes) → SendError
  marshal_failed : (why : Bytes) → SendError
  too_big : (size : ℕ) → SendError
  send_failed : (why : Bytes) → SendError

unfoldable pub error_text : SendError → Bytes
error_text (compress_failed why) = bytes_of "common.CompressData failed: " ++ why
error_text (marshal_failed why) = bytes_of "cbor.Marshal failed: " ++ why
error_text (too_big size) =
    (bytes_of "payload size " ++ (itoa size ++ bytes_of " "))
    ++ (bytes_of "exceeds maximum"
        ++ (bytes_of " " ++ (itoa user_forward_payload_length ++ bytes_of " bytes")))
error_text (send_failed why) = why

-- A reply, an error, or a panic.
pub data Sent : Type 0 where
  reply : Bytes → Sent
  refused : SendError → Sent
  panicked : Sent

module _ (web : Web) (thin : Thin) where
  -- From the check of the size on.
  unfoldable pub send_blob : Bytes → Sent
  send_blob blob =
      if ltb user_forward_payload_length (length blob)
      then refused (too_big (length blob))
      else if thin.random_ok
      then (if thin.has_service
          then elim (thin.send blob) [
            | replied r ↦ reply r
            | undelivered why ↦ refused (send_failed why)
          ]
          else panicked)
      else panicked

  unfoldable pub send_request : Bytes → Sent
  unfolding send_blob
  send_request http = elim (compress_data web http) [
    | none ↦ refused (compress_failed web.deflate_error)
    | some compressed ↦ elim (web.marshal_request record { payload = compressed }) [
      | none ↦ refused (marshal_failed web.marshal_error)
      | some blob ↦ send_blob blob
    ]
  ]

-- What the wallet is answered.
pub record Answer : Type 0 where
  pub status : ℕ
  pub content_type : Bytes
  pub content_length : Option ℕ
  pub body : Bytes

-- http.Error: the message and a newline, as plain text.
unfoldable pub http_error : Bytes → ℕ → Answer
http_error msg status = record {
  status = status;
  content_type = bytes_of "text/plain; charset=utf-8";
  content_length = none;
  body = msg ++ (b'\n' ∷ []);
}

abbrev pub internal_error : Answer
internal_error = http_error (bytes_of "Internal Server Error") 500

-- A handler that returns without a write answers 200 with no body.
abbrev pub silent : Answer
silent = record { status = 200; content_type = []; content_length = none; body = [] }

module _ (web : Web) where
  -- The status and the headers of a reply, and the body as Fprintf prints it.
  unfoldable pub success : Bytes → Answer
  success payload = record {
    status = 200;
    content_type = bytes_of "application/json";
    content_length = some (length payload);
    body = web.printf payload;
  }

  unfoldable pub send_failure : SendError → Answer
  send_failure e =
      if contains (error_text e) (bytes_of "exceeds maximum")
      then http_error (bytes_of "custom 500") 500
      else http_error (bytes_of "custom 404") 404

  -- From the raw reply on; what follows its first object is padding, and dropped.
  unfoldable pub show_reply : Bytes → Answer
  unfolding success
  show_reply raw = elim (web.decode_response raw) [
    | none ↦ internal_error
    | some r ↦ elim r.error [
      | e ∷ es ↦ internal_error
      | [] ↦ elim (decompress_data web r.payload) [
        | none ↦ internal_error
        | some payload ↦ success payload
      ]
    ]
  ]

  abbrev pub show_sent : Sent → Outcome Answer
  show_sent (reply raw) = ok (show_reply raw)
  show_sent (refused e) = ok (send_failure e)
  show_sent panicked = panics

  unfoldable pub handler : Thin → HttpRequest → Outcome Answer
  unfolding send_request
  handler thin req = elim (web.parse_url req.request_uri) [
    | none ↦ ok silent
    | some url ↦
        show_sent
          (send_request web thin (web.write_request record req { url = url; request_uri = [] }))
  ]
