-- ===== src/Proxy.antt =====
-- The HTTP proxy over the mix network: what its client (apps/walletshield) and its plugin on a service
-- node (server_plugins/cbor_plugins/http_proxy) share, with common/compression.go.
-- A Go string is the list of its bytes.
pub mod Plugin
pub mod Wallet
pub mod Contained
pub mod Sizes
pub mod Relay
use opt.Base.{List, ℕ, Option, some, Bool, true, false, Bytes, if◌then◌else◌}

pub record Url : Type 0 where
  pub path : Bytes
  pub host : Bytes

-- http.Request, as far as it is read.
pub record HttpRequest : Type 0 where
  pub method : Bytes
  pub url : Url
  pub request_uri : Bytes
  pub content_type : Bytes
  pub content_length : Bytes
  pub body : Bytes

-- The request that the plugin sends to the target.
pub record OutRequest : Type 0 where
  pub method : Bytes
  pub target : Bytes
  pub content_type : Bytes
  pub content_length : Bytes
  pub body : Bytes

-- What comes of it: no response, a response whose body cannot be read to its end, or a body.
pub data Reply : Type 0 where
  failed : Reply
  unreadable : Bytes → Reply
  answered : Bytes → Reply

-- http_proxy.Request and http_proxy.Response.
pub record Request : Type 0 where
  pub payload : Bytes

pub record Response : Type 0 where
  pub payload : Bytes
  pub error : Bytes

-- Go's HTTP, compression and printing, the CBOR package, and the network behind the plugin.
-- `Option` is a Go error.
pub record Web : Type 0 where
  pub compression_enabled : Bool  -- CompressionEnabled == "true", set at build time
  pub deflate : Bytes → Option Bytes  -- flate.Writer at BestSpeed
  pub inflate : Bytes → Option Bytes  -- io.ReadAll of a flate.Reader
  pub marshal_request : Request → Option Bytes  -- cbor.Marshal
  pub decode_request : Bytes → Option Request  -- the first object of cbor.NewDecoder
  pub marshal_response : Response → Option Bytes
  pub decode_response : Bytes → Option Response
  pub deflate_error : Bytes
  pub marshal_error : Bytes
  pub parse_url : Bytes → Option Url  -- url.Parse
  pub write_request : HttpRequest → Bytes  -- Request.Write
  pub read_request : Bytes → Option HttpRequest  -- http.ReadRequest
  pub is_request : Bytes → Bytes → Bool  -- http.NewRequest takes the method and the target
  -- http.DefaultClient.Do: the requests that it sends after the one it is given, where it is
  -- redirected, and what comes of them all, with io.ReadAll of the body
  pub redirects : OutRequest → List OutRequest
  pub exchange : OutRequest → Reply
  pub printf : Bytes → Bytes  -- fmt.Fprintf with a format and no arguments

unfoldable pub compress_data : Web → Bytes → Option Bytes
compress_data web data' = if web.compression_enabled then web.deflate data' else some data'

unfoldable pub decompress_data : Web → Bytes → Option Bytes
decompress_data web data' = if web.compression_enabled then web.inflate data' else some data'
