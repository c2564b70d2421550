-- ===== src/Timestamp/Http.antt =====
-- crypto/timestamp/http.go: an authority that is asked over HTTP. The transport is an argument; none
-- stands for an error.
use notation_go.Prelude.{
  ℕ, ◌*◌, String, Bool, not, Option, none, some, Outcome, ok, err, ◌>>=◌, ◌>>◌, map_err, or_err,
  fail_if, str_eq, ◌==◌, if◌then◌else◌,
}
use notation_go.Signing.Messages.{Bytes}
use notation_go.Timestamp.Requests.{
  TimestampRequest, TimestampResponse, RequestFailure, marshal_binary, unmarshal_binary,
}

-- `maxBodyLength`
abbrev pub max_body_length : ℕ
max_body_length = 1 * 1024 * 1024

pub record HttpRequest : Type 0 where
  pub method : String
  pub url : String
  pub content_type : String
  pub body : Bytes

-- The body is read through a limit.
pub record HttpResponse : Type 0 where
  pub status_code : ℕ
  pub status : String
  pub content_type : String
  pub read_all : ℕ → Option Bytes

abbrev pub RoundTripper : Type 0
RoundTripper = HttpRequest → Option HttpResponse

pub record HttpTimestamper : Type 0 where
  pub round_tripper : RoundTripper
  pub endpoint : String

pub data HttpError : Type 0 where
  invalid_url no_answer unreadable_body : HttpError
  bad_message : RequestFailure → HttpError
  unexpected_status unexpected_content_type : String → HttpError

-- `NewHTTPTimestamper`, with the default transport and the test of `url.Parse`.
unfoldable pub new_http_timestamper :
    RoundTripper
    → (String → Bool)
    → Option RoundTripper
    → String
    → Outcome HttpError HttpTimestamper
new_http_timestamper default_transport is_url rt endpoint =
    if not (is_url endpoint)
    then err invalid_url
    else ok (record {
      round_tripper = elim rt [ none ↦ default_transport | some transport ↦ transport ];
      endpoint = endpoint;
    })

-- The functions of encoding/asn1 for the messages, and whether a request can be made for a URL.
pub record Wire : Type 0 where
  pub marshal_request : TimestampRequest → Option Bytes
  pub unmarshal_response : Bytes → Option TimestampResponse
  pub is_endpoint : String → Bool

-- What is checked of the answer, and how it is read.
unfoldable pub read_response : Wire → HttpResponse → Outcome HttpError TimestampResponse
unfolding unmarshal_binary
read_response wire response = do
  fail_if (not (response.status_code == 200)) (unexpected_status response.status)
  fail_if (not (str_eq response.content_type "application/timestamp-reply"))
      (unexpected_content_type response.content_type)
  resp_bytes ← or_err (response.read_all max_body_length) unreadable_body
  map_err bad_message (unmarshal_binary wire.unmarshal_response resp_bytes)

-- `Timestamp`, for a request that may be nil.
unfoldable pub http_timestamp :
    Wire → HttpTimestamper → Option TimestampRequest → Outcome HttpError TimestampResponse
unfolding marshal_binary read_response
http_timestamp wire ts req = do
  req_bytes ← map_err bad_message (marshal_binary wire.marshal_request req)
  fail_if (not (wire.is_endpoint ts.endpoint)) invalid_url
  response ←
      or_err
        (ts.round_tripper (record {
          method = "POST";
          url = ts.endpoint;
          content_type = "application/timestamp-query";
          body = req_bytes;
        }))
        no_answer
  read_response wire response
