-- ===== src/Api.antt =====
-- The HTTP client of the control plane, cli/src/util/api.ts: what each method asks, how it reads the
-- answer, and what the client keeps. `fetch` is a function from a request to what comes of it.
pub mod Endpoints
pub mod Client
mod Answers
mod Tokens
mod Cache
pub mod Sse
mod Tests
use open_agent_lock.Common.{
  Bool, Json, Option, Result, Text, [], codes, decimal, err, false, if◌then◌else◌, is_falsy,
  string_text, none, null, ok, some, true, ℕ, ◌++◌, ◌∷◌,
}

pub record Request : Type 0 where
  pub verb : Text
  pub url : Text
  pub authorization : Option Text
  pub body : Option Json

-- `text` is `none` where `res.text()` rejects; `json` is what `res.json()` gives, or its error.
pub record Response : Type 0 where
  pub status : ℕ
  pub status_text : Text
  pub text : Option Text
  pub json : Result Text Json

pub data Arrival : Type 0 where
  rejected : Text → Arrival
  arrived : Response → Arrival

-- What a method throws: what `fetch`, `res.text()` or `res.json()` reject with, or its own error with
-- its message.
pub data ApiError : Type 0 where
  transport : Text → ApiError
  unreadable : ApiError
  refused : Text → ApiError

-- What stands behind the status in the message: nothing, the body behind `: `, which may reject, or
-- the body behind a blank, which does not.
pub data Detail : Type 0 where
  no_detail : Detail
  with_body : Detail
  with_any_body : Detail

-- A method: the name in its messages, its request, which statuses it takes, whether it sends the
-- token, and whether it reads a result.
pub record Endpoint : Type 0 where
  pub name : Text
  pub verb : Text
  pub path : Text
  pub body : Option Json
  pub accepts : ℕ → Bool
  pub gated : Bool
  pub detail : Detail
  pub has_result : Bool

-- `Bearer <tok>`, for a token that counts as one; it is a text, or a value that has one.
unfoldable pub bearer : Option Json → Option Text
bearer none = none
bearer (some token) = if is_falsy token then none else some (codes "Bearer " ++ string_text token)

unfoldable pub request : Text → Option Json → Endpoint → Request
unfolding bearer
request url token e = record {
  verb = e.verb;
  url = url ++ e.path;
  authorization = if e.gated then bearer token else none;
  body = e.body;
}

-- `<name>: <status> <statusText>`
abbrev status_line : Endpoint → Response → Text
status_line e r = e.name ++ codes ": " ++ decimal r.status ++ b' ' ∷ r.status_text

abbrev with_text : Text → Option Text → ApiError
with_text line none = unreadable
with_text line (some text) = refused (line ++ codes ": " ++ text)

abbrev with_any_text : Text → Option Text → ApiError
with_any_text line none = refused (line ++ b' ' ∷ [])
with_any_text line (some text) = refused (line ++ b' ' ∷ text)

abbrev failure_of : Detail → Text → Response → ApiError
failure_of no_detail line r = refused line
failure_of with_body line r = with_text line r.text
failure_of with_any_body line r = with_any_text line r.text

abbrev result_of : Bool → Result Text Json → Result ApiError Json
result_of false body = ok null
result_of true (ok v) = ok v
result_of true (err m) = err (transport m)

unfoldable pub read_arrival : Endpoint → Arrival → Result ApiError Json
read_arrival e (rejected m) = err (transport m)
read_arrival e (arrived r) =
    if e.accepts r.status
    then result_of e.has_result r.json
    else err (failure_of e.detail (status_line e r) r)

-- A method that keeps nothing: its request, and what it gives.
unfoldable pub invoke : Text → Option Json → (Request → Arrival) → Endpoint → Result ApiError Json
unfolding request read_arrival
invoke url token fetch e = read_arrival e (fetch (request url token e))
