-- ===== src/Api.antt =====
-- internal/api: what the handlers share. A handler is a function from a request to its response
-- and what it did to the world. A response is its status code and the value that is encoded into
-- its body; headers other than the status are left out.
pub mod Executions
pub mod Dlq
pub mod Workflows
pub mod Schedules
pub mod Auth
pub mod Seed
pub mod Demo
pub mod Health
pub mod Middleware
pub mod Mux
pub mod Calls
pub mod Access
pub mod Tokens
pub mod Pausing
pub mod Refusals
use flowscale.Prelude.{
  ℕ, zero, String, Option, none, some, List, [], ◌∷◌, Bool, true, ◌≡◌, refl, ◌==◌, if◌then◌else◌,
}
use flowscale.Models.{
  ℤ, pos, negsuc, WorkflowExecution, WorkflowEvent, ActivityExecution, Workflow, Schedule,
  AuthRequest, AuthResponse,
}
use flowscale.Strings.{atoi, split, before, behind, or_else}
use flowscale.Runtime.{World, tick, Metrics, Error, Result, ok, err, M}

-- `path` is r.URL.Path, `query` is r.URL.RawQuery, `authorization` is the first value of that
-- header, and `body` is the text of the body.
pub record Request : Type 0 where
  pub method : String
  pub path : String
  pub query : String
  pub authorization : String
  pub body : String

-- The claims of a token that the handlers write.
pub record Claims : Type 0 where
  pub sub : String
  pub username : String
  pub exp : ℕ

-- What is not in this repository: encoding/json, net/url's unescaping of a query, bcrypt, the
-- signing and parsing of tokens with the secret of this process, the rate limiter, the depth of the
-- results queue, whether the file system refuses, and the page of promhttp. The n-th call to the
-- outside is answered at `n`, as by `Env`.
pub record Outside : Type 0 where
  pub decode_workflow : String → Option Workflow
  pub decode_start : String → Option String
  pub decode_schedule : String → Option Schedule
  pub decode_auth : String → Option AuthRequest
  pub decode_shipment : String → Option Bool
  pub unescape : String → Option String
  pub password_matches : String → String → Bool
  pub sign : Claims → Option String
  pub parse_token : String → ℕ → Option Claims
  pub limiter_allows : ℕ → Bool
  pub queue_depth : ℕ → Option ℕ
  pub files_fail : ℕ → Bool
  pub metrics_page : Metrics → String

pub data Body : Type 0 where
  no_body : Body
  text : String → Body
  error : Error → Body
  workflow : Workflow → Body
  workflows : List Workflow → Body
  execution : WorkflowExecution → Body
  executions : List WorkflowExecution → Body
  events : List WorkflowEvent → Body
  activities : List ActivityExecution → Body
  schedule : Schedule → Body
  schedules : List Schedule → Body
  token : AuthResponse → Body
  shipment : Bool → Body

pub record Response : Type 0 where
  pub status : ℕ
  pub body : Body

abbrev pub respond : ℕ → Body → Response
respond status body = record { status = status; body = body }

-- http.NotFound
abbrev pub not_found : Response
not_found = respond 404 (text "404 page not found")

abbrev pub Handler : Type 0
Handler = Request → World → Response × World

-- What is left of a handler once the request is read.
abbrev pub Serving : Type 0
Serving = World → Response × World

abbrev pub stop : Response → Serving
stop resp w = (resp, w)

abbrev pub reply :
    {A : Type 0} → (A → Response) → (Error → Response) → Result A × World → Response × World
reply good bad (ok a, w) = (good a, w)
reply good bad (err e, w) = (bad e, w)

-- `if err := f(); err != nil { ... return }` and what follows it.
unfoldable pub replying : {A : Type 0} → (A → Response) → (Error → Response) → M A → Serving
replying good bad m w = reply good bad (m w)

-- A question to the outside, whose answer decides what follows.
unfoldable pub asking : {A : Type 0} → (ℕ → A) → (A → Serving) → Serving
asking q f w = f (q w.calls) (tick w)

-- A body that is decoded first; `bad` is the text of the refusal.
abbrev pub decoded : {A : Type 0} → Option A → String → (A → Serving) → Serving
decoded none bad f = stop (respond 400 (text bad))
decoded (some a) bad f = f a

-- The value of the first pair `key=value` of the query, and "" if there is none. A pair that does
-- not unescape is skipped.
abbrev pair_value : String → Option String → Option String → Option String
pair_value key (some k) (some v) = if k == key then some v else none
pair_value key _ _ = none

abbrev first_of : Option String → Option String → Option String
first_of none o = o
first_of (some v) o = some v

abbrev find_pair : (String → Option String) → String → List String → Option String
find_pair unescape key [] = none
find_pair unescape key (p ∷ ps) =
    first_of (pair_value key (unescape (before p b'=')) (unescape (behind p b'=')))
      (find_pair unescape key ps)

unfoldable pub query_get : Outside → Request → String → String
unfolding split
query_get out r key = or_else (find_pair out.unescape key (split r.query b'&')) ""

-- `limit` is 50 unless the text is a positive number, `offset` 0 unless it is one that is not
-- negative.
abbrev positive_or : ℤ → Option ℤ → ℤ
positive_or d none = d
positive_or d (some (pos zero)) = d
positive_or d (some (negsuc n)) = d
positive_or d (some n) = n

abbrev natural_or : ℤ → Option ℤ → ℤ
natural_or d none = d
natural_or d (some (negsuc n)) = d
natural_or d (some n) = n

unfoldable pub limit_of : String → ℤ
unfolding atoi
limit_of s = positive_or (pos 50) (atoi s)

unfoldable pub offset_of : String → ℤ
unfolding atoi
offset_of s = natural_or (pos 0) (atoi s)

limits : (limit_of "" ≡ pos 50) × (limit_of "0" ≡ pos 50) × (limit_of "7" ≡ pos 7)
unfolding limit_of
limits = (refl, refl, refl)
