-- ===== src/Base/Http.antt =====
-- net/http as a client sees it: a request gets a response, or fails. `S` is the state of the world
-- outside, and `body` is `none` if reading the response fails.
use Prim.Native.Nat.{ℕ}
use Prim.Native.String.{String}
use mathlib.Core.Option.{Option}

pub record Response : Type 0 where
  pub status : ℕ
  pub body : Option String

pub data Request : Type 0 where
  get_request : (url : String) → Request
  post_request : (url body : String) → Request

abbrev pub Client : Type 0 → Type 0
Client S = Request → S → S × Option Response
