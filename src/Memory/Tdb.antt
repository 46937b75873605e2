-- ===== src/Memory/Tdb.antt =====
-- internal/memory/tdb/provider.go: a provider that keeps its records in a TardigradeDB service, which
-- it calls over HTTP. The service, its state `S` and the JSON that goes both ways are parameters.
pub mod Keys
pub mod Calls
pub mod Answers
pub mod Layers
pub mod Success
mod Examples
use Prim.Native.String.{◌++◌ as append}
use Prim.Native.Nat.{bit_xor}
use hydra_db.Base.{
  ℕ, zero, suc, ◌+◌, ◌*◌, ◌/◌, ◌%◌, ◌^◌, String, Bool, true, false, Option, none, some, List, [],
  ◌∷◌, ◌++◌, map, Outcome, ok, err, if◌then◌else◌, ◌==◌, str_eq, GoMap, empty, ℤ, pos, negsuc,
  leb_ℤ, eq_ℤ, Response, zero_time,
}
use hydra_db.Memory.Types.{Floats, Memory, SearchQuery, episodic, semantic, operational, working}

-- The loop of `hashBytes` over the bytes; `uint64` keeps what fits into 64 bits.
unfoldable pub fnv_from : ℕ → List ℕ → ℕ
fnv_from fnv [] = fnv
fnv_from fnv (v ∷ bytes) = fnv_from (bit_xor fnv v * 16777619 % 2 ^ 64) bytes

unfoldable pub fnv_of : List ℕ → ℕ
unfolding fnv_from
fnv_of bytes = fnv_from 2166136261 bytes

-- byte(fnv >> (i * 8)) for the `count` numbers that follow `i`.
unfoldable pub bytes_from : (fnv i count : ℕ) → List ℕ
bytes_from fnv i zero = []
bytes_from fnv i (suc count) = fnv / 2 ^ (i * 8) % 256 ∷ bytes_from fnv (suc i) count

-- The second loop of `hashBytes`, which leaves the last eight bytes zero.
unfoldable pub spread : ℕ → List ℕ
unfolding bytes_from
spread fnv =
    bytes_from fnv 0 8
    ++ bytes_from fnv 8 8
    ++ bytes_from fnv 16 8
    ++ 0 ∷ 0 ∷ 0 ∷ 0 ∷ 0 ∷ 0 ∷ 0 ∷ 0 ∷ []

unfoldable pub hash_bytes : List ℕ → List ℕ
unfolding fnv_of spread
hash_bytes bytes = spread (fnv_of bytes)

abbrev pub byte_at : List ℕ → ℕ → ℕ
byte_at [] i = 0
byte_at (b ∷ bytes) zero = b
byte_at (b ∷ bytes) (suc i) = byte_at bytes i

-- (uint64(h[i%8]) << (i % 56)) & 0xFFFF
unfoldable pub key_bits : (h : List ℕ) (i : ℕ) → ℕ
key_bits h i = byte_at h (i % 8) * 2 ^ (i % 56) % 2 ^ 64 % 2 ^ 16

unfoldable pub key_from : (h : List ℕ) (i count : ℕ) → List ℕ
unfolding key_bits
key_from h i zero = []
key_from h i (suc count) = key_bits h i ∷ key_from h (suc i) count

-- The entries of a key, before the division by 65535.
unfoldable pub key_of : List ℕ → List ℕ
unfolding key_from hash_bytes
key_of bytes = key_from (hash_bytes bytes) 0 768

unfoldable pub layer_from_type : String → ℤ
layer_from_type t =
    if str_eq t episodic
    then pos 0
    else if str_eq t semantic
    then pos 1
    else if str_eq t operational
    then pos 2
    else if str_eq t working
    then pos 3
    else pos 0

unfoldable pub type_from_layer : ℤ → String
type_from_layer layer =
    if eq_ℤ layer (pos 0)
    then episodic
    else if eq_ℤ layer (pos 1)
    then semantic
    else if eq_ℤ layer (pos 2)
    then operational
    else if eq_ℤ layer (pos 3)
    then working
    else semantic

-- float64 and float32, as far as the package uses them.
pub record TdbFloats : Type 1 where
  pub floats : Floats
  pub Float32 : Type 0
  -- float32(n) / 65535.0
  pub key_entry : ℕ → Float32
  -- x * 100 and x / 100
  pub times_100 : floats.Float → floats.Float
  pub over_100 : floats.Float → floats.Float

module _ (fl : TdbFloats) where
  open fl use {floats, Float32, key_entry, times_100, over_100}

  -- The payloads of the two posts.
  pub record WriteBody : Type 0 where
    pub owner : String
    pub layer : ℤ
    pub key : List Float32
    pub value : String
    pub salience : floats.Float

  pub record ReadBody : Type 0 where
    pub query_key : List Float32
    pub k : ℤ

  -- What the provider uses of a cell, in the answers to a read and to a search.
  pub record Cell : Type 0 where
    pub cell_id : ℤ
    pub owner : String
    pub layer : ℤ
    pub importance : floats.Float

  -- `encoding/json` on the types above, `none` for an error; the bytes of a text; and %d.
  pub record Wire : Type 0 where
    pub bytes : String → List ℕ
    pub decimal : ℤ → String
    pub marshal_write : WriteBody → Option String
    pub marshal_read : ReadBody → Option String
    pub marshal_query : SearchQuery floats.Float → Option String
    pub unmarshal_written : String → Option ℤ
    pub unmarshal_cell : String → Option Cell
    pub unmarshal_results : String → Option (List Cell)

pub data TdbError : Type 0 where
  marshal_failed request_failed unread undecodable : (path : String) → TdbError
  http_status : (path : String) (status : ℕ) → TdbError
  not_found : (id : String) → TdbError

-- `io.ReadAll` on what a call of the client returns: the status and the body.
unfoldable pub read_response : (path : String) → Option Response → Outcome TdbError (ℕ × String)
read_response path none = err (request_failed path)
read_response path (some r) = elim r.body [
  | none ↦ err (unread path)
  | some raw ↦ ok (r.status, raw)
]

-- The decoding that follows a 200.
unfoldable pub decoded :
    {A : Type 0}
    → (path : String) → (unmarshal : String → Option A) → ℕ × String
    → Outcome TdbError A
decoded path unmarshal (status, raw) =
    if status == 200
    then (elim (unmarshal raw) [ none ↦ err (undecodable path) | some a ↦ ok a ])
    else err (http_status path status)

unfoldable pub answer :
    {A : Type 0}
    → (path : String) → (unmarshal : String → Option A) → Option Response
    → Outcome TdbError A
unfolding read_response decoded
answer path unmarshal r = elim (read_response path r) [
  | err e ↦ err e
  | ok x ↦ decoded path unmarshal x
]
