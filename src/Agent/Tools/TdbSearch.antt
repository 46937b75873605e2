-- ===== src/Agent/Tools/TdbSearch.antt =====
-- internal/agent/tools/tdb.go: the tool that searches the TardigradeDB service by itself. Its JSON and
-- the HTTP client are parameters; `runes` are the code points of a text.
use Prim.Native.String.{◌++◌ as append}
use hydra_db.Base.{
  ℕ, zero, suc, ◌*◌, ◌%◌, ◌^◌, ◌<◌, String, ◌≡◌, refl, sym, ap, ◌∙◌, Bool, Option, none, some, List,
  [], ◌∷◌, ◌++◌, map, length, Outcome, ok, err, if◌then◌else◌, ◌==◌, arith, ℤ, pos, leb_ℤ, Response,
  Client, post_request,
}
use hydra_db.Memory.Tdb.Keys.{byte_at-bytes_from}
use hydra_db.Memory.Tdb.{
  TdbFloats, fnv_of, bytes_from, spread, hash_bytes, byte_at, key_bits, key_from, key_of,
}

-- The metadata of an input are not used.
pub record TdbSearchInput : Type 0 where
  pub query : String
  pub limit : ℤ
  pub layer : ℤ

-- The two records of a result have the same fields; its metadata are never set.
pub record TdbResult (F : Type 0) : Type 0 where
  pub cell_id : ℤ
  pub owner : String
  pub layer : ℤ
  pub score : F
  pub tier : String
  pub importance : F

pub data TdbSearchError : Type 0 where
  bad_input marshal_failed bad_url request_failed unread undecodable bad_output : TdbSearchError
  http_status : ℕ → (body : String) → TdbSearchError

-- The hash, which goes over code points and not over bytes.
unfoldable pub fnv1a_hash : (runes : List ℕ) → List ℕ
unfolding fnv_of bytes_from
fnv1a_hash runes = bytes_from (fnv_of runes) 0 8

-- The entries of the key, before the division by 65535.
unfoldable pub query_bits : (runes : List ℕ) (dim : ℕ) → List ℕ
unfolding fnv1a_hash key_from
query_bits runes dim = key_from (fnv1a_hash runes) 0 dim

module _ (fl : TdbFloats) where
  -- The payload; `layer` is left out for a negative one.
  pub record SearchPayload : Type 0 where
    pub query_key : List fl.Float32
    pub k : ℤ
    pub layer : Option ℤ

  pub record SearchWire : Type 0 where
    pub runes : String → List ℕ
    pub unmarshal_input : String → Option TdbSearchInput
    pub marshal_payload : SearchPayload → Option String
    pub parses : (url : String) → Bool
    pub unmarshal_results : String → Option (List (TdbResult fl.floats.Float))
    pub marshal_output : ℕ × List (TdbResult fl.floats.Float) → Option String

  unfoldable pub payload_of : SearchWire → TdbSearchInput → SearchPayload
  unfolding query_bits
  payload_of wire input = record {
    query_key = map fl.key_entry (query_bits (wire.runes input.query) 768);
    k = if leb_ℤ input.limit (pos 0) then pos 5 else input.limit;
    layer = if leb_ℤ (pos 0) input.layer then some input.layer else none;
  }

  module _ (wire : SearchWire) where
    -- The results in a body, and the answer that they make.
    unfoldable pub output_of : (raw : String) → Outcome TdbSearchError String
    output_of raw = elim (wire.unmarshal_results raw) [
      | none ↦ err undecodable
      | some results ↦ elim (wire.marshal_output (length results, results)) [
        | none ↦ err bad_output
        | some out ↦ ok out
      ]
    ]

    unfoldable pub tdb_result : Option Response → Outcome TdbSearchError String
    unfolding output_of
    tdb_result none = err request_failed
    tdb_result (some r) = elim r.body [
      | none ↦ err unread
      | some raw ↦ if r.status == 200 then output_of raw else err (http_status r.status raw)
    ]

    -- `TDBSearch.Execute`
    unfoldable pub tdb_search :
        {S : Type 0} (base_url : String) (client : Client S)
        → (raw : String) → S
        → S × Outcome TdbSearchError String
    unfolding payload_of tdb_result
    tdb_search base_url client raw s = elim (wire.unmarshal_input raw) [
      | none ↦ (s, err bad_input)
      | some input ↦ elim (wire.marshal_payload (payload_of wire input)) [
        | none ↦ (s, err marshal_failed)
        | some body ↦
            if wire.parses (append base_url "/mem/read")
            then (let (s', r) = client (post_request (append base_url "/mem/read") body) s in
                (s', tdb_result r))
            else (s, err bad_url)
      ]
    ]

-- The tool and the provider.
module _ (h h' : List ℕ) (same : (j : ℕ) → j < 8 → byte_at h j ≡ byte_at h' j) where
  same_entry : (i : ℕ) → key_bits h i ≡ key_bits h' i
  unfolding key_bits
  same_entry i = ap (λ b. b * 2 ^ (i % 56) % 2 ^ 64 % 2 ^ 16) (same (i % 8) (omega arith))

  same_entries : (i n : ℕ) → key_from h i n ≡ key_from h' i n
  unfolding key_from
  same_entries i zero = refl
  same_entries i (suc n) =
      ap (λ b. b ∷ key_from h (suc i) n) (same_entry i)
      ∙ ap (λ l. key_bits h' i ∷ l) (same_entries (suc i) n)

first_bytes :
    (bytes : List ℕ) (j : ℕ) → j < 8 → byte_at (fnv1a_hash bytes) j ≡ byte_at (hash_bytes bytes) j
unfolding fnv1a_hash hash_bytes spread bytes_from
first_bytes bytes j lt =
    byte_at-bytes_from (fnv_of bytes) 0 8 j [] lt
    ∙ sym (
        byte_at-bytes_from (fnv_of bytes) 0 8 j
          (bytes_from (fnv_of bytes) 8 8
            ++ bytes_from (fnv_of bytes) 16 8
            ++ 0 ∷ 0 ∷ 0 ∷ 0 ∷ 0 ∷ 0 ∷ 0 ∷ 0 ∷ [])
          lt)

-- For a text whose code points are its bytes, the tool makes the entries that the provider makes of
-- those bytes, although it keeps a quarter of the hash.
pub query_bits-key_of : (bytes : List ℕ) → query_bits bytes 768 ≡ key_of bytes
unfolding query_bits key_of
query_bits-key_of bytes =
    same_entries (fnv1a_hash bytes) (hash_bytes bytes) (first_bytes bytes) 0 768
