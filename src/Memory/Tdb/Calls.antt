-- ===== src/Memory/Tdb/Calls.antt =====
-- internal/memory/tdb/provider.go: the methods of `Provider`. `base_url` and `client` are its fields.
use Prim.Native.String.{◌++◌ as append}
use hydra_db.Base.{
  Response, Client, get_request, post_request, String, Option, none, some, List, [], map, Outcome,
  ok, err, if◌then◌else◌, ◌==◌, empty, pos, leb_ℤ, zero_time,
}
use hydra_db.Memory.Types.{Memory, SearchQuery}
use hydra_db.Memory.Tdb.{
  key_of, layer_from_type, type_from_layer, TdbFloats, WriteBody, ReadBody, Cell, Wire, TdbError,
  marshal_failed, not_found, read_response, decoded, answer,
}

module _ (fl : TdbFloats) where
  abbrev pub Mem : Type 0
  Mem = Memory fl.floats.Float

  -- What `Read` and `Search` make of a cell; the other fields are Go's zero values.
  unfoldable pub memory_of_cell : (id : String) → Cell fl → Mem
  memory_of_cell id cell = record {
    id = id;
    type = type_from_layer cell.layer;
    content = "";
    tags = [];
    confidence = fl.over_100 cell.importance;
    actor_id = cell.owner;
    tenant_id = "";
    metadata = empty;
    created_at = zero_time;
    accessed_at = zero_time;
    expires_at = zero_time;
  }

  module _ (wire : Wire fl) where
    unfoldable pub derive_key : (content : String) → List fl.Float32
    derive_key content = map fl.key_entry (key_of (wire.bytes content))

    -- The error of the marshaller is dropped, and the key is that of no bytes.
    unfoldable pub build_query_key : SearchQuery fl.floats.Float → List fl.Float32
    build_query_key q = elim (wire.marshal_query q) [
      | none ↦ map fl.key_entry (key_of [])
      | some json ↦ map fl.key_entry (key_of (wire.bytes json))
    ]

    unfoldable pub write_body : Mem → WriteBody fl
    write_body mem = record {
      owner = mem.actor_id;
      layer = layer_from_type mem.type;
      key = derive_key mem.content;
      value = mem.content;
      salience = fl.times_100 mem.confidence;
    }

    unfoldable pub read_body : SearchQuery fl.floats.Float → ReadBody fl
    read_body q = record {
      query_key = build_query_key q;
      k = if leb_ℤ q.limit (pos 0) then pos 50 else q.limit;
    }

    -- What the methods return for the responses that they get.
    unfoldable pub read_result : (id : String) → Option Response → Outcome TdbError Mem
    unfolding read_response decoded
    read_result id r = elim (read_response (append "/cells/" id) r) [
      | err e ↦ err e
      | ok (status, raw) ↦
          if status == 404
          then err (not_found id)
          else (elim (decoded (append "/cells/" id) wire.unmarshal_cell (status, raw)) [
            | err e ↦ err e
            | ok cell ↦ ok (memory_of_cell id cell)
          ])
    ]

    unfoldable pub write_result : Option Response → Option TdbError
    unfolding answer
    write_result r = elim (answer "/mem/write" wire.unmarshal_written r) [
      | err e ↦ some e
      | ok cell_id ↦ none
    ]

    unfoldable pub search_result : Option Response → Outcome TdbError (List Mem)
    unfolding answer
    search_result r = elim (answer "/mem/read" wire.unmarshal_results r) [
      | err e ↦ err e
      | ok cells ↦ ok (map (λ (c : Cell fl). memory_of_cell (wire.decimal c.cell_id) c) cells)
    ]

    module _ {S : Type 0} (base_url : String) (client : Client S) where
      unfoldable pub write : Mem → S → S × Option TdbError
      unfolding write_body write_result
      write mem s = elim (wire.marshal_write (write_body mem)) [
        | none ↦ (s, some (marshal_failed "/mem/write"))
        | some body ↦
            let (s', r) = client (post_request (append base_url "/mem/write") body) s in
            (s', write_result r)
      ]

      unfoldable pub read : (id : String) → S → S × Outcome TdbError Mem
      unfolding read_result
      read id s =
          let (s', r) = client (get_request (append base_url (append "/cells/" id))) s in
          (s', read_result id r)

      unfoldable pub search : SearchQuery fl.floats.Float → S → S × Outcome TdbError (List Mem)
      unfolding read_body search_result
      search q s = elim (wire.marshal_read (read_body q)) [
        | none ↦ (s, err (marshal_failed "/mem/read"))
        | some body ↦
            let (s', r) = client (post_request (append base_url "/mem/read") body) s in
            (s', search_result r)
      ]

      unfoldable pub remove : (id : String) → S → S × Option TdbError
      remove id s = (s, none)
