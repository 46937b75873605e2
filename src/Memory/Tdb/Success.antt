-- ===== src/Memory/Tdb/Success.antt =====
-- internal/memory/tdb/provider.go: the calls as a whole.
use Prim.Native.String.{◌++◌ as append}
use hydra_db.Base.{
  Response, Client, get_request, post_request, ℕ, String, ◌≡◌, ◌↔◌, inl, inr, refl, sym, ◌∙◌, true,
  false, Option, none, some, List, map, Outcome, ok, err, ◌==◌, arith, ℤ, Bool-cases, Option-cases,
  some_ne_none,
}
use hydra_db.Memory.Types.{SearchQuery}
use hydra_db.Memory.Tdb.{
  TdbFloats, Cell, Wire, TdbError, request_failed, unread, marshal_failed, http_status, not_found,
  read_response, decoded, answer,
}
use hydra_db.Memory.Tdb.Calls.{
  Mem, memory_of_cell, write_body, read_body, read_result, write_result, search_result, write, read,
  search,
}
use hydra_db.Memory.Tdb.Answers.{Answered, answer_iff, err_ne_ok}

-- Whether the mapped result is there.
map_iff :
    {A B : Type 0} (f : A → B) (o : Outcome TdbError A) (b : B)
    → ((elim o as (λ x. Outcome TdbError B) [ err e ↦ err e | ok a ↦ ok (f a) ]) ≡ ok b)
      ↔ ((a : A) × (o ≡ ok a) × (f a ≡ b))
map_iff f (ok a) b = (λ h. (a, refl, cc h), λ x. let (a', e, e') = x in cc (e, e'))
map_iff f (err e) b = (λ h. absurd (cc h), λ x. let (a', e', e'') = x in absurd (cc e'))

none_iff :
    {A : Type 0} (o : Outcome TdbError A)
    → ((elim o as (λ x. Option TdbError) [ err e ↦ some e | ok a ↦ none ]) ≡ none)
      ↔ ((a : A) × (o ≡ ok a))
none_iff (ok a) = (λ h. (a, refl), λ x. refl)
none_iff (err e) = (λ h. absurd (cc h), λ x. let (a, e') = x in absurd (cc e'))

module _ (fl : TdbFloats) (wire : Wire fl) where
  search_result_iff :
      (r : Option Response) (mems : List (Mem fl))
      → (search_result fl wire r ≡ ok mems) ↔ (
          (cells : List (Cell fl)) × Answered wire.unmarshal_results r cells
          × (map (λ (c : Cell fl). memory_of_cell fl (wire.decimal c.cell_id) c) cells ≡ mems))
  unfolding search_result
  search_result_iff r mems =
      let (from, to) =
        map_iff (map (λ (c : Cell fl). memory_of_cell fl (wire.decimal c.cell_id) c))
          (answer "/mem/read" wire.unmarshal_results r) mems in
      (
        λ h.
            let (cells, e, e') = from h in
            (cells, (answer_iff "/mem/read" wire.unmarshal_results r cells).0 e, e'),
        λ x.
            let (cells, answered, e) = x in
            to (cells, (answer_iff "/mem/read" wire.unmarshal_results r cells).1 answered, e),
      )

  write_result_iff :
      (r : Option Response)
      → (write_result fl wire r ≡ none)
        ↔ ((cell_id : ℤ) × Answered wire.unmarshal_written r cell_id)
  unfolding write_result
  write_result_iff r =
      let (from, to) = none_iff (answer "/mem/write" wire.unmarshal_written r) in
      (
        λ h. let (n, e) = from h in (n, (answer_iff "/mem/write" wire.unmarshal_written r n).0 e),
        λ x.
            let (n, answered) = x in
            to (n, (answer_iff "/mem/write" wire.unmarshal_written r n).1 answered),
      )

  module _ (id : String) (mem : Mem fl) where
    -- `Read` returns the record, in terms of its decoding.
    abbrev Reads : Option Response → Type 0
    Reads r = (read_result fl wire id r ≡ ok mem) ↔ (
        (cell : Cell fl) × (answer (append "/cells/" id) wire.unmarshal_cell r ≡ ok cell)
        × (memory_of_cell fl id cell ≡ mem))

    nothing_read :
        (r : Option Response) (e e' : TdbError)
        → read_result fl wire id r ≡ err e
        → answer (append "/cells/" id) wire.unmarshal_cell r ≡ err e'
        → Reads r
    nothing_read r e e' failed failed' = (
      λ h. absurd (err_ne_ok (sym failed ∙ h)),
      λ x. let (cell, h, _) = x in absurd (err_ne_ok (sym failed' ∙ h)),
    )

    not_200 :
        (status : ℕ) (raw : String)
        → status == 404 ≡ true
        → decoded (append "/cells/" id) wire.unmarshal_cell (status, raw)
          ≡ err (http_status (append "/cells/" id) status)
    unfolding decoded
    not_200 status raw is_404 = ground arith

    past_404 :
        (status : ℕ) (raw : String)
        → status == 404 ≡ false
        → read_result fl wire id (some (record { status = status; body = some raw }))
          ≡ (elim (decoded (append "/cells/" id) wire.unmarshal_cell (status, raw))
              as (λ x. Outcome TdbError (Mem fl)) [
                | err e ↦ err e
                | ok cell ↦ ok (memory_of_cell fl id cell)
              ])
    unfolding read_result read_response
    past_404 status raw other = rw (read_result, other) refl

    read_at :
        (status : ℕ) (raw : String) → Reads (some (record { status = status; body = some raw }))
    unfolding read_result answer read_response decoded
    read_at status raw = elim (Bool-cases (status == 404)) [
      | inl is_404 ↦
          nothing_read (some (record { status = status; body = some raw })) (not_found id)
            (http_status (append "/cells/" id) status) (rw (read_result, is_404) refl)
            (not_200 status raw is_404)
      | inr other ↦
          let (from, to) =
            map_iff (memory_of_cell fl id)
              (decoded (append "/cells/" id) wire.unmarshal_cell (status, raw)) mem in
          (λ h. from (sym (past_404 status raw other) ∙ h), λ x. past_404 status raw other ∙ to x)
    ]

    read_body_iff :
        (status : ℕ) (body : Option String) → Reads (some (record { status = status; body = body }))
    unfolding read_result answer read_response
    read_body_iff status none =
        nothing_read (some (record { status = status; body = none })) (unread (append "/cells/" id))
          (unread (append "/cells/" id)) refl refl
    read_body_iff status (some raw) = read_at status raw

    read_result_iff : (r : Option Response) → Reads r
    unfolding read_result answer read_response decoded
    read_result_iff none =
        nothing_read none (request_failed (append "/cells/" id))
          (request_failed (append "/cells/" id)) refl refl
    read_result_iff (some r) = read_body_iff r.status r.body

  -- The calls, with any client.
  module _ {S : Type 0} (base_url : String) (client : Client S) (s : S) where
    search_sent :
        (q : SearchQuery fl.floats.Float) (body : String)
        → wire.marshal_read (read_body fl wire q) ≡ some body
        → (search fl wire base_url client q s).1
          ≡ search_result fl wire (client (post_request (append base_url "/mem/read") body) s).1
    unfolding search
    search_sent q body e = rw (e, search) refl

    search_unsent :
        (q : SearchQuery fl.floats.Float)
        → wire.marshal_read (read_body fl wire q) ≡ none
        → (search fl wire base_url client q s).1 ≡ err (marshal_failed "/mem/read")
    unfolding search
    search_unsent q e = rw (e, search) refl

    write_sent :
        (mem : Mem fl) (body : String)
        → wire.marshal_write (write_body fl wire mem) ≡ some body
        → (write fl wire base_url client mem s).1
          ≡ write_result fl wire (client (post_request (append base_url "/mem/write") body) s).1
    unfolding write
    write_sent mem body e = rw (e, write) refl

    write_unsent :
        (mem : Mem fl)
        → wire.marshal_write (write_body fl wire mem) ≡ none
        → (write fl wire base_url client mem s).1 ≡ some (marshal_failed "/mem/write")
    unfolding write
    write_unsent mem e = rw (e, write) refl

    -- With any service, a call succeeds exactly when the request can be marshalled, the service answers
    -- it with a 200, and the answer can be decoded. A read and a search then return the records of the
    -- cells that the answer holds, in its order.
    pub success_iff :
        ((id : String) (mem : Mem fl)
          → ((read fl wire base_url client id s).1 ≡ ok mem) ↔ (
              (cell : Cell fl) × Answered wire.unmarshal_cell
                (client (get_request (append base_url (append "/cells/" id))) s).1
                cell
              × (memory_of_cell fl id cell ≡ mem)))
        × ((q : SearchQuery fl.floats.Float) (mems : List (Mem fl))
            → ((search fl wire base_url client q s).1 ≡ ok mems) ↔ (
                (body : String) × (cells : List (Cell fl)) × (wire.marshal_read
                    (read_body fl wire q)
                  ≡ some body)
                × Answered wire.unmarshal_results
                    (client (post_request (append base_url "/mem/read") body) s).1
                    cells
                × (map (λ (c : Cell fl). memory_of_cell fl (wire.decimal c.cell_id) c) cells
                    ≡ mems)))
        × ((mem : Mem fl)
            → ((write fl wire base_url client mem s).1 ≡ none) ↔ (
                (body : String) × (cell_id : ℤ) × (wire.marshal_write (write_body fl wire mem)
                  ≡ some body)
                × Answered wire.unmarshal_written
                    (client (post_request (append base_url "/mem/write") body) s).1
                    cell_id))
    unfolding read
    success_iff = (
      λ id mem.
          let r = (client (get_request (append base_url (append "/cells/" id))) s).1 in
          (
            λ h.
                let (cell, e, e') = (read_result_iff id mem r).0 h in
                (cell, (answer_iff (append "/cells/" id) wire.unmarshal_cell r cell).0 e, e'),
            λ x.
                let (cell, answered, e) = x in
                (read_result_iff id mem r).1 (
                  cell,
                  (answer_iff (append "/cells/" id) wire.unmarshal_cell r cell).1 answered,
                  e,
                ),
          ),
      λ q mems. (
        λ h. elim (Option-cases (wire.marshal_read (read_body fl wire q))) [
          | inl missing ↦ absurd (err_ne_ok (sym (search_unsent q missing) ∙ h))
          | inr (body, e) ↦
              let r = (client (post_request (append base_url "/mem/read") body) s).1 in
              let (cells, answered, e') =
                (search_result_iff r mems).0 (sym (search_sent q body e) ∙ h) in
              (body, cells, e, answered, e')
        ],
        λ x.
            let (body, cells, e, answered, e') = x in
            let r = (client (post_request (append base_url "/mem/read") body) s).1 in
            search_sent q body e ∙ (search_result_iff r mems).1 (cells, answered, e'),
      ),
      λ mem. (
        λ h. elim (Option-cases (wire.marshal_write (write_body fl wire mem))) [
          | inl missing ↦ absurd (some_ne_none (sym (write_unsent mem missing) ∙ h))
          | inr (body, e) ↦
              let r = (client (post_request (append base_url "/mem/write") body) s).1 in
              let (cell_id, answered) = (write_result_iff r).0 (sym (write_sent mem body e) ∙ h) in
              (body, cell_id, e, answered)
        ],
        λ x.
            let (body, cell_id, e, answered) = x in
            let r = (client (post_request (append base_url "/mem/write") body) s).1 in
            write_sent mem body e ∙ (write_result_iff r).1 (cell_id, answered),
      ),
    )
