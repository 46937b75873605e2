-- ===== src/Policy/Log.antt =====
-- internal/policy/engine.go: the audit log and its queries.
use mathlib.Core.List.{append-nil, append_assoc}
use hydra_db.Base.{
  String, ℕ, zero, suc, ◌+◌, ◌≤◌, ◌≡◌, ◌⊎◌, ◌↔◌, inl, inr, refl, sym, ap, ◌∙◌, Bool, false, not,
  none, some, List, [], ◌∷◌, ◌++◌, arith, ℤ, pos, negsuc, ltb_ℤ, eq_iff, length, length-append,
  take, filter, Time, zero_time,
}
use hydra_db.Policy.{AuditEntry, AuditFilter, Engine, audit, skips, query_from, query_audit_log}

-- What an entry has to satisfy to be reported.
pub record Matches (f : AuditFilter) (entry : AuditEntry) : Type 0 where
  pub trace : (f.trace_id ≡ "") ⊎ (entry.trace_id ≡ f.trace_id)
  pub actor : (f.actor_id ≡ "") ⊎ (entry.actor_id ≡ f.actor_id)
  pub decision : (f.allowed ≡ none) ⊎ (f.allowed ≡ some entry.allowed)
  pub recent : f.since ≤ entry.timestamp

-- The tests of the query pass over an entry exactly when it does not match.
pub skips_iff : (f : AuditFilter) (entry : AuditEntry) → (skips f entry ≡ false) ↔ Matches f entry
unfolding skips
skips_iff f entry = (
  λ h. record {
    trace = ground (arith, eq_iff f.trace_id "", eq_iff entry.trace_id f.trace_id);
    actor = ground (arith, eq_iff f.actor_id "", eq_iff entry.actor_id f.actor_id);
    decision = ground arith;
    recent = ground arith;
  },
  λ m. ground (
    arith,
    eq_iff f.trace_id "",
    eq_iff entry.trace_id f.trace_id,
    eq_iff f.actor_id "",
    eq_iff entry.actor_id f.actor_id,
  ),
)

abbrev pub kept : AuditFilter → List AuditEntry → List AuditEntry
kept f = filter (λ entry. not (skips f entry))

-- A positive limit cuts the result off; any other is none.
abbrev pub capped : ℤ → List AuditEntry → List AuditEntry
capped (pos zero) xs = xs
capped (pos (suc n)) xs = take (suc n) xs
capped (negsuc n) xs = xs

query_from_unlimited :
    (f : AuditFilter) (result entries : List AuditEntry)
    → ltb_ℤ (pos 0) f.limit ≡ false
    → query_from f result entries ≡ result ++ kept f entries
unfolding query_from
query_from_unlimited f result [] h = sym (append-nil result)
query_from_unlimited f result (x ∷ xs) h = ground (
  arith,
  query_from_unlimited f result xs h,
  query_from_unlimited f (result ++ x ∷ []) xs h,
  append_assoc result (x ∷ []) (kept f xs),
)

query_from_limited :
    (f : AuditFilter) (n : ℕ) (result entries : List AuditEntry)
    → f.limit ≡ pos (length result + suc n)
    → query_from f result entries ≡ result ++ take (suc n) (kept f entries)
unfolding query_from
query_from_limited f n result [] h = sym (append-nil result)
query_from_limited f zero result (x ∷ xs) h =
    ground (arith, query_from_limited f zero result xs h, length-append result (x ∷ []))
query_from_limited f (suc n) result (x ∷ xs) h =
    let longer : length (result ++ x ∷ []) ≡ length result + 1 = length-append result (x ∷ []) in
    ground (
      arith,
      query_from_limited f (suc n) result xs h,
      query_from_limited f n (result ++ x ∷ []) xs (h ∙ ap pos (omega arith)),
      longer,
      append_assoc result (x ∷ []) (take (suc n) (kept f xs)),
    )

-- A query returns the entries that match, in the order in which they were recorded, cut off at the
-- limit if that is positive.
pub query_audit_log-eq :
    (f : AuditFilter) (e : Engine) → query_audit_log f e ≡ capped f.limit (kept f e.entries)
unfolding query_audit_log
query_audit_log-eq f e = go f.limit refl
  where
    go : (l : ℤ) → f.limit ≡ l → query_from f [] e.entries ≡ capped l (kept f e.entries)
    go (pos zero) h = query_from_unlimited f [] e.entries (ground arith)
    go (pos (suc n)) h = query_from_limited f n [] e.entries (h ∙ ap pos (omega arith))
    go (negsuc n) h = query_from_unlimited f [] e.entries (ground arith)

filter-append :
    {A : Type 0} (p : A → Bool) (xs ys : List A) → filter p (xs ++ ys) ≡ filter p xs ++ filter p ys
filter-append p [] ys = refl
filter-append p (x ∷ xs) ys = ground (arith, filter-append p xs ys)

abbrev pub by_trace : String → AuditFilter
by_trace trace_id = record {
  trace_id = trace_id;
  actor_id = "";
  allowed = none;
  since = zero_time;
  limit = pos 0;
}

kept-trace :
    (f : AuditFilter) (entry : AuditEntry) (xs : List AuditEntry)
    → Matches f entry
    → kept f (xs ++ entry ∷ []) ≡ kept f xs ++ entry ∷ []
kept-trace f entry xs m =
    filter-append (λ x. not (skips f x)) xs (entry ∷ []) ∙ ground (arith, (skips_iff f entry).1 m)

abbrev recorded : Time → (trace_id actor_id action reason : String) → Bool → AuditEntry
recorded now trace_id actor_id action reason allowed = record {
  id = "";
  trace_id = trace_id;
  actor_id = actor_id;
  action = action;
  allowed = allowed;
  reason = reason;
  timestamp = now;
}

-- A recorded decision is what a query for its trace finds next: behind all that the query found
-- before, and with every field as it was given.
pub query-audit :
    (now : Time) (trace_id actor_id action reason : String) (allowed : Bool) (e : Engine)
    → query_audit_log (by_trace trace_id) (audit now trace_id actor_id action allowed reason e)
      ≡ query_audit_log (by_trace trace_id) e
        ++ recorded now trace_id actor_id action reason allowed ∷ []
unfolding audit
query-audit now trace_id actor_id action reason allowed e =
    query_audit_log-eq (by_trace trace_id) _
    ∙ kept-trace (by_trace trace_id) _ e.entries
        (record { trace = inr refl; actor = inl refl; decision = inl refl; recent = omega arith })
    ∙ ap (λ (l : List AuditEntry). l ++ recorded now trace_id actor_id action reason allowed ∷ [])
        (sym (query_audit_log-eq (by_trace trace_id) e))
