-- ===== src/Bench/Dataset/Visits.antt =====
-- bench/locomo/types.go and dataset.go: loads that visit the conversations in different orders.
use hydra_db.Base.{
  sym, ◌∙◌, str_eq, if◌then◌else◌, String, ◌≡◌, refl, ap, none, some, List, [], ◌∷◌, ok, ◌>>=◌,
  or_fail, GoMap, ℤ, Ranges, Option-cases, inl, inr, Client,
}
use hydra_db.Memory.Sorting.{Sorter}
use hydra_db.Bench.Types.{Sample}
use hydra_db.Bench.Dataset.{
  Json, Files, bad_sample, read_qa, new_sample, unparsed, unreadable, read_sessions, text_or_empty,
  read_conversation, unmarshal_sample, unmarshal_samples, assign_ids, sample_name, parse_dataset,
  save_response, download, ensure_cached, load_dataset,
}
use hydra_db.Bench.Dataset.Cache.{Keeps, found_again}
use hydra_db.Bench.Dataset.Order.{sort-session_indices}

-- Each object that the JSON library reads is visited as `range` visits a map.
abbrev pub Visits : Json → (GoMap String → List (String × String)) → Type 0
Visits json visit =
    (raw : String) (object : GoMap String)
    → json.object raw ≡ some object
    → Ranges object (visit object)

module _ (json : Json) (sorter : Sorter ℤ) (visit visit' : GoMap String → List (String × String))
    (ranges : Visits json visit) (ranges' : Visits json visit') where
  same_conversation :
      (raw : String) (s : Sample)
      → read_conversation json sorter visit raw s ≡ read_conversation json sorter visit' raw s
  unfolding read_conversation
  same_conversation raw s = elim (Option-cases (json.object raw)) [
    | inl unread ↦ rw unread refl
    | inr (conv, e) ↦ rw e (
        ap
          (λ (indices : List ℤ). do
            sessions ← read_sessions json conv indices
            ok (record s {
              speaker_a = text_or_empty json (conv "speaker_a");
              speaker_b = text_or_empty json (conv "speaker_b");
              sessions = sessions;
            }))
          (sort-session_indices json sorter conv (visit conv) (visit' conv) (ranges raw conv e)
            (ranges' raw conv e)))
  ]

  same_sample :
      (raw : String)
      → unmarshal_sample json sorter visit raw ≡ unmarshal_sample json sorter visit' raw
  unfolding unmarshal_sample
  same_sample raw = λ i. do
    fields ← or_fail (json.object raw) bad_sample
    qa ← read_qa json fields
    elim (fields "conversation") [
      | none ↦ ok (new_sample qa)
      | some conv ↦ same_conversation conv (new_sample qa) i
    ]

  same_samples :
      (raws : List String)
      → unmarshal_samples json sorter visit raws ≡ unmarshal_samples json sorter visit' raws
  unfolding unmarshal_samples
  same_samples [] = refl
  same_samples (raw ∷ raws) =
      λ i. do s ← same_sample raw i; rest ← same_samples raws i; ok (s ∷ rest)

  pub same_dataset :
      (text : String) → parse_dataset json sorter visit text ≡ parse_dataset json sorter visit' text
  unfolding parse_dataset assign_ids sample_name
  same_dataset text = λ i. do
    raws ← or_fail (json.elements text) unparsed
    samples ← same_samples raws i
    ok (assign_ids json sorter visit 0 samples)

  -- A load does the same in whatever order the conversations are visited.
  pub same_load :
      {S : Type 0} (files : Files S) (http : Client S) (data_path : String) (s : S)
      → load_dataset json sorter visit files http data_path s
        ≡ load_dataset json sorter visit' files http data_path s
  unfolding load_dataset ensure_cached download save_response
  same_load files http data_path s = λ i.
      if str_eq data_path ""
      then (let (s', path) = ensure_cached json sorter visit files http s in
          (
            s',
            path
                >>= (λ p. do text ← or_fail (files.read_file p s') unreadable; same_dataset text i),
          ))
      else (s, (do text ← or_fail (files.read_file data_path s) unreadable; same_dataset text i))

  -- A dataset that has been loaded without a path is found in the cache: for files that hold what is
  -- written, and have a size if that is not empty, and a parser that refuses the empty text, the
  -- next load changes nothing and returns the same samples, whatever the server would answer and in
  -- whatever order each load visits the conversations.
  pub load_again :
      {S : Type 0} (files : Files S) (http : Client S) (s : S) (samples : List Sample)
      → Keeps files
      → json.elements "" ≡ none
      → (load_dataset json sorter visit files http "" s).1 ≡ ok samples
      → let s' = (load_dataset json sorter visit files http "" s).0 in
        load_dataset json sorter visit' files http "" s' ≡ (s', ok samples)
  load_again files http s samples keeps nothing h =
      sym (same_load files http "" (load_dataset json sorter visit files http "" s).0)
      ∙ found_again json sorter visit files http s samples keeps nothing h
