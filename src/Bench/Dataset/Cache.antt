-- ===== src/Bench/Dataset/Cache.antt =====
-- bench/locomo/dataset.go: the cached file, found again by a later load.
use hydra_db.Base.{
  ℕ, ◌<◌, String, ◌≡◌, ◌≢◌, ◌⊎◌, refl, sym, ap, ◌∙◌, inl, inr, true, false, Option, none, some,
  List, Outcome, ok, err, ◌>>=◌, GoMap, ℤ, if◌then◌else◌, Bool-cases, Option-cases, lt→ltb, Client,
  Response, get_request, ◌==◌,
}
use hydra_db.Memory.Sorting.{Sorter}
use hydra_db.Bench.Types.{Sample}
use hydra_db.Bench.Dataset.{
  Json, Files, DatasetError, parse_dataset, save_response, download, cached, ensure_cached,
  load_dataset, read_dataset, cache_path, cache_dir, dataset_url, unparsed, no_body, no_write,
  no_response, http_status, no_directory,
}

-- A file that is written holds the text, and has a size if the text is not empty.
pub record Keeps {S : Type 0} (files : Files S) : Type 0 where
  pub reads :
      (path body : String) (s : S)
      → (files.write_file path body s).1 ≡ true
      → files.read_file path (files.write_file path body s).0 ≡ some body
  pub sizes :
      (path body : String) (s : S)
      → (files.write_file path body s).1 ≡ true
      → body ≢ ""
      → (n : ℕ) × (0 < n) × (files.size path (files.write_file path body s).0 ≡ some n)

module _ (json : Json) (sorter : Sorter ℤ) (visit : GoMap String → List (String × String))
    {S : Type 0} (files : Files S) (http : Client S) where
  abbrev load : S → S × Outcome DatasetError (List Sample)
  load s = load_dataset json sorter visit files http "" s

  abbrev read : S → Outcome DatasetError (List Sample)
  read s = read_dataset json sorter visit files http cache_path s

  err_ne_ok : {E A : Type 0} {e : E} {a : A} → ◌≡◌ {A = Outcome E A} (err e) (ok a) → ⊥
  err_ne_ok h = cc

  -- An error, or the path of a file that has just been written.
  abbrev Saved : S × Outcome DatasetError String → Type 0
  Saved out =
      ((e : DatasetError) × (out.1 ≡ err e))
      ⊎ ((body : String) × (s : S) × (out ≡ ((files.write_file cache_path body s).0, ok cache_path))
          × ((files.write_file cache_path body s).1 ≡ true))

  save_body :
      (body : String) (s : S)
      → Saved (
        (files.write_file cache_path body s).0,
        if (files.write_file cache_path body s).1 then ok cache_path else err no_write,
      )
  save_body body s = elim (Bool-cases (files.write_file cache_path body s).1) [
    | inl written ↦ rw written (inr (body, s, refl, written))
    | inr failed ↦ rw failed (inl (no_write, refl))
  ]

  save_response-Saved :
      (r : Option Response) (s : S) → Saved (save_response json sorter visit files http r s)
  unfolding save_response
  save_response-Saved none s = inl (no_response, refl)
  save_response-Saved (some r) s = elim (Bool-cases (r.status == 200)) [
    | inl good ↦ elim (Option-cases r.body) [
      | inl unread ↦ rw (good, unread) (inl (no_body, refl))
      | inr (body, e) ↦ rw (good, e) (save_body body s)
    ]
    | inr bad ↦ rw bad (inl (http_status r.status, refl))
  ]

  download-Saved : (s : S) → Saved (download json sorter visit files http s)
  unfolding download
  download-Saved s = elim (Bool-cases (files.make_dir (cache_dir) s).1) [
    | inl made ↦ rw made (
        let (s', r) = http (get_request dataset_url) (files.make_dir cache_dir s).0 in
        save_response-Saved r s')
    | inr failed ↦ rw failed (inl (no_directory, refl))
  ]

  hit-load : (s : S) → cached files s ≡ true → load s ≡ (s, read s)
  unfolding load_dataset ensure_cached
  hit-load s hit = rw hit refl

  miss-load :
      (s : S)
      → cached files s ≡ false
      → load s ≡ (
        (download json sorter visit files http s).0,
        (download json sorter visit files http s).1 >>= (λ p.
            read_dataset json sorter visit files http p
              (download json sorter visit files http s).0),
      )
  unfolding load_dataset ensure_cached
  miss-load s miss = rw miss refl

  -- A load that hits the cache changes nothing.
  again :
      (s : S) (samples : List Sample)
      → cached files s ≡ true
      → read s ≡ ok samples
      → load s ≡ (s, ok samples)
  again s samples hit e = hit-load s hit ∙ ap (λ (r : Outcome DatasetError (List Sample)). (s, r)) e

  sized-cached : (s : S) (n : ℕ) → 0 < n → files.size cache_path s ≡ some n → cached files s ≡ true
  sized-cached s n positive e = rw (e, cached) (lt→ltb 0 n positive)

  empty_unparsed : json.elements "" ≡ none → parse_dataset json sorter visit "" ≡ err unparsed
  unfolding parse_dataset
  empty_unparsed nothing = rw nothing refl

  not_empty :
      (body : String) (samples : List Sample)
      → json.elements "" ≡ none
      → parse_dataset json sorter visit body ≡ ok samples
      → body ≢ ""
  not_empty body samples nothing parsed blank =
      let e : err unparsed ≡ ok samples =
        sym (empty_unparsed nothing) ∙ ap (parse_dataset json sorter visit) (sym blank) ∙ parsed in
      cc e

  -- What was downloaded is read again.
  saved_again :
      (samples : List Sample)
      → Keeps files
      → json.elements "" ≡ none
      → (body : String) (s : S) → (files.write_file cache_path body s).1 ≡ true
      → let s' = (files.write_file cache_path body s).0 in
        read s' ≡ ok samples → load s' ≡ (s', ok samples)
  saved_again samples keeps nothing body s written e =
      let parsed : parse_dataset json sorter visit body ≡ ok samples =
        rw (keeps.reads cache_path body s written) at e in
      let (n, positive, sized) =
        keeps.sizes cache_path body s written (not_empty body samples nothing parsed) in
      again _ samples (sized-cached _ n positive sized) e

  -- What a download returns, for what it saved.
  downloaded_again :
      (samples : List Sample) (out : S × Outcome DatasetError String)
      → Keeps files
      → json.elements "" ≡ none
      → Saved out
      → (out.1 >>= (λ p. read_dataset json sorter visit files http p out.0)) ≡ ok samples
      → load out.0 ≡ (out.0, ok samples)
  downloaded_again samples out keeps nothing (inl (e, failed)) h =
      absurd (err_ne_ok (rw failed at h))
  downloaded_again samples out keeps nothing (inr (body, s, saved, written)) h =
      rw saved (saved_again samples keeps nothing body s written (rw saved at h))

  -- The next load, if it visits the maps as the first one did.
  pub found_again :
      (s : S) (samples : List Sample)
      → Keeps files
      → json.elements "" ≡ none
      → (load_dataset json sorter visit files http "" s).1 ≡ ok samples
      → let s' = (load_dataset json sorter visit files http "" s).0 in
        load_dataset json sorter visit files http "" s' ≡ (s', ok samples)
  found_again s samples keeps nothing h = elim (Bool-cases (cached files s)) [
    | inl hit ↦ rw (hit-load s hit) (again s samples hit (rw (hit-load s hit) at h))
    | inr miss ↦ rw (miss-load s miss) (
        downloaded_again samples (download json sorter visit files http s) keeps nothing
          (download-Saved s) (rw (miss-load s miss) at h))
  ]
