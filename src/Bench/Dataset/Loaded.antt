-- ===== src/Bench/Dataset/Loaded.antt =====
-- bench/locomo/dataset.go: the identifiers of the samples, and the cache.
use hydra_db.Base.{
  ℕ, suc, String, ◌≡◌, refl, ap, inl, inr, subst, true, Option, none, some, List, [], ◌∷◌, Outcome,
  ok, err, ◌>>=◌, or_fail, ok_inj, GoMap, ℤ, map, str_eq, eq_iff, All, Bool-cases, Client,
}
use hydra_db.Memory.Sorting.{Sorter}
use hydra_db.Bench.Types.{Sample}
use hydra_db.Bench.Dataset.{
  Json, Files, DatasetError, bad_sample, bad_conversation, unparsed, unreadable, read_qa,
  new_sample, read_sessions, read_conversation, unmarshal_sample, unmarshal_samples, sample_name,
  assign_ids, parse_dataset, ensure_cached, load_dataset, read_dataset,
}

-- What an outcome gives, if it is no error.
data Gives {E A : Type 0} (P : A → Type 0) : Outcome E A → Type 0 where
  gives : {a : A} → P a → Gives P (ok a)
  fails : {e : E} → Gives P (err e)

Gives-bind :
    {E A B : Type 0} (P : A → Type 0) (Q : B → Type 0) {r : Outcome E A} {f : A → Outcome E B}
    → Gives P r
    → ((a : A) → P a → Gives Q (f a))
    → Gives Q (r >>= f)
Gives-bind P Q (gives h) next = next _ h
Gives-bind P Q fails next = fails

any_value : {E A : Type 0} (r : Outcome E A) → Gives (λ a. Unit {0}) r
any_value (ok a) = gives tt
any_value (err e) = fails

Gives-ok : {E A : Type 0} {P : A → Type 0} {r : Outcome E A} {a : A} → Gives P r → r ≡ ok a → P a
Gives-ok {P = P} (gives h) e = subst P (ok_inj e) h
Gives-ok fails e = cc

module _ (json : Json) (sorter : Sorter ℤ) (visit : GoMap String → List (String × String)) where
  abbrev IsBlank : Sample → Type 0
  IsBlank s = s.sample_id ≡ ""

  read_conversation-IsBlank :
      (raw : String) (s : Sample)
      → IsBlank s
      → Gives IsBlank (read_conversation json sorter visit raw s)
  unfolding read_conversation
  read_conversation-IsBlank raw s blank =
      Gives-bind (λ a. Unit {0}) IsBlank (any_value (or_fail (json.object raw) bad_conversation))
        (λ conv u.
          Gives-bind (λ a. Unit {0}) IsBlank (any_value (read_sessions json conv _))
            (λ sessions v. gives blank))

  conversation-IsBlank :
      (s : Sample) (o : Option String)
      → IsBlank s
      → Gives IsBlank
          (elim o [ none ↦ ok s | some conv ↦ read_conversation json sorter visit conv s ])
  conversation-IsBlank s none blank = gives blank
  conversation-IsBlank s (some conv) blank = read_conversation-IsBlank conv s blank

  -- The identifier that a sample has in the file is not read.
  unmarshal_sample-IsBlank : (raw : String) → Gives IsBlank (unmarshal_sample json sorter visit raw)
  unfolding unmarshal_sample
  unmarshal_sample-IsBlank raw =
      Gives-bind (λ a. Unit {0}) IsBlank (any_value (or_fail (json.object raw) bad_sample))
        (λ fields u.
          Gives-bind (λ a. Unit {0}) IsBlank (any_value (read_qa json fields))
            (λ qa v. conversation-IsBlank (new_sample qa) (fields "conversation") refl))

  unmarshal_samples-IsBlank :
      (raws : List String) → Gives (All IsBlank) (unmarshal_samples json sorter visit raws)
  unfolding unmarshal_samples
  unmarshal_samples-IsBlank [] = gives tt
  unmarshal_samples-IsBlank (raw ∷ raws) =
      Gives-bind IsBlank (All IsBlank) (unmarshal_sample-IsBlank raw) (λ s blank.
        Gives-bind (All IsBlank) (All IsBlank) (unmarshal_samples-IsBlank raws)
          (λ rest blanks. gives (blank, blanks)))

  -- sample_i, and so on.
  abbrev pub names : ℕ → List Sample → List String
  names i [] = []
  names i (s ∷ ss) = sample_name json sorter visit i ∷ names (suc i) ss

  abbrev IsNumberedFrom : ℕ → List Sample → Type 0
  IsNumberedFrom i samples = map (λ (s : Sample). s.sample_id) samples ≡ names i samples

  assign_ids-IsNumberedFrom :
      (i : ℕ) (samples : List Sample)
      → All IsBlank samples
      → IsNumberedFrom i (assign_ids json sorter visit i samples)
  unfolding assign_ids
  assign_ids-IsNumberedFrom i [] blank = refl
  assign_ids-IsNumberedFrom i (s ∷ ss) (blank, blanks) = rw (blank_true s.sample_id blank) (
      ap (λ rest. sample_name json sorter visit i ∷ rest)
        (assign_ids-IsNumberedFrom (suc i) ss blanks))
    where
      blank_true : (id : String) → id ≡ "" → str_eq id "" ≡ true
      blank_true id e = (eq_iff id "").1 e

  parse_dataset-IsNumberedFrom :
      (text : String) → Gives (IsNumberedFrom 0) (parse_dataset json sorter visit text)
  unfolding parse_dataset
  parse_dataset-IsNumberedFrom text =
      Gives-bind (λ a. Unit {0}) (IsNumberedFrom 0)
        (any_value (or_fail (json.elements text) unparsed))
        (λ raws u.
          Gives-bind (All IsBlank) (IsNumberedFrom 0) (unmarshal_samples-IsBlank raws)
            (λ samples blanks. gives (assign_ids-IsNumberedFrom 0 samples blanks)))

  module _ {S : Type 0} (files : Files S) (http : Client S) where
    read_dataset-Gives :
        (path : String) (s : S)
        → Gives (IsNumberedFrom 0) (read_dataset json sorter visit files http path s)
    read_dataset-Gives path s =
        Gives-bind (λ a. Unit {0}) (IsNumberedFrom 0)
          (any_value (or_fail (files.read_file path s) unreadable))
          (λ text v. parse_dataset-IsNumberedFrom text)

    default-Gives :
        (s : S) (r : Outcome DatasetError String)
        → Gives
            (IsNumberedFrom 0)
            (r >>= (λ path. read_dataset json sorter visit files http path s))
    default-Gives s (ok path) = read_dataset-Gives path s
    default-Gives s (err e) = fails

    load_dataset-Gives :
        (data_path : String) (s : S)
        → Gives (IsNumberedFrom 0) (load_dataset json sorter visit files http data_path s).1
    unfolding load_dataset
    load_dataset-Gives data_path s = elim (Bool-cases (str_eq data_path "")) [
      | inl default ↦ rw default (default-Gives _ (ensure_cached json sorter visit files http s).1)
      | inr given ↦ rw given (read_dataset-Gives data_path s)
    ]

    -- The samples that are loaded are numbered: whatever path is given, whether the file is downloaded
    -- or found, and whatever identifiers stand in it, they are called sample_0, sample_1 and so on, in
    -- the order of the file.
    load_dataset_lem :
        (data_path : String) (s : S) (samples : List Sample)
        → (load_dataset json sorter visit files http data_path s).1 ≡ ok samples
        → map (λ (sample : Sample). sample.sample_id) samples ≡ names 0 samples
    load_dataset_lem data_path s samples loaded = Gives-ok (load_dataset-Gives data_path s) loaded
