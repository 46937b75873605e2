-- ===== src/Bench/Dataset.antt =====
-- bench/locomo/dataset.go, and `UnmarshalJSON` of bench/locomo/types.go.
pub mod Loaded
pub mod Order
pub mod Visits
pub mod Cache
mod Examples
use Prim.Native.String.{◌++◌ as append}
use hydra_db.Base.{
  ℕ, zero, suc, String, Bool, true, false, not, ◌&&◌, Option, none, some, List, [], ◌∷◌, Outcome,
  ok, err, ◌>>=◌, or_fail, GoMap, empty, ℤ, pos, ltb_ℤ, ltb, ◌==◌, if◌then◌else◌, str_eq, Request,
  get_request, Response, Client,
}
use hydra_db.Memory.Sorting.{Sorter}
use hydra_db.Bench.Types.{Turn, Session, QaItem, Sample}

-- `encoding/json` on the parts of a sample (`none` for an error; a raw value is kept as text), and the
-- functions of `strings`, `strconv` and `fmt`.
pub record Json : Type 0 where
  pub elements : String → Option (List String)
  pub object : String → Option (GoMap String)
  pub qa : String → Option (List QaItem)
  pub turns : String → Option (List Turn)
  pub text : String → Option String
  pub has_prefix : (s prefix : String) → Bool
  pub contains : (s part : String) → Bool
  pub trim_prefix : (s prefix : String) → String
  pub atoi : String → Option ℤ
  pub itoa : ℤ → String

-- The parts of `os` that the download uses: the size of a file that exists, a directory made (false
-- on an error), a file's bytes, and a file written.
pub record Files (S : Type 0) : Type 0 where
  pub size : String → S → Option ℕ
  pub make_dir : String → S → S × Bool
  pub read_file : String → S → Option String
  pub write_file : (path body : String) → S → S × Bool

pub data DatasetError : Type 0 where
  bad_sample bad_qa bad_conversation : DatasetError
  bad_session : (index : ℤ) → DatasetError
  no_directory no_response no_body no_write : DatasetError
  http_status : ℕ → DatasetError
  unreadable unparsed : DatasetError

-- `_ = json.Unmarshal(raw, &text)`, for a key that may be missing.
abbrev text_or_empty : Json → Option String → String
text_or_empty json none = ""
text_or_empty json (some raw) = elim (json.text raw) [ none ↦ "" | some s ↦ s ]

-- The loop that collects the session indices.
pub session_indices : Json → (order : List (String × String)) → List ℤ
session_indices json [] = []
session_indices json ((key, raw) ∷ rest) =
    let others = session_indices json rest in
    if json.has_prefix key "session_" && not (json.contains key "date_time")
    then (elim (json.atoi (json.trim_prefix key "session_")) [
      | none ↦ others
      | some i ↦ i ∷ others
    ])
    else others

abbrev session_key : Json → ℤ → String
session_key json i = append "session_" (json.itoa i)

pub read_session : Json → GoMap String → ℤ → Outcome DatasetError Session
read_session json conv i = do
  turns ← elim (conv (session_key json i)) [
    | none ↦ ok []
    | some raw ↦ or_fail (json.turns raw) (bad_session i)
  ]
  ok (record {
    index = i;
    date_time = text_or_empty json (conv (append (session_key json i) "_date_time"));
    turns = turns;
  })

pub read_sessions : Json → GoMap String → List ℤ → Outcome DatasetError (List Session)
read_sessions json conv [] = ok []
read_sessions json conv (i ∷ is) = do
  sess ← read_session json conv i
  rest ← read_sessions json conv is
  ok (sess ∷ rest)

pub read_qa : Json → GoMap String → Outcome DatasetError (List QaItem)
read_qa json fields = elim (fields "qa") [ none ↦ ok [] | some q ↦ or_fail (json.qa q) bad_qa ]

abbrev pub new_sample : List QaItem → Sample
new_sample qa = record { sample_id = ""; speaker_a = ""; speaker_b = ""; sessions = []; qa = qa }

abbrev pub dataset_url : String
dataset_url = "https://raw.githubusercontent.com/snap-research/locomo/main/data/locomo10.json"

abbrev pub cache_dir : String
cache_dir = "bench/locomo/testdata"

abbrev pub cache_path : String
cache_path = append cache_dir (append "/" "locomo10.json")

-- os.Stat succeeds and the size is positive
abbrev pub cached : {S : Type 0} → Files S → S → Bool
cached files s = elim (files.size cache_path s) [ none ↦ false | some n ↦ ltb 0 n ]

-- a < b, for `sort.Ints`.
abbrev less_int : ℤ → ℤ → Bool
less_int a b = ltb_ℤ a b

module _ (json : Json) (sorter : Sorter ℤ) (visit : GoMap String → List (String × String)) where
  pub read_conversation : String → Sample → Outcome DatasetError Sample
  read_conversation raw s = do
    conv ← or_fail (json.object raw) bad_conversation
    sessions ← read_sessions json conv (sorter.sort less_int (session_indices json (visit conv)))
    ok (record s {
      speaker_a = text_or_empty json (conv "speaker_a");
      speaker_b = text_or_empty json (conv "speaker_b");
      sessions = sessions;
    })

  pub unmarshal_sample : String → Outcome DatasetError Sample
  unmarshal_sample raw = do
    fields ← or_fail (json.object raw) bad_sample
    qa ← read_qa json fields
    elim (fields "conversation") [
      | none ↦ ok (new_sample qa)
      | some conv ↦ read_conversation conv (new_sample qa)
    ]

  pub unmarshal_samples : List String → Outcome DatasetError (List Sample)
  unmarshal_samples [] = ok []
  unmarshal_samples (raw ∷ raws) = do
    s ← unmarshal_sample raw
    rest ← unmarshal_samples raws
    ok (s ∷ rest)

  pub sample_name : ℕ → String
  sample_name i = append "sample_" (json.itoa (pos i))

  -- The loop that gives the samples identifiers.
  pub assign_ids : (i : ℕ) → List Sample → List Sample
  assign_ids i [] = []
  assign_ids i (s ∷ ss) =
      (if str_eq s.sample_id "" then record s { sample_id = sample_name i } else s)
      ∷ assign_ids (suc i) ss

  pub parse_dataset : String → Outcome DatasetError (List Sample)
  parse_dataset text = do
    raws ← or_fail (json.elements text) unparsed
    samples ← unmarshal_samples raws
    ok (assign_ids 0 samples)

  module _ {S : Type 0} (files : Files S) (http : Client S) where
    -- What is done with the response to the download.
    pub save_response : Option Response → S → S × Outcome DatasetError String
    save_response none s = (s, err no_response)
    save_response (some r) s =
        if r.status == 200
        then (elim r.body [
          | none ↦ (s, err no_body)
          | some body ↦
              let (s', written) = files.write_file cache_path body s in
              (s', if written then ok cache_path else err no_write)
        ])
        else (s, err (http_status r.status))

    pub download : S → S × Outcome DatasetError String
    unfolding save_response
    download s =
        let (s', made) = files.make_dir cache_dir s in
        if made
        then (let (s'', r) = http (get_request dataset_url) s' in save_response r s'')
        else (s', err no_directory)

    pub ensure_cached : S → S × Outcome DatasetError String
    unfolding download
    ensure_cached s = if cached files s then (s, ok cache_path) else download s

    abbrev pub read_dataset : String → S → Outcome DatasetError (List Sample)
    read_dataset path s = do text ← or_fail (files.read_file path s) unreadable; parse_dataset text

    pub load_dataset : (data_path : String) → S → S × Outcome DatasetError (List Sample)
    unfolding ensure_cached
    load_dataset data_path s =
        if str_eq data_path ""
        then (let (s', cached_path) = ensure_cached s in
            (s', cached_path >>= (λ path. read_dataset path s')))
        else (s, read_dataset data_path s)
