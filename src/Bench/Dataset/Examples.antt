-- ===== src/Bench/Dataset/Examples.antt =====
-- bench/locomo/dataset.go: the theorems at concrete inputs.
use hydra_db.Base.{
  not, Ranges, put-Ranges, same-Ranges, empty-Ranges, subst, some_inj, eq_ℤ, ℕ, ◌≡◌, ◌≢◌, refl,
  String, List, [], ◌∷◌, ok, Option, none, some, true, false, pos, GoMap, empty, put, Client,
  str_eq, eq_iff, if◌then◌else◌, arith, inl, inr, Bool-cases,
}
use hydra_db.Memory.InsertionSort.{sorter, insert, insertion_sort}
use hydra_db.Bench.Types.{Sample}
use hydra_db.Bench.Dataset.{
  Json, Files, load_dataset, parse_dataset, unmarshal_sample, unmarshal_samples, read_conversation,
  read_sessions, read_session, session_indices, read_qa, assign_ids, sample_name,
}
use hydra_db.Bench.Dataset.Cache.{Keeps}
use hydra_db.Bench.Dataset.Visits.{Visits, load_again}

abbrev conversation : GoMap String
conversation = put "session_1" "[]" (put "session_2" "[]" (put "conversation" "c" empty))

-- Every text but the empty one is a list of two samples, and a sample has two sessions.
abbrev json : Json
json = record {
  elements = λ s. if str_eq s "" then none else some ("a" ∷ "b" ∷ []);
  object = λ s. some conversation;
  qa = λ s. some [];
  turns = λ s. some [];
  text = λ s. some s;
  has_prefix = λ s prefix. not (str_eq s "conversation");
  contains = λ s part. false;
  trim_prefix = λ s prefix. s;
  atoi = λ s. some (if str_eq s "session_1" then pos 1 else pos 2);
  itoa = λ i. if eq_ℤ i (pos 0) then "0" else if eq_ℤ i (pos 1) then "1" else "2";
}

abbrev size_of : String → ℕ
size_of body = if str_eq body "" then 0 else 1

-- The text of the one file, if there is one.
abbrev files : Files (Option String)
files = record {
  size = λ path s. elim s [ none ↦ none | some body ↦ some (size_of body) ];
  make_dir = λ path s. (s, true);
  read_file = λ path s. s;
  write_file = λ path body s. (some body, true);
}

one_byte : (body : String) → body ≢ "" → some (size_of body) ≡ some 1
one_byte body some_text = elim (Bool-cases (str_eq body "")) [
  | inl e ↦ absurd (some_text ((eq_iff body "").0 e))
  | inr e ↦ rw e refl
]

keeps : Keeps files
keeps = record {
  reads = λ path body s written. refl;
  sizes = λ path body s written some_text. (1, omega arith, one_byte body some_text);
}

abbrev http : Client (Option String)
http request s = (s, some (record { status = 200; body = some "text" }))

abbrev sample_of : String → Sample
sample_of id = record {
  sample_id = id;
  speaker_a = "";
  speaker_b = "";
  sessions =
      record { index = pos 1; date_time = ""; turns = [] }
      ∷ record { index = pos 2; date_time = ""; turns = [] }
      ∷ [];
  qa = [];
}

-- Two orders in which the conversation can be visited.
abbrev forwards : GoMap String → List (String × String)
forwards m = ("session_1", "[]") ∷ ("session_2", "[]") ∷ ("conversation", "c") ∷ []

abbrev backwards : GoMap String → List (String × String)
backwards m = ("conversation", "c") ∷ ("session_2", "[]") ∷ ("session_1", "[]") ∷ []

forwards-Ranges : Ranges conversation (forwards conversation)
forwards-Ranges =
    put-Ranges "session_1" "[]"
      (put-Ranges "session_2" "[]" (put-Ranges "conversation" "c" empty-Ranges tt) (refl, tt))
      (refl, (refl, tt))

abbrev Alike : String → Type 0
Alike k =
    conversation k ≡ put "conversation" "c" (put "session_2" "[]" (put "session_1" "[]" empty)) k

same_entries : (k : String) → Alike k
same_entries k = elim (Bool-cases (str_eq "session_1" k)) [
  | inl first ↦ subst Alike ((eq_iff "session_1" k).0 first) refl
  | inr other ↦ elim (Bool-cases (str_eq "session_2" k)) [
    | inl second ↦ subst Alike ((eq_iff "session_2" k).0 second) refl
    | inr third ↦ rw (other, third) refl
  ]
]

backwards-Ranges : Ranges conversation (backwards conversation)
backwards-Ranges = same-Ranges same_entries (
    put-Ranges "conversation" "c"
      (put-Ranges "session_2" "[]" (put-Ranges "session_1" "[]" empty-Ranges tt) (refl, tt))
      (refl, (refl, tt)))

forwards-Visits : Visits json forwards
forwards-Visits raw object e = subst (λ o. Ranges o (forwards o)) (some_inj e) forwards-Ranges

backwards-Visits : Visits json backwards
backwards-Visits raw object e = subst (λ o. Ranges o (backwards o)) (some_inj e) backwards-Ranges

abbrev samples : List Sample
samples = sample_of "sample_0" ∷ sample_of "sample_1" ∷ []

is_loaded : (load_dataset json sorter forwards files http "" none).1 ≡ ok samples
unfolding load_dataset parse_dataset unmarshal_samples unmarshal_sample read_qa read_conversation
    read_sessions insertion_sort session_indices insert read_session assign_ids sample_name
is_loaded = refl

load_again_example :
    let s' = (load_dataset json sorter forwards files http "" none).0 in
    load_dataset json sorter backwards files http "" s' ≡ (s', ok samples)
load_again_example =
    load_again json sorter forwards backwards forwards-Visits backwards-Visits files http none
      samples keeps refl is_loaded
