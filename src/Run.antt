-- ===== src/Run.antt =====
-- crates/gaugemesh-core/src/run.rs: the record of a run with its journal, a chain of digests.
pub mod Chain
pub mod Appending
pub mod Store
mod Tests
use gaugemesh.Base.{
  ℕ, ◌+◌, String, len, Bool, true, false, not, ◌||◌, Option, none, some, List, [], ◌∷◌, ◌++◌,
  if◌then◌else◌, ltb, length, Result, ok, err, ◌>>=◌, ◌>>◌, reject_if, ◌==◌, ◌!=◌, string_eq,
  nat_eq, option_eq,
}
use gaugemesh.Digest.{
  Json, Fields, null, boolean, number, string, array, object, end, field, json, Hashing, of_json,
  Sha256Digest,
}
use gaugemesh.Task.{TaskRouteCaller}
use gaugemesh.Task.Record.{caller_json}

pub data RunError : Type 0 where
  sqlite : RunError
  invalid : String → RunError

pub record RunEvent : Type 0 where
  pub version : ℕ
  pub kind : String
  pub state_sha256 : Sha256Digest
  pub previous_sha256 : Sha256Digest
  pub event_sha256 : Sha256Digest

-- The field `data` of the source is `contents`.
pub record RunRecord : Type 0 where
  pub schema_version : String
  pub run_id : String
  pub caller : TaskRouteCaller
  pub run_key : String
  pub plan_sha256 : Sha256Digest
  pub version : ℕ
  pub contents : Json
  pub journal : List RunEvent

-- `Value::get`: of two entries of one key the later stays
abbrev pub get_field : Fields → String → Option Json
get_field end key = none
get_field (field k v rest) key = elim (get_field rest key) [
  | some later ↦ some later
  | none ↦ if k == key then some v else none
]

abbrev pub get_value : Json → String → Option Json
get_value null key = none
get_value (boolean b) key = none
get_value (number n) key = none
get_value (string s) key = none
get_value (array xs) key = none
get_value (object fs) key = get_field fs key

-- A value that may be missing, compared with a text
abbrev pub is_text : Option Json → String → Bool
is_text (some (string s)) text = s == text
is_text other text = false

-- `data["plan"]["runKey"]`
abbrev pub run_key_of : Json → Option Json
run_key_of contents = elim (get_value contents "plan") [
  | none ↦ none
  | some plan ↦ get_value plan "runKey"
]

abbrev pub schema : String
schema = "gaugemesh.run-evidence/1"

-- `last().map(|e| e.event_sha256).unwrap_or_default()`
abbrev pub last_event : Sha256Digest → List RunEvent → Sha256Digest
last_event before [] = before
last_event before (e ∷ rest) = last_event e.event_sha256 rest

-- `last().map(|e| e.state_sha256)`
abbrev pub last_state : List RunEvent → Option Sha256Digest
last_state [] = none
last_state (e ∷ []) = some e.state_sha256
last_state (e ∷ f ∷ rest) = last_state (f ∷ rest)

module _ (h : Hashing) where
  unfoldable pub event_digest : RunEvent → Sha256Digest
  event_digest e = of_json h (
      json (
        ("version", number e.version)
        ∷ ("kind", string e.kind)
        ∷ ("stateSha256", string (h.display e.state_sha256))
        ∷ ("previousSha256", string (h.display e.previous_sha256))
        ∷ []))

  unfoldable pub state_digest : RunRecord → Sha256Digest
  state_digest r = of_json h (
      json (
        ("schemaVersion", string r.schema_version)
        ∷ ("runId", string r.run_id)
        ∷ ("caller", caller_json r.caller)
        ∷ ("runKey", string r.run_key)
        ∷ ("planSha256", string (h.display r.plan_sha256))
        ∷ ("version", number r.version)
        ∷ ("data", r.contents)
        ∷ []))

  abbrev pub plan_digest : Json → Option Sha256Digest
  plan_digest contents = elim (get_value contents "plan") [
    | none ↦ none
    | some plan ↦ some (of_json h plan)
  ]

  -- The loop of `verify_integrity`
  unfoldable pub verify_journal : ℕ → Sha256Digest → List RunEvent → Result RunError (Unit {0})
  verify_journal i previous [] = ok tt
  verify_journal i previous (e ∷ rest) = do
    reject_if (e.version != i || e.previous_sha256 != previous || event_digest e != e.event_sha256)
        (invalid "GM_RUN_JOURNAL_INTEGRITY")
    verify_journal (i + 1) e.event_sha256 rest

  unfoldable pub verify_run : RunRecord → Result RunError (Unit {0})
  verify_run r = do
    reject_if
        (r.schema_version != schema
          || ltb 512 r.version
          || length r.journal != r.version + 1
          || plan_digest r.contents != some r.plan_sha256
          || not (is_text (run_key_of r.contents) r.run_key))
        (invalid "GM_RUN_INTEGRITY")
    verify_journal 0 0 r.journal
    reject_if (last_state r.journal != some (state_digest r)) (invalid "GM_RUN_INTEGRITY")

  abbrev pub unsealed_event : RunRecord → String → RunEvent
  unsealed_event r kind = record {
    version = r.version;
    kind = kind;
    state_sha256 = state_digest r;
    previous_sha256 = last_event 0 r.journal;
    event_sha256 = 0;
  }

  abbrev pub next_event : RunRecord → String → RunEvent
  next_event r kind = record (unsealed_event r kind) {
    event_sha256 = event_digest (unsealed_event r kind);
  }

  unfoldable pub append_event : RunRecord → String → Result RunError RunRecord
  unfolding verify_run
  append_event r kind = do
    reject_if (ltb 512 r.version || ltb 128 (len kind) || ltb 2097152 (h.encoded_len r.contents))
        (invalid "GM_RUN_STORAGE_BOUND")
    let appended : RunRecord = record r { journal = r.journal ++ (next_event r kind ∷ []) }
    verify_run appended
    ok appended
