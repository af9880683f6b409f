-- ===== src/Core/Dotenv.antt =====
-- crates/core/src/local/dotenv.rs: the parsing, the selection and the merging of dotenv documents. A
-- String is its UTF-8 bytes. The reader of the dotenvy crate is a parameter: the declarations that its
-- iterator gives for a document, `none` for an error.
pub mod Selection
pub mod Lines
mod Declarations
mod Rounds
pub mod Merging
mod Tests
use envshare.Prelude.{
  ℕ, zero, suc, ◌+◌, Bool, true, false, not, ◌&&◌, ◌||◌, Option, none, some, List, [], ◌∷◌, ◌++◌,
  leb, ltb, ◌==◌, if◌then◌else◌, length, drop, is_empty, Bytes, bytes_of, leading_space,
  starts_with, is_utf8, ok, err, ◌>>=◌, ◌>>◌, guard, ok_or,
}
use envshare.Protocol.Limits.{max_payload_bytes}
use envshare.Core.Errors.{CoreError, Outcome, transfer, configuration}
use envshare.Core.BTreeMap
use envshare.Core.BTreeMap.{get, contains_key}

abbrev pub Environment : Type 0
Environment = List (Bytes × Bytes)

pub data DotenvMergeMode : Type 0 where
  replace_existing keep_existing : DotenvMergeMode

pub record DotenvMergeSummary : Type 0 where
  pub added : ℕ
  pub updated : ℕ
  pub kept : ℕ

-- `contains('\0')`
pub has_nul : Bytes → Bool
has_nul [] = false
has_nul (c ∷ text) = c == 0 || has_nul text

-- The loop over the entries that the reader gives.
pub insert_entries : List (Option (Bytes × Bytes)) → Environment → Outcome Environment
insert_entries [] variables = ok variables
insert_entries (none ∷ entries) variables = err transfer
insert_entries (some (key, value) ∷ entries) variables = do
  guard (not (has_nul key || has_nul value)) transfer
  insert_entries entries (BTreeMap.insert key value variables)

-- What `escape_value` pushes for one character; all but these stand for themselves.
unfoldable escape_character : ℕ → Bytes
escape_character c =
    if c == b'\\'
    then b'\\' ∷ b'\\' ∷ []
    else if c == b'"'
    then b'\\' ∷ b'"' ∷ []
    else if c == b'\n'
    then b'\\' ∷ b'n' ∷ []
    else if c == b'\r'
    then b'\\' ∷ b'r' ∷ []
    else if c == b'\t'
    then b'\\' ∷ b't' ∷ []
    else if c == b'$'
    then b'\\' ∷ b'$' ∷ []
    else c ∷ []

pub escape_value : Bytes → Bytes
unfolding escape_character
escape_value [] = []
escape_value (c ∷ value) = escape_character c ++ escape_value value

pub normalized_declaration : Bytes → Bytes → Bytes → Bytes
normalized_declaration key value newline =
    key ++ (bytes_of "=\"" ++ (escape_value value ++ (b'"' ∷ newline)))

-- `trim_start`, with the bytes of a white space that are still to be skipped.
pub trim_from : ℕ → Bytes → Bytes
trim_from skip [] = []
trim_from (suc skip) (c ∷ text) = trim_from skip text
trim_from zero (c ∷ text) = elim (leading_space (c ∷ text)) [
  | zero ↦ c ∷ text
  | suc skip ↦ trim_from skip text
]

abbrev trim_start : Bytes → Bytes
trim_start text = trim_from 0 text

-- A text of white space only leaves nothing.
pub trim_end : Bytes → Bytes
unfolding trim_from leading_space
trim_end [] = []
trim_end (c ∷ text) =
    let rest = c ∷ trim_end text in if is_empty (trim_start (c ∷ text)) then [] else rest

abbrev cons_to : ℕ → Option Bytes → Option Bytes
cons_to c none = none
cons_to c (some text) = some (c ∷ text)

-- `split_once('=')`, for the first of the two.
pub before_equals : Bytes → Option Bytes
before_equals [] = none
before_equals (c ∷ text) =
    let rest = cons_to c (before_equals text) in if c == b'=' then some [] else rest

-- After the prefix `export `, if there is one.
pub strip_export : Bytes → Bytes
strip_export trimmed =
    if starts_with (bytes_of "export ") trimmed then trim_start (drop 7 trimmed) else trimmed

-- `trim` of what stands before the sign, if that is not empty.
pub trimmed_key : Option Bytes → Option Bytes
trimmed_key none = none
trimmed_key (some key) =
    let trimmed = trim_end (trim_start key) in if is_empty trimmed then none else some trimmed

pub declaration_key : Bytes → Option Bytes
declaration_key line =
    let trimmed = trim_start line in
    if is_empty trimmed || starts_with (b'#' ∷ []) trimmed
    then none
    else trimmed_key (before_equals (strip_export trimmed))

-- `split_inclusive('\n')`
pub split_inclusive : Bytes → List Bytes
split_inclusive [] = []
split_inclusive (c ∷ text) =
    let rest = split_inclusive text in
    if c == b'\n'
    then (c ∷ []) ∷ rest
    else elim rest [ [] ↦ (c ∷ []) ∷ [] | line ∷ lines ↦ (c ∷ line) ∷ lines ]

pub ends_with_newline : Bytes → Bool
ends_with_newline [] = false
ends_with_newline (c ∷ text) = if is_empty text then c == b'\n' else ends_with_newline text

pub lines_of : Bytes → List Bytes
unfolding split_inclusive ends_with_newline
lines_of text =
    let lines = split_inclusive text in
    if not (is_empty text) && not (ends_with_newline text) && is_empty lines
    then text ∷ []
    else lines

-- `windows(2).any(|window| window == b"\r\n")`
pub has_crlf : Bytes → Bool
has_crlf [] = false
has_crlf (c ∷ text) = starts_with (bytes_of "\r\n") (c ∷ text) || has_crlf text

pub newline_of : Bytes → Bytes
newline_of existing = if has_crlf existing then bytes_of "\r\n" else bytes_of "\n"

-- The loop over the lines from an index on: the last declaration of a key is kept.
pub declarations_from : ℕ → List Bytes → List (Bytes × ℕ) → List (Bytes × ℕ)
declarations_from index [] declarations = declarations
declarations_from index (line ∷ lines) declarations =
    declarations_from (index + 1) lines (elim (declaration_key line) [
      | none ↦ declarations
      | some key ↦ BTreeMap.insert key index declarations
    ])

-- `lines[index] = line`
abbrev pub set : List Bytes → ℕ → Bytes → List Bytes
set [] index line = []
set (_ ∷ lines) zero line = line ∷ lines
set (l ∷ lines) (suc index) line = l ∷ set lines index line

abbrev pub concat : List Bytes → Bytes
concat [] = []
concat (line ∷ lines) = line ++ concat lines

-- What the loop of `merge_dotenv` changes.
pub record Merge : Type 0 where
  pub lines : List Bytes
  pub additions : List Bytes
  pub summary : DotenvMergeSummary

abbrev pub initial : List Bytes → Merge
initial lines = record {
  lines = lines;
  additions = [];
  summary = record { added = 0; updated = 0; kept = 0 };
}

pub add : Merge → Bytes → Merge
add m declaration = record m {
  additions = m.additions ++ declaration ∷ [];
  summary = record (m.summary) { added = m.summary.added + 1 };
}

-- The branch for a key that the document has.
pub merge_known : DotenvMergeMode → Option ℕ → Bytes → Merge → Outcome Merge
merge_known replace_existing index declaration m = do
  index ← ok_or index transfer
  ok (record m {
    lines = set m.lines index declaration;
    summary = record (m.summary) { updated = m.summary.updated + 1 };
  })
merge_known keep_existing index declaration m =
    ok (record m { summary = record (m.summary) { kept = m.summary.kept + 1 } })

-- A round of the loop over the received variables.
pub merge_variable : DotenvMergeMode → Bool → Option ℕ → Bytes → Merge → Outcome Merge
unfolding merge_known add
merge_variable mode true index declaration m = merge_known mode index declaration m
merge_variable mode false index declaration m = ok (add m declaration)

pub merge_variables :
    DotenvMergeMode → Environment → List (Bytes × ℕ) → Bytes → Environment → Merge → Outcome Merge
merge_variables mode existing declarations newline [] m = ok m
merge_variables mode existing declarations newline ((key, value) ∷ received) m = do
  let declaration = normalized_declaration key value newline
  m' ← merge_variable mode (contains_key key existing) (get key declarations) declaration m
  merge_variables mode existing declarations newline received m'

-- The document with the additions behind it, on a new line.
pub append_additions : Bytes → List Bytes → Bytes → Bytes
append_additions merged additions newline =
    if is_empty additions
    then merged
    else if not (is_empty merged) && not (ends_with_newline merged)
    then (merged ++ newline) ++ concat additions
    else merged ++ concat additions

-- The loop over the requested keys of `select_dotenv`.
pub select_keys : List Bytes → Environment → Bool → Environment → Outcome Environment
select_keys [] parsed allow_missing selected = ok selected
select_keys (key ∷ keys) parsed allow_missing selected = do
  guard (not (contains_key key selected)) configuration
  selected' ← elim (get key parsed) [
    | some value ↦ ok (BTreeMap.insert key value selected)
    | none ↦ if allow_missing then ok selected else err transfer
  ]
  select_keys keys parsed allow_missing selected'

-- The loop that writes what is selected.
pub write_selected : Environment → Bytes
unfolding normalized_declaration escape_value
write_selected [] = []
write_selected ((key, value) ∷ selected) =
    normalized_declaration key value (bytes_of "\n") ++ write_selected selected

-- `conflicts_with_inherited`, over the names that the environment of the process has.
unfoldable conflicts_with_inherited : (Bytes → Bool) → Environment → Bool
conflicts_with_inherited is_set [] = false
conflicts_with_inherited is_set ((key, value) ∷ variables) =
    is_set key || conflicts_with_inherited is_set variables

module _ (read_iter : Bytes → List (Option (Bytes × Bytes))) where
  -- `ParsedEnvironment::parse`
  pub parse : Bytes → Outcome Environment
  unfolding insert_entries has_nul
  parse payload = do
    guard (leb (length payload) max_payload_bytes) transfer
    insert_entries (read_iter payload) []

  pub select_dotenv : Bytes → List Bytes → Bool → Outcome Bytes
  select_dotenv payload requested_keys allow_missing = do
    guard (not (is_empty requested_keys)) configuration
    parsed ← parse payload
    selected ← select_keys requested_keys parsed allow_missing []
    let normalized = write_selected selected
    guard (leb (length normalized) max_payload_bytes) transfer
    ok normalized

  pub merge_dotenv : Bytes → Bytes → DotenvMergeMode → Outcome (Bytes × DotenvMergeSummary)
  merge_dotenv existing received mode = do
    existing_environment ← parse existing
    received_environment ← parse received
    let newline = newline_of existing
    guard (is_utf8 existing) transfer
    let lines = lines_of existing
    let declarations = declarations_from 0 lines []
    m ←
        merge_variables mode existing_environment declarations newline received_environment
          (initial lines)
    let merged = append_additions (concat m.lines) m.additions newline
    guard (leb (length merged) max_payload_bytes) transfer
    ok (merged, m.summary)
