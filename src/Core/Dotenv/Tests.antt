-- ===== src/Core/Dotenv/Tests.antt =====
-- Runs and instances for crates/core/src/local/dotenv.rs, with a reader that knows three documents.
use envshare.Prelude.{
  ℕ, ◌≤◌, ◌≡◌, refl, ◌↔◌, true, false, ◌||◌, Option, none, some, List, [], ◌∷◌, length, is_empty,
  all, if◌then◌else◌, Bytes, bytes_of, bytes_eq, compare_bytes, leading_space, starts_with,
  is_utf8_from, ok,
}
use envshare.Protocol.Limits.{max_payload_bytes}
use envshare.Core.BTreeMap.{get, contains_key, insert}
use envshare.Core.Dotenv.{
  Environment, DotenvMergeSummary, replace_existing, keep_existing, has_nul, insert_entries,
  escape_value, normalized_declaration, trim_from, trim_end, before_equals, strip_export,
  trimmed_key, declaration_key, split_inclusive, lines_of, newline_of, has_crlf, append_additions,
  ends_with_newline, concat, parse, select_dotenv, select_keys, write_selected, merge_dotenv,
  declarations_from, merge_variables, merge_variable, merge_known, add,
}
use envshare.Core.Dotenv.Lines.{get_elem?}
use envshare.Core.Dotenv.Declarations.{last_declared}
use envshare.Core.Dotenv.Rounds.{missing, count_known}
use envshare.Core.Dotenv.Merging.{merge_dotenv_keeps, merge_dotenv_replaces}
use envshare.Core.Dotenv.Selection.{IsDistinct, restrict, select_dotenv_iff}

abbrev text : Bytes
text = bytes_of "B=old\nA='first value'\nB='a$b'\n"

abbrev existing : Bytes
existing = bytes_of "# database\r\n export  T = first\r\nT=local"

abbrev received : Bytes
received = bytes_of "T='new token'\nX=1\n"

abbrev entry : Bytes → Bytes → Option (Bytes × Bytes)
entry key value = some (key, value)

abbrev read_iter : Bytes → List (Option (Bytes × Bytes))
read_iter document =
    if bytes_eq document text
    then entry (bytes_of "B") (bytes_of "old")
      ∷ entry (bytes_of "A") (bytes_of "first value")
      ∷ entry (bytes_of "B") (bytes_of "a$b")
      ∷ []
    else if bytes_eq document existing
    then entry (bytes_of "T") (bytes_of "first") ∷ entry (bytes_of "T") (bytes_of "local") ∷ []
    else if bytes_eq document received
    then entry (bytes_of "T") (bytes_of "new token") ∷ entry (bytes_of "X") (bytes_of "1") ∷ []
    else none ∷ []

abbrev parsed : Environment
parsed = (bytes_of "A", bytes_of "first value") ∷ (bytes_of "B", bytes_of "a$b") ∷ []

parse_run : parse read_iter text ≡ ok parsed
unfolding parse bytes_eq insert compare_bytes
parse_run = refl

abbrev keys : List Bytes
keys = bytes_of "B" ∷ bytes_of "A" ∷ []

distinct : IsDistinct keys
unfolding compare_bytes
distinct = (refl, (refl, tt))

abbrev selection : Bytes
selection = bytes_of "A=\"first value\"\nB=\"a\\$b\"\n"

select_dotenv_run : select_dotenv read_iter text keys false ≡ ok selection
unfolding select_dotenv parse bytes_eq insert compare_bytes select_keys contains_key get
    write_selected
select_dotenv_run = refl

select_dotenv_iff_example : (select_dotenv read_iter text keys false ≡ ok selection) ↔ (
    (is_empty keys ≡ false)
    × (all (λ k. false || contains_key k parsed) keys ≡ true)
    × (length selection ≤ max_payload_bytes)
    × (selection ≡ write_selected (restrict keys parsed)))
select_dotenv_iff_example =
    select_dotenv_iff read_iter text selection keys false parsed parse_run distinct

abbrev existing_environment : Environment
existing_environment = (bytes_of "T", bytes_of "local") ∷ []

abbrev received_environment : Environment
received_environment = (bytes_of "T", bytes_of "new token") ∷ (bytes_of "X", bytes_of "1") ∷ []

existing_run : parse read_iter existing ≡ ok existing_environment
unfolding parse bytes_eq insert compare_bytes
existing_run = refl

received_run : parse read_iter received ≡ ok received_environment
unfolding parse bytes_eq insert compare_bytes
received_run = refl

-- A declaration is found behind `export` and white space, and not in a comment.
declaration_run : declaration_key (bytes_of " export  T = first\r\n") ≡ some (bytes_of "T")
unfolding declaration_key trim_from leading_space starts_with strip_export trimmed_key before_equals
    trim_end
declaration_run = refl

comment_run : declaration_key (bytes_of "# T=1\n") ≡ none
unfolding declaration_key trim_from leading_space starts_with
comment_run = refl

abbrev kept : Bytes
kept = bytes_of "# database\r\n export  T = first\r\nT=local\r\nX=\"1\"\r\n"

abbrev replaced : Bytes
replaced = bytes_of "# database\r\n export  T = first\r\nT=\"new token\"\r\nX=\"1\"\r\n"

abbrev keeps_summary : DotenvMergeSummary
keeps_summary = record { added = 1; updated = 0; kept = 1 }

abbrev replaces_summary : DotenvMergeSummary
replaces_summary = record { added = 1; updated = 1; kept = 0 }

keeps_run : merge_dotenv read_iter existing received keep_existing ≡ ok (kept, keeps_summary)
unfolding merge_dotenv parse bytes_eq insert compare_bytes is_utf8_from merge_variables
    merge_variable contains_key get append_additions lines_of newline_of has_crlf starts_with
    normalized_declaration escape_value
keeps_run = refl

replaces_run :
    merge_dotenv read_iter existing received replace_existing ≡ ok (replaced, replaces_summary)
unfolding merge_dotenv parse bytes_eq insert compare_bytes is_utf8_from merge_variables
    merge_variable contains_key get append_additions lines_of newline_of has_crlf starts_with
    normalized_declaration escape_value declarations_from declaration_key trim_from leading_space
    trimmed_key before_equals strip_export trim_end add ends_with_newline has_nul insert_entries
    merge_known split_inclusive
replaces_run = refl

merge_dotenv_keeps_example :
    (kept
      ≡ append_additions existing
          (missing existing_environment (newline_of existing) received_environment)
          (newline_of existing))
    × (keeps_summary ≡ record {
      added = length (missing existing_environment (newline_of existing) received_environment);
      updated = 0;
      kept = count_known existing_environment received_environment;
    })
merge_dotenv_keeps_example =
    merge_dotenv_keeps read_iter existing received kept keeps_summary existing_environment
      received_environment existing_run received_run keeps_run

found : get (bytes_of "T") received_environment ≡ some (bytes_of "new token")
unfolding get compare_bytes
found = refl

known : contains_key (bytes_of "T") existing_environment ≡ true
unfolding contains_key get compare_bytes
known = refl

merge_dotenv_replaces_example :
    (lines : List Bytes) × (index : ℕ) × (replaced
      ≡ append_additions
          (concat lines)
          (missing existing_environment (newline_of existing) received_environment)
          (newline_of existing))
    × (length lines ≡ length (lines_of existing))
    × (last_declared (bytes_of "T") (lines_of existing) ≡ some index)
    × (get_elem? lines index
        ≡ some (normalized_declaration (bytes_of "T") (bytes_of "new token") (newline_of existing)))
    × (replaces_summary ≡ record {
      added = length (missing existing_environment (newline_of existing) received_environment);
      updated = count_known existing_environment received_environment;
      kept = 0;
    })
merge_dotenv_replaces_example =
    merge_dotenv_replaces read_iter existing received replaced (bytes_of "T") (bytes_of "new token")
      replaces_summary existing_environment received_environment existing_run received_run found
      known replaces_run
