-- ===== src/Audit/Coverage.antt =====
-- tauceti_worker/audit_progress.py and security_audit.py: what a receipt proves.
use tau_ceti_worker.Prelude.{
  ℕ, String, Bool, true, false, not, ◌&&◌, Option, none, some, List, [], ◌∷◌, contains, nat_eq,
  string_eq, ◌==◌, if◌then◌else◌, all, filter,
}
use tau_ceti_worker.Audit.Reader.{
  Receipt, File, no_file, malformed, saved, range, is_page, is_sorted_set, is_kept,
}

pub record Proof : Type 0 where
  pub read : List ℕ
  pub missing : List ℕ
  pub last_token : Option String

abbrev pub some_read : List ℕ → Bool
some_read [] = false
some_read (i ∷ is) = true

abbrev pub stated_page : Option (Option ℕ) → Option ℕ
stated_page none = none
stated_page (some p) = p

abbrev pub not_in : List ℕ → ℕ → Bool
not_in seen i = not (contains i seen)

unfoldable pub is_valid : ℕ → String → Receipt → Bool
unfolding is_sorted_set
is_valid count digest r =
    r.input_digest == digest
    && (r.pages == count
        && (all (is_page count) r.read
            && (is_sorted_set r.read
                && (not (some_read r.read && r.last_token == "")
                    && is_kept r.read (stated_page r.last_page)))))

-- `coverage`; `none` is the refusal of a receipt. Keys of other names are malformed.
unfoldable pub coverage : ℕ → String → File → Option Proof
unfolding is_valid range
coverage count digest no_file =
    some (record { read = []; missing = range count; last_token = none })
coverage count digest malformed = none
coverage count digest (saved r) =
    if is_valid count digest r
    then some (record {
      read = r.read;
      missing = filter (not_in r.read) (range count);
      last_token = some r.last_token;
    })
    else none

-- A null last page stays in the receipt, which then differs.
abbrev pub is_removable : ℕ → Option (Option ℕ) → Bool
is_removable count none = true
is_removable count (some none) = false
is_removable count (some (some p)) = is_page count p

-- `list == list`
abbrev pub same_list : List ℕ → List ℕ → Bool
same_list [] [] = true
same_list [] (j ∷ js) = false
same_list (i ∷ is) [] = false
same_list (i ∷ is) (j ∷ js) = i == j && same_list is js

unfoldable pub is_complete : ℕ → String → Receipt → String → Bool
unfolding range
is_complete count digest r token =
    is_removable count r.last_page
    && (not (token == "")
        && (r.input_digest == digest
            && (r.pages == count && (same_list r.read (range count) && r.last_token == token))))

pub data Judgment : Type 0 where
  pass finding incomplete : Judgment

unfoldable pub reads_complete : ℕ → String → File → Option String → Bool
unfolding is_complete
reads_complete count digest (saved r) (some token) = is_complete count digest r token
reads_complete count digest file token = false

-- `validate_reads`: whether it does not raise.
unfoldable pub validate_reads : Judgment → Bool → ℕ → String → File → Option String → Bool
unfolding reads_complete
validate_reads pass true count digest file token = reads_complete count digest file token
validate_reads j paged count digest file token = true
