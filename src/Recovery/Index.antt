-- ===== src/Recovery/Index.antt =====
-- tauceti_worker/recovery_index.py: `lookup` and `_remember`, over the files of one index directory.
-- The lock of `remember` makes each `_remember` one step; a file that holds no JSON object is `none`.
use tau_ceti_worker.Prelude.{
  nat_eq, ◌&&◌, string_eq, not, ltb, ◌==◌, lookup, insert, if◌then◌else◌, Dict, none, some, true,
  false, ℕ, String, Option, Bool,
}

pub record Entry : Type 0 where
  pub version : ℕ
  pub repository : String
  pub fingerprint : String
  pub source_fingerprint : String
  pub manifest_checksum : String
  pub name : String
  pub verified : Bool
  pub evidence : Option String

-- A file is its size and the object that it holds, split into its checksum and the rest.
pub record IndexFile : Type 0 where
  pub size : ℕ
  pub content : Option (String × Entry)

pub record Manifest : Type 0 where
  pub repository : String
  pub fingerprint : String

-- Hashing and paths: the key of a repository and fingerprint, the two checksums, the size that an
-- entry has on disk, and whether a text is the plain name of a visible file.
pub record Hashing : Type 0 where
  pub key : String → String → String
  pub checksum : Entry → String
  pub manifest_sum : Manifest → String
  pub size_of : Entry → ℕ
  pub is_plain : String → Bool

abbrev pub Index : Type 0
Index = Dict String IndexFile

module _ (hash : Hashing) where
  abbrev pub is_valid : String → String → String → Entry → Bool
  is_valid repository fingerprint check e =
      (check == hash.checksum e && e.version == 1)
      && ((e.repository == repository && e.fingerprint == fingerprint) && hash.is_plain e.name)

  unfoldable pub parsed : String → String → Option (String × Entry) → Option Entry
  parsed repository fingerprint none = none
  parsed repository fingerprint (some (check, e)) =
      if is_valid repository fingerprint check e then some e else none

  unfoldable pub opened : String → String → Option IndexFile → Option Entry
  unfolding parsed
  opened repository fingerprint none = none
  opened repository fingerprint (some f) =
      if ltb 16384 f.size then none else parsed repository fingerprint f.content

  -- `lookup`; `none` is its empty answer.
  unfoldable pub find : Index → String → String → Option Entry
  unfolding opened
  find index repository fingerprint =
      opened repository fingerprint (lookup (hash.key repository fingerprint) index)

  abbrev pub or_own : Manifest → String → String
  or_own m fingerprint = if fingerprint == "" then m.fingerprint else fingerprint

  abbrev pub entry_for : String → Manifest → Bool → Option String → String → Entry
  entry_for name m verified evidence fingerprint = record {
    version = 1;
    repository = m.repository;
    fingerprint = fingerprint;
    source_fingerprint = m.fingerprint;
    manifest_checksum = hash.manifest_sum m;
    name = name;
    verified = verified;
    evidence = if verified then evidence else none;
  }

  abbrev pub is_found : Option Entry → Bool
  is_found none = false
  is_found (some e) = true

  unfoldable pub write_entry : Index → Entry → Index
  write_entry index e =
      insert (hash.key e.repository e.fingerprint)
        (record { size = hash.size_of e; content = some (hash.checksum e, e) }) index

  -- `_remember`; a fingerprint of "" is that of the manifest.
  unfoldable pub remember : Index → String → Manifest → Bool → Option String → String → Index
  unfolding find write_entry
  remember index name m verified evidence fingerprint =
      if not verified && is_found (find index m.repository (or_own m fingerprint))
      then index
      else write_entry index (entry_for name m verified evidence (or_own m fingerprint))
