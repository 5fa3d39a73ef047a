-- ===== src/Recovery/Verified.antt =====
-- A verified entry of the index is found again, and stays.
use tau_ceti_worker.Recovery.Index.{
  is_found, IndexFile, or_own, entry_for, write_entry, parsed, Entry, opened, Index, remember, find,
  Manifest, Hashing,
}
use tau_ceti_worker.Prelude.{
  subst, lookup-insert, string_eq, insert, eq_iff, ◌∙◌, ◌==◌, lookup, beq_refl, arith, ap,
  Bool-cases, ◌≤◌, List, some, true, false, ◌≡◌, refl, String, Option, inl, inr, [], ◌∷◌,
}

-- One registration by the background reconciliation.
pub record Registration : Type 0 where
  pub name : String
  pub manifest : Manifest
  pub evidence : Option String
  pub fingerprint : String

module _ (hash : Hashing) where
  accepted :
      (e : Entry)
      → hash.is_plain e.name ≡ true
      → hash.size_of e ≤ 16384
      → e.version ≡ 1
      → opened hash e.repository e.fingerprint
          (some (record { size = hash.size_of e; content = some (hash.checksum e, e) }))
        ≡ some e
  unfolding opened parsed
  accepted e plain small v =
      ground (arith, beq_refl (hash.checksum e), beq_refl e.repository, beq_refl e.fingerprint)

  at_key : (k : String) (f : IndexFile) (index : Index) → lookup k (insert k f index) ≡ some f
  at_key k f index = ground (arith, lookup-insert k k f index, beq_refl k)

  other_key :
      (k j : String) (f : IndexFile) (index : Index)
      → (k == j) ≡ false
      → lookup k (insert j f index) ≡ lookup k index
  other_key k j f index h = ground (arith, lookup-insert k j f index)

  -- A verified entry is found again, if its name is plain and its file is at most 16384 bytes.
  pub find-remember :
      (index : Index) (name : String) (m : Manifest) (evidence : Option String)
      (fingerprint : String)
      → hash.is_plain name ≡ true
      → hash.size_of (entry_for hash name m true evidence (or_own hash m fingerprint)) ≤ 16384
      → find hash
          (remember hash index name m true evidence fingerprint)
          m.repository
          (or_own hash m fingerprint)
        ≡ some (entry_for hash name m true evidence (or_own hash m fingerprint))
  unfolding find remember write_entry
  find-remember index name m evidence fingerprint plain small =
      let e = entry_for hash name m true evidence (or_own hash m fingerprint) in
      ap (λ x. opened hash m.repository (or_own hash m fingerprint) x)
        (at_key (hash.key m.repository (or_own hash m fingerprint))
          (record { size = hash.size_of e; content = some (hash.checksum e, e) }) index)
      ∙ accepted e plain small refl

  unfoldable pub register_all : Index → List Registration → Index
  unfolding remember
  register_all index [] = index
  register_all index (r ∷ rs) =
      register_all (remember hash index r.name r.manifest false r.evidence r.fingerprint) rs

  module _ (repository fingerprint : String)
      (unique : (r f : String)
        → hash.key repository fingerprint ≡ hash.key r f
        → (repository ≡ r) × (fingerprint ≡ f)) where
    unmoved :
        (index : Index) (e w : Entry)
        → find hash index repository fingerprint ≡ some e
        → is_found hash (find hash index w.repository w.fingerprint) ≡ false
        → find hash (write_entry hash index w) repository fingerprint ≡ some e
    unfolding find write_entry
    unmoved index e w h missing =
        let k = hash.key repository fingerprint in
        let j = hash.key w.repository w.fingerprint in
        elim (Bool-cases (k == j)) [
          | inl same ↦
              let (r, f) = unique w.repository w.fingerprint ((eq_iff k j).0 same) in
              let there : find hash index w.repository w.fingerprint ≡ some e =
                subst (λ x. find hash index x w.fingerprint ≡ some e) r
                  (subst (λ x. find hash index repository x ≡ some e) f h) in
              absurd (ground (arith, there))
          | inr other ↦
              ap (λ x. opened hash repository fingerprint x)
                (other_key k j
                  (record { size = hash.size_of w; content = some (hash.checksum w, w) }) index
                  other)
              ∙ h
        ]

    kept :
        (r : Registration) (index : Index) (e : Entry)
        → find hash index repository fingerprint ≡ some e
        → find hash
            (remember hash index r.name r.manifest false r.evidence r.fingerprint)
            repository
            fingerprint
          ≡ some e
    unfolding remember
    kept r index e h =
        let fp = or_own hash r.manifest r.fingerprint in
        elim (Bool-cases (is_found hash (find hash index r.manifest.repository fp))) [
          | inl there ↦ rw there h
          | inr missing ↦
              rw missing
                (unmoved index e (entry_for hash r.name r.manifest false r.evidence fp) h missing)
        ]

    -- Once an entry is found, no registrations that are not verified replace it, of whatever
    -- sources, if no other source has its key.
    pub find-register_all :
        (rs : List Registration) (index : Index) (e : Entry)
        → find hash index repository fingerprint ≡ some e
        → find hash (register_all index rs) repository fingerprint ≡ some e
    unfolding register_all
    find-register_all [] index e h = h
    find-register_all (r ∷ rs) index e h =
        find-register_all rs (remember hash index r.name r.manifest false r.evidence r.fingerprint)
          e (kept r index e h)
