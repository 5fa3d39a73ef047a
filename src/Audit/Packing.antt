-- ===== src/Audit/Packing.antt =====
-- tauceti_worker/audit_reader.py: packing sections into pages.
use tau_ceti_worker.Prelude.{
  ◌&&◌, ℕ, ◌+◌, ◌≤◌, ltb, true, false, Option, none, some, List, [], ◌∷◌, ◌++◌, ◌≡◌, refl, arith,
  ap, sym, ◌∙◌, subst, append_nil, append_assoc,
}
use tau_ceti_worker.Audit.Pages.{
  Section, Commit, Packing, page_bytes, holds_some, put, pack, close, packed, pages, all_sections,
  parts,
}
use tau_ceti_worker.Audit.Cutting.{texts, part_texts, all_sections-Cuts, if_cases}

unfoldable pub concat : List (List Section) → List Section
concat [] = []
concat (p ∷ ps) = p ++ concat ps

concat-append :
    (ps : List (List Section)) (q : List Section) → concat (ps ++ q ∷ []) ≡ concat ps ++ q
unfolding concat
concat-append [] q = append_nil q
concat-append (p ∷ ps) q =
    ap (λ x. p ++ x) (concat-append ps q) ∙ sym (append_assoc p (concat ps) q)

-- All that was packed, in order.
abbrev flat : Packing → List Section
flat k = concat k.result ++ k.current

module _ (weight : Section → ℕ) where
  put-flat : (s : Section) (k : Packing) → flat (put weight s k) ≡ flat k ++ s ∷ []
  unfolding put
  put-flat s k =
      if_cases (λ x. flat x ≡ flat k ++ s ∷ [])
        (holds_some k.current && ltb page_bytes (k.size + weight s))
        (λ e. ap (λ x. x ++ s ∷ []) (concat-append k.result k.current))
        (λ e. sym (append_assoc (concat k.result) k.current (s ∷ [])))

  -- The sections of a page, with their total weight.
  unfoldable pub total : List Section → ℕ
  total [] = 0
  total (s ∷ ss) = weight s + total ss

  total-append : (ss : List Section) (s : Section) → total (ss ++ s ∷ []) ≡ total ss + weight s
  unfolding total
  total-append [] s = omega arith
  total-append (t ∷ ss) s = omega (arith, total-append ss s)

  abbrev pub FitsAll : List (List Section) → Type 0
  FitsAll [] = Unit
  FitsAll (p ∷ ps) = (holds_some p ≡ true) × (total p ≤ page_bytes) × FitsAll ps

  FitsAll-append :
      (ps : List (List Section)) (q : List Section)
      → FitsAll ps
      → holds_some q ≡ true
      → total q ≤ page_bytes
      → FitsAll (ps ++ q ∷ [])
  FitsAll-append [] q f h l = (h, l, tt)
  FitsAll-append (p ∷ ps) q (a, b, f) h l = (a, b, FitsAll-append ps q f h l)

  total-empty : (ss : List Section) → holds_some ss ≡ false → total ss ≡ 0
  unfolding total
  total-empty [] h = refl
  total-empty (s ∷ ss) h = ground arith

  record IsFit (k : Packing) : Type 0 where
    pages_fit : FitsAll k.result
    sized : total k.current ≡ k.size
    small : k.size ≤ page_bytes

  put-IsFit : (s : Section) (k : Packing) → IsFit k → weight s ≤ page_bytes → IsFit (put weight s k)
  unfolding put total
  put-IsFit s k f l =
      if_cases IsFit (holds_some k.current && ltb page_bytes (k.size + weight s))
        (λ e. record {
          pages_fit =
              FitsAll-append k.result k.current f.pages_fit (ground arith)
                (omega (arith, f.sized, f.small));
          sized = omega arith;
          small = l;
        })
        (λ e. record {
          pages_fit = f.pages_fit;
          sized = total-append k.current s ∙ ap (λ n. n + weight s) f.sized;
          small = ground (arith, total-empty k.current, f.sized, f.small);
        })

  abbrev KeptIn : List Section → Option Packing → Type 0
  KeptIn ss none = Unit
  KeptIn ss (some k) = IsFit k × (flat k ≡ ss)

  -- Packing adds the sections in order, and the pages stay small.
  pack-KeptIn :
      (ss : List Section) (k : Packing) → IsFit k → KeptIn (flat k ++ ss) (pack weight k ss)
  unfolding pack
  pack-KeptIn [] k f = (f, sym (append_nil (flat k)))
  pack-KeptIn (s ∷ ss) k f =
      if_cases (KeptIn (flat k ++ s ∷ ss)) (ltb page_bytes (weight s)) (λ e. tt)
        (λ e.
          subst (λ x. KeptIn x (pack weight (put weight s k) ss)) added
            (pack-KeptIn ss (put weight s k) (put-IsFit s k f (ground arith))))
    where
      added : flat (put weight s k) ++ ss ≡ flat k ++ s ∷ ss
      added = ap (λ x. x ++ ss) (put-flat s k) ∙ append_assoc (flat k) (s ∷ []) ss

  abbrev ClosedIn : List Section → Option (List (List Section)) → Type 0
  ClosedIn ss none = Unit
  ClosedIn ss (some ps) = FitsAll ps × (concat ps ≡ ss)

  empty_current :
      (rs : List (List Section)) (ss : List Section)
      → holds_some ss ≡ false
      → concat rs ≡ concat rs ++ ss
  empty_current rs [] h = sym (append_nil (concat rs))
  empty_current rs (s ∷ ss) h = absurd (ground arith)

  close-ClosedIn :
      (ss : List Section) (o : Option Packing) → KeptIn ss o → ClosedIn ss (close weight o)
  unfolding close
  close-ClosedIn ss none h = tt
  close-ClosedIn ss (some k) (f, e) =
      if_cases (λ ps. ClosedIn ss (some ps)) (holds_some k.current)
        (λ h. (
          FitsAll-append k.result k.current f.pages_fit h (omega (arith, f.sized, f.small)),
          concat-append k.result k.current ∙ e,
        ))
        (λ h. (f.pages_fit, empty_current k.result k.current h ∙ e))

  abbrev empty_packing : Packing
  empty_packing = record { result = []; current = []; size = 0 }

  empty_packing-IsFit : IsFit empty_packing
  unfolding total
  empty_packing-IsFit = record { pages_fit = tt; sized = refl; small = omega arith }

  packed-ClosedIn :
      (o : Option (List Section)) (ss : List Section) → o ≡ some ss → ClosedIn ss (packed weight o)
  unfolding concat
  packed-ClosedIn o ss e =
      subst (λ x. ClosedIn ss (packed weight x)) (sym e)
        (close-ClosedIn ss (pack weight empty_packing ss)
          (pack-KeptIn ss empty_packing empty_packing-IsFit))

  -- The pages of an input hold its texts, one after another, with every character, and each page
  -- holds a section and no more than 98304 bytes of sections.
  pub pages-FitsAll :
      (cs : List Commit) (ps : List (List Section))
      → pages weight cs ≡ some ps
      → FitsAll ps × (texts (concat ps) ≡ part_texts (parts cs))
  unfolding pages
  pages-FitsAll cs ps h =
      let kept = all_sections-Cuts (parts cs) in
      let closed =
        subst (ClosedIn kept.0) h (packed-ClosedIn (all_sections (parts cs)) kept.0 kept.1) in
      (closed.0, ap texts closed.1 ∙ kept.2)
