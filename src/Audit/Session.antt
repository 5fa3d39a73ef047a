-- ===== src/Audit/Session.antt =====
-- tauceti_worker/audit_reader.py: a client and the reader, over any requests and restarts.
use tau_ceti_worker.Prelude.{
  if_both, ℕ, String, Bool, true, false, not, ◌&&◌, ◌||◌, Option, some, List, [], ◌∷◌, contains,
  ◌≡◌, refl, arith, nat_eq, string_eq, ◌==◌, ◌⊎◌,
}
use tau_ceti_worker.Prelude.{ap}
use tau_ceti_worker.Audit.Reader.{
  is_page, is_next, next_unread, File, no_file, malformed, saved, Reader, accepted, open_reader,
  Response, error, delivered, request, read_chosen, chosen, deliver, mark, add_page, or_first,
}

-- What the client was given: the pages in full, and the tokens.
abbrev pub pages_after : Response → List ℕ → List ℕ
pages_after (error e) d = d
pages_after (delivered page replayed next remaining token) d = page ∷ d

abbrev pub tokens_after : Response → List String → List String
tokens_after (error e) k = k
tokens_after (delivered page replayed next remaining token) k = token ∷ k

module _ (fits : ℕ → Bool → Reader → Bool) (count : ℕ) (digest : String) where
  -- The client can state an empty token or one that it was given; a fresh token is none of those, nor empty.
  pub data Reach : Reader → List ℕ → List String → Type 0 where
    starts :
        (token : String) (r : Reader)
        → open_reader count digest no_file token ≡ accepted r
        → Reach r [] (token ∷ [])
    requests :
        (r : Reader) (d : List ℕ) (k : List String) (page : ℕ) (token fresh : String)
        → Reach r d k
        → (token ≡ "") ⊎ (contains token k ≡ true)
        → contains fresh k ≡ false
        → (fresh == "") ≡ false
        → Reach
            (request fits r page token fresh).0
            (pages_after (request fits r page token fresh).1 d)
            (tokens_after (request fits r page token fresh).1 k)
    -- A new process, with another token for its client.
    restarts :
        (r r' : Reader) (d : List ℕ) (k : List String) (token : String)
        → Reach r d k
        → open_reader count digest r.file token ≡ accepted r'
        → (r.token == token) ≡ false
        → Reach r' d (token ∷ k)

-- The receipt holds what the reader holds.
abbrev pub IsWritten : File → List ℕ → String → Option ℕ → Type 0
IsWritten no_file seen token last = seen ≡ []
IsWritten malformed seen token last = ⊥
IsWritten (saved x) seen token last =
    (x.read ≡ seen) × (x.last_token ≡ token) × (x.last_page ≡ some last)

-- Each page that counts as read was delivered, except perhaps the last one; and that one too if the
-- client knows the present token.
pub record IsSafe (r : Reader) (d : List ℕ) (k : List String) : Type 0 where
  pub but_last : (p : ℕ) → contains p r.seen ≡ true → (contains p d ≡ true) ⊎ (r.last_page ≡ some p)
  pub known : (p : ℕ) → contains r.token k ≡ true → contains p r.seen ≡ true → contains p d ≡ true
  pub written : IsWritten r.file r.seen r.token r.last_page

contains-add_page : (q p : ℕ) (is : List ℕ) → contains q (add_page p is) ≡ (q == p || contains q is)
unfolding add_page
contains-add_page q p [] = ground arith
contains-add_page q p (i ∷ is) = ground (arith, contains-add_page q p is)

-- A page is marked after all others were delivered.
abbrev pub AllBut : ℕ → Reader → List ℕ → Type 0
AllBut page r d = (p : ℕ) → contains p r.seen ≡ true → (contains p d ≡ true) ⊎ (p ≡ page)

mark-IsSafe :
    (r : Reader) (d : List ℕ) (k : List String) (page : ℕ) (fresh : String)
    → AllBut page r d
    → contains fresh k ≡ false
    → IsSafe (mark r page fresh) d k
unfolding mark
mark-IsSafe r d k page fresh h n = record {
  but_last = λ p s. ground (arith, h p, contains-add_page p page r.seen);
  known = λ p c s. ground arith;
  written = (refl, refl, refl);
}

deliver-IsSafe :
    (r : Reader) (d : List ℕ) (k : List String) (page : ℕ) (fresh : String)
    → AllBut page r d
    → IsSafe (mark r page fresh) (page ∷ d) (fresh ∷ k)
unfolding mark
deliver-IsSafe r d k page fresh h = record {
  but_last = λ p s. ground (arith, h p, contains-add_page p page r.seen);
  known = λ p c s. ground (arith, h p, contains-add_page p page r.seen);
  written = (refl, refl, refl);
}

abbrev pub IsSafeAfter : List ℕ → List String → Reader × Response → Type 0
IsSafeAfter d k a = IsSafe a.0 (pages_after a.1 d) (tokens_after a.1 k)

module _ (fits : ℕ → Bool → Reader → Bool) where
  read_chosen-IsSafe :
      (r : Reader) (d : List ℕ) (k : List String) (page : ℕ) (replayed : Bool) (fresh : String)
      → IsSafe r d k
      → AllBut page r d
      → contains fresh k ≡ false
      → IsSafeAfter d k (read_chosen fits r page replayed fresh)
  unfolding read_chosen deliver
  read_chosen-IsSafe r d k page replayed fresh s h n =
      if_both (IsSafeAfter d k) (contains page r.seen || is_next (next_unread r.pages r.seen) page)
        (λ e.
          if_both (λ x. IsSafeAfter d k (mark r page fresh, x))
            (fits page replayed (mark r page fresh)) (λ f. deliver-IsSafe r d k page fresh h)
            (λ f. mark-IsSafe r d k page fresh h n))
        (λ e. s)

  replay-AllBut :
      (r : Reader) (d : List ℕ) (k : List String) → IsSafe r d k → AllBut (or_first r.last_page) r d
  replay-AllBut r d k s p c = ground (arith, s.but_last p)

  -- A token that is not empty is the present one, which the client then knows.
  chosen-AllBut :
      (r : Reader) (d : List ℕ) (k : List String) (page : ℕ) (token : String)
      → IsSafe r d k
      → (token ≡ "") ⊎ (contains token k ≡ true)
      → (not (token == "") && not (token == r.token)) ≡ false
      → AllBut (chosen r page token) r d
  unfolding chosen
  chosen-AllBut r d k page token s t e p c = ground (
    arith,
    replay-AllBut r d k s p c,
    λ (h : contains r.token k ≡ true). s.known p h c,
    string_eq.same_iff token "",
    string_eq.same_iff token r.token,
    λ (h : token ≡ r.token). ap (λ x. contains x k) h,
  )

  pub request-IsSafe :
      (r : Reader) (d : List ℕ) (k : List String) (page : ℕ) (token fresh : String)
      → IsSafe r d k
      → (token ≡ "") ⊎ (contains token k ≡ true)
      → contains fresh k ≡ false
      → IsSafeAfter d k (request fits r page token fresh)
  unfolding request
  request-IsSafe r d k page token fresh s t n =
      if_both (IsSafeAfter d k) (not (is_page r.pages page)) (λ e. s)
        (λ e.
          if_both (IsSafeAfter d k) (not (token == "") && not (token == r.token)) (λ f. s)
            (λ f.
              read_chosen-IsSafe r d k (chosen r page token) (token == "") fresh s
                (chosen-AllBut r d k page token s t f) n))
