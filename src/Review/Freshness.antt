-- ===== src/Review/Freshness.antt =====
-- What the reads of `gh_meta` may be trusted for.
use tau_ceti_worker.Review.State.{fresh, Board, ReviewState, Env, SharedRead}
use tau_ceti_worker.Review.Cache.{
  shared_answer, memoize, memo_or_fetch, invalidate, fetch_shared, fallback, respond, by_age,
  issue_comments, entitled, read_comments, local_answer, load, gh_meta, flag_of, fetch_comments,
  bust,
}
use tau_ceti_worker.Prelude.{
  Bool-cases, string_eq, insert, ◌==◌, ◌∙◌, sym, ap, beq_refl, Option-cases, arith, ◌≡◌, lookup,
  erase, String, ℕ, List, Option, refl, true, false, inl, inr, nat_eq, none, some, lookup-insert,
  lookup-erase,
}

respond-fresh :
    (env : Env) (pr : ℕ) (s : ReviewState) (comments : Option (List String)) (found : Option Board)
    → (respond env pr s comments found).0.provenance ≡ fresh
    → (flag_of (lookup pr s.shared_hit) ≡ false)
      × (found ≡ some (respond env pr s comments found).0.board)
unfolding respond
respond-fresh env pr s comments (some board) h = ground arith
respond-fresh env pr s none none h = ground arith
respond-fresh env pr s (some cs) none h = ground arith

-- The state of a forced read after its fetch.
asked : Env → ℕ → ReviewState → ReviewState
asked env pr s = (fetch_comments env true pr (record s { facts = erase pr s.facts })).1

hit_recorded :
    (env : Env) (pr : ℕ) (s : ReviewState)
    → flag_of (lookup pr (asked env pr s).shared_hit) ≡ env.cache_hit
unfolding asked fetch_comments memoize
hit_recorded env pr s = ground (arith, lookup-insert pr pr env.cache_hit s.shared_hit, beq_refl pr)

-- What a read concludes depends on the state only through two entries of the PR.
respond-cong :
    (env : Env) (pr : ℕ) (a b : ReviewState) (comments : Option (List String))
    (found : Option Board)
    → lookup pr a.shared_hit ≡ lookup pr b.shared_hit
    → lookup pr a.cache ≡ lookup pr b.cache
    → (respond env pr a comments found).0 ≡ (respond env pr b comments found).0
unfolding respond
respond-cong env pr a b comments (some board) h c = ground arith
respond-cong env pr a b none none h c = ap (λ x. fallback (load x)) c
respond-cong env pr a b (some cs) none h c = refl

busted_lookups :
    (drawn : Option String) (pr : ℕ) (s : ReviewState)
    → (lookup pr (bust drawn pr s).facts ≡ none)
      × (lookup pr (bust drawn pr s).comments ≡ none)
      × (lookup pr (bust drawn pr s).keys ≡ none)
      × (lookup pr (bust drawn pr s).cache ≡ none)
unfolding bust invalidate
busted_lookups none pr s = ground (
  arith,
  beq_refl pr,
  lookup-erase pr pr s.facts,
  lookup-erase pr pr s.comments,
  lookup-erase pr pr s.keys,
  lookup-erase pr pr s.cache,
)
busted_lookups (some drawn) pr s = ground (
  arith,
  beq_refl pr,
  lookup-erase pr pr s.facts,
  lookup-erase pr pr s.comments,
  lookup-erase pr pr s.keys,
  lookup-erase pr pr s.cache,
)

-- No shared read of the PR's comments carries the generation.
abbrev pub IsNew : String → Option SharedRead → Type 0
IsNew drawn none = Unit
IsNew drawn (some c) = (c.generation == drawn) ≡ false

outdated :
    (env : Env) (pr : ℕ) (s : ReviewState) (o : Option SharedRead)
    → IsNew s.generation o
    → shared_answer env pr s o ≡ none
unfolding shared_answer
outdated env pr s none new = refl
outdated env pr s (some c) new = ground arith

-- A read that the shared cache does not answer gives what GitHub answers.
fetched_anew :
    (env : Env) (pr : ℕ) (s : ReviewState)
    → IsNew s.generation (lookup pr s.shared_issue)
    → let (comments, s') = fetch_comments env false pr s in
      (comments ≡ env.fetched)
      × (lookup pr s'.shared_hit ≡ some env.cache_hit)
      × (s'.cache ≡ s.cache)
unfolding fetch_comments fetch_shared memoize
fetched_anew env pr s new =
    let missed = outdated env pr s (lookup pr s.shared_issue) new in
    let mark : lookup pr (insert pr env.cache_hit s.shared_hit) ≡ some env.cache_hit =
      ground (arith, lookup-insert pr pr env.cache_hit s.shared_hit, beq_refl pr) in
    elim (Bool-cases env.sharing) [
      | inl shared ↦ rw (shared, missed) (refl, mark, refl)
      | inr alone ↦ rw alone (refl, mark, refl)
    ]

module _ (scoreboard : Option (List String) → Option Board) where
  -- A forced read is fresh only if GitHub answered this very call, not through the shared cache,
  -- with comments that hold the scoreboard it returns. (No comments hold no scoreboard.)
  pub gh_meta-forced_fresh :
      scoreboard none ≡ none
      → (env : Env) (pr : ℕ) (s : ReviewState)
      → (gh_meta scoreboard env true pr s).0.provenance ≡ fresh
      → (cs : List String) × (env.fetched ≡ some cs)
        × (env.cache_hit ≡ false)
        × (scoreboard (some cs) ≡ some (gh_meta scoreboard env true pr s).0.board)
  unfolding gh_meta read_comments issue_comments asked memo_or_fetch fetch_comments memoize
  gh_meta-forced_fresh nothing env pr s h =
      let (missed, found) =
        respond-fresh env pr (asked env pr s) env.fetched (scoreboard env.fetched) h in
      elim (Option-cases env.fetched) [
        | inl failed ↦ absurd (cc (nothing, found, ap (λ x. scoreboard x) failed))
        | inr (cs, e) ↦
            (cs, e, sym (hit_recorded env pr s) ∙ missed, ap (λ x. scoreboard x) (sym e) ∙ found)
      ]

  -- A forced read whose fetch fails changes no cache file, and answers with the board of the cache
  -- file as stale if it holds one, and otherwise with an empty board as failed.
  pub gh_meta-forced_failure :
      scoreboard none ≡ none
      → (env : Env) (pr : ℕ) (s : ReviewState) → env.fetched ≡ none
      → let (meta, s') = gh_meta scoreboard env true pr s in
        (s'.keys ≡ s.keys)
        × (s'.cache ≡ s.cache)
        × (s'.contests ≡ s.contests)
        × (meta ≡ fallback (load (lookup pr s.cache)))
  unfolding gh_meta read_comments issue_comments memo_or_fetch asked fetch_comments memoize respond
  gh_meta-forced_failure nothing env pr s h =
      let same : respond env pr (asked env pr s) env.fetched (scoreboard env.fetched)
          ≡ respond env pr (asked env pr s) none none =
        ap (λ c. respond env pr (asked env pr s) c (scoreboard c)) h
        ∙ ap (λ d. respond env pr (asked env pr s) none d) nothing in
      (
        ap (λ x. x.1.keys) same,
        ap (λ x. x.1.cache) same,
        ap (λ x. x.1.contests) same,
        ap (λ x. x.0) same,
      )

  unknown :
      (env : Env) (pr : ℕ) (s : ReviewState)
      → lookup pr s.keys ≡ none
      → lookup pr s.cache ≡ none
      → local_answer scoreboard env pr s ≡ none
  unfolding local_answer entitled by_age
  unknown env pr s k c = ground arith

  unremembered :
      (env : Env) (pr : ℕ) (s : ReviewState)
      → lookup pr s.comments ≡ none
      → read_comments scoreboard env false pr s ≡ (
          let (comments, s') = fetch_comments env false pr s in
          respond env pr s' comments (scoreboard comments))
  unfolding read_comments issue_comments memo_or_fetch
  unremembered env pr s m = rw m refl

  unanswered :
      (env : Env) (pr : ℕ) (s : ReviewState)
      → lookup pr s.facts ≡ none
      → local_answer scoreboard env pr s ≡ none
      → gh_meta scoreboard env false pr s ≡ read_comments scoreboard env false pr s
  unfolding gh_meta
  unanswered env pr s f a = ground arith

  -- A read that nothing recorded answers, and a forced one.
  reread :
      (env : Env) (pr : ℕ) (s : ReviewState)
      → IsNew s.generation (lookup pr s.shared_issue)
      → (let (comments, s') = fetch_comments env false pr s in
          (respond env pr s' comments (scoreboard comments)).0)
        ≡ (gh_meta scoreboard env true pr s).0
  unfolding asked gh_meta read_comments issue_comments memo_or_fetch fetch_comments memoize
  reread env pr s new =
      let (same, mark, kept) = fetched_anew env pr s new in
      ap (λ c. (respond env pr (fetch_comments env false pr s).1 c (scoreboard c)).0) same
      ∙ respond-cong env pr _ (asked env pr s) env.fetched (scoreboard env.fetched)
          (mark ∙ sym (ground (arith, lookup-insert pr pr env.cache_hit s.shared_hit, beq_refl pr)))
          (ap (λ d. lookup pr d) kept)

  -- After `bust`, if the new generation was written and no shared read of the PR carries it, an
  -- unforced read answers what a forced read answers, whatever was cached.
  pub gh_meta-bust :
      (env : Env) (drawn : String) (pr : ℕ) (s : ReviewState)
      → IsNew drawn (lookup pr s.shared_issue)
      → (gh_meta scoreboard env false pr (bust (some drawn) pr s)).0
        ≡ (gh_meta scoreboard env true pr (bust (some drawn) pr s)).0
  gh_meta-bust env drawn pr s new =
      let s' = bust (some drawn) pr s in
      let (f, m, k, c) = busted_lookups (some drawn) pr s in
      ap (λ x. x.0) (unanswered env pr s' f (unknown env pr s' k c) ∙ unremembered env pr s' m)
      ∙ reread env pr s' (unfold bust invalidate in new)
