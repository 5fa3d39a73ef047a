-- ===== src/Outbox/Server.antt =====
-- What GitHub documents of replies and reads, and how often one publication takes effect.
use tau_ceti_worker.Outbox.Forks.{observe_fork, reconcile_fork}
use tau_ceti_worker.Outbox.Classify.{rejected_logically, rejected_records, is_refused, all_of}
use tau_ceti_worker.Outbox.Reconcile.{
  seen_among, is_dated, is_created, same_body, reconcile_thread, reconcile_listed, reconcile_create,
  reconcile_close, is_reply, is_recent_at, is_comment, is_issue, reconcile_as,
}
use tau_ceti_worker.Prelude.{
  Option-cases, ◌∙◌, eq_iff, ◌+◌, ◌≤◌, ◌&&◌, arith, ◌≢◌, ap, ◌⊎◌, any, ℕ, none, some, true, false,
  Option, Bool, [], ◌∷◌, List, String, ◌≡◌, inl, inr, refl,
}
use tau_ceti_worker.Outbox.Evidence.{
  Listed, HeadPull, Thread, ClosingPull, ForkEvidence, Evidence, absent,
}
use tau_ceti_worker.Outbox.State.{
  is_update, Intent, Reply, Operation, fork, close, update, issue, local, other, resolve, create,
  comment,
}

-- A reply is honest about whether the command took effect: it did not if it was never requested, if
-- every request that speaks for it was refused, if GraphQL answered with errors and no data, or if
-- the transport marked it throttled and safe to retry.
pub record IsHonest (r : Reply) (did : Bool) : Type 0 where
  pub refused : all_of is_refused (rejected_records r) ≡ true → did ≡ false
  pub logical : rejected_logically r ≡ true → did ≡ false
  pub unrequested : r.before_request ≡ true → did ≡ false
  pub throttled : (r.content_throttle && r.retry_safe) ≡ true → did ≡ false

-- `x` is an entry of the list.
abbrev pub IsIn : {A : Type 0} → A → List A → Type 0
IsIn x [] = ⊥
IsIn x (y ∷ ys) = (x ≡ y) ⊎ IsIn x ys

any-IsIn :
    {A : Type 0} (test : A → Bool) (x : A) (ys : List A)
    → IsIn x ys
    → test x ≡ true
    → any test ys ≡ true
any-IsIn test x [] m h = absurd m
any-IsIn test x (y ∷ ys) (inl e) h = let e' : test x ≡ test y = ap test e in ground arith
any-IsIn test x (y ∷ ys) (inr m) h =
    let rest : any test ys ≡ true = any-IsIn test x ys m h in ground arith

-- A listed item that was posted with this text by this account, and not long before the intent.
pub record IsPosted (plain : String → String) (v : Intent) (who body : String) (c : Listed)
    : Type 0 where
  pub text : String
  pub at : ℕ
  pub has_text : c.body ≡ some text
  pub same_text : plain text ≡ plain body
  pub by_us : c.login ≡ who
  pub dated : c.at ≡ some at
  pub recent : v.created ≤ at + 300

module _ (is_sha : String → Bool) (plain : String → String) where
  -- What complete reads show once the publication took effect.
  unfoldable pub Shows : Operation → Intent → Evidence → Type 0
  Shows (fork up) v e = (f : ForkEvidence) → e.fork ≡ some f → f.fork ≡ none → f.absent ≡ false
  Shows close v e = (live : ClosingPull) → e.closing ≡ some live → live.state ≡ "closed"
  Shows (resolve id) v e = (t : Thread) → e.thread ≡ some (some t) → t.resolved ≡ some true
  Shows (create none) v e = Unit
  Shows (create (some who)) v e =
      (ps : List HeadPull)
      → e.pulls ≡ some (ps, false)
      → (p : HeadPull) × IsIn p ps × (p.owner ≡ who) × (v.created ≤ p.created + 300)
  Shows issue v e =
      (body who : String) (cs : List Listed)
      → v.body ≡ some body
      → e.viewer ≡ some who
      → e.listed ≡ some cs
      → (c : Listed) × IsIn c cs × (c.is_pull ≡ false) × IsPosted plain v who body c
  Shows (comment reply) v e =
      (body who : String) (cs : List Listed)
      → v.body ≡ some body
      → e.viewer ≡ some who
      → e.listed ≡ some cs
      → (c : Listed) × IsIn c cs
        × (is_reply is_sha plain reply c ≡ true)
        × IsPosted plain v who body c
  Shows update v e = Unit
  Shows local v e = Unit
  Shows other v e = Unit

  posted_body :
      (v : Intent) (who body : String) (c : Listed)
      → IsPosted plain v who body c
      → same_body is_sha plain c.body body ≡ true
  posted_body v who body c i =
      ap (λ x. same_body is_sha plain x body) i.has_text
      ∙ (eq_iff (plain i.text) (plain body)).1 i.same_text

  posted_at :
      (v : Intent) (who body : String) (c : Listed)
      → IsPosted plain v who body c
      → (is_recent_at is_sha plain v c.at ≡ true) × (is_dated is_sha plain v c.at ≡ true)
  posted_at v who body c i =
      let recent = i.recent in
      (
        ap (λ x. is_recent_at is_sha plain v x) i.dated ∙ ground arith,
        ap (λ x. is_dated is_sha plain v x) i.dated ∙ ground arith,
      )

  posted_issue :
      (v : Intent) (who body : String) (c : Listed)
      → c.is_pull ≡ false
      → IsPosted plain v who body c
      → is_issue is_sha plain v who body c ≡ true
  posted_issue v who body c q i =
      let body_same = posted_body v who body c i in
      let (recent, dated) = posted_at v who body c i in
      let us = (eq_iff c.login who).1 i.by_us in ground arith

  posted_comment :
      (v : Intent) (who body : String) (reply : Option String) (c : Listed)
      → is_reply is_sha plain reply c ≡ true
      → IsPosted plain v who body c
      → is_comment is_sha plain v who body reply c ≡ true
  posted_comment v who body reply c q i =
      let body_same = posted_body v who body c i in
      let (recent, dated) = posted_at v who body c i in
      let us = (eq_iff c.login who).1 i.by_us in ground arith

  listed_shown :
      (test : String → String → Listed → Bool) (body who : Option String)
      (listed : Option (List Listed))
      → ((b w : String) (cs : List Listed)
          → body ≡ some b
          → who ≡ some w
          → listed ≡ some cs
          → any (test w b) cs ≡ true)
      → reconcile_listed is_sha plain test body who listed ≢ absent
  unfolding reconcile_listed seen_among
  listed_shown test none who listed h = λ x. cc
  listed_shown test (some body) none listed h = λ x. cc
  listed_shown test (some body) (some who) none h = λ x. cc
  listed_shown test (some body) (some who) (some cs) h =
      let there : any (test who body) cs ≡ true = h body who cs refl refl refl in λ x. ground arith

  close_shown :
      (v : Intent) (o : Option ClosingPull)
      → ((live : ClosingPull) → o ≡ some live → live.state ≡ "closed")
      → reconcile_close is_sha plain v o ≢ absent
  unfolding reconcile_close
  close_shown v none h = λ x. cc
  close_shown v (some live) h =
      let e : live.state ≡ "closed" = h live refl in λ x. ground (arith, eq_iff live.state "closed")

  thread_shown :
      (o : Option (Option Thread))
      → ((t : Thread) → o ≡ some (some t) → t.resolved ≡ some true)
      → reconcile_thread is_sha plain o ≢ absent
  unfolding reconcile_thread
  thread_shown none h = λ x. cc
  thread_shown (some none) h = λ x. cc
  thread_shown (some (some t)) h = let e : t.resolved ≡ some true = h t refl in λ x. ground arith

  create_shown :
      (v : Intent) (who : String) (o : Option (List HeadPull × Bool))
      → ((ps : List HeadPull)
          → o ≡ some (ps, false)
          → (p : HeadPull) × IsIn p ps × (p.owner ≡ who) × (v.created ≤ p.created + 300))
      → reconcile_create is_sha plain v who o ≢ absent
  unfolding reconcile_create
  create_shown v who none h = λ x. cc
  create_shown v who (some (ps, true)) h = λ x. ground arith
  create_shown v who (some (ps, false)) h =
      let (p, here, owner, recent) = h ps refl in
      let same = (eq_iff p.owner who).1 owner in
      let there : any (is_created is_sha plain v who) ps ≡ true =
        any-IsIn (is_created is_sha plain v who) p ps here (ground arith) in
      λ x. ground arith

  fork_shown :
      (now : ℕ) (account : Option String) (up : String) (o : Option ForkEvidence) (v : Intent)
      → ((f : ForkEvidence) → o ≡ some f → f.fork ≡ none → f.absent ≡ false)
      → (reconcile_fork now account up o v).0 ≢ absent
  unfolding reconcile_fork observe_fork
  fork_shown now account up none v h = λ x. cc
  fork_shown now account up (some f) v h = elim (Option-cases f.fork) [
    | inl missing ↦ let seen : f.absent ≡ false = h f refl missing in λ x. ground arith
    | inr (found, e) ↦ λ x. ground arith
  ]

  -- Reads that show a publication never judge it absent.
  pub shown :
      (op : Operation) (now : ℕ) (v : Intent) (e : Evidence)
      → is_update op ≡ false
      → Shows op v e
      → (reconcile_as is_sha plain op now e v).0 ≢ absent
  unfolding Shows reconcile_as
  shown (fork none) now v e u s = λ x. cc
  shown (fork (some up)) now v e u s = fork_shown now e.account up e.fork v s
  shown close now v e u s = let step = close_shown v e.closing s in λ x. ground arith
  shown (resolve id) now v e u s = thread_shown e.thread s
  shown (create none) now v e u s = λ x. cc
  shown (create (some who)) now v e u s = create_shown v who e.pulls s
  shown issue now v e u s =
      listed_shown (λ who body c. is_issue is_sha plain v who body c) v.body e.viewer e.listed
        λ b w cs hb hw hc.
          let (c, here, own, posted) = s b w cs hb hw hc in
          any-IsIn (λ c. is_issue is_sha plain v w b c) c cs here (posted_issue v w b c own posted)
  shown (comment reply) now v e u s =
      listed_shown (λ who body c. is_comment is_sha plain v who body reply c) v.body e.viewer
        e.listed
        λ b w cs hb hw hc.
          let (c, here, answers, posted) = s b w cs hb hw hc in
          any-IsIn (λ c. is_comment is_sha plain v w b reply c) c cs here
            (posted_comment v w b reply c answers posted)
  shown update now v e u s = absurd (cc)
  shown local now v e u s = λ x. cc
  shown other now v e u s = λ x. cc
