-- ===== src/Outbox/Once.antt =====
-- A publication takes effect at most once, through attempts, crashes and passes in any order.
use tau_ceti_worker.Outbox.Server.{IsHonest}
use tau_ceti_worker.Prelude.{
  beq_refl, not, lookup-insert, lookup-erase, insert, erase, Dict, ◌∙◌, string_eq, ap, ◌&&◌, lookup,
  Bool-cases, arith, ◌≤◌, all, ℕ, none, some, true, false, Option, Bool, [], ◌∷◌, List, String, ◌≡◌,
  inl, inr, refl,
}
use tau_ceti_worker.Outbox.State.{
  is_fork, Outbox, remove, write, is_update, archive, is_unsent, Reply, Request, Intent,
}
use tau_ceti_worker.Outbox.Classify.{
  quota, is_terminal, Disposal, rejected_logically, is_refused, is_unauthorized, writes,
  is_throttled, deferred, finish, auth_rejected, rejected_records, is_definitive, dispose, all_of,
  removed, archived, kept,
}

abbrev pub count : Bool → ℕ
count true = 1
count false = 0

-- How often the command took effect, at most once, and not at all while it may be sent.
abbrev pub IsSafeIntent : Option (Option Intent) → ℕ → Type 0
IsSafeIntent none n = n ≤ 1
IsSafeIntent (some none) n = n ≤ 1
IsSafeIntent (some (some v)) n =
    (n ≤ 1) × (is_unsent v.status ≡ true → n ≡ 0) × (is_update v.operation ≡ false)

pub count_le : (did : Bool) → count did ≤ 1
count_le true = omega arith
count_le false = omega arith

pub gone : {A : Type 0} (path : String) (d : Dict String A) → lookup path (erase path d) ≡ none
gone path d = ground (arith, lookup-erase path path d, beq_refl path)

pub there :
    {A : Type 0} (path : String) (x : A) (d : Dict String A)
    → lookup path (insert path x d) ≡ some x
there path x d = ground (arith, lookup-insert path path x d, beq_refl path)

module _ (mentions : String → String → Bool) where
  all_weaken :
      (test weak : Request → Bool) (qs : List Request)
      → ((q : Request) → test q ≡ true → weak q ≡ true)
      → all test qs ≡ true
      → all weak qs ≡ true
  all_weaken test weak [] h a = refl
  all_weaken test weak (q ∷ qs) h a =
      let one : weak q ≡ true = h q (ground arith) in
      let rest : all weak qs ≡ true = all_weaken test weak qs h (ground arith) in ground arith

  all_of-weaken :
      (test weak : Request → Bool) (qs : List Request)
      → ((q : Request) → test q ≡ true → weak q ≡ true)
      → all_of test qs ≡ true
      → all_of weak qs ≡ true
  unfolding all_of
  all_of-weaken test weak qs h a =
      let rest : all weak qs ≡ true = all_weaken test weak qs h (ground arith) in ground arith

  writes_speak : (r : Reply) → all_of is_throttled (writes r) ≡ true → rejected_records r ≡ writes r
  unfolding rejected_records all_of
  writes_speak r h = ground arith

  -- What the code takes for definitive, an honest reply is.
  definitive_honest :
      (r : Reply) (did : Bool) → IsHonest r did → is_definitive mentions r ≡ true → did ≡ false
  unfolding is_definitive auth_rejected
  definitive_honest r did h d = elim (Bool-cases r.before_request) [
    | inl early ↦ h.unrequested early
    | inr sent ↦ elim (Bool-cases (all_of is_unauthorized (rejected_records r))) [
      | inl auth ↦
          h.refused (
            all_of-weaken is_unauthorized is_refused (rejected_records r) (λ q e. ground arith)
              auth)
      | inr known ↦ elim (Bool-cases (rejected_logically r)) [
        | inl logical ↦ h.logical logical
        | inr plain ↦ elim (Bool-cases (r.content_throttle && r.retry_safe)) [
          | inl throttled ↦ h.throttled throttled
          | inr free ↦
              let limited : all_of is_throttled (writes r) ≡ true = ground arith in
              h.refused (
                ap (λ x. all_of is_refused x) (writes_speak r limited)
                ∙ all_of-weaken is_throttled is_refused (writes r) (λ q e. ground arith) limited)
        ]
      ]
    ]
  ]

  abbrev pub IsSafeDisposal : Disposal → Bool → Type 0
  IsSafeDisposal removed did = Unit
  IsSafeDisposal (archived reason) did = Unit
  IsSafeDisposal (kept v) did =
      (is_unsent v.status ≡ true → did ≡ false) × (is_update v.operation ≡ false)

  deferred_safe :
      (now : ℕ) (v : Intent) (r : Reply) (did : Bool)
      → IsHonest r did
      → is_update v.operation ≡ false
      → IsSafeDisposal (kept (deferred mentions now v r)) did
  unfolding deferred
  deferred_safe now v r did honest u = (λ h. definitive_honest r did honest (ground arith), u)

  pub finish_safe :
      (now : ℕ) (v : Intent) (r : Reply) (did : Bool)
      → IsHonest r did
      → is_update v.operation ≡ false
      → IsSafeDisposal (finish mentions now v r) did
  unfolding finish
  finish_safe now v r did honest u = elim (Bool-cases r.success) [
    | inl good ↦ elim (Bool-cases (is_fork v.operation)) [
      | inl f ↦ rw (good, f) (λ h. absurd (cc), u)
      | inr f ↦ rw (good, f) tt
    ]
    | inr bad ↦ elim (Bool-cases (is_terminal mentions r && not (quota mentions r))) [
      | inl final ↦ rw (bad, final) tt
      | inr open' ↦
          elim (Bool-cases (
            (all_of is_refused (rejected_records r) && not (quota mentions r))
            && not (auth_rejected mentions r))) [
              | inl final ↦ rw (bad, open', final) tt
              | inr pending ↦ rw (bad, open', pending) (deferred_safe now v r did honest u)
            ]
    ]
  ]

  -- The intent after its disposal.
  pub disposed :
      (path : String) (v : Intent) (d : Disposal) (did : Bool) (box : Outbox)
      → IsSafeDisposal d did
      → IsSafeIntent (lookup path (dispose path v d box).intents) (count did)
  unfolding dispose archive write remove
  disposed path v removed did box safe = rw (gone path box.intents) (count_le did)
  disposed path v (archived reason) did box safe = rw (gone path box.intents) (count_le did)
  disposed path v (kept v') did box safe =
      rw (there path (some v') box.intents) (count_le did, λ h. ap count (safe.0 h), safe.1)
