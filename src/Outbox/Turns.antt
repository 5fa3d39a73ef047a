-- ===== src/Outbox/Turns.antt =====
-- One turn of `drain` keeps a publication safe.
use tau_ceti_worker.Outbox.Alike.{reconcile_as-Like}
use tau_ceti_worker.Outbox.Server.{shown, Shows, IsHonest}
use tau_ceti_worker.Outbox.Once.{finish_safe, disposed, count_le, there, gone, count, IsSafeIntent}
use tau_ceti_worker.Outbox.Reconcile.{reconcile, reconcile_as}
use tau_ceti_worker.Outbox.Drain.{
  needs_reconciling, is_blocked, turn_on, turn_at, complete_intent, put_off, launch, judged,
  drain_one, close_turn, Turn, send_from, send, replied, Pass,
}
use tau_ceti_worker.Prelude.{
  ◌∙◌, ap, ltb→lt, insert, ltb, if◌then◌else◌, ◌<◌, sym, subst, string_eq, ◌+◌, lookup, arith,
  Bool-cases, ℕ, none, some, false, Option, Bool, ◌∷◌, String, ◌≡◌, inl, inr, refl,
}
use tau_ceti_worker.Outbox.Evidence.{Verdict, applied, absent, obsolete, unavailable, unknown}
use tau_ceti_worker.Outbox.State.{
  is_unsent, is_local, is_fork, remove, is_resolution, is_update, archive, write, Reply, Intent,
  sending, ambiguous,
}
use tau_ceti_worker.Outbox.Classify.{dispose, finish, Disposal, removed, archived, kept}

-- What the environment does in a turn: whether the command took effect, if it was run.
abbrev pub AnswersHonestly : Option Reply → Bool → Type 0
AnswersHonestly none did = Unit
AnswersHonestly (some r) did = IsHonest r did

-- The turn ran no command and left the publication safe, or ran it and left it safe with its effect.
pub data Turned (path : String) (did : Bool) (n : ℕ) (p p' : Pass) : Type 0 where
  idle :
      p'.executed ≡ p.executed
      → IsSafeIntent (lookup path p'.box.intents) n
      → Turned path did n p p'
  ran :
      p'.executed ≡ path ∷ p.executed
      → IsSafeIntent (lookup path p'.box.intents) (n + count did)
      → Turned path did n p p'

pub zero_plus : (did : Bool) → count did ≡ 0 + count did
zero_plus did = omega arith

module _ (mentions : String → String → Bool) (is_sha : String → Bool)
    (plain : String → String) where
  close_turn_same :
      (path : String) (v : Intent) (d : Disposal) (p : Pass)
      → ((close_turn path v d p).executed ≡ p.executed) × ((close_turn path v d p).box ≡ p.box)
  close_turn_same path v removed p = (refl, refl)
  close_turn_same path v (archived reason) p = (refl, refl)
  close_turn_same path v (kept v') p = ground arith

  replied_safe :
      (t : Turn) (path : String) (v : Intent) (did : Bool) (o : Option Reply) (p : Pass)
      → AnswersHonestly o did
      → is_update v.operation ≡ false
      → ((replied mentions is_sha plain t path v o p).executed ≡ p.executed)
        × IsSafeIntent
            (lookup path (replied mentions is_sha plain t path v o p).box.intents)
            (count did)
  unfolding replied write
  replied_safe t path v did none p honest u = (
    refl,
    rw (there path (some (record v { status = ambiguous })) p.box.intents)
        (count_le did, λ h. absurd (cc), u),
  )
  replied_safe t path v did (some r) p honest u =
      let d = finish mentions t.now v r in
      let same = close_turn_same path v d (record p { box = dispose path v d p.box }) in
      (
        same.0,
        subst (λ x. IsSafeIntent (lookup path x.intents) (count did)) (sym same.1)
            (disposed mentions path v d did p.box (finish_safe mentions t.now v r did honest u)),
      )

  launch_safe :
      (t : Turn) (path : String) (v : Intent) (did : Bool) (p : Pass)
      → AnswersHonestly t.reply did
      → is_update v.operation ≡ false
      → Turned path did 0 p (launch mentions is_sha plain t path v p)
  unfolding launch
  launch_safe t path v did p honest u =
      let w = record v { status = sending } in
      let start : Pass = record p { box = write path w p.box; executed = path ∷ p.executed } in
      let (same, safe) = replied_safe t path w did t.reply start honest u in
      ran same (
        subst
          (λ x.
            IsSafeIntent
              (lookup path (replied mentions is_sha plain t path w t.reply start).box.intents) x)
          (zero_plus did) safe)

  send_from_safe :
      (t : Turn) (path : String) (v : Intent) (did : Bool) (o : Option String) (p : Pass)
      → AnswersHonestly t.reply did
      → is_update v.operation ≡ false
      → IsSafeIntent (lookup path p.box.intents) 0
      → Turned path did 0 p (send_from mentions is_sha plain t path v o p)
  unfolding send_from archive
  send_from_safe t path v did none p honest u safe = idle refl safe
  send_from_safe t path v did (some cwd) p honest u safe = elim (Bool-cases (t.is_dir cwd)) [
    | inl present ↦ rw present (launch_safe t path v did p honest u)
    | inr lost ↦ rw lost (idle refl (rw (gone path p.box.intents) (omega arith)))
  ]

  send_safe :
      (t : Turn) (path : String) (v : Intent) (did : Bool) (p : Pass)
      → AnswersHonestly t.reply did
      → is_update v.operation ≡ false
      → IsSafeIntent (lookup path p.box.intents) 0
      → Turned path did 0 p (send mentions is_sha plain t path v p)
  unfolding send
  send_safe t path v did p honest u safe =
      send_from_safe t path _ did v.cwd p honest (ground arith) safe

  put_off_safe :
      (now : ℕ) (path : String) (v : Intent) (did : Bool) (n : ℕ) (p : Pass)
      → IsSafeIntent (some (some v)) n
      → IsSafeIntent (lookup path p.box.intents) n
      → Turned path did n p (put_off now path v p)
  unfolding put_off write
  put_off_safe now path v did n p own safe = elim (Bool-cases (is_resolution v.operation)) [
    | inl optional ↦ rw optional (idle refl safe)
    | inr needed ↦ rw needed (idle refl (rw (there path _ p.box.intents) own))
  ]

  judged_safe :
      (t : Turn) (path : String) (verdict : Verdict) (v : Intent) (did : Bool) (n : ℕ) (p : Pass)
      → AnswersHonestly t.reply did
      → (verdict ≡ absent → n ≡ 0)
      → IsSafeIntent (some (some v)) n
      → IsSafeIntent (lookup path p.box.intents) n
      → Turned path did n p (judged mentions is_sha plain t path (verdict, v) p)
  unfolding judged complete_intent remove archive
  judged_safe t path applied v did n p honest z own safe = idle refl (
      rw
        (gone path
          (if is_fork v.operation
            then record p.box { complete = insert path v p.box.complete }
            else p.box).intents)
        own.0)
  judged_safe t path obsolete v did n p honest z own safe =
      idle refl (rw (gone path p.box.intents) own.0)
  judged_safe t path unavailable v did n p honest z own safe =
      idle refl (rw (gone path p.box.intents) own.0)
  judged_safe t path absent v did n p honest z own safe =
      let none_yet = z refl in
      subst (λ m. Turned path did m p (send mentions is_sha plain t path v p)) (sym none_yet)
        (send_safe t path v did p honest own.2
          (subst (λ m. IsSafeIntent (lookup path p.box.intents) m) none_yet safe))
  judged_safe t path unknown v did n p honest z own safe =
      put_off_safe t.now path v did n p own safe

  reconciled_safe :
      (t : Turn) (path : String) (v : Intent) (did : Bool) (n : ℕ) (p : Pass)
      → AnswersHonestly t.reply did
      → (0 < n → Shows is_sha plain v.operation v t.evidence)
      → IsSafeIntent (some (some v)) n
      → IsSafeIntent (lookup path p.box.intents) n
      → Turned path did n p
          (judged mentions is_sha plain t path (reconcile is_sha plain t.now t.evidence v) p)
  unfolding reconcile
  reconciled_safe t path v did n p honest shows own safe =
      let r = reconcile_as is_sha plain v.operation t.now t.evidence v in
      let (status, operation) = reconcile_as-Like is_sha plain v.operation t.now t.evidence v in
      judged_safe t path r.0 r.1 did n p honest
        (λ missing. elim (Bool-cases (ltb 0 n)) [
          | inl some_effect ↦ absurd (
              shown is_sha plain v.operation t.now v t.evidence own.2
                (shows (ltb→lt 0 n some_effect)) missing)
          | inr no_effect ↦ ground arith
        ])
        (own.0, λ h. own.1 (ap is_unsent (sym status) ∙ h), ap is_update operation ∙ own.2) safe

  turn_on_safe :
      (t : Turn) (path : String) (v : Intent) (did : Bool) (n : ℕ) (p : Pass)
      → AnswersHonestly t.reply did
      → (0 < n → Shows is_sha plain v.operation v t.evidence)
      → IsSafeIntent (some (some v)) n
      → IsSafeIntent (lookup path p.box.intents) n
      → Turned path did n p (turn_on mentions is_sha plain t path v p)
  unfolding turn_on archive
  turn_on_safe t path v did n p honest shows own safe = elim (Bool-cases (ltb t.now v.retry_at)) [
    | inl early ↦ rw early (idle refl safe)
    | inr timely ↦ elim (Bool-cases (is_blocked p.blocked v.destination)) [
      | inl waits ↦ rw (timely, waits) (idle refl safe)
      | inr free ↦ elim (Bool-cases (is_local v.operation)) [
        | inl here ↦ rw (timely, free, here) (idle refl (rw (gone path p.box.intents) own.0))
        | inr away ↦ elim (Bool-cases (needs_reconciling mentions is_sha plain v)) [
          | inl asks ↦
              rw (timely, free, away, asks) (reconciled_safe t path v did n p honest shows own safe)
          | inr direct ↦
              let none_yet : n ≡ 0 = own.1 (ground arith) in
              rw (timely, free, away, direct)
                (subst (λ m. Turned path did m p (send mentions is_sha plain t path v p))
                  (sym none_yet)
                  (send_safe t path v did p honest own.2
                    (subst (λ m. IsSafeIntent (lookup path p.box.intents) m) none_yet safe)))
        ]
      ]
    ]
  ]

  turn_at_safe :
      (t : Turn) (path : String) (o : Option (Option Intent)) (did : Bool) (n : ℕ) (p : Pass)
      → AnswersHonestly t.reply did
      → lookup path p.box.intents ≡ o
      → ((v : Intent) → o ≡ some (some v) → 0 < n → Shows is_sha plain v.operation v t.evidence)
      → IsSafeIntent o n
      → Turned path did n p (turn_at mentions is_sha plain t path o p)
  unfolding turn_at
  turn_at_safe t path none did n p honest e shows own =
      idle refl (subst (λ o. IsSafeIntent o n) (sym e) own)
  turn_at_safe t path (some none) did n p honest e shows own =
      idle refl (subst (λ o. IsSafeIntent o n) (sym e) own)
  turn_at_safe t path (some (some v)) did n p honest e shows own =
      turn_on_safe t path v did n p honest (shows v refl) own
        (subst (λ o. IsSafeIntent o n) (sym e) own)

  -- One turn keeps a publication safe, if its reply is honest and the reads show it.
  pub drain_one_safe :
      (t : Turn) (path : String) (did : Bool) (n : ℕ) (p : Pass)
      → AnswersHonestly t.reply did
      → ((v : Intent)
          → lookup path p.box.intents ≡ some (some v)
          → 0 < n
          → Shows is_sha plain v.operation v t.evidence)
      → IsSafeIntent (lookup path p.box.intents) n
      → Turned path did n p (drain_one mentions is_sha plain t path p)
  unfolding drain_one
  drain_one_safe t path did n p honest shows safe =
      turn_at_safe t path (lookup path p.box.intents) did n p honest refl shows safe
