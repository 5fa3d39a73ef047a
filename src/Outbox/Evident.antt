-- ===== src/Outbox/Evident.antt =====
-- No publication disappears without a trace, and a pass keeps the order of each target.
use tau_ceti_worker.Outbox.Reconcile.{reconcile}
use tau_ceti_worker.Outbox.Once.{there}
use tau_ceti_worker.Outbox.Drain.{
  needs_reconciling, is_blocked, turn_at, send, launch, turn_on, send_from, put_off, judged,
  drain_one, close_turn, Turn, Pass, replied,
}
use tau_ceti_worker.Prelude.{
  sym, subst, ltb, Bool-cases, string_eq, lookup, arith, ℕ, none, some, true, Option, Bool, String,
  ◌≡◌, inl, inr, refl,
}
use tau_ceti_worker.Outbox.Evidence.{Verdict, applied, absent, obsolete, unavailable, unknown}
use tau_ceti_worker.Outbox.State.{
  is_local, is_resolution, Outbox, write, Reply, Intent, archive, ambiguous,
}
use tau_ceti_worker.Outbox.Classify.{dispose, Disposal, finish, removed, archived, kept}

-- Why an intent may be gone from the files of a pass.
pub data Accounted (path : String) (verdict : Verdict) (reply : Option Reply) (p : Pass)
    : Type 0 where
  remains :
      (v : Intent) → lookup path p.box.intents ≡ some (some v) → Accounted path verdict reply p
  fails : (w : Intent × String) → lookup path p.box.failed ≡ some w → Accounted path verdict reply p
  shown_applied : verdict ≡ applied → Accounted path verdict reply p
  succeeded : (r : Reply) → reply ≡ some r → r.success ≡ true → Accounted path verdict reply p

module _ (mentions : String → String → Bool) (is_sha : String → Bool)
    (plain : String → String) where
  removed_success :
      (now : ℕ) (v : Intent) (r : Reply) → finish mentions now v r ≡ removed → r.success ≡ true
  unfolding finish
  removed_success now v r h = ground arith

  archived_box :
      (path : String) (v : Intent) (reason : String) (box : Outbox)
      → lookup path (archive path v reason box).failed ≡ some (v, reason)
  unfolding archive
  archived_box path v reason box = there path (v, reason) box.failed

  replied-Accounted :
      (t : Turn) (path : String) (verdict : Verdict) (v : Intent) (o : Option Reply) (p : Pass)
      → Accounted path verdict o (replied mentions is_sha plain t path v o p)
  unfolding replied write
  replied-Accounted t path verdict v none p =
      remains (record v { status = ambiguous }) (there path _ p.box.intents)
  replied-Accounted t path verdict v (some r) p = settled (finish mentions t.now v r) refl
    where
      settled :
          (d : Disposal)
          → finish mentions t.now v r ≡ d
          → Accounted path verdict
              (some r)
              (close_turn path v d (record p { box = dispose path v d p.box }))
      settled removed e = succeeded r refl (removed_success t.now v r e)
      settled (archived reason) e = fails (v, reason) (archived_box path v reason p.box)
      settled (kept v') e = elim (Bool-cases (is_resolution v.operation)) [
        | inl optional ↦ rw optional (remains v' (there path (some v') p.box.intents))
        | inr needed ↦ rw needed (remains v' (there path (some v') p.box.intents))
      ]

  -- The part after the tests of a turn, for an intent that the reads judge.
  send_from-Accounted :
      (t : Turn) (path : String) (verdict : Verdict) (v x : Intent) (o : Option String) (p : Pass)
      → lookup path p.box.intents ≡ some (some x)
      → Accounted path verdict t.reply (send_from mentions is_sha plain t path v o p)
  unfolding send_from launch
  send_from-Accounted t path verdict v x none p here = remains x here
  send_from-Accounted t path verdict v x (some cwd) p here = elim (Bool-cases (t.is_dir cwd)) [
    | inl present ↦ rw present (replied-Accounted t path verdict _ t.reply _)
    | inr lost ↦ rw lost (fails _ (archived_box path v _ p.box))
  ]

  put_off-Accounted :
      (now : ℕ) (path : String) (verdict : Verdict) (reply : Option Reply) (v x : Intent) (p : Pass)
      → lookup path p.box.intents ≡ some (some x)
      → Accounted path verdict reply (put_off now path v p)
  unfolding put_off write
  put_off-Accounted now path verdict reply v x p here =
      elim (Bool-cases (is_resolution v.operation)) [
        | inl optional ↦ rw optional (remains x here)
        | inr needed ↦ rw needed (remains _ (there path _ p.box.intents))
      ]

  judged-Accounted :
      (t : Turn) (path : String) (verdict : Verdict) (v x : Intent) (p : Pass)
      → lookup path p.box.intents ≡ some (some x)
      → Accounted path verdict t.reply (judged mentions is_sha plain t path (verdict, v) p)
  unfolding judged send
  judged-Accounted t path applied v x p here = shown_applied refl
  judged-Accounted t path obsolete v x p here = fails _ (archived_box path v _ p.box)
  judged-Accounted t path unavailable v x p here = fails _ (archived_box path v _ p.box)
  judged-Accounted t path absent v x p here = send_from-Accounted t path absent _ x v.cwd p here
  judged-Accounted t path unknown v x p here =
      put_off-Accounted t.now path unknown t.reply v x p here

  turn_on-Accounted :
      (t : Turn) (path : String) (v : Intent) (p : Pass)
      → lookup path p.box.intents ≡ some (some v)
      → Accounted path
          (reconcile is_sha plain t.now t.evidence v).0
          t.reply
          (turn_on mentions is_sha plain t path v p)
  unfolding turn_on send
  turn_on-Accounted t path v p here = elim (Bool-cases (ltb t.now v.retry_at)) [
    | inl early ↦ rw early (remains v here)
    | inr timely ↦ elim (Bool-cases (is_blocked p.blocked v.destination)) [
      | inl waits ↦ rw (timely, waits) (remains v here)
      | inr free ↦ elim (Bool-cases (is_local v.operation)) [
        | inl inside ↦ rw (timely, free, inside) (fails _ (archived_box path v _ p.box))
        | inr away ↦ elim (Bool-cases (needs_reconciling mentions is_sha plain v)) [
          | inl asks ↦
              let found = reconcile is_sha plain t.now t.evidence v in
              rw (timely, free, away, asks) (judged-Accounted t path found.0 found.1 v p here)
          | inr direct ↦
              rw (timely, free, away, direct) (send_from-Accounted t path _ _ v v.cwd p here)
        ]
      ]
    ]
  ]

  -- After a turn on an intent, the intent is still there, or among the failed ones, or the reads
  -- showed that it took effect, or its command reported success: nothing is dropped silently.
  pub drain_one-Accounted :
      (t : Turn) (path : String) (v : Intent) (p : Pass)
      → lookup path p.box.intents ≡ some (some v)
      → Accounted path
          (reconcile is_sha plain t.now t.evidence v).0
          t.reply
          (drain_one mentions is_sha plain t path p)
  unfolding drain_one turn_at
  drain_one-Accounted t path v p here =
      subst
        (λ o.
          Accounted path (reconcile is_sha plain t.now t.evidence v).0 t.reply
            (turn_at mentions is_sha plain t path o p))
        (sym here) (turn_on-Accounted t path v p here)
