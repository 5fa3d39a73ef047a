-- ===== src/Outbox/Alike.antt =====
-- What reconciling an intent leaves alone.
use tau_ceti_worker.Outbox.Reconcile.{reconcile_as}
use tau_ceti_worker.Outbox.Forks.{is_identified, reconcile_fork, observe_fork}
use tau_ceti_worker.Prelude.{
  Bool, arith, Bool-cases, ℕ, none, some, Option, String, ◌≡◌, inl, inr, refl,
}
use tau_ceti_worker.Outbox.Evidence.{Evidence, ForkEvidence}
use tau_ceti_worker.Outbox.State.{
  Operation, Intent, fork, close, update, issue, local, other, resolve, create, comment,
}

-- The status and the operation stay.
abbrev pub Like : Intent → Intent → Type 0
Like v' v = (v'.status ≡ v.status) × (v'.operation ≡ v.operation)

observe_fork-Like :
    (now : ℕ) (e : ForkEvidence) (o : Option String) (v : Intent)
    → Like (observe_fork now e o v).1 v
unfolding observe_fork
observe_fork-Like now e (some found) v = (refl, refl)
observe_fork-Like now e none v = ground arith

reconcile_fork-Like :
    (now : ℕ) (account : Option String) (up : String) (o : Option ForkEvidence) (v : Intent)
    → Like (reconcile_fork now account up o v).1 v
unfolding reconcile_fork
reconcile_fork-Like now account up none v = (refl, refl)
reconcile_fork-Like now account up (some e) v = elim (Bool-cases (is_identified account up e v)) [
  | inl known ↦ rw known (observe_fork-Like now e e.fork _)
  | inr foreign ↦ rw foreign (refl, refl)
]

module _ (is_sha : String → Bool) (plain : String → String) where
  pub reconcile_as-Like :
      (op : Operation) (now : ℕ) (e : Evidence) (v : Intent)
      → Like (reconcile_as is_sha plain op now e v).1 v
  unfolding reconcile_as
  reconcile_as-Like (fork none) now e v = (refl, refl)
  reconcile_as-Like (fork (some up)) now e v = reconcile_fork-Like now e.account up e.fork v
  reconcile_as-Like close now e v = ground arith
  reconcile_as-Like (resolve id) now e v = (refl, refl)
  reconcile_as-Like (create none) now e v = (refl, refl)
  reconcile_as-Like (create (some who)) now e v = (refl, refl)
  reconcile_as-Like update now e v = (refl, refl)
  reconcile_as-Like issue now e v = (refl, refl)
  reconcile_as-Like (comment reply) now e v = (refl, refl)
  reconcile_as-Like local now e v = (refl, refl)
  reconcile_as-Like other now e v = (refl, refl)
