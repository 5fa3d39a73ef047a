-- ===== src/Grants/Policy.antt =====
-- tauceti_worker/repair_recovery.py: `policy`, whether a checkpoint may still be published.
use tau_ceti_worker.Review.Board.{is_empty}
use tau_ceti_worker.Prelude.{
  ◌∙◌, nat_eq, eq_iff, ◌||◌, ◌&&◌, sym, string_eq, contains, arith, ◌==◌, ap, any, Option-cases,
  not, if◌then◌else◌, List, none, some, true, false, ◌≡◌, ℕ, String, Option, Bool, inl, inr, [],
  ◌∷◌,
}

-- What GitHub says of the PR now.
pub record PrFacts : Type 0 where
  pub state : String
  pub draft : Bool
  pub labels : List String
  pub base : String
  pub author : String
  pub repository : String
  pub ref : String
  pub targets : List String

-- What the round that saved the checkpoint was authorized to do.
pub record Authorization : Type 0 where
  pub actor : String
  pub author : Option String
  pub repository : Option String
  pub ref : Option String
  pub sandbox_host : Bool
  pub foreign : Bool
  pub automatic_bump : Bool
  pub roadmap : String

pub record Checkpoint : Type 0 where
  pub operations : Bool
  pub authorization : Option Authorization
  pub work : String
  pub pr : ℕ

-- The options and settings of the present round.
pub record Round : Type 0 where
  pub sandbox_host : Bool
  pub only : List String
  pub prs : List ℕ
  pub roadmap_only : String
  pub roadmap_skip : List String
  pub base_branch : String

pub data Ruling : Type 0 where
  permitted : Ruling
  obsolete blocked waiting : String → Ruling

abbrev pub holds : List String
holds = "keep" ∷ "hold" ∷ "wip" ∷ "human" ∷ "on-hold" ∷ "do-not-close" ∷ []

abbrev pub or_any : String → String
or_any s = if s == "" then "any" else s

abbrev pub differs : String → Option String → Bool
differs s none = true
differs s (some t) = not (s == t)

abbrev pub is_confirmed : Option Bool → Bool
is_confirmed none = false
is_confirmed (some b) = b

-- Python's `str.lower`, the identity that GitHub's session has, its answer on push permission, and
-- the library's test of a roadmap scope (labels, targets, ref, area, skipped areas).
module _ (lower : String → String) (me : String) (can_push : String → Option Bool)
    (in_scope : List String → List String → String → String → List String → Bool) where
  -- The part that may only wait.
  unfoldable pub selected : Round → Checkpoint → PrFacts → Ruling
  selected round m facts =
      if not (
        in_scope facts.labels facts.targets facts.ref (or_any round.roadmap_only)
          round.roadmap_skip)
      then waiting "roadmap-policy"
      else if not (is_empty round.only) && not (contains m.work round.only)
      then waiting "work-policy"
      else if not (is_empty round.prs) && not (contains m.pr round.prs)
      then waiting "pr-policy"
      else permitted

  -- The checks against the original authorization.
  unfoldable pub authorized : Round → Checkpoint → PrFacts → Authorization → Ruling
  unfolding selected
  authorized round m facts auth =
      if not (lower auth.actor == lower me)
      then blocked "original-authorization-missing"
      else if differs facts.author auth.author
          || (differs facts.repository auth.repository || differs facts.ref auth.ref)
      then blocked "ownership-changed"
      else if not auth.sandbox_host || not round.sandbox_host
      then blocked "recovery-sandbox-required"
      else if auth.foreign
      then blocked "foreign-scope"
      else if not (lower facts.author == lower me) && not auth.automatic_bump
      then blocked "ownership-policy"
      else if not (is_confirmed (can_push facts.repository))
      then blocked "push-permission"
      else if not (in_scope facts.labels facts.targets facts.ref (or_any auth.roadmap) [])
      then blocked "original-roadmap-policy"
      else selected round m facts

  unfoldable pub with_authorization : Round → Checkpoint → PrFacts → Option Authorization → Ruling
  unfolding authorized
  with_authorization round m facts none = blocked "original-authorization-missing"
  with_authorization round m facts (some auth) = authorized round m facts auth

  -- `policy`: the exception that it raises, or that it raises none.
  unfoldable pub policy : Round → Checkpoint → PrFacts → Ruling
  unfolding with_authorization
  policy round m facts =
      if not (facts.state == "OPEN")
      then obsolete "pr-closed"
      else if facts.draft || any (λ label. contains (lower label) holds) facts.labels
      then blocked "pr-held"
      else if not (facts.base == round.base_branch)
      then blocked "base-policy"
      else if m.operations
      then blocked "incomplete-git-operation"
      else with_authorization round m facts m.authorization

  -- Everything that the original authorization asks for.
  pub record IsAuthorized (round : Round) (m : Checkpoint) (facts : PrFacts) : Type 0 where
    pub auth : Authorization
    pub opened : facts.state ≡ "OPEN"
    pub ready : facts.draft ≡ false
    pub unheld : any (λ label. contains (lower label) holds) facts.labels ≡ false
    pub based : facts.base ≡ round.base_branch
    pub finished : m.operations ≡ false
    pub known : m.authorization ≡ some auth
    pub same_actor : lower auth.actor ≡ lower me
    pub mine : (lower facts.author == lower me || auth.automatic_bump) ≡ true
    pub same_author : auth.author ≡ some facts.author
    pub same_repository : auth.repository ≡ some facts.repository
    pub same_ref : auth.ref ≡ some facts.ref
    pub authorized_sandbox : auth.sandbox_host ≡ true
    pub sandboxed : round.sandbox_host ≡ true
    pub own : auth.foreign ≡ false
    pub pushable : can_push facts.repository ≡ some true
    pub scoped : in_scope facts.labels facts.targets facts.ref (or_any auth.roadmap) [] ≡ true

  abbrev not_refused : Ruling → Bool
  not_refused permitted = true
  not_refused (obsolete why) = false
  not_refused (blocked why) = false
  not_refused (waiting why) = true

  text_same : (s : String) (o : Option String) → differs s o ≡ false → o ≡ some s
  text_same s none h = absurd (cc)
  text_same s (some t) h = ap (λ x. some x) (sym ((eq_iff s t).0 (ground arith)))

  confirmed_true : (o : Option Bool) → is_confirmed o ≡ true → o ≡ some true
  confirmed_true none h = absurd (cc)
  confirmed_true (some b) h = ap (λ x. some x) h

  passed_target :
      (round : Round) (m : Checkpoint) (facts : PrFacts)
      → not_refused (policy round m facts) ≡ true
      → ((facts.state == "OPEN") ≡ true)
        × (facts.draft ≡ false)
        × (any (λ label. contains (lower label) holds) facts.labels ≡ false)
        × ((facts.base == round.base_branch) ≡ true)
        × (m.operations ≡ false)
        × (not_refused (with_authorization round m facts m.authorization) ≡ true)
  unfolding policy
  passed_target round m facts h = ground arith

  passed_owner :
      (round : Round) (m : Checkpoint) (facts : PrFacts) (auth : Authorization)
      → not_refused (authorized round m facts auth) ≡ true
      → ((lower auth.actor == lower me) ≡ true)
        × ((lower facts.author == lower me || auth.automatic_bump) ≡ true)
        × (differs facts.author auth.author ≡ false)
        × (differs facts.repository auth.repository ≡ false)
        × (differs facts.ref auth.ref ≡ false)
        × (auth.sandbox_host ≡ true)
        × (round.sandbox_host ≡ true)
        × (auth.foreign ≡ false)
        × (is_confirmed (can_push facts.repository) ≡ true)
        × (in_scope facts.labels facts.targets facts.ref (or_any auth.roadmap) [] ≡ true)
  unfolding authorized
  passed_owner round m facts auth h = ground arith

  -- A checkpoint is permitted, or only waits for the present round's selection, only if the
  -- PR is open, ready, unheld and on the base branch, no Git operation was unfinished, and the
  -- original authorization covers it: the same actor, author and destination, a PR of the actor's
  -- own or an automatic bump, a sandbox in the original round and in the present one, no foreign
  -- fork, push permission and its roadmap.
  pub policy-IsAuthorized :
      (round : Round) (m : Checkpoint) (facts : PrFacts)
      → not_refused (policy round m facts) ≡ true
      → IsAuthorized round m facts
  unfolding with_authorization
  policy-IsAuthorized round m facts h =
      let (opened, ready, unheld, based, finished, rest) = passed_target round m facts h in
      elim (Option-cases m.authorization) [
        | inl missing ↦ absurd (ground arith)
        | inr (auth, known) ↦
            let (
              actor, mine, same_author, same_repository, same_ref, authorized_sandbox, sandboxed,
              own, pushable, scoped,
            ) =
              passed_owner round m facts auth
                (ap (λ x. not_refused (with_authorization round m facts x)) (sym known) ∙ rest) in
            record {
              auth = auth;
              opened = (eq_iff facts.state "OPEN").0 opened;
              ready = ready;
              unheld = unheld;
              based = (eq_iff facts.base round.base_branch).0 based;
              finished = finished;
              known = known;
              same_actor = (eq_iff (lower auth.actor) (lower me)).0 actor;
              mine = mine;
              same_author = text_same facts.author auth.author same_author;
              same_repository = text_same facts.repository auth.repository same_repository;
              same_ref = text_same facts.ref auth.ref same_ref;
              authorized_sandbox = authorized_sandbox;
              sandboxed = sandboxed;
              own = own;
              pushable = confirmed_true (can_push facts.repository) pushable;
              scoped = scoped;
            }
      ]
