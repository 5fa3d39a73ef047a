-- ===== src/Grants/Route.antt =====
-- tauceti_worker/repair_route.py: `authorize`. The setting is taken as parsed; what GitHub answers is
-- `none` where a call fails, or where the answer has another shape.
use tau_ceti_worker.Prelude.{
  ◌∙◌, nat_eq, leb, ◌||◌, ◌&&◌, string_eq, eq_iff, contains, arith, ◌==◌, not, if◌then◌else◌, ap,
  any, Option-cases, List, none, some, true, false, ◌≡◌, ℕ, String, Option, Bool, inl, inr, [], ◌∷◌,
}
use Prim.Native.String.{◌++◌}

-- `Target`; a base of `none` is "current-at-launch".
pub record Target : Type 0 where
  pub pr : ℕ
  pub head : String
  pub evidence_base : String
  pub base : Option String

-- The pull request, with its labels in lower case.
pub record Pull : Type 0 where
  pub state : String
  pub draft : Option Bool
  pub maintainer_can_modify : Option Bool
  pub login : String
  pub account_type : String
  pub head_sha : String
  pub head_ref : String
  pub head_repository : String
  pub head_fork : Option Bool
  pub base_ref : String
  pub base_repository : String
  pub labels : List String

-- A comment: `heads` is what the library's `rebase_heads` reads in it.
pub record Comment : Type 0 where
  pub author : String
  pub heads : List String
  pub length : ℕ
  pub lines : List String

-- `compare` is the status of a comparison of two revisions; an answer that is no name of a revision
-- is `none` in `main`.
pub record Answers : Type 0 where
  pub repository : String
  pub pull : Option Pull
  pub permission : Option String
  pub main : Option String
  pub compare : String → String → Option String
  pub comments : Option (List Comment)

abbrev pub tauceti : String
tauceti = "TauCetiProject/TauCeti"

abbrev pub author : String
author = "tauceti-ai-for-science"

abbrev pub fork : String
fork = "tauceti-ai-for-science/TauCeti"

abbrev pub pauses : List String
pauses = "keep" ∷ "hold" ∷ "wip" ∷ "human" ∷ "on-hold" ∷ "do-not-close" ∷ []

abbrev pub is_true : Option Bool → Bool
is_true none = false
is_true (some b) = b

abbrev pub is_false : Option Bool → Bool
is_false none = false
is_false (some b) = not b

abbrev pub is_text : String → Option String → Bool
is_text t none = false
is_text t (some s) = s == t

-- The pull request is open for the repair.
unfoldable pub is_repairable : Pull → String → String → Bool
is_repairable live head refname =
    (((live.state == "open" && is_false live.draft)
        && (is_true live.maintainer_can_modify && live.login == author))
      && ((live.account_type == "User" && live.head_sha == head)
          && (live.head_ref == refname && live.head_repository == fork)))
    && (((is_true live.head_fork && live.base_ref == "main") && live.base_repository == tauceti)
        && (contains "needs-rebase" live.labels
            && not (any (λ label. contains label pauses) live.labels)))

abbrev pub is_scoped : Target → Answers → ℕ → String → String → Bool
is_scoped scope gh pr head head_repository =
    ((scope.pr == pr && scope.head == head) && gh.repository == tauceti) && head_repository == fork

abbrev pub base_allows : Option String → String → Bool
base_allows none integration = true
base_allows (some base) integration = integration == base

-- The tested main is the integration main, or an ancestor of it.
abbrev pub is_descended : Option String → Bool
is_descended none = false
is_descended (some status) = status == "ahead" || status == "identical"

abbrev pub evidence_line : Target → String
evidence_line scope =
    "Tested main: `" ++ (scope.evidence_base ++ "`. Checker policy: `local-source-v3`.")

unfoldable pub is_evidence : Target → String → Comment → Bool
is_evidence scope head c =
    (c.author == "tau-ceti-bors[bot]" && contains head c.heads)
    && (leb c.length 32768 && contains (evidence_line scope) c.lines)

abbrev pub listed_comments : Option (List Comment) → List Comment
listed_comments none = []
listed_comments (some cs) = cs

unfoldable pub integrate : Target → Answers → String → Option String → Option String
unfolding is_evidence
integrate scope gh head none = none
integrate scope gh head (some integration) =
    if not (base_allows scope.base integration)
    then none
    else if not (scope.evidence_base == integration)
        && not (is_descended (gh.compare scope.evidence_base integration))
    then none
    else if any (is_evidence scope head) (listed_comments gh.comments)
    then some integration
    else none

unfoldable pub with_pull : Target → Answers → String → String → Option Pull → Option String
unfolding integrate is_repairable
with_pull scope gh head refname none = none
with_pull scope gh head refname (some live) =
    if not (is_repairable live head refname)
    then none
    else if not (is_text "true" gh.permission)
    then none
    else integrate scope gh head gh.main

-- `authorize`; `none` is its refusal, the empty text.
unfoldable pub authorize : Option Target → Answers → ℕ → String → String → String → Option String
unfolding with_pull
authorize none gh pr head refname head_repository = none
authorize (some scope) gh pr head refname head_repository =
    if not (is_scoped scope gh pr head head_repository)
    then none
    else with_pull scope gh head refname gh.pull

-- `reselect_before_launch`
unfoldable pub reselect_before_launch : Option Target → Bool
reselect_before_launch none = false
reselect_before_launch (some scope) = elim scope.base [ none ↦ true | some base ↦ false ]

-- What an authorization rests on.
pub record IsGranted (scope : Target) (gh : Answers) (pr : ℕ) (head refname : String)
    (head_repository main : String) : Type 0 where
  pub live : Pull
  pub same_pr : scope.pr ≡ pr
  pub same_head : scope.head ≡ head
  pub same_fork : head_repository ≡ fork
  pub read : gh.pull ≡ some live
  pub unmoved : live.head_sha ≡ head
  pub unpaused : any (λ label. contains label pauses) live.labels ≡ false
  pub permitted : gh.permission ≡ some "true"
  pub current : gh.main ≡ some main
  pub pinned : base_allows scope.base main ≡ true
  pub evidence : any (is_evidence scope head) (listed_comments gh.comments) ≡ true

text_known : (t : String) (o : Option String) → is_text t o ≡ true → o ≡ some t
text_known t none h = absurd (cc)
text_known t (some s) h = ap (λ x. some x) ((eq_iff s t).0 h)

-- A repair is authorized only for the pull request and head that the operator named, on the one
-- fork, while its live head is unmoved and no label pauses it, with push permission; and the revision
-- returned is the current main, which is the pinned one if one is pinned, and the tested main's
-- evidence is among the comments.
pub authorize-IsGranted :
    (scope : Target) (gh : Answers) (pr : ℕ) (head refname head_repository main : String)
    → authorize (some scope) gh pr head refname head_repository ≡ some main
    → IsGranted scope gh pr head refname head_repository main
unfolding authorize with_pull integrate is_repairable
authorize-IsGranted scope gh pr head refname head_repository main h = elim (Option-cases gh.pull) [
  | inl missing ↦ absurd (ground arith)
  | inr (live, read) ↦ elim (Option-cases gh.main) [
    | inl missing ↦ absurd (ground arith)
    | inr (integration, current) ↦
        let same : integration ≡ main = ground arith in
        let permission : is_text "true" gh.permission ≡ true = ground arith in
        record {
          live = live;
          same_pr = ground arith;
          same_head = (eq_iff scope.head head).0 (ground arith);
          same_fork = (eq_iff head_repository fork).0 (ground arith);
          read = read;
          unmoved = (eq_iff live.head_sha head).0 (ground arith);
          unpaused = ground arith;
          permitted = text_known "true" gh.permission permission;
          current = current ∙ ap (λ x. some x) same;
          pinned = ground arith;
          evidence = ground arith;
        }
  ]
]
