-- ===== src/Grants/Examples.antt =====
-- A fleet policy, a repair and a checkpoint that are let through.
use tau_ceti_worker.Grants.Profile.{
  resolve_authoring_profile-pinned, is_retired, fallback_for, validated_profile, repository_default,
  profile_of, resolve_with, command_line, resolve_authoring_profile, Settings, Profile,
}
use tau_ceti_worker.Grants.Route.{
  authorize-IsGranted, IsGranted, is_evidence, integrate, is_repairable, with_pull, authorize,
  Target, Pull, Answers,
}
use tau_ceti_worker.Grants.Policy.{
  policy-IsAuthorized, IsAuthorized, selected, authorized, with_authorization, policy, Round,
  PrFacts, Checkpoint,
}
use tau_ceti_worker.Grants.Fleet.{
  admission_reason-configured, IsListed, admission_reason, FleetPolicy,
}
use tau_ceti_worker.Prelude.{
  string_eq, ◌&&◌, ◌||◌, ◌==◌, lookup, ◌↔◌, List, none, some, true, false, ◌≡◌, refl, String, Bool,
  [], ◌∷◌,
}

abbrev fleet : FleetPolicy
fleet = record {
  version = some 1;
  expires_at = some 20000000;
  workers = some ("w1" ∷ []);
  reason = "";
}

admission_reason-configured_example :
    (admission_reason (some (some fleet)) "w1" 5000000 ≡ none)
    ↔ ((p : FleetPolicy) × (some fleet ≡ some p) × IsListed p "w1" 5000000)
admission_reason-configured_example = admission_reason-configured (some fleet) "w1" 5000000

abbrev scope : Target
scope = record { pr = 9; head = "h"; evidence_base = "m"; base = none }

abbrev pull : Pull
pull = record {
  state = "open";
  draft = some false;
  maintainer_can_modify = some true;
  login = "tauceti-ai-for-science";
  account_type = "User";
  head_sha = "h";
  head_ref = "topic";
  head_repository = "tauceti-ai-for-science/TauCeti";
  head_fork = some true;
  base_ref = "main";
  base_repository = "TauCetiProject/TauCeti";
  labels = "needs-rebase" ∷ [];
}

abbrev answers : Answers
answers = record {
  repository = "TauCetiProject/TauCeti";
  pull = some pull;
  permission = some "true";
  main = some "m";
  compare = λ a b. none;
  comments = some (
      record {
        author = "tau-ceti-bors[bot]";
        heads = "h" ∷ [];
        length = 100;
        lines = "Tested main: `m`. Checker policy: `local-source-v3`." ∷ [];
      }
      ∷ []);
}

authorize-IsGranted_example :
    IsGranted scope answers 9 "h" "topic" "tauceti-ai-for-science/TauCeti" "m"
unfolding authorize with_pull is_repairable integrate is_evidence
authorize-IsGranted_example =
    authorize-IsGranted scope answers 9 "h" "topic" "tauceti-ai-for-science/TauCeti" "m" refl

abbrev everywhere : List String → List String → String → String → List String → Bool
everywhere labels targets ref area skipped = true

abbrev round : Round
round = record {
  sandbox_host = true;
  only = [];
  prs = [];
  roadmap_only = "";
  roadmap_skip = [];
  base_branch = "main";
}

abbrev checkpoint : Checkpoint
checkpoint = record {
  operations = false;
  authorization = some (record {
    actor = "me";
    author = some "me";
    repository = some "me/fork";
    ref = some "topic";
    sandbox_host = true;
    foreign = false;
    automatic_bump = false;
    roadmap = "";
  });
  work = "fix";
  pr = 9;
}

abbrev now_open : PrFacts
now_open = record {
  state = "OPEN";
  draft = false;
  labels = "roadmap" ∷ [];
  base = "main";
  author = "me";
  repository = "me/fork";
  ref = "topic";
  targets = [];
}

policy-IsAuthorized_example :
    IsAuthorized (λ s. s) "me" (λ r. some true) everywhere round checkpoint now_open
unfolding policy with_authorization authorized selected
policy-IsAuthorized_example =
    policy-IsAuthorized (λ s. s) "me" (λ r. some true) everywhere round checkpoint now_open refl

abbrev settings : Settings
settings = record {
  cli_model = "gpt-x";
  cli_effort = "";
  handed_on = "gpt-z";
  env_model = λ p. "gpt-y";
  env_effort = λ p. "";
  codex_model = "";
}

abbrev pinned : Profile
pinned = record {
  provider = "codex";
  model = "gpt-x";
  effort = "high";
  model_source = command_line;
  effort_source = repository_default;
  fallback_model = "gpt-z";
}

abbrev never : String → Bool
never s = false

abbrev always : String → Bool
always s = true

resolve_authoring_profile-pinned_example :
    (pinned.model ≡ settings.cli_model)
    × (pinned.fallback_model ≡ "gpt-z")
    × (((pinned.provider == "claude" || pinned.provider == "kiro")
          && is_retired (λ s. s) never always pinned.model)
        ≡ false)
unfolding resolve_authoring_profile resolve_with profile_of validated_profile fallback_for lookup
resolve_authoring_profile-pinned_example =
    resolve_authoring_profile-pinned (λ s. s) never always settings "codex" pinned refl refl
