-- ===== src/Grants/Profile.antt =====
-- tauceti_worker/agents.py: `resolve_authoring_profile`, with the defaults of constants.py. A setting
-- that is unset is "", and so is the fallback model of a profile without one.
use tau_ceti_worker.Prelude.{
  eq_iff, ◌∙◌, arith, ap, Bool-cases, ◌||◌, ◌&&◌, string_eq, ◌==◌, not, lookup, if◌then◌else◌,
  contains, Dict, none, some, true, false, ◌≡◌, String, Option, Bool, inl, inr, [], ◌∷◌,
}

pub data Source : Type 0 where
  command_line environment legacy repository_default : Source

pub record Profile : Type 0 where
  pub provider : String
  pub model : String
  pub effort : String
  pub model_source : Source
  pub effort_source : Source
  pub fallback_model : String

pub data ProfileError : Type 0 where
  unknown_provider effort_unsupported empty_model router_model retired_model : ProfileError
  effort_characters : ProfileError

pub data Resolved : Type 0 where
  resolved : Profile → Resolved
  rejected : ProfileError → Resolved

-- AUTHORING_DEFAULTS and OPENROUTER_MODELS.
abbrev pub authoring_defaults : Dict String (String × String)
authoring_defaults =
    ("codex", ("gpt-6.1-sol", "high"))
    ∷ ("claude", ("claude-opus-5-5", "high"))
    ∷ ("kiro", ("gpt-5.6-sol", "high"))
    ∷ []

abbrev pub openrouter_models : Dict String String
openrouter_models =
    ("deepseek", "deepseek/deepseek-v4-pro") ∷ ("minimax", "minimax/minimax-m3") ∷ []

abbrev pub is_default : Source → Bool
is_default repository_default = true
is_default command_line = false
is_default environment = false
is_default legacy = false

-- The first setting that is not blank.
abbrev pub first_of : String → String → String → String → String × Source
first_of cli env old default_value =
    if not (cli == "")
    then (cli, command_line)
    else if not (env == "")
    then (env, environment)
    else if not (old == "")
    then (old, legacy)
    else (default_value, repository_default)

unfoldable pub fallback_for : String → String → Source → String → String
fallback_for provider model source handed_on =
    if not (provider == "codex")
    then ""
    else if not (handed_on == "")
    then handed_on
    else if is_default source && model == "gpt-6.1-sol"
    then "gpt-6-luna"
    else ""

-- What the process reads: the settings after `strip`, and the tests of a model's or an effort's text.
pub record Settings : Type 0 where
  pub cli_model : String
  pub cli_effort : String
  pub handed_on : String
  pub env_model : String → String
  pub env_effort : String → String
  pub codex_model : String

module _ (lower : String → String) (is_router is_plain : String → Bool) where
  -- `_reject_retired_opus`
  abbrev pub is_retired : String → Bool
  is_retired model = contains (lower model) ("claude-opus-4.8" ∷ "claude-opus-4-8" ∷ [])

  unfoldable pub validated_profile : Profile → Resolved
  validated_profile p =
      if p.model == ""
      then rejected empty_model
      else if p.provider == "kiro" && is_router p.model
      then rejected router_model
      else if (p.provider == "kiro" || p.provider == "claude") && is_retired p.model
      then rejected retired_model
      else if not (p.effort == "") && not (is_plain p.effort)
      then rejected effort_characters
      else resolved p

  abbrev pub legacy_model : Settings → String → String
  legacy_model set provider = if provider == "codex" then set.codex_model else ""

  unfoldable pub profile_of : Settings → String → String → String → Profile
  unfolding fallback_for
  profile_of set provider default_model default_effort =
      let (model, model_source) =
        first_of set.cli_model (set.env_model provider) (legacy_model set provider) default_model in
      let (effort, effort_source) =
        first_of set.cli_effort (set.env_effort provider) "" default_effort in
      record {
        provider = provider;
        model = model;
        effort = effort;
        model_source = model_source;
        effort_source = effort_source;
        fallback_model = fallback_for provider model model_source set.handed_on;
      }

  abbrev pub has_effort : Settings → String → Bool
  has_effort set provider = not (set.cli_effort == "") || not (set.env_effort provider == "")

  unfoldable pub resolve_with :
      Settings → String → Option (String × String) → Option String → Resolved
  unfolding validated_profile profile_of
  resolve_with set provider (some (model, effort)) router =
      validated_profile (profile_of set provider model effort)
  resolve_with set provider none (some model) =
      if has_effort set provider
      then rejected effort_unsupported
      else validated_profile (profile_of set provider model "")
  resolve_with set provider none none = rejected unknown_provider

  -- `resolve_authoring_profile`
  unfoldable pub resolve_authoring_profile : Settings → String → Resolved
  unfolding resolve_with
  resolve_authoring_profile set provider =
      resolve_with set provider (lookup provider authoring_defaults)
        (lookup provider openrouter_models)

  accepted :
      (p q : Profile)
      → validated_profile p ≡ resolved q
      → (q ≡ p) × (((p.provider == "claude" || p.provider == "kiro") && is_retired p.model) ≡ false)
  unfolding validated_profile
  accepted p q h =
      elim (Bool-cases (((p.provider == "claude" || p.provider == "kiro") && is_retired p.model))) [
        | inl bad ↦ absurd (ground arith)
        | inr good ↦ (ground arith, good)
      ]

  resolved_from :
      (set : Settings) (provider : String) (fixed : Option (String × String))
      (router : Option String) (q : Profile)
      → resolve_with set provider fixed router ≡ resolved q
      → (model : String) × (effort : String) × (validated_profile
            (profile_of set provider model effort)
          ≡ resolved q)
  unfolding resolve_with
  resolved_from set provider (some (model, effort)) router q h = (model, effort, h)
  resolved_from set provider none (some model) q h = elim (Bool-cases (has_effort set provider)) [
    | inl given ↦ absurd (ground arith)
    | inr plain ↦ (model, "", ground arith)
  ]
  resolved_from set provider none none q h = absurd (cc)

  pinned_profile :
      (set : Settings) (provider model effort : String)
      → (set.cli_model == "") ≡ false
      → ((profile_of set provider model effort).model ≡ set.cli_model)
        × ((profile_of set provider model effort).fallback_model
            ≡ (if provider == "codex" then set.handed_on else ""))
  unfolding profile_of fallback_for
  pinned_profile set provider model effort pinned = elim (Bool-cases (set.handed_on == "")) [
    | inl unset ↦ let empty : set.handed_on ≡ "" = (eq_iff set.handed_on "").0 unset in ground arith
    | inr given ↦ ground arith
  ]

  -- A model that the operator pinned by the option is used as it is, whatever is handed on. Its
  -- fallback is the model handed on, if any, for Codex, and otherwise there is none. A profile for
  -- Claude or Kiro then has no retired model.
  pub resolve_authoring_profile-pinned :
      (set : Settings) (provider : String) (p : Profile)
      → resolve_authoring_profile set provider ≡ resolved p
      → (set.cli_model == "") ≡ false
      → (p.model ≡ set.cli_model)
        × (p.fallback_model ≡ (if provider == "codex" then set.handed_on else ""))
        × (((p.provider == "claude" || p.provider == "kiro") && is_retired p.model) ≡ false)
  unfolding resolve_authoring_profile
  resolve_authoring_profile-pinned set provider p h pinned =
      let (model, effort, valid) =
        resolved_from set provider (lookup provider authoring_defaults)
          (lookup provider openrouter_models) p h in
      let (same, current) = accepted (profile_of set provider model effort) p valid in
      let (chosen, fallback) = pinned_profile set provider model effort pinned in
      (
        ap (λ x. x.model) same ∙ chosen,
        ap (λ x. x.fallback_model) same ∙ fallback,
        ap (λ x. (x.provider == "claude" || x.provider == "kiro") && is_retired x.model) same
            ∙ current,
      )
