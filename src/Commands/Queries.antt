-- ===== src/Commands/Queries.antt =====
-- `runInspect`, `runPolicyCheck` and `runStatus`, which write nothing, and `runDecide`.
use ribat.Base.{
  List, [], ◌∷◌, ◌++◌, Option, none, some, if◌then◌else◌, Text, codes, text_eq, is_empty, Result,
  ok, err,
}
use ribat.Image.{Reference, parse_reference}
use ribat.Policy.{Config}
use ribat.Policy.Matcher.{effective_policy_for}
use ribat.Store.Rows.{Observation, Freeze, Approval, Bypass, decision_allow, decision_deny}
use ribat.Store.Observations.{get_observation, list_observations}
use ribat.Store.Overrides.{LocalOverride, local_override}
use ribat.Store.World.{World, Act, pure, raise, ◌>>=◌, ◌>>◌}
use ribat.Engine.{ManifestDigest, Request, Decision, EngineError}
use ribat.Engine.Decide.{decide}
use ribat.Commands.{
  Machine, bad_image, missing_image, extra_argument, Problem, usage_error, not_decided,
  not_resolved, state_not_opened, state_unread, Outcome, success, of_result, on_error, resolve_on,
  new_engine, with_state, conclude,
}
use ribat.Commands.Args.{parse_config_and_image}
use ribat.Commands.Configured.{load_policy, checked_config}
use ribat.Commands.State.{open_sqlite, open_configured_state}
use ribat.Commands.Print.{set_line, print_policy_check, print_decision}

-- `image.ParseReference`, where its error is one of usage.
unfoldable pub read_image : Text → Act Problem Reference
read_image s = of_result (λ e. usage_error (bad_image e)) (parse_reference s)

module _ (m : Machine) where
  inspected : Reference → Result Text ManifestDigest → Result Problem Outcome
  inspected ref (err e) = err (not_resolved ref.canonical_ref e)
  inspected ref (ok r) = ok (
      success (
        (codes "Image: " ++ ref.canonical_ref)
        ∷ (codes "Remote digest: " ++ r.digest)
        ∷ set_line (codes "Media type: ") r.media_type))

  pinned_lines : Reference → Outcome
  pinned_lines ref = success (
      (codes "Image: " ++ ref.canonical_ref)
      ∷ codes "Digest pinned: true"
      ∷ (codes "Digest: " ++ ref.digest)
      ∷ [])

  unfoldable pub inspect_image : Text → Act Problem Outcome
  unfolding read_image inspected pinned_lines
  inspect_image s = do
    ref ← read_image s
    if ref.is_digest_pinned
        then pure (pinned_lines ref)
        else of_result (λ p. p) (inspected ref (resolve_on m ref))

  unfoldable pub inspect : List Text → Act Problem Outcome
  unfolding inspect_image
  inspect [] = raise (usage_error (missing_image (codes "inspect")))
  inspect (s ∷ []) = inspect_image s
  inspect (s ∷ extra ∷ args) = raise (usage_error (extra_argument (codes "inspect") extra))

  unfoldable pub policy_check : List Text → Act Problem Outcome
  unfolding read_image
  policy_check args = do
    o ← of_result usage_error (parse_config_and_image m args (codes "policy check"))
    ref ← read_image o.image_ref
    cfg ← of_result (λ p. p) (load_policy m o.config_path)
    pure (success (print_policy_check m ref (effective_policy_for cfg ref)))

  -- `engine.Decide`, and what the command makes of it.
  unfoldable pub decided : (Decision × Option EngineError) × World → Result Problem Outcome × World
  decided ((d, some e), w) = (err (not_decided e), w)
  decided ((d, none), w) = (
    ok (record { code = if d.allowed then 0 else 1; output = print_decision m d; problem = none }),
    w,
  )

  unfoldable pub command_request : Text → Request
  command_request image_ref = record {
    image_ref = image_ref;
    client_user = [];
    request_method = [];
    request_uri = [];
  }

  unfoldable pub decide_in : Text → Config → Act Problem Outcome
  unfolding decided command_request
  decide_in image_ref cfg w = decided (decide (new_engine m cfg) (command_request image_ref) w)

  unfoldable pub decide_image : List Text → Act Problem Outcome
  unfolding decide_in
  decide_image args = do
    o ← of_result usage_error (parse_config_and_image m args (codes "decide"))
    cfg ← open_configured_state m o.config_path (codes "decide")
    with_state cfg.state.path (decide_in o.image_ref cfg)

  freeze_reason : Option Freeze → List Text
  freeze_reason none = []
  freeze_reason (some f) = set_line (codes "  Freeze reason: ") f.reason

  approval_reason : Option Approval → List Text
  approval_reason none = codes "  Local override: allow (bypass)" ∷ []
  approval_reason (some a) =
      codes "  Local override: allow (approval)" ∷ set_line (codes "  Approval reason: ") a.reason

  bypass_reason : Option Bypass → List Text
  bypass_reason none = []
  bypass_reason (some b) = set_line (codes "  Bypass reason: ") b.reason

  -- The `switch` on the decision of an override.
  unfoldable pub override_lines : LocalOverride → List Text
  unfolding freeze_reason approval_reason bypass_reason
  override_lines o =
      if text_eq o.decision decision_deny
      then codes "  Local override: deny (freeze)" ∷ freeze_reason o.freeze
      else if text_eq o.decision decision_allow
      then approval_reason o.approval ++ bypass_reason o.bypass
      else codes "  Local override: none" ∷ []

  override_or_error : Result Text LocalOverride → List Text
  unfolding override_lines
  override_or_error (ok o) = override_lines o
  override_or_error (err e) = (codes "  Local override: error: " ++ e) ∷ []

  observation_lines : Observation → List Text → List Text
  observation_lines obs overrides =
      (codes "- Digest: " ++ obs.digest)
      ∷ (codes "  Status: " ++ obs.status)
      ∷ (codes "  First seen: " ++ m.formats.format_time obs.first_seen_at)
      ∷ (codes "  Last seen: " ++ m.formats.format_time obs.last_seen_at)
      ∷ overrides

  -- The loop of `printStatus`; an error of `LocalOverride` becomes a line.
  unfoldable pub print_observations : List Observation → World → List Text × World
  unfolding override_or_error observation_lines
  print_observations [] w = ([], w)
  print_observations (obs ∷ observations) w =
      let (o, w') = local_override obs.registry obs.repository obs.tag obs.digest m.now w in
      let (lines, w'') = print_observations observations w' in
      (observation_lines obs (override_or_error o) ++ lines, w'')

  unfoldable pub print_status : Reference → List Observation → Act Problem Outcome
  unfolding print_observations
  print_status ref [] w = (
    ok (
        success
          ((codes "Image: " ++ ref.canonical_ref) ∷ codes "Local state: no observations" ∷ [])),
    w,
  )
  print_status ref (obs ∷ observations) w =
      let (lines, w') = print_observations (obs ∷ observations) w in
      (
        ok (
            success
              ((codes "Image: " ++ ref.canonical_ref) ∷ codes "Local state: observed" ∷ lines)),
        w',
      )

  one_observation : Option Observation → List Observation
  one_observation none = []
  one_observation (some obs) = obs ∷ []

  unfoldable pub observations_of : Reference → Act Text (List Observation)
  unfolding one_observation
  observations_of ref =
      if is_empty ref.digest then list_observations ref.registry ref.repository ref.tag else do
        obs ← get_observation ref.registry ref.repository ref.tag ref.digest
        pure (one_observation obs)

  unfoldable pub status_in : Reference → Act Problem Outcome
  unfolding observations_of print_status
  status_in ref = do
    observations ← on_error state_unread (observations_of ref)
    print_status ref observations

  -- `os.Stat` of the state file.
  unfoldable pub file_exists : Text → Result Problem (Unit {0})
  file_exists path =
      if text_eq path (codes ":memory:")
      then ok tt
      else if m.has_file path
      then ok tt
      else err (state_not_opened (codes "no such file"))

  unfoldable pub status : List Text → Act Problem Outcome
  unfolding read_image status_in file_exists
  status args = do
    o ← of_result usage_error (parse_config_and_image m args (codes "status"))
    ref ← read_image o.image_ref
    cfg ← of_result (λ p. p) (checked_config m o.config_path (codes "status"))
    of_result (λ p. p) (file_exists cfg.state.path)
    on_error state_not_opened (open_sqlite cfg.state.path)
    with_state cfg.state.path (status_in ref)

  unfoldable pub run_inspect : List Text → World → Outcome × World
  unfolding inspect
  run_inspect args = conclude (inspect args)

  unfoldable pub run_policy_check : List Text → World → Outcome × World
  unfolding policy_check
  run_policy_check args = conclude (policy_check args)

  unfoldable pub run_decide : List Text → World → Outcome × World
  unfolding decide_image
  run_decide args = conclude (decide_image args)

  unfoldable pub run_status : List Text → World → Outcome × World
  unfolding status
  run_status args = conclude (status args)
