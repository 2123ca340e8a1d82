-- ===== src/Tests/Commands.antt =====
-- The commands on a machine with a policy file, a state file and a registry.
pub mod Grants
pub mod Approval
pub mod Lines
pub mod Data
use ribat.Base.{
  ℕ, ◌*◌, ℤ, pos, negsuc, Bool, true, false, List, [], ◌∷◌, Option, none, some, Text, codes, Result,
  ok, err, refl, ◌≡◌,
}
use ribat.Policy.{Config, zero_config}
use ribat.Registry.Exchange.{Libraries}
use ribat.Store.World.{World}
use ribat.Store.Invariant.{IsWellFormed}
use ribat.Commands.{Machine}
use ribat.Commands.Configured.{checked_config}
use ribat.Commands.Decides.{IsPermitted, run_decide_safe}
use ribat.Commands.Queries.{run_decide}
use ribat.Tests.{hour, day_config, sample_world}

abbrev policy_lines : List Text
policy_lines =
    codes "version: 1"
    ∷ codes "default_policy:"
    ∷ codes "  mutable_tags:"
    ∷ codes "    action: quarantine"
    ∷ codes "    min_digest_age: 1d"
    ∷ codes "  digest_pinned_images:"
    ∷ codes "    action: allow"
    ∷ codes "  failed_registry_resolution:"
    ∷ codes "    action: deny"
    ∷ codes "  failed_signature_check:"
    ∷ codes "    action: deny"
    ∷ codes "state:"
    ∷ codes "  backend: sqlite"
    ∷ codes "  path: state.db"
    ∷ codes "audit:"
    ∷ codes "  path: audit.jsonl"
    ∷ []

-- A registry whose tags all point to sha256:ab.
abbrev pub sample_libraries : Libraries
sample_libraries = record {
  send = λ sent q. ok (record {
    status = 200;
    headers = (codes "Docker-Content-Digest", codes "sha256:ab") ∷ [];
    content_length = negsuc 0;
    body = record { bytes = []; broken = none };
  });
  new_request = λ method url. ok tt;
  path_escape = λ s. s;
  token_url = λ realm query. ok realm;
  unmarshal_token = λ body. err (codes "no token");
}

abbrev pub sample_machine : Machine
sample_machine = record {
  has_example = false;
  user = codes "alice";
  now = pos (240 * hour);
  has_file = λ path. true;
  open_policy = λ path. ok (policy_lines, none);
  open_audit = λ path log. ok ([], none);
  open_import = λ path. err (codes "no such file");
  stdin = [];
  std_parse = λ s. none;
  libraries = sample_libraries;
  print_registry_error = λ e. codes "registry error";
  run_cosign = λ program args. ([], none);
  print_cosign_error = λ e. codes "cosign error";
  sha256_hex = λ s. s;
  formats = record { format_time = λ t. codes "time"; format_duration = λ d. codes "duration" };
  message_formats = record {
    format_time = λ t. codes "time";
    format_duration = λ d. codes "duration";
  };
  show = λ n. codes "0";
  round_second = λ d. d;
  unmarshal_manifest = λ body. none;
  decode_event = λ line. err (codes "bad line");
  encode_event = λ event. codes "event";
  decode_state = λ input. err (codes "bad state");
  encode_state = λ st. codes "state";
}

abbrev sample_config : Config
sample_config = record day_config {
  state = record { backend = codes "sqlite"; path = codes "state.db" };
  audit = record { path = codes "audit.jsonl" };
}

pub config_loads :
    checked_config sample_machine (codes "/etc/ribat/config.yaml") (codes "decide")
    ≡ ok sample_config
unfolding ribat.Base.clamp64 ribat.Base.wrap64 ribat.Base.◌+ℤ◌ ribat.Base.◌-ℤ◌ ribat.Base.drop
    ribat.Base.first ribat.Base.insert_by ribat.Base.keep ribat.Base.sort_by ribat.Base.take
    ribat.Base.codes ribat.Base.contains ribat.Base.cut ribat.Base.cut_at ribat.Base.equal_fold
    ribat.Base.has_prefix ribat.Base.has_suffix ribat.Base.index_le ribat.Base.is_space
    ribat.Base.join ribat.Base.last_index_byte ribat.Base.split ribat.Base.text_eq ribat.Base.trim
    ribat.Base.trim_left ribat.Base.trim_prefix ribat.Base.trim_right ribat.Base.trim_space
    ribat.Commands.Configured.checked_config ribat.Commands.Configured.load_file
    ribat.Commands.Configured.load_policy ribat.Policy.Duration.Prints.duration_string
    ribat.Policy.Duration.atoi ribat.Policy.Duration.parse_duration ribat.Policy.Duration.split_last
    ribat.Policy.Matcher.apply_rule ribat.Policy.Matcher.effective_policy_for
    ribat.Policy.Matcher.first_match ribat.Policy.Matcher.match_pattern
    ribat.Policy.Matcher.wildcard_match ribat.Policy.Matcher.wildcard_regex
    ribat.Policy.Reader.Parser.checked ribat.Policy.Reader.Parser.clear_deeper
    ribat.Policy.Reader.Parser.load ribat.Policy.Reader.Parser.parse_line
    ribat.Policy.Reader.Parser.parse_lines ribat.Policy.Reader.Parser.parse_list_item
    ribat.Policy.Reader.Parser.parse_pair ribat.Policy.Reader.Parser.path_above
    ribat.Policy.Reader.Parser.path_at ribat.Policy.Reader.Parser.set_in_config
    ribat.Policy.Reader.Parser.set_in_rule ribat.Policy.Reader.Parser.set_rule_value
    ribat.Policy.Reader.Parser.set_value ribat.Policy.Reader.Parser.update_rule
    ribat.Policy.Reader.Parser.validated ribat.Policy.Reader.Values.set_cosign_value
    ribat.Policy.Reader.Values.set_mutable_tag_value
    ribat.Policy.Reader.Values.set_rule_cosign_value
    ribat.Policy.Reader.Values.set_rule_mutable_tag_value ribat.Policy.Reader.Values.with_bool
    ribat.Policy.Reader.Values.with_duration ribat.Policy.Reader.leading_spaces
    ribat.Policy.Reader.parse_bool ribat.Policy.Reader.parse_scalar
    ribat.Policy.Reader.split_yaml_key_value ribat.Policy.Reader.strip_comment
    ribat.Policy.Validate.effective ribat.Policy.Validate.effective_mode
    ribat.Policy.Validate.is_version_one ribat.Policy.Validate.is_zero
    ribat.Policy.Validate.validate ribat.Policy.Validate.validate_action
    ribat.Policy.Validate.validate_cosign_policy ribat.Policy.Validate.validate_defaults
    ribat.Policy.Validate.validate_rule ribat.Policy.Validate.validate_rules
config_loads = refl

run_decide_zero : (run_decide sample_machine (codes "nginx" ∷ []) sample_world).0.code ≡ 0
unfolding ribat.Audit.Logger.record_event ribat.Base.clamp64 ribat.Base.wrap64 ribat.Base.◌+ℤ◌
    ribat.Base.◌-ℤ◌ ribat.Base.drop ribat.Base.first ribat.Base.insert_by ribat.Base.keep
    ribat.Base.sort_by ribat.Base.take ribat.Base.codes ribat.Base.contains ribat.Base.cut
    ribat.Base.cut_at ribat.Base.equal_fold ribat.Base.has_prefix ribat.Base.has_suffix
    ribat.Base.index_le ribat.Base.is_space ribat.Base.join ribat.Base.last_index_byte
    ribat.Base.split ribat.Base.text_eq ribat.Base.trim ribat.Base.trim_left ribat.Base.trim_prefix
    ribat.Base.trim_right ribat.Base.trim_space ribat.Commands.Args.Lines.operation_line
    ribat.Commands.Args.Lines.ttl_setting ribat.Commands.Args.find_flag
    ribat.Commands.Args.find_inline ribat.Commands.Args.flag_name ribat.Commands.Args.image_required
    ribat.Commands.Args.next_arg ribat.Commands.Args.no_operation ribat.Commands.Args.one_image
    ribat.Commands.Args.other_operation ribat.Commands.Args.parse_args
    ribat.Commands.Args.parse_audit_args ribat.Commands.Args.parse_config_and_image
    ribat.Commands.Args.parse_config_only ribat.Commands.Args.parse_from
    ribat.Commands.Args.parse_import_args ribat.Commands.Args.parse_operation_args
    ribat.Commands.Args.parse_server_args ribat.Commands.Args.positive_ttl
    ribat.Commands.Args.set_operation ribat.Commands.AuditLog.audit
    ribat.Commands.AuditLog.audit_event_matches_image ribat.Commands.AuditLog.audit_of
    ribat.Commands.AuditLog.before ribat.Commands.AuditLog.encoded ribat.Commands.AuditLog.ended
    ribat.Commands.AuditLog.is_at ribat.Commands.AuditLog.passes
    ribat.Commands.AuditLog.print_events ribat.Commands.AuditLog.print_lines
    ribat.Commands.AuditLog.run_audit ribat.Commands.AuditLog.shown
    ribat.Commands.AuditLog.with_location ribat.Commands.Configured.checked_config
    ribat.Commands.Configured.load_file ribat.Commands.Configured.load_policy
    ribat.Commands.Gives.opened_tables ribat.Commands.Grants.Granted.saved_tables
    ribat.Commands.Grants.approve ribat.Commands.Grants.approve_in ribat.Commands.Grants.bypass
    ribat.Commands.Grants.bypass_in ribat.Commands.Grants.freeze ribat.Commands.Grants.freeze_in
    ribat.Commands.Grants.make_grant ribat.Commands.Grants.printed_row
    ribat.Commands.Grants.read_operation ribat.Commands.Grants.require
    ribat.Commands.Grants.run_approve ribat.Commands.Grants.run_bypass
    ribat.Commands.Grants.run_freeze ribat.Commands.Print.print_approval
    ribat.Commands.Print.print_bool ribat.Commands.Print.print_bypass
    ribat.Commands.Print.print_decision ribat.Commands.Print.print_duration
    ribat.Commands.Print.print_freeze ribat.Commands.Print.print_policy_check
    ribat.Commands.Queries.command_request ribat.Commands.Queries.decide_image
    ribat.Commands.Queries.decide_in ribat.Commands.Queries.decided
    ribat.Commands.Queries.file_exists ribat.Commands.Queries.inspect
    ribat.Commands.Queries.inspect_image ribat.Commands.Queries.observations_of
    ribat.Commands.Queries.override_lines ribat.Commands.Queries.policy_check
    ribat.Commands.Queries.print_observations ribat.Commands.Queries.print_status
    ribat.Commands.Queries.read_image ribat.Commands.Queries.run_decide
    ribat.Commands.Queries.run_inspect ribat.Commands.Queries.run_policy_check
    ribat.Commands.Queries.run_status ribat.Commands.Queries.status ribat.Commands.Queries.status_in
    ribat.Commands.Run.misuse ribat.Commands.Run.plugin_outcome ribat.Commands.Run.proxy_outcome
    ribat.Commands.Run.run ribat.Commands.Run.run_command ribat.Commands.Run.run_policy
    ribat.Commands.Servers.authz ribat.Commands.Servers.listen
    ribat.Commands.Servers.listen_on_address ribat.Commands.Servers.listen_on_socket
    ribat.Commands.Servers.plugin_server ribat.Commands.Servers.proxy
    ribat.Commands.Servers.proxy_on ribat.Commands.Servers.run_authz
    ribat.Commands.Servers.run_proxy ribat.Commands.Servers.serve_fresh
    ribat.Commands.Servers.serve_plugin ribat.Commands.Servers.serve_proxy
    ribat.Commands.Servers.served ribat.Commands.Servers.stop ribat.Commands.State.expires_from_ttl
    ribat.Commands.State.log_operation ribat.Commands.State.open_configured_state
    ribat.Commands.State.open_sqlite ribat.Commands.State.operation_event
    ribat.Commands.Transfer.export ribat.Commands.Transfer.export_in ribat.Commands.Transfer.import
    ribat.Commands.Transfer.import_in ribat.Commands.Transfer.import_input
    ribat.Commands.Transfer.run_export_state ribat.Commands.Transfer.run_import_state
    ribat.Commands.Version.version_string ribat.Commands.WellFormed.run_all ribat.Commands.conclude
    ribat.Commands.current_actor ribat.Commands.default_config_path ribat.Commands.exit_code
    ribat.Commands.failure ribat.Commands.new_engine ribat.Commands.new_resolver
    ribat.Commands.of_result ribat.Commands.on_error ribat.Commands.resolve_on
    ribat.Commands.with_state ribat.Cosign.command_result ribat.Cosign.cosign_policy_key
    ribat.Cosign.cosign_verify_args ribat.Cosign.digest_reference ribat.Cosign.mode_args
    ribat.Cosign.verify ribat.Cosign.verify_mode ribat.Engine.Decide.Lasts.decide_all
    ribat.Engine.Decide.Permitted.digest_permitted ribat.Engine.Decide.Permitted.frozen
    ribat.Engine.Decide.Permitted.is_aged ribat.Engine.Decide.Permitted.mutable_permitted
    ribat.Engine.Decide.Permitted.overridden ribat.Engine.Decide.Permitted.permitted
    ribat.Engine.Decide.Permitted.pinned_permitted
    ribat.Engine.Decide.Permitted.resolution_permitted ribat.Engine.Decide.Permitted.tag_reference
    ribat.Engine.Decide.Permitted.verified ribat.Engine.Decide.Recorded.logged
    ribat.Engine.Decide.WellFormed.lawful_lasts ribat.Engine.Decide.decide
    ribat.Engine.Decide.decide_age ribat.Engine.Decide.decide_known
    ribat.Engine.Decide.decide_mutable ribat.Engine.Decide.decide_new
    ribat.Engine.Decide.decide_observed ribat.Engine.Decide.decide_pinned
    ribat.Engine.Decide.decide_reference ribat.Engine.Decide.decide_resolution
    ribat.Engine.Decide.decide_resolved ribat.Engine.Decide.finish
    ribat.Engine.Decide.first_decision ribat.Engine.Decide.frozen_decision
    ribat.Engine.Decide.pinned_end ribat.Engine.Decide.record_error ribat.Engine.Decide.unresolved
    ribat.Engine.Decide.with_override ribat.Engine.Verification.after_mark
    ribat.Engine.Verification.after_record ribat.Engine.Verification.allow_reason
    ribat.Engine.Verification.allow_with_verification ribat.Engine.Verification.decision_reference
    ribat.Engine.Verification.denied ribat.Engine.Verification.is_cached
    ribat.Engine.Verification.mark_verified ribat.Engine.Verification.new_verification
    ribat.Engine.Verification.run_verifier ribat.Engine.Verification.use_cache
    ribat.Engine.Verification.verify_cosign ribat.Engine.Verification.verify_if_required
    ribat.Engine.decision_event ribat.Engine.decision_record ribat.Engine.lift
    ribat.Engine.record_audit ribat.Engine.record_outcome ribat.Engine.try ribat.Image.canonical
    ribat.Image.check_components ribat.Image.check_name ribat.Image.choose_registry
    ribat.Image.component_re ribat.Image.digest_re ribat.Image.has_explicit_registry
    ribat.Image.make_reference ribat.Image.normalize_name ribat.Image.parse_name
    ribat.Image.parse_reference ribat.Image.registry_re ribat.Image.split_digest
    ribat.Image.split_tag ribat.Image.tag_colon ribat.Image.tag_re
    ribat.Policy.Duration.Prints.duration_string ribat.Policy.Duration.atoi
    ribat.Policy.Duration.parse_duration ribat.Policy.Duration.split_last
    ribat.Policy.Matcher.apply_rule ribat.Policy.Matcher.effective_policy_for
    ribat.Policy.Matcher.first_match ribat.Policy.Matcher.match_pattern
    ribat.Policy.Matcher.wildcard_match ribat.Policy.Matcher.wildcard_regex
    ribat.Policy.Reader.Parser.checked ribat.Policy.Reader.Parser.clear_deeper
    ribat.Policy.Reader.Parser.load ribat.Policy.Reader.Parser.parse_line
    ribat.Policy.Reader.Parser.parse_lines ribat.Policy.Reader.Parser.parse_list_item
    ribat.Policy.Reader.Parser.parse_pair ribat.Policy.Reader.Parser.path_above
    ribat.Policy.Reader.Parser.path_at ribat.Policy.Reader.Parser.set_in_config
    ribat.Policy.Reader.Parser.set_in_rule ribat.Policy.Reader.Parser.set_rule_value
    ribat.Policy.Reader.Parser.set_value ribat.Policy.Reader.Parser.update_rule
    ribat.Policy.Reader.Parser.validated ribat.Policy.Reader.Values.set_cosign_value
    ribat.Policy.Reader.Values.set_mutable_tag_value
    ribat.Policy.Reader.Values.set_rule_cosign_value
    ribat.Policy.Reader.Values.set_rule_mutable_tag_value ribat.Policy.Reader.Values.with_bool
    ribat.Policy.Reader.Values.with_duration ribat.Policy.Reader.leading_spaces
    ribat.Policy.Reader.parse_bool ribat.Policy.Reader.parse_scalar
    ribat.Policy.Reader.split_yaml_key_value ribat.Policy.Reader.strip_comment
    ribat.Policy.Validate.effective ribat.Policy.Validate.effective_mode
    ribat.Policy.Validate.is_version_one ribat.Policy.Validate.is_zero
    ribat.Policy.Validate.validate ribat.Policy.Validate.validate_action
    ribat.Policy.Validate.validate_cosign_policy ribat.Policy.Validate.validate_defaults
    ribat.Policy.Validate.validate_rule ribat.Policy.Validate.validate_rules ribat.Regex.in_set
    ribat.Regex.in_span ribat.Regex.match_string ribat.Registry.Challenge.challenge_of
    ribat.Registry.Challenge.challenge_values ribat.Registry.Challenge.ends_part
    ribat.Registry.Challenge.parse_bearer_challenge ribat.Registry.Challenge.scan_step
    ribat.Registry.Challenge.split_challenge_params ribat.Registry.Challenge.split_from
    ribat.Registry.Exchange.give ribat.Registry.Exchange.give_result ribat.Registry.Exchange.go_on
    ribat.Registry.Exchange.read_all ribat.Registry.Exchange.read_limited
    ribat.Registry.Exchange.request ribat.Registry.Exchange.◌>>=◌
    ribat.Registry.Resolver.authorized_head ribat.Registry.Resolver.blob_url
    ribat.Registry.Resolver.challenged ribat.Registry.Resolver.do_manifest_request
    ribat.Registry.Resolver.do_registry_request
    ribat.Registry.Resolver.do_registry_request_with_auth ribat.Registry.Resolver.endpoint
    ribat.Registry.Resolver.fetch_bearer_token ribat.Registry.Resolver.fetch_blob
    ribat.Registry.Resolver.fetch_manifest ribat.Registry.Resolver.fetched_blob
    ribat.Registry.Resolver.fetched_manifest ribat.Registry.Resolver.head_or_get
    ribat.Registry.Resolver.is_success ribat.Registry.Resolver.manifest_types
    ribat.Registry.Resolver.manifest_url ribat.Registry.Resolver.media_type
    ribat.Registry.Resolver.read_token ribat.Registry.Resolver.resolve
    ribat.Registry.Resolver.resolve_at ribat.Registry.Resolver.resolved
    ribat.Registry.Resolver.should_fallback_to_get ribat.Registry.Resolver.token_query
    ribat.Registry.get_header ribat.Registry.set_header ribat.Store.Decisions.count_decisions
    ribat.Store.Decisions.insert_decision ribat.Store.Decisions.list_decisions
    ribat.Store.Decisions.record_decision ribat.Store.Export.Import.import_each
    ribat.Store.Export.Import.import_items ribat.Store.Export.Import.import_state
    ribat.Store.Export.Import.import_transaction ribat.Store.Export.Import.imported
    ribat.Store.Export.Import.rolled_back ribat.Store.Export.Restores.exported
    ribat.Store.Export.approval_row ribat.Store.Export.bypass_row ribat.Store.Export.cosign_row
    ribat.Store.Export.decision_row ribat.Store.Export.export_state ribat.Store.Export.freeze_row
    ribat.Store.Export.list_all_observations ribat.Store.Export.list_approvals
    ribat.Store.Export.list_by_id ribat.Store.Export.list_bypasses
    ribat.Store.Export.list_cosign_verifications ribat.Store.Export.list_freezes
    ribat.Store.Export.observation_row ribat.Store.Observations.FirstSeen.Remembers
    ribat.Store.Observations.FirstSeen.first_seen ribat.Store.Observations.affected
    ribat.Store.Observations.create_observation ribat.Store.Observations.find_observation
    ribat.Store.Observations.get_observation ribat.Store.Observations.insert_observation
    ribat.Store.Observations.is_observation ribat.Store.Observations.is_observation_of_tag
    ribat.Store.Observations.list_observations ribat.Store.Observations.mark_allowed
    ribat.Store.Observations.mark_observation_allowed ribat.Store.Observations.require_affected
    ribat.Store.Observations.scan_first ribat.Store.Observations.touch
    ribat.Store.Observations.touch_observation ribat.Store.Observations.update_observation
    ribat.Store.Observations.update_rows ribat.Store.Observations.update_statement
    ribat.Store.Overrides.Insert.approve_digest ribat.Store.Overrides.Insert.bypass_tag
    ribat.Store.Overrides.Insert.freeze_tag ribat.Store.Overrides.Insert.get_approval
    ribat.Store.Overrides.Insert.get_bypass ribat.Store.Overrides.Insert.get_freeze
    ribat.Store.Overrides.Insert.insert_approval ribat.Store.Overrides.Insert.insert_bypass
    ribat.Store.Overrides.Insert.insert_freeze ribat.Store.Overrides.Precedence.find_override
    ribat.Store.Overrides.active_approval ribat.Store.Overrides.active_bypass
    ribat.Store.Overrides.active_freeze ribat.Store.Overrides.covers
    ribat.Store.Overrides.find_approval ribat.Store.Overrides.find_bypass
    ribat.Store.Overrides.find_freeze ribat.Store.Overrides.is_active_approval
    ribat.Store.Overrides.is_active_bypass ribat.Store.Overrides.is_active_freeze
    ribat.Store.Overrides.local_override ribat.Store.Overrides.make_override
    ribat.Store.Overrides.newer ribat.Store.Overrides.not_expired
    ribat.Store.Overrides.override_decision ribat.Store.Overrides.scan_approval
    ribat.Store.Overrides.scan_bypass ribat.Store.Overrides.scan_freeze ribat.Store.Rows.null_string
    ribat.Store.Rows.nullable_string ribat.Store.Rows.scan_approval_value
    ribat.Store.Rows.scan_bypass_value ribat.Store.Rows.scan_cosign_value
    ribat.Store.Rows.scan_decision_row ribat.Store.Rows.scan_freeze_value
    ribat.Store.Rows.scan_observation_value ribat.Store.Tables.by_id ribat.Store.Tables.import_row
    ribat.Store.Tables.import_rows ribat.Store.Tables.replace_row ribat.Store.Tables.replace_rows
    ribat.Store.Verifications.find_verification ribat.Store.Verifications.get_cosign_verification
    ribat.Store.Verifications.is_verification ribat.Store.Verifications.record_cosign_verification
    ribat.Store.Verifications.scan_first ribat.Store.Verifications.update_verification
    ribat.Store.Verifications.update_verifications ribat.Store.Verifications.upsert_verification
    ribat.Store.World.call ribat.Store.World.change ribat.Store.World.continue
    ribat.Store.World.gets ribat.Store.World.pure ribat.Store.World.raise ribat.Store.World.◌>>=◌
    ribat.Time.add_time ribat.Time.from_unix ribat.Time.nullable_time ribat.Time.nullable_unix
    ribat.Time.sub_time ribat.Time.unix
run_decide_zero = refl

run_decide_safe_example : IsPermitted sample_machine (codes "nginx" ∷ []) sample_world.db
run_decide_safe_example =
    run_decide_safe sample_machine (codes "nginx" ∷ []) sample_world run_decide_zero
