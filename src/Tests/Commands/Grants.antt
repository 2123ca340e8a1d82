-- ===== src/Tests/Commands/Grants.antt =====
-- Grants and the decisions after them, on the machine and the registry of the parent.
use ribat.Base.{
  ℕ, ◌*◌, ℤ, pos, negsuc, Bool, true, false, List, [], ◌∷◌, ◌++◌, Option, none, some, Text, codes,
  Result, ok, err, refl, ◌≡◌,
}
use ribat.Image.{Reference, make_reference, parse_reference}
use ribat.Policy.{Config}
use ribat.Store.World.{World}
use ribat.Store.Rows.{nullable_string}
use ribat.Store.Overrides.{covers}
use ribat.Engine.{Engine, Request, ManifestDigest}
use ribat.Engine.Decide.{decide}
use ribat.Commands.{Machine, new_engine}
use ribat.Commands.Configured.{checked_config}
use ribat.Commands.Args.{OperationOptions, parse_operation_args}
use ribat.Commands.Grants.{make_grant, run_approve, run_bypass, run_freeze}
use ribat.Commands.Grants.Decided.{
  SameTag, Lasts, Quarantined, IsClear, freeze_then_decide, bypass_then_decide,
}
use ribat.Commands.Grants.Succeeds.{Exits, run_freeze-Exits}
use ribat.Store.Overrides.Granted.{with_freeze}
use ribat.Tests.{hour, sample_world, sample_request, nginx}
use ribat.Tests.State.{sample_db-IsWellFormed}
use ribat.Tests.Commands.{sample_machine, sample_config}

abbrev grant_args : List Text
grant_args = codes "nginx" ∷ codes "--ttl" ∷ codes "1d" ∷ codes "--reason=incident" ∷ []

abbrev options : OperationOptions
options = record {
  config_path = codes "/etc/ribat/config.yaml";
  image_ref = codes "nginx";
  ttl = some (pos (24 * hour));
  reason = codes "incident";
  actor = codes "alice";
}

abbrev found : ManifestDigest
found = record { digest = codes "sha256:ab"; media_type = [] }

abbrev engine : Engine
engine = new_engine sample_machine sample_config

nginx_tag : SameTag nginx nginx
nginx_tag = record { registry = refl; repository = refl; tag = refl }

nginx_parses : parse_reference (codes "nginx") ≡ ok nginx
unfolding ribat.Base.codes ribat.Base.contains ribat.Base.has_suffix ribat.Base.index_le
    ribat.Base.last_index_byte ribat.Base.split ribat.Base.text_eq ribat.Base.trim_space
    ribat.Image.component_re ribat.Image.parse_reference ribat.Image.registry_re ribat.Image.tag_re
    ribat.Regex.match_string
nginx_parses = refl

freeze_loads :
    checked_config sample_machine (codes "/etc/ribat/config.yaml") (codes "freeze")
    ≡ ok sample_config
unfolding ribat.Base.codes ribat.Base.cut ribat.Base.cut_at ribat.Base.keep ribat.Base.text_eq
    ribat.Base.trim_space ribat.Base.wrap64 ribat.Commands.Configured.checked_config
    ribat.Commands.Configured.load_file ribat.Commands.Configured.load_policy
    ribat.Policy.Duration.atoi ribat.Policy.Duration.parse_duration ribat.Policy.Reader.Parser.load
    ribat.Policy.Reader.Values.set_mutable_tag_value ribat.Policy.Reader.leading_spaces
    ribat.Policy.Reader.parse_scalar ribat.Policy.Reader.split_yaml_key_value
    ribat.Policy.Reader.strip_comment ribat.Policy.Validate.is_zero ribat.Policy.Validate.validate
    ribat.Policy.Validate.validate_action ribat.Policy.Validate.validate_cosign_policy
freeze_loads = refl

options_read :
    (command : Text) → parse_operation_args sample_machine grant_args command true ≡ ok options
unfolding ribat.Base.clamp64 ribat.Base.codes ribat.Base.equal_fold ribat.Base.keep
    ribat.Base.last_index_byte ribat.Base.sort_by ribat.Base.split ribat.Base.take
    ribat.Base.text_eq ribat.Base.trim ribat.Base.trim_left ribat.Base.trim_prefix
    ribat.Base.trim_right ribat.Base.trim_space ribat.Base.wrap64 ribat.Base.◌+ℤ◌ ribat.Base.◌-ℤ◌
    ribat.Commands.Args.find_flag ribat.Commands.Args.find_inline ribat.Commands.Args.flag_name
    ribat.Commands.Args.image_required ribat.Commands.Args.next_arg ribat.Commands.Args.no_operation
    ribat.Commands.Args.one_image ribat.Commands.Args.other_operation ribat.Commands.Args.parse_args
    ribat.Commands.Args.parse_audit_args ribat.Commands.Args.parse_config_and_image
    ribat.Commands.Args.parse_config_only ribat.Commands.Args.parse_from
    ribat.Commands.Args.parse_import_args ribat.Commands.Args.parse_operation_args
    ribat.Commands.Args.parse_server_args ribat.Commands.Args.positive_ttl
    ribat.Commands.Args.set_operation ribat.Commands.conclude ribat.Commands.current_actor
    ribat.Commands.default_config_path ribat.Commands.with_state ribat.Policy.Duration.atoi
    ribat.Policy.Duration.parse_duration ribat.Policy.Duration.split_last ribat.Base.drop
options_read command = refl

freeze_reads : parse_operation_args sample_machine grant_args (codes "freeze") false ≡ ok options
unfolding ribat.Base.clamp64 ribat.Base.codes ribat.Base.cut_at ribat.Base.drop
    ribat.Base.last_index_byte ribat.Base.sort_by ribat.Base.split ribat.Base.take
    ribat.Base.text_eq ribat.Base.trim ribat.Base.trim_left ribat.Base.trim_prefix
    ribat.Base.trim_right ribat.Base.trim_space ribat.Base.wrap64 ribat.Base.◌+ℤ◌ ribat.Base.◌-ℤ◌
    ribat.Commands.Args.find_flag ribat.Commands.Args.find_inline ribat.Commands.Args.flag_name
    ribat.Commands.Args.image_required ribat.Commands.Args.next_arg ribat.Commands.Args.no_operation
    ribat.Commands.Args.one_image ribat.Commands.Args.other_operation ribat.Commands.Args.parse_args
    ribat.Commands.Args.parse_audit_args ribat.Commands.Args.parse_config_and_image
    ribat.Commands.Args.parse_config_only ribat.Commands.Args.parse_from
    ribat.Commands.Args.parse_import_args ribat.Commands.Args.parse_operation_args
    ribat.Commands.Args.parse_server_args ribat.Commands.Args.positive_ttl
    ribat.Commands.Args.set_operation ribat.Commands.conclude ribat.Commands.current_actor
    ribat.Commands.default_config_path ribat.Commands.with_state ribat.Policy.Duration.atoi
    ribat.Policy.Duration.parse_duration ribat.Policy.Duration.split_last
freeze_reads = refl

nginx-Quarantined : Quarantined engine nginx found
unfolding ribat.Base.codes ribat.Base.cut ribat.Base.text_eq ribat.Base.trim_space
    ribat.Commands.new_engine ribat.Commands.new_resolver ribat.Commands.resolve_on
    ribat.Image.parse_reference ribat.Policy.Matcher.effective_policy_for
    ribat.Registry.Exchange.give ribat.Registry.Exchange.give_result ribat.Registry.Exchange.request
    ribat.Registry.Exchange.◌>>=◌ ribat.Registry.Resolver.resolve ribat.Registry.get_header
nginx-Quarantined = record { mutable = refl; not_allowed = refl; resolves = refl }

options-Lasts : Lasts sample_machine options engine
unfolding ribat.Base.◌+ℤ◌ ribat.Commands.State.expires_from_ttl ribat.Commands.new_resolver
    ribat.Commands.of_result ribat.Store.Overrides.is_active_freeze
    ribat.Store.Overrides.local_override ribat.Store.Overrides.make_override
    ribat.Store.Overrides.newer ribat.Store.Overrides.not_expired
    ribat.Store.Overrides.override_decision ribat.Store.Overrides.scan_approval
    ribat.Store.Overrides.scan_bypass ribat.Store.Overrides.scan_freeze ribat.Time.add_time
    ribat.Time.from_unix ribat.Time.nullable_time ribat.Time.nullable_unix ribat.Time.sub_time
    ribat.Time.unix new_engine
options-Lasts = refl

freeze_covers : covers (nullable_string nginx.digest) found.digest ≡ true
unfolding ribat.Image.parse_reference ribat.Store.Overrides.covers ribat.Store.Rows.nullable_string
freeze_covers = refl

run_freeze_quiet :
    ((run_freeze sample_machine grant_args sample_world).0.code ≡ 0)
    × ((decide engine sample_request (run_freeze sample_machine grant_args sample_world).1).0.1
        ≡ none)
unfolding ribat.Audit.Logger.record_event ribat.Base.clamp64 ribat.Base.codes ribat.Base.contains
    ribat.Base.cut ribat.Base.cut_at ribat.Base.drop ribat.Base.equal_fold ribat.Base.first
    ribat.Base.has_prefix ribat.Base.has_suffix ribat.Base.index_le ribat.Base.insert_by
    ribat.Base.is_space ribat.Base.join ribat.Base.keep ribat.Base.last_index_byte
    ribat.Base.sort_by ribat.Base.split ribat.Base.take ribat.Base.text_eq ribat.Base.trim
    ribat.Base.trim_left ribat.Base.trim_prefix ribat.Base.trim_right ribat.Base.trim_space
    ribat.Base.wrap64 ribat.Base.◌+ℤ◌ ribat.Base.◌-ℤ◌ ribat.Commands.Args.find_flag
    ribat.Commands.Args.find_inline ribat.Commands.Args.flag_name ribat.Commands.Args.image_required
    ribat.Commands.Args.next_arg ribat.Commands.Args.no_operation ribat.Commands.Args.one_image
    ribat.Commands.Args.other_operation ribat.Commands.Args.parse_args
    ribat.Commands.Args.parse_audit_args ribat.Commands.Args.parse_config_and_image
    ribat.Commands.Args.parse_config_only ribat.Commands.Args.parse_from
    ribat.Commands.Args.parse_import_args ribat.Commands.Args.parse_operation_args
    ribat.Commands.Args.parse_server_args ribat.Commands.Args.positive_ttl
    ribat.Commands.Args.set_operation ribat.Commands.Configured.checked_config
    ribat.Commands.Configured.load_file ribat.Commands.Configured.load_policy
    ribat.Commands.Grants.approve ribat.Commands.Grants.approve_in ribat.Commands.Grants.bypass
    ribat.Commands.Grants.bypass_in ribat.Commands.Grants.freeze ribat.Commands.Grants.freeze_in
    ribat.Commands.Grants.make_grant ribat.Commands.Grants.printed_row
    ribat.Commands.Grants.read_operation ribat.Commands.Grants.require
    ribat.Commands.Grants.run_approve ribat.Commands.Grants.run_bypass
    ribat.Commands.Grants.run_freeze ribat.Commands.State.expires_from_ttl
    ribat.Commands.State.log_operation ribat.Commands.State.open_configured_state
    ribat.Commands.State.open_sqlite ribat.Commands.State.operation_event ribat.Commands.conclude
    ribat.Commands.current_actor ribat.Commands.default_config_path ribat.Commands.exit_code
    ribat.Commands.failure ribat.Commands.new_engine ribat.Commands.new_resolver
    ribat.Commands.of_result ribat.Commands.on_error ribat.Commands.resolve_on
    ribat.Commands.with_state ribat.Engine.Decide.decide ribat.Engine.Decide.decide_age
    ribat.Engine.Decide.decide_known ribat.Engine.Decide.decide_mutable
    ribat.Engine.Decide.decide_new ribat.Engine.Decide.decide_observed
    ribat.Engine.Decide.decide_pinned ribat.Engine.Decide.decide_reference
    ribat.Engine.Decide.decide_resolution ribat.Engine.Decide.decide_resolved
    ribat.Engine.Decide.finish ribat.Engine.Decide.first_decision
    ribat.Engine.Decide.frozen_decision ribat.Engine.Decide.pinned_end
    ribat.Engine.Decide.record_error ribat.Engine.Decide.unresolved
    ribat.Engine.Decide.with_override ribat.Engine.decision_event ribat.Engine.decision_record
    ribat.Engine.lift ribat.Engine.record_audit ribat.Engine.record_outcome ribat.Engine.try
    ribat.Image.canonical ribat.Image.check_components ribat.Image.check_name
    ribat.Image.choose_registry ribat.Image.component_re ribat.Image.digest_re
    ribat.Image.has_explicit_registry ribat.Image.make_reference ribat.Image.normalize_name
    ribat.Image.parse_name ribat.Image.parse_reference ribat.Image.registry_re
    ribat.Image.split_digest ribat.Image.split_tag ribat.Image.tag_colon ribat.Image.tag_re
    ribat.Policy.Duration.atoi ribat.Policy.Duration.parse_duration ribat.Policy.Duration.split_last
    ribat.Policy.Matcher.apply_rule ribat.Policy.Matcher.effective_policy_for
    ribat.Policy.Matcher.first_match ribat.Policy.Matcher.match_pattern
    ribat.Policy.Matcher.wildcard_match ribat.Policy.Matcher.wildcard_regex
    ribat.Policy.Reader.Parser.checked ribat.Policy.Reader.Parser.clear_deeper
    ribat.Policy.Reader.Parser.load ribat.Policy.Reader.Parser.parse_line
    ribat.Policy.Reader.Parser.parse_lines ribat.Policy.Reader.Parser.parse_list_item
    ribat.Policy.Reader.Parser.parse_pair ribat.Policy.Reader.Parser.path_above
    ribat.Policy.Reader.Parser.path_at ribat.Policy.Reader.Parser.set_in_config
    ribat.Policy.Reader.Parser.set_in_rule ribat.Policy.Reader.Parser.set_rule_value
    ribat.Policy.Reader.Parser.set_value ribat.Policy.Reader.Parser.update_rule
    ribat.Policy.Reader.Parser.validated ribat.Policy.Reader.Values.set_cosign_value
    ribat.Policy.Reader.Values.set_mutable_tag_value
    ribat.Policy.Reader.Values.set_rule_cosign_value
    ribat.Policy.Reader.Values.set_rule_mutable_tag_value ribat.Policy.Reader.Values.with_bool
    ribat.Policy.Reader.Values.with_duration ribat.Policy.Reader.leading_spaces
    ribat.Policy.Reader.parse_bool ribat.Policy.Reader.parse_scalar
    ribat.Policy.Reader.split_yaml_key_value ribat.Policy.Reader.strip_comment
    ribat.Policy.Validate.effective ribat.Policy.Validate.effective_mode
    ribat.Policy.Validate.is_version_one ribat.Policy.Validate.is_zero
    ribat.Policy.Validate.validate ribat.Policy.Validate.validate_action
    ribat.Policy.Validate.validate_cosign_policy ribat.Policy.Validate.validate_defaults
    ribat.Policy.Validate.validate_rule ribat.Policy.Validate.validate_rules ribat.Regex.in_set
    ribat.Regex.in_span ribat.Regex.match_string ribat.Registry.Challenge.challenge_of
    ribat.Registry.Challenge.challenge_values ribat.Registry.Challenge.ends_part
    ribat.Registry.Challenge.parse_bearer_challenge ribat.Registry.Challenge.scan_step
    ribat.Registry.Challenge.split_challenge_params ribat.Registry.Challenge.split_from
    ribat.Registry.Exchange.give ribat.Registry.Exchange.give_result ribat.Registry.Exchange.go_on
    ribat.Registry.Exchange.read_all ribat.Registry.Exchange.read_limited
    ribat.Registry.Exchange.request ribat.Registry.Exchange.◌>>=◌
    ribat.Registry.Resolver.authorized_head ribat.Registry.Resolver.blob_url
    ribat.Registry.Resolver.challenged ribat.Registry.Resolver.do_manifest_request
    ribat.Registry.Resolver.do_registry_request
    ribat.Registry.Resolver.do_registry_request_with_auth ribat.Registry.Resolver.endpoint
    ribat.Registry.Resolver.fetch_bearer_token ribat.Registry.Resolver.fetch_blob
    ribat.Registry.Resolver.fetch_manifest ribat.Registry.Resolver.fetched_blob
    ribat.Registry.Resolver.fetched_manifest ribat.Registry.Resolver.head_or_get
    ribat.Registry.Resolver.is_success ribat.Registry.Resolver.manifest_types
    ribat.Registry.Resolver.manifest_url ribat.Registry.Resolver.media_type
    ribat.Registry.Resolver.read_token ribat.Registry.Resolver.resolve
    ribat.Registry.Resolver.resolve_at ribat.Registry.Resolver.resolved
    ribat.Registry.Resolver.should_fallback_to_get ribat.Registry.Resolver.token_query
    ribat.Registry.get_header ribat.Registry.set_header ribat.Store.Decisions.count_decisions
    ribat.Store.Decisions.insert_decision ribat.Store.Decisions.list_decisions
    ribat.Store.Decisions.record_decision ribat.Store.Export.Import.import_each
    ribat.Store.Export.Import.import_items ribat.Store.Export.Import.import_state
    ribat.Store.Export.Import.import_transaction ribat.Store.Export.Import.imported
    ribat.Store.Export.Import.rolled_back ribat.Store.Export.Restores.exported
    ribat.Store.Overrides.Insert.approve_digest ribat.Store.Overrides.Insert.bypass_tag
    ribat.Store.Overrides.Insert.freeze_tag ribat.Store.Overrides.Insert.get_approval
    ribat.Store.Overrides.Insert.get_bypass ribat.Store.Overrides.Insert.get_freeze
    ribat.Store.Overrides.Insert.insert_approval ribat.Store.Overrides.Insert.insert_bypass
    ribat.Store.Overrides.Insert.insert_freeze ribat.Store.Overrides.Precedence.find_override
    ribat.Store.Overrides.active_approval ribat.Store.Overrides.active_bypass
    ribat.Store.Overrides.active_freeze ribat.Store.Overrides.covers
    ribat.Store.Overrides.find_approval ribat.Store.Overrides.find_bypass
    ribat.Store.Overrides.find_freeze ribat.Store.Overrides.is_active_approval
    ribat.Store.Overrides.is_active_bypass ribat.Store.Overrides.is_active_freeze
    ribat.Store.Overrides.local_override ribat.Store.Overrides.make_override
    ribat.Store.Overrides.newer ribat.Store.Overrides.not_expired
    ribat.Store.Overrides.override_decision ribat.Store.Overrides.scan_approval
    ribat.Store.Overrides.scan_bypass ribat.Store.Overrides.scan_freeze ribat.Store.Rows.null_string
    ribat.Store.Rows.nullable_string ribat.Store.Rows.scan_approval_value
    ribat.Store.Rows.scan_bypass_value ribat.Store.Rows.scan_cosign_value
    ribat.Store.Rows.scan_decision_row ribat.Store.Rows.scan_freeze_value
    ribat.Store.Rows.scan_observation_value ribat.Store.Tables.by_id ribat.Store.Tables.import_row
    ribat.Store.Tables.import_rows ribat.Store.Tables.replace_row ribat.Store.Tables.replace_rows
    ribat.Store.Verifications.find_verification ribat.Store.Verifications.get_cosign_verification
    ribat.Store.Verifications.is_verification ribat.Store.Verifications.record_cosign_verification
    ribat.Store.Verifications.scan_first ribat.Store.Verifications.update_verification
    ribat.Store.Verifications.update_verifications ribat.Store.Verifications.upsert_verification
    ribat.Store.World.call ribat.Store.World.change ribat.Store.World.continue
    ribat.Store.World.gets ribat.Store.World.pure ribat.Store.World.raise ribat.Store.World.◌>>=◌
    ribat.Time.add_time ribat.Time.from_unix ribat.Time.nullable_time ribat.Time.nullable_unix
    ribat.Time.sub_time ribat.Time.unix
run_freeze_quiet = (refl, refl)

freeze_then_decide_example :
    (decide engine sample_request (run_freeze sample_machine grant_args sample_world).1).0.0.allowed
    ≡ false
unfolding codes ribat.Base.text_eq
freeze_then_decide_example =
    freeze_then_decide sample_machine grant_args sample_world options sample_config nginx engine
      sample_request nginx found
      (record { parses = freeze_reads; loads = freeze_loads; names = nginx_parses; on_file = refl })
      run_freeze_quiet.0 nginx_parses nginx_tag nginx-Quarantined freeze_covers options-Lasts
      run_freeze_quiet.1

run_freeze-Exits_example :
    Exits
      (with_freeze (make_grant sample_machine nginx options) [] sample_world.db)
      (run_freeze sample_machine grant_args sample_world)
unfolding ribat.Base.clamp64 ribat.Base.codes ribat.Base.contains ribat.Base.cut ribat.Base.cut_at
    ribat.Base.drop ribat.Base.equal_fold ribat.Base.first ribat.Base.has_prefix
    ribat.Base.has_suffix ribat.Base.index_le ribat.Base.insert_by ribat.Base.is_space
    ribat.Base.join ribat.Base.keep ribat.Base.last_index_byte ribat.Base.sort_by ribat.Base.split
    ribat.Base.take ribat.Base.text_eq ribat.Base.trim ribat.Base.trim_left ribat.Base.trim_prefix
    ribat.Base.trim_right ribat.Base.trim_space ribat.Base.wrap64 ribat.Base.◌+ℤ◌ ribat.Base.◌-ℤ◌
    ribat.Image.canonical ribat.Image.check_components ribat.Image.check_name
    ribat.Image.choose_registry ribat.Image.component_re ribat.Image.digest_re
    ribat.Image.has_explicit_registry ribat.Image.make_reference ribat.Image.normalize_name
    ribat.Image.parse_name ribat.Image.parse_reference ribat.Image.registry_re
    ribat.Image.split_digest ribat.Image.split_tag ribat.Image.tag_colon ribat.Image.tag_re
run_freeze-Exits_example =
    run_freeze-Exits sample_machine grant_args sample_world options nginx sample_config
      sample_db-IsWellFormed refl
      (record { parses = freeze_reads; has_reason = refl; names = nginx_parses }) refl
      (record { loads = freeze_loads; has_path = refl; on_file = refl })

bypass_loads :
    checked_config sample_machine (codes "/etc/ribat/config.yaml") (codes "bypass")
    ≡ ok sample_config
unfolding ribat.Base.codes ribat.Base.cut ribat.Base.cut_at ribat.Base.keep ribat.Base.text_eq
    ribat.Base.trim_space ribat.Base.wrap64 ribat.Commands.Configured.checked_config
    ribat.Commands.Configured.load_file ribat.Commands.Configured.load_policy
    ribat.Policy.Duration.atoi ribat.Policy.Duration.parse_duration ribat.Policy.Reader.Parser.load
    ribat.Policy.Reader.Values.set_mutable_tag_value ribat.Policy.Reader.leading_spaces
    ribat.Policy.Reader.parse_scalar ribat.Policy.Reader.split_yaml_key_value
    ribat.Policy.Reader.strip_comment ribat.Policy.Validate.is_zero ribat.Policy.Validate.validate
    ribat.Policy.Validate.validate_action ribat.Policy.Validate.validate_cosign_policy
bypass_loads = refl

run_bypass_calm :
    ((run_bypass sample_machine grant_args sample_world).0.code ≡ 0)
    × ((run_bypass sample_machine grant_args sample_world).1.faults ≡ [])
    × IsClear engine nginx found (run_bypass sample_machine grant_args sample_world).1.db
unfolding ribat.Audit.Logger.record_event ribat.Base.clamp64 ribat.Base.codes ribat.Base.contains
    ribat.Base.cut ribat.Base.cut_at ribat.Base.drop ribat.Base.equal_fold ribat.Base.first
    ribat.Base.has_prefix ribat.Base.has_suffix ribat.Base.index_le ribat.Base.insert_by
    ribat.Base.is_space ribat.Base.join ribat.Base.keep ribat.Base.last_index_byte
    ribat.Base.sort_by ribat.Base.split ribat.Base.take ribat.Base.text_eq ribat.Base.trim
    ribat.Base.trim_left ribat.Base.trim_prefix ribat.Base.trim_right ribat.Base.trim_space
    ribat.Base.wrap64 ribat.Base.◌+ℤ◌ ribat.Base.◌-ℤ◌ ribat.Commands.Args.find_flag
    ribat.Commands.Args.find_inline ribat.Commands.Args.flag_name ribat.Commands.Args.image_required
    ribat.Commands.Args.next_arg ribat.Commands.Args.no_operation ribat.Commands.Args.one_image
    ribat.Commands.Args.other_operation ribat.Commands.Args.parse_args
    ribat.Commands.Args.parse_audit_args ribat.Commands.Args.parse_config_and_image
    ribat.Commands.Args.parse_config_only ribat.Commands.Args.parse_from
    ribat.Commands.Args.parse_import_args ribat.Commands.Args.parse_operation_args
    ribat.Commands.Args.parse_server_args ribat.Commands.Args.positive_ttl
    ribat.Commands.Args.set_operation ribat.Commands.Configured.checked_config
    ribat.Commands.Configured.load_file ribat.Commands.Configured.load_policy
    ribat.Commands.Grants.approve ribat.Commands.Grants.approve_in ribat.Commands.Grants.bypass
    ribat.Commands.Grants.bypass_in ribat.Commands.Grants.freeze ribat.Commands.Grants.freeze_in
    ribat.Commands.Grants.make_grant ribat.Commands.Grants.printed_row
    ribat.Commands.Grants.read_operation ribat.Commands.Grants.require
    ribat.Commands.Grants.run_approve ribat.Commands.Grants.run_bypass
    ribat.Commands.Grants.run_freeze ribat.Commands.State.expires_from_ttl
    ribat.Commands.State.log_operation ribat.Commands.State.open_configured_state
    ribat.Commands.State.open_sqlite ribat.Commands.State.operation_event ribat.Commands.conclude
    ribat.Commands.current_actor ribat.Commands.default_config_path ribat.Commands.exit_code
    ribat.Commands.failure ribat.Commands.new_engine ribat.Commands.new_resolver
    ribat.Commands.of_result ribat.Commands.on_error ribat.Commands.resolve_on
    ribat.Commands.with_state ribat.Engine.Decide.Permitted.digest_permitted
    ribat.Engine.Decide.Permitted.frozen ribat.Engine.Decide.Permitted.is_aged
    ribat.Engine.Decide.Permitted.mutable_permitted ribat.Engine.Decide.Permitted.overridden
    ribat.Engine.Decide.Permitted.permitted ribat.Engine.Decide.Permitted.pinned_permitted
    ribat.Engine.Decide.Permitted.resolution_permitted ribat.Engine.Decide.Permitted.tag_reference
    ribat.Engine.Decide.Permitted.verified ribat.Image.canonical ribat.Image.check_components
    ribat.Image.check_name ribat.Image.choose_registry ribat.Image.component_re
    ribat.Image.digest_re ribat.Image.has_explicit_registry ribat.Image.make_reference
    ribat.Image.normalize_name ribat.Image.parse_name ribat.Image.parse_reference
    ribat.Image.registry_re ribat.Image.split_digest ribat.Image.split_tag ribat.Image.tag_colon
    ribat.Image.tag_re ribat.Policy.Duration.Prints.duration_string ribat.Policy.Duration.atoi
    ribat.Policy.Duration.parse_duration ribat.Policy.Duration.split_last
    ribat.Policy.Matcher.apply_rule ribat.Policy.Matcher.effective_policy_for
    ribat.Policy.Matcher.first_match ribat.Policy.Matcher.match_pattern
    ribat.Policy.Matcher.wildcard_match ribat.Policy.Matcher.wildcard_regex
    ribat.Policy.Reader.Parser.checked ribat.Policy.Reader.Parser.clear_deeper
    ribat.Policy.Reader.Parser.load ribat.Policy.Reader.Parser.parse_line
    ribat.Policy.Reader.Parser.parse_lines ribat.Policy.Reader.Parser.parse_list_item
    ribat.Policy.Reader.Parser.parse_pair ribat.Policy.Reader.Parser.path_above
    ribat.Policy.Reader.Parser.path_at ribat.Policy.Reader.Parser.set_in_config
    ribat.Policy.Reader.Parser.set_in_rule ribat.Policy.Reader.Parser.set_rule_value
    ribat.Policy.Reader.Parser.set_value ribat.Policy.Reader.Parser.update_rule
    ribat.Policy.Reader.Parser.validated ribat.Policy.Reader.Values.set_cosign_value
    ribat.Policy.Reader.Values.set_mutable_tag_value
    ribat.Policy.Reader.Values.set_rule_cosign_value
    ribat.Policy.Reader.Values.set_rule_mutable_tag_value ribat.Policy.Reader.Values.with_bool
    ribat.Policy.Reader.Values.with_duration ribat.Policy.Reader.leading_spaces
    ribat.Policy.Reader.parse_bool ribat.Policy.Reader.parse_scalar
    ribat.Policy.Reader.split_yaml_key_value ribat.Policy.Reader.strip_comment
    ribat.Policy.Validate.effective ribat.Policy.Validate.effective_mode
    ribat.Policy.Validate.is_version_one ribat.Policy.Validate.is_zero
    ribat.Policy.Validate.validate ribat.Policy.Validate.validate_action
    ribat.Policy.Validate.validate_cosign_policy ribat.Policy.Validate.validate_defaults
    ribat.Policy.Validate.validate_rule ribat.Policy.Validate.validate_rules ribat.Regex.in_set
    ribat.Regex.in_span ribat.Regex.match_string ribat.Registry.Challenge.challenge_of
    ribat.Registry.Challenge.challenge_values ribat.Registry.Challenge.ends_part
    ribat.Registry.Challenge.parse_bearer_challenge ribat.Registry.Challenge.scan_step
    ribat.Registry.Challenge.split_challenge_params ribat.Registry.Challenge.split_from
    ribat.Store.Observations.affected ribat.Store.Observations.create_observation
    ribat.Store.Observations.find_observation ribat.Store.Observations.get_observation
    ribat.Store.Observations.insert_observation ribat.Store.Observations.is_observation
    ribat.Store.Observations.is_observation_of_tag ribat.Store.Observations.list_observations
    ribat.Store.Observations.mark_allowed ribat.Store.Observations.mark_observation_allowed
    ribat.Store.Observations.require_affected ribat.Store.Observations.scan_first
    ribat.Store.Observations.touch ribat.Store.Observations.touch_observation
    ribat.Store.Observations.update_observation ribat.Store.Observations.update_rows
    ribat.Store.Observations.update_statement ribat.Store.Overrides.Insert.approve_digest
    ribat.Store.Overrides.Insert.bypass_tag ribat.Store.Overrides.Insert.freeze_tag
    ribat.Store.Overrides.Insert.get_approval ribat.Store.Overrides.Insert.get_bypass
    ribat.Store.Overrides.Insert.get_freeze ribat.Store.Overrides.Insert.insert_approval
    ribat.Store.Overrides.Insert.insert_bypass ribat.Store.Overrides.Insert.insert_freeze
    ribat.Store.Overrides.Precedence.find_override ribat.Store.Overrides.active_approval
    ribat.Store.Overrides.active_bypass ribat.Store.Overrides.active_freeze
    ribat.Store.Overrides.covers ribat.Store.Overrides.find_approval
    ribat.Store.Overrides.find_bypass ribat.Store.Overrides.find_freeze
    ribat.Store.Overrides.is_active_approval ribat.Store.Overrides.is_active_bypass
    ribat.Store.Overrides.is_active_freeze ribat.Store.Overrides.local_override
    ribat.Store.Overrides.make_override ribat.Store.Overrides.newer
    ribat.Store.Overrides.not_expired ribat.Store.Overrides.override_decision
    ribat.Store.Overrides.scan_approval ribat.Store.Overrides.scan_bypass
    ribat.Store.Overrides.scan_freeze ribat.Store.Verifications.find_verification
    ribat.Store.Verifications.get_cosign_verification ribat.Store.Verifications.is_verification
    ribat.Store.Verifications.record_cosign_verification ribat.Store.Verifications.scan_first
    ribat.Store.Verifications.update_verification ribat.Store.Verifications.update_verifications
    ribat.Store.Verifications.upsert_verification ribat.Store.World.call ribat.Store.World.change
    ribat.Store.World.continue ribat.Store.World.gets ribat.Store.World.pure ribat.Store.World.raise
    ribat.Store.World.◌>>=◌
run_bypass_calm = (refl, refl, record { not_denied = refl; not_frozen = refl; verifies = refl })

bypass_then_decide_example :
    ((decide engine sample_request (run_bypass sample_machine grant_args sample_world).1).0.1
      ≡ none)
    × ((decide engine sample_request
          (run_bypass sample_machine grant_args sample_world).1).0.0.allowed
        ≡ true)
unfolding codes ribat.Base.text_eq new_engine
bypass_then_decide_example =
    bypass_then_decide sample_machine grant_args sample_world options sample_config nginx engine
      sample_request nginx found
      (record {
        parses = options_read (codes "bypass");
        loads = bypass_loads;
        names = nginx_parses;
        on_file = refl;
      })
      run_bypass_calm.0 refl nginx_parses nginx_tag nginx-Quarantined run_bypass_calm.2
      options-Lasts run_bypass_calm.1
