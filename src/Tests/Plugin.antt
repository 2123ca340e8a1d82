-- ===== src/Tests/Plugin.antt =====
-- The Docker plugin on `docker pull nginx`.
use ribat.Base.{
  true, [], ◌∷◌, none, if◌then◌else◌, codes, text_eq, split, trim, contains, has_prefix,
  last_index_byte, index_le, equal_fold, ok, err, ◌≡◌, ◌↔◌, refl, pos, subst, sym,
}
use ribat.Engine.Decide.{decide}
use ribat.Engine.Decide.Permitted.{permitted}
use ribat.Authz.{
  Readers, Url, action_decide, inspect_request, path_parts, is_create_path, is_create,
  is_images_create_path, combine_image_and_tag, has_tag, inspect_url,
}
use ribat.Authz.Messages.{Formats}
use ribat.Authz.Server.{Server, PluginRequest, handle_authz_req, plugin_decision}
use ribat.Authz.Server.Exact.{Passes, handle_authz_req-Passes_iff}
use ribat.Authz.Server.Safe.{Accepted, handle_authz_req-allow_iff, handle_authz_req-permitted}
use ribat.Tests.{sample_engine, sample_world, nginx}
use ribat.Tests.Decisions.{nginx_parses, sample_quiet, sample_allowed}

abbrev pull_nginx : Url
pull_nginx = record {
  path = codes "/v1.41/images/create";
  get = λ key. if text_eq key (codes "fromImage") then codes "nginx" else [];
}

abbrev sample_readers : Readers
sample_readers = record {
  parse_request_uri = λ uri. ok pull_nginx;
  container_image = λ body. err (codes "no body");
  service_image = λ body. err (codes "no body");
}

abbrev plain : Formats
plain = record { format_time = λ t. codes "some time"; format_duration = λ d. codes "some time" }

abbrev sample_server : Server
sample_server = record {
  decide = decide sample_engine;
  has_decisions = true;
  audit = none;
  now = pos 0;
}

abbrev sample_plugin_request : PluginRequest
sample_plugin_request = record {
  user = codes "alice";
  user_authn_method = [];
  request_method = codes "POST";
  request_uri = codes "/v1.41/images/create?fromImage=nginx";
  request_body = [];
}

sample_inspected :
    inspect_request sample_readers (codes "POST") (codes "/v1.41/images/create?fromImage=nginx") []
    ≡ ok (action_decide (codes "nginx" ∷ []))
unfolding inspect_request equal_fold codes text_eq inspect_url is_images_create_path is_create_path
    is_create path_parts split trim contains has_prefix combine_image_and_tag has_tag
    last_index_byte index_le
sample_inspected = refl

handle_authz_req-Passes_iff_example :
    ((handle_authz_req sample_readers plain sample_server
        (ok sample_plugin_request)
        sample_world).0.allow
      ≡ true)
    ↔ Passes sample_readers sample_server sample_plugin_request sample_world
handle_authz_req-Passes_iff_example =
    handle_authz_req-Passes_iff sample_readers sample_server sample_plugin_request sample_world
      plain

nginx-Accepted :
    Accepted sample_server sample_plugin_request
      (ok (action_decide (codes "nginx" ∷ [])))
      sample_world
unfolding plugin_decision
nginx-Accepted = (sample_quiet, sample_allowed, tt)

pull_allowed :
    (handle_authz_req sample_readers plain sample_server
      (ok sample_plugin_request)
      sample_world).0.allow
    ≡ true
pull_allowed =
    (handle_authz_req-allow_iff sample_readers plain sample_server sample_plugin_request
        sample_world).1
      (subst (λ a. Accepted sample_server sample_plugin_request a sample_world)
        (sym sample_inspected) nginx-Accepted)

handle_authz_req-permitted_example : permitted sample_engine nginx sample_world.db ≡ true
handle_authz_req-permitted_example =
    handle_authz_req-permitted sample_readers plain sample_server sample_engine
      sample_plugin_request (codes "nginx") nginx sample_world sample_inspected refl nginx_parses
      pull_allowed
