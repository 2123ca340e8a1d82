-- ===== src/Tests/Decisions.antt =====
-- `Decide` on the sample.
use ribat.Base.{
  pos, true, [], none, some, codes, ok, ◌≡◌, refl, ◌∙◌, ◌∷◌, text_eq, keep, sort_by, has_prefix,
  has_suffix, contains, join, split, last_index_byte, index_le, take, drop, trim_space, clamp64,
  ◌-ℤ◌,
}
use ribat.Regex.{match_string}
use ribat.Image.{parse_reference, registry_re, component_re, tag_re, digest_re, canonical}
use ribat.Image.{make_reference}
use ribat.Time.{unix, from_unix, sub_time}
use ribat.Policy.Matcher.{effective_policy_for}
use ribat.Store.Rows.{scan_observation_value}
use ribat.Store.Observations.{find_observation, is_observation}
use ribat.Store.Observations.FirstSeen.{first_seen}
use ribat.Store.Overrides.{find_freeze, find_approval, find_bypass}
use ribat.Engine.Decide.{decide}
use ribat.Engine.Decide.Permitted.{
  permitted, mutable_permitted, resolution_permitted, digest_permitted, frozen, overridden, is_aged,
  verified,
}
use ribat.Engine.Decide.Safe.{decide_safe, decide_exact}
use ribat.Engine.Decide.Lasts.{decide_all}
use ribat.Engine.Decide.Remembers.{decide_all-first_seen}
use ribat.Tests.{sample_engine, sample_request, sample_world, nginx}

pub nginx_parses : parse_reference (codes "nginx") ≡ ok nginx
unfolding codes parse_reference trim_space split has_prefix has_suffix contains join last_index_byte
    index_le take drop text_eq match_string registry_re component_re tag_re digest_re canonical
nginx_parses = refl

pub nginx-permitted : permitted sample_engine nginx sample_world.db ≡ true
unfolding permitted make_reference codes text_eq keep sort_by unix from_unix sub_time
    effective_policy_for find_observation scan_observation_value is_observation find_freeze
    find_approval find_bypass mutable_permitted resolution_permitted digest_permitted frozen
    overridden is_aged verified clamp64 ◌-ℤ◌
nginx-permitted = refl

-- The run on the sample returns no error and allows the pull.
decide_exact_example :
    ((decide sample_engine sample_request sample_world).0.1 ≡ none)
    × ((decide sample_engine sample_request sample_world).0.0.allowed
        ≡ permitted sample_engine nginx sample_world.db)
decide_exact_example =
    decide_exact sample_engine sample_request nginx sample_world refl nginx_parses refl

pub sample_quiet : (decide sample_engine sample_request sample_world).0.1 ≡ none
sample_quiet =
    (decide_exact sample_engine sample_request nginx sample_world refl nginx_parses refl).0

pub sample_allowed : (decide sample_engine sample_request sample_world).0.0.allowed ≡ true
sample_allowed =
    (decide_exact sample_engine sample_request nginx sample_world refl nginx_parses refl).1
    ∙ nginx-permitted

decide_safe_example : permitted sample_engine nginx sample_world.db ≡ true
decide_safe_example =
    decide_safe sample_engine sample_request nginx sample_world refl nginx_parses sample_quiet
      sample_allowed

nginx_seen :
    first_seen
      (codes "docker.io")
      (codes "library/nginx")
      (codes "latest")
      (codes "sha256:ab")
      sample_world.db
    ≡ some (pos 0)
unfolding first_seen find_observation keep is_observation codes text_eq scan_observation_value
    from_unix
nginx_seen = refl

decide_all-first_seen_example :
    first_seen
      (codes "docker.io")
      (codes "library/nginx")
      (codes "latest")
      (codes "sha256:ab")
      (decide_all
        ((sample_engine, sample_request) ∷ (sample_engine, sample_request) ∷ [])
        sample_world).db
    ≡ some (pos 0)
decide_all-first_seen_example =
    decide_all-first_seen ((sample_engine, sample_request) ∷ (sample_engine, sample_request) ∷ [])
      sample_world (codes "docker.io") (codes "library/nginx") (codes "latest") (codes "sha256:ab")
      (pos 0) nginx_seen
