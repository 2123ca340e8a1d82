-- ===== src/Image/Samples.antt =====
-- Runs of the parser on the inputs of internal/image/reference_test.go.
use ribat.Base.{
  [], Bool, false, Text, codes, text_eq, Result, ok, err, ◌≡◌, refl, trim_space, split, has_prefix,
  has_suffix, contains, join, last_index_byte, index_le, take, drop,
}
use ribat.Image.{
  Reference, ImageError, parse_reference, canonical, make_reference, registry_re, component_re,
  tag_re, digest_re,
}
use ribat.Regex.{match_string}

same : Result ImageError Reference → Text → Bool
same (ok r) s = text_eq r.canonical_ref s
same (err e) s = false

parse_nginx :
    parse_reference (codes "nginx")
    ≡ ok (make_reference (codes "docker.io") (codes "library/nginx") (codes "latest") [])
unfolding codes parse_reference trim_space split has_prefix has_suffix contains join last_index_byte
    index_le take drop text_eq match_string registry_re component_re tag_re digest_re canonical
parse_nginx = refl

parse_port :
    parse_reference (codes "localhost:5000/team/app:v1@sha256:ab")
    ≡ ok (
        make_reference (codes "localhost:5000") (codes "team/app") (codes "v1") (codes "sha256:ab"))
unfolding codes parse_reference trim_space split has_prefix has_suffix contains join last_index_byte
    index_le take drop text_eq match_string registry_re component_re tag_re digest_re canonical
parse_port = refl
