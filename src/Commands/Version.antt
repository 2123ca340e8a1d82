-- ===== src/Commands/Version.antt =====
-- internal/version/version.go: the version that a build has.
use ribat.Base.{◌++◌, ◌&&◌, if◌then◌else◌, Text, codes, is_empty}

-- The variables that the linker sets.
pub record Build : Type 0 where
  pub version : Text
  pub commit : Text
  pub date : Text

unfoldable pub version_string : Build → Text
version_string b =
    if is_empty b.commit && is_empty b.date
    then b.version
    else if is_empty b.commit
    then b.version ++ (codes " (" ++ (b.date ++ codes ")"))
    else if is_empty b.date
    then b.version ++ (codes " (" ++ (b.commit ++ codes ")"))
    else b.version ++ (codes " (" ++ (b.commit ++ (codes ", " ++ (b.date ++ codes ")"))))
