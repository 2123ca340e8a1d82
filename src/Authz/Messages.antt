-- ===== src/Authz/Messages.antt =====
-- `decisionMessage`: the text that the client of Docker reads.
use ribat.Base.{
  Bool, true, false, List, [], ◌∷◌, ◌++◌, Option, none, some, if◌then◌else◌, ℤ, pos, Text, codes,
  is_empty, join, ltb_ℤ,
}
use ribat.Time.{Time}
use ribat.Engine.{Decision}

-- `Time.Format` with the layout of the source, and `Duration.String`.
pub record Formats : Type 0 where
  pub format_time : Time → Text
  pub format_duration : ℤ → Text

abbrev pub time_line : Formats → Text → Option Time → List Text
time_line f label none = []
time_line f label (some t) = (label ++ f.format_time t) ∷ []

abbrev line_if : Bool → Text → List Text
line_if true line = line ∷ []
line_if false line = []

abbrev pub duration_line : Formats → Text → ℤ → List Text
duration_line f label d = if ltb_ℤ (pos 0) d then (label ++ f.format_duration d) ∷ [] else []

unfoldable pub decision_message : Formats → Decision → Text
decision_message f d = join (b'\n' ∷ []) (
    (if d.allowed then codes "Pull allowed by Ribat." else codes "Pull blocked by Ribat.")
    ∷ []
    ∷ (codes "Image: " ++ d.image_ref)
    ∷ ((if is_empty d.digest then [] else (codes "Resolved digest: " ++ d.digest) ∷ [])
        ++ ((codes "Policy: " ++ d.matched_rule)
            ∷ (time_line f (codes "Digest first seen: ") d.first_seen_at
                ++ (duration_line f (codes "Required minimum age: ") d.required_age
                    ++ (duration_line f (codes "Current age: ") d.current_age
                        ++ (time_line f (codes "Next allowed pull: ") d.next_allowed_at
                            ++ (line_if d.manual_approval (codes "Manual approval: active")
                                ++ (line_if d.frozen (codes "Freeze: active")
                                    ++ (codes "Reason: " ++ d.reason) ∷ [])))))))))
