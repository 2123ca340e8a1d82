-- ===== src/Policy/Reader/Parser/Sections.antt =====
-- Which lines can change the default policy.
use ribat.Base.{ℕ, ℤ, List, Option, some, Text}
use ribat.Policy.{Config}
use ribat.Policy.Reader.Parser.{Parser}

module _ (std_parse : Text → Option ℤ) (n : ℕ) where
  -- A parser that has read a rule.
  abbrev pub in_rule_of : Config → List (ℕ × Text) → ℕ → Parser
  in_rule_of c paths i = record { config = c; paths = paths; current_rule = some i }
