-- ===== src/Tests/Pages.antt =====
-- The page of a log line, on a line that a firmware prints.
use crosspoint_simulator_mcp.Prelude.{
  ◌≡◌, refl, ◌↔◌, ◌⊎◌, true, none, some, [], ◌∷◌, ◌++◌, arith, pos, negsuc,
}
use crosspoint_simulator_mcp.Text.{codes, contains, after_tag, tagged_i32}
use crosspoint_simulator_mcp.Text.Decimal.{show_i32}
use crosspoint_simulator_mcp.Json.{Value, string, json}
use crosspoint_simulator_mcp.Mcp.Until.{log_text, observe_until_matched}
use crosspoint_simulator_mcp.Mcp.Until.Page.{observe_until_matched-progress}

abbrev progress : Value
progress = json (("log", json (("text", string "Progress saved: page=12, spine=3") ∷ [])) ∷ [])

lowest : tagged_i32 (codes "page=-2147483648") (codes "page=") ≡ some (negsuc 2147483647)
unfolding tagged_i32
lowest = refl

too_low : tagged_i32 (codes "page=-2147483649") (codes "page=") ≡ none
unfolding tagged_i32
too_low = refl

progress_saved : contains (codes (log_text progress)) (codes "Progress saved:") ≡ true
unfolding log_text contains crosspoint_simulator_mcp.Json.get
progress_saved = refl

page_found :
    after_tag (codes "page=") (codes (log_text progress))
    ≡ some (show_i32 (pos 12) ++ codes ", spine=3")
unfolding log_text after_tag crosspoint_simulator_mcp.Json.get
    crosspoint_simulator_mcp.Text.Decimal.show_digits
page_found = refl

observe_until_matched-progress_example :
    (observe_until_matched none none none (some (pos 12)) (progress ∷ []) none "" (pos 11) ≡ true)
    ↔ ((pos 11 ≡ pos 12) ⊎ (pos 12 ≡ pos 12))
observe_until_matched-progress_example =
    observe_until_matched-progress progress (pos 12) (pos 12) (codes ", spine=3") none "" (pos 11)
      progress_saved page_found refl (omega arith)
