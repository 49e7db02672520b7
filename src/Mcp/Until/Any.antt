-- ===== src/Mcp/Until/Any.antt =====
-- The conditions of `observe` in crates/csm-proxy/src/mcp.rs.
use Prim.Native.String.{◌++◌ as append}
use crosspoint_simulator_mcp.Prelude.{
  ℕ, ◌<◌, ◌≡◌, refl, ◌↔◌, String, Bool, true, ◌||◌, Option, none, some, List, [], ◌∷◌, ◌++◌, arith,
  any, ℤ, string_eq,
}
use crosspoint_simulator_mcp.Text.{codes, contains}
use crosspoint_simulator_mcp.Json.{Value}
use crosspoint_simulator_mcp.Mcp.Until.{
  observe_until_matched, log_hit, activity_hit, page_hit, log_text, saved_page,
}

pub any-append {ℓ} :
    {A : Type ℓ} (p : A → Bool) (xs ys : List A) → any p (xs ++ ys) ≡ (any p xs || any p ys)
any-append p [] ys = refl
any-append p (x ∷ xs) ys = ground (arith, any-append p xs ys)

log_hit-grows :
    (events more : List Value) (needle : Option String)
    → log_hit events needle ≡ true
    → log_hit (events ++ more) needle ≡ true
log_hit-grows events more none h = h
log_hit-grows events more (some needle) h =
    ground
      (arith, any-append (λ event. contains (codes (log_text event)) (codes needle)) events more)

activity_hit-grows :
    (events more : List Value) (activity : String) (name : Option String)
    → activity_hit events activity name ≡ true
    → activity_hit (events ++ more) activity name ≡ true
activity_hit-grows events more activity none h = h
activity_hit-grows events more activity (some name) h = ground (
  arith,
  any-append
      (λ event. contains (codes (log_text event)) (codes (append "Entering activity: " name)))
      events more,
)

page_hit-grows :
    (events more : List Value) (reader_page : ℤ) (page : Option ℤ)
    → page_hit events reader_page page ≡ true
    → page_hit (events ++ more) reader_page page ≡ true
page_hit-grows events more reader_page none h = h
page_hit-grows events more reader_page (some page) h =
    ground (arith, any-append (saved_page page) events more)

-- A condition that holds goes on holding when more events are drained, with the same heartbeat.
pub observe_until_matched-grows :
    (until_log : Option String) (least : Option ℕ) (until_activity : Option String)
    (page : Option ℤ) (events more : List Value) (generation : Option ℕ) (activity : String)
    (reader_page : ℤ)
    → observe_until_matched until_log least until_activity page events generation activity
        reader_page
      ≡ true
    → observe_until_matched until_log least until_activity page
        (events ++ more)
        generation
        activity
        reader_page
      ≡ true
unfolding observe_until_matched
observe_until_matched-grows until_log least until_activity page events more generation activity
      reader_page h =
    ground (
      arith,
      log_hit-grows events more until_log,
      activity_hit-grows events more activity until_activity,
      page_hit-grows events more reader_page page,
    )

-- With the generation alone as condition it holds exactly if the heartbeat has a generation and that is
-- above the given one: a lost heartbeat never ends the wait.
pub observe_until_matched-generation :
    (least : ℕ) (events : List Value) (generation : Option ℕ) (activity : String) (reader_page : ℤ)
    → (observe_until_matched none (some least) none none events generation activity reader_page
        ≡ true)
      ↔ ((b : ℕ) × (generation ≡ some b) × (least < b))
unfolding observe_until_matched
observe_until_matched-generation least events none activity reader_page =
    (λ h. absurd (ground arith), λ (b, e, _). absurd (ground arith))
observe_until_matched-generation least events (some b) activity reader_page =
    (λ h. (b, refl, ground arith), λ (c, e, h). ground arith)
