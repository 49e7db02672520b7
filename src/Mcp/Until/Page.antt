-- ===== src/Mcp/Until/Page.antt =====
-- The condition on the page that a reader has saved, in crates/csm-proxy/src/mcp.rs.
use mathlib.Core.Path.{subst}
use crosspoint_simulator_mcp.Prelude.{
  ℕ, ◌≡◌, refl, ap, ◌↔◌, ◌⊎◌, String, true, Option, none, some, List, [], ◌∷◌, ◌++◌, arith, ℤ, pos,
  negsuc, nat_eq,
}
use crosspoint_simulator_mcp.Text.{codes, contains, after_tag}
use crosspoint_simulator_mcp.Text.Decimal.{show_i32, InI32, ends_number, tagged_i32-show_i32}
use crosspoint_simulator_mcp.Json.{Value}
use crosspoint_simulator_mcp.Mcp.Until.{observe_until_matched, log_text, saved_page, int_beq}

int_beq_refl : (m : ℤ) → int_beq m m ≡ true
int_beq_refl (pos m) = (nat_eq.eqb_iff m m).1 refl
int_beq_refl (negsuc m) = (nat_eq.eqb_iff m m).1 refl

int_beq_eq : (m n : ℤ) → int_beq m n ≡ true → m ≡ n
int_beq_eq (pos m) (pos n) h = ap pos ((nat_eq.eqb_iff m n).0 h)
int_beq_eq (negsuc m) (negsuc n) h = ap negsuc ((nat_eq.eqb_iff m n).0 h)
int_beq_eq (pos m) (negsuc n) h = absurd (ground arith)
int_beq_eq (negsuc m) (pos n) h = absurd (ground arith)

int_beq_iff : (m n : ℤ) → (int_beq m n ≡ true) ↔ (m ≡ n)
int_beq_iff m n = (int_beq_eq m n, λ p. subst (λ k. int_beq m k ≡ true) p (int_beq_refl m))

saved_page-logged :
    (event : Value) (z page : ℤ) (after : List ℕ)
    → contains (codes (log_text event)) (codes "Progress saved:") ≡ true
    → after_tag (codes "page=") (codes (log_text event)) ≡ some (show_i32 z ++ after)
    → ends_number after ≡ true
    → InI32 z
    → saved_page page event ≡ int_beq z page
unfolding saved_page
saved_page-logged event z page after saved found ends h =
    let tagged =
      tagged_i32-show_i32 (codes (log_text event)) 112 (97 ∷ 103 ∷ 101 ∷ 61 ∷ []) z after refl found
        ends h in
    rw (saved_page, saved, tagged) refl

-- A log line says `Progress saved:` and has, after its first `page=`, a 32-bit number in decimal that no
-- digit or minus sign follows. A wait for a page alone is over with this line exactly if the last
-- heartbeat or the line gives that page.
pub observe_until_matched-progress :
    (event : Value) (z page : ℤ) (after : List ℕ) (generation : Option ℕ) (activity : String)
    (reader_page : ℤ)
    → contains (codes (log_text event)) (codes "Progress saved:") ≡ true
    → after_tag (codes "page=") (codes (log_text event)) ≡ some (show_i32 z ++ after)
    → ends_number after ≡ true
    → InI32 z
    → (observe_until_matched none none none (some page) (event ∷ []) generation activity reader_page
        ≡ true)
      ↔ ((reader_page ≡ page) ⊎ (z ≡ page))
unfolding observe_until_matched
observe_until_matched-progress event z page after generation activity reader_page saved found ends
      h =
    let line = saved_page-logged event z page after saved found ends h in
    ground (arith, line, int_beq_iff reader_page page, int_beq_iff z page)
