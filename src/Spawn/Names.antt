-- ===== src/Spawn/Names.antt =====
-- The directory names of crates/csm-proxy/src/spawn.rs.
use Prim.Native.String.{String}
use crosspoint_simulator_mcp.Prelude.{
  ℕ, ◌≡◌, refl, false, not, ◌&&◌, List, [], ◌∷◌, ◌==◌, nat_eq, string_eq, any, arith, Bool-cases,
  inl, inr, ◌/◌, ◌%◌,
}
use crosspoint_simulator_mcp.Text.{codes}
use crosspoint_simulator_mcp.Spawn.{safe_dir_name, hex, hex_digit, is_safe, bytes}

-- The byte of `/`.
abbrev separator : ℕ
separator = 47

hex_digit-separator : (n : ℕ) → (hex_digit n == separator) ≡ false
hex_digit-separator n = ground arith

hex-separator : (bs : List ℕ) → any (λ b. b == separator) (hex bs) ≡ false
unfolding hex
hex-separator [] = refl
hex-separator (b ∷ bs) =
    ground (arith, hex_digit-separator (b / 16), hex_digit-separator (b % 16), hex-separator bs)

safe-separator :
    (bs : List ℕ) → any (λ b. not (is_safe b)) bs ≡ false → any (λ b. b == separator) bs ≡ false
unfolding is_safe
safe-separator [] h = refl
safe-separator (b ∷ bs) h = ground (arith, safe-separator bs)

-- No id, however it is chosen, puts a path separator into the name of its directory.
pub safe_dir_name-separator : (id : String) → any (λ b. b == 47) (safe_dir_name id) ≡ false
unfolding safe_dir_name
safe_dir_name-separator id =
    elim (Bool-cases (not (id == "") && not (any (λ b. not (is_safe b)) (bytes (codes id))))) [
      | inl safe ↦ rw safe (safe-separator (bytes (codes id)) (ground arith))
      | inr other ↦ rw other (hex-separator (bytes (codes id)))
    ]
