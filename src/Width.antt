-- ===== src/Width.antt =====
-- Terminal width of text (src/width.rs). The grapheme clusters of a string and the width of a
-- character are calls of other crates, and the profiles a generated table: all three are parameters.
pub mod Baseline
use qwertty.Caps.{
  Capabilities, TerminalProgram, TerminalIdentity, Multiplexer, kitty, ghostty, iterm2, wez_term,
  alacritty, foot, rio, vs_code, windows_terminal, apple_terminal, tmux_program, screen_program,
  unknown_program, tmux_mux, screen_mux, zellij,
}
use qwertty.Prelude.{
  ℕ, ◌+◌, ◌≡◌, refl, Bool, true, false, ◌&&◌, ◌||◌, Option, none, some, List, [], ◌∷◌, map, Bytes,
  bytes_eq, if◌then◌else◌, ◌>>=◌,
}

pub record Deviation : Type 0 where
  pub text : List ℕ
  pub advance : ℕ
  pub advance_2027 : Option ℕ

pub record Profile : Type 0 where
  pub program : TerminalProgram
  pub deviations : List Deviation

-- `==` on `TerminalProgram`
unfoldable pub program_eq : TerminalProgram → TerminalProgram → Bool
program_eq kitty kitty = true
program_eq ghostty ghostty = true
program_eq iterm2 iterm2 = true
program_eq wez_term wez_term = true
program_eq alacritty alacritty = true
program_eq foot foot = true
program_eq rio rio = true
program_eq vs_code vs_code = true
program_eq windows_terminal windows_terminal = true
program_eq apple_terminal apple_terminal = true
program_eq tmux_program tmux_program = true
program_eq screen_program screen_program = true
program_eq (unknown_program a) (unknown_program b) = bytes_eq a b
program_eq _ _ = false

abbrev is_tmux : Multiplexer → Bool
is_tmux tmux_mux = true
is_tmux _ = false

-- `mux_stack.contains(&Multiplexer::Tmux)`
abbrev has_tmux : List Multiplexer → Bool
has_tmux [] = false
has_tmux (mux ∷ muxes) = is_tmux mux || has_tmux muxes

abbrev is_tmux_program : Option TerminalProgram → Bool
is_tmux_program (some tmux_program) = true
is_tmux_program _ = false

unfoldable pub sum_of : List ℕ → ℕ
sum_of [] = 0
sum_of (n ∷ ns) = n + sum_of ns

-- `caps.grapheme_clustering.value() == Some(&true)`
abbrev pub is_clustering : Option Bool → Bool
is_clustering (some true) = true
is_clustering _ = false

module _ (graphemes : List ℕ → List (List ℕ)) (char_width : ℕ → Option ℕ)
    (profiles : List Profile) where
  unfoldable pub find_profile : List Profile → TerminalProgram → Option Profile
  find_profile [] program = none
  find_profile (profile ∷ rest) program =
      let found = find_profile rest program in
      if program_eq profile.program program then some profile else found

  unfoldable pub profile_for : TerminalIdentity → Option Profile
  profile_for identity =
      if is_tmux_program identity.program || has_tmux identity.mux_stack
      then find_profile profiles tmux_program
      else (identity.program >>= find_profile profiles)

  abbrev width_or_zero : Option ℕ → ℕ
  width_or_zero none = 0
  width_or_zero (some width) = width

  unfoldable pub baseline_width : List ℕ → ℕ
  baseline_width cluster = sum_of (map (λ c. width_or_zero (char_width c)) cluster)

  unfoldable pub find_deviation : List Deviation → List ℕ → Option Deviation
  find_deviation [] cluster = none
  find_deviation (deviation ∷ rest) cluster =
      let found = find_deviation rest cluster in
      if bytes_eq deviation.text cluster then some deviation else found

  -- The advance of a deviation.
  abbrev advance_of : Bool → Deviation → ℕ
  advance_of true deviation = elim deviation.advance_2027 [ none ↦ deviation.advance | some n ↦ n ]
  advance_of false deviation = deviation.advance

  unfoldable pub cluster_width : List ℕ → Option Profile → Bool → ℕ
  cluster_width cluster none mode_2027 = baseline_width cluster
  cluster_width cluster (some profile) mode_2027 =
      elim (find_deviation profile.deviations cluster) [
        | some deviation ↦ advance_of mode_2027 deviation
        | none ↦ baseline_width cluster
      ]

  unfoldable pub width_of : List ℕ → Capabilities → ℕ
  width_of s caps =
      let profile = profile_for caps.identity in
      let mode_2027 = is_clustering caps.grapheme_clustering.value in
      sum_of (map (λ cluster. cluster_width cluster profile mode_2027) (graphemes s))
