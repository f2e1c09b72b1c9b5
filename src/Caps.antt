-- ===== src/Caps.antt =====
-- Capabilities and how the environment seeds them (src/caps.rs). A label or a variable's value is
-- its bytes, and the environment a function from a variable to its value.
pub mod Bundle
pub mod Honest
pub mod Registers
use qwertty.Prelude.{
  ℕ, ◌+◌, ◌*◌, ◌-◌, ◌^◌, Bool, true, false, not, ◌&&◌, ◌||◌, Option, none, some, List, [], ◌∷◌,
  ◌++◌, map, Bytes, bytes_eq, starts_with, leb, ◌==◌, if◌then◌else◌, ◌>>=◌, codes,
}
use qwertty.Correlate.{is_some}
use qwertty.Report.{Rgb}
use qwertty.Report.Numbers.{parse_u32}
use qwertty.Input.Reports.{PixelSize}
use qwertty.Syntax.Classes.{within}

pub data Evidence : Type 0 where
  probed inferred : Bytes → Evidence
  unknown : Evidence

pub record Finding (A : Type 0) : Type 0 where
  pub value : Option A
  pub evidence : Evidence

-- `Finding::probed`, `Finding::inferred` and `Finding::unknown`
abbrev pub probed_finding : {A : Type 0} → Option A → Bytes → Finding A
probed_finding value via = record { value = value; evidence = probed via }

abbrev pub inferred_finding : {A : Type 0} → Option A → Bytes → Finding A
inferred_finding value via = record { value = value; evidence = inferred via }

abbrev pub unknown_finding : {A : Type 0} → Finding A
unknown_finding = record { value = none; evidence = unknown }

-- `Finding::is_known`
abbrev pub is_known : {A : Type 0} → Finding A → Bool
is_known finding = is_some finding.value

pub data TerminalProgram : Type 0 where
  kitty ghostty iterm2 wez_term alacritty foot rio vs_code windows_terminal apple_terminal
        tmux_program screen_program :
      TerminalProgram
  unknown_program : Bytes → TerminalProgram

pub data Multiplexer : Type 0 where
  tmux_mux screen_mux zellij : Multiplexer

pub record TerminalIdentity : Type 0 where
  pub program : Option TerminalProgram
  pub version : Option Bytes
  pub mux_stack : List Multiplexer

-- `EnvSource`
abbrev pub EnvSource : Type 0
EnvSource = Bytes → Option Bytes

-- `str::contains`
unfoldable pub has_inside : Bytes → Bytes → Bool
has_inside [] part = starts_with [] part
has_inside (byte ∷ bytes) part = starts_with (byte ∷ bytes) part || has_inside bytes part

-- `str::to_ascii_lowercase`
unfoldable pub lowercase : Bytes → Bytes
lowercase bytes = map (λ byte. if within b'A' b'Z' byte then byte + 32 else byte) bytes

unfoldable pub program_from_xtversion : Bytes → Option TerminalProgram
program_from_xtversion version =
    if has_inside version (codes "kitty")
    then some kitty
    else if has_inside version (codes "ghostty")
    then some ghostty
    else if has_inside version (codes "WezTerm")
    then some wez_term
    else if has_inside version (codes "iTerm2")
    then some iterm2
    else if has_inside version (codes "Alacritty")
    then some alacritty
    else if has_inside version (codes "foot")
    then some foot
    else if has_inside version (codes "tmux")
    then some tmux_program
    else if has_inside version (codes "screen")
    then some screen_program
    else if has_inside (lowercase version) (codes "rio")
    then some rio
    else none

unfoldable pub program_from_term_program : Bytes → Option TerminalProgram
program_from_term_program term_program =
    if bytes_eq term_program (codes "iTerm.app")
    then some iterm2
    else if bytes_eq term_program (codes "Apple_Terminal")
    then some apple_terminal
    else if bytes_eq term_program (codes "vscode")
    then some vs_code
    else if bytes_eq term_program (codes "WezTerm")
    then some wez_term
    else if bytes_eq term_program (codes "ghostty")
    then some ghostty
    else if bytes_eq term_program (codes "tmux")
    then some tmux_program
    else if bytes_eq term_program (codes "rio")
    then some rio
    else none

unfoldable pub program_from_term : Bytes → Option TerminalProgram
program_from_term term =
    if bytes_eq term (codes "xterm-kitty")
    then some kitty
    else if bytes_eq term (codes "alacritty")
    then some alacritty
    else if bytes_eq term (codes "foot") || bytes_eq term (codes "foot-extra")
    then some foot
    else if bytes_eq term (codes "tmux-256color") || bytes_eq term (codes "tmux")
    then some tmux_program
    else if bytes_eq term (codes "screen") || bytes_eq term (codes "screen-256color")
    then some screen_program
    else none

-- The first of two values that there is.
abbrev or_else {ℓ} : {A : Type ℓ} → Option A → Option A → Option A
or_else none next = next
or_else (some a) next = some a

-- `if env(name).is_some() { mux_stack.push(mux) }`
abbrev pushed_mux : Bool → Multiplexer → List Multiplexer
pushed_mux present mux = if present then mux ∷ [] else []

unfoldable pub identity_from_env : Option Bytes → EnvSource → TerminalIdentity
identity_from_env xtversion env = record {
  program = or_else (xtversion >>= program_from_xtversion) (
      or_else (env (codes "TERM_PROGRAM") >>= program_from_term_program)
        (env (codes "TERM") >>= program_from_term));
  version = or_else xtversion (env (codes "TERM_PROGRAM_VERSION"));
  mux_stack =
      pushed_mux (is_some (env (codes "TMUX"))) tmux_mux
      ++ pushed_mux (is_some (env (codes "STY"))) screen_mux
      ++ pushed_mux (is_some (env (codes "ZELLIJ"))) zellij;
}

pub record HyperlinkEnvHeuristic : Type 0 where
  pub var : Bytes
  pub value : Option Bytes

abbrev with_value : Bytes → Bytes → HyperlinkEnvHeuristic
with_value var value = record { var = var; value = some value }

abbrev when_set : Bytes → HyperlinkEnvHeuristic
when_set var = record { var = var; value = none }

-- `HYPERLINK_ENV_HEURISTICS`
abbrev pub hyperlink_env_heuristics : List HyperlinkEnvHeuristic
hyperlink_env_heuristics =
    with_value (codes "TERM_PROGRAM") (codes "Hyper")
    ∷ with_value (codes "TERM_PROGRAM") (codes "iTerm.app")
    ∷ with_value (codes "TERM_PROGRAM") (codes "WezTerm")
    ∷ with_value (codes "TERM_PROGRAM") (codes "vscode")
    ∷ with_value (codes "TERM_PROGRAM") (codes "ghostty")
    ∷ with_value (codes "TERM") (codes "xterm-kitty")
    ∷ with_value (codes "TERM") (codes "alacritty")
    ∷ when_set (codes "DOMTERM")
    ∷ when_set (codes "WT_SESSION")
    ∷ when_set (codes "KONSOLE_VERSION")
    ∷ []

-- `VTE_HYPERLINK_MIN_VERSION`
abbrev pub vte_hyperlink_min_version : ℕ
vte_hyperlink_min_version = 5000

-- Whether a variable has the value that a heuristic asks for.
abbrev pub is_match : Option Bytes → Option Bytes → Bool
is_match none expected = false
is_match (some actual) (some expected) = bytes_eq actual expected
is_match (some actual) none = true

-- The loop of `infer_hyperlinks`: the variable of the first heuristic that matches.
unfoldable pub matched_heuristic : List HyperlinkEnvHeuristic → EnvSource → Option Bytes
matched_heuristic [] env = none
matched_heuristic (heuristic ∷ heuristics) env =
    let rest = matched_heuristic heuristics env in
    if is_match (env heuristic.var) heuristic.value then some heuristic.var else rest

-- `str::parse::<u32>().ok()`, which takes a plus sign
unfoldable pub parsed_u32 : Bytes → Option ℕ
parsed_u32 [] = none
parsed_u32 (byte ∷ bytes) = if byte == b'+' then parse_u32 bytes else parse_u32 (byte ∷ bytes)

abbrev pub is_new_vte : Option ℕ → Bool
is_new_vte none = false
is_new_vte (some version) = leb vte_hyperlink_min_version version

unfoldable pub infer_hyperlinks : EnvSource → Finding Bool
infer_hyperlinks env = elim (matched_heuristic hyperlink_env_heuristics env) [
  | some var ↦ inferred_finding (some true) var
  | none ↦
      if is_new_vte (env (codes "VTE_VERSION") >>= parsed_u32)
      then inferred_finding (some true) (codes "VTE_VERSION")
      else unknown_finding
]

abbrev pub is_true_color : Option Bytes → Bool
is_true_color none = false
is_true_color (some colorterm) =
    bytes_eq colorterm (codes "truecolor") || bytes_eq colorterm (codes "24bit")

unfoldable pub infer_truecolor : EnvSource → Finding Bool
infer_truecolor env =
    if is_some (env (codes "NO_COLOR"))
    then inferred_finding (some false) (codes "NO_COLOR")
    else if is_true_color (env (codes "COLORTERM"))
    then inferred_finding (some true) (codes "COLORTERM")
    else if is_some (env (codes "FORCE_COLOR"))
    then inferred_finding (some true) (codes "FORCE_COLOR")
    else unknown_finding

unfoldable pub shows_iterm2_images : Option TerminalProgram → Bool
shows_iterm2_images (some iterm2) = true
shows_iterm2_images (some wez_term) = true
shows_iterm2_images _ = false

unfoldable pub infer_iterm2_images : TerminalIdentity → Finding Bool
infer_iterm2_images identity =
    if shows_iterm2_images identity.program
    then inferred_finding (some true) (codes "terminal identity")
    else unknown_finding

pub data ProbeSkip : Type 0 where
  term_dumb linux_console : ProbeSkip

unfoldable pub probe_skip_from_env : EnvSource → Option ProbeSkip
probe_skip_from_env env = env (codes "TERM") >>= λ term.
    if bytes_eq term (codes "dumb")
    then some term_dumb
    else if bytes_eq term (codes "linux")
    then some linux_console
    else none

-- The kitty flags are their bits, and the primary device attributes their parameters.
pub record Capabilities : Type 0 where
  pub synchronized_output : Finding Bool
  pub grapheme_clustering : Finding Bool
  pub in_band_resize : Finding Bool
  pub bracketed_paste : Finding Bool
  pub kitty_keyboard : Finding ℕ
  pub primary_device_attributes : Option Bytes
  pub foreground_color : Finding Rgb
  pub background_color : Finding Rgb
  pub hyperlinks : Finding Bool
  pub truecolor : Finding Bool
  pub iterm2_images : Finding Bool
  pub kitty_graphics : Finding Bool
  pub text_area_pixels : Finding PixelSize
  pub cell_size : Finding PixelSize
  pub identity : TerminalIdentity
  pub probe_skip : Option ProbeSkip

-- `Capabilities::is_all_unknown`
unfoldable pub is_all_unknown : Capabilities → Bool
is_all_unknown c =
    not (is_known c.synchronized_output)
    && not (is_known c.grapheme_clustering)
    && not (is_known c.in_band_resize)
    && not (is_known c.bracketed_paste)
    && not (is_known c.kitty_keyboard)
    && not (is_some c.primary_device_attributes)
    && not (is_known c.foreground_color)
    && not (is_known c.background_color)
    && not (is_known c.kitty_graphics)
    && not (is_known c.text_area_pixels)
    && not (is_known c.cell_size)

-- `Capabilities::default`
abbrev pub default_capabilities : Capabilities
default_capabilities = record {
  synchronized_output = unknown_finding;
  grapheme_clustering = unknown_finding;
  in_band_resize = unknown_finding;
  bracketed_paste = unknown_finding;
  kitty_keyboard = unknown_finding;
  primary_device_attributes = none;
  foreground_color = unknown_finding;
  background_color = unknown_finding;
  hyperlinks = unknown_finding;
  truecolor = unknown_finding;
  iterm2_images = unknown_finding;
  kitty_graphics = unknown_finding;
  text_area_pixels = unknown_finding;
  cell_size = unknown_finding;
  identity = record { program = none; version = none; mux_stack = [] };
  probe_skip = none;
}

unfoldable pub env_seeded_capabilities : EnvSource → Capabilities
env_seeded_capabilities env =
    let identity = identity_from_env none env in
    record default_capabilities {
      hyperlinks = infer_hyperlinks env;
      truecolor = infer_truecolor env;
      iterm2_images = infer_iterm2_images identity;
      identity = identity;
    }

unfoldable pub skipped_capabilities : ProbeSkip → EnvSource → Capabilities
skipped_capabilities skip env = record (env_seeded_capabilities env) { probe_skip = some skip }
