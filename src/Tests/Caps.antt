-- ===== src/Tests/Caps.antt =====
-- Capabilities, policy, flags and width at concrete inputs.
use qwertty.Caps.{
  EnvSource, Capabilities, default_capabilities, infer_hyperlinks, infer_truecolor,
  matched_heuristic, parsed_u32, inferred_finding, program_from_xtversion, has_inside, lowercase,
  rio, kitty, tmux_program, tmux_mux,
}
use qwertty.Caps.Bundle.{
  ProbeBundle, register_bundle, register_modes, probe_bundle_commands, synchronized_output,
  grapheme_clustering, in_band_resize, bracketed_paste,
}
use qwertty.Commands.{csi, osc, apc}
use qwertty.Commands.Buffer.{command}
use qwertty.Commands.Graphics.{query_support, graphics_command}
use qwertty.Commands.Terminal.{request_dec_private_mode}
use qwertty.Correlate.{Correlator, new, register, register_scan}
use qwertty.Correlate.Matcher.{Expectation, Reply, distinguishes, expectation_eq}
use qwertty.Flags.{
  disambiguate_escape_codes, report_event_types, union_flags, contains_flags, granted_all_requested,
}
use qwertty.Input.Characters.{encode_utf8}
use qwertty.Policy.{restricted, interactive, allows, PolicyGate}
use qwertty.Prelude.{
  ℕ, ◌≡◌, refl, true, false, Option, none, some, List, [], ◌∷◌, ◌>>=◌, Bytes, bytes_eq,
  if◌then◌else◌, codes, decimal, digits,
}
use qwertty.Report.Numbers.{parse_decimal, decimal_loop, decimal_digit}
use qwertty.Width.{
  Profile, width_of, profile_for, find_profile, program_eq, cluster_width, find_deviation,
  baseline_width, sum_of,
}
use qwertty.Width.Baseline.{width_of-baseline_width}

-- An environment with one variable.
abbrev only : Bytes → Bytes → EnvSource
only var value name = if bytes_eq name var then some value else none

old_vte : (infer_hyperlinks (only (codes "VTE_VERSION") (codes "4999"))).value ≡ none
unfolding infer_hyperlinks matched_heuristic parsed_u32 parse_decimal decimal_loop decimal_digit
old_vte = refl

new_vte :
    infer_hyperlinks (only (codes "VTE_VERSION") (codes "+5000"))
    ≡ inferred_finding (some true) (codes "VTE_VERSION")
unfolding infer_hyperlinks matched_heuristic parsed_u32 parse_decimal decimal_loop decimal_digit
new_vte = refl

no_color : (infer_truecolor (only (codes "NO_COLOR") [])).value ≡ some false
unfolding infer_truecolor
no_color = refl

-- A name that holds the letters of another terminal's is taken for that one.
named_rio : program_from_xtversion (codes "Prioris 1.0") ≡ some rio
unfolding program_from_xtversion has_inside lowercase
named_rio = refl

asked_bytes :
    probe_bundle_commands.bytes
    ≡ codes
        "\u{1b}[>q\u{1b}[?u\u{1b}_Gi=4294967295,s=1,v=1,a=q,t=d,f=24;AAAA\u{1b}\\\u{1b}[14t\u{1b}[16t\u{1b}]10;?\u{1b}\\\u{1b}]11;?\u{1b}\\\u{1b}[?2026$p\u{1b}[?2027$p\u{1b}[?2048$p\u{1b}[?2004$p\u{1b}[c"
unfolding probe_bundle_commands query_support graphics_command apc csi osc command
    request_dec_private_mode decimal digits encode_utf8
asked_bytes = refl

abbrev asked : ProbeBundle
asked = record {
  fence = some 11;
  xtversion = some 0;
  kitty = some 1;
  graphics = some 2;
  text_area_pixels = some 3;
  cell_size = some 4;
  foreground = some 5;
  background = some 6;
  modes =
      (7, synchronized_output)
      ∷ (8, grapheme_clustering)
      ∷ (9, in_band_resize)
      ∷ (10, bracketed_paste)
      ∷ [];
}

registered : (register_bundle new >>= λ (c, bundle). some bundle) ≡ some asked
unfolding register_bundle register_modes register register_scan distinguishes expectation_eq
registered = refl

abbrev busy : Correlator
busy = record {
  slots =
      record { id = 4; expectation = Expectation.xt_version; outstanding = 1; reply = none } ∷ [];
  next_id = 5;
}

abbrev answers : List (ℕ × Reply)
answers = (1, Reply.kitty_keyboard_flags 5) ∷ (0, Reply.xt_version (codes "kitty 0.35")) ∷ []

no_reading :
    (allows restricted PolicyGate.clipboard_read ≡ false)
    × (allows interactive PolicyGate.notification ≡ true)
unfolding allows
no_reading = (refl, refl)

half_granted :
    granted_all_requested (record {
      requested = union_flags disambiguate_escape_codes report_event_types;
      granted = some disambiguate_escape_codes;
    })
    ≡ false
unfolding granted_all_requested union_flags contains_flags
half_granted = refl

-- Every character is a cluster, one column wide.
abbrev one_by_one : List ℕ → List (List ℕ)
one_by_one [] = []
one_by_one (c ∷ cs) = (c ∷ []) ∷ one_by_one cs

abbrev one_column : ℕ → Option ℕ
one_column c = some 1

-- A heart that tmux shows in three columns, and in two with mode 2027.
abbrev tmux_profile : Profile
tmux_profile = record {
  program = tmux_program;
  deviations = record { text = 0x2764 ∷ []; advance = 3; advance_2027 = some 2 } ∷ [];
}

abbrev under_tmux : Capabilities
under_tmux = record default_capabilities {
  identity = record { program = some kitty; version = none; mux_stack = tmux_mux ∷ [] };
}

deviates : width_of one_by_one one_column (tmux_profile ∷ []) (0x2764 ∷ 0x61 ∷ []) under_tmux ≡ 4
unfolding width_of profile_for find_profile program_eq cluster_width find_deviation baseline_width
    sum_of
deviates = refl

width_of-baseline_width_example :
    width_of one_by_one one_column (tmux_profile ∷ []) (0x2764 ∷ 0x61 ∷ []) default_capabilities
    ≡ baseline_width one_by_one one_column (tmux_profile ∷ []) (0x2764 ∷ 0x61 ∷ [])
unfolding profile_for
width_of-baseline_width_example =
    width_of-baseline_width one_by_one one_column (tmux_profile ∷ []) (0x2764 ∷ 0x61 ∷ [])
      default_capabilities refl refl
