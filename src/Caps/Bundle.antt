-- ===== src/Caps/Bundle.antt =====
-- The DA1-fenced probe of the capabilities (src/caps.rs, `bundle`): what it asks, how it registers its
-- expectations with the correlator, and where each reply goes.
use qwertty.Caps.{
  Capabilities, Finding, EnvSource, probed_finding, identity_from_env, infer_iterm2_images,
}
use qwertty.Commands.{Command}
use qwertty.Commands.Buffer
use qwertty.Commands.Buffer.{CommandBuffer, command}
use qwertty.Commands.Graphics.{query_support}
use qwertty.Commands.Osc.{request_foreground_color, request_background_color}
use qwertty.Commands.Terminal.{
  request_xtversion, request_kitty_keyboard_flags, request_text_area_pixels, request_cell_size,
  request_dec_private_mode, request_primary_device_attributes,
}
use qwertty.Correlate.{Correlator, Registered, register, Resolution, resolve}
use qwertty.Correlate.Matcher.{Expectation, Reply}
use qwertty.Input.Reports.{PixelSize}
use qwertty.Prelude.{
  ℕ, ◌-◌, ◌^◌, Bool, true, false, Option, none, some, List, [], ◌∷◌, ◌++◌, map, Bytes, bytes_eq,
  ◌==◌, if◌then◌else◌, ◌>>=◌, codes,
}
use qwertty.Report.{
  DecPrivateModeState, DecPrivateModeReport, OscColorKind, OscColorReport, KittyGraphicsReport,
  pixel_size,
}

pub data CapabilityField : Type 0 where
  synchronized_output grapheme_clustering in_band_resize bracketed_paste : CapabilityField

pub record ProbeMode : Type 0 where
  pub mode : ℕ
  pub field : CapabilityField

-- `PROBE_MODES`
abbrev pub probe_modes : List ProbeMode
probe_modes =
    record { mode = 2026; field = synchronized_output }
    ∷ record { mode = 2027; field = grapheme_clustering }
    ∷ record { mode = 2048; field = in_band_resize }
    ∷ record { mode = 2004; field = bracketed_paste }
    ∷ []

-- `GRAPHICS_PROBE_IMAGE_ID`
abbrev pub graphics_probe_image_id : ℕ
graphics_probe_image_id = 2 ^ 32 - 1

abbrev and_commands : CommandBuffer → List Command → CommandBuffer
and_commands buffer [] = buffer
and_commands buffer (next ∷ commands) = and_commands (command buffer next) commands

unfoldable pub probe_bundle_commands : CommandBuffer
probe_bundle_commands = and_commands Buffer.new (
    request_xtversion
      ∷ request_kitty_keyboard_flags
      ∷ query_support graphics_probe_image_id
      ∷ request_text_area_pixels
      ∷ request_cell_size
      ∷ request_foreground_color
      ∷ request_background_color
      ∷ map (λ probe. request_dec_private_mode probe.mode) probe_modes
    ++ request_primary_device_attributes ∷ [])

pub record ProbeBundle : Type 0 where
  pub fence : Option ℕ
  pub xtversion : Option ℕ
  pub kitty : Option ℕ
  pub graphics : Option ℕ
  pub text_area_pixels : Option ℕ
  pub cell_size : Option ℕ
  pub foreground : Option ℕ
  pub background : Option ℕ
  pub modes : List (ℕ × CapabilityField)

-- The `expect` on the result of `register`; `none` is the panic.
abbrev pub expected : Correlator × Registered → Option (Correlator × ℕ)
expected (c, Registered.ok id) = some (c, id)
expected (c, Registered.ambiguous id) = none

abbrev pub must_register : Correlator → Expectation → Option (Correlator × ℕ)
must_register c e = expected (register c e)

unfoldable pub register_modes :
    Correlator → List ProbeMode → Option (Correlator × List (ℕ × CapabilityField))
register_modes c [] = some (c, [])
register_modes c (probe ∷ probes) =
    must_register c (Expectation.dec_private_mode probe.mode) >>= λ (c', id).
    register_modes c' probes >>= λ (c'', modes). some (c'', (id, probe.field) ∷ modes)

-- `ProbeBundle::register`
unfoldable pub register_bundle : Correlator → Option (Correlator × ProbeBundle)
register_bundle c0 = must_register c0 Expectation.xt_version >>= λ (c1, xtversion).
    must_register c1 Expectation.kitty_keyboard_flags >>= λ (c2, kitty).
    must_register c2 (Expectation.kitty_graphics graphics_probe_image_id) >>= λ (c3, graphics).
    must_register c3 Expectation.text_area_pixels >>= λ (c4, text_area_pixels).
    must_register c4 Expectation.cell_size >>= λ (c5, cell_size).
    must_register c5 (Expectation.osc_color OscColorKind.foreground) >>= λ (c6, foreground).
    must_register c6 (Expectation.osc_color OscColorKind.background) >>= λ (c7, background).
    register_modes c7 probe_modes >>= λ (c8, modes).
    must_register c8 Expectation.primary_device_attributes >>= λ (c9, fence). some (
      c9,
      record {
        fence = some fence;
        xtversion = some xtversion;
        kitty = some kitty;
        graphics = some graphics;
        text_area_pixels = some text_area_pixels;
        cell_size = some cell_size;
        foreground = some foreground;
        background = some background;
        modes = modes;
      },
    )

abbrev listed : Option ℕ → List ℕ
listed none = []
listed (some id) = id ∷ []

-- `ProbeBundle::ids`
unfoldable pub ids : ProbeBundle → List ℕ
ids b =
    listed b.fence
    ++ listed b.xtversion
    ++ listed b.kitty
    ++ listed b.graphics
    ++ listed b.text_area_pixels
    ++ listed b.cell_size
    ++ listed b.foreground
    ++ listed b.background
    ++ map (λ (id, field). id) b.modes

abbrev pub resolve_ids : Resolution → Correlator → List ℕ → Correlator
resolve_ids resolution c [] = c
resolve_ids resolution c (id ∷ ids) = resolve_ids resolution ((resolve c id resolution).0) ids

-- `ProbeBundle::resolve_all`
unfoldable pub resolve_all : ProbeBundle → Correlator → Resolution → Correlator
resolve_all b c resolution = resolve_ids resolution c (ids b)

unfoldable pub decrqm_evidence : ℕ → Bytes
decrqm_evidence mode =
    if mode == 2026
    then codes "DECRQM 2026"
    else if mode == 2027
    then codes "DECRQM 2027"
    else if mode == 2048
    then codes "DECRQM 2048"
    else if mode == 2004
    then codes "DECRQM 2004"
    else codes "DECRQM"

-- `DecPrivateModeState::is_enabled`
unfoldable pub is_enabled : DecPrivateModeState → Option Bool
is_enabled DecPrivateModeState.set = some true
is_enabled DecPrivateModeState.permanently_set = some true
is_enabled DecPrivateModeState.reset = some false
is_enabled DecPrivateModeState.permanently_reset = some false
is_enabled DecPrivateModeState.not_recognized = none

-- `bundle.modes.iter().find(..)`
unfoldable pub find_mode : ℕ → List (ℕ × CapabilityField) → Option CapabilityField
find_mode id [] = none
find_mode id ((mode_id, field) ∷ modes) =
    let rest = find_mode id modes in if mode_id == id then some field else rest

abbrev pub set_field : CapabilityField → Finding Bool → Capabilities → Capabilities
set_field synchronized_output finding c = record c { synchronized_output = finding }
set_field grapheme_clustering finding c = record c { grapheme_clustering = finding }
set_field in_band_resize finding c = record c { in_band_resize = finding }
set_field bracketed_paste finding c = record c { bracketed_paste = finding }

unfoldable pub store_mode_reply :
    ProbeBundle → ℕ → DecPrivateModeReport → Capabilities → Capabilities
store_mode_reply bundle id report c = elim (find_mode id bundle.modes) [
  | none ↦ c
  | some field ↦
      set_field field (probed_finding (is_enabled report.state) (decrqm_evidence report.mode)) c
]

-- `KittyGraphicsReport::is_ok`
abbrev pub is_ok : KittyGraphicsReport → Bool
is_ok report = bytes_eq report.message (codes "OK")

abbrev pub as_pixel_size : Option (ℕ × ℕ) → Option PixelSize
as_pixel_size none = none
as_pixel_size (some (width, height)) = some (record { width = width; height = height })

abbrev store_color : OscColorReport → OscColorKind → Capabilities → Capabilities
store_color report OscColorKind.foreground c = record c {
  foreground_color = probed_finding (some report.rgb) (codes "OSC 10");
}
store_color report OscColorKind.background c = record c {
  background_color = probed_finding (some report.rgb) (codes "OSC 11");
}

-- `store_bundle_reply`; `env` is the environment of the process.
unfoldable pub store_bundle_reply :
    EnvSource → ProbeBundle → ℕ → Reply → Capabilities → Capabilities
store_bundle_reply env bundle id (Reply.xt_version version) c =
    let identity = identity_from_env (some version) env in
    record c { identity = identity; iterm2_images = infer_iterm2_images identity }
store_bundle_reply env bundle id (Reply.kitty_keyboard_flags bits) c = record c {
  kitty_keyboard = probed_finding (some bits) (codes "CSI ?u");
}
store_bundle_reply env bundle id (Reply.osc_color report) c = store_color report report.kind c
store_bundle_reply env bundle id (Reply.dec_private_mode report) c =
    store_mode_reply bundle id report c
store_bundle_reply env bundle id (Reply.primary_device_attributes attrs) c = record c {
  primary_device_attributes = some attrs;
}
store_bundle_reply env bundle id (Reply.kitty_graphics report) c = record c {
  kitty_graphics = probed_finding (some (is_ok report)) (codes "kitty graphics a=q");
}
store_bundle_reply env bundle id (Reply.text_area_pixels report) c = record c {
  text_area_pixels = probed_finding (as_pixel_size (pixel_size report)) (codes "CSI 14 t");
}
store_bundle_reply env bundle id (Reply.cell_size report) c = record c {
  cell_size = probed_finding (as_pixel_size (pixel_size report)) (codes "CSI 16 t");
}
store_bundle_reply env bundle id (Reply.cursor_position _) c = c
store_bundle_reply env bundle id (Reply.terminal_status _) c = c
