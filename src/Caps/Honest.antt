-- ===== src/Caps/Honest.antt =====
-- What is known of a capability has evidence, and the probe can always ask (src/caps.rs).
use qwertty.Caps.{
  probed_finding, Capabilities, Finding, probed, inferred, unknown, EnvSource,
  env_seeded_capabilities, infer_hyperlinks, infer_truecolor, infer_iterm2_images,
  identity_from_env, is_all_unknown, TerminalIdentity,
}
use qwertty.Caps.Bundle.{
  is_ok, as_pixel_size, ProbeBundle, store_bundle_reply, store_mode_reply, set_field, find_mode,
  CapabilityField, synchronized_output, grapheme_clustering, in_band_resize, bracketed_paste,
}
use qwertty.Correlate.{is_some}
use qwertty.Correlate.Matcher.{Reply}
use qwertty.Prelude.{
  ℕ, ◌≡◌, refl, Bool, true, not, ◌&&◌, Option, none, some, List, [], ◌∷◌, arith, inl, inr, codes,
  Option-cases, Bytes,
}
use qwertty.Input.Reports.{PixelSize}
use qwertty.Report.{pixel_size, Rgb, OscColorKind, DecPrivateModeReport}

-- A finding without evidence has no value.
unfoldable pub is_honest : {A : Type 0} → Finding A → Bool
is_honest finding = elim finding.evidence [
  | probed via ↦ true
  | inferred via ↦ true
  | unknown ↦ not (is_some finding.value)
]

unfoldable pub has_evidence : Capabilities → Bool
has_evidence c =
    is_honest c.synchronized_output
    && is_honest c.grapheme_clustering
    && is_honest c.in_band_resize
    && is_honest c.bracketed_paste
    && is_honest c.kitty_keyboard
    && is_honest c.foreground_color
    && is_honest c.background_color
    && is_honest c.hyperlinks
    && is_honest c.truecolor
    && is_honest c.iterm2_images
    && is_honest c.kitty_graphics
    && is_honest c.text_area_pixels
    && is_honest c.cell_size

hyperlinks-is_honest : (env : EnvSource) → is_honest (infer_hyperlinks env) ≡ true
unfolding infer_hyperlinks is_honest
hyperlinks-is_honest env = ground arith

truecolor-is_honest : (env : EnvSource) → is_honest (infer_truecolor env) ≡ true
unfolding infer_truecolor is_honest
truecolor-is_honest env = ground arith

images-is_honest : (identity : TerminalIdentity) → is_honest (infer_iterm2_images identity) ≡ true
unfolding infer_iterm2_images is_honest
images-is_honest identity = ground arith

-- What the environment seeds has evidence, and nothing that a probe asks for is known.
pub seeded :
    (env : EnvSource)
    → (has_evidence (env_seeded_capabilities env) ≡ true)
      × (is_all_unknown (env_seeded_capabilities env) ≡ true)
unfolding env_seeded_capabilities has_evidence is_all_unknown
seeded env = (
  rw
      (
        hyperlinks-is_honest env,
        truecolor-is_honest env,
        images-is_honest (identity_from_env none env),
      )
      (unfold is_honest in refl),
  refl,
)

set_field-has_evidence :
    (field : CapabilityField) (finding : Finding Bool) (c : Capabilities)
    → is_honest finding ≡ true
    → has_evidence c ≡ true
    → has_evidence (set_field field finding c) ≡ true
unfolding has_evidence
set_field-has_evidence synchronized_output finding c k h = ground arith
set_field-has_evidence grapheme_clustering finding c k h = ground arith
set_field-has_evidence in_band_resize finding c k h = ground arith
set_field-has_evidence bracketed_paste finding c k h = ground arith

store_mode-has_evidence :
    (bundle : ProbeBundle) (id : ℕ) (report : DecPrivateModeReport) (c : Capabilities)
    → has_evidence c ≡ true
    → has_evidence (store_mode_reply bundle id report c) ≡ true
unfolding store_mode_reply is_honest
store_mode-has_evidence bundle id report c h = elim (Option-cases (find_mode id bundle.modes)) [
  | inl e ↦ rw (store_mode_reply, e) h
  | inr (field, e) ↦ rw (store_mode_reply, e) (set_field-has_evidence field _ c refl h)
]

probed-is_honest :
    {A : Type 0} (value : Option A) (via : Bytes) → is_honest (probed_finding value via) ≡ true
unfolding is_honest
probed-is_honest value via = refl

module _ (c : Capabilities) (h : has_evidence c ≡ true) where
  kitty_keyboard-is_honest :
      (finding : Finding ℕ)
      → is_honest finding ≡ true
      → has_evidence (record c { kitty_keyboard = finding }) ≡ true
  unfolding has_evidence
  kitty_keyboard-is_honest finding k = ground arith

  foreground_color-is_honest :
      (finding : Finding Rgb)
      → is_honest finding ≡ true
      → has_evidence (record c { foreground_color = finding }) ≡ true
  unfolding has_evidence
  foreground_color-is_honest finding k = ground arith

  background_color-is_honest :
      (finding : Finding Rgb)
      → is_honest finding ≡ true
      → has_evidence (record c { background_color = finding }) ≡ true
  unfolding has_evidence
  background_color-is_honest finding k = ground arith

  iterm2_images-is_honest :
      (finding : Finding Bool)
      → is_honest finding ≡ true
      → has_evidence (record c { iterm2_images = finding }) ≡ true
  unfolding has_evidence
  iterm2_images-is_honest finding k = ground arith

  kitty_graphics-is_honest :
      (finding : Finding Bool)
      → is_honest finding ≡ true
      → has_evidence (record c { kitty_graphics = finding }) ≡ true
  unfolding has_evidence
  kitty_graphics-is_honest finding k = ground arith

  text_area_pixels-is_honest :
      (finding : Finding PixelSize)
      → is_honest finding ≡ true
      → has_evidence (record c { text_area_pixels = finding }) ≡ true
  unfolding has_evidence
  text_area_pixels-is_honest finding k = ground arith

  cell_size-is_honest :
      (finding : Finding PixelSize)
      → is_honest finding ≡ true
      → has_evidence (record c { cell_size = finding }) ≡ true
  unfolding has_evidence
  cell_size-is_honest finding k = ground arith

store_color-has_evidence :
    (env : EnvSource) (bundle : ProbeBundle) (id : ℕ) (kind : OscColorKind) (rgb : Rgb)
    (c : Capabilities)
    → has_evidence c ≡ true
    → has_evidence
        (store_bundle_reply env bundle id (Reply.osc_color (record { kind = kind; rgb = rgb })) c)
      ≡ true
unfolding store_bundle_reply
store_color-has_evidence env bundle id OscColorKind.foreground rgb c h =
    foreground_color-is_honest c h _ (probed-is_honest (some rgb) (codes "OSC 10"))
store_color-has_evidence env bundle id OscColorKind.background rgb c h =
    background_color-is_honest c h _ (probed-is_honest (some rgb) (codes "OSC 11"))

attributes-has_evidence :
    (attrs : Bytes) (c : Capabilities)
    → has_evidence c ≡ true
    → has_evidence (record c { primary_device_attributes = some attrs }) ≡ true
unfolding has_evidence
attributes-has_evidence attrs c h = h

identity-has_evidence :
    (identity : TerminalIdentity) (c : Capabilities)
    → has_evidence c ≡ true
    → has_evidence (record c { identity = identity }) ≡ true
unfolding has_evidence
identity-has_evidence identity c h = h

-- Every reply keeps that.
pub store_reply-has_evidence :
    (env : EnvSource) (bundle : ProbeBundle) (id : ℕ) (reply : Reply) (c : Capabilities)
    → has_evidence c ≡ true
    → has_evidence (store_bundle_reply env bundle id reply c) ≡ true
unfolding store_bundle_reply
store_reply-has_evidence env bundle id (Reply.xt_version version) c h =
    let identity = identity_from_env (some version) env in
    iterm2_images-is_honest (record c { identity = identity }) (identity-has_evidence identity c h)
      _ (images-is_honest identity)
store_reply-has_evidence env bundle id (Reply.kitty_keyboard_flags bits) c h =
    kitty_keyboard-is_honest c h _ (probed-is_honest (some bits) (codes "CSI ?u"))
store_reply-has_evidence env bundle id (Reply.osc_color report) c h =
    store_color-has_evidence env bundle id report.kind report.rgb c h
store_reply-has_evidence env bundle id (Reply.dec_private_mode report) c h =
    store_mode-has_evidence bundle id report c h
store_reply-has_evidence env bundle id (Reply.primary_device_attributes attrs) c h =
    attributes-has_evidence attrs c h
store_reply-has_evidence env bundle id (Reply.kitty_graphics report) c h =
    kitty_graphics-is_honest c h _
      (probed-is_honest (some (is_ok report)) (codes "kitty graphics a=q"))
store_reply-has_evidence env bundle id (Reply.text_area_pixels report) c h =
    text_area_pixels-is_honest c h _
      (probed-is_honest (as_pixel_size (pixel_size report)) (codes "CSI 14 t"))
store_reply-has_evidence env bundle id (Reply.cell_size report) c h =
    cell_size-is_honest c h _
      (probed-is_honest (as_pixel_size (pixel_size report)) (codes "CSI 16 t"))
store_reply-has_evidence env bundle id (Reply.cursor_position _) c h = h
store_reply-has_evidence env bundle id (Reply.terminal_status _) c h = h

-- The replies of a probe in the order of their arrival.
unfoldable pub store_replies :
    EnvSource → ProbeBundle → List (ℕ × Reply) → Capabilities → Capabilities
store_replies env bundle [] c = c
store_replies env bundle ((id, reply) ∷ replies) c =
    store_replies env bundle replies (store_bundle_reply env bundle id reply c)

pub stored-has_evidence :
    (env : EnvSource) (bundle : ProbeBundle) (replies : List (ℕ × Reply)) (c : Capabilities)
    → has_evidence c ≡ true
    → has_evidence (store_replies env bundle replies c) ≡ true
unfolding store_replies
stored-has_evidence env bundle [] c h = h
stored-has_evidence env bundle ((id, reply) ∷ replies) c h =
    stored-has_evidence env bundle replies (store_bundle_reply env bundle id reply c)
      (store_reply-has_evidence env bundle id reply c h)

-- Whatever replies a probe gets, in whatever order, each capability that is known has evidence.
pub store_replies-has_evidence :
    (env : EnvSource) (bundle : ProbeBundle) (replies : List (ℕ × Reply))
    → has_evidence (store_replies env bundle replies (env_seeded_capabilities env)) ≡ true
store_replies-has_evidence env bundle replies =
    stored-has_evidence env bundle replies (env_seeded_capabilities env) (seeded env).0
