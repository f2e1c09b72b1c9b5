-- ===== src/Input/Typed.antt =====
-- Typed text (src/event.rs, push_text_events): what the text payloads of its events say.
use qwertty.Correlate.Matcher.{Event, input}
use qwertty.Input.{InputEvent, key, key_event, text_events}
use qwertty.Input.Keys.{Key, plain_key, with_text}
use qwertty.Input.Characters.{chars, encode_utf8}
use qwertty.Input.Characters.Lossless.{encode_utf8-chars}
use qwertty.Prelude.{
  ℕ, ◌≡◌, refl, ◌∙◌, true, Option, none, some, List, [], ◌∷◌, map, concat, append-nil, Bytes,
}
use qwertty.Syntax.Classes.{is_utf8}

abbrev encode_text : Option (List ℕ) → Bytes
encode_text none = []
encode_text (some characters) = concat (map encode_utf8 characters)

-- The UTF-8 bytes of the text payload of an event.
abbrev pub typed_bytes : Event InputEvent → Bytes
typed_bytes (input (key event)) = encode_text event.text
typed_bytes event = []

typed_chars :
    (characters : List ℕ)
    → concat
        (map typed_bytes (map (λ c. key_event (with_text c (plain_key (Key.char c)))) characters))
      ≡ concat (map encode_utf8 characters)
typed_chars [] = refl
typed_chars (c ∷ characters) = rw (append-nil, typed_chars characters) refl

-- The text of the events of a text run, encoded, is the run.
pub typed_bytes-text_events :
    (bytes : Bytes) → is_utf8 bytes ≡ true → concat (map typed_bytes (text_events bytes)) ≡ bytes
unfolding text_events
typed_bytes-text_events bytes ok = typed_chars (chars bytes) ∙ encode_utf8-chars bytes ok
