-- ===== src/Query.antt =====
-- The synchronous query driver (`QueryState` and the reads of src/session.rs): one read is decoded a
-- byte at a time, replies complete the query, and what is no reply waits as typeahead.
pub mod Driver
pub mod Spans
pub mod Pieces
pub mod Kept
pub mod Tidy
pub mod Ends
pub mod Probe
use qwertty.Caps.Bundle.{expected, must_register}
use qwertty.Commands.{Command, encode}
use qwertty.Commands.Cursor.{request_position}
use qwertty.Commands.Terminal.{request_status}
use qwertty.Correlate
use qwertty.Correlate.{
  Correlator, Feed, completed, passthrough, Resolution, timeout, eof, cancelled, no_reply,
  take_reply, resolve,
}
use qwertty.Correlate.Matcher.{Event, Expectation, Reply}
use qwertty.Input
use qwertty.Input.{
  InputEvent, Events, SemanticDecoder, new_decoder, decoder_pending, has_settled_text, finish,
}
use qwertty.Prelude.{
  ℕ, ◌-◌, min, Bool, true, false, ◌||◌, not, Option, none, some, List, [], ◌∷◌, ◌++◌, Bytes, length,
  take, drop, is_empty, ◌==◌, if◌then◌else◌, ◌>>=◌,
}
use qwertty.Report.{CursorPositionReport, TerminalStatus}
use qwertty.Session.{TerminalDevice}

pub record QueryState : Type 0 where
  pub decoder : SemanticDecoder
  pub decoder_carry : Bytes
  pub correlator : Correlator
  pub typeahead : Bytes
  pub active_query : Option ℕ

-- `QueryState::new`
abbrev pub new_query : QueryState
new_query = record {
  decoder = new_decoder;
  decoder_carry = [];
  correlator = Correlate.new;
  typeahead = [];
  active_query = none;
}

abbrev pub Replies : Type 0
Replies = List (ℕ × Reply)

-- `ids.contains(&completed)`
abbrev pub contains_id : List ℕ → ℕ → Bool
contains_id [] id = false
contains_id (x ∷ ids) id = x == id || contains_id ids id

-- The loop of `attribute_span`: the correlator, the replies and `span_is_reply`.
pub record Attribution : Type 0 where
  pub correlator : Correlator
  pub replies : Replies
  pub span_is_reply : Bool

abbrev pub taken_reply : ℕ → Attribution → Correlator × Option Reply → Attribution
taken_reply id a (c, none) = record a { correlator = c; span_is_reply = true }
taken_reply id a (c, some reply) = record {
  correlator = c;
  replies = a.replies ++ (id, reply) ∷ [];
  span_is_reply = true;
}

unfoldable pub attribute_feed : List ℕ → Attribution → Correlator × Feed InputEvent → Attribution
attribute_feed ids a (c, completed id reply) =
    if contains_id ids id then taken_reply id a (take_reply c id) else record a { correlator = c }
attribute_feed ids a (c, passthrough event) = record a { correlator = c }

unfoldable pub attribute_events : List ℕ → Events → Attribution → Attribution
attribute_events ids [] a = a
attribute_events ids (event ∷ events) a =
    attribute_events ids events (attribute_feed ids a (Correlate.feed a.correlator event))

unfoldable pub attribute_span :
    List ℕ → Bytes → Events → QueryState → Replies → QueryState × Replies
attribute_span ids span events q replies =
    let a =
      attribute_events ids events
        (record { correlator = q.correlator; replies = replies; span_is_reply = false }) in
    (
      record q {
        correlator = a.correlator;
        typeahead = if a.span_is_reply then q.typeahead else q.typeahead ++ span;
      },
      a.replies,
    )

-- What `read_and_match` keeps from byte to byte.
pub record Reading : Type 0 where
  pub query : QueryState
  pub unattributed : Bytes
  pub replies : Replies

-- The span that events end: all unattributed bytes but those that the decoder still holds.
unfoldable pub cut_span : List ℕ → Events → Reading → Reading
cut_span ids events r =
    let pending_len = length (decoder_pending r.query.decoder) in
    let span_len = length r.unattributed - pending_len in
    let (q, replies) = attribute_span ids (take span_len r.unattributed) events r.query r.replies in
    record { query = q; unattributed = drop span_len r.unattributed; replies = replies }

-- `if events.is_empty() { continue; }`
abbrev pub after_events : List ℕ → Events → Reading → Reading
after_events ids [] r = r
after_events ids (event ∷ events) r = cut_span ids (event ∷ events) r

abbrev pub with_decoder : Reading → SemanticDecoder → Reading
with_decoder r decoder = record r { query = record r.query { decoder = decoder } }

-- The body of the loop over the bytes of a read.
unfoldable pub read_byte : List ℕ → ℕ → Reading → Option Reading
read_byte ids byte r = Input.feed r.query.decoder (byte ∷ []) >>= λ (decoder, events). some (
    after_events ids events
      (with_decoder (record r { unattributed = r.unattributed ++ byte ∷ [] }) decoder))

unfoldable pub read_bytes : List ℕ → Bytes → Reading → Option Reading
read_bytes ids [] r = some r
read_bytes ids (byte ∷ bytes) r = read_byte ids byte r >>= λ r'. read_bytes ids bytes r'

-- The flush at the end of a read.
unfoldable pub settle : List ℕ → Reading → Reading
settle ids r =
    let (decoder, events) = finish r.query.decoder in
    if has_settled_text r.query.decoder then cut_span ids events (with_decoder r decoder) else r

abbrev pub read_start : QueryState → Reading
read_start q = record {
  query = record q { decoder_carry = [] };
  unattributed = q.decoder_carry;
  replies = [];
}

-- The carry put back.
abbrev pub read_end : Reading → QueryState × Replies
read_end r = (record r.query { decoder_carry = r.unattributed }, r.replies)

-- `read_and_match` behind the read, on the bytes that it gave.
unfoldable pub match_chunk : List ℕ → Bytes → QueryState → Option (QueryState × Replies)
match_chunk ids chunk q =
    read_bytes ids chunk (read_start q) >>= λ r. some (read_end (settle ids r))
