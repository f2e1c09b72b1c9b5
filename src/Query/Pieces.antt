-- ===== src/Query/Pieces.antt =====
-- The input of a query cut into pieces, by the decoder alone (`read_and_match` of src/session.rs), and
-- what the pieces are to an expectation.
use qwertty.Correlate.Matcher.{Event, Expectation, Reply}
use qwertty.Input
use qwertty.Input.{InputEvent, Events, SemanticDecoder, decoder_pending, has_settled_text, finish}
use qwertty.Prelude.{
  ℕ, ◌≡◌, refl, sym, ap, ◌∙◌, true, false, some, List, [], ◌∷◌, ◌++◌, append_assoc, append-nil,
  Bytes, length, min,
}
use qwertty.Query.Spans.{Quiet, Replied}

-- Bytes, and the events that they made.
abbrev pub Piece : Type 0
Piece = Bytes × Events

-- A piece ends where the bytes that the decoder then holds begin.
abbrev pub Cut : SemanticDecoder → Bytes → Bytes → Bytes → Type 0
Cut d whole span left =
    (whole ≡ span ++ left) × (length left ≡ min (length (decoder_pending d)) (length whole))

-- Bytes that the decoder takes one by one, from a decoder and bytes that no event has ended yet: each
-- byte that makes events ends a piece.
pub data Fed (d0 : SemanticDecoder) (held0 : Bytes)
    : Bytes → List Piece → SemanticDecoder → Bytes → Type 0 where
  at_start : Fed d0 held0 [] [] d0 held0
  quietly :
      {bytes held : Bytes} {pieces : List Piece} {d d1 : SemanticDecoder} (byte : ℕ)
      → Fed d0 held0 bytes pieces d held
      → Input.feed d (byte ∷ []) ≡ some (d1, [])
      → Fed d0 held0 (bytes ++ byte ∷ []) pieces d1 (held ++ byte ∷ [])
  ending :
      {bytes held left : Bytes} {pieces : List Piece} {d d1 : SemanticDecoder}
      {event : Event InputEvent} {events : Events} (byte : ℕ) (span : Bytes)
      → Fed d0 held0 bytes pieces d held
      → Input.feed d (byte ∷ []) ≡ some (d1, event ∷ events)
      → Cut d1 (held ++ byte ∷ []) span left
      → Fed d0 held0 (bytes ++ byte ∷ []) (pieces ++ (span, event ∷ events) ∷ []) d1 left

-- A read: its bytes, and at its end the text that has settled, if there is some.
pub data ReadOf (d0 : SemanticDecoder) (held0 bytes : Bytes)
    : List Piece → SemanticDecoder → Bytes → Type 0 where
  parked :
      {held : Bytes} {pieces : List Piece} {d : SemanticDecoder}
      → Fed d0 held0 bytes pieces d held
      → has_settled_text d ≡ false
      → ReadOf d0 held0 bytes pieces d held
  flushed :
      {held left : Bytes} {pieces : List Piece} {d : SemanticDecoder} (span : Bytes)
      → Fed d0 held0 bytes pieces d held
      → has_settled_text d ≡ true
      → Cut (finish d).0 held span left
      → ReadOf d0 held0 bytes (pieces ++ (span, (finish d).1) ∷ []) (finish d).0 left

-- Reads that are not empty, one after the other.
pub data Reads
    : SemanticDecoder → Bytes → List Bytes → List Piece → SemanticDecoder → Bytes → Type 0 where
  no_read : {d : SemanticDecoder} {held : Bytes} → Reads d held [] [] d held
  read_then :
      {byte : ℕ} {bytes held held1 held2 : Bytes} {reads : List Bytes} {pieces more : List Piece}
      {d d1 d2 : SemanticDecoder}
      → ReadOf d held (byte ∷ bytes) pieces d1 held1
      → Reads d1 held1 reads more d2 held2
      → Reads d held ((byte ∷ bytes) ∷ reads) (pieces ++ more) d2 held2

abbrev pub spans : List Piece → Bytes
spans [] = []
spans ((span, events) ∷ pieces) = span ++ spans pieces

-- No piece has a reply.
abbrev pub Quiets : Expectation → List Piece → Type 0
Quiets e [] = Unit {0}
Quiets e ((span, events) ∷ pieces) = Quiet e events × Quiets e pieces

-- The first piece with a reply gives it and is taken away, and all other pieces are kept.
pub record Answered (e : Expectation) (pieces : List Piece) (reply : Reply) (kept : Bytes)
    : Type 0 where
  pub before : List Piece
  pub span : Bytes
  pub events : Events
  pub behind : List Piece
  pub split : pieces ≡ before ++ (span, events) ∷ behind
  pub quiet : Quiets e before
  pub found : Replied e events reply
  pub rest : kept ≡ spans before ++ spans behind

pub spans-append : (xs ys : List Piece) → spans (xs ++ ys) ≡ spans xs ++ spans ys
spans-append [] ys = refl
spans-append ((span, events) ∷ xs) ys =
    ap (λ b. span ++ b) (spans-append xs ys) ∙ sym (append_assoc span (spans xs) (spans ys))

pub Quiets-append :
    (e : Expectation) (xs ys : List Piece) → Quiets e xs → Quiets e ys → Quiets e (xs ++ ys)
Quiets-append e [] ys h k = k
Quiets-append e ((span, events) ∷ xs) ys (q, h) k = (q, Quiets-append e xs ys h k)

pub spans-snoc :
    (xs : List Piece) (span : Bytes) (events : Events)
    → spans (xs ++ (span, events) ∷ []) ≡ spans xs ++ span
spans-snoc xs span events =
    spans-append xs ((span, events) ∷ []) ∙ ap (λ b. spans xs ++ b) (append-nil span)

-- A piece behind an answer is kept.
pub Answered-snoc :
    {e : Expectation} {pieces : List Piece} {reply : Reply} {kept : Bytes} (span : Bytes)
    (events : Events)
    → Answered e pieces reply kept
    → Answered e (pieces ++ (span, events) ∷ []) reply (kept ++ span)
Answered-snoc span events a = record {
  before = a.before;
  span = a.span;
  events = a.events;
  behind = a.behind ++ (span, events) ∷ [];
  split =
      ap (λ ps. ps ++ (span, events) ∷ []) a.split
      ∙ append_assoc a.before ((a.span, a.events) ∷ a.behind) ((span, events) ∷ []);
  quiet = a.quiet;
  found = a.found;
  rest =
      ap (λ b. b ++ span) a.rest
      ∙ append_assoc (spans a.before) (spans a.behind) span
      ∙ ap (λ b. spans a.before ++ b) (sym (spans-snoc a.behind span events));
}
