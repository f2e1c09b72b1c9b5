-- ===== src/Query/Kept.antt =====
-- What a read does to the input (`read_and_match` of src/session.rs): which bytes the reply takes away,
-- and where all others stay.
use qwertty.Correlate.Matcher.{Expectation, Reply}
use qwertty.Input
use qwertty.Input.{Events, SemanticDecoder, decoder_pending, has_settled_text, finish}
use qwertty.Prelude.{
  ℕ, ◌-◌, ◌≡◌, inl, inr, refl, sym, ap, ◌∙◌, false, Option, none, some, [], ◌∷◌, ◌++◌, append_assoc,
  append-nil, Bytes, length, length-drop, arith, List, take, drop, take-append-drop, Bool-cases,
  ◌>>=◌, if◌then◌else◌, subst,
}
use qwertty.Query.{
  QueryState, Replies, Reading, Attribution, attribute_events, attribute_span, cut_span,
  after_events, with_decoder, read_byte, read_bytes, settle, read_start, read_end, match_chunk,
}
use qwertty.Query.Pieces.{
  Piece, Cut, Fed, at_start, quietly, ending, ReadOf, parked, flushed, spans, Quiets, Answered,
  Quiets-append, spans-snoc, Answered-snoc,
}
use qwertty.Query.Spans.{waiting_for, cleared, attribution, attribute-waiting, attribute-cleared}

-- Inversions of `Option`.
pub some_inj {ℓ} : {A : Type ℓ} {a b : A} → some a ≡ some b → a ≡ b
some_inj h = cc

pub bind_some {ℓ κ} :
    {A : Type ℓ} {B : Type κ} (m : Option A) (f : A → Option B) {b : B}
    → (m >>= f) ≡ some b
    → (a : A) × (m ≡ some a) × (f a ≡ some b)
bind_some none f h = cc
bind_some (some a) f h = (a, refl, h)

-- Where the query stands after some pieces: it waits, none of them has a reply and all are kept as
-- typeahead behind `start`; or the first with a reply is taken away, and all others are kept.
pub data Kept (e : Expectation) (id n : ℕ) (start : Bytes) (pieces : List Piece) (r : Reading)
    : Type 0 where
  waiting :
      r.query.correlator ≡ waiting_for e id n
      → r.query.active_query ≡ some id
      → r.replies ≡ []
      → Quiets e pieces
      → r.query.typeahead ≡ start ++ spans pieces
      → Kept e id n start pieces r
  answered :
      (reply : Reply) (kept : Bytes)
      → r.query.correlator ≡ cleared n
      → r.replies ≡ (id, reply) ∷ []
      → Answered e pieces reply kept
      → r.query.typeahead ≡ start ++ kept
      → Kept e id n start pieces r

-- The pieces of the bytes since some decoder and held bytes, and what became of them.
abbrev At : Expectation → ℕ → ℕ → Bytes → SemanticDecoder → Bytes → Bytes → Reading → Type 0
At e id n start d0 held0 bytes r =
    (pieces : List Piece) × Kept e id n start pieces r
    × Fed d0 held0 bytes pieces r.query.decoder r.unattributed

-- The state between two reads.
abbrev pub between : QueryState → Replies → Reading
between q replies = record { query = q; unattributed = q.decoder_carry; replies = replies }

module _ (e : Expectation) (id n : ℕ) (start : Bytes) where
  -- The length of the span that events end.
  abbrev span_len : Reading → ℕ
  span_len r = length r.unattributed - length (decoder_pending r.query.decoder)

  abbrev span_of : Reading → Bytes
  span_of r = take (span_len r) r.unattributed

  abbrev left_of : Reading → Bytes
  left_of r = drop (span_len r) r.unattributed

  -- A reading after its span, by what the events did.
  abbrev after_span : Reading → Attribution → Reading
  after_span r a = record {
    query = record r.query {
      correlator = a.correlator;
      typeahead = if a.span_is_reply then r.query.typeahead else r.query.typeahead ++ span_of r;
    };
    unattributed = left_of r;
    replies = a.replies;
  }

  cut_span-attribution :
      (events : Events) (r : Reading)
      → cut_span (id ∷ []) events r
        ≡ after_span r (
            attribute_events (id ∷ []) events (record {
              correlator = r.query.correlator;
              replies = r.replies;
              span_is_reply = false;
            }))
  unfolding cut_span attribute_span
  cut_span-attribution events r = refl

  left_Cut : (r : Reading) → Cut r.query.decoder r.unattributed (span_of r) (left_of r)
  left_Cut r = (
    sym (take-append-drop (span_len r) r.unattributed),
    omega (arith, length-drop (span_len r) r.unattributed),
  )

  by_attribution :
      (events : Events) (pieces : List Piece) (r : Reading) {a : Attribution}
      → attribute_events (id ∷ []) events (attribution r.query.correlator r.replies false) ≡ a
      → Kept e id n start pieces (after_span r a)
      → Kept e id n start pieces (cut_span (id ∷ []) events r)
  by_attribution events pieces r h kept =
      subst (Kept e id n start pieces) (sym (cut_span-attribution events r ∙ ap (after_span r) h))
        kept

  cut_span-Kept :
      (events : Events) (pieces : List Piece) (r : Reading)
      → Kept e id n start pieces r
      → Kept e id n start (pieces ++ (span_of r, events) ∷ []) (cut_span (id ∷ []) events r)
  cut_span-Kept events pieces r (waiting c active none_yet quiet t) =
      let now : attribute_events (id ∷ []) events (attribution r.query.correlator r.replies false)
          ≡ attribute_events (id ∷ []) events (attribution (waiting_for e id n) [] false) =
        λ i. attribute_events (id ∷ []) events (attribution (c i) (none_yet i) false) in
      elim (attribute-waiting e id n events []) [
        | inl (mute, same) ↦ by_attribution events _ r (now ∙ same) (
            waiting refl active refl
              (Quiets-append e pieces ((span_of r, events) ∷ []) quiet (mute, tt))
              (ap (λ b. b ++ span_of r) t
                ∙ append_assoc start (spans pieces) (span_of r)
                ∙ ap (λ b. start ++ b) (sym (spans-snoc pieces (span_of r) events))))
        | inr (reply, found, taken) ↦ by_attribution events _ r (now ∙ taken) (
            answered reply (spans pieces) refl refl
              (record {
                before = pieces;
                span = span_of r;
                events = events;
                behind = [];
                split = refl;
                quiet = quiet;
                found = found;
                rest = sym (append-nil (spans pieces));
              })
              t)
      ]
  cut_span-Kept events pieces r (answered reply kept c one is_answer t) =
      let now : attribute_events (id ∷ []) events (attribution r.query.correlator r.replies false)
          ≡ attribution (cleared n) ((id, reply) ∷ []) false =
        (λ i. attribute_events (id ∷ []) events (attribution (c i) (one i) false))
        ∙ attribute-cleared e id n events ((id, reply) ∷ []) false in
      by_attribution events _ r now (
        answered reply (kept ++ span_of r) refl refl (Answered-snoc (span_of r) events is_answer)
          (ap (λ b. b ++ span_of r) t ∙ append_assoc start kept (span_of r)))

  -- The account of a reading depends on no other field of it.
  same_account :
      (pieces : List Piece) (r r' : Reading)
      → r'.query.correlator ≡ r.query.correlator
      → r'.query.active_query ≡ r.query.active_query
      → r'.replies ≡ r.replies
      → r'.query.typeahead ≡ r.query.typeahead
      → Kept e id n start pieces r
      → Kept e id n start pieces r'
  same_account pieces r r' c' a' l' t' (waiting c active none_yet quiet t) =
      waiting (c' ∙ c) (a' ∙ active) (l' ∙ none_yet) quiet (t' ∙ t)
  same_account pieces r r' c' a' l' t' (answered reply kept c one is_answer t) =
      answered reply kept (c' ∙ c) (l' ∙ one) is_answer (t' ∙ t)

  module _ (d0 : SemanticDecoder) (held0 : Bytes) where
    -- A byte that the decoder has taken, with its events.
    after_byte :
        (byte : ℕ) (bytes : Bytes) (r : Reading) (decoder : SemanticDecoder) (events : Events)
        → Input.feed r.query.decoder (byte ∷ []) ≡ some (decoder, events)
        → At e id n start d0 held0 bytes r
        → At e id n start d0 held0 (bytes ++ byte ∷ []) (
            after_events
              (id ∷ [])
              events
              (with_decoder (record r { unattributed = r.unattributed ++ byte ∷ [] }) decoder))
    unfolding cut_span attribute_span
    after_byte byte bytes r decoder [] fed (pieces, kept, run) =
        (pieces, same_account pieces r _ refl refl refl refl kept, quietly byte run fed)
    after_byte byte bytes r decoder (event ∷ events) fed (pieces, kept, run) =
        let r1 = with_decoder (record r { unattributed = r.unattributed ++ byte ∷ [] }) decoder in
        (
          pieces ++ (span_of r1, event ∷ events) ∷ [],
          cut_span-Kept (event ∷ events) pieces r1
              (same_account pieces r r1 refl refl refl refl kept),
          ending byte (span_of r1) run fed (left_Cut r1),
        )

    read_bytes-At :
        (more bytes : Bytes) (r r' : Reading)
        → read_bytes (id ∷ []) more r ≡ some r'
        → At e id n start d0 held0 bytes r
        → At e id n start d0 held0 (bytes ++ more) r'
    unfolding read_bytes read_byte
    read_bytes-At [] bytes r r' h at_ =
        subst (λ b. At e id n start d0 held0 b r') (sym (append-nil bytes))
          (subst (At e id n start d0 held0 bytes) (some_inj h) at_)
    read_bytes-At (byte ∷ more) bytes r r' h at_ =
        let (r1, first, rest) =
          bind_some (read_byte (id ∷ []) byte r) (read_bytes (id ∷ []) more) h in
        let ((decoder, events), fed, made) =
          bind_some (Input.feed r.query.decoder (byte ∷ []))
            (λ (decoder, events). some (
              after_events (id ∷ []) events
                (with_decoder (record r { unattributed = r.unattributed ++ byte ∷ [] }) decoder)))
            first in
        subst (λ b. At e id n start d0 held0 b r') (append_assoc bytes (byte ∷ []) more)
          (read_bytes-At more (bytes ++ byte ∷ []) r1 r' rest (
            subst (At e id n start d0 held0 (bytes ++ byte ∷ [])) (some_inj made)
              (after_byte byte bytes r decoder events fed at_)))

    -- The end of a read.
    settle-Kept :
        (bytes : Bytes) (r : Reading)
        → At e id n start d0 held0 bytes r
        → (pieces : List Piece) × Kept e id n start pieces (settle (id ∷ []) r)
          × ReadOf d0 held0 bytes pieces
              (settle (id ∷ []) r).query.decoder
              (settle (id ∷ []) r).unattributed
    unfolding settle cut_span attribute_span
    settle-Kept bytes r (pieces, kept, run) = elim (Bool-cases (has_settled_text r.query.decoder)) [
      | inl settled ↦
          (let r1 = with_decoder r (finish r.query.decoder).0 in
            let events = (finish r.query.decoder).1 in
            rw settled (
              pieces ++ (span_of r1, events) ∷ [],
              cut_span-Kept events pieces r1 (same_account pieces r r1 refl refl refl refl kept),
              flushed (span_of r1) run settled (left_Cut r1),
            ))
      | inr held ↦ rw held (pieces, kept, parked run held)
    ]

-- A read of a query that waits: its bytes are cut into pieces, and the query keeps them but for that
-- with its reply.
pub match_chunk-Kept :
    (e : Expectation) (id n : ℕ) (chunk : Bytes) (q q' : QueryState) (replies : Replies)
    → q.correlator ≡ waiting_for e id n
    → q.active_query ≡ some id
    → match_chunk (id ∷ []) chunk q ≡ some (q', replies)
    → (pieces : List Piece) × Kept e id n q.typeahead pieces (between q' replies)
      × ReadOf q.decoder q.decoder_carry chunk pieces q'.decoder q'.decoder_carry
unfolding match_chunk
match_chunk-Kept e id n chunk q q' replies c active h =
    let (r, read, ended) =
      bind_some (read_bytes (id ∷ []) chunk (read_start q))
        (λ r. some (read_end (settle (id ∷ []) r))) h in
    let at_start_ : At e id n q.typeahead q.decoder q.decoder_carry [] (read_start q) =
      ([], waiting c active refl tt (sym (append-nil q.typeahead)), at_start) in
    let (pieces, kept, run) = settle-Kept e id n q.typeahead q.decoder q.decoder_carry chunk r (
      read_bytes-At e id n q.typeahead q.decoder q.decoder_carry chunk [] (read_start q) r read
        at_start_) in
    subst
      (λ (x : QueryState × Replies).
        (pieces : List Piece) × Kept e id n q.typeahead pieces (between x.0 x.1)
        × ReadOf q.decoder q.decoder_carry chunk pieces x.0.decoder x.0.decoder_carry)
      (some_inj ended)
      (
        pieces,
        same_account e id n q.typeahead pieces (settle (id ∷ []) r) _ refl refl refl refl kept,
        run,
      )
