-- ===== src/Input/Pasted/Segments.antt =====
-- Normalized pastes (src/event/paste.rs): the segments of a paste together are the paste.
use qwertty.Prelude.{
  ◌≡◌, refl, Bool, true, false, not, ◌&&◌, List, [], ◌∷◌, ◌++◌, Bytes, concat, map, append-nil,
  ◌==◌, arith,
}
use qwertty.Input.Pasted.{cr, normalize, PasteEvent, decode_paste}
use qwertty.Syntax.Token.{PasteSequence}

-- A payload in two parts: the second goes on with the carry of the first.
pub normalize-append :
    (xs ys : Bytes) (pending : Bool)
    → normalize (xs ++ ys) pending ≡ (
      (normalize xs pending).0 ++ (normalize ys (normalize xs pending).1).0,
      (normalize ys (normalize xs pending).1).1,
    )
unfolding normalize
normalize-append [] ys pending = refl
normalize-append (x ∷ xs) ys pending = ground (arith, normalize-append xs ys (x == cr))

-- The events of segments in order, each with the carry of the one before.
unfoldable pub decode_segments : List PasteSequence → Bool → List PasteEvent
decode_segments [] pending = []
decode_segments (segment ∷ segments) pending =
    let (event, carry) = decode_paste segment pending in event ∷ decode_segments segments carry

-- Segments of one paste: only the last may be final.
unfoldable pub is_one_paste : List PasteSequence → Bool
is_one_paste [] = true
is_one_paste (segment ∷ []) = true
is_one_paste (segment ∷ next ∷ segments) = not segment.is_final && is_one_paste (next ∷ segments)

-- The bytes of the events of a paste, joined, are the normalized bytes of its payloads, joined.
pub decode_segments_lem :
    (segments : List PasteSequence) (pending : Bool)
    → is_one_paste segments ≡ true
    → concat (map (λ event. event.bytes) (decode_segments segments pending))
      ≡ (normalize (concat (map (λ segment. segment.payload) segments)) pending).0
unfolding decode_segments is_one_paste decode_paste normalize
decode_segments_lem [] pending one = refl
decode_segments_lem (segment ∷ []) pending one = rw (append-nil, append-nil) refl
decode_segments_lem (segment ∷ next ∷ segments) pending one = ground (
  arith,
  normalize-append segment.payload (concat (map (λ s. s.payload) (next ∷ segments))) pending,
  decode_segments_lem (next ∷ segments) (normalize segment.payload pending).1,
)

-- No carriage return is left.
unfoldable pub lacks_cr : Bytes → Bool
lacks_cr [] = true
lacks_cr (byte ∷ bytes) = not (byte == cr) && lacks_cr bytes

pub normalize-lacks_cr :
    (payload : Bytes) (pending : Bool) → lacks_cr (normalize payload pending).0 ≡ true
unfolding normalize lacks_cr
normalize-lacks_cr [] pending = refl
normalize-lacks_cr (byte ∷ payload) pending =
    ground (arith, normalize-lacks_cr payload (byte == cr))

-- Bytes with no carriage return stay as they are.
pub normalize_id :
    (payload : Bytes) → lacks_cr payload ≡ true → normalize payload false ≡ (payload, false)
unfolding normalize lacks_cr
normalize_id [] h = refl
normalize_id (byte ∷ payload) h = ground (arith, normalize_id payload)
