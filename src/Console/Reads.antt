-- ===== src/Console/Reads.antt =====
-- The reader (src/terminal/console_input.rs) over whole runs: what the calls hand out, whatever the
-- batches of records and the sizes of the buffers are.
use qwertty.Console.{push_unit, flush_pending}
use qwertty.Console.Reader.{
  InputRecord, key, ConsoleInputReader, new_reader, Carried, carried, push_repeated, translate_key,
  translate_record, translate_all, translate_records, drain_pending, take_pending,
}
use qwertty.Console.Units.{
  push_units, encode_utf16, is_scalar, push_units-decode_lossy, decode_lossy-text, all-encode_utf16,
  push_units-text,
}
use qwertty.Input.Characters.{encode_utf8}
use qwertty.Prelude.{
  ℕ, ◌^◌, ◌≡◌, refl, sym, ap, ◌∙◌, true, false, ◌&&◌, Option, none, List, [], ◌∷◌, ◌++◌,
  append_assoc, append-nil, Bytes, all, concat, map, take, drop, length, min, ltb, ◌==◌, arith,
  take-append-drop,
}

-- A call of the reader by its owner.
pub data Call : Type 0 where
  translate : List InputRecord → Call
  drain : ℕ → Call
  take_all : Call

-- The reader after a call, and the bytes that the caller gets.
unfoldable pub run_call : Call → ConsoleInputReader → ConsoleInputReader × Bytes
run_call (translate records) reader = (translate_records records reader, [])
run_call (drain room) reader = drain_pending room reader
run_call take_all reader = take_pending reader

unfoldable pub run_calls : List Call → ConsoleInputReader → ConsoleInputReader × Bytes
run_calls [] reader = (reader, [])
run_calls (call ∷ calls) reader =
    let (reader', bytes) = run_call call reader in
    let (reader'', rest) = run_calls calls reader' in (reader'', bytes ++ rest)

-- The records of the calls, in one list.
abbrev pub records_of : List Call → List InputRecord
records_of [] = []
records_of (translate records ∷ calls) = records ++ records_of calls
records_of (drain room ∷ calls) = records_of calls
records_of (take_all ∷ calls) = records_of calls

translate_all-append :
    (s : Carried) (xs ys : List InputRecord)
    → translate_all s (xs ++ ys) ≡ (
      (translate_all (translate_all s xs).0 ys).0,
      (translate_all s xs).1 ++ (translate_all (translate_all s xs).0 ys).1,
    )
unfolding translate_all
translate_all-append s [] ys = refl
translate_all-append s (x ∷ xs) ys =
    let first = translate_record s x in
    let middle = translate_all first.0 xs in
    let last = translate_all middle.0 ys in
    ap (λ (r : Carried × Bytes). (r.0, first.1 ++ r.1)) (translate_all-append first.0 xs ys)
    ∙ ap (λ b. (last.0, b)) (sym (append_assoc first.1 middle.1 last.1))

-- What a run has to give: its bytes with those still pending, and what it carries.
abbrev Gives : ConsoleInputReader → List Call → Type 0
Gives reader calls =
    ((run_calls calls reader).1 ++ (run_calls calls reader).0.pending
      ≡ reader.pending ++ (translate_all (carried reader) (records_of calls)).1)
    × (carried (run_calls calls reader).0 ≡ (translate_all (carried reader) (records_of calls)).0)

-- Whatever the batches of records and the sizes of the buffers are, the bytes that the calls hand
-- out, with those still pending, are the bytes that were pending and the translation of all the
-- records in one batch; the reader carries what that translation carries.
pub run_calls-translate_all :
    (calls : List Call) (reader : ConsoleInputReader)
    → ((run_calls calls reader).1 ++ (run_calls calls reader).0.pending
        ≡ reader.pending ++ (translate_all (carried reader) (records_of calls)).1)
      × (carried (run_calls calls reader).0 ≡ (translate_all (carried reader) (records_of calls)).0)
unfolding run_calls run_call translate_all translate_records drain_pending take_pending
run_calls-translate_all [] reader = (sym (append-nil reader.pending), refl)
run_calls-translate_all (translate records ∷ calls) reader =
    let reader' = translate_records records reader in
    let (bytes, state) = run_calls-translate_all calls reader' in
    let joined = translate_all-append (carried reader) records (records_of calls) in
    (
      bytes
          ∙ append_assoc reader.pending (translate_all (carried reader) records).1
              (translate_all (carried reader') (records_of calls)).1
          ∙ ap (λ (r : Carried × Bytes). reader.pending ++ r.1) (sym joined),
      state ∙ ap (λ (r : Carried × Bytes). r.0) (sym joined),
    )
run_calls-translate_all (drain room ∷ calls) reader =
    let count = min room (length reader.pending) in
    let reader' : ConsoleInputReader = record reader { pending = drop count reader.pending } in
    let (bytes, state) = run_calls-translate_all calls reader' in
    let rest = run_calls calls reader' in
    (
      append_assoc (take count reader.pending) rest.1 rest.0.pending
          ∙ ap (λ b. take count reader.pending ++ b) bytes
          ∙ sym (
              append_assoc (take count reader.pending) (drop count reader.pending)
                (translate_all (carried reader) (records_of calls)).1)
          ∙ ap (λ b. b ++ (translate_all (carried reader) (records_of calls)).1)
              (take-append-drop count reader.pending),
      state,
    )
run_calls-translate_all (take_all ∷ calls) reader =
    let reader' : ConsoleInputReader = record reader { pending = [] } in
    let (bytes, state) = run_calls-translate_all calls reader' in
    let rest = run_calls calls reader' in
    (append_assoc reader.pending rest.1 rest.0.pending ∙ ap (λ b. reader.pending ++ b) bytes, state)

-- The record of a key that went down once.
abbrev pub typed : ℕ → InputRecord
typed unit = key (record { unit = unit; key_down = true; virtual_key = 0; repeat_count = 1 })

translate_key-typed :
    (carry : Option ℕ) (unit : ℕ)
    → ltb 0 unit ≡ true
    → translate_key carry
        (record { unit = unit; key_down = true; virtual_key = 0; repeat_count = 1 })
      ≡ push_unit carry unit
unfolding translate_key push_repeated
translate_key-typed carry unit h =
    let e : (unit == 0) ≡ false = ground arith in
    rw e (ap (λ b. ((push_unit carry unit).0, b)) (append-nil (push_unit carry unit).1))

-- The records of units, one for each, are translated as the carry takes the units.
translate_all-typed :
    (s : Carried) (units : List ℕ)
    → all (λ unit. ltb 0 unit && ltb unit (2 ^ 16)) units ≡ true
    → translate_all s (map typed units)
      ≡ (record s { carry = (push_units s.carry units).0 }, (push_units s.carry units).1)
unfolding translate_all translate_record push_units
translate_all-typed s [] h = refl
translate_all-typed s (unit ∷ units) h =
    let first = translate_key-typed s.carry unit (ground arith) in
    let ih =
      translate_all-typed (record s { carry = (push_unit s.carry unit).0 }) units (ground arith) in
    ap
      (λ (r : Option ℕ × Bytes). (
        (translate_all (record s { carry = r.0 }) (map typed units)).0,
        r.1 ++ (translate_all (record s { carry = r.0 }) (map typed units)).1,
      ))
      first
    ∙ ap (λ (r : Carried × Bytes). (r.0, (push_unit s.carry unit).1 ++ r.1)) ih

-- The units of a text, as console records.
abbrev pub typed_text : List ℕ → List InputRecord
typed_text text = map typed (concat (map encode_utf16 text))

units_small :
    (units : List ℕ)
    → all (λ unit. ltb 0 unit && ltb unit (2 ^ 16)) units ≡ true
    → all (λ unit. ltb unit (2 ^ 16)) units ≡ true
units_small [] h = refl
units_small (unit ∷ units) h = ground (arith, units_small units)

push_units-utf8 :
    (text : List ℕ)
    → all is_scalar text ≡ true
    → (push_units none (concat (map encode_utf16 text))).1 ≡ concat (map encode_utf8 text)
unfolding flush_pending
push_units-utf8 text h =
    let units = concat (map encode_utf16 text) in
    sym (append-nil (push_units none units).1)
    ∙ ap (λ pending. (push_units none units).1 ++ flush_pending pending)
        (sym (push_units-text text h))
    ∙ push_units-decode_lossy units (units_small units (all-encode_utf16 text h))
    ∙ ap (λ c. concat (map encode_utf8 c)) (decode_lossy-text text h)

-- If the records of the calls are those of a text without NUL, one key press for each unit of its
-- UTF-16, then a new reader hands out the UTF-8 of the text, but for what is still pending.
pub run_calls-typed_text :
    (text : List ℕ) (calls : List Call)
    → all is_scalar text ≡ true
    → records_of calls ≡ typed_text text
    → (run_calls calls new_reader).1 ++ (run_calls calls new_reader).0.pending
      ≡ concat (map encode_utf8 text)
run_calls-typed_text text calls h e =
    (run_calls-translate_all calls new_reader).0
    ∙ ap (λ records. (translate_all (carried new_reader) records).1) e
    ∙ ap (λ (r : Carried × Bytes). r.1)
        (translate_all-typed (carried new_reader) (concat (map encode_utf16 text))
          (all-encode_utf16 text h))
    ∙ push_units-utf8 text h
