-- ===== src/Session/Order.antt =====
-- The order of the mode ledger (src/session/ledger.rs): a kind recorded again keeps its place.
use qwertty.Prelude.{
  ◌≡◌, refl, true, false, Option, none, some, List, [], ◌∷◌, ◌++◌, map, if◌then◌else◌, arith,
}
use qwertty.Session.Ledger.{ModeKind, StateAction, LedgerEntry, kind_eq, record_mode}

pub kind_eq_sound : (a b : ModeKind) → kind_eq a b ≡ true → a ≡ b
unfolding kind_eq
kind_eq_sound a b e = ground arith

pub kind_eq_refl : (a : ModeKind) → kind_eq a a ≡ true
unfolding kind_eq
kind_eq_refl a = ground arith

-- The entry of a kind.
unfoldable pub entry_of : ModeKind → List LedgerEntry → Option LedgerEntry
entry_of kind [] = none
entry_of kind (entry ∷ entries) =
    let rest = entry_of kind entries in if kind_eq entry.kind kind then some entry else rest

abbrev pub kinds : List LedgerEntry → List ModeKind
kinds entries = map (λ entry. entry.kind) entries

-- The kinds after one more is recorded: it goes last, unless it is there.
pub with_kind : ModeKind → List LedgerEntry → Option LedgerEntry → List ModeKind
with_kind kind entries none = kinds entries ++ kind ∷ []
with_kind kind entries (some entry) = kinds entries

record_mode-entry :
    (kind : ModeKind) (apply undo : StateAction) (entries : List LedgerEntry)
    → entry_of kind (record_mode kind apply undo entries)
      ≡ some (record { kind = kind; apply = apply; undo = undo })
unfolding entry_of record_mode
record_mode-entry kind apply undo [] = ground (arith, kind_eq_refl kind)
record_mode-entry kind apply undo (entry ∷ entries) =
    ground (arith, record_mode-entry kind apply undo entries, kind_eq_sound entry.kind kind)

record_mode-other :
    (kind other : ModeKind) (apply undo : StateAction) (entries : List LedgerEntry)
    → kind_eq kind other ≡ false
    → entry_of other (record_mode kind apply undo entries) ≡ entry_of other entries
unfolding entry_of record_mode
record_mode-other kind other apply undo [] ne = ground arith
record_mode-other kind other apply undo (entry ∷ entries) ne =
    ground
      (arith, record_mode-other kind other apply undo entries ne, kind_eq_sound entry.kind kind)

record_mode-kinds :
    (kind : ModeKind) (apply undo : StateAction) (entries : List LedgerEntry)
    → kinds (record_mode kind apply undo entries) ≡ with_kind kind entries (entry_of kind entries)
unfolding entry_of record_mode with_kind
record_mode-kinds kind apply undo [] = refl
record_mode-kinds kind apply undo (entry ∷ entries) =
    ground (arith, record_mode-kinds kind apply undo entries)

-- Recording a kind sets its actions, changes no other kind's, and keeps the order of the kinds: a
-- kind that is there keeps its place, a new one goes last.
pub record_mode_lem :
    (kind : ModeKind) (apply undo : StateAction) (entries : List LedgerEntry)
    → (entry_of kind (record_mode kind apply undo entries)
        ≡ some (record { kind = kind; apply = apply; undo = undo }))
      × ((other : ModeKind)
          → kind_eq kind other ≡ false
          → entry_of other (record_mode kind apply undo entries) ≡ entry_of other entries)
      × (kinds (record_mode kind apply undo entries)
          ≡ with_kind kind entries (entry_of kind entries))
record_mode_lem kind apply undo entries = (
  record_mode-entry kind apply undo entries,
  λ other ne. record_mode-other kind other apply undo entries ne,
  record_mode-kinds kind apply undo entries,
)
