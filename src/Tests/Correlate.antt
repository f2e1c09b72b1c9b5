-- ===== src/Tests/Correlate.antt =====
-- The correlator at concrete calls, most of them from the tests of src/correlate.rs.
use qwertty.Prelude.{ℕ, ◌≡◌, refl, false, none, some, [], ◌∷◌, arith}
use qwertty.Correlate.{
  Slot, Correlator, Registered, Feed, Resolution, Resolved, new, register, register_scan, feed,
  feed_scan, resolve, find_slot, release_slot,
}
use qwertty.Correlate.Contract.{IsValid, HasRoom}
use qwertty.Correlate.History.{Run, stop, and_register, and_feed, IsRetired, Run-IsRetired}
use qwertty.Correlate.Matcher.{
  Event, syntax, Expectation, Reply, match_event, match_token, match_cursor_position,
  expectation_eq, distinguishes,
}
use qwertty.Correlate.Pending.{Registers, register-Sound, Feeds, feed-Sound}
use qwertty.Correlate.Replies.{match_unique, take_replies, take_replies_all, copies}
use qwertty.Correlate.Slots.{slot_first, none_left, IsFresh}
use qwertty.Correlate.Waiters.{Resolves, resolve-Sound}
use qwertty.Report.{cursor_position_report, cursor_fields, has_shape}
use qwertty.Report.Numbers.{split, decimal_digit, decimal_loop, parse_decimal, parse_one_based_u16}
use qwertty.Syntax.Token.{SyntaxToken}

-- `CSI 12 ; 34 R`
abbrev cursor_event : Event ℕ
cursor_event = syntax (
    SyntaxToken.csi (record {
      bytes = 0x1b ∷ b'[' ∷ b'1' ∷ b'2' ∷ b';' ∷ b'3' ∷ b'4' ∷ b'R' ∷ [];
      params = record {
        private_markers = [];
        param_bytes = b'1' ∷ b'2' ∷ b';' ∷ b'3' ∷ b'4' ∷ [];
        params = [];
        params_overflowed = false;
        intermediates = [];
        final_byte = b'R';
      };
    }))

abbrev cursor_reply : Reply
cursor_reply = Reply.cursor_position (record { row = 12; column = 34 })

matched : match_event Expectation.cursor_position cursor_event ≡ some cursor_reply
unfolding match_event match_token match_cursor_position cursor_position_report cursor_fields
    has_shape split decimal_digit decimal_loop parse_decimal parse_one_based_u16
matched = refl

-- Two waiters on one cursor query, before its reply and after.
abbrev waiting : Slot
waiting = record {
  id = 0;
  expectation = Expectation.cursor_position;
  outstanding = 2;
  reply = none;
}

abbrev completed : Slot
completed = record waiting { reply = some cursor_reply }

abbrev asked : Correlator
asked = record { slots = waiting ∷ []; next_id = 1 }

abbrev answered : Correlator
answered = record { slots = completed ∷ []; next_id = 1 }

abbrev done : Correlator
done = record { slots = []; next_id = 1 }

joined_run :
    register (register new Expectation.cursor_position).0 Expectation.cursor_position
    ≡ (asked, Registered.ok 0)
unfolding register register_scan expectation_eq distinguishes
joined_run = refl

feed_run : feed asked cursor_event ≡ (answered, Feed.completed 0 cursor_reply)
unfolding feed feed_scan match_event match_token match_cursor_position cursor_position_report
    cursor_fields has_shape split decimal_digit decimal_loop parse_decimal parse_one_based_u16
feed_run = refl

late_reply : feed done cursor_event ≡ (done, Feed.passthrough cursor_event)
unfolding feed feed_scan
late_reply = refl

resolve_run : resolve asked 0 Resolution.timeout ≡ (
  record { slots = record waiting { outstanding = 1 } ∷ []; next_id = 1 },
  Resolved.waiter_removed 1,
)
unfolding resolve find_slot release_slot
resolve_run = refl

asked-IsValid : IsValid asked
unfolding IsValid IsFresh
asked-IsValid = slot_first (ground arith) (ground arith) refl (none_left (ground arith))

answered-IsValid : IsValid answered
unfolding IsValid IsFresh
answered-IsValid = slot_first (ground arith) (ground arith) refl (none_left (ground arith))

done-IsValid : IsValid done
unfolding IsValid
done-IsValid = none_left (ground arith)

asked-HasRoom : HasRoom asked
unfolding HasRoom find_slot
asked-HasRoom = (ground arith, λ id slot e. ground arith)

done-HasRoom : HasRoom done
unfolding HasRoom find_slot
done-HasRoom = (ground arith, λ id slot e. ground arith)

found_waiting : find_slot 0 asked.slots ≡ some waiting
unfolding find_slot
found_waiting = refl

found_completed : find_slot 0 answered.slots ≡ some completed
unfolding find_slot
found_completed = refl

register-Sound_example :
    IsValid (register asked Expectation.cursor_position).0
    × Registers asked Expectation.cursor_position
        (register asked Expectation.cursor_position).0
        (register asked Expectation.cursor_position).1
register-Sound_example =
    register-Sound asked Expectation.cursor_position asked-IsValid asked-HasRoom

feed-Sound_example :
    IsValid (feed asked cursor_event).0
    × Feeds cursor_event asked (feed asked cursor_event).0 (feed asked cursor_event).1
feed-Sound_example = feed-Sound asked cursor_event asked-IsValid

resolve-Sound_example :
    IsValid (resolve asked 0 Resolution.eof).0
    × Resolves asked 0 (resolve asked 0 Resolution.eof).0 (resolve asked 0 Resolution.eof).1
resolve-Sound_example = resolve-Sound asked 0 Resolution.eof asked-IsValid

take_replies_all_example :
    ((take_replies 2 answered 0).1 ≡ copies 2 (some cursor_reply))
    × (find_slot 0 (take_replies 2 answered 0).0.slots ≡ none)
take_replies_all_example =
    take_replies_all 1 answered 0 completed cursor_reply answered-IsValid found_completed refl refl

match_unique_example : ◌≡◌ {A = ℕ} 0 0
match_unique_example =
    match_unique asked cursor_event 0 0 waiting waiting asked-IsValid found_waiting found_waiting
      matched matched

zero-IsRetired : IsRetired done 0
unfolding IsRetired find_slot
zero-IsRetired = (ground arith, refl)

asks_again : Run ℕ done (feed (register done Expectation.cursor_position).0 cursor_event).0
asks_again = and_register Expectation.cursor_position done-HasRoom (and_feed cursor_event stop)

Run-IsRetired_example :
    IsRetired (feed (register done Expectation.cursor_position).0 cursor_event).0 0
Run-IsRetired_example = Run-IsRetired 0 done-IsValid zero-IsRetired asks_again
