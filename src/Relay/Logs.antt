-- ===== src/Relay/Logs.antt =====
-- logsessions.go. Register and Remove write both maps at the same key, so an entry holds the channel
-- and the overflow count. `receive` is the handler's read of the channel.
use veyport.Base.{
  ℕ, suc, ◌+◌, ◌%◌, ◌^◌, ◌≤◌, ◌<◌, ◌≡◌, ◌≢◌, ◌==◌, ◌⊎◌, refl, leb, ltb, Bool, true, false, not,
  Option, none, some, List, [], ◌∷◌, ◌++◌, arith, if◌then◌else◌, length, length-append, find,
  select, update_where, inl, inr, Bool-cases, Option-cases,
}
use veyport.Base.Text.{Text}
use veyport.Relay.Keys.{eq_text, eq_text_iff, make_key}
pub mod Ledger

abbrev pub buffer : ℕ
buffer = 64

pub record LogSession : Type 0 where
  pub key : Text
  pub channel : List Text
  pub overflow : ℕ

abbrev pub LogSessions : Type 0
LogSessions = List LogSession

abbrev pub for_key : Text → LogSession → Bool
for_key k e = eq_text e.key k

unfoldable pub register : Text → Text → LogSessions → LogSessions
register server_id request_id ls =
    let key = make_key server_id request_id in
    record { key = key; channel = []; overflow = 0 } ∷ select (λ e. not (for_key key e)) ls

abbrev pub enqueue : Text → LogSession → LogSession
enqueue chunk e = record e { channel = e.channel ++ chunk ∷ [] }

abbrev pub lose : LogSession → LogSession
lose e = record e { overflow = (e.overflow + 1) % 2 ^ 64 }

unfoldable pub deliver_found : Text → Text → Option LogSession → LogSessions → Bool × LogSessions
deliver_found key chunk none ls = (false, ls)
deliver_found key chunk (some e) ls =
    if ltb (length e.channel) buffer
    then (true, update_where (for_key key) (enqueue chunk) ls)
    else (false, update_where (for_key key) lose ls)

unfoldable pub deliver : Text → Text → Text → LogSessions → Bool × LogSessions
unfolding deliver_found
deliver server_id request_id chunk ls =
    let key = make_key server_id request_id in deliver_found key chunk (find (for_key key) ls) ls

abbrev pub reset : LogSession → LogSession
reset e = record e { overflow = 0 }

unfoldable pub drain_found : Text → Option LogSession → LogSessions → ℕ × LogSessions
drain_found key none ls = (0, ls)
drain_found key (some e) ls =
    (e.overflow, if ltb 0 e.overflow then update_where (for_key key) reset ls else ls)

unfoldable pub drain_overflow : Text → Text → LogSessions → ℕ × LogSessions
unfolding drain_found
drain_overflow server_id request_id ls =
    let key = make_key server_id request_id in drain_found key (find (for_key key) ls) ls

unfoldable pub remove : Text → Text → LogSessions → LogSessions
remove server_id request_id ls = select (λ e. not (for_key (make_key server_id request_id) e)) ls

abbrev pub drop_first : List Text → List Text
drop_first [] = []
drop_first (c ∷ cs) = cs

abbrev pub tail : LogSession → LogSession
tail e = record e { channel = drop_first e.channel }

unfoldable pub first : List Text → Option Text
first [] = none
first (c ∷ cs) = some c

unfoldable pub receive_found : Text → Option LogSession → LogSessions → Option Text × LogSessions
unfolding first
receive_found key none ls = (none, ls)
receive_found key (some e) ls = (first e.channel, update_where (for_key key) tail ls)

unfoldable pub receive : Text → Text → LogSessions → Option Text × LogSessions
unfolding receive_found
receive server_id request_id ls =
    let key = make_key server_id request_id in receive_found key (find (for_key key) ls) ls
