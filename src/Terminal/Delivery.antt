-- ===== src/Terminal/Delivery.antt =====
-- Attaching a stream to a shell, and the agent's data on the way to it.
use veyport.Base.{
  ℕ, ◌==◌, ltb, Bool, true, false, ◌&&◌, not, Option, none, some, [], ◌∷◌, ◌++◌, if◌then◌else◌,
  find, is_some, length,
}
use veyport.Base.Int.{pos, leb_ℤ}
use veyport.Base.Text.{Text}
use veyport.Base.Time.{Instant, second, sub}
use veyport.Relay.Keys.{eq_text}
use veyport.Terminal.Shells.{
  Event, event_data, Interactive, Shell, Registry, lookup, write, max_events, is_shell,
}

abbrev pub data_event : Text → Event
data_event bytes = record {
  type = event_data;
  bytes = bytes;
  exit_code = pos 0;
  message = "";
  forced = false;
}

-- ForwardData: whether the write is started for the registration behind a retained handle.
unfoldable pub forwards : ℕ → Registry → Bool
forwards id t = elim (find (is_shell id) t.shells) [ none ↦ false | some s ↦ not (is_some s.exit) ]

-- ForcedExit
unfoldable pub forced_exit : ℕ → Registry → Option Event
forced_exit id t = elim (find (is_shell id) t.shells) [ none ↦ none | some s ↦ s.exit ]

-- What AttachStream answers: no such shell of this user, a shell that has its stream, or the shell.
pub data Attachment : Type 0 where
  unknown taken : Attachment
  attached : Shell → Attachment

abbrev attach_found : Text → Registry → Option Shell → Attachment × Registry
attach_found user t none = (unknown, t)
attach_found user t (some s) =
    if not (eq_text s.user_id user) then (unknown, t) else if s.streaming then (taken, t) else (
      attached (record s { streaming = true }),
      write s.id (λ x. record x { streaming = true }) t,
    )

unfoldable pub attach_stream : Text → Text → Text → Registry → Attachment × Registry
attach_stream server session user t = attach_found user t (lookup server session t)

unfoldable pub deliver_data_locked : Text → Instant → Shell → Bool × Shell
deliver_data_locked bytes now s =
    if ltb (length s.ch) max_events
    then (
      true,
      record s {
        ch = s.ch ++ data_event bytes ∷ [];
        last_activity =
            if leb_ℤ (pos second) (sub now s.last_activity) then now else s.last_activity;
      },
    )
    else (false, s)

abbrev deliver_to : Text → Instant → Shell → Registry → Bool × Registry
deliver_to bytes now s t =
    ((deliver_data_locked bytes now s).0, write s.id (λ x. (deliver_data_locked bytes now x).1) t)

abbrev pub deliver_found : Text → Instant → Registry → Option Shell → Bool × Registry
deliver_found bytes now t none = (false, t)
deliver_found bytes now t (some s) = if s.closed then (false, t) else deliver_to bytes now s t

unfoldable pub deliver_data : Text → Text → Text → Instant → Registry → Bool × Registry
deliver_data server session bytes now t = deliver_found bytes now t (lookup server session t)

-- s.interactive != nil && s.interactive.conn == conn
abbrev pub on_connection : ℕ → Option Interactive → Bool
on_connection conn none = false
on_connection conn (some a) = a.conn == conn

abbrev pub accepts : ℕ → Option Shell → Bool
accepts conn none = false
accepts conn (some s) = not s.closed && on_connection conn s.interactive

unfoldable pub accept_agent_connection : Text → Text → ℕ → Registry → Bool
accept_agent_connection server session conn t = accepts conn (lookup server session t)

unfoldable pub deliver_data_from : ℕ → Text → Text → Text → Instant → Registry → Bool × Registry
deliver_data_from conn server session bytes now t =
    if accepts conn (lookup server session t)
    then deliver_found bytes now t (lookup server session t)
    else (false, t)

-- The transport takes the oldest event out of the channel.
unfoldable pub receive : ℕ → Registry → Registry
receive id t = write id (λ s. record s { ch = elim s.ch [ [] ↦ [] | e ∷ rest ↦ rest ] }) t
