-- ===== src/Relay/Examples.antt =====
-- The theorems on the relays at short sequences.
use veyport.Base.{Option, any, ℕ, ◌*◌, ◌≡◌, ◌≢◌, refl, false, none, List, [], ◌∷◌, arith}
use veyport.Base.Int.{pos, ◌+ℤ◌}
use veyport.Base.Text.{Text}
use veyport.Base.Time.{Instant, second}
use veyport.Relay.Keys.{eq_text_iff, make_key}
use veyport.Relay.Heartbeats
use veyport.Relay.Heartbeats.{
  HeartbeatCoalescer, record_heartbeat, record_heartbeat-run, writes_of, is_within, all_within,
}
use veyport.Relay.Totp
use veyport.Relay.Totp.{Codes, check_and_mark, check_and_mark-run, is_during, all_during}
use veyport.Relay.Logs.Ledger
use veyport.Relay.Logs.Ledger.{Accounted, run-Accounted}

abbrev web : Text
web = 119 ∷ []

abbrev db : Text
db = 100 ∷ []

abbrev waiting : List (Text × Option ℕ)
waiting = (make_key db (49 ∷ []), none) ∷ []

web-db : web ≢ db
web-db e = ground (arith, eq_text_iff web db)

abbrev at : ℕ → Instant
at n = pos (n * second)

abbrev coalescer : HeartbeatCoalescer
coalescer = record { interval = at 30; last_written = []; writes = [] }

abbrev beats : List Heartbeats.Op
beats =
    Heartbeats.beat web (at 110) ∷ Heartbeats.beat db (at 111) ∷ Heartbeats.beat web (at 129) ∷ []

abbrev checks : List Totp.Op
checks =
    Totp.check db (49 ∷ 50 ∷ []) (at 120) (at 120)
    ∷ Totp.use_code web (51 ∷ []) (at 180) (at 181)
    ∷ []

check_and_mark-run_example :
    let codes' = Totp.run checks (check_and_mark web (49 ∷ 50 ∷ []) (at 100) (at 101) []).1 in
    check_and_mark web (49 ∷ 50 ∷ []) (at 185) (at 185) codes' ≡ (false, codes')
unfolding check_and_mark all_during is_during any ◌+ℤ◌
check_and_mark-run_example =
    check_and_mark-run web (49 ∷ 50 ∷ []) (at 100) (at 101) (at 185) (at 185) checks [] refl
      (omega arith) refl

abbrev events : List Ledger.Event
events = Ledger.chunk (1 ∷ []) ∷ Ledger.take ∷ Ledger.chunk (2 ∷ []) ∷ Ledger.drain ∷ []

run-Accounted_example :
    Accounted
      (make_key web (49 ∷ []))
      (Ledger.run web (49 ∷ []) events (Ledger.start web (49 ∷ []) []))
run-Accounted_example = run-Accounted web (49 ∷ []) events [] (omega arith)
