-- ===== src/Security/Replay/Trace.antt =====
-- src/security_runtime.rs: `check_common` over a run of messages.
use ess_p2p_rs.Shared.{ℕ, ◌+◌, ◌≤◌, ◌<◌, ◌≡◌, true, false, List, [], ◌∷◌, Text, some, arith}
use ess_p2p_rs.Shared.Order.{text_ord, beq_refl}
use ess_p2p_rs.Shared.Dict.{lookup, insert, retain}
use ess_p2p_rs.Security.{Result}
use ess_p2p_rs.Security.Replay.{Seen, abs_diff, cleanup, check_common}
use ess_p2p_rs.Security.Replay.Sound.{IsSound}
use ess_p2p_rs.Security.Replay.Window.{
  time_of, is_ok, check_common-IsSound, check_common-time_of, accepted-time_of,
  check_common-refuses,
}

-- A message that comes in, and the readings of the clock.
pub record Message : Type 0 where
  pub peer : Text
  pub ts : ℕ
  pub nonce : Text
  pub checked : ℕ
  pub now : ℕ

module _ (window : ℕ) where
  abbrev pub check_message : Seen → Message → Seen × Result (Unit {0})
  check_message seen m = check_common window seen m.peer m.ts m.nonce m.checked m.now

  abbrev pub check_all : Seen → List Message → Seen
  check_all seen [] = seen
  check_all seen (m ∷ ms) = check_all (check_message seen m).0 ms

  -- Each message comes within the window of an instant.
  abbrev pub AllNear : ℕ → List Message → Type 0
  AllNear t [] = Unit
  AllNear t (m ∷ ms) = (abs_diff m.now t ≤ window) × AllNear t ms

  pub check_all-IsSound :
      (seen : Seen) (ms : List Message) → IsSound seen → IsSound (check_all seen ms)
  check_all-IsSound seen [] s = s
  check_all-IsSound seen (m ∷ ms) s =
      check_all-IsSound (check_message seen m).0 ms
        (check_common-IsSound window seen m.peer m.ts m.nonce m.checked m.now s)

  check_all-time_of :
      (seen : Seen) (ms : List Message) (peer nonce : Text) (t : ℕ)
      → IsSound seen
      → time_of peer nonce seen ≡ some t
      → AllNear t ms
      → time_of peer nonce (check_all seen ms) ≡ some t
  check_all-time_of seen [] peer nonce t s h near = h
  check_all-time_of seen (m ∷ ms) peer nonce t s h near =
      check_all-time_of (check_message seen m).0 ms peer nonce t
        (check_common-IsSound window seen m.peer m.ts m.nonce m.checked m.now s)
        (check_common-time_of window seen m.peer m.ts m.nonce m.checked m.now peer nonce t s h
          near.0)
        near.1

  -- If the replay cache, after any run of messages from empty, accepts a message, then it refuses
  -- every message with the same peer and nonce after any further run, as long as all messages since
  -- arrive within the replay window of the first.
  pub no_replay :
      (before : List Message) (first : Message) (others : List Message) (ts checked now : ℕ)
      → is_ok (check_message (check_all [] before) first).1 ≡ true
      → AllNear first.now others
      → abs_diff now first.now ≤ window
      → is_ok
          (check_common window
            (check_all (check_message (check_all [] before) first).0 others)
            first.peer
            ts
            first.nonce
            checked
            now).1
        ≡ false
  no_replay before first others ts checked now accepted near again =
      let seen = check_all [] before in
      let s = check_all-IsSound [] before tt in
      let after = (check_message seen first).0 in
      let after-IsSound =
        check_common-IsSound window seen first.peer first.ts first.nonce first.checked first.now
          s in
      check_common-refuses window (check_all after others) first.peer ts first.nonce checked now
        first.now (check_all-IsSound after others after-IsSound)
        (check_all-time_of after others first.peer first.nonce first.now after-IsSound
          (accepted-time_of window seen first.peer first.ts first.nonce first.checked first.now
            accepted)
          near)
        again

  -- A message is accepted by an empty replay cache and once more later, if both arrivals are within
  -- the window of its date but the second comes more than a window after the first.
  pub future_dated_replay :
      (peer nonce : Text) (ts first again : ℕ)
      → abs_diff first ts ≤ window
      → abs_diff again ts ≤ window
      → first + window < again
      → (is_ok (check_common window [] peer ts nonce first first).1 ≡ true)
        × (is_ok
              (check_common window
                (check_common window [] peer ts nonce first first).0
                peer
                ts
                nonce
                again
                again).1
            ≡ true)
  unfolding check_common cleanup lookup retain insert
  future_dated_replay peer nonce ts first again near_first near_again late =
      ground (arith, beq_refl peer, beq_refl nonce)
