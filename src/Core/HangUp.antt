-- ===== src/Core/HangUp.antt =====
-- The end of an interactive session, and one whose client hangs up.
use mathlib.Core.Option
use capsudo_rs.Base.{
  ℕ, zero, suc, ◌<◌, ◌≡◌, refl, ap, ◌∙◌, Bool, true, false, List, [], ◌∷◌, ◌++◌, none, some,
  Option-cases, inl, inr, All, arith, length,
}
use capsudo_rs.Base.Result.{Result, ok}
use capsudo_rs.Proto.Defs.{Message}
use capsudo_rs.Proto.Message
use capsudo_rs.Proto.Message.{Dims}
use capsudo_rs.Transport.Defs.{TransportError}
use capsudo_rs.Core.Channel.{Event, send}
use capsudo_rs.Core.Handshake.{Sent}
use capsudo_rs.Core.Outcome.{events}
use capsudo_rs.Core.Command.{ExitStatus, exit_code, send_exit}
use capsudo_rs.Core.Relay.{
  Round, Input, polled, IsFlowing, IsOpen, read_bytes, relay, relay-cancelled,
}
use capsudo_rs.Core.System.{System, master_in, master_out}
use capsudo_rs.Core.Pty.{sizes, after_sizes, winsize_loop, start_bridge, is_ok, stop, attend}

-- The sizes that messages ask for, in order.
abbrev pub sizes_of : List Message → List Dims
sizes_of [] = []
sizes_of (m ∷ ms) = sizes (record { message = m; fds = [] }) ++ sizes_of ms

-- Every size that arrives before the client hangs up is set, in order, and nothing that is sent ends
-- the loop but the hangup. The child does not exit before.
pub winsize_loop-events :
    (n : ℕ) (ms : List Message) (es : List Event)
    → length ms < n
    → winsize_loop n (events ms ++ (ok none ∷ es))
      ≡ record { resized = sizes_of ms; hung_up = true; rest = es }
unfolding winsize_loop
winsize_loop-events zero ms es h = absurd (omega (arith, h))
winsize_loop-events (suc n) [] es h = refl
winsize_loop-events (suc n) (m ∷ ms) es h =
    ap (after_sizes (sizes (record { message = m; fds = [] })))
      (winsize_loop-events n ms es (omega (arith, h)))

module _ (sys : System) (child : ℕ) (status : ExitStatus) (ts more : List Round) (readable : Bool)
    (input : Input) where
  -- The status is sent as soon as the relay of the terminal's output has ended, and not before: the
  -- thread from the client ends when it is cancelled.
  attend-shown :
      (n sent_bytes : ℕ) (es : List Event) (rest : List (Result TransportError (Unit {0})))
      (sent : List Sent)
      → sys.try_clone master_out ≡ ok tt
      → sys.try_clone master_in ≡ ok tt
      → sys.pipe ≡ ok tt
      → sys.wait child (winsize_loop n es).hung_up ≡ ok status
      → sys.cancel ≡ ok sent_bytes
      → All IsFlowing ts
      → All (IsOpen true) ts
      → sys.typed true ≡ ts ++ (polled true readable input ∷ more)
      → attend sys n child (record { recvs = es; sends = ok tt ∷ rest; sent = sent })
        ≡ Option.map
            (λ shown. (
              ok tt,
              record {
                recvs = (winsize_loop n es).rest;
                sends = rest;
                sent = sent ++ ((Message.exit (exit_code status), []) ∷ []);
              },
            ))
            (relay false sys.shown)
  unfolding attend start_bridge stop send_exit send
  attend-shown n sent_bytes es rest sent out in' piped waited written flowing open_all typed =
      let ended : relay true (sys.typed (is_ok sys.cancel)) ≡ some (read_bytes ts) =
        ap (λ r. relay true (sys.typed (is_ok r))) written
        ∙ ap (relay true) typed
        ∙ relay-cancelled ts more readable input flowing open_all in
      elim (Option-cases (relay false sys.shown)) [
        | inl running ↦ rw (out, in', piped, waited, ended, running) refl
        | inr (bytes, whole) ↦ rw (out, in', piped, waited, ended, whole) refl
      ]

-- A client that hangs up ends its session: the child is waited for as one that was killed, and how
-- it ended is sent, whatever the client had sent before; it is sent as soon as the relay of the
-- terminal's output has ended, and not before. The child does not exit before the hangup of its own,
-- the bridge can be started, its thread from the client goes on until the byte that cancels it, which
-- can be written, is there, the killed child can be waited for and the message can be sent.
pub attend-hang_up :
    (sys : System) (n child sent_bytes : ℕ) (ms : List Message) (es : List Event)
    (status : ExitStatus) (ts more : List Round) (readable : Bool) (input : Input)
    (rest : List (Result TransportError (Unit {0}))) (sent : List Sent)
    → length ms < n
    → sys.try_clone master_out ≡ ok tt
    → sys.try_clone master_in ≡ ok tt
    → sys.pipe ≡ ok tt
    → sys.wait child true ≡ ok status
    → sys.cancel ≡ ok sent_bytes
    → All IsFlowing ts
    → All (IsOpen true) ts
    → sys.typed true ≡ ts ++ (polled true readable input ∷ more)
    → attend sys n child
        (record { recvs = events ms ++ (ok none ∷ es); sends = ok tt ∷ rest; sent = sent })
      ≡ Option.map
          (λ shown. (
            ok tt,
            record {
              recvs = es;
              sends = rest;
              sent = sent ++ ((Message.exit (exit_code status), []) ∷ []);
            },
          ))
          (relay false sys.shown)
attend-hang_up sys n child sent_bytes ms es status ts more readable input rest sent h out in' piped
      waited written flowing open_all typed =
    let heard = winsize_loop-events n ms es h in
    attend-shown sys child status ts more readable input n sent_bytes (events ms ++ (ok none ∷ es))
      rest sent out in' piped (ap (λ w. sys.wait child w.hung_up) heard ∙ waited) written flowing
      open_all typed
    ∙ ap
        (λ w.
          Option.map
            (λ shown. (
              ok tt,
              record {
                recvs = w.rest;
                sends = rest;
                sent = sent ++ ((Message.exit (exit_code status), []) ∷ []);
              },
            ))
            (relay false sys.shown))
        heard
