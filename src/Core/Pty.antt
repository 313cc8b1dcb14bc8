-- ===== src/Core/Pty.antt =====
-- pty.rs: an interactive session on a pseudo-terminal of the daemon's own. `relay`, which its two
-- threads run, is in Core/Relay.antt.
use capsudo_rs.Base.{ℕ, zero, suc, Bool, true, false, List, [], ◌∷◌, ◌++◌, Option, none, some}
use capsudo_rs.Base.Result.{Result, ok, err, map_err}
use capsudo_rs.Proto.Defs.{FieldType}
use capsudo_rs.Proto.Message.{Dims}
use capsudo_rs.Proto.Accessors.{as_winsize}
use capsudo_rs.Transport.Defs.{IoError, Received}
use capsudo_rs.Core.Defs.{CoreError, SessionRequest}
use capsudo_rs.Core.Channel.{Event, M, return, ◌>>=◌, ◌>>◌}
use capsudo_rs.Core.Command.{Command, build_command, exit_code, send_exit, send_spawn_failure}
use capsudo_rs.Core.Relay.{relay}
use capsudo_rs.Core.System.{System, Launch, slave_in, slave_out, master_out, master_in}

abbrev pub head : List (List ℕ) → List ℕ
head [] = []
head (s ∷ ss) = s

-- `r?` for a call of the operating system.
abbrev pub try_io {ℓ} : {A : Type ℓ} → Result IoError A → M (Result CoreError A)
try_io r = return (map_err CoreError.io r)

-- The dimensions that one message sets.
abbrev pub if_winsize : FieldType → Received → List Dims
if_winsize FieldType.winsize r = elim (as_winsize r.message) [ ok dims ↦ dims ∷ [] | err e ↦ [] ]
if_winsize other r = []

abbrev pub sizes : Received → List Dims
sizes r = if_winsize r.message.field_type r

-- What the loop has done when the `select!` ends: the sizes it has set, and whether the client hung
-- up.
pub record Watched : Type 0 where
  pub resized : List Dims
  pub hung_up : Bool
  pub rest : List Event

abbrev pub after_sizes : List Dims → Watched → Watched
after_sizes dims w = record w { resized = dims ++ w.resized }

-- `select!` between the loop and the child, which exits after so many messages; when no call of
-- `recv` returns any more, the child's exit is what ends it.
unfoldable pub winsize_loop : ℕ → List Event → Watched
winsize_loop zero es = record { resized = []; hung_up = false; rest = es }
winsize_loop (suc n) [] = record { resized = []; hung_up = false; rest = [] }
winsize_loop (suc n) (ok (some r) ∷ es) = after_sizes (sizes r) (winsize_loop n es)
winsize_loop (suc n) (ok none ∷ es) = record { resized = []; hung_up = true; rest = es }
winsize_loop (suc n) (err e ∷ es) = record { resized = []; hung_up = true; rest = es }

abbrev pub watching : ℕ → M (Result CoreError Bool)
watching n ch = let w = winsize_loop n ch.recvs in some (ok w.hung_up, record ch { recvs = w.rest })

-- `build_command`, whose panic does not return.
abbrev pub with_command :
    Option Command → (Command → M (Result CoreError (Unit {0}))) → M (Result CoreError (Unit {0}))
with_command none k ch = none
with_command (some command) k ch = k command ch

-- Whether a byte was written.
abbrev pub is_ok : Result IoError ℕ → Bool
is_ok (ok n) = true
is_ok (err e) = false

-- Both threads have ended, or their join has not returned.
abbrev pub joined : Option (List ℕ) → Option (List ℕ) → M (Result CoreError (Unit {0}))
joined (some input) (some output) ch = some (ok tt, ch)
joined (some input) none ch = none
joined none output ch = none

module _ (sys : System) where
  open sys use {openpty, try_clone, pipe, spawn, wait, cancel, typed, shown, unable_to_run}

  -- `Bridge::start`, which leaves its threads running.
  unfoldable pub start_bridge : M (Result CoreError (Unit {0}))
  start_bridge = try_io pipe >> try_io (try_clone master_in)

  -- `Bridge::stop`: it writes a byte for the thread from the client, whatever comes of that, and
  -- joins both threads.
  unfoldable pub stop : M (Result CoreError (Unit {0}))
  stop ch = joined (relay true (typed (is_ok cancel))) (relay false shown) ch

  -- What follows the spawn. `n` messages arrive before the child exits of its own.
  unfoldable pub attend : ℕ → ℕ → M (Result CoreError (Unit {0}))
  attend n child = try_io (try_clone master_out) >> start_bridge >> watching n >>= λ hung_up.
      try_io (wait child hung_up) >>= λ status. stop >> send_exit (exit_code status)

  abbrev pub when_spawned :
      (ℕ → M (Result CoreError (Unit {0})))
      → List ℕ
      → Result IoError ℕ
      → M (Result CoreError (Unit {0}))
  when_spawned k program (ok child) = k child
  when_spawned k program (err e) = send_spawn_failure (unable_to_run program e)

  abbrev launch_on : ℕ → SessionRequest → Command → Launch
  launch_on slave q command = record {
    command = command;
    stdio = (slave, slave, slave);
    terminal = true;
    secontext = q.secontext;
  }

  unfoldable pub run_interactive : ℕ → SessionRequest → M (Result CoreError (Unit {0}))
  run_interactive n q = try_io (openpty q.winsize) >>= λ pty.
      with_command (build_command q.argv q.envp) λ command.
        try_io (try_clone slave_in)
        >> try_io (try_clone slave_out)
        >> when_spawned (attend n) (head q.argv) (spawn (launch_on pty.1 q command))
