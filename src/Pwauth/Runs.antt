-- ===== src/Pwauth/Runs.antt =====
-- The front-end on a small shadow file, and its theorems at concrete inputs.
use capsudo_rs.Base.{
  ℕ, ◌≡◌, refl, true, false, List, [], ◌∷◌, ◌++◌, Option, none, some, if◌then◌else◌, arith, ◌==◌,
  inr, All,
}
use capsudo_rs.Base.Result.{ok}
use capsudo_rs.Base.Int.{pos}
use capsudo_rs.Base.Utf8.{is_utf8}
use capsudo_rs.Proto.Defs.{Message}
use capsudo_rs.Proto.Message
use capsudo_rs.Transport.Defs.{Received, PeerCred}
use capsudo_rs.Core.Defs.{unauthorized}
use capsudo_rs.Core.Channel.{Channel}
use capsudo_rs.Core.Client.{await_outcome}
use capsudo_rs.Core.Outcome.{events}
use capsudo_rs.Core.Command.{str_eq, split_once}
use capsudo_rs.Pwauth.Shadow.{
  lines, find_user, stored_hash, check_password, stored_hash-render, first_hash, render, Entry,
  IsEntry,
}
use capsudo_rs.Pwauth.Gate.{closed, chained, on_first, handle_client, auth_prompt}
use capsudo_rs.Pwauth.Admission.{handle_client-chained, handle_client-demand, IsLetIn}

abbrev kim : List ℕ
kim = b'k' ∷ b'i' ∷ b'm' ∷ []

abbrev root : List ℕ
root = b'r' ∷ b'o' ∷ b'o' ∷ b't' ∷ []

abbrev hash : List ℕ
hash = b'$' ∷ b'6' ∷ b'x' ∷ []

abbrev password : List ℕ
password = b'p' ∷ b'w' ∷ []

-- `root:!:1` and `kim:$6x:2`.
abbrev entries : List Entry
entries = (root, b'!' ∷ [], b'1' ∷ []) ∷ (kim, hash, b'2' ∷ []) ∷ []

abbrev shadow : Option (List ℕ)
shadow = some (render entries)

abbrev users : ℕ → Option (List ℕ)
users uid = if uid == 1000 then some kim else if uid == 0 then some root else none

-- A `crypt` under which one password has every hash.
abbrev crypt : List ℕ → List ℕ → Option (List ℕ)
crypt key salt = if str_eq key password then some salt else some []

abbrev host : Option (List ℕ)
host = none

kim_entry : stored_hash shadow kim ≡ some hash
unfolding stored_hash find_user lines split_once str_eq
kim_entry = refl

kim_verified : check_password crypt shadow kim password ≡ true
unfolding check_password stored_hash find_user lines split_once str_eq
kim_verified = refl

-- A locked account stays locked, whatever `crypt` says.
root_locked : check_password crypt shadow root password ≡ false
unfolding check_password stored_hash find_user lines split_once str_eq
root_locked = refl

-- A last line without an end, and a line that ends in CR LF.
two_lines : lines (b'a' ∷ 13 ∷ 10 ∷ b'b' ∷ 13 ∷ []) ≡ (b'a' ∷ []) ∷ (b'b' ∷ 13 ∷ []) ∷ []
unfolding lines
two_lines = refl

abbrev peer : PeerCred
peer = record { pid = pos 7; uid = 1000; gid = 1000 }

abbrev first : Message → Channel
first m = record {
  recvs = ok (some (record { message = m; fds = [] })) ∷ ok none ∷ [];
  sends = ok tt ∷ [];
  sent = [];
}

abbrev left : Channel
left = record { recvs = ok none ∷ []; sends = ok tt ∷ []; sent = [] }

abbrev capsudod : List ℕ
capsudod = b'c' ∷ b'a' ∷ b'p' ∷ []

pass :
    handle_client users host crypt shadow
      (some peer)
      true
      (capsudod ∷ [])
      (first (Message.secret password))
    ≡ some (chained capsudod [], left)
unfolding handle_client on_first check_password stored_hash find_user lines split_once str_eq
    Message.secret
pass = refl

handle_client-chained_example :
    (cred : PeerCred) × (r : Received) × (some peer ≡ some cred)
    × IsLetIn users host crypt shadow cred r
    × (capsudod ∷ [] ≡ capsudod ∷ [])
    × ((first (Message.secret password)).recvs ≡ ok (some r) ∷ left.recvs)
    × (left.sent ≡ (first (Message.secret password)).sent)
handle_client-chained_example =
    handle_client-chained users host crypt shadow (some peer) true (capsudod ∷ [])
      (first (Message.secret password)) left capsudod [] pass

handle_client-demand_example :
    let demand = Message.unauthorized (auth_prompt host kim) in
    (handle_client users host crypt shadow (some peer) true (capsudod ∷ []) (record {
      recvs = ok (some (record { message = Message.end; fds = [] })) ∷ [];
      sends = ok tt ∷ [];
      sent = [];
    })
      ≡ some (closed, record { recvs = []; sends = []; sent = (demand, []) ∷ [] }))
    × (await_outcome (events (demand ∷ []) ++ [])
        ≡ some (ok (unauthorized (auth_prompt host kim)), []))
unfolding Message.end auth_prompt is_utf8
handle_client-demand_example =
    handle_client-demand users host crypt shadow peer kim true (capsudod ∷ [])
      (record { message = Message.end; fds = [] }) [] [] [] refl (inr (λ e. ground arith)) refl

entries-IsEntry : All IsEntry entries
entries-IsEntry = ground arith

stored_hash-render_example : stored_hash (some (render entries)) kim ≡ first_hash kim entries
stored_hash-render_example = stored_hash-render kim entries entries-IsEntry
