-- ===== src/Programs/Broadcasts.antt =====
-- The server's program, Server/main.cpp: what its threads and its console put on every wire.
use yserver_core.Common.{ℕ, ◌+◌, ◌^◌, ◌<◌, ◌≡◌, List, [], ◌∷◌, some, length, get_elem?}
use yserver_core.Packet.{max_chat_size}
use yserver_core.Session.{Session}
use yserver_core.SessionManager.{Manager}
use yserver_core.SessionManager.Heard.{Heard}
use yserver_core.SessionManager.Broadcast.{Reached}
use yserver_core.Server.{Server}
use yserver_core.Programs.{Local}
use yserver_core.Programs.Typed.{IsLocal, Lines}
use yserver_core.SessionManager.Kept.{Kept}
use yserver_core.Programs.Announced.{Announced}

-- A console's local of the right lengths.
pub record IsConsole (l : Local) : Type 0 where
  pub blank : IsLocal l
  pub line_length : length l.line ≡ max_chat_size

-- The rounds of all the threads that send.
abbrev pub all_rounds : List (List Local) → ℕ
all_rounds [] = 0
all_rounds (ls ∷ lists) = length ls + all_rounds lists

-- Every session of the vector was sent bytes that announce these texts; the vector and the counter are
-- as they were.
pub record Hear (texts : List (List ℕ)) (m m' : Manager) : Type 0 where
  pub sessions : m'.sessions ≡ m.sessions
  pub session_count : m'.session_count ≡ m.session_count
  pub told :
      (i p : ℕ) (s : Session)
      → get_elem? m.sessions i ≡ some p
      → m.heap p ≡ some s
      → (out : List ℕ) × Announced texts out × Reached out s m'.heap p

module _ (last_error : Session → ℕ) (documented : (s : Session) → last_error s < 2 ^ 31) where
  -- What a run of announcements of these texts does to the manager.
  abbrev pub Hears : Manager → List (List ℕ) → Manager → Type 0
  Hears m texts m' = (out : List ℕ) × Announced texts out × Heard out m m'
