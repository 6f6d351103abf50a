-- ===== src/Backends/Defs.antt =====
-- The state of NetworkPluginServer and its pieces: `struct Backend` (NetworkPluginServer.h), the
-- fields of User that decide where he is served (User.h), and writes to the two heaps.
use spectrum.Prelude.{
  ℕ, suc, Bool, true, false, List, [], ◌∷◌, Option, Text, nat_eq, ◌==◌, if◌then◌else◌,
}
use spectrum.Prelude.Int.{ℤ}

-- `pongReceived`: -1, false and true.
pub data Pong : Type 0 where
  first_ping waiting received : Pong

pub record Backend : Type 0 where
  pub pong_received : Pong
  pub users : List ℕ
  pub connection : Bool
  pub res : ℕ
  pub accept_users : Bool
  pub long_run : Bool
  pub will_die : Bool
  pub id : Text

-- `backend` is what `getData` returns; `none` is NULL.
pub record User : Type 0 where
  pub backend : Option ℕ
  -- The server's slots are connected to the user's signals.
  pub listening : Bool
  pub connected : Bool
  pub ready_for_connect : Bool
  pub ignore_disconnect : Bool
  pub reconnect_counter : ℕ
  pub reconnect_limit : ℤ
  pub last_activity : ℕ

-- What the server writes to a backend.
pub data Order : Type 0 where
  ping exit : Order
  login roster logout : ℕ → Order

pub record Config : Type 0 where
  pub users_per_backend : ℕ
  pub login_delay : ℕ
  pub idle_reconnect_time : ℕ
  pub reuse_old_backends : Bool
  pub send_buddies_on_login : Bool

pub record Server : Type 0 where
  pub config : Config
  pub open config use *
  pub clients : List ℕ
  pub waiting_users : List ℕ
  pub is_next_long_run : Bool
  pub starting_backend : Bool
  pub first_pong : Bool
  -- Whether `Component::start` was called.
  pub started : Bool
  pub last_login : ℕ
  pub login_timer_runs : Bool
  pub pids : List ℕ
  pub crashed_backends : List Text
  pub backend : ℕ → Backend
  pub user : ℕ → User
  -- All that was written, newest first.
  pub sent : List (ℕ × Order)

abbrev pub update {ℓ} : {A : Type ℓ} → (ℕ → A) → ℕ → A → ℕ → A
update f a x b = if a == b then x else f b

abbrev pub set_backend : ℕ → Backend → Server → Server
set_backend a b s = record s { backend = update s.backend a b }

abbrev pub set_user : ℕ → User → Server → Server
set_user u x s = record s { user = update s.user u x }

abbrev pub listen : Bool → ℕ → Server → Server
listen on u s = set_user u (record (s.user u) { listening = on }) s

abbrev pub send_to : ℕ → Order → Server → Server
send_to a o s = record s { sent = (a, o) ∷ s.sent }

abbrev pub same_bool : Bool → Bool → Bool
same_bool true b = b
same_bool false true = false
same_bool false false = true

-- The process id goes to the first slot that was emptied, or to a new slot at the end.
pub record_pid : ℕ → List ℕ → List ℕ
record_pid pid [] = pid ∷ []
record_pid pid (p ∷ ps) = if p == 0 then pid ∷ ps else p ∷ record_pid pid ps

-- The number in the name of the new backend's log: the slot of its process id, from 1.
pub log_id : List ℕ → ℕ
log_id [] = 1
log_id (p ∷ ps) = if p == 0 then 1 else suc (log_id ps)

-- `handlePIDTerminated`: the first slot with the id is emptied.
pub pid_terminated : ℕ → List ℕ → List ℕ
pid_terminated pid [] = []
pid_terminated pid (p ∷ ps) = if p == pid then 0 ∷ ps else p ∷ pid_terminated pid ps
