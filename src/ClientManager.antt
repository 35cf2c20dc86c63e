-- ===== src/ClientManager.antt =====
-- EasyServer/EasyServer/ClientManager.h and ClientManager.cpp: the list of the clients, over the
-- sessions that live in memory.
--
-- A session's address is its place in `sessions`; a deleted session's cell holds `none`, and going
-- through a pointer to it is `crashes`. `mClientList` is the list of the pairs of the map in order.
pub mod Heap
pub mod Invariant
pub mod Creating
pub mod Broadcast
pub mod Collecting
pub mod Erasing
pub mod Flushing
pub mod Dispatching
pub mod Delivering
pub mod Handling
pub mod Acting
pub mod History
mod Tests
use easy_game_server.Prelude.{
  ℕ, zero, suc, ltb, ◌==◌, ◌-◌, ◌+◌, ◌^◌, ◌%◌, if◌then◌else◌, Bool, true, false, not, ◌&&◌, leb,
  Option, none, some, List, [], ◌∷◌, ◌++◌, length, Outcome, returns, crashes, ◌>>=◌, deref, map,
  sub_size, strcpy_s,
}
use easy_game_server.ClientSession.{
  ClientSession, Socket, Effect, pushes_request, send_request, send_flush, disconnect, Casts,
  database_job_done,
}
use easy_game_server.ClientSession
use easy_game_server.DatabaseJobContext.{
  DatabaseJob, load_player, create_player, delete_player, update_player, CreatePlayerData,
  create_player_data, delete_player_data,
}
use Heap.{Sessions, lookup, store}

-- A pair of `mClientList`: the socket, and the session's address.
pub record Client : Type 0 where
  pub sock : ℕ
  pub session : ℕ

pub record ClientManager : Type 0 where
  pub sessions : Sessions
  pub client_list : List Client
  pub last_gc_tick : ℕ

-- `std::map::insert` leaves a pair that has the key.
abbrev pub insert : List Client → Client → List Client
insert [] new = new ∷ []
insert (client ∷ clients) new =
    if new.sock == client.sock
    then client ∷ clients
    else if ltb new.sock client.sock
    then new ∷ client ∷ clients
    else client ∷ insert clients new

-- `new` takes a cell that is free: here one behind all others. It returns the session's address. Only
-- the client thread calls it, which is what the assertion on the thread-local `LThreadType` is about.
unfoldable pub create_client : ClientManager → Socket → List ℕ → List ℕ → ℕ × ClientManager
create_client m socket send_block recv_block =
    let address = length m.sessions in
    (
      address,
      record m {
        sessions = m.sessions ++ (some (ClientSession.init socket send_block recv_block) ∷ []);
        client_list = insert m.client_list (record { sock = socket.handle; session = address });
      },
    )

-- The loop of `BroadcastPacket`.
abbrev pub broadcast_to : ℕ → List ℕ → Sessions → List Client → Outcome Sessions
broadcast_to from packet sessions [] = returns sessions
broadcast_to from packet sessions (client ∷ clients) =
    if from == client.session
    then broadcast_to from packet sessions clients
    else (deref (lookup sessions client.session) >>= λ s.
        broadcast_to from packet (store sessions client.session (some (send_request s packet).1))
          clients)

pub broadcast_packet : ClientManager → ℕ → List ℕ → Outcome ClientManager
broadcast_packet m from packet = broadcast_to from packet m.sessions m.client_list >>= λ sessions.
    returns (record m { sessions = sessions })

abbrev pub is_garbage : ClientSession → Bool
is_garbage s = not s.connected && (0 == s.ref_count)

-- The first loop of `CollectGarbageSessions`: the addresses in `disconnectedSessions`.
abbrev pub disconnected_sessions : Sessions → List Client → Outcome (List ℕ)
disconnected_sessions sessions [] = returns []
disconnected_sessions sessions (client ∷ clients) = deref (lookup sessions client.session) >>= λ s.
    disconnected_sessions sessions clients >>= λ found.
    returns (if is_garbage s then client.session ∷ found else found)

abbrev pub erase : List Client → ℕ → List Client
erase [] sock = []
erase (client ∷ clients) sock = if client.sock == sock then clients else client ∷ erase clients sock

-- Its second loop.
abbrev pub delete_all : ClientManager → List ℕ → Outcome ClientManager
delete_all m [] = returns m
delete_all m (address ∷ addresses) = deref (lookup m.sessions address) >>= λ s.
    delete_all
      (record m {
        sessions = store m.sessions address none;
        client_list = erase m.client_list s.socket.handle;
      })
      addresses

pub collect_garbage_sessions : ClientManager → Outcome ClientManager
collect_garbage_sessions m =
    disconnected_sessions m.sessions m.client_list >>= λ found. delete_all m found

-- What the loop of `FlushClientSend` does with one session.
abbrev pub flushed : ClientSession → ClientSession × List Effect
flushed s =
    let (ok, s', effects) = send_flush s in if ok then (s', effects) else (disconnect s', effects)

-- The loop. An effect stands with the address of its session.
abbrev pub flush_all : Sessions → List Client → Outcome (Sessions × List (ℕ × Effect))
flush_all sessions [] = returns (sessions, [])
flush_all sessions (client ∷ clients) = deref (lookup sessions client.session) >>= λ s.
    flush_all (store sessions client.session (some (flushed s).0)) clients >>= λ (after, effects).
    returns (after, map (λ e. (client.session, e)) (flushed s).1 ++ effects)

pub flush_client_send : ClientManager → Outcome (ClientManager × List (ℕ × Effect))
flush_client_send m = flush_all m.sessions m.client_list >>= λ (sessions, effects).
    returns (record m { sessions = sessions }, effects)

-- `mClientList.find`: the address of the session under a socket.
abbrev pub find : List Client → ℕ → Option ℕ
find [] sock = none
find (client ∷ clients) sock =
    if client.sock == sock then some client.session else find clients sock

-- A key that was never set is taken to be no client's.
abbrev pub find_key : List Client → Option ℕ → Option ℕ
find_key clients none = none
find_key clients (some sock) = find clients sock

-- `CreatePlayer` and `DeletePlayer`, which push a job to the database.
unfoldable pub create_player_pushed : ℕ → ℕ → ℕ → ℕ → List ℕ → List ℕ → Outcome Effect
create_player_pushed pid x y z name comment =
    let job : CreatePlayerData = create_player_data in
    strcpy_s job.player_name name >>= λ player_name. strcpy_s job.comment comment >>= λ job_comment.
    returns (
      pushes_request (
        create_player (record job {
          player_id = pid;
          pos_x = x;
          pos_y = y;
          pos_z = z;
          player_name = player_name;
          comment = job_comment;
        })))

unfoldable pub delete_player_pushed : ℕ → Effect
delete_player_pushed pid = pushes_request (delete_player (delete_player_data pid))

module _ (casts : Casts) where
  -- The session under the job's socket, if there is one.
  abbrev pub dispatch_to :
      ClientManager → DatabaseJob → Option ℕ → Outcome (ClientManager × List (ℕ × Effect))
  dispatch_to m job none = returns (m, [])
  dispatch_to m job (some address) = deref (lookup m.sessions address) >>= λ s.
      if s.connected
      then (database_job_done casts s job >>= λ (s', effects). returns (
        record m { sessions = store m.sessions address (some s') },
        map (λ e. (address, e)) effects,
      ))
      else returns (m, [])

  -- Players created and deleted are only printed (`CreatePlayerDone`, `DeletePlayerDone`).
  abbrev pub dispatch_result :
      ClientManager → DatabaseJob → Outcome (ClientManager × List (ℕ × Effect))
  dispatch_result m (create_player job) = returns (m, [])
  dispatch_result m (delete_player job) = returns (m, [])
  dispatch_result m (load_player job) =
      if job.base.success
      then dispatch_to m (load_player job) (find_key m.client_list job.base.sock_key)
      else returns (m, [])
  dispatch_result m (update_player job) =
      if job.base.success
      then dispatch_to m (update_player job) (find_key m.client_list job.base.sock_key)
      else returns (m, [])

  -- The loop on the results that `PopDatabaseJobResult` gives until there is none.
  unfoldable pub dispatch_database_job_results :
      ClientManager → List DatabaseJob → Outcome (ClientManager × List (ℕ × Effect))
  dispatch_database_job_results m [] = returns (m, [])
  dispatch_database_job_results m (job ∷ jobs) = dispatch_result m job >>= λ (m', effects).
      dispatch_database_job_results m' jobs >>= λ (m'', later). returns (m'', effects ++ later)

  abbrev collect_if_due : ℕ → ClientManager → Outcome ClientManager
  collect_if_due tick m =
      if leb 1000 (sub_size tick m.last_gc_tick)
      then (collect_garbage_sessions m >>= λ m'. returns (record m' { last_gc_tick = tick }))
      else returns m

  -- `tick` is what `GetTickCount` gives; ticks are 32-bit words.
  unfoldable pub on_period_work :
      ℕ → ClientManager → List DatabaseJob → Outcome (ClientManager × List (ℕ × Effect))
  unfolding collect_garbage_sessions dispatch_database_job_results
  on_period_work tick m results =
      collect_if_due tick m >>= λ m'. dispatch_database_job_results m' results
