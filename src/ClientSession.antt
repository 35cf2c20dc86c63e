-- ===== src/ClientSession.antt =====
-- EasyServer/EasyServer/ClientSession.h, ClientSession.cpp and RefCountable.h: one client's
-- connection.
--
-- A method returns the session it leaves, beside its result, and what it does elsewhere as a list of
-- effects in order. What Winsock answers to the calls on a socket that may fail is not known:
-- `answers n` is whether the n-th of them succeeds, and `calls` counts them. An operation that is
-- pending (`WSA_IO_PENDING`) has been started: it succeeds.
mod Tests
pub mod Sending
pub mod Login
use easy_game_server.Prelude.{
  ℕ, suc, ◌+◌, ◌-◌, ◌*◌, ◌%◌, ◌^◌, ltb, ◌==◌, if◌then◌else◌, Bool, true, false, not, Option, none,
  some, List, [], ◌∷◌, ◌++◌, replicate, Outcome, returns, crashes, ◌>>=◌, ◌>>◌, assert, strcpy_s,
}
use easy_game_server.CircularBuffer
use easy_game_server.CircularBuffer.{CircularBuffer}
use easy_game_server.PacketType.{
  max_name_len, minus_one, LoginResult, login_result, login_result_bytes,
}
use easy_game_server.DatabaseJobContext.{
  DatabaseJob, load_player, create_player, delete_player, update_player, LoadPlayerData,
  UpdatePlayerData, update_player_data, base,
}

-- Config.h.
abbrev pub buf_size : ℕ
buf_size = 1024 * 10

abbrev pub player_heart_beat : ℕ
player_heart_beat = 1000

abbrev pub player_db_update_interval : ℕ
player_db_update_interval = 60 * 1000

pub record Socket : Type 0 where
  pub handle : ℕ
  pub answers : ℕ → Bool
  pub calls : ℕ

pub record ClientSession : Type 0 where
  pub ref_count : ℕ
  pub pos_x : ℕ
  pub pos_y : ℕ
  pub player_name : List ℕ
  pub connected : Bool
  pub logon : Bool
  pub socket : Socket
  pub player_id : ℕ
  pub send_buffer : CircularBuffer
  pub recv_buffer : CircularBuffer

-- The methods that are put off by `CallFuncAfter`.
pub data Task : Type 0 where
  on_tick_task on_db_update_task : Task

-- `starts_recv p n` is a `WSARecv` of at most `n` bytes to `p` of the receive buffer's block, and
-- `starts_send p n` a `WSASend` of the `n` bytes at `p` of the send buffer's.
pub data Effect : Type 0 where
  starts_recv : ℕ → ℕ → Effect
  starts_send : Option ℕ → ℕ → Effect
  pushes_request : DatabaseJob → Effect
  calls_after : ℕ → Task → Effect
  broadcasts : List ℕ → Effect

-- The session of a new object, whose two buffers have the blocks given.
unfoldable pub init : Socket → List ℕ → List ℕ → ClientSession
init socket send_block recv_block = record {
  ref_count = 0;
  pos_x = 0;
  pos_y = 0;
  player_name = replicate max_name_len 0;
  connected = false;
  logon = false;
  socket = socket;
  player_id = minus_one;
  send_buffer = CircularBuffer.init send_block;
  recv_buffer = CircularBuffer.init recv_block;
}

-- `mRefCount` is an `int`, as its bit pattern.
abbrev pub inc_ref_count : ClientSession → ClientSession
inc_ref_count s = record s { ref_count = (s.ref_count + 1) % 2 ^ 32 }

abbrev pub dec_ref_count : ClientSession → ClientSession
dec_ref_count s = record s { ref_count = (s.ref_count + 2 ^ 32 - 1) % 2 ^ 32 }

abbrev pub set_position : ClientSession → ℕ → ℕ → ClientSession
set_position s x y = record s { pos_x = x; pos_y = y }

-- The next answer of Winsock.
abbrev pub answer : ClientSession → Bool
answer s = s.socket.answers s.socket.calls

abbrev pub asked : ClientSession → ClientSession
asked s = record s { socket = record (s.socket) { calls = suc s.socket.calls } }

-- If `setsockopt` fails, the socket is not closed and the session stays connected.
unfoldable pub disconnect : ClientSession → ClientSession
disconnect s =
    if s.connected
    then (if answer s then record (asked s) { connected = false } else asked s)
    else s

unfoldable pub post_recv : ClientSession → Bool × ClientSession × List Effect
post_recv s =
    if s.connected
    then (let (n, buffer) = CircularBuffer.get_free_space_size s.recv_buffer in
        let s' = record s { recv_buffer = buffer } in
        if answer s'
        then (true, inc_ref_count (asked s'), starts_recv (CircularBuffer.get_buffer buffer) n ∷ [])
        else (false, asked s', []))
    else (false, s, [])

-- The calls before `PostRecv` set options of the socket; their results are not looked at.
unfoldable pub on_connect : ClientSession → Bool × ClientSession × List Effect
on_connect s = post_recv (record s { connected = true })

-- The packet is given by its `mSize` bytes.
unfoldable pub send_request : ClientSession → List ℕ → Bool × ClientSession
unfolding disconnect
send_request s packet =
    if s.connected
    then (let (ok, buffer) = CircularBuffer.write s.send_buffer packet in
        let s' = record s { send_buffer = buffer } in
        if ok then (true, s') else (false, disconnect s'))
    else (false, s)

unfoldable pub send_flush : ClientSession → Bool × ClientSession × List Effect
send_flush s =
    if s.connected
    then (if CircularBuffer.get_contiguous_bytes s.send_buffer == 0
        then (true, s, [])
        else if answer s
        then (
          true,
          inc_ref_count (asked s),
          starts_send (CircularBuffer.get_buffer_start s.send_buffer)
                (CircularBuffer.get_contiguous_bytes s.send_buffer)
              ∷ [],
        )
        else (false, asked s, []))
    else (false, s, [])

unfoldable pub on_write_complete : ClientSession → ℕ → Outcome ClientSession
on_write_complete s len = CircularBuffer.remove s.send_buffer len >>= λ buffer.
    returns (record s { send_buffer = buffer })

-- The other sessions' part, `ClientManager::BroadcastPacket`, is an effect.
unfoldable pub broadcast : ClientSession → List ℕ → Bool × ClientSession × List Effect
broadcast s packet =
    let (ok, s') = send_request s packet in
    if ok
    then (if s'.connected then (true, s', broadcasts packet ∷ []) else (false, s', []))
    else (false, s', [])

-- `CallFuncAfter`: the scheduler keeps the session alive until the call.
abbrev pub call_func_after : ℕ → Task → ClientSession → ClientSession × List Effect
call_func_after after task s = (inc_ref_count s, calls_after after task ∷ [])

unfoldable pub on_tick : ClientSession → ClientSession × List Effect
on_tick s = if s.connected then call_func_after player_heart_beat on_tick_task s else (s, [])

-- "updated_test", with its final 0.
abbrev pub updated_test : List ℕ
updated_test = 117 ∷ 112 ∷ 100 ∷ 97 ∷ 116 ∷ 101 ∷ 100 ∷ 95 ∷ 116 ∷ 101 ∷ 115 ∷ 116 ∷ 0 ∷ []

update_done : ClientSession → ClientSession
update_done s = s

-- The processor's conversions between `float` and `double`, on bit patterns.
pub record Casts : Type 0 where
  pub to_float : ℕ → ℕ
  pub to_double : ℕ → ℕ

module _ (casts : Casts) where
  open casts use {to_float, to_double}

  unfoldable pub on_db_update : ClientSession → Outcome (ClientSession × List Effect)
  on_db_update s =
      if s.connected
      then (let job : UpdatePlayerData = update_player_data s.socket.handle s.player_id in
          strcpy_s job.comment updated_test >>= λ comment.
          let (s', after) = call_func_after player_db_update_interval on_db_update_task s in
          returns (
            s',
            pushes_request (
                  update_player (record job {
                    pos_x = to_double s.pos_x;
                    pos_y = to_double s.pos_y;
                    comment = comment;
                  }))
                ∷ after,
          ))
      else returns (s, [])

  unfoldable pub login_done :
      ClientSession → ℕ → ℕ → ℕ → List ℕ → Outcome (ClientSession × List Effect)
  unfolding on_tick on_db_update
  login_done s pid x y name = strcpy_s s.player_name name >>= λ player_name.
      strcpy_s login_result.name name >>= λ packet_name.
      let packet : LoginResult = record login_result {
        player_id = pid;
        pos_x = x;
        pos_y = y;
        name = packet_name;
      } in
      let s₁ = record s { player_id = pid; pos_x = x; pos_y = y; player_name = player_name } in
      let s₂ = (send_request s₁ (login_result_bytes packet)).1 in
      let (s₃, ticking) = on_tick (record s₂ { logon = true }) in
      on_db_update s₃ >>= λ (s₄, updating). returns (s₄, ticking ++ updating)

  abbrev pub has_key : ℕ → Option ℕ → Bool
  has_key socket none = false
  has_key socket (some key) = socket == key

  unfoldable pub done : ClientSession → DatabaseJob → Outcome (ClientSession × List Effect)
  unfolding login_done update_done
  done s (load_player job) =
      login_done s job.player_id (to_float job.pos_x) (to_float job.pos_y) job.player_name
  done s (update_player job) = returns (update_done s, [])
  done s (create_player job) = crashes
  done s (delete_player job) = crashes

  -- An unset `mSockKey` is taken to differ from the socket.
  unfoldable pub database_job_done :
      ClientSession → DatabaseJob → Outcome (ClientSession × List Effect)
  unfolding done
  database_job_done s job = assert (has_key s.socket.handle (base job).sock_key) >> done s job
