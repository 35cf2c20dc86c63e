-- ===== src/DatabaseJobContext.antt =====
-- EasyServer/EasyServer/DatabaseJobContext.h: the jobs for the database, one class each. `OnExecute`
-- has DatabaseJobContext.cpp.
--
-- A `double` is its bit pattern. `DatabaseJobContext()` leaves `mSockKey` as the memory was: there it
-- is `none`.
pub mod OnExecute
use easy_game_server.Prelude.{ℕ, Bool, false, Option, none, some, List, replicate}
use easy_game_server.PacketType.{max_name_len, max_comment_len, minus_one}

pub record DatabaseJobContext : Type 0 where
  pub sock_key : Option ℕ
  pub success : Bool

pub record LoadPlayerData : Type 0 where
  pub base : DatabaseJobContext
  pub player_id : ℕ
  pub pos_x : ℕ
  pub pos_y : ℕ
  pub pos_z : ℕ
  pub player_name : List ℕ

pub record CreatePlayerData : Type 0 where
  pub base : DatabaseJobContext
  pub player_id : ℕ
  pub pos_x : ℕ
  pub pos_y : ℕ
  pub pos_z : ℕ
  pub player_name : List ℕ
  pub comment : List ℕ

pub record DeletePlayerData : Type 0 where
  pub base : DatabaseJobContext
  pub player_id : ℕ

pub record UpdatePlayerData : Type 0 where
  pub base : DatabaseJobContext
  pub player_id : ℕ
  pub pos_x : ℕ
  pub pos_y : ℕ
  pub pos_z : ℕ
  pub comment : List ℕ

pub data DatabaseJob : Type 0 where
  load_player : LoadPlayerData → DatabaseJob
  create_player : CreatePlayerData → DatabaseJob
  delete_player : DeletePlayerData → DatabaseJob
  update_player : UpdatePlayerData → DatabaseJob

abbrev pub base : DatabaseJob → DatabaseJobContext
base (load_player job) = job.base
base (create_player job) = job.base
base (delete_player job) = job.base
base (update_player job) = job.base

abbrev unkeyed : DatabaseJobContext
unkeyed = record { sock_key = none; success = false }

abbrev keyed : ℕ → DatabaseJobContext
keyed socket = record { sock_key = some socket; success = false }

abbrev pub load_player_data : ℕ → ℕ → LoadPlayerData
load_player_data socket player_id = record {
  base = keyed socket;
  player_id = player_id;
  pos_x = 0;
  pos_y = 0;
  pos_z = 0;
  player_name = replicate max_name_len 0;
}

abbrev pub create_player_data : CreatePlayerData
create_player_data = record {
  base = unkeyed;
  player_id = minus_one;
  pos_x = 0;
  pos_y = 0;
  pos_z = 0;
  player_name = replicate max_name_len 0;
  comment = replicate max_comment_len 0;
}

abbrev pub delete_player_data : ℕ → DeletePlayerData
delete_player_data player_id = record { base = unkeyed; player_id = player_id }

abbrev pub update_player_data : ℕ → ℕ → UpdatePlayerData
update_player_data socket player_id = record {
  base = keyed socket;
  player_id = player_id;
  pos_x = 0;
  pos_y = 0;
  pos_z = 0;
  comment = replicate max_comment_len 0;
}
