-- ===== src/Backend/Redis/Server.antt =====
-- The commands that the store sends to redis, and its replies, drmemd/src/backends/redis.rs.
use drmem.Base.{ℕ, Option, none, some, List, [], ◌∷◌}
use drmem.Api.Value.{Text}
use drmem.Backend.Redis.Codec.{
  Error, type_error, not_found, authentication_error, operation_error, backend_error,
}
use drmem.Backend.Redis.Codec.{Result, ok, err, RedisValue}
use drmem.Backend.Redis.Stream.{Fields, hist_key, info_key, value_key}

-- `redis::ErrorKind`; `other_kind` is any that the store does not name.
pub data ErrorKind : Type 0 where
  authentication_failed invalid_client_config type_mismatch exec_abort_error : ErrorKind
  busy_loading_error try_again client_error extension_error read_only : ErrorKind
  no_script_error moved ask other_kind : ErrorKind

pub data RedisResult (A : Type 0) : Type 0 where
  done : A → RedisResult A
  failed : ErrorKind → RedisResult A

unfoldable pub xlat_err : ErrorKind → Error
xlat_err authentication_failed = authentication_error
xlat_err invalid_client_config = authentication_error
xlat_err type_mismatch = type_error
xlat_err exec_abort_error = operation_error
xlat_err busy_loading_error = operation_error
xlat_err try_again = operation_error
xlat_err client_error = operation_error
xlat_err extension_error = operation_error
xlat_err read_only = operation_error
xlat_err no_script_error = not_found
xlat_err moved = not_found
xlat_err ask = not_found
xlat_err other_kind = backend_error

unfoldable pub mapped : {A : Type 0} → RedisResult A → Result A
unfolding xlat_err
mapped (done a) = ok a
mapped (failed e) = err (xlat_err e)

pub data Cmd : Type 0 where
  del : Text → Cmd
  xadd : Text → Text → Fields (List ℕ) → Cmd
  xdel : Text → Text → Cmd
  hset_multiple : Text → Fields Text → Cmd

abbrev units_field : Option Text → Fields Text
units_field none = []
units_field (some units) = (b'u' ∷ b'n' ∷ b'i' ∷ b't' ∷ b's' ∷ [], units) ∷ []

abbrev pub driver_key : Text
driver_key = b'd' ∷ b'r' ∷ b'i' ∷ b'v' ∷ b'e' ∷ b'r' ∷ []

-- Both keys are made anew, the history empty, in one transaction.
unfoldable pub init_device_cmd : Text → Text → Option Text → List Cmd
unfolding hist_key info_key
init_device_cmd name driver units =
    del (hist_key name)
    ∷ xadd (hist_key name) (b'1' ∷ []) ((value_key, 1 ∷ []) ∷ [])
    ∷ xdel (hist_key name) (b'1' ∷ [])
    ∷ del (info_key name)
    ∷ hset_multiple (info_key name) ((driver_key, driver) ∷ units_field units)
    ∷ []

abbrev all_info : Text
all_info = b'*' ∷ b'#' ∷ b'i' ∷ b'n' ∷ b'f' ∷ b'o' ∷ []

unfoldable pub match_pattern_cmd : Option Text → Text
unfolding info_key
match_pattern_cmd none = all_info
match_pattern_cmd (some pattern) = info_key pattern

-- An entry of a stream, and what XINFO says of a stream.
pub record StreamId : Type 0 where
  pub id : Text
  pub map : Fields RedisValue

pub record StreamInfo : Type 0 where
  pub length : ℕ
  pub first_entry : StreamId
  pub last_entry : StreamId

-- The redis server over its databases `Db`: TYPE of a key, the pipeline as one transaction,
-- XREVRANGE for the last entry, HGETALL, XINFO STREAM and KEYS.
pub record Server (Db : Type 0) : Type 0 where
  pub key_type : Db → Text → RedisResult Text
  pub pipeline : Db → List Cmd → Db × RedisResult (Unit {0})
  pub xrevrange : Db → Text → RedisResult RedisValue
  pub hgetall : Db → Text → RedisResult (Fields Text)
  pub xinfo_stream : Db → Text → RedisResult StreamInfo
  pub keys : Db → Text → RedisResult (List Text)
