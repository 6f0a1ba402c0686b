-- ===== src/Redis.antt =====
-- The keys of base/dao/redis/rediskey.go and the queries of redis.go. A Redis server is a map from keys
-- to texts and one from keys to hashes; whether a command fails is an argument. The lock that
-- `removeUserLoc` takes, and goes on without, is `RedisMutex`.
pub mod Keys
mod Tests
use gogame.Common.{
  ℕ, ◌%◌, Bool, true, false, List, [], ◌∷◌, ◌++◌, Option, none, some, ◌==◌, if◌then◌else◌,
}
use gogame.Text.{Text, equals, codes, print_decimal}
use gogame.Text.Keyed
use gogame.Text.Numbers.{atoi}

abbrev pub key_type_user : Text
key_type_user = codes "user"

abbrev pub key_type_redis_mutex : Text
key_type_redis_mutex = codes "rmutex"

abbrev pub key_spec_loc : Text
key_spec_loc = codes "loc"

abbrev pub key_token : Text
key_token = codes "token"

unfoldable pub gen_key : Text → Text → ℕ → Text
gen_key kt ks id = kt ++ b':' ∷ (print_decimal 20 id ++ b':' ∷ ks)

pub record Server : Type 0 where
  pub texts : List (Text × Text)
  pub hashes : List (Text × List (Text × Text))

-- The servers of the zone and across zones; another type is the zone's.
pub record Pools : Type 0 where
  pub zone : Server
  pub cross : Server

abbrev pub pool : ℕ → Pools → Server
pool redis_type p = if redis_type == 2 then p.cross else p.zone

-- `DEL`
unfoldable pub delete : Text → List (Text × Text) → List (Text × Text)
unfolding equals
delete key [] = []
delete key ((name, value) ∷ rest) =
    let later = delete key rest in if equals name key then later else (name, value) ∷ later

-- `redis.Int`, as a `uint16`; a missing key and a text that is no number are errors.
abbrev pub int_reply : Option Text → Option ℕ
int_reply none = none
int_reply (some s) = atoi s

abbrev pub loc_of : Option ℕ → ℕ × Bool
loc_of none = (0, false)
loc_of (some n) = (n % 65536, true)

-- The result, and whether there was no error.
unfoldable pub user_loc : Bool → ℕ → Server → ℕ × Bool
unfolding Keyed.lookup gen_key atoi
user_loc fails uid server =
    if fails
    then (0, false)
    else loc_of (int_reply (Keyed.lookup (gen_key key_type_user key_spec_loc uid) server.texts))

-- The error of `userLoc` is not looked at: its result 0 is compared too.
unfoldable pub remove_user_loc : Bool → Bool → ℕ → ℕ → Server → Server × Bool
unfolding user_loc delete
remove_user_loc get_fails del_fails uid gsid server =
    if (user_loc get_fails uid server).0 == gsid
    then (if del_fails then (server, false) else (
      record {
        texts = delete (gen_key key_type_user key_spec_loc uid) server.texts;
        hashes = server.hashes;
      },
      true,
    ))
    else (server, true)

unfoldable pub get_account_token : Bool → ℕ → Pools → Option Text
unfolding Keyed.lookup gen_key
get_account_token fails account p =
    if fails then none else Keyed.lookup (gen_key key_type_user key_token account) (pool 1 p).texts

-- `HGETALL` of a key without a hash gives an empty one; an error gives nil.
abbrev pub hash_or_empty : Option (List (Text × Text)) → List (Text × Text)
hash_or_empty none = []
hash_or_empty (some entries) = entries

unfoldable pub refresh_server_list : Bool → ℕ → Text → Pools → List (Text × Text)
unfolding Keyed.lookup
refresh_server_list fails redis_type key p =
    if fails then [] else hash_or_empty (Keyed.lookup key (pool redis_type p).hashes)
