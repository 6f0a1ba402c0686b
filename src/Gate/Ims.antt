-- ===== src/Gate/Ims.antt =====
-- The instant-message servers that the gate knows: `IMMgr` and `IMSvr` of gamegate/imclient.go.
use gogame.Common.{ℕ, Bool, List, Option}
use gogame.HashRing
use gogame.HashRing.{HashRing}

-- A server's connection is missing before it is dialled and after it is closed.
pub record ImSvr : Type 0 where
  pub conn : Option ℕ
  pub addr : List ℕ
  pub id : ℕ
  pub status : ℕ

pub record ImMgr : Type 0 where
  pub ims : List (ℕ × List ℕ)
  pub im_map : List (ℕ × ℕ)
  pub hash_ring : Option HashRing
  pub svrs : ℕ → ImSvr
  pub next_svr : ℕ

-- What sending between the servers needs from outside: the gate's number in its configuration; the
-- digest of the hash ring; `strconv.Itoa` and `strconv.Atoi` of 64-bit words (the latter with
-- whether the string is a number); and protobuf on group messages (accounts, message id, body) and
-- on lists of servers (their kind and ids).
pub record Site : Type 0 where
  pub server_id : ℕ
  pub hash : HashRing.Env
  pub itoa : ℕ → List ℕ
  pub atoi : List ℕ → ℕ × Bool
  pub unmarshal_group : List ℕ → Option (List ℕ × ℕ × List ℕ)
  pub unmarshal_sync : List ℕ → Option (ℕ × List ℕ)
