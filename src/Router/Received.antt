-- ===== src/Router/Received.antt =====
-- A buffer that a listener receives is unpacked, and its message handled (`Receive` of
-- router/internal.go and router/portal.go).
use gogame.Common.{ℕ, ◌≡◌, refl, List, some}
use gogame.Message.{SsMessage, unpack_ss_message}
use gogame.Router.{Server, Kind, get_client}
use gogame.Router.Sync.{Env}
use gogame.Router.Internal
use gogame.Router.Portal
use gogame.Router.History.{internal, portal, listener_receive}
use gogame.Router.Same.{IsSame}

module _ (env : Env) (s : ℕ) (b : List ℕ) (msg : SsMessage) (sv : Server)
    (unpacked : unpack_ss_message b ≡ some msg) where
  pub internal_received :
      listener_receive env internal s b sv ≡ Internal.handle_message env s msg sv
  unfolding listener_receive Internal.receive
  internal_received = rw (unpacked, listener_receive, Internal.receive) refl

  pub portal_received : listener_receive env portal s b sv ≡ Portal.handle_message env s msg sv
  unfolding listener_receive Portal.receive
  portal_received = rw (unpacked, listener_receive, Portal.receive) refl

pub same-get_client :
    (k : Kind) (id : ℕ) (sv sv' : Server) → IsSame sv sv' → get_client k id sv' ≡ get_client k id sv
unfolding get_client
same-get_client k id sv sv' same = rw (same.registries k) refl
