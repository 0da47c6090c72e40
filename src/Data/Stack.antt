-- ===== src/Data/Stack.antt =====
-- services/data/tcp_stack.rs and udp_stack.rs: what the two socket stacks share.
use fibocom_cellular_rs.Prelude.{
  ℕ, zero, suc, Bool, Option, none, some, ◌⊎◌, inl, inr, List, [], ◌∷◌, length, take, drop,
  if◌then◌else◌,
}
use fibocom_cellular_rs.Command.{Bytes, Command, Response}
use fibocom_cellular_rs.Error.{SocketError}
use fibocom_cellular_rs.Env.{Env, Log}
use fibocom_cellular_rs.Effect.{M, err, pure, throw, log, map_err, modify, ◌>>=◌, ◌>>◌}
use fibocom_cellular_rs.Network.{send_internal}
use fibocom_cellular_rs.Data.Ingress.{DataService, on_service_network}

-- EGRESS_CHUNK_SIZE
abbrev pub egress_chunk_size : ℕ
egress_chunk_size = 1024

-- `buffer.chunks(n)`: as many rounds as there are bytes are enough.
unfoldable pub chunks_within : ℕ → ℕ → Bytes → List Bytes
chunks_within zero n buffer = []
chunks_within (suc rounds) n [] = []
chunks_within (suc rounds) n (x ∷ xs) = take n (x ∷ xs) ∷ chunks_within rounds n (drop n (x ∷ xs))

unfoldable pub chunks : ℕ → Bytes → List Bytes
unfolding chunks_within
chunks n buffer = chunks_within (length buffer) n buffer

module _ {S : Type 0} where
  -- `if let Some(ref mut sockets) = self.sockets { … } else { Err(Error::Illegal) }`
  unfoldable pub with_sockets :
      {A : Type 0} → (S → M (DataService S) SocketError A) → M (DataService S) SocketError A
  with_sockets body d l = elim d.sockets [
    | none ↦ (err SocketError.illegal, d, l)
    | some s ↦ body s d l
  ]

  abbrev pub set_sockets : {E : Type 0} → S → M (DataService S) E (Unit {0})
  set_sockets s = modify λ d. record d { sockets = some s }

  -- A result of the socket crate.
  abbrev pub lift : {A : Type 0} → SocketError ⊎ A → M (DataService S) SocketError A
  lift (inl e) = throw e
  lift (inr a) = pure a

  -- A full set makes room or fails.
  unfoldable pub make_room : Bool → (Log → Bool × S) → S → M (DataService S) SocketError S
  make_room full recycle s =
      if full
      then (do
        l ← log
        let (recycled, s') = recycle l
        set_sockets s'
        if recycled then pure s' else throw SocketError.socket_set_full)
      else pure s

  -- `.ok_or(Error::SocketClosed)?`
  abbrev pub or_closed : {A : Type 0} → Option A → M (DataService S) SocketError A
  or_closed none = throw SocketError.socket_closed
  or_closed (some a) = pure a

  -- A command whose error is given up for `Unaddressable`.
  unfoldable pub send_or_unaddressable :
      Env → (c : Command) → Bool → M (DataService S) SocketError (Response c)
  send_or_unaddressable env c check_urc =
      map_err (λ _. SocketError.unaddressable) (on_service_network (send_internal env c check_urc))
