-- ===== src/Examples/Tests.antt =====
-- The theorems on the example programs at concrete data.
use fibocom_cellular_rs.Prelude.{
  ℕ, zero, suc, ◌+◌, ◌<◌, ◌≡◌, ◌≢◌, refl, false, none, some, List, [], ◌∷◌, get_elem?, arith,
}
use fibocom_cellular_rs.Command.{Bytes, SocketAddr}
use fibocom_cellular_rs.Effect.{ok, err}
use fibocom_cellular_rs.Data.Ingress.{DataService}
use fibocom_cellular_rs.Examples.Sockets.Running.{Program, turns, turns-ok}
use fibocom_cellular_rs.Samples.{
  Sockets, board_env, board_env-IsTimely, board_env-IsBounded, set_ops, connected_device,
  taking_env, one_socket, service,
}
use fibocom_cellular_rs.Examples.FileHandler.{new, create_file_for_rx, write_blocks}
use fibocom_cellular_rs.Examples.FileHandler.Blocks.{
  IsBlockOf, is_covered, contents, write_blocks-contents,
}
use fibocom_cellular_rs.Examples.Sockets.{NetworkError, Main, connect}
use fibocom_cellular_rs.Examples.Sockets.Keeping.{connect-socket}
use fibocom_cellular_rs.Examples.Sockets.Driver.{tcp_stack, IsRemovable}

-- Four bytes in two blocks, the second one first.
abbrev file : Bytes
file = 1 ∷ 2 ∷ 3 ∷ 4 ∷ []

abbrev blocks : List (ℕ × Bytes)
blocks = (2, 3 ∷ 4 ∷ []) ∷ (0, 1 ∷ 2 ∷ []) ∷ []

late-IsBlockOf : IsBlockOf file (2, 3 ∷ 4 ∷ [])
unfolding IsBlockOf
late-IsBlockOf = (omega arith, λ i h. at i h)
  where
    at : (i : ℕ) → i < 2 → get_elem? (3 ∷ 4 ∷ []) i ≡ get_elem? file (2 + i)
    at zero h = refl
    at (suc zero) h = refl
    at (suc (suc i)) h = ground arith

early-IsBlockOf : IsBlockOf file (0, 1 ∷ 2 ∷ [])
unfolding IsBlockOf
early-IsBlockOf = (omega arith, λ i h. at i h)
  where
    at : (i : ℕ) → i < 2 → get_elem? (1 ∷ 2 ∷ []) i ≡ get_elem? file (0 + i)
    at zero h = refl
    at (suc zero) h = refl
    at (suc (suc i)) h = ground arith

write_blocks-contents_example :
    contents (write_blocks blocks (create_file_for_rx new).1) ≡ some file
unfolding is_covered
write_blocks-contents_example =
    write_blocks-contents file blocks new (late-IsBlockOf, (early-IsBlockOf, tt))
      (λ i h. ground arith)

abbrev remote : SocketAddr
remote = record { ip = 195 ∷ 34 ∷ 89 ∷ 241 ∷ []; port = 7 }

abbrev main : Main (DataService Sockets)
main = record { socket = some 3; network = service false }

connect-socket_example :
    ((connect (tcp_stack taking_env (one_socket false)) 1 remote main []).0 ≡ ok tt
      → (connect (tcp_stack taking_env (one_socket false)) 1 remote main []).1.socket ≢ none)
    × ((e : NetworkError)
        → (connect (tcp_stack taking_env (one_socket false)) 1 remote main []).0 ≡ err e
        → (connect (tcp_stack taking_env (one_socket false)) 1 remote main []).1.socket ≡ none)
connect-socket_example = connect-socket (tcp_stack taking_env (one_socket false)) 1 remote main []

-- The application on a board with a power pin, and a set from which every socket can be removed.
abbrev program : Program Sockets
program = record { cell_client = connected_device; socket = some 3; count = 7 }

one_socket-IsRemovable : IsRemovable (one_socket false)
one_socket-IsRemovable = record { removes = λ handle s tcp e h. ground arith }

turns-ok_example :
    let run =
      turns board_env set_ops
        (one_socket false)
        (λ count. file)
        1
        {E = NetworkError}
        2
        program
        [] in
    (run.0 ≡ ok tt) × (run.1.count ≡ 9)
turns-ok_example =
    turns-ok board_env set_ops (one_socket false) (λ count. file) 0 board_env-IsTimely refl
      board_env-IsBounded one_socket-IsRemovable NetworkError 2 program [] (omega arith)
