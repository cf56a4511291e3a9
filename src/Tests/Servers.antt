-- ===== src/Tests/Servers.antt =====
-- A server with two loops that accepts two sockets, and then fails to.
use uiconnect.Base.{ℕ, ◌+◌, ◌≤◌, ◌≡◌, refl, Option, none, some, List, [], ◌∷◌, arith}
use uiconnect.Base.Outcome.{ok}
use uiconnect.Server.{TcpServer, on_connects}
use uiconnect.Server.Balance.{load, accepted, numbered, sockets, on_connects_lem}

abbrev server : TcpServer
server = record { pool = record { size = 2; no = 0 }; fd = 4; session_id = 0; sessions = [] }

abbrev answers : List (Option ℕ)
answers = some 7 ∷ some 8 ∷ none ∷ some 9 ∷ []

on_connects_lem_example :
    (out : TcpServer) × (on_connects answers server ≡ ok out)
    × (sockets out.sessions ≡ numbered 0 (accepted answers))
    × (load 0 out.sessions ≤ load 1 out.sessions + 1)
on_connects_lem_example =
    on_connects_lem answers server 0 1 refl (omega arith) refl (omega arith) (omega arith)
