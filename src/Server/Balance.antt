-- ===== src/Server/Balance.antt =====
-- How the sessions are spread over the loops of the pool.
use uiconnect.Base.{
  ℕ, suc, ◌+◌, ◌%◌, ◌^◌, ◌≤◌, ◌<◌, ◌≡◌, ◌≢◌, refl, sym, ap, zero, ◌∙◌, Bool, true, false, Option,
  none, some, List, [], ◌∷◌, ◌++◌, ◌==◌, ltb, not-==, if◌then◌else◌, map, append-nil, append_assoc,
  arith,
}
use uiconnect.Base.Outcome.{Outcome, ok, bind_ok, ok-injective}
use uiconnect.Net.Listener.{accept, is_valid, close}
use uiconnect.Server.{
  get_next_loop, Session, TcpServer, add_session, after_accept, on_connect, on_connects,
}
use native.Mathlib.Decide.{dec_lt}
use native.Mathlib.Nat.{mod-eq_of_lt, mod_self}

-- the sessions of a loop
abbrev pub load : ℕ → List Session → ℕ
load j [] = 0
load j (s ∷ rest) = if s.loop == j then suc (load j rest) else load j rest

-- The sockets that were accepted: the first failure of accept closes the socket that listens.
abbrev pub accepted : List (Option ℕ) → List ℕ
accepted [] = []
accepted (none ∷ rest) = []
accepted (some fd ∷ rest) = fd ∷ accepted rest

-- Sockets with the numbers that follow `id`, which are uint32_t.
abbrev pub numbered : ℕ → List ℕ → List (ℕ × ℕ)
numbered id [] = []
numbered id (fd ∷ rest) = let next = (id + 1) % 2 ^ 32 in (next, fd) ∷ numbered next rest

-- the number and the socket of each session
abbrev pub sockets : List Session → List (ℕ × ℕ)
sockets sessions = map (λ s. (s.id, s.fd)) sessions

sockets-append :
    (xs : List Session) (s : Session) → sockets (xs ++ s ∷ []) ≡ sockets xs ++ (s.id, s.fd) ∷ []
sockets-append [] s = refl
sockets-append (x ∷ xs) s = ap (λ t. (x.id, x.fd) ∷ t) (sockets-append xs s)

one_if : Bool → ℕ
one_if true = 1
one_if false = 0

load-append :
    (j : ℕ) (xs : List Session) (s : Session)
    → load j (xs ++ s ∷ []) ≡ load j xs + one_if (s.loop == j)
unfolding one_if
load-append j [] s = ground arith
load-append j (x ∷ xs) s = ground (arith, load-append j xs s)

-- Every loop has had q turns, and those before the next one had one more.
abbrev IsRound : ℕ → TcpServer → Type 0
IsRound q s =
    (s.pool.no ≤ s.pool.size)
    × ((j : ℕ) → j < s.pool.size → load j s.sessions ≡ q + one_if (ltb j s.pool.no))

abbrev Goes : TcpServer → Outcome TcpServer → List ℕ → Type 0
Goes s m fds =
    (out : TcpServer) × (m ≡ ok out)
    × (out.pool.size ≡ s.pool.size)
    × (sockets out.sessions ≡ sockets s.sessions ++ numbered s.session_id fds)
    × ((q : ℕ) × IsRound q out)

turn_low : (j n : ℕ) → one_if (ltb j n) + one_if (n == j) ≡ one_if (ltb j (n + 1))
unfolding one_if
turn_low j n = ground arith

turn_high : (j n : ℕ) → j < n → one_if (ltb j n) ≡ 1
unfolding one_if
turn_high j n h = ground arith

turn_first : (j : ℕ) → one_if (0 == j) ≡ one_if (ltb j (0 + 1))
unfolding one_if
turn_first j = ground arith

connect-IsRound :
    (fd q : ℕ) (s : TcpServer) → 0 < s.pool.size → IsRound q s → Goes s (add_session fd s) (fd ∷ [])
unfolding add_session get_next_loop
connect-IsRound fd q s pos (le, loads) =
    let n = s.pool.no % s.pool.size in
    let id = (s.session_id + 1) % 2 ^ 32 in
    let new : Session = record { loop = n; id = id; fd = fd } in
    let out : TcpServer = record s {
      pool = record s.pool { no = n + 1 };
      session_id = id;
      sessions = s.sessions ++ new ∷ [];
    } in
    let grown : (j : ℕ) → load j out.sessions ≡ load j s.sessions + one_if (n == j) =
      λ j. load-append j s.sessions new in
    (
      out,
      rw (not-== s.pool.size pos) refl,
      refl,
      sockets-append s.sessions new,
      (elim (dec_lt s.pool.no s.pool.size) [
        | yes lt ↦
            let same : n ≡ s.pool.no = mod-eq_of_lt lt in
            (
              q,
              (
                omega (arith, same),
                λ j h.
                    let e = ap (λ k. one_if (ltb j k)) same in
                    omega (arith, grown j, loads j h, turn_low j n, e),
              ),
            )
        | no ge ↦
            let full : s.pool.no ≡ s.pool.size = omega arith in
            let first : n ≡ 0 = ap (λ k. k % s.pool.size) full ∙ mod_self s.pool.size in
            (
              suc q,
              (
                omega (arith, first),
                λ j h.
                    let e = ap (λ k. one_if (k == j)) first in
                    let d = ap (λ k. one_if (ltb j (k + 1))) first in
                    let whole = ap (λ k. one_if (ltb j k)) full ∙ turn_high j s.pool.size h in
                    omega (arith, grown j, loads j h, whole, turn_first j, e, d),
              ),
            )
      ]),
    )

-- A server whose socket is closed accepts nothing.
connects_closed :
    (answers : List (Option ℕ)) (s : TcpServer)
    → on_connects answers (record s { fd = 0 }) ≡ ok (record s { fd = 0 })
unfolding on_connects on_connect accept is_valid after_accept
connects_closed [] s = refl
connects_closed (answer ∷ rest) s = connects_closed rest s

accept_open :
    (fd : ℕ) (new : ℕ)
    → fd ≢ 0
    → (accept none fd ≡ (none, 0)) × (accept (some new) fd ≡ (some new, fd))
unfolding accept is_valid close
accept_open zero new h = absurd (h refl)
accept_open (suc fd) new h = (refl, refl)

-- onConnect of an open server
connect_none : (s : TcpServer) → s.fd ≢ 0 → on_connect none s ≡ ok (record s { fd = 0 })
unfolding on_connect after_accept
connect_none s h = ap (λ r. after_accept r s) (accept_open s.fd 0 h).0

connect_some : (new : ℕ) (s : TcpServer) → s.fd ≢ 0 → on_connect (some new) s ≡ add_session new s
unfolding on_connect after_accept
connect_some new s h = ap (λ r. after_accept r s) (accept_open s.fd new h).1

add_session-fd : (new : ℕ) (s out : TcpServer) → add_session new s ≡ ok out → out.fd ≡ s.fd
unfolding add_session
add_session-fd new s out h =
    let (next, p, done) = bind_ok (get_next_loop s.pool) _ h in
    sym (ap (λ (t : TcpServer). t.fd) (ok-injective done))

add_session-session_id :
    (new : ℕ) (s out : TcpServer)
    → add_session new s ≡ ok out
    → out.session_id ≡ (s.session_id + 1) % 2 ^ 32
unfolding add_session
add_session-session_id new s out h =
    let (next, p, done) = bind_ok (get_next_loop s.pool) _ h in
    sym (ap (λ (t : TcpServer). t.session_id) (ok-injective done))

connects-IsRound :
    (answers : List (Option ℕ)) (q : ℕ) (s : TcpServer)
    → 0 < s.pool.size
    → s.fd ≢ 0
    → IsRound q s
    → Goes s (on_connects answers s) (accepted answers)
unfolding on_connects
connects-IsRound [] q s pos live r = (s, refl, refl, sym (append-nil (sockets s.sessions)), (q, r))
connects-IsRound (none ∷ rest) q s pos live r =
    let shut : TcpServer = record s { fd = 0 } in
    (
      shut,
      rw (connect_none s live) (connects_closed rest s),
      refl,
      sym (append-nil (sockets s.sessions)),
      (q, r),
    )
connects-IsRound (some fd ∷ rest) q s pos live r =
    let (s1, e1, size1, len1, (q1, r1)) = connect-IsRound fd q s pos r in
    let (out, e, size, len, last) =
      connects-IsRound rest q1 s1 (omega arith) (λ z. live (sym (add_session-fd fd s s1 e1) ∙ z))
        r1 in
    let next = add_session-session_id fd s s1 e1 in
    (
      out,
      rw (connect_some fd s live) (rw e1 e),
      size ∙ size1,
      (len
          ∙ ap (λ t. t ++ numbered s1.session_id (accepted rest)) len1
          ∙ ap
              (λ id.
                (sockets s.sessions ++ numbered s.session_id (fd ∷ []))
                ++ numbered id (accepted rest))
              next
          ∙ append_assoc (sockets s.sessions) (numbered s.session_id (fd ∷ [])) _),
      last,
    )

turn_none : (j : ℕ) → one_if (ltb j 0) ≡ 0
unfolding one_if
turn_none j = ground arith

one_le : (b : Bool) → one_if b ≤ 1
unfolding one_if
one_le true = omega arith
one_le false = omega arith

-- From a start with no sessions, a pool that is not empty and whose next loop is its first,
-- and an open socket, every socket that is
-- accepted up to the first failure of accept becomes a session on it, in their order and numbered
-- from what follows m_sessionId, modulo 2 ^ 32; nothing behind that failure does; and no loop has more
-- than one session more than another.
pub on_connects_lem :
    (answers : List (Option ℕ)) (s : TcpServer) (i j : ℕ)
    → s.pool.no ≡ 0
    → s.fd ≢ 0
    → s.sessions ≡ []
    → i < s.pool.size
    → j < s.pool.size
    → (out : TcpServer) × (on_connects answers s ≡ ok out)
      × (sockets out.sessions ≡ numbered s.session_id (accepted answers))
      × (load i out.sessions ≤ load j out.sessions + 1)
on_connects_lem answers s i j start live empty hi hj =
    let none_yet : (k : ℕ) → load k s.sessions ≡ 0 = λ k. ap (load k) empty in
    let first : (k : ℕ) → one_if (ltb k s.pool.no) ≡ 0 =
      λ k. ap (λ n. one_if (ltb k n)) start ∙ turn_none k in
    let (out, e, size, len, (q, (le, loads))) =
      connects-IsRound answers 0 s (omega arith) live
        (omega arith, λ k h. omega (arith, none_yet k, first k)) in
    (
      out,
      e,
      len ∙ ap (λ ss. sockets ss ++ numbered s.session_id (accepted answers)) empty,
      omega (
        arith,
        loads i (omega arith),
        loads j (omega arith),
        one_le (ltb i out.pool.no),
        one_le (ltb j out.pool.no),
      ),
    )
