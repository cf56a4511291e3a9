-- ===== src/Http/Connection/Ends.antt =====
-- Whether the loop of HttpConnection::onRead ends.
use uiconnect.Base.{
  ℕ, zero, suc, ◌<◌, ◌≡◌, ◌≢◌, refl, sym, ap, ◌∙◌, ◌⊎◌, inl, inr, Bool, true, false, not, Option,
  none, some, List, [], ◌==◌, Bool-cases, if-elim, if◌then◌else◌, arith,
}
use mathlib.Core.Path.{subst}
use uiconnect.Base.Text.{codes}
use uiconnect.Base.Outcome.{Outcome, ok, fault, bind_ok, Outcome-cases, ok-injective}
use uiconnect.ByteArray.{ByteArray, get_unread_size}
use uiconnect.ByteArray.Iov.{IoVec}
use uiconnect.Buffer.{find}
use uiconnect.Net.Channel.{Env}
use uiconnect.Net.Socket.{Sent}
use uiconnect.Net.Connection.{Connection, on_close}
use uiconnect.Http.Names.{to_method, invalid_method}
use uiconnect.Http.Parser.{RequestRun, ResponseRun}
use uiconnect.Http.Connection.{
  HttpConnection, add_close, Round, again, stop, is_response, round_word, round_found, round,
  read_loop,
}
use uiconnect.Http.Connection.Rounds.{unread, GoesOn, stopped, request_goes_on, response_goes_on}

not_none {ℓ} : {A : Type ℓ} {a : A} → some a ≡ none → ⊥
not_none e = cc

-- The first word of the unread bytes is neither the name of a method nor has one of the versions.
abbrev pub IsWrong : ByteArray → Type 0
IsWrong a =
    (pos : ℕ) × (word : List ℕ) × ((get_unread_size a == 0) ≡ false)
    × (find a (codes " ") [] 20 ≡ ok (some pos, word))
    × (not (to_method word == invalid_method) ≡ false)
    × (is_response word ≡ false)

on_close-read_buffer : (env : Env) (c : Connection) → (on_close env c).read_buffer ≡ c.read_buffer
unfolding on_close
on_close-read_buffer env c = ground arith

module _ (parse_request : List ℕ → RequestRun) (parse_response : List ℕ → ResponseRun)
    (atoi : List ℕ → ℕ) (env : Env) (kernel : List IoVec → Sent) where
  word_cases :
      (c : HttpConnection) (r : Round) (pos : ℕ) (word : List ℕ)
      → (get_unread_size c.tcp.read_buffer == 0) ≡ false
      → find c.tcp.read_buffer (codes " ") [] 20 ≡ ok (some pos, word)
      → round_word parse_request parse_response atoi env kernel c word ≡ ok r
      → GoesOn (unread c) r ⊎ IsWrong c.tcp.read_buffer
  unfolding round_word
  word_cases c r pos word left found =
      let P : Outcome Round → Type 0 =
        λ m. m ≡ ok r → GoesOn (unread c) r ⊎ IsWrong c.tcp.read_buffer in
      if-elim P (not (to_method word == invalid_method))
        (λ h q. inl (request_goes_on parse_request parse_response atoi env kernel c r q))
        (λ h.
          if-elim P (is_response word)
            (λ h' q. inl (response_goes_on parse_request parse_response atoi env kernel c r q))
            (λ h' q. inr (pos, word, left, found, h, h')))

  found_cases :
      (c : HttpConnection) (r : Round) (found : Option ℕ × List ℕ)
      → (get_unread_size c.tcp.read_buffer == 0) ≡ false
      → find c.tcp.read_buffer (codes " ") [] 20 ≡ ok found
      → round_found parse_request parse_response atoi env kernel c found ≡ ok r
      → GoesOn (unread c) r ⊎ IsWrong c.tcp.read_buffer
  unfolding round_found
  found_cases c r (none, word) left e q = inl (stopped (unread c) c r q)
  found_cases c r (some pos, word) left e q = word_cases c r pos word left e q

  round_cases :
      (c : HttpConnection) (r : Round)
      → round parse_request parse_response atoi env kernel c ≡ ok r
      → GoesOn (unread c) r ⊎ IsWrong c.tcp.read_buffer
  unfolding round
  round_cases c r =
      if-elim (λ m. m ≡ ok r → GoesOn (unread c) r ⊎ IsWrong c.tcp.read_buffer)
        (get_unread_size c.tcp.read_buffer == 0) (λ h q. inl (stopped (unread c) c r q))
        (λ h q.
          let (f, found, q') = bind_ok (find c.tcp.read_buffer (codes " ") [] 20) _ q in
          found_cases c r f h found q')

  add_close_keeps :
      (c : HttpConnection)
      → env.loop_alive ≡ true
      → (c' : HttpConnection) × (add_close env c ≡ ok c') × (c'.tcp.read_buffer ≡ c.tcp.read_buffer)
  unfolding add_close
  add_close_keeps c alive =
      let closed = record c { tcp = on_close env c.tcp } in
      let queued = record c { close_tasks = suc c.close_tasks } in
      let m : Bool → Outcome HttpConnection = λ b. if b then ok closed else ok queued in
      let e = ap (λ b. if b then m env.in_thread else fault) alive in
      (elim (Bool-cases env.in_thread) [
        | inl h ↦ (closed, e ∙ ap m h, on_close-read_buffer env c.tcp)
        | inr h ↦ (queued, e ∙ ap m h, refl)
      ])

  wrong_round :
      (c : HttpConnection)
      → env.loop_alive ≡ true
      → IsWrong c.tcp.read_buffer
      → (c' : HttpConnection) × (round parse_request parse_response atoi env kernel c
          ≡ ok (again c'))
        × (c'.tcp.read_buffer ≡ c.tcp.read_buffer)
  unfolding round round_word
  wrong_round c alive (pos, word, left, found, not_method, not_response) =
      let (c', added, same) = add_close_keeps c alive in
      (c', rw left (rw found (rw not_method (rw not_response (rw added refl)))), same)

  -- Where the first word is neither, the loop takes any number of rounds and does not end.
  pub read_loop-IsWrong :
      (c : HttpConnection) (fuel : ℕ)
      → env.loop_alive ≡ true
      → IsWrong c.tcp.read_buffer
      → read_loop parse_request parse_response atoi env kernel fuel c ≡ ok none
  unfolding read_loop
  read_loop-IsWrong c zero alive wrong = refl
  read_loop-IsWrong c (suc fuel) alive wrong =
      let (c', again_so, same) = wrong_round c alive wrong in
      rw again_so (read_loop-IsWrong c' fuel alive (subst IsWrong (sym same) wrong))

  never :
      (c c' : HttpConnection) (fuel : ℕ)
      → round parse_request parse_response atoi env kernel c ≡ ok (again c')
      → ((n : ℕ) → read_loop parse_request parse_response atoi env kernel n c' ≡ ok none)
      → read_loop parse_request parse_response atoi env kernel fuel c ≡ ok none
  unfolding read_loop
  never c c' zero e all = refl
  never c c' (suc fuel) e all = rw e (all fuel)

  -- The loop ends within as many rounds as there are unread bytes, and one more, or it never ends.
  pub read_loop_lem :
      (c : HttpConnection) (n : ℕ)
      → env.loop_alive ≡ true
      → unread c < n
      → (read_loop parse_request parse_response atoi env kernel n c ≢ ok none)
        ⊎ ((fuel : ℕ) → read_loop parse_request parse_response atoi env kernel fuel c ≡ ok none)
  unfolding read_loop
  read_loop_lem c zero alive lt = absurd (omega arith)
  read_loop_lem c (suc n) alive lt =
      let m = round parse_request parse_response atoi env kernel c in
      (elim (Outcome-cases m) [
        | inl (again c', e) ↦ (elim (round_cases c (again c') e) [
          | inl less ↦ (elim (read_loop_lem c' n alive (omega arith)) [
            | inl ends ↦ inl (rw e ends)
            | inr all ↦ inr (λ fuel. never c c' fuel e all)
          ])
          | inr wrong ↦ inr (λ fuel. read_loop-IsWrong c fuel alive wrong)
        ])
        | inl (stop c', e) ↦ inl (rw e (λ h. not_none (ok-injective h)))
        | inr (inl e) ↦ inl (rw e (λ h. cc))
        | inr (inr e) ↦ inl (rw e (λ h. cc))
      ])
