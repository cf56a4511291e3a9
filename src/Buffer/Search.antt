-- ===== src/Buffer/Search.antt =====
-- The search for a packet's head in Buffer::getPack ends.
use uiconnect.Base.{
  ℕ, zero, suc, ◌+◌, ◌*◌, ◌≤◌, ◌<◌, ◌≡◌, refl, ap, ◌∙◌, Bool, true, false, ◌||◌, ltb, ltb→ge, ◌==◌,
  arith,
}
use uiconnect.Base.Outcome.{Outcome, ok, bind_cong}
use uiconnect.ByteArray.{ByteArray, get_unread_size}
use uiconnect.Buffer.{read_host, find_head}

or_congruent :
    (c d : Bool) (x : Outcome ℕ) {y z : Outcome ℕ}
    → (d ≡ false → y ≡ z)
    → elim (c || d) [ true ↦ x | false ↦ y ] ≡ elim (c || d) [ true ↦ x | false ↦ z ]
or_congruent true d x e = refl
or_congruent false true x e = refl
or_congruent false false x e = e refl

-- One more round changes nothing.
find_head_step :
    (fuel : ℕ) (a : ByteArray) (pos : ℕ)
    → 0 < fuel
    → a.write_pos < pos + 2 * fuel
    → find_head (suc fuel) a pos ≡ find_head fuel a pos
unfolding find_head
find_head_step zero a pos h k = absurd (omega arith)
find_head_step (suc fuel) a pos h k =
    bind_cong (read_host a 2 pos) (read_host a 2 pos) _ _ refl λ header.
      or_congruent (header == 0xFEFF) (ltb a.write_pos (pos + 2)) (ok (pos + 2)) λ inside.
        let le = ltb→ge a.write_pos (pos + 2) inside in
        find_head_step fuel a (pos + 2) (omega arith) (omega arith)

-- The rounds given to the search in getPack are enough: with any number of rounds more it gives
-- the same.
pub find_head_enough :
    (more : ℕ) (a : ByteArray)
    → a.read_pos ≤ a.write_pos
    → find_head (more + suc (suc (get_unread_size a))) a a.read_pos
      ≡ find_head (suc (suc (get_unread_size a))) a a.read_pos
find_head_enough zero a h =
    let rounds = suc (suc (get_unread_size a)) in
    let e : 0 + rounds ≡ rounds = omega arith in ap (λ n. find_head n a a.read_pos) e
find_head_enough (suc more) a h =
    let rounds = suc (suc (get_unread_size a)) in
    let e : suc more + rounds ≡ suc (more + rounds) = omega arith in
    ap (λ n. find_head n a a.read_pos) e
    ∙ find_head_step (more + rounds) a a.read_pos (omega arith) (omega arith)
    ∙ find_head_enough more a h
