-- ===== src/PipelineStage/Peers.antt =====
-- A stage sends to the stage that receives from it.
use native.Mathlib.Nat.{div-add-mod, mod-lt, mod-eq_of_lt, add-mul-mod_self_left, mod_self}
use infini_train.Base.{
  ℕ, ◌+◌, ◌-◌, ◌*◌, ◌/◌, ◌%◌, ◌<◌, ◌≡◌, refl, sym, ◌∙◌, ap, arith, inl, inr, true, List, Option, ok,
  ◌==◌, Bool-cases, ==→≡, if◌then◌else◌, require-eq-ok, >>-eq-ok, ok-injective, ltb,
}
use infini_train.Base.Int.{ltb_ℤ, pos, negsuc}
use infini_train.PipelineStage.{
  StageError, stage_members, PipelineStage, new_stage, receive_peer, send_peer,
}

next_mod : (g n : ℕ) → 0 < n → (g + 1) % n ≡ (if g % n + 1 == n then 0 else g % n + 1)
next_mod g n h =
    let split : g + 1 ≡ (g % n + 1) + n * (g / n) = omega (arith, div-add-mod g n) in
    let same : (g + 1) % n ≡ (g % n + 1) % n =
      ap (λ (x : ℕ). x % n) split ∙ add-mul-mod_self_left (g % n + 1) n (g / n) in
    let low = mod-lt g h in
    elim (Bool-cases (g % n + 1 == n)) [
      | inl here ↦ rw here (same ∙ ap (λ (x : ℕ). x % n) (==→≡ _ _ here) ∙ mod_self n)
      | inr other ↦ rw other (same ∙ mod-eq_of_lt (ground (arith, low)))
    ]

module _ {M : Type 0} where
  abbrev Made : ℕ → ℕ → PipelineStage M → Type 0
  Made i n s =
      (i < n)
      × (s.stage_index ≡ pos i)
      × (s.num_stages ≡ pos n)
      × (s.prev_rank ≡ (if ltb 0 i then pos (i - 1) else negsuc 0))
      × (s.next_rank ≡ (if ltb (i + 1) n then pos (i + 1) else negsuc 0))

  members-Made :
      (i n : ℕ) (chunks : List (Option M))
      → ltb i n ≡ true
      → Made i n (stage_members (pos i) (pos n) chunks)
  unfolding stage_members
  members-Made i n chunks h = (ground (arith, h), refl, refl, ground (arith, h), ground (arith, h))

  new_stage-Made :
      (i n : ℕ) (chunks : List (Option M)) (s : PipelineStage M)
      → new_stage (pos i) (pos n) chunks ≡ ok s
      → Made i n s
  unfolding new_stage
  new_stage-Made i n chunks s e =
      let (a, e1) = >>-eq-ok _ _ e in
      let (b, e2) = >>-eq-ok _ _ e1 in
      let (c, e3) = >>-eq-ok _ _ e2 in
      let (d, e4) = >>-eq-ok _ _ e3 in
      let (f, e5) = >>-eq-ok _ _ e4 in
      let tested : ltb_ℤ (pos i) (pos n) ≡ true =
        require-eq-ok _ StageError.stage_index_outside c in
      let inside : ltb i n ≡ true = ground (arith, tested) in
      let is : s ≡ stage_members (pos i) (pos n) chunks = sym (ok-injective e5) in
      rw is (members-Made i n chunks inside)

  -- For two stages of the same positive number of stages, one with the index of a chunk id modulo
  -- that number and one with the index of the next chunk id modulo it, as `BuildDefault` deals the
  -- chunks: the first stage sends its activations to the second, which receives from the first.
  pub peers_match :
      (g n : ℕ) (cs cs' : List (Option M)) (s s' : PipelineStage M)
      → 0 < n
      → new_stage (pos (g % n)) (pos n) cs ≡ ok s
      → new_stage (pos ((g + 1) % n)) (pos n) cs' ≡ ok s'
      → (send_peer s ≡ s'.stage_index) × (receive_peer s' ≡ s.stage_index)
  unfolding send_peer receive_peer
  peers_match g n cs cs' s s' h e e' =
      let made = new_stage-Made (g % n) n cs s e in
      let made' = new_stage-Made ((g + 1) % n) n cs' s' e' in
      let next = next_mod g n h in
      rw (made.1, made.2, made.4, made'.1, made'.2, made'.3)
        (ground (arith, next, made.0), ground (arith, next, made.0))
